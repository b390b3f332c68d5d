-- ===== src/Worktree/Cache/Sizes/Budget.antt =====
-- The byte budget of a pool of crates/worktree/src/lib.rs, which a job tests when it begins and adds
-- to when its fetch ends, with other jobs in between.
use native.Mathlib.Nat.{add-mul, one-mul}
use git_lazy_mount.Prelude.{
  ℕ, zero, suc, ◌+◌, ◌*◌, ◌≤◌, ◌≡◌, refl, false, List, [], ◌∷◌, arith, leb, if◌then◌else◌,
  Bool-cases, inl, inr,
}

-- A worker takes a job; a job ends with so many bytes, or with an error.
pub data Event : Type 0 where
  begins failed : Event
  fetched : ℕ → Event

pub record Meter : Type 0 where
  pub bytes : ℕ
  pub idle : ℕ
  pub busy : ℕ

-- A job that finds the budget spent ends at once.
begin : ℕ → ℕ → Meter → Meter
begin budget zero m = m
begin budget (suc n) m =
    if leb budget m.bytes then m else record { bytes = m.bytes; idle = n; busy = m.busy + 1 }

finish : ℕ → ℕ → Meter → Meter
finish size zero m = m
finish size (suc n) m = record { bytes = m.bytes + size; idle = m.idle + 1; busy = n }

unfoldable pub meter : ℕ → Event → Meter → Meter
unfolding begin finish
meter budget begins m = begin budget (m.idle) m
meter budget (fetched size) m = finish size (m.busy) m
meter budget failed m = finish 0 (m.busy) m

unfoldable pub metered : ℕ → List Event → Meter → Meter
unfolding meter
metered budget [] m = m
metered budget (e ∷ es) m = metered budget es (meter budget e m)

unfoldable pub Within : ℕ → List Event → Type 0
Within limit [] = Unit {0}
Within limit (fetched size ∷ es) = (size ≤ limit) × Within limit es
Within limit (e ∷ es) = Within limit es

record IsMetered (budget limit threads : ℕ) (m : Meter) : Type 0 where
  bound : m.bytes ≤ budget + m.idle * limit
  workers : m.idle + m.busy ≡ threads

begin-IsMetered :
    (budget limit threads n : ℕ) (m : Meter)
    → m.idle ≡ n
    → IsMetered budget limit threads m
    → IsMetered budget limit threads (begin budget n m)
unfolding begin
begin-IsMetered budget limit threads zero m e i = i
begin-IsMetered budget limit threads (suc n) m e i = elim (Bool-cases (leb budget m.bytes)) [
  | inl h ↦ rw h i
  | inr h ↦
      rw h (record {
        bound = small budget m.bytes (n * limit) h;
        workers = omega (arith, i.workers, e);
      })
]
  where
    small : (b x k : ℕ) → leb b x ≡ false → x ≤ b + k
    small b x k h = ground (arith, h)

finish-IsMetered :
    (budget limit threads size n : ℕ) (m : Meter)
    → size ≤ limit
    → m.busy ≡ n
    → IsMetered budget limit threads m
    → IsMetered budget limit threads (finish size n m)
unfolding finish
finish-IsMetered budget limit threads size zero m le e i = i
finish-IsMetered budget limit threads size (suc n) m le e i = record {
  bound = omega (arith, i.bound, le, add-mul m.idle 1 limit, one-mul limit);
  workers = omega (arith, i.workers, e);
}

metered-IsMetered :
    (budget limit threads : ℕ) (es : List Event) (m : Meter)
    → Within limit es
    → IsMetered budget limit threads m
    → IsMetered budget limit threads (metered budget es m)
unfolding metered meter Within
metered-IsMetered budget limit threads [] m w i = i
metered-IsMetered budget limit threads (begins ∷ es) m w i =
    metered-IsMetered budget limit threads es (begin budget m.idle m) w
      (begin-IsMetered budget limit threads m.idle m refl i)
metered-IsMetered budget limit threads (failed ∷ es) m w i =
    metered-IsMetered budget limit threads es (finish 0 m.busy m) w
      (finish-IsMetered budget limit threads 0 m.busy m (omega arith) refl i)
metered-IsMetered budget limit threads (fetched size ∷ es) m w i =
    metered-IsMetered budget limit threads es (finish size m.busy m) w.1
      (finish-IsMetered budget limit threads size m.busy m w.0 refl i)

-- In a pool whose workers are idle at first and nothing is counted, jobs begin and end in any
-- order, and no blob is larger than a limit. The bytes counted stay within the budget and one blob
-- for each worker that is idle then, of which there are no more than there were.
pub metered_bounded :
    (budget limit threads : ℕ) (es : List Event)
    → Within limit es
    → ((metered budget es (record { bytes = 0; idle = threads; busy = 0 })).bytes
        ≤ budget
          + (metered budget es (record { bytes = 0; idle = threads; busy = 0 })).idle * limit)
      × ((metered budget es (record { bytes = 0; idle = threads; busy = 0 })).idle ≤ threads)
metered_bounded budget limit threads es w =
    let i =
      metered-IsMetered budget limit threads es (record { bytes = 0; idle = threads; busy = 0 }) w
        (record { bound = omega arith; workers = omega arith }) in
    (i.bound, omega (arith, i.workers))
