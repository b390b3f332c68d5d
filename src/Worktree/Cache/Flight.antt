-- ===== src/Worktree/Cache/Flight.antt =====
-- `materialize_path_inner` of crates/worktree/src/lib.rs, of one object, by any number of threads:
-- each turn of a thread is what it does up to the next point where another may come in between.
pub mod Once
pub mod Progress
use git_lazy_mount.Prelude.{
  ℕ, suc, ◌+◌, Bool, true, false, Option, none, some, List, [], ◌∷◌, Bytes, ◌==◌, if◌then◌else◌,
}

-- Where a thread is: before the first test of the file, before the lock, at the test under the lock,
-- at the fetch, at the rename of the file that is staged, and at its two ends.
pub data Place : Type 0 where
  entered waiting holding fetching returned failed : Place
  staged : Bytes → Place

-- The file under its final name, the thread that has the lock of the object, the fetches counted (in
-- `hydrations` and `hydrate_warms` together), how many attempts ended in an error, and where each
-- thread is.
pub record Flight : Type 0 where
  pub published : Option Bytes
  pub owner : Option ℕ
  pub counter : ℕ
  pub failures : ℕ
  pub place : ℕ → Place

pub moved : ℕ → Place → (ℕ → Place) → ℕ → Place
moved t p place u = if u == t then p else place u

at_place : ℕ → Place → Flight → Flight
unfolding moved
at_place t p s = record s { place = moved t p s.place }

-- The lock is released when the function is left.
leave : ℕ → Place → Flight → Flight
unfolding at_place
leave t p s = at_place t p (record s { owner = none })

first_test : ℕ → Option Bytes → Flight → Flight
unfolding at_place
first_test t (some b) s = at_place t returned s
first_test t none s = at_place t waiting s

-- A thread that finds the lock taken stays where it is.
lock : ℕ → Option ℕ → Flight → Flight
unfolding at_place
lock t (some u) s = s
lock t none s = at_place t holding (record s { owner = some t })

second_test : ℕ → Option Bytes → Flight → Flight
unfolding leave
second_test t (some b) s = leave t returned s
second_test t none s = at_place t fetching (record s { counter = s.counter + 1 })

-- A rename that fails is no error if the file is there.
not_renamed : ℕ → Option Bytes → Flight → Flight
unfolding leave
not_renamed t (some b) s = leave t returned s
not_renamed t none s = leave t failed (record s { failures = s.failures + 1 })

-- `good` says whether the fetch or the rename of this turn succeeds; `blob` is what Git has.
step_at : Bytes → Bool → ℕ → Place → Flight → Flight
unfolding first_test lock second_test not_renamed
step_at blob good t entered s = first_test t s.published s
step_at blob good t waiting s = lock t s.owner s
step_at blob good t holding s = second_test t s.published s
step_at blob true t fetching s = at_place t (staged blob) s
step_at blob false t fetching s = leave t failed (record s { failures = s.failures + 1 })
step_at blob true t (staged b) s = leave t returned (record s { published = some b })
step_at blob false t (staged b) s = not_renamed t s.published s
step_at blob good t returned s = s
step_at blob good t failed s = s

unfoldable pub turn : Bytes → ℕ × Bool → Flight → Flight
unfolding step_at
turn blob (t, good) s = step_at blob good t (s.place t) s

-- A schedule: whose turn it is, and how it ends.
unfoldable pub turns : Bytes → List (ℕ × Bool) → Flight → Flight
unfolding turn
turns blob [] s = s
turns blob (x ∷ rest) s = turns blob rest (turn blob x s)

-- Nothing is cached yet, and every thread calls the function.
unfoldable pub called : Flight
called = record { published = none; owner = none; counter = 0; failures = 0; place = λ t. entered }
