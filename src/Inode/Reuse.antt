-- ===== src/Inode/Reuse.antt =====
-- Inode numbers over any sequence of method calls.
use git_lazy_mount.Prelude.{
  ℕ, ◌+◌, ◌-◌, ◌<◌, ◌≤◌, ◌≡◌, refl, sym, subst, ◌∙◌, inl, inr, Bool, true, false, ◌&&◌, Option,
  none, some, List, [], ◌∷◌, arith, ◌==◌, ==_iff, Bool-cases,
}
use git_lazy_mount.Prelude.Map
use git_lazy_mount.Prelude.Map.{Map, nat_eq, get-insert, get-remove}
use git_lazy_mount.Core.RepoPath.{RepoPath, path_key}
use git_lazy_mount.Inode.{
  InodeEntry, InodeTable, root_ino, new, lookup, counted, allocated, is_some, is_none, forget,
  forgotten, rename, unlink, is_live, bump_generation,
}
use git_lazy_mount.Inode.Consistency.{IsConsistent, new-IsConsistent, bump_generation-IsConsistent}
use git_lazy_mount.Inode.Consistency.Lookup.{lookup-IsConsistent, forget-IsConsistent}
use git_lazy_mount.Inode.Consistency.Unlink.{unlink-IsConsistent, unlinked_DropsName}
use git_lazy_mount.Inode.Consistency.Rename.{rename-IsConsistent, renamed-MovesName}

-- One call of a method that changes the table.
pub data Op : Type 0 where
  look : RepoPath → Op
  drop_refs : ℕ → ℕ → Op
  move : RepoPath → RepoPath → Op
  remove_name : RepoPath → Op
  bump : Op

abbrev table_of : Option ((ℕ × ℕ) × InodeTable) → Option InodeTable
table_of none = none
table_of (some (r, t)) = some t

-- `none` is a panic.
unfoldable pub step : Op → InodeTable → Option InodeTable
step (look p) t = table_of (lookup p t)
step (drop_refs i n) t = some (forget i n t)
step (move old new_path) t = some (rename old new_path t)
step (remove_name p) t = some (unlink p t)
step bump t = some (bump_generation t).1

abbrev and_then : (InodeTable → Option InodeTable) → Option InodeTable → Option InodeTable
and_then f none = none
and_then f (some t) = f t

unfoldable pub run : List Op → InodeTable → Option InodeTable
unfolding step
run [] t = some t
run (op ∷ ops) t = and_then (run ops) (step op t)

-- What one call guarantees.
record Advances (t u : InodeTable) : Type 0 where
  consistent : IsConsistent u
  next : t.next_ino ≤ u.next_ino
  live : (i : ℕ) → i < t.next_ino → is_live u i ≡ true → is_live t i ≡ true

live-write :
    (i k : ℕ) (e f : InodeEntry) (m : Map ℕ InodeEntry)
    → Map.get i m ≡ some e
    → is_some (Map.get k (Map.insert i f m)) ≡ is_some (Map.get k m)
live-write i k e f m h = ground (arith, get-insert i k f m, ==_iff i k)

live-remove :
    (i k : ℕ) (m : Map ℕ InodeEntry)
    → is_some (Map.get k (Map.remove i m)) ≡ true
    → is_some (Map.get k m) ≡ true
live-remove i k m h = ground (arith, get-remove i k m)

forget_live :
    (i n k : ℕ) (t : InodeTable)
    → (is_live (forget i n t) k ≡ true → is_live t k ≡ true)
      × ((forget i n t).next_ino ≡ t.next_ino)
forget_live i n k t = elim (Bool-cases (i == root_ino)) [
  | inl h ↦ unfold forget in rw h (λ g. g, refl)
  | inr h ↦ unfold forget in rw h (cases (Map.get i t.entries) refl)
]
  where
    cases :
        (o : Option InodeEntry)
        → Map.get i t.entries ≡ o
        → (is_live (forgotten i n o t) k ≡ true → is_live t k ≡ true)
          × ((forgotten i n o t).next_ino ≡ t.next_ino)
    cases none e = unfold forgotten in (λ g. g, refl)
    cases (some f) e =
        unfold forgotten is_live in
        elim (Bool-cases (((f.lookups - n) == 0) && is_none f.path)) [
          | inl h ↦ rw h (live-remove i k t.entries, refl)
          | inr h ↦ rw h (
            λ g. sym (live-write i k f (record f { lookups = f.lookups - n }) t.entries e) ∙ g,
            refl,
          )
        ]

rename_live :
    (old new_path : RepoPath) (k : ℕ) (t : InodeTable)
    → IsConsistent t
    → (is_live (rename old new_path t) k ≡ true → is_live t k ≡ true)
      × ((rename old new_path t).next_ino ≡ t.next_ino)
unfolding rename
rename_live old new_path k t c = cases (Map.get old t.path_to_ino) refl
  where
    cases :
        (o : Option ℕ)
        → Map.get old t.path_to_ino ≡ o
        → (is_live (rename old new_path t) k ≡ true → is_live t k ≡ true)
          × ((rename old new_path t).next_ino ≡ t.next_ino)
    cases none e = rw (e, rename) (λ g. g, refl)
    cases (some i) e =
        let m = renamed-MovesName old new_path i t e c in rw (e, rename) (m.live k, m.next)

unlink_live :
    (p : RepoPath) (k : ℕ) (t : InodeTable)
    → (is_live (unlink p t) k ≡ true → is_live t k ≡ true) × ((unlink p t).next_ino ≡ t.next_ino)
unfolding unlink
unlink_live p k t = cases (Map.get p t.path_to_ino) refl
  where
    cases :
        (o : Option ℕ)
        → Map.get p t.path_to_ino ≡ o
        → (is_live (unlink p t) k ≡ true → is_live t k ≡ true)
          × ((unlink p t).next_ino ≡ t.next_ino)
    cases none e = rw (e, unlink) (λ g. g, refl)
    cases (some i) e =
        let d = unlinked_DropsName p i (Map.get i t.entries) t refl in
        rw (e, unlink) (d.live k, d.next)

counted_live :
    (i : ℕ) (o : Option InodeEntry) (t : InodeTable) (r : ℕ × ℕ) (u : InodeTable)
    → Map.get i t.entries ≡ o
    → counted i o t ≡ some (r, u)
    → (k : ℕ) → (is_live u k ≡ is_live t k) × (u.next_ino ≡ t.next_ino)
unfolding counted is_live
counted_live i none t r u e h k = absurd (ground arith)
counted_live i (some f) t r u e h k =
    ground (arith, live-write i k f (record f { lookups = f.lookups + 1 }) t.entries e)

lookup_live :
    (p : RepoPath) (t : InodeTable) (r : ℕ × ℕ) (u : InodeTable)
    → lookup p t ≡ some (r, u)
    → (t.next_ino ≤ u.next_ino)
      × ((k : ℕ) → k < t.next_ino → is_live u k ≡ true → is_live t k ≡ true)
unfolding lookup
lookup_live p t r u h = cases (Map.get p t.path_to_ino) refl
  where
    cases :
        (o : Option ℕ)
        → Map.get p t.path_to_ino ≡ o
        → (t.next_ino ≤ u.next_ino)
          × ((k : ℕ) → k < t.next_ino → is_live u k ≡ true → is_live t k ≡ true)
    cases none e =
        unfold allocated is_live in
        (
          ground arith,
          λ k lt g. ground (
            arith,
            get-insert t.next_ino k
                (record { path = some p; lookups = 1; generation = t.generation }) t.entries,
          ),
        )
    cases (some i) e =
        let f : counted i (Map.get i t.entries) t ≡ some (r, u) = ground arith in
        let c = counted_live i (Map.get i t.entries) t r u refl f in
        (omega (arith, (c 0).1), λ k lt g. sym (c k).0 ∙ g)

step-Advances :
    (op : Op) (t : InodeTable)
    → IsConsistent t
    → (u : InodeTable) × (step op t ≡ some u) × Advances t u
unfolding step
step-Advances (look p) t c =
    let (r, u, e, k) = lookup-IsConsistent p t c in
    let l = lookup_live p t r u e in (u, rw e, record { consistent = k; next = l.0; live = l.1 })
step-Advances (drop_refs i n) t c = (
  forget i n t,
  refl,
  record {
    consistent = forget-IsConsistent i n t c;
    next = omega (arith, (forget_live i n 0 t).1);
    live = λ k lt. (forget_live i n k t).0;
  },
)
step-Advances (move old new_path) t c = (
  rename old new_path t,
  refl,
  record {
    consistent = rename-IsConsistent old new_path t c;
    next = omega (arith, (rename_live old new_path 0 t c).1);
    live = λ k lt. (rename_live old new_path k t c).0;
  },
)
step-Advances (remove_name p) t c = (
  unlink p t,
  refl,
  record {
    consistent = unlink-IsConsistent p t c;
    next = omega (arith, (unlink_live p 0 t).1);
    live = λ k lt. (unlink_live p k t).0;
  },
)
step-Advances bump t c = (
  (bump_generation t).1,
  refl,
  unfold bump_generation is_live in
      record {
        consistent = unfold bump_generation in bump_generation-IsConsistent t c;
        next = omega arith;
        live = λ k lt g. g;
      },
)

-- From a consistent table no sequence of calls panics; it ends in a consistent table, and no
-- number that was handed out before and is free is ever in use again.
pub run_lem :
    (ops : List Op) (t : InodeTable)
    → IsConsistent t
    → (u : InodeTable) × (run ops t ≡ some u)
      × IsConsistent u
      × (t.next_ino ≤ u.next_ino)
      × ((i : ℕ) → i < t.next_ino → is_live u i ≡ true → is_live t i ≡ true)
unfolding run
run_lem [] t c = (t, refl, c, omega arith, λ i lt g. g)
run_lem (op ∷ ops) t c =
    let (u, e, a) = step-Advances op t c in
    let (v, f, k, n, l) = run_lem ops u a.consistent in
    (v, rw e f, k, omega (arith, a.next, n), λ i lt g. a.live i lt (l i (omega (arith, a.next)) g))

-- After any sequence of calls on a new table and any further sequence of calls, none of which
-- panics, an inode number that was handed out in the first and was not live at its end is not live
-- at the end of the second.
pub never_reused :
    (before after : List Op) (t u : InodeTable) (i : ℕ)
    → run before new ≡ some t
    → run after t ≡ some u
    → i < t.next_ino
    → is_live t i ≡ false
    → is_live u i ≡ false
never_reused before after t u i h k lt dead =
    let (t', e, c, _, _) = run_lem before new new-IsConsistent in
    let same : t' ≡ t = cc (e, h) in
    let (u', f, _, _, l) = run_lem after t (subst IsConsistent same c) in
    let same' : u' ≡ u = cc (f, k) in
    free (is_live u i) refl (λ g. l i lt (subst (λ x. is_live x i ≡ true) (sym same') g))
  where
    free :
        (b : Bool)
        → is_live u i ≡ b
        → (is_live u i ≡ true → is_live t i ≡ true)
        → is_live u i ≡ false
    free false e f = e
    free true e f = absurd (ground (arith, f e))
