-- ===== src/Inode/Consistency/Lookup.antt =====
-- `lookup` and `forget` keep the maps of an inode table consistent.
use git_lazy_mount.Prelude.{
  ℕ, ◌+◌, ◌-◌, ◌≡◌, refl, inl, inr, ◌&&◌, Option, none, some, arith, ◌==◌, Bool-cases,
}
use git_lazy_mount.Prelude.Map
use git_lazy_mount.Prelude.Map.{Map, nat_eq, get-insert, get-remove}
use git_lazy_mount.Core.RepoPath.{RepoPath, path_key, path_eq_iff}
use git_lazy_mount.Inode.{
  InodeEntry, InodeTable, root_ino, lookup, counted, allocated, path_of, path_of_entry, is_none,
  forget, forgotten, is_live,
}
use git_lazy_mount.Inode.Consistency.{
  IsConsistent, SameNames-IsConsistent, write-SameNames, remove-SameNames,
}

allocated-IsConsistent :
    (p : RepoPath) (t : InodeTable)
    → Map.get p t.path_to_ino ≡ none
    → IsConsistent t
    → IsConsistent (allocated p t).1
unfolding allocated path_of is_live
allocated-IsConsistent p t h c = record {
  named = λ q i k. ground (
    arith,
    get-insert p q t.next_ino t.path_to_ino,
    get-insert t.next_ino i (record { path = some p; lookups = 1; generation = t.generation })
        t.entries,
    path_eq_iff p q,
    c.named q i,
    c.fresh i,
  );
  back = λ q i k. ground (
    arith,
    get-insert p q t.next_ino t.path_to_ino,
    get-insert t.next_ino i (record { path = some p; lookups = 1; generation = t.generation })
        t.entries,
    path_eq_iff p q,
    c.back q i,
  );
  fresh = λ i k. ground (
    arith,
    get-insert t.next_ino i (record { path = some p; lookups = 1; generation = t.generation })
        t.entries,
    c.fresh i,
  );
}

-- On a consistent table lookup does not panic, and leaves a consistent table.
pub lookup-IsConsistent :
    (p : RepoPath) (t : InodeTable)
    → IsConsistent t
    → (r : ℕ × ℕ) × (u : InodeTable) × (lookup p t ≡ some (r, u)) × IsConsistent u
unfolding lookup
lookup-IsConsistent p t c = cases (Map.get p t.path_to_ino) refl
  where
    old :
        (i : ℕ) (o : Option InodeEntry)
        → Map.get i t.entries ≡ o
        → path_of_entry o ≡ some p
        → (r : ℕ × ℕ) × (u : InodeTable) × (counted i o t ≡ some (r, u)) × IsConsistent u
    old i none e k = absurd (ground arith)
    old i (some e) g k =
        unfold counted in
        (
          (i, e.generation),
          record t { entries = Map.insert i (record e { lookups = e.lookups + 1 }) t.entries },
          refl,
          SameNames-IsConsistent t _
              (write-SameNames t i e (record e { lookups = e.lookups + 1 }) g refl) c,
        )

    cases :
        (o : Option ℕ)
        → Map.get p t.path_to_ino ≡ o
        → (r : ℕ × ℕ) × (u : InodeTable) × (lookup p t ≡ some (r, u)) × IsConsistent u
    cases none e =
        ((allocated p t).0, (allocated p t).1, rw (e, lookup), allocated-IsConsistent p t e c)
    cases (some i) e =
        let (r, u, f, k) = old i (Map.get i t.entries) refl (unfold path_of in c.named p i e) in
        (r, u, rw (e, lookup) f, k)

-- forget leaves a consistent table consistent.
pub forget-IsConsistent : (i n : ℕ) (t : InodeTable) → IsConsistent t → IsConsistent (forget i n t)
unfolding forget
forget-IsConsistent i n t c = elim (Bool-cases (i == root_ino)) [
  | inl h ↦ rw h c
  | inr h ↦ rw h (cases (Map.get i t.entries) refl)
]
  where
    cases : (o : Option InodeEntry) → Map.get i t.entries ≡ o → IsConsistent (forgotten i n o t)
    cases none e = unfold forgotten in c
    cases (some f) e =
        unfold forgotten in
        elim (Bool-cases (((f.lookups - n) == 0) && is_none f.path)) [
          | inl h ↦ rw h (SameNames-IsConsistent t _ (remove-SameNames t i f e (ground arith)) c)
          | inr h ↦ rw h (
              SameNames-IsConsistent t _
                (write-SameNames t i f (record f { lookups = f.lookups - n }) e refl) c)
        ]
