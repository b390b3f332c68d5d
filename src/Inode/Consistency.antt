-- ===== src/Inode/Consistency.antt =====
-- The two maps of an inode table agree. That each method keeps it so is shown in the modules below.
pub mod Lookup
pub mod Unlink
pub mod Rename
use git_lazy_mount.Prelude.{
  ℕ, ◌+◌, ◌-◌, ◌<◌, ◌≡◌, refl, ap, sym, ◌∙◌, ◌⊎◌, inl, inr, Bool, true, false, ◌&&◌, Option, none,
  some, List, [], ◌∷◌, arith, ◌==◌, ==_iff, ==_refl, if◌then◌else◌, Bool-cases, Option-cases,
  bytes_eq, bytes_eq_refl,
}
use git_lazy_mount.Prelude.Map
use git_lazy_mount.Prelude.Map.{Map, nat_eq, get-insert, get-remove}
use git_lazy_mount.Core.RepoPath.{RepoPath, root, path_key, path_eq_iff}
use git_lazy_mount.Inode.{
  InodeEntry, InodeTable, root_ino, new, lookup, counted, allocated, path_of, path_of_entry,
  is_none, is_some, forget, forgotten, set_path, evict, renamed, rename, unlinked_entry, unlink,
  bump_generation, is_live,
}

-- A path names an inode exactly when the inode's entry has that path, and every number in use is
-- below the next one.
pub record IsConsistent (t : InodeTable) : Type 0 where
  pub named : (p : RepoPath) (i : ℕ) → Map.get p t.path_to_ino ≡ some i → path_of t i ≡ some p
  pub back : (p : RepoPath) (i : ℕ) → path_of t i ≡ some p → Map.get p t.path_to_ino ≡ some i
  pub fresh : (i : ℕ) → is_live t i ≡ true → i < t.next_ino

live_of_path : (t : InodeTable) (i : ℕ) (p : RepoPath) → path_of t i ≡ some p → is_live t i ≡ true
unfolding path_of is_live
live_of_path t i p h = ground arith

-- A change of counters, generations and dead entries only.
record SameNames (t u : InodeTable) : Type 0 where
  names : (p : RepoPath) → Map.get p u.path_to_ino ≡ Map.get p t.path_to_ino
  paths : (i : ℕ) → path_of u i ≡ path_of t i
  live : (i : ℕ) → is_live u i ≡ true → is_live t i ≡ true
  next : u.next_ino ≡ t.next_ino

SameNames-IsConsistent : (t u : InodeTable) → SameNames t u → IsConsistent t → IsConsistent u
SameNames-IsConsistent t u s c = record {
  named = λ p i h. s.paths i ∙ c.named p i (sym (s.names p) ∙ h);
  back = λ p i h. s.names p ∙ c.back p i (sym (s.paths i) ∙ h);
  fresh = λ i h. rw s.next (c.fresh i (s.live i h));
}

-- One entry is written again with the path that it has.
write-SameNames :
    (t : InodeTable) (i : ℕ) (e f : InodeEntry)
    → Map.get i t.entries ≡ some e
    → f.path ≡ e.path
    → SameNames t (record t { entries = Map.insert i f t.entries })
unfolding path_of is_live
write-SameNames t i e f h s = record {
  names = λ p. refl;
  paths = λ k. ground (arith, get-insert i k f t.entries, ==_iff i k);
  live = λ k. ground (arith, get-insert i k f t.entries, ==_iff i k);
  next = refl;
}

remove-SameNames :
    (t : InodeTable) (i : ℕ) (e : InodeEntry)
    → Map.get i t.entries ≡ some e
    → e.path ≡ none
    → SameNames t (record t { entries = Map.remove i t.entries })
unfolding path_of is_live
remove-SameNames t i e h s = record {
  names = λ p. refl;
  paths = λ k. ground (arith, get-remove i k t.entries, ==_iff i k);
  live = λ k. ground (arith, get-remove i k t.entries, ==_iff i k);
  next = refl;
}

pub bump_generation-IsConsistent :
    (t : InodeTable) → IsConsistent t → IsConsistent (bump_generation t).1
unfolding bump_generation
bump_generation-IsConsistent t c =
    SameNames-IsConsistent t _
      (unfold path_of is_live in
        record { names = λ p. refl; paths = λ i. refl; live = λ i h. h; next = refl })
      c

pub new-IsConsistent : IsConsistent new
unfolding new path_of is_live Map.get Map.insert Map.remove bytes_eq
new-IsConsistent = record {
  named = λ p i h. ground (arith, path_eq_iff root p);
  back = λ p i h. ground (arith, path_eq_iff root p);
  fresh = λ i h. ground (arith, ==_iff root_ino i);
}
