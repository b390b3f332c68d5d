-- ===== src/Inode/Tests.antt =====
-- The inode table of crates/fs-common/src/inode.rs after one lookup, and the theorems at it.
use git_lazy_mount.Prelude.{
  ℕ, ◌≡◌, refl, subst, true, false, none, some, List, [], ◌∷◌, arith, codes, bytes_eq,
}
use git_lazy_mount.Prelude.Map
use git_lazy_mount.Prelude.Map.{Map, nat_eq}
use git_lazy_mount.Core.RepoPath.{RepoPath, path_key, root}
use git_lazy_mount.Inode.{
  InodeTable, InodeEntry, new, lookup, rename, unlink, forget, is_live, path_of, root_ino,
}
use git_lazy_mount.Inode.Consistency.{IsConsistent, new-IsConsistent}
use git_lazy_mount.Inode.Consistency.Lookup.{lookup-IsConsistent}
use git_lazy_mount.Inode.Identity.{rename_identity, unlink_retention, forget_release}
use git_lazy_mount.Inode.Reuse.{Op, look, remove_name, drop_refs, run, never_reused}

abbrev file_a : RepoPath
file_a = record { bytes = codes "a" }

abbrev file_b : RepoPath
file_b = record { bytes = codes "b" }

abbrev entry_a : InodeEntry
entry_a = record { path = some file_a; lookups = 1; generation = 1 }

-- The table after `lookup` of `a` in a new one.
abbrev table : InodeTable
table = record {
  next_ino = 3;
  generation = 1;
  path_to_ino = (file_a, 2) ∷ (root, root_ino) ∷ [];
  entries =
      (2, entry_a) ∷ (root_ino, record { path = some root; lookups = 1; generation = 1 }) ∷ [];
}

table_is : lookup file_a new ≡ some ((2, 1), table)
unfolding lookup new Map.get Map.insert Map.remove bytes_eq
table_is = refl

table-IsConsistent : IsConsistent table
table-IsConsistent =
    let (r, u, e, c) = lookup-IsConsistent file_a new new-IsConsistent in
    subst IsConsistent (same r u e) c
  where
    same : (r : ℕ × ℕ) (u : InodeTable) → lookup file_a new ≡ some (r, u) → u ≡ table
    same r u e = ground (arith, table_is)

name_a : Map.get file_a table.path_to_ino ≡ some 2
unfolding Map.get bytes_eq
name_a = refl

rename_identity_example :
    (path_of (rename file_a file_b table) 2 ≡ some file_b)
    × (Map.get file_b (rename file_a file_b table).path_to_ino ≡ some 2)
rename_identity_example = rename_identity file_a file_b 2 table table-IsConsistent name_a

entry_two : Map.get 2 table.entries ≡ some entry_a
unfolding Map.get
entry_two = refl

unlink_retention_example :
    (path_of (unlink file_a table) 2 ≡ none)
    × (is_live (unlink file_a table) 2 ≡ true)
    × (Map.get file_a (unlink file_a table).path_to_ino ≡ none)
unlink_retention_example = unlink_retention file_a 2 entry_a table name_a entry_two

abbrev unlinked_a : InodeEntry
unlinked_a = record entry_a { path = none }

entry_gone : Map.get 2 (unlink file_a table).entries ≡ some unlinked_a
unfolding unlink Map.get Map.insert Map.remove bytes_eq
entry_gone = refl

forget_release_example : is_live (forget 2 1 (unlink file_a table)) 2 ≡ false
forget_release_example = forget_release 2 1 unlinked_a (unlink file_a table) entry_gone refl

abbrev used : List Op
used = look file_a ∷ remove_name file_a ∷ drop_refs 2 1 ∷ []

abbrev after_use : InodeTable
after_use = record {
  next_ino = 3;
  generation = 1;
  path_to_ino = (root, root_ino) ∷ [];
  entries = (root_ino, record { path = some root; lookups = 1; generation = 1 }) ∷ [];
}

abbrev after_more : InodeTable
after_more = record {
  next_ino = 4;
  generation = 1;
  path_to_ino = (file_a, 3) ∷ (root, root_ino) ∷ [];
  entries =
      (3, entry_a) ∷ (root_ino, record { path = some root; lookups = 1; generation = 1 }) ∷ [];
}

never_reused_example : is_live after_more 2 ≡ false
never_reused_example =
    never_reused used (look file_a ∷ []) after_use after_more 2 used_is more_is (omega arith)
      (unfold is_live Map.get in refl)
  where
    used_is : run used new ≡ some after_use
    used_is = unfold run lookup unlink forget new Map.get Map.insert Map.remove bytes_eq in refl

    more_is : run (look file_a ∷ []) after_use ≡ some after_more
    more_is = unfold run lookup Map.get Map.insert Map.remove bytes_eq in refl
