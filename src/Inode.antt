-- ===== src/Inode.antt =====
-- crates/fs-common/src/inode.rs: stable inode numbers. The mutex is held for each whole method, so
-- a method is one step. The counters are `u64`s that this model does not wrap: a table would have
-- to hand out 2^64 numbers first.
pub mod Consistency
pub mod Identity
pub mod Reuse
mod Tests
use git_lazy_mount.Prelude.{
  ℕ, ◌+◌, ◌-◌, Bool, true, false, ◌&&◌, Option, none, some, List, [], ◌∷◌, ◌==◌, if◌then◌else◌,
}
use git_lazy_mount.Prelude.Map
use git_lazy_mount.Prelude.Map.{Map, Key, nat_eq}
use git_lazy_mount.Core.RepoPath.{RepoPath, root, path_key}

abbrev pub root_ino : ℕ
root_ino = 1

pub record InodeEntry : Type 0 where
  pub path : Option RepoPath
  pub lookups : ℕ
  pub generation : ℕ

pub record InodeTable : Type 0 where
  pub next_ino : ℕ
  pub generation : ℕ
  pub path_to_ino : Map RepoPath ℕ
  pub entries : Map ℕ InodeEntry

unfoldable pub new : InodeTable
new = record {
  next_ino = root_ino + 1;
  generation = 1;
  path_to_ino = Map.insert root root_ino [];
  entries = Map.insert root_ino (record { path = some root; lookups = 1; generation = 1 }) [];
}

-- `get_mut(&ino).expect("entry exists")`: `none` is the panic.
counted : ℕ → Option InodeEntry → InodeTable → Option ((ℕ × ℕ) × InodeTable)
counted ino none t = none
counted ino (some e) t = some (
  (ino, e.generation),
  record t { entries = Map.insert ino (record e { lookups = e.lookups + 1 }) t.entries },
)

allocated : RepoPath → InodeTable → (ℕ × ℕ) × InodeTable
allocated path t = (
  (t.next_ino, t.generation),
  record t {
    next_ino = t.next_ino + 1;
    path_to_ino = Map.insert path t.next_ino t.path_to_ino;
    entries =
        Map.insert t.next_ino (record { path = some path; lookups = 1; generation = t.generation })
          t.entries;
  },
)

-- `lookup`: the inode number and the generation.
unfoldable pub lookup : RepoPath → InodeTable → Option ((ℕ × ℕ) × InodeTable)
unfolding counted allocated
lookup path t = elim (Map.get path t.path_to_ino) [
  | some ino ↦ counted ino (Map.get ino t.entries) t
  | none ↦ some (allocated path t)
]

abbrev path_of_entry : Option InodeEntry → Option RepoPath
path_of_entry none = none
path_of_entry (some e) = e.path

unfoldable pub path_of : InodeTable → ℕ → Option RepoPath
path_of t ino = path_of_entry (Map.get ino t.entries)

abbrev is_none {ℓ} : {A : Type ℓ} → Option A → Bool
is_none none = true
is_none (some a) = false

-- `forget` on an entry that is there. `-` on ℕ is `saturating_sub`.
forgotten : ℕ → ℕ → Option InodeEntry → InodeTable → InodeTable
forgotten ino n none t = t
forgotten ino n (some e) t =
    if ((e.lookups - n) == 0) && is_none e.path
    then record t { entries = Map.remove ino t.entries }
    else record t { entries = Map.insert ino (record e { lookups = e.lookups - n }) t.entries }

unfoldable pub forget : ℕ → ℕ → InodeTable → InodeTable
unfolding forgotten
forget ino n t = if ino == root_ino then t else forgotten ino n (Map.get ino t.entries) t

-- `if let Some(e) = entries.get_mut(&ino) { e.path = path }`.
set_path : ℕ → Option RepoPath → Map ℕ InodeEntry → Map ℕ InodeEntry
set_path ino path m = elim (Map.get ino m) [
  | none ↦ m
  | some e ↦ Map.insert ino (record e { path = path }) m
]

evict : Option ℕ → Map ℕ InodeEntry → Map ℕ InodeEntry
unfolding set_path
evict none m = m
evict (some prev) m = set_path prev none m

pub renamed : RepoPath → RepoPath → ℕ → InodeTable → InodeTable
unfolding evict
renamed old new_path ino t =
    let names = Map.remove old t.path_to_ino in
    record t {
      path_to_ino = Map.insert new_path ino names;
      entries = set_path ino (some new_path) (evict (Map.get new_path names) t.entries);
    }

unfoldable pub rename : RepoPath → RepoPath → InodeTable → InodeTable
unfolding renamed
rename old new_path t = elim (Map.get old t.path_to_ino) [
  | none ↦ t
  | some ino ↦ renamed old new_path ino t
]

pub unlinked_entry : ℕ → Option InodeEntry → Map ℕ InodeEntry → Map ℕ InodeEntry
unlinked_entry ino none m = m
unlinked_entry ino (some e) m =
    if e.lookups == 0 then Map.remove ino m else Map.insert ino (record e { path = none }) m

unfoldable pub unlink : RepoPath → InodeTable → InodeTable
unfolding unlinked_entry
unlink path t = elim (Map.get path t.path_to_ino) [
  | none ↦ t
  | some ino ↦ record t {
    path_to_ino = Map.remove path t.path_to_ino;
    entries = unlinked_entry ino (Map.get ino t.entries) t.entries;
  }
]

unfoldable pub bump_generation : InodeTable → ℕ × InodeTable
bump_generation t = (t.generation + 1, record t { generation = t.generation + 1 })

abbrev is_some {ℓ} : {A : Type ℓ} → Option A → Bool
is_some none = false
is_some (some a) = true

unfoldable pub is_live : InodeTable → ℕ → Bool
is_live t ino = is_some (Map.get ino t.entries)
