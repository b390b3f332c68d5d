-- ===== src/Overlay.antt =====
-- crates/worktree/src/overlay.rs: the durable store of local changes. A sidecar file per changed
-- path, content files, and an index in memory. SHA-256 and the JSON codec are parameters. The
-- mutex is held while the index is read or changed.
pub mod Durable
mod Tests
use git_lazy_mount.Prelude.{
  ℕ, ◌+◌, Bool, Option, none, some, List, [], ◌∷◌, ◌++◌, Bytes, codes, length, take,
}
use git_lazy_mount.Prelude.Map
use git_lazy_mount.Prelude.Map.{Map, bytes_key}
use git_lazy_mount.Prelude.Result.{Result, ok, err}
use git_lazy_mount.Prelude.Decimal.{to_string}
use git_lazy_mount.Prelude.Io.{M, pure, gets, modify, io, io_ignored, fail, ◌>>=◌, ◌>>◌}
use git_lazy_mount.Core.RepoPath.{
  RepoPath, PathError, path_key, parent, file_name, join, from_bytes,
}
use git_lazy_mount.Core.GitMode.{GitMode}
use git_lazy_mount.Core.ObjectId.{ObjectId}

pub data OverlayEntry : Type 0 where
  file : Bytes → Bool → OverlayEntry
  symlink : Bytes → OverlayEntry
  dir tombstone : OverlayEntry
  base_ref : ObjectId → GitMode → OverlayEntry

pub record Sidecar : Type 0 where
  pub path : Bytes
  pub entry : OverlayEntry

-- `hex(sha256(..))`, and `serde_json` on sidecars.
pub record Codec : Type 0 where
  pub digest : Bytes → Bytes
  pub to_vec : Sidecar → Bytes
  pub from_slice : Bytes → Option Sidecar

abbrev pub Names : Type 0
Names = Map Bytes (Unit {0})

pub record Index : Type 0 where
  pub entries : Map RepoPath OverlayEntry
  pub children : Map RepoPath Names

-- `meta_dir` and `content_dir` as maps from file names to bytes; `content_seq` is `CONTENT_SEQ`.
pub record Overlay : Type 0 where
  pub meta : Map Bytes Bytes
  pub content : Map Bytes Bytes
  pub content_seq : ℕ
  pub index : Index

-- The labels that the source gives its errors.
pub data OverlayError : Type 0 where
  create_sidecar_tmp write_sidecar fsync_sidecar publish_sidecar : OverlayError
  copy_up_seed create_content open_content_failed stat_content not_an_overlay_file : OverlayError

abbrev pub Act : Type 0 → Type 0
Act A = M OverlayError Overlay A

empty_index : Index
empty_index = record { entries = []; children = [] }

or_empty : Option Names → Names
or_empty none = []
or_empty (some names) = names

-- `if let (Some(parent), Some(name))`: the root has neither.
add_child : Option RepoPath → Option Bytes → Map RepoPath Names → Map RepoPath Names
unfolding or_empty
add_child (some dir_path) (some name) m =
    Map.insert dir_path (Map.insert name tt (or_empty (Map.get dir_path m))) m
add_child _ _ m = m

unfoldable pub insert_index : RepoPath → OverlayEntry → Index → Index
unfolding add_child
insert_index path entry idx = record {
  entries = Map.insert path entry idx.entries;
  children = add_child (parent path) (file_name path) idx.children;
}

-- A directory that has no child left is dropped.
put_names : RepoPath → Names → Map RepoPath Names → Map RepoPath Names
put_names dir_path [] m = Map.remove dir_path m
put_names dir_path (n ∷ names) m = Map.insert dir_path (n ∷ names) m

drop_child : Option RepoPath → Option Bytes → Map RepoPath Names → Map RepoPath Names
unfolding put_names
drop_child (some dir_path) (some name) m = elim (Map.get dir_path m) [
  | none ↦ m
  | some names ↦ put_names dir_path (Map.remove name names) m
]
drop_child _ _ m = m

unfoldable pub remove_index : RepoPath → Index → Index
unfolding drop_child
remove_index path idx = record {
  entries = Map.remove path idx.entries;
  children = drop_child (parent path) (file_name path) idx.children;
}

-- A sidecar with a path that `from_bytes` refuses is skipped.
replay_entry : OverlayEntry → Result PathError RepoPath → Index → Index
replay_entry entry (ok path) idx = insert_index path entry idx
replay_entry entry (err e) idx = idx

replay_sidecar : Option Sidecar → Index → Index
unfolding replay_entry
replay_sidecar none idx = idx
replay_sidecar (some sc) idx = replay_entry sc.entry (from_bytes sc.path) idx

-- The loop of `open` over `meta_dir`, whose order is unspecified. A file that does not decode is
-- skipped.
unfoldable pub replay : Codec → Map Bytes Bytes → Index
unfolding empty_index replay_sidecar
replay c [] = empty_index
replay c ((name, bytes) ∷ files) = replay_sidecar (c.from_slice bytes) (replay c files)

-- `open`, once the directories are there and readable.
unfoldable pub open_overlay : Codec → Map Bytes Bytes → Map Bytes Bytes → ℕ → Overlay
open_overlay c meta content seq = record {
  meta = meta;
  content = content;
  content_seq = seq;
  index = replay c meta;
}

unfoldable pub sidecar_path : Codec → RepoPath → Bytes
sidecar_path c path = c.digest path.bytes ++ codes ".json"

-- `with_extension("tmp")`.
unfoldable pub tmp_path : Codec → RepoPath → Bytes
tmp_path c path = c.digest path.bytes ++ codes ".tmp"

set_meta : Bytes → Bytes → Overlay → Overlay
set_meta name bytes s = record s { meta = Map.insert name bytes s.meta }

-- `std::fs::rename`.
move_meta : Bytes → Bytes → Overlay → Overlay
move_meta src dst s = elim (Map.get src s.meta) [
  | none ↦ s
  | some bytes ↦ record s { meta = Map.insert dst bytes (Map.remove src s.meta) }
]

unchanged : ℕ → Overlay → Overlay
unchanged k s = s

-- `atomic_write`. The sync of the directory ignores its errors.
unfoldable pub atomic_write : Bytes → Bytes → Bytes → Act (Unit {0})
unfolding set_meta move_meta unchanged
atomic_write tmp dst bytes = do
  io create_sidecar_tmp (set_meta tmp []) unchanged
  io write_sidecar (set_meta tmp bytes) (λ k. set_meta tmp (take k bytes))
  io fsync_sidecar (λ s. s) unchanged
  io publish_sidecar (move_meta tmp dst) unchanged

unfoldable pub persist : Codec → RepoPath → OverlayEntry → Act (Unit {0})
unfolding atomic_write
persist c path entry =
    atomic_write (tmp_path c path) (sidecar_path c path)
      (c.to_vec (record { path = path.bytes; entry = entry }))

abbrev pub lookup : Overlay → RepoPath → Option OverlayEntry
lookup s path = Map.get path s.index.entries

child_entry : Index → Bytes → Result PathError RepoPath → List (Bytes × OverlayEntry)
child_entry idx name (err e) = []
child_entry idx name (ok child) = elim (Map.get child idx.entries) [
  | none ↦ []
  | some e ↦ (name, e) ∷ []
]

list_names : Index → RepoPath → Names → List (Bytes × OverlayEntry)
unfolding child_entry
list_names idx dir_path [] = []
list_names idx dir_path ((name, u) ∷ names) =
    child_entry idx name (join dir_path name) ++ list_names idx dir_path names

unfoldable pub children : Overlay → RepoPath → List (Bytes × OverlayEntry)
unfolding list_names
children s dir_path = elim (Map.get dir_path s.index.children) [
  | none ↦ []
  | some names ↦ list_names s.index dir_path names
]

-- `persist` and then the index, as every writer does it.
unfoldable pub put : Codec → RepoPath → OverlayEntry → Act (Unit {0})
unfolding persist
put c path entry = do
  persist c path entry
  modify (λ s. record s { index = insert_index path entry s.index })

-- `new_content_id`: `c<pid>-<seq>`.
unfoldable pub new_content_id : Bytes → Act Bytes
new_content_id pid = do
  seq ← gets (λ s. s.content_seq)
  modify (λ s. record s { content_seq = s.content_seq + 1 })
  pure (codes "c" ++ pid ++ codes "-" ++ to_string seq)

set_content : Bytes → Bytes → Overlay → Overlay
set_content name bytes s = record s { content = Map.insert name bytes s.content }

seed_error : Option Bytes → OverlayError
seed_error none = create_content
seed_error (some seed) = copy_up_seed

seed_bytes : Option Bytes → Bytes
seed_bytes none = []
seed_bytes (some seed) = seed

-- A copy that fails leaves what was copied, a `File::create` that fails leaves nothing.
not_seeded : Bytes → Option Bytes → ℕ → Overlay → Overlay
unfolding set_content
not_seeded name none k s = s
not_seeded name (some seed) k s = set_content name (take k seed) s

-- `seed` is what the seed file holds. The result names the content file that is open.
unfoldable pub create_file : Codec → Bytes → RepoPath → Bool → Option Bytes → Act Bytes
unfolding new_content_id set_content seed_error seed_bytes not_seeded unchanged put
create_file c pid path executable seed = do
  content ← new_content_id pid
  io (seed_error seed) (set_content content (seed_bytes seed)) (not_seeded content seed)
  io open_content_failed (λ s. s) unchanged
  put c path (file content executable)
  pure content

-- The content file that an entry names.
content_of : Option OverlayEntry → Option Bytes
content_of (some (file content executable)) = some content
content_of _ = none

with_content : {A : Type 0} → (Bytes → Act A) → Option Bytes → Act A
with_content f none = fail not_an_overlay_file
with_content f (some content) = f content

size_of : Option Bytes → Act ℕ
size_of none = fail stat_content
size_of (some bytes) = pure (length bytes)

unfoldable pub content_size : RepoPath → Act ℕ
unfolding content_of with_content size_of
content_size path = do
  o ← gets (λ s. content_of (lookup s path))
  with_content (λ content. gets (λ s. Map.get content s.content) >>= size_of) o

unfoldable pub open_content : RepoPath → Act Bytes
unfolding content_of with_content unchanged
open_content path = do
  o ← gets (λ s. content_of (lookup s path))
  with_content (λ content. io open_content_failed (λ s. s) unchanged >> pure content) o

unfoldable pub put_symlink : Codec → RepoPath → Bytes → Act (Unit {0})
unfolding put
put_symlink c path target = put c path (symlink target)

unfoldable pub put_dir : Codec → RepoPath → Act (Unit {0})
unfolding put
put_dir c path = put c path dir

unfoldable pub put_base_ref : Codec → RepoPath → ObjectId → GitMode → Act (Unit {0})
unfolding put
put_base_ref c path oid mode = put c path (base_ref oid mode)

remove_content : Option Bytes → Overlay → Overlay
remove_content none s = s
remove_content (some content) s = record s { content = Map.remove content s.content }

-- `drop_content` ignores an error of the removal.
unfoldable pub drop_content : RepoPath → Act (Unit {0})
unfolding content_of remove_content
drop_content path = io_ignored (λ s. remove_content (content_of (lookup s path)) s)

unfoldable pub put_tombstone : Codec → RepoPath → Act (Unit {0})
unfolding drop_content put
put_tombstone c path = do drop_content path; put c path tombstone

remove_sidecar : Codec → RepoPath → Overlay → Overlay
remove_sidecar c path s = record s { meta = Map.remove (sidecar_path c path) s.meta }

unfoldable pub clear : Codec → RepoPath → Act (Unit {0})
unfolding drop_content remove_sidecar
clear c path = do
  drop_content path
  io_ignored (remove_sidecar c path)
  modify (λ s. record s { index = remove_index path s.index })

rename_entry : Codec → RepoPath → RepoPath → Option OverlayEntry → Act (Unit {0})
unfolding persist remove_sidecar
rename_entry c src dst none = pure tt
rename_entry c src dst (some entry) = do
  persist c dst entry
  io_ignored (remove_sidecar c src)
  modify (λ s. record s { index = remove_index src (insert_index dst entry s.index) })

unfoldable pub rename : Codec → RepoPath → RepoPath → Act (Unit {0})
unfolding rename_entry
rename c src dst = do o ← gets (λ s. lookup s src); rename_entry c src dst o

unfoldable pub set_executable : Codec → RepoPath → Bool → Act (Unit {0})
unfolding content_of with_content put
set_executable c path exec = do
  o ← gets (λ s. content_of (lookup s path))
  with_content (λ content. put c path (file content exec)) o
