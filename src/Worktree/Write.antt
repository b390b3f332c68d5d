-- ===== src/Worktree/Write.antt =====
-- The write operations of crates/worktree/src/lib.rs, but for `rename`. An open file is the name of
-- its content file.
pub mod Phased
use git_lazy_mount.Prelude.{
  ℕ, zero, suc, ◌-◌, Bool, true, false, not, ◌&&◌, Option, none, some, List, [], ◌∷◌, ◌++◌, Bytes,
  length, take, if◌then◌else◌, ◌==◌,
}
use git_lazy_mount.Prelude.Map
use git_lazy_mount.Prelude.Map.{Map, bytes_key}
use git_lazy_mount.Prelude.Result.{Result, ok, err, and_then}
use git_lazy_mount.Prelude.Io.{pure, gets, modify, fail, io, ◌>>=◌, ◌>>◌}
use git_lazy_mount.Core.RepoPath.{RepoPath}
use git_lazy_mount.Core.ObjectId.{ObjectId}
use git_lazy_mount.Core.Tree.{TreeEntry}
use git_lazy_mount.Inode
use git_lazy_mount.Overlay
use git_lazy_mount.Overlay.{Overlay, OverlayEntry}
use git_lazy_mount.Worktree.{
  Env, Projection, Act, Resolved, regular_file, baseline_file, WorktreeError, internal,
  already_exists, not_found, not_empty, git_error, asks, in_overlay, inode_lookup, resolve, path_of,
  child_path, record_change, record_change_file, baseline_resolve, baseline_tree_at, is_tombstone,
  join_name,
}
use git_lazy_mount.Worktree.Read.{Attr, Kind, dir_kind, symlink_kind, file_kind, from_git}

unfoldable pub is_some {ℓ} : {A : Type ℓ} → Option A → Bool
is_some none = false
is_some (some a) = true

pub is_overlay_file : Option OverlayEntry → Bool
is_overlay_file (some (Overlay.file content exec)) = true
is_overlay_file _ = false

pub attr : ℕ × ℕ → ℕ → Kind → Attr
attr r size kind = record { ino = r.0; generation = r.1; size = size; kind = kind }

unfoldable pub create : Env → ℕ → Bytes → Bool → Act (Attr × Bytes)
unfolding attr
create env parent_ino name exec = do
  path ← asks (λ s. child_path s parent_ino name)
  record_change env path
  handle ← in_overlay (Overlay.create_file env.codec env.pid path exec none)
  r ← inode_lookup path
  pure (attr r 0 (file_kind exec), handle)

zeros : ℕ → Bytes
zeros zero = []
zeros (suc n) = 0 ∷ zeros n

-- `set_len`: cut, or padded with zeros.
resized : ℕ → Bytes → Bytes
unfolding zeros
resized n bs = take n bs ++ zeros (n - length bs)

or_empty : Option Bytes → Bytes
or_empty none = []
or_empty (some bs) = bs

resize_content : Bytes → ℕ → Projection → Projection
unfolding resized or_empty
resize_content handle n s = record s {
  overlay = record (s.overlay) {
    content =
        Map.insert handle (resized n (or_empty (Map.get handle s.overlay.content)))
          s.overlay.content;
  };
}

untouched : ℕ → Projection → Projection
untouched k s = s

set_len : Bytes → ℕ → Act (Unit {0})
unfolding resize_content untouched
set_len handle n = io internal (resize_content handle n) untouched

-- The bytes that are copied up; none of them, and no fetch, for a file that becomes empty.
seed_of : Env → Bool → ObjectId → Act (Option Bytes)
seed_of env empty oid =
    if empty then pure none else (do bs ← from_git (env.blob_bytes oid); pure (some bs))

copy_up : Env → Bool → RepoPath → Option Resolved → Act Bytes
unfolding seed_of
copy_up env empty path (some (regular_file (baseline_file oid) exec)) = do
  seed ← seed_of env empty oid
  in_overlay (Overlay.create_file env.codec env.pid path exec seed)
copy_up env empty path _ = fail internal

unfoldable pub open_write : Env → ℕ → Bool → Act Bytes
unfolding is_overlay_file copy_up set_len
open_write env ino truncate = do
  path ← asks (λ s. path_of s ino)
  record_change_file env path
  local ← gets (λ s. is_overlay_file (Overlay.lookup s.overlay path))
  (if local
      then (do
        handle ← in_overlay (Overlay.open_content path)
        if truncate then set_len handle 0 else pure tt
        pure handle)
      else (do r ← asks (λ s. resolve env s path); copy_up env truncate path r))

-- The baseline blob of a file that is not in the overlay.
blob_of : Option Resolved → Act (ObjectId × Bool)
blob_of (some (regular_file (baseline_file oid) exec)) = pure (oid, exec)
blob_of _ = fail internal

unfoldable pub truncate : Env → ℕ → ℕ → Act (Unit {0})
unfolding is_overlay_file blob_of seed_of set_len
truncate env ino size = do
  path ← asks (λ s. path_of s ino)
  local ← gets (λ s. is_overlay_file (Overlay.lookup s.overlay path))
  (if local
      then (do
        record_change_file env path
        handle ← in_overlay (Overlay.open_content path)
        set_len handle size)
      else (do
        r ← asks (λ s. resolve env s path)
        (oid, exec) ← blob_of r
        record_change_file env path
        seed ← seed_of env (size == 0) oid
        handle ← in_overlay (Overlay.create_file env.codec env.pid path exec seed)
        set_len handle size))

-- A baseline path is masked; one of the overlay alone is dropped.
mask : Env → RepoPath → Bool → Act (Unit {0})
mask env path on_baseline =
    if on_baseline
    then in_overlay (Overlay.put_tombstone env.codec path)
    else in_overlay (Overlay.clear env.codec path)

unlink_inode : RepoPath → Act (Unit {0})
unlink_inode path = modify (λ s. record s { inodes = Inode.unlink path s.inodes })

-- What `unlink` and `rmdir` do once they know whether the baseline has the path.
remove_entry : Env → RepoPath → Bool → Act (Unit {0})
unfolding mask unlink_inode
remove_entry env path on_baseline = do
  local ← gets (λ s. is_some (Overlay.lookup s.overlay path))
  (if not on_baseline && not local
      then fail not_found
      else (do record_change env path; mask env path on_baseline; unlink_inode path))

unfoldable pub unlink : Env → ℕ → Bytes → Act (Unit {0})
unfolding remove_entry
unlink env parent_ino name = do
  path ← asks (λ s. child_path s parent_ino name)
  r ← asks (λ s. baseline_resolve env s path)
  remove_entry env path (is_some r)

unfoldable pub mkdir : Env → ℕ → Bytes → Act Attr
unfolding attr
mkdir env parent_ino name = do
  path ← asks (λ s. child_path s parent_ino name)
  r ← asks (λ s. resolve env s path)
  (if is_some r then fail already_exists else (do
    record_change env path
    in_overlay (Overlay.put_dir env.codec path)
    i ← inode_lookup path
    pure (attr i 0 dir_kind)))

-- The two loops of `dir_is_empty`.
all_masked : Overlay → RepoPath → List TreeEntry → Result WorktreeError Bool
all_masked o path [] = ok true
all_masked o path (e ∷ es) =
    let rest = all_masked o path es in
    and_then (join_name path e.name)
      (λ child. if is_tombstone (Overlay.lookup o child) then rest else ok false)

all_tombstones : List (Bytes × OverlayEntry) → Bool
all_tombstones [] = true
all_tombstones ((name, e) ∷ es) = is_tombstone (some e) && all_tombstones es

baseline_masked : Env → Overlay → RepoPath → Option ObjectId → Result WorktreeError Bool
unfolding all_masked
baseline_masked env o path none = ok true
baseline_masked env o path (some t) = elim (env.read_tree t) [
  | none ↦ err git_error
  | some es ↦ all_masked o path es
]

unfoldable pub dir_is_empty : Env → Projection → RepoPath → Result WorktreeError Bool
unfolding baseline_masked all_tombstones
dir_is_empty env s path = and_then (baseline_tree_at env s path) (λ t.
    and_then (baseline_masked env s.overlay path t)
      (λ masked. ok (masked && all_tombstones (Overlay.children s.overlay path))))

unfoldable pub rmdir : Env → ℕ → Bytes → Act (Unit {0})
unfolding remove_entry
rmdir env parent_ino name = do
  path ← asks (λ s. child_path s parent_ino name)
  empty ← asks (λ s. dir_is_empty env s path)
  (if not empty
      then fail not_empty
      else (do t ← asks (λ s. baseline_tree_at env s path); remove_entry env path (is_some t)))

unfoldable pub make_symlink : Env → ℕ → Bytes → Bytes → Act Attr
unfolding attr
make_symlink env parent_ino name target = do
  path ← asks (λ s. child_path s parent_ino name)
  record_change env path
  in_overlay (Overlay.put_symlink env.codec path target)
  r ← inode_lookup path
  pure (attr r (length target) symlink_kind)

-- The copy-up of `set_executable`, which fetches the bytes in any case.
copy_up_mode : Env → RepoPath → Bool → Option Resolved → Act (Unit {0})
copy_up_mode env path exec (some (regular_file (baseline_file oid) old)) = do
  bs ← from_git (env.blob_bytes oid)
  handle ← in_overlay (Overlay.create_file env.codec env.pid path exec (some bs))
  pure tt
copy_up_mode env path exec _ = fail internal

unfoldable pub set_executable : Env → ℕ → Bool → Act (Unit {0})
unfolding is_overlay_file copy_up_mode
set_executable env ino exec = do
  path ← asks (λ s. path_of s ino)
  record_change_file env path
  local ← gets (λ s. is_overlay_file (Overlay.lookup s.overlay path))
  (if local
      then in_overlay (Overlay.set_executable env.codec path exec)
      else (do r ← asks (λ s. resolve env s path); copy_up_mode env path exec r))
