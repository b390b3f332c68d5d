-- ===== src/Fuse.antt =====
-- crates/fuse/src/mount.rs: the state of a mount and the replies to the kernel. Times are left out
-- of the attributes; the speculative fetches that a callback may start are not modelled.
pub mod Callbacks
pub mod Directories
pub mod Dispatch
use git_lazy_mount.Prelude.{
  ℕ, ◌+◌, ◌/◌, ◌%◌, Bool, true, false, not, ◌||◌, Option, none, some, List, [], ◌∷◌, Bytes, ◌==◌,
  if◌then◌else◌,
}
use git_lazy_mount.Prelude.Map
use git_lazy_mount.Prelude.Map.{Map, nat_eq}
use git_lazy_mount.Core.Error
use git_lazy_mount.Core.Error.{ErrorCode}
use git_lazy_mount.Worktree
use git_lazy_mount.Worktree.{Env, Projection, WorktreeError}
use git_lazy_mount.Worktree.Read.{Attr, Kind, dir_kind, symlink_kind, file_kind, DirEntry}
use git_lazy_mount.Worktree.Content.{File, ContentHandle, Os, content_length}

pub data ℤ : Type 0 where
  pos negsuc : ℕ → ℤ

pub data FileType : Type 0 where
  directory symlink regular_file : FileType

unfoldable pub file_type : Kind → FileType
file_type dir_kind = directory
file_type symlink_kind = symlink
file_type (file_kind exec) = regular_file

pub record FileAttr : Type 0 where
  pub ino : ℕ
  pub size : ℕ
  pub blocks : ℕ
  pub kind : FileType
  pub perm : ℕ
  pub nlink : ℕ
  pub uid : ℕ
  pub gid : ℕ
  pub rdev : ℕ
  pub blksize : ℕ
  pub flags : ℕ

-- 0o755, 0o777 and 0o644.
perm_of : Kind → ℕ
perm_of dir_kind = 493
perm_of symlink_kind = 511
perm_of (file_kind true) = 493
perm_of (file_kind false) = 420

links_of : Kind → ℕ
links_of dir_kind = 2
links_of _ = 1

unfoldable pub fuse_attr : Attr → ℕ → ℕ → FileAttr
unfolding file_type perm_of links_of
fuse_attr a uid gid = record {
  ino = a.ino;
  size = a.size;
  blocks = (a.size + 511) / 512;
  kind = file_type (a.kind);
  perm = perm_of (a.kind);
  nlink = links_of (a.kind);
  uid = uid;
  gid = gid;
  rdev = 0;
  blksize = 512;
  flags = 0;
}

pub data Handle : Type 0 where
  read_handle : ℕ → ContentHandle → Handle
  write_handle : ℕ → File → Handle

unfoldable pub handle_ino : Handle → ℕ
handle_ino (read_handle ino content) = ino
handle_ino (write_handle ino file) = ino

-- One entry of a listing: inode, kind and name.
pub record Listed : Type 0 where
  pub ino : ℕ
  pub kind : FileType
  pub name : Bytes

pub record Mount : Type 0 where
  pub proj : Projection
  pub handles : Map ℕ Handle
  pub dir_handles : Map ℕ (List Listed)
  pub next_fh : ℕ

unfoldable pub new_mount : Projection → Mount
new_mount proj = record { proj = proj; handles = []; dir_handles = []; next_fh = 1 }

unfoldable pub lookup_handle : ℕ → Mount → Option Handle
lookup_handle fh s = Map.get fh s.handles

-- The loop of `open_size`, whose order is that of a `HashMap`.
size_from : Os → ℕ → Option ℕ → Map ℕ Handle → Option ℕ
unfolding handle_ino
size_from os ino size [] = size
size_from os ino size ((fh, write_handle i file) ∷ rest) =
    let below = size_from os ino size rest in if i == ino then os.file_size file else below
size_from os ino size ((fh, read_handle i content) ∷ rest) =
    let same = size_from os ino (content_length os content) rest in
    let below = size_from os ino size rest in if i == ino then same else below

unfoldable pub open_size : Os → ℕ → Map ℕ Handle → Option ℕ
unfolding size_from
open_size os ino handles = size_from os ino none handles

-- What surrounds the mount: the projection's services, the operating system, the code of an error
-- of Git, who asks, and whether a reply buffer that holds so many entries is full for one more.
pub record Host : Type 0 where
  pub env : Env
  pub os : Os
  pub git_code : ErrorCode
  pub uid : ℕ
  pub gid : ℕ
  pub full : List (ℕ × Listed) → Listed → Bool

-- The codes that crates/worktree/src gives its errors; an error of Git keeps its own.
unfoldable pub code_of : ErrorCode → WorktreeError → ErrorCode
code_of git Worktree.invalid_path = Error.invalid_repository_path
code_of git Worktree.protected = Error.authentication
code_of git Worktree.already_exists = Error.already_exists
code_of git Worktree.not_found = Error.not_found
code_of git Worktree.not_empty = Error.dirty_workspace_conflict
code_of git Worktree.unsupported = Error.unsupported_operation
code_of git Worktree.git_error = git
code_of git _ = Error.internal

-- `unanswered` is a callback that panicked.
pub data Reply : Type 0 where
  entry : FileAttr → ℕ → Reply
  attributes : FileAttr → Reply
  bytes : Bytes → Reply
  opened : ℕ → Reply
  created : FileAttr → ℕ → ℕ → Reply
  written : ℕ → Reply
  -- The entries with the offset behind each.
  listed : List (ℕ × Listed) → Reply
  done no_reply unanswered : Reply
  failed : ℕ → Reply

-- `EIO`, `ENOENT` and `EBADF`.
abbrev pub eio : ℕ
eio = 5

abbrev pub enoent : ℕ
enoent = 2

abbrev pub ebadf : ℕ
ebadf = 9

unfoldable pub failure : Host → WorktreeError → Reply
unfolding code_of
failure host Worktree.panic = unanswered
failure host e = failed (Error.errno (code_of host.git_code e))

-- The number that a reply hands out.
unfoldable pub handed_out : Reply → Option ℕ
handed_out (opened fh) = some fh
handed_out (created a generation fh) = some fh
handed_out _ = none

-- The callback did not panic.
unfoldable pub is_answered : Reply → Bool
is_answered unanswered = false
is_answered _ = true
