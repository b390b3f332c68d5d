-- ===== src/Fuse/Dispatch.antt =====
-- crates/fuse/src/mount.rs: the callbacks as one type of calls, and sequences of them.
pub mod Handles
pub mod Answers
mod Tests
use git_lazy_mount.Prelude.{
  ℕ, ◌||◌, Bool, true, false, Option, none, some, List, [], ◌∷◌, Bytes, ◌==◌,
}
use git_lazy_mount.Prelude.Io.{Oracle}
use git_lazy_mount.Fuse.{ℤ, Mount, Host, Reply, done, opened, created}
use git_lazy_mount.Fuse.Callbacks.{
  Callback, just, lookup_call, forget_call, getattr_call, setattr_call, readlink_call, open_call,
  create_call, read_call, write_call, fsync_call, release_call, mkdir_call, unlink_call, rmdir_call,
  rename_call, symlink_call,
}
use git_lazy_mount.Fuse.Directories.{opendir_call, readdir_call, releasedir_call}

pub data Call : Type 0 where
  lookup : ℕ → Bytes → Call
  forget : ℕ → ℕ → Call
  getattr readlink opendir : ℕ → Call
  setattr : ℕ → Option ℕ → Option ℕ → Call
  -- The flags.
  open_file : ℕ → ℕ → Call
  create : ℕ → Bytes → ℕ → Call
  read : ℕ → ℤ → ℕ → Call
  write : ℕ → ℤ → Bytes → Call
  flush access : ℕ → Call
  fsync : ℕ → Bool → Call
  release releasedir : ℕ → Call
  mkdir unlink rmdir : ℕ → Bytes → Call
  -- The flags, and the fuel for the depth of a directory.
  rename : ℕ → Bytes → ℕ → Bytes → ℕ → ℕ → Call
  symlink : ℕ → Bytes → Bytes → Call
  -- The directory, the handle, and the offset.
  readdir : ℕ → ℕ → ℤ → Call

unfoldable pub dispatch : Host → Call → Callback
dispatch host (lookup parent name) = lookup_call host parent name
dispatch host (forget ino n) = forget_call host ino n
dispatch host (getattr ino) = getattr_call host ino
dispatch host (setattr ino mode size) = setattr_call host ino mode size
dispatch host (readlink ino) = readlink_call host ino
dispatch host (open_file ino flags) = open_call host ino flags
dispatch host (create parent name mode) = create_call host parent name mode
dispatch host (read fh offset size) = read_call host fh offset size
dispatch host (write fh offset bytes) = write_call host fh offset bytes
dispatch host (flush fh) = just done
dispatch host (access ino) = just done
dispatch host (fsync fh datasync) = fsync_call host fh datasync
dispatch host (release fh) = release_call fh
dispatch host (mkdir parent name) = mkdir_call host parent name
dispatch host (unlink parent name) = unlink_call host parent name
dispatch host (rmdir parent name) = rmdir_call host parent name
dispatch host (rename parent name newparent newname flags fuel) =
    rename_call fuel host parent name newparent newname flags
dispatch host (symlink parent name target) = symlink_call host parent name target
dispatch host (opendir ino) = opendir_call host ino
dispatch host (readdir ino fh offset) = readdir_call host ino fh offset
dispatch host (releasedir fh) = releasedir_call fh

-- The state after a sequence of calls.
unfoldable pub dispatch_all : Host → List (Call × Oracle) → Mount → Mount
unfolding dispatch
dispatch_all host [] s = s
dispatch_all host ((c, o) ∷ rest) s = dispatch_all host rest (dispatch host c o s).1

-- A call that ends the use of a number, in either table.
unfoldable pub gives_up : ℕ → Call → Bool
gives_up fh (release n) = n == fh
gives_up fh (releasedir n) = n == fh
gives_up fh _ = false

unfoldable pub given_up : ℕ → List (Call × Oracle) → Bool
unfolding gives_up
given_up fh [] = false
given_up fh ((c, o) ∷ rest) = gives_up fh c || given_up fh rest
