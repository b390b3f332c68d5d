-- ===== src/Fuse/Callbacks/Quiet.antt =====
-- The replies of crates/fuse/src/mount.rs that hand out no number.
pub mod Growing
pub mod Answering
use git_lazy_mount.Prelude.{
  ℕ, ◌+◌, ◌≡◌, refl, Bool, true, false, Option, none, some, List, Bytes, if◌then◌else◌,
}
use git_lazy_mount.Prelude.Map
use git_lazy_mount.Prelude.Map.{nat_eq}
use git_lazy_mount.Prelude.Result.{Result, ok, err}
use git_lazy_mount.Prelude.Io.{Oracle}
use git_lazy_mount.Worktree
use git_lazy_mount.Worktree.{Projection, Act, WorktreeError}
use git_lazy_mount.Worktree.Read.{Attr}
use git_lazy_mount.Fuse.{
  ℤ, Mount, Handle, read_handle, write_handle, Listed, Host, Reply, lookup_handle, open_size,
  opened, created, done, no_reply, bytes, listed, failure, handed_out, is_answered,
}
use git_lazy_mount.Fuse.Callbacks.{
  Callback, just, on_projection, settled, fails_with, replies, new_handle, lookup_call, forget_call,
  getattr_call, setattr_call, set_size, set_mode, readlink_call, open_call, create_call, read_call,
  write_call, fsync_call, mkdir_call, unlink_call, rmdir_call, rename_call, symlink_call,
  for_writing, or_missing, entry_of, attr_reply, open_attr, read_from, read_reply, content_reply,
  write_to, write_reply, sync_handle, sync_reply, os_error, at_least_zero,
}

-- A reply that hands out no number, and is one.
pub record IsQuiet (r : Reply) : Type 0 where
  pub none_out : handed_out r ≡ none
  pub answered : is_answered r ≡ true

failure-none : (host : Host) (e : WorktreeError) → handed_out (failure host e) ≡ none
unfolding failure handed_out
failure-none host Worktree.panic = refl
failure-none host Worktree.internal = refl
failure-none host Worktree.invalid_path = refl
failure-none host Worktree.protected = refl
failure-none host Worktree.already_exists = refl
failure-none host Worktree.not_found = refl
failure-none host Worktree.not_empty = refl
failure-none host Worktree.unsupported = refl
failure-none host Worktree.git_error = refl
failure-none host (Worktree.overlay_error e) = refl
failure-none host (Worktree.journal_error e) = refl

quiet : (r : Reply) → handed_out r ≡ none → is_answered r ≡ true → IsQuiet r
quiet r h k = record { none_out = h; answered = k }

entry_of-IsQuiet : (host : Host) (a : Attr) → IsQuiet (entry_of host a)
unfolding entry_of handed_out is_answered
entry_of-IsQuiet host a = quiet _ refl refl

or_missing-IsQuiet : (host : Host) (a : Option Attr) → IsQuiet (or_missing host a)
unfolding or_missing handed_out is_answered
or_missing-IsQuiet host none = quiet _ refl refl
or_missing-IsQuiet host (some a) = entry_of-IsQuiet host a

attr_reply-IsQuiet : (host : Host) (a : Attr) → IsQuiet (attr_reply host a)
unfolding attr_reply handed_out is_answered
attr_reply-IsQuiet host a = quiet _ refl refl

pub bytes-IsQuiet : (bs : Bytes) → IsQuiet (bytes bs)
unfolding handed_out is_answered
bytes-IsQuiet bs = quiet _ refl refl

pub done-IsQuiet : IsQuiet done
unfolding handed_out is_answered
done-IsQuiet = quiet _ refl refl

pub no_reply-IsQuiet : IsQuiet no_reply
unfolding handed_out is_answered
no_reply-IsQuiet = quiet _ refl refl

pub listed-IsQuiet : (page : List (ℕ × Listed)) → IsQuiet (listed page)
unfolding handed_out is_answered
listed-IsQuiet page = quiet _ refl refl

os_error-IsQuiet : (e : Option ℕ) → IsQuiet (os_error e)
unfolding os_error handed_out is_answered
os_error-IsQuiet none = quiet _ refl refl
os_error-IsQuiet (some n) = quiet _ refl refl

read_reply-IsQuiet : (r : Result (Option ℕ) Bytes) → IsQuiet (read_reply r)
unfolding read_reply
read_reply-IsQuiet (ok bs) = bytes-IsQuiet bs
read_reply-IsQuiet (err e) = os_error-IsQuiet e

content_reply-IsQuiet : (r : Result (Unit {0}) Bytes) → IsQuiet (content_reply r)
unfolding content_reply handed_out is_answered
content_reply-IsQuiet (ok bs) = bytes-IsQuiet bs
content_reply-IsQuiet (err e) = quiet _ refl refl

read_from-IsQuiet :
    (host : Host) (h : Option Handle) (off len : ℕ) → IsQuiet (read_from host h off len)
unfolding read_from handed_out is_answered
read_from-IsQuiet host (some (read_handle ino c)) off len = content_reply-IsQuiet _
read_from-IsQuiet host (some (write_handle ino f)) off len = read_reply-IsQuiet _
read_from-IsQuiet host none off len = quiet _ refl refl

sync_reply-IsQuiet : (r : Result (Option ℕ) (Unit {0})) → IsQuiet (sync_reply r)
unfolding sync_reply
sync_reply-IsQuiet (ok u) = done-IsQuiet
sync_reply-IsQuiet (err e) = os_error-IsQuiet e

sync_handle-IsQuiet : (host : Host) (h : Option Handle) (b : Bool) → IsQuiet (sync_handle host h b)
unfolding sync_handle
sync_handle-IsQuiet host (some (write_handle ino f)) b = sync_reply-IsQuiet _
sync_handle-IsQuiet host (some (read_handle ino c)) b = done-IsQuiet
sync_handle-IsQuiet host none b = done-IsQuiet
