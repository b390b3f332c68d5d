-- ===== src/Fuse/Callbacks.antt =====
-- crates/fuse/src/mount.rs: the callbacks, each a step on the state of the mount, and all of them as
-- one type of calls.
pub mod Quiet
use git_lazy_mount.Prelude.{
  ℕ, zero, suc, ◌+◌, ◌/◌, ◌%◌, Bool, true, false, not, ◌||◌, Option, none, some, List, [], ◌∷◌,
  ◌++◌, Bytes, codes, length, take, drop, ◌==◌, if◌then◌else◌,
}
use git_lazy_mount.Prelude.Map
use git_lazy_mount.Prelude.Map.{Map, nat_eq}
use git_lazy_mount.Prelude.Result.{Result, ok, err}
use git_lazy_mount.Prelude.Io.{Oracle, Run}
use git_lazy_mount.Worktree.{Projection, Act, WorktreeError}
use git_lazy_mount.Worktree.Read
use git_lazy_mount.Worktree.Read.{Attr, file_kind, DirEntry}
use git_lazy_mount.Worktree.Write
use git_lazy_mount.Worktree.Move
use git_lazy_mount.Worktree.Content.{
  File, overlay_content, ContentHandle, content_at, open_content, written_through,
}
use git_lazy_mount.Fuse.{
  ℤ, pos, negsuc, FileType, directory, file_type, FileAttr, fuse_attr, Handle, read_handle,
  write_handle, Listed, Mount, lookup_handle, open_size, Host, Reply, entry, attributes, bytes,
  opened, created, written, listed, done, no_reply, failed, failure, eio, enoent, ebadf,
}

-- A callback, over how the file operations of the projection end.
abbrev pub Callback : Type 0
Callback = Oracle → Mount → Reply × Mount

abbrev with_proj : Projection → Mount → Mount
with_proj p s = record s { proj = p }

settled :
    {A : Type 0} → (A → Callback) → (WorktreeError → Callback) → Result WorktreeError A → Callback
settled good bad (ok a) = good a
settled good bad (err e) = bad e

-- A call of the projection, and what follows on success and on an error.
unfoldable pub on_projection :
    {A : Type 0} → Act A → (A → Callback) → (WorktreeError → Callback) → Callback
unfolding settled
on_projection m good bad o s =
    settled good bad (m o s.proj).result (m o s.proj).rest (with_proj (m o s.proj).state s)

unfoldable pub fails_with : Host → WorktreeError → Callback
fails_with host e o s = (failure host e, s)

-- A reply that changes nothing.
unfoldable pub just : Reply → Callback
just r o s = (r, s)

-- The reply is computed from the answer alone.
unfoldable pub replies : {A : Type 0} → Host → Act A → (A → Reply) → Callback
unfolding on_projection fails_with just
replies host m f = on_projection m (λ a. just (f a)) (fails_with host)

entry_of : Host → Attr → Reply
entry_of host a = entry (fuse_attr a host.uid host.gid) (a.generation)

attr_reply : Host → Attr → Reply
attr_reply host a = attributes (fuse_attr a host.uid host.gid)

or_missing : Host → Option Attr → Reply
unfolding entry_of
or_missing host none = failed enoent
or_missing host (some a) = entry_of host a

unfoldable pub lookup_call : Host → ℕ → Bytes → Callback
unfolding or_missing
lookup_call host parent name = replies host (Read.lookup host.env parent name) (or_missing host)

unfoldable pub forget_call : Host → ℕ → ℕ → Callback
forget_call host ino n = replies host (Read.forget ino n) (λ u. no_reply)

-- A file that is deleted and still open has the size of an open handle.
open_attr : Host → ℕ → Option ℕ → WorktreeError → Reply
unfolding attr_reply
open_attr host ino none e = failure host e
open_attr host ino (some size) e =
    attr_reply host (record { ino = ino; generation = 0; size = size; kind = file_kind false })

unfoldable pub getattr_call : Host → ℕ → Callback
unfolding attr_reply open_attr
getattr_call host ino =
    on_projection (Read.getattr host.env ino) (λ a. just (attr_reply host a))
      (λ e o s. (open_attr host ino (open_size host.os ino s.handles) e, s))

-- `mode & 0o111 != 0`.
unfoldable pub any_exec : ℕ → Bool
any_exec mode = ((mode % 2) == 1) || ((mode / 8) % 2 == 1) || ((mode / 64) % 2 == 1)

-- What follows in `setattr` once the size is set: the mode, and the attributes.
set_mode : Host → ℕ → Option ℕ → Callback
unfolding attr_reply
set_mode host ino none = replies host (Read.getattr host.env ino) (attr_reply host)
set_mode host ino (some m) =
    on_projection (Write.set_executable host.env ino (any_exec m))
      (λ u. replies host (Read.getattr host.env ino) (attr_reply host)) (fails_with host)

set_size : Host → ℕ → Option ℕ → Callback → Callback
set_size host ino none next = next
set_size host ino (some len) next =
    on_projection (Write.truncate host.env ino len) (λ u. next) (fails_with host)

unfoldable pub setattr_call : Host → ℕ → Option ℕ → Option ℕ → Callback
unfolding set_size set_mode
setattr_call host ino mode size = set_size host ino size (set_mode host ino mode)

unfoldable pub readlink_call : Host → ℕ → Callback
readlink_call host ino = replies host (Read.readlink host.env ino) bytes

-- `fetch_add` on the counter and the insertion into the table.
new_handle : Handle → (ℕ → Reply) → Callback
new_handle h f o s = (
  f (s.next_fh),
  record s { handles = Map.insert (s.next_fh) h s.handles; next_fh = s.next_fh + 1 },
)

-- `flags & O_ACCMODE != O_RDONLY`, and `flags & O_TRUNC != 0`, by the values of Linux.
unfoldable pub for_writing : ℕ → Bool
for_writing flags = not ((flags % 4) == 0)

unfoldable pub truncating : ℕ → Bool
truncating flags = (flags / 512) % 2 == 1

unfoldable pub open_call : Host → ℕ → ℕ → Callback
unfolding new_handle
open_call host ino flags =
    if for_writing flags
    then on_projection (Write.open_write host.env ino (truncating flags))
        (λ f. new_handle (write_handle ino (overlay_content f)) opened) (fails_with host)
    else on_projection (open_content host.env ino) (λ c. new_handle (read_handle ino c) opened)
        (fails_with host)

unfoldable pub create_call : Host → ℕ → Bytes → ℕ → Callback
unfolding new_handle
create_call host parent name mode =
    on_projection (Write.create host.env parent name (any_exec mode))
      (λ (a, f).
        new_handle (write_handle (a.ino) (overlay_content f))
          (created (fuse_attr a host.uid host.gid) (a.generation)))
      (fails_with host)

-- `raw_os_error().unwrap_or(EIO)`.
os_error : Option ℕ → Reply
os_error none = failed eio
os_error (some n) = failed n

read_reply : Result (Option ℕ) Bytes → Reply
unfolding os_error
read_reply (ok bs) = bytes bs
read_reply (err e) = os_error e

content_reply : Result (Unit {0}) Bytes → Reply
content_reply (ok bs) = bytes bs
content_reply (err e) = failed eio

read_from : Host → Option Handle → ℕ → ℕ → Reply
unfolding read_reply content_reply
read_from host (some (read_handle ino content)) off len =
    content_reply (content_at host.os content off len)
read_from host (some (write_handle ino file)) off len = read_reply (host.os.pread file off len)
read_from host none off len = failed ebadf

-- `offset.max(0)`.
unfoldable pub at_least_zero : ℤ → ℕ
at_least_zero (pos n) = n
at_least_zero (negsuc n) = 0

unfoldable pub read_call : Host → ℕ → ℤ → ℕ → Callback
unfolding read_from
read_call host fh offset size o s =
    (read_from host (lookup_handle fh s) (at_least_zero offset) size, s)

-- The bytes that the answer counts are in the file.
write_reply : File → Bytes → ℕ → Result (Option ℕ) ℕ → Callback
unfolding os_error
write_reply file data' off (ok n) o s =
    (written n, with_proj (written_through file off (take n data') s.proj) s)
write_reply file data' off (err e) o s = (os_error e, s)

write_to : Host → Option Handle → Bytes → ℕ → Callback
unfolding write_reply
write_to host (some (write_handle ino file)) data' off o s =
    write_reply file data' off (host.os.pwrite file data' off) o s
write_to host (some (read_handle ino content)) data' off o s = (failed ebadf, s)
write_to host none data' off o s = (failed ebadf, s)

unfoldable pub write_call : Host → ℕ → ℤ → Bytes → Callback
unfolding write_to
write_call host fh offset data' o s =
    write_to host (lookup_handle fh s) data' (at_least_zero offset) o s

sync_reply : Result (Option ℕ) (Unit {0}) → Reply
unfolding os_error
sync_reply (ok u) = done
sync_reply (err e) = os_error e

sync_handle : Host → Option Handle → Bool → Reply
unfolding sync_reply
sync_handle host (some (write_handle ino file)) datasync = sync_reply (host.os.sync file datasync)
sync_handle host _ datasync = done

unfoldable pub fsync_call : Host → ℕ → Bool → Callback
unfolding sync_handle
fsync_call host fh datasync o s = (sync_handle host (lookup_handle fh s) datasync, s)

unfoldable pub release_call : ℕ → Callback
release_call fh o s = (done, record s { handles = Map.remove fh s.handles })

unfoldable pub mkdir_call : Host → ℕ → Bytes → Callback
unfolding entry_of
mkdir_call host parent name = replies host (Write.mkdir host.env parent name) (entry_of host)

unfoldable pub unlink_call : Host → ℕ → Bytes → Callback
unlink_call host parent name = replies host (Write.unlink host.env parent name) (λ u. done)

unfoldable pub rmdir_call : Host → ℕ → Bytes → Callback
rmdir_call host parent name = replies host (Write.rmdir host.env parent name) (λ u. done)

-- `fuel` bounds the depth of a directory that is moved.
unfoldable pub rename_call : ℕ → Host → ℕ → Bytes → ℕ → Bytes → ℕ → Callback
rename_call fuel host parent name newparent newname flags =
    replies host (Move.rename fuel host.env parent name newparent newname flags) (λ u. done)

unfoldable pub symlink_call : Host → ℕ → Bytes → Bytes → Callback
unfolding entry_of
symlink_call host parent name target =
    replies host (Write.make_symlink host.env parent name target) (entry_of host)
