-- ===== src/Fuse/Callbacks/Quiet/Growing.antt =====
-- What a callback of crates/fuse/src/mount.rs does to the handle tables.
use git_lazy_mount.Prelude.{
  ℕ, ◌+◌, ◌≡◌, refl, Bool, true, false, Option, none, some, List, Bytes, if◌then◌else◌,
}
use git_lazy_mount.Prelude.Map
use git_lazy_mount.Prelude.Map.{nat_eq}
use git_lazy_mount.Prelude.Result.{Result, ok, err}
use git_lazy_mount.Prelude.Io.{Oracle}
use git_lazy_mount.Worktree.{Projection, Act, WorktreeError}
use git_lazy_mount.Worktree.Content.{File}
use git_lazy_mount.Fuse.{
  ℤ, Mount, Handle, read_handle, write_handle, Listed, Host, Reply, open_size, opened, handed_out,
}
use git_lazy_mount.Fuse.Callbacks.{
  Callback, just, on_projection, settled, fails_with, replies, new_handle, lookup_call, forget_call,
  getattr_call, setattr_call, set_size, set_mode, readlink_call, open_call, create_call, read_call,
  write_reply, write_to, write_call, fsync_call, mkdir_call, unlink_call, rmdir_call, rename_call,
  symlink_call, for_writing, open_attr,
}
use git_lazy_mount.Fuse.Callbacks.Quiet.{
  IsQuiet, attr_reply-IsQuiet, bytes-IsQuiet, done-IsQuiet, entry_of-IsQuiet, failure-none,
  no_reply-IsQuiet, or_missing-IsQuiet, read_from-IsQuiet, sync_handle-IsQuiet, os_error-IsQuiet,
}

-- What a call that gives up no number does to the tables, with what it replies.
pub data Grows (s : Mount) (r : Reply) (t : Mount) : Type 0 where
  same :
      handed_out r ≡ none
      → t.handles ≡ s.handles
      → t.dir_handles ≡ s.dir_handles
      → t.next_fh ≡ s.next_fh
      → Grows s r t
  new_file :
      (h : Handle)
      → handed_out r ≡ some (s.next_fh)
      → t.handles ≡ Map.insert (s.next_fh) h s.handles
      → t.dir_handles ≡ s.dir_handles
      → t.next_fh ≡ s.next_fh + 1
      → Grows s r t
  new_dir :
      (l : List Listed)
      → handed_out r ≡ some (s.next_fh)
      → t.handles ≡ s.handles
      → t.dir_handles ≡ Map.insert (s.next_fh) l s.dir_handles
      → t.next_fh ≡ s.next_fh + 1
      → Grows s r t

pub record Growing (c : Callback) : Type 0 where
  pub at : (o : Oracle) (s : Mount) → Grows s (c o s).0 (c o s).1

-- The projection changes, and nothing else.
moved :
    (p : Projection) (s : Mount) (r : Reply) (t : Mount)
    → Grows (record s { proj = p }) r t
    → Grows s r t
moved p s r t (same a b c d) = same a b c d
moved p s r t (new_file h a b c d) = new_file h a b c d
moved p s r t (new_dir l a b c d) = new_dir l a b c d

pub just-Growing : (r : Reply) → IsQuiet r → Growing (just r)
unfolding just
just-Growing r h = record { at = λ o s. same h.none_out refl refl refl }

pub on_projection-Growing :
    {A : Type 0} (m : Act A) (good : A → Callback) (bad : WorktreeError → Callback)
    → ((a : A) → Growing (good a))
    → ((e : WorktreeError) → Growing (bad e))
    → Growing (on_projection m good bad)
unfolding on_projection settled
on_projection-Growing {A = A} m good bad h k = record {
  at = λ o s. cases (m o s.proj).result (m o s.proj).rest (m o s.proj).state s;
}
  where
    cases :
        (r : Result WorktreeError A) (o : Oracle) (p : Projection) (s : Mount)
        → Grows s
            (settled good bad r o (record s { proj = p })).0
            (settled good bad r o (record s { proj = p })).1
    cases (ok a) o p s = moved p s _ _ ((h a).at o (record s { proj = p }))
    cases (err e) o p s = moved p s _ _ ((k e).at o (record s { proj = p }))

pub fails_with-Growing : (host : Host) (e : WorktreeError) → Growing (fails_with host e)
unfolding fails_with
fails_with-Growing host e = record { at = λ o s. same (failure-none host e) refl refl refl }

pub replies-Growing :
    {A : Type 0} (host : Host) (m : Act A) (f : A → Reply)
    → ((a : A) → IsQuiet (f a))
    → Growing (replies host m f)
unfolding replies
replies-Growing host m f h =
    on_projection-Growing m _ _ (λ a. just-Growing (f a) (h a)) (fails_with-Growing host)

-- A reply that depends on the state, which stays.
answers-Growing : (f : Mount → Reply) → ((s : Mount) → IsQuiet (f s)) → Growing (λ o s. (f s, s))
answers-Growing f h = record { at = λ o s. same (h s).none_out refl refl refl }

pub read_call-Growing : (host : Host) (fh : ℕ) (off : ℤ) (n : ℕ) → Growing (read_call host fh off n)
unfolding read_call
read_call-Growing host fh off n = answers-Growing _ (λ s. read_from-IsQuiet host _ _ n)

write_reply-Growing :
    (f : File) (bs : Bytes) (off : ℕ) (r : Result (Option ℕ) ℕ) → Growing (write_reply f bs off r)
unfolding write_reply handed_out
write_reply-Growing f bs off (ok n) = record { at = λ o s. same refl refl refl refl }
write_reply-Growing f bs off (err e) = record {
  at = λ o s. same (os_error-IsQuiet e).none_out refl refl refl;
}

write_to-Growing :
    (host : Host) (h : Option Handle) (bs : Bytes) (off : ℕ) → Growing (write_to host h bs off)
unfolding write_to handed_out
write_to-Growing host (some (write_handle ino f)) bs off = write_reply-Growing f bs off _
write_to-Growing host (some (read_handle ino c)) bs off = record {
  at = λ o s. same refl refl refl refl;
}
write_to-Growing host none bs off = record { at = λ o s. same refl refl refl refl }

pub write_call-Growing :
    (host : Host) (fh : ℕ) (off : ℤ) (bs : Bytes) → Growing (write_call host fh off bs)
unfolding write_call
write_call-Growing host fh off bs = record { at = λ o s. (write_to-Growing host _ bs _).at o s }

pub fsync_call-Growing : (host : Host) (fh : ℕ) (b : Bool) → Growing (fsync_call host fh b)
unfolding fsync_call
fsync_call-Growing host fh b = answers-Growing _ (λ s. sync_handle-IsQuiet host _ b)

pub getattr_call-Growing : (host : Host) (ino : ℕ) → Growing (getattr_call host ino)
unfolding getattr_call
getattr_call-Growing host ino =
    on_projection-Growing _ _ _ (λ a. just-Growing _ (attr_reply-IsQuiet host a))
      (λ e. record { at = λ o s. same (cases e (open_size host.os ino s.handles)) refl refl refl })
  where
    cases : (e : WorktreeError) (size : Option ℕ) → handed_out (open_attr host ino size e) ≡ none
    cases e none = unfold open_attr in failure-none host e
    cases e (some n) = unfold open_attr in (attr_reply-IsQuiet host _).none_out

set_mode-Growing : (host : Host) (ino : ℕ) (mode : Option ℕ) → Growing (set_mode host ino mode)
unfolding set_mode
set_mode-Growing host ino none = replies-Growing host _ _ (attr_reply-IsQuiet host)
set_mode-Growing host ino (some m) =
    on_projection-Growing _ _ _ (λ u. replies-Growing host _ _ (attr_reply-IsQuiet host))
      (fails_with-Growing host)

pub setattr_call-Growing :
    (host : Host) (ino : ℕ) (mode size : Option ℕ) → Growing (setattr_call host ino mode size)
unfolding setattr_call set_size
setattr_call-Growing host ino mode none = set_mode-Growing host ino mode
setattr_call-Growing host ino mode (some n) =
    on_projection-Growing _ _ _ (λ u. set_mode-Growing host ino mode) (fails_with-Growing host)

new_handle-Growing :
    (h : Handle) (f : ℕ → Reply) → ((n : ℕ) → handed_out (f n) ≡ some n) → Growing (new_handle h f)
unfolding new_handle
new_handle-Growing h f k = record { at = λ o s. new_file h (k s.next_fh) refl refl refl }

if-Growing : (b : Bool) (c d : Callback) → Growing c → Growing d → Growing (if b then c else d)
if-Growing true c d h k = h
if-Growing false c d h k = k

pub open_call-Growing : (host : Host) (ino flags : ℕ) → Growing (open_call host ino flags)
unfolding open_call handed_out
open_call-Growing host ino flags =
    if-Growing (for_writing flags) _ _
      (on_projection-Growing _ _ _ (λ f. new_handle-Growing _ opened (λ n. refl))
        (fails_with-Growing host))
      (on_projection-Growing _ _ _ (λ c. new_handle-Growing _ opened (λ n. refl))
        (fails_with-Growing host))

pub create_call-Growing :
    (host : Host) (parent : ℕ) (name : Bytes) (mode : ℕ)
    → Growing (create_call host parent name mode)
unfolding create_call handed_out
create_call-Growing host parent name mode =
    on_projection-Growing _ _ _ (λ (a, f). new_handle-Growing _ _ (λ n. refl))
      (fails_with-Growing host)

pub lookup_call-Growing :
    (host : Host) (parent : ℕ) (name : Bytes) → Growing (lookup_call host parent name)
unfolding lookup_call
lookup_call-Growing host parent name = replies-Growing host _ _ (or_missing-IsQuiet host)

pub forget_call-Growing : (host : Host) (ino n : ℕ) → Growing (forget_call host ino n)
unfolding forget_call
forget_call-Growing host ino n = replies-Growing host _ _ (λ u. no_reply-IsQuiet)

pub readlink_call-Growing : (host : Host) (ino : ℕ) → Growing (readlink_call host ino)
unfolding readlink_call
readlink_call-Growing host ino = replies-Growing host _ _ bytes-IsQuiet

pub mkdir_call-Growing :
    (host : Host) (parent : ℕ) (name : Bytes) → Growing (mkdir_call host parent name)
unfolding mkdir_call
mkdir_call-Growing host parent name = replies-Growing host _ _ (entry_of-IsQuiet host)

pub symlink_call-Growing :
    (host : Host) (parent : ℕ) (name target : Bytes)
    → Growing (symlink_call host parent name target)
unfolding symlink_call
symlink_call-Growing host parent name target = replies-Growing host _ _ (entry_of-IsQuiet host)

pub unlink_call-Growing :
    (host : Host) (parent : ℕ) (name : Bytes) → Growing (unlink_call host parent name)
unfolding unlink_call
unlink_call-Growing host parent name = replies-Growing host _ _ (λ u. done-IsQuiet)

pub rmdir_call-Growing :
    (host : Host) (parent : ℕ) (name : Bytes) → Growing (rmdir_call host parent name)
unfolding rmdir_call
rmdir_call-Growing host parent name = replies-Growing host _ _ (λ u. done-IsQuiet)

pub rename_call-Growing :
    (fuel : ℕ) (host : Host) (parent : ℕ) (name : Bytes) (newparent : ℕ) (newname : Bytes)
    (flags : ℕ)
    → Growing (rename_call fuel host parent name newparent newname flags)
unfolding rename_call
rename_call-Growing fuel host parent name newparent newname flags =
    replies-Growing host _ _ (λ u. done-IsQuiet)
