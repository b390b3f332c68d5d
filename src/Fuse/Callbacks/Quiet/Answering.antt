-- ===== src/Fuse/Callbacks/Quiet/Answering.antt =====
-- No callback of crates/fuse/src/mount.rs panics, and each leaves a consistent inode table.
use git_lazy_mount.Prelude.{
  ℕ, ◌≡◌, refl, Bool, true, false, Option, none, some, Bytes, take, arith, if◌then◌else◌,
}
use git_lazy_mount.Prelude.Map.{nat_eq}
use git_lazy_mount.Prelude.Result.{Result, ok, err}
use git_lazy_mount.Prelude.Io.{Oracle}
use git_lazy_mount.Worktree
use git_lazy_mount.Worktree.{Projection, Act, WorktreeError}
use git_lazy_mount.Worktree.Content.{File, written_through-inodes}
use git_lazy_mount.Fuse.{
  ℤ, Mount, Handle, read_handle, write_handle, Host, Reply, open_size, opened, failure, is_answered,
}
use git_lazy_mount.Fuse.Callbacks.{
  Callback, just, on_projection, settled, fails_with, replies, new_handle, lookup_call, forget_call,
  getattr_call, setattr_call, set_size, set_mode, readlink_call, open_call, create_call, read_call,
  write_reply, write_to, write_call, fsync_call, mkdir_call, unlink_call, rmdir_call, rename_call,
  symlink_call, for_writing, open_attr,
}
use git_lazy_mount.Fuse.Callbacks.Quiet.{
  IsQuiet, attr_reply-IsQuiet, bytes-IsQuiet, done-IsQuiet, entry_of-IsQuiet, no_reply-IsQuiet,
  or_missing-IsQuiet, read_from-IsQuiet, sync_handle-IsQuiet, os_error-IsQuiet,
}
use git_lazy_mount.Worktree.Keeps.{Keeps, Plain, Ends, Phases}
use git_lazy_mount.Worktree.Read.Kept.{lookup-Keeps, getattr-Keeps, readlink-Keeps, forget-Keeps}
use git_lazy_mount.Worktree.Write.Phased.{
  create-Phased, mkdir-Phased, make_symlink-Phased, unlink-Phased, rmdir-Phased, open_write-Phased,
  truncate-Phased, set_executable-Phased,
}
use git_lazy_mount.Worktree.Move.Phased.{rename-Phased}
use git_lazy_mount.Worktree.Content.Kept.{open_content-Keeps}
use git_lazy_mount.Worktree.Request.Consistent.{
  HasTable, consistent-IsStable, record_change-Keeps, record_change_file-Keeps, phases, move_phases,
}
use git_lazy_mount.Fuse.Callbacks.{any_exec, truncating, release_call}

pub record Answering (c : Callback) : Type 0 where
  pub at :
      (o : Oracle) (s : Mount)
      → HasTable s.proj
      → HasTable (c o s).1.proj × (is_answered (c o s).0 ≡ true)

pub just-Answering : (r : Reply) → IsQuiet r → Answering (just r)
unfolding just
just-Answering r q = record { at = λ o s h. (h, q.answered) }

-- A reply that depends on the state, which stays.
answers-Answering :
    (f : Mount → Reply) → ((s : Mount) → IsQuiet (f s)) → Answering (λ o s. (f s, s))
answers-Answering f q = record { at = λ o s h. (h, (q s).answered) }

pub on_projection-Answering :
    {A : Type 0} (m : Act A) (good : A → Callback) (bad : WorktreeError → Callback)
    → Keeps Plain HasTable m
    → ((a : A) → Answering (good a))
    → ((e : WorktreeError) → Plain e → Answering (bad e))
    → Answering (on_projection m good bad)
unfolding on_projection settled
on_projection-Answering {A = A} m good bad k h g = record {
  at = λ o s t. cases (m o s.proj).result (m o s.proj).rest (m o s.proj).state s (k.at o s.proj t);
}
  where
    cases :
        (r : Result WorktreeError A) (o : Oracle) (p : Projection) (s : Mount)
        → Ends Plain (λ _. HasTable) HasTable r p
        → HasTable (settled good bad r o (record s { proj = p })).1.proj
          × (is_answered (settled good bad r o (record s { proj = p })).0 ≡ true)
    cases (ok a) o p s x = (h a).at o (record s { proj = p }) x
    cases (err e) o p s x = (g e x.1).at o (record s { proj = p }) x.0

failure-answered : (host : Host) (e : WorktreeError) → Plain e → is_answered (failure host e) ≡ true
unfolding failure is_answered git_lazy_mount.Worktree.Keeps.is_panic
failure-answered host Worktree.panic h = ground (arith, h)
failure-answered host Worktree.internal h = refl
failure-answered host Worktree.invalid_path h = refl
failure-answered host Worktree.protected h = refl
failure-answered host Worktree.already_exists h = refl
failure-answered host Worktree.not_found h = refl
failure-answered host Worktree.not_empty h = refl
failure-answered host Worktree.unsupported h = refl
failure-answered host Worktree.git_error h = refl
failure-answered host (Worktree.overlay_error e) h = refl
failure-answered host (Worktree.journal_error e) h = refl

pub fails_with-Answering :
    (host : Host) (e : WorktreeError) → Plain e → Answering (fails_with host e)
unfolding fails_with
fails_with-Answering host e p = record { at = λ o s h. (h, failure-answered host e p) }

pub replies-Answering :
    {A : Type 0} (host : Host) (m : Act A) (f : A → Reply)
    → Keeps Plain HasTable m
    → ((a : A) → IsQuiet (f a))
    → Answering (replies host m f)
unfolding replies
replies-Answering host m f k h =
    on_projection-Answering m _ _ k (λ a. just-Answering (f a) (h a)) (fails_with-Answering host)

changes :
    (env : Worktree.Env) (i : ℕ) (name : Bytes)
    → Phases Plain
        (λ s. Worktree.child_path s i name)
        (Worktree.record_change env)
        HasTable
        HasTable
        HasTable
changes env i name = phases _ _ (record_change-Keeps env)

changes_file :
    (env : Worktree.Env) (i : ℕ)
    → Phases Plain
        (λ s. Worktree.path_of s i)
        (Worktree.record_change_file env)
        HasTable
        HasTable
        HasTable
changes_file env i = phases _ _ (record_change_file-Keeps env)

pub lookup_call-Answering :
    (host : Host) (i : ℕ) (name : Bytes) → Answering (lookup_call host i name)
unfolding lookup_call
lookup_call-Answering host i name =
    replies-Answering host _ _ (lookup-Keeps consistent-IsStable host.env i name)
      (or_missing-IsQuiet host)

pub forget_call-Answering : (host : Host) (i n : ℕ) → Answering (forget_call host i n)
unfolding forget_call
forget_call-Answering host i n =
    replies-Answering host _ _ (forget-Keeps consistent-IsStable i n) (λ u. no_reply-IsQuiet)

pub readlink_call-Answering : (host : Host) (i : ℕ) → Answering (readlink_call host i)
unfolding readlink_call
readlink_call-Answering host i =
    replies-Answering host _ _ (readlink-Keeps consistent-IsStable host.env i) bytes-IsQuiet

pub mkdir_call-Answering : (host : Host) (i : ℕ) (name : Bytes) → Answering (mkdir_call host i name)
unfolding mkdir_call
mkdir_call-Answering host i name =
    replies-Answering host _ _ (mkdir-Phased host.env i name (changes host.env i name))
      (entry_of-IsQuiet host)

pub symlink_call-Answering :
    (host : Host) (i : ℕ) (name target : Bytes) → Answering (symlink_call host i name target)
unfolding symlink_call
symlink_call-Answering host i name target =
    replies-Answering host _ _
      (make_symlink-Phased host.env i name (changes host.env i name) target) (entry_of-IsQuiet host)

pub unlink_call-Answering :
    (host : Host) (i : ℕ) (name : Bytes) → Answering (unlink_call host i name)
unfolding unlink_call
unlink_call-Answering host i name =
    replies-Answering host _ _ (unlink-Phased host.env i name (changes host.env i name))
      (λ u. done-IsQuiet)

pub rmdir_call-Answering : (host : Host) (i : ℕ) (name : Bytes) → Answering (rmdir_call host i name)
unfolding rmdir_call
rmdir_call-Answering host i name =
    replies-Answering host _ _ (rmdir-Phased host.env i name (changes host.env i name))
      (λ u. done-IsQuiet)

pub rename_call-Answering :
    (fuel : ℕ) (host : Host) (i : ℕ) (name : Bytes) (j : ℕ) (newname : Bytes) (flags : ℕ)
    → Answering (rename_call fuel host i name j newname flags)
unfolding rename_call
rename_call-Answering fuel host i name j newname flags =
    replies-Answering host _ _
      (rename-Phased host.env i name j newname (move_phases host.env _ _) fuel flags)
      (λ u. done-IsQuiet)

pub read_call-Answering :
    (host : Host) (fh : ℕ) (off : ℤ) (n : ℕ) → Answering (read_call host fh off n)
unfolding read_call
read_call-Answering host fh off n = answers-Answering _ (λ s. read_from-IsQuiet host _ _ n)

write_reply-Answering :
    (f : File) (bs : Bytes) (off : ℕ) (r : Result (Option ℕ) ℕ) → Answering (write_reply f bs off r)
unfolding write_reply is_answered
write_reply-Answering f bs off (ok n) = record {
  at = λ o s h. (rw (written_through-inodes f off (take n bs) s.proj) h, refl);
}
write_reply-Answering f bs off (err e) = record { at = λ o s h. (h, (os_error-IsQuiet e).answered) }

write_to-Answering :
    (host : Host) (h : Option Handle) (bs : Bytes) (off : ℕ) → Answering (write_to host h bs off)
unfolding write_to is_answered
write_to-Answering host (some (write_handle ino f)) bs off = write_reply-Answering f bs off _
write_to-Answering host (some (read_handle ino c)) bs off = record { at = λ o s h. (h, refl) }
write_to-Answering host none bs off = record { at = λ o s h. (h, refl) }

pub write_call-Answering :
    (host : Host) (fh : ℕ) (off : ℤ) (bs : Bytes) → Answering (write_call host fh off bs)
unfolding write_call
write_call-Answering host fh off bs = record {
  at = λ o s h. (write_to-Answering host _ bs _).at o s h;
}

pub fsync_call-Answering : (host : Host) (fh : ℕ) (b : Bool) → Answering (fsync_call host fh b)
unfolding fsync_call
fsync_call-Answering host fh b = answers-Answering _ (λ s. sync_handle-IsQuiet host _ b)

pub release_call-Answering : (fh : ℕ) → Answering (release_call fh)
unfolding release_call
release_call-Answering fh = record { at = λ o s h. (h, done-IsQuiet.answered) }

pub getattr_call-Answering : (host : Host) (ino : ℕ) → Answering (getattr_call host ino)
unfolding getattr_call
getattr_call-Answering host ino =
    on_projection-Answering _ _ _ (getattr-Keeps consistent-IsStable host.env ino)
      (λ a. just-Answering _ (attr_reply-IsQuiet host a))
      (λ e p. record { at = λ o s h. (h, cases e p (open_size host.os ino s.handles)) })
  where
    cases :
        (e : WorktreeError)
        → Plain e
        → (size : Option ℕ) → is_answered (open_attr host ino size e) ≡ true
    cases e p none = unfold open_attr in failure-answered host e p
    cases e p (some n) = unfold open_attr in (attr_reply-IsQuiet host _).answered

set_mode-Answering : (host : Host) (ino : ℕ) (mode : Option ℕ) → Answering (set_mode host ino mode)
unfolding set_mode
set_mode-Answering host ino none =
    replies-Answering host _ _ (getattr-Keeps consistent-IsStable host.env ino)
      (attr_reply-IsQuiet host)
set_mode-Answering host ino (some m) =
    on_projection-Answering _ _ _
      (set_executable-Phased host.env ino (changes_file host.env ino) (any_exec m))
      (λ u.
        replies-Answering host _ _ (getattr-Keeps consistent-IsStable host.env ino)
          (attr_reply-IsQuiet host))
      (fails_with-Answering host)

pub setattr_call-Answering :
    (host : Host) (ino : ℕ) (mode size : Option ℕ) → Answering (setattr_call host ino mode size)
unfolding setattr_call set_size
setattr_call-Answering host ino mode none = set_mode-Answering host ino mode
setattr_call-Answering host ino mode (some n) =
    on_projection-Answering _ _ _ (truncate-Phased host.env ino (changes_file host.env ino) n)
      (λ u. set_mode-Answering host ino mode) (fails_with-Answering host)

new_handle-Answering :
    (h : Handle) (f : ℕ → Reply) → ((n : ℕ) → is_answered (f n) ≡ true) → Answering (new_handle h f)
unfolding new_handle
new_handle-Answering h f k = record { at = λ o s t. (t, k s.next_fh) }

if-Answering :
    (b : Bool) (c d : Callback) → Answering c → Answering d → Answering (if b then c else d)
if-Answering true c d h k = h
if-Answering false c d h k = k

pub open_call-Answering : (host : Host) (ino flags : ℕ) → Answering (open_call host ino flags)
unfolding open_call is_answered
open_call-Answering host ino flags =
    if-Answering (for_writing flags) _ _
      (on_projection-Answering _ _ _
        (open_write-Phased host.env ino (changes_file host.env ino) (truncating flags))
        (λ f. new_handle-Answering _ opened (λ n. refl)) (fails_with-Answering host))
      (on_projection-Answering _ _ _ (open_content-Keeps consistent-IsStable host.env ino)
        (λ c. new_handle-Answering _ opened (λ n. refl)) (fails_with-Answering host))

pub create_call-Answering :
    (host : Host) (parent : ℕ) (name : Bytes) (mode : ℕ)
    → Answering (create_call host parent name mode)
unfolding create_call is_answered
create_call-Answering host parent name mode =
    on_projection-Answering _ _ _
      (create-Phased host.env parent name (changes host.env parent name) (any_exec mode))
      (λ (a, f). new_handle-Answering _ _ (λ n. refl)) (fails_with-Answering host)
