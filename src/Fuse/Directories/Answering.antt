-- ===== src/Fuse/Directories/Answering.antt =====
-- The callbacks on directories of crates/fuse/src/mount.rs do not panic.
use git_lazy_mount.Prelude.{ℕ, refl, Option, none, some, List}
use git_lazy_mount.Prelude.Map
use git_lazy_mount.Prelude.Map.{nat_eq}
use git_lazy_mount.Worktree.Read.{DirEntry}
use git_lazy_mount.Worktree.Read.Kept.{readdir-Keeps}
use git_lazy_mount.Worktree.Request.Consistent.{consistent-IsStable}
use git_lazy_mount.Fuse.{ℤ, Listed, Host, is_answered}
use git_lazy_mount.Fuse.Callbacks.{at_least_zero}
use git_lazy_mount.Fuse.Callbacks.Quiet.{listed-IsQuiet, done-IsQuiet}
use git_lazy_mount.Fuse.Callbacks.Quiet.Answering.{
  Answering, just-Answering, on_projection-Answering, fails_with-Answering, replies-Answering,
}
use git_lazy_mount.Fuse.Directories.{
  opendir_call, new_dir_handle, readdir_from, readdir_call, releasedir_call,
}

new_dir_handle-Answering :
    (ino : ℕ) (entries : List DirEntry) → Answering (new_dir_handle ino entries)
unfolding new_dir_handle is_answered
new_dir_handle-Answering ino entries = record { at = λ o s h. (h, refl) }

pub opendir_call-Answering : (host : Host) (ino : ℕ) → Answering (opendir_call host ino)
unfolding opendir_call
opendir_call-Answering host ino =
    on_projection-Answering _ _ _ (readdir-Keeps consistent-IsStable host.env ino)
      (new_dir_handle-Answering ino) (fails_with-Answering host)

readdir_from-Answering :
    (host : Host) (ino off : ℕ) (l : Option (List Listed)) → Answering (readdir_from host ino off l)
unfolding readdir_from
readdir_from-Answering host ino off none =
    replies-Answering host _ _ (readdir-Keeps consistent-IsStable host.env ino)
      (λ l. listed-IsQuiet _)
readdir_from-Answering host ino off (some l) = just-Answering _ (listed-IsQuiet _)

pub readdir_call-Answering :
    (host : Host) (ino fh : ℕ) (off : ℤ) → Answering (readdir_call host ino fh off)
unfolding readdir_call
readdir_call-Answering host ino fh off = record {
  at = λ o s.
      (readdir_from-Answering host ino (at_least_zero off) (Map.get fh s.dir_handles)).at o s;
}

pub releasedir_call-Answering : (fh : ℕ) → Answering (releasedir_call fh)
unfolding releasedir_call
releasedir_call-Answering fh = record { at = λ o s h. (h, done-IsQuiet.answered) }
