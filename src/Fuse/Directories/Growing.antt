-- ===== src/Fuse/Directories/Growing.antt =====
-- What the callbacks on directories of crates/fuse/src/mount.rs do to the handle tables.
use git_lazy_mount.Prelude.{ℕ, refl, Option, none, some, List}
use git_lazy_mount.Prelude.Map
use git_lazy_mount.Prelude.Map.{nat_eq}
use git_lazy_mount.Worktree.Read.{DirEntry}
use git_lazy_mount.Fuse.{ℤ, Listed, Host, handed_out}
use git_lazy_mount.Fuse.Callbacks.{at_least_zero}
use git_lazy_mount.Fuse.Callbacks.Quiet.{listed-IsQuiet}
use git_lazy_mount.Fuse.Callbacks.Quiet.Growing.{
  new_dir, Growing, just-Growing, on_projection-Growing, fails_with-Growing, replies-Growing,
}
use git_lazy_mount.Fuse.Directories.{opendir_call, new_dir_handle, readdir_from, readdir_call}

new_dir_handle-Growing : (ino : ℕ) (entries : List DirEntry) → Growing (new_dir_handle ino entries)
unfolding new_dir_handle handed_out
new_dir_handle-Growing ino entries = record { at = λ o s. new_dir _ refl refl refl refl }

pub opendir_call-Growing : (host : Host) (ino : ℕ) → Growing (opendir_call host ino)
unfolding opendir_call
opendir_call-Growing host ino =
    on_projection-Growing _ _ _ (new_dir_handle-Growing ino) (fails_with-Growing host)

readdir_from-Growing :
    (host : Host) (ino off : ℕ) (l : Option (List Listed)) → Growing (readdir_from host ino off l)
unfolding readdir_from
readdir_from-Growing host ino off none = replies-Growing host _ _ (λ l. listed-IsQuiet _)
readdir_from-Growing host ino off (some l) = just-Growing _ (listed-IsQuiet _)

pub readdir_call-Growing :
    (host : Host) (ino fh : ℕ) (off : ℤ) → Growing (readdir_call host ino fh off)
unfolding readdir_call
readdir_call-Growing host ino fh off = record {
  at = λ o s. (readdir_from-Growing host ino (at_least_zero off) (Map.get fh s.dir_handles)).at o s;
}
