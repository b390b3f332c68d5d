-- ===== src/Fuse/Dispatch/Answers.antt =====
-- No call of crates/fuse/src/mount.rs panics, whatever calls came before.
use git_lazy_mount.Prelude.{◌≡◌, true, List, [], ◌∷◌}
use git_lazy_mount.Prelude.Map.{nat_eq}
use git_lazy_mount.Prelude.Io.{Oracle}
use git_lazy_mount.Inode.Consistency.{IsConsistent}
use git_lazy_mount.Worktree.Request.Consistent.{HasTable}
use git_lazy_mount.Fuse.{Mount, Host, is_answered, done}
use git_lazy_mount.Fuse.Callbacks.Quiet.{done-IsQuiet}
use git_lazy_mount.Fuse.Callbacks.Quiet.Answering.{
  Answering, just-Answering, lookup_call-Answering, forget_call-Answering, getattr_call-Answering,
  setattr_call-Answering, readlink_call-Answering, open_call-Answering, create_call-Answering,
  read_call-Answering, write_call-Answering, fsync_call-Answering, release_call-Answering,
  mkdir_call-Answering, unlink_call-Answering, rmdir_call-Answering, rename_call-Answering,
  symlink_call-Answering,
}
use git_lazy_mount.Fuse.Directories.Answering.{
  opendir_call-Answering, readdir_call-Answering, releasedir_call-Answering,
}
use git_lazy_mount.Fuse.Dispatch
use git_lazy_mount.Fuse.Dispatch.{Call, dispatch, dispatch_all}

dispatch-Answering : (host : Host) (c : Call) → Answering (dispatch host c)
unfolding dispatch
dispatch-Answering host (Dispatch.lookup i name) = lookup_call-Answering host i name
dispatch-Answering host (Dispatch.forget i n) = forget_call-Answering host i n
dispatch-Answering host (Dispatch.getattr i) = getattr_call-Answering host i
dispatch-Answering host (Dispatch.setattr i mode size) = setattr_call-Answering host i mode size
dispatch-Answering host (Dispatch.readlink i) = readlink_call-Answering host i
dispatch-Answering host (Dispatch.open_file i flags) = open_call-Answering host i flags
dispatch-Answering host (Dispatch.create i name mode) = create_call-Answering host i name mode
dispatch-Answering host (Dispatch.read fh off n) = read_call-Answering host fh off n
dispatch-Answering host (Dispatch.write fh off bs) = write_call-Answering host fh off bs
dispatch-Answering host (Dispatch.flush fh) = just-Answering done done-IsQuiet
dispatch-Answering host (Dispatch.access i) = just-Answering done done-IsQuiet
dispatch-Answering host (Dispatch.fsync fh b) = fsync_call-Answering host fh b
dispatch-Answering host (Dispatch.release fh) = release_call-Answering fh
dispatch-Answering host (Dispatch.mkdir i name) = mkdir_call-Answering host i name
dispatch-Answering host (Dispatch.unlink i name) = unlink_call-Answering host i name
dispatch-Answering host (Dispatch.rmdir i name) = rmdir_call-Answering host i name
dispatch-Answering host (Dispatch.rename i name j newname flags fuel) =
    rename_call-Answering fuel host i name j newname flags
dispatch-Answering host (Dispatch.symlink i name target) = symlink_call-Answering host i name target
dispatch-Answering host (Dispatch.opendir i) = opendir_call-Answering host i
dispatch-Answering host (Dispatch.readdir i fh off) = readdir_call-Answering host i fh off
dispatch-Answering host (Dispatch.releasedir fh) = releasedir_call-Answering fh

dispatch_all-HasTable :
    (host : Host) (cs : List (Call × Oracle)) (s : Mount)
    → HasTable s.proj
    → HasTable (dispatch_all host cs s).proj
unfolding dispatch_all
dispatch_all-HasTable host [] s h = h
dispatch_all-HasTable host ((c, o) ∷ cs) s h =
    dispatch_all-HasTable host cs (dispatch host c o s).1 ((dispatch-Answering host c).at o s h).0

-- On a mount whose inode table is consistent, after any calls, however their file operations end,
-- a further call is answered, which a call that meets the panic of the inode table is not, and
-- leaves the table consistent.
pub dispatch_answered :
    (host : Host) (cs : List (Call × Oracle)) (c : Call) (o : Oracle) (s : Mount)
    → IsConsistent s.proj.inodes
    → (is_answered (dispatch host c o (dispatch_all host cs s)).0 ≡ true)
      × IsConsistent (dispatch host c o (dispatch_all host cs s)).1.proj.inodes
dispatch_answered host cs c o s h =
    let k =
      (dispatch-Answering host c).at o (dispatch_all host cs s)
        (dispatch_all-HasTable host cs s h) in
    (k.1, k.0)
