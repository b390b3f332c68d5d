-- ===== src/Fuse/Dispatch/Tests.antt =====
-- A mount at concrete inputs. The root tree is empty, and a reply takes two entries.
use git_lazy_mount.Prelude.{
  ◌≡◌, refl, ◌≢◌, ◌<◌, Bool, true, false, Option, none, some, List, [], ◌∷◌, codes, arith, length,
  leb,
}
use git_lazy_mount.Prelude.Map
use git_lazy_mount.Prelude.Result.{ok, err}
use git_lazy_mount.Prelude.Io.{Oracle}
use git_lazy_mount.Core.Error
use git_lazy_mount.Core.ObjectId.{sha1}
use git_lazy_mount.Inode
use git_lazy_mount.Inode.Consistency.{IsConsistent, new-IsConsistent}
use git_lazy_mount.Journal.Log.{production}
use git_lazy_mount.Worktree.{Projection}
use git_lazy_mount.Fuse.{Host, Mount, Listed, directory, new_mount, handed_out, is_answered, pos}
use git_lazy_mount.Fuse.Directories.Paging.{read_pages, read_pages_lem}
use git_lazy_mount.Fuse.Dispatch.{Call, opendir, release, dispatch, dispatch_all, given_up}
use git_lazy_mount.Fuse.Dispatch.Answers.{dispatch_answered}
use git_lazy_mount.Fuse.Dispatch.Handles.{entry_at, dispatch_fresh, dispatch_kept}

abbrev host : Host
host = record {
  env = record {
    read_tree = λ id. some [];
    blob_size = λ id. none;
    blob_bytes = λ id. none;
    codec = record { digest = λ p. p; to_vec = λ sc. sc.path; from_slice = λ bs. none };
    limits = production;
    pid = codes "1";
  };
  os = record {
    file_size = λ f. none;
    pread = λ f off n. err none;
    pwrite = λ f bs off. err none;
    sync = λ f b. ok tt;
  };
  git_code = Error.offline_missing_object;
  uid = 1000;
  gid = 1000;
  full = λ page e. leb 2 (length page);
}

abbrev start : Projection
start = record {
  inodes = Inode.new;
  baseline_tree = record { format = sha1; bytes = 1 ∷ [] };
  gitfile = [];
  overlay = record {
    meta = [];
    content = [];
    content_seq = 0;
    index = record { entries = []; children = [] };
  };
  journal = none;
}

abbrev one_entry : Listed
one_entry = record { ino = 1; kind = directory; name = codes "." }

abbrev three : List Listed
three = one_entry ∷ one_entry ∷ one_entry ∷ []

read_pages_example : read_pages 4 host three 0 ≡ (three, true)
read_pages_example = read_pages_lem 4 host three (λ e. refl) (omega arith)

-- A directory is opened, and a handle of another number is released.
abbrev calls : List (Call × Oracle)
calls = (release 7, []) ∷ []

opens_one :
    handed_out (dispatch host (opendir 1) [] (dispatch_all host [] (new_mount start))).0 ≡ some 1
unfolding dispatch handed_out git_lazy_mount.Fuse.Directories.opendir_call
    git_lazy_mount.Fuse.Callbacks.on_projection git_lazy_mount.Worktree.Read.readdir
    git_lazy_mount.Worktree.asks git_lazy_mount.Worktree.path_of git_lazy_mount.Prelude.Io.pure
    git_lazy_mount.Worktree.resolve git_lazy_mount.Prelude.Io.gets git_lazy_mount.Overlay.children
    Map.get dispatch_all new_mount git_lazy_mount.Worktree.join_name
    git_lazy_mount.Core.RepoPath.join git_lazy_mount.Prelude.has_byte
    git_lazy_mount.Prelude.bytes_eq git_lazy_mount.Worktree.inode_lookup Inode.lookup Inode.new
    Map.insert git_lazy_mount.Core.RepoPath.push_component Map.remove
    git_lazy_mount.Prelude.Io.modify
opens_one = refl

opens_two :
    handed_out
      (dispatch host (opendir 1) [] (
        dispatch_all host calls
          (dispatch host (opendir 1) [] (dispatch_all host [] (new_mount start))).1)).0
    ≡ some 2
unfolding dispatch handed_out git_lazy_mount.Fuse.Directories.opendir_call
    git_lazy_mount.Fuse.Callbacks.on_projection git_lazy_mount.Worktree.Read.readdir
    git_lazy_mount.Worktree.asks git_lazy_mount.Worktree.path_of git_lazy_mount.Prelude.Io.pure
    git_lazy_mount.Worktree.resolve git_lazy_mount.Prelude.Io.gets git_lazy_mount.Overlay.children
    Map.get dispatch_all new_mount git_lazy_mount.Worktree.join_name
    git_lazy_mount.Core.RepoPath.join git_lazy_mount.Prelude.has_byte
    git_lazy_mount.Prelude.bytes_eq git_lazy_mount.Worktree.inode_lookup Inode.lookup Inode.new
    Map.insert git_lazy_mount.Core.RepoPath.push_component Map.remove
    git_lazy_mount.Prelude.Io.modify git_lazy_mount.Fuse.Callbacks.release_call
opens_two = refl

not_given_up : given_up 1 calls ≡ false
unfolding given_up
not_given_up = refl

dispatch_kept_example :
    entry_at 1 (
      dispatch_all host calls
        (dispatch host (opendir 1) [] (dispatch_all host [] (new_mount start))).1)
    ≡ entry_at 1 (dispatch host (opendir 1) [] (dispatch_all host [] (new_mount start))).1
dispatch_kept_example = dispatch_kept host start [] calls (opendir 1) [] 1 opens_one not_given_up

dispatch_fresh_example :
    (1 < 2)
    × (entry_at 1 (dispatch_all host [] (new_mount start)) ≡ (none, none))
    × (entry_at 2 (
          dispatch_all host calls
            (dispatch host (opendir 1) [] (dispatch_all host [] (new_mount start))).1)
        ≡ (none, none))
dispatch_fresh_example =
    dispatch_fresh host start [] calls (opendir 1) (opendir 1) [] [] 1 2 opens_one opens_two

dispatch_answered_example :
    (is_answered (dispatch host (opendir 1) [] (dispatch_all host calls (new_mount start))).0
      ≡ true)
    × IsConsistent
        (dispatch host (opendir 1) [] (dispatch_all host calls (new_mount start))).1.proj.inodes
unfolding new_mount
dispatch_answered_example =
    dispatch_answered host calls (opendir 1) [] (new_mount start) new-IsConsistent
