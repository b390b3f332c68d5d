-- ===== src/Worktree/Tests.antt =====
-- A directory of the baseline that is renamed and made again.
use git_lazy_mount.Prelude.{
  ℕ, ◌≡◌, refl, true, false, Option, none, some, List, [], ◌∷◌, Bytes, codes, bytes_eq, split,
  non_empty, ◌↔◌, if◌then◌else◌,
}
use git_lazy_mount.Prelude.Map
use git_lazy_mount.Prelude.Map.{Map, bytes_key}
use git_lazy_mount.Prelude.Result.{ok}
use git_lazy_mount.Prelude.Io.{Run}
use git_lazy_mount.Core.RepoPath.{RepoPath, components, parent, rposition}
use git_lazy_mount.Core.GitMode.{regular, tree}
use git_lazy_mount.Core.ObjectId.{ObjectId, sha1}
use git_lazy_mount.Core.Tree.{TreeEntry}
use git_lazy_mount.Inode
use git_lazy_mount.Journal.Log.{production}
use git_lazy_mount.Overlay
use git_lazy_mount.Overlay.{Overlay, Codec, Sidecar}
use git_lazy_mount.Worktree.{
  Env, Projection, Resolved, WorktreeError, regular_file, baseline_file, resolve, is_gitfile,
  overlay_resolve, baseline_resolve, walk, ancestor_tombstoned,
}
use git_lazy_mount.Worktree.Ancestors.{
  IsHidden, of_parent, resolve-IsHidden, ancestor_tombstoned_iff,
}
use git_lazy_mount.Worktree.Write.{mkdir}
use git_lazy_mount.Worktree.Move.{rename}

abbrev pub oid : ℕ → ObjectId
oid n = record { format = sha1; bytes = n ∷ [] }

abbrev pub named : Bytes → ObjectId → List TreeEntry
named name id = record { name = name; mode = regular; object_id = id } ∷ []

-- The root tree holds the directory `a`, which holds the file `x`.
abbrev pub store : ObjectId → Option (List TreeEntry)
store id =
    if bytes_eq (id.bytes) (1 ∷ [])
    then some (record { name = codes "a"; mode = tree; object_id = oid 2 } ∷ [])
    else some (named (codes "x") (oid 3))

abbrev pub env : Env
env = record {
  read_tree = store;
  blob_size = λ id. none;
  blob_bytes = λ id. none;
  codec = record { digest = λ p. p; to_vec = λ sc. sc.path; from_slice = λ bs. none };
  limits = production;
  pid = codes "1";
}

abbrev pub start : Projection
start = record {
  inodes = Inode.new;
  baseline_tree = oid 1;
  gitfile = [];
  overlay = record {
    meta = [];
    content = [];
    content_seq = 0;
    index = record { entries = []; children = [] };
  };
  journal = none;
}

abbrev moved : Projection
moved = (rename 2 env 1 (codes "a") 1 (codes "b") 0 [] start).state

abbrev file_x : RepoPath
file_x = record { bytes = codes "a/x" }

-- The move hides `a/x`; when `a` is made again, it has the file of the baseline.
resurfaces :
    (resolve env moved file_x ≡ ok none)
    × (resolve env (mkdir env 1 (codes "a") [] moved).state file_x
        ≡ ok (some (regular_file (baseline_file (oid 3)) false)))
unfolding resolve is_gitfile components split non_empty overlay_resolve baseline_resolve walk
    ancestor_tombstoned Map.get mkdir git_lazy_mount.Worktree.asks
    git_lazy_mount.Worktree.child_path git_lazy_mount.Core.RepoPath.join
    git_lazy_mount.Prelude.has_byte bytes_eq git_lazy_mount.Core.RepoPath.push_component
    git_lazy_mount.Prelude.Io.pure rename git_lazy_mount.Worktree.Move.exchange
    git_lazy_mount.Worktree.Move.no_replace git_lazy_mount.Worktree.record_change
    git_lazy_mount.Core.RepoPath.parent git_lazy_mount.Core.RepoPath.rposition
    git_lazy_mount.Worktree.find_name git_lazy_mount.Prelude.Io.gets
    git_lazy_mount.Core.RepoPath.file_name Inode.lookup Inode.path_of Inode.rename
    git_lazy_mount.Overlay.atomic_write git_lazy_mount.Overlay.children
    git_lazy_mount.Overlay.drop_content git_lazy_mount.Overlay.insert_index
    git_lazy_mount.Overlay.persist git_lazy_mount.Overlay.put git_lazy_mount.Overlay.put_base_ref
    git_lazy_mount.Overlay.put_dir git_lazy_mount.Overlay.put_tombstone
    git_lazy_mount.Overlay.remove_index git_lazy_mount.Overlay.rename
    git_lazy_mount.Overlay.sidecar_path git_lazy_mount.Overlay.tmp_path
    git_lazy_mount.Prelude.Io.fail git_lazy_mount.Prelude.Io.io git_lazy_mount.Prelude.Io.io_ignored
    git_lazy_mount.Prelude.Io.modify git_lazy_mount.Prelude.elem Map.insert Map.remove
    git_lazy_mount.Worktree.Move.effective_children git_lazy_mount.Worktree.Move.rename_dir
    git_lazy_mount.Worktree.Write.is_some git_lazy_mount.Worktree.as_directory
    git_lazy_mount.Worktree.baseline_entry git_lazy_mount.Worktree.baseline_tree_at
    git_lazy_mount.Worktree.baseref_resolved git_lazy_mount.Worktree.in_overlay
    git_lazy_mount.Worktree.inode_lookup git_lazy_mount.Worktree.join_name
    git_lazy_mount.Worktree.of_result git_lazy_mount.Worktree.overlaid
    git_lazy_mount.Worktree.path_of git_lazy_mount.Worktree.path_or_stale
    git_lazy_mount.Worktree.protect git_lazy_mount.Worktree.record_change_file
    git_lazy_mount.Worktree.record_in git_lazy_mount.Worktree.record_parent
    git_lazy_mount.Worktree.tombstoned_from git_lazy_mount.Worktree.tree_under
    git_lazy_mount.Worktree.valid_path git_lazy_mount.Worktree.with_table Inode.new
resurfaces = (refl, refl)

ancestor_tombstoned_example :
    (ancestor_tombstoned moved.overlay file_x ≡ true) ↔ IsHidden moved.overlay file_x
ancestor_tombstoned_example = ancestor_tombstoned_iff moved.overlay file_x

-- The directory `a` is removed.
abbrev without_a : Projection
without_a = record start {
  overlay = record (start.overlay) {
    index = record {
      entries = (record { bytes = codes "a" }, Overlay.tombstone) ∷ [];
      children = [];
    };
  };
}

x-IsHidden : IsHidden without_a.overlay file_x
unfolding Map.get bytes_eq parent rposition
x-IsHidden = record {
  at = record { bytes = codes "a" };
  ancestor = of_parent refl;
  not_root = refl;
  masked = refl;
}

x_not_gitfile : is_gitfile (components file_x) ≡ false
unfolding is_gitfile components split non_empty
x_not_gitfile = refl

x_not_overlaid : Overlay.lookup without_a.overlay file_x ≡ none
unfolding Map.get bytes_eq
x_not_overlaid = refl

resolve-IsHidden_example : resolve env without_a file_x ≡ ok none
resolve-IsHidden_example =
    resolve-IsHidden env without_a file_x refl x_not_gitfile x_not_overlaid x-IsHidden
