-- ===== src/Worktree/Plain.antt =====
-- The reads of crates/worktree/src/lib.rs, which do not panic.
use git_lazy_mount.Prelude.{refl, Option, none, some, List, [], ◌∷◌, Bytes, ℕ, ◌==◌, if◌then◌else◌}
use git_lazy_mount.Prelude.Result.{Result, ok, err}
use git_lazy_mount.Core.RepoPath.{RepoPath, PathError, is_root, components, join}
use git_lazy_mount.Core.ObjectId.{ObjectId}
use git_lazy_mount.Inode
use git_lazy_mount.Overlay
use git_lazy_mount.Overlay.{OverlayEntry}
use git_lazy_mount.Worktree.{
  Env, Projection, Resolved, directory, WorktreeError, path_of, path_or_stale, join_name,
  valid_path, child_path, protect, is_gitfile, walk, find_name, is_done, is_tree_mode,
  baseline_resolve, baseline_tree_at, tree_under, resolve, overlay_resolve, as_directory,
  ancestor_tombstoned,
}
use git_lazy_mount.Worktree.Keeps.{is_panic, IsPlain, IsPlain-and_then, IsPlain-if}

pub path_of-IsPlain : (ino : ℕ) (s : Projection) → IsPlain (path_of s ino)
unfolding path_of path_or_stale is_panic
path_of-IsPlain ino s =
    IsPlain-if (ino == Inode.root_ino) _ _ tt (cases (Inode.path_of s.inodes ino))
  where
    cases : (o : Option RepoPath) → IsPlain (path_or_stale o)
    cases none = refl
    cases (some q) = tt

pub join_name-IsPlain : (dir_path : RepoPath) (name : Bytes) → IsPlain (join_name dir_path name)
unfolding join_name valid_path is_panic
join_name-IsPlain dir_path name = cases (join dir_path name)
  where
    cases : (r : Result PathError RepoPath) → IsPlain (valid_path r)
    cases (ok q) = tt
    cases (err e) = refl

pub child_path-IsPlain : (ino : ℕ) (name : Bytes) (s : Projection) → IsPlain (child_path s ino name)
unfolding child_path protect is_panic
child_path-IsPlain ino name s = IsPlain-and_then (path_of s ino) _ (path_of-IsPlain ino s) (λ q.
    IsPlain-and_then (join_name q name) _ (join_name-IsPlain q name)
      (λ c. IsPlain-if (is_gitfile (components c)) _ _ refl tt))

pub IsPlain-option :
    {A B : Type 0} (o : Option A) (r : Result WorktreeError B) (f : A → Result WorktreeError B)
    → IsPlain r
    → ((a : A) → IsPlain (f a))
    → IsPlain (elim o [ none ↦ r | some a ↦ f a ])
IsPlain-option none r f h k = h
IsPlain-option (some a) r f h k = k a

walk-IsPlain : (env : Env) (comps : List Bytes) (oid : ObjectId) → IsPlain (walk env comps oid)
unfolding walk is_panic
walk-IsPlain env [] oid = tt
walk-IsPlain env (comp ∷ comps) oid = IsPlain-option (env.read_tree oid) _ _ refl (λ es.
    IsPlain-option (find_name comp es) _ _ tt (λ e.
      IsPlain-if (is_done comps) _ _ tt
        (IsPlain-if (is_tree_mode e.mode) _ _ (walk-IsPlain env comps e.object_id) tt)))

pub baseline_resolve-IsPlain :
    (env : Env) (path : RepoPath) (s : Projection) → IsPlain (baseline_resolve env s path)
unfolding baseline_resolve
baseline_resolve-IsPlain env path s = walk-IsPlain env (components path) s.baseline_tree

tree_under-IsPlain :
    (r : Result WorktreeError (Option Resolved)) → IsPlain r → IsPlain (tree_under r)
unfolding tree_under
tree_under-IsPlain (err e) h = h
tree_under-IsPlain (ok none) h = tt
tree_under-IsPlain (ok (some (directory t))) h = tt
tree_under-IsPlain (ok (some _)) h = tt

pub baseline_tree_at-IsPlain :
    (env : Env) (path : RepoPath) (s : Projection) → IsPlain (baseline_tree_at env s path)
unfolding baseline_tree_at
baseline_tree_at-IsPlain env path s = tree_under-IsPlain _ (baseline_resolve-IsPlain env path s)

as_directory-IsPlain :
    (r : Result WorktreeError (Option ObjectId)) → IsPlain r → IsPlain (as_directory r)
unfolding as_directory
as_directory-IsPlain (ok t) h = tt
as_directory-IsPlain (err e) h = h

overlay_resolve-IsPlain :
    (env : Env) (s : Projection) (path : RepoPath) (e : OverlayEntry)
    → IsPlain (overlay_resolve env s path e)
unfolding overlay_resolve
overlay_resolve-IsPlain env s path (Overlay.file content exec) = tt
overlay_resolve-IsPlain env s path (Overlay.symlink target) = tt
overlay_resolve-IsPlain env s path Overlay.dir =
    as_directory-IsPlain _ (baseline_tree_at-IsPlain env path s)
overlay_resolve-IsPlain env s path Overlay.tombstone = tt
overlay_resolve-IsPlain env s path (Overlay.base_ref oid mode) = tt

pub resolve-IsPlain : (env : Env) (path : RepoPath) (s : Projection) → IsPlain (resolve env s path)
unfolding resolve
resolve-IsPlain env path s =
    IsPlain-if (is_root path) _ _ tt
      (IsPlain-if (is_gitfile (components path)) _ _ tt (cases (Overlay.lookup s.overlay path)))
  where
    cases :
        (o : Option OverlayEntry)
        → IsPlain (elim o [
          | some e ↦ overlay_resolve env s path e
          | none ↦
              if ancestor_tombstoned s.overlay path then ok none else baseline_resolve env s path
        ])
    cases none =
        IsPlain-if (ancestor_tombstoned s.overlay path) _ _ tt (baseline_resolve-IsPlain env path s)
    cases (some e) = overlay_resolve-IsPlain env s path e
