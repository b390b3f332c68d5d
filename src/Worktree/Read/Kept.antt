-- ===== src/Worktree/Read/Kept.antt =====
-- What the read operations of crates/worktree/src/lib.rs keep.
use git_lazy_mount.Prelude.{ℕ, refl, Option, none, some, List, [], ◌∷◌, Bytes, ◌==◌}
use git_lazy_mount.Core.RepoPath.{RepoPath}
use git_lazy_mount.Core.ObjectId.{ObjectId}
use git_lazy_mount.Core.Tree.{TreeEntry}
use git_lazy_mount.Inode
use git_lazy_mount.Overlay.{OverlayEntry}
use git_lazy_mount.Worktree.{
  Env, Projection, Resolved, directory, gitfile, regular_file, symbolic_link, overlay_file,
  baseline_file, overlay_target, baseline_target, WorktreeError,
}
use git_lazy_mount.Worktree.Keeps.{
  Keeps, IsStable, is_panic, Steps-bind, Steps-if, Steps-pure, Steps-gets, Steps-fail, Keeps-modify,
  Keeps-asks, Keeps-in_overlay,
}
use git_lazy_mount.Worktree.Plain.{path_of-IsPlain, resolve-IsPlain, join_name-IsPlain}
use git_lazy_mount.Worktree.Read.{
  Kind, from_git, size_of, attr_of, found, lookup, or_vanished, getattr, push, unless_overlaid,
  list_baseline, unless_hidden, list_overlay, list_tree, as_tree, readdir, target_of, readlink,
  forget, overlay_kind,
}

module _ {E : WorktreeError → Type 0} {I : Projection → Type 0} (stable : IsStable E I) where
  pub from_git-Keeps : {A : Type 0} (o : Option A) → Keeps E I (from_git o)
  unfolding from_git is_panic
  from_git-Keeps none = Steps-fail _ (stable.plain _ refl) (λ s i. i)
  from_git-Keeps (some a) = Steps-pure a (λ s i. i)

  size_of-Keeps : (env : Env) (r : Resolved) → Keeps E I (size_of env r)
  unfolding size_of
  size_of-Keeps env (directory t) = Steps-pure _ (λ s i. i)
  size_of-Keeps env gitfile = Steps-gets _
  size_of-Keeps env (regular_file (overlay_file q) exec) = Keeps-in_overlay stable _
  size_of-Keeps env (regular_file (baseline_file oid) exec) = from_git-Keeps _
  size_of-Keeps env (symbolic_link (overlay_target t)) = Steps-pure _ (λ s i. i)
  size_of-Keeps env (symbolic_link (baseline_target oid)) = from_git-Keeps _

  attr_of-Keeps :
      (env : Env) (ino generation : ℕ) (r : Resolved) → Keeps E I (attr_of env ino generation r)
  unfolding attr_of
  attr_of-Keeps env ino generation r =
      Steps-bind (λ _. I) _ _ (size_of-Keeps env r) (λ size. Steps-pure _ (λ s i. i))

  found-Keeps : (env : Env) (child : RepoPath) (r : Option Resolved) → Keeps E I (found env child r)
  unfolding found
  found-Keeps env child none = Steps-pure _ (λ s i. i)
  found-Keeps env child (some r) =
      Steps-bind (λ _. I) _ _ (stable.look child)
        (λ (ino, generation).
          Steps-bind (λ _. I) _ _ (attr_of-Keeps env ino generation r)
            (λ attr. Steps-pure _ (λ s i. i)))

  pub lookup-Keeps :
      (env : Env) (parent_ino : ℕ) (name : Bytes) → Keeps E I (lookup env parent_ino name)
  unfolding lookup
  lookup-Keeps env parent_ino name =
      Steps-bind (λ _. I) _ _ (Keeps-asks stable _ (path_of-IsPlain parent_ino))
        (λ dir_path.
          Steps-bind (λ _. I) _ _ (Keeps-asks stable _ (λ s. join_name-IsPlain dir_path name))
            (λ child.
              Steps-bind (λ _. I) _ _ (Keeps-asks stable _ (resolve-IsPlain env child))
                (found-Keeps env child)))

  or_vanished-Keeps : (o : Option Resolved) → Keeps E I (or_vanished o)
  unfolding or_vanished is_panic
  or_vanished-Keeps none = Steps-fail _ (stable.plain _ refl) (λ s i. i)
  or_vanished-Keeps (some r) = Steps-pure r (λ s i. i)

  pub getattr-Keeps : (env : Env) (ino : ℕ) → Keeps E I (getattr env ino)
  unfolding getattr
  getattr-Keeps env ino =
      Steps-bind (λ _. I) _ _ (Keeps-asks stable _ (path_of-IsPlain ino))
        (λ path.
          Steps-bind (λ _. I) _ _ (Keeps-asks stable _ (resolve-IsPlain env path))
            (λ o.
              Steps-bind (λ _. I) _ _ (or_vanished-Keeps o)
                (λ r.
                  Steps-bind (λ _. I) _ _ (stable.look path)
                    (λ (i, generation). attr_of-Keeps env ino generation r))))

  push-Keeps : (path : RepoPath) (name : Bytes) (kind : Kind) → Keeps E I (push path name kind)
  unfolding push
  push-Keeps path name kind =
      Steps-bind (λ _. I) _ _ (Keeps-asks stable _ (λ s. join_name-IsPlain path name))
        (λ child.
          Steps-bind (λ _. I) _ _ (stable.look child)
            (λ (ino, generation). Steps-pure _ (λ s i. i)))

  unless_overlaid-Keeps :
      (path : RepoPath) (e : TreeEntry) (o : Option OverlayEntry)
      → Keeps E I (unless_overlaid path e o)
  unfolding unless_overlaid
  unless_overlaid-Keeps path e (some o) = Steps-pure _ (λ s i. i)
  unless_overlaid-Keeps path e none = push-Keeps path e.name _

  list_baseline-Keeps : (path : RepoPath) (es : List TreeEntry) → Keeps E I (list_baseline path es)
  unfolding list_baseline
  list_baseline-Keeps path [] = Steps-pure _ (λ s i. i)
  list_baseline-Keeps path (e ∷ es) =
      Steps-bind (λ _. I) _ _
        (Steps-if _ _ _ (Steps-pure _ (λ s i. i)) (
          Steps-bind (λ _. I) _ _ (Keeps-asks stable _ (λ s. join_name-IsPlain path e.name))
            (λ child.
              Steps-bind (λ _. I) _ _ (Steps-gets _) (λ o. unless_overlaid-Keeps path e o))))
        (λ first.
          Steps-bind (λ _. I) _ _ (list_baseline-Keeps path es) (λ rest. Steps-pure _ (λ s i. i)))

  unless_hidden-Keeps :
      (path : RepoPath) (name : Bytes) (k : Option Kind) → Keeps E I (unless_hidden path name k)
  unfolding unless_hidden
  unless_hidden-Keeps path name none = Steps-pure _ (λ s i. i)
  unless_hidden-Keeps path name (some kind) = push-Keeps path name kind

  list_overlay-Keeps :
      (path : RepoPath) (es : List (Bytes × OverlayEntry)) → Keeps E I (list_overlay path es)
  unfolding list_overlay
  list_overlay-Keeps path [] = Steps-pure _ (λ s i. i)
  list_overlay-Keeps path ((name, e) ∷ es) =
      Steps-bind (λ _. I) _ _ (unless_hidden-Keeps path name (overlay_kind e))
        (λ first.
          Steps-bind (λ _. I) _ _ (list_overlay-Keeps path es) (λ rest. Steps-pure _ (λ s i. i)))

  list_tree-Keeps :
      (env : Env) (path : RepoPath) (t : Option ObjectId) → Keeps E I (list_tree env path t)
  unfolding list_tree
  list_tree-Keeps env path none = Steps-pure _ (λ s i. i)
  list_tree-Keeps env path (some t) =
      Steps-bind (λ _. I) _ _ (from_git-Keeps _) (list_baseline-Keeps path)

  as_tree-Keeps : (o : Option Resolved) → Keeps E I (as_tree o)
  unfolding as_tree is_panic
  as_tree-Keeps (some (directory t)) = Steps-pure _ (λ s i. i)
  as_tree-Keeps _ = Steps-fail _ (stable.plain _ refl) (λ s i. i)

  pub readdir-Keeps : (env : Env) (ino : ℕ) → Keeps E I (readdir env ino)
  unfolding readdir
  readdir-Keeps env ino =
      Steps-bind (λ _. I) _ _ (Keeps-asks stable _ (path_of-IsPlain ino))
        (λ path.
          Steps-bind (λ _. I) _ _ (Keeps-asks stable _ (resolve-IsPlain env path))
            (λ o.
              Steps-bind (λ _. I) _ _ (as_tree-Keeps o)
                (λ t.
                  Steps-bind (λ _. I) _ _ (list_tree-Keeps env path t)
                    (λ below.
                      Steps-bind (λ _. I) _ _ (Steps-gets _)
                        (λ kids.
                          Steps-bind (λ _. I) _ _ (list_overlay-Keeps path kids)
                            (λ above.
                              Steps-bind (λ _. I) _ _
                                (Steps-if _ _ _ (push-Keeps path _ _) (Steps-pure _ (λ s i. i)))
                                (λ git. Steps-pure _ (λ s i. i))))))))

  target_of-Keeps : (env : Env) (r : Resolved) → Keeps E I (target_of env r)
  unfolding target_of is_panic
  target_of-Keeps env (symbolic_link (overlay_target t)) = Steps-pure _ (λ s i. i)
  target_of-Keeps env (symbolic_link (baseline_target oid)) = from_git-Keeps _
  target_of-Keeps env _ = Steps-fail _ (stable.plain _ refl) (λ s i. i)

  pub readlink-Keeps : (env : Env) (ino : ℕ) → Keeps E I (readlink env ino)
  unfolding readlink
  readlink-Keeps env ino =
      Steps-bind (λ _. I) _ _ (Keeps-asks stable _ (path_of-IsPlain ino))
        (λ path.
          Steps-bind (λ _. I) _ _ (Keeps-asks stable _ (resolve-IsPlain env path))
            (λ o. Steps-bind (λ _. I) _ _ (or_vanished-Keeps o) (target_of-Keeps env)))

  pub forget-Keeps : (ino n : ℕ) → Keeps E I (forget ino n)
  unfolding forget
  forget-Keeps ino n =
      Steps-if (ino == Inode.root_ino) _ _ (Steps-pure tt (λ s i. i))
        (Keeps-modify _ (stable.forget ino n))
