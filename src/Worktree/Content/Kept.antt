-- ===== src/Worktree/Content/Kept.antt =====
-- What `open_content` of crates/worktree/src/lib.rs keeps.
use git_lazy_mount.Prelude.{ℕ, refl, Option, none, some}
use git_lazy_mount.Worktree.{
  Env, Projection, Resolved, directory, regular_file, symbolic_link, gitfile, overlay_file,
  baseline_file, WorktreeError,
}
use git_lazy_mount.Worktree.Keeps.{
  Keeps, IsStable, is_panic, Steps-bind, Steps-pure, Steps-gets, Steps-fail, Keeps-asks,
  Keeps-in_overlay,
}
use git_lazy_mount.Worktree.Plain.{path_of-IsPlain, resolve-IsPlain}
use git_lazy_mount.Worktree.Read.Kept.{from_git-Keeps}
use git_lazy_mount.Worktree.Content.{open_resolved, open_content}

module _ {E : WorktreeError → Type 0} {I : Projection → Type 0} (stable : IsStable E I) where
  open_resolved-Keeps : (env : Env) (r : Option Resolved) → Keeps E I (open_resolved env r)
  unfolding open_resolved is_panic
  open_resolved-Keeps env none = Steps-fail _ (stable.plain _ refl) (λ s i. i)
  open_resolved-Keeps env (some gitfile) = Steps-gets _
  open_resolved-Keeps env (some (regular_file (overlay_file p) exec)) =
      Steps-bind (λ _. I) _ _ (Keeps-in_overlay stable _) (λ h. Steps-pure _ (λ s i. i))
  open_resolved-Keeps env (some (regular_file (baseline_file oid) exec)) =
      Steps-bind (λ _. I) _ _ (from_git-Keeps stable (env.blob_bytes oid))
        (λ bs. Steps-pure _ (λ s i. i))
  open_resolved-Keeps env (some (directory t)) = Steps-fail _ (stable.plain _ refl) (λ s i. i)
  open_resolved-Keeps env (some (symbolic_link t)) = Steps-fail _ (stable.plain _ refl) (λ s i. i)

  pub open_content-Keeps : (env : Env) (ino : ℕ) → Keeps E I (open_content env ino)
  unfolding open_content
  open_content-Keeps env ino =
      Steps-bind (λ _. I) _ _ (Keeps-asks stable _ (path_of-IsPlain ino))
        (λ path.
          Steps-bind (λ _. I) _ _ (Keeps-asks stable _ (resolve-IsPlain env path))
            (open_resolved-Keeps env))
