-- ===== src/Worktree/Move/Phased.antt =====
-- `rename` of crates/worktree/src/lib.rs records both paths before it changes the overlay.
use git_lazy_mount.Prelude.{
  ℕ, zero, suc, ◌≡◌, refl, Bool, true, false, ◌||◌, Option, none, some, List, [], ◌∷◌, ◌++◌, Bytes,
  elem,
}
use git_lazy_mount.Prelude.Result.{Result, ok}
use git_lazy_mount.Prelude.Io.{fail, ◌>>=◌}
use git_lazy_mount.Core.RepoPath.{RepoPath}
use git_lazy_mount.Core.ObjectId.{ObjectId}
use git_lazy_mount.Core.Tree.{TreeEntry}
use git_lazy_mount.Overlay
use git_lazy_mount.Overlay.{Overlay}
use git_lazy_mount.Worktree.{
  Env, Projection, Act, Resolved, directory, gitfile, regular_file, symbolic_link, overlay_file,
  baseline_file, overlay_target, baseline_target, WorktreeError, child_path, record_change,
  join_name, resolve, asks, in_overlay,
}
use git_lazy_mount.Worktree.Keeps.{
  Steps, Keeps, IsStable, Plain, IsPlain, is_panic, Steps-bind, Steps-widen, Steps-if, Steps-pure,
  Steps-gets, Steps-fail, Steps-asks, Keeps-modify, Keeps-asks, Keeps-in_overlay, IsPlain-and_then,
  IsPlain-if,
}
use git_lazy_mount.Worktree.Plain.{
  child_path-IsPlain, resolve-IsPlain, baseline_resolve-IsPlain, join_name-IsPlain, IsPlain-option,
}
use git_lazy_mount.Worktree.Write.{is_some}
use git_lazy_mount.Worktree.Move.{
  rename, taken, move_path, rename_dir, rename_overlay, rename_baseline, move_children, move_child,
  move_leaf, rename_inode, effective_children, tree_of, tree_names, baseline_names, resolve_names,
  overlay_names, no_replace,
}

baseline_names-IsPlain :
    (o : Overlay) (path : RepoPath) (seen : List Bytes) (es : List TreeEntry)
    → IsPlain (baseline_names o path seen es)
unfolding baseline_names
baseline_names-IsPlain o path seen [] = tt
baseline_names-IsPlain o path seen (e ∷ es) =
    IsPlain-and_then (join_name path e.name) _ (join_name-IsPlain path e.name) (λ child.
      IsPlain-if (is_some (Overlay.lookup o child) || elem e.name seen) _ _
        (baseline_names-IsPlain o path seen es)
        (baseline_names-IsPlain o path (seen ++ e.name ∷ []) es))

resolve_names-IsPlain :
    (env : Env) (s : Projection) (path : RepoPath) (names : List Bytes)
    → IsPlain (resolve_names env s path names)
unfolding resolve_names
resolve_names-IsPlain env s path [] = tt
resolve_names-IsPlain env s path (name ∷ names) =
    IsPlain-and_then (join_name path name) _ (join_name-IsPlain path name) (λ child.
      IsPlain-and_then (resolve env s child) _ (resolve-IsPlain env child s) (λ r.
        IsPlain-and_then (resolve_names env s path names) _ (resolve_names-IsPlain env s path names)
          (λ more. tt)))

tree_of-IsPlain : (r : Option Resolved) → IsPlain (tree_of r)
unfolding tree_of is_panic
tree_of-IsPlain (some (directory t)) = tt
tree_of-IsPlain _ = refl

tree_names-IsPlain :
    (env : Env) (o : Overlay) (path : RepoPath) (t : Option ObjectId)
    → IsPlain (tree_names env o path t)
unfolding tree_names is_panic
tree_names-IsPlain env o path none = tt
tree_names-IsPlain env o path (some t) =
    IsPlain-option (env.read_tree t) _ _ refl (baseline_names-IsPlain o path [])

effective_children-IsPlain :
    (env : Env) (path : RepoPath) (s : Projection) → IsPlain (effective_children env s path)
unfolding effective_children
effective_children-IsPlain env path s =
    IsPlain-and_then (resolve env s path) _ (resolve-IsPlain env path s) (λ r.
      IsPlain-and_then (tree_of r) _ (tree_of-IsPlain r) (λ t.
        IsPlain-and_then (tree_names env s.overlay path t) _
          (tree_names-IsPlain env s.overlay path t)
          (λ below.
            resolve_names-IsPlain env s path
              (overlay_names below (Overlay.children s.overlay path)))))

module _ {E : WorktreeError → Type 0} {I : Projection → Type 0} (stable : IsStable E I) where
  rename_inode-Keeps : (src dst : RepoPath) → Keeps E I (rename_inode src dst)
  unfolding rename_inode
  rename_inode-Keeps src dst = Keeps-modify _ (stable.rename src dst)

  -- A call of the overlay, and then the table.
  overlay_then_inode :
      {A : Type 0} (m : Overlay.Act A) (src dst : RepoPath)
      → Keeps E I (in_overlay m >>= λ u. rename_inode src dst)
  overlay_then_inode m src dst =
      Steps-bind (λ _. I) _ _ (Keeps-in_overlay stable m) (λ u. rename_inode-Keeps src dst)

  move_leaf-Keeps :
      (env : Env) (cs cd : RepoPath) (r : Resolved) → Keeps E I (move_leaf env cs cd r)
  unfolding move_leaf
  move_leaf-Keeps env cs cd (regular_file (overlay_file q) exec) = overlay_then_inode _ cs cd
  move_leaf-Keeps env cs cd (symbolic_link (overlay_target t)) = overlay_then_inode _ cs cd
  move_leaf-Keeps env cs cd (regular_file (baseline_file oid) exec) = overlay_then_inode _ cs cd
  move_leaf-Keeps env cs cd (symbolic_link (baseline_target oid)) = overlay_then_inode _ cs cd
  move_leaf-Keeps env cs cd _ = Steps-pure tt (λ s i. i)

  move_child-Keeps :
      (below : RepoPath → RepoPath → Act (Unit {0}))
      → ((p q : RepoPath) → Keeps E I (below p q))
      → (env : Env) (cs cd : RepoPath) (r : Resolved) → Keeps E I (move_child below env cs cd r)
  unfolding move_child
  move_child-Keeps below h env cs cd (directory t) = h cs cd
  move_child-Keeps below h env cs cd gitfile = move_leaf-Keeps env cs cd gitfile
  move_child-Keeps below h env cs cd (regular_file src exec) =
      move_leaf-Keeps env cs cd (regular_file src exec)
  move_child-Keeps below h env cs cd (symbolic_link src) =
      move_leaf-Keeps env cs cd (symbolic_link src)

  move_children-Keeps :
      (below : RepoPath → RepoPath → Act (Unit {0}))
      → ((p q : RepoPath) → Keeps E I (below p q))
      → (env : Env) (src dst : RepoPath) (kids : List (Bytes × Resolved))
      → Keeps E I (move_children below env src dst kids)
  unfolding move_children
  move_children-Keeps below h env src dst [] = Steps-pure tt (λ s i. i)
  move_children-Keeps below h env src dst ((name, r) ∷ rest) =
      Steps-bind (λ _. I) _ _ (Keeps-asks stable _ (λ s. join_name-IsPlain src name))
        (λ cs.
          Steps-bind (λ _. I) _ _ (Keeps-asks stable _ (λ s. join_name-IsPlain dst name))
            (λ cd.
              Steps-bind (λ _. I) _ _ (move_child-Keeps below h env cs cd r)
                (λ u. move_children-Keeps below h env src dst rest)))

  pub rename_dir-Keeps :
      (fuel : ℕ) (env : Env) (src dst : RepoPath) → Keeps E I (rename_dir fuel env src dst)
  unfolding rename_dir is_panic
  rename_dir-Keeps zero env src dst = Steps-fail _ (stable.plain _ refl) (λ s i. i)
  rename_dir-Keeps (suc fuel) env src dst =
      Steps-bind (λ _. I) _ _ (Keeps-in_overlay stable _)
        (λ u.
          Steps-bind (λ _. I) _ _ (Keeps-asks stable _ (effective_children-IsPlain env src))
            (λ kids.
              Steps-bind (λ _. I) _ _
                (move_children-Keeps (rename_dir fuel env) (rename_dir-Keeps fuel env) env src dst
                  kids)
                (λ v. overlay_then_inode _ src dst)))

  rename_overlay-Keeps : (env : Env) (src dst : RepoPath) → Keeps E I (rename_overlay env src dst)
  unfolding rename_overlay
  rename_overlay-Keeps env src dst =
      Steps-bind (λ _. I) _ _ (Keeps-in_overlay stable _)
        (λ u.
          Steps-bind (λ _. I) _ _ (Keeps-asks stable _ (baseline_resolve-IsPlain env src))
            (λ r.
              Steps-bind (λ _. I) _ _
                (Steps-if _ _ _ (Keeps-in_overlay stable _) (Steps-pure tt (λ s i. i)))
                (λ v. rename_inode-Keeps src dst)))

  rename_baseline-Keeps :
      (env : Env) (src dst : RepoPath) (r : Option Resolved)
      → Keeps E I (rename_baseline env src dst r)
  unfolding rename_baseline is_panic
  rename_baseline-Keeps env src dst (some (regular_file (baseline_file oid) exec)) =
      Steps-bind (λ _. I) _ _ (Keeps-in_overlay stable _) (λ u. overlay_then_inode _ src dst)
  rename_baseline-Keeps env src dst (some (symbolic_link (baseline_target oid))) =
      Steps-bind (λ _. I) _ _ (Keeps-in_overlay stable _) (λ u. overlay_then_inode _ src dst)
  rename_baseline-Keeps env src dst _ = Steps-fail _ (stable.plain _ refl) (λ s i. i)

-- As `Phases`, with two paths.
pub record MovePhases (E : WorktreeError → Type 0) (env : Env)
    (from to : Projection → Result WorktreeError RepoPath) (Before : Projection → Type 0)
    (Middle : RepoPath → Projection → Type 0) (Done Either : Projection → Type 0) : Type 0 where
  pub stable : IsStable E Done
  pub before : (s : Projection) → Before s → Either s
  pub done : (s : Projection) → Done s → Either s
  pub first :
      (p q : RepoPath)
      → Steps E
          (λ s. Before s × (from s ≡ ok p) × (to s ≡ ok q))
          (record_change env p)
          (λ _. Middle q)
          Either
  pub second : (q : RepoPath) → Steps E (Middle q) (record_change env q) (λ _. Done) Either

module _ {E : WorktreeError → Type 0} {Before : Projection → Type 0}
    {Middle : RepoPath → Projection → Type 0} {Done Either : Projection → Type 0} (env : Env)
    (parent_ino : ℕ) (name : Bytes) (newparent_ino : ℕ) (newname : Bytes)
    (ph : MovePhases E env
      (λ s. child_path s parent_ino name)
      (λ s. child_path s newparent_ino newname)
      Before
      Middle
      Done
      Either) where
  abbrev Found : RepoPath → RepoPath → Projection → Type 0
  Found p q s =
      Before s × (child_path s parent_ino name ≡ ok p) × (child_path s newparent_ino newname ≡ ok q)

  taken-Phased :
      (p q : RepoPath) (b : Bool) → Steps E (Found p q) (taken env q b) (λ _. Found p q) Either
  unfolding taken
  taken-Phased p q false = Steps-pure false (λ s h. h)
  taken-Phased p q true =
      Steps-bind (λ _. Found p q) _ _
        (Steps-widen _
          (Steps-asks _ ph.stable.plain (resolve-IsPlain env q) (λ s h. ph.before s h.0))
          (λ a s h. h.0) (λ s r. r))
        (λ r. Steps-pure _ (λ s h. h))

  move_path-Phased :
      (fuel : ℕ) (p q : RepoPath)
      → Steps E (Found p q) (move_path fuel env p q) (λ _. Either) Either
  unfolding move_path
  move_path-Phased fuel p q = Steps-bind _ _ _ (ph.first p q) (λ u.
      Steps-bind (λ _. Done) _ _ (ph.second q)
        (λ v.
          Steps-widen _
            (Steps-bind (λ _. Done) _ _ (Keeps-asks ph.stable _ (resolve-IsPlain env p))
              (λ r.
                Steps-bind (λ _. Done) _ _ (Steps-gets _)
                  (λ local. Steps-if _ _ _ (rename_dir-Keeps ph.stable fuel env p q) (
                    Steps-if _ _ _ (rename_overlay-Keeps ph.stable env p q) (
                      Steps-bind (λ _. Done) _ _
                        (Keeps-asks ph.stable _ (baseline_resolve-IsPlain env p))
                        (rename_baseline-Keeps ph.stable env p q))))))
            (λ a. ph.done) ph.done))

  -- The new path is found, after the old one.
  second_path :
      (p : RepoPath)
      → Steps E
          (λ s. Before s × (child_path s parent_ino name ≡ ok p))
          (asks (λ s. child_path s newparent_ino newname))
          (λ q. Found p q)
          Either
  second_path p =
      Steps-widen _
        (Steps-asks _ ph.stable.plain (child_path-IsPlain newparent_ino newname)
          (λ s h. ph.before s h.0))
        (λ q s h. (h.0.0, h.0.1, h.1)) (λ s r. r)

  refuses :
      (p q : RepoPath) (e : WorktreeError)
      → Plain e
      → Steps E (Found p q) (fail {A = Unit {0}} e) (λ _. Either) Either
  refuses p q e h = Steps-fail e (ph.stable.plain e h) (λ s b. ph.before s b.0)

  pub rename-Phased :
      (fuel flags : ℕ)
      → Steps E Before
          (rename fuel env parent_ino name newparent_ino newname flags)
          (λ _. Either)
          Either
  unfolding rename is_panic
  rename-Phased fuel flags =
      Steps-bind _ _ _ (Steps-asks _ ph.stable.plain (child_path-IsPlain parent_ino name) ph.before)
        (λ p.
          Steps-bind (λ q. Found p q) _ _ (second_path p)
            (λ q. Steps-if _ _ _ (refuses p q _ refl) (
              Steps-bind (λ _. Found p q) _ _ (taken-Phased p q (no_replace flags))
                (λ there. Steps-if _ _ _ (refuses p q _ refl) (move_path-Phased fuel p q)))))
