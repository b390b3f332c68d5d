-- ===== src/Worktree/Write/Phased.antt =====
-- The write operations of crates/worktree/src/lib.rs record the path before they change the
-- overlay: whatever the phases are, an operation goes through them in order.
use git_lazy_mount.Prelude.{ℕ, ◌≡◌, refl, Bool, Option, none, some, List, [], ◌∷◌, Bytes, ◌==◌}
use git_lazy_mount.Prelude.Result.{Result, ok}
use git_lazy_mount.Prelude.Io.{fail, ◌>>◌}
use git_lazy_mount.Core.RepoPath.{RepoPath}
use git_lazy_mount.Core.ObjectId.{ObjectId}
use git_lazy_mount.Core.Tree.{TreeEntry}
use git_lazy_mount.Overlay
use git_lazy_mount.Overlay.{Overlay, OverlayEntry}
use git_lazy_mount.Worktree.{
  Env, Projection, Act, Resolved, regular_file, baseline_file, WorktreeError, child_path, path_of,
  record_change, record_change_file, join_name, is_tombstone, baseline_tree_at, asks,
}
use git_lazy_mount.Worktree.Read.Kept.{from_git-Keeps}
use git_lazy_mount.Worktree.Keeps.{
  Steps, Keeps, IsStable, Phases, Plain, IsPlain, is_panic, Steps-bind, Steps-widen, Steps-if,
  Steps-pure, Steps-gets, Steps-fail, Steps-asks, Keeps-modify, Keeps-io, Keeps-asks,
  Keeps-in_overlay, IsPlain-and_then, IsPlain-if,
}
use git_lazy_mount.Worktree.Plain.{
  child_path-IsPlain, path_of-IsPlain, resolve-IsPlain, baseline_resolve-IsPlain,
  baseline_tree_at-IsPlain, join_name-IsPlain, IsPlain-option,
}
use git_lazy_mount.Worktree.Write.{
  create, open_write, truncate, unlink, mkdir, rmdir, make_symlink, set_executable, copy_up,
  seed_of, set_len, resize_content, untouched, blob_of, mask, unlink_inode, remove_entry,
  dir_is_empty, baseline_masked, all_masked, copy_up_mode,
}

all_masked-IsPlain :
    (o : Overlay) (path : RepoPath) (es : List TreeEntry) → IsPlain (all_masked o path es)
unfolding all_masked
all_masked-IsPlain o path [] = tt
all_masked-IsPlain o path (e ∷ es) =
    IsPlain-and_then (join_name path e.name) _ (join_name-IsPlain path e.name) (λ child.
      IsPlain-if (is_tombstone (Overlay.lookup o child)) _ _ (all_masked-IsPlain o path es) tt)

baseline_masked-IsPlain :
    (env : Env) (o : Overlay) (path : RepoPath) (t : Option ObjectId)
    → IsPlain (baseline_masked env o path t)
unfolding baseline_masked is_panic
baseline_masked-IsPlain env o path none = tt
baseline_masked-IsPlain env o path (some t) =
    IsPlain-option (env.read_tree t) _ _ refl (all_masked-IsPlain o path)

dir_is_empty-IsPlain :
    (env : Env) (path : RepoPath) (s : Projection) → IsPlain (dir_is_empty env s path)
unfolding dir_is_empty
dir_is_empty-IsPlain env path s =
    IsPlain-and_then (baseline_tree_at env s path) _ (baseline_tree_at-IsPlain env path s) (λ t.
      IsPlain-and_then (baseline_masked env s.overlay path t) _
        (baseline_masked-IsPlain env s.overlay path t) (λ masked. tt))

module _ {E : WorktreeError → Type 0} {I : Projection → Type 0} (stable : IsStable E I) where
  seed_of-Keeps : (env : Env) (empty : Bool) (oid : ObjectId) → Keeps E I (seed_of env empty oid)
  unfolding seed_of
  seed_of-Keeps env empty oid = Steps-if empty _ _ (Steps-pure none (λ s i. i)) (
      Steps-bind (λ _. I) _ _ (from_git-Keeps stable (env.blob_bytes oid))
        (λ bs. Steps-pure (some bs) (λ s i. i)))

  set_len-Keeps : (handle : Bytes) (n : ℕ) → Keeps E I (set_len handle n)
  unfolding set_len resize_content untouched is_panic
  set_len-Keeps handle n =
      Keeps-io _ _ _ (stable.plain _ refl) (λ s i. stable.overlay s _ i) (λ k s i. i)

  copy_up-Keeps :
      (env : Env) (empty : Bool) (path : RepoPath) (r : Option Resolved)
      → Keeps E I (copy_up env empty path r)
  unfolding copy_up is_panic
  copy_up-Keeps env empty path (some (regular_file (baseline_file oid) exec)) =
      Steps-bind (λ _. I) _ _ (seed_of-Keeps env empty oid) (λ seed. Keeps-in_overlay stable _)
  copy_up-Keeps env empty path _ = Steps-fail _ (stable.plain _ refl) (λ s i. i)

  copy_up_mode-Keeps :
      (env : Env) (path : RepoPath) (exec : Bool) (r : Option Resolved)
      → Keeps E I (copy_up_mode env path exec r)
  unfolding copy_up_mode is_panic
  copy_up_mode-Keeps env path exec (some (regular_file (baseline_file oid) old)) =
      Steps-bind (λ _. I) _ _ (from_git-Keeps stable (env.blob_bytes oid))
        (λ bs.
          Steps-bind (λ _. I) _ _ (Keeps-in_overlay stable _) (λ handle. Steps-pure tt (λ s i. i)))
  copy_up_mode-Keeps env path exec _ = Steps-fail _ (stable.plain _ refl) (λ s i. i)

  mask-Keeps : (env : Env) (path : RepoPath) (b : Bool) → Keeps E I (mask env path b)
  unfolding mask
  mask-Keeps env path b = Steps-if b _ _ (Keeps-in_overlay stable _) (Keeps-in_overlay stable _)

module _ {E : WorktreeError → Type 0} {target : Projection → Result WorktreeError RepoPath}
    {records : RepoPath → Act (Unit {0})} {Before Done Either : Projection → Type 0}
    (ph : Phases E target records Before Done Either) where
  -- The path is found.
  reads_target :
      ((s : Projection) → IsPlain (target s))
      → Steps E Before (asks target) (λ p s. Before s × (target s ≡ ok p)) Either
  reads_target h = Steps-asks target ph.stable.plain h ph.before

  -- Nothing is recorded yet.
  reads :
      {A : Type 0} (p : RepoPath) (f : Projection → Result WorktreeError A)
      → ((s : Projection) → IsPlain (f s))
      → Steps E
          (λ s. Before s × (target s ≡ ok p))
          (asks f)
          (λ _ s. Before s × (target s ≡ ok p))
          Either
  reads p f h =
      Steps-widen _ (Steps-asks f ph.stable.plain h (λ s b. ph.before s b.0)) (λ a s b. b.0)
        (λ s r. r)

  refuses :
      {A : Type 0} {Q : A → Projection → Type 0} (p : RepoPath) (e : WorktreeError)
      → Plain e
      → Steps E (λ s. Before s × (target s ≡ ok p)) (fail {A = A} e) Q Either
  refuses p e h = Steps-fail e (ph.stable.plain e h) (λ s b. ph.before s b.0)

  -- What follows the record.
  follows :
      {A : Type 0} {P : Projection → Type 0} (m : Act (Unit {0})) (k : Act A)
      → Steps E P m (λ _. Done) Either
      → Keeps E Done k
      → Steps E P (m >> k) (λ _. Either) Either
  follows m k h g =
      Steps-bind (λ _. Done) m (λ _. k) h (λ _. Steps-widen k g (λ a. ph.done) ph.done)

module _ {E : WorktreeError → Type 0} {Before Done Either : Projection → Type 0} (env : Env)
    (parent_ino : ℕ) (name : Bytes)
    (ph : Phases E (λ s. child_path s parent_ino name) (record_change env) Before Done Either) where
  pub create-Phased :
      (exec : Bool) → Steps E Before (create env parent_ino name exec) (λ _. Either) Either
  unfolding create
  create-Phased exec =
      Steps-bind _ _ _ (reads_target ph (child_path-IsPlain parent_ino name)) (λ path.
        follows ph _ _ (ph.recording path) (
          Steps-bind (λ _. Done) _ _ (Keeps-in_overlay ph.stable _)
            (λ handle.
              Steps-bind (λ _. Done) _ _ (ph.stable.look path) (λ r. Steps-pure _ (λ s i. i)))))

  pub mkdir-Phased : Steps E Before (mkdir env parent_ino name) (λ _. Either) Either
  unfolding mkdir is_panic
  mkdir-Phased = Steps-bind _ _ _ (reads_target ph (child_path-IsPlain parent_ino name)) (λ path.
      Steps-bind _ _ _ (reads ph path _ (resolve-IsPlain env path)) (λ r.
        Steps-if _ _ _ (refuses ph path _ refl) (
          follows ph _ _ (ph.recording path) (
            Steps-bind (λ _. Done) _ _ (Keeps-in_overlay ph.stable _)
              (λ u.
                Steps-bind (λ _. Done) _ _ (ph.stable.look path) (λ i. Steps-pure _ (λ s i. i)))))))

  pub make_symlink-Phased :
      (target : Bytes)
      → Steps E Before (make_symlink env parent_ino name target) (λ _. Either) Either
  unfolding make_symlink
  make_symlink-Phased target =
      Steps-bind _ _ _ (reads_target ph (child_path-IsPlain parent_ino name)) (λ path.
        follows ph _ _ (ph.recording path) (
          Steps-bind (λ _. Done) _ _ (Keeps-in_overlay ph.stable _)
            (λ u. Steps-bind (λ _. Done) _ _ (ph.stable.look path) (λ r. Steps-pure _ (λ s i. i)))))

  remove_entry-Phased :
      (path : RepoPath) (b : Bool)
      → Steps E
          (λ s. Before s × (child_path s parent_ino name ≡ ok path))
          (remove_entry env path b)
          (λ _. Either)
          Either
  unfolding remove_entry unlink_inode is_panic
  remove_entry-Phased path b = Steps-bind _ _ _ (Steps-gets _) (λ local.
      Steps-if _ _ _ (refuses ph path _ refl) (
        follows ph _ _ (ph.recording path) (
          Steps-bind (λ _. Done) _ _ (mask-Keeps ph.stable env path b)
            (λ u. Keeps-modify _ (ph.stable.unlink path)))))

  pub unlink-Phased : Steps E Before (unlink env parent_ino name) (λ _. Either) Either
  unfolding unlink
  unlink-Phased = Steps-bind _ _ _ (reads_target ph (child_path-IsPlain parent_ino name)) (λ path.
      Steps-bind _ _ _ (reads ph path _ (baseline_resolve-IsPlain env path))
        (λ r. remove_entry-Phased path _))

  pub rmdir-Phased : Steps E Before (rmdir env parent_ino name) (λ _. Either) Either
  unfolding rmdir is_panic
  rmdir-Phased = Steps-bind _ _ _ (reads_target ph (child_path-IsPlain parent_ino name)) (λ path.
      Steps-bind _ _ _ (reads ph path _ (dir_is_empty-IsPlain env path)) (λ empty.
        Steps-if _ _ _ (refuses ph path _ refl) (
          Steps-bind _ _ _ (reads ph path _ (baseline_tree_at-IsPlain env path))
            (λ t. remove_entry-Phased path _))))

module _ {E : WorktreeError → Type 0} {Before Done Either : Projection → Type 0} (env : Env)
    (ino : ℕ) (ph : Phases E (λ s. path_of s ino) (record_change_file env) Before Done Either) where
  pub open_write-Phased :
      (cut : Bool) → Steps E Before (open_write env ino cut) (λ _. Either) Either
  unfolding open_write
  open_write-Phased cut = Steps-bind _ _ _ (reads_target ph (path_of-IsPlain ino)) (λ path.
      follows ph _ _ (ph.recording path) (
        Steps-bind (λ _. Done) _ _ (Steps-gets _)
          (λ local.
            Steps-if _ _ _
              (Steps-bind (λ _. Done) _ _ (Keeps-in_overlay ph.stable _)
                (λ handle.
                  Steps-bind (λ _. Done) _ _
                    (Steps-if cut _ _ (set_len-Keeps ph.stable handle 0) (Steps-pure _ (λ s i. i)))
                    (λ u. Steps-pure _ (λ s i. i))))
              (Steps-bind (λ _. Done) _ _ (Keeps-asks ph.stable _ (resolve-IsPlain env path))
                (copy_up-Keeps ph.stable env cut path)))))

  blob_of-Phased :
      (path : RepoPath) (r : Option Resolved)
      → Steps E
          (λ s. Before s × (path_of s ino ≡ ok path))
          (blob_of r)
          (λ _ s. Before s × (path_of s ino ≡ ok path))
          Either
  unfolding blob_of is_panic
  blob_of-Phased path (some (regular_file (baseline_file oid) exec)) = Steps-pure _ (λ s b. b)
  blob_of-Phased path _ = refuses ph path _ refl

  pub truncate-Phased : (size : ℕ) → Steps E Before (truncate env ino size) (λ _. Either) Either
  unfolding truncate
  truncate-Phased size = Steps-bind _ _ _ (reads_target ph (path_of-IsPlain ino)) (λ path.
      Steps-bind _ _ _ (Steps-gets _) (λ local.
        Steps-if _ _ _
          (follows ph _ _ (ph.recording path) (
            Steps-bind (λ _. Done) _ _ (Keeps-in_overlay ph.stable _)
              (λ handle. set_len-Keeps ph.stable handle size)))
          (Steps-bind _ _ _ (reads ph path _ (resolve-IsPlain env path)) (λ r.
            Steps-bind _ _ _ (blob_of-Phased path r) (λ (oid, exec).
              follows ph _ _ (ph.recording path) (
                Steps-bind (λ _. Done) _ _ (seed_of-Keeps ph.stable env (size == 0) oid)
                  (λ seed.
                    Steps-bind (λ _. Done) _ _ (Keeps-in_overlay ph.stable _)
                      (λ handle. set_len-Keeps ph.stable handle size))))))))

  pub set_executable-Phased :
      (exec : Bool) → Steps E Before (set_executable env ino exec) (λ _. Either) Either
  unfolding set_executable
  set_executable-Phased exec = Steps-bind _ _ _ (reads_target ph (path_of-IsPlain ino)) (λ path.
      follows ph _ _ (ph.recording path) (
        Steps-bind (λ _. Done) _ _ (Steps-gets _)
          (λ local. Steps-if _ _ _ (Keeps-in_overlay ph.stable _) (
            Steps-bind (λ _. Done) _ _ (Keeps-asks ph.stable _ (resolve-IsPlain env path))
              (copy_up_mode-Keeps ph.stable env path exec)))))
