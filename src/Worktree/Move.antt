-- ===== src/Worktree/Move.antt =====
-- `rename` of crates/worktree/src/lib.rs.
pub mod Phased
use git_lazy_mount.Prelude.{
  ℕ, zero, suc, Bool, true, false, ◌||◌, Option, none, some, List, [], ◌∷◌, ◌++◌, Bytes, elem,
  if◌then◌else◌, ◌==◌, ◌/◌, ◌%◌,
}
use git_lazy_mount.Prelude.Result.{Result, ok, err, and_then}
use git_lazy_mount.Prelude.Io.{pure, gets, modify, fail, ◌>>=◌, ◌>>◌}
use git_lazy_mount.Core.RepoPath.{RepoPath}
use git_lazy_mount.Core.GitMode.{GitMode, regular, executable, symlink}
use git_lazy_mount.Core.ObjectId.{ObjectId}
use git_lazy_mount.Core.Tree.{TreeEntry}
use git_lazy_mount.Inode
use git_lazy_mount.Overlay
use git_lazy_mount.Overlay.{Overlay, OverlayEntry}
use git_lazy_mount.Worktree.{
  Env, Projection, Act, Resolved, directory, regular_file, symbolic_link, overlay_file,
  baseline_file, overlay_target, baseline_target, WorktreeError, internal, already_exists,
  not_found, unsupported, git_error, asks, in_overlay, resolve, child_path, record_change,
  baseline_resolve, is_tombstone, join_name,
}
use git_lazy_mount.Worktree.Write.{is_some}

-- The flags `RENAME_NOREPLACE` and `RENAME_EXCHANGE`, the lowest two bits.
unfoldable pub no_replace : ℕ → Bool
no_replace flags = (flags % 2) == 1

unfoldable pub exchange : ℕ → Bool
exchange flags = ((flags / 2) % 2) == 1

file_mode : Bool → GitMode
file_mode true = executable
file_mode false = regular

-- Names of the baseline that no overlay entry decides, each once.
baseline_names :
    Overlay → RepoPath → List Bytes → List TreeEntry → Result WorktreeError (List Bytes)
baseline_names o path seen [] = ok seen
baseline_names o path seen (e ∷ es) =
    let skipped = baseline_names o path seen es in
    let taken = baseline_names o path (seen ++ e.name ∷ []) es in
    and_then (join_name path e.name)
      (λ child. if is_some (Overlay.lookup o child) || elem e.name seen then skipped else taken)

-- Names of the overlay behind them.
overlay_names : List Bytes → List (Bytes × OverlayEntry) → List Bytes
overlay_names seen [] = seen
overlay_names seen ((name, e) ∷ es) =
    let skipped = overlay_names seen es in
    let taken = overlay_names (seen ++ name ∷ []) es in
    if is_tombstone (some e) || elem name seen then skipped else taken

push_resolved : Bytes → Option Resolved → List (Bytes × Resolved) → List (Bytes × Resolved)
push_resolved name none rest = rest
push_resolved name (some r) rest = (name, r) ∷ rest

resolve_names :
    Env → Projection → RepoPath → List Bytes → Result WorktreeError (List (Bytes × Resolved))
unfolding push_resolved
resolve_names env s path [] = ok []
resolve_names env s path (name ∷ names) =
    let rest = resolve_names env s path names in
    and_then (join_name path name) (λ child.
      and_then (resolve env s child) (λ r. and_then rest (λ more. ok (push_resolved name r more))))

tree_names : Env → Overlay → RepoPath → Option ObjectId → Result WorktreeError (List Bytes)
unfolding baseline_names
tree_names env o path none = ok []
tree_names env o path (some t) = elim (env.read_tree t) [
  | none ↦ err git_error
  | some es ↦ baseline_names o path [] es
]

tree_of : Option Resolved → Result WorktreeError (Option ObjectId)
tree_of (some (directory t)) = ok t
tree_of _ = err internal

unfoldable pub effective_children :
    Env → Projection → RepoPath → Result WorktreeError (List (Bytes × Resolved))
unfolding tree_of tree_names overlay_names resolve_names
effective_children env s path = and_then (resolve env s path) (λ r. and_then (tree_of r) (λ t.
    and_then (tree_names env s.overlay path t)
      (λ below. resolve_names env s path (overlay_names below (Overlay.children s.overlay path)))))

rename_inode : RepoPath → RepoPath → Act (Unit {0})
rename_inode src dst = modify (λ s. record s { inodes = Inode.rename src dst s.inodes })

-- One child that is no directory.
move_leaf : Env → RepoPath → RepoPath → Resolved → Act (Unit {0})
unfolding rename_inode file_mode
move_leaf env cs cd (regular_file (overlay_file q) exec) = do
  in_overlay (Overlay.rename env.codec cs cd)
  rename_inode cs cd
move_leaf env cs cd (symbolic_link (overlay_target t)) = do
  in_overlay (Overlay.rename env.codec cs cd)
  rename_inode cs cd
move_leaf env cs cd (regular_file (baseline_file oid) exec) = do
  in_overlay (Overlay.put_base_ref env.codec cd oid (file_mode exec))
  rename_inode cs cd
move_leaf env cs cd (symbolic_link (baseline_target oid)) = do
  in_overlay (Overlay.put_base_ref env.codec cd oid symlink)
  rename_inode cs cd
move_leaf env cs cd _ = pure tt

-- One child: `below` moves a directory.
move_child :
    (RepoPath → RepoPath → Act (Unit {0})) → Env → RepoPath → RepoPath → Resolved → Act (Unit {0})
unfolding move_leaf
move_child below env cs cd (directory t) = below cs cd
move_child below env cs cd r = move_leaf env cs cd r

move_children :
    (RepoPath → RepoPath → Act (Unit {0}))
    → Env
    → RepoPath
    → RepoPath
    → List (Bytes × Resolved)
    → Act (Unit {0})
unfolding move_child
move_children below env src dst [] = pure tt
move_children below env src dst ((name, r) ∷ rest) = do
  cs ← asks (λ s. join_name src name)
  cd ← asks (λ s. join_name dst name)
  move_child below env cs cd r
  move_children below env src dst rest

-- `fuel` bounds the depth of the directories; a run that exhausts it fails.
unfoldable pub rename_dir : ℕ → Env → RepoPath → RepoPath → Act (Unit {0})
unfolding move_children rename_inode
rename_dir zero env src dst = fail internal
rename_dir (suc fuel) env src dst = do
  in_overlay (Overlay.put_dir env.codec dst)
  kids ← asks (λ s. effective_children env s src)
  move_children (rename_dir fuel env) env src dst kids
  in_overlay (Overlay.put_tombstone env.codec src)
  rename_inode src dst

-- A path that is no directory: its overlay entry is keyed again, or its baseline blob is named at
-- the new path.
rename_overlay : Env → RepoPath → RepoPath → Act (Unit {0})
unfolding rename_inode
rename_overlay env src dst = do
  in_overlay (Overlay.rename env.codec src dst)
  r ← asks (λ s. baseline_resolve env s src)
  if is_some r then in_overlay (Overlay.put_tombstone env.codec src) else pure tt
  rename_inode src dst

rename_baseline : Env → RepoPath → RepoPath → Option Resolved → Act (Unit {0})
unfolding rename_inode file_mode
rename_baseline env src dst (some (regular_file (baseline_file oid) exec)) = do
  in_overlay (Overlay.put_base_ref env.codec dst oid (file_mode exec))
  in_overlay (Overlay.put_tombstone env.codec src)
  rename_inode src dst
rename_baseline env src dst (some (symbolic_link (baseline_target oid))) = do
  in_overlay (Overlay.put_base_ref env.codec dst oid symlink)
  in_overlay (Overlay.put_tombstone env.codec src)
  rename_inode src dst
rename_baseline env src dst _ = fail not_found

is_directory : Option Resolved → Bool
is_directory (some (directory t)) = true
is_directory _ = false

-- What follows the checks of the flags.
move_path : ℕ → Env → RepoPath → RepoPath → Act (Unit {0})
unfolding rename_dir rename_overlay rename_baseline is_directory
move_path fuel env src dst = do
  record_change env src
  record_change env dst
  r ← asks (λ s. resolve env s src)
  local ← gets (λ s. is_some (Overlay.lookup s.overlay src))
  (if is_directory r
      then rename_dir fuel env src dst
      else if local
      then rename_overlay env src dst
      else (do b ← asks (λ s. baseline_resolve env s src); rename_baseline env src dst b))

-- `resolve(dst)` is asked for only with the flag.
taken : Env → RepoPath → Bool → Act Bool
taken env dst false = pure false
taken env dst true = do r ← asks (λ s. resolve env s dst); pure (is_some r)

unfoldable pub rename : ℕ → Env → ℕ → Bytes → ℕ → Bytes → ℕ → Act (Unit {0})
unfolding move_path taken
rename fuel env parent_ino name newparent_ino newname flags = do
  src ← asks (λ s. child_path s parent_ino name)
  dst ← asks (λ s. child_path s newparent_ino newname)
  (if exchange flags then fail unsupported else (do
    there ← taken env dst (no_replace flags)
    if there then fail already_exists else move_path fuel env src dst))
