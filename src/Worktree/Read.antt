-- ===== src/Worktree/Read.antt =====
-- The read operations of crates/worktree/src/lib.rs: `lookup`, `getattr`, `readdir`, `readlink`,
-- `forget`.
pub mod Kept
use git_lazy_mount.Prelude.{
  ℕ, Bool, true, false, ◌&&◌, Option, none, some, List, [], ◌∷◌, ◌++◌, Bytes, bytes_eq, length,
  if◌then◌else◌, ◌==◌,
}
use git_lazy_mount.Prelude.Io.{pure, gets, modify, fail, ◌>>=◌}
use git_lazy_mount.Core.RepoPath.{RepoPath, is_root}
use git_lazy_mount.Core.GitMode.{GitMode, regular, executable, symlink, tree, gitlink}
use git_lazy_mount.Core.ObjectId.{ObjectId}
use git_lazy_mount.Core.Tree.{TreeEntry}
use git_lazy_mount.Inode
use git_lazy_mount.Overlay
use git_lazy_mount.Overlay.{OverlayEntry}
use git_lazy_mount.Worktree.{
  Env, Act, Resolved, directory, regular_file, symbolic_link, gitfile, overlay_file, baseline_file,
  overlay_target, baseline_target, internal, git_error, asks, in_overlay, inode_lookup, resolve,
  path_of, join_name, gitfile_name,
}

pub data Kind : Type 0 where
  dir_kind symlink_kind : Kind
  file_kind : Bool → Kind

pub record Attr : Type 0 where
  pub ino : ℕ
  pub generation : ℕ
  pub size : ℕ
  pub kind : Kind

pub record DirEntry : Type 0 where
  pub name : Bytes
  pub kind : Kind
  pub ino : ℕ

-- What Git's store answers, or its error.
unfoldable pub from_git : {A : Type 0} → Option A → Act A
from_git none = fail git_error
from_git (some a) = pure a

size_of : Env → Resolved → Act ℕ
unfolding from_git
size_of env (directory t) = pure 0
size_of env gitfile = gets (λ s. length s.gitfile)
size_of env (regular_file (overlay_file q) exec) = in_overlay (Overlay.content_size q)
size_of env (regular_file (baseline_file oid) exec) = from_git (env.blob_size oid)
size_of env (symbolic_link (overlay_target t)) = pure (length t)
size_of env (symbolic_link (baseline_target oid)) = from_git (env.blob_size oid)

unfoldable pub kind_of : Resolved → Kind
kind_of (directory t) = dir_kind
kind_of gitfile = file_kind false
kind_of (regular_file source exec) = file_kind exec
kind_of (symbolic_link source) = symlink_kind

unfoldable pub attr_of : Env → ℕ → ℕ → Resolved → Act Attr
unfolding size_of
attr_of env ino generation r = do
  size ← size_of env r
  pure (record { ino = ino; generation = generation; size = size; kind = kind_of r })

found : Env → RepoPath → Option Resolved → Act (Option Attr)
unfolding attr_of
found env child none = pure none
found env child (some r) = do
  (ino, generation) ← inode_lookup child
  attr ← attr_of env ino generation r
  pure (some attr)

unfoldable pub lookup : Env → ℕ → Bytes → Act (Option Attr)
unfolding found
lookup env parent_ino name = do
  dir_path ← asks (λ s. path_of s parent_ino)
  child ← asks (λ s. join_name dir_path name)
  r ← asks (λ s. resolve env s child)
  found env child r

or_vanished : Option Resolved → Act Resolved
or_vanished none = fail internal
or_vanished (some r) = pure r

unfoldable pub getattr : Env → ℕ → Act Attr
unfolding or_vanished attr_of
getattr env ino = do
  path ← asks (λ s. path_of s ino)
  o ← asks (λ s. resolve env s path)
  r ← or_vanished o
  (i, generation) ← inode_lookup path
  attr_of env ino generation r

unfoldable pub mode_kind : GitMode → Kind
mode_kind tree = dir_kind
mode_kind gitlink = dir_kind
mode_kind regular = file_kind false
mode_kind executable = file_kind true
mode_kind symlink = symlink_kind

-- `none` for a tombstone, which hides.
unfoldable pub overlay_kind : OverlayEntry → Option Kind
overlay_kind Overlay.tombstone = none
overlay_kind (Overlay.file content exec) = some (file_kind exec)
overlay_kind (Overlay.symlink target) = some symlink_kind
overlay_kind Overlay.dir = some dir_kind
overlay_kind (Overlay.base_ref oid mode) = some (mode_kind mode)

-- The closure `push`.
push : RepoPath → Bytes → Kind → Act (List DirEntry)
push path name kind = do
  child ← asks (λ s. join_name path name)
  (ino, generation) ← inode_lookup child
  pure (record { name = name; kind = kind; ino = ino } ∷ [])

-- An overlay entry decides the name.
unless_overlaid : RepoPath → TreeEntry → Option OverlayEntry → Act (List DirEntry)
unfolding push
unless_overlaid path e (some o) = pure []
unless_overlaid path e none = push path e.name (mode_kind e.mode)

list_baseline : RepoPath → List TreeEntry → Act (List DirEntry)
unfolding unless_overlaid
list_baseline path [] = pure []
list_baseline path (e ∷ es) = do
  first ←
      (if is_root path && bytes_eq e.name gitfile_name then pure [] else (do
        child ← asks (λ s. join_name path e.name)
        o ← gets (λ s. Overlay.lookup s.overlay child)
        unless_overlaid path e o))
  rest ← list_baseline path es
  pure (first ++ rest)

unless_hidden : RepoPath → Bytes → Option Kind → Act (List DirEntry)
unfolding push
unless_hidden path name none = pure []
unless_hidden path name (some kind) = push path name kind

list_overlay : RepoPath → List (Bytes × OverlayEntry) → Act (List DirEntry)
unfolding unless_hidden
list_overlay path [] = pure []
list_overlay path ((name, e) ∷ es) = do
  first ← unless_hidden path name (overlay_kind e)
  rest ← list_overlay path es
  pure (first ++ rest)

list_tree : Env → RepoPath → Option ObjectId → Act (List DirEntry)
unfolding list_baseline from_git
list_tree env path none = pure []
list_tree env path (some t) = do es ← from_git (env.read_tree t); list_baseline path es

unfoldable pub as_tree : Option Resolved → Act (Option ObjectId)
as_tree (some (directory t)) = pure t
as_tree _ = fail internal

unfoldable pub readdir : Env → ℕ → Act (List DirEntry)
unfolding list_tree list_overlay push as_tree
readdir env ino = do
  path ← asks (λ s. path_of s ino)
  o ← asks (λ s. resolve env s path)
  t ← as_tree o
  below ← list_tree env path t
  kids ← gets (λ s. Overlay.children s.overlay path)
  above ← list_overlay path kids
  git ← (if is_root path then push path gitfile_name (file_kind false) else pure [])
  pure (below ++ above ++ git)

target_of : Env → Resolved → Act Bytes
unfolding from_git
target_of env (symbolic_link (overlay_target t)) = pure t
target_of env (symbolic_link (baseline_target oid)) = from_git (env.blob_bytes oid)
target_of env _ = fail internal

unfoldable pub readlink : Env → ℕ → Act Bytes
unfolding or_vanished target_of
readlink env ino = do
  path ← asks (λ s. path_of s ino)
  o ← asks (λ s. resolve env s path)
  r ← or_vanished o
  target_of env r

unfoldable pub forget : ℕ → ℕ → Act (Unit {0})
forget ino n =
    if ino == Inode.root_ino
    then pure tt
    else modify (λ s. record s { inodes = Inode.forget ino n s.inodes })
