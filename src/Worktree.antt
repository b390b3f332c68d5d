-- ===== src/Worktree.antt =====
-- crates/worktree/src/lib.rs: the projected working tree, the overlay layered over the baseline
-- tree. Git's object store is a parameter. Times are left out of the attributes.
pub mod Read
pub mod Content
pub mod Cache
pub mod Write
pub mod Move
pub mod Ancestors
pub mod Keeps
pub mod Plain
pub mod Request
mod Tests
use git_lazy_mount.Prelude.{
  ℕ, ◌+◌, Bool, true, false, not, ◌&&◌, Option, none, some, List, [], ◌∷◌, ◌++◌, Bytes, codes,
  bytes_eq, is_empty, if◌then◌else◌, zero, suc, length, ◌==◌,
}
use git_lazy_mount.Prelude.Result.{Result, ok, err, and_then, relabel}
use git_lazy_mount.Prelude.Io.{M, Run, pure, gets, modify, fail, ◌>>=◌, ◌>>◌}
use git_lazy_mount.Core.RepoPath.{RepoPath, PathError, root, is_root, components, parent, join}
use git_lazy_mount.Core.GitMode.{GitMode, regular, executable, symlink, tree, gitlink}
use git_lazy_mount.Core.ObjectId.{ObjectId}
use git_lazy_mount.Core.Tree.{TreeEntry}
use git_lazy_mount.Inode
use git_lazy_mount.Inode.{InodeTable}
use git_lazy_mount.Journal.Log.{ChangeJournal, Limits, JournalError, record_path}
use git_lazy_mount.Overlay
use git_lazy_mount.Overlay.{Overlay, OverlayEntry, OverlayError, Codec}

abbrev pub gitfile_name : Bytes
gitfile_name = codes ".git"

pub data FileSource : Type 0 where
  overlay_file : RepoPath → FileSource
  baseline_file : ObjectId → FileSource

pub data SymSource : Type 0 where
  overlay_target : Bytes → SymSource
  baseline_target : ObjectId → SymSource

pub data Resolved : Type 0 where
  directory : Option ObjectId → Resolved
  regular_file : FileSource → Bool → Resolved
  symbolic_link : SymSource → Resolved
  gitfile : Resolved

-- The error codes that the operations return, and those of the parts that they call.
pub data WorktreeError : Type 0 where
  panic internal invalid_path protected already_exists not_found not_empty unsupported :
      WorktreeError
  git_error : WorktreeError
  overlay_error : OverlayError → WorktreeError
  journal_error : JournalError → WorktreeError

-- Git's store: `read_tree`, the size of a blob and its bytes, `none` where Git fails; and what the
-- overlay and the journal take.
pub record Env : Type 0 where
  pub read_tree : ObjectId → Option (List TreeEntry)
  pub blob_size : ObjectId → Option ℕ
  pub blob_bytes : ObjectId → Option Bytes
  pub codec : Codec
  pub limits : Limits
  pub pid : Bytes

pub record Projection : Type 0 where
  pub inodes : InodeTable
  pub baseline_tree : ObjectId
  pub gitfile : Bytes
  pub overlay : Overlay
  pub journal : Option ChangeJournal

abbrev pub Act : Type 0 → Type 0
Act A = M WorktreeError Projection A

-- `?` on what is computed without an effect.
unfoldable pub of_result : {A : Type 0} → Result WorktreeError A → Act A
of_result (ok a) = pure a
of_result (err e) = fail e

pub is_gitfile : List Bytes → Bool
is_gitfile (c ∷ []) = bytes_eq c gitfile_name
is_gitfile _ = false

-- An entry of the baseline at the last component.
unfoldable pub baseline_entry : TreeEntry → Resolved
baseline_entry e = elim (e.mode) [
  | tree ↦ directory (some (e.object_id))
  | gitlink ↦ directory (some (e.object_id))
  | regular ↦ regular_file (baseline_file (e.object_id)) false
  | executable ↦ regular_file (baseline_file (e.object_id)) true
  | symlink ↦ symbolic_link (baseline_target (e.object_id))
]

unfoldable pub find_name : Bytes → List TreeEntry → Option TreeEntry
find_name name [] = none
find_name name (e ∷ es) =
    let rest = find_name name es in if bytes_eq e.name name then some e else rest

abbrev pub is_tree_mode : GitMode → Bool
is_tree_mode tree = true
is_tree_mode _ = false

-- No component is left.
abbrev pub is_done : List Bytes → Bool
is_done [] = true
is_done (c ∷ cs) = false

-- The loop of `baseline_resolve` over the components.
unfoldable pub walk : Env → List Bytes → ObjectId → Result WorktreeError (Option Resolved)
walk env [] oid = ok none
walk env (comp ∷ comps) oid = elim (env.read_tree oid) [
  | none ↦ err git_error
  | some es ↦ elim (find_name comp es) [
    | none ↦ ok none
    | some e ↦
        let below = walk env comps (e.object_id) in
        if is_done comps
        then ok (some (baseline_entry e))
        else if is_tree_mode (e.mode)
        then below
        else ok none
  ]
]

unfoldable pub baseline_resolve :
    Env → Projection → RepoPath → Result WorktreeError (Option Resolved)
unfolding walk
baseline_resolve env p path = walk env (components path) p.baseline_tree

-- The tree under a directory of the baseline.
tree_under : Result WorktreeError (Option Resolved) → Result WorktreeError (Option ObjectId)
tree_under (err e) = err e
tree_under (ok (some (directory t))) = ok t
tree_under (ok _) = ok none

unfoldable pub baseline_tree_at :
    Env → Projection → RepoPath → Result WorktreeError (Option ObjectId)
unfolding baseline_resolve tree_under
baseline_tree_at env p path = tree_under (baseline_resolve env p path)

abbrev pub is_tombstone : Option OverlayEntry → Bool
is_tombstone (some Overlay.tombstone) = true
is_tombstone _ = false

-- The loop of `ancestor_tombstoned`; each ancestor is shorter than the one before.
tombstoned_from : ℕ → Overlay → Option RepoPath → Bool
tombstoned_from fuel o none = false
tombstoned_from zero o (some q) = false
tombstoned_from (suc fuel) o (some q) =
    let above = tombstoned_from fuel o (parent q) in
    if is_root q then false else if is_tombstone (Overlay.lookup o q) then true else above

unfoldable pub ancestor_tombstoned : Overlay → RepoPath → Bool
unfolding tombstoned_from
ancestor_tombstoned o path = tombstoned_from (length path.bytes) o (parent path)

unfoldable pub baseref_resolved : ObjectId → GitMode → Resolved
baseref_resolved oid symlink = symbolic_link (baseline_target oid)
baseref_resolved oid executable = regular_file (baseline_file oid) true
baseref_resolved oid _ = regular_file (baseline_file oid) false

as_directory : Result WorktreeError (Option ObjectId) → Result WorktreeError (Option Resolved)
as_directory (err e) = err e
as_directory (ok t) = ok (some (directory t))

-- An overlay entry at the exact path.
overlay_resolve :
    Env → Projection → RepoPath → OverlayEntry → Result WorktreeError (Option Resolved)
unfolding baseline_tree_at as_directory
overlay_resolve env p path (Overlay.file content exec) =
    ok (some (regular_file (overlay_file path) exec))
overlay_resolve env p path (Overlay.symlink target) =
    ok (some (symbolic_link (overlay_target target)))
overlay_resolve env p path Overlay.dir = as_directory (baseline_tree_at env p path)
overlay_resolve env p path Overlay.tombstone = ok none
overlay_resolve env p path (Overlay.base_ref oid mode) = ok (some (baseref_resolved oid mode))

unfoldable pub resolve : Env → Projection → RepoPath → Result WorktreeError (Option Resolved)
unfolding is_gitfile overlay_resolve baseline_resolve ancestor_tombstoned
resolve env p path =
    if is_root path
    then ok (some (directory (some p.baseline_tree)))
    else if is_gitfile (components path)
    then ok (some gitfile)
    else elim (Overlay.lookup p.overlay path) [
      | some e ↦ overlay_resolve env p path e
      | none ↦ if ancestor_tombstoned p.overlay path then ok none else baseline_resolve env p path
    ]

-- `path_of`: an inode without a path is stale.
path_or_stale : Option RepoPath → Result WorktreeError RepoPath
path_or_stale none = err internal
path_or_stale (some q) = ok q

unfoldable pub path_of : Projection → ℕ → Result WorktreeError RepoPath
unfolding path_or_stale
path_of p ino =
    if ino == Inode.root_ino then ok root else path_or_stale (Inode.path_of p.inodes ino)

unfoldable pub valid_path : Result PathError RepoPath → Result WorktreeError RepoPath
valid_path (ok q) = ok q
valid_path (err e) = err invalid_path

-- The private `join`.
unfoldable pub join_name : RepoPath → Bytes → Result WorktreeError RepoPath
unfolding valid_path
join_name dir_path name = valid_path (join dir_path name)

protect : RepoPath → Result WorktreeError RepoPath
unfolding is_gitfile
protect q = if is_gitfile (components q) then err protected else ok q

unfoldable pub child_path : Projection → ℕ → Bytes → Result WorktreeError RepoPath
unfolding path_of join_name protect
child_path p ino name = and_then (path_of p ino) (λ q. and_then (join_name q name) protect)

unfoldable pub asks : {A : Type 0} → (Projection → Result WorktreeError A) → Act A
unfolding of_result
asks f o s = of_result (f s) o s

-- A call of the overlay.
overlaid : {A : Type 0} → Projection → Run OverlayError Overlay A → Run WorktreeError Projection A
overlaid s r = record {
  result = relabel overlay_error r.result;
  rest = r.rest;
  state = record s { overlay = r.state };
}

unfoldable pub in_overlay : {A : Type 0} → Overlay.Act A → Act A
unfolding overlaid
in_overlay m o s = overlaid s (m o s.overlay)

-- A call of the journal.
journaled :
    Projection → Run JournalError ChangeJournal (Unit {0}) → Run WorktreeError Projection (Unit {0})
journaled s r = record {
  result = relabel journal_error r.result;
  rest = r.rest;
  state = record s { journal = some r.state };
}

record_in : Limits → Bytes → Option ChangeJournal → Act (Unit {0})
unfolding journaled
record_in lim path none o s = pure tt o s
record_in lim path (some j) o s = journaled s (record_path lim path o j)

unfoldable pub record_change_file : Env → RepoPath → Act (Unit {0})
unfolding record_in
record_change_file env path o s = record_in env.limits path.bytes s.journal o s

-- The parent too, unless it is the root.
record_parent : Env → Option RepoPath → Act (Unit {0})
unfolding record_change_file
record_parent env none = pure tt
record_parent env (some dir_path) =
    if is_root dir_path then pure tt else record_change_file env dir_path

unfoldable pub record_change : Env → RepoPath → Act (Unit {0})
unfolding record_parent
record_change env path = do record_change_file env path; record_parent env (parent path)

-- The numbers of an inode; `panic` is the `expect` of the table.
with_table : Option ((ℕ × ℕ) × InodeTable) → Act (ℕ × ℕ)
with_table none = fail panic
with_table (some (r, t)) = do modify (λ s. record s { inodes = t }); pure r

unfoldable pub inode_lookup : RepoPath → Act (ℕ × ℕ)
unfolding with_table
inode_lookup path o s = with_table (Inode.lookup path s.inodes) o s
