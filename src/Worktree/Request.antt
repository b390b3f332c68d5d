-- ===== src/Worktree/Request.antt =====
-- The operations of crates/worktree/src/lib.rs as one type of requests, to speak of all of them and
-- of sequences of them.
pub mod Recorded
pub mod Consistent
mod Tests
use git_lazy_mount.Prelude.{ℕ, Bool, List, [], ◌∷◌, Bytes}
use git_lazy_mount.Prelude.Result.{Result, ok, and_then}
use git_lazy_mount.Prelude.Io.{Oracle, pure, ◌>>=◌}
use git_lazy_mount.Core.RepoPath.{RepoPath}
use git_lazy_mount.Worktree.{Env, Projection, Act, WorktreeError, child_path, path_of}
use git_lazy_mount.Worktree.Read
use git_lazy_mount.Worktree.Write
use git_lazy_mount.Worktree.Move

pub data Request : Type 0 where
  look_up : ℕ → Bytes → Request
  get_attr list_dir read_link : ℕ → Request
  release_refs : ℕ → ℕ → Request
  make_file : ℕ → Bytes → Bool → Request
  make_dir remove_file remove_dir : ℕ → Bytes → Request
  make_link : ℕ → Bytes → Bytes → Request
  write_to : ℕ → Bool → Request
  set_size : ℕ → ℕ → Request
  set_mode : ℕ → Bool → Request
  -- Both names, the flags, and the fuel for the depth of a directory.
  move_to : ℕ → Bytes → ℕ → Bytes → ℕ → ℕ → Request

-- The request with its answer left out.
answered : {A : Type 0} → Act A → Act (Unit {0})
answered m = m >>= λ a. pure tt

unfoldable pub serve : Env → Request → Act (Unit {0})
unfolding answered
serve env (look_up parent_ino name) = answered (Read.lookup env parent_ino name)
serve env (get_attr ino) = answered (Read.getattr env ino)
serve env (list_dir ino) = answered (Read.readdir env ino)
serve env (read_link ino) = answered (Read.readlink env ino)
serve env (release_refs ino n) = Read.forget ino n
serve env (make_file parent_ino name exec) = answered (Write.create env parent_ino name exec)
serve env (make_dir parent_ino name) = answered (Write.mkdir env parent_ino name)
serve env (remove_file parent_ino name) = Write.unlink env parent_ino name
serve env (remove_dir parent_ino name) = Write.rmdir env parent_ino name
serve env (make_link parent_ino name target) =
    answered (Write.make_symlink env parent_ino name target)
serve env (write_to ino cut) = answered (Write.open_write env ino cut)
serve env (set_size ino size) = Write.truncate env ino size
serve env (set_mode ino exec) = Write.set_executable env ino exec
serve env (move_to parent_ino name newparent_ino newname flags fuel) =
    Move.rename fuel env parent_ino name newparent_ino newname flags

one : Result WorktreeError RepoPath → Result WorktreeError (List RepoPath)
one r = and_then r (λ p. ok (p ∷ []))

-- The paths that a request is to change; a read has none.
unfoldable pub targets : Request → Projection → Result WorktreeError (List RepoPath)
unfolding one
targets (make_file parent_ino name exec) s = one (child_path s parent_ino name)
targets (make_dir parent_ino name) s = one (child_path s parent_ino name)
targets (remove_file parent_ino name) s = one (child_path s parent_ino name)
targets (remove_dir parent_ino name) s = one (child_path s parent_ino name)
targets (make_link parent_ino name target) s = one (child_path s parent_ino name)
targets (write_to ino cut) s = one (path_of s ino)
targets (set_size ino size) s = one (path_of s ino)
targets (set_mode ino exec) s = one (path_of s ino)
targets (move_to parent_ino name newparent_ino newname flags fuel) s =
    and_then (child_path s parent_ino name)
      (λ p. and_then (child_path s newparent_ino newname) (λ q. ok (p ∷ q ∷ [])))
targets _ s = ok []

-- A sequence of requests, each with how its file operations end.
unfoldable pub serve_all : Env → List (Request × Oracle) → Projection → Projection
unfolding serve
serve_all env [] s = s
serve_all env ((r, o) ∷ rest) s = serve_all env rest (serve env r o s).state
