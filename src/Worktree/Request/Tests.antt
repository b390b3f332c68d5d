-- ===== src/Worktree/Request/Tests.antt =====
-- Requests on a projection with a journal.
use git_lazy_mount.Prelude.{
  ◌≡◌, ◌≢◌, refl, ◌⊎◌, true, false, none, some, List, [], ◌∷◌, codes, arith, All,
}
use git_lazy_mount.Prelude.Result.{ok, err}
use git_lazy_mount.Prelude.Io.{Oracle, Outcome}
use git_lazy_mount.Core.RepoPath.{RepoPath}
use git_lazy_mount.Inode.Consistency.{IsConsistent, new-IsConsistent}
use git_lazy_mount.Journal.Token.{Token}
use git_lazy_mount.Journal.Log.{ChangeJournal, open_journal, read_base}
use git_lazy_mount.Journal.Log.Replay.{IsRecord, serialize}
use git_lazy_mount.Journal.Log.Faults.{IsSound}
use git_lazy_mount.Journal.Query.{query_token}
use git_lazy_mount.Journal.Query.Window.{reported}
use git_lazy_mount.Worktree.{Projection, WorktreeError, panic}
use git_lazy_mount.Worktree.Tests.{env, start}
use git_lazy_mount.Worktree.Request.{
  Request, make_dir, move_to, set_mode, serve, serve_all, targets,
}
use git_lazy_mount.Worktree.Request.Recorded.Serve.{serve-reported}
use git_lazy_mount.Worktree.Request.Consistent.{serve_all-IsConsistent}

abbrev empty_journal : ChangeJournal
empty_journal = record {
  workspace = codes "w";
  epoch = 1;
  generation = 0;
  paths = [];
  base = 0;
  attached = true;
  disk = record { log = []; tmp_log = none; base_text = none; tmp_base = none };
}

abbrev watched : Projection
watched = record start { journal = some empty_journal }

empty-IsSound : IsSound [] empty_journal
unfolding serialize read_base
empty-IsSound = (
  record { base_le = omega arith; window = refl },
  record { log = refl; base = refl; attached = refl; records = tt },
)

abbrev path_b : RepoPath
path_b = record { bytes = codes "b" }

targets_b : targets (make_dir 1 (codes "b")) watched ≡ ok (path_b ∷ [])
unfolding targets git_lazy_mount.Worktree.child_path git_lazy_mount.Core.RepoPath.join
    git_lazy_mount.Prelude.has_byte git_lazy_mount.Prelude.bytes_eq
    git_lazy_mount.Core.RepoPath.components git_lazy_mount.Prelude.non_empty
    git_lazy_mount.Prelude.split git_lazy_mount.Core.RepoPath.push_component
targets_b = refl

b-IsRecord : IsRecord (codes "b")
unfolding git_lazy_mount.Prelude.has_byte
b-IsRecord = record { not_empty = refl; no_nul = refl }

abbrev token_0 : Token
token_0 = record { workspace = codes "w"; epoch = 1; seq = 0; generation = 0 }

-- The second write of the record fails.
abbrev torn : Oracle
torn = Outcome.done ∷ Outcome.fails 0 ∷ []

serve-reported_example :
    ((serve env (make_dir 1 (codes "b")) torn watched).state.overlay ≡ watched.overlay)
    ⊎ ((k : ChangeJournal) × ((serve env (make_dir 1 (codes "b")) torn watched).state.journal
          ≡ some k)
        × All
            (λ p.
              reported p.bytes (query_token (open_journal (codes "w") 1 0 k.disk) token_0) ≡ true)
            (path_b ∷ []))
serve-reported_example =
    serve-reported env (make_dir 1 (codes "b")) torn watched empty_journal [] (path_b ∷ [])
      (codes "w") 1 0 token_0 refl empty-IsSound (omega arith) targets_b (b-IsRecord, tt)
      (omega arith)

abbrev requests : List (Request × Oracle)
requests = (make_dir 1 (codes "b"), []) ∷ (move_to 1 (codes "b") 1 (codes "c") 0 3, torn) ∷ []

serve_all-IsConsistent_example :
    IsConsistent (serve_all env requests watched).inodes
    × ((serve env (set_mode 2 true) [] (serve_all env requests watched)).result ≢ err panic)
serve_all-IsConsistent_example =
    serve_all-IsConsistent env requests (set_mode 2 true) [] watched new-IsConsistent
