-- ===== src/Worktree/Request/Consistent.antt =====
-- The inode table under the requests of crates/worktree/src/lib.rs.
use git_lazy_mount.Prelude.{◌≢◌, refl, arith, Option, none, some, List, [], ◌∷◌}
use git_lazy_mount.Prelude.Result.{Result, ok, err, relabel}
use git_lazy_mount.Prelude.Io.{Oracle, pure, modify}
use git_lazy_mount.Core.RepoPath.{RepoPath, is_root, parent}
use git_lazy_mount.Inode.Consistency.{IsConsistent}
use git_lazy_mount.Inode.Consistency.Lookup.{lookup-IsConsistent, forget-IsConsistent}
use git_lazy_mount.Inode.Consistency.Unlink.{unlink-IsConsistent}
use git_lazy_mount.Inode.Consistency.Rename.{rename-IsConsistent}
use git_lazy_mount.Journal.Log.{ChangeJournal, JournalError, record_path}
use git_lazy_mount.Worktree.{
  Env, Projection, Act, WorktreeError, panic, inode_lookup, with_table, record_change,
  record_change_file, record_in, record_parent, journaled, journal_error,
}
use git_lazy_mount.Worktree.Keeps.{
  Steps, Keeps, IsStable, Phases, Plain, Ends, is_panic, Steps-bind, Steps-if, Steps-pure,
}
use git_lazy_mount.Worktree.Read.Kept.{
  lookup-Keeps, getattr-Keeps, readdir-Keeps, readlink-Keeps, forget-Keeps,
}
use git_lazy_mount.Worktree.Write.Phased.{
  create-Phased, mkdir-Phased, make_symlink-Phased, unlink-Phased, rmdir-Phased, open_write-Phased,
  truncate-Phased, set_executable-Phased,
}
use git_lazy_mount.Worktree.Move.Phased.{MovePhases, rename-Phased}
use git_lazy_mount.Worktree.Request.{
  Request, look_up, get_attr, list_dir, read_link, release_refs, make_file, make_dir, remove_file,
  remove_dir, make_link, write_to, set_size, set_mode, move_to, serve, serve_all, answered,
}

abbrev pub HasTable : Projection → Type 0
HasTable s = IsConsistent s.inodes

inode_lookup-Keeps : (p : RepoPath) → Keeps Plain HasTable (inode_lookup p)
unfolding inode_lookup
inode_lookup-Keeps p = record {
  at = λ o s c.
      let (r, u, e, k) = lookup-IsConsistent p s.inodes c in
      rw e (unfold with_table pure modify in k);
}

pub consistent-IsStable : IsStable Plain HasTable
consistent-IsStable = record {
  plain = λ e h. h;
  overlay = λ s v c. c;
  rename = λ p q s c. rename-IsConsistent p q s.inodes c;
  unlink = λ p s c. unlink-IsConsistent p s.inodes c;
  forget = λ i n s c. forget-IsConsistent i n s.inodes c;
  look = inode_lookup-Keeps;
}

pub record_change_file-Keeps :
    (env : Env) (p : RepoPath) → Keeps Plain HasTable (record_change_file env p)
unfolding record_change_file record_in
record_change_file-Keeps env p = record { at = λ o s c. cases s.journal o s c }
  where
    ended :
        (r : Result JournalError (Unit {0})) (s : Projection)
        → HasTable s
        → Ends Plain (λ _. HasTable) HasTable (relabel journal_error r) s
    ended (ok a) s c = c
    ended (err e) s c = (c, unfold is_panic in refl)

    cases :
        (j : Option ChangeJournal) (o : Oracle) (s : Projection)
        → HasTable s
        → Ends Plain
            (λ _. HasTable)
            HasTable
            (record_in env.limits p.bytes j o s).result
            (record_in env.limits p.bytes j o s).state
    cases none o s c = unfold pure in c
    cases (some j) o s c =
        unfold journaled in
        ended (record_path env.limits p.bytes o j).result
          (record s { journal = some (record_path env.limits p.bytes o j).state }) c

record_parent-Keeps : (env : Env) (d : Option RepoPath) → Keeps Plain HasTable (record_parent env d)
unfolding record_parent
record_parent-Keeps env none = Steps-pure tt (λ s c. c)
record_parent-Keeps env (some d) =
    Steps-if (is_root d) _ _ (Steps-pure tt (λ s c. c)) (record_change_file-Keeps env d)

pub record_change-Keeps : (env : Env) (p : RepoPath) → Keeps Plain HasTable (record_change env p)
unfolding record_change
record_change-Keeps env p =
    Steps-bind (λ _. HasTable) _ _ (record_change_file-Keeps env p)
      (λ u. record_parent-Keeps env (parent p))

-- A stronger assumption than is needed.
narrowed :
    {A : Type 0} {P P' R : Projection → Type 0} {Q : A → Projection → Type 0} (m : Act A)
    → Steps Plain P m Q R
    → ((s : Projection) → P' s → P s)
    → Steps Plain P' m Q R
narrowed m h f = record { at = λ o s p. h.at o s (f s p) }

pub phases :
    (target : Projection → Result WorktreeError RepoPath) (records : RepoPath → Act (Unit {0}))
    → ((p : RepoPath) → Keeps Plain HasTable (records p))
    → Phases Plain target records HasTable HasTable HasTable
phases target records h = record {
  stable = consistent-IsStable;
  before = λ s c. c;
  done = λ s c. c;
  recording = λ p. narrowed (records p) (h p) (λ s c. c.0);
}

pub move_phases :
    (env : Env) (from to : Projection → Result WorktreeError RepoPath)
    → MovePhases Plain env from to HasTable (λ q. HasTable) HasTable HasTable
move_phases env from to = record {
  stable = consistent-IsStable;
  before = λ s c. c;
  done = λ s c. c;
  first = λ p q. narrowed _ (record_change-Keeps env p) (λ s c. c.0);
  second = record_change-Keeps env;
}

answered-Keeps :
    {A : Type 0} (m : Act A) → Keeps Plain HasTable m → Keeps Plain HasTable (answered m)
unfolding answered
answered-Keeps m h = Steps-bind (λ _. HasTable) m _ h (λ a. Steps-pure tt (λ s c. c))

serve-Keeps : (env : Env) (r : Request) → Keeps Plain HasTable (serve env r)
unfolding serve
serve-Keeps env (look_up i name) = answered-Keeps _ (lookup-Keeps consistent-IsStable env i name)
serve-Keeps env (get_attr i) = answered-Keeps _ (getattr-Keeps consistent-IsStable env i)
serve-Keeps env (list_dir i) = answered-Keeps _ (readdir-Keeps consistent-IsStable env i)
serve-Keeps env (read_link i) = answered-Keeps _ (readlink-Keeps consistent-IsStable env i)
serve-Keeps env (release_refs i n) = forget-Keeps consistent-IsStable i n
serve-Keeps env (make_file i name exec) =
    answered-Keeps _ (create-Phased env i name (phases _ _ (record_change-Keeps env)) exec)
serve-Keeps env (make_dir i name) =
    answered-Keeps _ (mkdir-Phased env i name (phases _ _ (record_change-Keeps env)))
serve-Keeps env (remove_file i name) =
    unlink-Phased env i name (phases _ _ (record_change-Keeps env))
serve-Keeps env (remove_dir i name) = rmdir-Phased env i name (phases _ _ (record_change-Keeps env))
serve-Keeps env (make_link i name target) =
    answered-Keeps _ (make_symlink-Phased env i name (phases _ _ (record_change-Keeps env)) target)
serve-Keeps env (write_to i cut) =
    answered-Keeps _ (open_write-Phased env i (phases _ _ (record_change_file-Keeps env)) cut)
serve-Keeps env (set_size i size) =
    truncate-Phased env i (phases _ _ (record_change_file-Keeps env)) size
serve-Keeps env (set_mode i exec) =
    set_executable-Phased env i (phases _ _ (record_change_file-Keeps env)) exec
serve-Keeps env (move_to i name j newname flags fuel) =
    rename-Phased env i name j newname (move_phases env _ _) fuel flags

not_panic :
    (x : WorktreeError) → Plain x → ◌≢◌ {A = Result WorktreeError (Unit {0})} (err x) (err panic)
unfolding is_panic
not_panic x h e = ground (arith, h, e)

ended-HasTable :
    (r : Result WorktreeError (Unit {0})) (s : Projection)
    → Ends Plain (λ _. HasTable) HasTable r s
    → HasTable s × (r ≢ err panic)
ended-HasTable (ok a) s h = (h, λ e. ground (arith, e))
ended-HasTable (err x) s h = (h.0, λ e. not_panic x h.1 e)

serve_all-HasTable :
    (env : Env) (rs : List (Request × Oracle)) (s : Projection)
    → HasTable s
    → HasTable (serve_all env rs s)
unfolding serve_all
serve_all-HasTable env [] s c = c
serve_all-HasTable env ((r, o) ∷ rs) s c =
    serve_all-HasTable env rs (serve env r o s).state
      (ended-HasTable (serve env r o s).result (serve env r o s).state
        ((serve-Keeps env r).at o s c)).0

-- From a projection with a consistent inode table, any sequence of requests, however their file
-- operations end, leaves a consistent table, and no further request ends in the panic of the
-- table.
pub serve_all-IsConsistent :
    (env : Env) (rs : List (Request × Oracle)) (r : Request) (o : Oracle) (s : Projection)
    → IsConsistent s.inodes
    → IsConsistent (serve_all env rs s).inodes
      × ((serve env r o (serve_all env rs s)).result ≢ err panic)
serve_all-IsConsistent env rs r o s c =
    let k = serve_all-HasTable env rs s c in
    (
      k,
      (ended-HasTable (serve env r o (serve_all env rs s)).result
          (serve env r o (serve_all env rs s)).state
          ((serve-Keeps env r).at o (serve_all env rs s) k)).1,
    )
