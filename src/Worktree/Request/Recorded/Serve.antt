-- ===== src/Worktree/Request/Recorded/Serve.antt =====
-- Each request of crates/worktree/src/lib.rs: the overlay is as before, or the paths are recorded.
use git_lazy_mount.Prelude.{
  ℕ, ◌+◌, ◌<◌, ◌≤◌, ◌≡◌, refl, ap, sym, subst, ◌∙◌, ◌⊎◌, inl, inr, arith, true, some, List, [], ◌∷◌,
  ◌++◌, Bytes, length, All,
}
use mathlib.Core.List.{append-nil}
use git_lazy_mount.Prelude.Result.{Result, ok, err, and_then, and_then-eq-ok}
use git_lazy_mount.Prelude.Decimal.{u64_limit}
use git_lazy_mount.Prelude.Io.{Oracle}
use git_lazy_mount.Core.RepoPath.{RepoPath}
use git_lazy_mount.Journal.Token.{Token}
use git_lazy_mount.Journal.Log.{ChangeJournal, open_journal}
use git_lazy_mount.Journal.Log.Replay.{IsRecord}
use git_lazy_mount.Journal.Log.Faults.{Covers, IsSound}
use git_lazy_mount.Journal.Log.Crash.{Covers-reported}
use git_lazy_mount.Journal.Query.{query_token}
use git_lazy_mount.Journal.Query.Window.{reported}
use git_lazy_mount.Worktree.{Env, Projection, Act, WorktreeError, record_change, record_change_file}
use git_lazy_mount.Worktree.Keeps.{
  Steps, Keeps, IsStable, Phases, Ends, Steps-bind, Steps-widen, Steps-pure,
}
use git_lazy_mount.Worktree.Read.Kept.{
  lookup-Keeps, getattr-Keeps, readdir-Keeps, readlink-Keeps, forget-Keeps,
}
use git_lazy_mount.Worktree.Write.Phased.{
  create-Phased, mkdir-Phased, make_symlink-Phased, unlink-Phased, rmdir-Phased, open_write-Phased,
  truncate-Phased, set_executable-Phased,
}
use git_lazy_mount.Worktree.Move.Phased.{MovePhases, rename-Phased}
use git_lazy_mount.Worktree.Request.{
  Request, look_up, get_attr, list_dir, read_link, release_refs, make_file, make_dir, remove_file,
  remove_dir, make_link, write_to, set_size, set_mode, move_to, serve, answered, targets, one,
}
use git_lazy_mount.Worktree.Request.Recorded.{
  Any, Extended, Recorded, Extended-Recorded, record_change_file-Extended, record_change-Extended,
  Recorded-IsStable, Either, Named,
}

ok_inj : {A : Type 0} {E : Type 0} {a b : A} → ◌≡◌ {A = Result E A} (ok a) (ok b) → a ≡ b
ok_inj h = ground (arith, h)

module _ (env : Env) (s0 : Projection) (j0 : ChangeJournal) (history : List Bytes)
    (attached : s0.journal ≡ some j0) (sound : IsSound history j0)
    (small : length history + 4 < u64_limit) where
  abbrev Start : Projection → Type 0
  Start s = s ≡ s0

  abbrev End : List RepoPath → Projection → Type 0
  End ps = Either env s0.overlay history ps

  started : (s : Projection) → Start s → Extended env s0.overlay history 0 [] s
  started s e = subst (Extended env s0.overlay history 0 []) (sym e) (record {
    same = refl;
    more = [];
    journal = j0;
    at = attached;
    sound = subst (λ h. IsSound h j0) (sym (append-nil history)) sound;
    named = tt;
    few = omega arith;
  })

  -- The path that is found is the one that was found at the start.
  narrowed :
      {A : Type 0} {P P' R : Projection → Type 0} {Q : A → Projection → Type 0} (m : Act A)
      → Steps Any P m Q R
      → ((s : Projection) → P' s → P s)
      → Steps Any P' m Q R
  narrowed m h f = record { at = λ o s p. h.at o s (f s p) }

  module _ (p : RepoPath) (k : IsRecord p.bytes) where
    abbrev Single : Projection → Type 0
    Single = End (p ∷ [])

    recorded_one :
        (n : ℕ) (records : RepoPath → Act (Unit {0}))
        (target : Projection → Result WorktreeError RepoPath)
        → target s0 ≡ ok p
        → Steps Any
            (Extended env s0.overlay history 0 [])
            (records p)
            (λ _. Extended env s0.overlay history n (p ∷ []))
            (λ s. s.overlay ≡ s0.overlay)
        → Phases Any target records Start (Recorded env s0.overlay history (p ∷ [])) Single
    recorded_one n records target found h = record {
      stable = Recorded-IsStable env s0.overlay history (p ∷ []);
      before = λ s e. inl (ap (λ t. t.overlay) e);
      done = λ s x. inr x;
      recording = λ q. record {
        at = λ o s b.
            let same : p ≡ q = ok_inj (sym found ∙ (sym (ap target b.0) ∙ b.1)) in
            subst
              (λ r.
                Ends Any (λ _. Recorded env s0.overlay history (p ∷ [])) Single
                  (records r o s).result (records r o s).state)
              same
              ((Steps-widen (records p) h (λ u. Extended-Recorded env s0.overlay history n (p ∷ []))
                  (λ t x. inl x)).at
                o s (started s b.0));
      };
    }

    changes :
        (target : Projection → Result WorktreeError RepoPath)
        → target s0 ≡ ok p
        → Phases Any target
            (record_change env)
            Start
            (Recorded env s0.overlay history (p ∷ []))
            Single
    changes target found =
        recorded_one 2 (record_change env) target found
          (record_change-Extended env s0.overlay history 0 [] p (omega (arith, small)) k)

    changes_file :
        (target : Projection → Result WorktreeError RepoPath)
        → target s0 ≡ ok p
        → Phases Any target
            (record_change_file env)
            Start
            (Recorded env s0.overlay history (p ∷ []))
            Single
    changes_file target found =
        recorded_one 1 (record_change_file env) target found
          (record_change_file-Extended env s0.overlay history 0 [] p (omega (arith, small)) k)

  module _ (p q : RepoPath) (kp : IsRecord p.bytes) (kq : IsRecord q.bytes) where
    -- The old path is recorded, and the new one is still to be.
    record Middle (r : RepoPath) (s : Projection) : Type 0 where
      extended : Extended env s0.overlay history 2 (p ∷ []) s
      same : q ≡ r

    first_recorded :
        (from to : Projection → Result WorktreeError RepoPath)
        → from s0 ≡ ok p
        → to s0 ≡ ok q
        → (p' q' : RepoPath)
        → Steps Any
            (λ s. Start s × (from s ≡ ok p') × (to s ≡ ok q'))
            (record_change env p')
            (λ _. Middle q')
            (End (q ∷ p ∷ []))
    first_recorded from to found found' p' q' = record {
      at = λ o s b.
          let same : p ≡ p' = ok_inj (sym found ∙ (sym (ap from b.0) ∙ b.1)) in
          let same' : q ≡ q' = ok_inj (sym found' ∙ (sym (ap to b.0) ∙ b.2)) in
          subst
            (λ r.
              Ends Any (λ _. Middle q') (End (q ∷ p ∷ [])) (record_change env r o s).result
                (record_change env r o s).state)
            same
            ((Steps-widen (record_change env p)
                (record_change-Extended env s0.overlay history 0 [] p (omega (arith, small)) kp)
                (λ u t x. record { extended = x; same = same' }) (λ t x. inl x)).at
              o s (started s b.0));
    }

    second_recorded :
        (r : RepoPath)
        → Steps Any
            (Middle r)
            (record_change env r)
            (λ _. Recorded env s0.overlay history (q ∷ p ∷ []))
            (End (q ∷ p ∷ []))
    second_recorded r = record {
      at = λ o s m.
          subst
            (λ x.
              Ends Any (λ _. Recorded env s0.overlay history (q ∷ p ∷ [])) (End (q ∷ p ∷ []))
                (record_change env x o s).result (record_change env x o s).state)
            m.same
            ((Steps-widen (record_change env q)
                (record_change-Extended env s0.overlay history 2 (p ∷ []) q (omega (arith, small))
                  kq)
                (λ u. Extended-Recorded env s0.overlay history 4 (q ∷ p ∷ [])) (λ t x. inl x)).at
              o s m.extended);
    }

    moves :
        (from to : Projection → Result WorktreeError RepoPath)
        → from s0 ≡ ok p
        → to s0 ≡ ok q
        → MovePhases Any env from to Start Middle
            (Recorded env s0.overlay history (q ∷ p ∷ []))
            (End (q ∷ p ∷ []))
    moves from to found found' = record {
      stable = Recorded-IsStable env s0.overlay history (q ∷ p ∷ []);
      before = λ s e. inl (ap (λ t. t.overlay) e);
      done = λ s x. inr x;
      first = first_recorded from to found found';
      second = second_recorded;
    }

  -- What a run from the start ends in.
  abbrev Served : List RepoPath → Act (Unit {0}) → Type 0
  Served ps m = Steps Any Start m (λ _. End ps) (End ps)

  answered-Steps :
      {A : Type 0} (ps : List RepoPath) (m : Act A)
      → Steps Any Start m (λ _. End ps) (End ps)
      → Served ps (answered m)
  unfolding answered
  answered-Steps ps m h = Steps-bind (λ _. End ps) m _ h (λ a. Steps-pure tt (λ s x. x))

  abbrev stable : IsStable Any (Recorded env s0.overlay history [])
  stable = Recorded-IsStable env s0.overlay history []

  -- A read changes no path.
  read :
      {A : Type 0} (m : Act A)
      → Keeps Any (Recorded env s0.overlay history []) m
      → Steps Any Start m (λ _. End []) (End [])
  read m h =
      Steps-widen m
        (narrowed m h (λ s e. Extended-Recorded env s0.overlay history 0 [] s (started s e)))
        (λ a s x. inr x) (λ s x. inr x)

  one_path :
      (r : Result WorktreeError RepoPath) (ps : List RepoPath) (m : Act (Unit {0}))
      → one r ≡ ok ps
      → All (λ p. IsRecord p.bytes) ps
      → ((p : RepoPath) → IsRecord p.bytes → r ≡ ok p → Served (p ∷ []) m)
      → Served ps m
  unfolding one
  one_path r ps m h k f =
      let (p, e, g) = and_then-eq-ok r (λ p. ok (p ∷ [])) h in
      let same : p ∷ [] ≡ ps = ok_inj g in
      subst (λ l. Served l m) same (f p (subst (All (λ p. IsRecord p.bytes)) (sym same) k).0 e)

  swapped :
      (p q : RepoPath) (s : Projection)
      → Recorded env s0.overlay history (q ∷ p ∷ []) s
      → Recorded env s0.overlay history (p ∷ q ∷ []) s
  swapped p q s x = record {
    more = x.more;
    journal = x.journal;
    at = x.at;
    covers = x.covers;
    named = (x.named.1.0, (x.named.0, tt));
  }

  in_either_order : (p q : RepoPath) (s : Projection) → End (q ∷ p ∷ []) s → End (p ∷ q ∷ []) s
  in_either_order p q s (inl e) = inl e
  in_either_order p q s (inr x) = inr (swapped p q s x)

  two_paths :
      (r r' : Result WorktreeError RepoPath) (ps : List RepoPath) (m : Act (Unit {0}))
      → and_then r (λ p. and_then r' (λ q. ok (p ∷ q ∷ []))) ≡ ok ps
      → All (λ p. IsRecord p.bytes) ps
      → ((p q : RepoPath)
          → IsRecord p.bytes
          → IsRecord q.bytes
          → r ≡ ok p
          → r' ≡ ok q
          → Served (q ∷ p ∷ []) m)
      → Served ps m
  two_paths r r' ps m h k f =
      let (p, e, g) = and_then-eq-ok r (λ p. and_then r' (λ q. ok (p ∷ q ∷ []))) h in
      let (q, e', g') = and_then-eq-ok r' (λ q. ok (p ∷ q ∷ [])) g in
      let same : p ∷ q ∷ [] ≡ ps = ok_inj g' in
      let ks = subst (All (λ p. IsRecord p.bytes)) (sym same) k in
      subst (λ l. Served l m) same
        (Steps-widen m (f p q ks.0 ks.1.0 e e') (λ u. in_either_order p q) (in_either_order p q))

  none_paths :
      (ps : List RepoPath) (m : Act (Unit {0}))
      → ◌≡◌ {A = Result WorktreeError (List RepoPath)} (ok []) (ok ps)
      → Served [] m
      → Served ps m
  none_paths ps m h k = subst (λ l. Served l m) (ok_inj h) k

  serve-Served :
      (r : Request) (ps : List RepoPath)
      → targets r s0 ≡ ok ps
      → All (λ p. IsRecord p.bytes) ps
      → Served ps (serve env r)
  unfolding serve targets
  serve-Served (look_up i name) ps h k =
      none_paths ps _ h (answered-Steps [] _ (read _ (lookup-Keeps stable env i name)))
  serve-Served (get_attr i) ps h k =
      none_paths ps _ h (answered-Steps [] _ (read _ (getattr-Keeps stable env i)))
  serve-Served (list_dir i) ps h k =
      none_paths ps _ h (answered-Steps [] _ (read _ (readdir-Keeps stable env i)))
  serve-Served (read_link i) ps h k =
      none_paths ps _ h (answered-Steps [] _ (read _ (readlink-Keeps stable env i)))
  serve-Served (release_refs i n) ps h k = none_paths ps _ h (read _ (forget-Keeps stable i n))
  serve-Served (make_file i name exec) ps h k =
      one_path _ ps _ h k
        (λ p rp e. answered-Steps _ _ (create-Phased env i name (changes p rp _ e) exec))
  serve-Served (make_dir i name) ps h k =
      one_path _ ps _ h k
        (λ p rp e. answered-Steps _ _ (mkdir-Phased env i name (changes p rp _ e)))
  serve-Served (remove_file i name) ps h k =
      one_path _ ps _ h k (λ p rp e. unlink-Phased env i name (changes p rp _ e))
  serve-Served (remove_dir i name) ps h k =
      one_path _ ps _ h k (λ p rp e. rmdir-Phased env i name (changes p rp _ e))
  serve-Served (make_link i name target) ps h k =
      one_path _ ps _ h k
        (λ p rp e. answered-Steps _ _ (make_symlink-Phased env i name (changes p rp _ e) target))
  serve-Served (write_to i cut) ps h k =
      one_path _ ps _ h k
        (λ p rp e. answered-Steps _ _ (open_write-Phased env i (changes_file p rp _ e) cut))
  serve-Served (set_size i size) ps h k =
      one_path _ ps _ h k (λ p rp e. truncate-Phased env i (changes_file p rp _ e) size)
  serve-Served (set_mode i exec) ps h k =
      one_path _ ps _ h k (λ p rp e. set_executable-Phased env i (changes_file p rp _ e) exec)
  serve-Served (move_to i name j newname flags fuel) ps h k =
      two_paths _ _ ps _ h k
        (λ p q rp rq e e'. rename-Phased env i name j newname (moves p q rp rq _ _ e e') fuel flags)

All-reported :
    (k : ChangeJournal) (history more : List Bytes) (ws : Bytes) (e g : ℕ) (t : Token)
    (ps : List RepoPath)
    → Covers k.disk (history ++ more)
    → t.seq ≤ length history
    → Named more ps
    → All (λ p. reported p.bytes (query_token (open_journal ws e g k.disk) t) ≡ true) ps
All-reported k history more ws e g t [] c le h = tt
All-reported k history more ws e g t (p ∷ ps) c le h = (
  Covers-reported k.disk history more ws e g t p.bytes c le h.0,
  All-reported k history more ws e g t ps c le h.1,
)

-- Serve a request under any oracle, on a projection whose journal represents a history and is
-- durable, where the paths that the request is to change are found, are neither empty nor hold a
-- NUL, and the history and four more paths are below 2^64. Then the overlay, on disk and in
-- memory, is as it was, or a journal opened on what is then on disk reports each of those paths,
-- for every token not past the history.
pub serve-reported :
    (env : Env) (r : Request) (o : Oracle) (s : Projection) (j : ChangeJournal)
    (history : List Bytes) (ps : List RepoPath) (ws : Bytes) (e g : ℕ) (t : Token)
    → s.journal ≡ some j
    → IsSound history j
    → length history + 4 < u64_limit
    → targets r s ≡ ok ps
    → All (λ p. IsRecord p.bytes) ps
    → t.seq ≤ length history
    → ((serve env r o s).state.overlay ≡ s.overlay)
      ⊎ ((k : ChangeJournal) × ((serve env r o s).state.journal ≡ some k)
          × All (λ p. reported p.bytes (query_token (open_journal ws e g k.disk) t) ≡ true) ps)
serve-reported env r o s j history ps ws e g t a sound small h k le =
    finish (serve env r o s).result
      ((serve-Served env s j history a sound small r ps h k).at o s refl)
  where
    either :
        Either env s.overlay history ps (serve env r o s).state
        → ((serve env r o s).state.overlay ≡ s.overlay)
          ⊎ ((k : ChangeJournal) × ((serve env r o s).state.journal ≡ some k)
              × All (λ p. reported p.bytes (query_token (open_journal ws e g k.disk) t) ≡ true) ps)
    either (inl x) = inl x
    either (inr x) =
        inr (x.journal, x.at, All-reported x.journal history x.more ws e g t ps x.covers le x.named)

    finish :
        (res : Result WorktreeError (Unit {0}))
        → Ends Any
            (λ _. Either env s.overlay history ps)
            (Either env s.overlay history ps)
            res
            (serve env r o s).state
        → ((serve env r o s).state.overlay ≡ s.overlay)
          ⊎ ((k : ChangeJournal) × ((serve env r o s).state.journal ≡ some k)
              × All (λ p. reported p.bytes (query_token (open_journal ws e g k.disk) t) ≡ true) ps)
    finish (ok u) x = either x
    finish (err f) x = either x.0
