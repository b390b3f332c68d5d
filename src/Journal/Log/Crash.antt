-- ===== src/Journal/Log/Crash.antt =====
-- `record` of crates/worktree/src/journal.rs under faults, and what a reopened journal answers.
use git_lazy_mount.Prelude.{
  ℕ, ◌≤◌, ◌<◌, ◌≡◌, refl, ap, sym, subst, ◌∙◌, ◌⊎◌, inl, inr, Bool, true, false, ◌||◌, List, [],
  ◌∷◌, ◌++◌, arith, Bytes, elem, elem-append, ltb, length, take, drop, drop-append, length-append,
  bytes_eq_refl, Bool-cases,
}
use git_lazy_mount.Prelude.Result.{Result, ok, err}
use git_lazy_mount.Prelude.Decimal.{u64_limit}
use git_lazy_mount.Prelude.Io.{
  Oracle, Outcome, M, Post, Triple, Triple-bind, Triple-io, Triple-modify, pure, io_or, ◌>>=◌,
}
use git_lazy_mount.Journal.Token.{Token}
use git_lazy_mount.Journal.Log.{
  Limits, ChangeJournal, Disk, append, appended, prune, over_cap, log_bytes, when, commit,
  record_path, read_base, read_log, open_journal, unchanged,
}
use git_lazy_mount.Journal.Log.Replay.{IsRecord, read_log-torn}
use git_lazy_mount.Journal.Log.Append.{
  logged, appended-at, appended-logged, pushed, pushed-Represents, pushed-IsDurable,
}
use git_lazy_mount.Journal.Log.Faults.{Covers, IsSound, IsDurable-Covers, prune-IsSound, any_Post}
use git_lazy_mount.Journal.Query.{query_token}
use git_lazy_mount.Journal.Query.Window.{reported, wider_window}

-- The log holds the records and then a part of one more.
torn-Covers :
    (history : List Bytes) (more : Bytes) (j : ChangeJournal) (d : Disk)
    → IsSound history j
    → d.log ≡ j.disk.log ++ more
    → d.base_text ≡ j.disk.base_text
    → Covers d history
torn-Covers history more j d (r, k) e b = record {
  floor = j.base;
  tail = read_log more;
  floor_le = omega (arith, k.base, ap read_base b);
  floor_in = r.base_le;
  log =
      ap read_log (e ∙ ap (λ t. t ++ more) k.log)
      ∙ (read_log-torn j.paths more k.records ∙ ap (λ t. t ++ read_log more) r.window);
}

module _ (history : List Bytes) (p : Bytes) where
  -- So many bytes of a record are in the log, and not yet in the window.
  record Logged (bs : Bytes) (s : ChangeJournal) : Type 0 where
    before : ChangeJournal
    sound : IsSound history before
    now : s ≡ logged bs before

  Logged-Covers : (bs : Bytes) (s : ChangeJournal) → Logged bs s → Covers s.disk history
  Logged-Covers bs s h =
      subst (λ t. Covers t.disk history) (sym h.now)
        (torn-Covers history bs h.before _ h.sound refl refl)

  Logged-appended :
      (bs more : Bytes) (s : ChangeJournal) → Logged bs s → Logged (bs ++ more) (appended more s)
  Logged-appended bs more s h = record {
    before = h.before;
    sound = h.sound;
    now = ap (appended more) h.now ∙ appended-logged bs more h.before h.sound.1.attached;
  }

  IsSound-Logged : (bs : Bytes) (s : ChangeJournal) → IsSound history s → Logged bs (appended bs s)
  IsSound-Logged bs s h = record { before = s; sound = h; now = appended-at bs s h.1.attached }

  commit-IsSound :
      IsRecord p
      → Triple
          (IsSound history)
          (commit p)
          (λ _. IsSound (history ++ p ∷ []))
          (λ s. Covers s.disk history)
  unfolding commit append unchanged
  commit-IsSound k =
      Triple-bind (λ _. Logged p) _ _
        (Triple-io _ _ _ (IsSound-Logged p)
          (λ n s h. Logged-Covers (take n p) _ (IsSound-Logged (take n p) s h)))
        (λ _.
          Triple-bind (λ _. Logged (p ++ 0 ∷ [])) _ _
            (Triple-io _ _ _ (Logged-appended p (0 ∷ []))
              (λ n s h. Logged-Covers _ _ (Logged-appended p (take n (0 ∷ [])) s h)))
            (λ _.
              Triple-bind (λ _. Logged (p ++ 0 ∷ [])) _ _
                (Triple-io _ _ _ (λ s h. h) (λ n s h. Logged-Covers _ s h))
                (λ _. Triple-modify _ (λ s h.
                  subst (λ t. IsSound (history ++ p ∷ []) (record t { paths = t.paths ++ p ∷ [] }))
                    (sym h.now) (finished h.before h.sound k)))))
    where
      finished :
          (j : ChangeJournal)
          → IsSound history j
          → IsRecord p
          → IsSound (history ++ p ∷ []) (record j {
            paths = j.paths ++ p ∷ [];
            disk = record (j.disk) { log = j.disk.log ++ (p ++ 0 ∷ []) };
          })
      finished j h k =
          unfold pushed in (pushed-Represents p j history h.0, pushed-IsDurable p j k h.1)

-- What the disk covers, reopened, answers no token with too little.
Covers-inclusive :
    (d : Disk) (history : List Bytes) (ws : Bytes) (e g : ℕ) (t : Token) (q : Bytes)
    → Covers d history
    → t.seq ≤ length history
    → elem q (drop t.seq history) ≡ true
    → reported q (query_token (open_journal ws e g d) t) ≡ true
unfolding open_journal
Covers-inclusive d history ws e g t q c le m =
    wider_window (open_journal ws e g d) history c.tail c.floor t q c.floor_le c.floor_in c.log le m

-- The test of the bounds fails never and changes nothing.
over_cap-total :
    (lim : Limits) (o : Oracle) (j : ChangeJournal)
    → (b : Bool) × (o' : Oracle) × (over_cap lim o j
        ≡ record { result = ok b; rest = o'; state = j })
unfolding over_cap log_bytes io_or pure
over_cap-total lim o j = elim (Bool-cases (ltb lim.keep_max (length j.paths))) [
  | inl e ↦ (true, o, rw e)
  | inr e ↦ sized o e
]
  where
    sized :
        (o : Oracle)
        → ltb lim.keep_max (length j.paths) ≡ false
        → (b : Bool) × (o' : Oracle) × (over_cap lim o j
            ≡ record { result = ok b; rest = o'; state = j })
    sized [] e = (ltb lim.log_byte_cap (length j.disk.log), [], rw e)
    sized (Outcome.done ∷ o) e = (ltb lim.log_byte_cap (length j.disk.log), o, rw e)
    sized (Outcome.fails k ∷ o) e = (ltb lim.log_byte_cap 0, o, rw e)

module _ (lim : Limits) (history : List Bytes) (small : length history < u64_limit) where
  abbrev Grown : ChangeJournal → Type 0
  Grown s = Covers s.disk history

  over_cap-IsSound : Triple (IsSound history) (over_cap lim) (λ _. IsSound history) Grown
  over_cap-IsSound = record {
    at = λ o s h.
        let (b, o', e) = over_cap-total lim o s in
        subst (λ r. Post (λ _. IsSound history) Grown r.result r.state) (sym e) h;
  }

  when-IsSound :
      (b : Bool) → Triple (IsSound history) (when b (prune lim)) (λ _. IsSound history) Grown
  unfolding when pure
  when-IsSound true = prune-IsSound lim history small
  when-IsSound false = record { at = λ o s h. h }

  compact-IsSound :
      Triple
        (IsSound history)
        (over_cap lim >>= λ over. when over (prune lim))
        (λ _. IsSound history)
        Grown
  compact-IsSound = Triple-bind (λ _. IsSound history) _ _ over_cap-IsSound when-IsSound

-- The disk covers the history, with the new path or without it.
pub CoversEither : List Bytes → Bytes → ChangeJournal → Type 0
CoversEither history p s = Covers s.disk history ⊎ Covers s.disk (history ++ p ∷ [])

weaken :
    {S A : Type 0} {E : Type 0} {P : S → Type 0} {Q : A → S → Type 0} {R R' : S → Type 0}
    (m : M E S A)
    → Triple P m Q R
    → ((s : S) → R s → R' s)
    → Triple P m Q R'
weaken {S} {A} {E} {P} {Q} {R} {R'} m h f = record {
  at = λ o s p. go (m o s).result (m o s).state (h.at o s p);
}
  where
    go : (r : Result E A) (s : S) → Post Q R r s → Post Q R' r s
    go (ok a) s k = k
    go (err e) s k = f s k

weaken_ok :
    {S : Type 0} {E : Type 0} {P : S → Type 0} {R R' Q : S → Type 0} (m : M E S (Unit {0}))
    → Triple P m (λ _. R) R'
    → ((s : S) → R s → Q s)
    → Triple P m (λ _. Q) R'
weaken_ok {S} {E} {P} {R} {R'} {Q} m h f = record {
  at = λ o s p. go (m o s).result (m o s).state (h.at o s p);
}
  where
    go : (r : Result E (Unit {0})) (s : S) → Post (λ _. R) R' r s → Post (λ _. Q) R' r s
    go (ok a) s k = f s k
    go (err e) s k = k

-- From a sound journal, whatever the operations of a `record` do: if it succeeds, the journal is
-- sound for the history with the new path; if it fails, the disk covers the history with the new
-- path or without it.
pub record_path-IsSound :
    (lim : Limits) (history : List Bytes) (p : Bytes)
    → length (history ++ p ∷ []) < u64_limit
    → IsRecord p
    → Triple
        (IsSound history)
        (record_path lim p)
        (λ _. IsSound (history ++ p ∷ []))
        (CoversEither history p)
unfolding record_path CoversEither
record_path-IsSound lim history p small k =
    Triple-bind (λ _. IsSound (history ++ p ∷ [])) _ _
      (weaken (commit p) (commit-IsSound history p k) (λ s c. inl c))
      (λ _. weaken _ (compact-IsSound lim (history ++ p ∷ []) small) (λ s c. inr c))

-- What is left on disk then, in either case.
pub record_path-Covers :
    (lim : Limits) (history : List Bytes) (p : Bytes)
    → length (history ++ p ∷ []) < u64_limit
    → IsRecord p
    → Triple
        (IsSound history)
        (record_path lim p)
        (λ _ s. Covers s.disk (history ++ p ∷ []))
        (CoversEither history p)
record_path-Covers lim history p small k =
    weaken_ok (record_path lim p) (record_path-IsSound lim history p small k)
      (λ s h. IsDurable-Covers (history ++ p ∷ []) s h)

either_inclusive :
    (history : List Bytes) (p : Bytes) (s : ChangeJournal) (ws : Bytes) (e g : ℕ) (t : Token)
    (q : Bytes)
    → CoversEither history p s
    → t.seq ≤ length history
    → elem q (drop t.seq history) ≡ true
    → reported q (query_token (open_journal ws e g s.disk) t) ≡ true
unfolding CoversEither
either_inclusive history p s ws e g t q (inl c) le m =
    Covers-inclusive s.disk history ws e g t q c le m
either_inclusive history p s ws e g t q (inr c) le m =
    Covers-inclusive s.disk (history ++ p ∷ []) ws e g t q c
      (omega (arith, length-append {0} history (p ∷ [])))
      (ap (elem q) (drop-append t.seq history (p ∷ []) le)
        ∙ (elem-append q (drop t.seq history) (p ∷ []) ∙ ap (λ b. b || elem q (p ∷ [])) m))

-- From a journal that represents a history and is durable, run a record of a path under any
-- oracle: no operation of it, its prune included, can lose a change by failing or by being the
-- last before a crash. A journal opened on what is then on disk reports, for every token not past
-- the history, every path of the history recorded after the token. The path is not empty and has
-- no NUL, and the history is shorter than 2^64.
pub crash_inclusive :
    (lim : Limits) (history : List Bytes) (p : Bytes) (j : ChangeJournal) (o : Oracle) (ws : Bytes)
    (e g : ℕ) (t : Token) (q : Bytes)
    → IsSound history j
    → IsRecord p
    → length (history ++ p ∷ []) < u64_limit
    → t.seq ≤ length history
    → elem q (drop t.seq history) ≡ true
    → reported q (query_token (open_journal ws e g (record_path lim p o j).state.disk) t) ≡ true
crash_inclusive lim history p j o ws e g t q sound k small le m =
    either_inclusive history p (record_path lim p o j).state ws e g t q
      (any_Post (CoversEither history p) (record_path lim p o j).result
        (record_path lim p o j).state
        ((weaken_ok {Q = CoversEither history p} (record_path lim p)
            (record_path-Covers lim history p small k) (λ s c. unfold CoversEither in inr c)).at
          o j sound))
      le m

-- From a journal that represents a history and is durable, once a record of a path has returned
-- without an error, under any oracle, a journal opened on the disk reports the path for every
-- token not past the history. The path is not empty and has no NUL, and the history is shorter
-- than 2^64.
pub record_path_committed :
    (lim : Limits) (history : List Bytes) (p : Bytes) (j : ChangeJournal) (o : Oracle) (ws : Bytes)
    (e g : ℕ) (t : Token)
    → IsSound history j
    → IsRecord p
    → length (history ++ p ∷ []) < u64_limit
    → (record_path lim p o j).result ≡ ok tt
    → t.seq ≤ length history
    → reported p (query_token (open_journal ws e g (record_path lim p o j).state.disk) t) ≡ true
record_path_committed lim history p j o ws e g t sound k small done le =
    let c : Covers (record_path lim p o j).state.disk (history ++ p ∷ []) =
      subst
        (λ r.
          Post (λ _ s. Covers s.disk (history ++ p ∷ [])) (CoversEither history p) r
            (record_path lim p o j).state)
        done ((record_path-Covers lim history p small k).at o j sound) in
    Covers-inclusive (record_path lim p o j).state.disk (history ++ p ∷ []) ws e g t p c
      (omega (arith, length-append {0} history (p ∷ [])))
      (ap (elem p) (drop-append t.seq history (p ∷ []) le)
        ∙ (elem-append p (drop t.seq history) (p ∷ []) ∙ last_elem (elem p (drop t.seq history))))
  where
    last_elem : (b : Bool) → (b || elem p (p ∷ [])) ≡ true
    last_elem true = refl
    last_elem false = unfold elem in rw (bytes_eq_refl p)

-- What the disk covers behind a history is reported for every token of that history.
pub Covers-reported :
    (d : Disk) (history more : List Bytes) (ws : Bytes) (e g : ℕ) (t : Token) (q : Bytes)
    → Covers d (history ++ more)
    → t.seq ≤ length history
    → elem q more ≡ true
    → reported q (query_token (open_journal ws e g d) t) ≡ true
Covers-reported d history more ws e g t q c le m =
    Covers-inclusive d (history ++ more) ws e g t q c
      (omega (arith, length-append {0} history more))
      (ap (elem q) (drop-append t.seq history more le)
        ∙ (elem-append q (drop t.seq history) more ∙ behind (elem q (drop t.seq history))))
  where
    behind : (b : Bool) → (b || elem q more) ≡ true
    behind true = refl
    behind false = m
