-- ===== src/Journal/Log/Append.antt =====
-- `record` of crates/worktree/src/journal.rs without faults: the history grows by one, and the
-- disk follows.
use mathlib.Core.List.{append-nil, append_assoc}
use git_lazy_mount.Prelude.{
  ℕ, ◌+◌, ◌-◌, ◌≤◌, ◌<◌, ◌≡◌, refl, ap, sym, ◌∙◌, inl, inr, Bool, true, false, none, some, List, [],
  ◌∷◌, ◌++◌, arith, Bytes, ltb, leb, length, drop, drop-drop, drop-append, length-append,
  length-drop, All-append, All-drop, if◌then◌else◌, Bool-cases, ◌||◌,
}
use git_lazy_mount.Prelude.Result.{ok}
use git_lazy_mount.Prelude.Decimal.{u64_limit, to_string}
use git_lazy_mount.Prelude.Io.{Run, pure, modify, io, io_or}
use git_lazy_mount.Journal.Log.{
  Limits, ChangeJournal, JournalError, append, appended, write_records, stage_log, write_u64_atomic,
  swap_log, prune, log_bytes, over_cap, when, commit, record_path,
}
use git_lazy_mount.Journal.Log.Replay.{
  IsRecord, IsDurable, serialize, serialize-append, read_base-to_string,
}
use git_lazy_mount.Journal.Query.Window.{Represents, cur_seq-Represents}

-- A run that succeeds with nothing left of the oracle.
abbrev pub returned : ChangeJournal → Run JournalError ChangeJournal (Unit {0})
returned j = record { result = ok tt; rest = []; state = j }

with_tmp : Bytes → ChangeJournal → ChangeJournal
with_tmp bs j = record j { disk = record (j.disk) { tmp_log = some bs } }

write_records-run :
    (ps : List Bytes) (bs : Bytes) (j : ChangeJournal)
    → write_records ps [] (with_tmp bs j) ≡ returned (with_tmp (bs ++ serialize ps) j)
unfolding write_records with_tmp io pure serialize
write_records-run [] bs j = ap (λ t. returned (with_tmp t j)) (sym (append-nil bs))
write_records-run (p ∷ ps) bs j =
    write_records-run ps ((bs ++ p) ++ 0 ∷ []) j
    ∙ ap (λ t. returned (with_tmp t j))
        (append_assoc (bs ++ p) (0 ∷ []) (serialize ps) ∙ append_assoc bs p (0 ∷ serialize ps))

stage_log-run :
    (ps : List Bytes) (j : ChangeJournal) → stage_log ps [] j ≡ returned (with_tmp (serialize ps) j)
unfolding stage_log io
stage_log-run ps j =
    let e : write_records ps [] (with_tmp [] j) ≡ returned (with_tmp (serialize ps) j) =
      write_records-run ps [] j in
    unfold with_tmp in rw e

unfoldable pub pruned : ℕ → ChangeJournal → ChangeJournal
pruned n j = record j {
  paths = drop n j.paths;
  base = j.base + n;
  attached = true;
  disk = record {
    log = serialize (drop n j.paths);
    tmp_log = none;
    base_text = some (to_string (j.base + n));
    tmp_base = none;
  };
}

prune-run :
    (lim : Limits) (j : ChangeJournal)
    → leb (length j.paths) lim.keep_min ≡ false
    → prune lim [] j ≡ returned (pruned (length j.paths - lim.keep_min) j)
unfolding prune pruned
prune-run lim j h = rw h (
    rw (stage_log-run (drop (length j.paths - lim.keep_min) j.paths) j)
      (unfold write_u64_atomic swap_log with_tmp io modify in refl))

-- What a prune leaves in memory.
pruned-Represents :
    (n : ℕ) (j : ChangeJournal) (history : List Bytes)
    → n ≤ length j.paths
    → Represents j history
    → Represents (pruned n j) history
unfolding pruned
pruned-Represents n j history h r = record {
  base_le = omega (arith, ap length r.window, length-drop j.base history, r.base_le);
  window = ap (drop n) r.window ∙ drop-drop n j.base history;
}

pruned-IsDurable :
    (n : ℕ) (j : ChangeJournal) → j.base + n < u64_limit → IsDurable j → IsDurable (pruned n j)
unfolding pruned
pruned-IsDurable n j h d = record {
  log = refl;
  base = read_base-to_string (j.base + n) h;
  attached = refl;
  records = All-drop IsRecord n j.paths d.records;
}

unfoldable pub pushed : Bytes → ChangeJournal → ChangeJournal
pushed p j = record j {
  paths = j.paths ++ p ∷ [];
  disk = record (j.disk) { log = j.disk.log ++ (p ++ 0 ∷ []) };
}

abbrev pub logged : Bytes → ChangeJournal → ChangeJournal
logged bs j = record j { disk = record (j.disk) { log = j.disk.log ++ bs } }

pub appended-at : (bs : Bytes) (j : ChangeJournal) → j.attached ≡ true → appended bs j ≡ logged bs j
unfolding appended
appended-at bs j h = rw h

pub appended-logged :
    (bs more : Bytes) (j : ChangeJournal)
    → j.attached ≡ true
    → appended more (logged bs j) ≡ logged (bs ++ more) j
appended-logged bs more j h =
    appended-at more (logged bs j) h
    ∙ ap (λ t. record j { disk = record (j.disk) { log = t } }) (append_assoc j.disk.log bs more)

commit-run :
    (p : Bytes) (j : ChangeJournal) → j.attached ≡ true → commit p [] j ≡ returned (pushed p j)
unfolding commit pushed append io modify
commit-run p j h = rw (appended-at p j h) (
    rw (appended-at (0 ∷ []) (logged p j) h) (
      ap
        (λ t. returned (record j { paths = j.paths ++ p ∷ []; disk = record (j.disk) { log = t } }))
        (append_assoc j.disk.log p (0 ∷ []))))

pub pushed-Represents :
    (p : Bytes) (j : ChangeJournal) (history : List Bytes)
    → Represents j history
    → Represents (pushed p j) (history ++ p ∷ [])
unfolding pushed
pushed-Represents p j history r = record {
  base_le = omega (arith, length-append {0} history (p ∷ []), r.base_le);
  window = ap (λ t. t ++ p ∷ []) r.window ∙ sym (drop-append j.base history (p ∷ []) r.base_le);
}

pub pushed-IsDurable :
    (p : Bytes) (j : ChangeJournal) → IsRecord p → IsDurable j → IsDurable (pushed p j)
unfolding pushed serialize
pushed-IsDurable p j k d = record {
  log = ap (λ t. t ++ (p ++ 0 ∷ [])) d.log ∙ sym (serialize-append j.paths (p ∷ []));
  base = d.base;
  attached = d.attached;
  records = All-append IsRecord j.paths (p ∷ []) d.records (k, tt);
}

-- What `record` leaves when nothing fails: the path is pushed, and the window is pruned to
-- `keep_min` records if it is over a bound and longer than that.
unfoldable pub recorded : Limits → Bytes → ChangeJournal → ChangeJournal
recorded lim p j =
    let k = pushed p j in
    if ltb lim.keep_max (length k.paths) || ltb lim.log_byte_cap (length k.disk.log)
    then (if leb (length k.paths) lim.keep_min then k else pruned (length k.paths - lim.keep_min) k)
    else k

choose :
    (P : ChangeJournal → Type 0) (b : Bool) (j k : ChangeJournal)
    → P j
    → P k
    → P (if b then j else k)
choose P true j k x y = x
choose P false j k x y = y

over_cap-run :
    (lim : Limits) (j : ChangeJournal)
    → over_cap lim [] j ≡ record {
      result = ok (ltb lim.keep_max (length j.paths) || ltb lim.log_byte_cap (length j.disk.log));
      rest = [];
      state = j;
    }
unfolding over_cap log_bytes io_or pure
over_cap-run lim j = elim (Bool-cases (ltb lim.keep_max (length j.paths))) [
  | inl e ↦ rw e
  | inr e ↦ rw e
]

when-run :
    (lim : Limits) (b : Bool) (j : ChangeJournal)
    → when b (prune lim) [] j
      ≡ returned (
          if b
          then (if leb (length j.paths) lim.keep_min
              then j
              else pruned (length j.paths - lim.keep_min) j)
          else j)
unfolding when pure
when-run lim false j = refl
when-run lim true j = elim (Bool-cases (leb (length j.paths) lim.keep_min)) [
  | inl e ↦ unfold prune in rw e
  | inr e ↦ rw (prune-run lim j e) (rw e)
]

pub record_path-run :
    (lim : Limits) (p : Bytes) (j : ChangeJournal)
    → j.attached ≡ true
    → record_path lim p [] j ≡ returned (recorded lim p j)
unfolding record_path recorded
record_path-run lim p j h = rw (commit-run p j h) (
    rw (over_cap-run lim (pushed p j)) (
      when-run lim
        (ltb lim.keep_max (length (pushed p j).paths)
          || ltb lim.log_byte_cap (length (pushed p j).disk.log))
        (pushed p j)))

recorded-cases :
    (P : ChangeJournal → Type 0) (lim : Limits) (p : Bytes) (j : ChangeJournal)
    → P (pushed p j)
    → P (pruned (length (pushed p j).paths - lim.keep_min) (pushed p j))
    → P (recorded lim p j)
unfolding recorded
recorded-cases P lim p j a b =
    choose P
      (ltb lim.keep_max (length (pushed p j).paths)
        || ltb lim.log_byte_cap (length (pushed p j).disk.log))
      _ _ (choose P (leb (length (pushed p j).paths) lim.keep_min) _ _ a b) a

-- From a durable journal that represents a history shorter than 2^64 - 1, a record of a path that
-- is not empty and has no NUL, in which no operation fails, succeeds; it leaves a journal, pruned
-- or not, that is durable and represents the history with the path behind it.
pub record_path_lem :
    (lim : Limits) (p : Bytes) (j : ChangeJournal) (history : List Bytes)
    → Represents j history
    → IsDurable j
    → IsRecord p
    → length history + 1 < u64_limit
    → (k : ChangeJournal) × (record_path lim p [] j
        ≡ record { result = ok tt; rest = []; state = k })
      × Represents k (history ++ p ∷ [])
      × IsDurable k
record_path_lem lim p j history r d k h =
    let pr = pushed-Represents p j history r in
    let pd = pushed-IsDurable p j k d in
    let n = length (pushed p j).paths - lim.keep_min in
    (
      recorded lim p j,
      record_path-run lim p j d.attached,
      recorded-cases (λ s. Represents s (history ++ p ∷ [])) lim p j pr
          (pruned-Represents n (pushed p j) (history ++ p ∷ []) (omega arith) pr),
      recorded-cases IsDurable lim p j pd (
          pruned-IsDurable n (pushed p j)
            (omega (
              arith,
              cur_seq-Represents (pushed p j) (history ++ p ∷ []) pr,
              length-append {0} history (p ∷ []),
              h,
            ))
            pd),
    )
