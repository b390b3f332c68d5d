-- ===== src/Journal/Log/Faults.antt =====
-- `prune` of crates/worktree/src/journal.rs under faults: whatever operation fails, or whenever the
-- process dies, the log and the sidecar together still cover the history.
use git_lazy_mount.Prelude.{
  ℕ, ◌+◌, ◌-◌, ◌≤◌, ◌<◌, ◌≡◌, refl, ap, sym, ◌∙◌, inl, inr, true, Option, some, List, [], ◌∷◌, ◌++◌,
  arith, Bytes, leb, length, drop, drop-drop, length-drop, All, All-drop, Bool-cases,
}
use mathlib.Core.List.{append-nil, append_assoc}
use git_lazy_mount.Prelude.Result.{Result, ok, err}
use git_lazy_mount.Prelude.Decimal.{u64_limit, to_string}
use git_lazy_mount.Prelude.Io.{
  Oracle, Post, Triple, Triple-bind, Triple-io, Triple-modify, pure, modify, ◌>>◌,
}
use git_lazy_mount.Journal.Log.{
  Limits, ChangeJournal, Disk, JournalError, write_tmp, staged, write_records, stage_log,
  write_u64_atomic, set_tmp_base, publish, swap, or_empty, swap_log, prune, read_base, read_log,
  unchanged,
}
use git_lazy_mount.Journal.Log.Replay.{
  IsRecord, IsDurable, serialize, read_base-to_string, read_log-serialize,
}
use git_lazy_mount.Journal.Query.Window.{Represents}

-- The log holds the history from `floor` on and then perhaps more, and the sidecar says at least
-- `floor`: a base that is too large only makes the records look younger than they are.
pub record Covers (d : Disk) (history : List Bytes) : Type 0 where
  pub floor : ℕ
  pub tail : List Bytes
  pub floor_le : floor ≤ read_base d.base_text
  pub floor_in : floor ≤ length history
  pub log : read_log d.log ≡ drop floor history ++ tail

-- A journal that represents a history and is durable.
abbrev pub IsSound : List Bytes → ChangeJournal → Type 0
IsSound history j = Represents j history × IsDurable j

module _ (history window : List Bytes) (base n : ℕ) (w : window ≡ drop base history)
    (base_le : base ≤ length history) (fits : n ≤ length window) (records : All IsRecord window)
    (small : base + n < u64_limit) where
  -- Before the sidecar is published.
  record Clean (s : ChangeJournal) : Type 0 where
    log : s.disk.log ≡ serialize window
    base_text : read_base s.disk.base_text ≡ base

  record Staged (bs : Bytes) (s : ChangeJournal) : Type 0 where
    clean : Clean s
    tmp_log : s.disk.tmp_log ≡ some bs

  -- After the sidecar is published and before the log is swapped.
  record Raised (s : ChangeJournal) : Type 0 where
    log : s.disk.log ≡ serialize window
    base_text : read_base s.disk.base_text ≡ base + n
    tmp_log : s.disk.tmp_log ≡ some (serialize (drop n window))

  record Swapped (s : ChangeJournal) : Type 0 where
    log : s.disk.log ≡ serialize (drop n window)
    base_text : read_base s.disk.base_text ≡ base + n

  abbrev Safe : ChangeJournal → Type 0
  Safe s = Covers s.disk history

  long_log : (d : Disk) → d.log ≡ serialize window → base ≤ read_base d.base_text → Covers d history
  long_log d h k = record {
    floor = base;
    tail = [];
    floor_le = k;
    floor_in = base_le;
    log =
        ap read_log h
        ∙ (read_log-serialize window records ∙ (w ∙ sym (append-nil (drop base history))));
  }

  Clean-Safe : (s : ChangeJournal) → Clean s → Safe s
  Clean-Safe s c = long_log s.disk c.log (omega (arith, c.base_text))

  Raised-Safe : (s : ChangeJournal) → Raised s → Safe s
  Raised-Safe s c = long_log s.disk c.log (omega (arith, c.base_text))

  Swapped-Safe : (s : ChangeJournal) → Swapped s → Safe s
  Swapped-Safe s c = record {
    floor = base + n;
    tail = [];
    floor_le = omega (arith, c.base_text);
    floor_in = omega (arith, ap length w, length-drop base history);
    log =
        ap read_log c.log
        ∙ (read_log-serialize (drop n window) (All-drop IsRecord n window records)
            ∙ (ap (drop n) w
                ∙ (drop-drop n base history ∙ sym (append-nil (drop (base + n) history)))));
  }

  write_tmp-Staged :
      (bs more : Bytes) → Triple (Staged bs) (write_tmp more) (λ _. Staged (bs ++ more)) Safe
  unfolding write_tmp staged
  write_tmp-Staged bs more =
      Triple-io _ _ _
        (λ s h. record {
          clean = record { log = h.clean.log; base_text = h.clean.base_text };
          tmp_log = rw h.tmp_log;
        })
        (λ k s h. long_log _ h.clean.log (omega (arith, h.clean.base_text)))

  write_records-Staged :
      (recs : List Bytes) (bs : Bytes)
      → Triple (Staged bs) (write_records recs) (λ _. Staged (bs ++ serialize recs)) Safe
  unfolding write_records pure serialize
  write_records-Staged [] bs = record { at = λ o s h. rw (append-nil bs) h }
  write_records-Staged (p ∷ recs) bs = Triple-bind _ _ _ (write_tmp-Staged bs p) (λ _.
      Triple-bind _ _ _ (write_tmp-Staged (bs ++ p) (0 ∷ []))
        (λ _. rw (← three) (write_records-Staged recs ((bs ++ p) ++ 0 ∷ []))))
    where
      three : ((bs ++ p) ++ 0 ∷ []) ++ serialize recs ≡ bs ++ (p ++ 0 ∷ serialize recs)
      three =
          append_assoc (bs ++ p) (0 ∷ []) (serialize recs) ∙ append_assoc bs p (0 ∷ serialize recs)

  stage_log-Staged :
      Triple Clean (stage_log (drop n window)) (λ _. Staged (serialize (drop n window))) Safe
  unfolding stage_log unchanged
  stage_log-Staged =
      Triple-bind (λ _. Staged []) _ _
        (Triple-io _ _ _
          (λ s c. record {
            clean = record { log = c.log; base_text = c.base_text };
            tmp_log = refl;
          })
          (λ k s c. Clean-Safe s c))
        (λ _.
          Triple-bind _ _ _ (write_records-Staged (drop n window) [])
            (λ _. Triple-io _ _ _ (λ s h. h) (λ k s h. Clean-Safe s h.clean)))

  record BaseStaged (s : ChangeJournal) : Type 0 where
    staged_log : Staged (serialize (drop n window)) s
    tmp_base : s.disk.tmp_base ≡ some (to_string (base + n))

  write_u64-Raised :
      Triple (Staged (serialize (drop n window))) (write_u64_atomic (base + n)) (λ _. Raised) Safe
  unfolding write_u64_atomic set_tmp_base publish unchanged
  write_u64-Raised =
      Triple-bind (λ _. Staged (serialize (drop n window))) _ _
        (Triple-io _ _ _ moved (λ k s h. Clean-Safe s h.clean))
        (λ _.
          Triple-bind (λ _. BaseStaged) _ _
            (Triple-io _ _ _ (λ s h. record { staged_log = moved s h; tmp_base = refl })
              (λ k s h. long_log _ h.clean.log (omega (arith, h.clean.base_text))))
            (λ _.
              Triple-bind (λ _. BaseStaged) _ _
                (Triple-io _ _ _ (λ s h. h) (λ k s h. Clean-Safe s h.staged_log.clean))
                (λ _.
                  Triple-io _ _ _
                    (λ s h. record {
                      log = h.staged_log.clean.log;
                      base_text = ap read_base h.tmp_base ∙ read_base-to_string (base + n) small;
                      tmp_log = h.staged_log.tmp_log;
                    })
                    (λ k s h. Clean-Safe s h.staged_log.clean))))
    where
      moved :
          {t : Option Bytes} (s : ChangeJournal)
          → Staged (serialize (drop n window)) s
          → Staged
              (serialize (drop n window))
              (record s { disk = record (s.disk) { tmp_base = t } })
      moved s h = record {
        clean = record { log = h.clean.log; base_text = h.clean.base_text };
        tmp_log = h.tmp_log;
      }

  -- The log is swapped and the append handle is on it.
  record Reopened (s : ChangeJournal) : Type 0 where
    swapped : Swapped s
    attached : s.attached ≡ true

  swap_log-Reopened : Triple Raised swap_log (λ _. Reopened) Safe
  unfolding swap_log swap unchanged or_empty
  swap_log-Reopened =
      Triple-bind (λ _. Swapped) _ _
        (Triple-io _ _ _ (λ s h. record { log = ap or_empty h.tmp_log; base_text = h.base_text })
          (λ k s h. Raised-Safe s h))
        (λ _.
          Triple-io _ _ _
            (λ s h. record {
              swapped = record { log = h.log; base_text = h.base_text };
              attached = refl;
            })
            (λ k s h. Swapped-Safe s h))

  -- What `prune` leaves in memory is what it left on disk.
  Reopened-IsSound :
      (s : ChangeJournal)
      → Reopened s
      → IsSound history (record s { paths = drop n window; base = base + n })
  Reopened-IsSound s h = (
    record {
      base_le = omega (arith, ap length w, length-drop base history);
      window = ap (drop n) w ∙ drop-drop n base history;
    },
    record {
      log = h.swapped.log;
      base = h.swapped.base_text;
      attached = h.attached;
      records = All-drop IsRecord n window records;
    },
  )

  -- The four steps of `prune` after its guard.
  prune_steps-IsSound :
      Triple Clean
        (stage_log (drop n window)
          >> (write_u64_atomic (base + n)
              >> (swap_log >> modify (λ s. record s { paths = drop n window; base = base + n }))))
        (λ _. IsSound history)
        Safe
  prune_steps-IsSound = Triple-bind _ _ _ stage_log-Staged (λ _.
      Triple-bind _ _ _ write_u64-Raised
        (λ _. Triple-bind _ _ _ swap_log-Reopened (λ _. Triple-modify _ Reopened-IsSound)))

pub any_Post :
    (P : ChangeJournal → Type 0) (r : Result JournalError (Unit {0})) (s : ChangeJournal)
    → Post (λ _. P) P r s
    → P s
any_Post P (ok a) s h = h
any_Post P (err e) s h = h

pub IsDurable-Covers :
    (history : List Bytes) (j : ChangeJournal) → IsSound history j → Covers j.disk history
IsDurable-Covers history j (r, d) = record {
  floor = j.base;
  tail = [];
  floor_le = omega (arith, d.base);
  floor_in = r.base_le;
  log =
      ap read_log d.log
      ∙ (read_log-serialize j.paths d.records
          ∙ (r.window ∙ sym (append-nil (drop j.base history))));
}

-- A `prune` that succeeds leaves a sound journal; whatever fails in it, the disk covers the
-- history.
pub prune-IsSound :
    (lim : Limits) (history : List Bytes)
    → length history < u64_limit
    → Triple (IsSound history) (prune lim) (λ _. IsSound history) (λ s. Covers s.disk history)
unfolding prune pure
prune-IsSound lim history small = record { at = cases }
  where
    cases :
        (o : Oracle) (j : ChangeJournal)
        → IsSound history j
        → Post
            (λ _. IsSound history)
            (λ s. Covers s.disk history)
            (prune lim o j).result
            (prune lim o j).state
    cases o j (r, d) = elim (Bool-cases (leb (length j.paths) lim.keep_min)) [
      | inl e ↦ rw e (r, d)
      | inr e ↦ rw e (
          (prune_steps-IsSound history j.paths j.base (length j.paths - lim.keep_min) r.window
              r.base_le (omega arith) d.records
              (omega (arith, ap length r.window, length-drop j.base history, r.base_le, small))).at
            o j (record { log = d.log; base_text = d.base }))
    ]
