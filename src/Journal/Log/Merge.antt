-- ===== src/Journal/Log/Merge.antt =====
-- A write of crates/worktree/src/journal.rs that fails half way through a record.
use mathlib.Core.List.{append_assoc}
use git_lazy_mount.Prelude.{
  ℕ, ◌+◌, ◌≤◌, ◌≡◌, refl, ap, sym, ◌∙◌, true, false, [], ◌∷◌, ◌++◌, arith, Bytes, ltb, length,
  length-append, take, has_byte, has_byte-append,
}
use git_lazy_mount.Prelude.Result.{err}
use git_lazy_mount.Prelude.Io.{Outcome, io}
use git_lazy_mount.Journal.Log.{
  Limits, ChangeJournal, append_journal, append, commit, record_path, read_log,
}
use git_lazy_mount.Journal.Log.Replay.{
  IsRecord, IsDurable, serialize, read_log-serialize, read_log-torn,
}
use git_lazy_mount.Journal.Log.Append.{logged, appended-at, record_path-run, recorded, pushed}

-- `record` when its first write fails after `n` bytes.
failed_append :
    (lim : Limits) (p : Bytes) (n : ℕ) (j : ChangeJournal)
    → j.attached ≡ true
    → record_path lim p (Outcome.fails n ∷ []) j
      ≡ record { result = err append_journal; rest = []; state = logged (take n p) j }
unfolding record_path commit append io
failed_append lim p n j h = rw (appended-at (take n p) j h)

not_below : (a b : ℕ) → b ≤ a → ltb a b ≡ false
not_below a b h = ground arith

not_over :
    (lim : Limits) (q : Bytes) (j : ChangeJournal)
    → length j.paths + 1 ≤ lim.keep_max
    → length (j.disk.log ++ (q ++ 0 ∷ [])) ≤ lim.log_byte_cap
    → recorded lim q j ≡ pushed q j
unfolding recorded
not_over lim q j a b =
    let few : length (j.paths ++ q ∷ []) ≤ lim.keep_max =
      omega (arith, length-append {0} j.paths (q ∷ [])) in
    unfold pushed in
    rw (not_below lim.keep_max (length (j.paths ++ q ∷ [])) few)
      (rw (not_below lim.log_byte_cap (length (j.disk.log ++ (q ++ 0 ∷ []))) b))

one_record :
    (a q : Bytes)
    → has_byte 0 a ≡ false
    → IsRecord q
    → read_log (a ++ (q ++ 0 ∷ [])) ≡ (a ++ q) ∷ []
one_record a q h k =
    ap read_log (sym (append_assoc a q (0 ∷ [])))
    ∙ (unfold serialize in read_log-serialize ((a ++ q) ∷ []) (joined a q h k, tt))
  where
    joined : (a q : Bytes) → has_byte 0 a ≡ false → IsRecord q → IsRecord (a ++ q)
    joined [] q h k = k
    joined (b ∷ a) q h k = record {
      not_empty = refl;
      no_nul = has_byte-append 0 (b ∷ a) q ∙ (rw (h, k.no_nul));
    }

-- On a durable journal, a record whose first write stops after n bytes of a path, none of them a
-- NUL, and then a record of a path that is not empty and has no NUL, in which no operation fails
-- and no cap is passed, leave a log that reads back as the window and then those n bytes and the
-- second path as one path.
pub failed_append_merges :
    (lim : Limits) (p q : Bytes) (n : ℕ) (j : ChangeJournal)
    → IsDurable j
    → IsRecord q
    → has_byte 0 (take n p) ≡ false
    → length j.paths + 1 ≤ lim.keep_max
    → length ((j.disk.log ++ take n p) ++ (q ++ 0 ∷ [])) ≤ lim.log_byte_cap
    → read_log
        (record_path lim q [] (record_path lim p (Outcome.fails n ∷ []) j).state).state.disk.log
      ≡ j.paths ++ (take n p ++ q) ∷ []
unfolding pushed
failed_append_merges lim p q n j d k h small short = rw (failed_append lim p n j d.attached) (
    rw (record_path-run lim q (logged (take n p) j) d.attached) (
      rw (not_over lim q (logged (take n p) j) small short) (
        ap read_log (
          append_assoc j.disk.log (take n p) (q ++ 0 ∷ [])
          ∙ ap (λ t. t ++ (take n p ++ (q ++ 0 ∷ []))) d.log)
        ∙ (read_log-torn j.paths (take n p ++ (q ++ 0 ∷ [])) d.records
            ∙ ap (λ t. j.paths ++ t) (one_record (take n p) q h k)))))
