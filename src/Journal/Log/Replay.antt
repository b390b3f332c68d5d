-- ===== src/Journal/Log/Replay.antt =====
-- What `open` of crates/worktree/src/journal.rs reads back from the log and the `base` sidecar.
use mathlib.Core.List.{append-nil, append_assoc}
use git_lazy_mount.Prelude.{
  ℕ, ◌<◌, ◌≡◌, refl, ap, sym, ◌∙◌, true, false, some, List, [], ◌∷◌, ◌++◌, arith, Bytes, has_byte,
  is_empty, All, split, split-piece, non_empty,
}
use git_lazy_mount.Prelude.Decimal.{
  to_string, u64_limit, is_digit, to_string-IsDigit, parse_u64-to_string,
}
use git_lazy_mount.Prelude.Trim.{is_space, NotSpace, trim-NotSpace}
use git_lazy_mount.Prelude.Result.{ok}
use git_lazy_mount.Prelude.Io.{io, io_or, pure, gets}
use git_lazy_mount.Journal.Log.{
  ChangeJournal, Disk, open_run, read_records, or_zero, read_base, read_log, open_torn,
  open_journal,
}

-- A recorded path: not the root, and without NUL.
pub record IsRecord (p : Bytes) : Type 0 where
  pub not_empty : is_empty p ≡ false
  pub no_nul : has_byte 0 p ≡ false

-- The log of the records, each with a NUL behind it.
unfoldable pub serialize : List Bytes → Bytes
serialize [] = []
serialize (p ∷ ps) = p ++ (0 ∷ serialize ps)

pub serialize-append : (ps qs : List Bytes) → serialize (ps ++ qs) ≡ serialize ps ++ serialize qs
unfolding serialize
serialize-append [] qs = refl
serialize-append (p ∷ ps) qs =
    ap (λ t. p ++ (0 ∷ t)) (serialize-append ps qs)
    ∙ sym (append_assoc p (0 ∷ serialize ps) (serialize qs))

non_empty-cons :
    (p : Bytes) (ps : List Bytes) → is_empty p ≡ false → non_empty (p ∷ ps) ≡ p ∷ non_empty ps
unfolding non_empty
non_empty-cons p ps h = rw h

-- The records, and behind them whatever a failed write has left.
pub read_log-torn :
    (ps : List Bytes) (tail : Bytes)
    → All IsRecord ps
    → read_log (serialize ps ++ tail) ≡ ps ++ read_log tail
unfolding serialize read_log
read_log-torn [] tail h = refl
read_log-torn (p ∷ ps) tail h = rw (append_assoc p (0 ∷ serialize ps) tail) (
    rw (split-piece 0 p (serialize ps ++ tail) h.0.no_nul) (
      non_empty-cons p (split 0 (serialize ps ++ tail)) h.0.not_empty
      ∙ ap (λ t. p ∷ t) (read_log-torn ps tail h.1)))

pub read_log-nil : read_log [] ≡ []
unfolding read_log non_empty split
read_log-nil = refl

pub read_log-serialize : (ps : List Bytes) → All IsRecord ps → read_log (serialize ps) ≡ ps
read_log-serialize ps h =
    ap read_log (sym (append-nil (serialize ps)))
    ∙ (read_log-torn ps [] h ∙ (ap (λ t. ps ++ t) read_log-nil ∙ append-nil ps))

digits_NotSpace : (bs : Bytes) → All (λ c. is_digit c ≡ true) bs → All NotSpace bs
unfolding is_space is_digit
digits_NotSpace [] h = tt
digits_NotSpace (c ∷ bs) h = (ground arith, digits_NotSpace bs h.1)

-- The sidecar that a prune writes reads back as the number written.
pub read_base-to_string : (n : ℕ) → n < u64_limit → read_base (some (to_string n)) ≡ n
unfolding read_base or_zero
read_base-to_string n h =
    rw (trim-NotSpace (to_string n) (digits_NotSpace (to_string n) (to_string-IsDigit n)))
      (rw (parse_u64-to_string n h))

-- The disk holds the window and the base, and the append handle is on the log.
pub record IsDurable (j : ChangeJournal) : Type 0 where
  pub log : j.disk.log ≡ serialize j.paths
  pub base : read_base j.disk.base_text ≡ j.base
  pub attached : j.attached ≡ true
  pub records : All IsRecord j.paths

-- Opening the disk of a durable journal, under its workspace, epoch and generation, gives the same
-- journal.
pub open-IsDurable :
    (j : ChangeJournal) → IsDurable j → open_journal j.workspace j.epoch j.generation j.disk ≡ j
unfolding open_journal open_torn
open-IsDurable j d =
    let e : read_log j.disk.log ≡ j.paths =
      ap read_log d.log ∙ read_log-serialize j.paths d.records in
    cc (e, d.base, d.attached)

-- The run of `open` in which no operation fails gives that journal.
pub open_run-open_journal :
    (workspace : Bytes) (epoch generation : ℕ) (disk : Disk)
    → (open_run workspace epoch generation [] disk).result
      ≡ ok (open_journal workspace epoch generation disk)
unfolding open_run read_records open_journal open_torn io io_or pure gets
open_run-open_journal workspace epoch generation disk = refl
