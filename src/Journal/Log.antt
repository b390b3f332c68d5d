-- ===== src/Journal/Log.antt =====
-- `ChangeJournal` of crates/worktree/src/journal.rs: its state, the files that it keeps, and
-- `open`, `record` and `prune`.
pub mod Replay
pub mod Append
pub mod Faults
pub mod Crash
pub mod Merge
use git_lazy_mount.Prelude.{
  ℕ, ◌+◌, ◌-◌, Bool, true, false, ◌||◌, Option, none, some, List, [], ◌∷◌, ◌++◌, Bytes, ltb, leb,
  length, take, drop, split, non_empty, if◌then◌else◌, ◌&&◌, ◌==◌,
}
use git_lazy_mount.Prelude.Decimal.{parse_u64, to_string}
use git_lazy_mount.Prelude.Trim.{trim}
use git_lazy_mount.Journal.Token.{Token}
use git_lazy_mount.Prelude.Io.{M, pure, gets, modify, io, io_or, ◌>>=◌, ◌>>◌}

-- `KEEP_MAX`, `KEEP_MIN` and `LOG_BYTE_CAP`, which differ between a build and its tests.
pub record Limits : Type 0 where
  pub keep_max : ℕ
  pub keep_min : ℕ
  pub log_byte_cap : ℕ

abbrev pub production : Limits
production = record { keep_max = 50000; keep_min = 25000; log_byte_cap = 33554432 }

-- `changes.log`, its staged successor, the `base` sidecar and its staged successor. An absent
-- `changes.log` reads as an empty one.
pub record Disk : Type 0 where
  pub log : Bytes
  pub tmp_log : Option Bytes
  pub base_text : Option Bytes
  pub tmp_base : Option Bytes

-- `attached` tells whether the append handle is open on the file that `changes.log` names.
pub record ChangeJournal : Type 0 where
  pub workspace : Bytes
  pub epoch : ℕ
  pub generation : ℕ
  pub paths : List Bytes
  pub base : ℕ
  pub attached : Bool
  pub disk : Disk

-- The labels that the source gives its errors.
pub data JournalError : Type 0 where
  append_journal fsync_journal create_journal_tmp write_journal_tmp fsync_journal_tmp : JournalError
  create_base_tmp write_base fsync_base publish_base publish_journal : JournalError
  reopen_journal_log create_journal_dir read_journal open_journal_log : JournalError

abbrev pub Act : Type 0 → Type 0
Act A = M JournalError ChangeJournal A

abbrev pub cur_seq : ChangeJournal → ℕ
cur_seq j = j.base + length j.paths

abbrev pub token_at : ChangeJournal → ℕ → Token
token_at j n = record {
  workspace = j.workspace;
  epoch = j.epoch;
  seq = n;
  generation = j.generation;
}

abbrev pub current_token : ChangeJournal → Token
current_token j = token_at j (cur_seq j)

or_zero : Option ℕ → ℕ
or_zero none = 0
or_zero (some n) = n

-- `base`: 0 if the sidecar is absent or malformed.
unfoldable pub read_base : Option Bytes → ℕ
unfolding or_zero
read_base none = 0
read_base (some text) = or_zero (parse_u64 (trim text))

-- The records of the log: its pieces between NULs, without the empty ones.
unfoldable pub read_log : Bytes → List Bytes
read_log bs = non_empty (split 0 bs)

-- `open` reads the log first and the sidecar second: another process may prune in between, so the
-- two may come from two states of the disk.
unfoldable pub open_torn : Bytes → ℕ → ℕ → Disk → Disk → ChangeJournal
unfolding read_log read_base
open_torn workspace epoch generation first second = record {
  workspace = workspace;
  epoch = epoch;
  generation = generation;
  paths = read_log first.log;
  base = read_base second.base_text;
  attached = true;
  disk = second;
}

-- `open` with no other process at work, where no file operation fails.
unfoldable pub open_journal : Bytes → ℕ → ℕ → Disk → ChangeJournal
unfolding open_torn
open_journal workspace epoch generation disk = open_torn workspace epoch generation disk disk

-- `read_to_end`, of a log that could be opened; one that could not is taken for an empty one.
read_records : Bool → M JournalError Disk (List Bytes)
unfolding read_log
read_records false = pure []
read_records true = do io read_journal (λ d. d) (λ k d. d); gets (λ d. read_log d.log)

-- `open` with its file operations: a directory or a log that is not there is made, which an empty
-- log stands for; a sidecar that cannot be read counts as absent.
unfoldable pub open_run : Bytes → ℕ → ℕ → M JournalError Disk ChangeJournal
unfolding read_records read_base
open_run workspace epoch generation = do
  io create_journal_dir (λ d. d) (λ k d. d)
  found ← io_or false (λ d. true)
  paths ← read_records found
  text ← io_or none (λ d. d.base_text)
  io open_journal_log (λ d. d) (λ k d. d)
  disk ← gets (λ d. d)
  pure (record {
    workspace = workspace;
    epoch = epoch;
    generation = generation;
    paths = paths;
    base = read_base text;
    attached = true;
    disk = disk;
  })

-- A write through the append handle.
unfoldable pub appended : Bytes → ChangeJournal → ChangeJournal
appended bs j =
    if j.attached then record j { disk = record (j.disk) { log = j.disk.log ++ bs } } else j

append : Bytes → Act (Unit {0})
unfolding appended
append bs = io append_journal (appended bs) (λ k. appended (take k bs))

staged : Bytes → Option Bytes → Option Bytes
staged bs none = none
staged bs (some t) = some (t ++ bs)

write_tmp : Bytes → Act (Unit {0})
unfolding staged
write_tmp bs =
    io write_journal_tmp
      (λ j. record j { disk = record (j.disk) { tmp_log = staged bs j.disk.tmp_log } })
      (λ k j. record j { disk = record (j.disk) { tmp_log = staged (take k bs) j.disk.tmp_log } })

-- The loop of step 1 of `prune`.
write_records : List Bytes → Act (Unit {0})
unfolding write_tmp
write_records [] = pure tt
write_records (rec ∷ recs) = do write_tmp rec; write_tmp (0 ∷ []); write_records recs

unchanged : ℕ → ChangeJournal → ChangeJournal
unchanged k j = j

-- Step 1: stage the retained suffix.
stage_log : List Bytes → Act (Unit {0})
unfolding write_records unchanged
stage_log retained = do
  io create_journal_tmp (λ j. record j { disk = record (j.disk) { tmp_log = some [] } }) unchanged
  write_records retained
  io fsync_journal_tmp (λ j. j) unchanged

set_tmp_base : Bytes → ChangeJournal → ChangeJournal
set_tmp_base bs j = record j { disk = record (j.disk) { tmp_base = some bs } }

publish : Disk → Disk
publish d = record d { base_text = d.tmp_base; tmp_base = none }

-- `write_u64_atomic`, step 2. The sync of the directory ignores its errors.
write_u64_atomic : ℕ → Act (Unit {0})
unfolding unchanged set_tmp_base publish
write_u64_atomic n = do
  io create_base_tmp (set_tmp_base []) unchanged
  io write_base (set_tmp_base (to_string n)) (λ k. set_tmp_base (take k (to_string n)))
  io fsync_base (λ j. j) unchanged
  io publish_base (λ j. record j { disk = publish (j.disk) }) unchanged

or_empty : Option Bytes → Bytes
or_empty none = []
or_empty (some bs) = bs

swap : Disk → Disk
unfolding or_empty
swap d = record d { log = or_empty d.tmp_log; tmp_log = none }

-- Step 3: swap the log, and reopen the append handle. Between the two the handle is on the old
-- file, which no name leads to any more.
swap_log : Act (Unit {0})
unfolding swap unchanged
swap_log = do
  io publish_journal (λ j. record j { disk = swap (j.disk); attached = false }) unchanged
  io reopen_journal_log (λ j. record j { attached = true }) unchanged

unfoldable pub prune : Limits → Act (Unit {0})
unfolding stage_log write_u64_atomic swap_log
prune lim o j =
    let drop_n = length j.paths - lim.keep_min in
    let new_base = j.base + drop_n in
    let retained = drop drop_n j.paths in
    let run = (do
      stage_log retained
      write_u64_atomic new_base
      swap_log
      modify (λ s. record s { paths = retained; base = new_base })) in
    if leb (length j.paths) lim.keep_min then pure tt o j else run o j

-- `log_bytes`: 0 if the file cannot be examined.
log_bytes : Act ℕ
log_bytes = io_or 0 (λ j. length j.disk.log)

-- The byte cap is looked at only if the window is not too long.
over_cap : Limits → Act Bool
unfolding log_bytes
over_cap lim o j =
    let by_size = (do n ← log_bytes; pure (ltb lim.log_byte_cap n)) in
    if ltb lim.keep_max (length j.paths) then pure true o j else by_size o j

when : Bool → Act (Unit {0}) → Act (Unit {0})
when true m = m
when false m = pure tt

-- `record`, up to the push of the path to the window.
commit : Bytes → Act (Unit {0})
unfolding append unchanged
commit path = do
  append path
  append (0 ∷ [])
  io fsync_journal (λ j. j) unchanged
  modify (λ j. record j { paths = j.paths ++ path ∷ [] })

unfoldable pub record_path : Limits → Bytes → Act (Unit {0})
unfolding commit over_cap when prune
record_path lim path = do commit path; over ← over_cap lim; when over (prune lim)
