-- ===== src/Journal/Tests.antt =====
-- Runs of the journal of crates/worktree/src/journal.rs on a small window, and the theorems at
-- them.
use git_lazy_mount.Prelude.{
  ℕ, ◌≡◌, refl, true, false, none, some, List, [], ◌∷◌, ◌++◌, arith, Bytes, codes, bytes_eq,
  has_byte, is_empty, elem, non_empty, split,
}
use git_lazy_mount.Prelude.Decimal.{parse_u64}
use git_lazy_mount.Prelude.Trim.{trim_start, trim_end, keep_before, is_space}
use git_lazy_mount.Prelude.Result.{ok}
use git_lazy_mount.Journal.Token
use git_lazy_mount.Journal.Token.{Token}
use git_lazy_mount.Journal.Token.RoundTrip.{InRange, parse-encode}
use git_lazy_mount.Prelude.Io.{Outcome}
use git_lazy_mount.Journal.Log.{
  Limits, ChangeJournal, current_token, open_torn, open_journal, record_path, read_base, read_log,
}
use git_lazy_mount.Journal.Log.Replay.{IsRecord, IsDurable, serialize, open-IsDurable}
use git_lazy_mount.Journal.Log.Append.{record_path_lem}
use git_lazy_mount.Journal.Log.Faults.{IsSound}
use git_lazy_mount.Journal.Log.Crash.{crash_inclusive, record_path_committed}
use git_lazy_mount.Journal.Log.Merge.{failed_append_merges}
use git_lazy_mount.Journal.Query.{query, query_token, changes, full_invalidation, sorted_set}
use git_lazy_mount.Prelude.Lexicographic.{IsAscending}
use git_lazy_mount.Journal.Query.Window.{
  Represents, SameJournal, reported, query_exact, query_inclusive, query_bootstrap,
}
use git_lazy_mount.Journal.Races.{torn, torn_read_misses, without_base, base_lost_misses}

-- A window of at most two paths, of which a prune leaves one.
abbrev small : Limits
small = record { keep_max = 2; keep_min = 1; log_byte_cap = 100 }

abbrev history : List Bytes
history = codes "a" ∷ codes "b" ∷ []

-- The first of the two paths is pruned away.
abbrev window : List Bytes
window = codes "b" ∷ []

abbrev journal : ChangeJournal
journal = record {
  workspace = codes "w";
  epoch = 1;
  generation = 1;
  paths = window;
  base = 1;
  attached = true;
  disk = record {
    log = codes "b" ++ 0 ∷ [];
    tmp_log = none;
    base_text = some (codes "1");
    tmp_base = none;
  };
}

abbrev token : ℕ → Token
token n = record { workspace = codes "w"; epoch = 1; seq = n; generation = 1 }

b_recordable : IsRecord (codes "b")
unfolding has_byte
b_recordable = record { not_empty = refl; no_nul = refl }

c_recordable : IsRecord (codes "c")
unfolding has_byte
c_recordable = record { not_empty = refl; no_nul = refl }

read_base_one : read_base (some (codes "1")) ≡ 1
unfolding read_base parse_u64 trim_start trim_end keep_before is_space
read_base_one = refl

journal-Represents : Represents journal history
journal-Represents = record { base_le = omega arith; window = refl }

journal-IsDurable : IsDurable journal
unfolding serialize
journal-IsDurable = record {
  log = refl;
  base = read_base_one;
  attached = refl;
  records = (b_recordable, tt);
}

journal-IsSound : IsSound history journal
journal-IsSound = (journal-Represents, journal-IsDurable)

token-InRange : InRange (token 1)
token-InRange = record { epoch = omega arith; seq = omega arith; generation = omega arith }

no_colon : has_byte Token.colon (codes "w") ≡ false
unfolding has_byte
no_colon = refl

token-SameJournal : SameJournal journal (token 1)
token-SameJournal = record { workspace = refl; epoch = refl; generation = refl }

elem_b : elem (codes "b") (codes "b" ∷ []) ≡ true
unfolding elem bytes_eq
elem_b = refl

parse-encode_example : Token.parse (Token.encode (token 1)) ≡ some (token 1)
parse-encode_example = parse-encode (token 1) no_colon token-InRange

open-IsDurable_example : open_journal (codes "w") 1 1 journal.disk ≡ journal
open-IsDurable_example = open-IsDurable journal journal-IsDurable

query_exact_example :
    (paths : List Bytes) × (query journal (Token.encode (token 1))
      ≡ changes (current_token journal) paths)
    × IsAscending paths
    × (elem (codes "b") paths ≡ elem (codes "b") window)
query_exact_example =
    query_exact journal history (token 1) (codes "b") journal-Represents token-SameJournal no_colon
      token-InRange (omega arith) (omega arith)

not_empty : is_empty (Token.encode (token 1)) ≡ false
unfolding Token.encode
not_empty = refl

query_inclusive_example : reported (codes "b") (query journal (Token.encode (token 1))) ≡ true
query_inclusive_example =
    query_inclusive journal history (Token.encode (token 1)) (token 1) (codes "b")
      journal-Represents not_empty (parse-encode (token 1) no_colon token-InRange) (omega arith)
      elem_b

query_bootstrap_example : query journal [] ≡ full_invalidation (current_token journal)
query_bootstrap_example = query_bootstrap journal history journal-Represents

record_path_example :
    (k : ChangeJournal) × (record_path small (codes "c") [] journal
      ≡ record { result = ok tt; rest = []; state = k })
    × Represents k (history ++ codes "c" ∷ [])
    × IsDurable k
record_path_example =
    record_path_lem small (codes "c") journal history journal-Represents journal-IsDurable
      c_recordable (omega arith)

-- The append of the terminator fails.
crash_inclusive_example :
    reported (codes "b") (
      query_token
        (open_journal
          (codes "w")
          1
          2
          (record_path small (codes "c") (Outcome.done ∷ Outcome.fails 0 ∷ []) journal).state.disk)
        (token 1))
    ≡ true
crash_inclusive_example =
    crash_inclusive small history (codes "c") journal (Outcome.done ∷ Outcome.fails 0 ∷ [])
      (codes "w") 1 2 (token 1) (codes "b") journal-IsSound c_recordable (omega arith) (omega arith)
      elem_b

succeeds : (record_path small (codes "c") [] journal).result ≡ ok tt
succeeds =
    let (k, e, _, _) =
      record_path_lem small (codes "c") journal history journal-Represents journal-IsDurable
        c_recordable (omega arith) in
    rw e refl

record_path_committed_example :
    reported (codes "c") (
      query_token
        (open_journal (codes "w") 1 1 (record_path small (codes "c") [] journal).state.disk)
        (token 1))
    ≡ true
record_path_committed_example =
    record_path_committed small history (codes "c") journal [] (codes "w") 1 1 (token 1)
      journal-IsSound c_recordable (omega arith) succeeds (omega arith)

-- Another process has recorded one path and pruned one when the sidecar is read.
abbrev later : ChangeJournal
later = record journal {
  paths = codes "c" ∷ [];
  base = 2;
  disk = record {
    log = codes "c" ++ 0 ∷ [];
    tmp_log = none;
    base_text = some (codes "2");
    tmp_base = none;
  };
}

read_base_two : read_base (some (codes "2")) ≡ 2
unfolding read_base parse_u64 trim_start trim_end keep_before is_space
read_base_two = refl

later-Represents : Represents later (codes "a" ∷ codes "b" ∷ codes "c" ∷ [])
later-Represents = record { base_le = omega arith; window = refl }

abbrev ahead : Token
ahead = current_token (torn journal later.disk)

ahead_is : ahead ≡ token 3
unfolding open_torn read_log read_base parse_u64 trim_start trim_end keep_before is_space non_empty
    split
ahead_is = refl

ahead-SameJournal : SameJournal later ahead
ahead-SameJournal = rw ahead_is (record { workspace = refl; epoch = refl; generation = refl })

ahead-InRange : InRange ahead
ahead-InRange =
    rw ahead_is (record { epoch = omega arith; seq = omega arith; generation = omega arith })

torn_read_misses_example :
    query later (Token.encode ahead) ≡ changes (current_token later) (sorted_set [])
torn_read_misses_example =
    torn_read_misses journal later history (codes "c" ∷ []) later.disk journal-Represents
      journal-IsDurable read_base_two later-Represents ahead-SameJournal no_colon ahead-InRange

base_lost_misses_example :
    query (without_base journal) (Token.encode (token 1))
    ≡ changes (current_token (without_base journal)) (sorted_set [])
base_lost_misses_example =
    base_lost_misses journal (token 1) journal-IsDurable token-SameJournal no_colon token-InRange
      (omega arith)

-- The write of "xy" stops after its first byte.
failed_append_merges_example :
    read_log
      (record_path small
        (codes "c")
        []
        (record_path small (codes "xy") (Outcome.fails 1 ∷ []) journal).state).state.disk.log
    ≡ codes "b" ∷ codes "xc" ∷ []
failed_append_merges_example =
    failed_append_merges small (codes "xy") (codes "c") 1 journal journal-IsDurable c_recordable
      (unfold has_byte in refl) (omega arith) (omega arith)
