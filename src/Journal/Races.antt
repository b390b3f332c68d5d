-- ===== src/Journal/Races.antt =====
-- Two ways in which the hook of crates/worktree/src/journal.rs can miss a change, and one in which
-- a failed write spoils the next record.
use git_lazy_mount.Prelude.{
  ℕ, ◌+◌, ◌≤◌, ◌≡◌, ap, sym, ◌∙◌, false, none, List, [], ◌++◌, arith, Bytes, has_byte, length, drop,
  drop-length, length-append,
}
use git_lazy_mount.Journal.Token
use git_lazy_mount.Journal.Token.{Token}
use git_lazy_mount.Journal.Token.RoundTrip.{InRange}
use git_lazy_mount.Journal.Log.{
  ChangeJournal, Disk, cur_seq, current_token, open_torn, open_journal, read_base, read_log,
}
use git_lazy_mount.Journal.Log.Replay.{IsDurable, read_log-serialize}
use git_lazy_mount.Journal.Query.{changes, query, sorted_set}
use git_lazy_mount.Journal.Query.Window.{
  Represents, SameJournal, cur_seq-Represents, query-sorted_set,
}

-- The hook reads the log, the daemon prunes away `n` records, the hook reads the sidecar.
abbrev pub torn : ChangeJournal → Disk → ChangeJournal
torn j after = open_torn j.workspace j.epoch j.generation j.disk after

cur_seq-torn :
    (j : ChangeJournal) (after : Disk) (n : ℕ)
    → IsDurable j
    → read_base after.base_text ≡ j.base + n
    → cur_seq (torn j after) ≡ cur_seq j + n
unfolding open_torn
cur_seq-torn j after n d e =
    omega (arith, e, ap length (ap read_log d.log ∙ read_log-serialize j.paths d.records))

-- A durable journal represents a history, and between the two reads of open another process moves
-- the base by as many records as the list of further paths has. Once a journal of the same
-- identity represents the history with the further paths behind it, the token of the journal
-- opened is answered by no changes. The workspace has no colon, and the numbers of the token are
-- below 2^64.
pub torn_read_misses :
    (j k : ChangeJournal) (history more : List Bytes) (after : Disk)
    → Represents j history
    → IsDurable j
    → read_base after.base_text ≡ j.base + length more
    → Represents k (history ++ more)
    → SameJournal k (current_token (torn j after))
    → has_byte Token.colon j.workspace ≡ false
    → InRange (current_token (torn j after))
    → query k (Token.encode (current_token (torn j after)))
      ≡ changes (current_token k) (sorted_set [])
torn_read_misses j k history more after r d e s same h range =
    let ahead : cur_seq (torn j after) ≡ length (history ++ more) =
      cur_seq-torn j after (length more) d e
      ∙ (ap (λ (i : ℕ). i + length more) (cur_seq-Represents j history r)
          ∙ sym (length-append history more)) in
    query-sorted_set k (history ++ more) (current_token (torn j after)) s same
      (unfold open_torn in h) range (omega (arith, ahead, s.base_le)) (omega (arith, ahead))
    ∙ ap (λ ps. changes (current_token k) (sorted_set ps))
        (drop-length (cur_seq (torn j after)) (history ++ more) (omega (arith, ahead)))

-- The journal as it opens when the sidecar is missing.
abbrev pub without_base : ChangeJournal → ChangeJournal
without_base j =
    open_journal j.workspace j.epoch j.generation (record (j.disk) { base_text = none })

without_base-Represents : (j : ChangeJournal) → IsDurable j → Represents (without_base j) j.paths
unfolding open_journal read_base
without_base-Represents j d = record {
  base_le = omega arith;
  window = ap read_log d.log ∙ read_log-serialize j.paths d.records;
}

same_without : (j : ChangeJournal) (t : Token) → SameJournal j t → SameJournal (without_base j) t
unfolding open_journal
same_without j t s = record { workspace = s.workspace; epoch = s.epoch; generation = s.generation }

-- For a durable journal whose sidecar is then missing, a token of its identity with a sequence
-- number not past the length of the window, whose workspace has no colon and whose numbers are
-- below 2^64, is answered with what lies behind that position of the window, whatever was pruned
-- before.
pub base_lost_misses :
    (j : ChangeJournal) (t : Token)
    → IsDurable j
    → SameJournal j t
    → has_byte Token.colon t.workspace ≡ false
    → InRange t
    → t.seq ≤ length j.paths
    → query (without_base j) (Token.encode t)
      ≡ changes (current_token (without_base j)) (sorted_set (drop t.seq j.paths))
base_lost_misses j t d same h range le =
    query-sorted_set (without_base j) j.paths t (without_base-Represents j d)
      (same_without j t same) h range (unfold open_journal read_base in omega arith) le
