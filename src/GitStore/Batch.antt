-- ===== src/GitStore/Batch.antt =====
-- crates/git-store/src/batch.rs: a session with `git cat-file --batch-command`, by what it has put
-- out and is not read yet. Headers are ASCII, so that they are strings as they are.
pub mod Replies
use git_lazy_mount.Prelude.{
  ℕ, ◌+◌, Bool, true, false, not, ◌||◌, Option, none, some, List, [], ◌∷◌, ◌++◌, Bytes, codes,
  bytes_eq, split, length, take, drop, leb, ltb, ◌==◌, if◌then◌else◌, is_empty,
}
use git_lazy_mount.Prelude.Decimal.{parse_u64}
use git_lazy_mount.Prelude.Result.{Result, ok, err}

pub record ObjectInfo : Type 0 where
  pub kind : Bytes
  pub size : ℕ

pub record Session : Type 0 where
  pub unread : Bytes
  pub alive : Bool

pub data Fault : Type 0 where
  dead write_failed read_failed terminated bad_header bad_size short_body : Fault

-- What the operating system does in a read: whether a session can be spawned, and whether the pipes
-- take the request and give the header.
pub record Luck : Type 0 where
  pub spawns : Bool
  pub writes : Bool
  pub reads : Bool

unfoldable pub spawn : Session
spawn = record { unread = []; alive = true }

-- A request that is written and flushed is answered by Git. What a write that fails has brought to
-- Git is left open: the caller drops the session.
send : (Bytes → Bytes) → Bool → Bytes → Session → Result Fault Session
send git writes line s =
    if not s.alive
    then err dead
    else if writes
    then ok (record s { unread = s.unread ++ git line })
    else err write_failed

-- `read_until(b'\n')`: the line with its end, and the rest.
read_until : Bytes → Bytes × Bytes
read_until [] = ([], [])
read_until (c ∷ cs) =
    let (line, rest) = read_until cs in if c == 10 then (c ∷ [], cs) else (c ∷ line, rest)

keep_end : ℕ → Bytes → Bytes
keep_end c [] = if c == 10 || c == 13 then [] else c ∷ []
keep_end c (d ∷ ds) = c ∷ d ∷ ds

-- Line ends are popped off.
strip_eol : Bytes → Bytes
unfolding keep_end
strip_eol [] = []
strip_eol (c ∷ cs) = keep_end c (strip_eol cs)

of_line : Bytes × Bytes → Session → Result Fault Bytes × Session
unfolding strip_eol
of_line ([], rest) s = (err terminated, record s { alive = false })
of_line (c ∷ cs, rest) s = (ok (strip_eol (c ∷ cs)), record s { unread = rest })

read_header : Bool → Session → Result Fault Bytes × Session
unfolding of_line read_until
read_header reads s = if reads then of_line (read_until s.unread) s else (err read_failed, s)

sized : Bytes → Option ℕ → Result Fault (Option ObjectInfo)
sized kind none = err bad_size
sized kind (some n) = ok (some (record { kind = kind; size = n }))

abbrev first : List Bytes → Option ℕ
first [] = none
first (p ∷ ps) = parse_u64 p

of_parts : List Bytes → Result Fault (Option ObjectInfo)
unfolding sized
of_parts (oid ∷ kind ∷ rest) =
    if bytes_eq kind (codes "missing") then ok none else sized kind (first rest)
of_parts _ = err bad_header

unfoldable pub parse_info_header : Bytes → Result Fault (Option ObjectInfo)
unfolding of_parts
parse_info_header header = of_parts (split b' ' header)

header_info : Result Fault Bytes × Session → Result Fault (Option ObjectInfo) × Session
header_info (ok header, s) = (parse_info_header header, s)
header_info (err e, s) = (err e, s)

asked : Bool → Result Fault Session → Session → Result Fault (Option ObjectInfo) × Session
unfolding header_info read_header
asked reads (ok t) s = header_info (read_header reads t)
asked reads (err e) s = (err e, s)

unfoldable pub info :
    (Bytes → Bytes) → Luck → Bytes → Session → Result Fault (Option ObjectInfo) × Session
unfolding asked send
info git luck hex s = asked luck.reads (send git luck.writes (codes "info " ++ hex) s) s

-- The body, and the line end behind it, whose reading may fail.
body :
    Result Fault (Option ObjectInfo) × Session
    → Result Fault (Option (ObjectInfo × Bytes)) × Session
body (ok (some i), s) =
    if ltb (length s.unread) i.size
    then (err short_body, record s { unread = [] })
    else (ok (some (i, take i.size s.unread)), record s { unread = drop (i.size + 1) s.unread })
body (ok none, s) = (ok none, s)
body (err e, s) = (err e, s)

unfoldable pub contents :
    (Bytes → Bytes) → Luck → Bytes → Session → Result Fault (Option (ObjectInfo × Bytes)) × Session
unfolding body asked send
contents git luck hex s =
    body (asked luck.reads (send git luck.writes (codes "contents " ++ hex) s) s)
