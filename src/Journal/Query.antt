-- ===== src/Journal/Query.antt =====
-- `query` of crates/worktree/src/journal.rs and the wire form of its answers.
pub mod Window
pub mod Sorted
use git_lazy_mount.Prelude.{
  ℕ, ◌-◌, Bool, true, false, ◌&&◌, ◌||◌, Option, none, some, List, [], ◌∷◌, ◌++◌, Bytes, codes,
  bytes_eq, ltb, not, drop, is_empty, if◌then◌else◌, ◌==◌,
}
use git_lazy_mount.Journal.Token
use git_lazy_mount.Journal.Token.{Token}
use git_lazy_mount.Journal.Log.{ChangeJournal, cur_seq, token_at}

pub data Query : Type 0 where
  full_invalidation : Token → Query
  changes : Token → List Bytes → Query

-- `Ord` of `Vec<u8>`: lexicographic.
bytes_le : Bytes → Bytes → Bool
bytes_le [] bs = true
bytes_le (a ∷ as') [] = false
bytes_le (a ∷ as') (b ∷ bs) =
    let rest = bytes_le as' bs in if ltb a b then true else if a == b then rest else false

insert_sorted : Bytes → List Bytes → List Bytes
unfolding bytes_le
insert_sorted p [] = p ∷ []
insert_sorted p (q ∷ qs) =
    let rest = insert_sorted p qs in if bytes_le p q then p ∷ q ∷ qs else q ∷ rest

-- `sort`: any sort gives the same list, as equal paths are the same path.
sort : List Bytes → List Bytes
unfolding insert_sorted
sort [] = []
sort (p ∷ ps) = insert_sorted p (sort ps)

same_as_head : Bytes → List Bytes → Bool
same_as_head p [] = false
same_as_head p (q ∷ qs) = bytes_eq p q

-- `dedup`: of equal neighbours one is left.
dedup : List Bytes → List Bytes
unfolding same_as_head
dedup [] = []
dedup (p ∷ ps) = let rest = dedup ps in if same_as_head p rest then rest else p ∷ rest

unfoldable pub sorted_set : List Bytes → List Bytes
unfolding sort dedup
sorted_set ps = dedup (sort ps)

-- The answer for a token that parses.
unfoldable pub query_token : ChangeJournal → Token → Query
query_token j p =
    let cur = cur_seq j in
    let token = token_at j cur in
    if not (bytes_eq p.workspace j.workspace)
      || (not (p.epoch == j.epoch) || not (p.generation == j.generation))
    then full_invalidation token
    else if ltb cur p.seq || ltb p.seq j.base
    then full_invalidation token
    else changes token (sorted_set (drop (p.seq - j.base) j.paths))

or_invalid : ChangeJournal → Option Token → Query
unfolding query_token
or_invalid j none = full_invalidation (token_at j (cur_seq j))
or_invalid j (some p) = query_token j p

unfoldable pub query : ChangeJournal → Bytes → Query
unfolding or_invalid
query j prev =
    if is_empty prev
    then (if cur_seq j == 0
        then changes (token_at j (cur_seq j)) []
        else full_invalidation (token_at j (cur_seq j)))
    else or_invalid j (Token.parse prev)

terminated : List Bytes → Bytes
terminated [] = []
terminated (p ∷ ps) = p ++ (0 ∷ terminated ps)

-- `Query::encode`: the reply on the wire, each part with a NUL behind it.
unfoldable pub encode_reply : Query → Bytes
unfolding terminated
encode_reply (full_invalidation t) = terminated (Token.encode t ∷ codes "/" ∷ [])
encode_reply (changes t ps) = terminated (Token.encode t ∷ ps)
