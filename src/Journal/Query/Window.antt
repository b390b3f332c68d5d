-- ===== src/Journal/Query/Window.antt =====
-- The window of the journal against the whole history of recorded paths, and what `query` answers.
use git_lazy_mount.Prelude.{
  ℕ, zero, suc, ◌+◌, ◌-◌, ◌≤◌, ◌≡◌, refl, ap, sym, ◌∙◌, inl, inr, Bool, true, false, ◌&&◌, ◌||◌,
  not, some, List, [], ◌∷◌, ◌++◌, arith, Bytes, bytes_eq, bytes_eq_iff, bytes_eq_refl, elem, ltb,
  length, drop, drop-drop, drop-append, length-drop, length-append, is_empty, if◌then◌else◌, ◌==◌,
  Bool-cases, has_byte, elem-append,
}
use git_lazy_mount.Journal.Token
use git_lazy_mount.Journal.Token.{Token}
use git_lazy_mount.Journal.Token.RoundTrip.{InRange, parse-encode}
use git_lazy_mount.Journal.Log.{ChangeJournal, cur_seq, current_token}
use git_lazy_mount.Prelude.Lexicographic.{IsAscending}
use git_lazy_mount.Journal.Query.Sorted.{sorted_set-IsAscending}
use git_lazy_mount.Journal.Query.{
  Query, full_invalidation, changes, query, query_token, or_invalid, sorted_set, sort, dedup,
  insert_sorted, same_as_head,
}

elem-insert_sorted :
    (p q : Bytes) (ps : List Bytes) → elem p (insert_sorted q ps) ≡ (bytes_eq p q || elem p ps)
unfolding insert_sorted elem
elem-insert_sorted p q [] = refl
elem-insert_sorted p q (r ∷ ps) = ground (arith, elem-insert_sorted p q ps)

elem-sort : (p : Bytes) (ps : List Bytes) → elem p (sort ps) ≡ elem p ps
unfolding sort elem
elem-sort p [] = refl
elem-sort p (q ∷ ps) = ground (arith, elem-insert_sorted p q (sort ps), elem-sort p ps)

elem-head :
    (p q : Bytes) (ps : List Bytes)
    → same_as_head q ps ≡ true
    → bytes_eq p q ≡ true
    → elem p ps ≡ true
unfolding same_as_head elem
elem-head p q [] h k = ground arith
elem-head p q (r ∷ ps) h k =
    ground (arith, (bytes_eq_iff p q).0 k, (bytes_eq_iff q r).0 h, bytes_eq_refl r)

elem-dedup : (p : Bytes) (ps : List Bytes) → elem p (dedup ps) ≡ elem p ps
unfolding dedup elem
elem-dedup p [] = refl
elem-dedup p (q ∷ ps) = ground (arith, elem-dedup p ps, elem-head p q (dedup ps))

-- Sorting and removing duplicates loses no path and adds none.
pub elem-sorted_set : (p : Bytes) (ps : List Bytes) → elem p (sorted_set ps) ≡ elem p ps
unfolding sorted_set
elem-sorted_set p ps = elem-dedup p (sort ps) ∙ elem-sort p ps

-- `history` is every path ever recorded, oldest first; the window is what is left of it after the
-- `base` oldest are dropped.
pub record Represents (j : ChangeJournal) (history : List Bytes) : Type 0 where
  pub base_le : j.base ≤ length history
  pub window : j.paths ≡ drop j.base history

pub cur_seq-Represents :
    (j : ChangeJournal) (history : List Bytes) → Represents j history → cur_seq j ≡ length history
cur_seq-Represents j history r =
    omega (arith, ap length r.window, length-drop j.base history, r.base_le)

-- Git counts a path as changed if the answer names it, or is a full invalidation.
unfoldable pub reported : Bytes → Query → Bool
reported p (full_invalidation t) = true
reported p (changes t ps) = elem p ps

-- The token names this journal: workspace, epoch and generation.
pub record SameJournal (j : ChangeJournal) (t : Token) : Type 0 where
  pub workspace : t.workspace ≡ j.workspace
  pub epoch : t.epoch ≡ j.epoch
  pub generation : t.generation ≡ j.generation

query_token-placed :
    (j : ChangeJournal) (t : Token)
    → SameJournal j t
    → j.base ≤ t.seq
    → t.seq ≤ cur_seq j
    → query_token j t ≡ changes (current_token j) (sorted_set (drop (t.seq - j.base) j.paths))
unfolding query_token
query_token-placed j t same low high =
    ground
      (arith, same.epoch, same.generation, (bytes_eq_iff t.workspace j.workspace).1 same.workspace)

encode-nonempty : (t : Token) → is_empty (Token.encode t) ≡ false
unfolding Token.encode
encode-nonempty t = refl

pub query-encode :
    (j : ChangeJournal) (t : Token)
    → has_byte Token.colon t.workspace ≡ false
    → InRange t
    → query j (Token.encode t) ≡ query_token j t
unfolding query or_invalid
query-encode j t h r = rw (encode-nonempty t) (rw (parse-encode t h r))

rest_of_window :
    (j : ChangeJournal) (history : List Bytes) (n : ℕ)
    → Represents j history
    → j.base ≤ n
    → drop (n - j.base) j.paths ≡ drop n history
rest_of_window j history n r low =
    let e : j.base + (n - j.base) ≡ n = omega arith in
    ap (drop (n - j.base)) r.window
    ∙ (drop-drop (n - j.base) j.base history ∙ ap (λ (k : ℕ). drop k history) e)

-- A token of the journal inside the window is answered with what lies behind it.
pub query-sorted_set :
    (j : ChangeJournal) (history : List Bytes) (t : Token)
    → Represents j history
    → SameJournal j t
    → has_byte Token.colon t.workspace ≡ false
    → InRange t
    → j.base ≤ t.seq
    → t.seq ≤ length history
    → query j (Token.encode t) ≡ changes (current_token j) (sorted_set (drop t.seq history))
query-sorted_set j history t r same h range low high =
    query-encode j t h range
    ∙ (query_token-placed j t same low (omega (arith, cur_seq-Represents j history r))
        ∙ ap (λ ps. changes (current_token j) (sorted_set ps))
            (rest_of_window j history t.seq r low))

-- For a journal whose window represents a history, a token with the workspace, epoch and
-- generation of the journal, a workspace without colon, and numbers below 2^64, whose sequence
-- number lies between the base and the end of the history, is answered with the current token and
-- a list of paths. The list is strictly ascending in the order of bytes, so that no path is there
-- twice, and a path is in it exactly if it was recorded after the token.
pub query_exact :
    (j : ChangeJournal) (history : List Bytes) (t : Token) (p : Bytes)
    → Represents j history
    → SameJournal j t
    → has_byte Token.colon t.workspace ≡ false
    → InRange t
    → j.base ≤ t.seq
    → t.seq ≤ length history
    → (paths : List Bytes) × (query j (Token.encode t) ≡ changes (current_token j) paths)
      × IsAscending paths
      × (elem p paths ≡ elem p (drop t.seq history))
query_exact j history t p r same h range low high = (
  sorted_set (drop t.seq history),
  query-sorted_set j history t r same h range low high,
  sorted_set-IsAscending (drop t.seq history),
  elem-sorted_set p (drop t.seq history),
)

-- Anything that is no token of this journal, or lies before the window or in the future, is
-- answered by a full invalidation.
pub query_unplaced :
    (j : ChangeJournal) (t : Token)
    → (bytes_eq t.workspace j.workspace
        && ((t.epoch == j.epoch)
            && ((t.generation == j.generation)
                && (not (ltb t.seq j.base) && not (ltb (cur_seq j) t.seq)))))
      ≡ false
    → query_token j t ≡ full_invalidation (current_token j)
unfolding query_token
query_unplaced j t h = ground arith

query_token-inclusive :
    (j : ChangeJournal) (history : List Bytes) (t : Token) (p : Bytes)
    → Represents j history
    → t.seq ≤ length history
    → elem p (drop t.seq history) ≡ true
    → reported p (query_token j t) ≡ true
unfolding query_token reported
query_token-inclusive j history t p r le m = grind (
  arith,
  elem-sorted_set p (drop (t.seq - j.base) j.paths),
  rest_of_window j history t.seq r,
  cur_seq-Represents j history r,
)

elem-drop : (q : Bytes) (n : ℕ) (xs : List Bytes) → elem q (drop n xs) ≡ true → elem q xs ≡ true
unfolding elem
elem-drop q zero xs h = h
elem-drop q (suc n) [] h = h
elem-drop q (suc n) (x ∷ xs) h = ground (arith, elem-drop q n xs)

le_of_not_ltb : (a b : ℕ) → ltb a b ≡ false → b ≤ a
le_of_not_ltb a b h = ground arith

later_in_window :
    (q : Bytes) (xs tail : List Bytes) (n m : ℕ)
    → n ≤ m
    → n ≤ length xs
    → elem q (drop m xs) ≡ true
    → elem q (drop n (xs ++ tail)) ≡ true
later_in_window q xs tail n m le fits h =
    let e : n + (m - n) ≡ m = omega arith in
    let k : elem q (drop (m - n) (drop n xs)) ≡ true =
      ap (elem q) (drop-drop (m - n) n xs ∙ ap (λ (i : ℕ). drop i xs) e) ∙ h in
    let f = elem-drop q (m - n) (drop n xs) k in
    ap (elem q) (drop-append n xs tail fits)
    ∙ (elem-append q (drop n xs) tail ∙ ap (λ b. b || elem q tail) f)

-- A window that starts earlier than its base says, and goes on longer than the history, reports
-- too much, never too little.
pub wider_window :
    (j : ChangeJournal) (history tail : List Bytes) (floor : ℕ) (t : Token) (q : Bytes)
    → floor ≤ j.base
    → floor ≤ length history
    → j.paths ≡ drop floor history ++ tail
    → t.seq ≤ length history
    → elem q (drop t.seq history) ≡ true
    → reported q (query_token j t) ≡ true
unfolding query_token reported
wider_window j history tail floor t q low fits w le m = elim (Bool-cases (ltb t.seq j.base)) [
  | inl e ↦ ground arith
  | inr e ↦
      let at : floor + (t.seq - floor) ≡ t.seq = omega (arith, le_of_not_ltb t.seq j.base e) in
      let later : elem q (drop (t.seq - floor) (drop floor history)) ≡ true =
        ap (elem q) (drop-drop (t.seq - floor) floor history ∙ ap (λ (i : ℕ). drop i history) at)
        ∙ m in
      let inside : elem q (drop (t.seq - j.base) j.paths) ≡ true =
        ap (λ ps. elem q (drop (t.seq - j.base) ps)) w
        ∙ later_in_window q (drop floor history) tail (t.seq - j.base) (t.seq - floor) (omega arith)
            (omega (arith, length-drop floor history)) later in
      let high : t.seq ≤ j.base + length j.paths = omega (
        arith,
        ap length w,
        length-append {0} (drop floor history) tail,
        length-drop floor history,
      ) in
      ground (arith, elem-sorted_set q (drop (t.seq - j.base) j.paths))
]

-- For a journal whose window represents a history of recorded paths, a query with any text that
-- parses to a token whose sequence number is not past the history, of this journal or another,
-- reports every path recorded after the token: by name, or by a full invalidation.
pub query_inclusive :
    (j : ChangeJournal) (history : List Bytes) (prev : Bytes) (t : Token) (p : Bytes)
    → Represents j history
    → is_empty prev ≡ false
    → Token.parse prev ≡ some t
    → t.seq ≤ length history
    → elem p (drop t.seq history) ≡ true
    → reported p (query j prev) ≡ true
unfolding query or_invalid
query_inclusive j history prev t p r n e le m =
    rw n (rw e (query_token-inclusive j history t p r le m))

-- For a journal whose window represents a history, an empty token is answered by no changes if the
-- history is empty, and by a full invalidation otherwise.
pub query_bootstrap :
    (j : ChangeJournal) (history : List Bytes)
    → Represents j history
    → query j [] ≡ (
        if length history == 0
        then changes (current_token j) []
        else full_invalidation (current_token j))
unfolding query
query_bootstrap j history r = rw (sym (cur_seq-Represents j history r))
