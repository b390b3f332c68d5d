-- ===== src/Journal/Query/Sorted.antt =====
-- The paths of an answer are in ascending order.
use git_lazy_mount.Prelude.{
  ℕ, ◌<◌, ◌≡◌, refl, sym, subst, inl, inr, true, false, List, [], ◌∷◌, arith, Bytes, bytes_eq_iff,
  ltb, ◌==◌, ==_iff, Bool-cases,
}
use git_lazy_mount.Prelude.Lexicographic.{Before, Precedes, IsAscending, NotAfter}
use git_lazy_mount.Journal.Query.{bytes_le, insert_sorted, sort, same_as_head, dedup, sorted_set}

less_byte : (a b : ℕ) → ltb a b ≡ true → a < b
less_byte a b h = ground (arith, h)

other_byte : (a b : ℕ) → ltb a b ≡ false → (a == b) ≡ false → b < a
other_byte a b h k = ground (arith, h, k)

later : (a b : ℕ) (as' bs : Bytes) → a ≡ b → NotAfter as' bs → NotAfter (a ∷ as') (b ∷ bs)
later a b as' bs e (inl f) = inl (cc (e, f))
later a b as' bs e (inr f) = inr (inr (e, f))

-- What the comparison says of the order.
bytes_le-NotAfter : (p q : Bytes) → bytes_le p q ≡ true → NotAfter p q
unfolding bytes_le
bytes_le-NotAfter [] [] h = inl refl
bytes_le-NotAfter [] (b ∷ bs) h = inr tt
bytes_le-NotAfter (a ∷ as') [] h = absurd (ground (arith, h))
bytes_le-NotAfter (a ∷ as') (b ∷ bs) h = elim (Bool-cases (ltb a b)) [
  | inl e ↦ inr (inl (less_byte a b e))
  | inr e ↦ elim (Bool-cases (a == b)) [
    | inl f ↦
        later a b as' bs ((==_iff a b).0 f) (bytes_le-NotAfter as' bs (ground (arith, h, e, f)))
    | inr f ↦ absurd (ground (arith, h, e, f))
  ]
]

bytes_le-Before : (p q : Bytes) → bytes_le p q ≡ false → Before q p
unfolding bytes_le
bytes_le-Before [] qs h = absurd (ground (arith, h))
bytes_le-Before (a ∷ as') [] h = tt
bytes_le-Before (a ∷ as') (b ∷ bs) h = elim (Bool-cases (ltb a b)) [
  | inl e ↦ absurd (ground (arith, h, e))
  | inr e ↦ elim (Bool-cases (a == b)) [
    | inl f ↦ inr (sym ((==_iff a b).0 f), bytes_le-Before as' bs (ground (arith, h, e, f)))
    | inr f ↦ inl (other_byte a b e f)
  ]
]

-- Each path, and the head behind it, of which it may be a copy.
abbrev Under : Bytes → List Bytes → Type 0
Under p [] = Unit
Under p (q ∷ qs) = NotAfter p q

abbrev IsSorted : List Bytes → Type 0
IsSorted [] = Unit
IsSorted (p ∷ ps) = Under p ps × IsSorted ps

insert_sorted-Under :
    (p q : Bytes) (ps : List Bytes) → NotAfter p q → Under p ps → Under p (insert_sorted q ps)
unfolding insert_sorted
insert_sorted-Under p q [] h k = h
insert_sorted-Under p q (r ∷ ps) h k = elim (Bool-cases (bytes_le q r)) [
  | inl e ↦ rw e h
  | inr e ↦ rw e k
]

insert_sorted-IsSorted : (q : Bytes) (ps : List Bytes) → IsSorted ps → IsSorted (insert_sorted q ps)
unfolding insert_sorted
insert_sorted-IsSorted q [] s = (tt, tt)
insert_sorted-IsSorted q (r ∷ ps) s = elim (Bool-cases (bytes_le q r)) [
  | inl e ↦ rw e (bytes_le-NotAfter q r e, s)
  | inr e ↦ rw e (
    insert_sorted-Under r q ps (inr (bytes_le-Before q r e)) s.0,
    insert_sorted-IsSorted q ps s.1,
  )
]

sort-IsSorted : (ps : List Bytes) → IsSorted (sort ps)
unfolding sort
sort-IsSorted [] = tt
sort-IsSorted (p ∷ ps) = insert_sorted-IsSorted p (sort ps) (sort-IsSorted ps)

-- A copy may stand for the path in front of it.
copy-Under :
    (p q : Bytes) (rest : List Bytes) → same_as_head q rest ≡ true → NotAfter p q → Under p rest
unfolding same_as_head
copy-Under p q [] e h = tt
copy-Under p q (r ∷ rest) e h = subst (NotAfter p) ((bytes_eq_iff q r).0 e) h

dedup-Under : (p : Bytes) (ps : List Bytes) → Under p ps → Under p (dedup ps)
unfolding dedup
dedup-Under p [] h = tt
dedup-Under p (q ∷ ps) h = elim (Bool-cases (same_as_head q (dedup ps))) [
  | inl e ↦ rw e (copy-Under p q (dedup ps) e h)
  | inr e ↦ rw e h
]

-- A path whose copy is not the next comes before it.
strictly :
    (p : Bytes) (rest : List Bytes) → same_as_head p rest ≡ false → Under p rest → Precedes p rest
unfolding same_as_head
strictly p [] e h = tt
strictly p (q ∷ rest) e (inl f) = absurd (ground (arith, e, (bytes_eq_iff p q).1 f))
strictly p (q ∷ rest) e (inr f) = f

dedup-IsAscending : (ps : List Bytes) → IsSorted ps → IsAscending (dedup ps)
unfolding dedup
dedup-IsAscending [] s = tt
dedup-IsAscending (p ∷ ps) s = elim (Bool-cases (same_as_head p (dedup ps))) [
  | inl e ↦ rw e (dedup-IsAscending ps s.1)
  | inr e ↦ rw e (strictly p (dedup ps) e (dedup-Under p ps s.0), dedup-IsAscending ps s.1)
]

pub sorted_set-IsAscending : (ps : List Bytes) → IsAscending (sorted_set ps)
unfolding sorted_set
sorted_set-IsAscending ps = dedup-IsAscending (sort ps) (sort-IsSorted ps)
