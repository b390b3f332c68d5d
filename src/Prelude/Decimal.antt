-- ===== src/Prelude/Decimal.antt =====
-- `u64::to_string` and `str::parse::<u64>()` of the standard library.
use git_lazy_mount.Prelude.{
  ℕ, zero, suc, ◌+◌, ◌-◌, ◌*◌, ◌/◌, ◌%◌, ◌^◌, ◌<◌, ◌≡◌, refl, ap, ◌∙◌, Bool, true, false, ◌&&◌,
  Option, none, some, [], ◌∷◌, ◌++◌, arith, Bytes, ltb, leb, ◌==◌, if◌then◌else◌, has_byte,
  has_byte-append, is_empty, All, All-append, All, All-append, inl, inr, Bool-cases,
}
use native.Mathlib.Nat.{pow-suc}

abbrev pub u64_limit : ℕ
u64_limit = 2 ^ 64

-- The decimal digits of a number below `10 ^ suc fuel`, without leading zeros.
digits : ℕ → ℕ → Bytes
digits zero n = (b'0' + n % 10) ∷ []
digits (suc fuel) n =
    let high = digits fuel (n / 10) in
    if ltb n 10 then (b'0' + n) ∷ [] else high ++ (b'0' + n % 10) ∷ []

-- Twenty digits are enough for a `u64`.
unfoldable pub to_string : ℕ → Bytes
unfolding digits
to_string n = digits 19 n

unfoldable pub is_digit : ℕ → Bool
is_digit c = leb b'0' c && leb c b'9'

-- One more digit, with the overflow check.
step : Option ℕ → ℕ → Option ℕ
unfolding is_digit
step none c = none
step (some n) c =
    if is_digit c
    then (if ltb (n * 10 + (c - b'0')) u64_limit then some (n * 10 + (c - b'0')) else none)
    else none

scan : Option ℕ → Bytes → Option ℕ
scan acc [] = acc
scan acc (c ∷ cs) = scan (step acc c) cs

-- A leading `+` is accepted; an empty number is not.
unfoldable pub parse_u64 : Bytes → Option ℕ
unfolding scan step
parse_u64 [] = none
parse_u64 (c ∷ []) = scan (some 0) (c ∷ [])
parse_u64 (c ∷ d ∷ cs) = if c == b'+' then scan (some 0) (d ∷ cs) else scan (some 0) (c ∷ d ∷ cs)

scan-append : (acc : Option ℕ) (xs ys : Bytes) → scan acc (xs ++ ys) ≡ scan (scan acc xs) ys
unfolding scan
scan-append acc [] ys = refl
scan-append acc (x ∷ xs) ys = scan-append (step acc x) xs ys

last_digit : (n : ℕ) → n < u64_limit → step (some (n / 10)) (b'0' + n % 10) ≡ some n
unfolding step is_digit
last_digit n h = ground arith

tenth_below : (fuel n : ℕ) → n < 10 ^ suc (suc fuel) → n / 10 < 10 ^ suc fuel
tenth_below fuel n h = let k : n < 10 ^ suc fuel * 10 = rw pow-suc at h in omega arith

scan-digits :
    (fuel n : ℕ) → n < 10 ^ suc fuel → n < u64_limit → scan (some 0) (digits fuel n) ≡ some n
unfolding digits
scan-digits zero n h k =
    unfold scan in
    let e : n / 10 ≡ 0 = omega arith in
    ap (λ t. step (some t) (b'0' + n % 10)) (omega (arith, e)) ∙ last_digit n k
scan-digits (suc fuel) n h k = elim (Bool-cases (ltb n 10)) [
  | inl e ↦ rw e (unfold scan step is_digit in ground arith)
  | inr e ↦ rw e (
      rw scan-append (
        rw (scan-digits fuel (n / 10) (tenth_below fuel n h) (omega arith))
          (unfold scan in last_digit n k)))
]

not_a_digit : (c d : ℕ) → is_digit c ≡ false → d < 10 → (c == (b'0' + d)) ≡ false
unfolding is_digit
not_a_digit c d h k = ground arith

digits-lacks : (c fuel n : ℕ) → is_digit c ≡ false → has_byte c (digits fuel n) ≡ false
unfolding digits has_byte
digits-lacks c zero n h = rw (not_a_digit c (n % 10) h (omega arith))
digits-lacks c (suc fuel) n h = elim (Bool-cases (ltb n 10)) [
  | inl e ↦ rw e (rw (not_a_digit c n h (ground arith)))
  | inr e ↦ rw e (
      rw (has_byte-append c (digits fuel (n / 10)) ((b'0' + n % 10) ∷ []))
        (rw (digits-lacks c fuel (n / 10) h, not_a_digit c (n % 10) h (omega arith))))
]

-- No separator stands in a printed number.
pub to_string-lacks : (c n : ℕ) → is_digit c ≡ false → has_byte c (to_string n) ≡ false
unfolding to_string
to_string-lacks c n h = digits-lacks c 19 n h

parse_u64-scan :
    (bs : Bytes) → is_empty bs ≡ false → has_byte b'+' bs ≡ false → parse_u64 bs ≡ scan (some 0) bs
unfolding parse_u64 has_byte
parse_u64-scan [] n h = ground arith
parse_u64-scan (c ∷ []) n h = refl
parse_u64-scan (c ∷ d ∷ cs) n h = ground arith

digits-nonempty : (fuel n : ℕ) → is_empty (digits fuel n) ≡ false
unfolding digits
digits-nonempty zero n = refl
digits-nonempty (suc fuel) n = elim (Bool-cases (ltb n 10)) [
  | inl e ↦ rw e
  | inr e ↦ rw e (append-nonempty (digits fuel (n / 10)))
]
  where
    append-nonempty : (bs : Bytes) → is_empty (bs ++ (b'0' + n % 10) ∷ []) ≡ false
    append-nonempty [] = refl
    append-nonempty (b ∷ bs) = refl

-- A printed `u64` parses to itself.
pub parse_u64-to_string : (n : ℕ) → n < u64_limit → parse_u64 (to_string n) ≡ some n
unfolding to_string
parse_u64-to_string n h =
    parse_u64-scan (digits 19 n) (digits-nonempty 19 n)
      (unfold is_digit in digits-lacks b'+' 19 n refl)
    ∙ scan-digits 19 n (omega arith) h

digits-IsDigit : (fuel n : ℕ) → All (λ c. is_digit c ≡ true) (digits fuel n)
unfolding digits is_digit
digits-IsDigit zero n = (ground arith, tt)
digits-IsDigit (suc fuel) n = elim (Bool-cases (ltb n 10)) [
  | inl e ↦ rw e (ground arith, tt)
  | inr e ↦ rw e (
      All-append (λ c. is_digit c ≡ true) (digits fuel (n / 10)) ((b'0' + n % 10) ∷ [])
        (digits-IsDigit fuel (n / 10)) (ground arith, tt))
]

pub to_string-IsDigit : (n : ℕ) → All (λ c. is_digit c ≡ true) (to_string n)
unfolding to_string
to_string-IsDigit n = digits-IsDigit 19 n
