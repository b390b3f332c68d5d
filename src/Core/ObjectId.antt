-- ===== src/Core/ObjectId.antt =====
-- crates/core/src/object_id.rs: object ids, tagged with the repository's object format. The codec
-- of the `hex` crate is a parameter.
use git_lazy_mount.Prelude.Map.{Key}
use git_lazy_mount.Prelude.{
  ℕ, ◌≡◌, refl, ap, sym, ◌↔◌, bytes_eq_iff, subst, Bool, true, false, not, ◌&&◌, Option, none, some,
  [], ◌∷◌, arith, Bytes, codes, bytes_eq, is_empty, length, zero, suc, ◌==◌, if◌then◌else◌,
}
use git_lazy_mount.Prelude.Result.{Result, ok, err}
use git_lazy_mount.Prelude.Trim.{trim}

pub data ObjectFormat : Type 0 where
  sha1 sha256 : ObjectFormat
  other : Bytes → ObjectFormat

-- `ObjectFormat::parse`.
unfoldable pub parse_format : Bytes → ObjectFormat
parse_format name =
    if bytes_eq (trim name) (codes "sha1")
    then sha1
    else if bytes_eq (trim name) (codes "sha256")
    then sha256
    else other (trim name)

unfoldable pub name : ObjectFormat → Bytes
name sha1 = codes "sha1"
name sha256 = codes "sha256"
name (other s) = s

abbrev pub raw_len : ObjectFormat → Option ℕ
raw_len sha1 = some 20
raw_len sha256 = some 32
raw_len (other s) = none

pub record ObjectId : Type 0 where
  pub format : ObjectFormat
  pub bytes : Bytes

format_eq : ObjectFormat → ObjectFormat → Bool
format_eq sha1 sha1 = true
format_eq sha1 _ = false
format_eq sha256 sha256 = true
format_eq sha256 _ = false
format_eq (other s) (other t) = bytes_eq s t
format_eq (other s) _ = false

format_eq_iff : (a b : ObjectFormat) → (format_eq a b ≡ true) ↔ (a ≡ b)
unfolding format_eq
format_eq_iff sha1 sha1 = ground arith
format_eq_iff sha1 sha256 = ground arith
format_eq_iff sha1 (other t) = ground arith
format_eq_iff sha256 sha1 = ground arith
format_eq_iff sha256 sha256 = ground arith
format_eq_iff sha256 (other t) = ground arith
format_eq_iff (other s) sha1 = ground arith
format_eq_iff (other s) sha256 = ground arith
format_eq_iff (other s) (other t) = ground (arith, (bytes_eq_iff s t).0, (bytes_eq_iff s t).1)

-- The derived equality.
unfoldable pub id_eq : ObjectId → ObjectId → Bool
unfolding format_eq
id_eq a b = format_eq (a.format) (b.format) && bytes_eq (a.bytes) (b.bytes)

pub id_eq_iff : (a b : ObjectId) → (id_eq a b ≡ true) ↔ (a ≡ b)
unfolding id_eq
id_eq_iff a b = (
  λ h. cc (
    (format_eq_iff a.format b.format).0 (ground (arith, h)),
    (bytes_eq_iff a.bytes b.bytes).0 (ground (arith, h)),
  ),
  λ e. ground (
    arith,
    (format_eq_iff a.format b.format).1 (ap (λ (i : ObjectId). i.format) e),
    (bytes_eq_iff a.bytes b.bytes).1 (ap (λ (i : ObjectId). i.bytes) e),
  ),
)

instance abbrev pub id_key : Key ObjectId
id_key = record { equals = id_eq; equals_iff = id_eq_iff }

pub data ObjectIdParseError : Type 0 where
  not_hex empty : ObjectIdParseError
  wrong_length : ℕ → ℕ → ObjectIdParseError

-- The checks on the decoded bytes.
with_length : ObjectFormat → Option ℕ → Bytes → Result ObjectIdParseError ObjectId
with_length format none bs =
    if is_empty bs then err empty else ok (record { format = format; bytes = bs })
with_length format (some expected) bs =
    if not (length bs == expected)
    then err (wrong_length expected (length bs))
    else if is_empty bs
    then err empty
    else ok (record { format = format; bytes = bs })

decoded : ObjectFormat → Option Bytes → Result ObjectIdParseError ObjectId
unfolding with_length
decoded format none = err not_hex
decoded format (some bs) = with_length format (raw_len format) bs

all_zero : Bytes → Bool
all_zero [] = true
all_zero (b ∷ bs) = (b == 0) && all_zero bs

unfoldable pub is_null : ObjectId → Bool
unfolding all_zero
is_null oid = not (is_empty oid.bytes) && all_zero oid.bytes

unwrap_or : ℕ → Option ℕ → ℕ
unwrap_or d none = d
unwrap_or d (some n) = n

zeros : ℕ → Bytes
zeros zero = []
zeros (suc n) = 0 ∷ zeros n

unfoldable pub null : ObjectFormat → ObjectId
unfolding unwrap_or zeros
null format = record { format = format; bytes = zeros (unwrap_or 20 (raw_len format)) }

-- `trim` removes what is around the hexadecimal digits.
unfoldable pub parse_hex :
    (Bytes → Option Bytes) → ObjectFormat → Bytes → Result ObjectIdParseError ObjectId
unfolding decoded
parse_hex hex_decode format s = decoded format (hex_decode (trim s))

unfoldable pub to_hex : (Bytes → Bytes) → ObjectId → Bytes
to_hex hex_encode oid = hex_encode oid.bytes

-- The lengths of the digests; a format that is not known takes any but none.
abbrev pub HasLength : ObjectFormat → Bytes → Type 0
HasLength sha1 bs = length bs ≡ 20
HasLength sha256 bs = length bs ≡ 32
HasLength (other s) bs = is_empty bs ≡ false

-- An id of the format, with the bytes that are decoded.
abbrev pub IsRead : ObjectFormat → Option Bytes → ObjectId → Type 0
IsRead format o oid = (o ≡ some oid.bytes) × (oid.format ≡ format) × HasLength format oid.bytes

same_bytes : (a b : Bytes) → some a ≡ some b → a ≡ b
same_bytes a b e = ground (arith, e)

same_id :
    (f : ObjectFormat) (bs : Bytes) (oid : ObjectId)
    → some bs ≡ some oid.bytes
    → oid.format ≡ f
    → record { format = f; bytes = bs } ≡ oid
same_id f bs oid e g = cc (g, same_bytes bs oid.bytes e)

of_id :
    (f : ObjectFormat) (bs : Bytes) (oid : ObjectId)
    → record { format = f; bytes = bs } ≡ oid
    → (some bs ≡ some oid.bytes) × (oid.format ≡ f)
of_id f bs oid e = (ap (λ (x : ObjectId). some x.bytes) e, sym (ap (λ (x : ObjectId). x.format) e))

unknown_iff :
    (f : ObjectFormat) (bs : Bytes) (oid : ObjectId)
    → (with_length f none bs ≡ ok oid)
      ↔ ((some bs ≡ some oid.bytes) × (oid.format ≡ f) × (is_empty oid.bytes ≡ false))
unfolding with_length
unknown_iff f bs oid = (
  λ h.
      let e : record { format = f; bytes = bs } ≡ oid = ground (arith, h) in
      let (b, g) = of_id f bs oid e in (b, g, ground (arith, h, b)),
  λ r. ground (arith, same_id f bs oid r.0 r.1, r),
)

known_iff :
    (f : ObjectFormat) (n : ℕ) (bs : Bytes) (oid : ObjectId)
    → (with_length f (some (suc n)) bs ≡ ok oid)
      ↔ ((some bs ≡ some oid.bytes) × (oid.format ≡ f) × (length oid.bytes ≡ suc n))
unfolding with_length
known_iff f n bs oid = (
  λ h.
      let e : record { format = f; bytes = bs } ≡ oid = ground (arith, h) in
      let (b, g) = of_id f bs oid e in
      (b, g, subst (λ x. length x ≡ suc n) (same_bytes bs oid.bytes b) (ground (arith, h))),
  λ r.
      let l : length bs ≡ suc n =
        subst (λ x. length x ≡ suc n) (sym (same_bytes bs oid.bytes r.0)) r.2 in
      ground (arith, same_id f bs oid r.0 r.1, l, filled bs l),
)
  where
    filled : (xs : Bytes) → length xs ≡ suc n → is_empty xs ≡ false
    filled [] l = absurd (omega (arith, l))
    filled (x ∷ xs) l = refl

decoded_iff :
    (format : ObjectFormat) (o : Option Bytes) (oid : ObjectId)
    → (decoded format o ≡ ok oid) ↔ IsRead format o oid
unfolding decoded
decoded_iff format none oid = (λ h. absurd (ground (arith, h)), λ r. absurd (ground (arith, r.0)))
decoded_iff sha1 (some bs) oid = known_iff sha1 19 bs oid
decoded_iff sha256 (some bs) oid = known_iff sha256 31 bs oid
decoded_iff (other s) (some bs) oid = unknown_iff (other s) bs oid

-- Whatever the decoder, parse_hex accepts a text as an object id exactly if the decoder gives the
-- bytes of the id for the trimmed text, the id has the format asked for, and it has 20 bytes for
-- SHA-1, 32 for SHA-256, and at least one for any other format.
pub parse_hex_iff :
    (hex_decode : Bytes → Option Bytes) (format : ObjectFormat) (s : Bytes) (oid : ObjectId)
    → (parse_hex hex_decode format s ≡ ok oid) ↔ IsRead format (hex_decode (trim s)) oid
unfolding parse_hex
parse_hex_iff hex_decode format s oid = decoded_iff format (hex_decode (trim s)) oid
