-- ===== src/Core/RepoPath/Escape.antt =====
-- `escape` and `unescape` of crates/core/src/path.rs.
use git_lazy_mount.Prelude.{
  ℕ, ◌+◌, ◌*◌, ◌/◌, ◌%◌, ◌<◌, ◌≡◌, refl, ap, ◌∙◌, true, false, ◌&&◌, some, [], ◌∷◌, ◌++◌, arith,
  Bytes, All, All-append, ◌==◌, ltb, leb, Bool-cases, inl, inr,
}
use git_lazy_mount.Prelude.Result.{ok}
use git_lazy_mount.Core.RepoPath.{
  RepoPath, hex_digit, hex_val, hex_pair, push_byte, escape_byte, escape_bytes, escape,
  unescape_bytes, unescape,
}
use git_lazy_mount.Core.RepoPath.Validity.{IsValid, from_bytes-of_IsValid}

abbrev pub IsByte : ℕ → Type 0
IsByte b = b < 256

hex_val-digit : (d : ℕ) → d < 16 → hex_val (hex_digit d) ≡ some d
unfolding hex_val hex_digit
hex_val-digit d h = ground arith

-- A `%` and two more bytes.
unescape_hex :
    (c d : ℕ) (rest : Bytes)
    → unescape_bytes (b'%' ∷ c ∷ d ∷ rest)
      ≡ push_byte (hex_pair (hex_val c) (hex_val d)) (unescape_bytes rest)
unfolding unescape_bytes
unescape_hex c d rest = refl

-- A byte that is not `%`, whatever follows.
unescape_plain :
    (b : ℕ) (rest : Bytes)
    → (b == b'%') ≡ false
    → unescape_bytes (b ∷ rest) ≡ push_byte (some b) (unescape_bytes rest)
unfolding unescape_bytes
unescape_plain b [] h = ground arith
unescape_plain b (c ∷ []) h = ground arith
unescape_plain b (c ∷ d ∷ rest) h = rw h

divided : (b : ℕ) → b / 16 * 16 + b % 16 ≡ b
divided b = omega arith

unescape_byte :
    (b : ℕ) (rest : Bytes)
    → b < 256
    → unescape_bytes (escape_byte b ++ rest) ≡ push_byte (some b) (unescape_bytes rest)
unfolding escape_byte
unescape_byte b rest h = elim (Bool-cases (b == b'%')) [
  | inl e ↦ rw e (
      unescape_hex b'2' b'5' rest
      ∙ ap (λ t. push_byte t (unescape_bytes rest)) (unfold hex_val hex_pair in ground arith))
  | inr e ↦ rw e (elim (Bool-cases (leb 0x20 b && ltb b 0x7f)) [
    | inl f ↦ rw f (unescape_plain b rest e)
    | inr f ↦ rw f (
        unescape_hex (hex_digit (b / 16)) (hex_digit (b % 16)) rest
        ∙ ap (λ t. push_byte t (unescape_bytes rest))
            (rw (hex_val-digit (b / 16) (omega arith), hex_val-digit (b % 16) (omega arith))
              (unfold hex_pair in ap some (divided b))))
  ])
]

unescape_escaped : (bs : Bytes) → All IsByte bs → unescape_bytes (escape_bytes bs) ≡ ok bs
unfolding escape_bytes
unescape_escaped [] h = unfold unescape_bytes in refl
unescape_escaped (b ∷ bs) h =
    unescape_byte b (escape_bytes bs) h.0 ∙ rw (unescape_escaped bs h.1) (unfold push_byte in refl)

-- unescape gives a valid path of bytes below 256 back from what escape makes of it.
pub unescape-escape : (p : RepoPath) → IsValid p → All IsByte p.bytes → unescape (escape p) ≡ ok p
unfolding unescape escape
unescape-escape p v h = rw (unescape_escaped p.bytes h) (from_bytes-of_IsValid p v)

-- A printable ASCII byte.
abbrev pub IsPrintable : ℕ → Type 0
IsPrintable b = (leb 0x20 b && ltb b 0x7f) ≡ true

escape_byte-IsPrintable : (b : ℕ) → b < 256 → All IsPrintable (escape_byte b)
unfolding escape_byte hex_digit
escape_byte-IsPrintable b h = elim (Bool-cases (b == b'%')) [
  | inl e ↦ rw e (refl, (refl, (refl, tt)))
  | inr e ↦ rw e (elim (Bool-cases (leb 0x20 b && ltb b 0x7f)) [
    | inl f ↦ rw f (f, tt)
    | inr f ↦ rw f (refl, (ground arith, (ground arith, tt)))
  ])
]

-- What escape makes of a path of bytes below 256 consists of printable ASCII bytes.
pub escape-IsPrintable : (p : RepoPath) → All IsByte p.bytes → All IsPrintable (escape p)
unfolding escape
escape-IsPrintable p h = printable p.bytes h
  where
    printable : (bs : Bytes) → All IsByte bs → All IsPrintable (escape_bytes bs)
    printable [] k = unfold escape_bytes in tt
    printable (b ∷ bs) k =
        unfold escape_bytes in
        All-append IsPrintable (escape_byte b) (escape_bytes bs) (escape_byte-IsPrintable b k.0)
          (printable bs k.1)
