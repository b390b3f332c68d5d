-- ===== src/Prelude/Split.antt =====
-- `slice.split(|b| b == sep)` of the standard library, and the inverse `join`.
use Prim.Native.Nat.{ℕ}
use mathlib.Core.Path.{◌≡◌, refl, ap, sym, ◌∙◌}
use mathlib.Core.List.{List, [], ◌∷◌, ◌++◌, append_assoc}
use mathlib.Core.Logic.{inl, inr}
use mathlib.Core.Bool.{Bool, true, false}
use native.Mathlib.Omega.{arith}
use git_lazy_mount.Prelude.Tests.{Bytes, ◌==◌, if◌then◌else◌, ==_refl, ==_iff, Bool-cases}
use git_lazy_mount.Prelude.Lists.{has_byte, All}

abbrev cons_head : ℕ → List Bytes → List Bytes
cons_head b [] = (b ∷ []) ∷ []
cons_head b (p ∷ ps) = (b ∷ p) ∷ ps

-- There is always a first piece, empty or not.
unfoldable pub split : ℕ → Bytes → List Bytes
split sep [] = [] ∷ []
split sep (b ∷ bs) = let rest = split sep bs in if b == sep then [] ∷ rest else cons_head b rest

abbrev pub is_empty : Bytes → Bool
is_empty [] = true
is_empty (b ∷ bs) = false

-- `filter(|p| !p.is_empty())`.
unfoldable pub non_empty : List Bytes → List Bytes
non_empty [] = []
non_empty (p ∷ ps) = let rest = non_empty ps in if is_empty p then rest else p ∷ rest

-- A piece without the separator, then a separator, then a rest.
pub split-piece :
    (sep : ℕ) (p bs : Bytes) → has_byte sep p ≡ false → split sep (p ++ sep ∷ bs) ≡ p ∷ split sep bs
unfolding split has_byte
split-piece sep [] bs h = ground arith
split-piece sep (b ∷ p) bs h = ground (arith, split-piece sep p bs)

pub split-last : (sep : ℕ) (p : Bytes) → has_byte sep p ≡ false → split sep p ≡ p ∷ []
unfolding split has_byte
split-last sep [] h = refl
split-last sep (b ∷ p) h = ground (arith, split-last sep p)

abbrev pub Lacks : ℕ → Bytes → Type 0
Lacks c p = has_byte c p ≡ false

All-cons_head :
    (c b : ℕ) (ps : List Bytes)
    → (c == b) ≡ false
    → All (Lacks c) ps
    → All (Lacks c) (cons_head b ps)
unfolding has_byte
All-cons_head c b [] h k = ground arith
All-cons_head c b (p ∷ ps) h k = (ground arith, k.1)

-- No piece holds the separator.
pub split-Lacks_sep : (sep : ℕ) (bs : Bytes) → All (Lacks sep) (split sep bs)
unfolding split has_byte
split-Lacks_sep sep [] = (refl, tt)
split-Lacks_sep sep (b ∷ bs) = elim (Bool-cases (b == sep)) [
  | inl h ↦ rw h (refl, split-Lacks_sep sep bs)
  | inr h ↦ rw h (All-cons_head sep b (split sep bs) (ground arith) (split-Lacks_sep sep bs))
]

-- A byte that is missing from the whole is missing from every piece.
pub split-Lacks : (sep c : ℕ) (bs : Bytes) → has_byte c bs ≡ false → All (Lacks c) (split sep bs)
unfolding split has_byte
split-Lacks sep c [] h = (refl, tt)
split-Lacks sep c (b ∷ bs) h = elim (Bool-cases (b == sep)) [
  | inl e ↦ rw e (refl, split-Lacks sep c bs (ground arith))
  | inr e ↦
      rw e (All-cons_head c b (split sep bs) (ground arith) (split-Lacks sep c bs (ground arith)))
]

-- `pieces.join(sep)`.
unfoldable pub intercalate : ℕ → List Bytes → Bytes
intercalate sep [] = []
intercalate sep (p ∷ []) = p
intercalate sep (p ∷ q ∷ ps) = p ++ (sep ∷ intercalate sep (q ∷ ps))

intercalate-cons_head :
    (sep b : ℕ) (ps : List Bytes) → intercalate sep (cons_head b ps) ≡ b ∷ intercalate sep ps
unfolding intercalate
intercalate-cons_head sep b [] = refl
intercalate-cons_head sep b (p ∷ []) = refl
intercalate-cons_head sep b (p ∷ q ∷ ps) = refl

pub split-cons : (sep : ℕ) (bs : Bytes) → (p : Bytes) × (ps : List Bytes) × (split sep bs ≡ p ∷ ps)
unfolding split
split-cons sep [] = ([], [], refl)
split-cons sep (b ∷ bs) =
    let (p, ps, e) = split-cons sep bs in
    elim (Bool-cases (b == sep)) [
      | inl h ↦ ([], split sep bs, rw h)
      | inr h ↦ (b ∷ p, ps, rw (h, e))
    ]

intercalate-nil_cons :
    (sep : ℕ) (bs : Bytes)
    → intercalate sep ([] ∷ split sep bs) ≡ sep ∷ intercalate sep (split sep bs)
unfolding intercalate
intercalate-nil_cons sep bs = let (p, ps, e) = split-cons sep bs in rw e

-- Joining what was split gives it back.
pub intercalate-split : (sep : ℕ) (bs : Bytes) → intercalate sep (split sep bs) ≡ bs
unfolding split
intercalate-split sep [] = unfold intercalate in refl
intercalate-split sep (b ∷ bs) = elim (Bool-cases (b == sep)) [
  | inl h ↦ rw h (
      intercalate-nil_cons sep bs
      ∙ (ap (λ t. sep ∷ t) (intercalate-split sep bs)
          ∙ ap (λ t. t ∷ bs) (sym ((==_iff b sep).0 h))))
  | inr h ↦
      rw h (intercalate-cons_head sep b (split sep bs) ∙ ap (λ t. b ∷ t) (intercalate-split sep bs))
]

split-append_cons :
    (b : ℕ) (ps qs : List Bytes) (p : Bytes)
    → cons_head b ((p ∷ ps) ++ qs) ≡ cons_head b (p ∷ ps) ++ qs
split-append_cons b ps qs p = refl

-- Splitting at a separator in the middle.
pub split-append_sep :
    (sep : ℕ) (as' bs : Bytes) → split sep (as' ++ sep ∷ bs) ≡ split sep as' ++ split sep bs
unfolding split
split-append_sep sep [] bs = ground (arith, ==_refl sep)
split-append_sep sep (a ∷ as') bs =
    let (p, ps, e) = split-cons sep as' in
    let ih = split-append_sep sep as' bs in
    elim (Bool-cases (a == sep)) [ inl h ↦ rw h (ap (λ t. [] ∷ t) ih) | inr h ↦ rw (h, ih, e) ]

-- Joining a list of pieces in two parts, neither empty.
pub intercalate-append :
    (sep : ℕ) (p q : Bytes) (ps qs : List Bytes)
    → intercalate sep ((p ∷ ps) ++ (q ∷ qs))
      ≡ intercalate sep (p ∷ ps) ++ (sep ∷ intercalate sep (q ∷ qs))
unfolding intercalate
intercalate-append sep p q [] qs = refl
intercalate-append sep p q (r ∷ ps) qs =
    ap (λ t. p ++ (sep ∷ t)) (intercalate-append sep r q ps qs)
    ∙ sym (append_assoc p (sep ∷ intercalate sep (r ∷ ps)) (sep ∷ intercalate sep (q ∷ qs)))
