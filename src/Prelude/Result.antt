-- ===== src/Prelude/Result.antt =====
-- Rust's `Result`: `?` as bind, and `map_err`.
use mathlib.Core.Path.{◌≡◌, refl}
use native.Mathlib.Omega.{arith}

pub data Result {ℓ κ} (Error : Type ℓ) (Value : Type κ) : Type (ℓ ⊔ κ) where
  ok : Value → Result Error Value
  err : Error → Result Error Value

-- `and_then`, which `?` is with what follows it.
abbrev pub and_then {ℓ κ μ} :
    {Error : Type ℓ} {V : Type κ} {W : Type μ}
    → Result Error V
    → (V → Result Error W)
    → Result Error W
and_then (err fault) next = err fault
and_then (ok value) next = next value

infixl 5 ◌>>=◌ ◌>>◌
abbrev pub ◌>>=◌ {ℓ κ μ} :
    {Error : Type ℓ} {V : Type κ} {W : Type μ}
    → Result Error V
    → (V → Result Error W)
    → Result Error W
first >>= next = and_then first next

abbrev pub ◌>>◌ {ℓ κ μ} :
    {Error : Type ℓ} {V : Type κ} {W : Type μ} → Result Error V → Result Error W → Result Error W
first >> second = and_then first (λ value. second)

-- `map_err`.
abbrev pub relabel {ℓ κ μ} :
    {E : Type ℓ} {F : Type κ} {A : Type μ} → (E → F) → Result E A → Result F A
relabel label (ok value) = ok value
relabel label (err fault) = err (label fault)

-- What is known once `?` has passed.
pub and_then-eq-ok {ℓ κ μ} :
    {Error : Type ℓ} {V : Type κ} {W : Type μ} (first : Result Error V) (next : V → Result Error W)
    {last : W}
    → and_then first next ≡ ok last
    → (value : V) × (first ≡ ok value) × (next value ≡ ok last)
and_then-eq-ok (err fault) next h = ground arith
and_then-eq-ok (ok value) next h = (value, refl, h)
