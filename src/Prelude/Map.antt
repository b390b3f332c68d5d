-- ===== src/Prelude/Map.antt =====
-- `HashMap` as an association list with one entry for a key. The iteration order of a `HashMap` is
-- unspecified; that of the list stands for any.
use Prim.Native.Nat.{ℕ}
use mathlib.Core.Path.{◌≡◌, refl}
use mathlib.Core.List.{List, [], ◌∷◌}
use mathlib.Core.Logic.{◌↔◌}
use mathlib.Core.Bool.{Bool, true}
use mathlib.Core.Option.{Option, none, some}
use native.Mathlib.Omega.{arith}
use git_lazy_mount.Prelude.Tests.{Bytes, bytes_eq, bytes_eq_iff, ◌==◌, ==_iff, if◌then◌else◌}

pub record Key {ℓ} (A : Type ℓ) : Type ℓ where
  pub equals : A → A → Bool
  pub equals_iff : (a b : A) → (equals a b ≡ true) ↔ (a ≡ b)

instance abbrev pub nat_eq : Key ℕ
nat_eq = record { equals = λ a b. a == b; equals_iff = ==_iff }

instance abbrev pub bytes_key : Key Bytes
bytes_key = record { equals = bytes_eq; equals_iff = bytes_eq_iff }

abbrev pub Map {ℓ κ} : Type ℓ → Type κ → Type (ℓ ⊔ κ)
Map K V = List (K × V)

pub equals_refl {ℓ} : {K : Type ℓ} ⦃e : Key K⦄ (k : K) → e.equals k k ≡ true
equals_refl ⦃e⦄ k = (e.equals_iff k k).1 refl

module _ {ℓ κ} {K : Type ℓ} {V : Type κ} ⦃e : Key K⦄ where
  unfoldable pub get : K → Map K V → Option V
  get k [] = none
  get k ((j, v) ∷ m) = if e.equals j k then some v else get k m

  unfoldable pub remove : K → Map K V → Map K V
  remove k [] = []
  remove k ((j, v) ∷ m) = let rest = remove k m in if e.equals j k then rest else (j, v) ∷ rest

  unfoldable pub insert : K → V → Map K V → Map K V
  insert k v m = (k, v) ∷ remove k m

  pub get-remove :
      (k j : K) (m : Map K V) → get j (remove k m) ≡ (if e.equals k j then none else get j m)
  unfolding get remove
  get-remove k j [] = ground arith
  get-remove k j ((i, v) ∷ m) =
      ground (arith, get-remove k j m, e.equals_iff i k, e.equals_iff i j, e.equals_iff k j)

  pub get-insert :
      (k j : K) (v : V) (m : Map K V)
      → get j (insert k v m) ≡ (if e.equals k j then some v else get j m)
  unfolding get insert
  get-insert k j v m = ground (arith, get-remove k j m)

  pub get-insert_self : (k : K) (v : V) (m : Map K V) → get k (insert k v m) ≡ some v
  get-insert_self k v m = ground (arith, get-insert k k v m, equals_refl k)
