-- ===== src/Prelude/Lexicographic.antt =====
-- The lexicographic order of byte strings, apart from any code that compares them.
use Prim.Native.Nat.{◌<◌}
use mathlib.Core.Path.{◌≡◌}
use mathlib.Core.Logic.{◌⊎◌}
use mathlib.Core.List.{List, [], ◌∷◌}
use git_lazy_mount.Prelude.Tests.{Bytes}

-- A proper prefix comes first; else the first byte that differs decides.
abbrev pub Before : Bytes → Bytes → Type 0
Before [] [] = ⊥
Before [] (b ∷ bs) = Unit
Before (a ∷ as') [] = ⊥
Before (a ∷ as') (b ∷ bs) = (a < b) ⊎ ((a ≡ b) × Before as' bs)

-- Each before the next, so that none is there twice.
abbrev pub Precedes : Bytes → List Bytes → Type 0
Precedes p [] = Unit
Precedes p (q ∷ qs) = Before p q

abbrev pub IsAscending : List Bytes → Type 0
IsAscending [] = Unit
IsAscending (p ∷ ps) = Precedes p ps × IsAscending ps

abbrev pub NotAfter : Bytes → Bytes → Type 0
NotAfter a b = (a ≡ b) ⊎ Before a b
