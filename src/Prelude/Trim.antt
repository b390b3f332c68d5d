-- ===== src/Prelude/Trim.antt =====
-- `str::trim`.
use git_lazy_mount.Prelude.{
  ℕ, Bool, ◌||◌, ◌&&◌, [], ◌∷◌, Bytes, leb, ◌==◌, if◌then◌else◌, ◌≡◌, refl, false, All,
}

-- The whitespace that `str::trim` removes, of the ASCII characters.
unfoldable pub is_space : ℕ → Bool
is_space c = (c == b' ') || (leb 9 c && leb c 13)

unfoldable pub trim_start : Bytes → Bytes
unfolding is_space
trim_start [] = []
trim_start (c ∷ cs) = let rest = trim_start cs in if is_space c then rest else c ∷ cs

-- A byte in front of what is trimmed already.
unfoldable pub keep_before : ℕ → Bytes → Bytes
unfolding is_space
keep_before c [] = if is_space c then [] else c ∷ []
keep_before c (d ∷ ds) = c ∷ d ∷ ds

unfoldable pub trim_end : Bytes → Bytes
unfolding keep_before
trim_end [] = []
trim_end (c ∷ cs) = keep_before c (trim_end cs)

abbrev pub trim : Bytes → Bytes
trim text = trim_end (trim_start text)

abbrev pub NotSpace : ℕ → Type 0
NotSpace c = is_space c ≡ false

trim_start-NotSpace : (bs : Bytes) → All NotSpace bs → trim_start bs ≡ bs
unfolding trim_start
trim_start-NotSpace [] h = refl
trim_start-NotSpace (c ∷ bs) h = rw h.0

keep_before-NotSpace : (c : ℕ) (bs : Bytes) → NotSpace c → keep_before c bs ≡ c ∷ bs
unfolding keep_before
keep_before-NotSpace c [] h = rw h
keep_before-NotSpace c (d ∷ bs) h = refl

trim_end-NotSpace : (bs : Bytes) → All NotSpace bs → trim_end bs ≡ bs
unfolding trim_end
trim_end-NotSpace [] h = refl
trim_end-NotSpace (c ∷ bs) h = rw (trim_end-NotSpace bs h.1) (keep_before-NotSpace c bs h.0)

pub trim-NotSpace : (bs : Bytes) → All NotSpace bs → trim bs ≡ bs
trim-NotSpace bs h = rw (trim_start-NotSpace bs h) (trim_end-NotSpace bs h)
