-- ===== src/Core/Tree/Order.antt =====
-- The order of tree entries, against that of names with the slash written out.
use git_lazy_mount.Prelude.{
  ℕ, suc, ◌≡◌, refl, sym, ap, ◌∙◌, Bool-cases, inl, inr, Bool, true, false, none, some, [], ◌∷◌,
  ◌++◌, arith, Bytes, has_byte, length, take, drop, if◌then◌else◌, ◌==◌,
}
use git_lazy_mount.Core.GitMode.{GitMode, is_tree}
use git_lazy_mount.Core.Tree.{
  Ordering, less, equal, greater, compare_bytes, then_compare, compare_slices, compare_options,
  next_byte, min, git_name_cmp,
}

-- The name with a slash behind it if the entry is a tree.
abbrev pub sort_key : Bytes → GitMode → Bytes
sort_key name m = if is_tree m then name ++ b'/' ∷ [] else name

min_both : (m n : ℕ) → min (suc m) (suc n) ≡ suc (min m n)
unfolding min
min_both m n = ground arith

min_left : (n : ℕ) → min 0 n ≡ 0
unfolding min
min_left n = ground arith

min_right : (n : ℕ) → min n 0 ≡ 0
unfolding min
min_right n = ground arith

then_compare_assoc :
    (o p q : Ordering) → then_compare (then_compare o p) q ≡ then_compare o (then_compare p q)
unfolding then_compare
then_compare_assoc less p q = refl
then_compare_assoc equal p q = refl
then_compare_assoc greater p q = refl

compare_different :
    (c d : ℕ) (o : Ordering)
    → (c == d) ≡ false
    → then_compare (compare_bytes c d) o ≡ compare_bytes c d
unfolding then_compare compare_bytes
compare_different c d o h = ground arith

git_name_cmp-cons :
    (c d : ℕ) (a b : Bytes) (am bm : GitMode)
    → git_name_cmp (c ∷ a) am (d ∷ b) bm ≡ then_compare (compare_bytes c d) (git_name_cmp a am b bm)
unfolding git_name_cmp compare_slices
git_name_cmp-cons c d a b am bm = rw (min_both (length a) (length b)) (
    then_compare_assoc (compare_bytes c d) (compare_slices (take n a) (take n b))
      (compare_options (next_byte (drop n a) am) (next_byte (drop n b) bm)))
  where
    n : ℕ
    n = min (length a) (length b)

sort_key-cons :
    (c d : ℕ) (a b : Bytes) (am bm : GitMode)
    → compare_slices (sort_key (c ∷ a) am) (sort_key (d ∷ b) bm)
      ≡ then_compare (compare_bytes c d) (compare_slices (sort_key a am) (sort_key b bm))
unfolding compare_slices
sort_key-cons c d a b am bm = by_mode (is_tree am) (is_tree bm)
  where
    key : Bytes → Bool → Bytes
    key name t = if t then name ++ b'/' ∷ [] else name

    by_mode :
        (s t : Bool)
        → compare_slices (key (c ∷ a) s) (key (d ∷ b) t)
          ≡ then_compare (compare_bytes c d) (compare_slices (key a s) (key b t))
    by_mode true true = refl
    by_mode true false = refl
    by_mode false true = refl
    by_mode false false = refl

-- The slash of a tree `am` against a name that goes on.
key_against :
    (am bm : GitMode) (b : ℕ) (bs : Bytes)
    → (b'/' == b) ≡ false
    → compare_options (next_byte [] am) (some b)
      ≡ compare_slices (sort_key [] am) (sort_key (b ∷ bs) bm)
unfolding compare_options next_byte compare_slices
key_against am bm b bs h = by_mode (is_tree am) (is_tree bm)
  where
    by_mode :
        (s t : Bool)
        → compare_options (if s then some b'/' else none) (some b)
          ≡ compare_slices
              (if s then b'/' ∷ [] else [])
              (if t then (b ∷ bs) ++ b'/' ∷ [] else b ∷ bs)
    by_mode true true = sym (compare_different b'/' b _ h)
    by_mode true false = sym (compare_different b'/' b _ h)
    by_mode false true = refl
    by_mode false false = refl

against_key :
    (am bm : GitMode) (a : ℕ) (as' : Bytes)
    → (a == b'/') ≡ false
    → compare_options (some a) (next_byte [] bm)
      ≡ compare_slices (sort_key (a ∷ as') am) (sort_key [] bm)
unfolding compare_options next_byte compare_slices
against_key am bm a as' h = by_mode (is_tree am) (is_tree bm)
  where
    by_mode :
        (s t : Bool)
        → compare_options (some a) (if t then some b'/' else none)
          ≡ compare_slices
              (if s then (a ∷ as') ++ b'/' ∷ [] else a ∷ as')
              (if t then b'/' ∷ [] else [])
    by_mode true true = sym (compare_different a b'/' _ h)
    by_mode false true = sym (compare_different a b'/' _ h)
    by_mode true false = refl
    by_mode false false = refl

-- For names without slashes, the order of tree entries is that of the bytes of their names, where
-- a slash is put behind the name of a tree.
pub git_name_cmp_lem :
    (a : Bytes) (am : GitMode) (b : Bytes) (bm : GitMode)
    → has_byte b'/' a ≡ false
    → has_byte b'/' b ≡ false
    → git_name_cmp a am b bm ≡ compare_slices (sort_key a am) (sort_key b bm)
unfolding has_byte
git_name_cmp_lem [] am [] bm h k =
    unfold git_name_cmp min compare_slices compare_options next_byte compare_bytes then_compare in
    elim (Bool-cases (is_tree am)) [
      | inl e ↦ elim (Bool-cases (is_tree bm)) [ inl f ↦ rw (e, f) refl | inr f ↦ rw (e, f) refl ]
      | inr e ↦ elim (Bool-cases (is_tree bm)) [ inl f ↦ rw (e, f) refl | inr f ↦ rw (e, f) refl ]
    ]
git_name_cmp_lem [] am (b ∷ bs) bm h k =
    unfold git_name_cmp compare_slices then_compare in
    rw (git_name_cmp, min_left (length (b ∷ bs))) (key_against am bm b bs (ground arith))
git_name_cmp_lem (a ∷ as') am [] bm h k =
    unfold git_name_cmp compare_slices then_compare in
    rw (git_name_cmp, min_right (length (a ∷ as'))) (against_key am bm a as' (ground arith))
git_name_cmp_lem (a ∷ as') am (b ∷ bs) bm h k =
    git_name_cmp-cons a b as' bs am bm
    ∙ (ap (then_compare (compare_bytes a b))
          (git_name_cmp_lem as' am bs bm (ground arith) (ground arith))
        ∙ sym (sort_key-cons a b as' bs am bm))
