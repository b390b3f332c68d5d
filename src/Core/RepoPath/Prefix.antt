-- ===== src/Core/RepoPath/Prefix.antt =====
-- `is_prefix_of` of crates/core/src/path.rs against the components.
use mathlib.Core.List.{append-nil}
use git_lazy_mount.Prelude.{
  ◌<◌, ◌≡◌, refl, ap, sym, ◌∙◌, ◌↔◌, inl, inr, true, false, List, [], ◌∷◌, ◌++◌, arith, Bytes,
  bytes_eq, bytes_eq_iff, split, is_empty, Bool-cases, length, drop, split-append_sep, intercalate,
  intercalate-split, intercalate-append, split-cons, lt→ltb,
}
use git_lazy_mount.Core.RepoPath.{RepoPath, slash, starts_with, byte_is, is_prefix_of, components}
use git_lazy_mount.Core.RepoPath.Validity.{IsValid}
use git_lazy_mount.Core.RepoPath.Components.{components-root, components-nonroot}

-- `b` is `a`, or `a` and then a `/` and more.
Below : Bytes → Bytes → Type 0
Below a b = (rest : Bytes) × (b ≡ a ++ slash ∷ rest)

starts_with-prefix :
    (a b : Bytes) → starts_with b a ≡ true → byte_is (drop (length a) b) slash ≡ true → Below a b
unfolding Below starts_with byte_is
starts_with-prefix [] [] s h = ground arith
starts_with-prefix [] (x ∷ b) s h = (b, ground arith)
starts_with-prefix (a ∷ as') [] s h = ground arith
starts_with-prefix (a ∷ as') (x ∷ b) s h =
    let (rest, e) = starts_with-prefix as' b (ground arith) h in (rest, ground (arith, e))

starts_with-append : (a rest : Bytes) → starts_with (a ++ slash ∷ rest) a ≡ true
unfolding starts_with
starts_with-append [] rest = refl
starts_with-append (a ∷ as') rest = ground (arith, starts_with-append as' rest)

byte_is-append : (a rest : Bytes) → byte_is (drop (length a) (a ++ slash ∷ rest)) slash ≡ true
unfolding byte_is
byte_is-append [] rest = refl
byte_is-append (a ∷ as') rest = byte_is-append as' rest

longer : (a rest : Bytes) → length a < length (a ++ slash ∷ rest)
longer [] rest = omega arith
longer (a ∷ as') rest = omega (arith, longer as' rest)

below_of_split :
    (a b q : Bytes) (qs : List Bytes)
    → split slash b ≡ split slash a ++ q ∷ qs
    → b ≡ a ++ slash ∷ intercalate slash (q ∷ qs)
below_of_split a b q qs h =
    let (p, ps, e) = split-cons slash a in
    sym (intercalate-split slash b)
    ∙ (ap (intercalate slash) h
        ∙ (ap (λ t. intercalate slash (t ++ q ∷ qs)) e
            ∙ (intercalate-append slash p q ps qs
                ∙ (ap (λ t. intercalate slash t ++ slash ∷ intercalate slash (q ∷ qs)) (sym e)
                    ∙ ap (λ t. t ++ slash ∷ intercalate slash (q ∷ qs))
                        (intercalate-split slash a)))))

to_split :
    (a b : RepoPath)
    → is_empty a.bytes ≡ false
    → is_prefix_of a b ≡ true
    → (rest : List Bytes) × (split slash b.bytes ≡ split slash a.bytes ++ rest)
unfolding is_prefix_of Below
to_split a b n h = elim (Bool-cases (bytes_eq a.bytes b.bytes)) [
  | inl e ↦ (
    [],
    ap (split slash) (sym ((bytes_eq_iff a.bytes b.bytes).0 e))
        ∙ sym (append-nil (split slash a.bytes)),
  )
  | inr e ↦
      let (rest, r) = starts_with-prefix a.bytes b.bytes (ground arith) (ground arith) in
      (split slash rest, ap (split slash) r ∙ split-append_sep slash a.bytes rest)
]

of_split :
    (a b : RepoPath) (rest : List Bytes)
    → split slash b.bytes ≡ split slash a.bytes ++ rest
    → is_prefix_of a b ≡ true
unfolding is_prefix_of
of_split a b [] h =
    let e : a.bytes ≡ b.bytes =
      sym (intercalate-split slash a.bytes)
      ∙ (ap (intercalate slash) (sym (h ∙ append-nil (split slash a.bytes)))
          ∙ intercalate-split slash b.bytes) in
    ground (arith, (bytes_eq_iff a.bytes b.bytes).1 e)
of_split a b (q ∷ qs) h =
    let r = intercalate slash (q ∷ qs) in
    rw (below_of_split a.bytes b.bytes q qs h) (
      ground (
        arith,
        starts_with-append a.bytes r,
        byte_is-append a.bytes r,
        lt→ltb (length a.bytes) (length (a.bytes ++ slash ∷ r)) (longer a.bytes r),
      ))

nothing_in_root :
    (a b : RepoPath)
    → is_empty a.bytes ≡ false
    → is_empty b.bytes ≡ true
    → is_prefix_of a b ≡ true
    → ⊥
unfolding is_prefix_of bytes_eq
nothing_in_root a b n z h = ground (arith, (bytes_eq_iff a.bytes b.bytes).0)

prefix_of_nonroot :
    (a b : RepoPath)
    → IsValid a
    → IsValid b
    → is_empty a.bytes ≡ false
    → (is_prefix_of a b ≡ true) ↔ ((rest : List Bytes) × (components b ≡ components a ++ rest))
prefix_of_nonroot a b va vb n =
    let (p, ps, e) = split-cons slash a.bytes in
    elim (Bool-cases (is_empty b.bytes)) [
      | inl z ↦ (
        λ h. absurd (nothing_in_root a b n z h),
        λ (rest, k). absurd (ground (arith, e, k, components-root b z, components-nonroot a va n)),
      )
      | inr m ↦
          rw (components-nonroot a va n)
            (rw (components-nonroot b vb m) (to_split a b n, λ (rest, k). of_split a b rest k))
    ]

-- On valid paths is_prefix_of holds exactly if the components of the second path are those of the
-- first with more, or none, behind them.
pub is_prefix_of_iff :
    (a b : RepoPath)
    → IsValid a
    → IsValid b
    → (is_prefix_of a b ≡ true) ↔ ((rest : List Bytes) × (components b ≡ components a ++ rest))
is_prefix_of_iff a b va vb = elim (Bool-cases (is_empty a.bytes)) [
  | inl z ↦ (
    λ _. (components b, ap (λ t. t ++ components b) (sym (components-root a z))),
    λ _. unfold is_prefix_of in rw z,
  )
  | inr n ↦ prefix_of_nonroot a b va vb n
]
