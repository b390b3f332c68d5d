-- ===== src/Core/RepoPath/Validity.antt =====
-- Which byte strings are paths: `from_bytes` and `join` of crates/core/src/path.rs.
use git_lazy_mount.Prelude.{
  ◌≡◌, refl, ap, ◌∙◌, ◌⊎◌, inl, inr, ◌↔◌, false, ◌||◌, List, [], ◌∷◌, ◌++◌, arith, Bytes, bytes_eq,
  has_byte, split, is_empty, Bool-cases, All, Lacks, All-append, ◌==◌, split-Lacks_sep, split-Lacks,
  split-last, split-append_sep, intercalate, intercalate-split, has_byte-append,
}
use git_lazy_mount.Prelude.Result.{ok}
use git_lazy_mount.Core.RepoPath.{
  RepoPath, slash, dot, dot_dot, root, check_components, starts_with_slash, from_bytes, join,
  push_component,
}

-- One component of a path.
pub record IsComponent (c : Bytes) : Type 0 where
  pub not_empty : is_empty c ≡ false
  pub no_nul : has_byte 0 c ≡ false
  pub no_slash : has_byte slash c ≡ false
  pub no_traversal : (bytes_eq c dot || bytes_eq c dot_dot) ≡ false

-- The root, or a `/`-separated list of components.
abbrev pub IsValid : RepoPath → Type 0
IsValid p = (p.bytes ≡ []) ⊎ All IsComponent (split slash p.bytes)

All-IsComponent :
    (ps : List Bytes)
    → All (Lacks 0) ps
    → All (Lacks slash) ps
    → check_components ps ≡ ok tt
    → All IsComponent ps
unfolding check_components
All-IsComponent [] n s h = tt
All-IsComponent (p ∷ ps) n s h =
    (ground (arith, n.0, s.0), All-IsComponent ps n.1 s.1 (ground arith))

check-All : (ps : List Bytes) → All IsComponent ps → check_components ps ≡ ok tt
unfolding check_components
check-All [] h = refl
check-All (p ∷ ps) h = ground (arith, h.0.not_empty, h.0.no_traversal, check-All ps h.1)

-- What `from_bytes` accepts keeps its bytes and is valid.
pub from_bytes-IsValid :
    (bs : Bytes) (p : RepoPath) → from_bytes bs ≡ ok p → (p.bytes ≡ bs) × IsValid p
unfolding from_bytes
from_bytes-IsValid [] p h = ground arith
from_bytes-IsValid (b ∷ bs) p h =
    let e : p.bytes ≡ b ∷ bs = ground arith in
    (
      e,
      rw e (
          inr (
            All-IsComponent (split slash (b ∷ bs)) (split-Lacks slash 0 (b ∷ bs) (ground arith))
              (split-Lacks_sep slash (b ∷ bs)) (ground arith))),
    )

no_nul-intercalate :
    (ps : List Bytes) → All IsComponent ps → has_byte 0 (intercalate slash ps) ≡ false
unfolding intercalate has_byte
no_nul-intercalate [] h = refl
no_nul-intercalate (p ∷ []) h = h.0.no_nul
no_nul-intercalate (p ∷ q ∷ ps) h =
    rw (has_byte-append 0 p (slash ∷ intercalate slash (q ∷ ps)))
      (ground (arith, h.0.no_nul, no_nul-intercalate (q ∷ ps) h.1))

first_not_slash : (bs : Bytes) → All IsComponent (split slash bs) → starts_with_slash bs ≡ false
unfolding starts_with_slash split
first_not_slash [] h = refl
first_not_slash (b ∷ bs) h = elim (Bool-cases (b == slash)) [
  | inr e ↦ e
  | inl e ↦
      let k : All IsComponent ([] ∷ split slash bs) = rw e at h in ground (arith, k.0.not_empty)
]

-- Every valid path is accepted as it is.
pub from_bytes-of_IsValid : (p : RepoPath) → IsValid p → from_bytes p.bytes ≡ ok p
unfolding from_bytes
from_bytes-of_IsValid p (inl e) = rw e (ground (arith, e))
from_bytes-of_IsValid p (inr h) = ground (
  arith,
  first_not_slash p.bytes h,
  check-All (split slash p.bytes) h,
  intercalate-split slash p.bytes,
  no_nul-intercalate (split slash p.bytes) h,
)

-- from_bytes accepts bytes exactly if they are the path of the root or a slash-separated list of
-- components that are not empty, have no NUL and are neither a dot nor two, and the path has those
-- bytes.
pub from_bytes_iff :
    (bs : Bytes) (p : RepoPath) → (from_bytes bs ≡ ok p) ↔ ((p.bytes ≡ bs) × IsValid p)
from_bytes_iff bs p = (from_bytes-IsValid bs p, λ h. rw (← h.0) (from_bytes-of_IsValid p h.1))

-- The guards of `join` are those of one component.
pub join-IsComponent : (p : RepoPath) (c : Bytes) {q : RepoPath} → join p c ≡ ok q → IsComponent c
unfolding join
join-IsComponent p c h = ground arith

pub join-of_IsComponent :
    (p : RepoPath) (c : Bytes)
    → IsComponent c
    → join p c ≡ ok (record { bytes = push_component p.bytes c })
unfolding join
join-of_IsComponent p c h = ground arith

pub split-push_component :
    (bs c : Bytes)
    → is_empty bs ≡ false
    → has_byte slash c ≡ false
    → split slash (push_component bs c) ≡ split slash bs ++ c ∷ []
unfolding push_component
split-push_component [] c n h = ground arith
split-push_component (b ∷ bs) c n h =
    split-append_sep slash (b ∷ bs) c ∙ ap (λ t. split slash (b ∷ bs) ++ t) (split-last slash c h)

-- A path that `join` returns is valid if it was joined to a valid one.
pub join-IsValid :
    (p : RepoPath) (c : Bytes) (q : RepoPath) → IsValid p → join p c ≡ ok q → IsValid q
join-IsValid p c q (inl root) h =
    let k = join-IsComponent p c h in
    let e : q ≡ record { bytes = c } = unfold join push_component in ground arith in
    rw e (inr (rw (split-last slash c k.no_slash) (k, tt)))
join-IsValid p c q (inr v) h =
    let k = join-IsComponent p c h in
    elim (Bool-cases (is_empty p.bytes)) [
      | inl z ↦
          let e : q ≡ record { bytes = c } = unfold join push_component in ground arith in
          rw e (inr (rw (split-last slash c k.no_slash) (k, tt)))
      | inr n ↦
          let e : q ≡ record { bytes = push_component p.bytes c } = unfold join in ground arith in
          rw e (
            inr (
              rw (split-push_component p.bytes c n k.no_slash)
                (All-append IsComponent (split slash p.bytes) (c ∷ []) v (k, tt))))
    ]
