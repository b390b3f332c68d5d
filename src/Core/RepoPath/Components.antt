-- ===== src/Core/RepoPath/Components.antt =====
-- `components`, `parent`, `file_name` and `join` of crates/core/src/path.rs, together.
use git_lazy_mount.Prelude.{
  ℕ, suc, ◌+◌, ◌≡◌, refl, ap, sym, ◌∙◌, inl, inr, true, false, none, some, List, [], ◌∷◌, ◌++◌,
  arith, Bytes, has_byte, split, non_empty, is_empty, Bool-cases, All, All-append, split-last,
  length, take, drop, ==_refl,
}
use git_lazy_mount.Prelude.Result.{ok}
use git_lazy_mount.Core.RepoPath.{
  RepoPath, slash, join, push_component, components, parent, file_name, rposition,
}
use git_lazy_mount.Core.RepoPath.Validity.{
  IsComponent, IsValid, join-IsComponent, split-push_component, join-IsValid,
}

non_empty-All : (ps : List Bytes) → All IsComponent ps → non_empty ps ≡ ps
unfolding non_empty
non_empty-All [] h = refl
non_empty-All (p ∷ ps) h = ground (arith, h.0.not_empty, non_empty-All ps h.1)

rposition-none : (c : ℕ) (bs : Bytes) → has_byte c bs ≡ false → rposition c bs ≡ none
unfolding rposition has_byte
rposition-none c [] h = refl
rposition-none c (b ∷ bs) h = ground (arith, rposition-none c bs)

rposition-append :
    (c : ℕ) (as' bs : Bytes)
    → has_byte c bs ≡ false
    → rposition c (as' ++ c ∷ bs) ≡ some (length as')
unfolding rposition
rposition-append c [] bs h = ground (arith, rposition-none c bs h, ==_refl c)
rposition-append c (a ∷ as') bs h = ground (arith, rposition-append c as' bs h)

take-length : (as' bs : Bytes) → take (length as') (as' ++ bs) ≡ as'
take-length [] bs = refl
take-length (a ∷ as') bs = ap (λ t. a ∷ t) (take-length as' bs)

drop-past : (c : ℕ) (as' bs : Bytes) → drop (suc (length as')) (as' ++ c ∷ bs) ≡ bs
drop-past c [] bs = refl
drop-past c (a ∷ as') bs = drop-past c as' bs

push_parts :
    (bs c : Bytes)
    → IsComponent c
    → (parent (record { bytes = push_component bs c }) ≡ some (record { bytes = bs }))
      × (file_name (record { bytes = push_component bs c }) ≡ some c)
unfolding parent file_name push_component
push_parts [] c h = (
  ground (arith, h.not_empty, rposition-none slash c h.no_slash),
  ground (arith, h.not_empty, rposition-none slash c h.no_slash),
)
push_parts (b ∷ bs) c h =
    let e = rposition-append slash (b ∷ bs) c h.no_slash in
    let one_more : length (b ∷ bs) + 1 ≡ suc (length (b ∷ bs)) = omega arith in
    (
      rw e (ap (λ t. some (record { bytes = t })) (take-length (b ∷ bs) (slash ∷ c))),
      rw e (
          ap some
            (ap (λ (n : ℕ). drop n (b ∷ bs ++ slash ∷ c)) one_more ∙ drop-past slash (b ∷ bs) c)),
    )

not_both : (bs : Bytes) → is_empty bs ≡ true → All IsComponent (split slash bs) → ⊥
unfolding split
not_both [] z v = ground (arith, v.0.not_empty)
not_both (b ∷ bs) z v = ground arith

pub components-nonroot :
    (p : RepoPath) → IsValid p → is_empty p.bytes ≡ false → components p ≡ split slash p.bytes
unfolding components
components-nonroot p (inl e) n = absurd (ground arith)
components-nonroot p (inr v) n = non_empty-All (split slash p.bytes) v

pub components-root : (p : RepoPath) → is_empty p.bytes ≡ true → components p ≡ []
unfolding components non_empty split
components-root p h = let e : p.bytes ≡ [] = ground arith in rw e

components-push :
    (p : RepoPath) (c : Bytes)
    → IsValid p
    → IsComponent c
    → components (record { bytes = push_component p.bytes c }) ≡ components p ++ c ∷ []
unfolding components
components-push p c (inl e) h = rw e (
    unfold push_component non_empty split in
    rw (split-last slash c h.no_slash) (ground (arith, h.not_empty)))
components-push p c (inr v) h = elim (Bool-cases (is_empty p.bytes)) [
  | inl z ↦ absurd (not_both p.bytes z v)
  | inr n ↦ rw (split-push_component p.bytes c n h.no_slash) (
      non_empty-All (split slash p.bytes ++ c ∷ [])
        (All-append IsComponent (split slash p.bytes) (c ∷ []) v (h, tt))
      ∙ ap (λ t. t ++ c ∷ []) (sym (non_empty-All (split slash p.bytes) v)))
]

-- A join to a valid path that succeeds gives a valid path whose parent is the path joined to,
-- whose file name is the component, and whose components are those of the path joined to and then
-- the component.
pub join_lem :
    (p : RepoPath) (c : Bytes) (q : RepoPath)
    → IsValid p
    → join p c ≡ ok q
    → IsValid q
      × (parent q ≡ some p)
      × (file_name q ≡ some c)
      × (components q ≡ components p ++ c ∷ [])
join_lem p c q v h =
    let k = join-IsComponent p c h in
    let e : q ≡ record { bytes = push_component p.bytes c } = unfold join in ground arith in
    let parts = push_parts p.bytes c k in
    (join-IsValid p c q v h, rw e parts.0, rw e parts.1, rw e (components-push p c v k))
