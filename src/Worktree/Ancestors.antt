-- ===== src/Worktree/Ancestors.antt =====
-- The tombstones that hide what is below them, in crates/worktree/src/lib.rs.
use git_lazy_mount.Prelude.{
  ℕ, zero, suc, ◌≤◌, ◌<◌, ◌≡◌, refl, ap, ◌↔◌, Bool, true, false, Option, none, some, [], ◌∷◌, arith,
  Bytes, length, take, is_empty, if◌then◌else◌, ◌==◌,
}
use git_lazy_mount.Core.RepoPath.{RepoPath, components, root, is_root, parent, rposition, slash}
use git_lazy_mount.Overlay
use git_lazy_mount.Overlay.{Overlay, OverlayEntry}
use git_lazy_mount.Prelude.Result.{ok}
use git_lazy_mount.Worktree.{
  Env, Projection, is_gitfile, resolve, is_tombstone, tombstoned_from, ancestor_tombstoned,
}

-- `q` is the parent of `p`, or an ancestor of it.
pub data IsAncestor (q : RepoPath) : RepoPath → Type 0 where
  of_parent : {p : RepoPath} → parent p ≡ some q → IsAncestor q p
  above : {p r : RepoPath} → parent p ≡ some r → IsAncestor q r → IsAncestor q p

-- A tombstone at a proper ancestor other than the root.
pub record IsHidden (o : Overlay) (p : RepoPath) : Type 0 where
  pub at : RepoPath
  pub ancestor : IsAncestor at p
  pub not_root : is_root at ≡ false
  pub masked : is_tombstone (Overlay.lookup o at) ≡ true

rposition_bound : (c : ℕ) (bs : Bytes) (i : ℕ) → rposition c bs ≡ some i → i < length bs
unfolding rposition
rposition_bound c [] i h = absurd (ground arith)
rposition_bound c (b ∷ bs) i h = by_rest (rposition c bs) (rposition_bound c bs) h
  where
    by_rest :
        (o : Option ℕ)
        → ((j : ℕ) → o ≡ some j → j < length bs)
        → (elim o [ some j ↦ some (suc j) | none ↦ if b == c then some 0 else none ]) ≡ some i
        → i < suc (length bs)
    by_rest none e k = ground arith
    by_rest (some j) e k = ground (arith, e j refl)

length-take : (i : ℕ) (bs : Bytes) → length (take i bs) ≤ i
length-take zero bs = omega arith
length-take (suc i) [] = omega arith
length-take (suc i) (b ∷ bs) = omega (arith, length-take i bs)

shorter : (p q : RepoPath) → parent p ≡ some q → length q.bytes < length p.bytes
unfolding parent
shorter p q h = by_test (is_empty p.bytes) (rposition slash p.bytes) refl refl h
  where
    nonempty : (bs : Bytes) → is_empty bs ≡ false → 0 < length bs
    nonempty [] e = absurd (ground arith)
    nonempty (b ∷ bs) e = omega arith

    by_test :
        (t : Bool) (o : Option ℕ)
        → is_empty p.bytes ≡ t
        → rposition slash p.bytes ≡ o
        → (if t
            then none
            else elim o [ some i ↦ some (record { bytes = take i p.bytes }) | none ↦ some root ])
          ≡ some q
        → length q.bytes < length p.bytes
    by_test true o e f k = absurd (ground arith)
    by_test false none e f k = ground (arith, nonempty p.bytes e)
    by_test false (some i) e f k =
        let same : take i p.bytes ≡ q.bytes = ground arith in
        omega (arith, ap length same, length-take i p.bytes, rposition_bound slash p.bytes i f)

-- The root has no ancestor.
no_ancestor : (p q : RepoPath) → is_root p ≡ true → parent p ≡ some q → false ≡ true
unfolding parent
no_ancestor p q h k = ground arith

tombstoned_from-IsHidden :
    (fuel : ℕ) (o : Overlay) (p : RepoPath)
    → tombstoned_from fuel o (parent p) ≡ true
    → IsHidden o p
tombstoned_from-IsHidden zero o p h = absurd (ground (arith, none_left (parent p) h))
  where
    none_left : (r : Option RepoPath) → tombstoned_from zero o r ≡ true → false ≡ true
    none_left none k = unfold tombstoned_from in k
    none_left (some r) k = unfold tombstoned_from in k
tombstoned_from-IsHidden (suc fuel) o p h =
    by_parent (parent p) refl h (λ r. tombstoned_from-IsHidden fuel o r)
  where
    by_tests :
        (r : RepoPath) (root_test mask_test : Bool)
        → parent p ≡ some r
        → is_root r ≡ root_test
        → is_tombstone (Overlay.lookup o r) ≡ mask_test
        → (if root_test
            then false
            else if mask_test
            then true
            else tombstoned_from fuel o (parent r))
          ≡ true
        → (tombstoned_from fuel o (parent r) ≡ true → IsHidden o r)
        → IsHidden o p
    by_tests r true m e f g k rec = absurd (ground arith)
    by_tests r false true e f g k rec = record {
      at = r;
      ancestor = of_parent e;
      not_root = f;
      masked = g;
    }
    by_tests r false false e f g k rec =
        let i = rec k in
        record {
          at = i.at;
          ancestor = above e i.ancestor;
          not_root = i.not_root;
          masked = i.masked;
        }

    by_parent :
        (r : Option RepoPath)
        → parent p ≡ r
        → tombstoned_from (suc fuel) o r ≡ true
        → ((q : RepoPath) → tombstoned_from fuel o (parent q) ≡ true → IsHidden o q)
        → IsHidden o p
    by_parent none e k rec = absurd (unfold tombstoned_from in ground arith)
    by_parent (some r) e k rec =
        by_tests r (is_root r) (is_tombstone (Overlay.lookup o r)) e refl refl
          (unfold tombstoned_from in k) (rec r)

below_root : (r q : RepoPath) → IsAncestor q r → is_root r ≡ false
below_root r q a = by_test (is_root r) refl a
  where
    by_test : (t : Bool) → is_root r ≡ t → IsAncestor q r → is_root r ≡ false
    by_test false e i = e
    by_test true e (of_parent f) = absurd (ground (arith, no_ancestor r q e f))
    by_test true e (above {r = m} f i) = absurd (ground (arith, no_ancestor r m e f))

one_up :
    (fuel : ℕ) (o : Overlay) (r : RepoPath)
    → is_root r ≡ false
    → tombstoned_from fuel o (parent r) ≡ true
    → tombstoned_from (suc fuel) o (some r) ≡ true
unfolding tombstoned_from
one_up fuel o r h k = rw h (by_test (is_tombstone (Overlay.lookup o r)))
  where
    by_test : (t : Bool) → (if t then true else tombstoned_from fuel o (parent r)) ≡ true
    by_test true = refl
    by_test false = k

tombstoned_from-of_IsHidden :
    (fuel : ℕ) (o : Overlay) (p q : RepoPath)
    → length p.bytes ≤ fuel
    → IsAncestor q p
    → is_root q ≡ false
    → is_tombstone (Overlay.lookup o q) ≡ true
    → tombstoned_from fuel o (parent p) ≡ true
tombstoned_from-of_IsHidden zero o p q le (of_parent e) n t = absurd (omega (arith, shorter p q e))
tombstoned_from-of_IsHidden zero o p q le (above {r = r} e a) n t =
    absurd (omega (arith, shorter p r e))
tombstoned_from-of_IsHidden (suc fuel) o p q le (of_parent e) n t =
    unfold tombstoned_from in rw (e, n, t) refl
tombstoned_from-of_IsHidden (suc fuel) o p q le (above {r = r} e a) n t = rw e (
    one_up fuel o r (below_root r q a)
      (tombstoned_from-of_IsHidden fuel o r q (omega (arith, shorter p r e)) a n t))

-- ancestor_tombstoned is true exactly if a proper ancestor of the path other than the root, at any
-- height, has a tombstone.
pub ancestor_tombstoned_iff :
    (o : Overlay) (p : RepoPath) → (ancestor_tombstoned o p ≡ true) ↔ IsHidden o p
unfolding ancestor_tombstoned
ancestor_tombstoned_iff o p = (
  tombstoned_from-IsHidden (length p.bytes) o p,
  λ h.
      tombstoned_from-of_IsHidden (length p.bytes) o p h.at (omega arith) h.ancestor h.not_root
        h.masked,
)

-- A path other than the root and the synthetic .git that has no overlay entry resolves to nothing
-- if a proper ancestor of it other than the root, at any height, has a tombstone, whatever the
-- baseline has there.
pub resolve-IsHidden :
    (env : Env) (s : Projection) (p : RepoPath)
    → is_root p ≡ false
    → is_gitfile (components p) ≡ false
    → Overlay.lookup s.overlay p ≡ none
    → IsHidden s.overlay p
    → resolve env s p ≡ ok none
unfolding resolve
resolve-IsHidden env s p r g l h =
    rw (r, g, l, resolve) (rw ((ancestor_tombstoned_iff s.overlay p).1 h) refl)
