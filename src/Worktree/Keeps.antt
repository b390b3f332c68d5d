-- ===== src/Worktree/Keeps.antt =====
-- Rules for what the actions of crates/worktree/src/lib.rs keep, which follow the way an action is
-- composed, with what is known of the error that it returns.
use git_lazy_mount.Prelude.{ℕ, ◌≡◌, refl, Bool, true, false, [], ◌∷◌, if◌then◌else◌}
use git_lazy_mount.Prelude.Result.{Result, ok, err, and_then, relabel}
use git_lazy_mount.Prelude.Io.{after, Oracle, pure, gets, modify, fail, io, ◌>>=◌, Outcome}
use git_lazy_mount.Core.RepoPath.{RepoPath}
use git_lazy_mount.Inode
use git_lazy_mount.Overlay
use git_lazy_mount.Overlay.{Overlay, OverlayError}
use git_lazy_mount.Worktree.{
  Projection, Act, WorktreeError, panic, asks, of_result, in_overlay, overlaid, inode_lookup,
  overlay_error,
}

unfoldable pub is_panic : WorktreeError → Bool
is_panic panic = true
is_panic _ = false

-- What is known of the error, if there is one.
abbrev pub Fine : {A : Type 0} → (WorktreeError → Type 0) → Result WorktreeError A → Type 0
Fine E (ok a) = Unit {0}
Fine E (err e) = E e

abbrev pub Plain : WorktreeError → Type 0
Plain e = is_panic e ≡ false

-- The panic of the inode table is the only error that matters here.
abbrev pub IsPlain : {A : Type 0} → Result WorktreeError A → Type 0
IsPlain r = Fine Plain r

abbrev pub Ends :
    {A : Type 0}
    → (WorktreeError → Type 0)
    → (A → Projection → Type 0)
    → (Projection → Type 0)
    → Result WorktreeError A
    → Projection
    → Type 0
Ends E Q R (ok a) s = Q a s
Ends E Q R (err e) s = R s × E e

-- From a state in `P`, however its file operations end, the action leaves a state in `Q`, or a
-- state in `R` and an error in `E`.
pub record Steps {A : Type 0} (E : WorktreeError → Type 0) (P : Projection → Type 0) (m : Act A)
    (Q : A → Projection → Type 0) (R : Projection → Type 0) : Type 0 where
  pub at : (o : Oracle) (s : Projection) → P s → Ends E Q R (m o s).result (m o s).state

abbrev pub Keeps : {A : Type 0} → (WorktreeError → Type 0) → (Projection → Type 0) → Act A → Type 0
Keeps E I m = Steps E I m (λ _. I) I

module _ {A B : Type 0} {E : WorktreeError → Type 0} {Q : A → Projection → Type 0}
    {Q' : B → Projection → Type 0} {R : Projection → Type 0} where
  after-Ends :
      (r : Result WorktreeError A) (f : A → Act B) (o : Oracle) (s : Projection)
      → Ends E Q R r s
      → ((a : A) → Steps E (Q a) (f a) Q' R)
      → Ends E Q' R (after r f o s).result (after r f o s).state
  after-Ends (ok a) f o s h k = (k a).at o s h
  after-Ends (err e) f o s h k = h

module _ {A : Type 0} (E : WorktreeError → Type 0) {Q : A → Projection → Type 0}
    {R : Projection → Type 0} where
  widened :
      {Q'' : A → Projection → Type 0} {R' : Projection → Type 0} (r : Result WorktreeError A)
      (s : Projection)
      → ((a : A) (t : Projection) → Q a t → Q'' a t)
      → ((t : Projection) → R t → R' t)
      → Ends E Q R r s
      → Ends E Q'' R' r s
  widened (ok a) s f g h = f a s h
  widened (err e) s f g h = (g s h.0, h.1)

module _ {A : Type 0} {E : WorktreeError → Type 0} {P : Projection → Type 0}
    {R : Projection → Type 0} where
  pub Steps-bind :
      {B : Type 0} {Q' : B → Projection → Type 0} (Q : A → Projection → Type 0) (m : Act A)
      (f : A → Act B)
      → Steps E P m Q R
      → ((a : A) → Steps E (Q a) (f a) Q' R)
      → Steps E P (m >>= f) Q' R
  Steps-bind Q m f h k = record {
    at = λ o s p. after-Ends (m o s).result f (m o s).rest (m o s).state (h.at o s p) k;
  }

  pub Steps-widen :
      {Q Q' : A → Projection → Type 0} {R' : Projection → Type 0} (m : Act A)
      → Steps E P m Q R
      → ((a : A) (s : Projection) → Q a s → Q' a s)
      → ((s : Projection) → R s → R' s)
      → Steps E P m Q' R'
  Steps-widen m h f g = record {
    at = λ o s p. widened E (m o s).result (m o s).state f g (h.at o s p);
  }

  pub Steps-if :
      {Q : A → Projection → Type 0} (b : Bool) (m k : Act A)
      → Steps E P m Q R
      → Steps E P k Q R
      → Steps E P (if b then m else k) Q R
  Steps-if true m k h g = h
  Steps-if false m k h g = g

  pub Steps-pure :
      {Q : A → Projection → Type 0} (a : A)
      → ((s : Projection) → P s → Q a s)
      → Steps E P (pure a) Q R
  unfolding pure
  Steps-pure a h = record { at = λ o s p. h s p }

  pub Steps-gets : (f : Projection → A) → Steps E P (gets f) (λ _. P) R
  unfolding gets
  Steps-gets f = record { at = λ o s p. p }

  pub Steps-fail :
      {Q : A → Projection → Type 0} (e : WorktreeError)
      → E e
      → ((s : Projection) → P s → R s)
      → Steps E P (fail {A = A} e) Q R
  unfolding fail
  Steps-fail e h f = record { at = λ o s p. (f s p, h) }

  -- A read, with what it answered.
  pub Steps-asks :
      (f : Projection → Result WorktreeError A)
      → ((e : WorktreeError) → Plain e → E e)
      → ((s : Projection) → IsPlain (f s))
      → ((s : Projection) → P s → R s)
      → Steps E P (asks f) (λ a s. P s × (f s ≡ ok a)) R
  unfolding asks of_result pure fail
  Steps-asks f plain h g = record { at = λ o s p. cases s (f s) refl o p (h s) }
    where
      cases :
          (s : Projection) (r : Result WorktreeError A)
          → f s ≡ r
          → (o : Oracle) → P s
          → Fine Plain r
          → Ends E (λ a t. P t × (f t ≡ ok a)) R (of_result r o s).result (of_result r o s).state
      cases s (ok a) e o p k = (p, e)
      cases s (err x) e o p k = (g s p, plain x k)

-- An invariant that calls of the overlay and of the inode table keep.
pub record IsStable (E : WorktreeError → Type 0) (I : Projection → Type 0) : Type 0 where
  pub plain : (e : WorktreeError) → Plain e → E e
  pub overlay : (s : Projection) (v : Overlay) → I s → I (record s { overlay = v })
  pub rename :
      (p q : RepoPath) (s : Projection) → I s → I (record s { inodes = Inode.rename p q s.inodes })
  pub unlink :
      (p : RepoPath) (s : Projection) → I s → I (record s { inodes = Inode.unlink p s.inodes })
  pub forget :
      (i n : ℕ) (s : Projection) → I s → I (record s { inodes = Inode.forget i n s.inodes })
  pub look : (p : RepoPath) → Keeps E I (inode_lookup p)

module _ {E : WorktreeError → Type 0} {I : Projection → Type 0} where
  pub Keeps-modify :
      (f : Projection → Projection) → ((s : Projection) → I s → I (f s)) → Keeps E I (modify f)
  unfolding modify
  Keeps-modify f h = record { at = λ o s i. h s i }

  pub Keeps-io :
      (e : WorktreeError) (effect : Projection → Projection) (partial : ℕ → Projection → Projection)
      → E e
      → ((s : Projection) → I s → I (effect s))
      → ((k : ℕ) (s : Projection) → I s → I (partial k s))
      → Keeps E I (io e effect partial)
  unfolding io
  Keeps-io e effect partial h good bad = record { at = cases }
    where
      cases :
          (o : Oracle) (s : Projection)
          → I s
          → Ends E (λ _. I) I (io e effect partial o s).result (io e effect partial o s).state
      cases [] s i = good s i
      cases (Outcome.done ∷ o) s i = good s i
      cases (Outcome.fails k ∷ o) s i = (bad k s i, h)

  module _ (stable : IsStable E I) where
    pub Keeps-asks :
        {A : Type 0} (f : Projection → Result WorktreeError A)
        → ((s : Projection) → IsPlain (f s))
        → Keeps E I (asks f)
    Keeps-asks f h =
        Steps-widen (asks f) (Steps-asks f stable.plain h (λ s i. i)) (λ a s i. i.0) (λ s i. i)

    pub Keeps-in_overlay : {A : Type 0} (m : Overlay.Act A) → Keeps E I (in_overlay m)
    unfolding in_overlay overlaid is_panic
    Keeps-in_overlay {A} m = record {
      at = λ o s i.
          cases (m o s.overlay).result (record s { overlay = (m o s.overlay).state })
            (stable.overlay s (m o s.overlay).state i);
    }
      where
        cases :
            (r : Result OverlayError A) (s : Projection)
            → I s
            → Ends E (λ _. I) I (relabel overlay_error r) s
        cases (ok a) s i = i
        cases (err e) s i = (i, stable.plain (overlay_error e) refl)

-- Before a path is recorded, after it, and at any end; the path is the one that `target` gives.
pub record Phases (E : WorktreeError → Type 0) (target : Projection → Result WorktreeError RepoPath)
    (records : RepoPath → Act (Unit {0})) (Before Done Either : Projection → Type 0) : Type 0 where
  pub stable : IsStable E Done
  pub before : (s : Projection) → Before s → Either s
  pub done : (s : Projection) → Done s → Either s
  pub recording :
      (p : RepoPath) → Steps E (λ s. Before s × (target s ≡ ok p)) (records p) (λ _. Done) Either

-- What is computed without an effect never panics.
module _ {A : Type 0} where
  pub IsPlain-and_then :
      {B : Type 0} (r : Result WorktreeError A) (f : A → Result WorktreeError B)
      → IsPlain r
      → ((a : A) → IsPlain (f a))
      → IsPlain (and_then r f)
  IsPlain-and_then (ok a) f h k = k a
  IsPlain-and_then (err e) f h k = h

  pub IsPlain-if :
      (b : Bool) (r q : Result WorktreeError A)
      → IsPlain r
      → IsPlain q
      → IsPlain (if b then r else q)
  IsPlain-if true r q h k = h
  IsPlain-if false r q h k = k
