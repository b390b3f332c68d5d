-- ===== src/Prelude/Io.antt =====
-- Fallible file operations, as the sources chain them with `?`. An oracle says
-- how each coming operation ends, so a run over all oracles covers every error path, and every
-- crash: what a crash leaves on disk is what an operation that fails there leaves.
use git_lazy_mount.Prelude.{ℕ, List, [], ◌∷◌}
use git_lazy_mount.Prelude.Result.{Result, ok, err}

-- An operation succeeds, or fails after so many of its bytes were written.
pub data Outcome : Type 0 where
  done : Outcome
  fails : ℕ → Outcome

abbrev pub Oracle : Type 0
Oracle = List Outcome

-- The result of a run: what it returns, the outcomes that are left, the state.
pub record Run (E S A : Type 0) : Type 0 where
  pub result : Result E A
  pub rest : Oracle
  pub state : S

abbrev pub M : Type 0 → Type 0 → Type 0 → Type 0
M E S A = Oracle → S → Run E S A

abbrev pub after : {E S A B : Type 0} → Result E A → (A → M E S B) → M E S B
after (ok a) f o s = f a o s
after (err e) f o s = record { result = err e; rest = o; state = s }

infixl 5 ◌>>=◌ ◌>>◌
abbrev pub ◌>>=◌ : {E S A B : Type 0} → M E S A → (A → M E S B) → M E S B
◌>>=◌ m f o s = after (m o s).result f (m o s).rest (m o s).state

abbrev pub ◌>>◌ : {E S B : Type 0} → M E S (Unit {0}) → M E S B → M E S B
m >> k = m >>= λ _. k

module _ {E S : Type 0} where
  unfoldable pub pure : {A : Type 0} → A → M E S A
  pure a o s = record { result = ok a; rest = o; state = s }

  unfoldable pub gets : {A : Type 0} → (S → A) → M E S A
  gets f o s = record { result = ok (f s); rest = o; state = s }

  unfoldable pub modify : (S → S) → M E S (Unit {0})
  modify f o s = record { result = ok tt; rest = o; state = f s }

  -- One operation: its error, its effect, and its effect when it fails.
  unfoldable pub io : E → (S → S) → (ℕ → S → S) → M E S (Unit {0})
  io e effect partial [] s = record { result = ok tt; rest = []; state = effect s }
  io e effect partial (done ∷ o) s = record { result = ok tt; rest = o; state = effect s }
  io e effect partial (fails k ∷ o) s = record { result = err e; rest = o; state = partial k s }

  -- An operation whose failure is read as `default`, with no effect.
  unfoldable pub io_or : {A : Type 0} → A → (S → A) → M E S A
  io_or default f [] s = record { result = ok (f s); rest = []; state = s }
  io_or default f (done ∷ o) s = record { result = ok (f s); rest = o; state = s }
  io_or default f (fails k ∷ o) s = record { result = ok default; rest = o; state = s }

  -- An operation whose failure is ignored, with no effect.
  unfoldable pub io_ignored : (S → S) → M E S (Unit {0})
  io_ignored effect [] s = record { result = ok tt; rest = []; state = effect s }
  io_ignored effect (done ∷ o) s = record { result = ok tt; rest = o; state = effect s }
  io_ignored effect (fails k ∷ o) s = record { result = ok tt; rest = o; state = s }

  unfoldable pub fail : {A : Type 0} → E → M E S A
  fail e o s = record { result = err e; rest = o; state = s }

-- What holds after a run: `Q` if it returned, `R` if it failed.
abbrev pub Post : {E S A : Type 0} → (A → S → Type 0) → (S → Type 0) → Result E A → S → Type 0
Post Q R (ok a) s = Q a s
Post Q R (err e) s = R s

-- From a state in `P`, whatever the oracle.
pub record Triple {E S A : Type 0} (P : S → Type 0) (m : M E S A) (Q : A → S → Type 0)
    (R : S → Type 0) : Type 0 where
  pub at : (o : Oracle) (s : S) → P s → Post Q R (m o s).result (m o s).state

module _ {E S A B : Type 0} {Q : A → S → Type 0} {Q' : B → S → Type 0} {R : S → Type 0} where
  after-Post :
      (r : Result E A) (f : A → M E S B) (o : Oracle) (s : S)
      → Post Q R r s
      → ((a : A) → Triple (Q a) (f a) Q' R)
      → Post Q' R (after r f o s).result (after r f o s).state
  after-Post (ok a) f o s h k = (k a).at o s h
  after-Post (err e) f o s h k = h

module _ {E S A B : Type 0} {P : S → Type 0} {Q' : B → S → Type 0} {R : S → Type 0} where
  pub Triple-bind :
      (Q : A → S → Type 0) (m : M E S A) (f : A → M E S B)
      → Triple P m Q R
      → ((a : A) → Triple (Q a) (f a) Q' R)
      → Triple P (m >>= f) Q' R
  Triple-bind Q m f h k = record {
    at = λ o s p. after-Post (m o s).result f (m o s).rest (m o s).state (h.at o s p) k;
  }

module _ {E S : Type 0} {P : S → Type 0} {Q : Unit {0} → S → Type 0} {R : S → Type 0} where
  pub Triple-io :
      (e : E) (effect : S → S) (partial : ℕ → S → S)
      → ((s : S) → P s → Q tt (effect s))
      → ((k : ℕ) (s : S) → P s → R (partial k s))
      → Triple P (io e effect partial) Q R
  unfolding io
  Triple-io e effect partial good bad = record { at = cases }
    where
      cases :
          (o : Oracle) (s : S)
          → P s
          → Post Q R (io e effect partial o s).result (io e effect partial o s).state
      cases [] s p = good s p
      cases (done ∷ o) s p = good s p
      cases (fails k ∷ o) s p = bad k s p

  pub Triple-modify : (f : S → S) → ((s : S) → P s → Q tt (f s)) → Triple {E = E} P (modify f) Q R
  unfolding modify
  Triple-modify f good = record { at = λ o s p. good s p }
