-- ===== src/Worktree/Cache/Flight/Progress.antt =====
-- No thread in crates/worktree/src/lib.rs can be kept from its object for good.
use git_lazy_mount.Prelude.{
  ℕ, suc, ◌+◌, ◌≤◌, ◌≡◌, ◌≢◌, inl, inr, refl, sym, subst, Bool, true, false, Option, none, some,
  List, [], ◌∷◌, ◌++◌, Bytes, arith, length, length-append, ◌==◌, ==_iff, ==_refl, Option-cases,
}
use git_lazy_mount.Worktree.Cache.Flight.{
  Place, entered, waiting, holding, fetching, returned, failed, staged, Flight, moved, at_place,
  leave, first_test, lock, second_test, step_at, turn, turns, called,
}
use git_lazy_mount.Worktree.Cache.Flight.Once.{inside, IsOrdered, turns-IsOrdered, called-IsOrdered}

-- At most `n` turns, in which nothing fails, lead to a state in `P`.
record Reaches (blob : Bytes) (n : ℕ) (P : Flight → Type 0) (s : Flight) : Type 0 where
  schedule : List (ℕ × Bool)
  few : length schedule ≤ n
  there : P (turns blob schedule s)

at_once : (blob : Bytes) (n : ℕ) (P : Flight → Type 0) (s : Flight) → P s → Reaches blob n P s
unfolding turns
at_once blob n P s h = record { schedule = []; few = omega arith; there = h }

after_turn :
    (blob : Bytes) (n u : ℕ) (P : Flight → Type 0) (s : Flight)
    → Reaches blob n P (turn blob (u, true) s)
    → Reaches blob (suc n) P s
unfolding turns
after_turn blob n u P s g = record {
  schedule = (u, true) ∷ g.schedule;
  few = omega (arith, g.few);
  there = g.there;
}

turns-append :
    (blob : Bytes) (a b : List (ℕ × Bool)) (s : Flight)
    → turns blob (a ++ b) s ≡ turns blob b (turns blob a s)
unfolding turns
turns-append blob [] b s = refl
turns-append blob (x ∷ a) b s = turns-append blob a b (turn blob x s)

-- One run behind another.
in_turn :
    (blob : Bytes) (n m : ℕ) (P Q : Flight → Type 0) (s : Flight)
    → Reaches blob n P s
    → ((t : Flight) → P t → Reaches blob m Q t)
    → Reaches blob (n + m) Q s
in_turn blob n m P Q s g f =
    let k = f (turns blob g.schedule s) g.there in
    record {
      schedule = g.schedule ++ k.schedule;
      few = omega (arith, length-append {0} g.schedule k.schedule, g.few, k.few);
      there = subst Q (sym (turns-append blob g.schedule k.schedule s)) k.there;
    }

moved_self : (t : ℕ) (p : Place) (place : ℕ → Place) → moved t p place t ≡ p
unfolding moved
moved_self t p place = rw (==_refl t)

-- `u` has returned and the lock is free; `t`, if another, is at `q`.
record Left (u t : ℕ) (q : Place) (s : Flight) : Type 0 where
  back : s.place u ≡ returned
  free : s.owner ≡ none
  other : (t == u) ≡ false → s.place t ≡ q

module _ (blob : Bytes) (u t : ℕ) (q : Place) where
  moved_other :
      (p : Place) (place : ℕ → Place)
      → ((t == u) ≡ false → place t ≡ q)
      → (t == u) ≡ false
      → moved u p place t ≡ q
  unfolding moved
  moved_other p place h k = rw k (h k)

  from_staged :
      (b : Bytes) (s : Flight)
      → s.place u ≡ staged b
      → ((t == u) ≡ false → s.place t ≡ q)
      → Reaches blob 1 (Left u t q) s
  unfolding turn step_at leave at_place
  from_staged b s h k = after_turn blob 0 u _ s (
      at_once blob 0 _ _ (
        rw h (record {
          back = moved_self u returned s.place;
          free = refl;
          other = moved_other returned s.place k;
        })))

  from_fetching :
      (s : Flight)
      → s.place u ≡ fetching
      → ((t == u) ≡ false → s.place t ≡ q)
      → Reaches blob 2 (Left u t q) s
  unfolding turn step_at at_place
  from_fetching s h k = after_turn blob 1 u _ s (
      from_staged blob _ (rw h (moved_self u (staged blob) s.place))
        (rw h (moved_other (staged blob) s.place k)))

  from_holding :
      (s : Flight)
      → s.place u ≡ holding
      → ((t == u) ≡ false → s.place t ≡ q)
      → Reaches blob 3 (Left u t q) s
  unfolding turn step_at second_test leave at_place
  from_holding s h k = elim (Option-cases s.published) [
    | inl e ↦ after_turn blob 2 u _ s (
        from_fetching _ (rw (h, e) (moved_self u fetching s.place))
          (rw (h, e) (moved_other fetching s.place k)))
    | inr (b, e) ↦ after_turn blob 2 u _ s (
        at_once blob 2 _ _ (
          rw (h, e)
            (record {
              back = moved_self u returned s.place;
              free = refl;
              other = moved_other returned s.place k;
            })))
  ]

  from_inside :
      (s : Flight) (p : Place)
      → s.place u ≡ p
      → inside p ≡ true
      → ((t == u) ≡ false → s.place t ≡ q)
      → Reaches blob 3 (Left u t q) s
  unfolding inside
  from_inside s holding h i k = from_holding s h k
  from_inside s fetching h i k = more 2 s (from_fetching s h k)
    where
      more :
          (n : ℕ) (s : Flight) → Reaches blob n (Left u t q) s → Reaches blob (suc n) (Left u t q) s
      more n s g = record { schedule = g.schedule; few = omega (arith, g.few); there = g.there }
  from_inside s (staged b) h i k = record {
    schedule = g.schedule;
    few = omega (arith, g.few);
    there = g.there;
  }
    where
      g : Reaches blob 1 (Left u t q) s
      g = from_staged b s h k
  from_inside s entered h i k = absurd (ground (arith, i))
  from_inside s waiting h i k = absurd (ground (arith, i))
  from_inside s returned h i k = absurd (ground (arith, i))
  from_inside s failed h i k = absurd (ground (arith, i))

  from_waiting :
      (s : Flight)
      → s.owner ≡ none
      → s.place u ≡ waiting
      → ((t == u) ≡ false → s.place t ≡ q)
      → Reaches blob 4 (Left u t q) s
  unfolding turn step_at lock at_place
  from_waiting s o h k = after_turn blob 3 u _ s (
      from_holding _ (rw (h, o) (moved_self u holding s.place))
        (rw (h, o) (moved_other holding s.place k)))

  from_entered :
      (s : Flight)
      → s.owner ≡ none
      → s.place u ≡ entered
      → ((t == u) ≡ false → s.place t ≡ q)
      → Reaches blob 5 (Left u t q) s
  unfolding turn step_at first_test at_place
  from_entered s o h k = elim (Option-cases s.published) [
    | inl e ↦ after_turn blob 4 u _ s (
        from_waiting _ (rw (h, e) o) (rw (h, e) (moved_self u waiting s.place))
          (rw (h, e) (moved_other waiting s.place k)))
    | inr (b, e) ↦ after_turn blob 4 u _ s (
        at_once blob 4 _ _ (
          rw (h, e)
            (record {
              back = moved_self u returned s.place;
              free = o;
              other = moved_other returned s.place k;
            })))
  ]

abbrev Back : ℕ → Flight → Type 0
Back t s = s.place t ≡ returned

-- The same run, of which less is asked.
less :
    (blob : Bytes) (n m : ℕ) (P Q : Flight → Type 0) (s : Flight)
    → n ≤ m
    → ((t : Flight) → P t → Q t)
    → Reaches blob n P s
    → Reaches blob m Q s
less blob n m P Q s le f g = record {
  schedule = g.schedule;
  few = omega (arith, g.few, le);
  there = f (turns blob g.schedule s) g.there;
}

when_free :
    (blob : Bytes) (t : ℕ) (p : Place) (s : Flight)
    → s.owner ≡ none
    → s.place t ≡ p
    → inside p ≡ false
    → (p ≡ failed → false ≡ true)
    → Reaches blob 5 (Back t) s
unfolding inside
when_free blob t entered s o h i f =
    less blob 5 5 (Left t t entered) (Back t) s (omega arith) (λ r l. l.back)
      (from_entered blob t t entered s o h (λ k. h))
when_free blob t waiting s o h i f =
    less blob 4 5 (Left t t waiting) (Back t) s (omega arith) (λ r l. l.back)
      (from_waiting blob t t waiting s o h (λ k. h))
when_free blob t returned s o h i f = at_once blob 5 (Back t) s h
when_free blob t failed s o h i f = absurd (ground (arith, f refl))
when_free blob t holding s o h i f = absurd (ground (arith, i))
when_free blob t fetching s o h i f = absurd (ground (arith, i))
when_free blob t (staged b) s o h i f = absurd (ground (arith, i))

-- The owner leaves first, if there is one.
when_ordered :
    (blob : Bytes) (t : ℕ) (s : Flight)
    → IsOrdered blob s
    → (s.place t ≡ failed → false ≡ true)
    → Reaches blob 8 (Back t) s
when_ordered blob t s i f = by_owner s.owner refl
  where
    free_of : (b : Bool) → inside (s.place t) ≡ b → s.owner ≡ none → inside (s.place t) ≡ false
    free_of false e o = e
    free_of true e o = absurd (ground (arith, i.has_lock t e, o))

    by_test :
        (u : ℕ) (b : Bool)
        → s.owner ≡ some u
        → (t == u) ≡ b
        → (r : Flight) → Left u t (s.place t) r
        → Reaches blob 5 (Back t) r
    by_test u true o e r l =
        at_once blob 5 (Back t) r
          (subst (λ x. r.place x ≡ returned) (sym ((==_iff t u).0 e)) l.back)
    by_test u false o e r l =
        when_free blob t (s.place t) r l.free (l.other e) (outside (inside (s.place t)) refl) f
      where
        outside : (b : Bool) → inside (s.place t) ≡ b → inside (s.place t) ≡ false
        outside false k = k
        outside true k = absurd (ground (arith, i.has_lock t k, o, e, ==_iff t u))

    by_owner : (o : Option ℕ) → s.owner ≡ o → Reaches blob 8 (Back t) s
    by_owner none o =
        less blob 5 8 (Back t) (Back t) s (omega arith) (λ r l. l)
          (when_free blob t (s.place t) s o refl (free_of (inside (s.place t)) refl o) f)
    by_owner (some u) o =
        in_turn blob 3 5 (Left u t (s.place t)) (Back t) s
          (from_inside blob u t (s.place t) s (s.place u) refl (i.lock_held u o) (λ k. refl))
          (by_test u (t == u) o refl)

-- After any schedule of threads that ask for one object that is not cached, a given thread has not
-- ended in an error. Then there is a schedule of at most eight further turns after which that
-- thread has returned.
pub turns_progress :
    (blob : Bytes) (schedule : List (ℕ × Bool)) (t : ℕ)
    → (turns blob schedule called).place t ≢ failed
    → (more : List (ℕ × Bool)) × (length more ≤ 8)
      × ((turns blob more (turns blob schedule called)).place t ≡ returned)
turns_progress blob schedule t h =
    let r =
      when_ordered blob t (turns blob schedule called)
        (turns-IsOrdered blob schedule called (called-IsOrdered blob)) (λ e. absurd (h e)) in
    (r.schedule, r.few, r.there)
