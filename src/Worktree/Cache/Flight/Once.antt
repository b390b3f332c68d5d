-- ===== src/Worktree/Cache/Flight/Once.antt =====
-- However the threads are scheduled in crates/worktree/src/lib.rs, an object is fetched once.
use git_lazy_mount.Prelude.{
  ℕ, ◌+◌, ◌≤◌, ◌≡◌, refl, ap, sym, ◌∙◌, Bool, true, false, Option, none, some, List, [], ◌∷◌, Bytes,
  arith, ◌==◌, ==_iff, ==_refl, if◌then◌else◌,
}
use git_lazy_mount.Worktree.Cache.Flight.{
  Place, entered, waiting, holding, fetching, returned, failed, staged, Flight, moved, at_place,
  leave, first_test, lock, second_test, not_renamed, step_at, turn, turns, called,
}

-- Under the lock.
unfoldable pub inside : Place → Bool
inside holding = true
inside fetching = true
inside (staged b) = true
inside _ = false

-- A fetch that is counted and not yet ended.
abbrev pub in_flight : Place → ℕ
in_flight fetching = 1
in_flight (staged b) = 1
in_flight _ = 0

abbrev pub owned : Option ℕ → (ℕ → Place) → ℕ
owned none place = 0
owned (some u) place = in_flight (place u)

abbrev pub there : Option Bytes → ℕ
there none = 0
there (some b) = 1

pub record IsOrdered (blob : Bytes) (s : Flight) : Type 0 where
  pub content : (b : Bytes) → s.published ≡ some b → b ≡ blob
  pub whole : (u : ℕ) (b : Bytes) → s.place u ≡ staged b → b ≡ blob
  pub has_lock : (u : ℕ) → inside (s.place u) ≡ true → s.owner ≡ some u
  pub lock_held : (u : ℕ) → s.owner ≡ some u → inside (s.place u) ≡ true
  pub count : s.counter ≡ s.failures + there s.published + owned s.owner s.place
  pub one : there s.published + owned s.owner s.place ≤ 1
  pub found : (u : ℕ) → s.place u ≡ returned → there s.published ≡ 1

pub called-IsOrdered : (blob : Bytes) → IsOrdered blob called
unfolding called inside
called-IsOrdered blob = record {
  content = λ b e. absurd (ground (arith, e));
  whole = λ u b e. absurd (ground (arith, e));
  has_lock = λ u e. absurd (ground (arith, e));
  lock_held = λ u e. absurd (ground (arith, e));
  count = refl;
  one = omega arith;
  found = λ u e. absurd (ground (arith, e));
}

owned-mine :
    (t : ℕ) (p : Place) (place : ℕ → Place) → owned (some t) (moved t p place) ≡ in_flight p
unfolding moved
owned-mine t p place = rw (==_refl t)

owned-theirs :
    (t : ℕ) (p : Place) (place : ℕ → Place) (o : Option ℕ)
    → (o ≡ some t → false ≡ true)
    → owned o (moved t p place) ≡ owned o place
unfolding moved
owned-theirs t p place none h = refl
owned-theirs t p place (some u) h = by_test (u == t) refl
  where
    by_test : (b : Bool) → (u == t) ≡ b → in_flight (if b then p else place u) ≡ in_flight (place u)
    by_test true e = absurd (ground (arith, h (ap some ((==_iff u t).0 e))))
    by_test false e = refl

-- A thread without the lock goes on to a place that does not need it.
outside-IsOrdered :
    (blob : Bytes) (t : ℕ) (p : Place) (s : Flight)
    → inside (s.place t) ≡ false
    → inside p ≡ false
    → (p ≡ returned → there s.published ≡ 1)
    → IsOrdered blob s
    → IsOrdered blob (at_place t p s)
unfolding at_place moved inside
outside-IsOrdered blob t p s at q r i =
    let same : owned s.owner (moved t p s.place) ≡ owned s.owner s.place =
      owned-theirs t p s.place s.owner (λ e. sym at ∙ i.lock_held t e) in
    record {
      content = i.content;
      whole = λ u c h. ground (arith, i.whole u c, h, q);
      has_lock = λ u h. ground (arith, i.has_lock u, h, q);
      lock_held = λ u h. ground (arith, i.lock_held u h, at, ==_iff u t);
      count = unfold at_place in omega (arith, i.count, same);
      one = unfold at_place in omega (arith, i.one, same);
      found = λ u h. ground (arith, i.found u, r, h);
    }

first_test-IsOrdered :
    (blob : Bytes) (t : ℕ) (o : Option Bytes) (s : Flight)
    → s.published ≡ o
    → s.place t ≡ entered
    → IsOrdered blob s
    → IsOrdered blob (first_test t o s)
unfolding first_test inside
first_test-IsOrdered blob t (some b) s e at i =
    outside-IsOrdered blob t returned s (rw at) refl (λ h. ap there e) i
first_test-IsOrdered blob t none s e at i =
    outside-IsOrdered blob t waiting s (rw at) refl (λ h. absurd (ground (arith, h))) i

lock-IsOrdered :
    (blob : Bytes) (t : ℕ) (o : Option ℕ) (s : Flight)
    → s.owner ≡ o
    → IsOrdered blob s
    → IsOrdered blob (lock t o s)
unfolding lock at_place moved inside
lock-IsOrdered blob t (some u) s e i = i
lock-IsOrdered blob t none s e i = record {
  content = i.content;
  whole = λ u c h. ground (arith, i.whole u c, h);
  has_lock = λ u h. ground (arith, i.has_lock u, h, e, ==_iff u t);
  lock_held = λ u h. ground (arith, h, ==_iff u t, ==_refl t);
  count = omega (arith, i.count, ap (λ o. owned o s.place) e, owned-mine t holding s.place);
  one = omega (arith, i.one, ap (λ o. owned o s.place) e, owned-mine t holding s.place);
  found = λ u h. ground (arith, i.found u, h);
}

-- The owner goes on under the lock.
onward-IsOrdered :
    (blob : Bytes) (t : ℕ) (p : Place) (n : ℕ) (s : Flight)
    → inside (s.place t) ≡ true
    → inside p ≡ true
    → ((b : Bytes) → p ≡ staged b → b ≡ blob)
    → n ≡ s.failures + there s.published + in_flight p
    → there s.published + in_flight p ≤ 1
    → IsOrdered blob s
    → IsOrdered blob (at_place t p (record s { counter = n }))
unfolding at_place moved inside
onward-IsOrdered blob t p n s at q w c le i =
    let mine : s.owner ≡ some t = i.has_lock t at in
    let flight : owned s.owner (moved t p s.place) ≡ in_flight p =
      ap (λ o. owned o (moved t p s.place)) mine ∙ owned-mine t p s.place in
    record {
      content = i.content;
      whole = λ u b h. ground (arith, i.whole u b, w b, h);
      has_lock = λ u h. ground (arith, i.has_lock u, mine, h, ==_iff u t);
      lock_held = λ u h. ground (arith, i.lock_held u h, q);
      count = omega (arith, c, flight);
      one = omega (arith, le, flight);
      found = λ u h. ground (arith, i.found u, q, h);
    }

-- The owner leaves.
leave-IsOrdered :
    (blob : Bytes) (t : ℕ) (p : Place) (f : ℕ) (o : Option Bytes) (s : Flight)
    → inside (s.place t) ≡ true
    → inside p ≡ false
    → ((b : Bytes) → o ≡ some b → b ≡ blob)
    → s.counter ≡ f + there o
    → there o ≤ 1
    → (p ≡ returned → there o ≡ 1)
    → there s.published ≤ there o
    → IsOrdered blob s
    → IsOrdered blob (leave t p (record s { failures = f; published = o }))
unfolding leave at_place moved inside
leave-IsOrdered blob t p f o s at q w c le r more i =
    let mine : s.owner ≡ some t = i.has_lock t at in
    record {
      content = w;
      whole = λ u b h. ground (arith, i.whole u b, q, h);
      has_lock = λ u h. ground (arith, i.has_lock u, mine, q, h, ==_iff u t);
      lock_held = λ u h. absurd (ground (arith, h));
      count = omega (arith, c);
      one = omega (arith, le);
      found = λ u h. ground (arith, i.found u, r, h, more, le);
    }

-- What the owner's place adds to the count.
owner_count :
    (blob : Bytes) (t : ℕ) (s : Flight)
    → inside (s.place t) ≡ true
    → IsOrdered blob s
    → (s.counter ≡ s.failures + there s.published + in_flight (s.place t))
      × (there s.published + in_flight (s.place t) ≤ 1)
owner_count blob t s at i =
    let same : owned s.owner s.place ≡ in_flight (s.place t) =
      ap (λ o. owned o s.place) (i.has_lock t at) in
    (omega (arith, i.count, same), omega (arith, i.one, same))

second_test-IsOrdered :
    (blob : Bytes) (t : ℕ) (o : Option Bytes) (s : Flight)
    → s.published ≡ o
    → s.place t ≡ holding
    → IsOrdered blob s
    → IsOrdered blob (second_test t o s)
unfolding second_test inside
second_test-IsOrdered blob t (some b) s e at i =
    let (c, le) = owner_count blob t s (rw at) i in
    leave-IsOrdered blob t returned s.failures s.published s (rw at) refl i.content
      (omega (arith, c, ap in_flight at)) (omega (arith, le)) (λ h. ap there e) (omega arith) i
second_test-IsOrdered blob t none s e at i =
    let (c, le) = owner_count blob t s (rw at) i in
    onward-IsOrdered blob t fetching (s.counter + 1) s (rw at) refl
      (λ b h. absurd (ground (arith, h))) (omega (arith, c, ap in_flight at))
      (omega (arith, ap there e)) i

not_renamed-IsOrdered :
    (blob : Bytes) (t : ℕ) (b : Bytes) (o : Option Bytes) (s : Flight)
    → s.published ≡ o
    → s.place t ≡ staged b
    → IsOrdered blob s
    → IsOrdered blob (not_renamed t o s)
unfolding not_renamed inside
not_renamed-IsOrdered blob t b (some d) s e at i =
    let (c, le) = owner_count blob t s (rw at) i in
    absurd (omega (arith, le, ap there e, ap in_flight at))
not_renamed-IsOrdered blob t b none s e at i =
    let (c, le) = owner_count blob t s (rw at) i in
    leave-IsOrdered blob t failed (s.failures + 1) s.published s (rw at) refl i.content
      (omega (arith, c, ap in_flight at)) (omega (arith, le)) (λ h. absurd (ground (arith, h)))
      (omega arith) i

step_at-IsOrdered :
    (blob : Bytes) (good : Bool) (t : ℕ) (p : Place) (s : Flight)
    → s.place t ≡ p
    → IsOrdered blob s
    → IsOrdered blob (step_at blob good t p s)
unfolding step_at inside
step_at-IsOrdered blob good t entered s at i = first_test-IsOrdered blob t s.published s refl at i
step_at-IsOrdered blob good t waiting s at i = lock-IsOrdered blob t s.owner s refl i
step_at-IsOrdered blob good t holding s at i = second_test-IsOrdered blob t s.published s refl at i
step_at-IsOrdered blob true t fetching s at i =
    let (c, le) = owner_count blob t s (rw at) i in
    onward-IsOrdered blob t (staged blob) s.counter s (rw at) refl (λ b h. ground (arith, h))
      (omega (arith, c, ap in_flight at)) (omega (arith, le, ap in_flight at)) i
step_at-IsOrdered blob false t fetching s at i =
    let (c, le) = owner_count blob t s (rw at) i in
    leave-IsOrdered blob t failed (s.failures + 1) s.published s (rw at) refl i.content
      (omega (arith, c, ap in_flight at)) (omega (arith, le)) (λ h. absurd (ground (arith, h)))
      (omega arith) i
step_at-IsOrdered blob true t (staged b) s at i =
    let (c, le) = owner_count blob t s (rw at) i in
    leave-IsOrdered blob t returned s.failures (some b) s (rw at) refl
      (λ d h. ground (arith, i.whole t b at, h)) (omega (arith, c, le, ap in_flight at))
      (omega arith) (λ h. refl) (omega (arith, le)) i
step_at-IsOrdered blob false t (staged b) s at i =
    not_renamed-IsOrdered blob t b s.published s refl at i
step_at-IsOrdered blob good t returned s at i = i
step_at-IsOrdered blob good t failed s at i = i

pub turns-IsOrdered :
    (blob : Bytes) (schedule : List (ℕ × Bool)) (s : Flight)
    → IsOrdered blob s
    → IsOrdered blob (turns blob schedule s)
unfolding turns turn
turns-IsOrdered blob [] s i = i
turns-IsOrdered blob ((t, good) ∷ rest) s i =
    turns-IsOrdered blob rest (turn blob (t, good) s)
      (step_at-IsOrdered blob good t (s.place t) s refl i)

-- Any number of threads ask for one object that is not cached, scheduled in any way, and any of
-- the fetches and renames may fail. If the file is then there under its final name, it holds the
-- bytes of the object, whole; and the object was fetched once more often than an attempt failed.
pub turns_once :
    (blob : Bytes) (schedule : List (ℕ × Bool)) (b : Bytes)
    → (turns blob schedule called).published ≡ some b
    → (b ≡ blob)
      × ((turns blob schedule called).counter ≡ (turns blob schedule called).failures + 1)
turns_once blob schedule b h =
    let i = turns-IsOrdered blob schedule called (called-IsOrdered blob) in
    (i.content b h, omega (arith, i.count, i.one, ap there h))
