-- ===== src/Worktree/Cache/Sizes/Armed.antt =====
-- `prefetch_siblings` of crates/worktree/src/lib.rs over any sequence of stats.
use git_lazy_mount.Prelude.{
  ℕ, ◌+◌, ◌*◌, ◌≤◌, ◌≡◌, refl, ap, sym, subst, ◌∙◌, Bool, true, false, Option, none, some, List, [],
  ◌∷◌, arith, leb, ltb, if◌then◌else◌, inl, inr, ◌⊎◌,
}
use git_lazy_mount.Prelude.Map
use git_lazy_mount.Prelude.Map.{get-insert, equals_refl}
use git_lazy_mount.Core.RepoPath.{RepoPath, path_key, path_eq_iff}
use git_lazy_mount.Worktree.{Projection}
use git_lazy_mount.Worktree.Cache.Sizes.{
  Warmth, prefetch_siblings, prefetch_in, stat_counted, parent_of, has_path, count_or_zero,
  prefetch_dir_threshold, prefetch_byte_budget,
}

-- A stat of an inode, with the bytes that the pool has counted by then.
abbrev pub Stat : Type 0
Stat = ℕ × ℕ

-- The directories that are warmed, in the order of the stats.
unfoldable pub warmed : Projection → List Stat → Warmth → List RepoPath
warmed s [] w = []
warmed s ((ino, bytes) ∷ rest) w =
    let next = prefetch_siblings s ino (record w { prefetch_bytes = bytes }) in
    let below = warmed s rest next.1 in elim (next.0) [ none ↦ below | some p ↦ p ∷ below ]

one_if : Bool → ℕ
one_if true = 1
one_if false = 0

-- How often a directory is in a list.
unfoldable pub times : RepoPath → List RepoPath → ℕ
unfolding one_if
times p [] = 0
times p (q ∷ qs) = one_if (path_key.equals p q) + times p qs

is_in : RepoPath → Option RepoPath → ℕ
unfolding one_if
is_in p none = 0
is_in p (some q) = one_if (path_key.equals p q)

-- How many of the stats are in a directory.
unfoldable pub stats_in : Projection → RepoPath → List Stat → ℕ
unfolding is_in
stats_in s p [] = 0
stats_in s p ((ino, bytes) ∷ rest) = is_in p (parent_of s ino) + stats_in s p rest

stats_of : RepoPath → Warmth → ℕ
unfolding count_or_zero
stats_of p w = count_or_zero (Map.get p w.dir_stat_counts)

-- What one stat does for a directory.
record Counts (p : RepoPath) (n : ℕ) (w : Warmth) (r : Option RepoPath) (v : Warmth) : Type 0 where
  stats : stats_of p v ≡ n + stats_of p w
  before : is_in p r ≡ 1 → has_path p w.prefetched_dirs ≡ false
  after :
      is_in p r ≡ 1
      → (has_path p v.prefetched_dirs ≡ true) × (prefetch_dir_threshold ≤ stats_of p v)
  kept : has_path p w.prefetched_dirs ≡ true → has_path p v.prefetched_dirs ≡ true
  few : is_in p r ≤ 1

-- The count of a directory after one more stat in a directory.
stat_counted-stats_of :
    (p d : RepoPath) (w : Warmth)
    → stats_of p (stat_counted d w) ≡ one_if (path_key.equals p d) + stats_of p w
unfolding stat_counted stats_of one_if count_or_zero
stat_counted-stats_of p d w = ground (
  arith,
  get-insert d p (count_or_zero (Map.get d w.dir_stat_counts) + 1) w.dir_stat_counts,
  path_eq_iff d p,
  path_eq_iff p d,
)

-- No directory is armed.
unarmed : (p d : RepoPath) (w : Warmth) → Counts p (is_in p (some d)) w none (stat_counted d w)
unfolding is_in stat_counted
unarmed p d w = record {
  stats = stat_counted-stats_of p d w;
  before = λ h. absurd (omega (arith, h));
  after = λ h. absurd (omega (arith, h));
  kept = λ h. h;
  few = omega arith;
}

one_if-true : (b : Bool) → one_if b ≡ 1 → b ≡ true
unfolding one_if
one_if-true true h = refl
one_if-true false h = absurd (omega (arith, h))

one_if-le : (b : Bool) → one_if b ≤ 1
unfolding one_if
one_if-le true = omega arith
one_if-le false = omega arith

same_path : (p d : RepoPath) → is_in p (some d) ≡ 1 → p ≡ d
unfolding is_in
same_path p d h = (path_eq_iff p d).0 (one_if-true (path_key.equals p d) h)

armed :
    (p d : RepoPath) (w : Warmth)
    → prefetch_dir_threshold ≤ stats_of d (stat_counted d w)
    → has_path d w.prefetched_dirs ≡ false
    → Counts p
        (is_in p (some d))
        w
        (some d)
        (record (stat_counted d w) { prefetched_dirs = d ∷ w.prefetched_dirs })
unfolding has_path stat_counted stats_of
armed p d w enough new = record {
  stats = unfold is_in in stat_counted-stats_of p d w;
  before = λ h. ap (λ x. has_path x w.prefetched_dirs) (same_path p d h) ∙ new;
  after = λ h. (
    ground (arith, (path_eq_iff p d).1 (same_path p d h)),
    subst (λ x. prefetch_dir_threshold ≤ stats_of x (stat_counted d w)) (sym (same_path p d h))
        enough,
  );
  kept = λ h. ground (arith, h);
  few = unfold is_in in one_if-le (path_key.equals p d);
}

prefetch_in-Counts :
    (p : RepoPath) (d : Option RepoPath) (w : Warmth)
    → Counts p (is_in p d) w (prefetch_in d w).0 (prefetch_in d w).1
unfolding prefetch_in Map.get stats_of
prefetch_in-Counts p none w =
    unfold is_in in
    record {
      stats = omega arith;
      before = λ h. absurd (omega (arith, h));
      after = λ h. absurd (omega (arith, h));
      kept = λ h. h;
      few = omega arith;
    }
prefetch_in-Counts p (some d) w =
    by_tests (ltb (stats_of d (stat_counted d w)) prefetch_dir_threshold)
      (leb prefetch_byte_budget w.prefetch_bytes) (has_path d w.prefetched_dirs) refl refl
  where
    step : Bool → Bool → Bool → Option RepoPath × Warmth
    step few spent old =
        if few
        then (none, stat_counted d w)
        else if spent
        then (none, stat_counted d w)
        else if old
        then (none, stat_counted d w)
        else (some d, record (stat_counted d w) { prefetched_dirs = d ∷ w.prefetched_dirs })

    by_tests :
        (few spent old : Bool)
        → ltb (stats_of d (stat_counted d w)) prefetch_dir_threshold ≡ few
        → has_path d w.prefetched_dirs ≡ old
        → Counts p (is_in p (some d)) w (step few spent old).0 (step few spent old).1
    by_tests true spent old e f = unarmed p d w
    by_tests false true old e f = unarmed p d w
    by_tests false false true e f = unarmed p d w
    by_tests false false false e f = armed p d w (le_of (stats_of d (stat_counted d w)) e) f
      where
        le_of : (n : ℕ) → ltb n prefetch_dir_threshold ≡ false → prefetch_dir_threshold ≤ n
        le_of n k = ground (arith, k)

-- Nothing is counted and no directory is armed yet.
unfoldable pub cold : Warmth
cold = record {
  size_cache = [];
  size_faults = 0;
  dir_stat_counts = [];
  prefetched_dirs = [];
  prefetch_bytes = 0;
  hydrated_dirs = [];
  hydrate_bytes = 0;
  materialized = [];
}

times-with :
    (p : RepoPath) (r : Option RepoPath) (below : List RepoPath)
    → times p (elim r [ none ↦ below | some q ↦ q ∷ below ]) ≡ is_in p r + times p below
unfolding times is_in
times-with p none below = omega arith
times-with p (some q) below = refl

-- The same for all counters and sets.
warmed-bounds :
    (p : RepoPath) (s : Projection) (stats : List Stat) (w : Warmth)
    → (times p (warmed s stats w) + one_if (has_path p w.prefetched_dirs) ≤ 1)
      × (times p (warmed s stats w) * prefetch_dir_threshold ≤ stats_in s p stats + stats_of p w)
unfolding warmed stats_in times prefetch_siblings stats_of
warmed-bounds p s [] w = (omega (arith, one_if-le (has_path p w.prefetched_dirs)), omega arith)
warmed-bounds p s ((ino, bytes) ∷ rest) w =
    let d = parent_of s ino in
    let v = record w { prefetch_bytes = bytes } in
    let next = prefetch_in d v in
    let c = prefetch_in-Counts p d v in
    let (le, few) = warmed-bounds p s rest next.1 in
    let e = times-with p next.0 (warmed s rest next.1) in
    elim (at_most_one (is_in p next.0) c.few) [
      | inl h ↦ (
        omega (
          arith,
          le,
          e,
          h,
          kept (has_path p w.prefetched_dirs) (has_path p next.1.prefetched_dirs) c.kept,
        ),
        omega (arith, few, e, h, c.stats),
      )
      | inr h ↦ (
        omega (arith, le, e, h, ap one_if (c.after h).0, ap one_if (c.before h)),
        omega (arith, le, e, h, ap one_if (c.after h).0, (c.after h).1, c.stats),
      )
    ]
  where
    at_most_one : (n : ℕ) → n ≤ 1 → (n ≡ 0) ⊎ (n ≡ 1)
    at_most_one n h = ground (arith, h)

    kept : (a b : Bool) → (a ≡ true → b ≡ true) → one_if a ≤ one_if b
    kept true b h = omega (arith, ap one_if (h refl))
    kept false b h = unfold one_if in omega arith

-- Serve any sequence of stats, with any bytes counted at each, nothing being counted or armed at
-- first. Then each directory is warmed at most once, and only if there are four stats in it.
pub warmed_once :
    (s : Projection) (stats : List Stat) (p : RepoPath)
    → (times p (warmed s stats cold) ≤ 1)
      × (times p (warmed s stats cold) * prefetch_dir_threshold ≤ stats_in s p stats)
warmed_once s stats p =
    let (le, few) = warmed-bounds p s stats cold in
    (omega (arith, le), omega (arith, few, none_counted))
  where
    none_counted : stats_of p cold ≡ 0
    none_counted = unfold cold stats_of Map.get count_or_zero in refl
