-- ===== src/Worktree/Cache/Tests.antt =====
-- Threads that ask for one object, jobs of a pool, and stats in a directory.
use git_lazy_mount.Prelude.{
  ℕ, ◌+◌, ◌*◌, ◌≤◌, ◌≡◌, refl, Bool, true, false, some, none, List, [], ◌∷◌, Bytes, codes, length,
  arith,
}
use git_lazy_mount.Core.RepoPath.{RepoPath}
use git_lazy_mount.Worktree.{Projection}
use git_lazy_mount.Worktree.Tests.{start}
use git_lazy_mount.Worktree.Cache.Priority.{content_priority}
use git_lazy_mount.Worktree.Cache.Flight.{waiting, returned, turns, called}
use git_lazy_mount.Worktree.Cache.Flight.Once.{turns_once}
use git_lazy_mount.Worktree.Cache.Flight.Progress.{turns_progress}
use git_lazy_mount.Worktree.Cache.Sizes.{prefetch_dir_threshold}
use git_lazy_mount.Worktree.Cache.Sizes.Budget.{
  Event, begins, fetched, metered, Within, metered_bounded,
}
use git_lazy_mount.Worktree.Cache.Sizes.Armed.{Stat, warmed, times, stats_in, cold, warmed_once}

abbrev blob : Bytes
blob = codes "x"

-- Both threads wait; the first has its fetch fail, the second succeeds.
abbrev two_threads : List (ℕ × Bool)
two_threads =
    (0, true)
    ∷ (1, true)
    ∷ (0, true)
    ∷ (0, true)
    ∷ (0, false)
    ∷ (1, true)
    ∷ (1, true)
    ∷ (1, true)
    ∷ (1, true)
    ∷ []

published : (turns blob two_threads called).published ≡ some blob
unfolding turns called
published = refl

turns_once_example :
    (blob ≡ blob)
    × ((turns blob two_threads called).counter ≡ (turns blob two_threads called).failures + 1)
turns_once_example = turns_once blob two_threads blob published

-- The first thread is at its fetch, under the lock, and the second waits.
abbrev one_fetches : List (ℕ × Bool)
one_fetches = (0, true) ∷ (1, true) ∷ (0, true) ∷ (0, true) ∷ []

is_waiting : (turns blob one_fetches called).place 1 ≡ waiting
unfolding turns called
is_waiting = refl

turns_progress_example :
    (more : List (ℕ × Bool)) × (length more ≤ 8)
    × ((turns blob more (turns blob one_fetches called)).place 1 ≡ returned)
turns_progress_example =
    turns_progress blob one_fetches 1 (λ e. absurd (ground (arith, is_waiting, e)))

abbrev jobs : List Event
jobs = begins ∷ begins ∷ fetched 7 ∷ fetched 5 ∷ begins ∷ []

jobs-Within : Within 8 jobs
unfolding Within
jobs-Within = (omega arith, (omega arith, tt))

metered_bounded_example :
    ((metered 10 jobs (record { bytes = 0; idle = 2; busy = 0 })).bytes
      ≤ 10 + (metered 10 jobs (record { bytes = 0; idle = 2; busy = 0 })).idle * 8)
    × ((metered 10 jobs (record { bytes = 0; idle = 2; busy = 0 })).idle ≤ 2)
metered_bounded_example = metered_bounded 10 8 2 jobs jobs-Within

abbrev root_path : RepoPath
root_path = record { bytes = [] }

-- The kernel knows a file of the root directory by the number 2.
abbrev looked_up : Projection
looked_up = record start {
  inodes = record {
    next_ino = 3;
    generation = 1;
    path_to_ino = (record { bytes = codes "a" }, 2) ∷ [];
    entries =
        (2, record { path = some (record { bytes = codes "a" }); lookups = 1; generation = 1 })
        ∷ [];
  };
}

abbrev five_stats : List Stat
five_stats = (2, 0) ∷ (2, 0) ∷ (2, 0) ∷ (2, 0) ∷ (2, 0) ∷ []

root_is_warmed : warmed looked_up five_stats cold ≡ root_path ∷ []
unfolding warmed git_lazy_mount.Worktree.Cache.Sizes.prefetch_siblings
    git_lazy_mount.Worktree.path_of git_lazy_mount.Inode.path_of git_lazy_mount.Prelude.Map.get
    git_lazy_mount.Core.RepoPath.parent git_lazy_mount.Core.RepoPath.rposition
    git_lazy_mount.Prelude.Map.insert git_lazy_mount.Prelude.bytes_eq cold
root_is_warmed = refl

warmed_once_example :
    (times root_path (warmed looked_up five_stats cold) ≤ 1)
    × (times root_path (warmed looked_up five_stats cold) * prefetch_dir_threshold
        ≤ stats_in looked_up root_path five_stats)
warmed_once_example = warmed_once looked_up five_stats root_path

is_source : content_priority (codes "Main.RS") ≡ some 1
unfolding content_priority git_lazy_mount.Worktree.Cache.Priority.lowercase
    git_lazy_mount.Prelude.bytes_eq git_lazy_mount.Prelude.elem
is_source = refl
