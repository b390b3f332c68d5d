-- ===== src/Worktree/Cache/Sizes.antt =====
-- `cached_size` and the speculative prefetch of sizes and contents of crates/worktree/src/lib.rs:
-- when a directory is warmed, what is fetched for it, and how the budgets are kept.
pub mod Budget
pub mod Armed
use git_lazy_mount.Prelude.{
  ℕ, zero, suc, ◌+◌, ◌*◌, Bool, true, false, not, ◌||◌, ◌&&◌, Option, none, some, List, [], ◌∷◌,
  ◌++◌, Bytes, length, take, leb, ltb, if◌then◌else◌, is_empty,
}
use git_lazy_mount.Prelude.Map
use git_lazy_mount.Prelude.Map.{Map}
use git_lazy_mount.Prelude.Result.{Result, ok, err}
use git_lazy_mount.Core.RepoPath.{RepoPath, PathError, path_key, parent, join}
use git_lazy_mount.Core.GitMode.{GitMode, regular, executable, symlink}
use git_lazy_mount.Core.ObjectId.{ObjectId, id_key}
use git_lazy_mount.Core.Tree.{TreeEntry}
use git_lazy_mount.Overlay
use git_lazy_mount.Overlay.{Overlay}
use git_lazy_mount.Worktree.{Env, Projection, WorktreeError, Resolved, directory, path_of, resolve}
use git_lazy_mount.Worktree.Cache.Priority.{content_priority}

abbrev pub prefetch_dir_threshold : ℕ
prefetch_dir_threshold = 4

abbrev pub prefetch_dir_cap : ℕ
prefetch_dir_cap = 512

abbrev pub prefetch_byte_budget : ℕ
prefetch_byte_budget = 33554432

abbrev pub hydrate_dir_cap : ℕ
hydrate_dir_cap = 256

abbrev pub hydrate_byte_budget : ℕ
hydrate_byte_budget = 268435456

abbrev pub hydrate_large_blob : ℕ
hydrate_large_blob = 4194304

-- The caches and counters of `Projection`. `materialized` are the blobs in the cache directory.
pub record Warmth : Type 0 where
  pub size_cache : Map ObjectId ℕ
  pub size_faults : ℕ
  pub dir_stat_counts : Map RepoPath ℕ
  pub prefetched_dirs : List RepoPath
  pub prefetch_bytes : ℕ
  pub hydrated_dirs : List RepoPath
  pub hydrate_bytes : ℕ
  pub materialized : List ObjectId

-- A set.
unfoldable pub has_path : RepoPath → List RepoPath → Bool
has_path p [] = false
has_path p (q ∷ qs) = path_key.equals p q || has_path p qs

unfoldable pub has_id : ObjectId → List ObjectId → Bool
has_id p [] = false
has_id p (q ∷ qs) = id_key.equals p q || has_id p qs

or_fault : Env → ObjectId → Option ℕ → Warmth → Option ℕ × Warmth
or_fault env oid none w = (none, w)
or_fault env oid (some n) w = (
  some n,
  record w { size_cache = Map.insert oid n w.size_cache; size_faults = w.size_faults + 1 },
)

from_cache : Env → ObjectId → Option ℕ → Warmth → Option ℕ × Warmth
unfolding or_fault
from_cache env oid (some n) w = (some n, w)
from_cache env oid none w = or_fault env oid (env.blob_size oid) w

-- As one thread runs it. `none` is an error of Git.
unfoldable pub cached_size : Env → ObjectId → Warmth → Option ℕ × Warmth
unfolding from_cache
cached_size env oid w = from_cache env oid (Map.get oid w.size_cache) w

count_or_zero : Option ℕ → ℕ
count_or_zero none = 0
count_or_zero (some n) = n

-- The parent of the path of an inode, `none` where there is none.
unfoldable pub parent_of : Projection → ℕ → Option RepoPath
parent_of s ino = elim (path_of s ino) [ err e ↦ none | ok path ↦ parent path ]

-- One more stat in a directory.
stat_counted : RepoPath → Warmth → Warmth
unfolding count_or_zero
stat_counted p w = record w {
  dir_stat_counts =
      Map.insert p (count_or_zero (Map.get p w.dir_stat_counts) + 1) w.dir_stat_counts;
}

-- What follows the count: the directory that is to be warmed, if any.
arm : RepoPath → Warmth → Option RepoPath × Warmth
unfolding count_or_zero has_path
arm p w =
    if ltb (count_or_zero (Map.get p w.dir_stat_counts)) prefetch_dir_threshold
    then (none, w)
    else if leb prefetch_byte_budget w.prefetch_bytes
    then (none, w)
    else if has_path p w.prefetched_dirs
    then (none, w)
    else (some p, record w { prefetched_dirs = p ∷ w.prefetched_dirs })

prefetch_in : Option RepoPath → Warmth → Option RepoPath × Warmth
unfolding stat_counted arm
prefetch_in none w = (none, w)
prefetch_in (some p) w = arm p (stat_counted p w)

-- The directory whose warming is put into the pool, if any.
unfoldable pub prefetch_siblings : Projection → ℕ → Warmth → Option RepoPath × Warmth
unfolding prefetch_in parent_of
prefetch_siblings s ino w = prefetch_in (parent_of s ino) w

readahead_in : Option RepoPath → Warmth → Option RepoPath × Warmth
unfolding has_path
readahead_in none w = (none, w)
readahead_in (some p) w =
    if leb hydrate_byte_budget w.hydrate_bytes
    then (none, w)
    else if has_path p w.hydrated_dirs
    then (none, w)
    else (some p, record w { hydrated_dirs = p ∷ w.hydrated_dirs })

unfoldable pub readahead_on_open : Projection → ℕ → Warmth → Option RepoPath × Warmth
unfolding readahead_in parent_of
readahead_on_open s ino w = readahead_in (parent_of s ino) w

abbrev is_blob : GitMode → Bool
is_blob regular = true
is_blob executable = true
is_blob symlink = true
is_blob _ = false

-- The overlay has no entry at the name.
clean : Overlay → Result PathError RepoPath → Bool
clean o (err e) = false
clean o (ok child) = elim (Overlay.lookup o child) [ none ↦ true | some e ↦ false ]

abbrev is_known : Option ℕ → Bool
is_known none = false
is_known (some n) = true

-- The loop of `warm_dir_siblings`: the blobs whose sizes are put into the pool; `n` is how many
-- there are before.
size_jobs : Overlay → RepoPath → Warmth → ℕ → List TreeEntry → List ObjectId
unfolding clean
size_jobs o dir w n [] = []
size_jobs o dir w n (e ∷ es) =
    let skipped = size_jobs o dir w n es in
    let taken = size_jobs o dir w (n + 1) es in
    if leb prefetch_dir_cap n || leb prefetch_byte_budget w.prefetch_bytes
    then []
    else if is_blob (e.mode)
        && clean o (join dir e.name)
        && not (is_known (Map.get (e.object_id) w.size_cache))
    then e.object_id ∷ taken
    else skipped

-- The tree of a directory that is resolved, read without a fetch.
entries_of : Env → Result WorktreeError (Option Resolved) → List TreeEntry
entries_of env (ok (some (directory (some t)))) = elim (env.read_tree t) [
  | none ↦ []
  | some es ↦ es
]
entries_of env _ = []

unfoldable pub warm_dir_siblings : Env → Projection → RepoPath → Warmth → List ObjectId
unfolding size_jobs entries_of
warm_dir_siblings env s dir w = size_jobs s.overlay dir w 0 (entries_of env (resolve env s dir))

-- A blob that is known to be large is skipped.
abbrev is_small : Option ℕ → Bool
is_small none = true
is_small (some n) = leb n hydrate_large_blob

with_tier : Option ℕ → ObjectId → List (ℕ × ObjectId) → List (ℕ × ObjectId)
with_tier none oid rest = rest
with_tier (some tier) oid rest = (tier, oid) ∷ rest

-- The loop of `warm_dir_content_siblings` over the tree.
eligible : Overlay → RepoPath → Warmth → List TreeEntry → List (ℕ × ObjectId)
unfolding clean with_tier has_id
eligible o dir w [] = []
eligible o dir w (e ∷ es) =
    let rest = eligible o dir w es in
    if is_blob (e.mode)
      && clean o (join dir e.name)
      && not (has_id (e.object_id) w.materialized)
      && is_small (Map.get (e.object_id) w.size_cache)
    then with_tier (content_priority e.name) (e.object_id) rest
    else rest

-- `sort_by_key` of the tiers, which is stable.
insert_tier : ℕ × ObjectId → List (ℕ × ObjectId) → List (ℕ × ObjectId)
insert_tier x [] = x ∷ []
insert_tier (t, x) ((u, y) ∷ rest) =
    let below = insert_tier (t, x) rest in
    if leb t u then (t, x) ∷ (u, y) ∷ rest else (u, y) ∷ below

unfoldable pub sort_tiers : List (ℕ × ObjectId) → List (ℕ × ObjectId)
unfolding insert_tier
sort_tiers [] = []
sort_tiers (x ∷ xs) = insert_tier x (sort_tiers xs)

ids : List (ℕ × ObjectId) → List ObjectId
ids [] = []
ids ((t, x) ∷ rest) = x ∷ ids rest

-- The blobs whose contents are put into the pool, in its order.
unfoldable pub warm_dir_content_siblings : Env → Projection → RepoPath → Warmth → List ObjectId
unfolding eligible sort_tiers ids entries_of
warm_dir_content_siblings env s dir w =
    if leb hydrate_byte_budget w.hydrate_bytes
    then []
    else ids (
        take hydrate_dir_cap
          (sort_tiers (eligible s.overlay dir w (entries_of env (resolve env s dir)))))
