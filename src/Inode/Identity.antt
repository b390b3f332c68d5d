-- ===== src/Inode/Identity.antt =====
-- Which inode a path has before and after a method.
use git_lazy_mount.Prelude.{
  ℕ, ◌-◌, ◌≡◌, refl, ◌∙◌, not, ltb, ◌||◌, Option, none, some, arith, ◌==◌, ==_refl, if◌then◌else◌,
  bytes_eq, bytes_eq_refl,
}
use git_lazy_mount.Prelude.Map
use git_lazy_mount.Prelude.Map.{Map, nat_eq, get-insert, get-remove}
use git_lazy_mount.Core.RepoPath.{RepoPath, path_key, path_eq_iff}
use git_lazy_mount.Inode.{
  InodeEntry, InodeTable, root_ino, lookup, counted, allocated, path_of, forget, forgotten, rename,
  unlinked_entry, unlink, is_live,
}
use git_lazy_mount.Inode.Consistency.{IsConsistent}
use git_lazy_mount.Inode.Consistency.Rename.{renamed-MovesName}

-- The inode that a name has, or the next one to be handed out.
abbrev pub ino_or : ℕ → Option ℕ → ℕ
ino_or n none = n
ino_or n (some i) = i

counted_names :
    (j : ℕ) (o : Option InodeEntry) (t : InodeTable) (r : ℕ × ℕ) (u : InodeTable)
    → counted j o t ≡ some (r, u)
    → (r.0 ≡ j) × (u.path_to_ino ≡ t.path_to_ino)
unfolding counted
counted_names j none t r u k = ground arith
counted_names j (some e) t r u k = ground arith

-- A lookup that does not panic returns the number that the path names, or the next number if it
-- names none; then the path names that number, and every other path names what it named.
pub lookup_identity :
    (p q : RepoPath) (t : InodeTable) (r : ℕ × ℕ) (u : InodeTable)
    → lookup p t ≡ some (r, u)
    → (r.0 ≡ ino_or t.next_ino (Map.get p t.path_to_ino))
      × (Map.get q u.path_to_ino
          ≡ (if bytes_eq p.bytes q.bytes then some r.0 else Map.get q t.path_to_ino))
unfolding lookup
lookup_identity p q t r u h = cases (Map.get p t.path_to_ino) refl
  where
    cases :
        (o : Option ℕ)
        → Map.get p t.path_to_ino ≡ o
        → (r.0 ≡ ino_or t.next_ino (Map.get p t.path_to_ino))
          × (Map.get q u.path_to_ino
              ≡ (if bytes_eq p.bytes q.bytes then some r.0 else Map.get q t.path_to_ino))
    cases none e = unfold allocated in ground (arith, get-insert p q t.next_ino t.path_to_ino)
    cases (some j) e =
        let k : counted j (Map.get j t.entries) t ≡ some (r, u) = ground arith in
        ground (arith, counted_names j (Map.get j t.entries) t r u k, path_eq_iff p q)

-- On a consistent table, after a rename of a path that names an inode, that inode has the new
-- path, and the new path names it.
pub rename_identity :
    (old new_path : RepoPath) (i : ℕ) (t : InodeTable)
    → IsConsistent t
    → Map.get old t.path_to_ino ≡ some i
    → (path_of (rename old new_path t) i ≡ some new_path)
      × (Map.get new_path (rename old new_path t).path_to_ino ≡ some i)
unfolding rename
rename_identity old new_path i t c h =
    let m = renamed-MovesName old new_path i t h c in
    rw (h, rename) (m.moved, m.names new_path ∙ rw (bytes_eq_refl new_path.bytes))

-- After an unlink of a path that names an inode with an entry, the inode has no path, is live
-- exactly if references to it are held, and the path names none.
pub unlink_retention :
    (p : RepoPath) (i : ℕ) (e : InodeEntry) (t : InodeTable)
    → Map.get p t.path_to_ino ≡ some i
    → Map.get i t.entries ≡ some e
    → (path_of (unlink p t) i ≡ none)
      × (is_live (unlink p t) i ≡ not (e.lookups == 0))
      × (Map.get p (unlink p t).path_to_ino ≡ none)
unfolding unlink path_of is_live unlinked_entry
unlink_retention p i e t h g = ground (
  arith,
  get-insert i i (record e { path = none }) t.entries,
  get-remove i i t.entries,
  get-remove p p t.path_to_ino,
  bytes_eq_refl p.bytes,
  ==_refl i,
)

-- For an inode with an entry and no path, after a forget of n references it is live exactly if it
-- is the root or more than n were held.
pub forget_release :
    (i n : ℕ) (e : InodeEntry) (t : InodeTable)
    → Map.get i t.entries ≡ some e
    → e.path ≡ none
    → is_live (forget i n t) i ≡ ((i == root_ino) || ltb n e.lookups)
unfolding forget is_live forgotten
forget_release i n e t g k = ground (
  arith,
  get-insert i i (record e { lookups = e.lookups - n }) t.entries,
  get-remove i i t.entries,
  ==_refl i,
)
