-- ===== src/Inode/Consistency/Rename.antt =====
-- `rename` keeps the maps of an inode table consistent.
use git_lazy_mount.Prelude.{
  ℕ, ◌≡◌, refl, ap, ◌∙◌, ◌⊎◌, inl, true, false, ◌&&◌, Option, none, some, arith, ◌==◌, ==_iff,
  ==_refl, if◌then◌else◌, bytes_eq,
}
use git_lazy_mount.Prelude.Map
use git_lazy_mount.Prelude.Map.{Map, nat_eq, get-insert, get-remove}
use git_lazy_mount.Core.RepoPath.{RepoPath, path_key, path_eq_iff}
use git_lazy_mount.Inode.{
  InodeEntry, InodeTable, path_of, path_of_entry, is_some, set_path, evict, renamed, rename,
  is_live,
}
use git_lazy_mount.Inode.Consistency.{IsConsistent}

path_of-set_path :
    (i k : ℕ) (path : Option RepoPath) (m : Map ℕ InodeEntry)
    → path_of_entry (Map.get k (set_path i path m))
      ≡ (if (i == k) && is_some (Map.get i m) then path else path_of_entry (Map.get k m))
unfolding set_path
path_of-set_path i k path m = cases (Map.get i m) refl
  where
    cases :
        (o : Option InodeEntry)
        → Map.get i m ≡ o
        → path_of_entry (Map.get k (set_path i path m))
          ≡ (if (i == k) && is_some (Map.get i m) then path else path_of_entry (Map.get k m))
    cases none e = rw (e, set_path) (ground arith)
    cases (some f) e =
        rw (e, set_path) (ground (arith, get-insert i k (record f { path = path }) m, ==_iff i k))

live-set_path :
    (i k : ℕ) (path : Option RepoPath) (m : Map ℕ InodeEntry)
    → is_some (Map.get k (set_path i path m)) ≡ is_some (Map.get k m)
unfolding set_path
live-set_path i k path m = cases (Map.get i m) refl
  where
    cases :
        (o : Option InodeEntry)
        → Map.get i m ≡ o
        → is_some (Map.get k (set_path i path m)) ≡ is_some (Map.get k m)
    cases none e = rw (e, is_some, set_path)
    cases (some f) e =
        rw (e, is_some, set_path)
          (ground (arith, get-insert i k (record f { path = path }) m, ==_iff i k))

-- One inode moves to another name; the inode that had that name loses its path.
pub record MovesName (old new_path : RepoPath) (i : ℕ) (t u : InodeTable) : Type 0 where
  pub names :
      (q : RepoPath)
      → Map.get q u.path_to_ino ≡ (
          if bytes_eq new_path.bytes q.bytes
          then some i
          else if bytes_eq old.bytes q.bytes
          then none
          else Map.get q t.path_to_ino)
  pub moved : path_of u i ≡ some new_path
  pub others :
      (k : ℕ)
      → (i == k) ≡ false
      → path_of u k ≡ path_of t k ⊎ ((path_of u k ≡ none) × (path_of t k ≡ some new_path))
  pub evicted : (k : ℕ) → (i == k) ≡ false → path_of u k ≡ some new_path → ⊥
  pub live : (k : ℕ) → is_live u k ≡ true → is_live t k ≡ true
  pub next : u.next_ino ≡ t.next_ino

MovesName-IsConsistent :
    (old new_path : RepoPath) (i : ℕ) (t u : InodeTable)
    → Map.get old t.path_to_ino ≡ some i
    → MovesName old new_path i t u
    → IsConsistent t
    → IsConsistent u
MovesName-IsConsistent old new_path i t u h d c = record {
  named = λ q k g. ground (
    arith,
    d.names q,
    d.others k,
    d.moved,
    path_eq_iff new_path q,
    path_eq_iff old q,
    c.named q k,
    c.named old i h,
    ==_iff i k,
  );
  back = λ q k g. ground (
    arith,
    d.names q,
    d.others k,
    d.moved,
    d.evicted k,
    path_eq_iff new_path q,
    path_eq_iff old q,
    c.back q k,
    h,
    ==_iff i k,
  );
  fresh = λ k g. rw d.next (c.fresh k (d.live k g));
}

evict_paths :
    (o : Option ℕ) (k : ℕ) (m : Map ℕ InodeEntry)
    → path_of_entry (Map.get k (evict o m)) ≡ path_of_entry (Map.get k m)
      ⊎ ((path_of_entry (Map.get k (evict o m)) ≡ none) × (o ≡ some k))
unfolding evict
evict_paths none k m = inl refl
evict_paths (some j) k m = ground (arith, path_of-set_path j k none m, ==_iff j k)

evict_self : (k : ℕ) (m : Map ℕ InodeEntry) → path_of_entry (Map.get k (evict (some k) m)) ≡ none
unfolding evict
evict_self k m = ground (arith, path_of-set_path k k none m, ==_refl k)

live-evict :
    (o : Option ℕ) (k : ℕ) (m : Map ℕ InodeEntry)
    → is_some (Map.get k (evict o m)) ≡ is_some (Map.get k m)
unfolding evict
live-evict none k m = refl
live-evict (some j) k m = live-set_path j k none m

-- After the eviction no other inode has the new name.
evicted_path :
    (old new_path : RepoPath) (i k : ℕ) (t : InodeTable)
    → Map.get old t.path_to_ino ≡ some i
    → IsConsistent t
    → (i == k) ≡ false
    → path_of_entry (Map.get k (evict (Map.get new_path (Map.remove old t.path_to_ino)) t.entries))
      ≡ some new_path
    → ⊥
unfolding path_of
evicted_path old new_path i k t h c g e =
    let o = Map.get new_path (Map.remove old t.path_to_ino) in
    let before : path_of_entry (Map.get k t.entries) ≡ some new_path =
      ground (arith, evict_paths o k t.entries) in
    let taken : o ≡ some k = ground (
      arith,
      get-remove old new_path t.path_to_ino,
      c.back new_path k before,
      path_eq_iff old new_path,
      ==_iff i k,
    ) in
    let gone : path_of_entry (Map.get k (evict o t.entries)) ≡ none =
      ap (λ x. path_of_entry (Map.get k (evict x t.entries))) taken ∙ evict_self k t.entries in
    cc (gone, e)

pub renamed-MovesName :
    (old new_path : RepoPath) (i : ℕ) (t : InodeTable)
    → Map.get old t.path_to_ino ≡ some i
    → IsConsistent t
    → MovesName old new_path i t (renamed old new_path i t)
unfolding renamed path_of is_live
renamed-MovesName old new_path i t h c =
    let o = Map.get new_path (Map.remove old t.path_to_ino) in
    let m = evict o t.entries in
    record {
      names = λ q. ground (
        arith,
        get-insert new_path q i (Map.remove old t.path_to_ino),
        get-remove old q t.path_to_ino,
      );
      moved = ground (
        arith,
        path_of-set_path i i (some new_path) m,
        live-evict o i t.entries,
        c.named old i h,
        ==_refl i,
      );
      others = λ k g. ground (
        arith,
        path_of-set_path i k (some new_path) m,
        evict_paths o k t.entries,
        get-remove old new_path t.path_to_ino,
        c.named new_path k,
      );
      evicted = λ k g e.
          evicted_path old new_path i k t h c g
            (ground (arith, path_of-set_path i k (some new_path) m));
      live = λ k g. ground (arith, live-set_path i k (some new_path) m, live-evict o k t.entries);
      next = refl;
    }

-- rename leaves a consistent table consistent.
pub rename-IsConsistent :
    (old new_path : RepoPath) (t : InodeTable)
    → IsConsistent t
    → IsConsistent (rename old new_path t)
unfolding rename
rename-IsConsistent old new_path t c = cases (Map.get old t.path_to_ino) refl
  where
    cases : (o : Option ℕ) → Map.get old t.path_to_ino ≡ o → IsConsistent (rename old new_path t)
    cases none e = rw (e, rename) c
    cases (some i) e =
        rw (e, rename)
          (MovesName-IsConsistent old new_path i t (renamed old new_path i t) e
            (renamed-MovesName old new_path i t e c) c)
