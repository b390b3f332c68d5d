-- ===== src/Inode/Consistency/Unlink.antt =====
-- `unlink` keeps the maps of an inode table consistent.
use git_lazy_mount.Prelude.{
  ℕ, ◌≡◌, refl, true, Option, none, some, arith, ◌==◌, ==_iff, if◌then◌else◌, bytes_eq,
}
use git_lazy_mount.Prelude.Map
use git_lazy_mount.Prelude.Map.{Map, nat_eq, get-insert, get-remove}
use git_lazy_mount.Core.RepoPath.{RepoPath, path_key, path_eq_iff}
use git_lazy_mount.Inode.{InodeEntry, InodeTable, path_of, unlinked_entry, unlink, is_live}
use git_lazy_mount.Inode.Consistency.{IsConsistent}

-- One name is taken away, and with it the path of its inode.
pub record DropsName (p : RepoPath) (i : ℕ) (t u : InodeTable) : Type 0 where
  pub names :
      (q : RepoPath)
      → Map.get q u.path_to_ino
        ≡ (if bytes_eq p.bytes q.bytes then none else Map.get q t.path_to_ino)
  pub paths : (k : ℕ) → path_of u k ≡ (if i == k then none else path_of t k)
  pub live : (k : ℕ) → is_live u k ≡ true → is_live t k ≡ true
  pub next : u.next_ino ≡ t.next_ino

DropsName-IsConsistent :
    (p : RepoPath) (i : ℕ) (t u : InodeTable)
    → Map.get p t.path_to_ino ≡ some i
    → DropsName p i t u
    → IsConsistent t
    → IsConsistent u
DropsName-IsConsistent p i t u h d c = record {
  named =
      λ q k g. ground (arith, d.names q, d.paths k, path_eq_iff p q, c.named q k, c.named p i h);
  back = λ q k g. ground (arith, d.names q, d.paths k, path_eq_iff p q, c.back q k, h);
  fresh = λ k g. rw d.next (c.fresh k (d.live k g));
}

pub unlinked_DropsName :
    (p : RepoPath) (i : ℕ) (o : Option InodeEntry) (t : InodeTable)
    → Map.get i t.entries ≡ o
    → DropsName p i t (record t {
      path_to_ino = Map.remove p t.path_to_ino;
      entries = unlinked_entry i o t.entries;
    })
unfolding unlinked_entry path_of is_live
unlinked_DropsName p i none t g = record {
  names = λ q. get-remove p q t.path_to_ino;
  paths = λ k. ground (arith, ==_iff i k);
  live = λ k h. h;
  next = refl;
}
unlinked_DropsName p i (some e) t g = record {
  names = λ q. get-remove p q t.path_to_ino;
  paths = λ k. ground (
    arith,
    get-insert i k (record e { path = none }) t.entries,
    get-remove i k t.entries,
    ==_iff i k,
  );
  live = λ k. ground (
    arith,
    get-insert i k (record e { path = none }) t.entries,
    get-remove i k t.entries,
    ==_iff i k,
  );
  next = refl;
}

-- unlink leaves a consistent table consistent.
pub unlink-IsConsistent :
    (p : RepoPath) (t : InodeTable) → IsConsistent t → IsConsistent (unlink p t)
unfolding unlink
unlink-IsConsistent p t c = cases (Map.get p t.path_to_ino) refl
  where
    cases : (o : Option ℕ) → Map.get p t.path_to_ino ≡ o → IsConsistent (unlink p t)
    cases none e = rw (e, unlink) c
    cases (some i) e =
        rw (e, unlink)
          (DropsName-IsConsistent p i t _ e (unlinked_DropsName p i (Map.get i t.entries) t refl) c)
