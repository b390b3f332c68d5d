-- ===== src/Overlay/Durable.antt =====
-- What crates/worktree/src/overlay.rs finds when it is opened again.
pub mod Operations
use git_lazy_mount.Prelude.{
  ℕ, ◌+◌, ◌≡◌, refl, ap, sym, ◌∙◌, ◌↔◌, ◌==◌, ◌&&◌, inl, inr, Bool, true, false, Option, none, some,
  List, [], ◌∷◌, ◌++◌, arith, Bytes, codes, bytes_eq, bytes_eq_iff, bytes_eq_refl, if◌then◌else◌,
  All, length, length-append, drop, Bool-cases,
}
use git_lazy_mount.Prelude.Map
use git_lazy_mount.Prelude.Map.{Map, Key, bytes_key, get-insert, get-insert_self, get-remove}
use git_lazy_mount.Prelude.Result.{Result, ok, err}
use git_lazy_mount.Prelude.Io.{Run, Oracle, Outcome, done, fails, io, modify}
use git_lazy_mount.Core.RepoPath.{RepoPath, path_key, path_eq_iff, from_bytes, parent, file_name}
use git_lazy_mount.Core.RepoPath.Validity.{IsValid, from_bytes_iff}
use git_lazy_mount.Overlay.{
  Overlay, OverlayEntry, OverlayError, Sidecar, Codec, Index, lookup, replay, replay_sidecar,
  replay_entry, empty_index, insert_index, sidecar_path, tmp_path, set_meta, move_meta, unchanged,
  atomic_write, persist, put, open_overlay, publish_sidecar,
}

-- JSON gives a sidecar back, and SHA-256 has no collisions.
pub record IsFaithful (c : Codec) : Type 0 where
  pub decode : (sc : Sidecar) → c.from_slice (c.to_vec sc) ≡ some sc
  pub injective : (p q : Bytes) → c.digest p ≡ c.digest q → p ≡ q

-- What a sidecar of `path` holds.
abbrev pub sidecar_bytes : Codec → RepoPath → OverlayEntry → Bytes
sidecar_bytes c path entry = c.to_vec (record { path = path.bytes; entry = entry })

replay-head :
    (c : Codec) (path : RepoPath) (entry : OverlayEntry) (name : Bytes) (files : Map Bytes Bytes)
    → IsFaithful c
    → IsValid path
    → replay c ((name, sidecar_bytes c path entry) ∷ files)
      ≡ insert_index path entry (replay c files)
unfolding replay
replay-head c path entry name files f v =
    rw (f.decode (record { path = path.bytes; entry = entry })) (
      unfold replay_sidecar in
      rw ((from_bytes_iff path.bytes path).1 (refl, v)) (unfold replay_entry in refl))

cancel_right : (xs ys zs : Bytes) → xs ++ zs ≡ ys ++ zs → xs ≡ ys
cancel_right [] [] zs h = refl
cancel_right [] (y ∷ ys) zs h = absurd (omega (arith, ap length h, length-append {0} ys zs))
cancel_right (x ∷ xs) [] zs h = absurd (omega (arith, ap length h, length-append {0} xs zs))
cancel_right (x ∷ xs) (y ∷ ys) zs h =
    let same_head : x ≡ y = ground arith in
    let same_tail : xs ≡ ys = cancel_right xs ys zs (ap (drop 1) h) in cc (same_head, same_tail)

and_false : (b : Bool) → (b && false) ≡ false
and_false true = refl
and_false false = refl

different_length : (a b : Bytes) → (length a == length b) ≡ false → bytes_eq a b ≡ false
different_length a b h = by_test (bytes_eq a b) refl
  where
    by_test : (t : Bool) → bytes_eq a b ≡ t → bytes_eq a b ≡ false
    by_test false e = e
    by_test true e = absurd (ground (arith, ap length ((bytes_eq_iff a b).0 e)))

other_suffix : (xs ys : Bytes) → bytes_eq (xs ++ codes ".tmp") (ys ++ codes ".json") ≡ false
unfolding bytes_eq
other_suffix [] [] = refl
other_suffix [] (y ∷ []) = ground arith
other_suffix [] (y ∷ z ∷ ys) = ground (
  arith,
  different_length (codes "mp") (ys ++ codes ".json")
      (ground (arith, length-append {0} ys (codes ".json"))),
)
other_suffix (x ∷ []) [] = ground arith
other_suffix (x ∷ z ∷ xs) [] = ground (
  arith,
  different_length (xs ++ codes ".tmp") (codes "son")
      (ground (arith, length-append {0} xs (codes ".tmp"))),
)
other_suffix (x ∷ xs) (y ∷ ys) = rw (other_suffix xs ys) (and_false (x == y))

sidecar_test :
    (c : Codec) (p q : RepoPath)
    → IsFaithful c
    → bytes_eq (sidecar_path c p) (sidecar_path c q) ≡ bytes_eq p.bytes q.bytes
unfolding sidecar_path
sidecar_test c p q f = ground (
  arith,
  bytes_eq_iff (c.digest p.bytes ++ codes ".json") (c.digest q.bytes ++ codes ".json"),
  bytes_eq_iff p.bytes q.bytes,
  cancel_right (c.digest p.bytes) (c.digest q.bytes) (codes ".json"),
  f.injective p.bytes q.bytes,
)

-- Every operation but the last, the rename of the staged sidecar, succeeds.
abbrev pub publish_fails : Oracle
publish_fails = done ∷ done ∷ done ∷ fails 0 ∷ []

-- With a faithful codec, when the rename of the staged sidecar of a valid path fails, the call
-- returns that error and the path has in memory what it had, but replaying the directory, the
-- staged file being met last, gives the path the entry.
pub failed_publish_reappears :
    (c : Codec) (path : RepoPath) (entry : OverlayEntry) (s : Overlay)
    → IsFaithful c
    → IsValid path
    → ((put c path entry publish_fails s).result ≡ err publish_sidecar)
      × (lookup (put c path entry publish_fails s).state path ≡ lookup s path)
      × (Map.get path (replay c (put c path entry publish_fails s).state.meta).entries ≡ some entry)
unfolding put persist atomic_write io set_meta Map.insert
failed_publish_reappears c path entry s f v = (
  refl,
  refl,
  ap (λ (i : Index). Map.get path i.entries) (replay-head c path entry (tmp_path c path) _ f v)
      ∙ (unfold insert_index in get-insert_self path entry _),
)

-- A sidecar: its name and its bytes are those of one path.
pub record IsNamed (c : Codec) (f : Bytes × Bytes) : Type 0 where
  pub path : RepoPath
  pub entry : OverlayEntry
  pub valid : IsValid path
  pub name : f.0 ≡ sidecar_path c path
  pub bytes : f.1 ≡ sidecar_bytes c path entry

entry_in : Option Sidecar → Option OverlayEntry
entry_in none = none
entry_in (some sc) = some sc.entry

read_sidecar : Codec → Option Bytes → Option OverlayEntry
unfolding entry_in
read_sidecar c none = none
read_sidecar c (some bytes) = entry_in (c.from_slice bytes)

pub get-insert_index :
    (p q : RepoPath) (e : OverlayEntry) (i : Index)
    → Map.get q (insert_index p e i).entries
      ≡ (if bytes_eq p.bytes q.bytes then some e else Map.get q i.entries)
unfolding insert_index
get-insert_index p q e i = get-insert p q e i.entries

read_sidecar-own :
    (c : Codec) (p : RepoPath) (e : OverlayEntry)
    → IsFaithful c
    → read_sidecar c (some (sidecar_bytes c p e)) ≡ some e
unfolding read_sidecar entry_in
read_sidecar-own c p e f = rw (f.decode (record { path = p.bytes; entry = e })) refl

-- The index that `open` builds has what the sidecar of a path says.
get-replay :
    (c : Codec) (files : Map Bytes Bytes) (q : RepoPath)
    → IsFaithful c
    → All (IsNamed c) files
    → Map.get q (replay c files).entries ≡ read_sidecar c (Map.get (sidecar_path c q) files)
unfolding Map.get
get-replay c [] q f n = unfold replay empty_index read_sidecar in refl
get-replay c ((name, bytes) ∷ files) q f n =
    let p = n.0.path in
    let e = n.0.entry in
    rw (n.0.name, n.0.bytes, sidecar_test c p q f)
      (ap (λ (i : Index). Map.get q i.entries)
          (replay-head c p e (sidecar_path c p) files f n.0.valid)
        ∙ (get-insert_index p q e (replay c files)
            ∙ by_test (bytes_eq p.bytes q.bytes) e (sidecar_bytes c p e) (read_sidecar-own c p e f)
                (get-replay c files q f n.1)))
  where
    by_test :
        (t : Bool) (e : OverlayEntry) (b : Bytes)
        → read_sidecar c (some b) ≡ some e
        → Map.get q (replay c files).entries ≡ read_sidecar c (Map.get (sidecar_path c q) files)
        → (if t then some e else Map.get q (replay c files).entries)
          ≡ read_sidecar c (if t then some b else Map.get (sidecar_path c q) files)
    by_test true e b h k = sym h
    by_test false e b h k = k

-- The directory holds sidecars only, and opening it again gives every path the entry that it has.
pub record IsReopenable (c : Codec) (s : Overlay) : Type 0 where
  pub named : All (IsNamed c) s.meta
  pub same : (q : RepoPath) → lookup s q ≡ Map.get q (replay c s.meta).entries

All-remove :
    (P : Bytes × Bytes → Type 0) (k : Bytes) (m : Map Bytes Bytes)
    → All P m
    → All P (Map.remove k m)
unfolding Map.remove
All-remove P k [] h = tt
All-remove P k ((j, v) ∷ m) h = by_test (bytes_eq j k) (All-remove P k m h.1)
  where
    by_test :
        (t : Bool)
        → All P (Map.remove k m)
        → All P (if t then Map.remove k m else (j, v) ∷ Map.remove k m)
    by_test true r = r
    by_test false r = (h.0, r)

-- The staged file is gone once it is published.
All-staged :
    (P : Bytes × Bytes → Type 0) (k v w : Bytes) (m : Map Bytes Bytes)
    → All P m
    → All P (Map.remove k (Map.insert k v (Map.insert k w m)))
unfolding Map.remove Map.insert
All-staged P k v w m h = rw (bytes_eq_refl k) (
    All-remove P k (Map.remove k (Map.remove k m))
      (All-remove P k (Map.remove k m) (All-remove P k m h)))
