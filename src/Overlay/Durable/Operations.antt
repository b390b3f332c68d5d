-- ===== src/Overlay/Durable/Operations.antt =====
-- What the operations of crates/worktree/src/overlay.rs leave on disk and in memory when no file
-- operation fails.
use git_lazy_mount.Prelude.{
  ◌≡◌, refl, ap, false, some, [], arith, Bytes, bytes_eq, if◌then◌else◌, All,
}
use git_lazy_mount.Prelude.Map
use git_lazy_mount.Prelude.Map.{Map, bytes_key, get-insert, get-insert_self, get-remove}
use git_lazy_mount.Prelude.Result.{ok}
use git_lazy_mount.Prelude.Io.{io, modify}
use git_lazy_mount.Core.RepoPath.{RepoPath, path_key}
use git_lazy_mount.Core.RepoPath.Validity.{IsValid}
use git_lazy_mount.Overlay.{
  Overlay, OverlayEntry, Codec, lookup, replay, insert_index, sidecar_path, tmp_path, set_meta,
  move_meta, atomic_write, persist, put,
}
use git_lazy_mount.Overlay.Durable.{
  IsFaithful, IsNamed, IsReopenable, All-remove, All-staged, sidecar_bytes, sidecar_test,
  other_suffix, get-replay, get-insert_index, read_sidecar-own,
}

-- The sidecars after `persist`.
stored : Codec → RepoPath → OverlayEntry → Map Bytes Bytes → Map Bytes Bytes
stored c p e m = Map.insert (sidecar_path c p) (sidecar_bytes c p e) (
    Map.remove (tmp_path c p)
      (Map.insert (tmp_path c p) (sidecar_bytes c p e) (Map.insert (tmp_path c p) [] m)))

moved :
    (src dst bytes : Bytes) (s : Overlay)
    → Map.get src s.meta ≡ some bytes
    → move_meta src dst s ≡ record s { meta = Map.insert dst bytes (Map.remove src s.meta) }
unfolding move_meta
moved src dst bytes s h = rw (h, move_meta) refl

persist-run :
    (c : Codec) (p : RepoPath) (e : OverlayEntry) (s : Overlay)
    → persist c p e [] s
      ≡ record { result = ok tt; rest = []; state = record s { meta = stored c p e s.meta } }
unfolding persist atomic_write io set_meta stored
persist-run c p e s =
    let tmp = tmp_path c p in
    let bytes = sidecar_bytes c p e in
    let twice = Map.insert tmp bytes (Map.insert tmp [] s.meta) in
    ap (λ (t : Overlay). record { result = ok tt; rest = []; state = t })
      (moved tmp (sidecar_path c p) bytes (record s { meta = twice })
        (get-insert_self tmp bytes (Map.insert tmp [] s.meta)))

not_staged : (c : Codec) (p q : RepoPath) → bytes_eq (tmp_path c p) (sidecar_path c q) ≡ false
unfolding tmp_path sidecar_path
not_staged c p q = other_suffix (c.digest p.bytes) (c.digest q.bytes)

get-stored :
    (c : Codec) (p q : RepoPath) (e : OverlayEntry) (m : Map Bytes Bytes)
    → IsFaithful c
    → Map.get (sidecar_path c q) (stored c p e m) ≡ (
        if bytes_eq p.bytes q.bytes
        then some (sidecar_bytes c p e)
        else Map.get (sidecar_path c q) m)
unfolding stored
get-stored c p q e m f =
    let tmp = tmp_path c p in
    let once = Map.insert tmp [] m in
    let twice = Map.insert tmp (sidecar_bytes c p e) once in
    ground (
      arith,
      get-insert (sidecar_path c p) (sidecar_path c q) (sidecar_bytes c p e) (Map.remove tmp twice),
      get-remove tmp (sidecar_path c q) twice,
      get-insert tmp (sidecar_path c q) (sidecar_bytes c p e) once,
      get-insert tmp (sidecar_path c q) [] m,
      not_staged c p q,
      sidecar_test c p q f,
    )

stored-IsNamed :
    (c : Codec) (p : RepoPath) (e : OverlayEntry) (m : Map Bytes Bytes)
    → IsValid p
    → All (IsNamed c) m
    → All (IsNamed c) (stored c p e m)
unfolding stored Map.insert
stored-IsNamed c p e m v n = (
  record { path = p; entry = e; valid = v; name = refl; bytes = refl },
  All-remove (IsNamed c) (sidecar_path c p) _
      (unfold Map.insert in All-staged (IsNamed c) (tmp_path c p) (sidecar_bytes c p e) [] m n),
)

stored-IsReopenable :
    (c : Codec) (p : RepoPath) (e : OverlayEntry) (s : Overlay)
    → IsFaithful c
    → IsValid p
    → IsReopenable c s
    → IsReopenable c (record s { meta = stored c p e s.meta; index = insert_index p e s.index })
stored-IsReopenable c p e s f v r = record { named = n; same = same }
  where
    n : All (IsNamed c) (stored c p e s.meta)
    n = stored-IsNamed c p e s.meta v r.named

    same :
        (i : RepoPath)
        → Map.get i (insert_index p e s.index).entries
          ≡ Map.get i (replay c (stored c p e s.meta)).entries
    same i = ground (
      arith,
      get-insert_index p i e s.index,
      get-replay c (stored c p e s.meta) i f n,
      get-replay c s.meta i f r.named,
      r.same i,
      get-stored c p i e s.meta f,
      read_sidecar-own c p e f,
    )

-- With a faithful codec, on an overlay whose directory holds sidecars only and reopens to its own
-- entries, a write of an entry at a valid path in which no file operation fails succeeds; then the
-- path has the entry, every other path has what it had, and the overlay reopens to its own entries
-- again.
pub put-IsReopenable :
    (c : Codec) (p q : RepoPath) (e : OverlayEntry) (s : Overlay)
    → IsFaithful c
    → IsValid p
    → IsReopenable c s
    → ((put c p e [] s).result ≡ ok tt)
      × (lookup (put c p e [] s).state q
          ≡ (if bytes_eq p.bytes q.bytes then some e else lookup s q))
      × IsReopenable c (put c p e [] s).state
unfolding put modify
put-IsReopenable c p q e s f v r =
    rw (persist-run c p e s)
      (refl, get-insert_index p q e s.index, stored-IsReopenable c p e s f v r)
