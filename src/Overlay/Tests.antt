-- ===== src/Overlay/Tests.antt =====
-- A new overlay of crates/worktree/src/overlay.rs, and the theorems at it, for a codec that writes
-- the length in front of each text and a tag in front of each entry.
use git_lazy_mount.Prelude.{
  ℕ, ◌≡◌, refl, Bool, true, false, Option, none, some, [], ◌∷◌, ◌++◌, ◌==◌, Bytes, codes, bytes_eq,
  if◌then◌else◌, has_byte, split, inr, length, take, drop, take-length, drop-all,
}
use git_lazy_mount.Prelude.Map
use git_lazy_mount.Prelude.Map.{Map, bytes_key}
use git_lazy_mount.Prelude.Result.{ok, err}
use git_lazy_mount.Core.RepoPath.{RepoPath, path_key}
use git_lazy_mount.Core.RepoPath.Validity.{IsComponent, IsValid}
use git_lazy_mount.Core.GitMode.{GitMode, regular, executable, symlink, tree, gitlink}
use git_lazy_mount.Core.ObjectId.{ObjectId, ObjectFormat, sha1, sha256, other}
use git_lazy_mount.Overlay
use git_lazy_mount.Overlay.{
  Overlay, OverlayEntry, Sidecar, Codec, lookup, replay, put, publish_sidecar,
}
use git_lazy_mount.Overlay.Durable.{
  IsFaithful, IsReopenable, failed_publish_reappears, publish_fails,
}
use git_lazy_mount.Overlay.Durable.Operations.{put-IsReopenable}

abbrev flag : Bool → ℕ
flag true = 1
flag false = 0

abbrev mode_tag : GitMode → ℕ
mode_tag regular = 0
mode_tag executable = 1
mode_tag symlink = 2
mode_tag tree = 3
mode_tag gitlink = 4

abbrev mode_at : ℕ → GitMode
mode_at n =
    if n == 0
    then regular
    else if n == 1
    then executable
    else if n == 2
    then symlink
    else if n == 3
    then tree
    else gitlink

abbrev write_id : ObjectFormat → Bytes → Bytes
write_id sha1 bs = 0 ∷ bs
write_id sha256 bs = 1 ∷ bs
write_id (other s) bs = 2 ∷ length s ∷ s ++ bs

abbrev read_other : Bytes → ObjectId
read_other [] = record { format = sha1; bytes = [] }
read_other (n ∷ bs) = record { format = other (take n bs); bytes = drop n bs }

abbrev read_id : Bytes → ObjectId
read_id [] = record { format = sha1; bytes = [] }
read_id (t ∷ bs) =
    if t == 0
    then record { format = sha1; bytes = bs }
    else if t == 1
    then record { format = sha256; bytes = bs }
    else read_other bs

abbrev write_entry : OverlayEntry → Bytes
write_entry (Overlay.file content exec) = 0 ∷ flag exec ∷ content
write_entry (Overlay.symlink target) = 1 ∷ 0 ∷ target
write_entry Overlay.dir = 2 ∷ 0 ∷ []
write_entry Overlay.tombstone = 3 ∷ 0 ∷ []
write_entry (Overlay.base_ref oid mode) = 4 ∷ mode_tag mode ∷ write_id oid.format oid.bytes

abbrev tagged : ℕ → ℕ → Bytes → OverlayEntry
tagged t x bs =
    if t == 0
    then Overlay.file bs (x == 1)
    else if t == 1
    then Overlay.symlink bs
    else if t == 2
    then Overlay.dir
    else if t == 3
    then Overlay.tombstone
    else Overlay.base_ref (read_id bs) (mode_at x)

abbrev read_entry : Bytes → Option OverlayEntry
read_entry (t ∷ x ∷ bs) = some (tagged t x bs)
read_entry _ = none

abbrev with_path : Bytes → Option OverlayEntry → Option Sidecar
with_path p none = none
with_path p (some e) = some (record { path = p; entry = e })

abbrev from_slice : Bytes → Option Sidecar
from_slice [] = none
from_slice (n ∷ bs) = with_path (take n bs) (read_entry (drop n bs))

abbrev codec : Codec
codec = record {
  digest = λ p. p;
  to_vec = λ sc. length sc.path ∷ sc.path ++ write_entry sc.entry;
  from_slice = from_slice;
}

read_id-write_id :
    (f : ObjectFormat) (bs : Bytes) → read_id (write_id f bs) ≡ record { format = f; bytes = bs }
read_id-write_id sha1 bs = refl
read_id-write_id sha256 bs = refl
read_id-write_id (other s) bs = rw (take-length s bs, drop-all s bs) refl

mode_at-mode_tag : (m : GitMode) → mode_at (mode_tag m) ≡ m
mode_at-mode_tag regular = refl
mode_at-mode_tag executable = refl
mode_at-mode_tag symlink = refl
mode_at-mode_tag tree = refl
mode_at-mode_tag gitlink = refl

read_entry-write_entry : (e : OverlayEntry) → read_entry (write_entry e) ≡ some e
read_entry-write_entry (Overlay.file content true) = refl
read_entry-write_entry (Overlay.file content false) = refl
read_entry-write_entry (Overlay.symlink target) = refl
read_entry-write_entry Overlay.dir = refl
read_entry-write_entry Overlay.tombstone = refl
read_entry-write_entry (Overlay.base_ref oid mode) =
    rw (read_id-write_id oid.format oid.bytes, mode_at-mode_tag mode) refl

codec-IsFaithful : IsFaithful codec
codec-IsFaithful = record {
  decode = λ sc.
      rw (take-length sc.path (write_entry sc.entry), drop-all sc.path (write_entry sc.entry))
        (rw (read_entry-write_entry sc.entry) refl);
  injective = λ p q h. h;
}

abbrev file_a : RepoPath
file_a = record { bytes = codes "a" }

abbrev file_b : RepoPath
file_b = record { bytes = codes "b" }

one_component :
    (c : ℕ)
    → IsComponent (c ∷ [])
    → split b'/' (c ∷ []) ≡ (c ∷ []) ∷ []
    → IsValid (record { bytes = c ∷ [] })
one_component c h e = inr (rw e (h, tt))

a-IsValid : IsValid file_a
a-IsValid =
    one_component b'a'
      (unfold has_byte bytes_eq in
        record { not_empty = refl; no_nul = refl; no_slash = refl; no_traversal = refl })
      (unfold split in refl)

abbrev new_overlay : Overlay
new_overlay = record {
  meta = [];
  content = [];
  content_seq = 0;
  index = record { entries = []; children = [] };
}

new-IsReopenable : IsReopenable codec new_overlay
unfolding replay
new-IsReopenable = record { named = tt; same = λ q. refl }

failed_publish_example :
    ((put codec file_a Overlay.dir publish_fails new_overlay).result ≡ err publish_sidecar)
    × (lookup (put codec file_a Overlay.dir publish_fails new_overlay).state file_a
        ≡ lookup new_overlay file_a)
    × (Map.get file_a
          (replay codec (put codec file_a Overlay.dir publish_fails new_overlay).state.meta).entries
        ≡ some Overlay.dir)
failed_publish_example =
    failed_publish_reappears codec file_a Overlay.dir new_overlay codec-IsFaithful a-IsValid

abbrev with_dir : Overlay
with_dir = (put codec file_a Overlay.dir [] new_overlay).state

put-IsReopenable_example :
    ((put codec file_a Overlay.dir [] new_overlay).result ≡ ok tt)
    × (lookup with_dir file_a ≡ (
        if bytes_eq (codes "a") (codes "a") then some Overlay.dir else lookup new_overlay file_a))
    × IsReopenable codec with_dir
put-IsReopenable_example =
    put-IsReopenable codec file_a file_a Overlay.dir new_overlay codec-IsFaithful a-IsValid
      new-IsReopenable
