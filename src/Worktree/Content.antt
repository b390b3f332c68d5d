-- ===== src/Worktree/Content.antt =====
-- `open_content` and `ContentHandle` of crates/worktree/src/lib.rs. A file of the blob cache is
-- named by its object id.
pub mod Kept
use git_lazy_mount.Prelude.{
  ℕ, zero, suc, ◌+◌, ◌-◌, ◌≡◌, refl, Bool, true, false, Option, none, some, List, [], ◌∷◌, ◌++◌,
  Bytes, length, take, drop, leb, if◌then◌else◌,
}
use git_lazy_mount.Prelude.Map
use git_lazy_mount.Prelude.Map.{bytes_key}
use git_lazy_mount.Prelude.Result.{Result, ok, err, relabel}
use git_lazy_mount.Prelude.Io.{pure, gets, fail, ◌>>=◌}
use git_lazy_mount.Core.ObjectId.{ObjectId}
use git_lazy_mount.Overlay
use git_lazy_mount.Worktree.{
  Env, Act, Projection, Resolved, regular_file, gitfile, overlay_file, baseline_file, internal,
  asks, in_overlay, resolve, path_of,
}
use git_lazy_mount.Worktree.Read.{from_git}

-- An open file: a content file of the overlay, or a file of the blob cache.
pub data File : Type 0 where
  overlay_content : Bytes → File
  cache_file : ObjectId → File

pub data ContentHandle : Type 0 where
  in_memory : Bytes → ContentHandle
  on_disk : File → ContentHandle

-- Once the path is resolved. `materialize` fetches the bytes of a blob if it has to.
open_resolved : Env → Option Resolved → Act ContentHandle
unfolding from_git
open_resolved env (some gitfile) = gets (λ s. in_memory (s.gitfile))
open_resolved env (some (regular_file (overlay_file p) exec)) = do
  handle ← in_overlay (Overlay.open_content p)
  pure (on_disk (overlay_content handle))
open_resolved env (some (regular_file (baseline_file oid) exec)) = do
  bs ← from_git (env.blob_bytes oid)
  pure (on_disk (cache_file oid))
open_resolved env _ = fail internal

unfoldable pub open_content : Env → ℕ → Act ContentHandle
unfolding open_resolved
open_content env ino = do
  path ← asks (λ s. path_of s ino)
  r ← asks (λ s. resolve env s path)
  open_resolved env r

-- What the operating system answers for an open file: its size, and a `pread` or `pwrite` at an
-- offset; the error is `raw_os_error`.
pub record Os : Type 0 where
  pub file_size : File → Option ℕ
  pub pread : File → ℕ → ℕ → Result (Option ℕ) Bytes
  pub pwrite : File → Bytes → ℕ → Result (Option ℕ) ℕ
  pub sync : File → Bool → Result (Option ℕ) (Unit {0})

abbrev smaller : ℕ → ℕ → ℕ
smaller a b = if leb a b then a else b

-- The bytes from `start` to `end`; a saturated sum is past the end of the bytes in any case.
unfoldable pub slice_at : Bytes → ℕ → ℕ → Bytes
slice_at b offset len =
    let start = smaller offset (length b) in
    let end = smaller (start + len) (length b) in take (end - start) (drop start b)

-- `ContentHandle::size`.
unfoldable pub content_length : Os → ContentHandle → Option ℕ
content_length os (in_memory b) = some (length b)
content_length os (on_disk f) = os.file_size f

-- `ContentHandle::read_at`, whose only error is an internal one.
unfoldable pub content_at : Os → ContentHandle → ℕ → ℕ → Result (Unit {0}) Bytes
unfolding slice_at
content_at os (in_memory b) offset len = ok (slice_at b offset len)
content_at os (on_disk f) offset len = relabel (λ e. tt) (os.pread f offset len)

zero_bytes : ℕ → Bytes
zero_bytes zero = []
zero_bytes (suc n) = 0 ∷ zero_bytes n

-- What a `pwrite` of bytes leaves of a file: a gap is filled with zeros, and no bytes change nothing.
unfoldable pub spliced : ℕ → Bytes → Bytes → Bytes
unfolding zero_bytes
spliced offset [] old = old
spliced offset (b ∷ bs) old =
    take offset old
    ++ (zero_bytes (offset - length old) ++ ((b ∷ bs) ++ drop (offset + length (b ∷ bs)) old))

with_file : Bytes → ℕ → Bytes → Option Bytes → Projection → Projection
with_file name offset bs none s = s
with_file name offset bs (some old) s = record s {
  overlay = record (s.overlay) {
    content = Map.insert name (spliced offset bs old) s.overlay.content;
  };
}

-- The bytes are written through to the content file, if its name still leads to it.
unfoldable pub written_through : File → ℕ → Bytes → Projection → Projection
unfolding with_file
written_through (overlay_content name) offset bs s =
    with_file name offset bs (Map.get name s.overlay.content) s
written_through (cache_file oid) offset bs s = s

pub written_through-inodes :
    (f : File) (offset : ℕ) (bs : Bytes) (s : Projection)
    → (written_through f offset bs s).inodes ≡ s.inodes
unfolding written_through
written_through-inodes (cache_file oid) offset bs s = refl
written_through-inodes (overlay_content name) offset bs s = by_file (Map.get name s.overlay.content)
  where
    by_file : (o : Option Bytes) → (with_file name offset bs o s).inodes ≡ s.inodes
    by_file none = unfold with_file in refl
    by_file (some old) = unfold with_file in refl
