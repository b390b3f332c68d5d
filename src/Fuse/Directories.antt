-- ===== src/Fuse/Directories.antt =====
-- crates/fuse/src/mount.rs: the callbacks on directories. A listing is taken when a directory is
-- opened, and served in pages.
pub mod Paging
pub mod Growing
pub mod Answering
use git_lazy_mount.Prelude.{
  ℕ, zero, suc, ◌+◌, Bool, true, false, Option, none, some, List, [], ◌∷◌, ◌++◌, Bytes, codes, drop,
  map, if◌then◌else◌,
}
use git_lazy_mount.Prelude.Map
use git_lazy_mount.Prelude.Map.{Map, nat_eq}
use git_lazy_mount.Worktree.Read
use git_lazy_mount.Worktree.Read.{DirEntry}
use git_lazy_mount.Fuse.{ℤ, directory, file_type, Listed, Mount, Host, Reply, opened, listed, done}
use git_lazy_mount.Fuse.Callbacks.{
  Callback, on_projection, fails_with, just, replies, at_least_zero,
}

listed_entry : DirEntry → Listed
listed_entry e = record { ino = e.ino; kind = file_type (e.kind); name = e.name }

-- The entries `.` and `..` and those of the projection.
unfoldable pub listing : ℕ → List DirEntry → List Listed
unfolding listed_entry
listing ino entries =
    record { ino = ino; kind = directory; name = codes "." }
    ∷ record { ino = ino; kind = directory; name = codes ".." }
    ∷ map listed_entry entries

new_dir_handle : ℕ → List DirEntry → Callback
unfolding listing
new_dir_handle ino entries o s = (
  opened (s.next_fh),
  record s {
    dir_handles = Map.insert (s.next_fh) (listing ino entries) s.dir_handles;
    next_fh = s.next_fh + 1;
  },
)

unfoldable pub opendir_call : Host → ℕ → Callback
unfolding new_dir_handle
opendir_call host ino =
    on_projection (Read.readdir host.env ino) (new_dir_handle ino) (fails_with host)

-- The loop over the listing, from the entry at `i` on: it ends when the buffer is full.
unfoldable pub fill : Host → ℕ → List (ℕ × Listed) → List Listed → List (ℕ × Listed)
fill host i page [] = page
fill host i page (e ∷ es) =
    let more = fill host (i + 1) (page ++ (i + 1, e) ∷ []) es in
    if host.full page e then page else more

-- The entries from an offset on, as many as the buffer takes.
unfoldable pub page_at : Host → List Listed → ℕ → List (ℕ × Listed)
unfolding fill
page_at host entries off = fill host off [] (drop off entries)

-- Without a handle the directory is read for this page alone.
readdir_from : Host → ℕ → ℕ → Option (List Listed) → Callback
unfolding page_at listing
readdir_from host ino off (some entries) = just (listed (page_at host entries off))
readdir_from host ino off none =
    replies host (Read.readdir host.env ino)
      (λ entries. listed (page_at host (listing ino entries) off))

unfoldable pub readdir_call : Host → ℕ → ℕ → ℤ → Callback
unfolding readdir_from
readdir_call host ino fh offset o s =
    readdir_from host ino (at_least_zero offset) (Map.get fh s.dir_handles) o s

unfoldable pub releasedir_call : ℕ → Callback
releasedir_call fh o s = (done, record s { dir_handles = Map.remove fh s.dir_handles })
