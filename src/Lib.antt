-- ===== src/Lib.antt =====
-- git-lazy-mount: a Git working tree that is mounted, and fetched as it is read.
--
-- The program. A projection (crates/worktree/src/lib.rs) layers an overlay of local changes
-- (crates/worktree/src/overlay.rs) over a baseline tree of Git. Kernel requests name inodes, which
-- a table maps to paths (crates/fs-common/src/inode.rs). Before each mutation the projection
-- records the path in a change journal (crates/worktree/src/journal.rs); git asks the journal,
-- through its FSMonitor hook, what changed since a token. The kernel's callbacks
-- (crates/fuse/src/mount.rs) call the projection and keep the tables of open handles. Paths, modes,
-- object ids, trees and errors are in crates/core/src, the raw form of trees in
-- crates/git-store/src/tree_parse.rs.
--
-- The files.
--   Prelude           numbers, byte strings, lists, maps, `Result`, decimal numbers, `trim`, and
--                     fallible file operations over an oracle (Prelude/Io).
--   Core/RepoPath     crates/core/src/path.rs; `from_bytes`, `join`, `parent`, `file_name`,
--                     `is_prefix_of`, `escape`, `unescape` under their names.
--   Core/GitMode, Core/ObjectId
--                     crates/core/src/mode.rs and object_id.rs.
--   Core/Error        crates/core/src/error.rs: the tables of codes, `Error` and its JSON form.
--   Core/Tree         crates/core/src/tree.rs and crates/git-store/src/tree_parse.rs.
--   Inode             crates/fs-common/src/inode.rs: `InodeTable` as a record of two maps and two
--                     counters, each method a function on it.
--   Journal/Token, Journal/Log, Journal/Query
--                     crates/worktree/src/journal.rs: `ChangeJournal` with the files that it keeps;
--                     `record` is `record_path`; `open` is `open_run`, and `open_journal`
--                     where no file operation fails.
--   Journal/Races     `open` with another process at work, and with its sidecar lost.
--   Overlay           crates/worktree/src/overlay.rs: the sidecars and content files as maps from
--                     file names, the index as in the source; `tombstone` is `put_tombstone`,
--                     `open` is `open_overlay`.
--   Worktree, Worktree/Read, Worktree/Write, Worktree/Move
--                     crates/worktree/src/lib.rs: path resolution, the read operations, the write
--                     operations (`symlink` is `make_symlink`), and `rename`.
--   Worktree/Content  `open_content` and the handles that it gives.
--   Worktree/Keeps, Worktree/Plain
--                     what the steps of an operation keep, and those that record nothing.
--   Worktree/Request  the operations as one type of requests, and any sequence of them.
--   Worktree/Ancestors the tombstones above a path.
--   Worktree/Cache    the caches of crates/worktree/src/lib.rs: `materialize_path_inner` as threads
--                     that interleave (Flight), `cached_size`, `prefetch_siblings`,
--                     `readahead_on_open` and the warming of a directory (Sizes), and
--                     `content_priority` (Priority).
--   Fuse, Fuse/Callbacks, Fuse/Directories
--                     crates/fuse/src/mount.rs: `TransparentFs` and a function for each callback,
--                     which ends in its reply; `lookup` is `lookup_call`, and so on.
--   Fuse/Dispatch     the callbacks as one type of calls, and any sequence of them.
--   GitStore          crates/git-store/src: the session with `git cat-file` (batch.rs; `BatchSession`
--                     is `Session`, with what Git has put out and is not read yet), and `read_tree`
--                     with its cache (store.rs).
-- A module Tests beside a component runs it at concrete inputs.
--
-- State and errors. A method that changes state is a function on the state, or, where it does file
-- operations, an action that also takes an oracle: a list that says for each coming operation
-- whether it succeeds, or after how many bytes it fails. A mutex held for a whole method makes the
-- method one step. A HashMap is an association list, whose order stands for any order. A panic of the
-- inode table is a result of its own, and a callback that meets it leaves its reply unanswered.
-- A crash keeps what was written, synced or not, so that a missing `fsync` would not be seen.
-- Where threads interleave, a schedule says whose turn it is.
--
-- Bounds and fuel. `parse_entries` has as fuel the number of bytes, of which each turn takes one at
-- least. `tombstoned_from` has the length of the path, which each parent shortens. `rename_dir` has
-- fuel for the depth of the directories, chosen by the caller; a run that exhausts it fails. The
-- pages of a directory listing are read with as many turns as asked for. Inode numbers and counters
-- are not wrapped at 64 bits; parsed numbers are checked against 2^64 as in the source. The limits
-- of the journal are a parameter, `production` being those of a build.
--
-- Parameters. SHA-256 and the JSON codec of the sidecars (`Codec`), the hex crate (arguments of
-- `parse_hex` and `to_hex`), Git's object store for the projection (`Env`), Git itself for the
-- object store (`Git`), and in the callbacks the files of the operating system and the codes of
-- Git's errors (`Os`, `Host`).
--
-- Not modelled: the commands of crates/git-store/src but those in GitStore, crates/git-repo, the
-- command line (crates/cli) and the search tool (crates/sgrep), which run git and other services;
-- the thread pools themselves, of which the counters and the jobs are modelled; times, `statfs` and
-- `init` of the callbacks; and the constructors of the projection, which build its state.
pub mod Prelude
pub mod Core
pub mod Inode
pub mod Journal
pub mod Overlay
pub mod Worktree
pub mod Fuse
pub mod GitStore
