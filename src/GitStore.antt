-- ===== src/GitStore.antt =====
-- crates/git-store/src: the long-lived session with `git cat-file` (batch.rs), and `read_tree` with
-- its cache (store.rs).
pub mod Batch
pub mod Exact
mod Tests
use git_lazy_mount.Prelude.{
  ℕ, Bool, true, false, not, Option, none, some, List, [], ◌∷◌, Bytes, codes, bytes_eq,
  if◌then◌else◌,
}
use git_lazy_mount.Prelude.Map
use git_lazy_mount.Prelude.Map.{Map}
use git_lazy_mount.Prelude.Result.{Result, ok, err}
use git_lazy_mount.Core.ObjectId.{ObjectId, ObjectFormat, id_key, to_hex}
use git_lazy_mount.Core.Tree.{TreeObject, TreeError, parse_tree}
use git_lazy_mount.GitStore.Batch.{ObjectInfo, Session, Fault, Luck, spawn, contents}

-- Git: the hexadecimal form of an id, what a session puts out for a line, and what a command that
-- is run once puts out, if it ends well; the flag allows it to fetch.
pub record Git : Type 0 where
  pub hex_encode : Bytes → Bytes
  pub session : Bytes → Bytes
  pub cat_file : Bytes → Bool → Option Bytes

-- `TreeReader`.
pub record TreeReader : Type 0 where
  pub cache : Map ObjectId TreeObject
  pub batch : Option Session

pub data ReadError : Type 0 where
  unavailable : ReadError
  bad_tree : TreeError → ReadError

unfoldable pub parsed : Result TreeError TreeObject → Result ReadError TreeObject
parsed (ok t) = ok t
parsed (err e) = err (bad_tree e)

-- A session that is dead is dropped; `spawns` says whether a new one can be had.
session_of : Bool → Option Session → Option Session
session_of spawns (some s) = if s.alive then some s else if spawns then some spawn else none
session_of spawns none = if spawns then some spawn else none

-- What `read_tree_batched` makes of an answer: `none` is left to the command that is run once.
batch_answer :
    ObjectId
    → ObjectFormat
    → Result Fault (Option (ObjectInfo × Bytes)) × Session
    → Option (Result ReadError TreeObject) × Option Session
batch_answer oid format (ok (some (info, bytes)), s) =
    if bytes_eq info.kind (codes "tree")
    then (some (parsed (parse_tree oid bytes format)), some s)
    else (none, some s)
batch_answer oid format (ok none, s) = (none, some s)
batch_answer oid format (err e, s) = (none, none)

with_session :
    Git
    → ObjectFormat
    → Luck
    → ObjectId
    → Option Session
    → Option (Result ReadError TreeObject) × Option Session
unfolding batch_answer
with_session git format luck oid none = (none, none)
with_session git format luck oid (some s) =
    batch_answer oid format (contents git.session luck (to_hex git.hex_encode oid) s)

read_tree_batched :
    Git
    → ObjectFormat
    → Luck
    → ObjectId
    → Option Session
    → Option (Result ReadError TreeObject) × Option Session
unfolding with_session session_of
read_tree_batched git format luck oid b =
    with_session git format luck oid (session_of luck.spawns b)

-- `cache_tree`, where there is a tree.
cache_tree :
    ObjectId → Result ReadError TreeObject → TreeReader → Result ReadError TreeObject × TreeReader
cache_tree oid (ok t) r = (ok t, record r { cache = Map.insert oid t r.cache })
cache_tree oid (err e) r = (err e, r)

-- What the command that is run once puts out.
one_shot : ObjectFormat → ObjectId → Option Bytes → Result ReadError TreeObject
one_shot format oid none = err unavailable
one_shot format oid (some bytes) = parsed (parse_tree oid bytes format)

read_missed :
    Git
    → ObjectFormat
    → ObjectId
    → Bool
    → Option (Result ReadError TreeObject)
    → TreeReader
    → Result ReadError TreeObject × TreeReader
unfolding cache_tree one_shot
read_missed git format oid allow (some x) r = cache_tree oid x r
read_missed git format oid allow none r =
    cache_tree oid (one_shot format oid (git.cat_file (to_hex git.hex_encode oid) allow)) r

read_cached :
    Git
    → ObjectFormat
    → Luck
    → ObjectId
    → Bool
    → Option TreeObject
    → TreeReader
    → Result ReadError TreeObject × TreeReader
unfolding read_missed read_tree_batched
read_cached git format luck oid allow (some t) r = (ok t, r)
read_cached git format luck oid allow none r =
    let (x, b) = read_tree_batched git format luck oid r.batch in
    read_missed git format oid allow x (record r { batch = b })

pub record Read : Type 0 where
  pub object_id : ObjectId
  pub allow_fetch : Bool
  pub luck : Luck

unfoldable pub read_tree :
    Git → ObjectFormat → Read → TreeReader → Result ReadError TreeObject × TreeReader
unfolding read_cached
read_tree git format q r =
    read_cached git format q.luck q.object_id q.allow_fetch (Map.get q.object_id r.cache) r

-- The reader after a sequence of reads.
unfoldable pub read_trees : Git → ObjectFormat → List Read → TreeReader → TreeReader
unfolding read_tree
read_trees git format [] r = r
read_trees git format (q ∷ qs) r = read_trees git format qs (read_tree git format q r).1
