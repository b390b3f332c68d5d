-- ===== src/GitStore/Exact.antt =====
-- `read_tree` of crates/git-store/src/store.rs over any sequence of reads.
use git_lazy_mount.Prelude.{
  ◌≡◌, refl, ap, sym, ◌∙◌, not, ◌⊎◌, inl, inr, Bool, true, false, Option, none, some, List, [], ◌∷◌,
  ◌++◌, Bytes, codes, bytes_eq, arith, if◌then◌else◌,
}
use git_lazy_mount.Prelude.Map
use git_lazy_mount.Prelude.Map.{get-insert}
use git_lazy_mount.Prelude.Result.{Result, ok, err}
use git_lazy_mount.Core.ObjectId.{ObjectId, ObjectFormat, id_key, id_eq_iff, to_hex}
use git_lazy_mount.Core.Tree.{TreeObject, parse_tree}
use git_lazy_mount.GitStore.Batch.{Session, Luck, spawn, contents}
use git_lazy_mount.GitStore.Batch.Replies.{
  Reply, ends, missing, has, rendered, meant, is_end, IsReply, contents-rendered,
  contents_unwritten, contents_unheard,
}
use git_lazy_mount.GitStore.{
  Git, TreeReader, ReadError, unavailable, parsed, session_of, batch_answer, with_session,
  read_tree_batched, cache_tree, one_shot, read_missed, read_cached, Read, read_tree, read_trees,
}

-- Git keeps to its documentation: a session replies to `contents` with what it has of the object or
-- that it is missing, or ends; a command that ends well puts out the object.
pub record IsDocumented (git : Git) (reply : ObjectId → Reply) (content : ObjectId → Bytes)
    : Type 0 where
  pub replies :
      (oid : ObjectId)
      → git.session (codes "contents " ++ to_hex git.hex_encode oid)
        ≡ rendered (reply oid) (to_hex git.hex_encode oid) (content oid)
  pub well_formed : (oid : ObjectId) → IsReply (reply oid) (to_hex git.hex_encode oid) (content oid)
  pub puts_out :
      (oid : ObjectId) (allow : Bool) (bytes : Bytes)
      → git.cat_file (to_hex git.hex_encode oid) allow ≡ some bytes
      → bytes ≡ content oid

InStep : Option Session → Type 0
InStep none = Unit {0}
InStep (some s) = s ≡ spawn

-- Nothing is read yet.
unfoldable pub unread : TreeReader
unread = record { cache = []; batch = none }

module _ (git : Git) (format : ObjectFormat) (reply : ObjectId → Reply) (content : ObjectId → Bytes)
    (doc : IsDocumented git reply content) where
  -- The tree of an object, or why it is none.
  abbrev tree_of : ObjectId → Result ReadError TreeObject
  tree_of oid = parsed (parse_tree oid (content oid) format)

  record IsAnswer (oid : ObjectId) (r : Option (Result ReadError TreeObject) × Option Session)
      : Type 0 where
    in_step : InStep r.1
    exact : (x : Result ReadError TreeObject) → r.0 ≡ some x → x ≡ tree_of oid

  nothing : (oid : ObjectId) → IsAnswer oid (none, none)
  unfolding InStep
  nothing oid = record { in_step = tt; exact = λ x e. absurd (ground (arith, e)) }

  meant-IsAnswer :
      (oid : ObjectId) (r : Reply)
      → IsAnswer oid (
          batch_answer oid format
            (meant r (content oid), record { unread = []; alive = not (is_end r) }))
  unfolding batch_answer InStep spawn
  meant-IsAnswer oid ends = nothing oid
  meant-IsAnswer oid missing = record { in_step = refl; exact = λ x e. absurd (ground (arith, e)) }
  meant-IsAnswer oid (has kind) = by_kind (bytes_eq kind (codes "tree"))
    where
      by_kind :
          (b : Bool)
          → IsAnswer oid (
              if b
              then (some (tree_of oid), some (record { unread = []; alive = true }))
              else (none, some (record { unread = []; alive = true })))
      by_kind true = record { in_step = refl; exact = λ x e. ground (arith, e) }
      by_kind false = record { in_step = refl; exact = λ x e. absurd (ground (arith, e)) }

  -- However the pipes do.
  spawned-IsAnswer :
      (oid : ObjectId) (luck : Luck) → IsAnswer oid (with_session git format luck oid (some spawn))
  unfolding with_session contents spawn
  spawned-IsAnswer oid luck = by_luck luck.writes luck.reads refl refl
    where
      by_luck :
          (w d : Bool)
          → luck.writes ≡ w
          → luck.reads ≡ d
          → IsAnswer oid (
              batch_answer oid format (contents git.session luck (to_hex git.hex_encode oid) spawn))
      by_luck true true e f =
          rw
            (contents-rendered git.session luck (reply oid) (to_hex git.hex_encode oid)
              (content oid) (doc.well_formed oid) (doc.replies oid) e f)
            (meant-IsAnswer oid (reply oid))
      by_luck false d e f =
          rw (contents_unwritten git.session luck (to_hex git.hex_encode oid) e)
            (unfold batch_answer in nothing oid)
      by_luck true false e f =
          rw (contents_unheard git.session luck (to_hex git.hex_encode oid) e f)
            (unfold batch_answer in nothing oid)

  batched-IsAnswer :
      (oid : ObjectId) (luck : Luck) (b : Option Session)
      → InStep b
      → IsAnswer oid (read_tree_batched git format luck oid b)
  unfolding read_tree_batched session_of InStep spawn contents
  batched-IsAnswer oid luck none i = by_spawn luck.spawns
    where
      by_spawn :
          (s : Bool)
          → IsAnswer oid (with_session git format luck oid (if s then some spawn else none))
      by_spawn true = spawned-IsAnswer oid luck
      by_spawn false = unfold with_session in nothing oid
  batched-IsAnswer oid luck (some s) i = rw i (spawned-IsAnswer oid luck)

  record IsExact (r : TreeReader) : Type 0 where
    in_step : InStep r.batch
    cached : (oid : ObjectId) (t : TreeObject) → Map.get oid r.cache ≡ some t → ok t ≡ tree_of oid

  cache_tree-IsExact :
      (oid : ObjectId) (x : Result ReadError TreeObject) (r : TreeReader)
      → ((t : TreeObject) → x ≡ ok t → ok t ≡ tree_of oid)
      → IsExact r
      → IsExact (cache_tree oid x r).1
  unfolding cache_tree
  cache_tree-IsExact oid (err e) r h i = i
  cache_tree-IsExact oid (ok t) r h i = record {
    in_step = i.in_step;
    cached = λ p u e. ground (
      arith,
      get-insert oid p t r.cache,
      id_eq_iff oid p,
      id_eq_iff p oid,
      h t refl,
      i.cached p u,
      e,
    );
  }

  -- The answer of one read, and the reader behind it.
  record IsRead (q : Read) (x : Result ReadError TreeObject × TreeReader) : Type 0 where
    answer :
        (x.0 ≡ tree_of q.object_id)
        ⊎ ((x.0 ≡ err unavailable)
            × (git.cat_file (to_hex git.hex_encode q.object_id) q.allow_fetch ≡ none))
    reader : IsExact x.1

  cache_tree_answer :
      (oid : ObjectId) (x : Result ReadError TreeObject) (r : TreeReader)
      → (cache_tree oid x r).0 ≡ x
  unfolding cache_tree
  cache_tree_answer oid (ok t) r = refl
  cache_tree_answer oid (err e) r = refl

  of_tree :
      (q : Read) (x : Result ReadError TreeObject) (r : TreeReader)
      → x ≡ tree_of q.object_id
      → IsExact r
      → IsRead q (cache_tree q.object_id x r)
  of_tree q x r e i = record {
    answer = inl (cache_tree_answer q.object_id x r ∙ e);
    reader = cache_tree-IsExact q.object_id x r (λ t h. sym h ∙ e) i;
  }

  read_missed-IsRead :
      (q : Read) (x : Option (Result ReadError TreeObject)) (r : TreeReader)
      → ((y : Result ReadError TreeObject) → x ≡ some y → y ≡ tree_of q.object_id)
      → IsExact r
      → IsRead q (read_missed git format q.object_id q.allow_fetch x r)
  unfolding read_missed
  read_missed-IsRead q (some y) r h i = of_tree q y r (h y refl) i
  read_missed-IsRead q none r h i =
      by_output (git.cat_file (to_hex git.hex_encode q.object_id) q.allow_fetch) refl
    where
      by_output :
          (o : Option Bytes)
          → git.cat_file (to_hex git.hex_encode q.object_id) q.allow_fetch ≡ o
          → IsRead q (cache_tree q.object_id (one_shot format q.object_id o) r)
      by_output none e = unfold cache_tree one_shot in record { answer = inr (refl, e); reader = i }
      by_output (some bytes) e =
          unfold one_shot in
          of_tree q (parsed (parse_tree q.object_id bytes format)) r
            (ap (λ b. parsed (parse_tree q.object_id b format))
              (doc.puts_out q.object_id q.allow_fetch bytes e))
            i

  read_cached-IsRead :
      (q : Read) (c : Option TreeObject) (r : TreeReader)
      → Map.get q.object_id r.cache ≡ c
      → IsExact r
      → IsRead q (read_cached git format q.luck q.object_id q.allow_fetch c r)
  unfolding read_cached
  read_cached-IsRead q (some t) r e i = record {
    answer = inl (i.cached q.object_id t e);
    reader = i;
  }
  read_cached-IsRead q none r e i =
      let a = batched-IsAnswer q.object_id q.luck r.batch i.in_step in
      read_missed-IsRead q _ _ a.exact (record { in_step = a.in_step; cached = i.cached })

  read_tree-IsRead : (q : Read) (r : TreeReader) → IsExact r → IsRead q (read_tree git format q r)
  unfolding read_tree
  read_tree-IsRead q r i = read_cached-IsRead q (Map.get q.object_id r.cache) r refl i

  read_trees-IsExact :
      (qs : List Read) (r : TreeReader) → IsExact r → IsExact (read_trees git format qs r)
  unfolding read_trees
  read_trees-IsExact [] r i = i
  read_trees-IsExact (q ∷ qs) r i =
      read_trees-IsExact qs (read_tree git format q r).1 (read_tree-IsRead q r i).reader

  unread-IsExact : IsExact unread
  unfolding unread InStep Map.get
  unread-IsExact = record { in_step = tt; cached = λ p t e. absurd (ground (arith, e)) }

  -- Git keeps to its documentation: the reply of a session to a request is that of the object, or
  -- it ends, and a command that ends well puts out the object. After any reads of trees, whatever
  -- sessions could not be spawned, ended or failed in them, a further read gives what the bytes of
  -- its own object parse to, as a tree or as an error; or it says that the object is not to be
  -- had, and the command that is run once failed.
  pub read_tree_exact :
      (before : List Read) (q : Read)
      → ((read_tree git format q (read_trees git format before unread)).0
          ≡ parsed (parse_tree q.object_id (content q.object_id) format))
        ⊎ (((read_tree git format q (read_trees git format before unread)).0 ≡ err unavailable)
            × (git.cat_file (to_hex git.hex_encode q.object_id) q.allow_fetch ≡ none))
  read_tree_exact before q =
      (read_tree-IsRead q (read_trees git format before unread)
        (read_trees-IsExact before unread unread-IsExact)).answer
