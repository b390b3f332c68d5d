-- ===== src/GitStore/Tests.antt =====
-- Reads of trees, one of which fails to write to its session.
use git_lazy_mount.Prelude.{
  ◌≡◌, ◌⊎◌, refl, Bool, true, false, none, some, List, [], ◌∷◌, Bytes, codes, bytes_eq, has_byte,
  arith,
}
use git_lazy_mount.Prelude.Result.{ok, err}
use git_lazy_mount.Core.ObjectId.{ObjectId, sha1, to_hex}
use git_lazy_mount.Core.Tree.{parse_tree}
use git_lazy_mount.GitStore.{Git, Read, read_tree, read_trees, parsed, unavailable}
use git_lazy_mount.GitStore.Batch.{parse_info_header}
use git_lazy_mount.GitStore.Batch.Replies.{Reply, has, rendered}
use git_lazy_mount.GitStore.Exact.{IsDocumented, unread, read_tree_exact}

-- Git with an empty tree under every id.
abbrev git : Git
git = record {
  hex_encode = λ bs. codes "ab";
  session = λ line. rendered (has (codes "tree")) (codes "ab") [];
  cat_file = λ hex allow. some [];
}

abbrev empty_trees : ObjectId → Bytes
empty_trees oid = []

abbrev replies_tree : ObjectId → Reply
replies_tree oid = has (codes "tree")

git-IsDocumented : IsDocumented git replies_tree empty_trees
unfolding to_hex has_byte bytes_eq
git-IsDocumented = record {
  replies = λ oid. refl;
  well_formed = λ oid. record {
    hex_word = record { no_space = refl; no_newline = refl; no_return = refl };
    kind_word = (record { no_space = refl; no_newline = refl; no_return = refl }, refl);
    small = omega arith;
  };
  puts_out = λ oid allow bytes e. ground (arith, e);
}

abbrev oid_1 : ObjectId
oid_1 = record { format = sha1; bytes = 1 ∷ [] }

abbrev unlucky : Read
unlucky = record {
  object_id = oid_1;
  allow_fetch = false;
  luck = record { spawns = true; writes = false; reads = true };
}

abbrev lucky : Read
lucky = record {
  object_id = record { format = sha1; bytes = 2 ∷ [] };
  allow_fetch = false;
  luck = record { spawns = true; writes = true; reads = true };
}

read_tree_exact_example :
    ((read_tree git sha1 lucky (read_trees git sha1 (unlucky ∷ []) unread)).0
      ≡ parsed (parse_tree lucky.object_id [] sha1))
    ⊎ (((read_tree git sha1 lucky (read_trees git sha1 (unlucky ∷ []) unread)).0 ≡ err unavailable)
        × (git.cat_file (to_hex git.hex_encode lucky.object_id) false ≡ none))
read_tree_exact_example =
    read_tree_exact git sha1 replies_tree empty_trees git-IsDocumented (unlucky ∷ []) lucky

is_missing : parse_info_header (codes "ab missing") ≡ ok none
unfolding parse_info_header git_lazy_mount.Prelude.split bytes_eq
is_missing = refl
