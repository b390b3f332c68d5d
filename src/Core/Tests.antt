-- ===== src/Core/Tests.antt =====
-- Modes, object ids and trees, and the theorems at them.
use mathlib.Core.List.{Perm}
use git_lazy_mount.Prelude.{
  ℕ, ◌+◌, ◌-◌, ◌≡◌, ◌↔◌, refl, ap, false, some, List, [], ◌∷◌, arith, Bytes, codes, has_byte, All,
}
use git_lazy_mount.Prelude.Result.{ok}
use git_lazy_mount.Prelude.Trim.{trim}
use git_lazy_mount.Core.GitMode.{GitMode, regular, tree}
use git_lazy_mount.Core.ObjectId.{ObjectId, sha1, parse_hex, IsRead, parse_hex_iff}
use git_lazy_mount.Core.Tree.{TreeEntry, parse_tree, build_tree_bytes, git_name_cmp, compare_slices}
use git_lazy_mount.Core.Tree.Order.{git_name_cmp_lem}
use git_lazy_mount.Core.Tree.RoundTrip.{IsEntry}
use git_lazy_mount.Core.Tree.Sorted.{HasNoSlash, IsSorted, parse_tree-build_tree_bytes}

-- A codec that shifts each byte.
abbrev unshift : Bytes → Bytes
unshift [] = []
unshift (b ∷ bs) = (b - 33) ∷ unshift bs

abbrev id_bytes : Bytes
id_bytes = codes "01234567890123456789"

abbrev oid : ObjectId
oid = record { format = sha1; bytes = id_bytes }

-- Twenty bytes behind a space.
abbrev digits : Bytes
digits = codes " QRSTUVWXYZQRSTUVWXYZ"

parse_hex_iff_example :
    (parse_hex (λ bs. some (unshift bs)) sha1 digits ≡ ok oid)
    ↔ IsRead sha1 (some (unshift (trim digits))) oid
parse_hex_iff_example = parse_hex_iff (λ bs. some (unshift bs)) sha1 digits oid

is_read : parse_hex (λ bs. some (unshift bs)) sha1 digits ≡ ok oid
unfolding parse_hex git_lazy_mount.Prelude.Trim.trim_end git_lazy_mount.Prelude.Trim.trim_start
is_read = refl

no_slash : (has_byte b'/' (codes "ab") ≡ false) × (has_byte b'/' (codes "ab-") ≡ false)
unfolding has_byte
no_slash = (refl, refl)

-- The directory `ab` comes behind the file `ab-`, as `/` is greater than `-`.
git_name_cmp_example :
    git_name_cmp (codes "ab") tree (codes "ab-") regular
    ≡ compare_slices (codes "ab/") (codes "ab-")
git_name_cmp_example =
    git_name_cmp_lem (codes "ab") tree (codes "ab-") regular no_slash.0 no_slash.1

abbrev tree_entry : Bytes → GitMode → TreeEntry
tree_entry name mode = record {
  name = name;
  mode = mode;
  object_id = record { format = sha1; bytes = id_bytes };
}

abbrev entries : List TreeEntry
entries = tree_entry (codes "ab") tree ∷ tree_entry (codes "ab-") regular ∷ []

entries-IsEntry : All (IsEntry sha1 20) entries
unfolding has_byte
entries-IsEntry = (
  record { no_nul = refl; format_eq = refl; sized = omega arith },
  (record { no_nul = refl; format_eq = refl; sized = omega arith }, tt),
)

entries-HasNoSlash : All HasNoSlash entries
unfolding has_byte
entries-HasNoSlash = (refl, (refl, tt))

parse_tree-build_tree_bytes_example :
    (read : List TreeEntry) × (parse_tree oid (build_tree_bytes entries) sha1
      ≡ ok (record { id = oid; entries = read }))
    × Perm read entries
    × IsSorted read
parse_tree-build_tree_bytes_example =
    parse_tree-build_tree_bytes sha1 20 oid entries refl entries-IsEntry entries-HasNoSlash
