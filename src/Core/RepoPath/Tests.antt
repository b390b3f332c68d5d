-- ===== src/Core/RepoPath/Tests.antt =====
-- Paths of crates/core/src/path.rs, and the theorems at them.
use git_lazy_mount.Prelude.{
  ◌≡◌, refl, ◌↔◌, inr, true, some, List, [], ◌∷◌, ◌++◌, arith, Bytes, codes, bytes_eq, has_byte,
  split, All,
}
use git_lazy_mount.Prelude.Result.{ok}
use git_lazy_mount.Core.RepoPath.{
  RepoPath, from_bytes, join, push_component, parent, file_name, components, escape, unescape,
  is_prefix_of,
}
use git_lazy_mount.Core.RepoPath.Validity.{IsComponent, IsValid, from_bytes_iff}
use git_lazy_mount.Core.RepoPath.Components.{join_lem}
use git_lazy_mount.Core.RepoPath.Escape.{IsByte, IsPrintable, unescape-escape, escape-IsPrintable}
use git_lazy_mount.Core.RepoPath.Prefix.{is_prefix_of_iff}

abbrev dir : RepoPath
dir = record { bytes = codes "a" }

abbrev file : RepoPath
file = record { bytes = codes "a/b%" }

a_valid : IsComponent (codes "a")
unfolding has_byte bytes_eq
a_valid = record { not_empty = refl; no_nul = refl; no_slash = refl; no_traversal = refl }

b_valid : IsComponent (codes "b%")
unfolding has_byte bytes_eq
b_valid = record { not_empty = refl; no_nul = refl; no_slash = refl; no_traversal = refl }

dir-IsValid : IsValid dir
unfolding split
dir-IsValid = inr (a_valid, tt)

file-IsValid : IsValid file
unfolding split
file-IsValid = inr (a_valid, (b_valid, tt))

file_bytes : All IsByte file.bytes
file_bytes = (omega arith, (omega arith, (omega arith, (omega arith, tt))))

from_bytes_iff_example :
    (from_bytes (codes "a/b%") ≡ ok file) ↔ ((codes "a/b%" ≡ codes "a/b%") × IsValid file)
from_bytes_iff_example = from_bytes_iff (codes "a/b%") file

join_is : join dir (codes "b%") ≡ ok file
unfolding join push_component has_byte bytes_eq
join_is = refl

join_example :
    IsValid file
    × (parent file ≡ some dir)
    × (file_name file ≡ some (codes "b%"))
    × (components file ≡ components dir ++ codes "b%" ∷ [])
join_example = join_lem dir (codes "b%") file dir-IsValid join_is

unescape-escape_example : unescape (escape file) ≡ ok file
unescape-escape_example = unescape-escape file file-IsValid file_bytes

escape-IsPrintable_example : All IsPrintable (escape file)
escape-IsPrintable_example = escape-IsPrintable file file_bytes

is_prefix_of_example :
    (is_prefix_of dir file ≡ true)
    ↔ ((rest : List Bytes) × (components file ≡ components dir ++ rest))
is_prefix_of_example = is_prefix_of_iff dir file dir-IsValid file-IsValid
