-- ===== src/Core/GitMode.antt =====
-- crates/core/src/mode.rs: the modes of a Git tree entry.
use git_lazy_mount.Prelude.{
  ℕ, ◌≡◌, refl, Bool, true, false, ◌||◌, Option, none, some, [], ◌∷◌, Bytes, codes, bytes_eq, ◌==◌,
  if◌then◌else◌,
}

pub data GitMode : Type 0 where
  regular executable symlink tree gitlink : GitMode

-- `trim_start_matches('0')`.
trim_zeros : Bytes → Bytes
trim_zeros [] = []
trim_zeros (c ∷ cs) = let rest = trim_zeros cs in if c == b'0' then rest else c ∷ cs

named_mode : Bytes → Option GitMode
named_mode s =
    if bytes_eq s (codes "100644") || bytes_eq s (codes "644")
    then some regular
    else if bytes_eq s (codes "100755") || bytes_eq s (codes "755")
    then some executable
    else if bytes_eq s (codes "120000")
    then some symlink
    else if bytes_eq s (codes "40000") || bytes_eq s (codes "040000")
    then some tree
    else if bytes_eq s (codes "160000")
    then some gitlink
    else none

unfoldable pub parse_octal : Bytes → Option GitMode
unfolding trim_zeros named_mode
parse_octal mode = named_mode (trim_zeros mode)

unfoldable pub as_octal : GitMode → Bytes
as_octal regular = codes "100644"
as_octal executable = codes "100755"
as_octal symlink = codes "120000"
as_octal tree = codes "40000"
as_octal gitlink = codes "160000"

abbrev pub is_tree : GitMode → Bool
is_tree tree = true
is_tree _ = false

unfoldable pub is_file : GitMode → Bool
is_file regular = true
is_file executable = true
is_file _ = false

-- 0o100644, 0o100755, 0o120777 and 0o040755.
unfoldable pub to_unix_mode : GitMode → ℕ
to_unix_mode regular = 33188
to_unix_mode executable = 33261
to_unix_mode symlink = 41471
to_unix_mode tree = 16877
to_unix_mode gitlink = 16877

-- parse_octal gives every mode back from its octal form.
pub parse_octal-as_octal : (m : GitMode) → parse_octal (as_octal m) ≡ some m
unfolding parse_octal as_octal bytes_eq
parse_octal-as_octal regular = refl
parse_octal-as_octal executable = refl
parse_octal-as_octal symlink = refl
parse_octal-as_octal tree = refl
parse_octal-as_octal gitlink = refl
