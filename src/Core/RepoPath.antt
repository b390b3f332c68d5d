-- ===== src/Core/RepoPath.antt =====
-- crates/core/src/path.rs: canonical repository paths as raw bytes. The proofs are in the modules
-- below. A `String` that `escape` builds is ASCII, so it is the list of its bytes.
pub mod Validity
pub mod Components
pub mod Escape
pub mod Prefix
mod Tests
use git_lazy_mount.Prelude.{
  ℕ, zero, suc, ◌+◌, ◌-◌, ◌*◌, ◌/◌, ◌%◌, Bool, true, false, ◌&&◌, ◌||◌, Option, none, some, List,
  [], ◌∷◌, ◌++◌, Bytes, codes, bytes_eq, bytes_eq_iff, ◌≡◌, ◌↔◌, ap, has_byte, split, non_empty,
  is_empty, ltb, leb, ◌==◌, if◌then◌else◌, length, take, drop,
}
use git_lazy_mount.Prelude.Map.{Key}
use git_lazy_mount.Prelude.Result.{Result, ok, err, ◌>>=◌, ◌>>◌}

pub record RepoPath : Type 0 where
  pub bytes : Bytes

pub path_eq_iff : (a b : RepoPath) → (bytes_eq a.bytes b.bytes ≡ true) ↔ (a ≡ b)
path_eq_iff a b = (
  λ h. ap (λ (t : Bytes). record { bytes = t }) ((bytes_eq_iff a.bytes b.bytes).0 h),
  λ e. (bytes_eq_iff a.bytes b.bytes).1 (ap (λ (t : RepoPath). t.bytes) e),
)

instance abbrev pub path_key : Key RepoPath
path_key = record { equals = λ a b. bytes_eq a.bytes b.bytes; equals_iff = path_eq_iff }

pub data PathError : Type 0 where
  contains_nul absolute empty_component traversal bad_escape : PathError

abbrev pub slash : ℕ
slash = b'/'

abbrev pub dot : Bytes
dot = codes "."

abbrev pub dot_dot : Bytes
dot_dot = codes ".."

abbrev pub root : RepoPath
root = record { bytes = [] }

-- The loop of `from_bytes` over the components.
check_components : List Bytes → Result PathError (Unit {0})
check_components [] = ok tt
check_components (c ∷ cs) =
    let rest = check_components cs in
    if is_empty c
    then err empty_component
    else if bytes_eq c dot || bytes_eq c dot_dot
    then err traversal
    else rest

-- `bytes[0] == b'/'`, where the bytes are not empty.
starts_with_slash : Bytes → Bool
starts_with_slash [] = false
starts_with_slash (b ∷ bs) = b == slash

unfoldable pub from_bytes : Bytes → Result PathError RepoPath
unfolding check_components starts_with_slash
from_bytes bs =
    if is_empty bs
    then ok (record { bytes = bs })
    else if has_byte 0 bs
    then err contains_nul
    else if starts_with_slash bs
    then err absolute
    else (check_components (split slash bs) >> ok (record { bytes = bs }))

abbrev pub is_root : RepoPath → Bool
is_root p = is_empty p.bytes

unfoldable pub components : RepoPath → List Bytes
components p = non_empty (split slash p.bytes)

-- `iter().rposition(..)`: the index of the last occurrence.
unfoldable pub rposition : ℕ → Bytes → Option ℕ
rposition c [] = none
rposition c (b ∷ bs) = elim (rposition c bs) [
  | some i ↦ some (suc i)
  | none ↦ if b == c then some 0 else none
]

unfoldable pub file_name : RepoPath → Option Bytes
file_name p = if is_empty p.bytes then none else elim (rposition slash p.bytes) [
  | some idx ↦ some (drop (idx + 1) p.bytes)
  | none ↦ some p.bytes
]

unfoldable pub parent : RepoPath → Option RepoPath
parent p = if is_empty p.bytes then none else elim (rposition slash p.bytes) [
  | some idx ↦ some (record { bytes = take idx p.bytes })
  | none ↦ some root
]

-- The bytes that `join` builds once the component is accepted.
unfoldable pub push_component : Bytes → Bytes → Bytes
push_component [] c = c
push_component (b ∷ bs) c = (b ∷ bs) ++ (slash ∷ c)

unfoldable pub join : RepoPath → Bytes → Result PathError RepoPath
join p c =
    if is_empty c
    then err empty_component
    else if has_byte 0 c
    then err contains_nul
    else if has_byte slash c
    then err empty_component
    else if bytes_eq c dot || bytes_eq c dot_dot
    then err traversal
    else ok (record { bytes = push_component p.bytes c })

-- `slice.starts_with(..)`.
unfoldable pub starts_with : Bytes → Bytes → Bool
starts_with bs [] = true
starts_with [] (c ∷ cs) = false
starts_with (b ∷ bs) (c ∷ cs) = (b == c) && starts_with bs cs

-- `bytes[i]`, read after the length check that makes it exist.
byte_is : Bytes → ℕ → Bool
byte_is [] c = false
byte_is (b ∷ bs) c = b == c

unfoldable pub is_prefix_of : RepoPath → RepoPath → Bool
unfolding byte_is
is_prefix_of a b =
    if is_empty a.bytes
    then true
    else if bytes_eq a.bytes b.bytes
    then true
    else ltb (length a.bytes) (length b.bytes)
      && starts_with b.bytes a.bytes
      && byte_is (drop (length a.bytes) b.bytes) slash

-- One upper-case hexadecimal digit, as `{:02X}` prints it.
hex_digit : ℕ → ℕ
hex_digit d = if ltb d 10 then b'0' + d else b'A' + (d - 10)

escape_byte : ℕ → Bytes
unfolding hex_digit
escape_byte b =
    if b == b'%'
    then codes "%25"
    else if leb 0x20 b && ltb b 0x7f
    then b ∷ []
    else b'%' ∷ hex_digit (b / 16) ∷ hex_digit (b % 16) ∷ []

escape_bytes : Bytes → Bytes
unfolding escape_byte
escape_bytes [] = []
escape_bytes (b ∷ bs) = escape_byte b ++ escape_bytes bs

unfoldable pub escape : RepoPath → Bytes
unfolding escape_bytes
escape p = escape_bytes p.bytes

hex_val : ℕ → Option ℕ
hex_val b =
    if leb b'0' b && leb b b'9'
    then some (b - b'0')
    else if leb b'a' b && leb b b'f'
    then some (b - b'a' + 10)
    else if leb b'A' b && leb b b'F'
    then some (b - b'A' + 10)
    else none

-- `(hi << 4) | lo` of two values that `hex_val` returned, each below 16.
hex_pair : Option ℕ → Option ℕ → Option ℕ
hex_pair (some hi) (some lo) = some (hi * 16 + lo)
hex_pair _ _ = none

push_byte : Option ℕ → Result PathError Bytes → Result PathError Bytes
push_byte none rest = err bad_escape
push_byte (some b) rest = rest >>= λ bs. ok (b ∷ bs)

-- The `while` loop of `unescape`.
unescape_bytes : Bytes → Result PathError Bytes
unfolding hex_val hex_pair push_byte
unescape_bytes [] = ok []
unescape_bytes (b ∷ []) = if b == b'%' then err bad_escape else ok (b ∷ [])
unescape_bytes (b ∷ c ∷ []) =
    let rest = unescape_bytes (c ∷ []) in
    if b == b'%' then err bad_escape else push_byte (some b) rest
unescape_bytes (b ∷ c ∷ d ∷ bs) =
    let rest = unescape_bytes (c ∷ d ∷ bs) in
    let after = unescape_bytes bs in
    if b == b'%'
    then push_byte (hex_pair (hex_val c) (hex_val d)) after
    else push_byte (some b) rest

unfoldable pub unescape : Bytes → Result PathError RepoPath
unfolding unescape_bytes from_bytes
unescape s = unescape_bytes s >>= from_bytes
