-- ===== src/Core/Tree.antt =====
-- crates/core/src/tree.rs and crates/git-store/src/tree_parse.rs: Git tree objects and their raw
-- bytes.
pub mod RoundTrip
pub mod Order
pub mod Sorted
use git_lazy_mount.Prelude.{
  ℕ, zero, suc, ◌+◌, ◌-◌, Bool, true, false, ◌||◌, Option, none, some, List, [], ◌∷◌, ◌++◌, Bytes,
  codes, bytes_eq, is_empty, length, take, drop, ltb, leb, ◌==◌, if◌then◌else◌,
}
use git_lazy_mount.Prelude.Result.{Result, ok, err, ◌>>=◌}
use git_lazy_mount.Core.GitMode.{GitMode, parse_octal, as_octal, is_tree}
use git_lazy_mount.Core.ObjectId.{ObjectFormat, ObjectId, raw_len}

pub record TreeEntry : Type 0 where
  pub name : Bytes
  pub mode : GitMode
  pub object_id : ObjectId

pub record TreeObject : Type 0 where
  pub id : ObjectId
  pub entries : List TreeEntry

find_entry : Bytes → List TreeEntry → Option TreeEntry
find_entry n [] = none
find_entry n (e ∷ es) = let rest = find_entry n es in if bytes_eq e.name n then some e else rest

-- `TreeObject::entry`.
unfoldable pub entry : Bytes → TreeObject → Option TreeEntry
unfolding find_entry
entry n t = find_entry n t.entries

-- The messages of `corrupt`; a mode that is not UTF-8 is reported as one that is unknown.
pub data TreeError : Type 0 where
  unsupported_format missing_space unknown_mode missing_nul truncated_oid : TreeError

-- `iter().position(..)`.
position : ℕ → Bytes → Option ℕ
position c [] = none
position c (b ∷ bs) = elim (position c bs) [
  | some i ↦ if b == c then some 0 else some (suc i)
  | none ↦ if b == c then some 0 else none
]

or_error : {A : Type 0} → TreeError → Option A → Result TreeError A
or_error e none = err e
or_error e (some a) = ok a

-- One turn of the loop of `parse_tree`: the entry, and the bytes after it.
parse_entry : ObjectFormat → ℕ → Bytes → Result TreeError (TreeEntry × Bytes)
unfolding position or_error
parse_entry format oid_len bs = or_error missing_space (position b' ' bs) >>= λ sp.
    or_error unknown_mode (parse_octal (take sp bs)) >>= λ mode.
    or_error missing_nul (position 0 (drop (sp + 1) bs)) >>= λ nul.
    let rest = drop (nul + 1) (drop (sp + 1) bs) in
    if ltb (length rest) oid_len
    then err truncated_oid
    else ok (
      record {
        name = take nul (drop (sp + 1) bs);
        mode = mode;
        object_id = record { format = format; bytes = take oid_len rest };
      },
      drop oid_len rest,
    )

push_entry : TreeEntry → Result TreeError (List TreeEntry) → Result TreeError (List TreeEntry)
push_entry e (ok es) = ok (e ∷ es)
push_entry e (err x) = err x

-- The loop of `parse_tree`. A turn takes a byte at least, so the number of bytes is fuel enough.
parse_entries : ℕ → ObjectFormat → ℕ → Bytes → Result TreeError (List TreeEntry)
parse_entries zero format oid_len bs = ok []
parse_entries (suc fuel) format oid_len [] = ok []
parse_entries (suc fuel) format oid_len (b ∷ bs) = parse_entry format oid_len (b ∷ bs) >>= λ r.
    push_entry r.0 (parse_entries fuel format oid_len r.1)

with_entries : ObjectId → Result TreeError (List TreeEntry) → Result TreeError TreeObject
with_entries id (ok es) = ok (record { id = id; entries = es })
with_entries id (err x) = err x

unfoldable pub parse_tree : ObjectId → Bytes → ObjectFormat → Result TreeError TreeObject
unfolding parse_entries parse_entry push_entry with_entries
parse_tree id bs format = elim (raw_len format) [
  | none ↦ err unsupported_format
  | some oid_len ↦ with_entries id (parse_entries (length bs) format oid_len bs)
]

pub data Ordering : Type 0 where
  less equal greater : Ordering

-- `Ord::cmp` on bytes.
unfoldable pub compare_bytes : ℕ → ℕ → Ordering
compare_bytes a b = if ltb a b then less else if a == b then equal else greater

unfoldable pub then_compare : Ordering → Ordering → Ordering
then_compare equal o = o
then_compare less o = less
then_compare greater o = greater

-- `Ord::cmp` on byte slices.
unfoldable pub compare_slices : Bytes → Bytes → Ordering
unfolding compare_bytes then_compare
compare_slices [] [] = equal
compare_slices [] (b ∷ bs) = less
compare_slices (a ∷ as') [] = greater
compare_slices (a ∷ as') (b ∷ bs) = then_compare (compare_bytes a b) (compare_slices as' bs)

-- `Ord::cmp` on `Option<u8>`.
compare_options : Option ℕ → Option ℕ → Ordering
unfolding compare_bytes
compare_options none none = equal
compare_options none (some b) = less
compare_options (some a) none = greater
compare_options (some a) (some b) = compare_bytes a b

-- `a.get(n)`, or the slash of a tree.
next_byte : Bytes → GitMode → Option ℕ
next_byte [] m = if is_tree m then some b'/' else none
next_byte (c ∷ cs) m = some c

min : ℕ → ℕ → ℕ
min a b = if leb a b then a else b

unfoldable pub git_name_cmp : Bytes → GitMode → Bytes → GitMode → Ordering
unfolding compare_options next_byte min then_compare
git_name_cmp a am b bm =
    let n = min (length a) (length b) in
    then_compare (compare_slices (take n a) (take n b))
      (compare_options (next_byte (drop n a) am) (next_byte (drop n b) bm))

-- `sort_by` is stable: an entry goes in front of the first that is greater.
insert_entry : TreeEntry → List TreeEntry → List TreeEntry
insert_entry e [] = e ∷ []
insert_entry e (f ∷ fs) =
    let rest = insert_entry e fs in
    elim (git_name_cmp e.name e.mode f.name f.mode) [ greater ↦ f ∷ rest | _ ↦ e ∷ f ∷ fs ]

unfoldable pub sort_entries : List TreeEntry → List TreeEntry
unfolding insert_entry
sort_entries [] = []
sort_entries (e ∷ es) = insert_entry e (sort_entries es)

entry_bytes : TreeEntry → Bytes
entry_bytes e = as_octal e.mode ++ (b' ' ∷ (e.name ++ (0 ∷ e.object_id.bytes)))

write_entries : List TreeEntry → Bytes
unfolding entry_bytes
write_entries [] = []
write_entries (e ∷ es) = entry_bytes e ++ write_entries es

unfoldable pub build_tree_bytes : List TreeEntry → Bytes
unfolding sort_entries write_entries
build_tree_bytes es = write_entries (sort_entries es)
