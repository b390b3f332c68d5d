-- ===== src/Core/Tree/RoundTrip.antt =====
-- Raw tree bytes read back.
use mathlib.Core.List.{append_assoc}
use git_lazy_mount.Prelude.{
  ℕ, zero, suc, ◌+◌, ◌≤◌, ◌≡◌, refl, ap, sym, ◌∙◌, false, some, List, [], ◌∷◌, ◌++◌, arith, Bytes,
  has_byte, length, length-append, take-length, drop-all, drop, All, ltb,
}
use git_lazy_mount.Prelude.Result.{ok}
use git_lazy_mount.Core.GitMode.{
  GitMode, as_octal, parse_octal-as_octal, regular, executable, symlink, tree, gitlink,
}
use git_lazy_mount.Core.ObjectId.{ObjectFormat, ObjectId, raw_len}
use git_lazy_mount.Core.Tree.{
  TreeEntry, position, or_error, parse_entry, push_entry, parse_entries, with_entries, parse_tree,
  insert_entry, sort_entries, entry_bytes, write_entries, build_tree_bytes, less, equal, greater,
  git_name_cmp, Ordering,
}

-- An entry that a raw tree of this format can hold.
pub record IsEntry (format : ObjectFormat) (oid_len : ℕ) (e : TreeEntry) : Type 0 where
  pub no_nul : has_byte 0 e.name ≡ false
  pub format_eq : e.object_id.format ≡ format
  pub sized : length e.object_id.bytes ≡ oid_len

position-first :
    (c : ℕ) (xs ys : Bytes) → has_byte c xs ≡ false → position c (xs ++ c ∷ ys) ≡ some (length xs)
unfolding position has_byte
position-first c [] ys h = ground arith
position-first c (x ∷ xs) ys h = ground (arith, position-first c xs ys)

drop-past : (xs : Bytes) (c : ℕ) (ys : Bytes) → drop (length xs + 1) (xs ++ c ∷ ys) ≡ ys
drop-past [] c ys = refl
drop-past (x ∷ xs) c ys =
    ap {B = Bytes} (λ (n : ℕ). drop n (x ∷ (xs ++ c ∷ ys))) (one_more (length xs))
    ∙ drop-past xs c ys
  where
    one_more : (n : ℕ) → suc n + 1 ≡ suc (n + 1)
    one_more n = omega arith

octal_no_space : (m : GitMode) → has_byte b' ' (as_octal m) ≡ false
unfolding as_octal has_byte
octal_no_space regular = refl
octal_no_space executable = refl
octal_no_space symlink = refl
octal_no_space tree = refl
octal_no_space gitlink = refl

parse_entry-entry_bytes :
    (format : ObjectFormat) (e : TreeEntry) (rest : Bytes)
    → IsEntry format (length e.object_id.bytes) e
    → parse_entry format (length e.object_id.bytes) (entry_bytes e ++ rest) ≡ ok (e, rest)
unfolding parse_entry entry_bytes or_error
parse_entry-entry_bytes format e rest w =
    let name = e.name in
    let oid = e.object_id.bytes in
    let mode = as_octal e.mode in
    let whole : (mode ++ (b' ' ∷ (name ++ (0 ∷ oid)))) ++ rest
        ≡ mode ++ b' ' ∷ (name ++ 0 ∷ (oid ++ rest)) =
      append_assoc mode (b' ' ∷ (name ++ (0 ∷ oid))) rest
      ∙ ap (λ t. mode ++ b' ' ∷ t) (append_assoc name (0 ∷ oid) rest) in
    rw whole (
      rw
        (
          position-first b' ' mode (name ++ 0 ∷ (oid ++ rest)) (octal_no_space e.mode),
          take-length mode (b' ' ∷ (name ++ 0 ∷ (oid ++ rest))),
          parse_octal-as_octal e.mode,
          drop-past mode b' ' (name ++ 0 ∷ (oid ++ rest)),
          position-first 0 name (oid ++ rest) w.no_nul,
          take-length name (0 ∷ (oid ++ rest)),
          drop-past name 0 (oid ++ rest),
          take-length oid rest,
          drop-all oid rest,
          not_short oid rest,
        )
        (ap
          (λ (f : ObjectFormat). ok (
            record { name = name; mode = e.mode; object_id = record { format = f; bytes = oid } },
            rest,
          ))
          (sym w.format_eq)))
  where
    not_short : (xs ys : Bytes) → ltb (length (xs ++ ys)) (length xs) ≡ false
    not_short xs ys = ground (arith, length-append xs ys)

has_bytes :
    (e : TreeEntry) (rest : Bytes) → (b : ℕ) × (bs : Bytes) × (entry_bytes e ++ rest ≡ b ∷ bs)
unfolding entry_bytes
has_bytes e rest =
    rw (append_assoc (as_octal e.mode) (b' ' ∷ (e.name ++ 0 ∷ e.object_id.bytes)) rest)
      (has_digit e.mode (b' ' ∷ (e.name ++ 0 ∷ e.object_id.bytes) ++ rest))
  where
    has_digit : (m : GitMode) (t : Bytes) → (b : ℕ) × (bs : Bytes) × (as_octal m ++ t ≡ b ∷ bs)
    has_digit regular t = unfold as_octal in (_, _, refl)
    has_digit executable t = unfold as_octal in (_, _, refl)
    has_digit symlink t = unfold as_octal in (_, _, refl)
    has_digit tree t = unfold as_octal in (_, _, refl)
    has_digit gitlink t = unfold as_octal in (_, _, refl)

-- A turn of the loop reads one entry.
parse_entries-cons :
    (format : ObjectFormat) (n fuel : ℕ) (e : TreeEntry) (rest : Bytes)
    → IsEntry format n e
    → parse_entries (suc fuel) format n (entry_bytes e ++ rest)
      ≡ push_entry e (parse_entries fuel format n rest)
unfolding parse_entries
parse_entries-cons format n fuel e rest w =
    let (b, bs, k) = has_bytes e rest in
    let read : parse_entry format n (b ∷ bs) ≡ ok (e, rest) =
      ap (parse_entry format n) (sym k)
      ∙ (ap (λ (m : ℕ). parse_entry format m (entry_bytes e ++ rest)) (sym w.sized)
          ∙ parse_entry-entry_bytes format e rest
              (record { no_nul = w.no_nul; format_eq = w.format_eq; sized = refl })) in
    rw k (rw read refl)

parse_entries-write :
    (format : ObjectFormat) (n fuel : ℕ) (es : List TreeEntry)
    → length (write_entries es) ≤ fuel
    → All (IsEntry format n) es
    → parse_entries fuel format n (write_entries es) ≡ ok es
unfolding write_entries
parse_entries-write format n zero [] h w = unfold parse_entries in refl
parse_entries-write format n (suc fuel) [] h w = unfold parse_entries in refl
parse_entries-write format n zero (e ∷ es) h w =
    let (b, bs, k) = has_bytes e (write_entries es) in absurd (omega (arith, ap length k))
parse_entries-write format n (suc fuel) (e ∷ es) h w =
    let (b, bs, k) = has_bytes e (write_entries es) in
    parse_entries-cons format n fuel e (write_entries es) w.0
    ∙ rw (parse_entries-write format n fuel es (omega (arith, shorter e es)) w.1)
        (unfold push_entry in refl)
  where
    shorter :
        (e : TreeEntry) (es : List TreeEntry)
        → length (write_entries es) + 1 ≤ length (entry_bytes e ++ write_entries es)
    shorter e es =
        unfold entry_bytes in
        omega (
          arith,
          length-append {0} (entry_bytes e) (write_entries es),
          length-append {0} (as_octal e.mode) (b' ' ∷ (e.name ++ 0 ∷ e.object_id.bytes)),
        )

All-insert_entry :
    (P : TreeEntry → Type 0) (e : TreeEntry) (es : List TreeEntry)
    → P e
    → All P es
    → All P (insert_entry e es)
unfolding insert_entry
All-insert_entry P e [] h k = (h, tt)
All-insert_entry P e (f ∷ fs) h k =
    by_order (git_name_cmp e.name e.mode f.name f.mode) (insert_entry e fs)
      (All-insert_entry P e fs h k.1)
  where
    by_order :
        (o : Ordering) (rest : List TreeEntry)
        → All P rest
        → All P (elim o [ greater ↦ f ∷ rest | _ ↦ e ∷ f ∷ fs ])
    by_order less rest r = (h, k)
    by_order equal rest r = (h, k)
    by_order greater rest r = (k.0, r)

pub All-sort_entries :
    (P : TreeEntry → Type 0) (es : List TreeEntry) → All P es → All P (sort_entries es)
unfolding sort_entries
All-sort_entries P [] h = tt
All-sort_entries P (e ∷ es) h =
    All-insert_entry P e (sort_entries es) h.0 (All-sort_entries P es h.1)

-- What is built for any such entries reads back as they are sorted.
pub parse_tree-sort_entries :
    (format : ObjectFormat) (n : ℕ) (id : ObjectId) (es : List TreeEntry)
    → raw_len format ≡ some n
    → All (IsEntry format n) es
    → parse_tree id (build_tree_bytes es) format
      ≡ ok (record { id = id; entries = sort_entries es })
unfolding parse_tree build_tree_bytes
parse_tree-sort_entries format n id es h w =
    rw (h, parse_tree)
      (rw
        (parse_entries-write format n (length (write_entries (sort_entries es))) (sort_entries es)
          (omega arith) (All-sort_entries (IsEntry format n) es w))
        (unfold with_entries in refl))
