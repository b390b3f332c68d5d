-- ===== src/Core/Tree/Sorted.antt =====
-- The entries that are written are those given, in the order of Git.
use mathlib.Core.List.{Perm}
use mathlib.Core.List.Perm
use git_lazy_mount.Prelude.{
  ℕ, ◌<◌, ◌≡◌, refl, sym, subst, inl, inr, true, false, some, List, [], ◌∷◌, arith, Bytes, has_byte,
  ltb, ◌==◌, ==_iff, Bool-cases, All,
}
use git_lazy_mount.Prelude.Result.{ok}
use git_lazy_mount.Prelude.Lexicographic.{Before, NotAfter}
use git_lazy_mount.Core.ObjectId.{ObjectFormat, ObjectId, raw_len}
use git_lazy_mount.Core.Tree.{
  TreeEntry, Ordering, less, equal, greater, compare_bytes, then_compare, compare_slices,
  git_name_cmp, insert_entry, sort_entries, parse_tree, build_tree_bytes,
}
use git_lazy_mount.Core.Tree.Order.{sort_key, git_name_cmp_lem}
use git_lazy_mount.Core.Tree.RoundTrip.{IsEntry, All-sort_entries, parse_tree-sort_entries}

abbrev Placed : Ordering → Bytes → Bytes → Type 0
Placed less a b = Before a b
Placed equal a b = a ≡ b
Placed greater a b = Before b a

later :
    (a b : ℕ) (o : Ordering) (as' bs : Bytes)
    → a ≡ b
    → Placed o as' bs
    → Placed o (a ∷ as') (b ∷ bs)
later a b less as' bs e h = inr (e, h)
later a b equal as' bs e h = cc (e, h)
later a b greater as' bs e h = inr (sym e, h)

compare_slices-Placed : (a b : Bytes) → Placed (compare_slices a b) a b
unfolding compare_slices compare_bytes then_compare
compare_slices-Placed [] [] = refl
compare_slices-Placed [] (b ∷ bs) = tt
compare_slices-Placed (a ∷ as') [] = tt
compare_slices-Placed (a ∷ as') (b ∷ bs) = elim (Bool-cases (ltb a b)) [
  | inl e ↦ rw e (inl (less_byte a b e))
  | inr e ↦ elim (Bool-cases (a == b)) [
    | inl f ↦
        rw (e, f)
          (later a b (compare_slices as' bs) as' bs ((==_iff a b).0 f)
            (compare_slices-Placed as' bs))
    | inr f ↦ rw (e, f) (inl (other_byte a b e f))
  ]
]
  where
    less_byte : (a b : ℕ) → ltb a b ≡ true → a < b
    less_byte a b h = ground (arith, h)

    other_byte : (a b : ℕ) → ltb a b ≡ false → (a == b) ≡ false → b < a
    other_byte a b h k = ground (arith, h, k)

-- The bytes by which Git orders entries.
abbrev pub key_of : TreeEntry → Bytes
key_of e = sort_key e.name e.mode

abbrev pub HasNoSlash : TreeEntry → Type 0
HasNoSlash e = has_byte b'/' e.name ≡ false

-- Each entry, and the one behind it.
abbrev pub Under : TreeEntry → List TreeEntry → Type 0
Under e [] = Unit
Under e (f ∷ fs) = NotAfter (key_of e) (key_of f)

abbrev pub IsSorted : List TreeEntry → Type 0
IsSorted [] = Unit
IsSorted (e ∷ es) = Under e es × IsSorted es

git_name_cmp-Placed :
    (e f : TreeEntry)
    → HasNoSlash e
    → HasNoSlash f
    → Placed (git_name_cmp e.name e.mode f.name f.mode) (key_of e) (key_of f)
git_name_cmp-Placed e f h k =
    subst (λ o. Placed o (key_of e) (key_of f))
      (sym (git_name_cmp_lem e.name e.mode f.name f.mode h k))
      (compare_slices-Placed (key_of e) (key_of f))

insert_entry-Under :
    (d e : TreeEntry) (es : List TreeEntry)
    → NotAfter (key_of d) (key_of e)
    → Under d es
    → Under d (insert_entry e es)
unfolding insert_entry
insert_entry-Under d e [] h k = h
insert_entry-Under d e (f ∷ fs) h k =
    by_order (git_name_cmp e.name e.mode f.name f.mode) (insert_entry e fs)
  where
    by_order :
        (o : Ordering) (rest : List TreeEntry)
        → Under d (elim o [ greater ↦ f ∷ rest | _ ↦ e ∷ f ∷ fs ])
    by_order less rest = h
    by_order equal rest = h
    by_order greater rest = k

insert_entry-IsSorted :
    (e : TreeEntry) (es : List TreeEntry)
    → HasNoSlash e
    → All HasNoSlash es
    → IsSorted es
    → IsSorted (insert_entry e es)
unfolding insert_entry
insert_entry-IsSorted e [] h k s = (tt, tt)
insert_entry-IsSorted e (f ∷ fs) h k s =
    by_order (git_name_cmp e.name e.mode f.name f.mode) (insert_entry e fs)
      (git_name_cmp-Placed e f h k.0) (λ g. insert_entry-Under f e fs g s.0)
      (insert_entry-IsSorted e fs h k.1 s.1)
  where
    by_order :
        (o : Ordering) (rest : List TreeEntry)
        → Placed o (key_of e) (key_of f)
        → (NotAfter (key_of f) (key_of e) → Under f rest)
        → IsSorted rest
        → IsSorted (elim o [ greater ↦ f ∷ rest | _ ↦ e ∷ f ∷ fs ])
    by_order less rest p u r = (inr p, s)
    by_order equal rest p u r = (inl p, s)
    by_order greater rest p u r = (u (inr p), r)

insert_entry-perm : (e : TreeEntry) (es : List TreeEntry) → Perm (insert_entry e es) (e ∷ es)
unfolding insert_entry
insert_entry-perm e [] = Perm.rfl
insert_entry-perm e (f ∷ fs) =
    by_order (git_name_cmp e.name e.mode f.name f.mode) (insert_entry e fs) (insert_entry-perm e fs)
  where
    by_order :
        (o : Ordering) (rest : List TreeEntry)
        → Perm rest (e ∷ fs)
        → Perm (elim o [ greater ↦ f ∷ rest | _ ↦ e ∷ f ∷ fs ]) (e ∷ f ∷ fs)
    by_order less rest p = Perm.rfl
    by_order equal rest p = Perm.rfl
    by_order greater rest p = Perm.trans (Perm.cons f p) (Perm.swap e f fs)

sort_entries-perm : (es : List TreeEntry) → Perm (sort_entries es) es
unfolding sort_entries
sort_entries-perm [] = Perm.rfl
sort_entries-perm (e ∷ es) =
    Perm.trans (insert_entry-perm e (sort_entries es)) (Perm.cons e (sort_entries-perm es))

sort_entries-IsSorted : (es : List TreeEntry) → All HasNoSlash es → IsSorted (sort_entries es)
unfolding sort_entries
sort_entries-IsSorted [] h = tt
sort_entries-IsSorted (e ∷ es) h =
    insert_entry-IsSorted e (sort_entries es) h.0 (All-sort_entries HasNoSlash es h.1)
      (sort_entries-IsSorted es h.1)

-- For a format with a fixed length of ids and entries whose names have no NUL and no slash and
-- whose ids have that format and length, the bytes built for the entries parse to a list that is a
-- permutation of the entries and is sorted by the bytes of their names, a slash put behind the
-- name of a tree.
pub parse_tree-build_tree_bytes :
    (format : ObjectFormat) (n : ℕ) (id : ObjectId) (es : List TreeEntry)
    → raw_len format ≡ some n
    → All (IsEntry format n) es
    → All HasNoSlash es
    → (read : List TreeEntry) × (parse_tree id (build_tree_bytes es) format
        ≡ ok (record { id = id; entries = read }))
      × Perm read es
      × IsSorted read
parse_tree-build_tree_bytes format n id es h w s = (
  sort_entries es,
  parse_tree-sort_entries format n id es h w,
  sort_entries-perm es,
  sort_entries-IsSorted es s,
)
