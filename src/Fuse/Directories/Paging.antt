-- ===== src/Fuse/Directories/Paging.antt =====
-- Reading a directory page by page, in crates/fuse/src/mount.rs.
use git_lazy_mount.Prelude.{
  ℕ, zero, suc, ◌+◌, ◌≤◌, ◌<◌, ◌≡◌, refl, ap, sym, ◌∙◌, Bool, true, false, List, [], ◌∷◌, ◌++◌,
  arith, length, drop, take, length-drop, drop-drop, take-append-drop, inl, inr, Bool-cases,
}
use mathlib.Core.List.{append-nil, append_assoc}
use git_lazy_mount.Fuse.{Listed, Host}
use git_lazy_mount.Fuse.Directories.{fill, page_at}

-- The entries of a page, without their offsets.
names : List (ℕ × Listed) → List Listed
names [] = []
names ((i, e) ∷ page) = e ∷ names page

-- Where the kernel goes on: at the offset behind the last entry of the page.
next_offset : ℕ → List (ℕ × Listed) → ℕ
next_offset off [] = off
next_offset off ((i, e) ∷ page) = next_offset i page

-- An empty page is the end.
pages_end : List (ℕ × Listed) → List Listed × Bool → List Listed × Bool
unfolding names
pages_end [] rest = ([], true)
pages_end (x ∷ page) rest = (names (x ∷ page) ++ rest.0, rest.1)

-- A reader that asks for page after page, each from where the one before ended, until a page is
-- empty; `fuel` is how many pages it asks for at most, and the flag whether it came to an end.
unfoldable pub read_pages : ℕ → Host → List Listed → ℕ → List Listed × Bool
unfolding pages_end next_offset
read_pages zero host entries off = ([], false)
read_pages (suc fuel) host entries off =
    let page = page_at host entries off in
    pages_end page (read_pages fuel host entries (next_offset off page))

-- What a page holds: a first part of what is left, with offsets that go on behind it.
record Filled (host : Host) (i : ℕ) (page : List (ℕ × Listed)) (es : List Listed)
    (out : List (ℕ × Listed)) : Type 0 where
  count : ℕ
  fits : count ≤ length es
  content : names out ≡ names page ++ take count es
  next : (off : ℕ) → next_offset off page ≡ i → next_offset off out ≡ i + count

names-append : (a b : List (ℕ × Listed)) → names (a ++ b) ≡ names a ++ names b
unfolding names
names-append [] b = refl
names-append ((i, e) ∷ a) b = ap (λ t. e ∷ t) (names-append a b)

next_offset-last :
    (off : ℕ) (page : List (ℕ × Listed)) (i : ℕ) (e : Listed)
    → next_offset off (page ++ (i, e) ∷ []) ≡ i
unfolding next_offset
next_offset-last off [] i e = refl
next_offset-last off ((j, d) ∷ page) i e = next_offset-last j page i e

fill-Filled :
    (host : Host) (i : ℕ) (page : List (ℕ × Listed)) (es : List Listed)
    → Filled host i page es (fill host i page es)
unfolding fill names
fill-Filled host i page [] = record {
  count = 0;
  fits = omega arith;
  content = sym (append-nil (names page));
  next = λ off h. h ∙ omega arith;
}
fill-Filled host i page (e ∷ es) = elim (Bool-cases (host.full page e)) [
  | inl h ↦ rw h (record {
    count = 0;
    fits = omega arith;
    content = sym (append-nil (names page));
    next = λ off k. k ∙ omega arith;
  })
  | inr h ↦
      let f = fill-Filled host (i + 1) (page ++ (i + 1, e) ∷ []) es in
      rw h (record {
        count = suc f.count;
        fits = omega (arith, f.fits);
        content =
            f.content
            ∙ (ap (λ t. t ++ take f.count es) (names-append page ((i + 1, e) ∷ []))
                ∙ append_assoc (names page) (e ∷ []) (take f.count es));
        next = λ off k. f.next off (next_offset-last off page (i + 1) e) ∙ omega arith;
      })
]

pages_end-cons :
    (page : List (ℕ × Listed)) (e : Listed) (es : List Listed) (rest : List Listed × Bool)
    → names page ≡ e ∷ es
    → pages_end page rest ≡ (names page ++ rest.0, rest.1)
unfolding pages_end
pages_end-cons [] e es rest h = absurd (unfold names in ground (arith, h))
pages_end-cons (x ∷ page) e es rest h = refl

-- A page of what is not empty holds its first entry.
page-cons :
    (host : Host) (off : ℕ) (e : Listed) (es : List Listed)
    → host.full [] e ≡ false
    → (count : ℕ) × (count ≤ length es)
      × (names (fill host off [] (e ∷ es)) ≡ e ∷ take count es)
      × (next_offset off (fill host off [] (e ∷ es)) ≡ off + suc count)
unfolding fill names next_offset
page-cons host off e es room =
    let f = fill-Filled host (off + 1) ((off + 1, e) ∷ []) es in
    rw room (f.count, f.fits, f.content, f.next off refl ∙ omega arith)

module _ (host : Host) (entries : List Listed) (room : (e : Listed) → host.full [] e ≡ false) where
  read_pages-step :
      (fuel off : ℕ) (es : List Listed)
      → drop off entries ≡ es
      → length es < suc fuel
      → ((off' : ℕ)
          → length (drop off' entries) < fuel
          → read_pages fuel host entries off' ≡ (drop off' entries, true))
      → read_pages (suc fuel) host entries off ≡ (es, true)
  unfolding read_pages page_at
  read_pages-step fuel off [] d le ih = rw d (unfold fill pages_end in refl)
  read_pages-step fuel off (e ∷ es) d le ih =
      let (c, fits, content, next) = page-cons host off e es (room e) in
      let rest : drop (off + suc c) entries ≡ drop c es =
        sym (drop-drop (suc c) off entries) ∙ ap (drop (suc c)) d in
      let small : length (drop (off + suc c) entries) < fuel =
        omega (arith, ap length rest, length-drop c es) in
      rw d (
        pages_end-cons (fill host off [] (e ∷ es)) e (take c es) _ content
        ∙ rw (next, ih (off + suc c) small, content, rest)
            (ap (λ t. (e ∷ t, true)) (take-append-drop c es)))

  read_pages-end :
      (fuel off : ℕ)
      → length (drop off entries) < fuel
      → read_pages fuel host entries off ≡ (drop off entries, true)
  read_pages-end zero off le = absurd (omega (arith, le))
  read_pages-end (suc fuel) off le =
      read_pages-step fuel off (drop off entries) refl le (λ off'. read_pages-end fuel off')

-- If an empty reply has room for any entry, a reader that asks for page after page from the start
-- comes to an end with more pages than entries, and has then every entry of the listing once and
-- in order.
pub read_pages_lem :
    (fuel : ℕ) (host : Host) (entries : List Listed)
    → ((e : Listed) → host.full [] e ≡ false)
    → length entries < fuel
    → read_pages fuel host entries 0 ≡ (entries, true)
read_pages_lem fuel host entries room h = read_pages-end host entries room fuel 0 h
