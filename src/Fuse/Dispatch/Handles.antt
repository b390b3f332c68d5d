-- ===== src/Fuse/Dispatch/Handles.antt =====
-- The handle tables of crates/fuse/src/mount.rs over any sequence of calls.
use git_lazy_mount.Prelude.{
  ℕ, ◌+◌, ◌≤◌, ◌<◌, ◌≡◌, refl, ap, sym, ◌∙◌, true, false, Option, none, some, List, [], ◌∷◌, arith,
  ==_iff, ==_refl,
}
use git_lazy_mount.Prelude.Map
use git_lazy_mount.Prelude.Map.{Map, nat_eq, get-insert, get-remove}
use git_lazy_mount.Prelude.Io.{Oracle}
use git_lazy_mount.Worktree.{Projection}
use git_lazy_mount.Fuse.{
  Mount, Handle, Listed, Host, Reply, lookup_handle, new_mount, handed_out, done,
}
use git_lazy_mount.Fuse.Callbacks.{Callback, release_call}
use git_lazy_mount.Fuse.Callbacks.Quiet.{done-IsQuiet}
use git_lazy_mount.Fuse.Callbacks.Quiet.Growing.{
  Grows, same, new_file, new_dir, Growing, just-Growing, getattr_call-Growing, setattr_call-Growing,
  open_call-Growing, create_call-Growing, read_call-Growing, write_call-Growing, fsync_call-Growing,
  lookup_call-Growing, forget_call-Growing, readlink_call-Growing, mkdir_call-Growing,
  symlink_call-Growing, unlink_call-Growing, rmdir_call-Growing, rename_call-Growing,
}
use git_lazy_mount.Fuse.Directories.{releasedir_call}
use git_lazy_mount.Fuse.Directories.Growing.{opendir_call-Growing, readdir_call-Growing}
use git_lazy_mount.Fuse.Dispatch
use git_lazy_mount.Fuse.Dispatch.{Call, dispatch, dispatch_all, gives_up, given_up}

-- Every number in use was handed out before, and none is in both tables.
pub record IsNumbered (s : Mount) : Type 0 where
  pub files : (fh : ℕ) → s.next_fh ≤ fh → lookup_handle fh s ≡ none
  pub dirs : (fh : ℕ) → s.next_fh ≤ fh → Map.get fh s.dir_handles ≡ none
  pub apart : (fh : ℕ) (h : Handle) → lookup_handle fh s ≡ some h → Map.get fh s.dir_handles ≡ none

-- What one call does, with a number that it may give up.
data Effect (c : Call) (s : Mount) (r : Reply) (t : Mount) : Type 0 where
  grows : Grows s r t → Effect c s r t
  drops :
      (n : ℕ)
      → gives_up n c ≡ true
      → handed_out r ≡ none
      → t.handles ≡ Map.remove n s.handles
      → t.dir_handles ≡ s.dir_handles
      → t.next_fh ≡ s.next_fh
      → Effect c s r t
  drops_dir :
      (n : ℕ)
      → gives_up n c ≡ true
      → handed_out r ≡ none
      → t.handles ≡ s.handles
      → t.dir_handles ≡ Map.remove n s.dir_handles
      → t.next_fh ≡ s.next_fh
      → Effect c s r t

grown :
    {c : Call} (m : Callback) (o : Oracle) (s : Mount) → Growing m → Effect c s (m o s).0 (m o s).1
grown m o s h = grows (h.at o s)

dispatch-Effect :
    (host : Host) (c : Call) (o : Oracle) (s : Mount)
    → Effect c s (dispatch host c o s).0 (dispatch host c o s).1
unfolding dispatch gives_up release_call releasedir_call
dispatch-Effect host (Dispatch.lookup i name) o s = grown _ o s (lookup_call-Growing host i name)
dispatch-Effect host (Dispatch.forget i n) o s = grown _ o s (forget_call-Growing host i n)
dispatch-Effect host (Dispatch.getattr i) o s = grown _ o s (getattr_call-Growing host i)
dispatch-Effect host (Dispatch.setattr i mode size) o s =
    grown _ o s (setattr_call-Growing host i mode size)
dispatch-Effect host (Dispatch.readlink i) o s = grown _ o s (readlink_call-Growing host i)
dispatch-Effect host (Dispatch.open_file i flags) o s = grown _ o s (open_call-Growing host i flags)
dispatch-Effect host (Dispatch.create i name mode) o s =
    grown _ o s (create_call-Growing host i name mode)
dispatch-Effect host (Dispatch.read fh off n) o s = grown _ o s (read_call-Growing host fh off n)
dispatch-Effect host (Dispatch.write fh off bs) o s =
    grown _ o s (write_call-Growing host fh off bs)
dispatch-Effect host (Dispatch.flush fh) o s = grown _ o s (just-Growing done done-IsQuiet)
dispatch-Effect host (Dispatch.access i) o s = grown _ o s (just-Growing done done-IsQuiet)
dispatch-Effect host (Dispatch.fsync fh b) o s = grown _ o s (fsync_call-Growing host fh b)
dispatch-Effect host (Dispatch.release fh) o s =
    drops fh (==_refl fh) (done-IsQuiet.none_out) refl refl refl
dispatch-Effect host (Dispatch.mkdir i name) o s = grown _ o s (mkdir_call-Growing host i name)
dispatch-Effect host (Dispatch.unlink i name) o s = grown _ o s (unlink_call-Growing host i name)
dispatch-Effect host (Dispatch.rmdir i name) o s = grown _ o s (rmdir_call-Growing host i name)
dispatch-Effect host (Dispatch.rename i name j newname flags fuel) o s =
    grown _ o s (rename_call-Growing fuel host i name j newname flags)
dispatch-Effect host (Dispatch.symlink i name target) o s =
    grown _ o s (symlink_call-Growing host i name target)
dispatch-Effect host (Dispatch.opendir i) o s = grown _ o s (opendir_call-Growing host i)
dispatch-Effect host (Dispatch.readdir i fh off) o s =
    grown _ o s (readdir_call-Growing host i fh off)
dispatch-Effect host (Dispatch.releasedir fh) o s =
    drops_dir fh (==_refl fh) (done-IsQuiet.none_out) refl refl refl

-- Both tables at a number.
abbrev pub Entry : Type 0
Entry = Option Handle × Option (List Listed)

unfoldable pub entry_at : ℕ → Mount → Entry
unfolding lookup_handle
entry_at fh s = (lookup_handle fh s, Map.get fh s.dir_handles)

module _ {V : Type 0} where
  insert_above :
      (n fh : ℕ) (v : V) (m : Map ℕ V) → fh < n → Map.get fh (Map.insert n v m) ≡ Map.get fh m
  insert_above n fh v m lt = ground (arith, get-insert n fh v m, lt)

  remove_other :
      (n fh : ℕ) (m : Map ℕ V) (c : Call)
      → gives_up n c ≡ true
      → gives_up fh c ≡ false
      → Map.get fh (Map.remove n m) ≡ Map.get fh m
  remove_other n fh m c u g = ground (arith, get-remove n fh m, ==_iff n fh, other)
    where
      other : n ≡ fh → true ≡ false
      other e = sym u ∙ (ap (λ k. gives_up k c) e ∙ g)

  still_some :
      (n fh : ℕ) (v : V) (m : Map ℕ V)
      → Map.get fh (Map.remove n m) ≡ some v
      → Map.get fh m ≡ some v
  still_some n fh v m h = ground (arith, get-remove n fh m, h)

  still_none : (n fh : ℕ) (m : Map ℕ V) → Map.get fh m ≡ none → Map.get fh (Map.remove n m) ≡ none
  still_none n fh m h = ground (arith, get-remove n fh m, h)

-- A number below the next one that the call does not give up keeps what it stands for.
Effect-keeps :
    (c : Call) (s : Mount) (r : Reply) (t : Mount) (fh : ℕ)
    → Effect c s r t
    → fh < s.next_fh
    → gives_up fh c ≡ false
    → (entry_at fh t ≡ entry_at fh s) × (s.next_fh ≤ t.next_fh)
unfolding entry_at lookup_handle
Effect-keeps c s r t fh (grows (same a h d n)) lt g =
    (cc (ap (Map.get fh) h, ap (Map.get fh) d), omega (arith, n))
Effect-keeps c s r t fh (grows (new_file x a h d n)) lt g = (
  cc (ap (Map.get fh) h, ap (Map.get fh) d, insert_above s.next_fh fh x s.handles lt),
  omega (arith, n),
)
Effect-keeps c s r t fh (grows (new_dir x a h d n)) lt g = (
  cc (ap (Map.get fh) h, ap (Map.get fh) d, insert_above s.next_fh fh x s.dir_handles lt),
  omega (arith, n),
)
Effect-keeps c s r t fh (drops n u a h d e) lt g =
    (cc (ap (Map.get fh) h, ap (Map.get fh) d, remove_other n fh s.handles c u g), omega (arith, e))
Effect-keeps c s r t fh (drops_dir n u a h d e) lt g = (
  cc (ap (Map.get fh) h, ap (Map.get fh) d, remove_other n fh s.dir_handles c u g),
  omega (arith, e),
)

-- A number from the next one on stays free unless the call hands it out.
Effect-IsNumbered :
    (c : Call) (s : Mount) (r : Reply) (t : Mount) → Effect c s r t → IsNumbered s → IsNumbered t
unfolding lookup_handle
Effect-IsNumbered c s r t (grows (same a h d n)) i = record {
  files = λ fh le. ap (Map.get fh) h ∙ i.files fh (omega (arith, n, le));
  dirs = λ fh le. ap (Map.get fh) d ∙ i.dirs fh (omega (arith, n, le));
  apart = λ fh x e. ap (Map.get fh) d ∙ i.apart fh x (sym (ap (Map.get fh) h) ∙ e);
}
Effect-IsNumbered c s r t (grows (new_file x a h d n)) i = record {
  files = λ fh le.
      ap (Map.get fh) h
      ∙ ground
          (arith, get-insert s.next_fh fh x s.handles, i.files fh (omega (arith, n, le)), n, le);
  dirs = λ fh le. ap (Map.get fh) d ∙ i.dirs fh (omega (arith, n, le));
  apart = λ fh y e. ap (Map.get fh) d ∙ by_number fh y e;
}
  where
    by_number :
        (fh : ℕ) (y : Handle) → Map.get fh t.handles ≡ some y → Map.get fh s.dir_handles ≡ none
    by_number fh y e = ground (
      arith,
      get-insert s.next_fh fh x s.handles,
      ap (Map.get fh) h,
      e,
      i.apart fh y,
      i.dirs fh,
      ==_iff s.next_fh fh,
    )
Effect-IsNumbered c s r t (grows (new_dir x a h d n)) i = record {
  files = λ fh le. ap (Map.get fh) h ∙ i.files fh (omega (arith, n, le));
  dirs = λ fh le.
      ap (Map.get fh) d
      ∙ ground
          (arith, get-insert s.next_fh fh x s.dir_handles, i.dirs fh (omega (arith, n, le)), n, le);
  apart = λ fh y e. ap (Map.get fh) d ∙ no_file fh y (sym (ap (Map.get fh) h) ∙ e);
}
  where
    no_file :
        (fh : ℕ) (y : Handle)
        → Map.get fh s.handles ≡ some y
        → Map.get fh (Map.insert s.next_fh x s.dir_handles) ≡ none
    no_file fh y e = ground (
      arith,
      get-insert s.next_fh fh x s.dir_handles,
      e,
      i.apart fh y e,
      i.files fh,
      ==_iff s.next_fh fh,
    )
Effect-IsNumbered c s r t (drops n u a h d e) i = record {
  files =
      λ fh le. ap (Map.get fh) h ∙ still_none n fh s.handles (i.files fh (omega (arith, e, le)));
  dirs = λ fh le. ap (Map.get fh) d ∙ i.dirs fh (omega (arith, e, le));
  apart = λ fh x k.
      ap (Map.get fh) d ∙ i.apart fh x (still_some n fh x s.handles (sym (ap (Map.get fh) h) ∙ k));
}
Effect-IsNumbered c s r t (drops_dir n u a h d e) i = record {
  files = λ fh le. ap (Map.get fh) h ∙ i.files fh (omega (arith, e, le));
  dirs =
      λ fh le. ap (Map.get fh) d ∙ still_none n fh s.dir_handles (i.dirs fh (omega (arith, e, le)));
  apart = λ fh x k.
      ap (Map.get fh) d
      ∙ still_none n fh s.dir_handles (i.apart fh x (sym (ap (Map.get fh) h) ∙ k));
}

new_mount-IsNumbered : (p : Projection) → IsNumbered (new_mount p)
unfolding new_mount lookup_handle Map.get
new_mount-IsNumbered p = record {
  files = λ fh le. refl;
  dirs = λ fh le. refl;
  apart = λ fh h e. refl;
}

dispatch_all-IsNumbered :
    (host : Host) (cs : List (Call × Oracle)) (s : Mount)
    → IsNumbered s
    → IsNumbered (dispatch_all host cs s)
unfolding dispatch_all
dispatch_all-IsNumbered host [] s i = i
dispatch_all-IsNumbered host ((c, o) ∷ cs) s i =
    dispatch_all-IsNumbered host cs _ (Effect-IsNumbered c s _ _ (dispatch-Effect host c o s) i)

fresh_number :
    (c : Call) (s : Mount) (r : Reply) (t : Mount) (fh : ℕ)
    → handed_out r ≡ some (s.next_fh)
    → t.next_fh ≡ s.next_fh + 1
    → IsNumbered s
    → handed_out r ≡ some fh
    → (s.next_fh ≤ fh) × (fh < t.next_fh) × (entry_at fh s ≡ (none, none))
unfolding entry_at
fresh_number c s r t fh a n i e =
    let same : s.next_fh ≡ fh = ground (arith, a, e) in
    let le : s.next_fh ≤ fh = omega (arith, same) in
    (le, omega (arith, n, same), cc (i.files fh le, i.dirs fh le))

-- What a handed out number was before.
Effect-fresh :
    (c : Call) (s : Mount) (r : Reply) (t : Mount) (fh : ℕ)
    → Effect c s r t
    → IsNumbered s
    → handed_out r ≡ some fh
    → (s.next_fh ≤ fh) × (fh < t.next_fh) × (entry_at fh s ≡ (none, none))
unfolding entry_at
Effect-fresh c s r t fh (grows (same a h d n)) i e = absurd (ground (arith, a, e))
Effect-fresh c s r t fh (grows (new_file x a h d n)) i e = fresh_number c s r t fh a n i e
Effect-fresh c s r t fh (grows (new_dir x a h d n)) i e = fresh_number c s r t fh a n i e
Effect-fresh c s r t fh (drops n u a h d k) i e = absurd (ground (arith, a, e))
Effect-fresh c s r t fh (drops_dir n u a h d k) i e = absurd (ground (arith, a, e))

next_fh-grows :
    (host : Host) (cs : List (Call × Oracle)) (s : Mount)
    → s.next_fh ≤ (dispatch_all host cs s).next_fh
unfolding dispatch_all
next_fh-grows host [] s = omega arith
next_fh-grows host ((c, o) ∷ cs) s =
    omega
      (arith, one_call (dispatch-Effect host c o s), next_fh-grows host cs (dispatch host c o s).1)
  where
    one_call : {r : Reply} {t : Mount} → Effect c s r t → s.next_fh ≤ t.next_fh
    one_call (grows (same a h d n)) = omega (arith, n)
    one_call (grows (new_file x a h d n)) = omega (arith, n)
    one_call (grows (new_dir x a h d n)) = omega (arith, n)
    one_call (drops n u a h d k) = omega (arith, k)
    one_call (drops_dir n u a h d k) = omega (arith, k)

after_call-fresh :
    (host : Host) (s : Mount) (between : List (Call × Oracle)) (c d : Call) (o u : Oracle)
    (fh gh : ℕ)
    → IsNumbered s
    → handed_out (dispatch host c o s).0 ≡ some fh
    → handed_out (dispatch host d u (dispatch_all host between (dispatch host c o s).1)).0 ≡ some gh
    → (fh < gh)
      × (entry_at fh s ≡ (none, none))
      × (entry_at gh (dispatch_all host between (dispatch host c o s).1) ≡ (none, none))
after_call-fresh host s between c d o u fh gh i h k =
    let e = dispatch-Effect host c o s in
    let first = Effect-fresh c s _ _ fh e i h in
    let v = dispatch_all host between (dispatch host c o s).1 in
    let j = dispatch_all-IsNumbered host between _ (Effect-IsNumbered c s _ _ e i) in
    let second = Effect-fresh d v _ _ gh (dispatch-Effect host d u v) j k in
    (
      omega (arith, first.1, second.0, next_fh-grows host between (dispatch host c o s).1),
      first.2,
      second.2,
    )

-- On a new mount, after any calls, a call hands out a number; then any calls follow, and a further
-- call hands out a number again. The second is larger than the first, and before each of the two
-- calls its number is in use in neither table.
pub dispatch_fresh :
    (host : Host) (p : Projection) (before between : List (Call × Oracle)) (c d : Call)
    (o u : Oracle) (fh gh : ℕ)
    → handed_out (dispatch host c o (dispatch_all host before (new_mount p))).0 ≡ some fh
    → handed_out
        (dispatch host d u (
          dispatch_all host between
            (dispatch host c o (dispatch_all host before (new_mount p))).1)).0
      ≡ some gh
    → (fh < gh)
      × (entry_at fh (dispatch_all host before (new_mount p)) ≡ (none, none))
      × (entry_at gh (
            dispatch_all host between
              (dispatch host c o (dispatch_all host before (new_mount p))).1)
          ≡ (none, none))
dispatch_fresh host p before between c d o u fh gh h k =
    after_call-fresh host (dispatch_all host before (new_mount p)) between c d o u fh gh
      (dispatch_all-IsNumbered host before (new_mount p) (new_mount-IsNumbered p)) h k

dispatch_all-keeps :
    (host : Host) (cs : List (Call × Oracle)) (s : Mount) (fh : ℕ)
    → fh < s.next_fh
    → given_up fh cs ≡ false
    → entry_at fh (dispatch_all host cs s) ≡ entry_at fh s
unfolding dispatch_all given_up
dispatch_all-keeps host [] s fh lt g = refl
dispatch_all-keeps host ((c, o) ∷ cs) s fh lt g =
    let k = Effect-keeps c s _ _ fh (dispatch-Effect host c o s) lt (ground (arith, g)) in
    dispatch_all-keeps host cs (dispatch host c o s).1 fh (omega (arith, lt, k.1))
      (ground (arith, g))
    ∙ k.0

-- On a new mount, after any calls, a call hands out a number. After any further calls, none of
-- which releases that number, it stands in both tables for what it stood for right after the call.
pub dispatch_kept :
    (host : Host) (p : Projection) (before between : List (Call × Oracle)) (c : Call) (o : Oracle)
    (fh : ℕ)
    → handed_out (dispatch host c o (dispatch_all host before (new_mount p))).0 ≡ some fh
    → given_up fh between ≡ false
    → entry_at fh
        (dispatch_all host between (dispatch host c o (dispatch_all host before (new_mount p))).1)
      ≡ entry_at fh (dispatch host c o (dispatch_all host before (new_mount p))).1
dispatch_kept host p before between c o fh h g =
    let s = dispatch_all host before (new_mount p) in
    let i = dispatch_all-IsNumbered host before (new_mount p) (new_mount-IsNumbered p) in
    let first = Effect-fresh c s _ _ fh (dispatch-Effect host c o s) i h in
    dispatch_all-keeps host between (dispatch host c o s).1 fh first.1 g
