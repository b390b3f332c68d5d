-- ===== src/Worktree/Request/Recorded.antt =====
-- The journal under the requests of crates/worktree/src/lib.rs: what a request changes is recorded
-- before it changes it.
pub mod Serve
use mathlib.Core.List.{append_assoc}
use git_lazy_mount.Prelude.{
  ℕ, zero, suc, ◌+◌, ◌<◌, ◌≤◌, ◌≡◌, refl, ap, sym, subst, ◌∙◌, ◌⊎◌, inl, inr, arith, Bool, true,
  false, ◌||◌, Option, none, some, List, [], ◌∷◌, ◌++◌, Bytes, length, length-append, take, drop,
  All, elem, elem-append, has_byte, is_empty, bytes_eq_refl, if◌then◌else◌,
}
use git_lazy_mount.Prelude.Result.{Result, ok, err, and_then, relabel}
use git_lazy_mount.Prelude.Decimal.{u64_limit}
use git_lazy_mount.Prelude.Io.{Oracle, Run, Post, pure, modify, fail, ◌>>=◌, ◌>>◌}
use git_lazy_mount.Core.RepoPath.{RepoPath, root, is_root, parent, rposition, slash}
use git_lazy_mount.Inode
use git_lazy_mount.Inode.{InodeTable}
use git_lazy_mount.Journal.Token.{Token}
use git_lazy_mount.Journal.Log.{ChangeJournal, JournalError, record_path, open_journal}
use git_lazy_mount.Journal.Log.Replay.{IsRecord}
use git_lazy_mount.Journal.Log.Faults.{Covers, IsSound, IsDurable-Covers}
use git_lazy_mount.Journal.Log.Crash.{CoversEither, record_path-IsSound, Covers-reported}
use git_lazy_mount.Journal.Query.{query_token}
use git_lazy_mount.Journal.Query.Window.{reported}
use git_lazy_mount.Overlay.{Overlay}
use git_lazy_mount.Worktree.{
  Env, Projection, Act, WorktreeError, panic, inode_lookup, with_table, record_change, child_path,
  path_of, record_change_file, record_in, record_parent, journaled, journal_error,
}
use git_lazy_mount.Worktree.Keeps.{
  Steps, Keeps, IsStable, Phases, Ends, Steps-bind, Steps-widen, Steps-if, Steps-pure,
}

take-Lacks : (n : ℕ) (bs : Bytes) → has_byte 0 bs ≡ false → has_byte 0 (take n bs) ≡ false
unfolding has_byte
take-Lacks zero bs h = refl
take-Lacks (suc n) [] h = refl
take-Lacks (suc n) (b ∷ bs) h = ground (arith, take-Lacks n bs)

-- A parent that is not the root can be recorded.
parent-IsRecord :
    (p d : RepoPath) → parent p ≡ some d → is_root d ≡ false → IsRecord p.bytes → IsRecord d.bytes
unfolding parent
parent-IsRecord p d h n r = by_test (is_empty p.bytes) (rposition slash p.bytes) h
  where
    by_test :
        (t : Bool) (o : Option ℕ)
        → (if t
            then none
            else elim o [ some i ↦ some (record { bytes = take i p.bytes }) | none ↦ some root ])
          ≡ some d
        → IsRecord d.bytes
    by_test true o k = absurd (ground (arith, k))
    by_test false none k = absurd (ground (arith, k, n))
    by_test false (some i) k =
        let same : take i p.bytes ≡ d.bytes = ground (arith, k) in
        record {
          not_empty = n;
          no_nul = subst (λ b. has_byte 0 b ≡ false) same (take-Lacks i p.bytes r.no_nul);
        }

abbrev Any : WorktreeError → Type 0
Any e = Unit {0}

abbrev Named : List Bytes → List RepoPath → Type 0
Named more ps = All (λ p. elem p.bytes more ≡ true) ps

Named-append : (more xs : List Bytes) (ps : List RepoPath) → Named more ps → Named (more ++ xs) ps
Named-append more xs [] h = tt
Named-append more xs (p ∷ ps) h =
    (elem-append p.bytes more xs ∙ ap (λ b. b || elem p.bytes xs) h.0, Named-append more xs ps h.1)

last_Named : (more : List Bytes) (p : Bytes) → elem p (more ++ p ∷ []) ≡ true
last_Named more p = elem-append p more (p ∷ []) ∙ (last (elem p more))
  where
    last : (b : Bool) → (b || elem p (p ∷ [])) ≡ true
    last true = refl
    last false = unfold elem in rw (bytes_eq_refl p)

module _ (env : Env) (before : Overlay) (history : List Bytes) where
  -- The overlay is as before, and the journal is sound with at most `n` more paths, the ones in
  -- `ps` among them.
  record Extended (n : ℕ) (ps : List RepoPath) (s : Projection) : Type 0 where
    same : s.overlay ≡ before
    more : List Bytes
    journal : ChangeJournal
    at : s.journal ≡ some journal
    sound : IsSound (history ++ more) journal
    named : Named more ps
    few : length more ≤ n

  -- The paths are on disk, behind the history.
  record Recorded (ps : List RepoPath) (s : Projection) : Type 0 where
    more : List Bytes
    journal : ChangeJournal
    at : s.journal ≡ some journal
    covers : Covers journal.disk (history ++ more)
    named : Named more ps

  abbrev Same : Projection → Type 0
  Same s = s.overlay ≡ before

  abbrev Either : List RepoPath → Projection → Type 0
  Either ps s = Same s ⊎ Recorded ps s

  Extended-Recorded :
      (n : ℕ) (ps : List RepoPath) (s : Projection) → Extended n ps s → Recorded ps s
  Extended-Recorded n ps s x = record {
    more = x.more;
    journal = x.journal;
    at = x.at;
    covers = IsDurable-Covers (history ++ x.more) x.journal x.sound;
    named = x.named;
  }

  record_change_file-Extended :
      (n : ℕ) (ps : List RepoPath) (p : RepoPath)
      → length history + suc n < u64_limit
      → IsRecord p.bytes
      → Steps Any (Extended n ps) (record_change_file env p) (λ _. Extended (suc n) (p ∷ ps)) Same
  unfolding record_change_file record_in journaled
  record_change_file-Extended n ps p small k = record {
    at = λ o s x.
        rw (x.at, record_in)
          (cases o s x (record_path env.limits p.bytes o x.journal).result
            (record_path env.limits p.bytes o x.journal).state
            ((record_path-IsSound env.limits (history ++ x.more) p.bytes (fits x) k).at o x.journal
              x.sound));
  }
    where
      fits :
          {s : Projection} (x : Extended n ps s)
          → length ((history ++ x.more) ++ p.bytes ∷ []) < u64_limit
      fits x = omega (
        arith,
        length-append {0} (history ++ x.more) (p.bytes ∷ []),
        length-append {0} history x.more,
        x.few,
        small,
      )

      cases :
          (o : Oracle) (s : Projection) (x : Extended n ps s) (r : Result JournalError (Unit {0}))
          (j : ChangeJournal)
          → Post
              (λ _. IsSound ((history ++ x.more) ++ p.bytes ∷ []))
              (CoversEither (history ++ x.more) p.bytes)
              r
              j
          → Ends Any
              (λ _. Extended (suc n) (p ∷ ps))
              Same
              (relabel journal_error r)
              (record s { journal = some j })
      cases o s x (err e) j h = (x.same, tt)
      cases o s x (ok u) j h = record {
        same = x.same;
        more = x.more ++ p.bytes ∷ [];
        journal = j;
        at = refl;
        sound = subst (λ hs. IsSound hs j) (append_assoc history x.more (p.bytes ∷ [])) h;
        named = (last_Named x.more p.bytes, Named-append x.more (p.bytes ∷ []) ps x.named);
        few = omega (arith, length-append {0} x.more (p.bytes ∷ []), x.few);
      }

  later :
      (n : ℕ) (d : RepoPath) (ps : List RepoPath) (s : Projection)
      → Extended n (d ∷ ps) s
      → Extended n ps s
  later n d ps s x = record {
    same = x.same;
    more = x.more;
    journal = x.journal;
    at = x.at;
    sound = x.sound;
    named = x.named.1;
    few = x.few;
  }

  more_room :
      (n : ℕ) (ps : List RepoPath) (s : Projection) → Extended n ps s → Extended (suc n) ps s
  more_room n ps s x = record {
    same = x.same;
    more = x.more;
    journal = x.journal;
    at = x.at;
    sound = x.sound;
    named = x.named;
    few = omega (arith, x.few);
  }

  record_parent-Extended :
      (n : ℕ) (ps : List RepoPath) (p : RepoPath) (o : Option RepoPath)
      → parent p ≡ o
      → length history + suc n < u64_limit
      → IsRecord p.bytes
      → Steps Any (Extended n ps) (record_parent env o) (λ _. Extended (suc n) ps) Same
  unfolding record_parent
  record_parent-Extended n ps p none e small k = Steps-pure tt (more_room n ps)
  record_parent-Extended n ps p (some d) e small k = by_test (is_root d) refl
    where
      by_test :
          (b : Bool)
          → is_root d ≡ b
          → Steps Any
              (Extended n ps)
              (if b then pure tt else record_change_file env d)
              (λ _. Extended (suc n) ps)
              Same
      by_test true h = Steps-pure tt (more_room n ps)
      by_test false h =
          Steps-widen _ (record_change_file-Extended n ps d small (parent-IsRecord p d e h k))
            (λ u. later (suc n) d ps) (λ s x. x)

  record_change-Extended :
      (n : ℕ) (ps : List RepoPath) (p : RepoPath)
      → length history + suc (suc n) < u64_limit
      → IsRecord p.bytes
      → Steps Any (Extended n ps) (record_change env p) (λ _. Extended (suc (suc n)) (p ∷ ps)) Same
  unfolding record_change
  record_change-Extended n ps p small k =
      Steps-bind (λ _. Extended (suc n) (p ∷ ps)) _ _
        (record_change_file-Extended n ps p (omega (arith, small)) k)
        (λ u. record_parent-Extended (suc n) (p ∷ ps) p (parent p) refl small k)

  inode_lookup-Recorded :
      (ps : List RepoPath) (p : RepoPath) → Keeps Any (Recorded ps) (inode_lookup p)
  unfolding inode_lookup with_table fail
  inode_lookup-Recorded ps p = record { at = λ o s x. cases o s x (Inode.lookup p s.inodes) }
    where
      cases :
          (o : Oracle) (s : Projection)
          → Recorded ps s
          → (r : Option ((ℕ × ℕ) × InodeTable))
          → Ends Any
              (λ _. Recorded ps)
              (Recorded ps)
              (with_table r o s).result
              (with_table r o s).state
      cases o s x none = (x, tt)
      cases o s x (some (i, u)) =
          unfold pure modify in
          record {
            more = x.more;
            journal = x.journal;
            at = x.at;
            covers = x.covers;
            named = x.named;
          }

  -- Neither the overlay nor the table matters any more.
  Recorded-IsStable : (ps : List RepoPath) → IsStable Any (Recorded ps)
  Recorded-IsStable ps = record {
    plain = λ e h. tt;
    overlay = λ s v x. moved s x (record s { overlay = v }) refl;
    rename = λ p q s x. moved s x (record s { inodes = Inode.rename p q s.inodes }) refl;
    unlink = λ p s x. moved s x (record s { inodes = Inode.unlink p s.inodes }) refl;
    forget = λ i n s x. moved s x (record s { inodes = Inode.forget i n s.inodes }) refl;
    look = inode_lookup-Recorded ps;
  }
    where
      moved :
          (s : Projection)
          → Recorded ps s
          → (t : Projection) → t.journal ≡ s.journal
          → Recorded ps t
      moved s x t e = record {
        more = x.more;
        journal = x.journal;
        at = e ∙ x.at;
        covers = x.covers;
        named = x.named;
      }
