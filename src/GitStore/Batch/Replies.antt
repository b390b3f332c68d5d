-- ===== src/GitStore/Batch/Replies.antt =====
-- What the documented replies of `git cat-file` are to crates/git-store/src/batch.rs.
use git_lazy_mount.Prelude.{
  ℕ, ◌+◌, ◌<◌, ◌≡◌, refl, Bool, true, false, not, Option, none, some, [], ◌∷◌, ◌++◌, Bytes, codes,
  bytes_eq, length, length-append, take-length, drop-length, ltb, arith, has_byte, has_byte-append,
  split-piece, split-last, ◌==◌,
}
use git_lazy_mount.Prelude.Decimal.{
  to_string, u64_limit, is_digit, to_string-lacks, parse_u64-to_string,
}
use git_lazy_mount.Prelude.Result.{Result, ok, err}
use git_lazy_mount.GitStore.Batch.{
  ObjectInfo, Fault, Luck, terminated, write_failed, read_failed, spawn, keep_end, strip_eol,
  read_until, of_line, read_header, of_parts, parse_info_header, header_info, asked, send, body,
  contents,
}

-- Git ends, has not got the object, or has it with a kind.
pub data Reply : Type 0 where
  ends missing : Reply
  has : Bytes → Reply

-- A header line for the reply, without its end.
abbrev pub header_of : Reply → Bytes → Bytes → Bytes
header_of ends hex content = []
header_of missing hex content = hex ++ (b' ' ∷ codes "missing")
header_of (has kind) hex content = hex ++ (b' ' ∷ (kind ++ (b' ' ∷ to_string (length content))))

abbrev pub rendered : Reply → Bytes → Bytes → Bytes
rendered ends hex content = []
rendered missing hex content = header_of missing hex content ++ (10 ∷ [])
rendered (has kind) hex content = header_of (has kind) hex content ++ (10 ∷ (content ++ (10 ∷ [])))

-- No space and no line end.
pub record IsWord (bs : Bytes) : Type 0 where
  pub no_space : has_byte b' ' bs ≡ false
  pub no_newline : has_byte 10 bs ≡ false
  pub no_return : has_byte 13 bs ≡ false

abbrev pub IsKind : Reply → Type 0
IsKind ends = Unit {0}
IsKind missing = Unit {0}
IsKind (has kind) = IsWord kind × (bytes_eq kind (codes "missing") ≡ false)

abbrev pub is_end : Reply → Bool
is_end ends = true
is_end _ = false

-- What `contents` is to give.
abbrev pub meant : Reply → Bytes → Result Fault (Option (ObjectInfo × Bytes))
meant ends content = err terminated
meant missing content = ok none
meant (has kind) content = ok (some (record { kind = kind; size = length content }, content))

read_until_line :
    (h rest : Bytes)
    → has_byte 10 h ≡ false
    → read_until (h ++ (10 ∷ rest)) ≡ (h ++ (10 ∷ []), rest)
unfolding read_until has_byte
read_until_line [] rest e = refl
read_until_line (c ∷ h) rest e = ground (arith, read_until_line h rest)

strip_eol_line :
    (h : Bytes) → has_byte 10 h ≡ false → has_byte 13 h ≡ false → strip_eol (h ++ (10 ∷ [])) ≡ h
unfolding strip_eol keep_end has_byte
strip_eol_line [] e f = refl
strip_eol_line (c ∷ []) e f = ground arith
strip_eol_line (c ∷ d ∷ h) e f = rw (strip_eol_line (d ∷ h) (ground (arith, e)) (ground (arith, f)))

to_string-IsWord : (n : ℕ) → IsWord (to_string n)
to_string-IsWord n = record {
  no_space = to_string-lacks b' ' n (unfold is_digit in refl);
  no_newline = to_string-lacks 10 n (unfold is_digit in refl);
  no_return = to_string-lacks 13 n (unfold is_digit in refl);
}

two_words :
    (c : ℕ) (a b : Bytes)
    → has_byte c a ≡ false
    → has_byte c b ≡ false
    → (c == b' ') ≡ false
    → has_byte c (a ++ (b' ' ∷ b)) ≡ false
two_words c a b e f g =
    rw (has_byte-append c a (b' ' ∷ b), e) (unfold has_byte in ground (arith, f, g))

header_missing :
    (hex : Bytes) → IsWord hex → parse_info_header (hex ++ (b' ' ∷ codes "missing")) ≡ ok none
unfolding parse_info_header of_parts
header_missing hex w =
    rw
      (
        split-piece b' ' hex (codes "missing") w.no_space,
        split-last b' ' (codes "missing") (unfold has_byte in refl),
      )
      (unfold bytes_eq in refl)

header_has :
    (hex kind : Bytes) (n : ℕ)
    → IsWord hex
    → IsWord kind
    → bytes_eq kind (codes "missing") ≡ false
    → n < u64_limit
    → parse_info_header (hex ++ (b' ' ∷ (kind ++ (b' ' ∷ to_string n))))
      ≡ ok (some (record { kind = kind; size = n }))
unfolding parse_info_header of_parts
header_has hex kind n w k e h = rw (
  split-piece b' ' hex (kind ++ (b' ' ∷ to_string n)) w.no_space,
  split-piece b' ' kind (to_string n) k.no_space,
  split-last b' ' (to_string n) (to_string-IsWord n).no_space,
  e,
  parse_u64-to_string n h,
)

-- A header that is a whole line is read and taken off.
read_header_line :
    (h rest : Bytes)
    → has_byte 10 h ≡ false
    → has_byte 13 h ≡ false
    → read_header true (record { unread = h ++ (10 ∷ rest); alive = true })
      ≡ (ok h, record { unread = rest; alive = true })
unfolding read_header
read_header_line h rest e f = rw (read_until_line h rest e) (by_line h e f)
  where
    by_line :
        (h : Bytes)
        → has_byte 10 h ≡ false
        → has_byte 13 h ≡ false
        → of_line (h ++ (10 ∷ []), rest) (record { unread = h ++ (10 ∷ rest); alive = true })
          ≡ (ok h, record { unread = rest; alive = true })
    by_line [] e f = unfold of_line strip_eol keep_end in refl
    by_line (c ∷ h) e f = unfold of_line in rw (strip_eol_line (c ∷ h) e f)

body-has :
    (kind content : Bytes)
    → body (
      ok (some (record { kind = kind; size = length content })),
      record { unread = content ++ (10 ∷ []); alive = true },
    )
      ≡ (
        ok (some (record { kind = kind; size = length content }, content)),
        record { unread = []; alive = true },
      )
unfolding body
body-has kind content = rw (
  not_short (length (content ++ (10 ∷ []))) (length content) (length-append content (10 ∷ [])),
  take-length content (10 ∷ []),
  drop-length (length content + 1) (content ++ (10 ∷ []))
      (omega (arith, length-append content (10 ∷ []))),
)
  where
    not_short : (m n : ℕ) → m ≡ n + 1 → ltb m n ≡ false
    not_short m n e = ground (arith, e)

-- Git has what it says, and writes it as documented.
pub record IsReply (reply : Reply) (hex content : Bytes) : Type 0 where
  pub hex_word : IsWord hex
  pub kind_word : IsKind reply
  pub small : length content < u64_limit

-- A session that is in step reads a whole reply, and is in step again, unless it fails.
pub contents-rendered :
    (git : Bytes → Bytes) (luck : Luck) (reply : Reply) (hex content : Bytes)
    → IsReply reply hex content
    → git (codes "contents " ++ hex) ≡ rendered reply hex content
    → luck.writes ≡ true
    → luck.reads ≡ true
    → contents git luck hex (record { unread = []; alive = true })
      ≡ (meant reply content, record { unread = []; alive = not (is_end reply) })
unfolding contents asked send header_info
contents-rendered git luck ends hex content r e w d =
    rw (w, e, d) (unfold read_header of_line read_until body in refl)
contents-rendered git luck missing hex content r e w d =
    rw
      (
        w,
        e,
        d,
        read_header_line (hex ++ (b' ' ∷ codes "missing")) []
            (two_words 10 hex (codes "missing") r.hex_word.no_newline (unfold has_byte in refl)
              refl)
            (two_words 13 hex (codes "missing") r.hex_word.no_return (unfold has_byte in refl)
              refl),
        header_missing hex r.hex_word,
      )
      (unfold body in refl)
contents-rendered git luck (has kind) hex content r e w d =
    let n = to_string-IsWord (length content) in
    let k = r.kind_word.0 in
    rw
      (
        w,
        e,
        d,
        read_header_line (hex ++ (b' ' ∷ (kind ++ (b' ' ∷ to_string (length content)))))
            (content ++ (10 ∷ []))
            (two_words 10 hex _ r.hex_word.no_newline
              (two_words 10 kind _ k.no_newline n.no_newline refl) refl)
            (two_words 13 hex _ r.hex_word.no_return
              (two_words 13 kind _ k.no_return n.no_return refl) refl),
        header_has hex kind (length content) r.hex_word k r.kind_word.1 r.small,
      )
      (body-has kind content)

-- A pipe that fails.
pub contents_unwritten :
    (git : Bytes → Bytes) (luck : Luck) (hex : Bytes)
    → luck.writes ≡ false
    → contents git luck hex spawn ≡ (err write_failed, spawn)
unfolding contents asked send body spawn
contents_unwritten git luck hex e = rw e

pub contents_unheard :
    (git : Bytes → Bytes) (luck : Luck) (hex : Bytes)
    → luck.writes ≡ true
    → luck.reads ≡ false
    → contents git luck hex spawn
      ≡ (err read_failed, record { unread = git (codes "contents " ++ hex); alive = true })
unfolding contents asked send read_header header_info body spawn
contents_unheard git luck hex e f = rw (e, f)
