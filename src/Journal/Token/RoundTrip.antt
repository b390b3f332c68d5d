-- ===== src/Journal/Token/RoundTrip.antt =====
-- Tokens survive the wire.
use git_lazy_mount.Prelude.{
  ℕ, ◌<◌, ◌≡◌, refl, ap, ◌∙◌, false, some, [], ◌∷◌, bytes_eq, has_byte, split, split-piece,
  split-last,
}
use git_lazy_mount.Prelude.Decimal.{
  to_string, u64_limit, is_digit, to_string-lacks, parse_u64-to_string,
}
use git_lazy_mount.Journal.Token.{
  Token, token_prefix, colon, encode, parse, of_fields, with_numbers,
}

-- The counters of a token are `u64`s.
pub record InRange (t : Token) : Type 0 where
  pub epoch : t.epoch < u64_limit
  pub seq : t.seq < u64_limit
  pub generation : t.generation < u64_limit

no_colon : (n : ℕ) → has_byte colon (to_string n) ≡ false
unfolding is_digit
no_colon n = to_string-lacks colon n refl

encode-fields :
    (t : Token)
    → has_byte colon t.workspace ≡ false
    → split colon (encode t)
      ≡ token_prefix
        ∷ t.workspace
        ∷ to_string t.epoch
        ∷ to_string t.seq
        ∷ to_string t.generation
        ∷ []
unfolding encode
encode-fields t h =
    split-piece colon token_prefix _ (unfold has_byte in refl)
    ∙ ap (λ r. token_prefix ∷ r)
        (split-piece colon t.workspace _ h
          ∙ ap (λ r. t.workspace ∷ r)
              (split-piece colon (to_string t.epoch) _ (no_colon t.epoch)
                ∙ ap (λ r. to_string t.epoch ∷ r)
                    (split-piece colon (to_string t.seq) _ (no_colon t.seq)
                      ∙ ap (λ r. to_string t.seq ∷ r)
                          (split-last colon (to_string t.generation) (no_colon t.generation)))))

-- A token whose workspace has no colon and whose numbers are below 2^64 parses back from its wire
-- form.
pub parse-encode :
    (t : Token) → has_byte colon t.workspace ≡ false → InRange t → parse (encode t) ≡ some t
unfolding parse of_fields with_numbers
parse-encode t h r = rw (encode-fields t h) (
    rw
      (
        parse_u64-to_string t.epoch r.epoch,
        parse_u64-to_string t.seq r.seq,
        parse_u64-to_string t.generation r.generation,
      )
      (unfold bytes_eq in refl))
