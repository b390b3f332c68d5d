-- ===== src/Journal/Token.antt =====
-- The FSMonitor token of crates/worktree/src/journal.rs and its wire form.
pub mod RoundTrip
use git_lazy_mount.Prelude.{
  ℕ, Bool, true, false, Option, none, some, List, [], ◌∷◌, ◌++◌, Bytes, codes, bytes_eq, split,
  if◌then◌else◌,
}
use git_lazy_mount.Prelude.Decimal.{parse_u64, to_string}

pub record Token : Type 0 where
  pub workspace : Bytes
  pub epoch : ℕ
  pub seq : ℕ
  pub generation : ℕ

abbrev pub token_prefix : Bytes
token_prefix = codes "glm1"

abbrev pub colon : ℕ
colon = b':'

unfoldable pub encode : Token → Bytes
encode t =
    token_prefix
    ++ (colon
        ∷ (t.workspace
            ++ (colon
                ∷ (to_string t.epoch
                    ++ (colon ∷ (to_string t.seq ++ (colon ∷ to_string t.generation)))))))

with_numbers : Bytes → Option ℕ → Option ℕ → Option ℕ → Option Token
with_numbers ws (some e) (some s) (some g) =
    some (record { workspace = ws; epoch = e; seq = s; generation = g })
with_numbers ws _ _ _ = none

-- Exactly five fields, the first being the prefix.
of_fields : List Bytes → Option Token
unfolding with_numbers
of_fields (prefix ∷ ws ∷ e ∷ s ∷ g ∷ []) =
    if bytes_eq prefix token_prefix
    then with_numbers ws (parse_u64 e) (parse_u64 s) (parse_u64 g)
    else none
of_fields _ = none

unfoldable pub parse : Bytes → Option Token
unfolding of_fields
parse s = of_fields (split colon s)
