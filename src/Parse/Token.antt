-- ===== src/Parse/Token.antt =====
-- src/eos_parse_token.c and src/eos_parse_unknown.c.
pub mod Laws
use ledger_app.Base.{ℕ, List, ◌==◌, if◌then◌else◌, drop, codes, Outcome, ok, ◌>>=◌, sub32}
use ledger_app.Stream.Context.{Argument}
use ledger_app.Parse.Fields.{
  Parsed, print_string, parse_name_field, parse_asset_field, parse_string_field,
}
use ledger_app.Utils.Digits.{array_hexstr}

-- Only `arg` outlives the functions of one action.
abbrev pub shown : Outcome Parsed → Outcome Argument
shown m = m >>= λ p. ok p.arg

-- `buffer += n; bufferLength -= n` in front of a field's function.
abbrev pub behind :
    ℕ → (List ℕ → ℕ → List ℕ → Outcome Parsed) → List ℕ → ℕ → List ℕ → Outcome Argument
behind n parse buffer len field_name = shown (parse (drop n buffer) (sub32 len n) field_name)

pub parse_token_transfer : List ℕ → ℕ → ℕ → Argument → Outcome Argument
parse_token_transfer buffer len arg_num arg =
    if arg_num == 0
    then shown (parse_name_field buffer len (codes "From"))
    else if arg_num == 1
    then behind 8 parse_name_field buffer len (codes "To")
    else if arg_num == 2
    then behind 16 parse_asset_field buffer len (codes "Quantity")
    else if arg_num == 3
    then behind 32 parse_string_field buffer len (codes "Memo")
    else ok arg

-- The checksum has 32 bytes, and its text 64 characters.
pub parse_unknown_action : List ℕ → ℕ → Argument → Outcome Argument
parse_unknown_action checksum arg_num arg =
    if arg_num == 0
    then print_string (codes "Unknown Action") (codes "WARNING")
    else if arg_num == 1
    then print_string (codes "Verify checksum") (codes "WARNING")
    else if arg_num == 2
    then print_string (array_hexstr checksum) (codes "Checksum")
    else ok arg
