-- ===== src/App/StateNeutral.antt =====
-- `isStateNeutralAction` of src/state_neutral.h, on the memory of two arrays of characters.
pub mod Laws
use ledger_app.Base.{
  ℕ, zero, suc, ◌+◌, List, [], ◌∷◌, Bool, true, false, ◌&&◌, leb, ◌==◌, if◌then◌else◌, same_text,
  codes, Outcome, ok, overrun, ◌>>=◌,
}

-- `strcmp(memory, literal) == 0`; it reads up to the first difference.
unfoldable pub equals_literal : List ℕ → List ℕ → Outcome Bool
equals_literal [] literal = overrun
equals_literal (c ∷ memory) [] = ok (c == 0)
equals_literal (c ∷ memory) (l ∷ literal) =
    let rest = equals_literal memory literal in if c == l then rest else ok false

abbrev pub lower : ℕ → ℕ
lower c = if leb b'A' c && leb c b'Z' then c + 32 else c

-- The loop into `contract_lower`, with room for `n` characters more; the result is the text in
-- front of the terminator.
unfoldable pub lower_text : ℕ → List ℕ → Outcome (List ℕ)
lower_text zero memory = ok []
lower_text (suc n) [] = overrun
lower_text (suc n) (c ∷ memory) =
    let rest = lower_text n memory >>= λ text. ok (lower c ∷ text) in if c == 0 then ok [] else rest

-- The `||` tries the second pair where the first does not match, and no `strcmp` of the action
-- runs where the contract does not.
unfoldable pub is_state_neutral_action : List ℕ → List ℕ → ℕ → Outcome Bool
is_state_neutral_action contract action no_data = lower_text 63 contract >>= λ owner.
    let second =
      if same_text owner []
      then (equals_literal action (codes "identity") >>= λ e. ok (e && no_data == 1))
      else ok false in
    if same_text owner (codes "null.vaulta")
    then (equals_literal action (codes "noop") >>= λ e.
        if e && no_data == 1 then ok true else second)
    else second
