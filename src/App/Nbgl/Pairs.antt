-- ===== src/App/Nbgl/Pairs.antt =====
-- The pairs of a review in src/ui_nbgl.c.
use ledger_app.Base.{
  ℕ, ◌+◌, ◌-◌, ◌%◌, ◌^◌, List, [], ◌∷◌, ◌==◌, ◌&&◌, if◌then◌else◌, codes, Outcome, ok, ◌>>=◌, take,
  ◌++◌,
}
use ledger_app.Stream.Context.{Context}
use ledger_app.Types.Key.{Platform}
use ledger_app.Parse.Print.{print_argument}

-- A pair: the item and the value, as texts; those of an argument are the copies that the code keeps.
pub record Pair : Type 0 where
  pub item : List ℕ
  pub value : List ℕ

-- The pair, and the context whose argument may have been printed. `printArgument` takes a byte.
pub get_single_action_review_pair :
    {H : Type 0} → Platform → ℕ → Context H → Outcome (Pair × Context H)
get_single_action_review_pair platform index c =
    if index == 0
    then ok (record { item = codes "Contract"; value = c.content.contract }, c)
    else if index == 1
    then ok (record { item = codes "Action"; value = c.content.action }, c)
    else if c.is_verbose == 1 && index == 2
    then ok (record { item = codes "Authorization"; value = c.current_authorization_name }, c)
    else if c.is_verbose == 1 && index == 3
    then ok (record { item = codes "Permission"; value = c.current_authorization_permission }, c)
    else (let offset = if c.is_verbose == 0 then 2 else 4 in
        print_argument platform ((index + 2 ^ 8 - offset) % 2 ^ 8) c >>= λ d.
        ok (record { item = d.content.arg.label; value = d.content.arg.value }, d))

-- In a sequence the first pair says which action it is: `%d of %d` of the two numbers.
pub get_multi_action_review_pair :
    {H : Type 0} → Platform → ℕ → Context H → Outcome (Pair × Context H)
get_multi_action_review_pair platform index c =
    let text =
      platform.format_int c.current_action_index
      ++ (codes " of " ++ platform.format_int c.current_action_number) in
    if index == 0
    then ok (record { item = codes "Review action"; value = take 9 text ++ (0 ∷ []) }, c)
    else get_single_action_review_pair platform (index - 1) c
