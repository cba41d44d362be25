-- ===== src/App/Review.antt =====
-- What src/ui_bagl.c and src/ui_nbgl.c both write out: which actions are skipped, and how a review
-- begins and goes on.
pub mod Renames
pub mod Stops
pub mod Guards
use ledger_app.Base.{
  ℕ, zero, suc, ◌+◌, ◌-◌, List, [], ◌∷◌, ◌++◌, Bool, true, false, ◌==◌, ltb, if◌then◌else◌, codes,
  Outcome, ok, stuck, ◌>>=◌, write_bytes,
}
use ledger_app.Stream.Context.{Sha256, Context}
use ledger_app.App.StateNeutral.{equals_literal, is_state_neutral_action}
use ledger_app.App.Device.{Device, Notices, SignHash, effective_actions, consent}

module _ {H : Type 0} where
  -- `!isVerbose && isStateNeutralAction(...)`, on the action that the parser has ready.
  unfoldable pub skips_review : Device H → Outcome Bool
  skips_review d =
      let c = d.app.tx_processing_ctx in
      if c.is_verbose == 0
      then is_state_neutral_action c.content.contract c.content.action c.content.no_data
      else ok false

  -- The contract without a name is shown as "null" for the action `identity`.
  unfoldable pub name_identity : Device H → Outcome (Device H)
  name_identity d =
      let c = d.app.tx_processing_ctx in
      let renamed = equals_literal c.content.action (codes "identity") >>= λ identity.
      if identity
      then (write_bytes 0 (codes "null" ++ (0 ∷ [])) c.content.contract >>= λ contract.
          ok (record d {
            app = record (d.app) {
              tx_processing_ctx = record c { content = record (c.content) { contract = contract } };
            };
          }))
      else ok d in
      equals_literal c.content.contract [] >>= λ nameless. if nameless then renamed else ok d

-- An interface: what it sets up before it looks at an action, and how it shows one.
module _ {H : Type 0} (sha : Sha256 H) (sign : SignHash) (ui : Notices H)
    (prepare : Device H → Device H) (show_action : Device H → Outcome (Device H)) where
  -- `ui_display_single_action_sign_flow`, on fuel: a skipped action goes on to the next one.
  unfoldable pub review_loop : ℕ → Device H → Outcome (Device H)
  review_loop zero d = stuck
  review_loop (suc fuel) d =
      let skipped = consent sha sign ui (review_loop fuel) (prepare d) in
      skips_review (prepare d) >>= λ skips. if skips then skipped else show_action (prepare d)

  -- `ui_display_multiple_action_sign_flow`: the first screen, where more than one action is to be
  -- seen, and else the parse goes on at once, and the action is displayed once more.
  pub begin_review : (Device H → Device H) → ℕ → Device H → Outcome (Device H)
  begin_review show_start fuel d =
      let first = record d { effective_action_index = 1 } in
      let skipped = consent sha sign ui (review_loop fuel) first >>= review_loop fuel in
      if ltb 1 (effective_actions first) then ok (show_start first) else skipped
