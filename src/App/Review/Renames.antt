-- ===== src/App/Review/Renames.antt =====
-- What the renaming of a contract for the screen leaves.
use ledger_app.Base.{
  ◌≡◌, refl, Bool-cases, inl, inr, ok, >>=-eq-ok, ok-injective, then_of, else_of, write_bytes,
  codes, ◌++◌, ◌∷◌, [],
}
use ledger_app.Stream.Context.{Context}
use mathlib.Core.Path.{subst}
use ledger_app.Stream.Machine.Progress.{left_over}
use ledger_app.App.StateNeutral.{equals_literal}
use ledger_app.App.Device.{Device}
use ledger_app.App.Review.{name_identity}

-- What the renaming of a contract leaves: all but the contract's text.
pub record OnlyRenamed {H : Type 0} (d d' : Device H) : Type 0 where
  pub same_events : d'.events ≡ d.events
  pub same_state : d'.app.tx_processing_ctx.state ≡ d.app.tx_processing_ctx.state
  pub same_hash : d'.app.tx_processing_ctx.sha256 ≡ d.app.tx_processing_ctx.sha256
  pub same_left : left_over d'.app.tx_processing_ctx ≡ left_over d.app.tx_processing_ctx
  pub same_action : d'.app.tx_processing_ctx.content.action ≡ d.app.tx_processing_ctx.content.action
  pub same_path : d'.app.bip32_path ≡ d.app.bip32_path
  pub same_but_content :
      ◌≡◌ {A = Context H}
        (record (d'.app.tx_processing_ctx) { content = d.app.tx_processing_ctx.content })
        d.app.tx_processing_ctx

pub name_identity-OnlyRenamed :
    {H : Type 0} (d : Device H) {d' : Device H} → name_identity d ≡ ok d' → OnlyRenamed d d'
unfolding name_identity
name_identity-OnlyRenamed d {d'} e =
    let c = d.app.tx_processing_ctx in
    let (nameless, compared, rest) = >>=-eq-ok (equals_literal c.content.contract []) _ e in
    elim (Bool-cases nameless) [
      | inr named ↦ unchanged (else_of _ _ _ named rest)
      | inl empty ↦
          let (identity, compared', rest') =
            >>=-eq-ok (equals_literal c.content.action (codes "identity")) _
              (then_of _ _ _ empty rest) in
          elim (Bool-cases identity) [
            | inr other ↦ unchanged (else_of _ _ _ other rest')
            | inl same ↦
                let (contract, wrote, last) =
                  >>=-eq-ok (write_bytes 0 (codes "null" ++ (0 ∷ [])) c.content.contract) _
                    (then_of _ _ _ same rest') in
                subst (OnlyRenamed d) (ok-injective last) (record {
                  same_events = refl;
                  same_state = refl;
                  same_hash = refl;
                  same_left = refl;
                  same_action = refl;
                  same_path = refl;
                  same_but_content = refl;
                })
          ]
    ]
  where
    unchanged : ok d ≡ ok d' → OnlyRenamed d d'
    unchanged q = subst (OnlyRenamed d) (ok-injective q) (record {
      same_events = refl;
      same_state = refl;
      same_hash = refl;
      same_left = refl;
      same_action = refl;
      same_path = refl;
      same_but_content = refl;
    })
