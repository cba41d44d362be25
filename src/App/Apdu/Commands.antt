-- ===== src/App/Apdu/Commands.antt =====
-- A command keeps the guard: no action is ready but one that is known or admitted by the setting.
use ledger_app.Base.{
  ℕ, ◌≡◌, refl, sym, true, arith, if_true, if_false, not, ◌&&◌, ◌||◌, ltb, ◌==◌, if◌then◌else◌,
  Bool-cases, inl, inr, then_of, else_of, if_both, List, drop, Outcome, ok, >>=-eq-ok, ok-injective,
  read_at,
}
use mathlib.Core.Path.{subst}
use ledger_app.Stream.Context.{Sha256, Content}
use ledger_app.App.Preparse.{StackBytes}
use ledger_app.App.Sign.{
  App, Reply, status_word, show_multiple_actions, show_single_action, sign_hash,
  abort_unknown_action, handle_sign, read_path,
}
use ledger_app.App.Sign.Laws.{IsGuarded, handle_sign-Answered, in_effect, byte_at, read_at-byte_at}
use ledger_app.App.Device.{Device, SignHash, PublicKeyContext, sign_device}
use ledger_app.App.Review.Guards.{same_app-IsGuarded, signed-IsGuarded}
use ledger_app.App.PublicKey.{
  Answer, answer, asynch, KeySource, handle_get_public_key, write_public_key, public_key_context_of,
  get_public_key_and_set_result,
}
use ledger_app.App.Apdu.{Interface, Version, answer_sign, sign_command, handle_apdu}
use ledger_app.App.Apdu.Guarding.{IsGuarding}

-- The setting in effect behind a command: only INS_SIGN can begin a transaction.
abbrev pub command_setting : {H : Type 0} → ℕ → App H → List ℕ → ℕ
command_setting allow app buffer =
    if byte_at buffer 0 == 0xD4 && byte_at buffer 1 == 4
    then in_effect allow app (byte_at buffer 2) (drop 5 buffer)
    else allow

command_bytes :
    {H : Type 0} (allow : ℕ) (app : App H) (buffer : List ℕ) (cla ins p1 : ℕ)
    → byte_at buffer 0 ≡ cla
    → byte_at buffer 1 ≡ ins
    → byte_at buffer 2 ≡ p1
    → command_setting allow app buffer
      ≡ (if cla == 0xD4 && ins == 4 then in_effect allow app p1 (drop 5 buffer) else allow)
command_bytes allow app buffer cla ins p1 c i p = rw (c, i, p) refl

module _ {H : Type 0} where
  abbrev GuardedPair : ℕ → Answer × Device H → Type 0
  GuardedPair allow p = IsGuarded allow (p.1.app)

  pair-IsGuarded :
      (allow : ℕ) (a : Answer) (d : Device H) (p : Answer × Device H)
      → IsGuarded allow d.app
      → ◌≡◌ {A = Outcome (Answer × Device H)} (ok (a, d)) (ok p)
      → GuardedPair allow p
  pair-IsGuarded allow a d p g e = subst (GuardedPair allow) (ok-injective e) g

module _ {H : Type 0} (sha : Sha256 H) (sign : SignHash) (ui : Interface H)
    (guarding : IsGuarding ui) (fuel : ℕ) (source : KeySource) (version : Version) where
  handle_get_public_key-IsGuarded :
      (allow p1 p2 : ℕ) (buffer : List ℕ) (d : Device H) (p : Answer × Device H)
      → IsGuarded allow d.app
      → handle_get_public_key source ui.public_key_flow p1 p2 buffer d ≡ ok p
      → GuardedPair allow p
  unfolding handle_get_public_key write_public_key
  handle_get_public_key-IsGuarded allow p1 p2 buffer d p g e =
      let (n, read, e₁) = >>=-eq-ok (read_at buffer 0) _ e in
      elim (Bool-cases (ltb n 1 || ltb 10 n)) [
        | inl outside ↦ pair-IsGuarded allow _ d p g (then_of _ _ _ outside e₁)
        | inr inside ↦
            let e₂ = else_of _ _ _ inside e₁ in
            elim (Bool-cases (not (p1 == 1) && not (p1 == 0))) [
              | inl wrong₁ ↦ pair-IsGuarded allow _ d p g (then_of _ _ _ wrong₁ e₂)
              | inr right₁ ↦
                  let e₃ = else_of _ _ _ right₁ e₂ in
                  elim (Bool-cases (not (p2 == 1) && not (p2 == 0))) [
                    | inl wrong₂ ↦ pair-IsGuarded allow _ d p g (then_of _ _ _ wrong₂ e₃)
                    | inr right₂ ↦
                        let (path, path_read, e₄) =
                          >>=-eq-ok (read_path n (drop 1 buffer)) _ (else_of _ _ _ right₂ e₃) in
                        let (k, key_made, last) =
                          >>=-eq-ok (public_key_context_of source (path.0) p2 d.public_key_context)
                            _ e₄ in
                        written k (ok-injective last)
                  ]
            ]
      ]
    where
      written :
          (k : PublicKeyContext)
          → ◌≡◌ {A = Answer × Device H}
              (if p1 == 0
                then (answer 0x9000 (get_public_key_and_set_result k), write_public_key source k d)
                else (asynch, ui.public_key_flow (write_public_key source k d)))
              p
          → GuardedPair allow p
      written k same =
          let kept : IsGuarded allow (write_public_key source k d).app = record {
            setting = g.setting;
            admitted = g.admitted;
          } in
          subst (GuardedPair allow) same (
            if_both (GuardedPair allow) (p1 == 0) (λ at_once. kept)
              (λ later.
                same_app-IsGuarded allow (write_public_key source k d)
                  (ui.public_key_flow (write_public_key source k d))
                  (guarding.key_flow (write_public_key source k d)) kept))

  module _ (stack : StackBytes) (content : Content) where
    answer_sign-IsGuarded :
        (allow : ℕ) (reply : Reply) (d : Device H) (p : Answer × Device H)
        → IsGuarded allow d.app
        → answer_sign sha sign ui fuel source version stack content reply d ≡ ok p
        → GuardedPair allow p
    unfolding answer_sign
    answer_sign-IsGuarded allow show_multiple_actions d p g e =
        let (x, shown, last) = >>=-eq-ok (ui.display_multiple fuel d) _ e in
        pair-IsGuarded allow asynch x p (guarding.multiple fuel allow d x g shown) last
    answer_sign-IsGuarded allow show_single_action d p g e =
        let (x, shown, last) = >>=-eq-ok (ui.display_single fuel d) _ e in
        pair-IsGuarded allow asynch x p (guarding.single fuel allow d x g shown) last
    answer_sign-IsGuarded allow sign_hash d p g e =
        let (q, signed, last) = >>=-eq-ok (sign_device sha sign d) _ e in
        pair-IsGuarded allow _ (q.1) p (signed-IsGuarded allow sha sign d q g signed) last
    answer_sign-IsGuarded allow abort_unknown_action d p g e =
        pair-IsGuarded allow _ (ui.notices.ui_abort_unknown_action d) p
          (same_app-IsGuarded allow d (ui.notices.ui_abort_unknown_action d)
            (guarding.notice.abort d) g)
          e
    answer_sign-IsGuarded allow (status_word code) d p g e = pair-IsGuarded allow _ d p g e

    sign_command-IsGuarded :
        (allow p1 p2 : ℕ) (buffer : List ℕ) (len : ℕ) (d : Device H) (p : Answer × Device H)
        → IsGuarded allow d.app
        → sign_command sha sign ui fuel source version stack content p1 p2 buffer len d ≡ ok p
        → GuardedPair (in_effect allow d.app p1 buffer) p
    unfolding sign_command
    sign_command-IsGuarded allow p1 p2 buffer len d p g e =
        let ((reply, app), ran, rest) =
          >>=-eq-ok (handle_sign sha stack content d.app p1 p2 buffer len) _ e in
        answer_sign-IsGuarded (in_effect allow d.app p1 buffer) reply _ p
          (handle_sign-Answered sha allow stack content d.app p1 p2 buffer len g ran).guarded rest

    pub handle_apdu-IsGuarded :
        (allow : ℕ) (buffer : List ℕ) (d : Device H) (p : Answer × Device H)
        → IsGuarded allow d.app
        → handle_apdu sha sign ui fuel source version stack content buffer d ≡ ok p
        → GuardedPair (command_setting allow d.app buffer) p
    unfolding handle_apdu
    handle_apdu-IsGuarded allow buffer d p g e =
        let (cla, read₀, e₁) = >>=-eq-ok (read_at buffer 0) _ e in
        let (ins, read₁, e₂) = >>=-eq-ok (read_at buffer 1) _ e₁ in
        let (p1, read₂, e₃) = >>=-eq-ok (read_at buffer 2) _ e₂ in
        let (p2, _, e₄) = >>=-eq-ok (read_at buffer 3) _ e₃ in
        let (lc, _, e₅) = >>=-eq-ok (read_at buffer 4) _ e₄ in
        let same : command_setting allow d.app buffer ≡ (
            if cla == 0xD4 && ins == 4 then in_effect allow d.app p1 (drop 5 buffer) else allow) =
          command_bytes allow d.app buffer cla ins p1 (read_at-byte_at buffer 0 read₀)
            (read_at-byte_at buffer 1 read₁) (read_at-byte_at buffer 2 read₂) in
        subst (λ n. GuardedPair n p) (sym same)
          (elim (Bool-cases (not (cla == 0xD4))) [
            | inl other ↦
                quiet cla ins p1 (λ h. ground arith)
                  (pair-IsGuarded allow _ d p g (then_of _ _ _ other e₅))
            | inr ours ↦
                let e₆ = else_of _ _ _ ours e₅ in
                elim (Bool-cases (ins == 2)) [
                  | inl get_key ↦
                      quiet cla ins p1 (λ h. ground arith)
                        (handle_get_public_key-IsGuarded allow p1 p2 (drop 5 buffer) d p g
                          (then_of _ _ _ get_key e₆))
                  | inr not_key ↦
                      let e₇ = else_of _ _ _ not_key e₆ in
                      elim (Bool-cases (ins == 4)) [
                        | inl signs ↦
                            let both : (cla == 0xD4 && ins == 4) ≡ true = ground arith in
                            subst (λ n. GuardedPair n p) (sym (if_true _ _ _ both))
                              (sign_command-IsGuarded allow p1 p2 (drop 5 buffer) lc d p g
                                (then_of _ _ _ signs e₇))
                        | inr not_sign ↦
                            let e₈ = else_of _ _ _ not_sign e₇ in
                            quiet cla ins p1 (λ h. ground arith)
                              (elim (Bool-cases (ins == 6)) [
                                | inl configuration ↦
                                    pair-IsGuarded allow _ d p g (then_of _ _ _ configuration e₈)
                                | inr unknown ↦
                                    pair-IsGuarded allow _ d p g (else_of _ _ _ unknown e₈)
                              ])
                      ]
                ]
          ])
      where
        quiet :
            (cla ins p1 : ℕ)
            → ((cla == 0xD4 && ins == 4) ≡ true → ⊥)
            → GuardedPair allow p
            → GuardedPair
                (if cla == 0xD4 && ins == 4
                  then in_effect allow d.app p1 (drop 5 buffer)
                  else allow)
                p
        quiet cla ins p1 other kept = elim (Bool-cases (cla == 0xD4 && ins == 4)) [
          | inl both ↦ absurd (other both)
          | inr neither ↦ subst (λ n. GuardedPair n p) (sym (if_false _ _ _ neither)) kept
        ]
