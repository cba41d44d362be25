-- ===== src/App/StateNeutral/Laws.antt =====
-- Which actions are state-neutral.
use ledger_app.Base.{
  ℕ, ◌≡◌, ◌∙◌, ◌⊎◌, refl, ap, true, false, Bool, ◌&&◌, and_left, and_right, Bool-cases, inl, inr,
  List, [], ◌∷◌, ◌++◌, codes, ok, ◌>>=◌, >>=-eq-ok, ok-injective, if◌then◌else◌, then_of, else_of,
  ◌==◌, eq_of_==, same_text,
}
use ledger_app.App.StateNeutral.{equals_literal, lower_text, is_state_neutral_action}

-- The memory holds the text and its terminator.
pub Holds : List ℕ → List ℕ → Type 0
Holds memory text = (rest : List ℕ) × (memory ≡ text ++ (0 ∷ rest))

equals_literal-Holds :
    (memory text : List ℕ) → equals_literal memory text ≡ ok true → Holds memory text
unfolding equals_literal Holds
equals_literal-Holds [] text e = cc
equals_literal-Holds (c ∷ memory) [] e =
    (memory, ap (λ x. x ∷ memory) (eq_of_== c 0 (ok-injective e)))
equals_literal-Holds (c ∷ memory) (l ∷ text) e = elim (Bool-cases (c == l)) [
  | inl same ↦
      let (rest, split) = equals_literal-Holds memory text (then_of _ _ _ same e) in
      (rest, cc (split, eq_of_== c l same))
  | inr other ↦ absurd (differs (ok-injective (else_of _ _ _ other e)))
]
  where
    differs : false ≡ true → ⊥
    differs h = cc

same_text_lem : (s t : List ℕ) → same_text s t ≡ true → s ≡ t
same_text_lem [] [] h = refl
same_text_lem [] (t ∷ ts) h = cc
same_text_lem (s ∷ ss) [] h = cc
same_text_lem (s ∷ ss) (t ∷ ts) h = cc (
  eq_of_== s t (and_left (s == t) (same_text ss ts) h),
  same_text_lem ss ts (and_right (s == t) (same_text ss ts) h),
)

-- The action `noop` of `null.vaulta`, in letters of either case, or `identity` of the contract
-- without a name, both with no data.
pub IsNeutral : List ℕ → List ℕ → ℕ → Type 0
IsNeutral contract action no_data =
    (no_data ≡ 1)
    × (((lower_text 63 contract ≡ ok (codes "null.vaulta")) × Holds action (codes "noop"))
        ⊎ ((lower_text 63 contract ≡ ok []) × Holds action (codes "identity")))

-- The end of each of the two comparisons.
neutral_end :
    (action text : List ℕ) (no_data : ℕ) {b : Bool}
    → (equals_literal action text >>= λ e. ok (e && no_data == 1)) ≡ ok b
    → b ≡ true
    → (no_data ≡ 1) × Holds action text
neutral_end action text no_data e yes_it_is =
    let (found, compared, rest) = >>=-eq-ok (equals_literal action text) _ e in
    let both : (found && no_data == 1) ≡ true = ok-injective rest ∙ yes_it_is in
    (
      eq_of_== no_data 1 (and_right _ _ both),
      equals_literal-Holds action text (compared ∙ ap ok (and_left _ _ both)),
    )

-- An action that the test calls state-neutral is one of the two, and has no data.
pub is_state_neutral_action-IsNeutral :
    (contract action : List ℕ) (no_data : ℕ)
    → is_state_neutral_action contract action no_data ≡ ok true
    → IsNeutral contract action no_data
unfolding is_state_neutral_action IsNeutral
is_state_neutral_action-IsNeutral contract action no_data e =
    let (owner, lowered, rest) = >>=-eq-ok (lower_text 63 contract) _ e in
    elim (Bool-cases (same_text owner (codes "null.vaulta"))) [
      | inr other ↦ nameless owner lowered (else_of _ _ _ other rest)
      | inl null ↦
          let (found, compared, rest₁) =
            >>=-eq-ok (equals_literal action (codes "noop")) _ (then_of _ _ _ null rest) in
          elim (Bool-cases (found && no_data == 1)) [
            | inl noop ↦ (
              eq_of_== no_data 1 (and_right _ _ noop),
              inl (
                lowered ∙ ap ok (same_text_lem owner _ null),
                equals_literal-Holds action (codes "noop") (compared ∙ ap ok (and_left _ _ noop)),
              ),
            )
            | inr not_noop ↦ nameless owner lowered (else_of _ _ _ not_noop rest₁)
          ]
    ]
  where
    nameless :
        (owner : List ℕ)
        → lower_text 63 contract ≡ ok owner
        → (if same_text owner []
            then (equals_literal action (codes "identity") >>= λ f. ok (f && no_data == 1))
            else ok false)
          ≡ ok true
        → IsNeutral contract action no_data
    nameless owner lowered q = elim (Bool-cases (same_text owner [])) [
      | inl empty ↦
          let (no_bytes, text) =
            neutral_end action (codes "identity") no_data (then_of _ _ _ empty q) refl in
          (no_bytes, inr (lowered ∙ ap ok (same_text_lem owner [] empty), text))
      | inr named ↦ absurd (differs (ok-injective (else_of _ _ _ named q)))
    ]
      where
        differs : false ≡ true → ⊥
        differs h = cc
