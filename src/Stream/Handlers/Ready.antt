-- ===== src/Stream/Handlers/Ready.antt =====
-- Which handlers make an action ready, and what all of them leave as it is.
use ledger_app.Base.{
  ℕ, ◌≡◌, ◌∙◌, refl, ap, Bool, List, Outcome, ok, ◌>>=◌, >>=-eq-ok, ok-injective, arith, ltb, ◌==◌,
  leb, ledger_assert, Bool-cases, inl, inr, then_of, else_of, read_bytes,
}
use mathlib.Core.Path.{sym}
use ledger_app.Stream.Context.{Sha256, Context}
use ledger_app.Stream.Fields.{take_chunk, at_end, advance, hash_tx_data, chunk_length}
use ledger_app.Stream.Handlers.{
  store_nothing, store_size, store_account, store_action, store_data, store_unknown, finish_field,
  finish_zero_size, finish_action_list_size, finish_action_account, finish_action_name,
  finish_authorization_list_size, finish_authorization_account, finish_authorization_permission,
  finish_action_data, finish_unknown_action_data, process_unknown_action, field_name, process_field,
  process_zero_size_field, process_action_list_size_field, process_action_account,
  process_action_name, process_authorization_list_size_field, process_authorization_account,
  process_authorization_permission, process_unknown_action_data_size, process_unknown_action_data,
  process_action_data,
}

module _ {H : Type 0} where
  abbrev pub flags : Context H → Bool × ℕ
  flags c = (c.action_ready, c.unknown_action_allowed)

  -- The setting and the two names, by which an action is known.
  abbrev pub origin : Context H → ℕ × List ℕ × List ℕ
  origin c = (c.unknown_action_allowed, c.contract_name, c.contract_action_name)

module _ {H : Type 0} (sha : Sha256 H) where
  -- A part of the context that the pointers and the hash do not belong to, and that `store` and
  -- `finish` leave as it is.
  module _ {X : Type 0} (part : Context H → X)
      (store : ℕ → List ℕ → Context H → Outcome (Context H))
      (kept_advance : (n : ℕ) (c : Context H) → part (advance n c) ≡ part c)
      (kept_hash : (bytes : List ℕ) (c : Context H) → part (hash_tx_data sha bytes c) ≡ part c)
      (kept_store : (n : ℕ) (bytes : List ℕ) (c d : Context H)
        → store n bytes c ≡ ok d
        → part d ≡ part c) where
    take_chunk_keeps : (c d : Context H) → take_chunk sha store c ≡ ok d → part d ≡ part c
    unfolding take_chunk
    take_chunk_keeps c d e = elim (Bool-cases (ltb c.current_field_pos c.current_field_length)) [
      | inl more ↦
          let (bytes, read, stored) =
            >>=-eq-ok (read_bytes (chunk_length c) c.work_buffer) _ (then_of _ _ _ more e) in
          let (d', wrote, moved) = >>=-eq-ok (store (chunk_length c) bytes _) _ stored in
          ap part (sym (ok-injective moved))
          ∙ kept_advance (chunk_length c) d'
          ∙ kept_store (chunk_length c) bytes (hash_tx_data sha bytes c) d' wrote
          ∙ kept_hash bytes c
      | inr full ↦ ap part (sym (ok-injective (else_of _ _ _ full e)))
    ]

    pub field_keeps :
        (finish : Context H → Outcome (Context H))
        → ((c d : Context H) → finish c ≡ ok d → part d ≡ part c)
        → (c d : Context H) → (take_chunk sha store c >>= λ t. at_end finish t) ≡ ok d
        → part d ≡ part c
    unfolding at_end
    field_keeps finish kept_finish c d e =
        let (t, took, rest) = >>=-eq-ok (take_chunk sha store c) _ e in
        let before = take_chunk_keeps c t took in
        elim (Bool-cases (t.current_field_pos == t.current_field_length)) [
          | inl whole ↦ kept_finish t d (then_of _ _ _ whole rest) ∙ before
          | inr part_left ↦ ap part (sym (ok-injective (else_of _ _ _ part_left rest))) ∙ before
        ]

module _ {H : Type 0} where
  quiet_size :
      (n : ℕ) (bytes : List ℕ) (c d : Context H) → store_size n bytes c ≡ ok d → flags d ≡ flags c
  unfolding store_size
  quiet_size n bytes c d e = ground arith

  quiet_nothing :
      (n : ℕ) (bytes : List ℕ) (c d : Context H)
      → store_nothing n bytes c ≡ ok d
      → flags d ≡ flags c
  unfolding store_nothing
  quiet_nothing n bytes c d e = ground arith

  quiet_account :
      (n : ℕ) (bytes : List ℕ) (c d : Context H)
      → store_account n bytes c ≡ ok d
      → flags d ≡ flags c
  unfolding store_account
  quiet_account n bytes c d e = ground arith

  quiet_action :
      (n : ℕ) (bytes : List ℕ) (c d : Context H) → store_action n bytes c ≡ ok d → flags d ≡ flags c
  unfolding store_action
  quiet_action n bytes c d e = ground arith

  origin_data :
      (n : ℕ) (bytes : List ℕ) (c d : Context H) → store_data n bytes c ≡ ok d → origin d ≡ origin c
  unfolding store_data
  origin_data n bytes c d e = ground arith

module _ {H : Type 0} (sha : Sha256 H) where
  -- The handlers that make no action ready.
  pub process_field-flags : (c d : Context H) → process_field sha c ≡ ok d → flags d ≡ flags c
  unfolding process_field finish_field
  process_field-flags c d e =
      field_keeps sha flags store_nothing (λ n c. refl) (λ bytes c. refl) quiet_nothing finish_field
        (λ t u h. ground arith) c d e

  pub process_zero_size_field-flags :
      (c d : Context H) → process_zero_size_field sha c ≡ ok d → flags d ≡ flags c
  unfolding process_zero_size_field finish_zero_size
  process_zero_size_field-flags c d e =
      field_keeps sha flags store_size (λ n c. refl) (λ bytes c. refl) quiet_size finish_zero_size
        (λ t u h. ground arith) c d e

  pub process_action_list_size_field-flags :
      (c d : Context H) → process_action_list_size_field sha c ≡ ok d → flags d ≡ flags c
  unfolding process_action_list_size_field finish_action_list_size
  process_action_list_size_field-flags c d e =
      field_keeps sha flags store_size (λ n c. refl) (λ bytes c. refl) quiet_size
        finish_action_list_size (λ t u h. ground arith) c d e

  pub process_action_account-flags :
      (c d : Context H) → process_action_account sha c ≡ ok d → flags d ≡ flags c
  unfolding process_action_account finish_action_account
  process_action_account-flags c d e =
      field_keeps sha flags store_account (λ n c. refl) (λ bytes c. refl) quiet_account
        finish_action_account (λ t u h. ground arith) c d e

  pub process_action_name-flags :
      (c d : Context H) → process_action_name sha c ≡ ok d → flags d ≡ flags c
  unfolding process_action_name finish_action_name
  process_action_name-flags c d e =
      field_keeps sha flags store_action (λ n c. refl) (λ bytes c. refl) quiet_action
        finish_action_name (λ t u h. ground arith) c d e

  pub process_authorization_list_size_field-flags :
      (c d : Context H) → process_authorization_list_size_field sha c ≡ ok d → flags d ≡ flags c
  unfolding process_authorization_list_size_field finish_authorization_list_size
  process_authorization_list_size_field-flags c d e =
      field_keeps sha flags store_size (λ n c. refl) (λ bytes c. refl) quiet_size
        finish_authorization_list_size (λ t u h. ground arith) c d e

  pub process_authorization_account-flags :
      (c d : Context H) → process_authorization_account sha c ≡ ok d → flags d ≡ flags c
  unfolding process_authorization_account finish_authorization_account
  process_authorization_account-flags c d e =
      let (name, gathered, rest) = >>=-eq-ok (field_name c) _ e in
      field_keeps sha flags store_nothing (λ n c. refl) (λ bytes c. refl) quiet_nothing
        (finish_authorization_account name) (λ t u h. ground arith) c d rest

  pub process_authorization_permission-flags :
      (c d : Context H) → process_authorization_permission sha c ≡ ok d → flags d ≡ flags c
  unfolding process_authorization_permission finish_authorization_permission
  process_authorization_permission-flags c d e =
      let (name, gathered, rest) = >>=-eq-ok (field_name c) _ e in
      field_keeps sha flags store_nothing (λ n c. refl) (λ bytes c. refl) quiet_nothing
        (finish_authorization_permission name) (λ t u h. ground arith) c d rest

  unknown_keeps :
      {X : Type 0} (part : Context H → X)
      → ((bytes : List ℕ) (c : Context H)
          → part (record c { data_sha256 = sha.update c.data_sha256 bytes }) ≡ part c)
      → (n : ℕ) (bytes : List ℕ) (c d : Context H) → store_unknown sha n bytes c ≡ ok d
      → part d ≡ part c
  unfolding store_unknown
  unknown_keeps part kept n bytes c d e =
      let (u, fits, done) = >>=-eq-ok (ledger_assert (leb n c.command_length)) _ e in
      ap part (sym (ok-injective done)) ∙ kept bytes c

  pub process_unknown_action_data_size-flags :
      (c d : Context H) → process_unknown_action_data_size sha c ≡ ok d → flags d ≡ flags c
  unfolding process_unknown_action_data_size finish_field
  process_unknown_action_data_size-flags c d e =
      field_keeps sha flags (store_unknown sha) (λ n c. refl) (λ bytes c. refl)
        (unknown_keeps flags (λ bytes c. refl)) finish_field (λ t u h. ground arith) c d e

  -- The two handlers that make an action ready leave its names.
  pub process_unknown_action_data-origin :
      (c d : Context H) → process_unknown_action_data sha c ≡ ok d → origin d ≡ origin c
  unfolding process_unknown_action_data finish_unknown_action_data process_unknown_action
  process_unknown_action_data-origin c d e =
      field_keeps sha origin (store_unknown sha) (λ n c. refl) (λ bytes c. refl)
        (unknown_keeps origin (λ bytes c. refl)) (finish_unknown_action_data sha)
        (λ t u h. ground arith) c d e

  pub process_action_data-origin :
      (c d : Context H) → process_action_data sha c ≡ ok d → origin d ≡ origin c
  unfolding process_action_data finish_action_data
  process_action_data-origin c d e =
      let (u, fits, rest) = >>=-eq-ok (ledger_assert (leb c.current_field_length 511)) _ e in
      field_keeps sha origin store_data (λ n c. refl) (λ bytes c. refl) origin_data
        finish_action_data (λ t u h. ground arith) c d rest
