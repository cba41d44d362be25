-- ===== src/Stream/Handlers/Keeps.antt =====
-- What each handler keeps of the context between two rounds, and that it takes from the command.
use ledger_app.Base.{
  ℕ, ◌≤◌, ◌<◌, ◌≡◌, false, List, arith, Outcome, ok, ◌>>=◌, >>=-eq-ok, ok-injective, true, Bool,
  Bool-cases, inl, inr, ◌==◌, ledger_assert, leb,
}
use ledger_app.Stream.Context.{Sha256, Context}
use ledger_app.Stream.Fields.{take_chunk, at_end}
use ledger_app.Stream.Fields.Shape.{HasSizes, IsWellFormed, SameShape, Taken, take_chunk-Taken}
use ledger_app.Stream.Handlers.{
  store_nothing, store_size, store_account, store_action, store_data, store_unknown, finish_field,
  finish_zero_size, finish_action_list_size, finish_action_account, finish_action_name,
  finish_authorization_list_size, finish_authorization_account, finish_authorization_permission,
  finish_action_data, finish_unknown_action_data, process_unknown_action, field_name, process_field,
  process_zero_size_field, process_action_list_size_field, process_action_account,
  process_action_name, process_authorization_list_size_field, process_authorization_account,
  process_authorization_permission, process_unknown_action_data_size, process_unknown_action_data,
  process_action_data,
}
use mathlib.Core.Path.{subst}
use ledger_app.Stream.Handlers.Finishes.{
  Finished, store_nothing-SameShape, store_size-SameShape, store_account-SameShape,
  store_action-SameShape, store_data-SameShape, finish_field-Finished, finish_zero_size-Finished,
  finish_action_list_size-Finished, finish_action_account-Finished, finish_action_name-Finished,
  finish_authorization_list_size-Finished, finish_authorization_account-Finished,
  finish_authorization_permission-Finished, finish_action_data-Finished,
}

-- A handler returned: the context is well formed, and where the command and the field had bytes
-- left, the command is shorter.
pub record Advanced {H : Type 0} (c d : Context H) : Type 0 where
  pub well : IsWellFormed d
  pub no_more : d.command_length ≤ c.command_length
  pub takes :
      0 < c.command_length
      → c.current_field_pos < c.current_field_length
      → d.command_length < c.command_length

-- What a handler finds: the sizes, room for a header, and a position inside the field.
pub record IsReady {H : Type 0} (c : Context H) : Type 0 where
  pub ready_sizes : HasSizes c
  pub ready_room : c.tlv_buffer_pos < 5
  pub ready_pos : c.current_field_pos ≤ c.current_field_length

module _ {H : Type 0} where
  Taken-Advanced :
      (finish : Context H → Outcome (Context H))
      → ((c d : Context H) → HasSizes c → finish c ≡ ok d → Finished c d)
      → (c c' d : Context H) → c.tlv_buffer_pos < 5
      → Taken c c'
      → at_end finish c' ≡ ok d
      → Advanced c d
  unfolding at_end
  Taken-Advanced finish ends c c' d room taken e =
      elim (Bool-cases (c'.current_field_pos == c'.current_field_length)) [
        | inl over ↦
            let done = ends c' d taken.taken_sizes (rw over at e) in
            record {
              well = record {
                sizes = done.finished_sizes;
                tlv_room = omega (arith, taken.taken_tlv, done.same_tlv);
                field_open = λ on. absurd (closed_not_open done.closed on);
              };
              no_more = omega (arith, taken.taken_less, done.same_command);
              takes = λ p q. omega (arith, taken.taken_some p q, done.same_command);
            }
        | inr left ↦
            let same = ok-injective (rw left at e) in
            subst (Advanced c) same (record {
              well = record {
                sizes = taken.taken_sizes;
                tlv_room = omega (arith, taken.taken_tlv);
                field_open = λ on. ground (arith, taken.taken_pos);
              };
              no_more = taken.taken_less;
              takes = taken.taken_some;
            })
      ]
    where
      closed_not_open : {b : Bool} → b ≡ false → b ≡ true → ⊥
      closed_not_open p q = cc

  module _ (sha : Sha256 H) where
    handler-Advanced :
        (store : ℕ → List ℕ → Context H → Outcome (Context H))
        (finish : Context H → Outcome (Context H))
        → ((n : ℕ) (bytes : List ℕ) (c d : Context H) → store n bytes c ≡ ok d → SameShape c d)
        → ((c d : Context H) → HasSizes c → finish c ≡ ok d → Finished c d)
        → (c d : Context H) → IsReady c
        → (take_chunk sha store c >>= at_end finish) ≡ ok d
        → Advanced c d
    handler-Advanced store finish shape ends c d ready e =
        let (c', taken, ended) = >>=-eq-ok (take_chunk sha store c) (at_end finish) e in
        Taken-Advanced finish ends c c' d ready.ready_room
          (take_chunk-Taken sha store shape c c' ready.ready_sizes ready.ready_pos taken) ended

    pub process_field-Advanced :
        (c d : Context H) → IsReady c → process_field sha c ≡ ok d → Advanced c d
    unfolding process_field
    process_field-Advanced =
        handler-Advanced store_nothing finish_field store_nothing-SameShape finish_field-Finished

    pub process_zero_size_field-Advanced :
        (c d : Context H) → IsReady c → process_zero_size_field sha c ≡ ok d → Advanced c d
    unfolding process_zero_size_field
    process_zero_size_field-Advanced =
        handler-Advanced store_size finish_zero_size store_size-SameShape finish_zero_size-Finished

    pub process_action_list_size_field-Advanced :
        (c d : Context H) → IsReady c → process_action_list_size_field sha c ≡ ok d → Advanced c d
    unfolding process_action_list_size_field
    process_action_list_size_field-Advanced =
        handler-Advanced store_size finish_action_list_size store_size-SameShape
          finish_action_list_size-Finished

    pub process_action_account-Advanced :
        (c d : Context H) → IsReady c → process_action_account sha c ≡ ok d → Advanced c d
    unfolding process_action_account
    process_action_account-Advanced =
        handler-Advanced store_account finish_action_account store_account-SameShape
          finish_action_account-Finished

    pub process_action_name-Advanced :
        (c d : Context H) → IsReady c → process_action_name sha c ≡ ok d → Advanced c d
    unfolding process_action_name
    process_action_name-Advanced =
        handler-Advanced store_action finish_action_name store_action-SameShape
          finish_action_name-Finished

    pub process_authorization_list_size_field-Advanced :
        (c d : Context H)
        → IsReady c
        → process_authorization_list_size_field sha c ≡ ok d
        → Advanced c d
    unfolding process_authorization_list_size_field
    process_authorization_list_size_field-Advanced =
        handler-Advanced store_size finish_authorization_list_size store_size-SameShape
          finish_authorization_list_size-Finished

    pub process_authorization_account-Advanced :
        (c d : Context H) → IsReady c → process_authorization_account sha c ≡ ok d → Advanced c d
    unfolding process_authorization_account
    process_authorization_account-Advanced c d ready e =
        let (name, read, rest) = >>=-eq-ok (field_name c) _ e in
        handler-Advanced store_nothing (finish_authorization_account name) store_nothing-SameShape
          (finish_authorization_account-Finished name) c d ready rest

    pub process_authorization_permission-Advanced :
        (c d : Context H) → IsReady c → process_authorization_permission sha c ≡ ok d → Advanced c d
    unfolding process_authorization_permission
    process_authorization_permission-Advanced c d ready e =
        let (name, read, rest) = >>=-eq-ok (field_name c) _ e in
        handler-Advanced store_nothing (finish_authorization_permission name)
          store_nothing-SameShape (finish_authorization_permission-Finished name) c d ready rest

    store_unknown-SameShape :
        (n : ℕ) (bytes : List ℕ) (c d : Context H)
        → store_unknown sha n bytes c ≡ ok d
        → SameShape c d
    unfolding store_unknown
    store_unknown-SameShape n bytes c d e = ground arith

    finish_unknown_action_data-Finished :
        (c d : Context H) → HasSizes c → finish_unknown_action_data sha c ≡ ok d → Finished c d
    unfolding finish_unknown_action_data process_unknown_action
    finish_unknown_action_data-Finished c d s e = ground arith

    pub process_unknown_action_data_size-Advanced :
        (c d : Context H) → IsReady c → process_unknown_action_data_size sha c ≡ ok d → Advanced c d
    unfolding process_unknown_action_data_size
    process_unknown_action_data_size-Advanced =
        handler-Advanced (store_unknown sha) finish_field store_unknown-SameShape
          finish_field-Finished

    pub process_unknown_action_data-Advanced :
        (c d : Context H) → IsReady c → process_unknown_action_data sha c ≡ ok d → Advanced c d
    unfolding process_unknown_action_data
    process_unknown_action_data-Advanced =
        handler-Advanced (store_unknown sha) (finish_unknown_action_data sha)
          store_unknown-SameShape finish_unknown_action_data-Finished

    pub process_action_data-Advanced :
        (c d : Context H) → IsReady c → process_action_data sha c ≡ ok d → Advanced c d
    unfolding process_action_data
    process_action_data-Advanced c d ready e =
        let (u, fits, rest) = >>=-eq-ok (ledger_assert (leb c.current_field_length 511)) _ e in
        handler-Advanced store_data finish_action_data store_data-SameShape
          finish_action_data-Finished c d ready rest
