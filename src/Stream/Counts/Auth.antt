-- ===== src/Stream/Counts/Auth.antt =====
-- `processEosioUpdateAuth` and `processEosioNewAccountAction` of src/eos_stream.c.
use ledger_app.Base.{
  ℕ, ◌+◌, ◌-◌, ◌*◌, ◌^◌, List, ltb, ◌==◌, drop, Outcome, ok, ◌>>=◌, ◌>>◌, ledger_assert, read_bytes,
  le_value, sub32,
}
use ledger_app.Types.Varint.{unpack_variant32}

-- `LEDGER_ASSERT(!__builtin_mul_overflow(a, b, &result))` on uint32_t.
abbrev pub mul_u32 : ℕ → ℕ → Outcome ℕ
mul_u32 a b = ledger_assert (ltb (a * b) (2 ^ 32)) >> ok (a * b)

-- `LEDGER_ASSERT(!__builtin_add_overflow(a, b, &result))` on uint32_t, and into a `char`.
abbrev pub add_u32 : ℕ → ℕ → Outcome ℕ
add_u32 a b = ledger_assert (ltb (a + b) (2 ^ 32)) >> ok (a + b)

abbrev pub add_char : ℕ → ℕ → Outcome ℕ
add_char a b = ledger_assert (ltb (a + b) (2 ^ 8)) >> ok (a + b)

-- One list of an authority: its size, then `step` bytes for each element, all inside the data and
-- not up to its end. The result is the count with two arguments more for each element, the
-- buffer behind the list and the length left.
unfoldable pub skip_list : ℕ → ℕ → List ℕ → ℕ → Outcome (ℕ × List ℕ × ℕ)
skip_list step count buffer len = do
  (total, read) ← unpack_variant32 buffer len
  ledger_assert (ltb read len)
  offset_update ← mul_u32 step total
  ledger_assert (ltb offset_update (len - read))
  doubled ← add_u32 total total
  count' ← add_char count doubled
  ok (count', drop offset_update (drop read buffer), len - read - offset_update)

-- Keys of 36 bytes, accounts of 18, then the number of waits.
unfoldable pub process_eosio_update_auth : List ℕ → ℕ → Outcome ℕ
process_eosio_update_auth buffer len = do
  ledger_assert (ltb 28 len)
  (count_keys, accounts, accounts_length) ← skip_list 36 4 (drop 28 buffer) (len - 28)
  (count_accounts, waits, waits_length) ← skip_list 18 count_keys accounts accounts_length
  (total_waits, read) ← unpack_variant32 waits waits_length
  doubled ← add_u32 total_waits total_waits
  add_char count_accounts doubled

-- An authority of one key of weight 1 and threshold 1, with no accounts and no delays; the result
-- is the buffer behind it and the length left.
unfoldable pub check_authority : List ℕ → ℕ → Outcome (List ℕ × ℕ)
check_authority buffer len = do
  threshold ← read_bytes 4 buffer
  ledger_assert (le_value threshold == 1)
  let keys = drop 4 buffer
  let keys_length = sub32 len 4
  (total_keys, read) ← unpack_variant32 keys keys_length
  ledger_assert (total_keys == 1)
  let key_weight = drop 34 (drop read keys)
  weight ← read_bytes 2 key_weight
  ledger_assert (le_value weight == 1)
  let accounts = drop 2 key_weight
  let accounts_length = sub32 (sub32 (sub32 keys_length read) 34) 2
  (total_accounts, read_accounts) ← unpack_variant32 accounts accounts_length
  ledger_assert (total_accounts == 0)
  let delays = drop read_accounts accounts
  let delays_length = sub32 accounts_length read_accounts
  (total_delays, read_delays) ← unpack_variant32 delays delays_length
  ledger_assert (total_delays == 0)
  ok (drop read_delays delays, sub32 delays_length read_delays)

-- The owner's authority, then the active one, behind two names.
unfoldable pub process_eosio_new_account_action : List ℕ → ℕ → Outcome ℕ
process_eosio_new_account_action buffer len = do
  (active, active_length) ← check_authority (drop 16 buffer) (sub32 len 16)
  (rest, rest_length) ← check_authority active active_length
  ok 4
