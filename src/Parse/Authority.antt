-- ===== src/Parse/Authority.antt =====
-- `parseNewAccount` and `parseUpdateAuth` of src/eos_parse_eosio.c.
use ledger_app.Base.{
  ℕ, zero, suc, ◌+◌, ◌*◌, List, [], ◌∷◌, ◌++◌, not, ◌&&◌, ◌==◌, ltb, leb, if◌then◌else◌, take, drop,
  codes, Outcome, ok, stuck, ◌>>=◌, read_bytes, le_value, sub32, u8, u32,
}
use ledger_app.Stream.Context.{Argument}
use ledger_app.Types.Varint.{unpack_variant32}
use ledger_app.Types.Key.{Platform}
use ledger_app.Parse.Token.{shown, behind}
use ledger_app.Parse.Fields.{
  Parsed, parse_name_field, parse_public_key_field, parse_uint16_field, parse_uint32_field,
  parse_string_field, parse_permission_field,
}

-- The keys stand at fixed offsets: 22 bytes in front of the owner's, 43 from there to the active.
pub parse_new_account : Platform → List ℕ → ℕ → ℕ → Argument → Outcome Argument
parse_new_account platform buffer len arg_num arg =
    if arg_num == 0
    then shown (parse_name_field buffer len (codes "Creator"))
    else if arg_num == 1
    then behind 8 parse_name_field buffer len (codes "Account")
    else if arg_num == 2
    then behind 22 (parse_public_key_field platform) buffer len (codes "Owner key")
    else if arg_num == 3
    then behind 65 (parse_public_key_field platform) buffer len (codes "Active key")
    else ok arg

-- One of the three lists of an authority: what an element is, after how many bytes of it its
-- first field begins, how long that field is, and how it is shown. A weight of two bytes follows.
pub record ListKind : Type 0 where
  pub title : List ℕ
  pub prefix : ℕ
  pub field_size : ℕ
  pub parse : List ℕ → ℕ → List ℕ → Outcome Parsed

-- What an iteration of a `for` loop gives: an argument was written, or the loop ended without one
-- at this buffer and length.
pub data Search : Type 0 where
  found : Argument → Search
  passed : List ℕ → ℕ → Search

-- `snprintf(label, 32, ...)`: 31 characters at most.
abbrev pub item_label : Platform → List ℕ → ℕ → List ℕ → List ℕ
item_label platform title i suffix =
    take 31 (title ++ codes " #" ++ platform.format_int (i + 1) ++ suffix)

-- The `for` loop over one list. `i` and `argIndex` are uint8_t; `argIndex` wraps past 255 back to
-- the range of `argNum`, and `i` wraps below a total above 255, so the loop has fuel.
pub search_list : Platform → ListKind → ℕ → ℕ → ℕ → ℕ → ℕ → List ℕ → ℕ → Outcome Search
search_list platform kind zero total arg_num i arg_index buffer len = stuck
search_list platform kind (suc fuel) total arg_num i arg_index buffer len =
    let item = drop kind.prefix buffer in
    let item_length = sub32 len kind.prefix in
    let weight = drop kind.field_size item in
    let weight_length = sub32 item_length kind.field_size in
    let next =
      search_list platform kind fuel total arg_num (u8 (i + 1)) (u8 (arg_index + 2)) (drop 2 weight)
        (sub32 weight_length 2) in
    if not (ltb i total)
    then ok (passed buffer len)
    else if arg_index == arg_num
    then (shown (kind.parse item item_length (item_label platform kind.title i [])) >>= λ arg.
        ok (found arg))
    else if arg_index + 1 == arg_num
    then (shown (
          parse_uint16_field platform weight weight_length
            (item_label platform kind.title i (codes " Weight")))
        >>= λ arg. ok (found arg))
    else next

-- A list from its size on: the argument if it is one of this list's, and else what stands behind
-- the list. `start` is the number of the last argument in front of it.
pub in_list :
    Platform
    → ListKind
    → ℕ
    → ℕ
    → List ℕ
    → ℕ
    → (ℕ → List ℕ → ℕ → Outcome Argument)
    → Outcome Argument
in_list platform kind start arg_num buffer len behind_list = unpack_variant32 buffer len >>= λ p.
    let total = p.0 in
    let items = drop (p.1) buffer in
    let items_length = sub32 len (p.1) in
    let step = kind.prefix + kind.field_size + 2 in
    let skip = λ (b : List ℕ) (n : ℕ).
      behind_list total (drop (u32 (step * total)) b) (sub32 n (u32 (step * total))) in
    if ltb start arg_num && leb arg_num (u32 (start + u32 (total * 2)))
    then (search_list platform kind 256 total arg_num 0 (u8 (start + 1)) items items_length >>= λ s.
        elim s [ found arg ↦ ok arg | passed b n ↦ skip b n ])
    else skip items items_length

abbrev pub keys_kind : Platform → ListKind
keys_kind platform = record {
  title = codes "Key";
  prefix = 1;
  field_size = 33;
  parse = parse_public_key_field platform;
}

abbrev pub accounts_kind : ListKind
accounts_kind = record {
  title = codes "Account";
  prefix = 0;
  field_size = 16;
  parse = parse_permission_field;
}

abbrev pub delays_kind : Platform → ListKind
delays_kind platform = record {
  title = codes "Delay";
  prefix = 0;
  field_size = 4;
  parse = parse_uint32_field platform;
}

pub parse_update_auth : Platform → List ℕ → ℕ → ℕ → Argument → Outcome Argument
parse_update_auth platform buffer len arg_num arg =
    if arg_num == 0
    then shown (parse_name_field buffer len (codes "Account"))
    else if arg_num == 1
    then behind 8 parse_name_field buffer len (codes "Permission")
    else (read_bytes 8 (drop 16 buffer) >>= λ parent.
        if not (le_value parent == 0) && arg_num == 2
        then shown (parse_name_field (drop 16 buffer) 8 (codes "Parent"))
        else if arg_num == 2
        then shown (parse_string_field (4 ∷ codes "NULL") 5 (codes "Parent"))
        else if arg_num == 3
        then behind 24 (parse_uint32_field platform) buffer len (codes "Threshold")
        else in_list platform (keys_kind platform) 3 arg_num (drop 28 buffer) (sub32 len 28)
            λ keys accounts accounts_length.
              in_list platform accounts_kind (u32 (3 + keys * 2)) arg_num accounts accounts_length
                λ permissions delays delays_length.
                  in_list platform (delays_kind platform) (u32 (3 + keys * 2 + permissions * 2))
                    arg_num delays delays_length λ waits rest rest_length. ok arg)
