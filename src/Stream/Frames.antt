-- ===== src/Stream/Frames.antt =====
-- The form of the stream that the host sends: octet strings one behind the other, each a header
-- with its length and the bytes of a field. It is described here apart from the parser.
pub mod Headers
use ledger_app.Base.{
  ℕ, ◌+◌, ◌*◌, ◌%◌, ◌<◌, ◌≤◌, ◌≡◌, ◌≢◌, ◌⊎◌, true, false, List, [], ◌∷◌, ◌++◌, length, top_bit, u32,
}
use ledger_app.Utils.Tlv.{tag_number, number_octet_string}

-- The bytes of a length, highest first, in 32 bits.
abbrev pub length_value : ℕ → List ℕ → ℕ
length_value acc [] = acc
length_value acc (b ∷ bytes) = length_value (u32 (acc * 256) + b) bytes

-- The whole header of a field of `n` bytes: the tag of an octet string, and the length in the short
-- form or in the long one with the count of its bytes.
abbrev pub IsHeader : List ℕ → ℕ → Type 0
IsHeader [] n = ⊥
IsHeader (tag ∷ []) n = ⊥
IsHeader (tag ∷ b ∷ bytes) n =
    (tag_number tag ≡ number_octet_string)
    × (((top_bit b ≡ false) × (bytes ≡ []) × (n ≡ b))
        ⊎ ((top_bit b ≡ true) × (length bytes ≡ b % 128) × (n ≡ length_value 0 bytes)))

-- The start of a header, or bytes that no header starts with.
abbrev pub IsOpen : List ℕ → Type 0
IsOpen [] = Unit
IsOpen (tag ∷ []) = Unit
IsOpen (tag ∷ b ∷ bytes) =
    (tag_number tag ≢ number_octet_string) ⊎ ((top_bit b ≡ true) × (length bytes < b % 128))

-- A stream of whole fields, and the bytes of the fields without the headers.
pub data Fields : List ℕ → List ℕ → Type 0 where
  no_field : Fields [] []
  next_field :
      {stream content : List ℕ} (header body : List ℕ)
      → Fields stream content
      → IsHeader header (length body)
      → Fields (stream ++ (header ++ body)) (content ++ body)
