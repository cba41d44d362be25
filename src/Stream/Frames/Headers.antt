-- ===== src/Stream/Frames/Headers.antt =====
-- The decoder of headers against the description of them.
use ledger_app.Base.{ℕ, ◌+◌, ◌<◌, ◌≡◌, List, [], ◌∷◌, ◌++◌, arith, length, ok}
use ledger_app.Utils.Tlv.{
  Header, invalid, incomplete, decoded, tlv_try_decode, decode_length, read_length,
}
use ledger_app.Stream.Frames.{IsHeader, IsOpen}

-- What the decoder says of some bytes.
abbrev pub Says : List ℕ → Header → Type 0
Says bytes (decoded n) = IsHeader bytes n
Says bytes invalid = IsOpen bytes
Says bytes incomplete = IsOpen bytes

-- One byte more behind the start of a header, with five bytes at most and `rest` behind them: the
-- decoder finds the header's length at its last byte and not before.
pub tlv_try_decode-Says :
    (start : List ℕ) (b : ℕ) (rest : List ℕ) (header : Header)
    → IsOpen start
    → length start < 5
    → tlv_try_decode ((start ++ (b ∷ [])) ++ rest) (length start + 1) ≡ ok header
    → Says (start ++ (b ∷ [])) header
unfolding tlv_try_decode decode_length read_length
tlv_try_decode-Says [] b rest invalid o short e = tt
tlv_try_decode-Says [] b rest incomplete o short e = tt
tlv_try_decode-Says [] b rest (decoded n) o short e = ground arith
tlv_try_decode-Says (t ∷ []) b rest invalid o short e = ground arith
tlv_try_decode-Says (t ∷ []) b rest incomplete o short e = ground arith
tlv_try_decode-Says (t ∷ []) b rest (decoded n) o short e = ground arith
tlv_try_decode-Says (t ∷ c ∷ []) b rest invalid o short e = ground arith
tlv_try_decode-Says (t ∷ c ∷ []) b rest incomplete o short e = ground arith
tlv_try_decode-Says (t ∷ c ∷ []) b rest (decoded n) o short e = ground arith
tlv_try_decode-Says (t ∷ c ∷ x ∷ []) b rest invalid o short e = ground arith
tlv_try_decode-Says (t ∷ c ∷ x ∷ []) b rest incomplete o short e = ground arith
tlv_try_decode-Says (t ∷ c ∷ x ∷ []) b rest (decoded n) o short e = ground arith
tlv_try_decode-Says (t ∷ c ∷ x ∷ y ∷ []) b rest invalid o short e = ground arith
tlv_try_decode-Says (t ∷ c ∷ x ∷ y ∷ []) b rest incomplete o short e = ground arith
tlv_try_decode-Says (t ∷ c ∷ x ∷ y ∷ []) b rest (decoded n) o short e = ground arith
tlv_try_decode-Says (t ∷ c ∷ x ∷ y ∷ z ∷ more) b rest header o short e = absurd (omega arith)
