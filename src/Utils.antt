-- ===== src/Utils.antt =====
-- src/eos_utils.c: text of numbers, the TLV header, signature checks.
pub mod Tlv
pub mod Digits
pub mod Base58
pub mod Signature
pub mod Nonce
