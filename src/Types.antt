-- ===== src/Types.antt =====
-- src/eos_types.c: numbers and names of the chain, and their text.
pub mod Varint
pub mod Name
pub mod Asset
pub mod Symbol
pub mod Key
