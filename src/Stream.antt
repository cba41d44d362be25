-- ===== src/Stream.antt =====
-- src/eos_stream.c: the transaction parser, fed by chunks of a TLV stream.
pub mod Context
pub mod Known
pub mod Fields
pub mod Frames
pub mod Counts
pub mod Handlers
pub mod Machine
