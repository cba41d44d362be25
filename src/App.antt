-- ===== src/App.antt =====
-- src/config.c, src/state_neutral.h, src/main.c and the two user interfaces.
pub mod Config
pub mod StateNeutral
pub mod Preparse
pub mod Sign
pub mod HashSigner
pub mod Device
pub mod Review
pub mod Bagl
pub mod Nbgl
pub mod PublicKey
pub mod Apdu
