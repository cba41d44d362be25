-- ===== src/Parse.antt =====
-- src/eos_parse*.c: the arguments of an action as labels and texts on the screen.
pub mod Fields
pub mod Token
pub mod Eosio
pub mod Authority
pub mod Print
