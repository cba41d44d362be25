-- ===== src/Tests.antt =====
-- Concrete runs, and the theorems at concrete inputs.
mod Numbers
mod Parser
mod Names
mod Sessions
pub mod Reviews
mod Reach
mod Replies
mod Arguments
pub mod Toy
pub mod Settings
