-- ===== src/State.antt =====
-- The state that the handlers and the workers share (src/state.rs) and the tables that they query
-- (migrations/).
pub mod Health
pub mod Events
pub mod Rows
pub mod World
pub mod Keeps
pub mod Sample
