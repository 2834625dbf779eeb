-- ===== src/Admin.antt =====
-- admin: the server that runs a game.
pub mod Acks
pub mod Server
pub mod Prompt
pub mod Dispatch
pub mod Steps
pub mod Names
pub mod Requests
