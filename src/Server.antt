-- ===== src/Server.antt =====
-- Assignment2/server_real.c: the key distribution server and the chat server.
pub mod State
pub mod Start
pub mod Replay
pub mod Clients
pub mod Groups
pub mod Files
pub mod Commands
pub mod Interleaving
pub mod Login
pub mod Chat
