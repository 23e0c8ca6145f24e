-- ===== src/Server.antt =====
-- linkmesh-server/src: the server's tables and handlers.
pub mod Library
pub mod Routes
pub mod Relay
pub mod Batches
pub mod Guards
pub mod Sessions
pub mod Mesh
pub mod Rooms
pub mod Signaling
pub mod Auth
pub mod Join
pub mod Sweep
pub mod Desk
pub mod Dispatch
pub mod Running
