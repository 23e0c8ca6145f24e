-- ===== src/Client.antt =====
-- The client (linkmesh-client/src): the data plane between two peers.
pub mod Tunnel
pub mod Peer
pub mod Outbox
pub mod Sending
pub mod Receiving
pub mod Reliable
pub mod Link
pub mod Responses
pub mod Dns
pub mod Handshake
pub mod Peers
