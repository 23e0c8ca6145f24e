-- ===== src/Client/Link/Safety.antt =====
-- What two clients that run linkmesh-client/src/connection.rs over a lossy network deliver.
pub mod Numbers
pub mod Sender
pub mod Invariant
pub mod Delivered
pub mod Acknowledged
pub mod Full
