-- ===== src/Shared.antt =====
-- linkmesh-shared/src: what the client and the server share.
pub mod Crypto
pub mod Protocol
pub mod Bodies
pub mod Wire
pub mod Cert
pub mod Identity
