-- ===== src/Examples.antt =====
-- The theorems about linkmesh-client, linkmesh-server and linkmesh-shared at concrete inputs.
pub mod Data
pub mod OfShared
pub mod OfClient
pub mod OfServer
pub mod OfWire
pub mod OfJoin
pub mod OfRunning
pub mod OfDns
pub mod OfAuth
pub mod OfPeers
