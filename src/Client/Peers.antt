-- ===== src/Client/Peers.antt =====
-- The tables of peers of linkmesh-client/src/connection.rs, and `prune_peers`.
pub mod Pruned
use link_mesh.Base.{
  ℕ, ◌+◌, ◌-◌, ◌*◌, Option, none, some, List, [], ◌∷◌, Bytes, Text, Bool, not, ltb, eqb, length,
  ◌&&◌, ◌||◌, if◌then◌else◌, ◌==◌, bytes_eq,
}
use link_mesh.Base.Maps
use link_mesh.Base.Maps.{Map, get, keys_where}
use link_mesh.Shared.Crypto.{RawKey}
use link_mesh.Client.Peer.{PeerSession, SocketAddr, established}

-- The sessions by the key of the peer, and the keys by virtual address, by routing key and by the
-- address of the socket that a direct packet comes from.
pub record PeerTables : Type 0 where
  pub peers : Map RawKey PeerSession
  pub ip_index : Map Text RawKey
  pub rk_index : Map RawKey RawKey
  pub addr_index : SocketAddr → Option RawKey

-- Times are milliseconds; `timeout_ms` is that of the setting hole_punch.
abbrev pub is_dead : ℕ → ℕ → PeerSession → Bool
is_dead timeout_ms now s =
    let unest_timeout = (if ltb timeout_ms 5000 then 5000 else timeout_ms) * 2 in
    let idle = now - s.last_seen in
    (not (established s) && ltb unest_timeout idle) || (established s && ltb 900000 idle)

-- An index loses the entry of a peer when it is this peer's.
abbrev pub drop_own : Map Bytes RawKey → Bytes → RawKey → Map Bytes RawKey
drop_own index at pk = elim (get index at) [
  | none ↦ index
  | some cur ↦ if cur == pk then Maps.remove index at else index
]

abbrev pub drop_rk : Map RawKey RawKey → Option RawKey → RawKey → Map RawKey RawKey
drop_rk index none pk = index
drop_rk index (some rk) pk = drop_own index rk pk

unfoldable pub drop_peer : RawKey → PeerTables → PeerTables
drop_peer pk t = elim (get t.peers pk) [
  | none ↦ t
  | some s ↦ record t {
    peers = Maps.remove t.peers pk;
    ip_index = if eqb (length s.ip) 0 then t.ip_index else drop_own t.ip_index s.ip pk;
    rk_index = drop_rk t.rk_index s.peer_relay_rk pk;
  }
]

abbrev pub drop_peers : List RawKey → PeerTables → PeerTables
drop_peers [] t = t
drop_peers (pk ∷ dead) t = drop_peers dead (drop_peer pk t)

unfoldable pub prune_peers : ℕ → ℕ → PeerTables → PeerTables
unfolding drop_peer
prune_peers timeout_ms now t = drop_peers (keys_where (is_dead timeout_ms now) t.peers) t
