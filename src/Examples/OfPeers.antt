-- ===== src/Examples/OfPeers.antt =====
-- The theorem about the tables of peers of linkmesh-client/src/connection.rs at a concrete input.
use link_mesh.Base.{true, ◌≡◌, refl, none, some, [], ◌∷◌, bytes_eq, if◌then◌else◌}
use link_mesh.Base.Maps.{get, HasOnce, holds_at}
use link_mesh.Shared.Crypto.{RawKey}
use link_mesh.Client.Peer.{SocketAddr}
use link_mesh.Client.Peers.{PeerTables, prune_peers, is_dead}
use link_mesh.Client.Peers.Pruned.{prune_peers_lem}
use link_mesh.Examples.Data.{session, key_b}

-- A peer, silent since the start, under its address.
abbrev silent_peers : PeerTables
silent_peers = record {
  peers = (key_b, session) ∷ [];
  ip_index = (50 ∷ [], key_b) ∷ [];
  rk_index = [];
  addr_index = λ src. some key_b;
}

silent_once : HasOnce silent_peers.peers
unfolding get
silent_once = (refl, tt)

prune_example :
    ((k : RawKey)
      → get (prune_peers 2000 1000000 silent_peers).peers k ≡ (
          if holds_at (is_dead 2000 1000000) (get silent_peers.peers k)
          then none
          else get silent_peers.peers k))
    × ((src : SocketAddr) (k : RawKey)
        → silent_peers.addr_index src ≡ some k
        → holds_at (is_dead 2000 1000000) (get silent_peers.peers k) ≡ true
        → ((prune_peers 2000 1000000 silent_peers).addr_index src ≡ some k)
          × (get (prune_peers 2000 1000000 silent_peers).peers k ≡ none))
prune_example = prune_peers_lem 2000 1000000 silent_peers silent_once
