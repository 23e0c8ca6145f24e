-- ===== src/Client/Peers/Pruned.antt =====
-- What `prune_peers` of linkmesh-client/src/connection.rs leaves.
use link_mesh.Base.{
  ℕ, ◌≡◌, ◌∙◌, refl, ap, none, some, List, [], ◌∷◌, true, arith, inl, inr, Option-cases, any,
  if◌then◌else◌, ◌==◌, bytes_eq,
}
use link_mesh.Base.Maps.{get, get-remove, HasOnce, holds_at, any-keys_where, keys_where}
use link_mesh.Shared.Crypto.{RawKey}
use link_mesh.Client.Peer.{SocketAddr}
use link_mesh.Client.Peers.{PeerTables, is_dead, drop_peer, drop_peers, prune_peers}

peers-drop_peer :
    (pk : RawKey) (t : PeerTables) (k : RawKey)
    → get (drop_peer pk t).peers k ≡ (if pk == k then none else get t.peers k)
unfolding drop_peer
peers-drop_peer pk t k = elim (Option-cases (get t.peers pk)) [
  | inl absent ↦ rw (drop_peer, absent) (ground (arith, bytes_eq.beq_iff pk k))
  | inr (s, found) ↦ rw (drop_peer, found) (get-remove t.peers pk k)
]

peers-drop_peers :
    (dead : List RawKey) (t : PeerTables) (k : RawKey)
    → get (drop_peers dead t).peers k ≡ (if any (λ j. j == k) dead then none else get t.peers k)
peers-drop_peers [] t k = refl
peers-drop_peers (pk ∷ dead) t k =
    peers-drop_peers dead (drop_peer pk t) k ∙ ground (arith, peers-drop_peer pk t k)

addr_index-drop_peer : (pk : RawKey) (t : PeerTables) → (drop_peer pk t).addr_index ≡ t.addr_index
unfolding drop_peer
addr_index-drop_peer pk t = elim (Option-cases (get t.peers pk)) [
  | inl absent ↦ rw (drop_peer, absent) refl
  | inr (s, found) ↦ rw (drop_peer, found) refl
]

addr_index-drop_peers :
    (dead : List RawKey) (t : PeerTables) → (drop_peers dead t).addr_index ≡ t.addr_index
addr_index-drop_peers [] t = refl
addr_index-drop_peers (pk ∷ dead) t =
    addr_index-drop_peers dead (drop_peer pk t) ∙ addr_index-drop_peer pk t

get-prune_peers :
    (timeout_ms now : ℕ) (t : PeerTables) (k : RawKey)
    → HasOnce t.peers
    → get (prune_peers timeout_ms now t).peers k
      ≡ (if holds_at (is_dead timeout_ms now) (get t.peers k) then none else get t.peers k)
unfolding prune_peers
get-prune_peers timeout_ms now t k once =
    peers-drop_peers (keys_where (is_dead timeout_ms now) t.peers) t k
    ∙ ap (λ b. if b then none else get t.peers k)
        (any-keys_where (is_dead timeout_ms now) t.peers k once)

-- `prune_peers` removes exactly the dead peers (those that were silent for twice the time of hole
-- punching, at least 10 seconds, before they were established, or for 15 minutes after); and a
-- socket address that led to a dead peer still leads to its key, under which no session is left.
pub prune_peers_lem :
    (timeout_ms now : ℕ) (t : PeerTables)
    → HasOnce t.peers
    → ((k : RawKey)
        → get (prune_peers timeout_ms now t).peers k
          ≡ (if holds_at (is_dead timeout_ms now) (get t.peers k) then none else get t.peers k))
      × ((src : SocketAddr) (k : RawKey)
          → t.addr_index src ≡ some k
          → holds_at (is_dead timeout_ms now) (get t.peers k) ≡ true
          → ((prune_peers timeout_ms now t).addr_index src ≡ some k)
            × (get (prune_peers timeout_ms now t).peers k ≡ none))
unfolding prune_peers
prune_peers_lem timeout_ms now t once = (
  λ k. get-prune_peers timeout_ms now t k once,
  λ src k leads dead. (
    ap (λ index. index src) (addr_index-drop_peers (keys_where (is_dead timeout_ms now) t.peers) t)
        ∙ leads,
    get-prune_peers timeout_ms now t k once ∙ rw dead refl,
  ),
)
