-- ===== src/Client/Sending.antt =====
-- `send_data`, `handle_ack` and `retransmit` of linkmesh-client/src/connection.rs.
use link_mesh.Base.{
  ℕ, ◌+◌, ◌%◌, ◌^◌, none, some, List, [], ◌∷◌, ◌++◌, Bytes, Bool, true, length, ltb, leb, eqb, not,
  ◌&&◌, if◌then◌else◌, retain, drop, nat_eq,
}
use link_mesh.Base.Maps.{get, insert_sorted}
use link_mesh.Shared.Crypto.{Primitives, encrypt_with_nonce}
use link_mesh.Client.Tunnel.{frame_tunnel_packet, data_nonce, tunnel_data}
use link_mesh.Client.Peer.{PeerSession, Unacked, current_key, established}
use link_mesh.Client.Outbox.{Outbox, Env, Action, query_peer, elapsed, transport_send, maybe_rekey}
use link_mesh.Client.Reliable.{reliable_window, next_seq}

abbrev pub re_query_stale_ms : ℕ
re_query_stale_ms = 1000

abbrev pub re_query_min_interval_ms : ℕ
re_query_min_interval_ms = 1000

abbrev pub pending_cap : ℕ
pending_cap = 256

abbrev pub retransmit_timeout_ms : ℕ
retransmit_timeout_ms = 500

abbrev pub max_retries : ℕ
max_retries = 20

-- A silent peer is looked up again, at most once in a while.
unfoldable pub requery : Env → PeerSession → PeerSession × List Action
requery env s =
    let requery_ok : Bool = elim s.last_requery [
      | none ↦ true
      | some t ↦ leb re_query_min_interval_ms (elapsed env t)
    ] in
    if ltb re_query_stale_ms (elapsed env s.last_seen) && requery_ok && not (eqb (length s.ip) 0)
    then (record s { last_requery = some env.now }, query_peer s.ip ∷ [])
    else (s, [])

-- The queue of a session that is not established; the oldest packet makes room.
unfoldable pub push_pending : Bytes → PeerSession → PeerSession
push_pending payload s =
    let kept = if leb pending_cap (length s.pending) then drop 1 s.pending else s.pending in
    record s { pending = kept ++ payload ∷ [] }

-- The number is taken before the window is tested.
unfoldable pub take_number : PeerSession → PeerSession
take_number s = record s { send_seq = next_seq s.send_seq }

unfoldable pub admit : Env → Bytes → PeerSession → PeerSession
admit env payload s = record s {
  send_unacked = insert_sorted s.send_unacked s.send_seq (env.now, 0, payload);
}

module _ (prim : Primitives) where
  -- Every `rekey_every_pkts` packets this side offers to change keys.
  unfoldable pub auto_rekey : Outbox → Env → PeerSession → PeerSession × List Action
  unfolding maybe_rekey
  auto_rekey o env s =
      let counted = record s { sent_pkts = (s.sent_pkts + 1) % 2 ^ 64 } in
      if ltb 0 o.rekey_every_pkts && eqb (counted.sent_pkts % o.rekey_every_pkts) 0
      then (let (s', ct) = maybe_rekey prim o env counted in
          elim ct [ none ↦ (s', []) | some rekey ↦ transport_send o env s' rekey ])
      else (counted, [])

  -- The DATA frame of a packet, under the current key.
  unfoldable pub data_ct : PeerSession → ℕ → Bytes → Bytes
  unfolding encrypt_with_nonce current_key frame_tunnel_packet data_nonce
  data_ct s seq payload =
      encrypt_with_nonce prim (current_key s) (data_nonce s.epoch seq)
        (frame_tunnel_packet tunnel_data s.epoch seq payload)

  -- The last part of `send_data`: queue, refuse or send.
  unfoldable pub enqueue : Outbox → Env → Bytes → PeerSession → PeerSession × List Action
  unfolding push_pending take_number admit data_ct
  enqueue o env payload s =
      if not (established s)
      then (push_pending payload s, [])
      else (let numbered = take_number s in
          if leb reliable_window (length s.send_unacked)
          then (numbered, [])
          else transport_send o env (admit env payload numbered)
              (data_ct numbered numbered.send_seq payload))

  unfoldable pub send_data : Outbox → Env → Bytes → PeerSession → PeerSession × List Action
  unfolding requery auto_rekey enqueue
  send_data o env payload s =
      let (s1, asked) = requery env s in
      let (s2, rekeyed) = auto_rekey o env s1 in
      let (s3, sent) = enqueue o env payload s2 in (s3, asked ++ (rekeyed ++ sent))

-- A cumulative acknowledgement.
unfoldable pub handle_ack : Env → ℕ → PeerSession → PeerSession
handle_ack env ack s =
    if not (established s)
    then s
    else record s { send_unacked = retain (λ e. ltb ack e.0) s.send_unacked; last_seen = env.now }

-- A packet whose time is up and that was not sent again too often.
abbrev pub is_due : Env → ℕ × Unacked → Bool
is_due env (seq, (t, retries, payload)) =
    not (leb max_retries retries) && not (ltb (elapsed env t) retransmit_timeout_ms)

-- `send_unacked.get_mut(&seq)`: the packet starts a new term.
unfoldable pub renew : Env → ℕ → PeerSession → PeerSession
renew env seq s = elim (get s.send_unacked seq) [
  | none ↦ s
  | some (t, retries, payload) ↦ record s {
    send_unacked = insert_sorted s.send_unacked seq (env.now, (retries + 1) % 2 ^ 32, payload);
  }
]

module _ (prim : Primitives) where
  unfoldable pub resend :
      Outbox → Env → List (ℕ × Unacked) → PeerSession → PeerSession × List Action
  unfolding renew data_ct transport_send
  resend o env [] s = (s, [])
  resend o env ((seq, (t, retries, payload)) ∷ rest) s =
      let again : PeerSession × List Action =
        (let (s', sent) = transport_send o env (renew env seq s) (data_ct prim s seq payload) in
          let (s'', more) = resend o env rest s' in (s'', sent ++ more)) in
      let skipped = resend o env rest s in if established s then again else skipped

  -- The round for one peer.
  unfoldable pub retransmit : Outbox → Env → PeerSession → PeerSession × List Action
  unfolding resend
  retransmit o env s = resend o env (retain (is_due env) s.send_unacked) s
