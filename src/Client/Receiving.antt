-- ===== src/Client/Receiving.antt =====
-- `handle_peer_data`, `handle_hello`, `handle_rekey` and `bind_ip_ownership` of
-- linkmesh-client/src/connection.rs: what a packet of a known peer does.
pub mod Restart
use link_mesh.Base.{
  ℕ, ◌+◌, ◌%◌, ◌^◌, Option, none, some, List, [], ◌∷◌, ◌++◌, Bytes, Text, Bool, true, false, length,
  ltb, eqb, not, ◌&&◌, ◌||◌, if◌then◌else◌, take, drop, map, ◌==◌, bytes_eq, nat_eq, ok, err,
}
use link_mesh.Base.Maps.{Map, get, insert}
use link_mesh.Shared.Crypto.{Primitives, RawKey, derive_peer_key, encrypt, decrypt}
use link_mesh.Client.Tunnel.{
  TunnelPacket, parse_tunnel_packet, parse_ack_payload, handshake_extra, tunnel_hello, tunnel_data,
  tunnel_rekey, tunnel_ack,
}
use link_mesh.Client.Peer.{
  PeerSession, SocketAddr, Unacked, direct, relay, current_key, established, ensure_rk,
}
use link_mesh.Client.Outbox.{
  Outbox, Env, Action, deliver, direct_is_stale, hello_frame, xor_salt, salt_or_zero, relay_send,
  transport_send, send_ack,
}
use link_mesh.Client.Sending.{send_data, handle_ack}
use link_mesh.Client.Reliable.{next_seq, reorder_deliver}

-- Two functions of the standard library on texts: `String::from_utf8_lossy`, and whether
-- `parse::<IpAddr>()` succeeds.
pub record TextOps : Type 0 where
  pub from_utf8_lossy : Bytes → Text
  pub is_ip : Text → Bool

-- The owner of a virtual address: the first peer that claims it keeps it.
unfoldable pub bind_ip_ownership : Map Text RawKey → Text → RawKey → Map Text RawKey × Bool
bind_ip_ownership idx ip owner = elim (get idx ip) [
  | none ↦ (insert idx ip owner, true)
  | some cur ↦ if cur == owner then (insert idx ip owner, true) else (idx, false)
]

-- The session, the index of virtual addresses, and what was done.
abbrev pub Handled : Type 0
Handled = PeerSession × Map Text RawKey × List Action

-- The window in the order of its numbers, numbered again from `seq + 1` on.
abbrev pub renumber : ℕ → ℕ → Map ℕ Unacked → Map ℕ Unacked
renumber now seq [] = []
renumber now seq ((k, (t, retries, p)) ∷ rest) =
    (next_seq seq, (now, 0, p)) ∷ renumber now (next_seq seq) rest

-- A HELLO of a peer that starts or changes its key: the numbers start again at 1.
unfoldable pub restart_window : ℕ → PeerSession → PeerSession
restart_window now s = record s {
  send_seq = length s.send_unacked;
  send_unacked = renumber now 0 s.send_unacked;
}

-- `recv_seq` and `epoch` start again only in the first HELLO.
unfoldable pub start_session : Text → PeerSession → PeerSession
start_session ip s = record s { epoch = 0; recv_seq = 0; ip = ip }

-- The part of `handle_hello` under the session's lock. The last part of the result is whether
-- this is the first HELLO, and whether it is to be answered.
module _ (prim : Primitives) where
  unfoldable pub agree : Outbox → Env → RawKey → Bytes → PeerSession → PeerSession
  unfolding ensure_rk derive_peer_key xor_salt
  agree o env peer_rk peer_salt s =
      let final_salt = xor_salt (salt_or_zero s.my_salt) peer_salt in
      let (s1, rk_priv, rk_pub) = ensure_rk prim env.secret s in
      record s1 {
        peer_key = some (derive_peer_key prim o.local_priv s.public_key rk_priv peer_rk final_salt);
        peer_rk_pub = some peer_rk;
        peer_salt = some peer_salt;
      }

  unfoldable pub join_session :
      Outbox → Env → RawKey → Bytes → Text → PeerSession → PeerSession × Bool × Bool
  unfolding agree start_session restart_window
  join_session o env peer_rk peer_salt ip s =
      let is_first = not (established s) in
      let rk_changed : Bool = elim s.peer_rk_pub [
        | none ↦ true
        | some old ↦ not (old == peer_rk)
      ] in
      let s1 = agree o env peer_rk peer_salt s in
      let s2 = if is_first then start_session ip s1 else s1 in
      let s3 = if is_first || rk_changed then restart_window env.now s2 else s2 in
      (record s3 { last_seen = env.now }, is_first, is_first || rk_changed)

  -- The answer goes both ways in a direct session.
  unfoldable pub answer_hello : Outbox → Env → PeerSession → PeerSession × List Action
  unfolding hello_frame encrypt relay_send transport_send
  answer_hello o env s = elim (hello_frame prim o s) [
    | none ↦ (s, [])
    | some frame ↦
        let hello = encrypt prim s.handshake_key env.nonce frame in
        elim s.transport [
          | direct ↦
              let (s1, relayed) = relay_send o env s hello in
              let (s2, sent) = transport_send o env s1 hello in (s2, relayed ++ sent)
          | _ ↦ transport_send o env s hello
        ]
  ]

  -- The queue of the time before the session; `later` gives what each packet takes from outside.
  unfoldable pub send_queue :
      Outbox → (ℕ → Env) → ℕ → List Bytes → PeerSession → PeerSession × List Action
  unfolding send_data
  send_queue o later i [] s = (s, [])
  send_queue o later i (p ∷ rest) s =
      let (s1, sent) = send_data prim o (later i) p s in
      let (s2, more) = send_queue o later (i + 1) rest s1 in (s2, sent ++ more)

  unfoldable pub drain_pending : Outbox → (ℕ → Env) → PeerSession → PeerSession × List Action
  unfolding send_queue
  drain_pending o later s = send_queue o later 0 s.pending (record s { pending = [] })

  module _ (text : TextOps) where
    -- An address that is none is not bound.
    unfoldable pub learn_ip : Map Text RawKey → Text → RawKey → Map Text RawKey
    unfolding bind_ip_ownership
    learn_ip idx ip src_pub =
        if not (eqb (length ip) 0) && text.is_ip ip
        then (bind_ip_ownership idx ip src_pub).0
        else idx

    unfoldable pub handle_hello :
        Outbox → Env → (ℕ → Env) → RawKey → Bytes → Map Text RawKey → PeerSession → Handled
    unfolding join_session learn_ip answer_hello drain_pending
    handle_hello o env later src_pub payload idx s =
        if ltb (length payload) handshake_extra
        then (s, idx, [])
        else (let ip = text.from_utf8_lossy (drop handshake_extra payload) in
            let (s1, is_first, reply) =
              join_session o env (take 32 payload) (take 12 (drop 32 payload)) ip s in
            let (s2, answered) = (if reply then answer_hello o env s1 else (s1, [])) in
            let (s3, drained) = (if is_first then drain_pending o later s2 else (s2, [])) in
            (s3, learn_ip idx ip src_pub, answered ++ drained))

  -- A change of keys by the peer: the frame must be of the current epoch.
  unfoldable pub handle_rekey : Outbox → Env → ℕ → Bytes → PeerSession → PeerSession
  unfolding derive_peer_key xor_salt
  handle_rekey o env epoch payload s =
      if ltb (length payload) handshake_extra
      then s
      else if not (established s) || not (eqb epoch s.epoch)
      then s
      else elim s.rk_priv [
        | none ↦ s
        | some rk_priv ↦
            let new_peer_rk = take 32 payload in
            let new_peer_salt = take 12 (drop 32 payload) in
            let final_salt = xor_salt (salt_or_zero s.my_salt) new_peer_salt in
            record s {
              peer_key =
                  some
                    (derive_peer_key prim o.local_priv s.public_key rk_priv new_peer_rk final_salt);
              peer_rk_pub = some new_peer_rk;
              peer_salt = some new_peer_salt;
              epoch = (s.epoch + 1) % 2 ^ 32;
              last_rekey = env.now;
            }
      ]

  -- The key of the session first, then that of the handshake.
  unfoldable pub open_packet : PeerSession → Bytes → Option Bytes
  unfolding decrypt current_key
  open_packet s ct = elim (decrypt prim (current_key s) ct) [
    | ok plain ↦ some plain
    | err _ ↦
        if not (s.handshake_key == current_key s)
        then elim (decrypt prim s.handshake_key ct) [ ok plain ↦ some plain | err _ ↦ none ]
        else none
  ]

total_len : List Bytes → ℕ
total_len [] = 0
total_len (p ∷ ps) = length p + total_len ps

-- The session after `reorder_deliver` gave `r`.
unfoldable pub advance : Bool → Env → List Bytes × ℕ × Map ℕ Bytes → PeerSession → PeerSession
unfolding total_len
advance is_direct env r s = record s {
  last_seen = env.now;
  last_direct = if is_direct then some env.now else s.last_direct;
  recv_buf = r.2;
  rx_bytes = (s.rx_bytes + total_len r.0) % 2 ^ 64;
  recv_seq = r.1;
}

-- A DATA frame of the current epoch of an established session: the new state, what is delivered
-- in order, and the number to acknowledge, which is the new mark.
unfoldable pub accept_data :
    Bool → Env → ℕ → ℕ → Bytes → PeerSession → Option (PeerSession × List Bytes × ℕ)
unfolding reorder_deliver advance
accept_data is_direct env epoch seq payload s =
    if not (established s) || not (eqb epoch s.epoch)
    then none
    else (let r = reorder_deliver s.recv_seq s.recv_buf seq payload in
        some (advance is_direct env r s, r.0, r.1))

-- A packet that came directly shows a direct way, if hole punching is allowed.
unfoldable pub note_direct : Outbox → Env → SocketAddr → PeerSession → PeerSession
note_direct o env src s = record s {
  endpoint = some src;
  last_direct = some env.now;
  transport = if o.hole_punch then direct else s.transport;
  last_seen = env.now;
}

-- A relayed packet in a session that is marked as direct: data always, and the rest when the
-- direct way is stale, moves it to the relay.
unfoldable pub fall_back : Env → ℕ → PeerSession → PeerSession
fall_back env typ s = elim s.transport [
  | direct ↦
      if eqb typ tunnel_data || direct_is_stale env s then record s { transport = relay } else s
  | _ ↦ s
]

module _ (prim : Primitives) (text : TextOps) where
  -- The four types of frame.
  unfoldable pub dispatch :
      Outbox
      → Env
      → (ℕ → Env)
      → RawKey
      → Bool
      → TunnelPacket
      → Map Text RawKey
      → PeerSession
      → Handled
  unfolding handle_hello handle_rekey handle_ack accept_data send_ack parse_ack_payload
  dispatch o env later src_pub is_direct pkt idx s =
      if eqb pkt.pkt_type tunnel_hello
      then handle_hello prim text o env later src_pub pkt.payload idx s
      else if eqb pkt.pkt_type tunnel_rekey
      then (handle_rekey prim o env pkt.epoch pkt.payload s, idx, [])
      else if eqb pkt.pkt_type tunnel_ack
      then elim (parse_ack_payload pkt.payload) [
        | none ↦ (s, idx, [])
        | some ack ↦ (handle_ack env ack s, idx, [])
      ]
      else if eqb pkt.pkt_type tunnel_data
      then elim (accept_data is_direct env pkt.epoch pkt.seq pkt.payload s) [
        | none ↦ (s, idx, [])
        | some (s1, delivered, ack) ↦
            let (s2, acked) = send_ack prim o env ack s1 in
            (s2, idx, map deliver delivered ++ acked)
      ]
      else (s, idx, [])

  -- `handle_peer_data` for a peer that has a session.
  unfoldable pub handle_peer_data :
      Outbox
      → Env
      → (ℕ → Env)
      → RawKey
      → Bytes
      → Bool
      → SocketAddr
      → Map Text RawKey
      → PeerSession
      → Handled
  unfolding note_direct open_packet parse_tunnel_packet fall_back dispatch
  handle_peer_data o env later src_pub ct is_direct src idx s =
      let s1 = if is_direct then note_direct o env src s else s in
      elim (open_packet prim s1 ct) [
        | none ↦ (s1, idx, [])
        | some plain ↦ elim (parse_tunnel_packet plain) [
          | none ↦ (s1, idx, [])
          | some pkt ↦
              let s2 = if is_direct then s1 else fall_back env pkt.pkt_type s1 in
              dispatch o env later src_pub is_direct pkt idx s2
        ]
      ]
