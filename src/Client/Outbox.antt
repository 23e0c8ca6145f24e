-- ===== src/Client/Outbox.antt =====
-- The sending side of linkmesh-client/src/connection.rs (`Outbox`): which way a packet goes, and
-- the frames of the handshake.
use Prim.Native.Nat.{bit_xor}
use link_mesh.Base.{
  ℕ, ◌+◌, ◌-◌, ◌%◌, ◌^◌, Option, none, some, List, [], ◌∷◌, Bytes, Text, Bool, true, false, length,
  ltb, leb, not, ◌||◌, if◌then◌else◌, replicate,
}
use link_mesh.Shared.Crypto.{Primitives, RawKey, generate_keypair, derive_peer_key, encrypt}
use link_mesh.Shared.Protocol.{frame_relay, frame_relay_rk}
use link_mesh.Client.Tunnel.{
  frame_tunnel_packet, frame_hello_payload, frame_rekey_payload, ack_payload, tunnel_hello,
  tunnel_rekey, tunnel_ack,
}
use link_mesh.Client.Peer.{
  PeerSession, SocketAddr, punching, direct, relay, current_key, established,
}

abbrev pub direct_stale_ms : ℕ
direct_stale_ms = 5000

-- The fields of `Outbox` that do not change while a connection lasts. Times are in milliseconds.
pub record Outbox : Type 0 where
  pub local_ip : Text
  pub local_pub : RawKey
  pub local_priv : RawKey
  pub hole_punch : Bool
  pub relay_rk : RawKey
  pub relay_addr : SocketAddr
  pub rekey_every_pkts : ℕ
  pub relay_recover_stale : ℕ

-- What a call takes from outside: the time, whether the socket accepts a packet, and randomness.
pub record Env : Type 0 where
  pub now : ℕ
  pub sends : Bool
  pub secret : RawKey
  pub salt : Bytes
  pub nonce : Bytes

-- What a call does besides changing the session: a query to the server for an address, a datagram
-- to an address, a packet for the virtual interface.
pub data Action : Type 0 where
  query_peer : Text → Action
  datagram : SocketAddr → Bytes → Action
  deliver : Bytes → Action

-- `t.elapsed()`
abbrev pub elapsed : Env → ℕ → ℕ
elapsed env t = env.now - t

-- The XOR of two salts, byte by byte.
unfoldable pub xor_salt : Bytes → Bytes → Bytes
xor_salt [] b = []
xor_salt (x ∷ xs) [] = []
xor_salt (x ∷ xs) (y ∷ ys) = bit_xor x y ∷ xor_salt xs ys

abbrev pub zero_salt : Bytes
zero_salt = replicate 12 0

abbrev pub salt_or_zero : Option Bytes → Bytes
salt_or_zero s = elim s [ none ↦ zero_salt | some salt ↦ salt ]

-- The order of byte arrays.
pub leq : Bytes → Bytes → Bool
leq [] ys = true
leq (x ∷ xs) [] = false
leq (x ∷ xs) (y ∷ ys) =
    let rest = leq xs ys in if ltb x y then true else if ltb y x then false else rest

unfoldable pub bump_tx : Env → ℕ → PeerSession → PeerSession
bump_tx env n s = if env.sends then record s { tx_bytes = (s.tx_bytes + n) % 2 ^ 64 } else s

-- The header of a relayed packet names routing keys, unless the peer's is not known or the peer
-- has been silent for too long.
unfoldable pub relay_frame : Outbox → Env → PeerSession → Bytes → Bytes
unfolding frame_relay frame_relay_rk
relay_frame o env s ct =
    elim (if ltb o.relay_recover_stale (elapsed env s.last_seen) then none else s.peer_relay_rk) [
      | none ↦ frame_relay s.public_key o.local_pub ct
      | some dest_rk ↦ frame_relay_rk dest_rk o.relay_rk ct
    ]

unfoldable pub relay_send : Outbox → Env → PeerSession → Bytes → PeerSession × List Action
unfolding relay_frame bump_tx
relay_send o env s ct =
    (bump_tx env (length ct) s, datagram o.relay_addr (relay_frame o env s ct) ∷ [])

-- No data came directly for `DIRECT_STALE_SECS`, or none ever.
abbrev pub direct_is_stale : Env → PeerSession → Bool
direct_is_stale env s = elim s.last_direct [
  | none ↦ true
  | some t ↦ leb direct_stale_ms (elapsed env t)
]

-- The `Transport::Direct` branch with an endpoint.
unfoldable pub send_direct :
    Outbox → Env → PeerSession → SocketAddr → Bytes → PeerSession × List Action
unfolding relay_send bump_tx
send_direct o env s ep ct =
    if direct_is_stale env s
    then relay_send o env (record s { transport = relay }) ct
    else (bump_tx env (length ct) s, datagram ep ct ∷ [])

unfoldable pub transport_send : Outbox → Env → PeerSession → Bytes → PeerSession × List Action
unfolding relay_send send_direct
transport_send o env s ct = elim s.transport [
  | punching ↦ relay_send o env s ct
  | relay ↦ relay_send o env s ct
  | direct ↦
      if not o.hole_punch
      then relay_send o env s ct
      else elim s.endpoint [ none ↦ relay_send o env s ct | some ep ↦ send_direct o env s ep ct ]
]

module _ (prim : Primitives) where
  -- The plaintext of a HELLO of this side, if it has a routing key and a salt.
  unfoldable pub hello_frame : Outbox → PeerSession → Option Bytes
  unfolding frame_tunnel_packet frame_hello_payload
  hello_frame o s = elim s.rk_pub [
    | none ↦ none
    | some rk_pub ↦ elim s.my_salt [
      | none ↦ none
      | some salt ↦
          some (
            frame_tunnel_packet tunnel_hello s.epoch 0 (frame_hello_payload rk_pub salt o.local_ip))
    ]
  ]

  unfoldable pub build_hello_ct : Outbox → Env → PeerSession → Option Bytes
  unfolding hello_frame encrypt current_key
  build_hello_ct o env s = elim (hello_frame o s) [
    | none ↦ none
    | some frame ↦ some (encrypt prim (current_key s) env.nonce frame)
  ]

  -- The session after this side changed its routing key, and the REKEY frame under the old key.
  unfoldable pub rotate : Outbox → Env → RawKey → PeerSession → PeerSession × Bytes
  unfolding generate_keypair derive_peer_key encrypt current_key frame_tunnel_packet
      frame_rekey_payload xor_salt
  rotate o env peer_rk s =
      let kp = generate_keypair prim env.secret in
      let final_salt = xor_salt env.salt (salt_or_zero s.peer_salt) in
      let new_key = derive_peer_key prim o.local_priv s.public_key kp.private peer_rk final_salt in
      let payload = frame_rekey_payload kp.public env.salt in
      let ct =
        encrypt prim (current_key s) env.nonce
          (frame_tunnel_packet tunnel_rekey s.epoch 0 payload) in
      (
        record s {
          rk_priv = some kp.private;
          rk_pub = some kp.public;
          my_salt = some env.salt;
          peer_key = some new_key;
          epoch = (s.epoch + 1) % 2 ^ 32;
          last_rekey = env.now;
        },
        ct,
      )

  -- Only the side with the greater public key changes keys, and only in an established session.
  unfoldable pub maybe_rekey : Outbox → Env → PeerSession → PeerSession × Option Bytes
  unfolding rotate leq
  maybe_rekey o env s =
      if not (established s) || leq o.local_pub s.public_key
      then (s, none)
      else elim s.peer_rk_pub [
        | none ↦ (s, none)
        | some peer_rk ↦ let (s', ct) = rotate o env peer_rk s in (s', some ct)
      ]

  unfoldable pub send_ack : Outbox → Env → ℕ → PeerSession → PeerSession × List Action
  unfolding transport_send encrypt current_key frame_tunnel_packet ack_payload
  send_ack o env ack s =
      if not (established s)
      then (s, [])
      else transport_send o env s (
          encrypt prim (current_key s) env.nonce
            (frame_tunnel_packet tunnel_ack s.epoch 0 (ack_payload ack)))
