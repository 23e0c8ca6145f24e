-- ===== src/Client/Peer.antt =====
-- linkmesh-client/src/peer.rs: the state that the client keeps for one peer.
use link_mesh.Base.{ℕ, Option, none, some, Bytes, Text, Bool, false, is_some, [], List}
use link_mesh.Base.Maps.{Map}
use link_mesh.Shared.Crypto.{RawKey, Primitives, generate_keypair}
use link_mesh.Client.Tunnel.{IpAddr}

pub data Transport : Type 0 where
  punching direct relay : Transport

pub record SocketAddr : Type 0 where
  pub ip : IpAddr
  pub port : ℕ

-- A packet of the send window: when it was sent last, how often it was sent again, its payload.
abbrev pub Unacked : Type 0
Unacked = ℕ × ℕ × Bytes

-- An `Instant` is a number of milliseconds. `SessionKey` is its key: the erasure on drop is not
-- modelled.
pub record PeerSession : Type 0 where
  pub public_key : RawKey
  pub ip : Text
  pub endpoint : Option SocketAddr
  pub transport : Transport
  pub attempts : ℕ
  pub error_count : ℕ
  pub tx_bytes : ℕ
  pub rx_bytes : ℕ
  pub last_seen : ℕ
  pub handshake_key : RawKey
  pub peer_key : Option RawKey
  pub rk_priv : Option RawKey
  pub rk_pub : Option RawKey
  pub peer_rk_pub : Option RawKey
  pub peer_relay_rk : Option RawKey
  pub my_salt : Option Bytes
  pub peer_salt : Option Bytes
  pub epoch : ℕ
  pub send_seq : ℕ
  pub recv_seq : ℕ
  pub send_unacked : Map ℕ Unacked
  pub recv_buf : Map ℕ Bytes
  pub hello_sent : Bool
  pub pending : List Bytes
  pub sent_pkts : ℕ
  pub last_rekey : ℕ
  pub last_requery : Option ℕ
  pub last_direct : Option ℕ

-- `PeerSession::new`; the first argument is the time.
unfoldable pub new :
    ℕ → RawKey → Text → RawKey → Option SocketAddr → RawKey → RawKey → Bytes → PeerSession
new now public_key ip handshake_key endpoint rk_priv rk_pub my_salt = record {
  public_key = public_key;
  ip = ip;
  endpoint = endpoint;
  transport = punching;
  attempts = 0;
  error_count = 0;
  tx_bytes = 0;
  rx_bytes = 0;
  last_seen = now;
  handshake_key = handshake_key;
  peer_key = none;
  rk_priv = some rk_priv;
  rk_pub = some rk_pub;
  peer_rk_pub = none;
  peer_relay_rk = none;
  my_salt = some my_salt;
  peer_salt = none;
  epoch = 0;
  send_seq = 0;
  recv_seq = 0;
  send_unacked = [];
  recv_buf = [];
  hello_sent = false;
  pending = [];
  sent_pkts = 0;
  last_rekey = now;
  last_requery = none;
  last_direct = none;
}

-- The session key, or the static key of the handshake before there is one.
unfoldable pub current_key : PeerSession → RawKey
current_key s = elim s.peer_key [ none ↦ s.handshake_key | some k ↦ k ]

abbrev pub established : PeerSession → Bool
established s = is_some s.peer_key

-- A new routing key pair from a fresh secret.
unfoldable pub renew_rk : Primitives → RawKey → PeerSession → PeerSession × RawKey × RawKey
unfolding generate_keypair
renew_rk prim secret s =
    let kp = generate_keypair prim secret in
    (record s { rk_priv = some kp.private; rk_pub = some kp.public }, kp.private, kp.public)

-- The routing key pair of this side, made from the fresh secret if there is none.
unfoldable pub ensure_rk : Primitives → RawKey → PeerSession → PeerSession × RawKey × RawKey
unfolding renew_rk
ensure_rk prim secret s = elim s.rk_priv [
  | none ↦ renew_rk prim secret s
  | some rk_priv ↦ elim s.rk_pub [
    | none ↦ renew_rk prim secret s
    | some rk_pub ↦ (s, rk_priv, rk_pub)
  ]
]
