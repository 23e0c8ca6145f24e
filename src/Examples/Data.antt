-- ===== src/Examples/Data.antt =====
-- Concrete stand-ins for the crates that linkmesh-shared/src/crypto.rs, cert.rs and the server
-- use, and small sessions and tables.
use link_mesh.Base.{
  ℕ, ◌+◌, ◌%◌, ◌≡◌, refl, ap, Option, none, some, [], ◌∷◌, Bytes, true, false, length, replicate,
  eqb, arith, if◌then◌else◌, ◌==◌, bytes_eq, eq_refl,
}
use link_mesh.Shared.Crypto.{Primitives}
use link_mesh.Shared.Cert.{Signatures}
use link_mesh.Client.Tunnel.{v4}
use link_mesh.Client.Peer.{PeerSession, SocketAddr, new}
use link_mesh.Client.Outbox.{Outbox, Env}
use link_mesh.Client.Link.{Link}
use link_mesh.Server.Library.{Library}
use link_mesh.Server.Routes.{RouteEntry}
use link_mesh.Server.Sessions.{SessionEntry}
use link_mesh.Server.Mesh.{MeshConfig, InviteEntry}

abbrev pub open_toy : Bytes → Bytes → Option Bytes
open_toy key [] = none
open_toy key (tag ∷ text) = if eqb tag (length key) then some text else none

pub open_toy-seal : (key text : Bytes) → open_toy key (length key ∷ text) ≡ some text
open_toy-seal key text = ground arith

-- Not a cipher: the tag is the length of the key.
abbrev pub toy : Primitives
toy = record {
  public_of = λ secret. secret;
  diffie_hellman = λ a b. replicate 32 ((length a + length b) % 256);
  hkdf = λ salt key info. replicate 32 (length key % 256);
  seal = λ key nonce text. length key ∷ text;
  unseal = λ key nonce ct. open_toy key ct;
  diffie_hellman_comm = λ a b. ap (λ n. replicate 32 (n % 256)) (omega arith);
  unseal-seal = λ key nonce text. open_toy-seal key text;
}

-- Not a signature: the length of the text.
pub length-toy : (n : ℕ) → length (replicate 64 n) ≡ 64
length-toy n = refl

abbrev pub toy_sigs : Signatures
toy_sigs = record {
  public_of = λ seed. seed;
  sign = λ seed m. replicate 64 (length m % 256);
  verify = λ public m sig. sig == replicate 64 (length m % 256);
  length-sign = λ seed m. length-toy (length m % 256);
  verify-sign = λ seed m. eq_refl (replicate 64 (length m % 256));
  encode = λ b. b;
  decode = λ t. some t;
  trim = λ t. t;
  decode-trim-encode = λ b. refl;
}

abbrev pub toy_library : Library
toy_library = record {
  encode = λ b. b;
  decode = λ t. some t;
  decode-encode = λ b. refl;
  parse_addr = λ t. some (record { ip = v4 t; port = 4000 });
  show_addr = λ a. [];
  trim = λ t. t;
  to_lowercase = λ t. t;
}

abbrev pub key_a : Bytes
key_a = replicate 32 1

abbrev pub key_b : Bytes
key_b = replicate 32 2

abbrev pub server_addr : SocketAddr
server_addr = record { ip = v4 (192 ∷ 0 ∷ 2 ∷ 1 ∷ []); port = 7000 }

abbrev pub outbox : Outbox
outbox = record {
  local_ip = 49 ∷ [];
  local_pub = key_a;
  local_priv = key_a;
  hole_punch = true;
  relay_rk = key_b;
  relay_addr = server_addr;
  rekey_every_pkts = 0;
  relay_recover_stale = 2;
}

abbrev pub env : Env
env = record {
  now = 1000;
  sends = true;
  secret = key_b;
  salt = replicate 12 3;
  nonce = replicate 12 4;
}

-- A session that was just established.
abbrev pub session : PeerSession
session = record (new 0 key_b (50 ∷ []) key_a none key_a key_a (replicate 12 5)) {
  peer_key = some key_b;
}

abbrev pub fresh_link : Link
fresh_link = record { tx = session; rx = session; log = []; out = []; wire = []; acks = [] }

abbrev pub entry : RouteEntry
entry = record {
  public_key = key_a;
  ip = 49 ∷ [];
  endpoint = 1 ∷ 2 ∷ 3 ∷ 4 ∷ [];
  last_seen = 5;
  relay_rk = some (9 ∷ []);
  room = 7 ∷ [];
  alias = none;
}

abbrev pub other_entry : RouteEntry
other_entry = record entry { public_key = key_b; ip = 50 ∷ []; relay_rk = some (8 ∷ []) }

abbrev pub server_session : SessionEntry
server_session = record {
  session_pub = key_b;
  device_id = 100 ∷ [];
  ik_x = key_a;
  ip = 49 ∷ [];
  sk = key_b;
  counter_rx = 0;
  last_seen = 5;
  room = 7 ∷ [];
}

abbrev pub invite : InviteEntry
invite = record { code_hash = 1 ∷ []; expires_at = 100; used = false; ip = some (51 ∷ []) }

abbrev pub mesh : MeshConfig
mesh = record {
  mesh_id = 109 ∷ [];
  root_seed = key_a;
  crl = record { mesh_id = 109 ∷ []; version = 0; entries = []; signature = none };
  members = [];
  invites = invite ∷ [];
  ip_pool = (51 ∷ []) ∷ (52 ∷ []) ∷ [];
}
