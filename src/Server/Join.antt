-- ===== src/Server/Join.antt =====
-- `handle_join` and `build_server_info` of linkmesh-server/src/signaling.rs: how a device enters the
-- mesh.
pub mod Outcome
pub mod Accepted
pub mod Refused
use link_mesh.Base.{
  ℕ, ◌≡◌, Option, none, some, [], ◌∷◌, List, Bytes, Text, Bool, true, false, not, if◌then◌else◌,
  ◌==◌, bytes_eq, Result, ok, err, ◌>>=◌, ◌>>◌, guard,
}
use link_mesh.Base.Maps.{Map}
use link_mesh.Shared.Crypto.{RawKey}
use link_mesh.Shared.Cert.{Signatures, CertError, DeviceCert, parse_public_key, b64_to}
use link_mesh.Shared.Cert.Statements.{ServerInfo, sign_server_info}
use link_mesh.Shared.Identity.{device_id_b64}
use link_mesh.Shared.Bodies.{JoinBody, JoinData}
use link_mesh.Server.Library.{Library}
use link_mesh.Server.Rooms.{RoomEntry, RoomError, resolve_room, normalize_self_alias}
use link_mesh.Server.Guards.{rate_limited}
use link_mesh.Server.Mesh.{
  MeshConfig, MeshError, HashCode, peek_invite, consume_invite, allocate_ip, issue_cert,
  set_member_alias,
}

-- What stays the same while the server runs. `sha256` is the crate sha2; `hash_token` and
-- `hash_code` are built on it. The public half of the root's keys is kept beside the seed.
pub record Server : Type 0 where
  pub sigs : Signatures
  pub lib : Library
  pub sha256 : Bytes → Bytes
  pub hash_token : Text → Text
  pub hash_code : HashCode
  pub server_pub : RawKey
  pub server_priv : RawKey
  pub server_ik_s_pub : Text
  pub server_name : Text
  pub root_pub : Bytes
  pub join_limit : ℕ
  pub route_ttl_sec : ℕ

abbrev pub protocol_ver : ℕ
protocol_ver = 2

unfoldable pub build_server_info : Server → MeshConfig → ServerInfo
unfolding sign_server_info
build_server_info sv m = sign_server_info sv.sigs m.root_seed (record {
  mesh_id = m.mesh_id;
  server_name = sv.server_name;
  mesh_root_pub = sv.sigs.encode sv.root_pub;
  server_ik_x = sv.sigs.encode sv.server_pub;
  server_ik_s_pub = sv.server_ik_s_pub;
  protocol_ver = protocol_ver;
  crl_version = m.crl.version;
  auth_required = true;
  signature = none;
})

pub data JoinError : Type 0 where
  wrong_sender wrong_identity : JoinError
  room_refused : RoomError → JoinError
  invite_refused : MeshError → JoinError
  key_refused : CertError → JoinError
  no_address : MeshError → JoinError
  no_cert : MeshError → JoinError
  alias_refused : RoomError → JoinError

pub data JoinReply : Type 0 where
  silent : JoinReply
  join_refused : JoinError → JoinReply
  join_accepted : JoinData → JoinReply

abbrev pub or_join {ℓ} : {E A : Type ℓ} → (E → JoinError) → Result E A → Result JoinError A
or_join f (ok a) = ok a
or_join f (err e) = err (f e)

-- `bound_ip.or(jb.requested_ip.clone())`
abbrev pub preferred_ip : Option Text → Option Text → Option Text
preferred_ip none requested = requested
preferred_ip (some ip) requested = some ip

-- The checks up to the address: nothing is changed by them.
unfoldable pub check_join :
    Server → List RoomEntry → MeshConfig → ℕ → JoinBody → Result JoinError Text
unfolding resolve_room peek_invite parse_public_key b64_to allocate_ip
check_join sv rooms m now jb = do
  room ← or_join room_refused (resolve_room sv.lib sv.hash_token rooms jb.token)
  bound_ip ← or_join invite_refused (peek_invite sv.hash_code jb.code now m)
  ik_x ← or_join key_refused (parse_public_key sv.sigs jb.ik_x)
  ik_s_pub ← or_join key_refused (b64_to sv.sigs 32 jb.ik_s_pub)
  guard (jb.device_id == device_id_b64 sv.sha256 sv.sigs.encode ik_x ik_s_pub) wrong_identity
  or_join no_address (allocate_ip sv.sigs.trim (preferred_ip bound_ip jb.requested_ip) m)

-- `if let Some(a) = &alias { mesh.set_member_alias(...) }`
abbrev pub note_alias : Text → Option Text → MeshConfig → MeshConfig
note_alias device_id none m = m
note_alias device_id (some a) m = set_member_alias device_id a m

-- A failure to consume the code is only logged.
abbrev pub spend_code : HashCode → Text → ℕ → MeshConfig → MeshConfig
spend_code hash_code code now m = elim (consume_invite hash_code code now m) [
  | err e ↦ m
  | ok (ip, m') ↦ m'
]

-- From the certificate on: the member is registered before its alias is looked at.
unfoldable pub enrol : Server → ℕ → JoinBody → Text → MeshConfig → MeshConfig × JoinReply
unfolding issue_cert normalize_self_alias set_member_alias consume_invite build_server_info
enrol sv now jb ip m = elim (issue_cert sv.sigs jb.ik_x jb.ik_s_pub ip jb.device_id now m) [
  | err e ↦ (m, join_refused (no_cert e))
  | ok (cert, m1) ↦ elim (normalize_self_alias sv.lib jb.alias) [
    | err e ↦ (m1, join_refused (alias_refused e))
    | ok alias ↦
        let m2 = note_alias cert.device_id alias m1 in
        let m3 = spend_code sv.hash_code jb.code now m2 in
        (
          m3,
          join_accepted (record {
            device_id = cert.device_id;
            allocated_ip = ip;
            cert = cert;
            server_info = build_server_info sv m3;
            crl = m3.crl;
          }),
        )
  ]
]

unfoldable pub join_mesh :
    Server → List RoomEntry → ℕ → JoinBody → MeshConfig → MeshConfig × JoinReply
unfolding check_join enrol
join_mesh sv rooms now jb m = elim (check_join sv rooms m now jb) [
  | err e ↦ (m, join_refused e)
  | ok ip ↦ enrol sv now jb ip m
]

-- `octets` are those of the source address.
unfoldable pub handle_join :
    Server
    → List RoomEntry
    → ℕ
    → Bytes
    → RawKey
    → JoinBody
    → Map Bytes (ℕ × ℕ)
    → MeshConfig
    → Map Bytes (ℕ × ℕ) × MeshConfig × JoinReply
unfolding rate_limited join_mesh
handle_join sv rooms now octets sender jb limits m =
    if not (sv.sigs.encode sender == jb.ik_x)
    then (limits, m, join_refused wrong_sender)
    else (let (limits', limited) = rate_limited sv.join_limit now limits octets in
        let (m', reply) = join_mesh sv rooms now jb m in
        if limited then (limits', m, silent) else (limits', m', reply))
