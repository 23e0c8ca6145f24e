-- ===== src/Server/Auth.antt =====
-- `handle_auth` of linkmesh-server/src/signaling.rs: which devices get a session.
pub mod Clock
pub mod Admission
pub mod Nonces
pub mod Replay
use link_mesh.Base.{
  ℕ, ◌+◌, ◌-◌, ◌%◌, ◌^◌, Option, none, some, List, [], ◌∷◌, Bytes, Text, Bool, true, false, ltb,
  eqb, not, ◌&&◌, if◌then◌else◌, ◌==◌, bytes_eq, Result, ok, err, ◌>>=◌, ◌>>◌, guard,
}
use link_mesh.Base.Maps.{Map}
use link_mesh.Shared.Crypto.{Primitives, RawKey, generate_keypair, derive_session_key_server}
use link_mesh.Shared.Cert.{
  Signatures, CertError, DeviceCert, verify_cert, matches_keys, b64_to, parse_public_key,
  is_revoked,
}
use link_mesh.Shared.Bodies.{AuthBody}
use link_mesh.Server.Library.{Library}
use link_mesh.Server.Rooms.{RoomEntry, RoomError, resolve_room}
use link_mesh.Server.Mesh.{MeshConfig}
use link_mesh.Server.Guards.{replay_check, rate_limited}
use link_mesh.Server.Sessions.{SessionEntry, SessionState, admit_session}

pub data AuthError : Type 0 where
  no_room : RoomError → AuthError
  cert_refused : CertError → AuthError
  wrong_device device_revoked bad_time replayed : AuthError

abbrev pub from_room : {A : Type 0} → Result RoomError A → Result AuthError A
from_room (ok a) = ok a
from_room (err e) = err (no_room e)

abbrev pub from_cert : {A : Type 0} → Result CertError A → Result AuthError A
from_cert (ok a) = ok a
from_cert (err e) = err (cert_refused e)

-- `(ts as i64 - now as i64).abs() > 30` in a release build, where the difference wraps and the
-- absolute value of the least number is itself. `d` is the difference as a `u64`.
unfoldable pub too_far : ℕ → ℕ → Bool
too_far timestamp now =
    let d = (timestamp + (2 ^ 64 - now)) % 2 ^ 64 in
    if ltb d (2 ^ 63) then ltb 30 d else ltb 30 (2 ^ 64 - d) && not (eqb d (2 ^ 63))

-- The checks before the cache of nonces: the room, and the nonce as bytes.
unfoldable pub authorize :
    Signatures
    → Library
    → (Text → Text)
    → Bytes
    → List RoomEntry
    → MeshConfig
    → ℕ
    → RawKey
    → AuthBody
    → Result AuthError (Text × Bytes)
unfolding resolve_room verify_cert b64_to matches_keys is_revoked too_far
authorize sigs lib hash_token root_pub rooms m now sender ab = do
  room ← from_room (resolve_room lib hash_token rooms ab.token)
  verified ← from_cert (verify_cert sigs root_pub now ab.cert)
  cert_ik_s_pub ← from_cert (b64_to sigs 32 ab.cert.ik_s_pub)
  matched ← from_cert (matches_keys sigs sender cert_ik_s_pub ab.cert)
  guard (ab.device_id == ab.cert.device_id) wrong_device
  guard (not (is_revoked m.crl ab.device_id)) device_revoked
  guard (not (too_far ab.timestamp now)) bad_time
  nonce ← from_cert (b64_to sigs 12 ab.nonce)
  ok (room, nonce)

-- The session of an authorised device, with the server's fresh key `ek_s` and static key.
unfoldable pub new_session :
    Primitives → RawKey → Bytes → ℕ → RawKey → AuthBody → RawKey → Text × Bytes → SessionEntry
unfolding generate_keypair derive_session_key_server
new_session prim server_priv ek_s now sender ab ek_c (room, nonce) = record {
  session_pub = ek_c;
  device_id = ab.device_id;
  ik_x = sender;
  ip = ab.cert.allowed_ip;
  sk =
      derive_session_key_server prim (generate_keypair prim ek_s).private server_priv ek_c sender
        nonce;
  counter_rx = 0;
  last_seen = now;
  room = room;
}

pub record AuthState : Type 0 where
  pub rate_limits : Map Bytes (ℕ × ℕ)
  pub replay : Map RawKey (List Bytes)
  pub session_state : SessionState

pub data AuthReply : Type 0 where
  limited : AuthReply
  rejected : AuthError → AuthReply
  admitted : SessionEntry → AuthReply

-- From the cache of nonces on.
unfoldable pub admit_authorized :
    Signatures
    → Primitives
    → RawKey
    → Bytes
    → ℕ
    → RawKey
    → AuthBody
    → Text × Bytes
    → AuthState
    → AuthState × AuthReply
unfolding replay_check parse_public_key new_session admit_session
admit_authorized sigs prim server_priv ek_s now sender ab (room, nonce) st =
    let (replay', is_new) = replay_check st.replay sender nonce in
    let st' = record st { replay = replay' } in
    if not is_new then (st', rejected replayed) else elim (parse_public_key sigs ab.ek_c) [
      | err e ↦ (st', rejected (cert_refused e))
      | ok ek_c ↦
          let s = new_session prim server_priv ek_s now sender ab ek_c (room, nonce) in
          (record st' { session_state = admit_session s st'.session_state }, admitted s)
    ]

-- `join_limit` is the setting; `ip` are the octets of the source.
unfoldable pub handle_auth :
    Signatures
    → Primitives
    → Library
    → (Text → Text)
    → ℕ
    → RawKey
    → Bytes
    → Bytes
    → List RoomEntry
    → MeshConfig
    → ℕ
    → Bytes
    → RawKey
    → AuthBody
    → AuthState
    → AuthState × AuthReply
unfolding rate_limited authorize admit_authorized
handle_auth sigs prim lib hash_token join_limit server_priv ek_s root_pub rooms m now ip sender ab
      st =
    let (rate_limits', is_limited) = rate_limited join_limit now st.rate_limits ip in
    let st' = record st { rate_limits = rate_limits' } in
    if is_limited
    then (st', limited)
    else elim (authorize sigs lib hash_token root_pub rooms m now sender ab) [
      | err e ↦ (st', rejected e)
      | ok r ↦ admit_authorized sigs prim server_priv ek_s now sender ab r st'
    ]
