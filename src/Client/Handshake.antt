-- ===== src/Client/Handshake.antt =====
-- `auth_handshake` of linkmesh-client/src/connection.rs: how the client gets a session with the
-- server.
pub mod Agreed
pub mod Pinned
use link_mesh.Base.{
  ℕ, Option, none, some, List, [], ◌∷◌, Bytes, Text, Bool, false, any, not, eqb, ltb, length, drop,
  if◌then◌else◌, ◌==◌, bytes_eq, Result, ok, err,
}
use link_mesh.Shared.Crypto.{
  Primitives, RawKey, CryptoError, generate_keypair, decrypt, derive_session_key_client,
}
use link_mesh.Shared.Protocol.{header_len, parse_header, msg_auth_resp, msg_response}
use link_mesh.Shared.Cert.{
  Signatures, CertError, DeviceCert, Crl, CrlEntry, parse_public_key, b64_to, is_revoked,
}
use link_mesh.Shared.Cert.Statements.{ServerInfo, verify_server_info}
use link_mesh.Shared.Bodies.{AuthBody, AuthRespBody, ResponseBody}
use link_mesh.Shared.Wire.Responses.{decode_response}

-- What the client keeps of a server: of the entry in its settings, and of the session.
pub record Account : Type 0 where
  pub token : Option Text
  pub device_cert : Option DeviceCert
  pub mesh_root_pub : Option Text
  pub crl_version : Option ℕ
  pub session_sk : Option RawKey
  pub session_pub : Option RawKey
  pub session_seq : ℕ
  pub local_ip : Text

pub data AuthFault : Type 0 where
  timed_out no_ip bad_ip other_root older_crl own_revoked : AuthFault
  refused : Option Text → AuthFault
  unreadable : CryptoError → AuthFault
  bad_ek_s bad_root bad_info : CertError → AuthFault

-- The request; `ek_c` is the public half of the fresh key.
unfoldable pub auth_body : Signatures → DeviceCert → Option Text → RawKey → ℕ → Bytes → AuthBody
auth_body sigs cert token ek_c timestamp nonce = record {
  device_id = cert.device_id;
  cert = cert;
  ek_c = sigs.encode ek_c;
  timestamp = timestamp;
  nonce = sigs.encode nonce;
  token = token;
}

-- What a refusal says, when it can be read.
abbrev pub refusal : Signatures → Result CryptoError Bytes → Option (Option Text)
refusal sigs (err e) = none
refusal sigs (ok plain) = elim (decode_response sigs plain) [
  | err e ↦ none
  | ok resp ↦ some resp.error
]

abbrev pub or_unreadable : Result CryptoError Bytes → Result AuthFault Bytes
or_unreadable (err e) = err (unreadable e)
or_unreadable (ok plain) = ok plain

-- The loop over what arrives until the deadline: whether it is from the server, and the packet.
unfoldable pub await_auth_resp :
    Signatures → Primitives → RawKey → List (Bool × Bytes) → Result AuthFault Bytes
unfolding parse_header decrypt decode_response
await_auth_resp sigs prim shared [] = err timed_out
await_auth_resp sigs prim shared ((from_server, packet) ∷ arrivals) =
    let rest = await_auth_resp sigs prim shared arrivals in
    let plain = decrypt prim shared (drop header_len packet) in
    if not from_server then rest else elim (parse_header packet) [
      | err e ↦ rest
      | ok hdr ↦
          if eqb hdr.msg_type msg_auth_resp
          then or_unreadable plain
          else if eqb hdr.msg_type msg_response
          then elim (refusal sigs plain) [ none ↦ rest | some e ↦ err (refused e) ]
          else rest
    ]

abbrev pub goes_back : Option ℕ → ℕ → Bool
goes_back none version = false
goes_back (some prev) version = ltb version prev

abbrev pub lists_own : Crl → Option DeviceCert → Bool
lists_own crl none = false
lists_own crl (some cert) = is_revoked crl cert.device_id

-- The checks of what the server tells of itself, under the root that the client holds.
unfoldable pub check_server_info :
    Signatures → AuthRespBody → Text → Account → Account × Result AuthFault (Unit {0})
unfolding b64_to verify_server_info is_revoked
check_server_info sigs resp root_b64 c = elim (b64_to sigs 32 root_b64) [
  | err e ↦ (c, err (bad_root e))
  | ok root_pub ↦ elim (verify_server_info sigs root_pub resp.server_info) [
    | err e ↦ (c, err (bad_info e))
    | ok u ↦
        let c' = record c { crl_version = some resp.server_info.crl_version } in
        if not (resp.server_info.mesh_root_pub == root_b64)
        then (c, err other_root)
        else if goes_back c.crl_version resp.server_info.crl_version
        then (c, err older_crl)
        else if lists_own resp.crl c.device_cert
        then (c', err own_revoked)
        else (c', ok tt)
  ]
]

abbrev pub check_pinned :
    Signatures → AuthRespBody → Option Text → Account → Account × Result AuthFault (Unit {0})
check_pinned sigs resp none c = (c, ok tt)
check_pinned sigs resp (some root_b64) c = check_server_info sigs resp root_b64 c

-- From the answer on. The session is kept before the checks; `is_ip` is the parser of addresses.
unfoldable pub finish_auth :
    Signatures
    → Primitives
    → (Text → Bool)
    → RawKey
    → RawKey
    → Bytes
    → Bytes
    → AuthRespBody
    → Account
    → Account × Result AuthFault (Unit {0})
unfolding parse_public_key generate_keypair derive_session_key_client check_server_info
finish_auth sigs prim is_ip local_priv server_pub ek_c nonce resp c =
    elim (parse_public_key sigs resp.ek_s) [
      | err e ↦ (c, err (bad_ek_s e))
      | ok ek_s ↦
          let kp = generate_keypair prim ek_c in
          let sk = derive_session_key_client prim kp.private local_priv server_pub ek_s nonce in
          let c1 = record c {
            session_sk = some sk;
            session_pub = some kp.public;
            session_seq = 0;
          } in
          if eqb (length resp.allocated_ip) 0
          then (c1, err no_ip)
          else if not (is_ip resp.allocated_ip)
          then (c1, err bad_ip)
          else check_pinned sigs resp c.mesh_root_pub (record c1 { local_ip = resp.allocated_ip })
    ]
