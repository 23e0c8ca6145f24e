-- ===== src/Shared/Wire/Certs.antt =====
-- Certificates, the information of the server and revocation lists in the structures of
-- linkmesh-shared/src/wire.rs: `from_domain` and `to_domain`.
pub mod Carried
pub mod Strict
use link_mesh.Base.{
  ℕ, zero, suc, ◌+◌, ◌-◌, ◌%◌, ◌^◌, ◌≡◌, refl, Option, none, some, List, [], ◌∷◌, ◌++◌, Bytes, Text,
  Bool, true, false, length, take, replicate, ltb, eqb, not, if◌then◌else◌, Result, ok, err, ◌>>=◌,
  ◌>>◌, guard, ok_or,
}
use link_mesh.Shared.Cert.{
  Signatures, DeviceCert, RevokeReason, compromised, leaked, rotated, admin, discontinued, CrlEntry,
  Crl,
}
use link_mesh.Shared.Cert.Statements.{ServerInfo}
use link_mesh.Shared.Wire.Layouts.{Layout, bytes, byte, word, ◌▹◌, struct, array}
use link_mesh.Shared.Wire.{
  WireError, bad_reason, too_many_entries, ip_len, name_len, max_crl_entries, set, to_str,
  b64_bytes, put_opt_key, get_opt_key,
}

pub record WireDeviceCert : Type 0 where
  pub mesh_id : Bytes
  pub version : ℕ
  pub device_id : Bytes
  pub ik_x : Bytes
  pub ik_s_pub : Bytes
  pub allowed_ip : Bytes
  pub valid_from : ℕ
  pub not_after : ℕ
  pub has_signature : ℕ
  pub signature : Bytes

abbrev pub device_cert_layout : Layout WireDeviceCert
device_cert_layout =
    struct
      (λ w. (
        w.mesh_id,
        (
          w.version,
          (
            w.device_id,
            (
              w.ik_x,
              (
                w.ik_s_pub,
                (w.allowed_ip, (w.valid_from, (w.not_after, (w.has_signature, w.signature)))),
              ),
            ),
          ),
        ),
      ))
      (λ (a, (b, (c, (d, (e, (f, (g, (h, (i, j))))))))). record {
        mesh_id = a;
        version = b;
        device_id = c;
        ik_x = d;
        ik_s_pub = e;
        allowed_ip = f;
        valid_from = g;
        not_after = h;
        has_signature = i;
        signature = j;
      })
      (λ w. refl) (λ t. refl)
      (bytes name_len
        ▹ word 4
        ▹ bytes 32
        ▹ bytes 32
        ▹ bytes 32
        ▹ bytes ip_len
        ▹ word 8
        ▹ word 8
        ▹ byte
        ▹ bytes 64)

unfoldable pub cert_from_domain : Signatures → DeviceCert → Result WireError WireDeviceCert
unfolding set b64_bytes put_opt_key
cert_from_domain sigs c = do
  mesh_id ← set name_len c.mesh_id
  device_id ← b64_bytes sigs 32 c.device_id
  ik_x ← b64_bytes sigs 32 c.ik_x
  ik_s_pub ← b64_bytes sigs 32 c.ik_s_pub
  allowed_ip ← set ip_len c.allowed_ip
  sig ← put_opt_key sigs 64 c.signature
  ok (record {
    mesh_id = mesh_id;
    version = c.version;
    device_id = device_id;
    ik_x = ik_x;
    ik_s_pub = ik_s_pub;
    allowed_ip = allowed_ip;
    valid_from = c.valid_from;
    not_after = c.not_after;
    has_signature = sig.0;
    signature = sig.1;
  })

unfoldable pub cert_to_domain : Signatures → WireDeviceCert → Result WireError DeviceCert
unfolding to_str
cert_to_domain sigs w = do
  mesh_id ← to_str w.mesh_id
  allowed_ip ← to_str w.allowed_ip
  ok (record {
    mesh_id = mesh_id;
    version = w.version;
    device_id = sigs.encode w.device_id;
    ik_x = sigs.encode w.ik_x;
    ik_s_pub = sigs.encode w.ik_s_pub;
    allowed_ip = allowed_ip;
    valid_from = w.valid_from;
    not_after = w.not_after;
    signature = get_opt_key sigs w.has_signature w.signature;
  })

pub record WireServerInfo : Type 0 where
  pub mesh_id : Bytes
  pub server_name : Bytes
  pub mesh_root_pub : Bytes
  pub server_ik_x : Bytes
  pub server_ik_s_pub : Bytes
  pub protocol_ver : ℕ
  pub crl_version : ℕ
  pub auth_required : ℕ
  pub has_signature : ℕ
  pub signature : Bytes

abbrev pub server_info_layout : Layout WireServerInfo
server_info_layout =
    struct
      (λ w. (
        w.mesh_id,
        (
          w.server_name,
          (
            w.mesh_root_pub,
            (
              w.server_ik_x,
              (
                w.server_ik_s_pub,
                (
                  w.protocol_ver,
                  (w.crl_version, (w.auth_required, (w.has_signature, w.signature))),
                ),
              ),
            ),
          ),
        ),
      ))
      (λ (a, (b, (c, (d, (e, (f, (g, (h, (i, j))))))))). record {
        mesh_id = a;
        server_name = b;
        mesh_root_pub = c;
        server_ik_x = d;
        server_ik_s_pub = e;
        protocol_ver = f;
        crl_version = g;
        auth_required = h;
        has_signature = i;
        signature = j;
      })
      (λ w. refl) (λ t. refl)
      (bytes name_len
        ▹ bytes name_len
        ▹ bytes 32
        ▹ bytes 32
        ▹ bytes 32
        ▹ word 4
        ▹ word 8
        ▹ byte
        ▹ byte
        ▹ bytes 64)

-- `b as u8`
abbrev pub bool_byte : Bool → ℕ
bool_byte false = 0
bool_byte true = 1

unfoldable pub info_from_domain : Signatures → ServerInfo → Result WireError WireServerInfo
unfolding set b64_bytes put_opt_key
info_from_domain sigs s = do
  mesh_id ← set name_len s.mesh_id
  server_name ← set name_len s.server_name
  mesh_root_pub ← b64_bytes sigs 32 s.mesh_root_pub
  server_ik_x ← b64_bytes sigs 32 s.server_ik_x
  server_ik_s_pub ← b64_bytes sigs 32 s.server_ik_s_pub
  sig ← put_opt_key sigs 64 s.signature
  ok (record {
    mesh_id = mesh_id;
    server_name = server_name;
    mesh_root_pub = mesh_root_pub;
    server_ik_x = server_ik_x;
    server_ik_s_pub = server_ik_s_pub;
    protocol_ver = s.protocol_ver;
    crl_version = s.crl_version;
    auth_required = bool_byte s.auth_required;
    has_signature = sig.0;
    signature = sig.1;
  })

unfoldable pub info_to_domain : Signatures → WireServerInfo → Result WireError ServerInfo
unfolding to_str
info_to_domain sigs w = do
  mesh_id ← to_str w.mesh_id
  server_name ← to_str w.server_name
  ok (record {
    mesh_id = mesh_id;
    server_name = server_name;
    mesh_root_pub = sigs.encode w.mesh_root_pub;
    server_ik_x = sigs.encode w.server_ik_x;
    server_ik_s_pub = sigs.encode w.server_ik_s_pub;
    protocol_ver = w.protocol_ver;
    crl_version = w.crl_version;
    auth_required = not (eqb w.auth_required 0);
    signature = get_opt_key sigs w.has_signature w.signature;
  })

pub record WireCrlEntry : Type 0 where
  pub device_id : Bytes
  pub reason : ℕ
  pub revoked_at : ℕ
  pub has_replacement : ℕ
  pub replacement : Bytes

abbrev pub crl_entry_layout : Layout WireCrlEntry
crl_entry_layout =
    struct (λ w. (w.device_id, (w.reason, (w.revoked_at, (w.has_replacement, w.replacement)))))
      (λ (a, (b, (c, (d, e)))). record {
        device_id = a;
        reason = b;
        revoked_at = c;
        has_replacement = d;
        replacement = e;
      })
      (λ w. refl) (λ t. refl) (bytes 32 ▹ byte ▹ word 8 ▹ byte ▹ bytes 32)

-- `RevokeReason::to_u8`, `from_u8`
abbrev pub reason_to_u8 : RevokeReason → ℕ
reason_to_u8 compromised = 0
reason_to_u8 leaked = 1
reason_to_u8 rotated = 2
reason_to_u8 admin = 3
reason_to_u8 discontinued = 4

abbrev pub reason_from_u8 : ℕ → Option RevokeReason
reason_from_u8 v =
    if eqb v 0
    then some compromised
    else if eqb v 1
    then some leaked
    else if eqb v 2
    then some rotated
    else if eqb v 3
    then some admin
    else if eqb v 4
    then some discontinued
    else none

unfoldable pub entry_from_domain : Signatures → CrlEntry → Result WireError WireCrlEntry
unfolding b64_bytes put_opt_key
entry_from_domain sigs e = do
  device_id ← b64_bytes sigs 32 e.device_id
  new ← put_opt_key sigs 32 e.replacement
  ok (record {
    device_id = device_id;
    reason = reason_to_u8 e.reason;
    revoked_at = e.revoked_at;
    has_replacement = new.0;
    replacement = new.1;
  })

unfoldable pub entry_to_domain : Signatures → WireCrlEntry → Result WireError CrlEntry
entry_to_domain sigs w = do
  reason ← ok_or (reason_from_u8 w.reason) bad_reason
  ok (record {
    device_id = sigs.encode w.device_id;
    reason = reason;
    revoked_at = w.revoked_at;
    replacement = get_opt_key sigs w.has_replacement w.replacement;
  })

pub record WireCrl : Type 0 where
  pub mesh_id : Bytes
  pub version : ℕ
  pub count : ℕ
  pub entries : List WireCrlEntry
  pub has_signature : ℕ
  pub signature : Bytes

abbrev pub crl_layout : Layout WireCrl
crl_layout =
    struct (λ w. (w.mesh_id, (w.version, (w.count, (w.entries, (w.has_signature, w.signature))))))
      (λ (a, (b, (c, (d, (e, f))))). record {
        mesh_id = a;
        version = b;
        count = c;
        entries = d;
        has_signature = e;
        signature = f;
      })
      (λ w. refl) (λ t. refl)
      (bytes name_len ▹ word 8 ▹ word 2 ▹ array max_crl_entries crl_entry_layout ▹ byte ▹ bytes 64)

abbrev pub blank_entry : WireCrlEntry
blank_entry = record {
  device_id = replicate 32 0;
  reason = 0;
  revoked_at = 0;
  has_replacement = 0;
  replacement = replicate 32 0;
}

-- The loops over the entries.
unfoldable pub entries_from_domain :
    Signatures → List CrlEntry → Result WireError (List WireCrlEntry)
unfolding entry_from_domain
entries_from_domain sigs [] = ok []
entries_from_domain sigs (e ∷ es) = do
  w ← entry_from_domain sigs e
  ws ← entries_from_domain sigs es
  ok (w ∷ ws)

unfoldable pub entries_to_domain : Signatures → List WireCrlEntry → Result WireError (List CrlEntry)
unfolding entry_to_domain
entries_to_domain sigs [] = ok []
entries_to_domain sigs (w ∷ ws) = do
  e ← entry_to_domain sigs w
  es ← entries_to_domain sigs ws
  ok (e ∷ es)

unfoldable pub crl_from_domain : Signatures → Crl → Result WireError WireCrl
unfolding set put_opt_key entries_from_domain
crl_from_domain sigs c = do
  guard (not (ltb max_crl_entries (length c.entries))) too_many_entries
  mesh_id ← set name_len c.mesh_id
  entries ← entries_from_domain sigs c.entries
  sig ← put_opt_key sigs 64 c.signature
  ok (record {
    mesh_id = mesh_id;
    version = c.version;
    count = length c.entries % 2 ^ 16;
    entries = entries ++ replicate (max_crl_entries - length entries) blank_entry;
    has_signature = sig.0;
    signature = sig.1;
  })

unfoldable pub crl_to_domain : Signatures → WireCrl → Result WireError Crl
unfolding to_str entries_to_domain
crl_to_domain sigs w = do
  guard (not (ltb max_crl_entries w.count)) too_many_entries
  entries ← entries_to_domain sigs (take w.count w.entries)
  mesh_id ← to_str w.mesh_id
  ok (record {
    mesh_id = mesh_id;
    version = w.version;
    entries = entries;
    signature = get_opt_key sigs w.has_signature w.signature;
  })
