-- ===== src/Server/Mesh.antt =====
-- linkmesh-server/src/mesh.rs: invites, virtual addresses, certificates and revocation.
pub mod Invites
pub mod Addresses
pub mod Members
pub mod Published
pub mod Integrity
use link_mesh.Base.{
  ℕ, ◌+◌, ◌*◌, ◌%◌, ◌^◌, Option, none, some, List, [], ◌∷◌, ◌++◌, Bytes, Text, Bool, true, false,
  length, ltb, leb, eqb, any, find, retain, map, not, ◌&&◌, ◌||◌, if◌then◌else◌, ◌==◌, bytes_eq,
  Result, ok, err, ◌>>=◌, ◌>>◌, guard, ok_or,
}
use link_mesh.Shared.Cert.{
  Signatures, DeviceCert, CertError, sign_cert, parse_public_key, b64_to, Crl, CrlEntry,
  RevokeReason, is_revoked,
}
use link_mesh.Shared.Cert.Statements.{sign_crl}

pub record MemberEntry : Type 0 where
  pub device_id : Text
  pub cert : DeviceCert
  pub joined_at : ℕ
  pub alias : Option Text

pub record InviteEntry : Type 0 where
  pub code_hash : Text
  pub expires_at : ℕ
  pub used : Bool
  pub ip : Option Text

-- The public half of the root's key pair is not kept here.
pub record MeshConfig : Type 0 where
  pub mesh_id : Text
  pub root_seed : Bytes
  pub crl : Crl
  pub members : List MemberEntry
  pub invites : List InviteEntry
  pub ip_pool : List Text

pub data MeshError : Type 0 where
  no_such_code code_used code_expired pool_exhausted already_member revoked_device already_revoked
        crl_full :
      MeshError
  bad_key : CertError → MeshError

-- `hash_code`, the SHA-256 of the normalised code, is a function of the crate sha2.
abbrev pub HashCode : Type 0
HashCode = Text → Text

abbrev pub has_hash : Text → InviteEntry → Bool
has_hash hash e = e.code_hash == hash

unfoldable pub create_invite : HashCode → Text → Option Text → ℕ → ℕ → MeshConfig → MeshConfig
create_invite hash_code code ip ttl_secs now m = record m {
  invites =
      retain (λ e. ltb now e.expires_at && not e.used) m.invites
      ++ record {
        code_hash = hash_code code;
        expires_at = (now + (if ltb ttl_secs 1 then 1 else ttl_secs)) % 2 ^ 64;
        used = false;
        ip = ip;
      }
        ∷ [];
}

-- The checks that `peek_invite` and `consume_invite` share.
unfoldable pub check_invite : ℕ → Option InviteEntry → Result MeshError InviteEntry
check_invite now o = do
  entry ← ok_or o no_such_code
  guard (not entry.used) code_used
  guard (not (ltb entry.expires_at now)) code_expired
  ok entry

unfoldable pub peek_invite : HashCode → Text → ℕ → MeshConfig → Result MeshError (Option Text)
unfolding check_invite
peek_invite hash_code code now m = do
  entry ← check_invite now (find (has_hash (hash_code code)) m.invites)
  ok entry.ip

-- `self.invites[idx].used = true`, at the first entry with the hash.
unfoldable pub mark_used : Text → List InviteEntry → List InviteEntry
mark_used hash [] = []
mark_used hash (e ∷ invites) =
    let rest = mark_used hash invites in
    if has_hash hash e then record e { used = true } ∷ invites else e ∷ rest

unfoldable pub consume_invite :
    HashCode → Text → ℕ → MeshConfig → Result MeshError (Option Text × MeshConfig)
unfolding check_invite mark_used
consume_invite hash_code code now m = do
  let hash = hash_code code
  entry ← check_invite now (find (has_hash hash) m.invites)
  ok (
    entry.ip,
    record m { invites = retain (λ e. ltb now e.expires_at) (mark_used hash m.invites) },
  )

-- The addresses that are taken: those of the members, and those that open invites hold.
abbrev pub invite_holds : Text → InviteEntry → Bool
invite_holds ip e = not e.used && elim e.ip [ none ↦ false | some x ↦ x == ip ]

unfoldable pub is_used : MeshConfig → Text → Bool
is_used m ip = any (λ e. e.cert.allowed_ip == ip) m.members || any (invite_holds ip) m.invites

abbrev pub is_empty_text : Text → Bool
is_empty_text t = eqb (length t) 0

-- The address that was asked for, in the pool or outside of it, or the first free one.
unfoldable pub allocate_ip : (Text → Text) → Option Text → MeshConfig → Result MeshError Text
unfolding is_used
allocate_ip trim preferred m =
    let from_pool : Result MeshError Text =
      ok_or (find (λ ip. not (is_used m ip)) m.ip_pool) pool_exhausted in
    elim preferred [
      | none ↦ from_pool
      | some p ↦
          if not (is_empty_text (trim p)) && not (is_used m (trim p))
          then ok (trim p)
          else from_pool
    ]

abbrev pub is_member : Text → MeshConfig → Bool
is_member device_id m = any (λ e. e.device_id == device_id) m.members

abbrev pub cert_validity_secs : ℕ
cert_validity_secs = 365 * 24 * 3600

abbrev pub map_err : {A : Type 0} → Result CertError A → Result MeshError A
map_err (ok a) = ok a
map_err (err e) = err (bad_key e)

-- The certificate of a new member, signed.
unfoldable pub member_cert : Signatures → Text → Text → Text → Text → ℕ → MeshConfig → DeviceCert
unfolding sign_cert
member_cert sigs ik_x_b64 ik_s_pub_b64 allowed device_id now m =
    sign_cert sigs m.root_seed (record {
      mesh_id = m.mesh_id;
      version = (length m.members + 1) % 2 ^ 32;
      device_id = device_id;
      ik_x = ik_x_b64;
      ik_s_pub = ik_s_pub_b64;
      allowed_ip = allowed;
      valid_from = now;
      not_after = (now + cert_validity_secs) % 2 ^ 64;
      signature = none;
    })

abbrev pub add_member : Text → DeviceCert → ℕ → MeshConfig → MeshConfig
add_member device_id cert now m = record m {
  members =
      m.members
      ++ record { device_id = device_id; cert = cert; joined_at = now; alias = none } ∷ [];
}

-- The last argument but one is the identity of the two keys, `device_id_b64`, or the one given.
unfoldable pub issue_cert :
    Signatures
    → Text
    → Text
    → Text
    → Text
    → ℕ
    → MeshConfig
    → Result MeshError (DeviceCert × MeshConfig)
unfolding parse_public_key b64_to allocate_ip is_revoked member_cert
issue_cert sigs ik_x_b64 ik_s_pub_b64 ip device_id now m = do
  ik_x ← map_err (parse_public_key sigs ik_x_b64)
  ik_s_pub ← map_err (b64_to sigs 32 ik_s_pub_b64)
  allowed ← allocate_ip sigs.trim (some ip) m
  guard (not (is_member device_id m)) already_member
  guard (not (is_revoked m.crl device_id)) revoked_device
  let cert = member_cert sigs ik_x_b64 ik_s_pub_b64 allowed device_id now m
  ok (cert, add_member device_id cert now m)

abbrev pub max_crl_entries : ℕ
max_crl_entries = 256

unfoldable pub revoke :
    Signatures → Text → RevokeReason → ℕ → MeshConfig → Result MeshError MeshConfig
unfolding is_revoked sign_crl
revoke sigs device_id reason now m = do
  guard (not (is_revoked m.crl device_id)) already_revoked
  guard (not (leb max_crl_entries (length m.crl.entries))) crl_full
  let entry : CrlEntry = record {
    device_id = device_id;
    reason = reason;
    revoked_at = now;
    replacement = none;
  }
  ok (record m {
    crl = sign_crl sigs m.root_seed (record m.crl {
      version = (m.crl.version + 1) % 2 ^ 64;
      entries = m.crl.entries ++ entry ∷ [];
    });
    members = retain (λ e. not (e.device_id == device_id)) m.members;
  })

-- `set_member_alias`: the first member with the identity.
abbrev pub alias_in : Text → Text → List MemberEntry → List MemberEntry
alias_in device_id alias [] = []
alias_in device_id alias (e ∷ members) =
    let rest = alias_in device_id alias members in
    if e.device_id == device_id then record e { alias = some alias } ∷ members else e ∷ rest

unfoldable pub set_member_alias : Text → Text → MeshConfig → MeshConfig
set_member_alias device_id alias m = record m { members = alias_in device_id alias m.members }
