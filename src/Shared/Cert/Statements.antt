-- ===== src/Shared/Cert/Statements.antt =====
-- The other statements of linkmesh-shared/src/cert.rs that the root of the mesh signs: the
-- information of the server, the revocation list and the rotation of keys.
pub mod Verified
use Prim.Native.Char.{code}
use Prim.Native.String.{String}
use link_mesh.Base.{
  ℕ, ◌≡◌, Option, none, some, List, [], ◌∷◌, ◌++◌, map, Bytes, Text, Bool, true, false, ltb, eqb,
  if◌then◌else◌, Result, ok, err, ◌>>=◌, ◌>>◌, guard, ok_or,
}
use link_mesh.Shared.Crypto.{RawKey}
use link_mesh.Shared.Cert.{
  Signatures, CertError, no_signature, bad_signature, b64_to, canonical, show_u64, parse_public_key,
  RevokeReason, compromised, leaked, rotated, admin, discontinued, CrlEntry, Crl,
}

-- A literal of the source, as its bytes.
abbrev pub ascii : String → Text
ascii String.[] = []
ascii (String.◌∷◌ c s) = code c ∷ ascii s

-- What the four `verify` functions have in common: a signature of the root over the bytes.
unfoldable pub signed_by : Signatures → Bytes → Bytes → Option Text → Result CertError (Unit {0})
unfolding b64_to
signed_by sigs root_pub m signature = do
  sig_b64 ← ok_or signature no_signature
  sig ← b64_to sigs 64 sig_b64
  guard (sigs.verify root_pub m sig) bad_signature

-- `Some(B64.encode(identity::sign(root_seed, m)))`
abbrev pub signature_of : Signatures → Bytes → Bytes → Option Text
signature_of sigs root_seed m = some (sigs.encode (sigs.sign root_seed m))

pub record ServerInfo : Type 0 where
  pub mesh_id : Text
  pub server_name : Text
  pub mesh_root_pub : Text
  pub server_ik_x : Text
  pub server_ik_s_pub : Text
  pub protocol_ver : ℕ
  pub crl_version : ℕ
  pub auth_required : Bool
  pub signature : Option Text

-- `bool::to_string`
abbrev pub show_bool : Bool → Text
show_bool true = ascii "true"
show_bool false = ascii "false"

unfoldable pub server_info_bytes : ServerInfo → Bytes
unfolding canonical
server_info_bytes s = canonical (ascii "linkmesh-server-info-v1") (
    (ascii "mesh_id", s.mesh_id)
    ∷ (ascii "server_name", s.server_name)
    ∷ (ascii "mesh_root_pub", s.mesh_root_pub)
    ∷ (ascii "server_ik_x", s.server_ik_x)
    ∷ (ascii "server_ik_s_pub", s.server_ik_s_pub)
    ∷ (ascii "protocol_ver", show_u64 s.protocol_ver)
    ∷ (ascii "crl_version", show_u64 s.crl_version)
    ∷ (ascii "auth_required", show_bool s.auth_required)
    ∷ [])

unfoldable pub sign_server_info : Signatures → Bytes → ServerInfo → ServerInfo
unfolding server_info_bytes
sign_server_info sigs root_seed s = record s {
  signature = signature_of sigs root_seed (server_info_bytes s);
}

unfoldable pub verify_server_info : Signatures → Bytes → ServerInfo → Result CertError (Unit {0})
unfolding server_info_bytes signed_by
verify_server_info sigs root_pub s = signed_by sigs root_pub (server_info_bytes s) s.signature

unfoldable pub server_ik_x_raw : Signatures → ServerInfo → Result CertError RawKey
unfolding parse_public_key
server_ik_x_raw sigs s = parse_public_key sigs s.server_ik_x

-- `RevokeReason::as_str`
abbrev pub reason_text : RevokeReason → Text
reason_text compromised = ascii "compromised"
reason_text leaked = ascii "leaked"
reason_text rotated = ascii "rotated"
reason_text admin = ascii "admin"
reason_text discontinued = ascii "discontinued"

-- The order of `str`: by the bytes.
unfoldable pub text_le : Text → Text → Bool
text_le [] b = true
text_le (x ∷ a) [] = false
text_le (x ∷ a) (y ∷ b) = if ltb x y then true else if eqb x y then text_le a b else false

-- `sort_by`, which keeps the order of entries with one identity.
unfoldable pub insert_entry : CrlEntry → List CrlEntry → List CrlEntry
unfolding text_le
insert_entry e [] = e ∷ []
insert_entry e (x ∷ xs) =
    let rest = insert_entry e xs in if text_le e.device_id x.device_id then e ∷ x ∷ xs else x ∷ rest

unfoldable pub sort_entries : List CrlEntry → List CrlEntry
unfolding insert_entry
sort_entries [] = []
sort_entries (e ∷ es) = insert_entry e (sort_entries es)

-- The line of an entry; the identity that replaces a device is not part of it.
abbrev pub revoke_field : CrlEntry → Text × Text
revoke_field e =
    (ascii "revoke", e.device_id ++ (b':' ∷ reason_text e.reason ++ (b':' ∷ show_u64 e.revoked_at)))

unfoldable pub crl_bytes : Crl → Bytes
unfolding canonical sort_entries
crl_bytes c = canonical (ascii "linkmesh-crl-v1") (
    (ascii "mesh_id", c.mesh_id)
    ∷ (ascii "version", show_u64 c.version)
    ∷ map revoke_field (sort_entries c.entries))

unfoldable pub sign_crl : Signatures → Bytes → Crl → Crl
unfolding crl_bytes
sign_crl sigs root_seed c = record c { signature = signature_of sigs root_seed (crl_bytes c) }

unfoldable pub verify_crl : Signatures → Bytes → Crl → Result CertError (Unit {0})
unfolding crl_bytes signed_by
verify_crl sigs root_pub c = signed_by sigs root_pub (crl_bytes c) c.signature

-- A device takes new keys.
pub record RotationStatement : Type 0 where
  pub mesh_id : Text
  pub new_device_id : Text
  pub new_ik_x : Text
  pub new_ik_s_pub : Text
  pub timestamp : ℕ
  pub root_signature : Option Text

unfoldable pub rotation_bytes : RotationStatement → Bytes
unfolding canonical
rotation_bytes r = canonical (ascii "linkmesh-rotation-v2") (
    (ascii "mesh_id", r.mesh_id)
    ∷ (ascii "new_device_id", r.new_device_id)
    ∷ (ascii "new_ik_x", r.new_ik_x)
    ∷ (ascii "new_ik_s_pub", r.new_ik_s_pub)
    ∷ (ascii "timestamp", show_u64 r.timestamp)
    ∷ [])

unfoldable pub sign_rotation : Signatures → Bytes → RotationStatement → RotationStatement
unfolding rotation_bytes
sign_rotation sigs root_seed r = record r {
  root_signature = signature_of sigs root_seed (rotation_bytes r);
}

unfoldable pub verify_rotation :
    Signatures → Bytes → RotationStatement → Result CertError (Unit {0})
unfolding rotation_bytes signed_by
verify_rotation sigs root_pub r = signed_by sigs root_pub (rotation_bytes r) r.root_signature

-- The server takes new keys.
pub record ServerKeyStatement : Type 0 where
  pub mesh_id : Text
  pub old_server_ik_x : Text
  pub new_ik_x : Text
  pub new_ik_s_pub : Text
  pub timestamp : ℕ
  pub root_signature : Option Text

unfoldable pub server_key_bytes : ServerKeyStatement → Bytes
unfolding canonical
server_key_bytes s = canonical (ascii "linkmesh-server-key-v1") (
    (ascii "mesh_id", s.mesh_id)
    ∷ (ascii "old_server_ik_x", s.old_server_ik_x)
    ∷ (ascii "new_ik_x", s.new_ik_x)
    ∷ (ascii "new_ik_s_pub", s.new_ik_s_pub)
    ∷ (ascii "timestamp", show_u64 s.timestamp)
    ∷ [])

unfoldable pub sign_server_key : Signatures → Bytes → ServerKeyStatement → ServerKeyStatement
unfolding server_key_bytes
sign_server_key sigs root_seed s = record s {
  root_signature = signature_of sigs root_seed (server_key_bytes s);
}

unfoldable pub verify_server_key :
    Signatures → Bytes → ServerKeyStatement → Result CertError (Unit {0})
unfolding server_key_bytes signed_by
verify_server_key sigs root_pub s = signed_by sigs root_pub (server_key_bytes s) s.root_signature
