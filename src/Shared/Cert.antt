-- ===== src/Shared/Cert.antt =====
-- linkmesh-shared/src/cert.rs: the statements that the root of the mesh signs.
pub mod Canonical
pub mod Signed
pub mod Statements
use link_mesh.Base.{
  ℕ, zero, suc, ◌+◌, ◌/◌, ◌%◌, ◌≡◌, Option, none, some, List, [], ◌∷◌, ◌++◌, Bytes, Text, Bool,
  true, false, length, ltb, eqb, any, not, ◌&&◌, ◌||◌, if◌then◌else◌, ◌==◌, bytes_eq, Result, ok,
  err, ◌>>=◌, ◌>>◌, guard, ok_or,
}
use link_mesh.Shared.Crypto.{RawKey}

-- The crates ed25519-dalek and base64, and `str::trim`, as the statements use them.
pub record Signatures : Type 0 where
  pub public_of : Bytes → Bytes
  pub sign : Bytes → Bytes → Bytes
  pub verify : Bytes → Bytes → Bytes → Bool
  -- a signature is 64 bytes long, and verifies under the public key of its seed
  pub length-sign : (seed m : Bytes) → length (sign seed m) ≡ 64
  pub verify-sign : (seed m : Bytes) → verify (public_of seed) m (sign seed m) ≡ true
  pub encode : Bytes → Text
  pub decode : Text → Option Bytes
  pub trim : Text → Text
  -- the text of some bytes has no space around it, and decodes to the bytes
  pub decode-trim-encode : (b : Bytes) → decode (trim (encode b)) ≡ some b

-- `to_string` of a `u64`, which has at most 20 digits.
abbrev pub digits : ℕ → ℕ → Text
digits zero n = []
digits (suc fuel) n =
    let more = digits fuel (n / 10) in
    if ltb n 10 then (b'0' + n) ∷ [] else more ++ (b'0' + n % 10) ∷ []

abbrev pub show_u64 : ℕ → Text
show_u64 n = digits 20 n

-- One line for each field.
abbrev pub lines : List (Text × Text) → Bytes
lines [] = []
lines ((k, v) ∷ fields) = k ++ (b'=' ∷ v ++ (b'\n' ∷ lines fields))

unfoldable pub canonical : Text → List (Text × Text) → Bytes
canonical prefix fields = prefix ++ (b'\n' ∷ lines fields)

pub data CertError : Type 0 where
  no_signature bad_base64 bad_length bad_signature not_in_time bad_key wrong_keys : CertError

unfoldable pub b64_to : Signatures → ℕ → Text → Result CertError Bytes
b64_to sigs n s = do
  bytes ← ok_or (sigs.decode (sigs.trim s)) bad_base64
  guard (eqb (length bytes) n) bad_length
  ok bytes

pub record DeviceCert : Type 0 where
  pub mesh_id : Text
  pub version : ℕ
  pub device_id : Text
  pub ik_x : Text
  pub ik_s_pub : Text
  pub allowed_ip : Text
  pub valid_from : ℕ
  pub not_after : ℕ
  pub signature : Option Text

-- The field names, as their bytes.
abbrev pub cert_fields : DeviceCert → List (Text × Text)
cert_fields c =
    (b'm' ∷ b'e' ∷ b's' ∷ b'h' ∷ b'_' ∷ b'i' ∷ b'd' ∷ [], c.mesh_id)
    ∷ (b'v' ∷ b'e' ∷ b'r' ∷ b's' ∷ b'i' ∷ b'o' ∷ b'n' ∷ [], show_u64 c.version)
    ∷ (b'd' ∷ b'e' ∷ b'v' ∷ b'i' ∷ b'c' ∷ b'e' ∷ b'_' ∷ b'i' ∷ b'd' ∷ [], c.device_id)
    ∷ (b'i' ∷ b'k' ∷ b'_' ∷ b'x' ∷ [], c.ik_x)
    ∷ (b'i' ∷ b'k' ∷ b'_' ∷ b's' ∷ b'_' ∷ b'p' ∷ b'u' ∷ b'b' ∷ [], c.ik_s_pub)
    ∷ (b'a' ∷ b'l' ∷ b'l' ∷ b'o' ∷ b'w' ∷ b'e' ∷ b'd' ∷ b'_' ∷ b'i' ∷ b'p' ∷ [], c.allowed_ip)
    ∷ (
      b'v' ∷ b'a' ∷ b'l' ∷ b'i' ∷ b'd' ∷ b'_' ∷ b'f' ∷ b'r' ∷ b'o' ∷ b'm' ∷ [],
      show_u64 c.valid_from,
    )
    ∷ (b'n' ∷ b'o' ∷ b't' ∷ b'_' ∷ b'a' ∷ b'f' ∷ b't' ∷ b'e' ∷ b'r' ∷ [], show_u64 c.not_after)
    ∷ []

-- "linkmesh-device-cert-v1"
abbrev pub cert_prefix : Text
cert_prefix =
    b'l' ∷ b'i' ∷ b'n' ∷ b'k' ∷ b'm' ∷ b'e' ∷ b's' ∷ b'h' ∷ b'-' ∷ b'd' ∷ b'e' ∷ b'v' ∷ b'i' ∷ b'c'
    ∷ b'e' ∷ b'-' ∷ b'c' ∷ b'e' ∷ b'r' ∷ b't' ∷ b'-' ∷ b'v' ∷ b'1' ∷ []

unfoldable pub canonical_bytes : DeviceCert → Bytes
unfolding canonical
canonical_bytes c = canonical cert_prefix (cert_fields c)

unfoldable pub sign_cert : Signatures → Bytes → DeviceCert → DeviceCert
unfolding canonical_bytes
sign_cert sigs root_seed c = record c {
  signature = some (sigs.encode (sigs.sign root_seed (canonical_bytes c)));
}

unfoldable pub verify_cert : Signatures → Bytes → ℕ → DeviceCert → Result CertError (Unit {0})
unfolding b64_to canonical_bytes
verify_cert sigs root_pub now c = do
  sig_b64 ← ok_or c.signature no_signature
  sig ← b64_to sigs 64 sig_b64
  guard (sigs.verify root_pub (canonical_bytes c) sig) bad_signature
  guard (not (ltb now c.valid_from || ltb c.not_after now)) not_in_time

-- `parse_public_key` of crypto.rs: 32 bytes in base64.
unfoldable pub parse_public_key : Signatures → Text → Result CertError RawKey
unfolding b64_to
parse_public_key sigs s = b64_to sigs 32 s

unfoldable pub matches_keys : Signatures → RawKey → Bytes → DeviceCert → Result CertError (Unit {0})
unfolding b64_to parse_public_key
matches_keys sigs ik_x ik_s_pub c = do
  cert_ik_x ← parse_public_key sigs c.ik_x
  cert_ik_s ← b64_to sigs 32 c.ik_s_pub
  guard (cert_ik_x == ik_x && cert_ik_s == ik_s_pub) wrong_keys

pub data RevokeReason : Type 0 where
  compromised leaked rotated admin discontinued : RevokeReason

pub record CrlEntry : Type 0 where
  pub device_id : Text
  pub reason : RevokeReason
  pub revoked_at : ℕ
  pub replacement : Option Text

pub record Crl : Type 0 where
  pub mesh_id : Text
  pub version : ℕ
  pub entries : List CrlEntry
  pub signature : Option Text

unfoldable pub is_revoked : Crl → Text → Bool
is_revoked crl device_id = any (λ e. e.device_id == device_id) crl.entries

unfoldable pub is_newer_than : Crl → Crl → Bool
is_newer_than crl other = crl.mesh_id == other.mesh_id && ltb other.version crl.version
