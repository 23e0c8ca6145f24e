-- ===== src/Shared/Identity.antt =====
-- linkmesh-shared/src/identity.rs: the identity of a device, and its fingerprint.
use link_mesh.Base.{
  ℕ, zero, suc, ◌+◌, ◌-◌, ◌*◌, ◌/◌, ◌%◌, ◌^◌, none, some, [], ◌∷◌, ◌++◌, Bytes, Text, take,
  get_elem?, ltb, leb, eqb, ◌&&◌, if◌then◌else◌,
}
use link_mesh.Shared.Crypto.{RawKey}
use link_mesh.Shared.Cert.Statements.{ascii}

-- `sha256` is the crate sha2.
unfoldable pub device_id : (Bytes → Bytes) → RawKey → Bytes → Bytes
device_id sha256 ik_x_pub ik_s_pub =
    take 32 (sha256 (ascii "linkmesh-device-v1" ++ (ik_x_pub ++ ik_s_pub)))

-- `encode` is base64.
unfoldable pub device_id_b64 : (Bytes → Bytes) → (Bytes → Text) → RawKey → Bytes → Text
unfolding device_id
device_id_b64 sha256 encode ik_x_pub ik_s_pub = encode (device_id sha256 ik_x_pub ik_s_pub)

abbrev pub alphabet : Text
alphabet = ascii "ABCDEFGHIJKLMNOPQRSTUVWXYZ234567"

-- An index below 32 is in the alphabet.
abbrev pub letter : ℕ → ℕ
letter i = elim (get_elem? alphabet i) [ none ↦ 0 | some c ↦ c ]

-- `while bits >= 5`, for at most `rounds` rounds; with less than 16 bits, three are enough.
unfoldable pub take_letters : ℕ → ℕ → ℕ → Text × ℕ
take_letters zero buf bits = ([], bits)
take_letters (suc rounds) buf bits =
    let (out, left) = take_letters rounds buf (bits - 5) in
    if leb 5 bits then (letter (buf / 2 ^ (bits - 5) % 32) ∷ out, left) else ([], bits)

-- The loop over the bytes; `buf` is a u64.
unfoldable pub base32_loop : ℕ → ℕ → Bytes → Text
unfolding take_letters
base32_loop buf bits [] =
    if ltb 0 bits then letter (buf * 2 ^ (5 - bits) % 2 ^ 64 % 32) ∷ [] else []
base32_loop buf bits (b ∷ bytes) =
    let buf' = buf * 256 % 2 ^ 64 + b in
    let (out, left) = take_letters 3 buf' (bits + 8) in out ++ base32_loop buf' left bytes

unfoldable pub base32_encode : Bytes → Text
unfolding base32_loop
base32_encode bytes = base32_loop 0 0 bytes

-- A space before every fourth character but the first.
unfoldable pub spaced : ℕ → Text → Text
spaced i [] = []
spaced i (c ∷ s) =
    let rest = spaced (i + 1) s in if ltb 0 i && eqb (i % 4) 0 then b' ' ∷ c ∷ rest else c ∷ rest

unfoldable pub fingerprint_from_device_id : Bytes → Text
unfolding base32_encode spaced
fingerprint_from_device_id id = spaced 0 (base32_encode (take 20 id))

unfoldable pub fingerprint : (Bytes → Bytes) → RawKey → Bytes → Text
unfolding device_id fingerprint_from_device_id
fingerprint sha256 ik_x_pub ik_s_pub =
    fingerprint_from_device_id (device_id sha256 ik_x_pub ik_s_pub)
