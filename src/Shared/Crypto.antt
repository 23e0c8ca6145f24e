-- ===== src/Shared/Crypto.antt =====
-- linkmesh-shared/src/crypto.rs: encryption with a nonce in front, and the derivation of keys.
-- X25519, HKDF-SHA256 and ChaCha20-Poly1305 come from other crates and are a parameter.
pub mod Agreement
use Prim.Native.Nat.{bit_and}
use link_mesh.Base.{
  ℕ, ◌<◌, ◌≡◌, Option, none, some, [], ◌∷◌, ◌++◌, Bytes, length, take, drop, ltb, ◌==◌, bytes_eq,
  not, if◌then◌else◌, Result, ok, err, ok_or,
}
use link_mesh.Base.Endian.{be_bytes}

-- What the program takes from x25519-dalek, hkdf and chacha20poly1305. The secret and the public
-- key of X25519, HKDF-SHA256 of 32 bytes (salt, key material, info), and the AEAD with the tag
-- behind the ciphertext (key, nonce, text).
pub record Primitives : Type 0 where
  pub public_of : Bytes → Bytes
  pub diffie_hellman : Bytes → Bytes → Bytes
  pub hkdf : Bytes → Bytes → Bytes → Bytes
  pub seal : Bytes → Bytes → Bytes → Bytes
  pub unseal : Bytes → Bytes → Bytes → Option Bytes
  -- both sides of an exchange compute the same secret
  pub diffie_hellman_comm :
      (a b : Bytes) → diffie_hellman a (public_of b) ≡ diffie_hellman b (public_of a)
  pub unseal-seal : (key nonce text : Bytes) → unseal key nonce (seal key nonce text) ≡ some text

abbrev pub RawKey : Type 0
RawKey = Bytes

pub record KeyPair : Type 0 where
  pub public : RawKey
  pub private : RawKey

pub data CryptoError : Type 0 where
  too_short nonce_mismatch open_failed : CryptoError

abbrev pub nonce_len : ℕ
nonce_len = 12

-- A u64 counter in 8 bytes, the direction bit, and three zero bytes.
unfoldable pub session_nonce : ℕ → ℕ → Bytes
session_nonce counter direction = be_bytes 8 counter ++ bit_and direction 1 ∷ 0 ∷ 0 ∷ 0 ∷ []

-- "linkmesh/session/v1"
abbrev pub session_info : Bytes
session_info =
    b'l' ∷ b'i' ∷ b'n' ∷ b'k' ∷ b'm' ∷ b'e' ∷ b's' ∷ b'h' ∷ b'/' ∷ b's' ∷ b'e' ∷ b's' ∷ b's' ∷ b'i'
    ∷ b'o' ∷ b'n' ∷ b'/' ∷ b'v' ∷ b'1' ∷ []

-- "linkmesh/peer/v1"
abbrev pub peer_info : Bytes
peer_info =
    b'l' ∷ b'i' ∷ b'n' ∷ b'k' ∷ b'm' ∷ b'e' ∷ b's' ∷ b'h' ∷ b'/' ∷ b'p' ∷ b'e' ∷ b'e' ∷ b'r' ∷ b'/'
    ∷ b'v' ∷ b'1' ∷ []

module _ (prim : Primitives) where
  open prim use {public_of, diffie_hellman, hkdf, seal, unseal}

  -- The random secret is an argument.
  unfoldable pub generate_keypair : Bytes → KeyPair
  generate_keypair secret = record { public = public_of secret; private = secret }

  unfoldable pub shared_secret : RawKey → RawKey → RawKey
  shared_secret private peer_public = diffie_hellman private peer_public

  unfoldable pub encrypt_with_nonce : RawKey → Bytes → Bytes → Bytes
  encrypt_with_nonce key nonce plaintext = nonce ++ seal key nonce plaintext

  -- `encrypt`, with the random nonce as an argument.
  unfoldable pub encrypt : RawKey → Bytes → Bytes → Bytes
  unfolding encrypt_with_nonce
  encrypt key random plaintext = encrypt_with_nonce key random plaintext

  unfoldable pub decrypt_ct : RawKey → Bytes → Bytes → Result CryptoError Bytes
  decrypt_ct key nonce ct = ok_or (unseal key nonce ct) open_failed

  unfoldable pub decrypt : RawKey → Bytes → Result CryptoError Bytes
  unfolding decrypt_ct
  decrypt key packet =
      if ltb (length packet) nonce_len
      then err too_short
      else decrypt_ct key (take nonce_len packet) (drop nonce_len packet)

  unfoldable pub decrypt_with_nonce : RawKey → Bytes → Bytes → Result CryptoError Bytes
  unfolding decrypt_ct
  decrypt_with_nonce key nonce packet =
      if ltb (length packet) nonce_len
      then err too_short
      else if not (take nonce_len packet == nonce)
      then err nonce_mismatch
      else decrypt_ct key nonce (drop nonce_len packet)

  -- The client's view: its two private keys, the server's two public keys, and the salt.
  unfoldable pub derive_session_key_client : RawKey → RawKey → RawKey → RawKey → Bytes → RawKey
  unfolding shared_secret
  derive_session_key_client ek_c_priv ik_x_c_priv ik_s_pub ek_s_pub salt =
      let ikm =
        shared_secret ek_c_priv ik_s_pub
        ++ (shared_secret ik_x_c_priv ek_s_pub ++ shared_secret ek_c_priv ek_s_pub) in
      hkdf salt ikm session_info

  unfoldable pub derive_session_key_server : RawKey → RawKey → RawKey → RawKey → Bytes → RawKey
  unfolding shared_secret
  derive_session_key_server ek_s_priv ik_s_priv ek_c_pub ik_x_c_pub salt =
      let ikm =
        shared_secret ik_s_priv ek_c_pub
        ++ (shared_secret ek_s_priv ik_x_c_pub ++ shared_secret ek_s_priv ek_c_pub) in
      hkdf salt ikm session_info

  unfoldable pub derive_peer_key : RawKey → RawKey → RawKey → RawKey → Bytes → RawKey
  unfolding shared_secret
  derive_peer_key ik_priv peer_ik_pub rk_priv peer_rk_pub salt =
      hkdf salt (shared_secret ik_priv peer_ik_pub ++ shared_secret rk_priv peer_rk_pub) peer_info
