-- ===== src/Shared/Crypto/Agreement.antt =====
-- Both ends of an exchange of linkmesh-shared/src/crypto.rs compute the same keys, and read what
-- the other end encrypts.
use link_mesh.Base.{
  ◌≡◌, false, Bytes, length, take-append_of, drop-append_of, ok, err, ◌++◌, ◌==◌, arith,
  length-append, bytes_eq, le→ltb_false, ltb, if◌then◌else◌,
}
use link_mesh.Base.Keys.{beq_bytes_iff}
use link_mesh.Shared.Crypto.{
  Primitives, nonce_mismatch, nonce_len, encrypt_with_nonce, encrypt, decrypt, decrypt_with_nonce,
  derive_session_key_client, derive_session_key_server, derive_peer_key,
}

-- The test on the length passes.
long_enough :
    (nonce rest : Bytes) → length nonce ≡ nonce_len → ltb (length (nonce ++ rest)) nonce_len ≡ false
long_enough nonce rest h = le→ltb_false _ _ (omega (arith, length-append nonce rest))

module _ (prim : Primitives) where
  open prim use {public_of, diffie_hellman_comm, seal, unseal-seal}

  -- The client and the server derive the same session key from their own private keys and the
  -- other side's public keys.
  pub session_key_agreement :
      (ek_c ik_c ik_s ek_s salt : Bytes)
      → derive_session_key_client prim ek_c ik_c (public_of ik_s) (public_of ek_s) salt
        ≡ derive_session_key_server prim ek_s ik_s (public_of ek_c) (public_of ik_c) salt
  unfolding derive_session_key_client derive_session_key_server
  session_key_agreement ek_c ik_c ik_s ek_s salt =
      cc (
        diffie_hellman_comm ek_c ik_s,
        diffie_hellman_comm ik_c ek_s,
        diffie_hellman_comm ek_c ek_s,
      )

  -- Two peers derive the same data plane key under one salt.
  pub peer_key_agreement :
      (ik_a rk_a ik_b rk_b salt : Bytes)
      → derive_peer_key prim ik_a (public_of ik_b) rk_a (public_of rk_b) salt
        ≡ derive_peer_key prim ik_b (public_of ik_a) rk_b (public_of rk_a) salt
  unfolding derive_peer_key
  peer_key_agreement ik_a rk_a ik_b rk_b salt =
      cc (diffie_hellman_comm ik_a ik_b, diffie_hellman_comm rk_a rk_b)

  -- `decrypt` reads what `encrypt` wrote under the same key with a nonce of 12 bytes.
  decrypt-encrypt :
      (key nonce text : Bytes)
      → length nonce ≡ nonce_len
      → decrypt prim key (encrypt prim key nonce text) ≡ ok text
  unfolding decrypt encrypt
  decrypt-encrypt key nonce text h = rw (
    long_enough nonce (seal key nonce text) h,
    take-append_of nonce_len nonce (seal key nonce text) h,
    drop-append_of nonce_len nonce (seal key nonce text) h,
    unseal-seal key nonce text,
  )

  -- `decrypt_with_nonce` under the nonce that it expects reads what `encrypt_with_nonce` wrote
  -- under a nonce of 12 bytes if the two are equal, and else refuses it before it is opened.
  pub decrypt_with_nonce-encrypt_with_nonce :
      (key expected nonce text : Bytes)
      → length nonce ≡ nonce_len
      → decrypt_with_nonce prim key expected (encrypt_with_nonce prim key nonce text)
        ≡ (if nonce == expected then ok text else err nonce_mismatch)
  unfolding decrypt_with_nonce encrypt_with_nonce
  decrypt_with_nonce-encrypt_with_nonce key expected nonce text h =
      rw
        (
          long_enough nonce (seal key nonce text) h,
          take-append_of nonce_len nonce (seal key nonce text) h,
          drop-append_of nonce_len nonce (seal key nonce text) h,
        )
        (ground (arith, beq_bytes_iff nonce expected, unseal-seal key nonce text))
