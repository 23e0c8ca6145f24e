-- ===== src/Shared/Cert/Statements/Verified.antt =====
-- The statements of linkmesh-shared/src/cert.rs are accepted once the root has signed them.
use link_mesh.Base.{◌≡◌, Bytes, ok}
use link_mesh.Shared.Cert.{Signatures, Crl}
use link_mesh.Shared.Cert.Signed.{b64_to-encode}
use link_mesh.Shared.Cert.Statements.{
  signed_by, signature_of, ServerInfo, server_info_bytes, sign_server_info, verify_server_info,
  crl_bytes, sign_crl, verify_crl, RotationStatement, rotation_bytes, sign_rotation,
  verify_rotation, ServerKeyStatement, server_key_bytes, sign_server_key, verify_server_key,
}

module _ (sigs : Signatures) (root_seed : Bytes) where
  signed_by-signature_of :
      (m : Bytes)
      → signed_by sigs (sigs.public_of root_seed) m (signature_of sigs root_seed m) ≡ ok tt
  unfolding signed_by
  signed_by-signature_of m = rw (
    b64_to-encode sigs 64 (sigs.sign root_seed m) (sigs.length-sign root_seed m),
    sigs.verify-sign root_seed m,
  )

  pub verify_crl-sign_crl :
      (c : Crl) → verify_crl sigs (sigs.public_of root_seed) (sign_crl sigs root_seed c) ≡ ok tt
  unfolding verify_crl sign_crl crl_bytes
  verify_crl-sign_crl c = signed_by-signature_of (crl_bytes c)

  -- Under the public key of the root that signed them, the information of the server, the
  -- revocation list and both statements on new keys are accepted.
  pub verify_statements :
      (s : ServerInfo) (c : Crl) (r : RotationStatement) (k : ServerKeyStatement)
      → (verify_server_info sigs (sigs.public_of root_seed) (sign_server_info sigs root_seed s)
          ≡ ok tt)
        × (verify_crl sigs (sigs.public_of root_seed) (sign_crl sigs root_seed c) ≡ ok tt)
        × (verify_rotation sigs (sigs.public_of root_seed) (sign_rotation sigs root_seed r) ≡ ok tt)
        × (verify_server_key sigs (sigs.public_of root_seed) (sign_server_key sigs root_seed k)
            ≡ ok tt)
  unfolding verify_server_info sign_server_info verify_rotation sign_rotation verify_server_key
      sign_server_key
  verify_statements s c r k = (
    signed_by-signature_of (server_info_bytes s),
    verify_crl-sign_crl c,
    signed_by-signature_of (rotation_bytes r),
    signed_by-signature_of (server_key_bytes k),
  )
