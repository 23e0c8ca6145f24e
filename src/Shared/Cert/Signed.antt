-- ===== src/Shared/Cert/Signed.antt =====
-- What the check of a certificate of linkmesh-shared/src/cert.rs accepts.
use link_mesh.Base.{ℕ, ◌≤◌, ◌≡◌, Bytes, true, arith, length, ltb, eqb, not, ◌||◌, ok}
use link_mesh.Shared.Cert.{Signatures, DeviceCert, canonical_bytes, sign_cert, verify_cert, b64_to}

pub b64_to-encode :
    (sigs : Signatures) (n : ℕ) (b : Bytes) → length b ≡ n → b64_to sigs n (sigs.encode b) ≡ ok b
unfolding b64_to
b64_to-encode sigs n b h =
    rw (sigs.decode-trim-encode b) (let yes : eqb (length b) n ≡ true = ground arith in rw yes)

-- A certificate that the root signed is accepted under the root's public key, in the time that it
-- names.
pub verify_cert-sign_cert :
    (sigs : Signatures) (root_seed : Bytes) (now : ℕ) (c : DeviceCert)
    → c.valid_from ≤ now
    → now ≤ c.not_after
    → verify_cert sigs (sigs.public_of root_seed) now (sign_cert sigs root_seed c) ≡ ok tt
unfolding verify_cert sign_cert canonical_bytes
verify_cert-sign_cert sigs root_seed now c from until =
    let sig = sigs.sign root_seed (canonical_bytes c) in
    let in_time : not (ltb now c.valid_from || ltb c.not_after now) ≡ true = ground arith in
    rw (
      b64_to-encode sigs 64 sig (sigs.length-sign root_seed (canonical_bytes c)),
      sigs.verify-sign root_seed (canonical_bytes c),
      in_time,
    )
