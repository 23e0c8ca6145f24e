-- ===== src/Server/Mesh/Integrity.antt =====
-- `verify_integrity` of linkmesh-server/src/mesh.rs, which `Signaling::new` asks before it starts.
use link_mesh.Base.{
  ℕ, ◌+◌, ◌^◌, ◌<◌, ◌++◌, ok_or, >>=-eq-ok, ok-injective, some, none, subst, Text, ◌≡◌, refl, List,
  [], ◌∷◌, Result, ok, ◌>>=◌, ◌>>◌, guard, Fails, Fails-bind, Fails-first, any, ltb, Bool-cases,
  inl, inr, true, false, arith, Bool, ◌||◌, not,
}
use link_mesh.Shared.Cert.{
  Signatures, CertError, DeviceCert, verify_cert, sign_cert, b64_to, canonical_bytes, no_signature,
  bad_signature, not_in_time, parse_public_key, is_revoked,
}
use link_mesh.Shared.Cert.Statements.{verify_crl}
use link_mesh.Server.Mesh.{
  MeshConfig, MemberEntry, issue_cert, cert_validity_secs, map_err, allocate_ip, is_member,
  already_member, revoked_device, member_cert, add_member,
}
use link_mesh.Base.{Bytes}

unfoldable pub verify_members :
    Signatures → Bytes → ℕ → List MemberEntry → Result CertError (Unit {0})
unfolding verify_cert
verify_members sigs root_pub now [] = ok tt
verify_members sigs root_pub now (e ∷ members) =
    verify_cert sigs root_pub now e.cert >> verify_members sigs root_pub now members

unfoldable pub verify_integrity : Signatures → ℕ → MeshConfig → Result CertError (Unit {0})
unfolding verify_crl verify_members
verify_integrity sigs now m = do
  let root_pub = sigs.public_of m.root_seed
  listed ← verify_crl sigs root_pub m.crl
  verify_members sigs root_pub now m.members

verify_cert-expired :
    (sigs : Signatures) (root_pub : Bytes) (now : ℕ) (c : DeviceCert)
    → c.not_after < now
    → Fails (verify_cert sigs root_pub now c)
unfolding verify_cert
verify_cert-expired sigs root_pub now c old =
    let late : not (ltb now c.valid_from || ltb c.not_after now) ≡ false = ground (arith, old) in
    Fails-bind (ok_or c.signature no_signature) _ λ sig_b64.
      Fails-bind (b64_to sigs 64 sig_b64) _ λ sig.
        Fails-bind (guard (sigs.verify root_pub (canonical_bytes c) sig) bad_signature) _
          λ u. (not_in_time, rw late refl)

verify_members-expired :
    (sigs : Signatures) (root_pub : Bytes) (now : ℕ) (members : List MemberEntry)
    → any (λ e. ltb e.cert.not_after now) members ≡ true
    → Fails (verify_members sigs root_pub now members)
unfolding verify_members
verify_members-expired sigs root_pub now [] h = cc
verify_members-expired sigs root_pub now (e ∷ members) h =
    elim (Bool-cases (ltb e.cert.not_after now)) [
      | inl old ↦
          Fails-first (verify_cert sigs root_pub now e.cert) _
            (verify_cert-expired sigs root_pub now e.cert (ground (arith, old)))
      | inr good ↦
          Fails-bind (verify_cert sigs root_pub now e.cert) _
            λ u. verify_members-expired sigs root_pub now members (ground (arith, h, good))
    ]

-- A mesh with an expired certificate among its members fails the check.
pub verify_integrity-expired :
    (sigs : Signatures) (now : ℕ) (m : MeshConfig)
    → any (λ e. ltb e.cert.not_after now) m.members ≡ true
    → Fails (verify_integrity sigs now m)
unfolding verify_integrity
verify_integrity-expired sigs now m h =
    Fails-bind (verify_crl sigs (sigs.public_of m.root_seed) m.crl) _
      λ u. verify_members-expired sigs (sigs.public_of m.root_seed) now m.members h

any-append_last :
    (p : MemberEntry → Bool) (members : List MemberEntry) (e : MemberEntry)
    → p e ≡ true
    → any p (members ++ e ∷ []) ≡ true
any-append_last p [] e h = ground (arith, h)
any-append_last p (x ∷ members) e h = ground (arith, any-append_last p members e h)

-- A mesh to which a device was admitted fails the check when the 365 days of the device's
-- certificate are over (while times fit 64 bits).
pub issue_cert-outdated :
    (sigs : Signatures) (ik_x ik_s_pub ip device_id : Text) (now later : ℕ) (m : MeshConfig)
    (r : DeviceCert × MeshConfig)
    → issue_cert sigs ik_x ik_s_pub ip device_id now m ≡ ok r
    → now + cert_validity_secs < 2 ^ 64
    → now + cert_validity_secs < later
    → Fails (verify_integrity sigs later r.1)
unfolding issue_cert
issue_cert-outdated sigs ik_x ik_s_pub ip device_id now later m r h fits over =
    let (k1, p1, e1) = >>=-eq-ok (map_err (parse_public_key sigs ik_x)) _ h in
    let (k2, p2, e2) = >>=-eq-ok (map_err (b64_to sigs 32 ik_s_pub)) _ e1 in
    let (allowed, given, e3) = >>=-eq-ok (allocate_ip sigs.trim (some ip) m) _ e2 in
    let (u, new, e4) = >>=-eq-ok (guard (not (is_member device_id m)) already_member) _ e3 in
    let (v, live, e5) = >>=-eq-ok (guard (not (is_revoked m.crl device_id)) revoked_device) _ e4 in
    let cert = member_cert sigs ik_x ik_s_pub allowed device_id now m in
    let entry : MemberEntry = record {
      device_id = device_id;
      cert = cert;
      joined_at = now;
      alias = none;
    } in
    let old : ltb cert.not_after later ≡ true =
      unfold member_cert sign_cert in ground (arith, fits, over) in
    subst (λ x. Fails (verify_integrity sigs later x.1)) (ok-injective e5)
      (verify_integrity-expired sigs later (add_member device_id cert now m)
        (any-append_last (λ e. ltb e.cert.not_after later) m.members entry old))
