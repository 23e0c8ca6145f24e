-- ===== src/Server/Mesh/Members.antt =====
-- The members of the mesh of linkmesh-server/src/mesh.rs: issue and revocation of certificates.
use link_mesh.Base.{
  ℕ, ◌+◌, ◌%◌, ◌^◌, ◌≤◌, ◌<◌, ◌≡◌, ◌∙◌, refl, subst, none, some, List, [], ◌∷◌, ◌++◌, Text, Bool,
  true, false, arith, length, length-append, leb, retain, not, any, ◌||◌, Bool-cases, inl, inr,
  ◌==◌, bytes_eq, eq_refl, ok, guard, >>=-eq-ok, guard-eq-ok, ok-injective,
}
use link_mesh.Shared.Cert.{
  Signatures, DeviceCert, CrlEntry, RevokeReason, is_revoked, parse_public_key, b64_to, sign_cert,
}
use link_mesh.Shared.Cert.Statements.{sign_crl, verify_crl}
use link_mesh.Shared.Cert.Statements.Verified.{verify_crl-sign_crl}
use link_mesh.Server.Mesh.{
  MeshConfig, MemberEntry, is_used, allocate_ip, is_member, issue_cert, member_cert, add_member,
  revoke, map_err, already_member, revoked_device, already_revoked, crl_full, max_crl_entries,
}
use link_mesh.Server.Mesh.Addresses.{allocate_ip-free}

-- No two members share an identity or an address, and none is revoked.
abbrev pub AreDistinct : List MemberEntry → Type 0
AreDistinct [] = Unit
AreDistinct (e ∷ members) =
    (any (λ x. x.device_id == e.device_id) members ≡ false)
    × (any (λ x. x.cert.allowed_ip == e.cert.allowed_ip) members ≡ false)
    × AreDistinct members

pub record IsConsistent (m : MeshConfig) : Type 0 where
  pub distinct : AreDistinct m.members
  pub none_revoked : any (λ e. is_revoked m.crl e.device_id) m.members ≡ false
  pub crl_fits : length m.crl.entries ≤ 256

any-last :
    {A : Type 0} (p : A → Bool) (xs : List A) (x : A) → any p (xs ++ x ∷ []) ≡ (any p xs || p x)
any-last p [] x = ground arith
any-last p (y ∷ xs) x = ground (arith, any-last p xs x)

AreDistinct-last :
    (members : List MemberEntry) (e : MemberEntry)
    → AreDistinct members
    → any (λ x. x.device_id == e.device_id) members ≡ false
    → any (λ x. x.cert.allowed_ip == e.cert.allowed_ip) members ≡ false
    → AreDistinct (members ++ e ∷ [])
AreDistinct-last [] e h new_id new_ip = (refl, refl, tt)
AreDistinct-last (x ∷ members) e h new_id new_ip = (
  ground (
    arith,
    any-last (λ y. y.device_id == x.device_id) members e,
    h.0,
    bytes_eq.beq_iff e.device_id x.device_id,
    bytes_eq.beq_iff x.device_id e.device_id,
  ),
  ground (
    arith,
    any-last (λ y. y.cert.allowed_ip == x.cert.allowed_ip) members e,
    h.1,
    bytes_eq.beq_iff e.cert.allowed_ip x.cert.allowed_ip,
    bytes_eq.beq_iff x.cert.allowed_ip e.cert.allowed_ip,
  ),
  AreDistinct-last members e h.2 (ground arith) (ground arith),
)

any-retain :
    {A : Type 0} (p q : A → Bool) (xs : List A) → any p xs ≡ false → any p (retain q xs) ≡ false
any-retain p q [] h = refl
any-retain p q (x ∷ xs) h = ground (arith, any-retain p q xs)

AreDistinct-retain :
    (q : MemberEntry → Bool) (members : List MemberEntry)
    → AreDistinct members
    → AreDistinct (retain q members)
AreDistinct-retain q [] h = tt
AreDistinct-retain q (x ∷ members) h = elim (Bool-cases (q x)) [
  | inl kept ↦
      rw (kept, retain)
        (any-retain _ q members h.0, any-retain _ q members h.1, AreDistinct-retain q members h.2)
  | inr gone ↦ rw (gone, retain) (AreDistinct-retain q members h.2)
]

-- Nobody that is left is revoked by the new entry.
kept_live :
    (entries : List CrlEntry) (e : CrlEntry) (members : List MemberEntry)
    → any (λ x. any (λ c. c.device_id == x.device_id) entries) members ≡ false
    → any
        (λ x. any (λ c. c.device_id == x.device_id) (entries ++ e ∷ []))
        (retain (λ x. not (x.device_id == e.device_id)) members)
      ≡ false
kept_live entries e [] h = refl
kept_live entries e (x ∷ members) h = ground (
  arith,
  kept_live entries e members,
  any-last (λ (c : CrlEntry). c.device_id == x.device_id) entries e,
  bytes_eq.beq_iff x.device_id e.device_id,
  bytes_eq.beq_iff e.device_id x.device_id,
)

gone :
    (d : Text) (members : List MemberEntry)
    → any (λ x. x.device_id == d) (retain (λ x. not (x.device_id == d)) members) ≡ false
gone d [] = refl
gone d (x ∷ members) = ground (arith, gone d members)

IsConsistent-add_member :
    (device_id : Text) (cert : DeviceCert) (now : ℕ) (m : MeshConfig)
    → IsConsistent m
    → is_used m cert.allowed_ip ≡ false
    → is_member device_id m ≡ false
    → is_revoked m.crl device_id ≡ false
    → IsConsistent (add_member device_id cert now m)
      × (is_member device_id (add_member device_id cert now m) ≡ true)
unfolding is_used
IsConsistent-add_member device_id cert now m h free new live =
    let e : MemberEntry = record {
      device_id = device_id;
      cert = cert;
      joined_at = now;
      alias = none;
    } in
    (
      record {
        distinct = AreDistinct-last m.members e h.distinct new (ground (arith, free));
        none_revoked =
            any-last (λ x. is_revoked m.crl x.device_id) m.members e ∙ rw (h.none_revoked, live);
        crl_fits = h.crl_fits;
      },
      any-last (λ x. x.device_id == device_id) m.members e ∙ rw (new, eq_refl device_id),
    )

-- The issue of a certificate keeps the members distinct and not revoked, and the device is a
-- member then; the certificate is for its identity, and for an address that nobody had.
pub IsConsistent-issue_cert :
    (sigs : Signatures) (ik_x ik_s_pub ip device_id : Text) (now : ℕ) (m : MeshConfig)
    (r : DeviceCert × MeshConfig)
    → IsConsistent m
    → issue_cert sigs ik_x ik_s_pub ip device_id now m ≡ ok r
    → IsConsistent r.1
      × (is_member device_id r.1 ≡ true)
      × (r.0.device_id ≡ device_id)
      × (is_used m r.0.allowed_ip ≡ false)
unfolding issue_cert
IsConsistent-issue_cert sigs ik_x ik_s_pub ip device_id now m r h e =
    let (k1, p1, e1) = >>=-eq-ok (map_err (parse_public_key sigs ik_x)) _ e in
    let (k2, p2, e2) = >>=-eq-ok (map_err (b64_to sigs 32 ik_s_pub)) _ e1 in
    let (allowed, given, e3) = >>=-eq-ok (allocate_ip sigs.trim (some ip) m) _ e2 in
    let (u, new, e4) = >>=-eq-ok (guard (not (is_member device_id m)) already_member) _ e3 in
    let (v, live, e5) = >>=-eq-ok (guard (not (is_revoked m.crl device_id)) revoked_device) _ e4 in
    let free = allocate_ip-free sigs.trim (some ip) m allowed given in
    let cert = member_cert sigs ik_x ik_s_pub allowed device_id now m in
    let (consistent, is_in) =
      IsConsistent-add_member device_id cert now m h (unfold member_cert sign_cert in free)
        (ground (arith, guard-eq-ok (not (is_member device_id m)) already_member new))
        (ground (arith, guard-eq-ok (not (is_revoked m.crl device_id)) revoked_device live)) in
    subst
      (λ x.
        IsConsistent x.1
        × (is_member device_id x.1 ≡ true)
        × (x.0.device_id ≡ device_id)
        × (is_used m x.0.allowed_ip ≡ false))
      (ok-injective e5)
      (
        consistent,
        is_in,
        unfold member_cert sign_cert in refl,
        unfold member_cert sign_cert in free,
      )

-- A device that is revoked is in the list afterwards and no member, with a list that is one
-- version newer (while versions fit 64 bits), has at most 256 entries and is signed by the root;
-- the others stay consistent.
pub IsConsistent-revoke :
    (sigs : Signatures) (device_id : Text) (reason : RevokeReason) (now : ℕ) (m m' : MeshConfig)
    → IsConsistent m
    → m.crl.version + 1 < 2 ^ 64
    → revoke sigs device_id reason now m ≡ ok m'
    → IsConsistent m'
      × (is_revoked m'.crl device_id ≡ true)
      × (is_member device_id m' ≡ false)
      × (m'.crl.version ≡ m.crl.version + 1)
      × (verify_crl sigs (sigs.public_of m.root_seed) m'.crl ≡ ok tt)
unfolding revoke is_revoked sign_crl
IsConsistent-revoke sigs device_id reason now m m' h small e =
    let (u, new, e1) = >>=-eq-ok (guard (not (is_revoked m.crl device_id)) already_revoked) _ e in
    let (v, room, e2) =
      >>=-eq-ok (guard (not (leb max_crl_entries (length m.crl.entries))) crl_full) _ e1 in
    let entry : CrlEntry = record {
      device_id = device_id;
      reason = reason;
      revoked_at = now;
      replacement = none;
    } in
    subst
      (λ x.
        IsConsistent x
        × (is_revoked x.crl device_id ≡ true)
        × (is_member device_id x ≡ false)
        × (x.crl.version ≡ m.crl.version + 1)
        × (verify_crl sigs (sigs.public_of m.root_seed) x.crl ≡ ok tt))
      (ok-injective e2)
      (
        record {
          distinct = AreDistinct-retain (λ x. not (x.device_id == device_id)) m.members h.distinct;
          none_revoked =
              unfold is_revoked in kept_live m.crl.entries entry m.members h.none_revoked;
          crl_fits = ground (
            arith,
            guard-eq-ok (not (leb max_crl_entries (length m.crl.entries))) crl_full room,
            length-append m.crl.entries (entry ∷ []),
          );
        },
        unfold is_revoked in
            (any-last (λ x. x.device_id == device_id) m.crl.entries entry
              ∙ rw (eq_refl device_id) (ground arith)),
        gone device_id m.members,
        omega (arith, small),
        unfold sign_crl in
            verify_crl-sign_crl sigs m.root_seed (record m.crl {
              version = (m.crl.version + 1) % 2 ^ 64;
              entries = m.crl.entries ++ entry ∷ [];
            }),
      )
