-- ===== src/Server/Join/Outcome.antt =====
-- What `handle_join` of linkmesh-server/src/signaling.rs leaves behind.
use link_mesh.Base.{
  ℕ, ◌≡◌, ◌∙◌, refl, Option, none, some, List, [], ◌∷◌, Text, Bool, arith, inl, inr, any, find,
  ◌==◌, bytes_eq, Bool-cases, Result-cases, ok,
}
use link_mesh.Shared.Cert.{DeviceCert, is_revoked}
use link_mesh.Shared.Bodies.{JoinBody, JoinData}
use link_mesh.Server.Rooms.{RoomEntry, RoomError, normalize_self_alias}
use link_mesh.Server.Mesh.{
  MeshConfig, MemberEntry, MeshError, HashCode, alias_in, set_member_alias, consume_invite,
  issue_cert, check_invite, has_hash,
}
use link_mesh.Server.Mesh.Members.{AreDistinct, IsConsistent, IsConsistent-issue_cert}
use link_mesh.Server.Join.{
  Server, JoinReply, join_refused, join_accepted, alias_refused, no_cert, enrol, join_mesh,
  check_join, note_alias, spend_code,
}

-- An alias changes neither identities nor certificates.
pub any-alias_in :
    (p : Text → DeviceCert → Bool) (d a : Text) (members : List MemberEntry)
    → any (λ x. p x.device_id x.cert) (alias_in d a members)
      ≡ any (λ x. p x.device_id x.cert) members
any-alias_in p d a [] = refl
any-alias_in p d a (x ∷ members) = ground (arith, any-alias_in p d a members)

AreDistinct-alias_in :
    (d a : Text) (members : List MemberEntry)
    → AreDistinct members
    → AreDistinct (alias_in d a members)
AreDistinct-alias_in d a [] h = tt
AreDistinct-alias_in d a (x ∷ members) h = elim (Bool-cases (x.device_id == d)) [
  | inl same ↦ rw (same, alias_in) h
  | inr other ↦
      rw (other, alias_in)
        (
          any-alias_in (λ id c. id == x.device_id) d a members ∙ h.0,
          any-alias_in (λ id c. c.allowed_ip == x.cert.allowed_ip) d a members ∙ h.1,
          AreDistinct-alias_in d a members h.2,
        )
]

IsConsistent-note_alias :
    (d : Text) (alias : Option Text) (m : MeshConfig)
    → IsConsistent m
    → IsConsistent (note_alias d alias m)
unfolding set_member_alias
IsConsistent-note_alias d none m h = h
IsConsistent-note_alias d (some a) m h = record {
  distinct = AreDistinct-alias_in d a m.members h.distinct;
  none_revoked = any-alias_in (λ id c. is_revoked m.crl id) d a m.members ∙ h.none_revoked;
  crl_fits = h.crl_fits;
}

-- The members and the revocation list stay as they are when a code is consumed.
pub spend_code-keeps :
    (hash_code : HashCode) (code : Text) (now : ℕ) (m : MeshConfig)
    → ((spend_code hash_code code now m).members ≡ m.members)
      × ((spend_code hash_code code now m).crl ≡ m.crl)
unfolding consume_invite
spend_code-keeps hash_code code now m =
    elim (Result-cases (check_invite now (find (has_hash (hash_code code)) m.invites))) [
      | inl (e, found) ↦ rw (found, spend_code) (refl, refl)
      | inr (e, shut) ↦ rw (shut, spend_code) (refl, refl)
    ]

IsConsistent-spend_code :
    (hash_code : HashCode) (code : Text) (now : ℕ) (m : MeshConfig)
    → IsConsistent m
    → IsConsistent (spend_code hash_code code now m)
IsConsistent-spend_code hash_code code now m h =
    let (members, crl) = spend_code-keeps hash_code code now m in
    record {
      distinct = rw members h.distinct;
      none_revoked = rw (members, crl) h.none_revoked;
      crl_fits = rw crl h.crl_fits;
    }

note_alias-crl :
    (d : Text) (alias : Option Text) (m : MeshConfig) → (note_alias d alias m).crl ≡ m.crl
unfolding set_member_alias
note_alias-crl d none m = refl
note_alias-crl d (some a) m = refl

-- The three ways `enrol` ends: nothing was issued; the alias was refused, with the member
-- registered; the device is in.
pub data Enrolled (sv : Server) (now : ℕ) (jb : JoinBody) (ip : Text) (m : MeshConfig)
    : MeshConfig × JoinReply → Type 0 where
  unissued : {e : MeshError} → Enrolled sv now jb ip m (m, join_refused (no_cert e))
  misnamed :
      {m1 : MeshConfig} {e : RoomError} (cert : DeviceCert)
      → issue_cert sv.sigs jb.ik_x jb.ik_s_pub ip jb.device_id now m ≡ ok (cert, m1)
      → Enrolled sv now jb ip m (m1, join_refused (alias_refused e))
  entered :
      {d : JoinData} {m' : MeshConfig} (m1 : MeshConfig) (alias : Option Text)
      → issue_cert sv.sigs jb.ik_x jb.ik_s_pub ip jb.device_id now m ≡ ok (d.cert, m1)
      → d.device_id ≡ d.cert.device_id
      → m' ≡ spend_code sv.hash_code jb.code now (note_alias d.cert.device_id alias m1)
      → d.crl ≡ m'.crl
      → Enrolled sv now jb ip m (m', join_accepted d)

pub enrol-Enrolled :
    (sv : Server) (now : ℕ) (jb : JoinBody) (ip : Text) (m : MeshConfig)
    → Enrolled sv now jb ip m (enrol sv now jb ip m)
unfolding enrol
enrol-Enrolled sv now jb ip m =
    elim (Result-cases (issue_cert sv.sigs jb.ik_x jb.ik_s_pub ip jb.device_id now m)) [
      | inr (e, refused) ↦ rw (enrol, refused) unissued
      | inl ((cert, m1), issued) ↦ elim (Result-cases (normalize_self_alias sv.lib jb.alias)) [
        | inr (e, refused) ↦ rw (enrol, issued, refused) (misnamed cert issued)
        | inl (alias, fine) ↦ rw (enrol, issued, fine) (entered m1 alias issued refl refl refl)
      ]
    ]

IsConsistent-Enrolled :
    (sv : Server) (now : ℕ) (jb : JoinBody) (ip : Text) (m : MeshConfig)
    (r : MeshConfig × JoinReply)
    → IsConsistent m
    → Enrolled sv now jb ip m r
    → IsConsistent r.0
IsConsistent-Enrolled sv now jb ip m r h unissued = h
IsConsistent-Enrolled sv now jb ip m r h (misnamed {m1} cert issued) =
    (IsConsistent-issue_cert sv.sigs jb.ik_x jb.ik_s_pub ip jb.device_id now m (cert, m1) h
      issued).0
IsConsistent-Enrolled sv now jb ip m r h (entered {d} {m'} m1 alias issued same after crl) =
    let (h1, rest, _, _) =
      IsConsistent-issue_cert sv.sigs jb.ik_x jb.ik_s_pub ip jb.device_id now m (d.cert, m1) h
        issued in
    rw after (
      IsConsistent-spend_code sv.hash_code jb.code now _
        (IsConsistent-note_alias d.cert.device_id alias m1 h1))

-- Every join, accepted or refused at any of its checks, leaves the members distinct and not
-- revoked, and the revocation list within its limit.
pub IsConsistent-join_mesh :
    (sv : Server) (rooms : List RoomEntry) (now : ℕ) (jb : JoinBody) (m : MeshConfig)
    → IsConsistent m
    → IsConsistent (join_mesh sv rooms now jb m).0
unfolding join_mesh
IsConsistent-join_mesh sv rooms now jb m h = elim (Result-cases (check_join sv rooms m now jb)) [
  | inl (ip, passed) ↦
      rw (join_mesh, passed)
        (IsConsistent-Enrolled sv now jb ip m _ h (enrol-Enrolled sv now jb ip m))
  | inr (e, refused) ↦ rw (join_mesh, refused) h
]
