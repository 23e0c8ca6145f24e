-- ===== src/Server/Running/Root.antt =====
-- The name and the root key of the mesh of linkmesh-server/src/mesh.rs never change.
use link_mesh.Base.{
  ℕ, ◌≡◌, refl, sym, ap, Option, none, some, List, Text, Bytes, inl, inr, Bool-cases, Result-cases,
  ok, ok-injective, >>=-eq-ok, guard, not, find, leb, length, ◌==◌, bytes_eq,
}
use link_mesh.Base.Maps.{Map}
use link_mesh.Shared.Crypto.{RawKey}
use link_mesh.Shared.Cert.{
  Signatures, DeviceCert, RevokeReason, parse_public_key, b64_to, is_revoked,
}
use link_mesh.Shared.Bodies.{JoinBody}
use link_mesh.Server.Rooms.{RoomEntry}
use link_mesh.Server.Guards.{rate_limited}
use link_mesh.Server.Mesh.{
  MeshConfig, HashCode, issue_cert, revoke, set_member_alias, consume_invite, check_invite,
  has_hash, map_err, allocate_ip, is_member, already_member, revoked_device, already_revoked,
  crl_full, max_crl_entries,
}
use link_mesh.Server.Join.{
  Server, JoinReply, join_mesh, handle_join, check_join, note_alias, spend_code,
}
use link_mesh.Server.Join.Outcome.{Enrolled, unissued, misnamed, entered, enrol-Enrolled}

pub record KeepsRoot (m m' : MeshConfig) : Type 0 where
  pub same_id : m'.mesh_id ≡ m.mesh_id
  pub same_seed : m'.root_seed ≡ m.root_seed

KeepsRoot-refl : (m : MeshConfig) → KeepsRoot m m
KeepsRoot-refl m = record { same_id = refl; same_seed = refl }

KeepsRoot-issue_cert :
    (sigs : Signatures) (ik_x ik_s_pub ip device_id : Text) (now : ℕ) (m : MeshConfig)
    (r : DeviceCert × MeshConfig)
    → issue_cert sigs ik_x ik_s_pub ip device_id now m ≡ ok r
    → KeepsRoot m r.1
unfolding issue_cert
KeepsRoot-issue_cert sigs ik_x ik_s_pub ip device_id now m r h =
    let (k1, p1, e1) = >>=-eq-ok (map_err (parse_public_key sigs ik_x)) _ h in
    let (k2, p2, e2) = >>=-eq-ok (map_err (b64_to sigs 32 ik_s_pub)) _ e1 in
    let (allowed, given, e3) = >>=-eq-ok (allocate_ip sigs.trim (some ip) m) _ e2 in
    let (u, new, e4) = >>=-eq-ok (guard (not (is_member device_id m)) already_member) _ e3 in
    let (v, live, e5) = >>=-eq-ok (guard (not (is_revoked m.crl device_id)) revoked_device) _ e4 in
    record {
      same_id = sym (ap (λ x. x.1.mesh_id) (ok-injective e5));
      same_seed = sym (ap (λ x. x.1.root_seed) (ok-injective e5));
    }

KeepsRoot-note_alias :
    (d : Text) (alias : Option Text) (m m1 : MeshConfig)
    → KeepsRoot m m1
    → KeepsRoot m (note_alias d alias m1)
unfolding set_member_alias
KeepsRoot-note_alias d none m m1 h = h
KeepsRoot-note_alias d (some a) m m1 h = record { same_id = h.same_id; same_seed = h.same_seed }

KeepsRoot-spend_code :
    (hash_code : HashCode) (code : Text) (now : ℕ) (m m1 : MeshConfig)
    → KeepsRoot m m1
    → KeepsRoot m (spend_code hash_code code now m1)
unfolding consume_invite
KeepsRoot-spend_code hash_code code now m m1 h =
    elim (Result-cases (check_invite now (find (has_hash (hash_code code)) m1.invites))) [
      | inl (e, found) ↦
          rw (spend_code, found) (record { same_id = h.same_id; same_seed = h.same_seed })
      | inr (e, shut) ↦ rw (spend_code, shut) h
    ]

KeepsRoot-Enrolled :
    (sv : Server) (now : ℕ) (jb : JoinBody) (ip : Text) (m : MeshConfig)
    (r : MeshConfig × JoinReply)
    → Enrolled sv now jb ip m r
    → KeepsRoot m r.0
KeepsRoot-Enrolled sv now jb ip m r unissued = KeepsRoot-refl m
KeepsRoot-Enrolled sv now jb ip m r (misnamed {m1} cert issued) =
    KeepsRoot-issue_cert sv.sigs jb.ik_x jb.ik_s_pub ip jb.device_id now m (cert, m1) issued
KeepsRoot-Enrolled sv now jb ip m r (entered {d} {m'} m1 alias issued same after crl) = rw after (
    KeepsRoot-spend_code sv.hash_code jb.code now m _ (
      KeepsRoot-note_alias d.cert.device_id alias m m1 (
        KeepsRoot-issue_cert sv.sigs jb.ik_x jb.ik_s_pub ip jb.device_id now m (d.cert, m1)
          issued)))

KeepsRoot-join_mesh :
    (sv : Server) (rooms : List RoomEntry) (now : ℕ) (jb : JoinBody) (m : MeshConfig)
    → KeepsRoot m (join_mesh sv rooms now jb m).0
unfolding join_mesh
KeepsRoot-join_mesh sv rooms now jb m = elim (Result-cases (check_join sv rooms m now jb)) [
  | inl (ip, passed) ↦
      rw (join_mesh, passed) (KeepsRoot-Enrolled sv now jb ip m _ (enrol-Enrolled sv now jb ip m))
  | inr (e, refused) ↦ rw (join_mesh, refused) (KeepsRoot-refl m)
]

-- `handle_join` leaves the mesh as it was, or as `join_mesh` does.
pub handle_join-mesh :
    (P : MeshConfig → Type 0) (sv : Server) (rooms : List RoomEntry) (now : ℕ) (octets : Bytes)
    (sender : RawKey) (jb : JoinBody) (limits : Map Bytes (ℕ × ℕ)) (m : MeshConfig)
    → P m
    → P (join_mesh sv rooms now jb m).0
    → P (handle_join sv rooms now octets sender jb limits m).1
unfolding handle_join
handle_join-mesh P sv rooms now octets sender jb limits m same joined =
    elim (Bool-cases (sv.sigs.encode sender == jb.ik_x)) [
      | inr other ↦ rw (handle_join, other) same
      | inl own ↦ elim (Bool-cases (rate_limited sv.join_limit now limits octets).1) [
        | inl many ↦ rw (handle_join, own, many) same
        | inr few ↦ rw (handle_join, own, few) joined
      ]
    ]

pub KeepsRoot-handle_join :
    (sv : Server) (rooms : List RoomEntry) (now : ℕ) (octets : Bytes) (sender : RawKey)
    (jb : JoinBody) (limits : Map Bytes (ℕ × ℕ)) (m : MeshConfig)
    → KeepsRoot m (handle_join sv rooms now octets sender jb limits m).1
KeepsRoot-handle_join sv rooms now octets sender jb limits m =
    handle_join-mesh (KeepsRoot m) sv rooms now octets sender jb limits m (KeepsRoot-refl m)
      (KeepsRoot-join_mesh sv rooms now jb m)

pub KeepsRoot-revoke :
    (sigs : Signatures) (device_id : Text) (reason : RevokeReason) (now : ℕ) (m m' : MeshConfig)
    → revoke sigs device_id reason now m ≡ ok m'
    → KeepsRoot m m'
unfolding revoke
KeepsRoot-revoke sigs device_id reason now m m' h =
    let (u, new, e1) = >>=-eq-ok (guard (not (is_revoked m.crl device_id)) already_revoked) _ h in
    let (v, room, e2) =
      >>=-eq-ok (guard (not (leb max_crl_entries (length m.crl.entries))) crl_full) _ e1 in
    record {
      same_id = sym (ap (λ x. x.mesh_id) (ok-injective e2));
      same_seed = sym (ap (λ x. x.root_seed) (ok-injective e2));
    }
