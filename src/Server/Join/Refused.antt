-- ===== src/Server/Join/Refused.antt =====
-- Which joins `handle_join` of linkmesh-server/src/signaling.rs refuses.
use link_mesh.Base.{
  ℕ, ◌≡◌, refl, subst, List, Text, Bool, true, false, inl, inr, ◌==◌, bytes_eq, Result-cases,
  Result, ok, err, ◌>>=◌, guard,
}
use link_mesh.Shared.Cert.{parse_public_key, b64_to}
use link_mesh.Shared.Bodies.{JoinBody}
use link_mesh.Shared.Identity.{device_id_b64}
use link_mesh.Server.Rooms.{RoomEntry, RoomError, resolve_room}
use link_mesh.Server.Mesh.{MeshConfig, is_member, issue_cert, peek_invite, allocate_ip}
use link_mesh.Server.Mesh.Members.{IsConsistent, IsConsistent-issue_cert}
use link_mesh.Server.Join.{
  Server, JoinError, join_refused, alias_refused, no_cert, enrol, join_mesh, check_join,
  preferred_ip, wrong_identity, or_join, room_refused, invite_refused, key_refused, no_address,
}
use link_mesh.Server.Join.Outcome.{Enrolled, misnamed, enrol-Enrolled}
use link_mesh.Server.Join.Accepted.{issue_cert-invites, peek_invite-invites}

-- Whoever is a member is refused, and the mesh stays as it is.
pub member_join_refused :
    (sv : Server) (rooms : List RoomEntry) (now : ℕ) (jb : JoinBody) (m : MeshConfig)
    → is_member jb.device_id m ≡ true
    → (e : JoinError) × (join_mesh sv rooms now jb m ≡ (m, join_refused e))
unfolding join_mesh enrol
member_join_refused sv rooms now jb m is_in = elim (Result-cases (check_join sv rooms m now jb)) [
  | inr (e, refused) ↦ (e, rw (join_mesh, refused) refl)
  | inl (ip, passed) ↦
      elim (Result-cases (issue_cert sv.sigs jb.ik_x jb.ik_s_pub ip jb.device_id now m)) [
        | inr (e, refused) ↦ (no_cert e, rw (join_mesh, passed, enrol, refused) refl)
        | inl (r, issued) ↦ (let (_, new) = issue_cert-invites sv jb ip now m r issued in cc)
      ]
]

abbrev is_alias_refused : JoinError → Bool
is_alias_refused (alias_refused why) = true
is_alias_refused e = false

-- No error of a computation is a refused alias.
abbrev NeverAlias : {A : Type 0} → Result JoinError A → Type 0
NeverAlias r = (e : JoinError) → r ≡ err e → is_alias_refused e ≡ false

NeverAlias-bind :
    {A B : Type 0} (r : Result JoinError A) (next : A → Result JoinError B)
    → NeverAlias r
    → ((a : A) → NeverAlias (next a))
    → NeverAlias (r >>= next)
NeverAlias-bind (ok a) next h rest = rest a
NeverAlias-bind (err e) next h rest = λ e2 same. h e2 (cc)

NeverAlias-or_join :
    {E A : Type 0} (f : E → JoinError) (r : Result E A)
    → ((e : E) → is_alias_refused (f e) ≡ false)
    → NeverAlias (or_join f r)
NeverAlias-or_join f (ok a) h e same = cc
NeverAlias-or_join f (err e2) h e same =
    let is_e : f e2 ≡ e = cc in subst (λ x. is_alias_refused x ≡ false) is_e (h e2)

NeverAlias-guard : (b : Bool) → NeverAlias (guard b wrong_identity)
NeverAlias-guard true e same = cc
NeverAlias-guard false e same =
    let is_e : wrong_identity ≡ e = cc in subst (λ x. is_alias_refused x ≡ false) is_e refl

check_join-alias :
    (sv : Server) (rooms : List RoomEntry) (m : MeshConfig) (now : ℕ) (jb : JoinBody)
    → NeverAlias (check_join sv rooms m now jb)
unfolding check_join
check_join-alias sv rooms m now jb =
    let room = resolve_room sv.lib sv.hash_token rooms jb.token in
    let bound = peek_invite sv.hash_code jb.code now m in
    let ik_x = parse_public_key sv.sigs jb.ik_x in
    let ik_s_pub = b64_to sv.sigs 32 jb.ik_s_pub in
    NeverAlias-bind (or_join room_refused room) _ (NeverAlias-or_join room_refused room (λ e. refl))
      λ _.
        NeverAlias-bind (or_join invite_refused bound) _
          (NeverAlias-or_join invite_refused bound (λ e. refl))
          λ ip.
            NeverAlias-bind (or_join key_refused ik_x) _
              (NeverAlias-or_join key_refused ik_x (λ e. refl))
              λ x.
                NeverAlias-bind (or_join key_refused ik_s_pub) _
                  (NeverAlias-or_join key_refused ik_s_pub (λ e. refl))
                  λ s.
                    NeverAlias-bind
                      (guard (jb.device_id == device_id_b64 sv.sha256 sv.sigs.encode x s)
                        wrong_identity)
                      _ (NeverAlias-guard _)
                      λ _.
                        NeverAlias-or_join no_address
                          (allocate_ip sv.sigs.trim (preferred_ip ip jb.requested_ip) m) (λ e. refl)

-- What a join leaves when its alias is refused.
misnamed-Enrolled :
    (sv : Server) (now later : ℕ) (jb : JoinBody) (ip : Text) (m m' : MeshConfig) (why : RoomError)
    → IsConsistent m
    → Enrolled sv now jb ip m (m', join_refused (alias_refused why))
    → (is_member jb.device_id m' ≡ true)
      × (peek_invite sv.hash_code jb.code later m' ≡ peek_invite sv.hash_code jb.code later m)
misnamed-Enrolled sv now later jb ip m m' why h (misnamed cert issued) =
    let (_, is_in, _, _) =
      IsConsistent-issue_cert sv.sigs jb.ik_x jb.ik_s_pub ip jb.device_id now m (cert, m') h
        issued in
    (
      is_in,
      peek_invite-invites sv.hash_code jb.code later m m'
          (issue_cert-invites sv jb ip now m (cert, m') issued).0,
    )

-- When the members are distinct, a join whose alias is refused leaves its code as it was, and the
-- device as a member: from the mesh that it leaves, every further join under this identity is
-- refused, with whatever alias, and leaves the mesh as it is.
pub misnamed_join_locks_out :
    (sv : Server) (rooms : List RoomEntry) (now later : ℕ) (jb again : JoinBody) (m m' : MeshConfig)
    (why : RoomError)
    → IsConsistent m
    → join_mesh sv rooms now jb m ≡ (m', join_refused (alias_refused why))
    → again.device_id ≡ jb.device_id
    → (is_member jb.device_id m' ≡ true)
      × (peek_invite sv.hash_code jb.code later m' ≡ peek_invite sv.hash_code jb.code later m)
      × (e : JoinError) × (join_mesh sv rooms later again m' ≡ (m', join_refused e))
unfolding join_mesh
misnamed_join_locks_out sv rooms now later jb again m m' why h e same =
    elim (Result-cases (check_join sv rooms m now jb)) [
      | inl (ip, passed) ↦
          let ended : enrol sv now jb ip m ≡ (m', join_refused (alias_refused why)) =
            rw (join_mesh, passed) at e in
          let (is_in, kept) =
            misnamed-Enrolled sv now later jb ip m m' why h
              (subst (Enrolled sv now jb ip m) ended (enrol-Enrolled sv now jb ip m)) in
          let (e2, refused) = member_join_refused sv rooms later again m' (rw same is_in) in
          (is_in, kept, e2, refused)
      | inr (e2, refused) ↦
          (let e' = rw (join_mesh, refused) at e in
            let is_e2 = check_join-alias sv rooms m now jb e2 refused in cc)
    ]
