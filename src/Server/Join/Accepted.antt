-- ===== src/Server/Join/Accepted.antt =====
-- What an accepted join of linkmesh-server/src/signaling.rs promises.
use link_mesh.Base.{
  ℕ, ◌≤◌, ◌≡◌, ◌∙◌, refl, sym, ap, subst, Option, none, some, List, Text, true, false, arith, inl,
  inr, not, ◌==◌, bytes_eq, Result-cases, Result, ok, err, ok-injective, >>=-eq-ok, guard-eq-ok,
  is_ok, guard,
}
use link_mesh.Shared.Cert.{DeviceCert, parse_public_key, b64_to, is_revoked}
use link_mesh.Shared.Bodies.{JoinBody, JoinData}
use link_mesh.Server.Rooms.{RoomEntry, resolve_room}
use link_mesh.Server.Mesh.{
  MeshConfig, HashCode, set_member_alias, is_member, is_used, issue_cert, peek_invite, allocate_ip,
  map_err, already_member, revoked_device,
}
use link_mesh.Server.Mesh.Invites.{
  invites_with, consume_invite-peek_invite, consumed_code_is_refused,
}
use link_mesh.Server.Mesh.Members.{IsConsistent, IsConsistent-issue_cert}
use link_mesh.Server.Join.{
  Server, JoinError, join_accepted, enrol, join_mesh, check_join, note_alias, spend_code, or_join,
  room_refused, invite_refused,
}
use link_mesh.Server.Join.Outcome.{
  Enrolled, entered, enrol-Enrolled, any-alias_in, spend_code-keeps,
}

or_join-eq-ok {ℓ} :
    {E A : Type ℓ} (f : E → JoinError) (r : Result E A) {a : A} → or_join f r ≡ ok a → r ≡ ok a
or_join-eq-ok f (ok a) h = ap ok (ok-injective h)
or_join-eq-ok f (err e) h = cc

-- The code of a join that passes its checks is open.
check_join-open :
    (sv : Server) (rooms : List RoomEntry) (m : MeshConfig) (now : ℕ) (jb : JoinBody) (ip : Text)
    → check_join sv rooms m now jb ≡ ok ip
    → (bound : Option Text) × (peek_invite sv.hash_code jb.code now m ≡ ok bound)
unfolding check_join
check_join-open sv rooms m now jb ip h =
    let (room, h1, h2) =
      >>=-eq-ok (or_join room_refused (resolve_room sv.lib sv.hash_token rooms jb.token)) _ h in
    let (bound, h3, h4) =
      >>=-eq-ok (or_join invite_refused (peek_invite sv.hash_code jb.code now m)) _ h2 in
    (bound, or_join-eq-ok invite_refused _ h3)

pub issue_cert-invites :
    (sv : Server) (jb : JoinBody) (ip : Text) (now : ℕ) (m : MeshConfig)
    (r : DeviceCert × MeshConfig)
    → issue_cert sv.sigs jb.ik_x jb.ik_s_pub ip jb.device_id now m ≡ ok r
    → (r.1.invites ≡ m.invites) × (is_member jb.device_id m ≡ false)
unfolding issue_cert
issue_cert-invites sv jb ip now m r h =
    let (k1, p1, e1) = >>=-eq-ok (map_err (parse_public_key sv.sigs jb.ik_x)) _ h in
    let (k2, p2, e2) = >>=-eq-ok (map_err (b64_to sv.sigs 32 jb.ik_s_pub)) _ e1 in
    let (allowed, given, e3) = >>=-eq-ok (allocate_ip sv.sigs.trim (some ip) m) _ e2 in
    let (u, new, e4) = >>=-eq-ok (guard (not (is_member jb.device_id m)) already_member) _ e3 in
    let (v, live, e5) =
      >>=-eq-ok (guard (not (is_revoked m.crl jb.device_id)) revoked_device) _ e4 in
    (
      sym (ap (λ x. x.1.invites) (ok-injective e5)),
      ground (arith, guard-eq-ok (not (is_member jb.device_id m)) already_member new),
    )

note_alias-keeps :
    (d e : Text) (alias : Option Text) (m : MeshConfig)
    → ((note_alias d alias m).invites ≡ m.invites)
      × (is_member e (note_alias d alias m) ≡ is_member e m)
unfolding set_member_alias
note_alias-keeps d e none m = (refl, refl)
note_alias-keeps d e (some a) m = (refl, any-alias_in (λ id c. id == e) d a m.members)

-- When the code is open in a mesh, what `spend_code` leaves refuses it from then on.
spend_code-refuses :
    (hash_code : HashCode) (code : Text) (now later : ℕ) (m : MeshConfig) (bound : Option Text)
    → invites_with (hash_code code) m.invites ≤ 1
    → peek_invite hash_code code now m ≡ ok bound
    → is_ok (peek_invite hash_code code later (spend_code hash_code code now m)) ≡ false
spend_code-refuses hash_code code now later m bound single open_now =
    let (m', spent) = consume_invite-peek_invite hash_code code now m bound open_now in
    rw (spend_code, spent)
      (consumed_code_is_refused hash_code code now later m m' bound single spent)

pub peek_invite-invites :
    (hash_code : HashCode) (code : Text) (now : ℕ) (m m' : MeshConfig)
    → m'.invites ≡ m.invites
    → peek_invite hash_code code now m' ≡ peek_invite hash_code code now m
unfolding peek_invite
peek_invite-invites hash_code code now m m' same = rw same refl

-- What an accepted join promises of the mesh before and after it.
pub record IsAccepted (sv : Server) (now : ℕ) (jb : JoinBody) (d : JoinData) (m m' : MeshConfig)
    : Type 0 where
  pub code_open : is_ok (peek_invite sv.hash_code jb.code now m) ≡ true
  pub was_new : is_member jb.device_id m ≡ false
  pub own_cert : d.cert.device_id ≡ jb.device_id
  pub own_answer : d.device_id ≡ jb.device_id
  pub is_in : is_member jb.device_id m' ≡ true
  pub free_address : is_used m d.cert.allowed_ip ≡ false
  pub crl_sent : d.crl ≡ m'.crl
  pub code_spent : (later : ℕ) → is_ok (peek_invite sv.hash_code jb.code later m') ≡ false

IsAccepted-Enrolled :
    (sv : Server) (now : ℕ) (jb : JoinBody) (ip : Text) (m m' : MeshConfig) (d : JoinData)
    (bound : Option Text)
    → IsConsistent m
    → invites_with (sv.hash_code jb.code) m.invites ≤ 1
    → peek_invite sv.hash_code jb.code now m ≡ ok bound
    → Enrolled sv now jb ip m (m', join_accepted d)
    → IsAccepted sv now jb d m m'
IsAccepted-Enrolled sv now jb ip m m' d bound h single opened
      (entered m1 alias issued same after crl) =
    let (h1, is_in, named, free) =
      IsConsistent-issue_cert sv.sigs jb.ik_x jb.ik_s_pub ip jb.device_id now m (d.cert, m1) h
        issued in
    let (invites, new) = issue_cert-invites sv jb ip now m (d.cert, m1) issued in
    let (invites2, members2) = note_alias-keeps d.cert.device_id jb.device_id alias m1 in
    let m2 = note_alias d.cert.device_id alias m1 in
    let members3 = (spend_code-keeps sv.hash_code jb.code now m2).0 in
    let open2 = peek_invite-invites sv.hash_code jb.code now m m2 (invites2 ∙ invites) ∙ opened in
    record {
      code_open = rw opened refl;
      was_new = new;
      own_cert = named;
      own_answer = same ∙ named;
      is_in = rw (after, members3) (members2 ∙ is_in);
      free_address = free;
      crl_sent = crl;
      code_spent = λ later. rw after (
          spend_code-refuses sv.hash_code jb.code now later m2 bound
            (rw (invites2 ∙ invites) single) open2);
    }

-- When the members are distinct and no two invites have the hash of its code, a join that is
-- accepted showed an open code, for a device that was no member and is one then, under the identity
-- it gave and an address that nobody had; it is sent the revocation list in force, and its code is
-- refused at any later time.
pub join_mesh-IsAccepted :
    (sv : Server) (rooms : List RoomEntry) (now : ℕ) (jb : JoinBody) (m m' : MeshConfig)
    (d : JoinData)
    → IsConsistent m
    → invites_with (sv.hash_code jb.code) m.invites ≤ 1
    → join_mesh sv rooms now jb m ≡ (m', join_accepted d)
    → IsAccepted sv now jb d m m'
unfolding join_mesh
join_mesh-IsAccepted sv rooms now jb m m' d h single e =
    elim (Result-cases (check_join sv rooms m now jb)) [
      | inl (ip, passed) ↦
          let (bound, opened) = check_join-open sv rooms m now jb ip passed in
          let ended : enrol sv now jb ip m ≡ (m', join_accepted d) = rw (join_mesh, passed) at e in
          IsAccepted-Enrolled sv now jb ip m m' d bound h single opened
            (subst (Enrolled sv now jb ip m) ended (enrol-Enrolled sv now jb ip m))
      | inr (e2, refused) ↦ (let e' = rw (join_mesh, refused) at e in cc)
    ]
