-- ===== src/Server/Auth/Admission.antt =====
-- Who gets a session from `handle_auth` of linkmesh-server/src/signaling.rs.
use link_mesh.Base.{
  ℕ, ◌≡◌, refl, ap, sym, ◌∙◌, List, Bytes, Text, true, false, arith, not, any, Bool-cases, inl, inr,
  ◌⊎◌, ◌==◌, bytes_eq, eq-of-eq, Result, ok, err, guard, >>=-eq-ok, guard-eq-ok, ok-injective,
}
use link_mesh.Base.Maps.{Map, get}
use link_mesh.Shared.Crypto.{Primitives, RawKey}
use link_mesh.Shared.Cert.{
  Signatures, CertError, verify_cert, matches_keys, b64_to, is_revoked, parse_public_key,
}
use link_mesh.Server.Library.{Library}
use link_mesh.Server.Rooms.{RoomEntry, RoomError, resolve_room}
use link_mesh.Server.Mesh.{MeshConfig}
use link_mesh.Server.Guards.{replay_check, queue_of, rate_limited}
use link_mesh.Server.Sessions.{SessionEntry, admit_session}
use link_mesh.Shared.Bodies.{AuthBody}
use link_mesh.Server.Auth.{
  AuthState, AuthReply, admitted, from_room, from_cert, wrong_device, device_revoked, bad_time,
  too_far, authorize, new_session, admit_authorized, handle_auth,
}

-- What the checks before the cache of nonces establish.
pub record IsAuthorized (sigs : Signatures) (lib : Library) (hash_token : Text → Text)
    (root_pub : Bytes) (rooms : List RoomEntry) (m : MeshConfig) (now : ℕ) (sender : RawKey)
    (ab : AuthBody) (r : Text × Bytes) : Type 0 where
  pub in_room : resolve_room lib hash_token rooms ab.token ≡ ok r.0
  pub certified : verify_cert sigs root_pub now ab.cert ≡ ok tt
  pub ik_s_pub : Bytes
  pub keys_match : matches_keys sigs sender ik_s_pub ab.cert ≡ ok tt
  pub own_cert : ab.device_id ≡ ab.cert.device_id
  pub not_revoked : is_revoked m.crl ab.device_id ≡ false
  pub in_time : too_far ab.timestamp now ≡ false
  pub nonce_read : b64_to sigs 12 ab.nonce ≡ ok r.1

from_room-eq-ok : {A : Type 0} (r : Result RoomError A) {a : A} → from_room r ≡ ok a → r ≡ ok a
from_room-eq-ok (ok x) h = cc
from_room-eq-ok (err e) h = cc

from_cert-eq-ok : {A : Type 0} (r : Result CertError A) {a : A} → from_cert r ≡ ok a → r ≡ ok a
from_cert-eq-ok (ok x) h = cc
from_cert-eq-ok (err e) h = cc

authorize_inv :
    (sigs : Signatures) (lib : Library) (hash_token : Text → Text) (root_pub : Bytes)
    (rooms : List RoomEntry) (m : MeshConfig) (now : ℕ) (sender : RawKey) (ab : AuthBody)
    (r : Text × Bytes)
    → authorize sigs lib hash_token root_pub rooms m now sender ab ≡ ok r
    → IsAuthorized sigs lib hash_token root_pub rooms m now sender ab r
unfolding authorize
authorize_inv sigs lib hash_token root_pub rooms m now sender ab r h =
    let (room, e0, h0) = >>=-eq-ok (from_room (resolve_room lib hash_token rooms ab.token)) _ h in
    let (u, e1, h1) = >>=-eq-ok (from_cert (verify_cert sigs root_pub now ab.cert)) _ h0 in
    let (ik, e2, h2) = >>=-eq-ok (from_cert (b64_to sigs 32 ab.cert.ik_s_pub)) _ h1 in
    let (v, e3, h3) = >>=-eq-ok (from_cert (matches_keys sigs sender ik ab.cert)) _ h2 in
    let (w, e4, h4) = >>=-eq-ok (guard (ab.device_id == ab.cert.device_id) wrong_device) _ h3 in
    let (x, e5, h5) = >>=-eq-ok (guard (not (is_revoked m.crl ab.device_id)) device_revoked) _ h4 in
    let (y, e6, h6) = >>=-eq-ok (guard (not (too_far ab.timestamp now)) bad_time) _ h5 in
    let (nonce, e7, h7) = >>=-eq-ok (from_cert (b64_to sigs 12 ab.nonce)) _ h6 in
    let same = ok-injective h7 in
    record {
      in_room = from_room-eq-ok _ e0 ∙ ap (λ p. ok p.0) same;
      certified = from_cert-eq-ok _ e1;
      ik_s_pub = ik;
      keys_match = from_cert-eq-ok _ e3;
      own_cert = eq-of-eq ab.device_id ab.cert.device_id (guard-eq-ok _ wrong_device e4);
      not_revoked =
          ground (arith, guard-eq-ok (not (is_revoked m.crl ab.device_id)) device_revoked e5);
      in_time = ground (arith, guard-eq-ok (not (too_far ab.timestamp now)) bad_time e6);
      nonce_read = from_cert-eq-ok _ e7 ∙ ap (λ p. ok p.1) same;
    }

-- What the rest establishes.
pub record IsAdmitted (sigs : Signatures) (prim : Primitives) (server_priv : RawKey) (ek_s : Bytes)
    (now : ℕ) (sender : RawKey) (ab : AuthBody) (r : Text × Bytes) (st st' : AuthState)
    (s : SessionEntry) : Type 0 where
  pub nonce_new : any (λ n. n == r.1) (queue_of (get st.replay sender)) ≡ false
  pub ek_c : RawKey
  pub ek_read : parse_public_key sigs ab.ek_c ≡ ok ek_c
  pub is_session : s ≡ new_session prim server_priv ek_s now sender ab ek_c r
  pub cached : st'.replay ≡ (replay_check st.replay sender r.1).0
  pub is_in : st'.session_state ≡ admit_session s st.session_state

replay_check-new :
    (replay : Map RawKey (List Bytes)) (sender : RawKey) (nonce : Bytes)
    → (replay_check replay sender nonce).1 ≡ true
    → any (λ n. n == nonce) (queue_of (get replay sender)) ≡ false
unfolding replay_check
replay_check-new replay sender nonce h = ground arith

Result-cases : {E A : Type 0} (r : Result E A) → ((e : E) × (r ≡ err e)) ⊎ ((a : A) × (r ≡ ok a))
Result-cases (err e) = inl (e, refl)
Result-cases (ok a) = inr (a, refl)

admitted-injective :
    {a b : AuthState} {s t : SessionEntry}
    → ◌≡◌ {A = AuthState × AuthReply} (a, admitted s) (b, admitted t)
    → (a ≡ b) × (s ≡ t)
admitted-injective h = (cc, cc)

admit_authorized_inv :
    (sigs : Signatures) (prim : Primitives) (server_priv : RawKey) (ek_s : Bytes) (now : ℕ)
    (sender : RawKey) (ab : AuthBody) (r : Text × Bytes) (st st' : AuthState) (s : SessionEntry)
    → admit_authorized sigs prim server_priv ek_s now sender ab r st ≡ (st', admitted s)
    → IsAdmitted sigs prim server_priv ek_s now sender ab r st st' s
unfolding admit_authorized
admit_authorized_inv sigs prim server_priv ek_s now sender ab r st st' s h =
    elim (Bool-cases (replay_check st.replay sender r.1).1) [
      | inr seen ↦ (let h' = rw (seen, admit_authorized) at h in cc)
      | inl new ↦ elim (Result-cases (parse_public_key sigs ab.ek_c)) [
        | inl (e, bad) ↦ (let h' = rw (new, bad, admit_authorized) at h in cc)
        | inr (ek_c, good) ↦
            let s0 = new_session prim server_priv ek_s now sender ab ek_c r in
            let replay' = (replay_check st.replay sender r.1).0 in
            let st0 : AuthState = record st {
              replay = replay';
              session_state = admit_session s0 st.session_state;
            } in
            let h' : ◌≡◌ {A = AuthState × AuthReply} (st0, admitted s0) (st', admitted s) =
              rw (new, good, admit_authorized) at h in
            let (states, sessions) = admitted-injective h' in
            record {
              nonce_new = replay_check-new st.replay sender r.1 new;
              ek_c = ek_c;
              ek_read = good;
              is_session = sym sessions;
              cached = sym (ap (λ x. x.replay) states);
              is_in =
                  sym (ap (λ x. x.session_state) states)
                  ∙ ap (λ x. admit_session x st.session_state) sessions;
            }
      ]
    ]

-- What became of the rate limits does not matter.
not_limited :
    (sigs : Signatures) (prim : Primitives) (lib : Library) (hash_token : Text → Text)
    (join_limit : ℕ) (server_priv : RawKey) (ek_s root_pub : Bytes) (rooms : List RoomEntry)
    (m : MeshConfig) (now : ℕ) (ip : Bytes) (sender : RawKey) (ab : AuthBody) (st st' : AuthState)
    (s : SessionEntry)
    → handle_auth sigs prim lib hash_token join_limit server_priv ek_s root_pub rooms m now ip
        sender ab st
      ≡ (st', admitted s)
    → (r : Text × Bytes) × (authorize sigs lib hash_token root_pub rooms m now sender ab ≡ ok r)
      × (admit_authorized sigs prim server_priv ek_s now sender ab r
            (record st { rate_limits = (rate_limited join_limit now st.rate_limits ip).0 })
          ≡ (st', admitted s))
unfolding handle_auth
not_limited sigs prim lib hash_token join_limit server_priv ek_s root_pub rooms m now ip sender ab
      st st' s h =
    elim (Bool-cases (rate_limited join_limit now st.rate_limits ip).1) [
      | inl limited ↦ (let h' = rw (limited, handle_auth) at h in cc)
      | inr free ↦
          elim (Result-cases (authorize sigs lib hash_token root_pub rooms m now sender ab)) [
            | inl (e, bad) ↦ (let h' = rw (free, bad, handle_auth) at h in cc)
            | inr (r, good) ↦ (r, good, rw (free, good, handle_auth) at h)
          ]
    ]

-- A device that is admitted has shown a certificate of its own that the root signed and that is in
-- its time, for the key that it used; it is not revoked, its timestamp passes `too_far`, its room is
-- that of its token, and its nonce was not in the cache; and the session that is registered is made
-- from these.
pub handle_auth-IsAuthorized :
    (sigs : Signatures) (prim : Primitives) (lib : Library) (hash_token : Text → Text)
    (join_limit : ℕ) (server_priv : RawKey) (ek_s root_pub : Bytes) (rooms : List RoomEntry)
    (m : MeshConfig) (now : ℕ) (ip : Bytes) (sender : RawKey) (ab : AuthBody) (st st' : AuthState)
    (s : SessionEntry)
    → handle_auth sigs prim lib hash_token join_limit server_priv ek_s root_pub rooms m now ip
        sender ab st
      ≡ (st', admitted s)
    → (r : Text × Bytes) × IsAuthorized sigs lib hash_token root_pub rooms m now sender ab r
      × IsAdmitted sigs prim server_priv ek_s now sender ab r st st' s
handle_auth-IsAuthorized sigs prim lib hash_token join_limit server_priv ek_s root_pub rooms m now
      ip sender ab st st' s h =
    let (r, good, rest) =
      not_limited sigs prim lib hash_token join_limit server_priv ek_s root_pub rooms m now ip
        sender ab st st' s h in
    let a =
      admit_authorized_inv sigs prim server_priv ek_s now sender ab r
        (record st { rate_limits = (rate_limited join_limit now st.rate_limits ip).0 }) st' s
        rest in
    (
      r,
      authorize_inv sigs lib hash_token root_pub rooms m now sender ab r good,
      record {
        nonce_new = a.nonce_new;
        ek_c = a.ek_c;
        ek_read = a.ek_read;
        is_session = a.is_session;
        cached = a.cached;
        is_in = a.is_in;
      },
    )
