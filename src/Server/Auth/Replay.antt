-- ===== src/Server/Auth/Replay.antt =====
-- Repeated requests in `handle_auth` of linkmesh-server/src/signaling.rs.
use link_mesh.Base.{
  ℕ, ◌+◌, ◌<◌, ◌≡◌, ◌≢◌, ap, sym, ◌∙◌, subst, List, [], Bytes, Text, true, Result-cases, arith, any,
  Bool-cases, inl, inr, ◌==◌, bytes_eq, eq_refl, ok-injective,
}
use link_mesh.Base.Maps.{get}
use link_mesh.Shared.Crypto.{Primitives, RawKey}
use link_mesh.Shared.Cert.{Signatures}
use link_mesh.Shared.Bodies.{AuthBody}
use link_mesh.Server.Library.{Library}
use link_mesh.Server.Rooms.{RoomEntry}
use link_mesh.Server.Mesh.{MeshConfig}
use link_mesh.Server.Guards.{replay_check, queue_of, rate_limited}
use link_mesh.Server.Sessions.{SessionEntry}
use link_mesh.Server.Auth.{AuthState, admitted, authorize, admit_authorized, handle_auth}
use link_mesh.Server.Auth.Admission.{handle_auth-IsAuthorized}
use link_mesh.Server.Auth.Nonces.{
  Recent, push, Recent-keep, Recent-any, queue-insert, replay_check-new, later, Recent-replay_check,
}

module _ (sigs : Signatures) (prim : Primitives) (lib : Library) (hash_token : Text → Text)
    (join_limit : ℕ) (server_priv root_pub : RawKey) (rooms : List RoomEntry) where
  -- `n` requests of anyone, one after the other, accepted or not.
  pub data AuthRun : ℕ → AuthState → AuthState → Type 0 where
    no_request : {st : AuthState} → AuthRun 0 st st
    then_request :
        {n : ℕ} {st st' : AuthState}
        → AuthRun n st st'
        → (m : MeshConfig) (now : ℕ) (ip ek_s : Bytes) (sender : RawKey) (ab : AuthBody)
        → AuthRun
            (n + 1)
            st
            (handle_auth sigs prim lib hash_token join_limit server_priv ek_s root_pub rooms m now
              ip sender ab st').0

  admit_authorized-replay :
      (ek_s : Bytes) (now : ℕ) (sender : RawKey) (ab : AuthBody) (r : Text × Bytes) (st : AuthState)
      → (admit_authorized sigs prim server_priv ek_s now sender ab r st).0.replay
        ≡ (replay_check st.replay sender r.1).0
  unfolding admit_authorized
  admit_authorized-replay ek_s now sender ab r st = ground arith

  Recent-handle_auth :
      (nonce : Bytes) (n : ℕ) (k : RawKey) (m : MeshConfig) (now : ℕ) (ip ek_s : Bytes)
      (sender : RawKey) (ab : AuthBody) (st : AuthState)
      → n + 1 < 64
      → Recent nonce n (queue_of (get st.replay k))
      → Recent nonce (n + 1) (
          queue_of (
            get
              (handle_auth sigs prim lib hash_token join_limit server_priv ek_s root_pub rooms m now
                ip sender ab st).0.replay
              k))
  unfolding handle_auth
  Recent-handle_auth nonce n k m now ip ek_s sender ab st small h =
      elim (Bool-cases (rate_limited join_limit now st.rate_limits ip).1) [
        | inl is_limited ↦ rw (is_limited, handle_auth) (later nonce n _ h)
        | inr free ↦
            elim (Result-cases (authorize sigs lib hash_token root_pub rooms m now sender ab)) [
              | inr (e, bad) ↦ rw (free, bad, handle_auth) (later nonce n _ h)
              | inl (r, good) ↦
                  let st1 : AuthState = record st {
                    rate_limits = (rate_limited join_limit now st.rate_limits ip).0;
                  } in
                  rw (free, good, handle_auth)
                    (subst (λ x. Recent nonce (n + 1) (queue_of (get x k)))
                      (sym (admit_authorized-replay ek_s now sender ab r st1))
                      (Recent-replay_check nonce n st.replay sender k r.1 small h))
            ]
      ]

  Recent-AuthRun :
      (nonce : Bytes) (k : RawKey) {n : ℕ} {st st' : AuthState}
      → n < 64
      → AuthRun n st st'
      → Recent nonce 0 (queue_of (get st.replay k))
      → Recent nonce n (queue_of (get st'.replay k))
  Recent-AuthRun nonce k few no_request h = h
  Recent-AuthRun nonce k few (then_request {n} {st} {st'} run m now ip ek_s sender ab) h =
      Recent-handle_auth nonce n k m now ip ek_s sender ab st' few
        (Recent-AuthRun nonce k (omega (arith, few)) run h)

  -- The request of a device that was admitted is not admitted again, from whatever address, at
  -- whatever time and with whatever mesh, after any 63 requests or fewer of this and other devices.
  pub replayed_auth_refused :
      (m m' : MeshConfig) (now again n : ℕ) (ip ip' ek_s ek_s' : Bytes) (sender : RawKey)
      (ab : AuthBody) (st st' st2 : AuthState) (s s' : SessionEntry)
      → handle_auth sigs prim lib hash_token join_limit server_priv ek_s root_pub rooms m now ip
          sender ab st
        ≡ (st', admitted s)
      → n < 64
      → AuthRun n st' st2
      → (handle_auth sigs prim lib hash_token join_limit server_priv ek_s' root_pub rooms m' again
          ip' sender ab st2).1
        ≢ admitted s'
  replayed_auth_refused m m' now again n ip ip' ek_s ek_s' sender ab st st' st2 s s' h few run e =
      let (r, checked, a) =
        handle_auth-IsAuthorized sigs prim lib hash_token join_limit server_priv ek_s root_pub rooms
          m now ip sender ab st st' s h in
      let second =
        handle_auth sigs prim lib hash_token join_limit server_priv ek_s' root_pub rooms m' again
          ip' sender ab st2 in
      let (r', checked', a') =
        handle_auth-IsAuthorized sigs prim lib hash_token join_limit server_priv ek_s' root_pub
          rooms m' again ip' sender ab st2 second.0 s' (ap (λ x. (second.0, x)) e) in
      let q = queue_of (get st.replay sender) in
      let cached = a.cached ∙ replay_check-new st.replay sender r.1 a.nonce_new in
      let at_end : Recent r.1 0 (push r.1 q) = Recent-keep r.1 0 q [] (omega arith) (omega arith) in
      let queued : Recent r.1 0 (queue_of (get st'.replay sender)) =
        subst (λ x. Recent r.1 0 (queue_of (get x sender))) (sym cached)
          (subst (Recent r.1 0)
            (sym (rw (eq_refl sender) at (queue-insert st.replay sender sender (push r.1 q))))
            at_end) in
      let same : r.1 ≡ r'.1 = ok-injective (sym checked.nonce_read ∙ checked'.nonce_read) in
      let still = Recent-any r.1 n _ (Recent-AuthRun r.1 sender few run queued) in
      let still' =
        subst (λ x. any (λ y. y == x) (queue_of (get st2.replay sender)) ≡ true) same still in
      let fresh = a'.nonce_new in cc
