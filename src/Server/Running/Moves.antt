-- ===== src/Server/Running/Moves.antt =====
-- What relayed frames, packets of sessions, AUTH and the cleanup of linkmesh-server/src/signaling.rs
-- do to sessions and routes.
use link_mesh.Base.{
  ℕ, ◌≡◌, refl, subst, some, List, [], ◌∷◌, Bytes, Text, Bool, true, false, Bool-cases,
  Option-cases, Result-cases, inl, inr, bytes_eq, drop, ◌+◌, ◌%◌, ◌^◌,
}
use link_mesh.Base.Maps
use link_mesh.Base.Maps.{Map, get, insert}
use link_mesh.Shared.Crypto.{Primitives, RawKey, decrypt_with_nonce, session_nonce}
use link_mesh.Shared.Protocol.{header_len, parse_relay}
use link_mesh.Server.Library.{Library}
use link_mesh.Server.Routes.{RouteTable, cleanup}
use link_mesh.Server.Routes.Expiry.{
  IsSoundTable, IsSoundTable-step, IsSoundTable-remove_all, upserts, cleans,
}
use link_mesh.Server.Relay.{
  relay_forward, refresh_source, source_is_active, is_rk_frame, rooms_match, room_of, find_entry,
}
use link_mesh.Server.Sessions.{Sessions, SessionState}
use link_mesh.Server.Sessions.Bounds.{IsBounded, IsBounded-remove}
use link_mesh.Server.Signaling.{open_session}
use link_mesh.Server.Auth.{AuthState}
use link_mesh.Server.Sweep.{drop_expired, sweep_sessions, sweep, expired_sessions, at_least}
use link_mesh.Server.Sweep.Left.{CoversSessions-sweep_sessions}
use link_mesh.Server.Running.Renewed.{IsBounded-insert_present, CoversSessions-insert_present}
use link_mesh.Server.Running.Orderly.{IsOrderly, with_routes, IsOrderly-admit_session}
use link_mesh.Server.Auth.{handle_auth, authorize, admit_authorized, new_session}
use link_mesh.Server.Mesh.{MeshConfig}
use link_mesh.Server.Rooms.{RoomEntry}
use link_mesh.Shared.Bodies.{AuthBody}
use link_mesh.Shared.Cert.{Signatures, parse_public_key}
use link_mesh.Server.Guards.{rate_limited, replay_check}

IsSoundTable-refresh_source :
    (now : ℕ) (is_rk : Bool) (src_key : RawKey) (t : RouteTable)
    → IsSoundTable t
    → IsSoundTable (refresh_source now is_rk src_key t)
unfolding refresh_source
IsSoundTable-refresh_source now true src_key t h = h
IsSoundTable-refresh_source now false src_key t h = elim (Option-cases (get t.by_key src_key)) [
  | inl absent ↦ rw (refresh_source, absent) h
  | inr (e, found) ↦ rw (refresh_source, found) (IsSoundTable-step (upserts _ t) h)
]

IsSoundTable-relay_forward :
    (lib : Library) (now : ℕ) (active : List RawKey) (enabled accepts : Bool) (packet : Bytes)
    (t : RouteTable)
    → IsSoundTable t
    → IsSoundTable (relay_forward lib now active enabled accepts packet t).0
unfolding relay_forward
IsSoundTable-relay_forward lib now active enabled accepts packet t h =
    elim (Result-cases (parse_relay packet)) [
      | inr (e, bad) ↦ rw (relay_forward, bad) h
      | inl ((dest, src_key, ct), parsed) ↦
          let is_rk = is_rk_frame packet in
          elim (Bool-cases (source_is_active lib active is_rk t src_key)) [
            | inr unknown ↦ rw (relay_forward, parsed, unknown) h
            | inl active_now ↦
                let t' = refresh_source now is_rk src_key t in
                let h' = IsSoundTable-refresh_source now is_rk src_key t h in
                elim (Bool-cases (
                  rooms_match enabled (room_of (find_entry lib is_rk t' src_key))
                    (room_of (find_entry lib is_rk t' dest)))) [
                      | inl same ↦ rw (relay_forward, parsed, active_now, same) h'
                      | inr other ↦ rw (relay_forward, parsed, active_now, other) h'
                    ]
          ]
    ]

pub IsOrderly-relay_forward :
    (lib : Library) (now : ℕ) (enabled accepts : Bool) (packet : Bytes) (st : SessionState)
    → IsOrderly st
    → IsOrderly (record st {
      routes = (relay_forward lib now st.active_ik_x enabled accepts packet st.routes).0;
    })
IsOrderly-relay_forward lib now enabled accepts packet st h =
    with_routes st _ h
      (IsSoundTable-relay_forward lib now st.active_ik_x enabled accepts packet st.routes h.sound)

-- A packet of a session that could be opened.
pub IsOrderly-open_session :
    (prim : Primitives) (now : ℕ) (sender : RawKey) (packet : Bytes) (st : SessionState)
    (r : Bytes × Sessions)
    → IsOrderly st
    → open_session prim now sender packet st.sessions ≡ some r
    → IsOrderly (record st { sessions = r.1 })
unfolding open_session
IsOrderly-open_session prim now sender packet st r h e =
    elim (Option-cases (get st.sessions sender)) [
      | inl absent ↦ (let e' = rw (absent, open_session) at e in cc)
      | inr (s, found) ↦
          let next_seq = (s.counter_rx + 1) % 2 ^ 64 in
          let s' = record s { counter_rx = next_seq; last_seen = now } in
          elim (Result-cases
            (decrypt_with_nonce prim s.sk (session_nonce next_seq 0) (drop header_len packet))) [
              | inr (why, failed) ↦ (let e' = rw (found, failed, open_session) at e in cc)
              | inl (pt, opened) ↦
                  let e' : some (pt, insert st.sessions sender s') ≡ some r =
                    rw (found, opened, open_session) at e in
                  let same : insert st.sessions sender s' ≡ r.1 = cc in
                  subst (λ m. IsOrderly (record st { sessions = m })) same
                    (record {
                      bounded =
                          IsBounded-insert_present st.sessions sender s s' found refl h.bounded;
                      covers =
                          CoversSessions-insert_present st.sessions sender s s' st.active_ik_x found
                            refl h.covers;
                      sound = h.sound;
                    })
            ]
    ]

drop_expired-orderly :
    (ks : List RawKey) (m : Sessions) (t : RouteTable)
    → IsBounded m
    → IsSoundTable t
    → IsBounded (drop_expired ks (m, t)).0 × IsSoundTable (drop_expired ks (m, t)).1
unfolding drop_expired
drop_expired-orderly [] m t h sound = (h, sound)
drop_expired-orderly (k ∷ ks) m t h sound =
    drop_expired-orderly ks (Maps.remove m k) _ (IsBounded-remove m k h)
      (elim (Option-cases (get m k)) [
        | inl absent ↦ rw absent sound
        | inr (s, found) ↦ rw found (IsSoundTable-remove_all (s.ik_x ∷ []) t sound)
      ])

IsOrderly-sweep_sessions :
    (ks : List RawKey) (st : SessionState) → IsOrderly st → IsOrderly (sweep_sessions ks st)
IsOrderly-sweep_sessions [] st h = h
IsOrderly-sweep_sessions (k ∷ ks) st h =
    let (bounded, sound) = drop_expired-orderly (k ∷ ks) st.sessions st.routes h.bounded h.sound in
    record {
      bounded = bounded;
      covers = CoversSessions-sweep_sessions (k ∷ ks) st h.covers;
      sound = sound;
    }

pub IsOrderly-sweep :
    (route_ttl_sec now : ℕ) (st : AuthState)
    → IsOrderly st.session_state
    → IsOrderly (sweep route_ttl_sec now st).session_state
unfolding sweep
IsOrderly-sweep route_ttl_sec now st h =
    IsOrderly-sweep_sessions
      (expired_sessions now (at_least 60 route_ttl_sec) st.session_state.sessions) _
      (with_routes st.session_state (cleanup now route_ttl_sec st.session_state.routes) h
        (IsSoundTable-step (cleans now route_ttl_sec st.session_state.routes) h.sound))

IsOrderly-admit_authorized :
    (sigs : Signatures) (prim : Primitives) (server_priv : RawKey) (ek_s : Bytes) (now : ℕ)
    (sender : RawKey) (ab : AuthBody) (r : Text × Bytes) (st : AuthState)
    → IsOrderly st.session_state
    → IsOrderly (admit_authorized sigs prim server_priv ek_s now sender ab r st).0.session_state
unfolding admit_authorized
IsOrderly-admit_authorized sigs prim server_priv ek_s now sender ab (room, nonce) st h =
    elim (Bool-cases (replay_check st.replay sender nonce).1) [
      | inr repeated ↦ rw (admit_authorized, repeated) h
      | inl new ↦ elim (Result-cases (parse_public_key sigs ab.ek_c)) [
        | inr (e, bad) ↦ rw (admit_authorized, new, bad) h
        | inl (ek_c, good) ↦
            rw (admit_authorized, new, good)
              (IsOrderly-admit_session
                (new_session prim server_priv ek_s now sender ab ek_c (room, nonce))
                st.session_state h)
      ]
    ]

pub IsOrderly-handle_auth :
    (sigs : Signatures) (prim : Primitives) (lib : Library) (hash_token : Text → Text)
    (join_limit : ℕ) (server_priv : RawKey) (ek_s root_pub : Bytes) (rooms : List RoomEntry)
    (m : MeshConfig) (now : ℕ) (ip : Bytes) (sender : RawKey) (ab : AuthBody) (st : AuthState)
    → IsOrderly st.session_state
    → IsOrderly
        (handle_auth sigs prim lib hash_token join_limit server_priv ek_s root_pub rooms m now ip
          sender ab st).0.session_state
unfolding handle_auth
IsOrderly-handle_auth sigs prim lib hash_token join_limit server_priv ek_s root_pub rooms m now ip
      sender ab st h =
    elim (Bool-cases (rate_limited join_limit now st.rate_limits ip).1) [
      | inl many ↦ rw (handle_auth, many) h
      | inr few ↦
          elim (Result-cases (authorize sigs lib hash_token root_pub rooms m now sender ab)) [
            | inr (e, refused) ↦ rw (handle_auth, few, refused) h
            | inl (r, passed) ↦
                rw (handle_auth, few, passed)
                  (IsOrderly-admit_authorized sigs prim server_priv ek_s now sender ab r _ h)
          ]
    ]
