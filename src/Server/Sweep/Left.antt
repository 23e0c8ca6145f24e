-- ===== src/Server/Sweep/Left.antt =====
-- What `cleanup_loop` of linkmesh-server/src/signaling.rs leaves.
use link_mesh.Base.{
  ℕ, ◌≡◌, ◌∙◌, refl, sym, ap, subst, none, some, List, [], ◌∷◌, true, false, arith, any, Bool-cases,
  Option-cases, inl, inr, ◌==◌, bytes_eq, eq_refl, if◌then◌else◌,
}
use link_mesh.Base.Maps
use link_mesh.Base.Maps.{Map, get, get-remove, HasOnce, holds_at, any-keys_where}
use link_mesh.Shared.Crypto.{RawKey}
use link_mesh.Client.Peer.{SocketAddr}
use link_mesh.Server.Library.{Library}
use link_mesh.Server.Routes.{RouteTable, cleanup}
use link_mesh.Server.Routes.Expiry.{get-by_key-remove}
use link_mesh.Server.Sessions.{Sessions, SessionEntry, SessionState}
use link_mesh.Server.Sessions.Active.{CoversSessions, rebuild-exact}
use link_mesh.Server.Signaling.{serve_heartbeat}
use link_mesh.Server.Auth.{AuthState}
use link_mesh.Server.Sweep.{
  at_least, session_expired, expired_sessions, drop_expired, sweep_sessions, sweep,
}

get-drop_expired :
    (ks : List RawKey) (m : Sessions) (t : RouteTable) (k : RawKey)
    → get (drop_expired ks (m, t)).0 k ≡ (if any (λ j. j == k) ks then none else get m k)
unfolding drop_expired
get-drop_expired [] m t k = refl
get-drop_expired (j ∷ ks) m t k =
    get-drop_expired ks (Maps.remove m j) _ k ∙ ground (arith, get-remove m j k)

-- A route that is gone stays gone.
gone-drop_expired :
    (ks : List RawKey) (m : Sessions) (t : RouteTable) (ik : RawKey)
    → get t.by_key ik ≡ none
    → get (drop_expired ks (m, t)).1.by_key ik ≡ none
unfolding drop_expired
gone-drop_expired [] m t ik h = h
gone-drop_expired (j ∷ ks) m t ik h =
    gone-drop_expired ks (Maps.remove m j) _ ik (elim (Option-cases (get m j)) [
      | inl absent ↦ rw absent h
      | inr (s, found) ↦ rw found (get-by_key-remove t s.ik_x ik ∙ ground arith)
    ])

-- The route of a session that is dropped is gone.
route-drop_expired :
    (ks : List RawKey) (m : Sessions) (t : RouteTable) (k : RawKey) (s : SessionEntry)
    → get m k ≡ some s
    → any (λ j. j == k) ks ≡ true
    → get (drop_expired ks (m, t)).1.by_key s.ik_x ≡ none
unfolding drop_expired
route-drop_expired [] m t k s g h = cc
route-drop_expired (j ∷ ks) m t k s g h = elim (Bool-cases (j == k)) [
  | inl same ↦
      let found : get m j ≡ some s =
        subst (λ x. get m x ≡ some s) (sym ((bytes_eq.beq_iff j k).0 same)) g in
      gone-drop_expired ks (Maps.remove m j) _ s.ik_x
        (rw found (get-by_key-remove t s.ik_x s.ik_x ∙ ground (arith, eq_refl s.ik_x)))
  | inr other ↦
      route-drop_expired ks (Maps.remove m j) _ k s (get-remove m j k ∙ rw (other, g) refl)
        (ground arith)
]

-- What a round leaves of a session table, of the index and of the routes.
pub CoversSessions-sweep_sessions :
    (ks : List RawKey) (st : SessionState)
    → CoversSessions st.sessions st.active_ik_x
    → CoversSessions (sweep_sessions ks st).sessions (sweep_sessions ks st).active_ik_x
CoversSessions-sweep_sessions [] st h = h
CoversSessions-sweep_sessions (k ∷ ks) st h =
    λ ik has. rebuild-exact (drop_expired (k ∷ ks) (st.sessions, st.routes)).0 ik ∙ has

get-sweep_sessions :
    (ks : List RawKey) (st : SessionState) (k : RawKey)
    → get (sweep_sessions ks st).sessions k
      ≡ (if any (λ j. j == k) ks then none else get st.sessions k)
get-sweep_sessions [] st k = refl
get-sweep_sessions (j ∷ ks) st k = get-drop_expired (j ∷ ks) st.sessions st.routes k

route-sweep_sessions :
    (ks : List RawKey) (st : SessionState) (k : RawKey) (s : SessionEntry)
    → get st.sessions k ≡ some s
    → any (λ j. j == k) ks ≡ true
    → get (sweep_sessions ks st).routes.by_key s.ik_x ≡ none
route-sweep_sessions [] st k s g h = cc
route-sweep_sessions (j ∷ ks) st k s g h = route-drop_expired (j ∷ ks) st.sessions st.routes k s g h

-- After a round of the cleanup, when every session key is in the table once, exactly the sessions
-- are gone that were silent for longer than the time to live, which is at least a minute; the
-- others are as they were, and when every session could relay, every session that is left can.
pub get-sweep :
    (route_ttl_sec now : ℕ) (st : AuthState) (k : RawKey)
    → HasOnce st.session_state.sessions
    → CoversSessions st.session_state.sessions st.session_state.active_ik_x
    → (get (sweep route_ttl_sec now st).session_state.sessions k ≡ (
        if holds_at
          (session_expired now (at_least 60 route_ttl_sec))
          (get st.session_state.sessions k)
        then none
        else get st.session_state.sessions k))
      × CoversSessions
          (sweep route_ttl_sec now st).session_state.sessions
          (sweep route_ttl_sec now st).session_state.active_ik_x
unfolding sweep
get-sweep route_ttl_sec now st k once covers =
    let ttl = at_least 60 route_ttl_sec in
    let swept = record st.session_state {
      routes = cleanup now route_ttl_sec st.session_state.routes;
    } in
    let ks = expired_sessions now ttl swept.sessions in
    (
      get-sweep_sessions ks swept k
          ∙ ap (λ b. if b then none else get st.session_state.sessions k)
              (any-keys_where (session_expired now ttl) st.session_state.sessions k once),
      CoversSessions-sweep_sessions ks swept covers,
    )

no_heartbeat :
    (lib : Library) (now : ℕ) (src : SocketAddr) (s : SessionEntry) (t : RouteTable)
    → get t.by_key s.ik_x ≡ none
    → serve_heartbeat lib now src s t ≡ t
unfolding serve_heartbeat
no_heartbeat lib now src s t h = rw (h, serve_heartbeat) refl

-- When a device has two sessions and one of them is silent for longer than the time to live, the
-- cleanup takes the route of the device away, though the other session is left in the table; and
-- the heartbeats of the session that is left change no route.
pub sweep_takes_live_route :
    (lib : Library) (route_ttl_sec now later : ℕ) (src : SocketAddr) (st : AuthState)
    (old new : RawKey) (s live : SessionEntry)
    → HasOnce st.session_state.sessions
    → CoversSessions st.session_state.sessions st.session_state.active_ik_x
    → get st.session_state.sessions old ≡ some s
    → get st.session_state.sessions new ≡ some live
    → live.ik_x ≡ s.ik_x
    → session_expired now (at_least 60 route_ttl_sec) s ≡ true
    → session_expired now (at_least 60 route_ttl_sec) live ≡ false
    → (get (sweep route_ttl_sec now st).session_state.sessions new ≡ some live)
      × (get (sweep route_ttl_sec now st).session_state.routes.by_key live.ik_x ≡ none)
      × (serve_heartbeat lib later src live (sweep route_ttl_sec now st).session_state.routes
          ≡ (sweep route_ttl_sec now st).session_state.routes)
unfolding sweep
sweep_takes_live_route lib route_ttl_sec now later src st old new s live once covers g g2 same
      expired fresh =
    let ttl = at_least 60 route_ttl_sec in
    let swept = record st.session_state {
      routes = cleanup now route_ttl_sec st.session_state.routes;
    } in
    let ks = expired_sessions now ttl swept.sessions in
    let hit = any-keys_where (session_expired now ttl) st.session_state.sessions old once in
    let gone = route-sweep_sessions ks swept old s g (hit ∙ rw (g, expired) refl) in
    let gone' : get (sweep_sessions ks swept).routes.by_key live.ik_x ≡ none = rw same gone in
    (
      (get-sweep route_ttl_sec now st new once covers).0 ∙ rw (g2, fresh) refl,
      gone',
      no_heartbeat lib later src live (sweep_sessions ks swept).routes gone',
    )
