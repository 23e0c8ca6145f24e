-- ===== src/Server/Sweep.antt =====
-- One round of `cleanup_loop` of linkmesh-server/src/signaling.rs.
pub mod Left
use link_mesh.Base.{
  ℕ, ◌-◌, none, some, List, [], ◌∷◌, Bool, ltb, map, retain, if◌then◌else◌, bytes_eq,
}
use link_mesh.Base.Maps
use link_mesh.Base.Maps.{get, keys_where}
use link_mesh.Shared.Crypto.{RawKey}
use link_mesh.Server.Guards.{prune_limits}
use link_mesh.Server.Routes.{RouteTable, remove, cleanup}
use link_mesh.Server.Sessions.{Sessions, SessionEntry, SessionState, rebuild_active_ik_x}
use link_mesh.Server.Auth.{AuthState}

-- `max`
abbrev pub at_least : ℕ → ℕ → ℕ
at_least least n = if ltb n least then least else n

abbrev pub session_expired : ℕ → ℕ → SessionEntry → Bool
session_expired now ttl s = ltb ttl (now - s.last_seen)

abbrev pub expired_sessions : ℕ → ℕ → Sessions → List RawKey
expired_sessions now ttl sessions = keys_where (session_expired now ttl) sessions

-- The sessions under the keys are removed, and the route of each one's device with it.
unfoldable pub drop_expired : List RawKey → Sessions × RouteTable → Sessions × RouteTable
drop_expired [] st = st
drop_expired (k ∷ expired) (sessions, routes) = drop_expired expired (
  Maps.remove sessions k,
  elim (get sessions k) [ none ↦ routes | some s ↦ remove routes s.ik_x ],
)

abbrev pub sweep_sessions : List RawKey → SessionState → SessionState
sweep_sessions [] st = st
sweep_sessions (k ∷ expired) st =
    let (sessions', routes') = drop_expired (k ∷ expired) (st.sessions, st.routes) in
    record { sessions = sessions'; active_ik_x = rebuild_active_ik_x sessions'; routes = routes' }

unfoldable pub sweep : ℕ → ℕ → AuthState → AuthState
unfolding cleanup prune_limits drop_expired rebuild_active_ik_x
sweep route_ttl_sec now st =
    let swept = record st.session_state {
      routes = cleanup now route_ttl_sec st.session_state.routes;
    } in
    let ttl = at_least 60 route_ttl_sec in
    record st {
      rate_limits = prune_limits now st.rate_limits;
      session_state = sweep_sessions (expired_sessions now ttl swept.sessions) swept;
    }
