-- ===== src/Server/Sessions.antt =====
-- The sessions of linkmesh-server/src/signaling.rs: the table that `handle_auth` fills, the index
-- of their identity keys, revocation and expiry.
pub mod Bounds
pub mod Active
use link_mesh.Base.{
  ℕ, ◌+◌, ◌-◌, Option, none, some, List, [], ◌∷◌, ◌++◌, Bytes, Text, Bool, true, false, length, ltb,
  leb, eqb, any, if◌then◌else◌, ◌==◌, bytes_eq, retain, map, not,
}
use link_mesh.Base.Maps
use link_mesh.Base.Maps.{Map, get, insert}
use link_mesh.Shared.Crypto.{RawKey}
use link_mesh.Server.Routes.{RouteTable, remove_all}

-- `SessionKey` is its key.
pub record SessionEntry : Type 0 where
  pub session_pub : RawKey
  pub device_id : Text
  pub ik_x : RawKey
  pub ip : Text
  pub sk : RawKey
  pub counter_rx : ℕ
  pub last_seen : ℕ
  pub room : Text

abbrev pub Sessions : Type 0
Sessions = Map RawKey SessionEntry

-- `min_by_key(|(_, s)| s.last_seen)` and its key: the first of the least.
abbrev pub oldest_from : RawKey × ℕ → Sessions → RawKey
oldest_from (k, t) [] = k
oldest_from (k, t) ((j, s) ∷ rest) =
    let later = oldest_from (j, s.last_seen) rest in
    let same = oldest_from (k, t) rest in if ltb s.last_seen t then later else same

abbrev pub oldest : Sessions → Option RawKey
oldest [] = none
oldest ((k, s) ∷ rest) = some (oldest_from (k, s.last_seen) rest)

-- The removal of the oldest of `among`, and the identity key of what went.
unfoldable pub evict_oldest : Sessions → Sessions → Sessions × List RawKey
evict_oldest among sessions = elim (oldest among) [
  | none ↦ (sessions, [])
  | some k ↦ elim (get sessions k) [
    | none ↦ (sessions, [])
    | some s ↦ (Maps.remove sessions k, s.ik_x ∷ [])
  ]
]

abbrev pub max_sessions_per_device : ℕ
max_sessions_per_device = 8

abbrev pub max_total_sessions : ℕ
max_total_sessions = 4096

abbrev pub is_of : Text → RawKey × SessionEntry → Bool
is_of device_id e = e.1.device_id == device_id

abbrev pub of_device : Text → Sessions → Sessions
of_device device_id sessions = retain (is_of device_id) sessions

unfoldable pub evict_total : Sessions → Sessions × List RawKey
unfolding evict_oldest
evict_total sessions =
    if leb max_total_sessions (length sessions)
    then evict_oldest sessions sessions
    else (sessions, [])

unfoldable pub evict_device : Text → Sessions → Sessions × List RawKey
unfolding evict_oldest
evict_device device_id sessions =
    if leb max_sessions_per_device (length (of_device device_id sessions))
    then evict_oldest (of_device device_id sessions) sessions
    else (sessions, [])

-- The session that `handle_auth` registers, in the bounded table.
unfoldable pub register_session : SessionEntry → Sessions → Sessions × List RawKey
unfolding evict_total evict_device
register_session s sessions =
    let (sessions1, evicted1) = evict_total sessions in
    let (sessions2, evicted2) = evict_device s.device_id sessions1 in
    (insert sessions2 s.session_pub s, evicted1 ++ evicted2)

-- Whether a session has the identity key.
abbrev pub has_session : Sessions → RawKey → Bool
has_session sessions ik = any (λ e. e.1.ik_x == ik) sessions

-- `HashSet`: the keys in it.
abbrev pub set_remove : RawKey → List RawKey → List RawKey
set_remove ik active = retain (λ k. not (k == ik)) active

unfoldable pub drop_evicted : Sessions → List RawKey → List RawKey → List RawKey
drop_evicted sessions [] active = active
drop_evicted sessions (ik ∷ evicted) active =
    drop_evicted sessions evicted (if has_session sessions ik then active else set_remove ik active)

-- The index of the identity keys after `handle_auth`.
unfoldable pub update_active : SessionEntry → Sessions → List RawKey → List RawKey → List RawKey
unfolding drop_evicted
update_active s sessions evicted active = drop_evicted sessions evicted (s.ik_x ∷ active)

unfoldable pub rebuild_active_ik_x : Sessions → List RawKey
rebuild_active_ik_x sessions = map (λ (e : RawKey × SessionEntry). e.1.ik_x) sessions

-- The part of the server's state that sessions are about.
pub record SessionState : Type 0 where
  pub sessions : Sessions
  pub active_ik_x : List RawKey
  pub routes : RouteTable

-- `handle_auth` from the registration of the session on.
unfoldable pub admit_session : SessionEntry → SessionState → SessionState
unfolding register_session update_active
admit_session s st =
    let (sessions', evicted) = register_session s st.sessions in
    record st {
      sessions = sessions';
      active_ik_x = update_active s sessions' evicted st.active_ik_x;
    }

-- The removal of the sessions under some keys, one after another.
abbrev pub remove_sessions : List RawKey → Sessions → Sessions
remove_sessions [] sessions = sessions
remove_sessions (k ∷ ks) sessions = remove_sessions ks (Maps.remove sessions k)

-- `revoke_device` after the change of the revocation list.
unfoldable pub kick_device : Text → SessionState → SessionState
unfolding rebuild_active_ik_x
kick_device device_id st =
    let victims = of_device device_id st.sessions in
    let sessions' =
      remove_sessions (map (λ (e : RawKey × SessionEntry). e.0) victims) st.sessions in
    record {
      sessions = sessions';
      active_ik_x = rebuild_active_ik_x sessions';
      routes = remove_all (map (λ (e : RawKey × SessionEntry). e.1.ik_x) victims) st.routes;
    }

-- A session that ends with BYE.
unfoldable pub end_session : RawKey → SessionEntry → SessionState → SessionState
unfolding rebuild_active_ik_x
end_session sender s st =
    let sessions' = Maps.remove st.sessions sender in
    record {
      sessions = sessions';
      active_ik_x = rebuild_active_ik_x sessions';
      routes = remove_all (s.ik_x ∷ []) st.routes;
    }
