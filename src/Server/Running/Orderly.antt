-- ===== src/Server/Running/Orderly.antt =====
-- The sessions, the index of identity keys and the routes of linkmesh-server/src/signaling.rs stay
-- in order.
use link_mesh.Base.{
  ℕ, ◌∙◌, List, [], ◌∷◌, Text, Bool-cases, Option-cases, Result-cases, inl, inr, ◌==◌, bytes_eq,
  map,
}
use link_mesh.Base.Maps
use link_mesh.Base.Maps.{Map, get, insert}
use link_mesh.Shared.Crypto.{RawKey}
use link_mesh.Shared.Bodies.{RegisterBody}
use link_mesh.Client.Peer.{SocketAddr}
use link_mesh.Server.Library.{Library}
use link_mesh.Server.Rooms.{normalize_self_alias}
use link_mesh.Server.Routes.{RouteTable, RouteEntry}
use link_mesh.Server.Routes.Expiry.{
  IsSoundTable, IsSoundTable-step, IsSoundTable-remove_all, upserts,
}
use link_mesh.Server.Sessions.{
  Sessions, SessionEntry, SessionState, admit_session, remove_sessions, kick_device, end_session,
  of_device, rebuild_active_ik_x,
}
use link_mesh.Server.Sessions.Bounds.{IsBounded, IsBounded-register_session, IsBounded-remove}
use link_mesh.Server.Sessions.Active.{CoversSessions, CoversSessions-admit_session, rebuild-exact}
use link_mesh.Server.Signaling.{
  Request, register, heartbeat, bye, query, unsupported, serve, serve_register, serve_heartbeat,
  register_entry,
}

pub record IsOrderly (st : SessionState) : Type 0 where
  pub bounded : IsBounded st.sessions
  pub covers : CoversSessions st.sessions st.active_ik_x
  pub sound : IsSoundTable st.routes

-- An index that was made anew.
rebuilt-covers : (m : Sessions) → CoversSessions m (rebuild_active_ik_x m)
rebuilt-covers m ik has = rebuild-exact m ik ∙ has

pub IsOrderly-admit_session :
    (s : SessionEntry) (st : SessionState) → IsOrderly st → IsOrderly (admit_session s st)
unfolding admit_session
IsOrderly-admit_session s st h = record {
  bounded = (IsBounded-register_session s st.sessions h.bounded).0;
  covers = CoversSessions-admit_session s st h.covers;
  sound = h.sound;
}

IsBounded-remove_sessions :
    (ks : List RawKey) (m : Sessions) → IsBounded m → IsBounded (remove_sessions ks m)
IsBounded-remove_sessions [] m h = h
IsBounded-remove_sessions (k ∷ ks) m h =
    IsBounded-remove_sessions ks (Maps.remove m k) (IsBounded-remove m k h)

pub IsOrderly-kick_device :
    (d : Text) (st : SessionState) → IsOrderly st → IsOrderly (kick_device d st)
unfolding kick_device
IsOrderly-kick_device d st h = record {
  bounded =
      IsBounded-remove_sessions (map (λ (e : RawKey × SessionEntry). e.0) (of_device d st.sessions))
        st.sessions h.bounded;
  covers = rebuilt-covers _;
  sound =
      IsSoundTable-remove_all
        (map (λ (e : RawKey × SessionEntry). e.1.ik_x) (of_device d st.sessions)) st.routes h.sound;
}

IsOrderly-end_session :
    (sender : RawKey) (s : SessionEntry) (st : SessionState)
    → IsOrderly st
    → IsOrderly (end_session sender s st)
unfolding end_session
IsOrderly-end_session sender s st h = record {
  bounded = IsBounded-remove st.sessions sender h.bounded;
  covers = rebuilt-covers _;
  sound = IsSoundTable-remove_all (s.ik_x ∷ []) st.routes h.sound;
}

pub with_routes :
    (st : SessionState) (t : RouteTable)
    → IsOrderly st
    → IsSoundTable t
    → IsOrderly (record st { routes = t })
with_routes st t h sound = record { bounded = h.bounded; covers = h.covers; sound = sound }

IsSoundTable-serve_register :
    (lib : Library) (now : ℕ) (src : SocketAddr) (s : SessionEntry) (rb : RegisterBody)
    (t : RouteTable)
    → IsSoundTable t
    → IsSoundTable (serve_register lib now src s rb t).0
unfolding serve_register
IsSoundTable-serve_register lib now src s rb t h = elim (Bool-cases (rb.ip == s.ip)) [
  | inr other ↦ rw (serve_register, other) h
  | inl own ↦ elim (Result-cases (normalize_self_alias lib rb.alias)) [
    | inl (alias, fine) ↦
        rw (serve_register, own, fine)
          (IsSoundTable-step (upserts (register_entry lib now src s rb alias) t) h)
    | inr (e, refused) ↦ rw (serve_register, own, refused) h
  ]
]

IsSoundTable-serve_heartbeat :
    (lib : Library) (now : ℕ) (src : SocketAddr) (s : SessionEntry) (t : RouteTable)
    → IsSoundTable t
    → IsSoundTable (serve_heartbeat lib now src s t)
unfolding serve_heartbeat
IsSoundTable-serve_heartbeat lib now src s t h = elim (Option-cases (get t.by_key s.ik_x)) [
  | inl absent ↦ rw (serve_heartbeat, absent) h
  | inr (e, found) ↦ rw (serve_heartbeat, found) (IsSoundTable-step (upserts _ t) h)
]

pub IsOrderly-serve :
    (lib : Library) (now : ℕ) (src : SocketAddr) (aliases : Map Text Text)
    (entries : List RouteEntry) (sender : RawKey) (s : SessionEntry) (request : Request)
    (st : SessionState)
    → IsOrderly st
    → IsOrderly (serve lib now src aliases entries sender s request st).0
unfolding serve
IsOrderly-serve lib now src aliases entries sender s (register rb) st h =
    with_routes st _ h (IsSoundTable-serve_register lib now src s rb st.routes h.sound)
IsOrderly-serve lib now src aliases entries sender s heartbeat st h =
    with_routes st _ h (IsSoundTable-serve_heartbeat lib now src s st.routes h.sound)
IsOrderly-serve lib now src aliases entries sender s bye st h = IsOrderly-end_session sender s st h
IsOrderly-serve lib now src aliases entries sender s (query qb) st h = h
IsOrderly-serve lib now src aliases entries sender s unsupported st h = h
