-- ===== src/Server/Signaling.antt =====
-- `handle_session_signaling` of linkmesh-server/src/signaling.rs: what an authenticated device may
-- ask, and the answers.
pub mod Counter
pub mod RoomQueries
use link_mesh.Base.{
  ℕ, ◌+◌, ◌%◌, ◌^◌, Option, none, some, List, [], ◌∷◌, Bytes, Text, Bool, true, false, length, eqb,
  drop, find, not, if◌then◌else◌, ◌==◌, bytes_eq, Result, ok, err,
}
use link_mesh.Base.Maps.{Map, get, insert}
use link_mesh.Shared.Crypto.{Primitives, RawKey, decrypt_with_nonce, session_nonce}
use link_mesh.Shared.Protocol.{header_len}
use link_mesh.Shared.Bodies.{RegisterBody, QueryBody}
use link_mesh.Client.Peer.{SocketAddr}
use link_mesh.Server.Library.{Library}
use link_mesh.Server.Rooms.{normalize_self_alias}
use link_mesh.Server.Routes.{RouteEntry, RouteTable, upsert, get_by_ip}
use link_mesh.Server.Sessions.{Sessions, SessionEntry, SessionState, end_session}

-- The next packet of a session: the text under the next counter, and the counter moved on.
unfoldable pub open_session : Primitives → ℕ → RawKey → Bytes → Sessions → Option (Bytes × Sessions)
unfolding decrypt_with_nonce session_nonce
open_session prim now sender packet sessions = elim (get sessions sender) [
  | none ↦ none
  | some s ↦
      let next_seq = (s.counter_rx + 1) % 2 ^ 64 in
      elim (decrypt_with_nonce prim s.sk (session_nonce next_seq 0) (drop header_len packet)) [
        | err e ↦ none
        | ok plaintext ↦ some (
          plaintext,
          insert sessions sender (record s { counter_rx = next_seq; last_seen = now }),
        )
      ]
]

-- A request whose body was decoded.
pub data Request : Type 0 where
  register : RegisterBody → Request
  heartbeat : Request
  bye : Request
  query : QueryBody → Request
  unsupported : Request

pub data Reply : Type 0 where
  done : Reply
  wrong_ip : Reply
  bad_alias : Reply
  hit : RouteEntry → Reply
  miss : Reply
  not_supported : Reply

-- The entry that a session registers. The token of the body only leads to a warning.
unfoldable pub register_entry :
    Library → ℕ → SocketAddr → SessionEntry → RegisterBody → Option Text → RouteEntry
register_entry lib now src s rb alias = record {
  public_key = s.ik_x;
  ip = s.ip;
  endpoint = lib.show_addr src;
  last_seen = now;
  relay_rk = rb.relay_rk;
  room = s.room;
  alias = alias;
}

unfoldable pub serve_register :
    Library → ℕ → SocketAddr → SessionEntry → RegisterBody → RouteTable → RouteTable × Reply
unfolding register_entry normalize_self_alias upsert
serve_register lib now src s rb routes =
    if not (rb.ip == s.ip) then (routes, wrong_ip) else elim (normalize_self_alias lib rb.alias) [
      | err e ↦ (routes, bad_alias)
      | ok alias ↦ (upsert (register_entry lib now src s rb alias) routes, done)
    ]

unfoldable pub serve_heartbeat : Library → ℕ → SocketAddr → SessionEntry → RouteTable → RouteTable
unfolding upsert
serve_heartbeat lib now src s routes = elim (get routes.by_key s.ik_x) [
  | none ↦ routes
  | some e ↦
      upsert
        (record e {
          public_key = s.ik_x;
          endpoint = lib.show_addr src;
          last_seen = now;
          room = s.room;
        })
        routes
]

-- The administrator's aliases first, then those that devices gave themselves; `entries` is the
-- table in the order of the keys (`snapshot`).
unfoldable pub resolve_alias : Map Text Text → List RouteEntry → Text → Option Text
resolve_alias aliases entries name = elim (get aliases name) [
  | some ip ↦ some ip
  | none ↦ elim (find (λ e. elim e.alias [ none ↦ false | some a ↦ a == name ]) entries) [
    | none ↦ none
    | some e ↦ some e.ip
  ]
]

unfoldable pub query_target : Library → Map Text Text → List RouteEntry → QueryBody → Option Text
unfolding resolve_alias
query_target lib aliases entries qb = elim qb.name [
  | none ↦ some qb.ip
  | some name ↦
      let wanted = lib.to_lowercase (lib.trim name) in
      if eqb (length wanted) 0 then none else resolve_alias aliases entries wanted
]

-- Only an entry in the room of the session is shown.
abbrev pub in_room : Text → Option RouteEntry → Reply
in_room room none = miss
in_room room (some e) = if e.room == room then hit e else miss

unfoldable pub serve_query :
    Library → Map Text Text → List RouteEntry → SessionEntry → QueryBody → RouteTable → Reply
unfolding query_target get_by_ip
serve_query lib aliases entries s qb routes = elim (query_target lib aliases entries qb) [
  | none ↦ miss
  | some ip ↦ in_room s.room (get_by_ip routes ip)
]

-- The `match` on the type of the message, for the session `s` under the key `sender`.
unfoldable pub serve :
    Library
    → ℕ
    → SocketAddr
    → Map Text Text
    → List RouteEntry
    → RawKey
    → SessionEntry
    → Request
    → SessionState
    → SessionState × Reply
unfolding serve_register serve_heartbeat serve_query end_session
serve lib now src aliases entries sender s (register rb) st =
    let (routes', reply) = serve_register lib now src s rb st.routes in
    (record st { routes = routes' }, reply)
serve lib now src aliases entries sender s heartbeat st =
    (record st { routes = serve_heartbeat lib now src s st.routes }, done)
serve lib now src aliases entries sender s bye st = (end_session sender s st, done)
serve lib now src aliases entries sender s (query qb) st =
    (st, serve_query lib aliases entries s qb st.routes)
serve lib now src aliases entries sender s unsupported st = (st, not_supported)
