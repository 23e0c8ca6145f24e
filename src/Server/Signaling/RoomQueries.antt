-- ===== src/Server/Signaling/RoomQueries.antt =====
-- Rooms and names in the queries of `handle_session_signaling` of
-- linkmesh-server/src/signaling.rs.
use link_mesh.Base.{
  length, if◌then◌else◌, ◌≡◌, refl, ap, sym, ◌∙◌, Option, none, some, List, Text, length,
  Bool-cases, Option-cases, inl, inr, ◌==◌, bytes_eq,
}
use link_mesh.Base.Maps.{Map}
use link_mesh.Server.Library.{Library}
use link_mesh.Server.Routes.{RouteEntry, RouteTable, get_by_ip}
use link_mesh.Server.Sessions.{SessionEntry}
use link_mesh.Shared.Bodies.{QueryBody}
use link_mesh.Server.Signaling.{in_room, query_target, serve_query}

-- What a session of the room may see of an entry.
abbrev pub in_sight : Text → Option RouteEntry → Option RouteEntry
in_sight room none = none
in_sight room (some e) = if e.room == room then some e else none

in_room-in_sight :
    (room : Text) (o : Option RouteEntry) → in_room room o ≡ in_room room (in_sight room o)
in_room-in_sight room none = refl
in_room-in_sight room (some e) = elim (Bool-cases (e.room == room)) [
  | inl same ↦ rw (same, same) refl
  | inr other ↦ rw other refl
]

-- The name of a query, as it is looked up.
abbrev pub wanted_name : Library → Text → Text
wanted_name lib name = lib.to_lowercase (lib.trim name)

-- What stands in other rooms does not show in the answer to a query, once its name is resolved:
-- two route tables with the same entries of the session's room give the same answer. (The names
-- that devices gave themselves are looked up in `entries`, which is not split by rooms.)
pub serve_query-room :
    (lib : Library) (aliases : Map Text Text) (entries : List RouteEntry) (s : SessionEntry)
    (qb : QueryBody) (routes routes' : RouteTable)
    → ((ip : Text) → in_sight s.room (get_by_ip routes ip) ≡ in_sight s.room (get_by_ip routes' ip))
    → serve_query lib aliases entries s qb routes ≡ serve_query lib aliases entries s qb routes'
unfolding serve_query
serve_query-room lib aliases entries s qb routes routes' same =
    elim (Option-cases (query_target lib aliases entries qb)) [
      | inl nothing ↦ rw (nothing, serve_query) refl
      | inr (ip, target) ↦
          rw (target, serve_query)
            (in_room-in_sight s.room (get_by_ip routes ip)
              ∙ ap (in_room s.room) (same ip)
              ∙ sym (in_room-in_sight s.room (get_by_ip routes' ip)))
    ]
