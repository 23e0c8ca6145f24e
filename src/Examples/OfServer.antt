-- ===== src/Examples/OfServer.antt =====
-- The theorems about linkmesh-server/src at concrete inputs.
use link_mesh.Base.{
  Bool-cases, inl, inr, ◌==◌, Fails, ◌^◌, ◌++◌, ◌↔◌, ◌⊎◌, ℕ, ◌+◌, ◌≤◌, ◌≡◌, ◌≢◌, ◌∙◌, sym, refl,
  Option, none, some, [], ◌∷◌, Bytes, List, Text, length, replicate, arith, ok, bytes_eq, true,
  false,
}
use link_mesh.Base.Maps.{Map, get, insert, remove}
use link_mesh.Shared.Protocol.{frame_relay, parse_relay}
use link_mesh.Client.Peer.{SocketAddr}
use link_mesh.Client.Tunnel.{v4}
use link_mesh.Shared.Cert.Statements.{sign_crl, verify_crl}
use link_mesh.Shared.Cert.{DeviceCert, admin, is_revoked}
use link_mesh.Server.Batches.{BatchEvent, item, tick, batch_worker}
use link_mesh.Server.Batches.Drains.{flushed_for, batch_worker_drains}
use link_mesh.Server.Routes.{RouteTable, RouteEntry, empty, upsert}
use link_mesh.Server.Routes.RoutingKeys.{rk_of, rk_lost_at_second_upsert}
use link_mesh.Server.Relay.{relay_forward, rooms_match, sessions_has_active}
use link_mesh.Server.Relay.Isolation.{sent_to, LetThrough, relay_forward-LetThrough}
use link_mesh.Server.Guards.{queue_of}
use link_mesh.Server.Guards.Limits.{passes, passes-le-limit}
use link_mesh.Server.Sessions.{Sessions, SessionState, has_session, kick_device}
use link_mesh.Server.Sessions.Active.{kick_device-ends}
use link_mesh.Server.Mesh.{
  MeshConfig, peek_invite, allocate_ip, revoke, is_member, issue_cert, member_cert, add_member,
}
use link_mesh.Server.Running.{start}
use link_mesh.Server.Running.Start.{admitted_member_stops_start}
use link_mesh.Server.Mesh.Addresses.{held_ip_not_allocated}
use link_mesh.Server.Mesh.Members.{IsConsistent, IsConsistent-revoke}
use link_mesh.Shared.Crypto.{encrypt_with_nonce, decrypt_with_nonce, session_nonce}
use link_mesh.Server.Routes.{get_by_ip}
use link_mesh.Shared.Bodies.{QueryBody}
use link_mesh.Server.Signaling.{open_session, serve_query}
use link_mesh.Server.Signaling.Counter.{then_packet, no_packet, replayed_packet_refused}
use link_mesh.Server.Signaling.RoomQueries.{in_sight, serve_query-room}
use link_mesh.Server.Auth.{too_far}
use link_mesh.Server.Auth.Clock.{too_far-passes}
use link_mesh.Examples.Data.{
  server_addr, toy, toy_sigs, toy_library, key_a, key_b, entry, other_entry, server_session, mesh,
}

-- The table with two devices.
abbrev table : RouteTable
table = upsert other_entry (upsert entry empty)

-- The second device claims the routing key of the first.
abbrev impostor : RouteEntry
impostor = record other_entry { relay_rk = some (9 ∷ []) }

held_by_first : get table.by_rk (9 ∷ []) ≡ some key_a
unfolding upsert get insert
held_by_first = refl

old_rk : rk_of (get table.by_key key_b) ≡ some (8 ∷ [])
unfolding upsert get insert
old_rk = refl

not_nine : ◌≡◌ {A = Option Text} (some (8 ∷ [])) (some (9 ∷ [])) → ⊥
not_nine e = cc

impostor_new : rk_of (get table.by_key impostor.public_key) ≢ some (9 ∷ [])
impostor_new e = not_nine (sym old_rk ∙ e)

rk_lost_example :
    (get (upsert impostor table).by_rk (9 ∷ []) ≡ some key_a)
    × (get (upsert impostor (upsert impostor table)).by_rk (9 ∷ []) ≡ some key_b)
rk_lost_example =
    rk_lost_at_second_upsert impostor table (9 ∷ []) key_a held_by_first impostor_new refl

other_has : rk_of (get table.by_key other_entry.public_key) ≢ some (9 ∷ [])
other_has e = not_nine (sym old_rk ∙ e)

other_wants : other_entry.relay_rk ≢ some (9 ∷ [])
other_wants e = cc

abbrev packet : Bytes
packet = frame_relay key_b key_a (5 ∷ [])

abbrev at_b : SocketAddr
at_b = record { ip = v4 (1 ∷ 2 ∷ 3 ∷ 4 ∷ []); port = 4000 }

passed_on : sent_to (relay_forward toy_library 6 (key_a ∷ []) true false packet table).1 ≡ some at_b
unfolding relay_forward upsert get frame_relay parse_relay rooms_match insert remove
passed_on = refl

relay_example : LetThrough toy_library 6 (key_a ∷ []) true packet table at_b
relay_example =
    relay_forward-LetThrough toy_library 6 (key_a ∷ []) true false packet table at_b passed_on

no_queue : length (queue_of (get [] key_a)) ≤ 64
unfolding get
no_queue = omega arith

abbrev counts : Map Bytes (ℕ × ℕ)
counts = (1 ∷ [], (100, 2)) ∷ []

counted : get counts (1 ∷ []) ≡ some (100, 2)
unfolding get
counted = refl

passes_example : passes 3 (1 ∷ []) counts (110 ∷ 120 ∷ []) ≤ 1
passes_example =
    passes-le-limit 3 100 2 (1 ∷ []) counts (110 ∷ 120 ∷ []) (omega arith)
      (omega arith, (omega arith, tt)) (omega arith) counted

abbrev pub no_sessions : SessionState
no_sessions = record { sessions = []; active_ik_x = []; routes = table }

abbrev one_session : SessionState
one_session = record no_sessions { sessions = (key_b, server_session) ∷ [] }

is_there : get one_session.sessions key_b ≡ some server_session
unfolding get
is_there = refl

kick_example :
    (get (kick_device (100 ∷ []) one_session).sessions key_b ≡ none)
    × (get (kick_device (100 ∷ []) one_session).routes.by_key key_a ≡ none)
    × ((ik : Bytes)
        → sessions_has_active (kick_device (100 ∷ []) one_session).active_ik_x ik
          ≡ has_session (kick_device (100 ∷ []) one_session).sessions ik)
kick_example = kick_device-ends (100 ∷ []) one_session key_b server_session is_there refl

abbrev pub hash : Text → Text
hash code = code

peeked : peek_invite hash (1 ∷ []) 50 mesh ≡ ok (some (51 ∷ []))
unfolding peek_invite
peeked = refl

allocated : allocate_ip hash (some (60 ∷ [])) mesh ≡ ok (60 ∷ [])
unfolding allocate_ip
allocated = refl

held_example : allocate_ip hash (some (51 ∷ [])) mesh ≢ ok (51 ∷ [])
held_example = held_ip_not_allocated hash (1 ∷ []) 50 hash (some (51 ∷ [])) mesh (51 ∷ []) peeked

IsConsistent-example : IsConsistent mesh
IsConsistent-example = record { distinct = tt; none_revoked = refl; crl_fits = omega arith }

abbrev with_revoked : MeshConfig
with_revoked = record mesh {
  crl = sign_crl toy_sigs key_a (record mesh.crl {
    version = 1;
    entries =
        record { device_id = 100 ∷ []; reason = admin; revoked_at = 7; replacement = none } ∷ [];
  });
}

revoked : revoke toy_sigs (100 ∷ []) admin 7 mesh ≡ ok with_revoked
unfolding revoke
revoked = refl

revoke_example :
    IsConsistent with_revoked
    × (is_revoked with_revoked.crl (100 ∷ []) ≡ true)
    × (is_member (100 ∷ []) with_revoked ≡ false)
    × (with_revoked.crl.version ≡ mesh.crl.version + 1)
    × (verify_crl toy_sigs (toy_sigs.public_of key_a) with_revoked.crl ≡ ok tt)
revoke_example =
    IsConsistent-revoke toy_sigs (100 ∷ []) admin 7 mesh with_revoked IsConsistent-example
      (omega arith) revoked

-- A frame of the session under the key of the second device: a header, and the text under the
-- counter 1.
abbrev frame_one : Bytes
frame_one = replicate 36 0 ++ encrypt_with_nonce toy key_b (session_nonce 1 0) (5 ∷ [])

abbrev sessions_after : Sessions
sessions_after = (key_b, record server_session { counter_rx = 1; last_seen = 6 }) ∷ []

opened : open_session toy 6 key_b frame_one one_session.sessions ≡ some (5 ∷ [], sessions_after)
unfolding open_session encrypt_with_nonce session_nonce get insert decrypt_with_nonce
opened = refl

-- The next packet of the session, under the counter 2.
abbrev frame_two : Bytes
frame_two = replicate 36 0 ++ encrypt_with_nonce toy key_b (session_nonce 2 0) (5 ∷ [])

abbrev sessions_later : Sessions
sessions_later = (key_b, record server_session { counter_rx = 2; last_seen = 8 }) ∷ []

opened_two : open_session toy 8 key_b frame_two sessions_after ≡ some (5 ∷ [], sessions_later)
unfolding open_session encrypt_with_nonce session_nonce get insert decrypt_with_nonce
opened_two = refl

replayed_packet_example : open_session toy 9 key_b frame_one sessions_later ≡ none
replayed_packet_example =
    replayed_packet_refused toy 6 9 1 key_b frame_one one_session.sessions sessions_later
      server_session (5 ∷ [], sessions_after) is_there (omega arith) opened
      (then_packet no_packet 8 key_b frame_two (5 ∷ [], sessions_later) opened_two)

abbrev ask_first : QueryBody
ask_first = record { ip = 49 ∷ []; name = none }

abbrev one_room : RouteTable
one_room = upsert entry empty

-- With the second device in another room.
abbrev two_rooms : RouteTable
two_rooms = upsert (record other_entry { room = 6 ∷ [] }) one_room

same_sight :
    (ip : Text)
    → in_sight server_session.room (get_by_ip two_rooms ip)
      ≡ in_sight server_session.room (get_by_ip one_room ip)
unfolding get_by_ip upsert get insert
same_sight ip = elim (Bool-cases ((49 ∷ []) == ip)) [
  | inl first ↦ rw first refl
  | inr other ↦ elim (Bool-cases ((50 ∷ []) == ip)) [
    | inl second ↦ rw (other, second) refl
    | inr neither ↦ rw (other, neither) refl
  ]
]

serve_query_example :
    serve_query toy_library [] [] server_session ask_first two_rooms
    ≡ serve_query toy_library [] [] server_session ask_first one_room
serve_query_example =
    serve_query-room toy_library [] [] server_session ask_first two_rooms one_room same_sight

-- Both devices call themselves `n`; the one in the other room is the first.
abbrev foreign_nas : RouteEntry
foreign_nas = record other_entry { room = 6 ∷ []; alias = some (b'n' ∷ []) }

abbrev own_nas : RouteEntry
own_nas = record entry { alias = some (b'n' ∷ []) }

abbrev two_names : RouteTable
two_names = upsert foreign_nas (upsert own_nas empty)

too_far_example :
    (too_far 1020 1000 ≡ false) ↔ (((1020 ≤ 1030) × (1000 ≤ 1050)) ⊎ (1020 ≡ 1000 + 2 ^ 63))
too_far_example = too_far-passes 1020 1000 (omega arith) (omega arith) (omega arith)

-- Two subframes for one destination, with one for another between them.
abbrev arrivals : List BatchEvent
arrivals =
    item (record { dest = key_a; addr = server_addr; subframe = 1 ∷ [] })
    ∷ item (record { dest = key_b; addr = server_addr; subframe = 2 ∷ [] })
    ∷ item (record { dest = key_a; addr = server_addr; subframe = 3 ∷ [] })
    ∷ []

batch_worker_drains_example :
    (flushed_for key_a (batch_worker 100 (arrivals ++ tick ∷ []) []).1 ≡ (1 ∷ []) ∷ (3 ∷ []) ∷ [])
    × (get (batch_worker 100 (arrivals ++ tick ∷ []) []).0 key_a ≡ none)
unfolding get
batch_worker_drains_example = batch_worker_drains 100 arrivals [] key_a

abbrev new_cert : DeviceCert
new_cert = member_cert toy_sigs key_a key_b (60 ∷ []) (100 ∷ []) 5 mesh

abbrev with_member : MeshConfig
with_member = add_member (100 ∷ []) new_cert 5 mesh

issued : issue_cert toy_sigs key_a key_b (60 ∷ []) (100 ∷ []) 5 mesh ≡ ok (new_cert, with_member)
unfolding issue_cert
issued = refl

stops_start_example : Fails (start toy_sigs 40000000 with_member)
stops_start_example =
    admitted_member_stops_start toy_sigs key_a key_b (60 ∷ []) (100 ∷ []) 5 40000000 mesh
      (new_cert, with_member) issued (omega arith) (omega arith)
