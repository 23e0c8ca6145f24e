-- ===== src/Server/Dispatch.antt =====
-- What one packet does: `handle`, `handle_signaling` and `handle_session_signaling` of
-- linkmesh-server/src/signaling.rs.
pub mod Read
use link_mesh.Base.{
  ℕ, none, some, List, [], ◌∷◌, ◌++◌, Bytes, Bool, any, not, length, eqb, drop, ◌||◌, if◌then◌else◌,
  bytes_eq, Result, ok, err, ◌>>=◌,
}
use link_mesh.Base.Maps.{get}
use link_mesh.Shared.Crypto.{
  RawKey, generate_keypair, shared_secret, encrypt_with_nonce, decrypt, session_nonce,
}
use link_mesh.Shared.Protocol.{
  header_len, PacketHeader, parse_header, frame_signaling, msg_register, msg_query, msg_response,
  msg_bye, msg_relay, msg_heartbeat, msg_keyquery, msg_join, msg_auth, msg_relay_rk, msg_auth_resp,
}
use link_mesh.Shared.Bodies.{ok_body, ok_with_data, joined, AuthRespBody}
use link_mesh.Shared.Wire.{WireError}
use link_mesh.Shared.Wire.Handshake.{decode_join, decode_auth, encode_auth_resp}
use link_mesh.Shared.Wire.Requests.{decode_register, decode_query}
use link_mesh.Shared.Wire.Responses.{encode_response}
use link_mesh.Server.Mesh.{MeshConfig}
use link_mesh.Server.Routes.{RouteEntry, remove}
use link_mesh.Server.Relay.{relay_forward}
use link_mesh.Server.Sessions.{SessionEntry, SessionState}
use link_mesh.Server.Signaling.{
  Request, register, heartbeat, bye, query, unsupported, Reply, wrong_ip, bad_alias, open_session,
  serve,
}
use link_mesh.Server.Auth.{AuthReply, limited, rejected, admitted, handle_auth}
use link_mesh.Server.Join.{
  Server, JoinReply, silent, join_refused, join_accepted, build_server_info, handle_join,
}
use link_mesh.Server.Desk.{
  of_join, of_auth, of_session, unauthenticated, Desk, Hub, Arrival, Output, datagram, forwarded,
  send_sealed, send_response, send_error, handle_keyquery, reply_body, notify_peer, notices,
}

-- The request that the type of the message announces.
unfoldable pub decode_request : Server → ℕ → Bytes → Result WireError Request
unfolding decode_register decode_query
decode_request sv msg_type pt =
    if eqb msg_type msg_register
    then (decode_register sv.sigs pt >>= λ rb. ok (register rb))
    else if eqb msg_type msg_heartbeat
    then ok heartbeat
    else if eqb msg_type msg_bye
    then ok bye
    else if eqb msg_type msg_query
    then (decode_query pt >>= λ qb. ok (query qb))
    else ok unsupported

-- The answer of a session carries the counter of the request; two errors of a registration are
-- sealed under a random nonce.
unfoldable pub session_answer : Desk → Arrival → SessionEntry → Request → Reply → List Output
unfolding send_sealed encode_response encrypt_with_nonce session_nonce frame_signaling reply_body
session_answer d a s request wrong_ip = send_error d a s.sk (of_session wrong_ip)
session_answer d a s request bad_alias = send_error d a s.sk (of_session bad_alias)
session_answer d a s request reply =
    elim (encode_response d.server.sigs (reply_body d request reply)) [
      | err e ↦ []
      | ok pt ↦
          datagram a.src (
            frame_signaling msg_response d.server.server_pub
              (encrypt_with_nonce d.prim s.sk (session_nonce s.counter_rx 1) pt))
          ∷ []
    ]

-- `entries` is the table in the order of its keys, for `resolve_alias`.
unfoldable pub serve_session :
    Desk
    → Arrival
    → List RouteEntry
    → RawKey
    → SessionEntry
    → Request
    → SessionState
    → SessionState × List Output
unfolding serve session_answer notify_peer
serve_session d a entries sender s request st =
    let (st', reply) = serve d.server.lib a.now a.src d.aliases entries sender s request st in
    (st', notices d a st'.routes s reply ++ session_answer d a s request reply)

abbrev pub with_sessions : Hub → SessionState → Hub
with_sessions h st = record h { auth = record h.auth { session_state = st } }

unfoldable pub handle_session_signaling :
    Desk → Arrival → List RouteEntry → PacketHeader → Bytes → Hub → Hub × List Output
unfolding open_session decode_request serve_session
handle_session_signaling d a entries hdr packet h =
    let st = h.auth.session_state in
    elim (open_session d.prim a.now hdr.sender_public_key packet st.sessions) [
      | none ↦ (h, [])
      | some (pt, sessions') ↦
          let st1 = record st { sessions = sessions' } in
          elim (decode_request d.server hdr.msg_type pt) [
            | err e ↦ (with_sessions h st1, [])
            | ok request ↦ elim (get sessions' hdr.sender_public_key) [
              | none ↦ (with_sessions h st1, [])
              | some s ↦
                  let (st2, out) = serve_session d a entries hdr.sender_public_key s request st1 in
                  (with_sessions h st2, out)
            ]
          ]
    ]

abbrev pub join_answer : Desk → Arrival → RawKey → JoinReply → List Output
join_answer d a key silent = []
join_answer d a key (join_refused e) = send_error d a key (of_join e)
join_answer d a key (join_accepted data_of) = send_response d a key (ok_with_data (joined data_of))

unfoldable pub serve_join : Desk → Arrival → RawKey → Bytes → Hub → Hub × List Output
unfolding decode_join handle_join send_sealed encode_response
serve_join d a sender pt h = elim (decode_join d.server.sigs pt) [
  | err e ↦ (h, [])
  | ok jb ↦
      let (limits, mesh', reply) =
        handle_join d.server d.rooms a.now a.octets sender jb h.auth.rate_limits h.mesh in
      (
        record h { auth = record h.auth { rate_limits = limits }; mesh = mesh' },
        join_answer d a (shared_secret d.prim d.server.server_priv sender) reply,
      )
]

abbrev pub auth_resp : Desk → Arrival → MeshConfig → SessionEntry → AuthRespBody
auth_resp d a m s = record {
  ek_s = d.server.sigs.encode (generate_keypair d.prim a.secret).public;
  session_id = d.server.sigs.encode a.session_id;
  crl = m.crl;
  server_info = build_server_info d.server m;
  allocated_ip = s.ip;
}

abbrev pub auth_answer : Desk → Arrival → MeshConfig → RawKey → AuthReply → List Output
auth_answer d a m key limited = []
auth_answer d a m key (rejected e) = send_error d a key (of_auth e)
auth_answer d a m key (admitted s) =
    send_sealed d a.src key a.nonce msg_auth_resp
      (encode_auth_resp d.server.sigs (auth_resp d a m s))

unfoldable pub serve_auth : Desk → Arrival → RawKey → Bytes → Hub → Hub × List Output
unfolding decode_auth handle_auth send_sealed encode_auth_resp encode_response build_server_info
    generate_keypair shared_secret
serve_auth d a sender pt h = elim (decode_auth d.server.sigs pt) [
  | err e ↦ (h, [])
  | ok ab ↦
      let sv = d.server in
      let (auth', reply) =
        handle_auth sv.sigs d.prim sv.lib sv.hash_token sv.join_limit sv.server_priv a.secret
          sv.root_pub d.rooms h.mesh a.now a.octets sender ab h.auth in
      (
        record h { auth = auth' },
        auth_answer d a h.mesh (shared_secret d.prim sv.server_priv sender) reply,
      )
]

-- A packet of the handshake: its text is sealed under the static keys.
unfoldable pub handle_handshake : Desk → Arrival → PacketHeader → Bytes → Hub → Hub × List Output
unfolding shared_secret decrypt serve_join serve_auth send_sealed encode_response remove
handle_handshake d a hdr packet h =
    let sender = hdr.sender_public_key in
    let shared = shared_secret d.prim d.server.server_priv sender in
    let st = h.auth.session_state in
    elim (decrypt d.prim shared (drop header_len packet)) [
      | err e ↦ (h, [])
      | ok pt ↦
          if eqb hdr.msg_type msg_join
          then serve_join d a sender pt h
          else if eqb hdr.msg_type msg_auth
          then serve_auth d a sender pt h
          else if eqb hdr.msg_type msg_bye
          then (
            with_sessions h (record st { routes = remove st.routes sender }),
            send_response d a shared ok_body,
          )
          else (h, send_error d a shared unauthenticated)
    ]

unfoldable pub handle_signaling :
    Desk → Arrival → List RouteEntry → PacketHeader → Bytes → Hub → Hub × List Output
unfolding handle_keyquery handle_session_signaling handle_handshake
handle_signaling d a entries hdr packet h =
    if eqb hdr.msg_type msg_keyquery
    then handle_keyquery d a h
    else elim (get h.auth.session_state.sessions hdr.sender_public_key) [
      | none ↦ handle_handshake d a hdr packet h
      | some s ↦ handle_session_signaling d a entries hdr packet h
    ]

unfoldable pub handle_relay : Desk → Arrival → Bytes → Hub → Hub × List Output
unfolding relay_forward
handle_relay d a packet h =
    let st = h.auth.session_state in
    let (routes', relayed) =
      relay_forward d.server.lib a.now st.active_ik_x (not (eqb (length d.rooms) 0)) a.queue_accepts
        packet st.routes in
    (with_sessions h (record st { routes = routes' }), forwarded relayed ∷ [])

abbrev pub is_signaling : ℕ → Bool
is_signaling t =
    any (eqb t)
      (msg_query ∷ msg_register ∷ msg_heartbeat ∷ msg_bye ∷ msg_keyquery ∷ msg_join ∷ msg_auth ∷ [])

-- Whatever is no frame, or of another type, is only logged.
unfoldable pub handle : Desk → Arrival → List RouteEntry → Bytes → Hub → Hub × List Output
unfolding parse_header handle_relay handle_signaling
handle d a entries packet h = elim (parse_header packet) [
  | err e ↦ (h, [])
  | ok hdr ↦
      if eqb hdr.msg_type msg_relay || eqb hdr.msg_type msg_relay_rk
      then handle_relay d a packet h
      else if is_signaling hdr.msg_type
      then handle_signaling d a entries hdr packet h
      else (h, [])
]
