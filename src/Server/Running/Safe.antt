-- ===== src/Server/Running/Safe.antt =====
-- A packet leaves the server of linkmesh-server/src/signaling.rs in order.
use link_mesh.Base.{
  not, length, List, Bytes, ◌||◌, inl, inr, Bool-cases, Option-cases, Result-cases, eqb, bytes_eq,
  drop,
}
use link_mesh.Base.Maps.{get}
use link_mesh.Shared.Crypto.{RawKey, decrypt, shared_secret}
use link_mesh.Shared.Protocol.{
  PacketHeader, parse_header, header_len, msg_relay, msg_relay_rk, msg_keyquery, msg_join, msg_auth,
  msg_bye,
}
use link_mesh.Shared.Wire.Handshake.{decode_join, decode_auth}
use link_mesh.Server.Mesh.Members.{IsConsistent}
use link_mesh.Server.Routes.{RouteEntry}
use link_mesh.Server.Routes.Expiry.{IsSoundTable-step, removes}
use link_mesh.Server.Sessions.{SessionState}
use link_mesh.Server.Signaling.{open_session}
use link_mesh.Server.Join.Outcome.{IsConsistent-join_mesh}
use link_mesh.Server.Desk.{Desk, Hub, Arrival, handle_keyquery}
use link_mesh.Server.Dispatch.{
  decode_request, handle_session_signaling, serve_session, serve_join, serve_auth, handle_handshake,
  handle_signaling, handle_relay, is_signaling, handle,
}
use link_mesh.Server.Running.Orderly.{IsOrderly, with_routes, IsOrderly-serve}
use link_mesh.Server.Running.Moves.{
  IsOrderly-relay_forward, IsOrderly-open_session, IsOrderly-handle_auth,
}
use link_mesh.Server.Running.Root.{KeepsRoot-handle_join, handle_join-mesh}
use link_mesh.Server.Running.Answers.{IsCurrent, IsCurrent-KeepsRoot, handle_keyquery_lem}

-- The sessions are within their bounds, each device of one may relay, the indexes of the routes
-- agree, the members of the mesh are distinct and not revoked, and the kept answer is the one of
-- the version of the list that it is kept with.
pub record IsSafe (d : Desk) (h : Hub) : Type 0 where
  pub orderly : IsOrderly h.auth.session_state
  pub consistent : IsConsistent h.mesh
  pub current : IsCurrent d.server h.mesh h.serverinfo_cache

with_state :
    (d : Desk) (h : Hub) (st : SessionState)
    → IsSafe d h
    → IsOrderly st
    → IsSafe d (record h { auth = record h.auth { session_state = st } })
with_state d h st safe orderly = record {
  orderly = orderly;
  consistent = safe.consistent;
  current = safe.current;
}

IsSafe-serve_join :
    (d : Desk) (a : Arrival) (sender : RawKey) (pt : Bytes) (h : Hub)
    → IsSafe d h
    → IsSafe d (serve_join d a sender pt h).0
unfolding serve_join
IsSafe-serve_join d a sender pt h safe = elim (Result-cases (decode_join d.server.sigs pt)) [
  | inr (e, bad) ↦ rw (serve_join, bad) safe
  | inl (jb, good) ↦
      let limits = h.auth.rate_limits in
      let kept = KeepsRoot-handle_join d.server d.rooms a.now a.octets sender jb limits h.mesh in
      rw (serve_join, good)
        (record {
          orderly = safe.orderly;
          consistent =
              handle_join-mesh IsConsistent d.server d.rooms a.now a.octets sender jb limits h.mesh
                safe.consistent
                (IsConsistent-join_mesh d.server d.rooms a.now jb h.mesh safe.consistent);
          current = IsCurrent-KeepsRoot d.server h.mesh _ h.serverinfo_cache kept safe.current;
        })
]

IsSafe-serve_auth :
    (d : Desk) (a : Arrival) (sender : RawKey) (pt : Bytes) (h : Hub)
    → IsSafe d h
    → IsSafe d (serve_auth d a sender pt h).0
unfolding serve_auth
IsSafe-serve_auth d a sender pt h safe = elim (Result-cases (decode_auth d.server.sigs pt)) [
  | inr (e, bad) ↦ rw (serve_auth, bad) safe
  | inl (ab, good) ↦
      let sv = d.server in
      rw (serve_auth, good)
        (record {
          orderly =
              IsOrderly-handle_auth sv.sigs d.prim sv.lib sv.hash_token sv.join_limit sv.server_priv
                a.secret sv.root_pub d.rooms h.mesh a.now a.octets sender ab h.auth safe.orderly;
          consistent = safe.consistent;
          current = safe.current;
        })
]

IsSafe-handle_handshake :
    (d : Desk) (a : Arrival) (hdr : PacketHeader) (packet : Bytes) (h : Hub)
    → IsSafe d h
    → IsSafe d (handle_handshake d a hdr packet h).0
unfolding handle_handshake
IsSafe-handle_handshake d a hdr packet h safe =
    let sender = hdr.sender_public_key in
    let st = h.auth.session_state in
    elim (Result-cases (
      decrypt d.prim (shared_secret d.prim d.server.server_priv sender) (drop header_len packet))) [
        | inr (e, bad) ↦ rw (handle_handshake, bad) safe
        | inl (pt, good) ↦ elim (Bool-cases (eqb hdr.msg_type msg_join)) [
          | inl join ↦ rw (handle_handshake, good, join) (IsSafe-serve_join d a sender pt h safe)
          | inr other ↦ elim (Bool-cases (eqb hdr.msg_type msg_auth)) [
            | inl auth ↦
                rw (handle_handshake, good, other, auth) (IsSafe-serve_auth d a sender pt h safe)
            | inr other2 ↦ elim (Bool-cases (eqb hdr.msg_type msg_bye)) [
              | inl bye ↦
                  rw (handle_handshake, good, other, other2, bye)
                    (with_state d h _ safe (
                      with_routes st _ safe.orderly
                        (IsSoundTable-step (removes sender st.routes) safe.orderly.sound)))
              | inr other3 ↦ rw (handle_handshake, good, other, other2, other3) safe
            ]
          ]
        ]
      ]

IsSafe-handle_session_signaling :
    (d : Desk) (a : Arrival) (entries : List RouteEntry) (hdr : PacketHeader) (packet : Bytes)
    (h : Hub)
    → IsSafe d h
    → IsSafe d (handle_session_signaling d a entries hdr packet h).0
unfolding handle_session_signaling serve_session
IsSafe-handle_session_signaling d a entries hdr packet h safe =
    let st = h.auth.session_state in
    let sender = hdr.sender_public_key in
    elim (Option-cases (open_session d.prim a.now sender packet st.sessions)) [
      | inl shut ↦ rw (handle_session_signaling, shut) safe
      | inr ((pt, sessions'), opened) ↦
          let st1 = record st { sessions = sessions' } in
          let orderly1 =
            IsOrderly-open_session d.prim a.now sender packet st (pt, sessions') safe.orderly
              opened in
          elim (Result-cases (decode_request d.server hdr.msg_type pt)) [
            | inr (e, bad) ↦
                rw (handle_session_signaling, opened, bad) (with_state d h st1 safe orderly1)
            | inl (request, good) ↦ elim (Option-cases (get sessions' sender)) [
              | inl absent ↦
                  rw (handle_session_signaling, opened, good, absent)
                    (with_state d h st1 safe orderly1)
              | inr (s, found) ↦
                  rw (handle_session_signaling, opened, good, found)
                    (with_state d h _ safe (
                      IsOrderly-serve d.server.lib a.now a.src d.aliases entries sender s request
                        st1 orderly1))
            ]
          ]
    ]

IsSafe-handle_keyquery :
    (d : Desk) (a : Arrival) (h : Hub) → IsSafe d h → IsSafe d (handle_keyquery d a h).0
IsSafe-handle_keyquery d a h safe =
    let (_, current, mesh, auth) = handle_keyquery_lem d a h safe.current in
    record {
      orderly = rw auth safe.orderly;
      consistent = rw mesh safe.consistent;
      current = rw mesh current;
    }

IsSafe-handle_signaling :
    (d : Desk) (a : Arrival) (entries : List RouteEntry) (hdr : PacketHeader) (packet : Bytes)
    (h : Hub)
    → IsSafe d h
    → IsSafe d (handle_signaling d a entries hdr packet h).0
unfolding handle_signaling
IsSafe-handle_signaling d a entries hdr packet h safe =
    elim (Bool-cases (eqb hdr.msg_type msg_keyquery)) [
      | inl ask ↦ rw (handle_signaling, ask) (IsSafe-handle_keyquery d a h safe)
      | inr other ↦ elim (Option-cases (get h.auth.session_state.sessions hdr.sender_public_key)) [
        | inl unknown ↦
            rw (handle_signaling, other, unknown) (IsSafe-handle_handshake d a hdr packet h safe)
        | inr (s, known) ↦
            rw (handle_signaling, other, known)
              (IsSafe-handle_session_signaling d a entries hdr packet h safe)
      ]
    ]

IsSafe-handle_relay :
    (d : Desk) (a : Arrival) (packet : Bytes) (h : Hub)
    → IsSafe d h
    → IsSafe d (handle_relay d a packet h).0
unfolding handle_relay
IsSafe-handle_relay d a packet h safe = with_state d h _ safe (
    IsOrderly-relay_forward d.server.lib a.now (not (eqb (length d.rooms) 0)) a.queue_accepts packet
      h.auth.session_state safe.orderly)

pub IsSafe-handle :
    (d : Desk) (a : Arrival) (entries : List RouteEntry) (packet : Bytes) (h : Hub)
    → IsSafe d h
    → IsSafe d (handle d a entries packet h).0
unfolding handle
IsSafe-handle d a entries packet h safe = elim (Result-cases (parse_header packet)) [
  | inr (e, bad) ↦ rw (handle, bad) safe
  | inl (hdr, good) ↦
      elim (Bool-cases (eqb hdr.msg_type msg_relay || eqb hdr.msg_type msg_relay_rk)) [
        | inl relay ↦ rw (handle, good, relay) (IsSafe-handle_relay d a packet h safe)
        | inr other ↦ elim (Bool-cases (is_signaling hdr.msg_type)) [
          | inl known ↦
              rw (handle, good, other, known)
                (IsSafe-handle_signaling d a entries hdr packet h safe)
          | inr unknown ↦ rw (handle, good, other, unknown) safe
        ]
      ]
]
