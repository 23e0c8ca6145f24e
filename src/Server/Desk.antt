-- ===== src/Server/Desk.antt =====
-- What the server answers: `send_error`, `handle_keyquery`, `notify_peer` and the bodies of
-- answers of linkmesh-server/src/signaling.rs.
use link_mesh.Base.{
  ℕ, Option, none, some, List, [], ◌∷◌, Bytes, Text, Bool, false, not, eqb, ◌==◌, if◌then◌else◌,
  bytes_eq, Result, ok, err, ◌>>=◌,
}
use link_mesh.Base.Maps.{Map, get}
use link_mesh.Shared.Crypto.{Primitives, RawKey, shared_secret, encrypt}
use link_mesh.Shared.Protocol.{frame_signaling, msg_response, msg_notify, msg_serverinfo}
use link_mesh.Shared.Bodies.{
  ResponseBody, ok_body, err_body, ok_with_data, query_hit, query_miss, QueryBody, NotifyBody,
}
use link_mesh.Shared.Wire.{WireError}
use link_mesh.Shared.Wire.Handshake.{encode_server_info_body}
use link_mesh.Shared.Wire.Requests.{encode_notify}
use link_mesh.Shared.Wire.Responses.{encode_response}
use link_mesh.Client.Peer.{SocketAddr}
use link_mesh.Server.Rooms.{RoomEntry}
use link_mesh.Server.Mesh.{MeshConfig}
use link_mesh.Server.Routes.{RouteTable, RouteEntry}
use link_mesh.Server.Relay.{Relayed}
use link_mesh.Server.Sessions.{SessionEntry}
use link_mesh.Server.Signaling.{Request, query, Reply, done, hit, miss}
use link_mesh.Server.Auth.{AuthState, AuthError}
use link_mesh.Server.Join.{Server, JoinError, build_server_info}

-- Why a request is answered with an error.
pub data Complaint : Type 0 where
  of_join : JoinError → Complaint
  of_auth : AuthError → Complaint
  of_session : Reply → Complaint
  offline : Text → Complaint
  unauthenticated : Complaint

-- The server with what its operator may change, and the wording of its errors.
pub record Desk : Type 0 where
  pub server : Server
  pub prim : Primitives
  pub rooms : List RoomEntry
  pub aliases : Map Text Text
  pub say : Complaint → Text

-- What changes with the packets. The last answer to KEYQUERY is kept with the version of the
-- revocation list that it tells.
pub record Hub : Type 0 where
  pub auth : AuthState
  pub mesh : MeshConfig
  pub serverinfo_cache : Option (ℕ × Bytes)

-- The clock, the source with its octets, the random numbers of this packet, and whether the
-- batcher takes a relayed frame.
pub record Arrival : Type 0 where
  pub now : ℕ
  pub src : SocketAddr
  pub octets : Bytes
  pub secret : Bytes
  pub session_id : Bytes
  pub nonce : Bytes
  pub notify_nonce : Bytes
  pub queue_accepts : Bool

pub data Output : Type 0 where
  datagram : SocketAddr → Bytes → Output
  forwarded : Relayed → Output

-- A text is sealed and sent, when it could be encoded.
unfoldable pub send_sealed :
    Desk → SocketAddr → RawKey → Bytes → ℕ → Result WireError Bytes → List Output
unfolding encrypt frame_signaling
send_sealed d addr key nonce msg_type (err e) = []
send_sealed d addr key nonce msg_type (ok pt) =
    datagram addr (frame_signaling msg_type d.server.server_pub (encrypt d.prim key nonce pt)) ∷ []

abbrev pub send_response : Desk → Arrival → RawKey → ResponseBody → List Output
send_response d a key r =
    send_sealed d a.src key a.nonce msg_response (encode_response d.server.sigs r)

abbrev pub send_error : Desk → Arrival → RawKey → Complaint → List Output
send_error d a key why = send_response d a key (err_body (d.say why))

-- The frame that answers KEYQUERY.
unfoldable pub serverinfo_frame : Server → MeshConfig → Result WireError Bytes
unfolding build_server_info encode_server_info_body frame_signaling
serverinfo_frame sv m =
    encode_server_info_body sv.sigs (record { server_info = build_server_info sv m }) >>= λ pt.
    ok (frame_signaling msg_serverinfo sv.server_pub pt)

abbrev pub cached_for : ℕ → Option (ℕ × Bytes) → Option Bytes
cached_for version none = none
cached_for version (some (v, frame)) = if eqb v version then some frame else none

unfoldable pub handle_keyquery : Desk → Arrival → Hub → Hub × List Output
unfolding serverinfo_frame
handle_keyquery d a h = elim (cached_for h.mesh.crl.version h.serverinfo_cache) [
  | some frame ↦ (h, datagram a.src frame ∷ [])
  | none ↦ elim (serverinfo_frame d.server h.mesh) [
    | err e ↦ (h, [])
    | ok frame ↦ (
      record h { serverinfo_cache = some (h.mesh.crl.version, frame) },
      datagram a.src frame ∷ [],
    )
  ]
]

abbrev pub text_or : Option Text → Text → Text
text_or none other = other
text_or (some t) other = t

abbrev pub hit_body : Desk → QueryBody → RouteEntry → ResponseBody
hit_body d qb e = ok_with_data (
    query_hit (record {
      req = text_or qb.name qb.ip;
      ip = e.ip;
      public_key = d.server.sigs.encode e.public_key;
      endpoint = e.endpoint;
      relay_rk = e.relay_rk;
      alias = text_or qb.name (text_or e.alias []);
    }))

abbrev pub offline_body : Desk → Text → ResponseBody
offline_body d req = record {
  is_ok = false;
  content = query_miss req (d.say (offline req));
  error = some (d.say (offline req));
}

-- The answer to a request of a session.
unfoldable pub reply_body : Desk → Request → Reply → ResponseBody
reply_body d (query qb) (hit e) = hit_body d qb e
reply_body d (query qb) miss = offline_body d (text_or qb.name qb.ip)
reply_body d request done = ok_body
reply_body d request reply = err_body (d.say (of_session reply))

-- The peer that was found is told who asks for it.
unfoldable pub notify_peer : Desk → Arrival → RouteTable → RouteEntry → RawKey → Text → List Output
unfolding encode_notify shared_secret send_sealed
notify_peer d a routes target sender_pub querier_room =
    let sv = d.server in
    let info = get routes.by_key sender_pub in
    let body : NotifyBody = record {
      peer = record {
        public_key = sv.sigs.encode sender_pub;
        endpoint = sv.lib.show_addr a.src;
        relay_rk = elim info [ none ↦ none | some e ↦ e.relay_rk ];
        alias = elim info [ none ↦ none | some e ↦ e.alias ];
        ip = elim info [ none ↦ none | some e ↦ some e.ip ];
      };
    } in
    if not (target.room == querier_room) then [] else elim (sv.lib.parse_addr target.endpoint) [
      | none ↦ []
      | some addr ↦
          send_sealed d addr (shared_secret d.prim sv.server_priv target.public_key) a.notify_nonce
            msg_notify (encode_notify sv.sigs body)
    ]

-- Whom a query that was answered is told to.
abbrev pub notices : Desk → Arrival → RouteTable → SessionEntry → Reply → List Output
notices d a routes s (hit e) = notify_peer d a routes e s.ik_x s.room
notices d a routes s reply = []
