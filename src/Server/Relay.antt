-- ===== src/Server/Relay.antt =====
-- `relay_forward` of linkmesh-server/src/signaling.rs: which relayed packets the server passes on,
-- and where to.
pub mod Isolation
use link_mesh.Base.{
  ℕ, Option, none, some, List, [], ◌∷◌, ◌++◌, Bytes, Text, Bool, true, false, length, leb, eqb, not,
  ◌&&◌, if◌then◌else◌, any, ◌==◌, bytes_eq, ok, err,
}
use link_mesh.Base.Maps.{get}
use link_mesh.Shared.Crypto.{RawKey}
use link_mesh.Shared.Protocol.{byte_at, parse_relay, relay_header_len, msg_relay_rk}
use link_mesh.Client.Peer.{SocketAddr}
use link_mesh.Server.Library.{Library}
use link_mesh.Server.Routes.{RouteEntry, RouteTable, upsert, get_by_rk}

-- A subframe that waits for its batch: the key it is for, the address, the bytes.
pub record BatchItem : Type 0 where
  pub dest : RawKey
  pub addr : SocketAddr
  pub subframe : Bytes

-- What becomes of a relayed packet: an error of the call, silence, a place in a batch, or a
-- datagram.
pub data Relayed : Type 0 where
  refused : Relayed
  dropped : Relayed
  batched : BatchItem → Relayed
  forwarded : SocketAddr → Bytes → Relayed

-- `active_ik_x.contains(src_key)`
abbrev pub sessions_has_active : List RawKey → RawKey → Bool
sessions_has_active active_ik_x src_key = any (λ k. k == src_key) active_ik_x

abbrev pub is_rk_frame : Bytes → Bool
is_rk_frame packet = leb relay_header_len (length packet) && eqb (byte_at packet 3) msg_relay_rk

abbrev pub room_of : Option RouteEntry → Option Text
room_of none = none
room_of (some e) = some e.room

-- Whether the rooms of the source and of the destination let the packet through.
unfoldable pub rooms_match : Bool → Option Text → Option Text → Bool
rooms_match rooms_enabled (some sr) (some dr) = sr == dr
rooms_match rooms_enabled none dr = not rooms_enabled
rooms_match rooms_enabled (some sr) none = true

-- The entry of a key of a frame: by routing key in the new format, by public key in the old.
unfoldable pub find_entry : Library → Bool → RouteTable → RawKey → Option RouteEntry
unfolding get_by_rk
find_entry lib is_rk t key = if is_rk then get_by_rk t (lib.encode key) else get t.by_key key

abbrev pub entry_is_active : List RawKey → Option RouteEntry → Bool
entry_is_active active_ik_x none = false
entry_is_active active_ik_x (some e) = sessions_has_active active_ik_x e.public_key

-- Whether the identity key of the source of a frame is active.
unfoldable pub source_is_active : Library → List RawKey → Bool → RouteTable → RawKey → Bool
unfolding get_by_rk
source_is_active lib active_ik_x is_rk t src_key =
    if is_rk
    then entry_is_active active_ik_x (get_by_rk t (lib.encode src_key))
    else sessions_has_active active_ik_x src_key

-- The source's entry in the old format is renewed.
unfoldable pub refresh_source : ℕ → Bool → RawKey → RouteTable → RouteTable
unfolding upsert
refresh_source now is_rk src_key t = if is_rk then t else elim (get t.by_key src_key) [
  | none ↦ t
  | some e ↦ upsert (record e { public_key = src_key; last_seen = now }) t
]

-- The queue of the batches, if there is one, takes the packet when it has room; else it goes out
-- by itself.
unfoldable pub pass_on : Bool → RawKey → RawKey → Bytes → Bytes → SocketAddr → Relayed
pass_on queue_accepts dest src_key ct packet addr =
    if queue_accepts
    then batched (record { dest = dest; addr = addr; subframe = src_key ++ ct })
    else forwarded addr packet

-- To the entry of the destination, after the test of the rooms.
unfoldable pub deliver_to :
    Library → Bool → RawKey → RawKey → Bytes → Bytes → Option RouteEntry → Relayed
unfolding pass_on
deliver_to lib queue_accepts dest src_key ct packet none = dropped
deliver_to lib queue_accepts dest src_key ct packet (some entry) =
    elim (lib.parse_addr entry.endpoint) [
      | none ↦ refused
      | some addr ↦ pass_on queue_accepts dest src_key ct packet addr
    ]

unfoldable pub relay_forward :
    Library → ℕ → List RawKey → Bool → Bool → Bytes → RouteTable → RouteTable × Relayed
unfolding source_is_active refresh_source find_entry deliver_to
relay_forward lib now active_ik_x rooms_enabled queue_accepts packet t =
    let is_rk = is_rk_frame packet in
    elim (parse_relay packet) [
      | err e ↦ (t, refused)
      | ok (dest, src_key, ct) ↦
          if not (source_is_active lib active_ik_x is_rk t src_key)
          then (t, dropped)
          else (let t' = refresh_source now is_rk src_key t in
              let src_entry = find_entry lib is_rk t' src_key in
              let dest_entry = find_entry lib is_rk t' dest in
              if rooms_match rooms_enabled (room_of src_entry) (room_of dest_entry)
              then (t', deliver_to lib queue_accepts dest src_key ct packet dest_entry)
              else (t', dropped))
    ]
