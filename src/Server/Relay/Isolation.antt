-- ===== src/Server/Relay/Isolation.antt =====
-- What `relay_forward` of linkmesh-server/src/signaling.rs lets through.
use link_mesh.Base.{
  ℕ, ◌≡◌, refl, Option, none, some, List, Bytes, Text, Bool, true, arith, Option-cases, Bool-cases,
  inl, inr, not, ◌⊎◌, if◌then◌else◌, ok, err, Result, bytes_eq,
}
use link_mesh.Shared.Crypto.{RawKey}
use link_mesh.Shared.Protocol.{parse_relay}
use link_mesh.Client.Peer.{SocketAddr}
use link_mesh.Server.Library.{Library}
use link_mesh.Server.Routes.{RouteEntry, RouteTable}
use link_mesh.Server.Relay.{
  Relayed, dropped, batched, forwarded, is_rk_frame, room_of, rooms_match, find_entry,
  source_is_active, refresh_source, pass_on, deliver_to, relay_forward,
}

-- The address that a packet is passed on to.
abbrev pub sent_to : Relayed → Option SocketAddr
sent_to (batched item) = some item.addr
sent_to (forwarded addr packet) = some addr
sent_to _ = none

-- That a packet was let through: it is a relay frame, the identity key of its source is among the
-- active ones, its destination has the address, and with rooms both are registered in the same one.
pub record LetThrough (lib : Library) (now : ℕ) (active : List RawKey) (rooms_enabled : Bool)
    (packet : Bytes) (t : RouteTable) (addr : SocketAddr) : Type 0 where
  pub dest : RawKey
  pub src_key : RawKey
  pub ct : Bytes
  pub entry : RouteEntry
  pub parsed : parse_relay packet ≡ ok (dest, src_key, ct)
  pub is_active : source_is_active lib active (is_rk_frame packet) t src_key ≡ true
  pub registered :
      find_entry lib (is_rk_frame packet) (refresh_source now (is_rk_frame packet) src_key t) dest
      ≡ some entry
  pub at_address : lib.parse_addr entry.endpoint ≡ some addr
  pub same_room :
      rooms_enabled ≡ true
      → room_of (
          find_entry lib
            (is_rk_frame packet)
            (refresh_source now (is_rk_frame packet) src_key t)
            src_key)
        ≡ some entry.room

sent_to-pass_on :
    (queue_accepts : Bool) (dest src_key : RawKey) (ct packet : Bytes) (addr : SocketAddr)
    → sent_to (pass_on queue_accepts dest src_key ct packet addr) ≡ some addr
unfolding pass_on
sent_to-pass_on queue_accepts dest src_key ct packet addr = ground arith

deliver_to_inv :
    (lib : Library) (queue_accepts : Bool) (dest src_key : RawKey) (ct packet : Bytes)
    (o : Option RouteEntry) (addr : SocketAddr)
    → sent_to (deliver_to lib queue_accepts dest src_key ct packet o) ≡ some addr
    → (e : RouteEntry) × (o ≡ some e) × (lib.parse_addr e.endpoint ≡ some addr)
unfolding deliver_to
deliver_to_inv lib q dest src_key ct packet none addr h = cc
deliver_to_inv lib q dest src_key ct packet (some e) addr h =
    elim (Option-cases (lib.parse_addr e.endpoint)) [
      | inl bad ↦ (let h' = rw (bad, deliver_to) at h in cc)
      | inr (a, good) ↦ (
        e,
        refl,
        (let h' = rw (good, deliver_to) at h in
            ground (arith, sent_to-pass_on q dest src_key ct packet a)),
      )
    ]

rooms_match_lem :
    (o : Option Text) (room : Text) → rooms_match true o (some room) ≡ true → o ≡ some room
unfolding rooms_match
rooms_match_lem none room h = cc
rooms_match_lem (some r) room h = ground (arith, bytes_eq.beq_iff r room)

Result-cases : {E A : Type 0} (r : Result E A) → ((a : A) × (r ≡ ok a)) ⊎ ((e : E) × (r ≡ err e))
Result-cases (ok a) = inl (a, refl)
Result-cases (err e) = inr (e, refl)

-- The part of `relay_forward` after the parsing.
unfoldable route_parsed :
    Library
    → ℕ
    → List RawKey
    → Bool
    → Bool
    → Bytes
    → RouteTable
    → RawKey
    → RawKey
    → Bytes
    → RouteTable × Relayed
route_parsed lib now active rooms_enabled q packet t dest src_key ct =
    let is_rk = is_rk_frame packet in
    let t' = refresh_source now is_rk src_key t in
    if not (source_is_active lib active is_rk t src_key)
    then (t, dropped)
    else if rooms_match rooms_enabled (room_of (find_entry lib is_rk t' src_key))
        (room_of (find_entry lib is_rk t' dest))
    then (t', deliver_to lib q dest src_key ct packet (find_entry lib is_rk t' dest))
    else (t', dropped)

route_parsed-LetThrough :
    (lib : Library) (now : ℕ) (active : List RawKey) (rooms_enabled q : Bool) (packet : Bytes)
    (t : RouteTable) (addr : SocketAddr) (dest src_key : RawKey) (ct : Bytes)
    → parse_relay packet ≡ ok (dest, src_key, ct)
    → sent_to (route_parsed lib now active rooms_enabled q packet t dest src_key ct).1 ≡ some addr
    → LetThrough lib now active rooms_enabled packet t addr
unfolding route_parsed
route_parsed-LetThrough lib now active rooms_enabled q packet t addr dest src_key ct parsed h =
    let is_rk = is_rk_frame packet in
    let t' = refresh_source now is_rk src_key t in
    let o = find_entry lib is_rk t' dest in
    let s = room_of (find_entry lib is_rk t' src_key) in
    elim (Bool-cases (source_is_active lib active is_rk t src_key)) [
      | inr idle ↦ (let h' = rw (idle, route_parsed) at h in cc)
      | inl busy ↦ elim (Bool-cases (rooms_match rooms_enabled s (room_of o))) [
        | inr apart ↦ (let h' = rw (busy, apart, route_parsed) at h in cc)
        | inl near ↦
            let (e, found, at_addr) =
              deliver_to_inv lib q dest src_key ct packet o addr
                (rw (busy, near, route_parsed) at h) in
            record {
              dest = dest;
              src_key = src_key;
              ct = ct;
              entry = e;
              parsed = parsed;
              is_active = busy;
              registered = found;
              at_address = at_addr;
              same_room = λ enabled. rooms_match_lem s e.room (rw (enabled, found) at near);
            }
      ]
    ]

-- A packet that the server passes on, in a batch or by itself, is a relay frame of a source whose
-- identity key is in the list that it was given as `active_ik_x`; it goes to the address under which its destination is registered; and when there
-- are rooms, its source is registered too, in the room of the destination.
pub relay_forward-LetThrough :
    (lib : Library) (now : ℕ) (active : List RawKey) (rooms_enabled queue_accepts : Bool)
    (packet : Bytes) (t : RouteTable) (addr : SocketAddr)
    → sent_to (relay_forward lib now active rooms_enabled queue_accepts packet t).1 ≡ some addr
    → LetThrough lib now active rooms_enabled packet t addr
unfolding relay_forward
relay_forward-LetThrough lib now active rooms_enabled q packet t addr h =
    elim (Result-cases (parse_relay packet)) [
      | inr (e, bad) ↦ (let h' = rw (bad, relay_forward) at h in cc)
      | inl ((dest, src_key, ct), parsed) ↦
          route_parsed-LetThrough lib now active rooms_enabled q packet t addr dest src_key ct
            parsed (unfold route_parsed in rw (parsed, relay_forward) at h)
    ]
