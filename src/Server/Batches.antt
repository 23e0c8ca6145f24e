-- ===== src/Server/Batches.antt =====
-- `batch_worker` and `flush_batch` of linkmesh-server/src/signaling.rs: relayed subframes wait, by
-- destination, until there are bytes enough or the ticker fires, and leave in one packet.
pub mod Drains
use link_mesh.Base.{
  ℕ, ◌+◌, ◌%◌, ◌^◌, ◌≡◌, refl, sym, ap, ◌∙◌, Option, none, some, List, [], ◌∷◌, ◌++◌, append-nil,
  append_assoc, Bytes, Bool, true, false, length, leb, if◌then◌else◌, map, arith, Bool-cases, inl,
  inr, Option-cases, any, ◌==◌, bytes_eq, eq-of-eq, eq_refl,
}
use link_mesh.Base.Maps.{Map, get, insert, remove, get-insert, get-remove}
use link_mesh.Shared.Crypto.{RawKey}
use link_mesh.Shared.Protocol.{frame_relay_batch}
use link_mesh.Client.Peer.{SocketAddr}
use link_mesh.Server.Relay.{BatchItem}

pub record PendingBatch : Type 0 where
  pub addr : SocketAddr
  pub frames : List Bytes
  pub bytes : ℕ

-- What the loop waits for: a subframe of the channel, or the ticker.
pub data BatchEvent : Type 0 where
  item : BatchItem → BatchEvent
  tick : BatchEvent

-- The datagram of a batch that is flushed; an empty batch is none.
unfoldable flush_batch : RawKey → PendingBatch → List (SocketAddr × Bytes)
flush_batch dest pb = elim pb.frames [
  | [] ↦ []
  | frame ∷ rest ↦ (pb.addr, frame_relay_batch dest (frame ∷ rest)) ∷ []
]

-- `pending.entry(it.dest).or_insert(...)`
abbrev pub batch_of : BatchItem → Option PendingBatch → PendingBatch
batch_of it none = record { addr = it.addr; frames = []; bytes = 0 }
batch_of it (some pb) = pb

-- The batch with one more subframe.
abbrev pub push_frame : BatchItem → PendingBatch → PendingBatch
push_frame it pb = record pb {
  addr = it.addr;
  bytes = (pb.bytes + length it.subframe) % 2 ^ 64;
  frames = pb.frames ++ it.subframe ∷ [];
}

-- The loop of the ticker over the keys: what stays, and what is flushed.
unfoldable pub flush_keys :
    List RawKey → Map RawKey PendingBatch → Map RawKey PendingBatch × List (RawKey × PendingBatch)
flush_keys [] pending = (pending, [])
flush_keys (k ∷ keys) pending = elim (get pending k) [
  | none ↦ flush_keys keys pending
  | some pb ↦ let (stays, out) = flush_keys keys (remove pending k) in (stays, (k, pb) ∷ out)
]

-- One round of the loop.
unfoldable pub batch_step :
    ℕ
    → BatchEvent
    → Map RawKey PendingBatch
    → Map RawKey PendingBatch × List (RawKey × PendingBatch)
batch_step max_bytes (item it) pending =
    let pb = push_frame it (batch_of it (get pending it.dest)) in
    let pending' = insert pending it.dest pb in
    if leb max_bytes pb.bytes then (remove pending' it.dest, (it.dest, pb) ∷ []) else (pending', [])
batch_step max_bytes tick pending =
    flush_keys (map (λ (e : RawKey × PendingBatch). e.0) pending) pending

unfoldable pub batch_worker :
    ℕ
    → List BatchEvent
    → Map RawKey PendingBatch
    → Map RawKey PendingBatch × List (RawKey × PendingBatch)
batch_worker max_bytes [] pending = (pending, [])
batch_worker max_bytes (event ∷ events) pending =
    let (pending', out) = batch_step max_bytes event pending in
    let (last, rest) = batch_worker max_bytes events pending' in (last, out ++ rest)
