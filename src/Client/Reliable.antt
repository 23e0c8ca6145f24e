-- ===== src/Client/Reliable.antt =====
-- The receiving half of the reliable transport: `reorder_deliver` of
-- linkmesh-client/src/connection.rs, which turns packets that arrive in any order, or twice,
-- into payloads in the order of their numbers.
pub mod Delivery
use link_mesh.Base.{
  ℕ, zero, suc, ◌+◌, ◌%◌, ◌^◌, none, some, List, [], ◌∷◌, Bytes, length, ltb, ◌==◌, nat_eq,
  if◌then◌else◌,
}
use link_mesh.Base.Maps.{Map, get, remove, insert_sorted, first_key}

-- The most unacknowledged packets, and the most packets held out of order.
abbrev pub reliable_window : ℕ
reliable_window = 512

-- `n + 1` on a `u64`, which wraps in a release build.
abbrev pub next_seq : ℕ → ℕ
next_seq n = (n + 1) % 2 ^ 64

-- The `while let` loop: takes the packets that follow `high` out of the buffer. The result is
-- what is delivered, the new high water mark and the buffer. Each round empties one slot, so
-- `length recv_buf` rounds are enough.
unfoldable pub flush : ℕ → ℕ → Map ℕ Bytes → List Bytes × ℕ × Map ℕ Bytes
flush zero high recv_buf = ([], high, recv_buf)
flush (suc fuel) high recv_buf = elim (get recv_buf (next_seq high)) [
  | none ↦ ([], high, recv_buf)
  | some p ↦
      let (delivered, high', buf') = flush fuel (next_seq high) (remove recv_buf (next_seq high)) in
      (p ∷ delivered, high', buf')
]

-- `keys().next()`, and its removal.
drop_oldest : Map ℕ Bytes → Map ℕ Bytes
drop_oldest buf = elim (first_key buf) [ none ↦ buf | some oldest ↦ remove buf oldest ]

-- The cap on the buffer: when it is passed, the oldest packet goes.
unfoldable pub cap_buffer : Map ℕ Bytes → Map ℕ Bytes
unfolding drop_oldest
cap_buffer buf = if ltb reliable_window (length buf) then drop_oldest buf else buf

unfoldable pub reorder_deliver : ℕ → Map ℕ Bytes → ℕ → Bytes → List Bytes × ℕ × Map ℕ Bytes
reorder_deliver recv_high recv_buf seq payload =
    if seq == next_seq recv_high
    then (let (delivered, high, buf) = flush (length recv_buf) seq recv_buf in
        (payload ∷ delivered, high, buf))
    else if ltb (next_seq recv_high) seq
    then ([], recv_high, cap_buffer (insert_sorted recv_buf seq payload))
    else ([], recv_high, recv_buf)
