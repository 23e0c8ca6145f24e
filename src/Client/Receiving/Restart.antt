-- ===== src/Client/Receiving/Restart.antt =====
-- What `handle_hello` of linkmesh-client/src/connection.rs does to the transport when the peer
-- comes back with a new routing key.
use link_mesh.Base.{
  ℕ, ◌+◌, ◌^◌, ◌≤◌, ◌<◌, ◌≡◌, ◌≢◌, refl, ap, ◌∙◌, some, List, [], ◌∷◌, Bytes, Text, Bool, true,
  false, arith, length, ltb, eqb, map, ◌==◌, bytes_eq, nat_eq, Option-cases, inl, inr, Bool-cases,
  eq-of-eq,
}
use link_mesh.Base.Maps.{Map}
use link_mesh.Shared.Crypto.{Primitives, RawKey}
use link_mesh.Client.Peer.{PeerSession, Unacked, established, ensure_rk, renew_rk}
use link_mesh.Client.Outbox.{Outbox, Env}
use link_mesh.Client.Reliable.{next_seq, reorder_deliver}
use link_mesh.Client.Receiving.{renumber, restart_window, agree, join_session, accept_data, advance}

-- The payloads of a window, in the order of their numbers.
abbrev pub payloads : Map ℕ Unacked → List Bytes
payloads m = map (λ (e : ℕ × Unacked). e.1.2) m

-- The numbers `seq + 1`, `seq + 2`, … as many as there are packets.
abbrev pub numbers : ℕ → Map ℕ Unacked → List ℕ
numbers seq [] = []
numbers seq (e ∷ m) = (seq + 1) ∷ numbers (seq + 1) m

renumber-payloads : (now seq : ℕ) (m : Map ℕ Unacked) → payloads (renumber now seq m) ≡ payloads m
renumber-payloads now seq [] = refl
renumber-payloads now seq ((k, (t, retries, p)) ∷ m) =
    ap (p ∷◌) (renumber-payloads now (next_seq seq) m)

renumber-numbers :
    (now seq : ℕ) (m : Map ℕ Unacked)
    → seq + length m < 2 ^ 64
    → map (λ (e : ℕ × Unacked). e.0) (renumber now seq m) ≡ numbers seq m
renumber-numbers now seq [] h = refl
renumber-numbers now seq ((k, (t, retries, p)) ∷ m) h =
    let n : next_seq seq ≡ seq + 1 = omega arith in
    rw n (ap ((seq + 1) ∷◌) (renumber-numbers now (seq + 1) m (omega arith)))

-- Nothing of the transport depends on the routing key of this side.
record SameTransport (s t : PeerSession) : Type 0 where
  recv_seq : t.recv_seq ≡ s.recv_seq
  recv_buf : t.recv_buf ≡ s.recv_buf
  epoch : t.epoch ≡ s.epoch
  window : t.send_unacked ≡ s.send_unacked

ensure_rk_lem :
    (prim : Primitives) (secret : RawKey) (s : PeerSession)
    → SameTransport s (ensure_rk prim secret s).0
unfolding ensure_rk renew_rk
ensure_rk_lem prim secret s = record {
  recv_seq = ground arith;
  recv_buf = ground arith;
  epoch = ground arith;
  window = ground arith;
}

module _ (prim : Primitives) (o : Outbox) (env : Env) (peer_rk : RawKey) (peer_salt : Bytes)
    (ip : Text) (s : PeerSession) where
  -- The HELLO of a peer with a new routing key, in a session that is established.
  restart_lem :
      established s ≡ true
      → s.peer_rk_pub ≢ some peer_rk
      → (join_session prim o env peer_rk peer_salt ip s).0
        ≡ record (restart_window env.now (agree prim o env peer_rk peer_salt s)) {
          last_seen = env.now;
        }
  unfolding join_session
  restart_lem open_s new = elim (Option-cases s.peer_rk_pub) [
    | inl nothing ↦ rw (open_s, nothing, join_session)
    | inr (old, e) ↦ elim (Bool-cases (old == peer_rk)) [
      | inl same ↦ absurd (new (e ∙ ap some (eq-of-eq old peer_rk same)))
      | inr differs ↦ rw (open_s, e, differs, join_session)
    ]
  ]

-- A frame at or below the mark is not delivered, but taken.
accept_data-old :
    (is_direct : Bool) (env : Env) (epoch mark seq : ℕ) (p : Bytes) (s : PeerSession)
    → established s ≡ true
    → s.epoch ≡ epoch
    → s.recv_seq ≡ mark
    → seq ≤ mark
    → mark + 1 < 2 ^ 64
    → (s' : PeerSession) × (accept_data is_direct env epoch seq p s ≡ some (s', [], mark))
      × (s'.recv_seq ≡ mark)
unfolding accept_data reorder_deliver advance
accept_data-old is_direct env epoch mark seq p s open_s e r le small =
    let same : eqb epoch s.epoch ≡ true = ground arith in
    let not_next : eqb seq (next_seq s.recv_seq) ≡ false = ground arith in
    let not_ahead : ltb (next_seq s.recv_seq) seq ≡ false = ground arith in
    (
      advance is_direct env ([], s.recv_seq, s.recv_buf) s,
      rw (open_s, same, not_next, not_ahead)
          (ap (λ n. some (advance is_direct env ([], s.recv_seq, s.recv_buf) s, [], n)) r),
      r,
    )

-- When a peer comes back with a new routing key in a session that is established, this side keeps
-- the payloads of its window (of fewer than 2 ^ 64 packets) in order and numbers them from 1 on;
-- but its own mark (below 2 ^ 64 - 1) stays, so that the packets of the peer up to the mark, under
-- the epoch of this side, are taken without being delivered, and the mark stays after them.
pub restarted_peer :
    (prim : Primitives) (o : Outbox) (env : Env) (peer_rk : RawKey) (peer_salt : Bytes) (ip : Text)
    (s : PeerSession) (is_direct : Bool) (seq : ℕ) (p : Bytes)
    → established s ≡ true
    → s.peer_rk_pub ≢ some peer_rk
    → length s.send_unacked < 2 ^ 64
    → seq ≤ s.recv_seq
    → s.recv_seq + 1 < 2 ^ 64
    → (payloads (join_session prim o env peer_rk peer_salt ip s).0.send_unacked
        ≡ payloads s.send_unacked)
      × (map
            (λ (e : ℕ × Unacked). e.0)
            (join_session prim o env peer_rk peer_salt ip s).0.send_unacked
          ≡ numbers 0 s.send_unacked)
      × ((s' : PeerSession) × (accept_data is_direct env s.epoch seq p
              (join_session prim o env peer_rk peer_salt ip s).0
            ≡ some (s', [], s.recv_seq))
          × (s'.recv_seq ≡ s.recv_seq))
unfolding agree restart_window
restarted_peer prim o env peer_rk peer_salt ip s is_direct seq p open_s new few le small =
    let same = ensure_rk_lem prim env.secret s in
    let t = record (restart_window env.now (agree prim o env peer_rk peer_salt s)) {
      last_seen = env.now;
    } in
    rw (restart_lem prim o env peer_rk peer_salt ip s open_s new) (
      rw same.window (renumber-payloads env.now 0 s.send_unacked),
      rw same.window (renumber-numbers env.now 0 s.send_unacked (omega (arith, few))),
      accept_data-old is_direct env s.epoch s.recv_seq seq p t refl same.epoch same.recv_seq le
          small,
    )
