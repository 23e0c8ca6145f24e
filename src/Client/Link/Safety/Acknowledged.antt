-- ===== src/Client/Link/Safety/Acknowledged.antt =====
-- What the DATA branch of `handle_peer_data` of linkmesh-client/src/connection.rs does with the
-- frame that the receiver waits for.
use link_mesh.Base.{
  ℕ, suc, ◌≤◌, ◌≡◌, some, List, ◌∷◌, ◌++◌, Bytes, Text, Bool, true, false, arith, length, eqb, not,
  ◌||◌, map, refl, nat_eq, subst, sym, ap, ◌∙◌,
}
use link_mesh.Shared.Crypto.{Primitives, RawKey, encrypt}
use link_mesh.Client.Peer.{PeerSession, established, current_key}
use link_mesh.Client.Outbox.{Outbox, Env, deliver, transport_send, send_ack}
use link_mesh.Client.Tunnel.{
  TunnelPacket, tunnel_data, tunnel_ack, frame_tunnel_packet, ack_payload,
}
use link_mesh.Client.Receiving.{Handled, TextOps, advance, accept_data, dispatch}
use link_mesh.Client.Reliable.{next_seq, flush, reorder_deliver}
use link_mesh.Client.Reliable.Delivery.{sent, Delivers-flush}
use link_mesh.Client.Link.Safety.Numbers.{sent-le-length}
use link_mesh.Base.Maps.{Map}
use link_mesh.Client.Link.{Link, IsFresh, receive, Reach}
use link_mesh.Client.Link.Alike.{Alike-send_ack}
use link_mesh.Client.Link.Safety.Invariant.{IsSound-Reach}
use link_mesh.Client.Link.Safety.Delivered.{fresh-IsSound}

-- The frame that the receiver waits for.
abbrev pub next_packet : PeerSession → Bytes → TunnelPacket
next_packet rx p = record {
  pkt_type = tunnel_data;
  epoch = rx.epoch;
  seq = suc rx.recv_seq;
  payload = p;
}

-- A frame of the epoch is given to the reordering.
accept_data-taken :
    (is_direct : Bool) (env : Env) (seq : ℕ) (p : Bytes) (s : PeerSession)
    → established s ≡ true
    → accept_data is_direct env s.epoch seq p s ≡ (
        let r = reorder_deliver s.recv_seq s.recv_buf seq p in
        some (advance is_direct env r s, r.0, r.1))
unfolding accept_data
accept_data-taken is_direct env seq p s open_s =
    let taken : (not (established s) || not (eqb s.epoch s.epoch)) ≡ false = ground arith in
    rw taken

reorder_deliver-next :
    (high : ℕ) (buf : Map ℕ Bytes) (seq : ℕ) (p : Bytes)
    → eqb seq (next_seq high) ≡ true
    → (reorder_deliver high buf seq p).1 ≡ (flush (length buf) seq buf).1
unfolding reorder_deliver
reorder_deliver-next high buf seq p is_next = rw is_next

-- What `dispatch` did with the frame: the mark is past it, what is delivered is what the step of
-- the two clients says, and then one ACK of the new mark goes out, sealed with the session's key.
pub record Acknowledges (prim : Primitives) (o' : Outbox) (is_direct : Bool) (env : Env) (p : Bytes)
    (m : Link) (r : Handled) : Type 0 where
  pub passes : suc m.rx.recv_seq ≤ r.0.recv_seq
  pub same_session : r.0 ≡ (receive prim o' is_direct env (m.rx.epoch, suc m.rx.recv_seq, p) m).rx
  pub acks :
      (receive prim o' is_direct env (m.rx.epoch, suc m.rx.recv_seq, p) m).acks
      ≡ r.0.recv_seq ∷ m.acks
  pub delivered : List Bytes
  pub out :
      (receive prim o' is_direct env (m.rx.epoch, suc m.rx.recv_seq, p) m).out ≡ m.out ++ delivered
  pub sender : PeerSession
  pub actions :
      r.2
      ≡ map deliver delivered
        ++ (transport_send o' env sender (
            encrypt prim
              (current_key m.rx)
              env.nonce
              (frame_tunnel_packet tunnel_ack m.rx.epoch 0 (ack_payload r.0.recv_seq)))).1

module _ (prim : Primitives) (text : TextOps) (o o' : Outbox) where
  receive_taken :
      (is_direct : Bool) (env : Env) (seq : ℕ) (p : Bytes) (m : Link)
      → established m.rx ≡ true
      → receive prim o' is_direct env (m.rx.epoch, seq, p) m ≡ (
          let r = reorder_deliver m.rx.recv_seq m.rx.recv_buf seq p in
          record m {
            rx = (send_ack prim o' env r.1 (advance is_direct env r m.rx)).0;
            out = m.out ++ r.0;
            acks = r.1 ∷ m.acks;
          })
  unfolding receive
  receive_taken is_direct env seq p m open_rx =
      rw (accept_data-taken is_direct env seq p m.rx open_rx, receive)

  dispatch_taken :
      (is_direct : Bool) (env : Env) (later : ℕ → Env) (src_pub : RawKey) (idx : Map Text RawKey)
      (p : Bytes) (s : PeerSession)
      → established s ≡ true
      → dispatch prim text o' env later src_pub is_direct (next_packet s p) idx s ≡ (
          let r = reorder_deliver s.recv_seq s.recv_buf (suc s.recv_seq) p in
          let sent_ack = send_ack prim o' env r.1 (advance is_direct env r s) in
          (sent_ack.0, idx, map deliver r.0 ++ sent_ack.1))
  unfolding dispatch
  dispatch_taken is_direct env later src_pub idx p s open_s =
      rw (accept_data-taken is_direct env (suc s.recv_seq) p s open_s)

  send_ack_lem :
      (env : Env) (ack : ℕ) (s : PeerSession)
      → established s ≡ true
      → (send_ack prim o' env ack s).1
        ≡ (transport_send o' env s (
            encrypt prim
              (current_key s)
              env.nonce
              (frame_tunnel_packet tunnel_ack s.epoch 0 (ack_payload ack)))).1
  unfolding send_ack
  send_ack_lem env ack s open_s = rw open_s refl

  -- The code on a DATA frame of the epoch, in a session with a key.
  Acknowledges-dispatch :
      (is_direct : Bool) (env : Env) (later : ℕ → Env) (src_pub : RawKey) (idx : Map Text RawKey)
      (p : Bytes) (m : Link)
      → established m.rx ≡ true
      → suc m.rx.recv_seq ≤ (reorder_deliver m.rx.recv_seq m.rx.recv_buf (suc m.rx.recv_seq) p).1
      → Acknowledges prim o' is_direct env p m
          (dispatch prim text o' env later src_pub is_direct (next_packet m.rx p) idx m.rx)
  unfolding advance current_key reorder_deliver
  Acknowledges-dispatch is_direct env later src_pub idx p m open_rx grows =
      let r = reorder_deliver m.rx.recv_seq m.rx.recv_buf (suc m.rx.recv_seq) p in
      let rx' = advance is_direct env r m.rx in
      let mark = (Alike-send_ack prim o' env r.1 rx').recv_seq in
      let step = receive_taken is_direct env (suc m.rx.recv_seq) p m open_rx in
      rw (dispatch_taken is_direct env later src_pub idx p m.rx open_rx) (record {
        passes = subst (λ n. suc m.rx.recv_seq ≤ n) (sym mark) grows;
        same_session = sym (ap (λ x. x.rx) step);
        acks = ap (λ x. x.acks) step ∙ ap (λ n. n ∷ m.acks) (sym mark);
        delivered = r.0;
        out = ap (λ x. x.out) step;
        sender = rx';
        actions =
            ap (λ x. map deliver r.0 ++ x) (send_ack_lem env r.1 rx' open_rx)
            ∙ ap
                (λ n.
                  map deliver r.0
                  ++ (transport_send o' env rx' (
                      encrypt prim (current_key m.rx) env.nonce
                        (frame_tunnel_packet tunnel_ack m.rx.epoch 0 (ack_payload n)))).1)
                (sym mark);
      })

  -- In every state that a new session reaches: when the receiver has a session key and `dispatch`
  -- gets, under its epoch, the frame that was sent under the number after its mark, its mark moves
  -- past that number; the session, the deliveries and the number acknowledged are those of the step
  -- of the two clients, and the last thing sent is an ACK that carries the new mark.
  pub next_frame_advances :
      (l m : Link) (is_direct : Bool) (env : Env) (later : ℕ → Env) (src_pub : RawKey)
      (idx : Map Text RawKey) (p : Bytes)
      → IsFresh l
      → Reach prim o o' l m
      → established m.rx ≡ true
      → sent m.log (suc m.rx.recv_seq) ≡ some p
      → Acknowledges prim o' is_direct env p m
          (dispatch prim text o' env later src_pub is_direct (next_packet m.rx p) idx m.rx)
  next_frame_advances l m is_direct env later src_pub idx p f r open_rx e =
      let h = IsSound-Reach prim o o' (fresh-IsSound l f) r in
      let is_next : eqb (suc m.rx.recv_seq) (next_seq m.rx.recv_seq) ≡ true =
        ground (arith, h.small, h.receiver.within) in
      let flushed =
        Delivers-flush m.log h.small (length m.rx.recv_buf) (suc m.rx.recv_seq) m.rx.recv_buf
          (sent-le-length m.log (suc m.rx.recv_seq) p e) h.receiver.held in
      Acknowledges-dispatch is_direct env later src_pub idx p m open_rx (
        rw (reorder_deliver-next m.rx.recv_seq m.rx.recv_buf (suc m.rx.recv_seq) p is_next)
          flushed.grows)
