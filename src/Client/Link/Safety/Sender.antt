-- ===== src/Client/Link/Safety/Sender.antt =====
-- What `enqueue` and `handle_ack` of linkmesh-client/src/connection.rs do to the window.
use link_mesh.Base.{
  ℕ, ◌≡◌, none, some, Bytes, true, false, arith, length, leb, ltb, nat_eq, ◌==◌, if◌then◌else◌, [],
}
use link_mesh.Base.Maps.{get-insert_sorted, get-retain}
use link_mesh.Shared.Crypto.{Primitives}
use link_mesh.Client.Peer.{PeerSession, established}
use link_mesh.Client.Outbox.{Outbox, Env}
use link_mesh.Client.Sending.{take_number, admit, enqueue, handle_ack}
use link_mesh.Client.Reliable.{reliable_window}
use link_mesh.Client.Link.Alike.{in_window, Alike, Alike-transport_send}

module _ (prim : Primitives) (o : Outbox) (env : Env) (p : Bytes) (s : PeerSession)
    (open_s : established s ≡ true) where
  -- A full window refuses the packet, but its number is gone.
  pub enqueue_full :
      leb reliable_window (length s.send_unacked) ≡ true
      → enqueue prim o env p s ≡ (take_number s, [])
  unfolding enqueue
  enqueue_full full = rw (open_s, full)

  pub enqueue_room :
      leb reliable_window (length s.send_unacked) ≡ false
      → Alike (admit env p (take_number s)) (enqueue prim o env p s).0
  unfolding enqueue
  enqueue_room room = rw (open_s, room) (Alike-transport_send o env _ _)

pub in_window-admit :
    (env : Env) (p : Bytes) (s : PeerSession) (k : ℕ)
    → in_window (admit env p s) k ≡ (if s.send_seq == k then some p else in_window s k)
unfolding admit
in_window-admit env p s k =
    ground (arith, get-insert_sorted s.send_unacked s.send_seq (env.now, 0, p) k)

-- An acknowledgement takes the numbers up to it out of the window, and nothing else.
pub in_window-handle_ack :
    (env : Env) (ack : ℕ) (s : PeerSession) (k : ℕ)
    → established s ≡ true
    → in_window (handle_ack env ack s) k ≡ (if ltb ack k then in_window s k else none)
unfolding handle_ack
in_window-handle_ack env ack s k open_s =
    rw (open_s, get-retain (ltb ack) s.send_unacked k) (ground arith)
