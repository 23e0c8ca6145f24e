-- ===== src/Client/Link.antt =====
-- Two clients and the network between them, for the packets that go one way: the sender and the
-- receiver run the code of linkmesh-client/src/connection.rs. The network keeps every packet and
-- every acknowledgement, so it may deliver them late, in any order, twice or never.
pub mod Alike
pub mod Safety
use link_mesh.Base.{
  ℕ, ◌+◌, ◌<◌, ◌^◌, ◌≡◌, Option, none, some, List, [], ◌∷◌, ◌++◌, Bytes, Bool, true, length, leb,
  get_elem?, if◌then◌else◌, map, retain,
}
use link_mesh.Shared.Crypto.{Primitives}
use link_mesh.Client.Peer.{PeerSession, Unacked, established}
use link_mesh.Client.Outbox.{Outbox, Env, maybe_rekey, send_ack}
use link_mesh.Client.Sending.{enqueue, handle_ack, retransmit, is_due}
use link_mesh.Client.Receiving.{handle_rekey, accept_data}
use link_mesh.Client.Reliable.{reliable_window, next_seq}
use link_mesh.Client.Reliable.Delivery.{Log}

-- A DATA frame: its epoch, its number and its payload.
abbrev pub DataFrame : Type 0
DataFrame = ℕ × ℕ × Bytes

pub record Link : Type 0 where
  pub tx : PeerSession
  pub rx : PeerSession
  pub log : Log
  pub out : List Bytes
  pub wire : List DataFrame
  pub acks : List ℕ

module _ (prim : Primitives) (o : Outbox) where
  -- A packet is handed to the sender: it gets a number, and goes out if the window has room.
  unfoldable pub send : Env → Bytes → Link → Link
  send env p l =
      let tx' = (enqueue prim o env p l.tx).0 in
      if leb reliable_window (length l.tx.send_unacked)
      then record l { tx = tx'; log = l.log ++ none ∷ [] }
      else record l {
        tx = tx';
        log = l.log ++ some p ∷ [];
        wire = (tx'.epoch, tx'.send_seq, p) ∷ l.wire;
      }

  -- The packets that are due go out again, under the sender's epoch.
  unfoldable pub resend_due : Env → Link → Link
  resend_due env l = record l {
    tx = (retransmit prim o env l.tx).0;
    wire =
        map (λ (e : ℕ × Unacked). (l.tx.epoch, e.0, e.1.2)) (retain (is_due env) l.tx.send_unacked)
        ++ l.wire;
  }

  -- The receiver takes a frame, delivers what is in order and sends the acknowledgement, as in the
  -- DATA branch of `dispatch`; its number is on the way.
  unfoldable pub receive : Bool → Env → DataFrame → Link → Link
  unfolding send_ack
  receive is_direct env (epoch, seq, p) l = elim (accept_data is_direct env epoch seq p l.rx) [
    | none ↦ l
    | some (rx', delivered, ack) ↦ record l {
      rx = (send_ack prim o env ack rx').0;
      out = l.out ++ delivered;
      acks = ack ∷ l.acks;
    }
  ]

pub data Step (prim : Primitives) (o o' : Outbox) : Link → Link → Type 0 where
  sends :
      (env : Env) (p : Bytes) (l : Link)
      → length l.log + 2 < 2 ^ 64
      → Step prim o o' l (send prim o env p l)
  resends : (env : Env) (l : Link) → Step prim o o' l (resend_due prim o env l)
  receives :
      (is_direct : Bool) (env : Env) (i : ℕ) (frame : DataFrame) (l : Link)
      → get_elem? l.wire i ≡ some frame
      → Step prim o o' l (receive prim o' is_direct env frame l)
  is_acked :
      (env : Env) (i ack : ℕ) (l : Link)
      → get_elem? l.acks i ≡ some ack
      → Step prim o o' l (record l { tx = handle_ack env ack l.tx })
  rekeys :
      (env : Env) (l : Link) → Step prim o o' l (record l { tx = (maybe_rekey prim o env l.tx).0 })
  is_rekeyed :
      (env : Env) (epoch : ℕ) (payload : Bytes) (l : Link)
      → Step prim o o' l (record l { rx = handle_rekey prim o' env epoch payload l.rx })

pub data Reach (prim : Primitives) (o o' : Outbox) (s : Link) : Link → Type 0 where
  here : Reach prim o o' s s
  next : {t u : Link} → Reach prim o o' s t → Step prim o o' t u → Reach prim o o' s u

-- Two sessions that were just established, before any packet.
pub record IsFresh (l : Link) : Type 0 where
  pub tx_established : established l.tx ≡ true
  pub tx_seq : l.tx.send_seq ≡ 0
  pub tx_window : l.tx.send_unacked ≡ []
  pub rx_seq : l.rx.recv_seq ≡ 0
  pub rx_buf : l.rx.recv_buf ≡ []
  pub no_log : l.log ≡ []
  pub no_out : l.out ≡ []
  pub no_wire : l.wire ≡ []
  pub no_acks : l.acks ≡ []
