-- ===== src/Examples/OfClient.antt =====
-- The theorems about linkmesh-client/src at concrete inputs.
use link_mesh.Base.{
  ℕ, suc, ◌≤◌, ◌≡◌, refl, ◌⊎◌, some, [], ◌∷◌, Bytes, length, arith, take, map, true, eqb,
  Bool-cases, inl, inr, sym, nat_eq, Option, none, ◌≢◌, ap, replicate,
}
use link_mesh.Client.Peer.{new, established, PeerSession, Unacked}
use link_mesh.Client.Receiving.{TextOps, join_session, accept_data, dispatch}
use link_mesh.Client.Receiving.Restart.{payloads, restarted_peer}
use link_mesh.Client.Reliable.{reorder_deliver}
use link_mesh.Client.Reliable.Delivery.{Log, sent, IsGenuine, Delivers, Delivers-reorder_deliver}
use link_mesh.Client.Link.{Link, IsFresh, send, sends, Reach, here, next}
use link_mesh.Client.Link.Alike.{in_window}
use link_mesh.Client.Link.Safety.Delivered.{delivered_in_order, nothing_lost, refused_packet_stalls}
use link_mesh.Base.Maps.{get}
use link_mesh.Client.Link.Safety.Acknowledged.{Acknowledges, next_packet, next_frame_advances}
use link_mesh.Client.Link.Safety.Full.{burst, window_fills}
use link_mesh.Examples.Data.{toy, outbox, env, fresh_link, session, key_a, key_b}

-- Three packets; the second comes before the first.
abbrev log : Log
log = some (1 ∷ []) ∷ some (2 ∷ []) ∷ some (3 ∷ []) ∷ []

genuine_second : (k : ℕ) (p : Bytes) → get ((2, 2 ∷ []) ∷ []) k ≡ some p → sent log k ≡ some p
unfolding get
genuine_second k p e = elim (Bool-cases (eqb 2 k)) [
  | inl same ↦
      (let k_is : 2 ≡ k = ground arith in rw (sym k_is) (let e' = rw (same, get) at e in cc))
  | inr other ↦ (let e' = rw (other, get) at e in cc)
]

held_second : IsGenuine log ((2, 2 ∷ []) ∷ [])
held_second = record { genuine = λ k p e. genuine_second k p e }

IsFresh-example : IsFresh fresh_link
unfolding new
IsFresh-example = record {
  tx_established = refl;
  tx_seq = refl;
  tx_window = refl;
  rx_seq = refl;
  rx_buf = refl;
  no_log = refl;
  no_out = refl;
  no_wire = refl;
  no_acks = refl;
}

abbrev after_send : Link
after_send = send toy outbox env (5 ∷ []) fresh_link

Reach-example : Reach toy outbox outbox fresh_link after_send
Reach-example = next here (sends env (5 ∷ []) fresh_link (omega arith))

delivered_in_order_example :
    (map some after_send.out ≡ take after_send.rx.recv_seq after_send.log)
    × (after_send.rx.recv_seq ≤ length after_send.log)
delivered_in_order_example =
    delivered_in_order toy outbox outbox fresh_link after_send IsFresh-example Reach-example

sent_first : sent after_send.log 1 ≡ some (5 ∷ [])
unfolding send new
sent_first = refl

nothing_lost_example : (1 ≤ after_send.rx.recv_seq) ⊎ (in_window after_send.tx 1 ≡ some (5 ∷ []))
nothing_lost_example =
    nothing_lost toy outbox outbox fresh_link after_send IsFresh-example Reach-example 1 (5 ∷ [])
      sent_first

open_rx_example : established after_send.rx ≡ true
unfolding send new
open_rx_example = refl

abbrev plain_text : TextOps
plain_text = record { from_utf8_lossy = λ b. b; is_ip = λ t. true }

sent_next : sent after_send.log (suc after_send.rx.recv_seq) ≡ some (5 ∷ [])
unfolding send new
sent_next = refl

next_frame_advances_example : Acknowledges toy outbox true env (5 ∷ []) after_send (
    dispatch toy plain_text outbox env
      (λ i. env)
      key_b
      true
      (next_packet after_send.rx (5 ∷ []))
      []
      after_send.rx)
next_frame_advances_example =
    next_frame_advances toy plain_text outbox outbox fresh_link after_send true env (λ i. env) key_b
      [] (5 ∷ []) IsFresh-example Reach-example open_rx_example sent_next

Delivers_example : Delivers log 0 (reorder_deliver 0 ((2, 2 ∷ []) ∷ []) 1 (1 ∷ []))
Delivers_example =
    Delivers-reorder_deliver log (omega arith) 0 ((2, 2 ∷ []) ∷ []) 1 (1 ∷ []) (omega arith)
      held_second refl

-- 512 packets that nobody acknowledges, and one more.
abbrev full_link : Link
full_link = burst toy outbox env (5 ∷ []) 512 fresh_link

abbrev refused_link : Link
refused_link = send toy outbox env (6 ∷ []) full_link

full_link_lem :
    Reach toy outbox outbox fresh_link full_link
    × (length full_link.tx.send_unacked ≡ 512)
    × (length full_link.log ≡ 512)
full_link_lem =
    window_fills toy outbox env (5 ∷ []) outbox 512 fresh_link IsFresh-example (omega arith)

refused_packet_stalls_example : refused_link.rx.recv_seq ≤ length full_link.log
refused_packet_stalls_example =
    refused_packet_stalls toy outbox outbox fresh_link full_link refused_link env (6 ∷ [])
      IsFresh-example full_link_lem.0 (omega (arith, full_link_lem.1))
      (omega (arith, full_link_lem.2)) here

-- A session that has received five packets and has one that waits for its acknowledgement.
abbrev busy : PeerSession
busy = record session {
  peer_rk_pub = some key_a;
  recv_seq = 5;
  send_seq = 7;
  send_unacked = (7, (990, 0, 9 ∷ [])) ∷ [];
}

first_byte : Option Bytes → ℕ
first_byte none = 0
first_byte (some []) = 0
first_byte (some (b ∷ rest)) = b

busy_lem : busy.peer_rk_pub ≢ some key_b
unfolding first_byte new
busy_lem e = (let one_is_two : ◌≡◌ {A = ℕ} 1 2 = ap first_byte e in omega arith)

restarted_peer_example :
    (payloads (join_session toy outbox env key_b (replicate 12 5) (50 ∷ []) busy).0.send_unacked
      ≡ (9 ∷ []) ∷ [])
    × (map
          (λ (e : ℕ × Unacked). e.0)
          (join_session toy outbox env key_b (replicate 12 5) (50 ∷ []) busy).0.send_unacked
        ≡ 1 ∷ [])
    × ((s' : PeerSession) × (accept_data true env busy.epoch 1
            (6 ∷ [])
            (join_session toy outbox env key_b (replicate 12 5) (50 ∷ []) busy).0
          ≡ some (s', [], busy.recv_seq))
        × (s'.recv_seq ≡ 5))
restarted_peer_example =
    restarted_peer toy outbox env key_b (replicate 12 5) (50 ∷ []) busy true 1 (6 ∷ []) refl
      busy_lem (omega arith) (omega arith) (omega arith)
