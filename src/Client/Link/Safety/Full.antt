-- ===== src/Client/Link/Safety/Full.antt =====
-- How the window of a sender fills, by `send_data` of linkmesh-client/src/connection.rs, when
-- nothing is acknowledged.
use link_mesh.Base.{
  ℕ, zero, suc, ◌+◌, ◌≤◌, ◌<◌, ◌≡◌, ◌∙◌, ap, none, some, [], ◌∷◌, Bytes, false, arith, length,
  length-append, leb, Option-cases, inl, inr, nat_eq,
}
use link_mesh.Base.Maps.{get, All-get, length-insert_sorted_new}
use link_mesh.Shared.Crypto.{Primitives}
use link_mesh.Client.Peer.{PeerSession}
use link_mesh.Client.Outbox.{Outbox, Env, transport_send}
use link_mesh.Client.Sending.{take_number, admit, enqueue}
use link_mesh.Client.Reliable.{reliable_window, next_seq}
use link_mesh.Client.Reliable.Delivery.{sent}
use link_mesh.Client.Link.{Link, IsFresh, send, sends, Reach, here, next}
use link_mesh.Client.Link.Safety.Numbers.{sent-le-length}
use link_mesh.Client.Link.Safety.Invariant.{IsSound, IsSound-send}
use link_mesh.Client.Link.Safety.Delivered.{fresh-IsSound}

send_unacked-transport_send :
    (o : Outbox) (env : Env) (s : PeerSession) (ct : Bytes)
    → (transport_send o env s ct).0.send_unacked ≡ s.send_unacked
unfolding transport_send
send_unacked-transport_send o env s ct = ground arith

module _ (prim : Primitives) (o : Outbox) (env : Env) (p : Bytes) where
  -- The next number is not in the window yet.
  next_number_new : (l : Link) → IsSound l → get l.tx.send_unacked (next_seq l.tx.send_seq) ≡ none
  next_number_new l h = elim (Option-cases (get l.tx.send_unacked (next_seq l.tx.send_seq))) [
    | inl new ↦ new
    | inr (v, old) ↦
        let known =
          All-get (λ k v. sent l.log k ≡ some v.2) l.tx.send_unacked (next_seq l.tx.send_seq) v
            h.sender.entries old in
        absurd (
          omega (
            arith,
            sent-le-length l.log (next_seq l.tx.send_seq) v.2 known,
            h.sender.counted,
            h.small,
          ))
  ]

  send_lem :
      (l : Link)
      → IsSound l
      → length l.tx.send_unacked < 512
      → (length (send prim o env p l).tx.send_unacked ≡ length l.tx.send_unacked + 1)
        × (length (send prim o env p l).log ≡ length l.log + 1)
  unfolding send enqueue
  send_lem l h room =
      let has_room : leb reliable_window (length l.tx.send_unacked) ≡ false = ground arith in
      rw (has_room, h.sender.open_tx, send)
        (
          ap length (send_unacked-transport_send o env (admit env p (take_number l.tx)) _)
              ∙ (unfold admit take_number in
                  length-insert_sorted_new l.tx.send_unacked (next_seq l.tx.send_seq)
                    (env.now, 0, p) (next_number_new l h)),
          length-append l.log (some p ∷ []),
        )

  -- The same packet `n` times.
  unfoldable pub burst : ℕ → Link → Link
  burst zero l = l
  burst (suc n) l = send prim o env p (burst n l)

  burst_lem :
      (n : ℕ) (l : Link)
      → IsFresh l
      → n ≤ 512
      → IsSound (burst n l)
        × (length (burst n l).tx.send_unacked ≡ n)
        × (length (burst n l).log ≡ n)
  unfolding burst
  burst_lem zero l f h = (fresh-IsSound l f, ap length f.tx_window, ap length f.no_log)
  burst_lem (suc n) l f h =
      let (sound, window, log) = burst_lem n l f (omega arith) in
      let (window', log') = send_lem (burst n l) sound (omega arith) in
      (
        IsSound-send prim o env p (burst n l) (omega arith) sound,
        omega (arith, window', window),
        omega (arith, log', log),
      )

  -- From a new session, up to 512 packets that are not acknowledged all stand in the window, and
  -- the state is one that the session reaches.
  pub window_fills :
      (o' : Outbox) (n : ℕ) (l : Link)
      → IsFresh l
      → n ≤ 512
      → Reach prim o o' l (burst n l)
        × (length (burst n l).tx.send_unacked ≡ n)
        × (length (burst n l).log ≡ n)
  unfolding burst
  window_fills o' zero l f h = (here, (burst_lem zero l f h).1, (burst_lem zero l f h).2)
  window_fills o' (suc n) l f h =
      let (sound, window, log) = burst_lem (suc n) l f h in
      let (s, w, g) = burst_lem n l f (omega arith) in
      (
        next (window_fills o' n l f (omega arith)).0 (sends env p (burst n l) (omega arith)),
        window,
        log,
      )
