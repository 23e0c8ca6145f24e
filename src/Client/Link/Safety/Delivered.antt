-- ===== src/Client/Link/Safety/Delivered.antt =====
-- What is delivered between two clients that run linkmesh-client/src/connection.rs.
use link_mesh.Base.{
  ℕ, zero, suc, ◌+◌, ◌^◌, ◌≤◌, ◌<◌, ◌≡◌, Option, none, some, List, [], ◌∷◌, ◌++◌, Bytes, true,
  arith, length, leb, Bool-cases, inl, inr, ◌⊎◌, take, map, get_elem?, refl, nat_eq,
}
use link_mesh.Shared.Crypto.{Primitives}
use link_mesh.Client.Outbox.{Outbox, Env}
use link_mesh.Client.Reliable.{reliable_window}
use link_mesh.Client.Reliable.Delivery.{sent}
use link_mesh.Base.Maps.{get}
use link_mesh.Client.Link.{
  Link, IsFresh, send, receive, resend_due, Step, sends, resends, receives, is_acked, rekeys,
  is_rekeyed, Reach, here, next,
}
use link_mesh.Client.Link.Alike.{in_window}
use link_mesh.Client.Link.Safety.Invariant.{IsSound, IsSound-Reach, IsSound-Step}

nothing_sent : {A : Type 0} (k : ℕ) (p : Bytes) → sent [] k ≡ some p → A
nothing_sent zero p e = cc
nothing_sent (suc k) p e = cc

none_held : {A : Type 0} (k : ℕ) (p : Bytes) → get [] k ≡ some p → A
unfolding get
none_held k p e = cc

pub fresh-IsSound : (l : Link) → IsFresh l → IsSound l
fresh-IsSound l f = record {
  small = rw f.no_log (omega arith);
  sender = record {
    open_tx = f.tx_established;
    counted = rw (f.no_log, f.tx_seq);
    entries = rw f.tx_window tt;
    kept = rw f.no_log (λ k p e above. nothing_sent k p e);
  };
  receiver = record {
    in_order = rw (f.no_log, f.no_out, f.rx_seq);
    within = rw (f.no_log, f.rx_seq) (omega arith);
    held = rw (f.rx_buf, f.no_log) (record { genuine = λ k p e. none_held k p e });
  };
  on_wire = rw f.no_wire tt;
  on_acks = rw f.no_acks tt;
}

-- A list of values has no `none`.
take-stops :
    {A : Type 0} (xs : List A) (n : ℕ) (log : List (Option A)) (g : ℕ)
    → map some xs ≡ take n log
    → get_elem? log g ≡ some none
    → n ≤ g
take-stops xs zero log g e hole = omega arith
take-stops xs (suc n) [] g e hole = cc
take-stops [] (suc n) (o ∷ log) g e hole = cc
take-stops (x ∷ xs) (suc n) (o ∷ log) zero e hole = cc
take-stops (x ∷ xs) (suc n) (o ∷ log) (suc g) e hole =
    (let rest : map some xs ≡ take n log = cc in omega (arith, take-stops xs n log g rest hole))

get_elem?-append :
    {A : Type 0} (xs ys : List A) (i : ℕ) (x : A)
    → get_elem? xs i ≡ some x
    → get_elem? (xs ++ ys) i ≡ some x
get_elem?-append [] ys i x e = cc
get_elem?-append (y ∷ xs) ys zero x e = e
get_elem?-append (y ∷ xs) ys (suc i) x e = get_elem?-append xs ys i x e

get_elem?-last : {A : Type 0} (xs : List A) (x : A) → get_elem? (xs ++ x ∷ []) (length xs) ≡ some x
get_elem?-last [] x = refl
get_elem?-last (y ∷ xs) x = get_elem?-last xs x

module _ (prim : Primitives) (o o' : Outbox) where
  -- What was written to the log stays.
  log-Step :
      {l m : Link} (i : ℕ) (x : Option Bytes)
      → Step prim o o' l m
      → get_elem? l.log i ≡ some x
      → get_elem? m.log i ≡ some x
  unfolding send receive resend_due
  log-Step i x (sends env q l small) e =
      elim (Bool-cases (leb reliable_window (length l.tx.send_unacked))) [
        | inl full ↦ rw full (get_elem?-append l.log (none ∷ []) i x e)
        | inr room ↦ rw room (get_elem?-append l.log (some q ∷ []) i x e)
      ]
  log-Step i x (resends env l) e = e
  log-Step i x (receives is_direct env j (epoch, seq, p) l on) e = ground arith
  log-Step i x (is_acked env j ack l on) e = e
  log-Step i x (rekeys env l) e = e
  log-Step i x (is_rekeyed env epoch payload l) e = e

  log-Reach :
      {l m : Link} (i : ℕ) (x : Option Bytes)
      → Reach prim o o' l m
      → get_elem? l.log i ≡ some x
      → get_elem? m.log i ≡ some x
  log-Reach i x here e = e
  log-Reach i x (next r s) e = log-Step i x s (log-Reach i x r e)

  -- Whatever the network does to the packets of a new session (late, in any order, twice or
  -- never), the receiver has delivered the payloads of the numbers up to its mark, each once
  -- and in their order.
  pub delivered_in_order :
      (l m : Link)
      → IsFresh l
      → Reach prim o o' l m
      → (map some m.out ≡ take m.rx.recv_seq m.log) × (m.rx.recv_seq ≤ length m.log)
  delivered_in_order l m f r =
      let h = IsSound-Reach prim o o' (fresh-IsSound l f) r in
      (h.receiver.in_order, h.receiver.within)

  -- In every state that a new session reaches, a payload that was sent under a number is
  -- at or below the receiver's mark, which `delivered_in_order` says is delivered, or still in the
  -- sender's window.
  pub nothing_lost :
      (l m : Link)
      → IsFresh l
      → Reach prim o o' l m
      → (k : ℕ) (p : Bytes) → sent m.log k ≡ some p
      → (k ≤ m.rx.recv_seq) ⊎ (in_window m.tx k ≡ some p)
  nothing_lost l m f r k p e =
      let h = IsSound-Reach prim o o' (fresh-IsSound l f) r in
      elim (Bool-cases (leb k m.rx.recv_seq)) [
        | inl done ↦ inl (ground arith)
        | inr above ↦ inr (h.sender.kept k p e (ground arith))
      ]

  -- A packet that is handed to the sender while 512 packets are unacknowledged takes a number
  -- and is dropped. From then on, in every later state of that session, the receiver's mark does
  -- not pass the number before it.
  pub refused_packet_stalls :
      (l m n : Link) (env : Env) (q : Bytes)
      → IsFresh l
      → Reach prim o o' l m
      → reliable_window ≤ length m.tx.send_unacked
      → length m.log + 2 < 2 ^ 64
      → Reach prim o o' (send prim o env q m) n
      → n.rx.recv_seq ≤ length m.log
  unfolding send
  refused_packet_stalls l m n env q f r full small later =
      let s : Step prim o o' m (send prim o env q m) = sends env q m small in
      let h =
        IsSound-Reach prim o o'
          (IsSound-Step prim o o' s (IsSound-Reach prim o o' (fresh-IsSound l f) r)) later in
      let is_full : leb reliable_window (length m.tx.send_unacked) ≡ true = ground arith in
      let hole : get_elem? (send prim o env q m).log (length m.log) ≡ some none =
        rw (is_full, send) (get_elem?-last m.log none) in
      take-stops n.out n.rx.recv_seq n.log (length m.log) h.receiver.in_order
        (log-Reach (length m.log) none later hole)
