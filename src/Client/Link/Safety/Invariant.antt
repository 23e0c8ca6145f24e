-- ===== src/Client/Link/Safety/Invariant.antt =====
-- The invariant of two clients that run linkmesh-client/src/connection.rs, step by step.
use mathlib.Core.List.{map-append}
use native.Mathlib.Nat.{le_refl}
use link_mesh.Base.{
  ℕ, zero, suc, ◌+◌, ◌^◌, ◌≤◌, ◌<◌, ◌≡◌, ◌∙◌, Option, none, some, List, [], ◌∷◌, ◌++◌, Bytes, Bool,
  true, arith, length, length-append, subst, leb, ltb, nat_eq, eqb, if◌then◌else◌, Bool-cases, inl,
  inr, All, All-retain, All-append, take, take-append_le, map, get_elem?, not, ◌||◌,
}
use link_mesh.Base.Maps.{Map, All-insert_sorted}
use link_mesh.Shared.Crypto.{Primitives}
use link_mesh.Client.Peer.{PeerSession, Unacked, established}
use link_mesh.Client.Outbox.{Outbox, Env}
use link_mesh.Client.Sending.{take_number, admit, enqueue, handle_ack, is_due}
use link_mesh.Client.Receiving.{advance, accept_data}
use link_mesh.Client.Reliable.{reliable_window, next_seq, reorder_deliver}
use link_mesh.Client.Reliable.Delivery.{Log, sent, IsGenuine, Delivers, Delivers-reorder_deliver}
use link_mesh.Client.Link.{
  Link, DataFrame, send, resend_due, receive, Step, sends, resends, receives, is_acked, rekeys,
  is_rekeyed, Reach, here, next,
}
use link_mesh.Client.Link.Alike.{
  in_window, SentEntries, Alike, Alike-retransmit, Alike-maybe_rekey, Alike-send_ack,
  Alike-handle_rekey,
}
use link_mesh.Client.Link.Safety.Numbers.{sent-append, sent-append_inv, sent-le-length, sent_last}
use link_mesh.Client.Link.Safety.Sender.{
  enqueue_full, enqueue_room, in_window-admit, in_window-handle_ack,
}

-- A frame carries what was sent under its number.
abbrev pub IsSent : Log → DataFrame → Type 0
IsSent log (epoch, k, p) = sent log k ≡ some p

-- What the sender knows: it holds only what was sent, and all that is above `high`.
pub record Keeps (log : Log) (high : ℕ) (tx : PeerSession) : Type 0 where
  pub open_tx : established tx ≡ true
  pub counted : tx.send_seq ≡ length log
  pub entries : SentEntries log tx
  pub kept : (k : ℕ) (p : Bytes) → sent log k ≡ some p → high < k → in_window tx k ≡ some p

-- What the receiver knows.
pub record Has (log : Log) (out : List Bytes) (rx : PeerSession) : Type 0 where
  pub in_order : map some out ≡ take rx.recv_seq log
  pub within : rx.recv_seq ≤ length log
  pub held : IsGenuine log rx.recv_buf

pub record IsSound (l : Link) : Type 0 where
  pub small : length l.log + 1 < 2 ^ 64
  pub sender : Keeps l.log l.rx.recv_seq l.tx
  pub receiver : Has l.log l.out l.rx
  pub on_wire : All (IsSent l.log) l.wire
  pub on_acks : All (λ a. a ≤ l.rx.recv_seq) l.acks

-- A sender that changed nothing of the transport.
Keeps-Alike :
    (log : Log) (high : ℕ) {s t : PeerSession} → Alike s t → Keeps log high s → Keeps log high t
Keeps-Alike log high a h = record {
  open_tx = a.keys ∙ h.open_tx;
  counted = a.send_seq ∙ h.counted;
  entries = a.entries log h.entries;
  kept = λ k p e above. a.window k ∙ h.kept k p e above;
}

Has-Alike :
    (log : Log) (out : List Bytes) {s t : PeerSession} → Alike s t → Has log out s → Has log out t
Has-Alike log out a h = record {
  in_order = rw a.recv_seq h.in_order;
  within = rw a.recv_seq h.within;
  held = rw a.recv_buf h.held;
}

-- A longer log.
Has-append :
    (log : Log) (o : Option Bytes) (out : List Bytes) (rx : PeerSession)
    → Has log out rx
    → Has (log ++ o ∷ []) out rx
Has-append log o out rx h = record {
  in_order = rw (take-append_le rx.recv_seq log (o ∷ []) h.within) h.in_order;
  within = omega (arith, h.within, length-append log (o ∷ []));
  held = record { genuine = λ k p e. sent-append log (o ∷ []) k p (h.held.genuine k p e) };
}

IsSent-append :
    (log : Log) (o : Option Bytes) (wire : List DataFrame)
    → All (IsSent log) wire
    → All (IsSent (log ++ o ∷ [])) wire
IsSent-append log o [] h = tt
IsSent-append log o ((e, k, p) ∷ wire) h =
    (sent-append log (o ∷ []) k p h.0, IsSent-append log o wire h.1)

entries-append :
    (log : Log) (o : Option Bytes) (m : Map ℕ Unacked)
    → All (λ e. sent log e.0 ≡ some e.1.2) m
    → All (λ e. sent (log ++ o ∷ []) e.0 ≡ some e.1.2) m
entries-append log o [] h = tt
entries-append log o ((k, (t, retries, p)) ∷ m) h =
    (sent-append log (o ∷ []) k p h.0, entries-append log o m h.1)

-- The number is taken and nothing is sent under it.
Keeps-refused :
    (log : Log) (high : ℕ) (tx : PeerSession)
    → length log + 2 < 2 ^ 64
    → Keeps log high tx
    → Keeps (log ++ none ∷ []) high (take_number tx)
unfolding take_number
Keeps-refused log high tx small h = record {
  open_tx = h.open_tx;
  counted = omega (arith, h.counted, length-append log (none ∷ []));
  entries = entries-append log none tx.send_unacked h.entries;
  kept = λ k p e above. elim (sent-append_inv log none k p e) [
    | inl old ↦ h.kept k p old above
    | inr (_, q) ↦ cc
  ];
}

in_window_admitted :
    (env : Env) (q : Bytes) (log : Log) (tx : PeerSession) (k : ℕ)
    → length log + 2 < 2 ^ 64
    → tx.send_seq ≡ length log
    → in_window (admit env q (take_number tx)) k
      ≡ (if eqb (suc (length log)) k then some q else in_window tx k)
in_window_admitted env q log tx k small counted =
    let next : next_seq tx.send_seq ≡ suc (length log) = omega arith in
    in_window-admit env q (take_number tx) k ∙ unfold take_number in rw next

Keeps-admitted :
    (env : Env) (q : Bytes) (log : Log) (high : ℕ) (tx : PeerSession)
    → length log + 2 < 2 ^ 64
    → Keeps log high tx
    → Keeps (log ++ some q ∷ []) high (admit env q (take_number tx))
Keeps-admitted env q log high tx small h =
    let next : next_seq tx.send_seq ≡ suc (length log) = omega (arith, h.counted) in
    record {
      open_tx = unfold admit take_number in h.open_tx;
      counted =
          unfold admit take_number in omega (arith, h.counted, length-append log (some q ∷ []));
      entries =
          unfold admit take_number in
          All-insert_sorted (λ k v. sent (log ++ some q ∷ []) k ≡ some v.2) tx.send_unacked _
            (env.now, 0, q) (rw next (sent_last log (some q)))
            (entries-append log (some q) tx.send_unacked h.entries);
      kept = λ k p e above. elim (sent-append_inv log (some q) k p e) [
        | inl old ↦ ground (
          arith,
          in_window_admitted env q log tx k small h.counted,
          sent-le-length log k p old,
          h.kept k p old above,
        )
        | inr (last, same) ↦ ground (arith, in_window_admitted env q log tx k small h.counted)
      ];
    }

-- An acknowledgement of what was delivered.
Keeps-acked :
    (env : Env) (ack : ℕ) (log : Log) (high : ℕ) (tx : PeerSession)
    → ack ≤ high
    → Keeps log high tx
    → Keeps log high (handle_ack env ack tx)
Keeps-acked env ack log high tx le h = record {
  open_tx = unfold handle_ack in ground (arith, h.open_tx);
  counted = unfold handle_ack in ground (arith, h.counted);
  entries =
      unfold handle_ack in
      rw h.open_tx
        (All-retain (λ e. sent log e.0 ≡ some e.1.2) (λ e. ltb ack e.0) tx.send_unacked h.entries);
  kept = λ k p e above.
      ground (arith, in_window-handle_ack env ack tx k h.open_tx, h.kept k p e above);
}

-- A frame that was sent leads to a receiver with a longer delivery.
Has-advance :
    (is_direct : Bool) (env : Env) (log : Log) (out : List Bytes) (rx : PeerSession)
    (r : List Bytes × ℕ × Map ℕ Bytes)
    → Has log out rx
    → Delivers log rx.recv_seq r
    → Has log (out ++ r.0) (advance is_direct env r rx)
unfolding advance
Has-advance is_direct env log out rx r h d = record {
  in_order = map-append some out r.0 ∙ rw h.in_order d.in_order;
  within = d.within;
  held = d.held;
}

-- The receiver's mark moved up.
Keeps-above :
    (log : Log) (high high' : ℕ) (tx : PeerSession)
    → high ≤ high'
    → Keeps log high tx
    → Keeps log high' tx
Keeps-above log high high' tx le h = record {
  open_tx = h.open_tx;
  counted = h.counted;
  entries = h.entries;
  kept = λ k p e above. h.kept k p e (omega arith);
}

acks-above :
    (high high' : ℕ) (acks : List ℕ)
    → high ≤ high'
    → All (λ a. a ≤ high) acks
    → All (λ a. a ≤ high') acks
acks-above high high' [] le h = tt
acks-above high high' (a ∷ acks) le h = (omega arith, acks-above high high' acks le h.1)

-- The receiver changed nothing of the transport.
IsSound-Alike :
    (l : Link) (rx' : PeerSession) → Alike l.rx rx' → IsSound l → IsSound (record l { rx = rx' })
IsSound-Alike l rx' alike h = record {
  small = h.small;
  sender = rw alike.recv_seq h.sender;
  receiver = Has-Alike _ _ alike h.receiver;
  on_wire = h.on_wire;
  on_acks = rw alike.recv_seq h.on_acks;
}

module _ (prim : Primitives) (o' : Outbox) where
  pub IsSound-receive :
      (is_direct : Bool) (env : Env) (frame : DataFrame) (l : Link)
      → IsSent l.log frame
      → IsSound l
      → IsSound (receive prim o' is_direct env frame l)
  unfolding receive accept_data
  IsSound-receive is_direct env (epoch, seq, p) l genuine h =
      elim (Bool-cases (not (established l.rx) || not (eqb epoch l.rx.epoch))) [
        | inl refused ↦ rw (refused, receive) h
        | inr taken ↦
            let r = reorder_deliver l.rx.recv_seq l.rx.recv_buf seq p in
            let d =
              Delivers-reorder_deliver l.log h.small l.rx.recv_seq l.rx.recv_buf seq p
                h.receiver.within h.receiver.held genuine in
            let rx' = advance is_direct env r l.rx in
            let m : Link = record l { rx = rx'; out = l.out ++ r.0; acks = r.1 ∷ l.acks } in
            rw (taken, receive)
              (IsSound-Alike m _ (Alike-send_ack prim o' env r.1 rx') (record {
                small = h.small;
                sender =
                    unfold advance in Keeps-above l.log l.rx.recv_seq r.1 l.tx d.grows h.sender;
                receiver = Has-advance is_direct env l.log l.out l.rx r h.receiver d;
                on_wire = h.on_wire;
                on_acks =
                    unfold advance in
                    (le_refl r.1, acks-above l.rx.recv_seq r.1 l.acks d.grows h.on_acks);
              }))
      ]

-- The frames of a retransmission were sent.
due-IsSent :
    (env : Env) (epoch : ℕ) (log : Log) (m : List (ℕ × Unacked))
    → All (λ e. sent log e.0 ≡ some e.1.2) m
    → All (IsSent log) (map (λ (e : ℕ × Unacked). (epoch, e.0, e.1.2)) m)
due-IsSent env epoch log [] h = tt
due-IsSent env epoch log ((k, (t, retries, p)) ∷ m) h = (h.0, due-IsSent env epoch log m h.1)

module _ (prim : Primitives) (o : Outbox) where
  pub IsSound-send :
      (env : Env) (q : Bytes) (l : Link)
      → length l.log + 2 < 2 ^ 64
      → IsSound l
      → IsSound (send prim o env q l)
  unfolding send
  IsSound-send env q l small h =
      elim (Bool-cases (leb reliable_window (length l.tx.send_unacked))) [
        | inl full ↦
            rw (full, send)
              (record {
                small = omega (arith, length-append l.log (none ∷ []));
                sender =
                    rw (enqueue_full prim o env q l.tx h.sender.open_tx full)
                      (Keeps-refused l.log l.rx.recv_seq l.tx small h.sender);
                receiver = Has-append l.log none l.out l.rx h.receiver;
                on_wire = IsSent-append l.log none l.wire h.on_wire;
                on_acks = h.on_acks;
              })
        | inr room ↦
            let alike = enqueue_room prim o env q l.tx h.sender.open_tx room in
            let taken : (enqueue prim o env q l.tx).0.send_seq ≡ suc (length l.log) =
              alike.send_seq ∙ unfold admit take_number in omega (arith, h.sender.counted) in
            rw (room, send)
              (record {
                small = omega (arith, length-append l.log (some q ∷ []));
                sender =
                    Keeps-Alike _ _ alike
                      (Keeps-admitted env q l.log l.rx.recv_seq l.tx small h.sender);
                receiver = Has-append l.log (some q) l.out l.rx h.receiver;
                on_wire = (
                  rw taken (sent_last l.log (some q)),
                  IsSent-append l.log (some q) l.wire h.on_wire,
                );
                on_acks = h.on_acks;
              })
      ]

  pub IsSound-resend_due : (env : Env) (l : Link) → IsSound l → IsSound (resend_due prim o env l)
  unfolding resend_due
  IsSound-resend_due env l h = record {
    small = h.small;
    sender = Keeps-Alike _ _ (Alike-retransmit prim o env l.tx) h.sender;
    receiver = h.receiver;
    on_wire =
        All-append (IsSent l.log) _ l.wire
          (due-IsSent env l.tx.epoch l.log _ (
            All-retain (λ e. sent l.log e.0 ≡ some e.1.2) (is_due env) l.tx.send_unacked
              h.sender.entries))
          h.on_wire;
    on_acks = h.on_acks;
  }

-- What stands at a place of a list has what all have.
All-get_elem? :
    {A : Type 0} (P : A → Type 0) (xs : List A) (i : ℕ) (x : A)
    → All P xs
    → get_elem? xs i ≡ some x
    → P x
All-get_elem? P [] i x h e = cc
All-get_elem? P (y ∷ xs) zero x h e = (let same : y ≡ x = cc in subst P same h.0)
All-get_elem? P (y ∷ xs) (suc i) x h e = All-get_elem? P xs i x h.1 e

module _ (prim : Primitives) (o o' : Outbox) where
  pub IsSound-Step : {l m : Link} → Step prim o o' l m → IsSound l → IsSound m
  IsSound-Step (sends env q l small) h = IsSound-send prim o env q l small h
  IsSound-Step (resends env l) h = IsSound-resend_due prim o env l h
  IsSound-Step (receives is_direct env i frame l e) h =
      IsSound-receive prim o' is_direct env frame l
        (All-get_elem? (IsSent l.log) l.wire i frame h.on_wire e) h
  IsSound-Step (is_acked env i ack l e) h = record {
    small = h.small;
    sender =
        Keeps-acked env ack l.log l.rx.recv_seq l.tx
          (All-get_elem? (λ a. a ≤ l.rx.recv_seq) l.acks i ack h.on_acks e) h.sender;
    receiver = h.receiver;
    on_wire = h.on_wire;
    on_acks = h.on_acks;
  }
  IsSound-Step (rekeys env l) h = record {
    small = h.small;
    sender = Keeps-Alike _ _ (Alike-maybe_rekey prim o env l.tx) h.sender;
    receiver = h.receiver;
    on_wire = h.on_wire;
    on_acks = h.on_acks;
  }
  IsSound-Step (is_rekeyed env epoch payload l) h =
      IsSound-Alike l _ (Alike-handle_rekey prim o' env epoch payload l.rx) h

  pub IsSound-Reach : {l m : Link} → IsSound l → Reach prim o o' l m → IsSound m
  IsSound-Reach h here = h
  IsSound-Reach h (next r s) = IsSound-Step s (IsSound-Reach h r)
