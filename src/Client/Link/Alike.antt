-- ===== src/Client/Link/Alike.antt =====
-- Which functions of linkmesh-client/src/connection.rs leave the reliable transport alone: the
-- numbers, the payloads in the window, the buffer, and whether there is a session key.
use link_mesh.Base.{
  ℕ, ◌+◌, ◌%◌, ◌^◌, retain, ◌≡◌, refl, ◌∙◌, sym, ap, subst, All, Option, none, some, List, [], ◌∷◌,
  Bytes, arith, Bool-cases, Option-cases, inl, inr, nat_eq,
}
use link_mesh.Base.Maps.{get, get-insert_sorted, All-get, All-insert_sorted}
use link_mesh.Shared.Crypto.{Primitives}
use link_mesh.Client.Peer.{PeerSession, Unacked, established}
use link_mesh.Client.Outbox.{Outbox, Env, relay_send, transport_send, maybe_rekey, send_ack}
use link_mesh.Client.Sending.{renew, resend, retransmit, data_ct, is_due}
use link_mesh.Client.Receiving.{handle_rekey}
use link_mesh.Client.Reliable.Delivery.{Log, sent}

abbrev pub payload_of : Option Unacked → Option Bytes
payload_of none = none
payload_of (some (t, retries, p)) = some p

-- The payload that the window keeps under a number.
abbrev pub in_window : PeerSession → ℕ → Option Bytes
in_window s k = payload_of (get s.send_unacked k)

-- The window holds only what was sent.
abbrev pub SentEntries : Log → PeerSession → Type 0
SentEntries log s = All (λ e. sent log e.0 ≡ some e.1.2) s.send_unacked

pub record Alike (s t : PeerSession) : Type 0 where
  pub keys : established t ≡ established s
  pub send_seq : t.send_seq ≡ s.send_seq
  pub recv_seq : t.recv_seq ≡ s.recv_seq
  pub recv_buf : t.recv_buf ≡ s.recv_buf
  pub window : (k : ℕ) → in_window t k ≡ in_window s k
  pub entries : (log : Log) → SentEntries log s → SentEntries log t

Alike-refl : (s : PeerSession) → Alike s s
Alike-refl s = record {
  keys = refl;
  send_seq = refl;
  recv_seq = refl;
  recv_buf = refl;
  window = λ k. refl;
  entries = λ log h. h;
}

Alike-trans : {s t u : PeerSession} → Alike s t → Alike t u → Alike s u
Alike-trans a b = record {
  keys = b.keys ∙ a.keys;
  send_seq = b.send_seq ∙ a.send_seq;
  recv_seq = b.recv_seq ∙ a.recv_seq;
  recv_buf = b.recv_buf ∙ a.recv_buf;
  window = λ k. b.window k ∙ a.window k;
  entries = λ log h. b.entries log (a.entries log h);
}

-- The same window, and the same in the rest.
same_window :
    {s t : PeerSession}
    → established t ≡ established s
    → t.send_seq ≡ s.send_seq
    → t.recv_seq ≡ s.recv_seq
    → t.recv_buf ≡ s.recv_buf
    → t.send_unacked ≡ s.send_unacked
    → Alike s t
same_window a b c d e = record {
  keys = a;
  send_seq = b;
  recv_seq = c;
  recv_buf = d;
  window = λ k. ap (λ m. payload_of (get m k)) e;
  entries = λ log h. subst (λ m. All (λ x. sent log x.0 ≡ some x.1.2) m) (sym e) h;
}

module _ (o : Outbox) (env : Env) where
  Alike-relay_send : (s : PeerSession) (ct : Bytes) → Alike s (relay_send o env s ct).0
  unfolding relay_send
  Alike-relay_send s ct =
      same_window (ground arith) (ground arith) (ground arith) (ground arith) (ground arith)

  pub Alike-transport_send : (s : PeerSession) (ct : Bytes) → Alike s (transport_send o env s ct).0
  unfolding transport_send
  Alike-transport_send s ct =
      same_window (ground arith) (ground arith) (ground arith) (ground arith) (ground arith)

  Alike-renew : (seq : ℕ) (s : PeerSession) → Alike s (renew env seq s)
  unfolding renew
  Alike-renew seq s = elim (Option-cases (get s.send_unacked seq)) [
    | inl e ↦ rw (e, renew) (Alike-refl s)
    | inr ((t, retries, p), e) ↦
        rw (e, renew)
          (record {
            keys = refl;
            send_seq = refl;
            recv_seq = refl;
            recv_buf = refl;
            window = λ k. ground (
              arith,
              e,
              get-insert_sorted s.send_unacked seq (env.now, (retries + 1) % 2 ^ 32, p) k,
            );
            entries = λ log h.
                All-insert_sorted (λ k v. sent log k ≡ some v.2) s.send_unacked seq
                  (env.now, (retries + 1) % 2 ^ 32, p)
                  (All-get (λ k v. sent log k ≡ some v.2) s.send_unacked seq (t, retries, p) h e) h;
          })
  ]

module _ (prim : Primitives) (o : Outbox) (env : Env) where
  Alike-resend : (due : List (ℕ × Unacked)) (s : PeerSession) → Alike s (resend prim o env due s).0
  unfolding resend
  Alike-resend [] s = Alike-refl s
  Alike-resend ((seq, (t, retries, p)) ∷ rest) s = elim (Bool-cases (established s)) [
    | inl open_s ↦
        let s1 = renew env seq s in
        let s2 = (transport_send o env s1 (data_ct prim s seq p)).0 in
        rw (open_s, resend)
          (Alike-trans (Alike-renew o env seq s) (
            Alike-trans (Alike-transport_send o env s1 (data_ct prim s seq p))
              (Alike-resend rest s2)))
    | inr shut ↦ rw (shut, resend) (Alike-resend rest s)
  ]

  pub Alike-retransmit : (s : PeerSession) → Alike s (retransmit prim o env s).0
  unfolding retransmit
  Alike-retransmit s = Alike-resend (retain (is_due env) s.send_unacked) s

  pub Alike-send_ack : (ack : ℕ) (s : PeerSession) → Alike s (send_ack prim o env ack s).0
  unfolding send_ack
  Alike-send_ack ack s = elim (Bool-cases (established s)) [
    | inl open_s ↦ rw (open_s, send_ack) (Alike-transport_send o env s _)
    | inr shut ↦ rw (shut, send_ack) (Alike-refl s)
  ]

  pub Alike-maybe_rekey : (s : PeerSession) → Alike s (maybe_rekey prim o env s).0
  unfolding maybe_rekey
  Alike-maybe_rekey s =
      same_window (ground arith) (ground arith) (ground arith) (ground arith) (ground arith)

  pub Alike-handle_rekey :
      (epoch : ℕ) (payload : Bytes) (s : PeerSession)
      → Alike s (handle_rekey prim o env epoch payload s)
  unfolding handle_rekey
  Alike-handle_rekey epoch payload s =
      same_window (ground arith) (ground arith) (ground arith) (ground arith) (ground arith)
