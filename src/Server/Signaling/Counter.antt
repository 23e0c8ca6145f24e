-- ===== src/Server/Signaling/Counter.antt =====
-- Replays in `handle_session_signaling` of linkmesh-server/src/signaling.rs.
use link_mesh.Base.{
  ◌≤◌, subst, if◌then◌else◌, ℕ, ◌+◌, ◌%◌, ◌^◌, ◌<◌, ◌≡◌, refl, ap, sym, ◌∙◌, Option, none, some, [],
  ◌∷◌, Bytes, arith, length, ltb, take, drop, Bool-cases, Option-cases, inl, inr, ◌⊎◌, ◌==◌,
  bytes_eq, eq-of-eq, eq_refl, Result, ok, err, take-append_of,
}
use Prim.Native.Nat.{bit_and}
use link_mesh.Base.Maps.{get, insert, get-insert}
use link_mesh.Base.Endian.{be_bytes, from_be, length-be_bytes, from_be-be_bytes}
use link_mesh.Shared.Crypto.{Primitives, RawKey, decrypt_with_nonce, session_nonce, nonce_len}
use link_mesh.Shared.Protocol.{header_len}
use link_mesh.Server.Sessions.{Sessions, SessionEntry}
use link_mesh.Server.Signaling.{open_session}

-- What is decrypted under a nonce has this nonce in front.
decrypt_with_nonce-front :
    (prim : Primitives) (key nonce packet text : Bytes)
    → decrypt_with_nonce prim key nonce packet ≡ ok text
    → take nonce_len packet ≡ nonce
unfolding decrypt_with_nonce
decrypt_with_nonce-front prim key nonce packet text h =
    elim (Bool-cases (ltb (length packet) nonce_len)) [
      | inl short ↦ (let h' = rw (short, decrypt_with_nonce) at h in cc)
      | inr long ↦ elim (Bool-cases (take nonce_len packet == nonce)) [
        | inl same ↦ eq-of-eq (take nonce_len packet) nonce same
        | inr other ↦ (let h' = rw (long, other, decrypt_with_nonce) at h in cc)
      ]
    ]

session_nonce-front : (c : ℕ) → take 8 (session_nonce c 0) ≡ be_bytes 8 c
unfolding session_nonce
session_nonce-front c =
    take-append_of 8 (be_bytes 8 c) (bit_and 0 1 ∷ 0 ∷ 0 ∷ 0 ∷ []) (length-be_bytes 8 c)

session_nonce-counter :
    (c d : ℕ) → c < 2 ^ 64 → d < 2 ^ 64 → session_nonce c 0 ≡ session_nonce d 0 → c ≡ d
session_nonce-counter c d hc hd e =
    let bytes : be_bytes 8 c ≡ be_bytes 8 d =
      sym (session_nonce-front c) ∙ (ap (take 8) e ∙ session_nonce-front d) in
    sym (from_be-be_bytes 8 c hc) ∙ (ap from_be bytes ∙ from_be-be_bytes 8 d hd)

some_injective : {A : Type 0} {a b : A} → ◌≡◌ {A = Option A} (some a) (some b) → a ≡ b
some_injective h = cc

-- What an accepted packet was: its session is there, its text decrypts under the next counter, and
-- the session moves on to this counter.
record Accepted (prim : Primitives) (now : ℕ) (sender : RawKey) (packet : Bytes)
    (sessions : Sessions) (r : Bytes × Sessions) : Type 0 where
  s : SessionEntry
  present : get sessions sender ≡ some s
  decrypted :
      decrypt_with_nonce prim s.sk
        (session_nonce ((s.counter_rx + 1) % 2 ^ 64) 0)
        (drop header_len packet)
      ≡ ok r.0
  moved :
      (k : RawKey)
      → get r.1 k ≡ (
          if sender == k
          then some (record s { counter_rx = (s.counter_rx + 1) % 2 ^ 64; last_seen = now })
          else get sessions k)

Result-cases : {E A : Type 0} (r : Result E A) → ((a : A) × (r ≡ ok a)) ⊎ ((e : E) × (r ≡ err e))
Result-cases (err e) = inr (e, refl)
Result-cases (ok a) = inl (a, refl)

open_session_inv :
    (prim : Primitives) (now : ℕ) (sender : RawKey) (packet : Bytes) (sessions : Sessions)
    (r : Bytes × Sessions)
    → open_session prim now sender packet sessions ≡ some r
    → Accepted prim now sender packet sessions r
unfolding open_session
open_session_inv prim now sender packet sessions r h = elim (Option-cases (get sessions sender)) [
  | inl absent ↦ (let h' = rw (absent, open_session) at h in cc)
  | inr (s, here) ↦
      let nonce = session_nonce ((s.counter_rx + 1) % 2 ^ 64) 0 in
      elim (Result-cases (decrypt_with_nonce prim s.sk nonce (drop header_len packet))) [
        | inr (e, bad) ↦ (let h' = rw (here, bad, open_session) at h in cc)
        | inl (text, good) ↦
            let s' = record s { counter_rx = (s.counter_rx + 1) % 2 ^ 64; last_seen = now } in
            let h' : some (text, insert sessions sender s') ≡ some r =
              rw (here, good, open_session) at h in
            let same : (text, insert sessions sender s') ≡ r = some_injective h' in
            record {
              s = s;
              present = here;
              decrypted = good ∙ ap (λ x. ok x.0) same;
              moved = λ k. ap (λ x. get x.1 k) (sym same) ∙ get-insert sessions sender s' k;
            }
      ]
]

-- `n` packets, of whatever sessions, are opened one after the other.
pub data Opened (prim : Primitives) : ℕ → Sessions → Sessions → Type 0 where
  no_packet : {sessions : Sessions} → Opened prim 0 sessions sessions
  then_packet :
      {n : ℕ} {sessions sessions' : Sessions}
      → Opened prim n sessions sessions'
      → (now : ℕ) (sender : RawKey) (packet : Bytes) (r : Bytes × Sessions)
      → open_session prim now sender packet sessions' ≡ some r
      → Opened prim (n + 1) sessions r.1

-- A session whose counter is from `low` to `high`.
record Between (low high : ℕ) (sender : RawKey) (sessions : Sessions) : Type 0 where
  s : SessionEntry
  present : get sessions sender ≡ some s
  reached : low ≤ s.counter_rx
  bounded : s.counter_rx ≤ high

-- One more packet: the counter of the session grows by one, or stays.
Between-open_session :
    (prim : Primitives) (low high now : ℕ) (k sender : RawKey) (packet : Bytes)
    (sessions : Sessions) (r : Bytes × Sessions)
    → high + 1 < 2 ^ 64
    → open_session prim now k packet sessions ≡ some r
    → Between low high sender sessions
    → Between low (high + 1) sender r.1
Between-open_session prim low high now k sender packet sessions r fits h b =
    let a = open_session_inv prim now k packet sessions r h in
    elim (Bool-cases (k == sender)) [
      | inl same ↦
          let is_k : k ≡ sender = eq-of-eq k sender same in
          let own : get sessions k ≡ some b.s =
            subst (λ x. get sessions x ≡ some b.s) (sym is_k) b.present in
          let is_s : a.s ≡ b.s = some_injective (sym a.present ∙ own) in
          let counter = ap (λ x. x.counter_rx) is_s in
          record {
            s = record a.s { counter_rx = (a.s.counter_rx + 1) % 2 ^ 64; last_seen = now };
            present = a.moved sender ∙ rw same;
            reached = omega (arith, counter, b.reached, b.bounded, fits);
            bounded = omega (arith, counter, b.reached, b.bounded, fits);
          }
      | inr other ↦ record {
        s = b.s;
        present = a.moved sender ∙ (rw other b.present);
        reached = b.reached;
        bounded = omega (arith, b.bounded);
      }
    ]

Between-Opened :
    (prim : Primitives) (low : ℕ) (sender : RawKey) {n : ℕ} {sessions sessions' : Sessions}
    → low + n < 2 ^ 64
    → Opened prim n sessions sessions'
    → Between low low sender sessions
    → Between low (low + n) sender sessions'
Between-Opened prim low sender fits no_packet b = record {
  s = b.s;
  present = b.present;
  reached = b.reached;
  bounded = omega (arith, b.bounded);
}
Between-Opened prim low sender fits (then_packet {n} o now k packet r h) b =
    let b' =
      Between-open_session prim low (low + n) now k sender packet _ r (omega (arith, fits)) h
        (Between-Opened prim low sender (omega (arith, fits)) o b) in
    record {
      s = b'.s;
      present = b'.present;
      reached = b'.reached;
      bounded = omega (arith, b'.bounded);
    }

-- A packet that a session accepted is refused when it comes again, at any time and after any `n`
-- accepted packets of this and other sessions, when nothing else happened to the sessions in
-- between and the counter of the session plus `n` is below 2^64 - 2.
pub replayed_packet_refused :
    (prim : Primitives) (now later n : ℕ) (sender : RawKey) (packet : Bytes)
    (sessions sessions' : Sessions) (s : SessionEntry) (r : Bytes × Sessions)
    → get sessions sender ≡ some s
    → s.counter_rx + n + 2 < 2 ^ 64
    → open_session prim now sender packet sessions ≡ some r
    → Opened prim n r.1 sessions'
    → open_session prim later sender packet sessions' ≡ none
replayed_packet_refused prim now later n sender packet sessions sessions' s r here small h more =
    elim (Option-cases (open_session prim later sender packet sessions')) [
      | inl refused ↦ refused
      | inr (again, h') ↦
          let a = open_session_inv prim now sender packet sessions r h in
          let b = open_session_inv prim later sender packet sessions' again h' in
          let same : a.s ≡ s = some_injective (sym a.present ∙ here) in
          let low = s.counter_rx + 1 in
          let counter = ap (λ x. x.counter_rx) same in
          let between : Between low (low + n) sender sessions' =
            Between-Opened prim low sender (omega (arith, small)) more (record {
              s = record a.s { counter_rx = (a.s.counter_rx + 1) % 2 ^ 64; last_seen = now };
              present = a.moved sender ∙ rw (eq_refl sender);
              reached = omega (arith, counter, small);
              bounded = omega (arith, counter, small);
            }) in
          let is_b : between.s ≡ b.s = some_injective (sym between.present ∙ b.present) in
          let counter' = ap (λ x. x.counter_rx) is_b in
          let first = decrypt_with_nonce-front prim _ _ _ _ a.decrypted in
          let second = decrypt_with_nonce-front prim _ _ _ _ b.decrypted in
          let counters =
            session_nonce-counter _ _ (omega arith) (omega arith) (sym first ∙ second) in
          absurd
            (omega (arith, counters, counter, counter', between.reached, between.bounded, small))
    ]
