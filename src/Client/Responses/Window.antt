-- ===== src/Client/Responses/Window.antt =====
-- Which answers the client of linkmesh-client/src/connection.rs reads in a session.
use Prim.Native.Nat.{bit_and}
use link_mesh.Base.{
  ℕ, zero, suc, ◌+◌, ◌-◌, ◌^◌, ◌≤◌, ◌<◌, ◌≡◌, ◌≢◌, ◌∙◌, refl, sym, ap, Option, none, some, Bytes,
  arith, inl, inr, Bool-cases, false, length, length-append, take, ◌==◌, bytes_eq, eqb,
  if◌then◌else◌, ◌∷◌, [], eq_refl, eq_false,
}
use link_mesh.Base.Endian.{be_bytes, from_be, length-be_bytes, from_be-be_bytes}
use link_mesh.Shared.Crypto.{
  Primitives, RawKey, decrypt_with_nonce, encrypt_with_nonce, encrypt, session_nonce, nonce_len,
}
use link_mesh.Shared.Crypto.Agreement.{decrypt_with_nonce-encrypt_with_nonce}
use link_mesh.Client.Responses.{
  session_resp_window, or_else, try_counters, decrypt_session_response,
}

length-session_nonce : (seq direction : ℕ) → length (session_nonce seq direction) ≡ nonce_len
unfolding session_nonce
length-session_nonce seq direction =
    length-append (be_bytes 8 seq) (bit_and direction 1 ∷ 0 ∷ 0 ∷ 0 ∷ [])
    ∙ ap (λ n. n + 4) (length-be_bytes 8 seq)

session_nonce-injective :
    (seq seq' : ℕ)
    → seq < 2 ^ 64
    → seq' < 2 ^ 64
    → session_nonce seq 1 ≡ session_nonce seq' 1
    → seq ≡ seq'
unfolding session_nonce
session_nonce-injective seq seq' h h' e =
    let numbers : from_be (take 8 (session_nonce seq 1)) ≡ from_be (take 8 (session_nonce seq' 1)) =
      ap (λ n. from_be (take 8 n)) e in
    sym (from_be-be_bytes 8 seq h) ∙ numbers ∙ from_be-be_bytes 8 seq' h'

-- Under the counter that it was sealed with, a text is read; under another nonce it is not.
try_one :
    (prim : Primitives) (sk : RawKey) (expected nonce pt : Bytes) (other : Option Bytes)
    → length nonce ≡ nonce_len
    → or_else (decrypt_with_nonce prim sk expected (encrypt_with_nonce prim sk nonce pt)) other
      ≡ (if nonce == expected then some pt else other)
try_one prim sk expected nonce pt other len = elim (Bool-cases (nonce == expected)) [
  | inl same ↦ rw (decrypt_with_nonce-encrypt_with_nonce prim sk expected nonce pt len, same) refl
  | inr differ ↦
      rw (decrypt_with_nonce-encrypt_with_nonce prim sk expected nonce pt len, differ) refl
]

-- A nonce of no counter is read by none.
try_counters-refuses :
    (prim : Primitives) (sk : RawKey) (below last : ℕ) (nonce pt : Bytes)
    → length nonce ≡ nonce_len
    → ((seq : ℕ) → nonce ≢ session_nonce seq 1)
    → try_counters prim sk below last (encrypt_with_nonce prim sk nonce pt) ≡ none
unfolding try_counters
try_counters-refuses prim sk zero last nonce pt len foreign =
    try_one prim sk (session_nonce last 1) nonce pt none len
    ∙ rw (eq_false nonce (session_nonce last 1) (foreign last)) refl
try_counters-refuses prim sk (suc below) last nonce pt len foreign =
    try_one prim sk (session_nonce last 1) nonce pt _ len
    ∙ rw (eq_false nonce (session_nonce last 1) (foreign last))
        (try_counters-refuses prim sk below (last - 1) nonce pt len foreign)

not_itself : (n m : ℕ) → eqb n m ≡ false → n ≢ m
not_itself n m h e = ground (arith, h, e)

try_counters-reads :
    (prim : Primitives) (sk : RawKey) (below last seq : ℕ) (pt : Bytes)
    → last < 2 ^ 64
    → seq ≤ last
    → last ≤ seq + below
    → try_counters prim sk below last (encrypt_with_nonce prim sk (session_nonce seq 1) pt)
      ≡ some pt
unfolding try_counters
try_counters-reads prim sk zero last seq pt small le ge =
    let same : seq ≡ last = omega arith in
    try_one prim sk (session_nonce last 1) (session_nonce seq 1) pt none
      (length-session_nonce seq 1)
    ∙ rw (same, eq_refl (session_nonce last 1)) refl
try_counters-reads prim sk (suc below) last seq pt small le ge =
    try_one prim sk (session_nonce last 1) (session_nonce seq 1) pt _ (length-session_nonce seq 1)
    ∙ elim (Bool-cases (eqb seq last)) [
      | inl here ↦
          let same : seq ≡ last = ground (arith, here) in
          rw (same, eq_refl (session_nonce last 1)) refl
      | inr later ↦
          let differ : session_nonce seq 1 ≢ session_nonce last 1 = λ e.
            not_itself seq last later (session_nonce-injective seq last (omega arith) small e) in
          rw (eq_false (session_nonce seq 1) (session_nonce last 1) differ) (
            try_counters-reads prim sk below (last - 1) seq pt (omega arith) (ground (arith, later))
              (ground (arith, later)))
    ]

-- The answer under the counter of any of the last 33 requests is read, whichever of them it
-- belongs to.
pub window_is_read :
    (prim : Primitives) (sk : RawKey) (last seq : ℕ) (pt : Bytes)
    → last < 2 ^ 64
    → seq ≤ last
    → last ≤ seq + session_resp_window
    → decrypt_session_response prim sk last (encrypt_with_nonce prim sk (session_nonce seq 1) pt)
      ≡ some pt
unfolding decrypt_session_response
window_is_read prim sk last seq pt small le ge =
    try_counters-reads prim sk _ last seq pt small le (ground arith)

-- What is sealed under a nonce of no counter is not read, though the key is right.
pub foreign_nonce_is_not_read :
    (prim : Primitives) (sk : RawKey) (last : ℕ) (nonce pt : Bytes)
    → length nonce ≡ nonce_len
    → ((seq : ℕ) → nonce ≢ session_nonce seq 1)
    → decrypt_session_response prim sk last (encrypt prim sk nonce pt) ≡ none
unfolding decrypt_session_response encrypt
foreign_nonce_is_not_read prim sk last nonce pt len foreign =
    try_counters-refuses prim sk _ last nonce pt len foreign
