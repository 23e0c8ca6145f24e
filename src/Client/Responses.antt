-- ===== src/Client/Responses.antt =====
-- `decrypt_session_response` of linkmesh-client/src/connection.rs: the answers of the server in a
-- session.
pub mod Window
use link_mesh.Base.{
  ℕ, zero, suc, ◌-◌, Option, none, some, Bytes, Result, ok, err, ltb, if◌then◌else◌,
}
use link_mesh.Shared.Crypto.{Primitives, RawKey, decrypt_with_nonce, session_nonce}

abbrev pub session_resp_window : ℕ
session_resp_window = 32

abbrev pub or_else {ℓ κ} : {E : Type ℓ} {A : Type κ} → Result E A → Option A → Option A
or_else (ok a) other = some a
or_else (err e) other = other

-- The counters from `seq` on down, one more than `below` of them.
unfoldable pub try_counters : Primitives → RawKey → ℕ → ℕ → Bytes → Option Bytes
unfolding decrypt_with_nonce session_nonce
try_counters prim sk zero seq ct =
    or_else (decrypt_with_nonce prim sk (session_nonce seq 1) ct) none
try_counters prim sk (suc below) seq ct =
    or_else (decrypt_with_nonce prim sk (session_nonce seq 1) ct)
      (try_counters prim sk below (seq - 1) ct)

-- `(lo..=last_send_seq).rev()`, with `lo` at most the window below the last number.
unfoldable pub decrypt_session_response : Primitives → RawKey → ℕ → Bytes → Option Bytes
unfolding try_counters
decrypt_session_response prim sk last_send_seq ct =
    try_counters prim sk
      (if ltb last_send_seq session_resp_window then last_send_seq else session_resp_window)
      last_send_seq ct
