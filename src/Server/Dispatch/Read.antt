-- ===== src/Server/Dispatch/Read.antt =====
-- Which answers of a session of linkmesh-server/src/signaling.rs the client of
-- linkmesh-client/src/connection.rs reads.
use link_mesh.Base.{
  ℕ, ◌+◌, ◌^◌, ◌≤◌, ◌<◌, ◌≡◌, ◌≢◌, refl, some, none, [], ◌∷◌, Bytes, Bool, true, false, ok, length,
}
use link_mesh.Shared.Crypto.{encrypt, encrypt_with_nonce, session_nonce, nonce_len}
use link_mesh.Shared.Protocol.{frame_signaling, msg_response}
use link_mesh.Shared.Bodies.{err_body}
use link_mesh.Shared.Wire.Responses.{encode_response}
use link_mesh.Client.Responses.{session_resp_window, decrypt_session_response}
use link_mesh.Client.Responses.Window.{window_is_read, foreign_nonce_is_not_read}
use link_mesh.Server.Sessions.{SessionEntry}
use link_mesh.Server.Signaling.{Request, Reply, wrong_ip, bad_alias, done, hit, miss, not_supported}
use link_mesh.Server.Desk.{Desk, Arrival, datagram, of_session, send_sealed, reply_body}
use link_mesh.Server.Dispatch.{session_answer}

-- The refusals of a registration.
abbrev pub is_refusal : Reply → Bool
is_refusal wrong_ip = true
is_refusal bad_alias = true
is_refusal reply = false

session_answer_lem :
    (d : Desk) (a : Arrival) (s : SessionEntry) (request : Request) (reply : Reply) (pt : Bytes)
    → is_refusal reply ≡ false
    → encode_response d.server.sigs (reply_body d request reply) ≡ ok pt
    → session_answer d a s request reply
      ≡ datagram a.src (
          frame_signaling msg_response d.server.server_pub
            (encrypt_with_nonce d.prim s.sk (session_nonce s.counter_rx 1) pt))
        ∷ []
unfolding session_answer
session_answer_lem d a s request done pt h e = rw (session_answer, e) refl
session_answer_lem d a s request (hit r) pt h e = rw (session_answer, e) refl
session_answer_lem d a s request miss pt h e = rw (session_answer, e) refl
session_answer_lem d a s request not_supported pt h e = rw (session_answer, e) refl
session_answer_lem d a s request wrong_ip pt h e = cc
session_answer_lem d a s request bad_alias pt h e = cc

-- The answer to a request of a session that is no refusal of a registration, when its body can be
-- encoded, is one datagram to the source, and a client that has the key of the session and has
-- sent at most 32 requests since (and less than 2^64 in all) reads the body from it.
pub session_answer_is_read :
    (d : Desk) (a : Arrival) (s : SessionEntry) (request : Request) (reply : Reply) (pt : Bytes)
    (last : ℕ)
    → is_refusal reply ≡ false
    → encode_response d.server.sigs (reply_body d request reply) ≡ ok pt
    → last < 2 ^ 64
    → s.counter_rx ≤ last
    → last ≤ s.counter_rx + session_resp_window
    → (ct : Bytes) × (session_answer d a s request reply
        ≡ datagram a.src (frame_signaling msg_response d.server.server_pub ct) ∷ [])
      × (decrypt_session_response d.prim s.sk last ct ≡ some pt)
session_answer_is_read d a s request reply pt last h e small le ge = (
  encrypt_with_nonce d.prim s.sk (session_nonce s.counter_rx 1) pt,
  session_answer_lem d a s request reply pt h e,
  window_is_read d.prim s.sk last s.counter_rx pt small le ge,
)

refusal_lem :
    (d : Desk) (a : Arrival) (s : SessionEntry) (request : Request) (reply : Reply) (pt : Bytes)
    → is_refusal reply ≡ true
    → encode_response d.server.sigs (err_body (d.say (of_session reply))) ≡ ok pt
    → session_answer d a s request reply
      ≡ datagram a.src
          (frame_signaling msg_response d.server.server_pub (encrypt d.prim s.sk a.nonce pt))
        ∷ []
unfolding session_answer send_sealed
refusal_lem d a s request wrong_ip pt h e = rw (session_answer, e) refl
refusal_lem d a s request bad_alias pt h e = rw (session_answer, e) refl
refusal_lem d a s request done pt h e = cc
refusal_lem d a s request (hit r) pt h e = cc
refusal_lem d a s request miss pt h e = cc
refusal_lem d a s request not_supported pt h e = cc

-- A refusal of a registration, when its text can be encoded, is one datagram too, but under a
-- random nonce: unless that nonce is by chance the one of a counter, no client reads it, whatever
-- the number of its last request.
pub refusal_is_not_read :
    (d : Desk) (a : Arrival) (s : SessionEntry) (request : Request) (reply : Reply) (pt : Bytes)
    (last : ℕ)
    → is_refusal reply ≡ true
    → encode_response d.server.sigs (err_body (d.say (of_session reply))) ≡ ok pt
    → length a.nonce ≡ nonce_len
    → ((seq : ℕ) → a.nonce ≢ session_nonce seq 1)
    → (ct : Bytes) × (session_answer d a s request reply
        ≡ datagram a.src (frame_signaling msg_response d.server.server_pub ct) ∷ [])
      × (decrypt_session_response d.prim s.sk last ct ≡ none)
refusal_is_not_read d a s request reply pt last h e len foreign = (
  encrypt d.prim s.sk a.nonce pt,
  refusal_lem d a s request reply pt h e,
  foreign_nonce_is_not_read d.prim s.sk last a.nonce pt len foreign,
)
