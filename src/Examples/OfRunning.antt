-- ===== src/Examples/OfRunning.antt =====
-- The theorems about the running server, linkmesh-server/src/signaling.rs, at concrete inputs.
use link_mesh.Base.{
  ℕ, ◌≢◌, ap, drop, ok, Bool, ◌||◌, ◌==◌, true, ◌≡◌, refl, none, some, [], ◌∷◌, Bytes, arith,
  bytes_eq, false, if◌then◌else◌, replicate,
}
use link_mesh.Shared.Crypto.{session_nonce}
use link_mesh.Shared.Protocol.{frame_signaling, msg_response}
use link_mesh.Shared.Bodies.{err_body}
use link_mesh.Shared.Wire.Responses.{encode_response}
use link_mesh.Client.Responses.{decrypt_session_response}
use link_mesh.Server.Dispatch.Read.{session_answer_is_read, refusal_is_not_read}
use link_mesh.Base.Maps.{get, holds_at, HasOnce}
use link_mesh.Server.Routes.{upsert, empty}
use link_mesh.Server.Sessions.{SessionEntry}
use link_mesh.Server.Sessions.Active.{CoversSessions}
use link_mesh.Server.Signaling.{serve_heartbeat, heartbeat, unsupported, done, bad_alias}
use link_mesh.Server.Auth.{AuthState}
use link_mesh.Server.Sweep.{sweep, session_expired, at_least}
use link_mesh.Server.Sweep.Left.{get-sweep, sweep_takes_live_route}
use link_mesh.Server.Desk.{Desk, Hub, Arrival, handle_keyquery, datagram, of_session, reply_body}
use link_mesh.Server.Running.{opening, start, ServerReach, opens, then_step, receives}
use link_mesh.Server.Running.Answers.{fresh_answer}
use link_mesh.Server.Running.Safe.{IsSafe}
use link_mesh.Server.Running.Reached.{reachable-IsSafe, keyquery_answer_is_fresh}
use link_mesh.Server.Dispatch.{handle, session_answer}
use link_mesh.Examples.Data.{
  toy, toy_sigs, toy_library, key_a, key_b, entry, mesh, server_session, server_addr,
}
use link_mesh.Shared.Cert.Statements.{sign_crl, verify_crl}
use link_mesh.Server.Mesh.{MeshConfig}
use link_mesh.Server.Mesh.Members.{IsConsistent}
use link_mesh.Server.Mesh.Integrity.{verify_integrity}
use link_mesh.Examples.OfJoin.{server}

abbrev desk : Desk
desk = record { server = server; prim = toy; rooms = []; aliases = []; say = λ why. 63 ∷ [] }

abbrev arrival : Arrival
arrival = record {
  now = 70;
  src = server_addr;
  octets = 192 ∷ 0 ∷ 2 ∷ 1 ∷ [];
  secret = key_a;
  session_id = replicate 16 7;
  nonce = replicate 12 8;
  notify_nonce = replicate 12 9;
  queue_accepts = false;
}

-- KEYQUERY, with a blank key.
abbrev ask : Bytes
ask = b'L' ∷ b'M' ∷ 2 ∷ 8 ∷ replicate 32 0

-- The mesh with its list signed.
abbrev signed_mesh : MeshConfig
signed_mesh = record mesh { crl = sign_crl toy_sigs key_a mesh.crl }

signed-IsConsistent : IsConsistent signed_mesh
unfolding sign_crl
signed-IsConsistent = record { distinct = tt; none_revoked = refl; crl_fits = omega arith }

started : start toy_sigs 60 signed_mesh ≡ ok (opening signed_mesh)
unfolding start sign_crl verify_integrity verify_crl
started = refl

abbrev asked : Hub
asked = (handle desk arrival [] ask (opening signed_mesh)).0

asked_reach : ServerReach desk asked
asked_reach =
    then_step (opens 60 signed_mesh signed-IsConsistent started)
      (receives arrival [] ask (opening signed_mesh))

reachable-IsSafe_example : IsSafe desk asked
reachable-IsSafe_example = reachable-IsSafe desk asked asked_reach

keyquery_example : (handle_keyquery desk arrival asked).1 ≡ fresh_answer desk arrival asked.mesh
keyquery_example = keyquery_answer_is_fresh desk arrival asked asked_reach

-- The device of `server_session` has a second session, and its route.
abbrev second_session : SessionEntry
second_session = record server_session { session_pub = replicate 32 3; last_seen = 150 }

abbrev before_sweep : AuthState
before_sweep = record {
  rate_limits = [];
  replay = [];
  session_state = record {
    sessions = (key_b, server_session) ∷ (replicate 32 3, second_session) ∷ [];
    active_ik_x = key_a ∷ [];
    routes = upsert (record entry { last_seen = 150 }) empty;
  };
}

once_each : HasOnce before_sweep.session_state.sessions
unfolding get
once_each = (refl, (refl, tt))

or_once : (b : Bool) → (b || (b || false)) ≡ true → (b || false) ≡ true
or_once b h = ground arith

covered : CoversSessions before_sweep.session_state.sessions before_sweep.session_state.active_ik_x
covered ik has = or_once (key_a == ik) has

old_there : get before_sweep.session_state.sessions key_b ≡ some server_session
unfolding get
old_there = refl

new_there : get before_sweep.session_state.sessions (replicate 32 3) ≡ some second_session
unfolding get
new_there = refl

get-sweep_example :
    (get (sweep 90 160 before_sweep).session_state.sessions key_b ≡ (
      if holds_at
        (session_expired 160 (at_least 60 90))
        (get before_sweep.session_state.sessions key_b)
      then none
      else get before_sweep.session_state.sessions key_b))
    × CoversSessions
        (sweep 90 160 before_sweep).session_state.sessions
        (sweep 90 160 before_sweep).session_state.active_ik_x
get-sweep_example = get-sweep 90 160 before_sweep key_b once_each covered

sweep_takes_example :
    (get (sweep 90 160 before_sweep).session_state.sessions (replicate 32 3) ≡ some second_session)
    × (get (sweep 90 160 before_sweep).session_state.routes.by_key second_session.ik_x ≡ none)
    × (serve_heartbeat toy_library 165 server_addr second_session
          (sweep 90 160 before_sweep).session_state.routes
        ≡ (sweep 90 160 before_sweep).session_state.routes)
sweep_takes_example =
    sweep_takes_live_route toy_library 90 160 165 server_addr before_sweep key_b (replicate 32 3)
      server_session second_session once_each covered old_there new_there refl refl refl

-- A success, which is one byte.
encoded_ok : encode_response server.sigs (reply_body desk heartbeat done) ≡ ok (1 ∷ [])
unfolding encode_response reply_body
encoded_ok = refl

read_example :
    (ct : Bytes) × (session_answer desk arrival server_session heartbeat done
      ≡ datagram server_addr (frame_signaling msg_response key_b ct) ∷ [])
    × (decrypt_session_response toy server_session.sk 20 ct ≡ some (1 ∷ []))
read_example =
    session_answer_is_read desk arrival server_session heartbeat done (1 ∷ []) 20 refl encoded_ok
      (omega arith) (omega arith) (omega arith)

abbrev refused_text : Bytes
refused_text = 2 ∷ 63 ∷ replicate 255 0

encoded_refusal :
    encode_response server.sigs (err_body (desk.say (of_session bad_alias))) ≡ ok refused_text
unfolding encode_response
encoded_refusal = refl

-- The random nonce ends in 8, those of counters in 0.
foreign_nonce : (seq : ℕ) → arrival.nonce ≢ session_nonce seq 1
unfolding session_nonce
foreign_nonce seq e = let last : ◌≡◌ {A = Bytes} (8 ∷ []) (0 ∷ []) = ap (drop 11) e in cc

not_read_example :
    (ct : Bytes) × (session_answer desk arrival server_session unsupported bad_alias
      ≡ datagram server_addr (frame_signaling msg_response key_b ct) ∷ [])
    × (decrypt_session_response toy server_session.sk 20 ct ≡ none)
not_read_example =
    refusal_is_not_read desk arrival server_session unsupported bad_alias refused_text 20 refl
      encoded_refusal refl foreign_nonce
