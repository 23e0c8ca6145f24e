-- ===== src/Examples/OfAuth.antt =====
-- The theorems about AUTH, of linkmesh-client/src/connection.rs and linkmesh-server/src/signaling.rs,
-- at concrete inputs.
use link_mesh.Base.{◌≢◌, arith, ◌≡◌, refl, none, some, [], ◌∷◌, replicate, ok, bytes_eq, true}
use link_mesh.Base.Maps.{get}
use link_mesh.Shared.Cert.{sign_cert, DeviceCert}
use link_mesh.Server.Sessions.{SessionEntry}
use link_mesh.Shared.Cert.Statements.{sign_server_info}
use link_mesh.Client.Handshake.{Account, auth_body, finish_auth}
use link_mesh.Client.Handshake.Pinned.{
  IsAtLeast, IsVerified, finish_auth-IsVerified, crl_version_never_goes_back,
}
use link_mesh.Client.Handshake.Agreed.{auth_keys_agree}
use link_mesh.Server.Rooms.{default_room}
use link_mesh.Shared.Bodies.{AuthBody, AuthRespBody}
use link_mesh.Server.Auth.{AuthState, AuthReply, admitted, handle_auth, new_session}
use link_mesh.Server.Auth.Replay.{replayed_auth_refused, then_request, no_request}
use link_mesh.Examples.Data.{toy, toy_sigs, toy_library, key_a, key_b, mesh}
use link_mesh.Examples.OfServer.{no_sessions, hash}

abbrev own_cert : DeviceCert
own_cert = sign_cert toy_sigs key_a (record {
  mesh_id = 109 ∷ [];
  version = 1;
  device_id = 100 ∷ [];
  ik_x = key_b;
  ik_s_pub = key_b;
  allowed_ip = 49 ∷ [];
  valid_from = 10;
  not_after = 2000;
  signature = none;
})

abbrev ask_auth : AuthBody
ask_auth = record {
  device_id = 100 ∷ [];
  cert = own_cert;
  ek_c = key_a;
  timestamp = 1000;
  nonce = replicate 12 1;
  token = none;
}

abbrev before_auth : AuthState
before_auth = record { rate_limits = []; replay = []; session_state = no_sessions }

abbrev after_auth : AuthState × AuthReply
after_auth =
    handle_auth toy_sigs toy toy_library hash 0 key_a key_b key_a [] mesh 1000 [] key_b ask_auth
      before_auth

abbrev new_one : SessionEntry
new_one = new_session toy key_a key_b 1000 key_b ask_auth key_a (default_room, replicate 12 1)

is_admitted : after_auth ≡ (after_auth.0, admitted new_one)
unfolding handle_auth sign_cert get
is_admitted = refl

-- The same request, one second later, was refused once.
abbrev asked_again : AuthState
asked_again =
    (handle_auth toy_sigs toy toy_library hash 0 key_a key_b key_a [] mesh 1001 [] key_b ask_auth
      after_auth.0).0

replayed_auth_example :
    (handle_auth toy_sigs toy toy_library hash 0 key_a key_b key_a [] mesh 1002 [] key_b ask_auth
      asked_again).1
    ≢ admitted new_one
replayed_auth_example =
    replayed_auth_refused toy_sigs toy toy_library hash 0 key_a key_a [] mesh mesh 1000 1002 1 [] []
      key_b key_b key_b ask_auth before_auth after_auth.0 asked_again new_one new_one is_admitted
      (omega arith) (then_request no_request mesh 1001 [] key_b key_b ask_auth)

-- The client that asked.
abbrev asking : Account
asking = record {
  token = none;
  device_cert = some own_cert;
  mesh_root_pub = some key_a;
  crl_version = some 3;
  session_sk = none;
  session_pub = none;
  session_seq = 0;
  local_ip = [];
}

abbrev auth_answered : AuthRespBody
auth_answered = record {
  ek_s = key_b;
  session_id = replicate 16 7;
  crl = mesh.crl;
  server_info = sign_server_info toy_sigs key_a (record {
    mesh_id = 109 ∷ [];
    server_name = [];
    mesh_root_pub = key_a;
    server_ik_x = key_a;
    server_ik_s_pub = key_a;
    protocol_ver = 2;
    crl_version = 4;
    auth_required = true;
    signature = none;
  });
  allocated_ip = 49 ∷ [];
}

is_asked :
    handle_auth toy_sigs toy toy_library hash 0 key_a key_b key_a [] mesh 1000 [] key_b
      (auth_body toy_sigs own_cert none key_a 1000 (replicate 12 1))
      before_auth
    ≡ (after_auth.0, admitted new_one)
unfolding handle_auth sign_cert get auth_body
is_asked = refl

auth_keys_example :
    (finish_auth toy_sigs toy
      (λ t. true)
      key_b
      key_a
      key_a
      (replicate 12 1)
      auth_answered
      asking).0.session_sk
    ≡ some new_one.sk
auth_keys_example =
    auth_keys_agree toy_sigs toy toy_library hash 0 key_a key_b key_a [] mesh 1000 [] key_b key_a
      (replicate 12 1) own_cert none 1000 before_auth after_auth.0 new_one (λ t. true) auth_answered
      asking refl refl refl is_asked refl

finishes :
    (finish_auth toy_sigs toy (λ t. true) key_b key_a key_a (replicate 12 1) auth_answered asking).1
    ≡ ok tt
unfolding finish_auth sign_server_info sign_cert get
finishes = refl

verified_example :
    IsVerified toy_sigs auth_answered key_a asking
      (finish_auth toy_sigs toy
        (λ t. true)
        key_b
        key_a
        key_a
        (replicate 12 1)
        auth_answered
        asking).0
verified_example =
    finish_auth-IsVerified toy_sigs toy (λ t. true) key_b key_a key_a (replicate 12 1) auth_answered
      asking key_a refl finishes

never_back_example :
    IsAtLeast asking.crl_version
      (finish_auth toy_sigs toy
        (λ t. true)
        key_b
        key_a
        key_a
        (replicate 12 1)
        auth_answered
        asking).0.crl_version
never_back_example =
    crl_version_never_goes_back toy_sigs toy (λ t. true) key_b key_a key_a (replicate 12 1)
      auth_answered asking
