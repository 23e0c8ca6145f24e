-- ===== src/Examples/OfWire.antt =====
-- The theorems about linkmesh-shared/src/wire.rs at concrete inputs.
use link_mesh.Base.{
  ℕ, ◌≤◌, ◌≡◌, refl, none, some, [], ◌∷◌, ◌++◌, Bytes, Text, true, arith, length, replicate, ok,
  ◌>>=◌,
}
use link_mesh.Shared.Cert.{DeviceCert, Crl, admin}
use link_mesh.Shared.Cert.Statements.{ServerInfo, sign_crl}
use link_mesh.Shared.Bodies.{
  RegisterBody, QueryBody, NotifyBody, JoinBody, AuthBody, AuthRespBody, ServerInfoBody, err_body,
}
use link_mesh.Shared.Wire.{ip_len, name_len, err_len, is_utf8}
use link_mesh.Shared.Wire.Texts.{IsWireText, IsKeyText}
use link_mesh.Shared.Wire.Certs.Carried.{IsWireCert, IsWireInfo, IsWireCrl}
use link_mesh.Shared.Wire.Requests.{
  encode_register, decode_register, encode_query, decode_query, encode_notify, decode_notify,
}
use link_mesh.Shared.Wire.Requests.RoundTrip.{IsWireRegister, IsWireQuery, requests_round_trip}
use link_mesh.Shared.Wire.Handshake.{
  encode_join, decode_join, encode_auth, decode_auth, encode_auth_resp, decode_auth_resp,
  encode_server_info_body, decode_server_info_body,
}
use link_mesh.Shared.Wire.Handshake.RoundTrip.{
  IsWireJoin, IsWireAuth, IsWireAuthResp, handshake_round_trip,
}
use link_mesh.Shared.Wire.Handshake.Strict.{decoded_bodies}
use link_mesh.Shared.Wire.Responses.{encode_response, decode_response, decode_failed}
use link_mesh.Shared.Wire.Responses.RoundTrip.{failed, response_round_trip}
use link_mesh.Server.Mesh.{MeshConfig, revoke}
use link_mesh.Server.Mesh.Published.{revoked_list_is_sent}
use link_mesh.Examples.Data.{toy_sigs, key_a, key_b, mesh}

-- "n"
abbrev n_text : Text
n_text = 110 ∷ []

IsWireText-n_text : (n : ℕ) → 1 ≤ n → IsWireText n n_text
unfolding is_utf8
IsWireText-n_text n h = record { no_nul = refl; short = omega arith; utf8 = refl }

IsKeyText-replicate : (n b : ℕ) → length (replicate n b) ≡ n → IsKeyText toy_sigs n (replicate n b)
IsKeyText-replicate n b h = record { raw = replicate n b; size = h; text = refl }

abbrev cert : DeviceCert
cert = record {
  mesh_id = n_text;
  version = 1;
  device_id = key_a;
  ik_x = key_a;
  ik_s_pub = key_b;
  allowed_ip = n_text;
  valid_from = 10;
  not_after = 20;
  signature = some (replicate 64 7);
}

IsWireCert-example : IsWireCert toy_sigs cert
IsWireCert-example = record {
  mesh_id = IsWireText-n_text name_len (omega arith);
  version = omega arith;
  device_id = IsKeyText-replicate 32 1 refl;
  ik_x = IsKeyText-replicate 32 1 refl;
  ik_s_pub = IsKeyText-replicate 32 2 refl;
  allowed_ip = IsWireText-n_text ip_len (omega arith);
  valid_from = omega arith;
  not_after = omega arith;
  signature = IsKeyText-replicate 64 7 refl;
}

abbrev info : ServerInfo
info = record {
  mesh_id = n_text;
  server_name = n_text;
  mesh_root_pub = key_a;
  server_ik_x = key_a;
  server_ik_s_pub = key_b;
  protocol_ver = 2;
  crl_version = 1;
  auth_required = true;
  signature = none;
}

IsWireInfo-example : IsWireInfo toy_sigs info
IsWireInfo-example = record {
  mesh_id = IsWireText-n_text name_len (omega arith);
  server_name = IsWireText-n_text name_len (omega arith);
  mesh_root_pub = IsKeyText-replicate 32 1 refl;
  server_ik_x = IsKeyText-replicate 32 1 refl;
  server_ik_s_pub = IsKeyText-replicate 32 2 refl;
  protocol_ver = omega arith;
  crl_version = omega arith;
  signature = tt;
}

abbrev list : Crl
list = record { mesh_id = n_text; version = 0; entries = []; signature = none }

IsWireCrl-example : IsWireCrl toy_sigs list
IsWireCrl-example = record {
  mesh_id = IsWireText-n_text name_len (omega arith);
  version = omega arith;
  few = omega arith;
  entries = tt;
  signature = tt;
}

abbrev join_body : JoinBody
join_body = record {
  code = n_text;
  device_id = key_a;
  ik_x = key_a;
  ik_s_pub = key_b;
  requested_ip = some n_text;
  token = none;
  alias = some n_text;
}

IsWireJoin-example : IsWireJoin toy_sigs join_body
IsWireJoin-example = record {
  code = IsWireText-n_text 64 (omega arith);
  device_id = IsKeyText-replicate 32 1 refl;
  ik_x = IsKeyText-replicate 32 1 refl;
  ik_s_pub = IsKeyText-replicate 32 2 refl;
  requested_ip = IsWireText-n_text 48 (omega arith);
  token = tt;
  alias = IsWireText-n_text 64 (omega arith);
}

abbrev auth_body : AuthBody
auth_body = record {
  device_id = key_a;
  cert = cert;
  ek_c = key_b;
  timestamp = 15;
  nonce = replicate 12 9;
  token = some n_text;
}

IsWireAuth-example : IsWireAuth toy_sigs auth_body
IsWireAuth-example = record {
  device_id = IsKeyText-replicate 32 1 refl;
  cert = IsWireCert-example;
  ek_c = IsKeyText-replicate 32 2 refl;
  timestamp = omega arith;
  nonce = IsKeyText-replicate 12 9 refl;
  token = IsWireText-n_text 64 (omega arith);
}

abbrev auth_resp : AuthRespBody
auth_resp = record {
  ek_s = key_b;
  session_id = replicate 16 3;
  crl = list;
  server_info = info;
  allocated_ip = n_text;
}

IsWireAuthResp-example : IsWireAuthResp toy_sigs auth_resp
IsWireAuthResp-example = record {
  ek_s = IsKeyText-replicate 32 2 refl;
  session_id = IsKeyText-replicate 16 3 refl;
  crl = IsWireCrl-example;
  server_info = IsWireInfo-example;
  allocated_ip = IsWireText-n_text 48 (omega arith);
}

abbrev info_body : ServerInfoBody
info_body = record { server_info = info }

handshake_example :
    ((encode_join toy_sigs join_body >>= decode_join toy_sigs) ≡ ok join_body)
    × ((encode_auth toy_sigs auth_body >>= decode_auth toy_sigs) ≡ ok auth_body)
    × ((encode_auth_resp toy_sigs auth_resp >>= decode_auth_resp toy_sigs) ≡ ok auth_resp)
    × ((encode_server_info_body toy_sigs info_body >>= decode_server_info_body toy_sigs)
        ≡ ok info_body)
handshake_example =
    handshake_round_trip toy_sigs join_body auth_body auth_resp info_body IsWireJoin-example
      IsWireAuth-example IsWireAuthResp-example IsWireInfo-example

abbrev register_body : RegisterBody
register_body = record { ip = n_text; relay_rk = some key_a; token = none; alias = some n_text }

abbrev query_body : QueryBody
query_body = record { ip = n_text; name = some n_text }

abbrev notify_body : NotifyBody
notify_body = record {
  peer = record {
    public_key = key_a;
    endpoint = n_text;
    relay_rk = some key_b;
    alias = none;
    ip = some n_text;
  };
}

requests_example :
    ((encode_register toy_sigs register_body >>= decode_register toy_sigs) ≡ ok register_body)
    × ((encode_query query_body >>= decode_query) ≡ ok query_body)
    × ((encode_notify toy_sigs notify_body >>= decode_notify toy_sigs) ≡ ok notify_body)
requests_example =
    requests_round_trip toy_sigs register_body query_body notify_body
      (record {
        ip = IsWireText-n_text 48 (omega arith);
        relay_rk = IsKeyText-replicate 32 1 refl;
        token = tt;
        alias = IsWireText-n_text 64 (omega arith);
      })
      (record {
        ip = IsWireText-n_text 48 (omega arith);
        name = IsWireText-n_text 64 (omega arith);
      })
      (record {
        public_key = IsKeyText-replicate 32 1 refl;
        endpoint = IsWireText-n_text 64 (omega arith);
        relay_rk = IsKeyText-replicate 32 2 refl;
        alias = tt;
        ip = IsWireText-n_text 48 (omega arith);
      })

response_example :
    (encode_response toy_sigs (err_body n_text) >>= decode_response toy_sigs) ≡ ok (err_body n_text)
response_example =
    response_round_trip toy_sigs (err_body n_text)
      (failed n_text (IsWireText-n_text err_len (omega arith)))

-- An error of one letter, as it comes.
abbrev error_bytes : Bytes
error_bytes = 2 ∷ 110 ∷ replicate 255 0

error_bytes_lem : decode_response toy_sigs error_bytes ≡ ok (err_body n_text)
unfolding decode_response decode_failed
error_bytes_lem = refl

-- What the server reads, in the order of the fields.
abbrev join_bytes : Bytes
join_bytes =
    (110 ∷ replicate 63 0)
    ++ (key_a
        ++ (key_a
            ++ (key_b
                ++ (1 ∷ 110 ∷ replicate 47 0
                    ++ (0 ∷ replicate 64 0 ++ (1 ∷ 110 ∷ replicate 63 0))))))

abbrev cert_bytes : Bytes
cert_bytes =
    (110 ∷ replicate 63 0)
    ++ (1 ∷ 0 ∷ 0 ∷ 0 ∷ key_a
        ++ (key_a
            ++ (key_b
                ++ (110 ∷ replicate 47 0
                    ++ (10 ∷ replicate 7 0 ++ (20 ∷ replicate 7 0 ++ (1 ∷ replicate 64 7)))))))

abbrev auth_bytes : Bytes
auth_bytes =
    key_a
    ++ (cert_bytes
        ++ (key_b ++ (15 ∷ replicate 7 0 ++ (replicate 12 9 ++ (1 ∷ 110 ∷ replicate 63 0)))))

abbrev register_bytes : Bytes
register_bytes =
    (110 ∷ replicate 47 0) ++ (1 ∷ key_a ++ (0 ∷ replicate 64 0 ++ (1 ∷ 110 ∷ replicate 63 0)))

abbrev query_bytes : Bytes
query_bytes = (110 ∷ replicate 47 0) ++ (1 ∷ 110 ∷ replicate 63 0)

join_bytes_lem : decode_join toy_sigs join_bytes ≡ ok join_body
unfolding decode_join
join_bytes_lem = refl

auth_bytes_lem : decode_auth toy_sigs auth_bytes ≡ ok auth_body
unfolding decode_auth
auth_bytes_lem = refl

register_bytes_lem : decode_register toy_sigs register_bytes ≡ ok register_body
unfolding decode_register
register_bytes_lem = refl

query_bytes_lem : decode_query query_bytes ≡ ok query_body
unfolding decode_query
query_bytes_lem = refl

decoded_bodies_example :
    IsWireJoin toy_sigs join_body
    × IsWireAuth toy_sigs auth_body
    × IsWireRegister toy_sigs register_body
    × IsWireQuery query_body
decoded_bodies_example =
    decoded_bodies toy_sigs join_bytes auth_bytes register_bytes query_bytes join_body auth_body
      register_body query_body (omega arith) (omega arith) (omega arith) (omega arith)
      join_bytes_lem auth_bytes_lem register_bytes_lem query_bytes_lem

abbrev with_list : MeshConfig
with_list = record mesh { crl = list }

abbrev list_of_one : MeshConfig
list_of_one = record with_list {
  crl = sign_crl toy_sigs key_a (record list {
    version = 1;
    entries = record { device_id = key_b; reason = admin; revoked_at = 7; replacement = none } ∷ [];
  });
}

revoked : revoke toy_sigs key_b admin 7 with_list ≡ ok list_of_one
unfolding revoke
revoked = refl

revoked_list_example :
    (encode_auth_resp toy_sigs (record auth_resp { crl = list_of_one.crl })
      >>= decode_auth_resp toy_sigs)
    ≡ ok (record auth_resp { crl = list_of_one.crl })
revoked_list_example =
    revoked_list_is_sent toy_sigs key_b admin 7 with_list list_of_one auth_resp
      IsWireAuthResp-example IsWireCrl-example (IsKeyText-replicate 32 2 refl) (omega arith) revoked
