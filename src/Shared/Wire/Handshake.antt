-- ===== src/Shared/Wire/Handshake.antt =====
-- The messages of the handshake in linkmesh-shared/src/wire.rs: JOIN, AUTH and its answer, and the
-- information of the server.
pub mod RoundTrip
pub mod Strict
use link_mesh.Base.{ℕ, ◌≡◌, refl, Option, none, some, [], ◌∷◌, Bytes, Text, Result, ok, err, ◌>>=◌}
use link_mesh.Shared.Cert.{Signatures}
use link_mesh.Shared.Bodies.{JoinBody, AuthBody, AuthRespBody, ServerInfoBody}
use link_mesh.Shared.Wire.Layouts.{Layout, bytes, byte, word, ◌▹◌, struct}
use link_mesh.Shared.Wire.{
  WireError, ip_len, endpoint_len, name_len, token_len, code_len, set, to_str, put_opt_str,
  get_opt_str, b64_bytes, put_opt_key, get_opt_key, encode_impl, decode_impl,
}
use link_mesh.Shared.Wire.Certs.{
  WireDeviceCert, device_cert_layout, cert_from_domain, cert_to_domain, WireServerInfo,
  server_info_layout, info_from_domain, info_to_domain, WireCrl, crl_layout, crl_from_domain,
  crl_to_domain,
}

pub record WireJoin : Type 0 where
  pub code : Bytes
  pub device_id : Bytes
  pub ik_x : Bytes
  pub ik_s_pub : Bytes
  pub has_requested_ip : ℕ
  pub requested_ip : Bytes
  pub has_token : ℕ
  pub token : Bytes
  pub has_alias : ℕ
  pub alias : Bytes

abbrev pub join_layout : Layout WireJoin
join_layout =
    struct
      (λ w. (
        w.code,
        (
          w.device_id,
          (
            w.ik_x,
            (
              w.ik_s_pub,
              (
                w.has_requested_ip,
                (w.requested_ip, (w.has_token, (w.token, (w.has_alias, w.alias)))),
              ),
            ),
          ),
        ),
      ))
      (λ (a, (b, (c, (d, (e, (f, (g, (h, (i, j))))))))). record {
        code = a;
        device_id = b;
        ik_x = c;
        ik_s_pub = d;
        has_requested_ip = e;
        requested_ip = f;
        has_token = g;
        token = h;
        has_alias = i;
        alias = j;
      })
      (λ w. refl) (λ t. refl)
      (bytes code_len
        ▹ bytes 32
        ▹ bytes 32
        ▹ bytes 32
        ▹ byte
        ▹ bytes ip_len
        ▹ byte
        ▹ bytes token_len
        ▹ byte
        ▹ bytes name_len)

module _ (sigs : Signatures) where
  unfoldable pub fill_join : JoinBody → Result WireError WireJoin
  unfolding set b64_bytes put_opt_str
  fill_join b = do
    code ← set code_len b.code
    device_id ← b64_bytes sigs 32 b.device_id
    ik_x ← b64_bytes sigs 32 b.ik_x
    ik_s_pub ← b64_bytes sigs 32 b.ik_s_pub
    requested_ip ← put_opt_str ip_len b.requested_ip
    token ← put_opt_str token_len b.token
    alias ← put_opt_str name_len b.alias
    ok (record {
      code = code;
      device_id = device_id;
      ik_x = ik_x;
      ik_s_pub = ik_s_pub;
      has_requested_ip = requested_ip.0;
      requested_ip = requested_ip.1;
      has_token = token.0;
      token = token.1;
      has_alias = alias.0;
      alias = alias.1;
    })

  unfoldable pub join_of_wire : WireJoin → Result WireError JoinBody
  unfolding to_str get_opt_str
  join_of_wire w = do
    code ← to_str w.code
    requested_ip ← get_opt_str w.has_requested_ip w.requested_ip
    token ← get_opt_str w.has_token w.token
    alias ← get_opt_str w.has_alias w.alias
    ok (record {
      code = code;
      device_id = sigs.encode w.device_id;
      ik_x = sigs.encode w.ik_x;
      ik_s_pub = sigs.encode w.ik_s_pub;
      requested_ip = requested_ip;
      token = token;
      alias = alias;
    })

  unfoldable pub encode_join : JoinBody → Result WireError Bytes
  unfolding fill_join encode_impl
  encode_join b = encode_impl join_layout (fill_join b)

  unfoldable pub decode_join : Bytes → Result WireError JoinBody
  unfolding join_of_wire decode_impl
  decode_join s = decode_impl join_layout s >>= join_of_wire

pub record WireAuth : Type 0 where
  pub device_id : Bytes
  pub cert : WireDeviceCert
  pub ek_c : Bytes
  pub timestamp : ℕ
  pub nonce : Bytes
  pub has_token : ℕ
  pub token : Bytes

abbrev pub auth_layout : Layout WireAuth
auth_layout =
    struct
      (λ w. (w.device_id, (w.cert, (w.ek_c, (w.timestamp, (w.nonce, (w.has_token, w.token)))))))
      (λ (a, (b, (c, (d, (e, (f, g)))))). record {
        device_id = a;
        cert = b;
        ek_c = c;
        timestamp = d;
        nonce = e;
        has_token = f;
        token = g;
      })
      (λ w. refl) (λ t. refl)
      (bytes 32 ▹ device_cert_layout ▹ bytes 32 ▹ word 8 ▹ bytes 12 ▹ byte ▹ bytes token_len)

module _ (sigs : Signatures) where
  unfoldable pub fill_auth : AuthBody → Result WireError WireAuth
  unfolding b64_bytes put_opt_str cert_from_domain
  fill_auth b = do
    device_id ← b64_bytes sigs 32 b.device_id
    cert ← cert_from_domain sigs b.cert
    ek_c ← b64_bytes sigs 32 b.ek_c
    nonce ← b64_bytes sigs 12 b.nonce
    token ← put_opt_str token_len b.token
    ok (record {
      device_id = device_id;
      cert = cert;
      ek_c = ek_c;
      timestamp = b.timestamp;
      nonce = nonce;
      has_token = token.0;
      token = token.1;
    })

  unfoldable pub auth_of_wire : WireAuth → Result WireError AuthBody
  unfolding get_opt_str cert_to_domain
  auth_of_wire w = do
    cert ← cert_to_domain sigs w.cert
    token ← get_opt_str w.has_token w.token
    ok (record {
      device_id = sigs.encode w.device_id;
      cert = cert;
      ek_c = sigs.encode w.ek_c;
      timestamp = w.timestamp;
      nonce = sigs.encode w.nonce;
      token = token;
    })

  unfoldable pub encode_auth : AuthBody → Result WireError Bytes
  unfolding fill_auth encode_impl
  encode_auth b = encode_impl auth_layout (fill_auth b)

  unfoldable pub decode_auth : Bytes → Result WireError AuthBody
  unfolding auth_of_wire decode_impl
  decode_auth s = decode_impl auth_layout s >>= auth_of_wire

pub record WireAuthResp : Type 0 where
  pub ek_s : Bytes
  pub session_id : Bytes
  pub crl : WireCrl
  pub server_info : WireServerInfo
  pub allocated_ip : Bytes

abbrev pub auth_resp_layout : Layout WireAuthResp
auth_resp_layout =
    struct (λ w. (w.ek_s, (w.session_id, (w.crl, (w.server_info, w.allocated_ip)))))
      (λ (a, (b, (c, (d, e)))). record {
        ek_s = a;
        session_id = b;
        crl = c;
        server_info = d;
        allocated_ip = e;
      })
      (λ w. refl) (λ t. refl) (bytes 32 ▹ bytes 16 ▹ crl_layout ▹ server_info_layout ▹ bytes ip_len)

module _ (sigs : Signatures) where
  unfoldable pub fill_auth_resp : AuthRespBody → Result WireError WireAuthResp
  unfolding set b64_bytes info_from_domain crl_from_domain
  fill_auth_resp b = do
    ek_s ← b64_bytes sigs 32 b.ek_s
    session_id ← b64_bytes sigs 16 b.session_id
    crl ← crl_from_domain sigs b.crl
    server_info ← info_from_domain sigs b.server_info
    allocated_ip ← set ip_len b.allocated_ip
    ok (record {
      ek_s = ek_s;
      session_id = session_id;
      crl = crl;
      server_info = server_info;
      allocated_ip = allocated_ip;
    })

  unfoldable pub auth_resp_of_wire : WireAuthResp → Result WireError AuthRespBody
  unfolding to_str info_to_domain crl_to_domain
  auth_resp_of_wire w = do
    crl ← crl_to_domain sigs w.crl
    server_info ← info_to_domain sigs w.server_info
    allocated_ip ← to_str w.allocated_ip
    ok (record {
      ek_s = sigs.encode w.ek_s;
      session_id = sigs.encode w.session_id;
      crl = crl;
      server_info = server_info;
      allocated_ip = allocated_ip;
    })

  unfoldable pub encode_auth_resp : AuthRespBody → Result WireError Bytes
  unfolding fill_auth_resp encode_impl
  encode_auth_resp b = encode_impl auth_resp_layout (fill_auth_resp b)

  unfoldable pub decode_auth_resp : Bytes → Result WireError AuthRespBody
  unfolding auth_resp_of_wire decode_impl
  decode_auth_resp s = decode_impl auth_resp_layout s >>= auth_resp_of_wire

  -- `WireServerInfoBody` holds the information of the server and nothing else.
  unfoldable pub encode_server_info_body : ServerInfoBody → Result WireError Bytes
  unfolding info_from_domain encode_impl
  encode_server_info_body b = encode_impl server_info_layout (info_from_domain sigs b.server_info)

  unfoldable pub decode_server_info_body : Bytes → Result WireError ServerInfoBody
  unfolding info_to_domain decode_impl
  decode_server_info_body s = do
    w ← decode_impl server_info_layout s
    server_info ← info_to_domain sigs w
    ok (record { server_info = server_info })
