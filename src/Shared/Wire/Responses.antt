-- ===== src/Shared/Wire/Responses.antt =====
-- The answers of the server in linkmesh-shared/src/wire.rs: a byte for the kind, and a structure.
pub mod RoundTrip
pub mod Strict
use link_mesh.Base.{
  ℕ, ◌≡◌, refl, Option, none, some, List, [], ◌∷◌, Bytes, Text, Bool, true, false, eqb,
  if◌then◌else◌, Result, ok, err, ◌>>=◌,
}
use link_mesh.Shared.Cert.{Signatures}
use link_mesh.Shared.Bodies.{
  QueryHit, JoinData, ResponseData, no_data, query_hit, query_miss, joined, ResponseBody,
  ok_with_data, ok_body, err_body,
}
use link_mesh.Shared.Wire.Layouts.{Layout, bytes, byte, ◌▹◌, struct}
use link_mesh.Shared.Wire.{
  WireError, empty_response, unknown_kind, ip_len, endpoint_len, name_len, err_len, set, to_str,
  b64_bytes, put_opt_key, get_opt_key, encode_impl, decode_impl,
}
use link_mesh.Shared.Wire.Certs.{
  WireDeviceCert, device_cert_layout, cert_from_domain, cert_to_domain, WireServerInfo,
  server_info_layout, info_from_domain, info_to_domain, WireCrl, crl_layout, crl_from_domain,
  crl_to_domain,
}

abbrev pub resp_ok : ℕ
resp_ok = 1

abbrev pub resp_err : ℕ
resp_err = 2

abbrev pub resp_query_hit : ℕ
resp_query_hit = 3

abbrev pub resp_query_miss : ℕ
resp_query_miss = 4

abbrev pub resp_join : ℕ
resp_join = 5

pub record WireRespQueryHit : Type 0 where
  pub req : Bytes
  pub ip : Bytes
  pub public_key : Bytes
  pub endpoint : Bytes
  pub has_relay_rk : ℕ
  pub relay_rk : Bytes
  pub has_alias : ℕ
  pub alias : Bytes

abbrev pub hit_layout : Layout WireRespQueryHit
hit_layout =
    struct
      (λ w. (
        w.req,
        (
          w.ip,
          (w.public_key, (w.endpoint, (w.has_relay_rk, (w.relay_rk, (w.has_alias, w.alias))))),
        ),
      ))
      (λ (a, (b, (c, (d, (e, (f, (g, h))))))). record {
        req = a;
        ip = b;
        public_key = c;
        endpoint = d;
        has_relay_rk = e;
        relay_rk = f;
        has_alias = g;
        alias = h;
      })
      (λ w. refl) (λ t. refl)
      (bytes name_len
        ▹ bytes ip_len
        ▹ bytes 32
        ▹ bytes endpoint_len
        ▹ byte
        ▹ bytes 32
        ▹ byte
        ▹ bytes name_len)

pub record WireRespQueryMiss : Type 0 where
  pub req : Bytes
  pub error : Bytes

abbrev pub miss_layout : Layout WireRespQueryMiss
miss_layout =
    struct (λ w. (w.req, w.error)) (λ (a, b). record { req = a; error = b }) (λ w. refl) (λ t. refl)
      (bytes name_len ▹ bytes err_len)

pub record WireRespJoin : Type 0 where
  pub device_id : Bytes
  pub allocated_ip : Bytes
  pub cert : WireDeviceCert
  pub server_info : WireServerInfo
  pub crl : WireCrl

abbrev pub resp_join_layout : Layout WireRespJoin
resp_join_layout =
    struct (λ w. (w.device_id, (w.allocated_ip, (w.cert, (w.server_info, w.crl)))))
      (λ (a, (b, (c, (d, e)))). record {
        device_id = a;
        allocated_ip = b;
        cert = c;
        server_info = d;
        crl = e;
      })
      (λ w. refl) (λ t. refl)
      (bytes 32 ▹ bytes ip_len ▹ device_cert_layout ▹ server_info_layout ▹ crl_layout)

abbrev pub miss_body : Text × Text → ResponseBody
miss_body m = record { is_ok = false; content = query_miss m.0 m.1; error = some m.1 }

-- The bytes of a structure behind the byte of its kind.
abbrev pub tagged : ℕ → Result WireError Bytes → Result WireError Bytes
tagged kind body = body >>= λ s. ok (kind ∷ s)

-- `WireRespErr` holds the text and nothing else.
abbrev pub resp_err_layout : Layout Bytes
resp_err_layout = bytes err_len

abbrev pub error_text : Option Text → Text
error_text none = []
error_text (some e) = e

unfoldable pub fill_miss : Text × Text → Result WireError WireRespQueryMiss
unfolding set
fill_miss m = do
  req ← set name_len m.0
  error ← set err_len m.1
  ok (record { req = req; error = error })

unfoldable pub miss_of_wire : WireRespQueryMiss → Result WireError (Text × Text)
unfolding to_str
miss_of_wire w = do req ← to_str w.req; error ← to_str w.error; ok (req, error)

module _ (sigs : Signatures) where
  -- The flag of the alias is not set.
  unfoldable pub fill_hit : QueryHit → Result WireError WireRespQueryHit
  unfolding set b64_bytes put_opt_key
  fill_hit h = do
    req ← set name_len h.req
    ip ← set ip_len h.ip
    public_key ← b64_bytes sigs 32 h.public_key
    endpoint ← set endpoint_len h.endpoint
    relay_rk ← put_opt_key sigs 32 h.relay_rk
    alias ← set name_len h.alias
    ok (record {
      req = req;
      ip = ip;
      public_key = public_key;
      endpoint = endpoint;
      has_relay_rk = relay_rk.0;
      relay_rk = relay_rk.1;
      has_alias = 0;
      alias = alias;
    })

  unfoldable pub hit_of_wire : WireRespQueryHit → Result WireError QueryHit
  unfolding to_str
  hit_of_wire w = do
    req ← to_str w.req
    ip ← to_str w.ip
    endpoint ← to_str w.endpoint
    alias ← to_str w.alias
    ok (record {
      req = req;
      ip = ip;
      public_key = sigs.encode w.public_key;
      endpoint = endpoint;
      relay_rk = get_opt_key sigs w.has_relay_rk w.relay_rk;
      alias = alias;
    })

  unfoldable pub fill_resp_join : JoinData → Result WireError WireRespJoin
  unfolding set b64_bytes cert_from_domain info_from_domain crl_from_domain
  fill_resp_join j = do
    device_id ← b64_bytes sigs 32 j.device_id
    allocated_ip ← set ip_len j.allocated_ip
    cert ← cert_from_domain sigs j.cert
    server_info ← info_from_domain sigs j.server_info
    crl ← crl_from_domain sigs j.crl
    ok (record {
      device_id = device_id;
      allocated_ip = allocated_ip;
      cert = cert;
      server_info = server_info;
      crl = crl;
    })

  unfoldable pub resp_join_of_wire : WireRespJoin → Result WireError JoinData
  unfolding to_str cert_to_domain info_to_domain crl_to_domain
  resp_join_of_wire w = do
    allocated_ip ← to_str w.allocated_ip
    cert ← cert_to_domain sigs w.cert
    server_info ← info_to_domain sigs w.server_info
    crl ← crl_to_domain sigs w.crl
    ok (record {
      device_id = sigs.encode w.device_id;
      allocated_ip = allocated_ip;
      cert = cert;
      server_info = server_info;
      crl = crl;
    })

  -- The `match` on the data, with the other two fields of the body.
  unfoldable pub encode_data : Bool → Option Text → ResponseData → Result WireError Bytes
  unfolding set fill_hit fill_miss fill_resp_join encode_impl
  encode_data is_ok error no_data =
      if is_ok
      then ok (resp_ok ∷ [])
      else tagged resp_err (encode_impl resp_err_layout (set err_len (error_text error)))
  encode_data is_ok error (query_hit h) =
      tagged resp_query_hit (encode_impl hit_layout (fill_hit h))
  encode_data is_ok error (query_miss req e) =
      tagged resp_query_miss (encode_impl miss_layout (fill_miss (req, e)))
  encode_data is_ok error (joined j) =
      tagged resp_join (encode_impl resp_join_layout (fill_resp_join j))

  unfoldable pub encode_response : ResponseBody → Result WireError Bytes
  unfolding encode_data
  encode_response r = encode_data r.is_ok r.error r.content

  -- The arms of the `match` on the kind that read a structure.
  unfoldable pub decode_failed : Bytes → Result WireError ResponseBody
  unfolding to_str decode_impl
  decode_failed rest = (decode_impl resp_err_layout rest >>= to_str) >>= λ e. ok (err_body e)

  unfoldable pub decode_hit : Bytes → Result WireError ResponseBody
  unfolding hit_of_wire decode_impl
  decode_hit rest =
      (decode_impl hit_layout rest >>= hit_of_wire) >>= λ h. ok (ok_with_data (query_hit h))

  unfoldable pub decode_miss : Bytes → Result WireError ResponseBody
  unfolding miss_of_wire decode_impl
  decode_miss rest = (decode_impl miss_layout rest >>= miss_of_wire) >>= λ m. ok (miss_body m)

  unfoldable pub decode_joined : Bytes → Result WireError ResponseBody
  unfolding resp_join_of_wire decode_impl
  decode_joined rest = (decode_impl resp_join_layout rest >>= resp_join_of_wire) >>= λ j.
      ok (ok_with_data (joined j))

  unfoldable pub decode_response : Bytes → Result WireError ResponseBody
  decode_response [] = err empty_response
  decode_response (kind ∷ rest) =
      if eqb kind resp_ok
      then ok ok_body
      else if eqb kind resp_err
      then decode_failed rest
      else if eqb kind resp_query_hit
      then decode_hit rest
      else if eqb kind resp_query_miss
      then decode_miss rest
      else if eqb kind resp_join
      then decode_joined rest
      else err unknown_kind
