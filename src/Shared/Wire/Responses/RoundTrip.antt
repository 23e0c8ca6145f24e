-- ===== src/Shared/Wire/Responses/RoundTrip.antt =====
-- The answers of linkmesh-shared/src/wire.rs are read back.
use link_mesh.Base.{◌≡◌, refl, Text, ok, ◌>>=◌}
use link_mesh.Shared.Cert.{Signatures}
use link_mesh.Shared.Bodies.{
  QueryHit, JoinData, query_hit, joined, ResponseBody, ok_with_data, ok_body, err_body,
}
use link_mesh.Shared.Wire.{ip_len, endpoint_len, name_len, err_len, set, to_str}
use link_mesh.Shared.Wire.Texts.{
  IsWireText, IsKeyText, OnSome, Carries, set-Carries, b64_bytes-Carries, put_opt_key-Carries,
  encode_impl-Carries,
}
use link_mesh.Shared.Wire.Certs.Carried.{
  IsWireCert, cert-Carries, IsWireInfo, info-Carries, IsWireCrl, crl-Carries,
}
use link_mesh.Shared.Wire.Responses.{
  hit_layout, miss_layout, resp_join_layout, resp_err_layout, miss_body, fill_miss, miss_of_wire,
  fill_hit, hit_of_wire, fill_resp_join, resp_join_of_wire, encode_data, encode_response,
  decode_failed, decode_hit, decode_miss, decode_joined, decode_response,
}

abbrev pub IsWireMiss : Text × Text → Type 0
IsWireMiss m = IsWireText name_len m.0 × IsWireText err_len m.1

miss-Carries : (m : Text × Text) → IsWireMiss m → Carries fill_miss miss_layout.Fits miss_of_wire m
unfolding fill_miss miss_of_wire
miss-Carries (req, error) (h0, h1) =
    let (r, p0, f0, q0) = set-Carries name_len req h0 in
    let (e, p1, f1, q1) = set-Carries err_len error h1 in
    (record { req = r; error = e }, rw (p0, p1), (f0, f1), rw (q0, q1))

module _ (sigs : Signatures) where
  pub record IsWireHit (h : QueryHit) : Type 0 where
    pub req : IsWireText name_len h.req
    pub ip : IsWireText ip_len h.ip
    pub public_key : IsKeyText sigs 32 h.public_key
    pub endpoint : IsWireText endpoint_len h.endpoint
    pub relay_rk : OnSome (IsKeyText sigs 32) h.relay_rk
    pub alias : IsWireText name_len h.alias

  hit-Carries :
      (b : QueryHit) → IsWireHit b → Carries (fill_hit sigs) hit_layout.Fits (hit_of_wire sigs) b
  unfolding fill_hit hit_of_wire
  hit-Carries b h =
      let (req, p0, f0, q0) = set-Carries name_len b.req h.req in
      let (ip, p1, f1, q1) = set-Carries ip_len b.ip h.ip in
      let (key, p2, f2, q2) = b64_bytes-Carries sigs 32 b.public_key h.public_key in
      let (endpoint, p3, f3, q3) = set-Carries endpoint_len b.endpoint h.endpoint in
      let (rk, p4, f4, q4) = put_opt_key-Carries sigs 32 b.relay_rk h.relay_rk in
      let (alias, p5, f5, q5) = set-Carries name_len b.alias h.alias in
      (
        record {
          req = req;
          ip = ip;
          public_key = key;
          endpoint = endpoint;
          has_relay_rk = rk.0;
          relay_rk = rk.1;
          has_alias = 0;
          alias = alias;
        },
        rw (p0, p1, p2, p3, p4, p5),
        (f0, (f1, (f2, (f3, (tt, (f4, (tt, f5))))))),
        rw (q0, q1, q3, q5) (cc),
      )

  pub record IsWireJoined (j : JoinData) : Type 0 where
    pub device_id : IsKeyText sigs 32 j.device_id
    pub allocated_ip : IsWireText ip_len j.allocated_ip
    pub cert : IsWireCert sigs j.cert
    pub server_info : IsWireInfo sigs j.server_info
    pub crl : IsWireCrl sigs j.crl

  joined-Carries :
      (j : JoinData)
      → IsWireJoined j
      → Carries (fill_resp_join sigs) resp_join_layout.Fits (resp_join_of_wire sigs) j
  unfolding fill_resp_join resp_join_of_wire
  joined-Carries j h =
      let (device_id, p0, f0, q0) = b64_bytes-Carries sigs 32 j.device_id h.device_id in
      let (ip, p1, f1, q1) = set-Carries ip_len j.allocated_ip h.allocated_ip in
      let (cert, p2, f2, q2) = cert-Carries sigs j.cert h.cert in
      let (info, p3, f3, q3) = info-Carries sigs j.server_info h.server_info in
      let (crl, p4, f4, q4) = crl-Carries sigs j.crl h.crl in
      (
        record {
          device_id = device_id;
          allocated_ip = ip;
          cert = cert;
          server_info = info;
          crl = crl;
        },
        rw (p0, p1, p2, p3, p4),
        (f0, (f1, (f2, (f3, f4)))),
        rw (q1, q2, q3, q4) (cc),
      )

  -- The bodies that the server answers with.
  pub data IsWireResponse : ResponseBody → Type 0 where
    plain : IsWireResponse ok_body
    failed : (e : Text) → IsWireText err_len e → IsWireResponse (err_body e)
    found : (h : QueryHit) → IsWireHit h → IsWireResponse (ok_with_data (query_hit h))
    missed : (m : Text × Text) → IsWireMiss m → IsWireResponse (miss_body m)
    admitted : (j : JoinData) → IsWireJoined j → IsWireResponse (ok_with_data (joined j))

  -- Every answer of the server, with texts, keys, numbers and the revocation list within their
  -- limits, can be encoded and is decoded to what it was.
  pub response_round_trip :
      (r : ResponseBody)
      → IsWireResponse r
      → (encode_response sigs r >>= decode_response sigs) ≡ ok r
  unfolding encode_response encode_data decode_response decode_failed decode_hit decode_miss
      decode_joined
  response_round_trip r plain = refl
  response_round_trip r (failed e h) =
      let (s, p, q) =
        encode_impl-Carries resp_err_layout (set err_len) to_str e (set-Carries err_len e h) in
      rw p (rw q)
  response_round_trip r (found b h) =
      let (s, p, q) =
        encode_impl-Carries hit_layout (fill_hit sigs) (hit_of_wire sigs) b (hit-Carries b h) in
      rw p (rw q)
  response_round_trip r (missed m h) =
      let (s, p, q) = encode_impl-Carries miss_layout fill_miss miss_of_wire m (miss-Carries m h) in
      rw p (rw q)
  response_round_trip r (admitted j h) =
      let (s, p, q) =
        encode_impl-Carries resp_join_layout (fill_resp_join sigs) (resp_join_of_wire sigs) j
          (joined-Carries j h) in
      rw p (rw q)
