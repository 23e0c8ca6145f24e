-- ===== src/Shared/Wire/Handshake/RoundTrip.antt =====
-- JOIN, AUTH, the answer to it and the information of the server in linkmesh-shared/src/wire.rs are
-- read back.
use link_mesh.Base.{◌^◌, ◌<◌, ◌≡◌, ok, ◌>>=◌}
use link_mesh.Shared.Cert.{Signatures}
use link_mesh.Shared.Bodies.{JoinBody, AuthBody, AuthRespBody, ServerInfoBody}
use link_mesh.Shared.Wire.{ip_len, name_len, token_len, code_len}
use link_mesh.Shared.Wire.Texts.{
  IsWireText, IsKeyText, OnSome, Carries, set-Carries, put_opt_str-Carries, b64_bytes-Carries,
  decode_impl-encode_impl,
}
use link_mesh.Shared.Wire.Certs.{server_info_layout, info_from_domain, info_to_domain}
use link_mesh.Shared.Wire.Certs.Carried.{
  IsWireCert, cert-Carries, IsWireInfo, info-Carries, IsWireCrl, crl-Carries,
}
use link_mesh.Shared.Wire.Handshake.{
  join_layout, fill_join, join_of_wire, encode_join, decode_join, auth_layout, fill_auth,
  auth_of_wire, encode_auth, decode_auth, auth_resp_layout, fill_auth_resp, auth_resp_of_wire,
  encode_auth_resp, decode_auth_resp, encode_server_info_body, decode_server_info_body,
}

module _ (sigs : Signatures) where
  pub record IsWireJoin (b : JoinBody) : Type 0 where
    pub code : IsWireText code_len b.code
    pub device_id : IsKeyText sigs 32 b.device_id
    pub ik_x : IsKeyText sigs 32 b.ik_x
    pub ik_s_pub : IsKeyText sigs 32 b.ik_s_pub
    pub requested_ip : OnSome (IsWireText ip_len) b.requested_ip
    pub token : OnSome (IsWireText token_len) b.token
    pub alias : OnSome (IsWireText name_len) b.alias

  join-Carries :
      (b : JoinBody)
      → IsWireJoin b
      → Carries (fill_join sigs) join_layout.Fits (join_of_wire sigs) b
  unfolding fill_join join_of_wire
  join-Carries b h =
      let (code, p0, f0, q0) = set-Carries code_len b.code h.code in
      let (device_id, p1, f1, q1) = b64_bytes-Carries sigs 32 b.device_id h.device_id in
      let (ik_x, p2, f2, q2) = b64_bytes-Carries sigs 32 b.ik_x h.ik_x in
      let (ik_s_pub, p3, f3, q3) = b64_bytes-Carries sigs 32 b.ik_s_pub h.ik_s_pub in
      let (ip, p4, f4, q4) = put_opt_str-Carries ip_len b.requested_ip h.requested_ip in
      let (token, p5, f5, q5) = put_opt_str-Carries token_len b.token h.token in
      let (alias, p6, f6, q6) = put_opt_str-Carries name_len b.alias h.alias in
      (
        record {
          code = code;
          device_id = device_id;
          ik_x = ik_x;
          ik_s_pub = ik_s_pub;
          has_requested_ip = ip.0;
          requested_ip = ip.1;
          has_token = token.0;
          token = token.1;
          has_alias = alias.0;
          alias = alias.1;
        },
        rw (p0, p1, p2, p3, p4, p5, p6),
        (f0, (f1, (f2, (f3, (tt, (f4, (tt, (f5, (tt, f6))))))))),
        rw (q0, q4, q5, q6) (cc),
      )

  pub record IsWireAuth (b : AuthBody) : Type 0 where
    pub device_id : IsKeyText sigs 32 b.device_id
    pub cert : IsWireCert sigs b.cert
    pub ek_c : IsKeyText sigs 32 b.ek_c
    pub timestamp : b.timestamp < 2 ^ 64
    pub nonce : IsKeyText sigs 12 b.nonce
    pub token : OnSome (IsWireText token_len) b.token

  auth-Carries :
      (b : AuthBody)
      → IsWireAuth b
      → Carries (fill_auth sigs) auth_layout.Fits (auth_of_wire sigs) b
  unfolding fill_auth auth_of_wire
  auth-Carries b h =
      let (device_id, p0, f0, q0) = b64_bytes-Carries sigs 32 b.device_id h.device_id in
      let (cert, p1, f1, q1) = cert-Carries sigs b.cert h.cert in
      let (ek_c, p2, f2, q2) = b64_bytes-Carries sigs 32 b.ek_c h.ek_c in
      let (nonce, p3, f3, q3) = b64_bytes-Carries sigs 12 b.nonce h.nonce in
      let (token, p4, f4, q4) = put_opt_str-Carries token_len b.token h.token in
      (
        record {
          device_id = device_id;
          cert = cert;
          ek_c = ek_c;
          timestamp = b.timestamp;
          nonce = nonce;
          has_token = token.0;
          token = token.1;
        },
        rw (p0, p1, p2, p3, p4),
        (f0, (f1, (f2, (h.timestamp, (f3, (tt, f4)))))),
        rw (q1, q4) (cc),
      )

  pub record IsWireAuthResp (b : AuthRespBody) : Type 0 where
    pub ek_s : IsKeyText sigs 32 b.ek_s
    pub session_id : IsKeyText sigs 16 b.session_id
    pub crl : IsWireCrl sigs b.crl
    pub server_info : IsWireInfo sigs b.server_info
    pub allocated_ip : IsWireText ip_len b.allocated_ip

  auth_resp-Carries :
      (b : AuthRespBody)
      → IsWireAuthResp b
      → Carries (fill_auth_resp sigs) auth_resp_layout.Fits (auth_resp_of_wire sigs) b
  unfolding fill_auth_resp auth_resp_of_wire
  auth_resp-Carries b h =
      let (ek_s, p0, f0, q0) = b64_bytes-Carries sigs 32 b.ek_s h.ek_s in
      let (session_id, p1, f1, q1) = b64_bytes-Carries sigs 16 b.session_id h.session_id in
      let (crl, p2, f2, q2) = crl-Carries sigs b.crl h.crl in
      let (info, p3, f3, q3) = info-Carries sigs b.server_info h.server_info in
      let (ip, p4, f4, q4) = set-Carries ip_len b.allocated_ip h.allocated_ip in
      (
        record {
          ek_s = ek_s;
          session_id = session_id;
          crl = crl;
          server_info = info;
          allocated_ip = ip;
        },
        rw (p0, p1, p2, p3, p4),
        (f0, (f1, (f2, (f3, f4)))),
        rw (q2, q3, q4) (cc),
      )

  pub auth_resp_round_trip :
      (b : AuthRespBody)
      → IsWireAuthResp b
      → (encode_auth_resp sigs b >>= decode_auth_resp sigs) ≡ ok b
  unfolding encode_auth_resp decode_auth_resp
  auth_resp_round_trip b h =
      decode_impl-encode_impl auth_resp_layout (fill_auth_resp sigs) (auth_resp_of_wire sigs) b
        (auth_resp-Carries b h)

  -- A JOIN, an AUTH with its certificate, its answer with the revocation list, and the information
  -- of the server can be encoded, and are decoded to what they were, when texts are UTF-8 without
  -- NUL within the limits, keys and signatures are the base64 of as many bytes as they should, the
  -- list has at most 256 entries, and numbers fit their width.
  pub handshake_round_trip :
      (j : JoinBody) (a : AuthBody) (r : AuthRespBody) (i : ServerInfoBody)
      → IsWireJoin j
      → IsWireAuth a
      → IsWireAuthResp r
      → IsWireInfo sigs i.server_info
      → ((encode_join sigs j >>= decode_join sigs) ≡ ok j)
        × ((encode_auth sigs a >>= decode_auth sigs) ≡ ok a)
        × ((encode_auth_resp sigs r >>= decode_auth_resp sigs) ≡ ok r)
        × ((encode_server_info_body sigs i >>= decode_server_info_body sigs) ≡ ok i)
  unfolding encode_join decode_join encode_auth decode_auth encode_server_info_body
      decode_server_info_body
  handshake_round_trip j a r i hj ha hr hi = (
    decode_impl-encode_impl join_layout (fill_join sigs) (join_of_wire sigs) j (join-Carries j hj),
    decode_impl-encode_impl auth_layout (fill_auth sigs) (auth_of_wire sigs) a (auth-Carries a ha),
    auth_resp_round_trip r hr,
    decode_impl-encode_impl server_info_layout (λ b. info_from_domain sigs b.server_info)
        (λ w. info_to_domain sigs w >>= λ server_info. ok (record { server_info = server_info })) i
        (let (w, p, f, back) = info-Carries sigs i.server_info hi in (w, p, f, rw back)),
  )
