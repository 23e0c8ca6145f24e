-- ===== src/Shared/Wire/Handshake/Strict.antt =====
-- Which bytes the decoders of the handshake in linkmesh-shared/src/wire.rs let through.
use link_mesh.Base.{◌≡◌, Bytes, All, ok, Ensures, returns, Ensures-bind, Ensures-ok}
use link_mesh.Shared.Cert.{Signatures}
use link_mesh.Shared.Bodies.{JoinBody, AuthBody, RegisterBody, QueryBody}
use link_mesh.Shared.Wire.{ip_len, name_len, token_len, code_len}
use link_mesh.Shared.Wire.Layouts.{IsByte}
use link_mesh.Shared.Wire.Strict.{
  to_str-Ensures, get_opt_str-Ensures, encode-IsKeyText, decode_impl-Ensures,
}
use link_mesh.Shared.Wire.Certs.{server_info_layout}
use link_mesh.Shared.Wire.Certs.Carried.{IsWireInfo}
use link_mesh.Shared.Wire.Certs.Strict.{cert-Ensures, info-Ensures, crl-Ensures}
use link_mesh.Shared.Wire.Requests.{decode_register, decode_query}
use link_mesh.Shared.Wire.Requests.RoundTrip.{IsWireRegister, IsWireQuery}
use link_mesh.Shared.Wire.Requests.Strict.{decode_register-Ensures, decode_query-Ensures}
use link_mesh.Shared.Wire.Handshake.{
  join_layout, join_of_wire, decode_join, auth_layout, auth_of_wire, decode_auth, auth_resp_layout,
  auth_resp_of_wire, decode_auth_resp, decode_server_info_body,
}
use link_mesh.Shared.Wire.Handshake.RoundTrip.{IsWireJoin, IsWireAuth, IsWireAuthResp}

module _ (sigs : Signatures) where
  decode_join-Ensures : (s : Bytes) → All IsByte s → Ensures (IsWireJoin sigs) (decode_join sigs s)
  unfolding decode_join join_of_wire
  decode_join-Ensures s h =
      Ensures-bind (decode_impl-Ensures join_layout s h)
        λ w (f0, (f1, (f2, (f3, (f4, (f5, (f6, (f7, (f8, f9))))))))).
          Ensures-bind (to_str-Ensures code_len w.code f0) λ _ code.
            Ensures-bind (get_opt_str-Ensures ip_len w.has_requested_ip w.requested_ip f5) λ _ ip.
              Ensures-bind (get_opt_str-Ensures token_len w.has_token w.token f7) λ _ token.
                Ensures-bind (get_opt_str-Ensures name_len w.has_alias w.alias f9) λ _ alias.
                  returns (record {
                    code = code;
                    device_id = encode-IsKeyText sigs 32 w.device_id f1;
                    ik_x = encode-IsKeyText sigs 32 w.ik_x f2;
                    ik_s_pub = encode-IsKeyText sigs 32 w.ik_s_pub f3;
                    requested_ip = ip;
                    token = token;
                    alias = alias;
                  })

  decode_auth-Ensures : (s : Bytes) → All IsByte s → Ensures (IsWireAuth sigs) (decode_auth sigs s)
  unfolding decode_auth auth_of_wire
  decode_auth-Ensures s h =
      Ensures-bind (decode_impl-Ensures auth_layout s h) λ w (f0, (f1, (f2, (f3, (f4, (f5, f6)))))).
        Ensures-bind (cert-Ensures sigs w.cert f1) λ _ cert.
          Ensures-bind (get_opt_str-Ensures token_len w.has_token w.token f6) λ _ token.
            returns (record {
              device_id = encode-IsKeyText sigs 32 w.device_id f0;
              cert = cert;
              ek_c = encode-IsKeyText sigs 32 w.ek_c f2;
              timestamp = f3;
              nonce = encode-IsKeyText sigs 12 w.nonce f4;
              token = token;
            })

  decode_auth_resp-Ensures :
      (s : Bytes) → All IsByte s → Ensures (IsWireAuthResp sigs) (decode_auth_resp sigs s)
  unfolding decode_auth_resp auth_resp_of_wire
  decode_auth_resp-Ensures s h =
      Ensures-bind (decode_impl-Ensures auth_resp_layout s h) λ w (f0, (f1, (f2, (f3, f4)))).
        Ensures-bind (crl-Ensures sigs w.crl f2) λ _ crl.
          Ensures-bind (info-Ensures sigs w.server_info f3) λ _ info.
            Ensures-bind (to_str-Ensures ip_len w.allocated_ip f4) λ _ ip. returns (record {
              ek_s = encode-IsKeyText sigs 32 w.ek_s f0;
              session_id = encode-IsKeyText sigs 16 w.session_id f1;
              crl = crl;
              server_info = info;
              allocated_ip = ip;
            })

  decode_server_info_body-Ensures :
      (s : Bytes)
      → All IsByte s
      → Ensures (λ i. IsWireInfo sigs i.server_info) (decode_server_info_body sigs s)
  unfolding decode_server_info_body
  decode_server_info_body-Ensures s h =
      Ensures-bind (decode_impl-Ensures server_info_layout s h)
        λ w fits. Ensures-bind (info-Ensures sigs w fits) λ _ info. returns info

  -- Whatever bytes the server decodes as a JOIN, an AUTH, a REGISTER or a QUERY: the texts of the
  -- body are UTF-8 without NUL within their limits, its keys and signatures are the base64 of as many
  -- bytes as they should, and its numbers fit their width.
  pub decoded_bodies :
      (s1 s2 s3 s4 : Bytes) (j : JoinBody) (a : AuthBody) (r : RegisterBody) (q : QueryBody)
      → All IsByte s1
      → All IsByte s2
      → All IsByte s3
      → All IsByte s4
      → decode_join sigs s1 ≡ ok j
      → decode_auth sigs s2 ≡ ok a
      → decode_register sigs s3 ≡ ok r
      → decode_query s4 ≡ ok q
      → IsWireJoin sigs j × IsWireAuth sigs a × IsWireRegister sigs r × IsWireQuery q
  decoded_bodies s1 s2 s3 s4 j a r q h1 h2 h3 h4 e1 e2 e3 e4 = (
    Ensures-ok (decode_join-Ensures s1 h1) e1,
    Ensures-ok (decode_auth-Ensures s2 h2) e2,
    Ensures-ok (decode_register-Ensures sigs s3 h3) e3,
    Ensures-ok (decode_query-Ensures s4 h4) e4,
  )
