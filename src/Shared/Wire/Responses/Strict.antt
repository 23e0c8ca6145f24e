-- ===== src/Shared/Wire/Responses/Strict.antt =====
-- Which bytes the decoder of answers in linkmesh-shared/src/wire.rs lets through.
use link_mesh.Base.{
  ◌≡◌, [], ◌∷◌, Bytes, All, eqb, ok, Ensures, returns, refuses, Ensures-bind, Ensures-if,
  Ensures-ok,
}
use link_mesh.Shared.Cert.{Signatures}
use link_mesh.Shared.Bodies.{ResponseBody}
use link_mesh.Shared.Wire.{ip_len, endpoint_len, name_len, err_len}
use link_mesh.Shared.Wire.Layouts.{IsByte}
use link_mesh.Shared.Wire.Strict.{
  to_str-Ensures, encode-IsKeyText, get_opt_key-IsKeyText, decode_impl-Ensures,
}
use link_mesh.Shared.Wire.Certs.Strict.{cert-Ensures, info-Ensures, crl-Ensures}
use link_mesh.Shared.Wire.Responses.{
  resp_ok, resp_err, resp_query_hit, resp_query_miss, resp_join, hit_layout, miss_layout,
  resp_join_layout, resp_err_layout, miss_of_wire, hit_of_wire, resp_join_of_wire, decode_failed,
  decode_hit, decode_miss, decode_joined, decode_response, WireRespQueryHit, WireRespQueryMiss,
  WireRespJoin,
}
use link_mesh.Shared.Wire.Responses.RoundTrip.{
  IsWireMiss, IsWireHit, IsWireJoined, IsWireResponse, plain, failed, found, missed, admitted,
}

miss-Ensures : (w : WireRespQueryMiss) → miss_layout.Fits w → Ensures IsWireMiss (miss_of_wire w)
unfolding miss_of_wire
miss-Ensures w (f0, f1) =
    Ensures-bind (to_str-Ensures name_len w.req f0)
      λ _ req. Ensures-bind (to_str-Ensures err_len w.error f1) λ _ error. returns (req, error)

module _ (sigs : Signatures) where
  hit-Ensures :
      (w : WireRespQueryHit) → hit_layout.Fits w → Ensures (IsWireHit sigs) (hit_of_wire sigs w)
  unfolding hit_of_wire
  hit-Ensures w (f0, (f1, (f2, (f3, (f4, (f5, (f6, f7))))))) =
      Ensures-bind (to_str-Ensures name_len w.req f0) λ _ req.
        Ensures-bind (to_str-Ensures ip_len w.ip f1) λ _ ip.
          Ensures-bind (to_str-Ensures endpoint_len w.endpoint f3) λ _ endpoint.
            Ensures-bind (to_str-Ensures name_len w.alias f7) λ _ alias. returns (record {
              req = req;
              ip = ip;
              public_key = encode-IsKeyText sigs 32 w.public_key f2;
              endpoint = endpoint;
              relay_rk = get_opt_key-IsKeyText sigs 32 w.has_relay_rk w.relay_rk f5;
              alias = alias;
            })

  joined-Ensures :
      (w : WireRespJoin)
      → resp_join_layout.Fits w
      → Ensures (IsWireJoined sigs) (resp_join_of_wire sigs w)
  unfolding resp_join_of_wire
  joined-Ensures w (f0, (f1, (f2, (f3, f4)))) =
      Ensures-bind (to_str-Ensures ip_len w.allocated_ip f1) λ _ ip.
        Ensures-bind (cert-Ensures sigs w.cert f2) λ _ cert.
          Ensures-bind (info-Ensures sigs w.server_info f3) λ _ info.
            Ensures-bind (crl-Ensures sigs w.crl f4) λ _ crl. returns (record {
              device_id = encode-IsKeyText sigs 32 w.device_id f0;
              allocated_ip = ip;
              cert = cert;
              server_info = info;
              crl = crl;
            })

  decode_failed-Ensures :
      (s : Bytes) → All IsByte s → Ensures (IsWireResponse sigs) (decode_failed sigs s)
  unfolding decode_failed
  decode_failed-Ensures s h =
      Ensures-bind
        (Ensures-bind (decode_impl-Ensures resp_err_layout s h)
          λ buf size. to_str-Ensures err_len buf size)
        λ e good. returns (failed e good)

  decode_hit-Ensures :
      (s : Bytes) → All IsByte s → Ensures (IsWireResponse sigs) (decode_hit sigs s)
  unfolding decode_hit
  decode_hit-Ensures s h =
      Ensures-bind (Ensures-bind (decode_impl-Ensures hit_layout s h) λ w fits. hit-Ensures w fits)
        λ b good. returns (found b good)

  decode_miss-Ensures :
      (s : Bytes) → All IsByte s → Ensures (IsWireResponse sigs) (decode_miss sigs s)
  unfolding decode_miss
  decode_miss-Ensures s h =
      Ensures-bind
        (Ensures-bind (decode_impl-Ensures miss_layout s h) λ w fits. miss-Ensures w fits)
        λ m good. returns (missed m good)

  decode_joined-Ensures :
      (s : Bytes) → All IsByte s → Ensures (IsWireResponse sigs) (decode_joined sigs s)
  unfolding decode_joined
  decode_joined-Ensures s h =
      Ensures-bind
        (Ensures-bind (decode_impl-Ensures resp_join_layout s h) λ w fits. joined-Ensures w fits)
        λ j good. returns (admitted j good)

  decode_response-Ensures :
      (s : Bytes) → All IsByte s → Ensures (IsWireResponse sigs) (decode_response sigs s)
  unfolding decode_response
  decode_response-Ensures [] h = refuses
  decode_response-Ensures (kind ∷ rest) h = Ensures-if (eqb kind resp_ok) (returns plain) (
      Ensures-if (eqb kind resp_err) (decode_failed-Ensures rest h.1) (
        Ensures-if (eqb kind resp_query_hit) (decode_hit-Ensures rest h.1) (
          Ensures-if (eqb kind resp_query_miss) (decode_miss-Ensures rest h.1)
            (Ensures-if (eqb kind resp_join) (decode_joined-Ensures rest h.1) refuses))))

  -- Whatever bytes are decoded as an answer, it is one of the five kinds, with texts, keys and the
  -- revocation list within their limits.
  pub decoded_response :
      (s : Bytes) (r : ResponseBody)
      → All IsByte s
      → decode_response sigs s ≡ ok r
      → IsWireResponse sigs r
  decoded_response s r h e = Ensures-ok (decode_response-Ensures s h) e
