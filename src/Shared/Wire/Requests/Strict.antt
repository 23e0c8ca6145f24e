-- ===== src/Shared/Wire/Requests/Strict.antt =====
-- Which bytes the decoders of REGISTER, QUERY and NOTIFY in linkmesh-shared/src/wire.rs let through.
use link_mesh.Base.{Bytes, All, Ensures, returns, Ensures-bind}
use link_mesh.Shared.Cert.{Signatures}
use link_mesh.Shared.Wire.{ip_len, endpoint_len, name_len, token_len}
use link_mesh.Shared.Wire.Layouts.{IsByte}
use link_mesh.Shared.Wire.Strict.{
  to_str-Ensures, get_opt_str-Ensures, encode-IsKeyText, get_opt_key-IsKeyText, decode_impl-Ensures,
}
use link_mesh.Shared.Wire.Requests.{
  register_layout, register_of_wire, decode_register, query_layout, query_of_wire, decode_query,
  peer_info_layout, peer_info_from_wire, decode_notify, WirePeerInfo,
}
use link_mesh.Shared.Wire.Requests.RoundTrip.{IsWireRegister, IsWireQuery, IsWirePeer}

pub decode_query-Ensures : (s : Bytes) → All IsByte s → Ensures IsWireQuery (decode_query s)
unfolding decode_query query_of_wire
decode_query-Ensures s h = Ensures-bind (decode_impl-Ensures query_layout s h) λ w (f0, (f1, f2)).
    Ensures-bind (to_str-Ensures ip_len w.ip f0) λ _ ip.
      Ensures-bind (get_opt_str-Ensures name_len w.has_name w.name f2)
        λ _ name. returns (record { ip = ip; name = name })

module _ (sigs : Signatures) where
  pub decode_register-Ensures :
      (s : Bytes) → All IsByte s → Ensures (IsWireRegister sigs) (decode_register sigs s)
  unfolding decode_register register_of_wire
  decode_register-Ensures s h =
      Ensures-bind (decode_impl-Ensures register_layout s h)
        λ w (f0, (f1, (f2, (f3, (f4, (f5, f6)))))).
          Ensures-bind (to_str-Ensures ip_len w.ip f0) λ _ ip.
            Ensures-bind (get_opt_str-Ensures token_len w.has_token w.token f4) λ _ token.
              Ensures-bind (get_opt_str-Ensures name_len w.has_alias w.alias f6) λ _ alias.
                returns (record {
                  ip = ip;
                  relay_rk = get_opt_key-IsKeyText sigs 32 w.has_relay_rk w.relay_rk f2;
                  token = token;
                  alias = alias;
                })

  peer-Ensures :
      (w : WirePeerInfo)
      → peer_info_layout.Fits w
      → Ensures (IsWirePeer sigs) (peer_info_from_wire sigs w)
  unfolding peer_info_from_wire
  peer-Ensures w (f0, (f1, (f2, (f3, (f4, (f5, (f6, f7))))))) =
      Ensures-bind (to_str-Ensures endpoint_len w.endpoint f1) λ _ endpoint.
        Ensures-bind (get_opt_str-Ensures name_len w.has_alias w.alias f5) λ _ alias.
          Ensures-bind (get_opt_str-Ensures ip_len w.has_ip w.ip f7) λ _ ip. returns (record {
            public_key = encode-IsKeyText sigs 32 w.public_key f0;
            endpoint = endpoint;
            relay_rk = get_opt_key-IsKeyText sigs 32 w.has_relay_rk w.relay_rk f3;
            alias = alias;
            ip = ip;
          })

  decode_notify-Ensures :
      (s : Bytes) → All IsByte s → Ensures (λ n. IsWirePeer sigs n.peer) (decode_notify sigs s)
  unfolding decode_notify
  decode_notify-Ensures s h =
      Ensures-bind (decode_impl-Ensures peer_info_layout s h)
        λ w fits. Ensures-bind (peer-Ensures w fits) λ _ peer. returns peer
