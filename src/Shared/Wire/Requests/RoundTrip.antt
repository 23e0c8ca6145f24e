-- ===== src/Shared/Wire/Requests/RoundTrip.antt =====
-- REGISTER, QUERY and NOTIFY of linkmesh-shared/src/wire.rs are read back.
use link_mesh.Base.{◌≡◌, ok, ◌>>=◌}
use link_mesh.Shared.Cert.{Signatures}
use link_mesh.Shared.Bodies.{RegisterBody, QueryBody, PeerInfo, NotifyBody}
use link_mesh.Shared.Wire.{ip_len, endpoint_len, name_len, token_len}
use link_mesh.Shared.Wire.Texts.{
  IsWireText, IsKeyText, OnSome, Carries, set-Carries, put_opt_str-Carries, b64_bytes-Carries,
  put_opt_key-Carries, decode_impl-encode_impl,
}
use link_mesh.Shared.Wire.Requests.{
  register_layout, fill_register, register_of_wire, encode_register, decode_register, query_layout,
  fill_query, query_of_wire, encode_query, decode_query, peer_info_layout, fill_peer_info,
  peer_info_from_wire, encode_notify, decode_notify,
}

pub record IsWireQuery (b : QueryBody) : Type 0 where
  pub ip : IsWireText ip_len b.ip
  pub name : OnSome (IsWireText name_len) b.name

query-Carries :
    (b : QueryBody) → IsWireQuery b → Carries fill_query query_layout.Fits query_of_wire b
unfolding fill_query query_of_wire
query-Carries b h =
    let (ip, p0, f0, q0) = set-Carries ip_len b.ip h.ip in
    let (name, p1, f1, q1) = put_opt_str-Carries name_len b.name h.name in
    (record { ip = ip; has_name = name.0; name = name.1 }, rw (p0, p1), (f0, (tt, f1)), rw (q0, q1))

module _ (sigs : Signatures) where
  pub record IsWireRegister (b : RegisterBody) : Type 0 where
    pub ip : IsWireText ip_len b.ip
    pub relay_rk : OnSome (IsKeyText sigs 32) b.relay_rk
    pub token : OnSome (IsWireText token_len) b.token
    pub alias : OnSome (IsWireText name_len) b.alias

  register-Carries :
      (b : RegisterBody)
      → IsWireRegister b
      → Carries (fill_register sigs) register_layout.Fits (register_of_wire sigs) b
  unfolding fill_register register_of_wire
  register-Carries b h =
      let (ip, p0, f0, q0) = set-Carries ip_len b.ip h.ip in
      let (rk, p1, f1, q1) = put_opt_key-Carries sigs 32 b.relay_rk h.relay_rk in
      let (token, p2, f2, q2) = put_opt_str-Carries token_len b.token h.token in
      let (alias, p3, f3, q3) = put_opt_str-Carries name_len b.alias h.alias in
      (
        record {
          ip = ip;
          has_relay_rk = rk.0;
          relay_rk = rk.1;
          has_token = token.0;
          token = token.1;
          has_alias = alias.0;
          alias = alias.1;
        },
        rw (p0, p1, p2, p3),
        (f0, (tt, (f1, (tt, (f2, (tt, f3)))))),
        rw (q0, q2, q3) (cc),
      )

  pub record IsWirePeer (p : PeerInfo) : Type 0 where
    pub public_key : IsKeyText sigs 32 p.public_key
    pub endpoint : IsWireText endpoint_len p.endpoint
    pub relay_rk : OnSome (IsKeyText sigs 32) p.relay_rk
    pub alias : OnSome (IsWireText name_len) p.alias
    pub ip : OnSome (IsWireText ip_len) p.ip

  peer-Carries :
      (p : PeerInfo)
      → IsWirePeer p
      → Carries (fill_peer_info sigs) peer_info_layout.Fits (peer_info_from_wire sigs) p
  unfolding fill_peer_info peer_info_from_wire
  peer-Carries p h =
      let (key, p0, f0, q0) = b64_bytes-Carries sigs 32 p.public_key h.public_key in
      let (endpoint, p1, f1, q1) = set-Carries endpoint_len p.endpoint h.endpoint in
      let (rk, p2, f2, q2) = put_opt_key-Carries sigs 32 p.relay_rk h.relay_rk in
      let (alias, p3, f3, q3) = put_opt_str-Carries name_len p.alias h.alias in
      let (ip, p4, f4, q4) = put_opt_str-Carries ip_len p.ip h.ip in
      (
        record {
          public_key = key;
          endpoint = endpoint;
          has_relay_rk = rk.0;
          relay_rk = rk.1;
          has_alias = alias.0;
          alias = alias.1;
          has_ip = ip.0;
          ip = ip.1;
        },
        rw (p0, p1, p2, p3, p4),
        (f0, (f1, (tt, (f2, (tt, (f3, (tt, f4))))))),
        rw (q1, q3, q4) (cc),
      )

  -- A REGISTER, a QUERY and a NOTIFY can be encoded, and are decoded to what they were, when their
  -- texts are UTF-8 without NUL within the limits and their keys are the base64 of 32 bytes.
  pub requests_round_trip :
      (r : RegisterBody) (q : QueryBody) (n : NotifyBody)
      → IsWireRegister r
      → IsWireQuery q
      → IsWirePeer n.peer
      → ((encode_register sigs r >>= decode_register sigs) ≡ ok r)
        × ((encode_query q >>= decode_query) ≡ ok q)
        × ((encode_notify sigs n >>= decode_notify sigs) ≡ ok n)
  unfolding encode_register decode_register encode_query decode_query encode_notify decode_notify
  requests_round_trip r q n hr hq hn = (
    decode_impl-encode_impl register_layout (fill_register sigs) (register_of_wire sigs) r
        (register-Carries r hr),
    decode_impl-encode_impl query_layout fill_query query_of_wire q (query-Carries q hq),
    decode_impl-encode_impl peer_info_layout (λ b. fill_peer_info sigs b.peer)
        (λ w. peer_info_from_wire sigs w >>= λ peer. ok (record { peer = peer })) n
        (let (w, p, f, back) = peer-Carries n.peer hn in (w, p, f, rw back)),
  )
