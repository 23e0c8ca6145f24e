-- ===== src/Shared/Wire/Requests.antt =====
-- The requests of linkmesh-shared/src/wire.rs, and the notice of a peer: REGISTER, QUERY
-- and NOTIFY.
pub mod RoundTrip
pub mod Strict
use link_mesh.Base.{ℕ, ◌≡◌, refl, Option, none, some, [], ◌∷◌, Bytes, Text, Result, ok, err, ◌>>=◌}
use link_mesh.Shared.Cert.{Signatures}
use link_mesh.Shared.Bodies.{RegisterBody, QueryBody, PeerInfo, NotifyBody, JoinBody, AuthBody}
use link_mesh.Shared.Wire.Layouts.{Layout, bytes, byte, word, ◌▹◌, struct}
use link_mesh.Shared.Wire.{
  WireError, ip_len, endpoint_len, name_len, token_len, code_len, set, to_str, put_opt_str,
  get_opt_str, b64_bytes, put_opt_key, get_opt_key, encode_impl, decode_impl,
}
use link_mesh.Shared.Wire.Certs.{
  WireDeviceCert, device_cert_layout, cert_from_domain, cert_to_domain,
}

pub record WireRegister : Type 0 where
  pub ip : Bytes
  pub has_relay_rk : ℕ
  pub relay_rk : Bytes
  pub has_token : ℕ
  pub token : Bytes
  pub has_alias : ℕ
  pub alias : Bytes

abbrev pub register_layout : Layout WireRegister
register_layout =
    struct
      (λ w.
        (w.ip, (w.has_relay_rk, (w.relay_rk, (w.has_token, (w.token, (w.has_alias, w.alias)))))))
      (λ (a, (b, (c, (d, (e, (f, g)))))). record {
        ip = a;
        has_relay_rk = b;
        relay_rk = c;
        has_token = d;
        token = e;
        has_alias = f;
        alias = g;
      })
      (λ w. refl) (λ t. refl)
      (bytes ip_len ▹ byte ▹ bytes 32 ▹ byte ▹ bytes token_len ▹ byte ▹ bytes name_len)

module _ (sigs : Signatures) where
  unfoldable pub fill_register : RegisterBody → Result WireError WireRegister
  unfolding set put_opt_str put_opt_key
  fill_register b = do
    ip ← set ip_len b.ip
    relay_rk ← put_opt_key sigs 32 b.relay_rk
    token ← put_opt_str token_len b.token
    alias ← put_opt_str name_len b.alias
    ok (record {
      ip = ip;
      has_relay_rk = relay_rk.0;
      relay_rk = relay_rk.1;
      has_token = token.0;
      token = token.1;
      has_alias = alias.0;
      alias = alias.1;
    })

  unfoldable pub register_of_wire : WireRegister → Result WireError RegisterBody
  unfolding to_str get_opt_str
  register_of_wire w = do
    ip ← to_str w.ip
    token ← get_opt_str w.has_token w.token
    alias ← get_opt_str w.has_alias w.alias
    ok (record {
      ip = ip;
      relay_rk = get_opt_key sigs w.has_relay_rk w.relay_rk;
      token = token;
      alias = alias;
    })

  unfoldable pub encode_register : RegisterBody → Result WireError Bytes
  unfolding fill_register encode_impl
  encode_register b = encode_impl register_layout (fill_register b)

  unfoldable pub decode_register : Bytes → Result WireError RegisterBody
  unfolding register_of_wire decode_impl
  decode_register s = decode_impl register_layout s >>= register_of_wire

pub record WireQuery : Type 0 where
  pub ip : Bytes
  pub has_name : ℕ
  pub name : Bytes

abbrev pub query_layout : Layout WireQuery
query_layout =
    struct (λ w. (w.ip, (w.has_name, w.name)))
      (λ (a, (b, c)). record { ip = a; has_name = b; name = c }) (λ w. refl) (λ t. refl)
      (bytes ip_len ▹ byte ▹ bytes name_len)

unfoldable pub fill_query : QueryBody → Result WireError WireQuery
unfolding set put_opt_str
fill_query b = do
  ip ← set ip_len b.ip
  name ← put_opt_str name_len b.name
  ok (record { ip = ip; has_name = name.0; name = name.1 })

unfoldable pub query_of_wire : WireQuery → Result WireError QueryBody
unfolding to_str get_opt_str
query_of_wire w = do
  ip ← to_str w.ip
  name ← get_opt_str w.has_name w.name
  ok (record { ip = ip; name = name })

unfoldable pub encode_query : QueryBody → Result WireError Bytes
unfolding fill_query encode_impl
encode_query b = encode_impl query_layout (fill_query b)

unfoldable pub decode_query : Bytes → Result WireError QueryBody
unfolding query_of_wire decode_impl
decode_query s = decode_impl query_layout s >>= query_of_wire

pub record WirePeerInfo : Type 0 where
  pub public_key : Bytes
  pub endpoint : Bytes
  pub has_relay_rk : ℕ
  pub relay_rk : Bytes
  pub has_alias : ℕ
  pub alias : Bytes
  pub has_ip : ℕ
  pub ip : Bytes

-- `WireNotify` holds one of these and nothing else.
abbrev pub peer_info_layout : Layout WirePeerInfo
peer_info_layout =
    struct
      (λ w. (
        w.public_key,
        (w.endpoint, (w.has_relay_rk, (w.relay_rk, (w.has_alias, (w.alias, (w.has_ip, w.ip)))))),
      ))
      (λ (a, (b, (c, (d, (e, (f, (g, h))))))). record {
        public_key = a;
        endpoint = b;
        has_relay_rk = c;
        relay_rk = d;
        has_alias = e;
        alias = f;
        has_ip = g;
        ip = h;
      })
      (λ w. refl) (λ t. refl)
      (bytes 32
        ▹ bytes endpoint_len
        ▹ byte
        ▹ bytes 32
        ▹ byte
        ▹ bytes name_len
        ▹ byte
        ▹ bytes ip_len)

module _ (sigs : Signatures) where
  unfoldable pub fill_peer_info : PeerInfo → Result WireError WirePeerInfo
  unfolding set b64_bytes put_opt_str put_opt_key
  fill_peer_info p = do
    public_key ← b64_bytes sigs 32 p.public_key
    endpoint ← set endpoint_len p.endpoint
    relay_rk ← put_opt_key sigs 32 p.relay_rk
    alias ← put_opt_str name_len p.alias
    ip ← put_opt_str ip_len p.ip
    ok (record {
      public_key = public_key;
      endpoint = endpoint;
      has_relay_rk = relay_rk.0;
      relay_rk = relay_rk.1;
      has_alias = alias.0;
      alias = alias.1;
      has_ip = ip.0;
      ip = ip.1;
    })

  unfoldable pub peer_info_from_wire : WirePeerInfo → Result WireError PeerInfo
  unfolding to_str get_opt_str
  peer_info_from_wire p = do
    endpoint ← to_str p.endpoint
    alias ← get_opt_str p.has_alias p.alias
    ip ← get_opt_str p.has_ip p.ip
    ok (record {
      public_key = sigs.encode p.public_key;
      endpoint = endpoint;
      relay_rk = get_opt_key sigs p.has_relay_rk p.relay_rk;
      alias = alias;
      ip = ip;
    })

  unfoldable pub encode_notify : NotifyBody → Result WireError Bytes
  unfolding fill_peer_info encode_impl
  encode_notify b = encode_impl peer_info_layout (fill_peer_info b.peer)

  unfoldable pub decode_notify : Bytes → Result WireError NotifyBody
  unfolding peer_info_from_wire decode_impl
  decode_notify s = do
    w ← decode_impl peer_info_layout s
    peer ← peer_info_from_wire w
    ok (record { peer = peer })
