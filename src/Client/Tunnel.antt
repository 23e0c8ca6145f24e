-- ===== src/Client/Tunnel.antt =====
-- linkmesh-client/src/tunnel.rs: the frames that travel, encrypted, between two peers.
pub mod RoundTrip
use link_mesh.Base.{
  ℕ, ◌/◌, [], ◌∷◌, ◌++◌, Bytes, length, take, drop, ltb, eqb, Option, none, some, if◌then◌else◌,
}
use link_mesh.Base.Endian.{be_bytes, from_be}
use link_mesh.Shared.Protocol.{byte_at}

abbrev pub tunnel_hello : ℕ
tunnel_hello = 0x01

abbrev pub tunnel_data : ℕ
tunnel_data = 0x02

abbrev pub tunnel_rekey : ℕ
tunnel_rekey = 0x03

abbrev pub tunnel_ack : ℕ
tunnel_ack = 0x04

abbrev pub frame_header_len : ℕ
frame_header_len = 13

abbrev pub handshake_extra : ℕ
handshake_extra = 44

unfoldable pub data_nonce : ℕ → ℕ → Bytes
data_nonce epoch seq = be_bytes 4 epoch ++ be_bytes 8 seq

unfoldable pub frame_tunnel_packet : ℕ → ℕ → ℕ → Bytes → Bytes
frame_tunnel_packet pkt_type epoch seq payload =
    pkt_type ∷ be_bytes 4 epoch ++ (be_bytes 8 seq ++ payload)

pub record TunnelPacket : Type 0 where
  pub pkt_type : ℕ
  pub epoch : ℕ
  pub seq : ℕ
  pub payload : Bytes

unfoldable pub parse_tunnel_packet : Bytes → Option TunnelPacket
parse_tunnel_packet pkt =
    if ltb (length pkt) frame_header_len
    then none
    else some (record {
      pkt_type = byte_at pkt 0;
      epoch = from_be (take 4 (drop 1 pkt));
      seq = from_be (take 8 (drop 5 pkt));
      payload = drop frame_header_len pkt;
    })

unfoldable pub ack_payload : ℕ → Bytes
ack_payload ack = be_bytes 8 ack

unfoldable pub parse_ack_payload : Bytes → Option ℕ
parse_ack_payload payload = if ltb (length payload) 8 then none else some (from_be (take 8 payload))

unfoldable pub frame_hello_payload : Bytes → Bytes → Bytes → Bytes
frame_hello_payload rk_pub salt ip = rk_pub ++ (salt ++ ip)

unfoldable pub frame_rekey_payload : Bytes → Bytes → Bytes
frame_rekey_payload new_rk_pub new_salt = new_rk_pub ++ new_salt

-- An address as its octets.
pub data IpAddr : Type 0 where
  v4 : Bytes → IpAddr
  v6 : Bytes → IpAddr

-- `pkt[0] >> 4` is the IP version.
unfoldable pub extract_dst_ip : Bytes → Option IpAddr
extract_dst_ip [] = none
extract_dst_ip (b ∷ rest) =
    if eqb (b / 16) 4
    then (if ltb (length (b ∷ rest)) 20 then none else some (v4 (take 4 (drop 16 (b ∷ rest)))))
    else if eqb (b / 16) 6
    then (if ltb (length (b ∷ rest)) 40 then none else some (v6 (take 16 (drop 24 (b ∷ rest)))))
    else none
