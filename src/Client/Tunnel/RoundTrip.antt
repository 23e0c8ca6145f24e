-- ===== src/Client/Tunnel/RoundTrip.antt =====
-- Round trips of the frames of linkmesh-client/src/tunnel.rs.
use link_mesh.Base.{ℕ, ◌<◌, ◌^◌, ◌≡◌, Bytes, arith, some, ap}
use link_mesh.Base.Endian.{from_be-be_bytes}
use link_mesh.Client.Tunnel.{
  frame_tunnel_packet, parse_tunnel_packet, ack_payload, parse_ack_payload,
}

-- `parse_tunnel_packet` reads the type, the epoch (below 2^32), the number (below 2^64) and the
-- payload that `frame_tunnel_packet` was given.
pub parse_tunnel_packet-frame_tunnel_packet :
    (pkt_type epoch seq : ℕ) (payload : Bytes)
    → epoch < 2 ^ 32
    → seq < 2 ^ 64
    → parse_tunnel_packet (frame_tunnel_packet pkt_type epoch seq payload)
      ≡ some (record { pkt_type = pkt_type; epoch = epoch; seq = seq; payload = payload })
unfolding parse_tunnel_packet frame_tunnel_packet
parse_tunnel_packet-frame_tunnel_packet pkt_type epoch seq payload he hs =
    ground (arith, from_be-be_bytes 4 epoch he, from_be-be_bytes 8 seq hs)

-- `parse_ack_payload` reads the number below 2^64 that `ack_payload` wrote.
pub parse_ack_payload-ack_payload :
    (ack : ℕ) → ack < 2 ^ 64 → parse_ack_payload (ack_payload ack) ≡ some ack
unfolding parse_ack_payload ack_payload
parse_ack_payload-ack_payload ack h = ap some (from_be-be_bytes 8 ack h)
