-- ===== src/Shared/Protocol/Frames.antt =====
-- Round trips of the signaling and relay headers of linkmesh-shared/src/protocol.rs.
use link_mesh.Base.{
  ℕ, ◌≡◌, Bytes, ◌∷◌, ◌++◌, arith, length, length-append, take-append_of, drop-append_of,
  drop-append_more, ok, le→ltb_false,
}
use link_mesh.Shared.Protocol.{
  version, msg_relay, msg_relay_rk, frame_signaling, parse_header, frame_relay, frame_relay_rk,
  parse_relay,
}

-- `parse_header` reads the type and the sender of a frame that `frame_signaling` built around a
-- key of 32 bytes, with the protocol's version.
pub parse_header-frame_signaling :
    (msg_type : ℕ) (key ciphertext : Bytes)
    → length key ≡ 32
    → parse_header (frame_signaling msg_type key ciphertext)
      ≡ ok (record { version = version; msg_type = msg_type; sender_public_key = key })
unfolding parse_header frame_signaling
parse_header-frame_signaling msg_type key ciphertext h = rw (
  le→ltb_false (length (b'L' ∷ b'M' ∷ version ∷ msg_type ∷ key ++ ciphertext)) 36
      (omega (arith, length-append key ciphertext)),
  take-append_of 32 key ciphertext h,
)

-- `parse_relay` on any frame with the magic bytes and a whole relay header.
parse_relay-header :
    (v msg_type : ℕ) (dest src ciphertext : Bytes)
    → length dest ≡ 32
    → length src ≡ 32
    → parse_relay (b'L' ∷ b'M' ∷ v ∷ msg_type ∷ dest ++ (src ++ ciphertext))
      ≡ ok (dest, src, ciphertext)
unfolding parse_relay
parse_relay-header v msg_type dest src ciphertext hd hs = rw (
  le→ltb_false (length (b'L' ∷ b'M' ∷ v ∷ msg_type ∷ dest ++ (src ++ ciphertext))) 68
      (omega (arith, length-append dest (src ++ ciphertext), length-append src ciphertext)),
  take-append_of 32 dest (src ++ ciphertext) hd,
  drop-append_of 32 dest (src ++ ciphertext) hd,
  drop-append_more 32 32 dest (src ++ ciphertext) hd,
  take-append_of 32 src ciphertext hs,
  drop-append_of 32 src ciphertext hs,
)

-- `parse_relay` reads the destination, the source and the ciphertext of what `frame_relay` and
-- `frame_relay_rk` built around keys of 32 bytes, and `parse_header` tells the two formats apart
-- and shows the destination in the place of a sender.
pub parse_relay-frame_relay :
    (dest src ciphertext : Bytes)
    → length dest ≡ 32
    → length src ≡ 32
    → (parse_relay (frame_relay dest src ciphertext) ≡ ok (dest, src, ciphertext))
      × (parse_relay (frame_relay_rk dest src ciphertext) ≡ ok (dest, src, ciphertext))
      × (parse_header (frame_relay dest src ciphertext)
          ≡ ok (record { version = version; msg_type = msg_relay; sender_public_key = dest }))
      × (parse_header (frame_relay_rk dest src ciphertext)
          ≡ ok (record { version = version; msg_type = msg_relay_rk; sender_public_key = dest }))
unfolding frame_relay frame_relay_rk
parse_relay-frame_relay dest src ciphertext hd hs = (
  parse_relay-header version msg_relay dest src ciphertext hd hs,
  parse_relay-header version msg_relay_rk dest src ciphertext hd hs,
  unfold frame_signaling in parse_header-frame_signaling msg_relay dest (src ++ ciphertext) hd,
  unfold frame_signaling in parse_header-frame_signaling msg_relay_rk dest (src ++ ciphertext) hd,
)
