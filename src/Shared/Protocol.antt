-- ===== src/Shared/Protocol.antt =====
-- linkmesh-shared/src/protocol.rs: the headers of signaling, relay and batch frames.
pub mod Frames
pub mod Batch
use link_mesh.Base.{
  ℕ, zero, suc, List, [], ◌∷◌, ◌++◌, Bytes, length, take, drop, ltb, leb, ◌==◌, bytes_eq, not,
  if◌then◌else◌, Option, none, some, Result, ok, err, ◌>>=◌, get_elem?,
}
use link_mesh.Base.Endian.{be_bytes, from_be}
use link_mesh.Shared.Crypto.{RawKey}

abbrev pub magic : Bytes
magic = b'L' ∷ b'M' ∷ []

abbrev pub version : ℕ
version = 2

abbrev pub header_len : ℕ
header_len = 36

abbrev pub relay_header_len : ℕ
relay_header_len = 68

abbrev pub msg_register : ℕ
msg_register = 0x01

abbrev pub msg_query : ℕ
msg_query = 0x02

abbrev pub msg_response : ℕ
msg_response = 0x03

abbrev pub msg_notify : ℕ
msg_notify = 0x04

abbrev pub msg_bye : ℕ
msg_bye = 0x05

abbrev pub msg_relay : ℕ
msg_relay = 0x06

abbrev pub msg_heartbeat : ℕ
msg_heartbeat = 0x07

abbrev pub msg_keyquery : ℕ
msg_keyquery = 0x08

abbrev pub msg_relay_batch : ℕ
msg_relay_batch = 0x0A

abbrev pub msg_serverinfo : ℕ
msg_serverinfo = 0x0B

abbrev pub msg_join : ℕ
msg_join = 0x0C

abbrev pub msg_auth : ℕ
msg_auth = 0x0D

abbrev pub msg_auth_resp : ℕ
msg_auth_resp = 0x0E

abbrev pub msg_relay_rk : ℕ
msg_relay_rk = 0x14

pub record PacketHeader : Type 0 where
  pub version : ℕ
  pub msg_type : ℕ
  pub sender_public_key : RawKey

pub data FrameError : Type 0 where
  too_short bad_magic too_many_subframes no_length length_out_of_range : FrameError

-- `packet[i]`, where the length was tested before.
abbrev pub byte_at : Bytes → ℕ → ℕ
byte_at packet i = elim (get_elem? packet i) [ none ↦ 0 | some b ↦ b ]

unfoldable pub frame_signaling : ℕ → RawKey → Bytes → Bytes
frame_signaling msg_type sender_public_key ciphertext =
    b'L' ∷ b'M' ∷ version ∷ msg_type ∷ sender_public_key ++ ciphertext

unfoldable pub parse_header : Bytes → Result FrameError PacketHeader
parse_header packet =
    if ltb (length packet) header_len
    then err too_short
    else if not (take 2 packet == magic)
    then err bad_magic
    else ok (record {
      version = byte_at packet 2;
      msg_type = byte_at packet 3;
      sender_public_key = take 32 (drop 4 packet);
    })

unfoldable pub frame_relay : RawKey → RawKey → Bytes → Bytes
frame_relay dest_public_key src_public_key ciphertext =
    b'L' ∷ b'M' ∷ version ∷ msg_relay ∷ dest_public_key ++ (src_public_key ++ ciphertext)

unfoldable pub frame_relay_rk : RawKey → RawKey → Bytes → Bytes
frame_relay_rk dest_rk src_rk ciphertext =
    b'L' ∷ b'M' ∷ version ∷ msg_relay_rk ∷ dest_rk ++ (src_rk ++ ciphertext)

unfoldable pub parse_relay : Bytes → Result FrameError (RawKey × RawKey × Bytes)
parse_relay packet =
    if ltb (length packet) relay_header_len
    then err too_short
    else if not (take 2 packet == magic)
    then err bad_magic
    else ok (take 32 (drop 4 packet), take 32 (drop 36 packet), drop relay_header_len packet)

-- `u16::try_from(len).unwrap_or(u16::MAX)`
abbrev pub clamp_u16 : ℕ → ℕ
clamp_u16 n = if ltb n 65536 then n else 65535

abbrev pub subframe_bytes : List Bytes → Bytes
subframe_bytes [] = []
subframe_bytes (sf ∷ rest) = be_bytes 2 (clamp_u16 (length sf)) ++ (sf ++ subframe_bytes rest)

unfoldable pub frame_relay_batch : RawKey → List Bytes → Bytes
frame_relay_batch dest_public_key subframes =
    b'L' ∷ b'M' ∷ version ∷ msg_relay_batch ∷ dest_public_key ++ subframe_bytes subframes

abbrev pub max_subframes : ℕ
max_subframes = 1024

-- The `while` loop. Each round takes two bytes at least, so `length cur` rounds are enough.
unfoldable pub split_subframes : ℕ → Bytes → List Bytes → Result FrameError (List Bytes)
split_subframes fuel [] subframes = ok subframes
split_subframes zero (b ∷ cur) subframes = err no_length
split_subframes (suc fuel) (b ∷ cur) subframes =
    let len = from_be (take 2 (b ∷ cur)) in
    let body = drop 2 (b ∷ cur) in
    let rest = split_subframes fuel (drop len body) (subframes ++ take len body ∷ []) in
    if leb max_subframes (length subframes)
    then err too_many_subframes
    else if ltb (length (b ∷ cur)) 2
    then err no_length
    else if ltb (length body) len
    then err length_out_of_range
    else rest

unfoldable pub parse_relay_batch : Bytes → Result FrameError (RawKey × List Bytes)
parse_relay_batch packet =
    if ltb (length packet) header_len
    then err too_short
    else if not (take 2 packet == magic)
    then err bad_magic
    else do
      let body = drop header_len packet
      subframes ← split_subframes (length body) body []
      ok (take 32 (drop 4 packet), subframes)
