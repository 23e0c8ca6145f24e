-- ===== src/Shared/Protocol/Batch.antt =====
-- `frame_relay_batch` and `parse_relay_batch` of linkmesh-shared/src/protocol.rs undo each other.
use link_mesh.Base.{
  ℕ, zero, suc, ◌+◌, ◌≤◌, ◌<◌, ◌≡◌, refl, sym, ◌∙◌, ap, List, [], ◌∷◌, ◌++◌, append-nil,
  append_assoc, Bytes, arith, length, length-append, take, drop, take-append, drop-append,
  take-append_of, drop-append_of, ok, le→ltb_false, All, All-drop, length-take, take-append-drop,
  ◌/◌, ◌%◌, ok-injective, ◌*◌, leb, ltb, false,
}
use link_mesh.Base.Endian.{be_bytes, from_be}
use link_mesh.Shared.Crypto.{RawKey}
use link_mesh.Shared.Protocol.{
  header_len, max_subframes, clamp_u16, subframe_bytes, frame_relay_batch, split_subframes,
  parse_relay_batch,
}

-- A subframe whose length fits the length field.
abbrev pub Fits : Bytes → Type 0
Fits sf = length sf < 65536

-- One round of the loop takes one subframe.
split_step :
    (fuel : ℕ) (sf tail : Bytes) (subframes : List Bytes)
    → Fits sf
    → length subframes < max_subframes
    → split_subframes (suc fuel) (be_bytes 2 (clamp_u16 (length sf)) ++ (sf ++ tail)) subframes
      ≡ split_subframes fuel tail (subframes ++ sf ∷ [])
unfolding split_subframes
split_step fuel sf tail subframes fits few =
    let n : clamp_u16 (length sf) ≡ length sf = ground arith in
    let len : from_be (be_bytes 2 (length sf)) ≡ length sf = omega arith in
    let room : leb max_subframes (length subframes) ≡ false = ground arith in
    let head : ltb (suc (suc (length (sf ++ tail)))) 2 ≡ false = le→ltb_false _ _ (omega arith) in
    let body : ltb (length (sf ++ tail)) (length sf) ≡ false =
      le→ltb_false _ _ (omega (arith, length-append sf tail)) in
    rw (n, room, len, head, body, take-append sf tail, drop-append sf tail)

split-subframe_bytes :
    (new : List Bytes) (fuel : ℕ) (subframes : List Bytes)
    → All Fits new
    → length subframes + length new ≤ max_subframes
    → length (subframe_bytes new) ≤ fuel
    → split_subframes fuel (subframe_bytes new) subframes ≡ ok (subframes ++ new)
split-subframe_bytes [] fuel subframes fits few enough = unfold split_subframes in rw append-nil
split-subframe_bytes (sf ∷ rest) zero subframes fits few enough = absurd (omega arith)
split-subframe_bytes (sf ∷ rest) (suc fuel) subframes fits few enough =
    split_step fuel sf (subframe_bytes rest) subframes fits.0 (omega arith)
    ∙ split-subframe_bytes rest fuel (subframes ++ sf ∷ []) fits.1
        (omega (arith, length-append subframes (sf ∷ [])))
        (omega (arith, length-append sf (subframe_bytes rest)))
    ∙ ap ok (append_assoc subframes (sf ∷ []) rest)

-- `parse_relay_batch` returns the destination and the subframes that `frame_relay_batch` was
-- given, when the destination has 32 bytes, there are at most 1024 subframes and each is shorter
-- than 65536 bytes.
pub parse_relay_batch-frame_relay_batch :
    (dest : RawKey) (subframes : List Bytes)
    → length dest ≡ 32
    → length subframes ≤ max_subframes
    → All Fits subframes
    → parse_relay_batch (frame_relay_batch dest subframes) ≡ ok (dest, subframes)
unfolding parse_relay_batch frame_relay_batch
parse_relay_batch-frame_relay_batch dest subframes h few fits =
    let body = subframe_bytes subframes in
    rw (
      le→ltb_false (suc (suc (suc (suc (length (dest ++ body)))))) 36
          (omega (arith, length-append dest body)),
      drop-append_of 32 dest body h,
      take-append_of 32 dest body h,
      split-subframe_bytes subframes (length body) [] fits (omega arith) (omega arith),
    )

-- Two bytes that hold the length of what follows are its length field.
one_encoded :
    (b c : ℕ) (sf rest cur : Bytes)
    → b < 256
    → c < 256
    → length sf ≡ (0 * 256 + b) * 256 + c
    → sf ++ rest ≡ cur
    → ◌≡◌ {A = Bytes} (b ∷ c ∷ cur) (be_bytes 2 (clamp_u16 (length sf)) ++ (sf ++ rest))
one_encoded b c sf rest cur hb hc size e =
    let n : clamp_u16 (length sf) ≡ length sf = ground arith in
    let high : length sf / 256 % 256 ≡ b = omega arith in
    let low : length sf % 256 ≡ c = omega arith in rw (n, high, low, e)

-- What a round of an accepted run passed, and the run that follows it.
round_taken :
    (fuel b c : ℕ) (cur : Bytes) (subframes out : List Bytes)
    → split_subframes (suc fuel) (b ∷ c ∷ cur) subframes ≡ ok out
    → (length subframes < max_subframes)
      × (from_be (b ∷ c ∷ []) ≤ length cur)
      × (split_subframes fuel
            (drop (from_be (b ∷ c ∷ [])) cur)
            (subframes ++ take (from_be (b ∷ c ∷ [])) cur ∷ [])
          ≡ ok out)
unfolding split_subframes
round_taken fuel b c cur subframes out e = (ground arith, ground arith, ground arith)

-- The loop accepts only encodings: what it adds to the list encodes to what it read.
split_sound :
    (fuel : ℕ) (cur : Bytes) (subframes out : List Bytes)
    → All (λ b. b < 256) cur
    → length subframes ≤ max_subframes
    → split_subframes fuel cur subframes ≡ ok out
    → (new : List Bytes) × (out ≡ subframes ++ new)
      × (cur ≡ subframe_bytes new)
      × All Fits new
      × (length out ≤ max_subframes)
unfolding split_subframes
split_sound fuel [] subframes out bytes few e =
    let same = ok-injective e in ([], sym (append-nil subframes ∙ same), refl, tt, rw (← same) few)
split_sound zero (b ∷ cur) subframes out bytes few e = cc
split_sound (suc fuel) (b ∷ []) subframes out bytes few e = ground arith
split_sound (suc fuel) (b ∷ c ∷ cur) subframes out bytes few e =
    let len : ℕ = (0 * 256 + b) * 256 + c in
    let (room, whole, e') = round_taken fuel b c cur subframes out e in
    let (new, eq, body, fits, bound) =
      split_sound fuel (drop len cur) (subframes ++ take len cur ∷ []) out
        (All-drop (λ x. x < 256) len cur bytes.1.1)
        (omega (arith, length-append subframes (take len cur ∷ []))) e' in
    let size : length (take len cur) ≡ len = omega (arith, length-take len cur) in
    (
      take len cur ∷ new,
      eq ∙ append_assoc subframes (take len cur ∷ []) new,
      one_encoded b c (take len cur) (subframe_bytes new) cur bytes.0 bytes.1.0 size
          (rw (← body) (take-append-drop len cur)),
      (omega arith, fits),
      bound,
    )

-- A packet of bytes that `parse_relay_batch` accepts carries at most 1024 subframes, each shorter
-- than 65536 bytes, and behind its header their encoding and nothing else.
pub parse_relay_batch_sound :
    (packet : Bytes) (dest : RawKey) (subframes : List Bytes)
    → All (λ b. b < 256) packet
    → parse_relay_batch packet ≡ ok (dest, subframes)
    → (drop header_len packet ≡ subframe_bytes subframes)
      × All Fits subframes
      × (length subframes ≤ max_subframes)
unfolding parse_relay_batch
parse_relay_batch_sound packet dest subframes bytes e =
    let body = drop header_len packet in
    let accepted : split_subframes (length body) body [] ≡ ok subframes = ground arith in
    let (new, eq, encoded, fits, few) =
      split_sound (length body) body [] subframes (All-drop (λ x. x < 256) header_len packet bytes)
        (omega arith) accepted in
    rw eq (encoded, fits, rw eq at few)
