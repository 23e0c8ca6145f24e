-- ===== src/Shared/Wire.antt =====
-- linkmesh-shared/src/wire.rs: the bodies of messages as structures of fixed size. Here the limits,
-- the text buffers, the keys, and the coding of one structure.
pub mod Layouts
pub mod Texts
pub mod Strict
pub mod Certs
pub mod Requests
pub mod Handshake
pub mod Responses
use link_mesh.Base.{
  ℕ, zero, suc, ◌-◌, Option, none, some, List, [], ◌∷◌, ◌++◌, Bytes, Text, Bool, true, false,
  length, replicate, any, ltb, leb, eqb, not, ◌&&◌, if◌then◌else◌, Result, ok, err, ◌>>=◌, ◌>>◌,
  guard, ok_or,
}
use link_mesh.Shared.Cert.{Signatures}
use link_mesh.Shared.Wire.Layouts.{Layout}

abbrev pub ip_len : ℕ
ip_len = 48

abbrev pub endpoint_len : ℕ
endpoint_len = 64

abbrev pub name_len : ℕ
name_len = 64

abbrev pub token_len : ℕ
token_len = 64

abbrev pub code_len : ℕ
code_len = 64

abbrev pub err_len : ℕ
err_len = 256

abbrev pub max_crl_entries : ℕ
max_crl_entries = 256

pub data WireError : Type 0 where
  nul_byte too_long bad_utf8 bad_base64 bad_length wrong_size trailing bad_reason too_many_entries
        empty_response unknown_kind :
      WireError

-- What `std::str::from_utf8` accepts, after the table of the Unicode standard: the number of bytes
-- that follow a first byte, and the range of the next one.
abbrev pub utf8_lead : ℕ → Option (ℕ × ℕ × ℕ)
utf8_lead b =
    if ltb b 0x80
    then some (0, 0, 0)
    else if ltb b 0xc2
    then none
    else if ltb b 0xe0
    then some (1, 0x80, 0xbf)
    else if eqb b 0xe0
    then some (2, 0xa0, 0xbf)
    else if eqb b 0xed
    then some (2, 0x80, 0x9f)
    else if ltb b 0xf0
    then some (2, 0x80, 0xbf)
    else if eqb b 0xf0
    then some (3, 0x90, 0xbf)
    else if ltb b 0xf4
    then some (3, 0x80, 0xbf)
    else if eqb b 0xf4
    then some (3, 0x80, 0x8f)
    else none

-- `need` more bytes belong to the character, the next one from `lo` to `hi`.
unfoldable pub utf8_run : ℕ → ℕ → ℕ → Bytes → Bool
utf8_run zero lo hi [] = true
utf8_run (suc need) lo hi [] = false
utf8_run zero lo hi (b ∷ s) = elim (utf8_lead b) [
  | none ↦ false
  | some (need', lo', hi') ↦ utf8_run need' lo' hi' s
]
utf8_run (suc need) lo hi (b ∷ s) =
    let rest = utf8_run need 0x80 0xbf s in leb lo b && leb b hi && rest

unfoldable pub is_utf8 : Bytes → Bool
unfolding utf8_run
is_utf8 s = utf8_run 0 0 0 s

-- `WireStr::set`: the buffer of `n` bytes.
unfoldable pub set : ℕ → Text → Result WireError Bytes
set n s = do
  guard (not (any (λ b. eqb b 0) s)) nul_byte
  guard (not (ltb n (length s))) too_long
  ok (s ++ replicate (n - length s) 0)

-- The bytes before the first NUL.
abbrev pub until_nul : Bytes → Bytes
until_nul [] = []
until_nul (b ∷ s) = let rest = until_nul s in if eqb b 0 then [] else b ∷ rest

-- `WireStr::to_str`
unfoldable pub to_str : Bytes → Result WireError Text
unfolding is_utf8
to_str buf = do guard (is_utf8 (until_nul buf)) bad_utf8; ok (until_nul buf)

-- `put_opt_str`: the flag, and the buffer, which stays zero where there is no text.
unfoldable pub put_opt_str : ℕ → Option Text → Result WireError (ℕ × Bytes)
unfolding set
put_opt_str n none = ok (0, replicate n 0)
put_opt_str n (some v) = do buf ← set n v; ok (1, buf)

-- `if w.has_x == 1 { Some(w.x.to_string()?) }`
unfoldable pub get_opt_str : ℕ → Bytes → Result WireError (Option Text)
unfolding to_str
get_opt_str flag buf =
    let present : Result WireError (Option Text) = to_str buf >>= λ s. ok (some s) in
    if eqb flag 1 then present else ok none

-- `b64_key`, `b64_sig`, `b64_12` and `b64_sig_to_16`, for `n` of 32, 64, 12 and 16.
unfoldable pub b64_bytes : Signatures → ℕ → Text → Result WireError Bytes
b64_bytes sigs n s = do
  b ← ok_or (sigs.decode (sigs.trim s)) bad_base64
  guard (eqb (length b) n) bad_length
  ok b

-- `if let Some(k) = k { w.has_k = 1; w.k = b64_key(k)? }`
unfoldable pub put_opt_key : Signatures → ℕ → Option Text → Result WireError (ℕ × Bytes)
unfolding b64_bytes
put_opt_key sigs n none = ok (0, replicate n 0)
put_opt_key sigs n (some s) = do b ← b64_bytes sigs n s; ok (1, b)

-- `if w.has_k == 1 { Some(key_b64(&w.k)) } else { None }`
abbrev pub get_opt_key : Signatures → ℕ → Bytes → Option Text
get_opt_key sigs flag b = if eqb flag 1 then some (sigs.encode b) else none

-- `encode_impl`: the bytes of the structure that was filled.
unfoldable pub encode_impl : {W : Type 0} → Layout W → Result WireError W → Result WireError Bytes
encode_impl l filled = do w ← filled; ok (l.write w)

-- `decode_impl`: a structure from bytes of its exact size.
unfoldable pub decode_impl : {W : Type 0} → Layout W → Bytes → Result WireError W
decode_impl l bytes = do
  guard (not (ltb (length bytes) l.size)) wrong_size
  guard (not (ltb l.size (length bytes))) trailing
  ok (l.read bytes)
