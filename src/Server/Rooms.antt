-- ===== src/Server/Rooms.antt =====
-- Rooms and aliases: linkmesh-server/src/config.rs and `resolve_room` of signaling.rs.
use link_mesh.Base.{
  ℕ, Option, none, some, List, [], ◌∷◌, Text, Bool, length, ltb, leb, eqb, any, find, retain, not,
  ◌&&◌, ◌||◌, if◌then◌else◌, ◌==◌, bytes_eq, Result, ok, err, ◌>>=◌, ◌>>◌, guard,
}
use link_mesh.Server.Library.{Library}

pub record RoomEntry : Type 0 where
  pub name : Text
  pub token_hash : Text

pub data RoomError : Type 0 where
  no_token bad_token short_token empty_alias long_alias bad_alias : RoomError

abbrev pub default_room : Text
default_room = b'd' ∷ b'e' ∷ b'f' ∷ b'a' ∷ b'u' ∷ b'l' ∷ b't' ∷ []

abbrev pub is_blank : Library → Text → Bool
is_blank lib t = eqb (length (lib.trim t)) 0

-- The room of a token. `hash_token`, which trims its argument, is SHA-256 of the crate sha2.
unfoldable pub resolve_room :
    Library → (Text → Text) → List RoomEntry → Option Text → Result RoomError Text
resolve_room lib hash_token [] token = ok default_room
resolve_room lib hash_token (r ∷ rooms) none = err no_token
resolve_room lib hash_token (r ∷ rooms) (some t) =
    if is_blank lib t
    then err no_token
    else elim (find (λ x. x.token_hash == hash_token (lib.trim t)) (r ∷ rooms)) [
      | none ↦ err bad_token
      | some x ↦ ok x.name
    ]

-- `[a-z0-9_-]`
abbrev pub is_alias_char : ℕ → Bool
is_alias_char c =
    (leb b'a' c && leb c b'z') || (leb b'0' c && leb c b'9') || eqb c b'-' || eqb c b'_'

-- A text outside of ASCII has a byte of 128 or more, which is no character of an alias.
unfoldable pub validate_alias : Library → Text → Result RoomError Text
validate_alias lib raw =
    let name = lib.to_lowercase (lib.trim raw) in
    if eqb (length name) 0
    then err empty_alias
    else if ltb 32 (length name)
    then err long_alias
    else if any (λ c. not (is_alias_char c)) name
    then err bad_alias
    else ok name

unfoldable pub normalize_self_alias : Library → Option Text → Result RoomError (Option Text)
unfolding validate_alias
normalize_self_alias lib none = ok none
normalize_self_alias lib (some a) =
    if is_blank lib a then ok none else (validate_alias lib a >>= λ name. ok (some name))

abbrev pub set_token : Text → Text → List RoomEntry → List RoomEntry
set_token name hash [] = record { name = name; token_hash = hash } ∷ []
set_token name hash (r ∷ rooms) =
    let rest = set_token name hash rooms in
    if r.name == name then record r { token_hash = hash } ∷ rooms else r ∷ rest

unfoldable pub add_room :
    Library → (Text → Text) → Text → Text → List RoomEntry → Result RoomError (List RoomEntry)
unfolding validate_alias
add_room lib hash_token name token rooms = do
  name' ← validate_alias lib name
  guard (not (ltb (length (lib.trim token)) 6)) short_token
  ok (set_token name' (hash_token token) rooms)

unfoldable pub remove_room : Text → List RoomEntry → List RoomEntry × Bool
remove_room name rooms =
    let rooms' = retain (λ r. not (r.name == name)) rooms in
    (rooms', not (eqb (length rooms') (length rooms)))
