-- ===== src/Client/Dns.antt =====
-- linkmesh-client/src/dns.rs: the responder that answers for the aliases of the mesh.
pub mod Names
pub mod Answers
use link_mesh.Base.{
  ℕ, zero, suc, ◌+◌, ◌-◌, Option, none, some, List, [], ◌∷◌, ◌++◌, Bytes, Text, Bool, true, false,
  length, take, drop, ltb, leb, eqb, not, ◌||◌, if◌then◌else◌, retain, ◌==◌, bytes_eq, nat_eq,
}
use link_mesh.Base.Maps.{Map, get, insert}
use link_mesh.Base.Endian.{be_bytes, from_be}

-- What the module takes from Rust's standard library: `String::from_utf8_lossy`, `to_lowercase`,
-- `trim`, and `parse` of an `Ipv4Addr`, as its four octets.
pub record NameTexts : Type 0 where
  pub lossy : Bytes → Text
  pub to_lowercase : Text → Text
  pub trim : Text → Text
  pub parse_ipv4 : Text → Option Bytes

-- A resolver asks the server of a connection.
abbrev pub NameResolver : Type 0
NameResolver = Text → Option Text

-- Times are seconds.
pub record DnsRegistry : Type 0 where
  pub cache : Map Text (Text × ℕ)
  pub resolvers : List (ℕ × NameResolver)
  pub next_id : ℕ

abbrev pub cache_ttl : ℕ
cache_ttl = 60

abbrev pub is_empty_name : Text → Bool
is_empty_name name = eqb (length name) 0

unfoldable pub insert_name : NameTexts → ℕ → Text → Text → DnsRegistry → DnsRegistry
insert_name texts now name ip r =
    let key = texts.to_lowercase (texts.trim name) in
    elim (texts.parse_ipv4 ip) [
      | none ↦ r
      | some octets ↦
          if is_empty_name key then r else record r { cache = insert r.cache key (ip, now) }
    ]

unfoldable pub register : NameResolver → DnsRegistry → DnsRegistry × ℕ
register resolver r = (
  record r { resolvers = r.resolvers ++ (r.next_id, resolver) ∷ []; next_id = r.next_id + 1 },
  r.next_id,
)

unfoldable pub unregister : ℕ → DnsRegistry → DnsRegistry
unregister id r = record r { resolvers = retain (λ x. not (eqb x.0 id)) r.resolvers }

-- The first resolver that knows the name.
unfoldable pub ask : List (ℕ × NameResolver) → Text → Option Text
ask [] key = none
ask ((id, resolver) ∷ resolvers) key =
    let rest = ask resolvers key in elim (resolver key) [ none ↦ rest | some ip ↦ some ip ]

-- What is in the cache and not too old.
abbrev pub fresh_in : ℕ → Option (Text × ℕ) → Option Text
fresh_in now none = none
fresh_in now (some (ip, at)) = if ltb (now - at) cache_ttl then some ip else none

unfoldable pub resolve : NameTexts → ℕ → Text → DnsRegistry → DnsRegistry × Option Text
unfolding ask
resolve texts now name r =
    let key = texts.to_lowercase (texts.trim name) in
    if is_empty_name key then (r, none) else elim (fresh_in now (get r.cache key)) [
      | some ip ↦ (r, some ip)
      | none ↦ elim (ask r.resolvers key) [
        | none ↦ (r, none)
        | some ip ↦ (record r { cache = insert r.cache key (ip, now) }, some ip)
      ]
    ]

-- The labels of a name up to the root; `rest` are the bytes from `pos` on. Every label takes at
-- least one byte, so that the length of the packet is enough fuel.
unfoldable pub read_name : NameTexts → ℕ → Bytes → Text → Option (Text × Bytes)
read_name texts zero rest name = none
read_name texts (suc fuel) [] name = none
read_name texts (suc fuel) (len ∷ rest) name =
    let dotted = if is_empty_name name then [] else name ++ b'.' ∷ [] in
    let more = read_name texts fuel (drop len rest) (dotted ++ texts.lossy (take len rest)) in
    if eqb len 0
    then some (name, rest)
    else if ltb 63 len || ltb (length rest) len
    then none
    else more

-- `trim_end_matches('.')`
abbrev pub cons_trimmed : ℕ → Text → Text
cons_trimmed c [] = if eqb c b'.' then [] else c ∷ []
cons_trimmed c (d ∷ s) = c ∷ d ∷ s

unfoldable pub trim_dots : Text → Text
trim_dots [] = []
trim_dots (c ∷ s) = cons_trimmed c (trim_dots s)

-- The number of the transaction, the name and the type of a query.
unfoldable pub parse_query : NameTexts → Bytes → Option (ℕ × Text × ℕ)
unfolding read_name trim_dots
parse_query texts pkt =
    if ltb (length pkt) 12
    then none
    else if leb 0x8000 (from_be (take 2 (drop 2 pkt)))
    then none
    else if not (eqb (from_be (take 2 (drop 4 pkt))) 1)
    then none
    else elim (read_name texts (length pkt) (drop 12 pkt) []) [
      | none ↦ none
      | some (name, rest) ↦
          if ltb (length rest) 4
          then none
          else some
              (from_be (take 2 pkt), texts.to_lowercase (trim_dots name), from_be (take 2 rest))
    ]

-- `name.split('.')`
abbrev pub add_to_first : ℕ → List Text → List Text
add_to_first c [] = (c ∷ []) ∷ []
add_to_first c (label ∷ labels) = (c ∷ label) ∷ labels

unfoldable pub split_dots : Text → List Text
split_dots [] = [] ∷ []
split_dots (c ∷ s) = if eqb c b'.' then [] ∷ split_dots s else add_to_first c (split_dots s)

unfoldable pub encode_labels : List Text → Bytes
encode_labels [] = 0 ∷ []
encode_labels (label ∷ labels) =
    let rest = encode_labels labels in
    if is_empty_name label || ltb 63 (length label) then rest else length label ∷ label ++ rest

unfoldable pub encode_name : Text → Bytes
unfolding split_dots encode_labels
encode_name name = encode_labels (split_dots name)

abbrev pub address_record : Option Bytes → Bytes
address_record none = []
address_record (some octets) =
    0xC0 ∷ 0x0C ∷ be_bytes 2 1 ++ (be_bytes 2 1 ++ (be_bytes 4 60 ++ (be_bytes 2 4 ++ octets)))

abbrev pub answer_count : Option Bytes → ℕ
answer_count none = 0
answer_count (some octets) = 1

unfoldable pub build_response : ℕ → Text → ℕ → Option Bytes → Bool → Bytes
unfolding encode_name
build_response txid qname qtype ip nxdomain =
    be_bytes 2 txid
    ++ (be_bytes 2 (if nxdomain then 0x8183 else 0x8180)
        ++ (be_bytes 2 1
            ++ (be_bytes 2 (answer_count ip)
                ++ (0 ∷ 0 ∷ 0 ∷ 0 ∷ encode_name qname
                    ++ (be_bytes 2 qtype ++ (be_bytes 2 1 ++ address_record ip))))))

abbrev pub and_ipv4 : NameTexts → Option Text → Option Bytes
and_ipv4 texts none = none
and_ipv4 texts (some ip) = texts.parse_ipv4 ip

abbrev pub is_none : Option Bytes → Bool
is_none none = true
is_none (some octets) = false

unfoldable pub handle_query : NameTexts → ℕ → Bytes → DnsRegistry → DnsRegistry × Option Bytes
unfolding parse_query resolve build_response
handle_query texts now pkt r = elim (parse_query texts pkt) [
  | none ↦ (r, none)
  | some (txid, name, qtype) ↦
      let (r', found) = resolve texts now name r in
      let ip = and_ipv4 texts found in
      if is_empty_name name
      then (r, none)
      else if not (eqb qtype 1)
      then (r, some (build_response txid name qtype none false))
      else (r', some (build_response txid name qtype ip (is_none ip)))
]
