-- ===== src/Client/Dns/Answers.antt =====
-- The answers of linkmesh-client/src/dns.rs.
use link_mesh.Base.{
  ℕ, ◌≡◌, ◌∙◌, ◌<◌, ◌-◌, refl, Option, none, some, List, Bytes, Text, Bool, true, false, arith, ltb,
  leb, inl, inr, Bool-cases, eq_refl, bytes_eq, length, take, drop,
}
use link_mesh.Base.Endian.{from_be}
use link_mesh.Base.Maps.{get, insert, get-insert}
use link_mesh.Client.Dns.{
  NameTexts, NameResolver, DnsRegistry, cache_ttl, is_empty_name, ask, fresh_in, resolve,
  parse_query, build_response,
}

-- A packet in the direction of answers.
parse_query-answer :
    (texts : NameTexts) (pkt : Bytes)
    → leb 0x8000 (from_be (take 2 (drop 2 pkt))) ≡ true
    → parse_query texts pkt ≡ none
unfolding parse_query
parse_query-answer texts pkt h = elim (Bool-cases (ltb (length pkt) 12)) [
  | inl short ↦ rw (parse_query, short) refl
  | inr long ↦ rw (parse_query, long, h) refl
]

-- No answer is taken for a query, whatever its fields are: two responders never answer each other.
pub answer_is_no_query :
    (texts : NameTexts) (txid : ℕ) (qname : Text) (qtype : ℕ) (ip : Option Bytes) (nxdomain : Bool)
    → parse_query texts (build_response txid qname qtype ip nxdomain) ≡ none
unfolding build_response
answer_is_no_query texts txid qname qtype ip true =
    parse_query-answer texts (build_response txid qname qtype ip true) refl
answer_is_no_query texts txid qname qtype ip false =
    parse_query-answer texts (build_response txid qname qtype ip false) refl

-- When a name is resolved by asking, it is resolved to the same address for the next minute, with
-- whatever resolvers are left, and none is asked.
pub resolve-resolve :
    (texts : NameTexts) (now later : ℕ) (name ip : Text) (r : DnsRegistry)
    (left : List (ℕ × NameResolver))
    → is_empty_name (texts.to_lowercase (texts.trim name)) ≡ false
    → fresh_in now (get r.cache (texts.to_lowercase (texts.trim name))) ≡ none
    → ask r.resolvers (texts.to_lowercase (texts.trim name)) ≡ some ip
    → later - now < cache_ttl
    → ((resolve texts now name r).1 ≡ some ip)
      × ((resolve texts later name (record (resolve texts now name r).0 { resolvers = left })).1
          ≡ some ip)
unfolding resolve
resolve-resolve texts now later name ip r left full stale asked soon =
    let key = texts.to_lowercase (texts.trim name) in
    let kept : get (insert r.cache key (ip, now)) key ≡ some (ip, now) =
      get-insert r.cache key (ip, now) key ∙ rw (eq_refl key) refl in
    let in_time : ltb (later - now) cache_ttl ≡ true = ground (arith, soon) in
    (
      rw (resolve, full, stale, asked) refl,
      rw (resolve, full, stale, asked, resolve, kept, in_time) refl,
    )
