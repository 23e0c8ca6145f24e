-- ===== src/Server/Routes.antt =====
-- `RouteTable` of linkmesh-server/src/signaling.rs: the registered devices by their key, with an
-- index by virtual address and one by routing key.
pub mod Index
pub mod Agree
pub mod Expiry
pub mod RoutingKeys
use link_mesh.Base.{
  ℕ, ◌-◌, Option, none, some, List, [], ◌∷◌, Bytes, Text, Bool, true, false, length, ltb, eqb, not,
  if◌then◌else◌, ◌==◌, bytes_eq, map, retain,
}
use link_mesh.Base.Maps
use link_mesh.Base.Maps.{Map, keys_where, get, insert}
use link_mesh.Shared.Crypto.{RawKey}

-- The text of a socket address.
abbrev pub Endpoint : Type 0
Endpoint = Text

pub record RouteEntry : Type 0 where
  pub public_key : RawKey
  pub ip : Text
  pub endpoint : Endpoint
  pub last_seen : ℕ
  pub relay_rk : Option Text
  pub room : Text
  pub alias : Option Text

pub record RouteTable : Type 0 where
  pub by_key : Map RawKey RouteEntry
  pub by_ip : Map Text RawKey
  pub by_rk : Map Text RawKey

abbrev pub empty : RouteTable
empty = record { by_key = []; by_ip = []; by_rk = [] }

abbrev pub is_empty_text : Text → Bool
is_empty_text t = eqb (length t) 0

-- What `upsert` takes out for the entry that the key had before.
unfoldable pub release_old : RouteEntry → RouteTable → RouteTable
release_old entry t = elim (get t.by_key entry.public_key) [
  | none ↦ t
  | some old ↦ record t {
    by_ip = if not (old.ip == entry.ip) then Maps.remove t.by_ip old.ip else t.by_ip;
    by_rk = elim old.relay_rk [ none ↦ t.by_rk | some old_rk ↦ Maps.remove t.by_rk old_rk ];
  }
]

-- The address goes to the key; the entry of another key that had it goes.
unfoldable pub take_ip : RouteEntry → RouteTable → RouteTable
take_ip entry t =
    if is_empty_text entry.ip
    then elim (get t.by_key entry.public_key) [
      | none ↦ t
      | some old ↦ record t { by_ip = Maps.remove t.by_ip old.ip }
    ]
    else elim (get t.by_ip entry.ip) [
      | none ↦ record t { by_ip = insert t.by_ip entry.ip entry.public_key }
      | some old_key ↦ record t {
        by_ip = insert t.by_ip entry.ip entry.public_key;
        by_key =
            if not (old_key == entry.public_key) then Maps.remove t.by_key old_key else t.by_key;
      }
    ]

-- A routing key that another key holds is not taken over.
unfoldable pub take_rk : RouteEntry → RouteTable → RouteTable
take_rk entry t = elim entry.relay_rk [
  | none ↦ t
  | some rk ↦ elim (get t.by_rk rk) [
    | none ↦ record t { by_rk = insert t.by_rk rk entry.public_key }
    | some existing ↦
        if not (existing == entry.public_key)
        then t
        else record t { by_rk = insert t.by_rk rk entry.public_key }
  ]
]

unfoldable pub upsert : RouteEntry → RouteTable → RouteTable
unfolding release_old take_ip take_rk
upsert entry t =
    let t' = take_rk entry (take_ip entry (release_old entry t)) in
    record t' { by_key = insert t'.by_key entry.public_key entry }

abbrev pub lookup : Map RawKey RouteEntry → Option RawKey → Option RouteEntry
lookup m none = none
lookup m (some k) = get m k

unfoldable pub get_by_ip : RouteTable → Text → Option RouteEntry
get_by_ip t ip = lookup t.by_key (get t.by_ip ip)

unfoldable pub get_by_rk : RouteTable → Text → Option RouteEntry
get_by_rk t rk = lookup t.by_key (get t.by_rk rk)

unfoldable pub remove : RouteTable → RawKey → RouteTable
remove t key = elim (get t.by_key key) [
  | none ↦ t
  | some e ↦ record {
    by_key = Maps.remove t.by_key key;
    by_ip = Maps.remove t.by_ip e.ip;
    by_rk = elim e.relay_rk [ none ↦ t.by_rk | some rk ↦ Maps.remove t.by_rk rk ];
  }
]

abbrev pub is_expired : ℕ → ℕ → RouteEntry → Bool
is_expired now ttl_sec e = ltb ttl_sec (now - e.last_seen)

abbrev pub remove_all : List RawKey → RouteTable → RouteTable
remove_all [] t = t
remove_all (k ∷ ks) t = remove_all ks (remove t k)

-- The keys of the entries that no heartbeat renewed.
abbrev pub expired_keys : ℕ → ℕ → Map RawKey RouteEntry → List RawKey
expired_keys now ttl_sec m = keys_where (is_expired now ttl_sec) m

unfoldable pub cleanup : ℕ → ℕ → RouteTable → RouteTable
cleanup now ttl_sec t = remove_all (expired_keys now ttl_sec t.by_key) t
