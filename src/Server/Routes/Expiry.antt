-- ===== src/Server/Routes/Expiry.antt =====
-- `RouteTable::cleanup` of linkmesh-server/src/signaling.rs, and the operations one after another.
use link_mesh.Base.{
  ℕ, ◌≡◌, refl, ◌∙◌, Option, none, List, [], ◌∷◌, Bool, arith, Option-cases, Bool-cases, inl, inr,
  ◌==◌, bytes_eq, if◌then◌else◌, any,
}
use link_mesh.Base.Maps.{
  get, get-remove, HasOnce, HasOnce-insert, HasOnce-remove, holds_at, any-keys_where,
}
use link_mesh.Shared.Crypto.{RawKey}
use link_mesh.Server.Routes.{
  RouteEntry, RouteTable, empty, is_empty_text, release_old, take_ip, take_rk, upsert, remove,
  remove_all, is_expired, expired_keys, cleanup,
}
use link_mesh.Server.Routes.Index.{IsIndexed, IsIndexed-remove, by_key-release_old, by_key-take_rk}
use link_mesh.Server.Routes.Agree.{IsIndexed-upsert}

-- A table whose indexes agree and that has every key once.
pub record IsSoundTable (t : RouteTable) : Type 0 where
  pub indexed : IsIndexed t
  pub once : HasOnce t.by_key

HasOnce-take_ip :
    (e : RouteEntry) (t : RouteTable) → HasOnce t.by_key → HasOnce (take_ip e t).by_key
unfolding take_ip
HasOnce-take_ip e t h = elim (Bool-cases (is_empty_text e.ip)) [
  | inl no_ip ↦
      rw (no_ip, take_ip)
        (elim (Option-cases (get t.by_key e.public_key)) [
          | inl absent ↦ rw (absent, take_ip) h
          | inr (old, g) ↦ rw (g, take_ip) h
        ])
  | inr has_ip ↦
      rw (has_ip, take_ip)
        (elim (Option-cases (get t.by_ip e.ip)) [
          | inl free ↦ rw (free, take_ip) h
          | inr (k, taken) ↦
              rw (taken, take_ip)
                (elim (Bool-cases (k == e.public_key)) [
                  | inl same ↦ rw same h
                  | inr other ↦ rw other (HasOnce-remove t.by_key k h)
                ])
        ])
]

HasOnce-upsert : (e : RouteEntry) (t : RouteTable) → HasOnce t.by_key → HasOnce (upsert e t).by_key
unfolding upsert
HasOnce-upsert e t h =
    let t1 = release_old e t in
    let h1 : HasOnce t1.by_key = rw (by_key-release_old e t) h in
    HasOnce-insert (take_rk e (take_ip e t1)).by_key e.public_key e
      (rw (by_key-take_rk e (take_ip e t1)) (HasOnce-take_ip e t1 h1))

pub get-by_key-remove :
    (t : RouteTable) (key k : RawKey)
    → get (remove t key).by_key k ≡ (if key == k then none else get t.by_key k)
unfolding remove
get-by_key-remove t key k = elim (Option-cases (get t.by_key key)) [
  | inl absent ↦ rw (absent, remove) (ground (arith, bytes_eq.beq_iff key k))
  | inr (old, e) ↦ rw (e, remove) (get-remove t.by_key key k)
]

HasOnce-table_remove :
    (t : RouteTable) (key : RawKey) → HasOnce t.by_key → HasOnce (remove t key).by_key
unfolding remove
HasOnce-table_remove t key h = elim (Option-cases (get t.by_key key)) [
  | inl absent ↦ rw (absent, remove) h
  | inr (old, e) ↦ rw (e, remove) (HasOnce-remove t.by_key key h)
]

pub IsSoundTable-remove_all :
    (ks : List RawKey) (t : RouteTable) → IsSoundTable t → IsSoundTable (remove_all ks t)
IsSoundTable-remove_all [] t h = h
IsSoundTable-remove_all (k ∷ ks) t h =
    IsSoundTable-remove_all ks (remove t k)
      (record { indexed = IsIndexed-remove t k h.indexed; once = HasOnce-table_remove t k h.once })

pub get-by_key-remove_all :
    (ks : List RawKey) (t : RouteTable) (k : RawKey)
    → get (remove_all ks t).by_key k ≡ (if any (λ j. j == k) ks then none else get t.by_key k)
get-by_key-remove_all [] t k = refl
get-by_key-remove_all (j ∷ ks) t k =
    get-by_key-remove_all ks (remove t j) k ∙ ground (arith, get-by_key-remove t j k)

-- Whether an entry is there and has expired.
abbrev pub has_expired : ℕ → ℕ → Option RouteEntry → Bool
has_expired now ttl_sec = holds_at (is_expired now ttl_sec)

-- The operations of the table one after another, from the empty table on.
pub data TableStep : RouteTable → RouteTable → Type 0 where
  upserts : (e : RouteEntry) (t : RouteTable) → TableStep t (upsert e t)
  removes : (key : RawKey) (t : RouteTable) → TableStep t (remove t key)
  cleans : (now ttl_sec : ℕ) (t : RouteTable) → TableStep t (cleanup now ttl_sec t)

pub data TableReach : RouteTable → Type 0 where
  start : TableReach empty
  then_step : {t u : RouteTable} → TableReach t → TableStep t u → TableReach u

pub IsSoundTable-empty : IsSoundTable empty
unfolding get
IsSoundTable-empty = record {
  indexed = record {
    keyed = λ k e g. cc;
    found = λ k e g full. cc;
    full = λ ip k g. cc;
    owned = λ ip k e g q. cc;
    present = λ ip k g absent. cc;
  };
  once = tt;
}

pub IsSoundTable-step : {t u : RouteTable} → TableStep t u → IsSoundTable t → IsSoundTable u
unfolding cleanup
IsSoundTable-step (upserts e t) h = record {
  indexed = IsIndexed-upsert e t h.indexed;
  once = HasOnce-upsert e t h.once;
}
IsSoundTable-step (removes key t) h = IsSoundTable-remove_all (key ∷ []) t h
IsSoundTable-step (cleans now ttl_sec t) h =
    IsSoundTable-remove_all (expired_keys now ttl_sec t.by_key) t h

-- In every table that upserts, removals and cleanups make from the empty one: the entries stand
-- under their public key, once; each entry that has an address is found under it; and each
-- address in the index leads to an entry that has this address.
pub reachable-IsSoundTable : (t : RouteTable) → TableReach t → IsSoundTable t
reachable-IsSoundTable _ start = IsSoundTable-empty
reachable-IsSoundTable _ (then_step {t} r s) = IsSoundTable-step s (reachable-IsSoundTable t r)

-- In a table that the operations made, `cleanup` takes out exactly the entries that are older
-- than the time to live, and leaves every other entry as it was.
pub get-cleanup :
    (now ttl_sec : ℕ) (t : RouteTable) (k : RawKey)
    → TableReach t
    → get (cleanup now ttl_sec t).by_key k
      ≡ (if has_expired now ttl_sec (get t.by_key k) then none else get t.by_key k)
unfolding cleanup
get-cleanup now ttl_sec t k r =
    get-by_key-remove_all (expired_keys now ttl_sec t.by_key) t k
    ∙ rw (any-keys_where (is_expired now ttl_sec) t.by_key k (reachable-IsSoundTable t r).once)
