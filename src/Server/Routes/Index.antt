-- ===== src/Server/Routes/Index.antt =====
-- The two indexes by key and by address of `RouteTable`, linkmesh-server/src/signaling.rs, agree.
use link_mesh.Base.{
  ◌≡◌, ◌≢◌, ◌∙◌, ap, Option, none, some, Text, Bool, true, false, arith, Option-cases, Bool-cases,
  inl, inr, ◌==◌, bytes_eq, not, if◌then◌else◌, eq_refl, ◌&&◌, ◌&&◌,
}
use link_mesh.Base.Maps.{get, get-insert, get-remove}
use link_mesh.Shared.Crypto.{RawKey}
use link_mesh.Server.Routes.{
  RouteEntry, RouteTable, is_empty_text, release_old, take_ip, take_rk, upsert, remove,
}

-- Whether two indexes agree: every address leads to an entry that has it, and every entry that
-- has an address is found under it.
pub record IsIndexed (t : RouteTable) : Type 0 where
  pub keyed : (k : RawKey) (e : RouteEntry) → get t.by_key k ≡ some e → e.public_key ≡ k
  pub found :
      (k : RawKey) (e : RouteEntry)
      → get t.by_key k ≡ some e
      → is_empty_text e.ip ≡ false
      → get t.by_ip e.ip ≡ some k
  pub full : (ip : Text) (k : RawKey) → get t.by_ip ip ≡ some k → is_empty_text ip ≡ false
  pub owned :
      (ip : Text) (k : RawKey) (e : RouteEntry)
      → get t.by_ip ip ≡ some k
      → get t.by_key k ≡ some e
      → e.ip ≡ ip
  pub present : (ip : Text) (k : RawKey) → get t.by_ip ip ≡ some k → get t.by_key k ≢ none

pub IsIndexed-remove : (t : RouteTable) (key : RawKey) → IsIndexed t → IsIndexed (remove t key)
unfolding remove
IsIndexed-remove t key h = elim (Option-cases (get t.by_key key)) [
  | inl absent ↦ rw (absent, remove) h
  | inr (old, e) ↦
      rw (e, remove)
        (record {
          keyed = λ k x g. ground (arith, get-remove t.by_key key k, h.keyed k x);
          found = λ k x g full. ground (
            arith,
            get-remove t.by_key key k,
            get-remove t.by_ip old.ip x.ip,
            h.found k x,
            h.owned x.ip key old,
            bytes_eq.beq_iff key k,
            bytes_eq.beq_iff old.ip x.ip,
            h.found key old,
          );
          full = λ ip k g. ground (arith, get-remove t.by_ip old.ip ip, h.full ip k);
          owned = λ ip k x g q.
              ground
                (arith, get-remove t.by_ip old.ip ip, get-remove t.by_key key k, h.owned ip k x);
          present = λ ip k g. ground (
            arith,
            get-remove t.by_ip old.ip ip,
            get-remove t.by_key key k,
            h.owned ip key old,
            h.present ip k,
            bytes_eq.beq_iff key k,
            bytes_eq.beq_iff old.ip ip,
          );
        })
]

-- What each step of `upsert` keeps.
pub by_key-release_old : (e : RouteEntry) (t : RouteTable) → (release_old e t).by_key ≡ t.by_key
unfolding release_old
by_key-release_old e t = ground arith

pub by_key-take_rk : (e : RouteEntry) (t : RouteTable) → (take_rk e t).by_key ≡ t.by_key
unfolding take_rk
by_key-take_rk e t = ground arith

by_ip-take_rk : (e : RouteEntry) (t : RouteTable) → (take_rk e t).by_ip ≡ t.by_ip
unfolding take_rk
by_ip-take_rk e t = ground arith

-- Who holds an address, when `owner` loses all but `kept`.
abbrev pub unless : RawKey → Text → Text → Option RawKey → Option RawKey
unless owner kept ip none = none
unless owner kept ip (some k) = if (k == owner) && not (ip == kept) then none else some k

pub get-by_ip-release_old :
    (e : RouteEntry) (t : RouteTable) (ip : Text)
    → IsIndexed t
    → get (release_old e t).by_ip ip ≡ unless e.public_key e.ip ip (get t.by_ip ip)
unfolding release_old
get-by_ip-release_old e t ip h = elim (Option-cases (get t.by_key e.public_key)) [
  | inl absent ↦
      rw (absent, release_old)
        (elim (Option-cases (get t.by_ip ip)) [
          | inl free ↦ rw free
          | inr (k, taken) ↦
              rw taken (ground (arith, h.present ip k taken, bytes_eq.beq_iff k e.public_key))
        ])
  | inr (old, g) ↦
      rw (g, release_old)
        (elim (Option-cases (get t.by_ip ip)) [
          | inl free ↦ rw free (ground (arith, get-remove t.by_ip old.ip ip))
          | inr (k, taken) ↦ rw taken (
              ground (
                arith,
                get-remove t.by_ip old.ip ip,
                bytes_eq.beq_iff k e.public_key,
                bytes_eq.beq_iff old.ip ip,
                bytes_eq.beq_iff ip e.ip,
                bytes_eq.beq_iff old.ip e.ip,
                h.owned ip k old taken,
                h.found e.public_key old g,
                h.full ip k taken,
              ))
        ])
]

-- An entry without an address leaves all of its key's addresses.
take_no_ip :
    (e : RouteEntry) (t : RouteTable) (ip : Text)
    → IsIndexed t
    → is_empty_text e.ip ≡ true
    → get (take_ip e (release_old e t)).by_ip ip
      ≡ (if e.ip == ip then none else unless e.public_key e.ip ip (get t.by_ip ip))
unfolding take_ip
take_no_ip e t ip h no_ip =
    let t1 = release_old e t in
    elim (Option-cases (get t1.by_key e.public_key)) [
      | inl absent ↦
          rw (no_ip, absent, take_ip)
            (elim (Option-cases (get t.by_ip ip)) [
              | inl free ↦ ground (arith, get-by_ip-release_old e t ip h)
              | inr (k, taken) ↦ ground (
                arith,
                get-by_ip-release_old e t ip h,
                bytes_eq.beq_iff e.ip ip,
                h.full ip k taken,
              )
            ])
      | inr (old, g) ↦
          rw (no_ip, g, take_ip)
            (elim (Option-cases (get t.by_ip ip)) [
              | inl free ↦
                  ground (arith, get-remove t1.by_ip old.ip ip, get-by_ip-release_old e t ip h)
              | inr (k, taken) ↦ ground (
                arith,
                get-remove t1.by_ip old.ip ip,
                get-by_ip-release_old e t ip h,
                bytes_eq.beq_iff e.ip ip,
                bytes_eq.beq_iff old.ip ip,
                h.full ip k taken,
                by_key-release_old e t,
                h.found e.public_key old,
                bytes_eq.beq_iff k e.public_key,
                bytes_eq.beq_iff ip e.ip,
              )
            ])
    ]

-- An address after `upsert`: it is the entry's, or it stays with its owner unless that is the
-- key of the entry.
pub get-by_ip-upsert :
    (e : RouteEntry) (t : RouteTable) (ip : Text)
    → IsIndexed t
    → get (upsert e t).by_ip ip ≡ (
        if e.ip == ip
        then (if is_empty_text e.ip then none else some e.public_key)
        else unless e.public_key e.ip ip (get t.by_ip ip))
unfolding upsert take_ip
get-by_ip-upsert e t ip h =
    let t1 = release_old e t in
    ap (λ m. get m ip) (by_ip-take_rk e (take_ip e t1)) ∙ elim (Bool-cases (is_empty_text e.ip)) [
      | inl no_ip ↦ take_no_ip e t ip h no_ip ∙ rw no_ip
      | inr has_ip ↦ elim (Option-cases (get t1.by_ip e.ip)) [
        | inl free ↦
            rw (has_ip, free, take_ip)
              (ground
                (arith, get-insert t1.by_ip e.ip e.public_key ip, get-by_ip-release_old e t ip h))
        | inr (k, taken) ↦
            rw (has_ip, taken, take_ip)
              (ground
                (arith, get-insert t1.by_ip e.ip e.public_key ip, get-by_ip-release_old e t ip h))
      ]
    ]

-- Whether the owner is `k`.
abbrev pub holds : Option RawKey → RawKey → Bool
holds none k = false
holds (some j) k = j == k

by_key-take_ip :
    (e : RouteEntry) (t : RouteTable) (k : RawKey)
    → IsIndexed t
    → (e.public_key == k) ≡ false
    → get (take_ip e (release_old e t)).by_key k
      ≡ (if not (is_empty_text e.ip) && holds (get t.by_ip e.ip) k then none else get t.by_key k)
unfolding take_ip
by_key-take_ip e t k h other =
    let t1 = release_old e t in
    elim (Bool-cases (is_empty_text e.ip)) [
      | inl no_ip ↦ rw (no_ip, take_ip) (ground (arith, by_key-release_old e t))
      | inr has_ip ↦ elim (Option-cases (get t.by_ip e.ip)) [
        | inl free ↦
            let free' : get t1.by_ip e.ip ≡ none = get-by_ip-release_old e t e.ip h ∙ rw free in
            rw (has_ip, free', free, take_ip) (ap (λ m. get m k) (by_key-release_old e t))
        | inr (j, taken) ↦
            let taken' : get t1.by_ip e.ip ≡ some j =
              get-by_ip-release_old e t e.ip h ∙ rw (taken, eq_refl e.ip) (ground arith) in
            rw (has_ip, taken', taken, take_ip)
              (ground (
                arith,
                by_key-release_old e t,
                get-remove t1.by_key j k,
                bytes_eq.beq_iff j e.public_key,
                bytes_eq.beq_iff j k,
                bytes_eq.beq_iff e.public_key k,
              ))
      ]
    ]

-- An entry after `upsert`: that of its key is the new one, and the one that had its address before
-- is gone.
pub get-by_key-upsert :
    (e : RouteEntry) (t : RouteTable) (k : RawKey)
    → IsIndexed t
    → get (upsert e t).by_key k ≡ (
        if e.public_key == k
        then some e
        else if not (is_empty_text e.ip) && holds (get t.by_ip e.ip) k
        then none
        else get t.by_key k)
unfolding upsert take_ip
get-by_key-upsert e t k h =
    let t1 = release_old e t in
    get-insert (take_rk e (take_ip e t1)).by_key e.public_key e k
    ∙ ground (arith, by_key-take_rk e (take_ip e t1), by_key-take_ip e t k h)
