-- ===== src/Server/Routes/Agree.antt =====
-- The invariant of `RouteTable`, linkmesh-server/src/signaling.rs, and what it gives for `upsert`,
-- `remove` and `get_by_ip`.
use link_mesh.Base.{
  ◌≡◌, ap, Option, none, some, Text, true, false, arith, Option-cases, Bool-cases, inl, inr, ◌==◌,
  bytes_eq, not, ◌&&◌,
}
use link_mesh.Base.Maps.{get}
use link_mesh.Shared.Crypto.{RawKey}
use link_mesh.Server.Routes.{RouteEntry, RouteTable, upsert}
use link_mesh.Server.Routes.Index.{IsIndexed, get-by_ip-upsert, get-by_key-upsert, unless, holds}

-- Who still holds an address held it before, and is not the owner that let it go.
unless_lem :
    (owner : RawKey) (kept ip : Text) (o : Option RawKey) (k : RawKey)
    → unless owner kept ip o ≡ some k
    → (o ≡ some k) × (((k == owner) && not (ip == kept)) ≡ false)
unless_lem owner kept ip none k h = cc
unless_lem owner kept ip (some j) k h = ground arith

holds_lem : (o : Option RawKey) (k : RawKey) → holds o k ≡ true → o ≡ some k
holds_lem none k h = cc
holds_lem (some j) k h = ap some ((bytes_eq.beq_iff j k).0 h)

module _ (e : RouteEntry) (t : RouteTable) (h : IsIndexed t) where
  pub IsIndexed-upsert : IsIndexed (upsert e t)
  IsIndexed-upsert = record {
    keyed = λ k x g.
        ground (arith, get-by_key-upsert e t k h, h.keyed k x, bytes_eq.beq_iff e.public_key k);
    found = λ k x g full. elim (Bool-cases (e.public_key == k)) [
      | inl same ↦ ground (
        arith,
        get-by_key-upsert e t k h,
        get-by_ip-upsert e t x.ip h,
        bytes_eq.beq_iff e.public_key k,
        bytes_eq.beq_iff e.ip x.ip,
      )
      | inr other ↦ ground (
        arith,
        get-by_key-upsert e t k h,
        get-by_ip-upsert e t x.ip h,
        bytes_eq.beq_iff e.public_key k,
        bytes_eq.beq_iff k e.public_key,
        bytes_eq.beq_iff e.ip x.ip,
        h.found k x,
        bytes_eq.beq_iff k k,
      )
    ];
    full = λ ip k g. ground (
      arith,
      get-by_ip-upsert e t ip h,
      h.full ip k,
      bytes_eq.beq_iff e.ip ip,
      unless_lem e.public_key e.ip ip (get t.by_ip ip) k,
    );
    owned = λ ip k x g q. ground (
      arith,
      get-by_ip-upsert e t ip h,
      get-by_key-upsert e t k h,
      h.owned ip k x,
      bytes_eq.beq_iff e.ip ip,
      bytes_eq.beq_iff e.public_key k,
      bytes_eq.beq_iff k e.public_key,
      bytes_eq.beq_iff ip e.ip,
      unless_lem e.public_key e.ip ip (get t.by_ip ip) k,
    );
    present = λ ip k g absent. elim (Bool-cases (e.ip == ip)) [
      | inl mine ↦ ground (
        arith,
        get-by_ip-upsert e t ip h,
        get-by_key-upsert e t k h,
        bytes_eq.beq_iff e.public_key k,
      )
      | inr other ↦
          let (before, kept) =
            unless_lem e.public_key e.ip ip (get t.by_ip ip) k
              (ground (arith, get-by_ip-upsert e t ip h)) in
          elim (Option-cases (get t.by_key k)) [
            | inl gone ↦ h.present ip k before gone
            | inr (x, q) ↦ ground (
              arith,
              get-by_ip-upsert e t ip h,
              get-by_key-upsert e t k h,
              h.owned ip k x before q,
              h.owned e.ip k x,
              holds_lem (get t.by_ip e.ip) k,
              kept,
              bytes_eq.beq_iff e.ip ip,
              bytes_eq.beq_iff e.public_key k,
              bytes_eq.beq_iff k e.public_key,
              bytes_eq.beq_iff ip e.ip,
            )
          ]
    ];
  }
