-- ===== src/Server/Mesh/Addresses.antt =====
-- Which addresses `allocate_ip` of linkmesh-server/src/mesh.rs gives out.
use link_mesh.Base.{
  ℕ, ◌≡◌, ◌≢◌, ap, Option, none, some, List, [], ◌∷◌, Text, true, false, arith, ltb, find, not, any,
  ◌&&◌, Bool-cases, Option-cases, inl, inr, bytes_eq, eq_refl, ok, guard, ok_or, >>=-eq-ok,
  guard-eq-ok, ok-injective, subst,
}
use link_mesh.Server.Mesh.{
  MeshConfig, InviteEntry, HashCode, has_hash, check_invite, peek_invite, is_used, invite_holds,
  allocate_ip, is_empty_text, pool_exhausted, code_used, code_expired,
}

find-free :
    (m : MeshConfig) (pool : List Text) (ip : Text)
    → find (λ x. not (is_used m x)) pool ≡ some ip
    → is_used m ip ≡ false
find-free m [] ip h = cc
find-free m (x ∷ pool) ip h = elim (Bool-cases (is_used m x)) [
  | inl taken ↦ find-free m pool ip (rw (taken, find) at h)
  | inr free ↦
      (let h' : some x ≡ some ip = rw (free, find) at h in
        let same : x ≡ ip = cc in subst (λ y. is_used m y ≡ false) same free)
]

from_pool-free :
    (m : MeshConfig) (ip : Text)
    → ok_or (find (λ x. not (is_used m x)) m.ip_pool) pool_exhausted ≡ ok ip
    → is_used m ip ≡ false
from_pool-free m ip h = elim (Option-cases (find (λ x. not (is_used m x)) m.ip_pool)) [
  | inl nothing ↦ (let h' = rw (nothing, ok_or) at h in cc)
  | inr (x, found) ↦
      (let same = ok-injective (rw (found, ok_or) at h) in
        subst (λ y. is_used m y ≡ false) same (find-free m m.ip_pool x found))
]

-- An address that is allocated, as asked for or from the pool, belongs to no member, and no open
-- invite holds it.
pub allocate_ip-free :
    (trim : Text → Text) (preferred : Option Text) (m : MeshConfig) (ip : Text)
    → allocate_ip trim preferred m ≡ ok ip
    → is_used m ip ≡ false
unfolding allocate_ip
allocate_ip-free trim none m ip h = from_pool-free m ip h
allocate_ip-free trim (some p) m ip h =
    elim (Bool-cases (not (is_empty_text (trim p)) && not (is_used m (trim p)))) [
      | inl free ↦
          (let same = ok-injective (rw (free, allocate_ip) at h) in
            subst (λ y. is_used m y ≡ false) same (ground arith))
      | inr taken ↦ from_pool-free m ip (rw (taken, allocate_ip) at h)
    ]

found-holds :
    (hash ip : Text) (invites : List InviteEntry) (e : InviteEntry)
    → find (has_hash hash) invites ≡ some e
    → e.used ≡ false
    → e.ip ≡ some ip
    → any (invite_holds ip) invites ≡ true
found-holds hash ip [] e f unused bound = cc
found-holds hash ip (x ∷ invites) e f unused bound = elim (Bool-cases (has_hash hash x)) [
  | inl same ↦
      let found : some x ≡ some e = rw (same, find) at f in
      let x_is : x ≡ e = cc in rw x_is (rw (unused, bound, eq_refl ip))
  | inr other ↦
      (let rest = found-holds hash ip invites e (rw (other, find) at f) unused bound in
        ground (arith, rest))
]

check_invite-unused :
    (now : ℕ) (o : Option InviteEntry) (e : InviteEntry)
    → check_invite now o ≡ ok e
    → (o ≡ some e) × (e.used ≡ false)
unfolding check_invite
check_invite-unused now none e h = cc
check_invite-unused now (some x) e h =
    let (u, opened, h1) = >>=-eq-ok (guard (not x.used) code_used) _ h in
    let (v, live, h2) = >>=-eq-ok (guard (not (ltb x.expires_at now)) code_expired) _ h1 in
    let x_is : x ≡ e = ok-injective h2 in
    let unused : not x.used ≡ true = guard-eq-ok (not x.used) code_used opened in
    (ap some x_is, subst (λ y. y.used ≡ false) x_is (ground (arith, unused)))

-- An address that an open invite holds is never allocated, to the one who shows this code either:
-- `handle_join` asks for the address while the invite is still open.
pub held_ip_not_allocated :
    (hash_code : HashCode) (code : Text) (now : ℕ) (trim : Text → Text) (preferred : Option Text)
    (m : MeshConfig) (ip : Text)
    → peek_invite hash_code code now m ≡ ok (some ip)
    → allocate_ip trim preferred m ≢ ok ip
unfolding peek_invite is_used
held_ip_not_allocated hash_code code now trim preferred m ip h got =
    let (e, checked, same) =
      >>=-eq-ok (check_invite now (find (has_hash (hash_code code)) m.invites)) _ h in
    let (found, unused) =
      check_invite-unused now (find (has_hash (hash_code code)) m.invites) e checked in
    let held = found-holds (hash_code code) ip m.invites e found unused (ok-injective same) in
    ground (arith, allocate_ip-free trim preferred m ip got, held)
