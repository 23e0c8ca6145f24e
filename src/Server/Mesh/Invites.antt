-- ===== src/Server/Mesh/Invites.antt =====
-- Invite codes of linkmesh-server/src/mesh.rs are good once.
use link_mesh.Base.{
  ℕ, ◌≤◌, ◌≡◌, refl, sym, ap, Option, none, some, List, [], ◌∷◌, Text, true, false, arith, length,
  ltb, find, retain, Bool-cases, inl, inr, bytes_eq, Result, ok, err, ◌>>=◌, is_ok, >>=-eq-ok,
  ok-injective,
}
use link_mesh.Server.Mesh.{
  MeshConfig, InviteEntry, HashCode, has_hash, check_invite, peek_invite, mark_used, consume_invite,
}

-- How many invites have a hash.
abbrev pub invites_with : Text → List InviteEntry → ℕ
invites_with hash invites = length (retain (has_hash hash) invites)

none_with :
    (hash : Text) (now : ℕ) (invites : List InviteEntry)
    → invites_with hash invites ≤ 0
    → find (has_hash hash) (retain (λ e. ltb now e.expires_at) invites) ≡ none
none_with hash now [] h = refl
none_with hash now (e ∷ invites) h = ground (arith, none_with hash now invites)

found_first :
    (hash : Text) (now : ℕ) (x : InviteEntry) (invites : List InviteEntry) (e : InviteEntry)
    → has_hash hash x ≡ true
    → invites_with hash invites ≤ 0
    → find (has_hash hash) (retain (λ e. ltb now e.expires_at) (record x { used = true } ∷ invites))
      ≡ some e
    → e.used ≡ true
found_first hash now x invites e same h f = ground (arith, none_with hash now invites h)

found_later :
    (hash : Text) (now : ℕ) (x : InviteEntry) (invites : List InviteEntry) (e : InviteEntry)
    → has_hash hash x ≡ false
    → find (has_hash hash) (retain (λ e. ltb now e.expires_at) (x ∷ invites)) ≡ some e
    → (find (has_hash hash) (retain (λ e. ltb now e.expires_at) invites) ≡ some e → e.used ≡ true)
    → e.used ≡ true
found_later hash now x invites e other f rest = elim (Bool-cases (ltb now x.expires_at)) [
  | inl live ↦ rest (let f' = rw (live, other, find) at f in f')
  | inr dead ↦ rest (rw (dead, find) at f)
]

-- After the mark, what is found under the hash is used.
found-used :
    (hash : Text) (now : ℕ) (invites : List InviteEntry) (e : InviteEntry)
    → invites_with hash invites ≤ 1
    → find (has_hash hash) (retain (λ e. ltb now e.expires_at) (mark_used hash invites)) ≡ some e
    → e.used ≡ true
unfolding mark_used
found-used hash now [] e h f = cc
found-used hash now (x ∷ invites) e h f = elim (Bool-cases (has_hash hash x)) [
  | inl same ↦
      found_first hash now x invites e same (ground (arith, h, same)) (rw (same, retain) at f)
  | inr other ↦
      found_later hash now x (mark_used hash invites) e other (rw (other, retain) at f)
        (found-used hash now invites e (ground (arith, h, other)))
]

check_invite-used :
    (now : ℕ) (o : Option InviteEntry)
    → ((e : InviteEntry) → o ≡ some e → e.used ≡ true)
    → is_ok (check_invite now o) ≡ false
unfolding check_invite
check_invite-used now none h = refl
check_invite-used now (some e) h = rw (h e refl)

is_ok_bind :
    {E A B : Type 0} (r : Result E A) (f : A → Result E B)
    → is_ok r ≡ false
    → is_ok (r >>= f) ≡ false
is_ok_bind (ok a) f h = cc
is_ok_bind (err e) f h = refl

-- What `peek_invite` accepts, `consume_invite` accepts, with the same address.
pub consume_invite-peek_invite :
    (hash_code : HashCode) (code : Text) (now : ℕ) (m : MeshConfig) (ip : Option Text)
    → peek_invite hash_code code now m ≡ ok ip
    → (m' : MeshConfig) × (consume_invite hash_code code now m ≡ ok (ip, m'))
unfolding peek_invite consume_invite
consume_invite-peek_invite hash_code code now m ip h =
    let (e, checked, same) =
      >>=-eq-ok (check_invite now (find (has_hash (hash_code code)) m.invites)) _ h in
    (
      record m {
        invites = retain (λ e. ltb now e.expires_at) (mark_used (hash_code code) m.invites);
      },
      rw (checked, ok-injective same),
    )

-- When no two invites have the hash of a code, the code is good once: after it was consumed, it is
-- refused at any time.
pub consumed_code_is_refused :
    (hash_code : HashCode) (code : Text) (now later : ℕ) (m m' : MeshConfig) (ip : Option Text)
    → invites_with (hash_code code) m.invites ≤ 1
    → consume_invite hash_code code now m ≡ ok (ip, m')
    → is_ok (peek_invite hash_code code later m') ≡ false
unfolding peek_invite consume_invite
consumed_code_is_refused hash_code code now later m m' ip single h =
    let (e, checked, same) =
      >>=-eq-ok (check_invite now (find (has_hash (hash_code code)) m.invites)) _ h in
    let after : m' ≡ record m {
      invites = retain (λ e. ltb now e.expires_at) (mark_used (hash_code code) m.invites);
    } =
      sym (ap (λ r. r.1) (ok-injective same)) in
    rw after (
      is_ok_bind _ _
        (check_invite-used later _ (λ x. found-used (hash_code code) now m.invites x single)))
