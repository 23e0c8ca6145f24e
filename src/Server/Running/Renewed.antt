-- ===== src/Server/Running/Renewed.antt =====
-- A session of linkmesh-server/src/signaling.rs whose counter moves on stays where it is.
use link_mesh.Base.{
  ◌≡◌, ◌∙◌, sym, ap, some, List, [], ◌∷◌, Text, true, arith, length, Bool-cases, inl, inr, ◌==◌,
  bytes_eq,
}
use link_mesh.Base.Maps.{get, insert, HasOnce-insert}
use link_mesh.Shared.Crypto.{RawKey}
use link_mesh.Server.Sessions.{Sessions, SessionEntry, has_session, of_device}
use link_mesh.Server.Sessions.Bounds.{IsBounded}
use link_mesh.Server.Sessions.Active.{CoversSessions, has_session-insert}

length-insert_present :
    (m : Sessions) (k : RawKey) (s t : SessionEntry)
    → get m k ≡ some s
    → length (insert m k t) ≡ length m
unfolding get insert
length-insert_present [] k s t g = cc
length-insert_present ((j, x) ∷ m) k s t g = ground (arith, length-insert_present m k s t)

of_device-insert_present :
    (d : Text) (m : Sessions) (k : RawKey) (s t : SessionEntry)
    → get m k ≡ some s
    → t.device_id ≡ s.device_id
    → length (of_device d (insert m k t)) ≡ length (of_device d m)
unfolding get insert
of_device-insert_present d [] k s t g same = cc
of_device-insert_present d ((j, x) ∷ m) k s t g same = elim (Bool-cases (j == k)) [
  | inl here ↦
      (let is_s : some x ≡ some s = rw (here, get) at g in
        let x_is : x ≡ s = cc in
        let same_b : (t.device_id == d) ≡ (x.device_id == d) =
          ap (λ y. y == d) same ∙ ap (λ y. y.device_id == d) (sym x_is) in
        rw (here, insert) (ground (arith, same_b)))
  | inr there ↦
      rw (there, insert)
        (let rest = of_device-insert_present d m k s t (rw (there, get) at g) same in
          ground (arith, rest))
]

pub IsBounded-insert_present :
    (m : Sessions) (k : RawKey) (s t : SessionEntry)
    → get m k ≡ some s
    → t.device_id ≡ s.device_id
    → IsBounded m
    → IsBounded (insert m k t)
IsBounded-insert_present m k s t g same h = record {
  once = HasOnce-insert m k t h.once;
  total = rw (length-insert_present m k s t g) h.total;
  per_device = λ d. rw (of_device-insert_present d m k s t g same) (h.per_device d);
}

has_session-get :
    (m : Sessions) (k : RawKey) (s : SessionEntry) → get m k ≡ some s → has_session m s.ik_x ≡ true
unfolding get
has_session-get [] k s g = cc
has_session-get ((j, x) ∷ m) k s g =
    ground (arith, has_session-get m k s, bytes_eq.beq_iff x.ik_x s.ik_x)

pub CoversSessions-insert_present :
    (m : Sessions) (k : RawKey) (s t : SessionEntry) (active : List RawKey)
    → get m k ≡ some s
    → t.ik_x ≡ s.ik_x
    → CoversSessions m active
    → CoversSessions (insert m k t) active
CoversSessions-insert_present m k s t active g same h ik has = h ik (
    ground (
      arith,
      has_session-insert m k t ik has,
      has_session-get m k s g,
      bytes_eq.beq_iff t.ik_x ik,
      same,
    ))
