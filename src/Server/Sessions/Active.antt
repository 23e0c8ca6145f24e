-- ===== src/Server/Sessions/Active.antt =====
-- The index of active identity keys and the session table of linkmesh-server/src/signaling.rs.
use link_mesh.Base.{
  ◌≡◌, ◌&&◌, ◌||◌, ◌∙◌, refl, none, some, List, [], ◌∷◌, Text, Bool, true, false, arith, Bool-cases,
  Option-cases, inl, inr, ◌⊎◌, ◌==◌, bytes_eq, eq_refl, if◌then◌else◌, any, map, not, length, leb,
  subst,
}
use link_mesh.Base.Maps
use link_mesh.Base.Maps.{Map, get, insert, get-remove}
use link_mesh.Shared.Crypto.{RawKey}
use link_mesh.Server.Relay.{sessions_has_active}
use link_mesh.Server.Routes.Expiry.{get-by_key-remove_all}
use link_mesh.Server.Sessions.{
  SessionEntry, Sessions, has_session, set_remove, drop_evicted, update_active, rebuild_active_ik_x,
  SessionState, register_session, admit_session, remove_sessions, kick_device, of_device,
  evict_total, evict_device, evict_oldest, oldest,
}

-- Every session's identity key may relay.
abbrev pub CoversSessions : Sessions → List RawKey → Type 0
CoversSessions sessions active =
    (ik : RawKey) → has_session sessions ik ≡ true → sessions_has_active active ik ≡ true

any-set_remove :
    (ik j : RawKey) (active : List RawKey)
    → sessions_has_active (set_remove ik active) j ≡ (sessions_has_active active j && not (j == ik))
any-set_remove ik j [] = refl
any-set_remove ik j (k ∷ active) = ground (
  arith,
  any-set_remove ik j active,
  bytes_eq.beq_iff k ik,
  bytes_eq.beq_iff k j,
  bytes_eq.beq_iff j ik,
)

covers_others :
    (sessions : Sessions) (ik : RawKey) (active : List RawKey)
    → has_session sessions ik ≡ false
    → CoversSessions sessions active
    → CoversSessions sessions (set_remove ik active)
covers_others sessions ik active gone h j has = elim (Bool-cases (j == ik)) [
  | inl same ↦
      let e = (bytes_eq.beq_iff j ik).0 same in
      let has' : has_session sessions ik ≡ true =
        subst (λ x. has_session sessions x ≡ true) e has in
      cc
  | inr other ↦ ground (arith, any-set_remove ik j active, h j has)
]

CoversSessions-drop_evicted :
    (sessions : Sessions) (evicted active : List RawKey)
    → CoversSessions sessions active
    → CoversSessions sessions (drop_evicted sessions evicted active)
unfolding drop_evicted
CoversSessions-drop_evicted sessions [] active h = h
CoversSessions-drop_evicted sessions (ik ∷ evicted) active h =
    elim (Bool-cases (has_session sessions ik)) [
      | inl still ↦ rw still (CoversSessions-drop_evicted sessions evicted active h)
      | inr gone ↦ rw gone (
          CoversSessions-drop_evicted sessions evicted (set_remove ik active)
            (covers_others sessions ik active gone h))
    ]

-- The index made anew has exactly the sessions' keys.
pub rebuild-exact :
    (sessions : Sessions) (ik : RawKey)
    → sessions_has_active (rebuild_active_ik_x sessions) ik ≡ has_session sessions ik
unfolding rebuild_active_ik_x
rebuild-exact [] ik = refl
rebuild-exact ((k, s) ∷ m) ik = ground (arith, rebuild-exact m ik)

pub has_session-insert :
    (m : Sessions) (k : RawKey) (s : SessionEntry) (ik : RawKey)
    → has_session (insert m k s) ik ≡ true
    → ((s.ik_x == ik) || has_session m ik) ≡ true
unfolding insert
has_session-insert [] k s ik h = h
has_session-insert ((j, x) ∷ m) k s ik h = ground (arith, has_session-insert m k s ik)

has_session-remove :
    (m : Sessions) (k : RawKey) (ik : RawKey)
    → has_session (Maps.remove m k) ik ≡ true
    → has_session m ik ≡ true
unfolding Maps.remove
has_session-remove [] k ik h = h
has_session-remove ((j, x) ∷ m) k ik h = ground (arith, has_session-remove m k ik)

has_session-evict_oldest :
    (among m : Sessions) (ik : RawKey)
    → has_session (evict_oldest among m).0 ik ≡ true
    → has_session m ik ≡ true
unfolding evict_oldest
has_session-evict_oldest among m ik h = elim (Option-cases (oldest among)) [
  | inl nothing ↦ rw (nothing, evict_oldest) at h
  | inr (k, old) ↦ elim (Option-cases (get m k)) [
    | inl absent ↦ rw (old, absent, evict_oldest) at h
    | inr (s, found) ↦ has_session-remove m k ik (rw (old, found, evict_oldest) at h)
  ]
]

has_session-evict_total :
    (m : Sessions) (ik : RawKey) → has_session (evict_total m).0 ik ≡ true → has_session m ik ≡ true
unfolding evict_total
has_session-evict_total m ik h = elim (Bool-cases (leb 4096 (length m))) [
  | inl full ↦ has_session-evict_oldest m m ik (rw (full, evict_total) at h)
  | inr room ↦ rw (room, evict_total) at h
]

has_session-evict_device :
    (d : Text) (m : Sessions) (ik : RawKey)
    → has_session (evict_device d m).0 ik ≡ true
    → has_session m ik ≡ true
unfolding evict_device
has_session-evict_device d m ik h = elim (Bool-cases (leb 8 (length (of_device d m)))) [
  | inl full ↦ has_session-evict_oldest (of_device d m) m ik (rw (full, evict_device) at h)
  | inr room ↦ rw (room, evict_device) at h
]

or_cases : (a b : Bool) → (a || b) ≡ true → (a ≡ true) ⊎ (b ≡ true)
or_cases a b h = ground arith

has_session-evicted :
    (s : SessionEntry) (m : Sessions) (ik : RawKey)
    → has_session (register_session s m).0 ik ≡ true
    → ((s.ik_x == ik) || has_session m ik) ≡ true
unfolding register_session
has_session-evicted s m ik h =
    let m1 = (evict_total m).0 in
    let m2 = (evict_device s.device_id m1).0 in
    elim (or_cases (s.ik_x == ik) (has_session m2 ik)
      (has_session-insert m2 s.session_pub s ik h)) [
        | inl new ↦ rw new
        | inr old ↦
            rw (has_session-evict_total m ik (has_session-evict_device s.device_id m1 ik old))
              (ground arith)
      ]

-- When every session's identity key may relay, this is still so after a session is admitted.
pub CoversSessions-admit_session :
    (s : SessionEntry) (st : SessionState)
    → CoversSessions st.sessions st.active_ik_x
    → CoversSessions (admit_session s st).sessions (admit_session s st).active_ik_x
unfolding admit_session update_active
CoversSessions-admit_session s st h =
    let r = register_session s st.sessions in
    CoversSessions-drop_evicted r.0 r.1 (s.ik_x ∷ st.active_ik_x)
      (λ ik has. ground (arith, has_session-evicted s st.sessions ik has, h ik))

-- The victims of a revocation.
get-remove_sessions :
    (ks : List RawKey) (m : Sessions) (k : RawKey)
    → get (remove_sessions ks m) k ≡ (if any (λ j. j == k) ks then none else get m k)
get-remove_sessions [] m k = refl
get-remove_sessions (j ∷ ks) m k =
    get-remove_sessions ks (Maps.remove m j) k ∙ ground (arith, get-remove m j k)

is_victim :
    (d : Text) (m : Sessions) (k : RawKey) (s : SessionEntry)
    → get m k ≡ some s
    → (s.device_id == d) ≡ true
    → (any (λ j. j == k) (map (λ (e : RawKey × SessionEntry). e.0) (of_device d m)) ≡ true)
      × (any (λ j. j == s.ik_x) (map (λ (e : RawKey × SessionEntry). e.1.ik_x) (of_device d m))
          ≡ true)
unfolding get
is_victim d [] k s g mine = cc
is_victim d ((j, x) ∷ m) k s g mine = elim (Bool-cases (j == k)) [
  | inl here ↦
      let same : x ≡ s = (let g' : some x ≡ some s = rw here at g in cc) in
      let x_mine : (x.device_id == d) ≡ true = rw same mine in
      rw (x_mine, of_device, any) (rw here, rw same (rw (eq_refl s.ik_x)))
  | inr there ↦
      let (a, b) = is_victim d m k s (rw there at g) mine in
      elim (Bool-cases (x.device_id == d)) [
        | inl x_mine ↦ rw (x_mine, of_device, any) (ground (arith, a), ground (arith, b))
        | inr x_other ↦ rw (x_other, of_device, any) (a, b)
      ]
]

-- The revocation of a device ends each of its sessions and takes the route of its identity key
-- out of the table; afterwards the keys that may relay are exactly those of the sessions left.
pub kick_device-ends :
    (d : Text) (st : SessionState) (k : RawKey) (s : SessionEntry)
    → get st.sessions k ≡ some s
    → s.device_id ≡ d
    → (get (kick_device d st).sessions k ≡ none)
      × (get (kick_device d st).routes.by_key s.ik_x ≡ none)
      × ((ik : RawKey)
          → sessions_has_active (kick_device d st).active_ik_x ik
            ≡ has_session (kick_device d st).sessions ik)
unfolding kick_device
kick_device-ends d st k s found mine =
    let victims = of_device d st.sessions in
    let (a, b) = is_victim d st.sessions k s found ((bytes_eq.beq_iff s.device_id d).1 mine) in
    (
      get-remove_sessions (map (λ (e : RawKey × SessionEntry). e.0) victims) st.sessions k ∙ rw a,
      get-by_key-remove_all (map (λ (e : RawKey × SessionEntry). e.1.ik_x) victims) st.routes s.ik_x
          ∙ rw b,
      λ ik.
          rebuild-exact
            (remove_sessions (map (λ (e : RawKey × SessionEntry). e.0) victims) st.sessions) ik,
    )
