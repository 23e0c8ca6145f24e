-- ===== src/Server/Sessions/Bounds.antt =====
-- The bounds on the session table of linkmesh-server/src/signaling.rs.
use link_mesh.Base.{
  ℕ, ◌+◌, ◌≤◌, ◌≡◌, ◌≢◌, eq_refl, refl, none, some, [], ◌∷◌, Text, true, length, leb, arith,
  Bool-cases, Option-cases, inl, inr, ◌==◌, bytes_eq, if◌then◌else◌, subst,
}
use link_mesh.Base.Maps
use link_mesh.Base.Maps.{
  Map, get, insert, get-insert, get-remove, length-insert, length-remove, length-remove_present,
  HasOnce, HasOnce-insert, HasOnce-remove,
}
use link_mesh.Shared.Crypto.{RawKey}
use link_mesh.Server.Sessions.{
  SessionEntry, Sessions, oldest, oldest_from, evict_oldest, evict_total, evict_device, of_device,
  register_session,
}

-- A session table in its bounds, with every key once.
pub record IsBounded (sessions : Sessions) : Type 0 where
  pub once : HasOnce sessions
  pub total : length sessions ≤ 4096
  pub per_device : (d : Text) → length (of_device d sessions) ≤ 8

-- The oldest of a table is in it.
oldest_from-present :
    (m : Sessions) (k : RawKey) (t : ℕ) (s : SessionEntry)
    → get ((k, s) ∷ m) (oldest_from (k, t) m) ≢ none
unfolding get
oldest_from-present [] k t s = ground (arith, eq_refl k)
oldest_from-present ((j, x) ∷ m) k t s =
    ground (arith, oldest_from-present m j x.last_seen x, oldest_from-present m k t s)

oldest_present : (m : Sessions) (k : RawKey) → oldest m ≡ some k → get m k ≢ none
oldest_present [] k h = cc
oldest_present ((j, s) ∷ m) k h =
    let same : oldest_from (j, s.last_seen) m ≡ k = cc in
    subst (λ x. get ((j, s) ∷ m) x ≢ none) same (oldest_from-present m j s.last_seen s)

-- A session of a device.
of_device_lem :
    (d : Text) (m : Sessions) (k : RawKey) (s : SessionEntry)
    → HasOnce m
    → get (of_device d m) k ≡ some s
    → (get m k ≡ some s) × ((s.device_id == d) ≡ true)
unfolding get
of_device_lem d [] k s h g = cc
of_device_lem d ((j, x) ∷ m) k s h g = elim (Bool-cases (x.device_id == d)) [
  | inl mine ↦ ground (arith, of_device_lem d m k s, h.0, h.1)
  | inr other ↦ ground (arith, of_device_lem d m k s, h.0, h.1, bytes_eq.beq_iff j k)
]

length-of_device-remove :
    (d : Text) (m : Sessions) (k : RawKey)
    → length (of_device d (Maps.remove m k)) ≤ length (of_device d m)
unfolding Maps.remove
length-of_device-remove d [] k = omega arith
length-of_device-remove d ((j, s) ∷ m) k = ground (arith, length-of_device-remove d m k)

length-of_device-remove_mine :
    (d : Text) (m : Sessions) (k : RawKey) (s : SessionEntry)
    → get m k ≡ some s
    → (s.device_id == d) ≡ true
    → length (of_device d (Maps.remove m k)) + 1 ≤ length (of_device d m)
unfolding Maps.remove get
length-of_device-remove_mine d [] k s g mine = cc
length-of_device-remove_mine d ((j, x) ∷ m) k s g mine =
    ground (arith, length-of_device-remove d m k, length-of_device-remove_mine d m k s)

length-of_device-insert :
    (d : Text) (m : Sessions) (k : RawKey) (s : SessionEntry)
    → length (of_device d (insert m k s))
      ≤ length (of_device d m) + (if s.device_id == d then 1 else 0)
unfolding insert
length-of_device-insert d [] k s = ground arith
length-of_device-insert d ((j, x) ∷ m) k s = ground (arith, length-of_device-insert d m k s)

evict_oldest_lem :
    (among m : Sessions) (k : RawKey) (s : SessionEntry)
    → oldest among ≡ some k
    → get m k ≡ some s
    → evict_oldest among m ≡ (Maps.remove m k, s.ik_x ∷ [])
unfolding evict_oldest
evict_oldest_lem among m k s old found = rw (old, found, evict_oldest)

oldest-none : (m : Sessions) → oldest m ≡ none → length m ≡ 0
oldest-none [] h = refl
oldest-none ((k, s) ∷ m) h = cc

pub IsBounded-remove : (m : Sessions) (k : RawKey) → IsBounded m → IsBounded (Maps.remove m k)
IsBounded-remove m k h = record {
  once = HasOnce-remove m k h.once;
  total = omega (arith, length-remove m k, h.total);
  per_device = λ d. omega (arith, length-of_device-remove d m k, h.per_device d);
}

evict_total_lem :
    (m : Sessions) → IsBounded m → (length (evict_total m).0 ≤ 4095) × IsBounded (evict_total m).0
unfolding evict_total
evict_total_lem m h = elim (Bool-cases (leb 4096 (length m))) [
  | inr room ↦ rw (room, evict_total) (ground arith, h)
  | inl full ↦ elim (Option-cases (oldest m)) [
    | inl nothing ↦ absurd (ground (arith, oldest-none m nothing, full))
    | inr (k, old) ↦ elim (Option-cases (get m k)) [
      | inl absent ↦ absurd (oldest_present m k old absent)
      | inr (s, found) ↦
          rw (full, evict_oldest_lem m m k s old found, evict_total)
            (omega (arith, length-remove_present m k s found, h.total), IsBounded-remove m k h)
    ]
  ]
]

evict_device_lem :
    (device_id : Text) (m : Sessions)
    → IsBounded m
    → (length (of_device device_id (evict_device device_id m).0) ≤ 7)
      × (length (evict_device device_id m).0 ≤ length m)
      × IsBounded (evict_device device_id m).0
unfolding evict_device
evict_device_lem device_id m h =
    let mine = of_device device_id m in
    elim (Bool-cases (leb 8 (length mine))) [
      | inr room ↦ rw (room, evict_device) (ground arith, omega arith, h)
      | inl full ↦ elim (Option-cases (oldest mine)) [
        | inl nothing ↦ absurd (ground (arith, oldest-none mine nothing, full))
        | inr (k, old) ↦ elim (Option-cases (get mine k)) [
          | inl absent ↦ absurd (oldest_present mine k old absent)
          | inr (s, found) ↦
              let (found', own) = of_device_lem device_id m k s h.once found in
              rw (full, evict_oldest_lem mine m k s old found', evict_device)
                (
                  omega (
                    arith,
                    length-of_device-remove_mine device_id m k s found' own,
                    h.per_device device_id,
                  ),
                  omega (arith, length-remove m k),
                  IsBounded-remove m k h,
                )
        ]
      ]
    ]

-- The registration of a session keeps a table of at most 4096 sessions, and at most 8 of each
-- device, in these bounds, and the session is in it.
pub IsBounded-register_session :
    (s : SessionEntry) (m : Sessions)
    → IsBounded m
    → IsBounded (register_session s m).0 × (get (register_session s m).0 s.session_pub ≡ some s)
unfolding register_session
IsBounded-register_session s m h =
    let m1 = (evict_total m).0 in
    let m2 = (evict_device s.device_id m1).0 in
    let (le1, h1) = evict_total_lem m h in
    let (le_mine, le2, h2) = evict_device_lem s.device_id m1 h1 in
    (
      record {
        once = HasOnce-insert m2 s.session_pub s h2.once;
        total = omega (arith, length-insert m2 s.session_pub s, le1, le2);
        per_device = λ d. ground (
          arith,
          length-of_device-insert d m2 s.session_pub s,
          h2.per_device d,
          le_mine,
          bytes_eq.beq_iff s.device_id d,
        );
      },
      ground (arith, get-insert m2 s.session_pub s s.session_pub, eq_refl s.session_pub),
    )
