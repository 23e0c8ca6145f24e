-- ===== src/Server/Guards/Limits.antt =====
-- What the guards of linkmesh-server/src/signaling.rs refuse.
use link_mesh.Base.{
  ℕ, ◌+◌, ◌-◌, ◌≤◌, ◌<◌, ◌^◌, ◌%◌, ◌≡◌, refl, some, List, [], ◌∷◌, ◌++◌, Bytes, true, false, length,
  length-append, ltb, leb, eqb, arith, any, drop, Bool-cases, inl, inr, ◌==◌, bytes_eq, eq_refl,
  if◌then◌else◌, All, suc,
}
use link_mesh.Base.Maps.{Map, get, get-insert}
use link_mesh.Shared.Crypto.{RawKey}
use link_mesh.Server.Guards.{queue_of, replay_check, window, rate_limited}

-- The queue of a device after a check.
queue_after : List Bytes → Bytes → List Bytes
queue_after q nonce =
    if any (λ n. n == nonce) q
    then q
    else if ltb 64 (length (q ++ nonce ∷ []))
    then drop 1 (q ++ nonce ∷ [])
    else q ++ nonce ∷ []

queue_lem :
    (replay : Map RawKey (List Bytes)) (ik_x : RawKey) (nonce : Bytes)
    → queue_of (get (replay_check replay ik_x nonce).0 ik_x)
      ≡ queue_after (queue_of (get replay ik_x)) nonce
unfolding replay_check queue_after
queue_lem replay ik_x nonce =
    let q = queue_of (get replay ik_x) in
    elim (Bool-cases (any (λ n. n == nonce) q)) [
      | inl seen ↦ rw (seen, get-insert replay ik_x q ik_x, eq_refl ik_x)
      | inr new ↦ rw (new, get-insert replay ik_x _ ik_x, eq_refl ik_x)
    ]

any_last : (q : List Bytes) (nonce : Bytes) → any (λ n. n == nonce) (q ++ nonce ∷ []) ≡ true
any_last [] nonce = rw (eq_refl nonce)
any_last (n ∷ q) nonce = ground (arith, any_last q nonce)

any_last_dropped :
    (q : List Bytes) (nonce : Bytes)
    → 64 < length (q ++ nonce ∷ [])
    → any (λ n. n == nonce) (drop 1 (q ++ nonce ∷ [])) ≡ true
any_last_dropped [] nonce h = absurd (omega arith)
any_last_dropped (n ∷ q) nonce h = any_last q nonce

seen_after : (q : List Bytes) (nonce : Bytes) → any (λ n. n == nonce) (queue_after q nonce) ≡ true
unfolding queue_after
seen_after q nonce = elim (Bool-cases (any (λ n. n == nonce) q)) [
  | inl seen ↦ rw (seen, seen)
  | inr new ↦ rw new (elim (Bool-cases (ltb 64 (length (q ++ nonce ∷ [])))) [
    | inl full ↦ rw full (any_last_dropped q nonce (ground arith))
    | inr room ↦ rw room (any_last q nonce)
  ])
]

refused_when_seen :
    (replay : Map RawKey (List Bytes)) (ik_x : RawKey) (nonce : Bytes)
    → any (λ n. n == nonce) (queue_of (get replay ik_x)) ≡ true
    → (replay_check replay ik_x nonce).1 ≡ false
unfolding replay_check
refused_when_seen replay ik_x nonce seen = rw seen

length-queue_after :
    (q : List Bytes) (nonce : Bytes) → length q ≤ 64 → length (queue_after q nonce) ≤ 64
unfolding queue_after
length-queue_after [] nonce h = ground arith
length-queue_after (n ∷ q) nonce h = ground (arith, length-append q (nonce ∷ []))

-- After a nonce was checked, whatever the result, the same nonce of the same device is refused.
pub checked_nonce_is_refused :
    (replay : Map RawKey (List Bytes)) (ik_x : RawKey) (nonce : Bytes)
    → (replay_check (replay_check replay ik_x nonce).0 ik_x nonce).1 ≡ false
checked_nonce_is_refused replay ik_x nonce =
    refused_when_seen (replay_check replay ik_x nonce).0 ik_x nonce
      (rw (queue_lem replay ik_x nonce) (seen_after (queue_of (get replay ik_x)) nonce))

-- A device's queue of nonces that is not longer than 64 stays so.
pub length-queue :
    (replay : Map RawKey (List Bytes)) (ik_x : RawKey) (nonce : Bytes)
    → length (queue_of (get replay ik_x)) ≤ 64
    → length (queue_of (get (replay_check replay ik_x nonce).0 ik_x)) ≤ 64
length-queue replay ik_x nonce h =
    rw (queue_lem replay ik_x nonce) (length-queue_after (queue_of (get replay ik_x)) nonce h)

-- How many of the requests of a source, at the times given, are let through.
abbrev pub passes : ℕ → Bytes → Map Bytes (ℕ × ℕ) → List ℕ → ℕ
passes limit ip rate_limits [] = 0
passes limit ip rate_limits (now ∷ times) =
    let (rate_limits', limited) = rate_limited limit now rate_limits ip in
    let rest = passes limit ip rate_limits' times in if limited then rest else suc rest

rate_step :
    (limit now start count : ℕ) (ip : Bytes) (rate_limits : Map Bytes (ℕ × ℕ))
    → 0 < limit
    → now - start < 60
    → count + 1 < 2 ^ 64
    → get rate_limits ip ≡ some (start, count)
    → (get (rate_limited limit now rate_limits ip).0 ip ≡ some (start, count + 1))
      × ((rate_limited limit now rate_limits ip).1 ≡ ltb limit (count + 1))
unfolding rate_limited
rate_step limit now start count ip rate_limits pos inside small here =
    let is_pos : eqb limit 0 ≡ false = ground arith in
    let is_inside : leb window (now - start) ≡ false = ground arith in
    let no_wrap : (count + 1) % 2 ^ 64 ≡ count + 1 = omega arith in
    rw (is_pos, here, rate_limited, is_inside, no_wrap)
      (rw (get-insert rate_limits ip (start, count + 1) ip, eq_refl ip), refl)

-- While the window of a source lasts, the requests that were let through and those that were
-- counted before are together not more than the limit, or none is let through.
pub passes-le-limit :
    (limit start count : ℕ) (ip : Bytes) (rate_limits : Map Bytes (ℕ × ℕ)) (times : List ℕ)
    → 0 < limit
    → All (λ now. now - start < 60) times
    → count + length times < 2 ^ 64
    → get rate_limits ip ≡ some (start, count)
    → passes limit ip rate_limits times ≤ limit - count
passes-le-limit limit start count ip rate_limits [] pos inside small here = omega arith
passes-le-limit limit start count ip rate_limits (now ∷ times) pos inside small here =
    let (here', limited) =
      rate_step limit now start count ip rate_limits pos inside.0 (omega arith) here in
    let rest =
      passes-le-limit limit start (count + 1) ip (rate_limited limit now rate_limits ip).0 times pos
        inside.1 (omega arith) here' in
    rw limited (ground (arith, rest))
