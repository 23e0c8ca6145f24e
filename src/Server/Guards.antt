-- ===== src/Server/Guards.antt =====
-- The two guards of the handshake in linkmesh-server/src/signaling.rs: the cache of nonces and
-- the limit on the rate.
pub mod Limits
use link_mesh.Base.{
  ℕ, ◌+◌, ◌-◌, ◌%◌, ◌^◌, Option, none, some, List, [], ◌∷◌, ◌++◌, Bytes, Bool, true, false, length,
  ltb, leb, eqb, drop, any, if◌then◌else◌, ◌==◌, bytes_eq, retain,
}
use link_mesh.Base.Maps.{Map, get, insert}
use link_mesh.Shared.Crypto.{RawKey}

abbrev pub queue_of : Option (List Bytes) → List Bytes
queue_of none = []
queue_of (some q) = q

-- The last 64 nonces of each device.
unfoldable pub replay_check :
    Map RawKey (List Bytes) → RawKey → Bytes → Map RawKey (List Bytes) × Bool
replay_check replay ik_x nonce =
    let q = queue_of (get replay ik_x) in
    if any (λ n. n == nonce) q
    then (insert replay ik_x q, false)
    else (let q' = q ++ nonce ∷ [] in
        (insert replay ik_x (if ltb 64 (length q') then drop 1 q' else q'), true))

abbrev pub window : ℕ
window = 60

-- The counts by the octets of the source address; `usize` is 64 bits wide.
unfoldable pub rate_limited : ℕ → ℕ → Map Bytes (ℕ × ℕ) → Bytes → Map Bytes (ℕ × ℕ) × Bool
rate_limited limit now rate_limits ip =
    if eqb limit 0
    then (rate_limits, false)
    else (let (start, count) : ℕ × ℕ = elim (get rate_limits ip) [ none ↦ (now, 0) | some e ↦ e ] in
        let count' = (count + 1) % 2 ^ 64 in
        if leb window (now - start)
        then (insert rate_limits ip (now, 1), false)
        else (insert rate_limits ip (start, count'), ltb limit count'))

-- The pruning by `cleanup_loop`.
unfoldable pub prune_limits : ℕ → Map Bytes (ℕ × ℕ) → Map Bytes (ℕ × ℕ)
prune_limits now rate_limits = retain (λ e. ltb (now - e.1.0) window) rate_limits
