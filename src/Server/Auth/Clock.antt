-- ===== src/Server/Auth/Clock.antt =====
-- The window on the timestamp in `handle_auth` of linkmesh-server/src/signaling.rs.
use link_mesh.Base.{
  ℕ, ◌+◌, ◌-◌, ◌%◌, ◌^◌, ◌≤◌, ◌<◌, ◌≡◌, false, arith, ◌⊎◌, ◌↔◌, inl, inr, leb, Bool-cases,
}
use link_mesh.Server.Auth.{too_far}

-- The difference as a `u64`.
difference :
    (timestamp now : ℕ)
    → timestamp < 2 ^ 64
    → now < 2 ^ 63
    → ((now ≤ timestamp) × ((timestamp + (2 ^ 64 - now)) % 2 ^ 64 ≡ timestamp - now))
      ⊎ ((timestamp < now) × ((timestamp + (2 ^ 64 - now)) % 2 ^ 64 ≡ timestamp + 2 ^ 64 - now))
difference timestamp now ht hn = elim (Bool-cases (leb now timestamp)) [
  | inl later ↦ inl (ground arith, ground arith)
  | inr sooner ↦ inr (ground arith, ground arith)
]

-- For a clock of at least 30 and below 2^63, a timestamp passes exactly when it is at most 30 seconds away, or when it
-- is 2^63 later than the clock, where the difference overflows.
pub too_far-passes :
    (timestamp now : ℕ)
    → timestamp < 2 ^ 64
    → 30 ≤ now
    → now < 2 ^ 63
    → (too_far timestamp now ≡ false)
      ↔ (((timestamp ≤ now + 30) × (now ≤ timestamp + 30)) ⊎ (timestamp ≡ now + 2 ^ 63))
unfolding too_far
too_far-passes timestamp now ht started hn = elim (difference timestamp now ht hn) [
  | inl (later, d) ↦ (λ h. ground arith, λ h. ground arith)
  | inr (sooner, d) ↦ (λ h. ground arith, λ h. ground arith)
]
