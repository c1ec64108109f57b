-- ===== src/Fixture/Samples/Bounds.antt =====
-- The sampler is total on safe ordinals, and the server counts lie within their tiers.
use eacl_demo.Base.{
  ℕ, ◌+◌, ◌-◌, ◌*◌, ◌%◌, ◌^◌, ◌≤◌, ◌<◌, ◌≡◌, refl, arith, ltb, ok, Bool-cases, inl, inr,
  ltb-eq-false,
}
use native.Mathlib.Nat.{mod-lt}
use eacl_demo.Fixture.Samples.{
  max_safe_integer, mix64, sample64, account_server_count, tier_bounds, within, mask_64, seed,
  ordinal_multiplier, stream_multiplier, prelude_accounts, prelude_servers_per_account,
}

pub mix64-lt : (value : ℕ) → mix64 value < 2 ^ 64
unfolding mix64
mix64-lt value = mod-lt _ (omega arith)

-- On safe arguments the sample is a 64-bit word.
pub sample64_total :
    (account stream : ℕ)
    → account ≤ max_safe_integer
    → stream ≤ max_safe_integer
    → (word : ℕ) × (sample64 account stream ≡ ok word) × (word < 2 ^ 64)
unfolding sample64
sample64_total account stream a s =
    let input : ℕ = mask_64 (seed + account * ordinal_multiplier + stream * stream_multiplier) in
    (mix64 input, rw (ltb-eq-false _ _ a, ltb-eq-false _ _ s) refl, mix64-lt input)

within_bounds :
    (low high sample : ℕ)
    → low ≤ high
    → (low ≤ within (low, high) sample) × (within (low, high) sample ≤ high)
unfolding within
within_bounds low high sample h =
    let m = mod-lt sample {m = high - low + 1} (omega arith) in (omega arith, omega arith)

tier_lem :
    (tier sample : ℕ)
    → (1 ≤ within (tier_bounds tier) sample) × (within (tier_bounds tier) sample ≤ 50000)
tier_lem tier sample = ground (
  arith,
  within_bounds 1 2000 sample,
  within_bounds 2001 7500 sample,
  within_bounds 7501 20000 sample,
  within_bounds 20001 50000 sample,
)

-- Every account with a safe ordinal has between 1 and 50,000 servers.
pub account_server_count_bounds :
    (account : ℕ)
    → account ≤ max_safe_integer
    → (n : ℕ) × (account_server_count account ≡ ok n) × (1 ≤ n) × (n ≤ 50000)
unfolding account_server_count
account_server_count_bounds account h = elim (Bool-cases (ltb account prelude_accounts)) [
  | inl small ↦ (prelude_servers_per_account, rw small refl, omega arith, omega arith)
  | inr large ↦
      let (first, e1, _) = sample64_total account 0 h (omega arith) in
      let (second, e2, _) = sample64_total account 1 h (omega arith) in
      let (low, high) = tier_lem (first % 10000) second in
      (within (tier_bounds (first % 10000)) second, rw (large, e1, e2) refl, low, high)
]
