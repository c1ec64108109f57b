-- ===== src/Fixture/Samples.antt =====
-- packages/fixture-generator/generator.mjs: the 64-bit sampler behind the server counts.
-- BigInt values are numbers, and `& MASK_64` is the remainder by 2 ^ 64.
pub mod Bounds
use eacl_demo.Base.{
  ◌>>=◌, ℕ, ◌+◌, ◌-◌, ◌*◌, ◌/◌, ◌%◌, ◌^◌, ◌≤◌, ◌<◌, bit_xor, ◌≡◌, refl, Bool, arith, ltb, ◌==◌,
  ◌&&◌, leb, if◌then◌else◌, Result, ok, err, Bool-cases, inl, inr, true, false,
}
use native.Mathlib.Nat.{mod-lt}

abbrev pub max_safe_integer : ℕ
max_safe_integer = 2 ^ 53 - 1

abbrev pub seed : ℕ
seed = 20260813

abbrev pub prelude_accounts : ℕ
prelude_accounts = 8

abbrev pub prelude_servers_per_account : ℕ
prelude_servers_per_account = 16

abbrev pub ordinal_multiplier : ℕ
ordinal_multiplier = 104729

abbrev pub stream_multiplier : ℕ
stream_multiplier = 0x9e3779b97f4a7c15

abbrev pub mix_multiplier_1 : ℕ
mix_multiplier_1 = 0xbf58476d1ce4e5b9

abbrev pub mix_multiplier_2 : ℕ
mix_multiplier_2 = 0x94d049bb133111eb

abbrev pub mask_64 : ℕ → ℕ
mask_64 n = n % 2 ^ 64

unfoldable pub mix64 : ℕ → ℕ
mix64 value =
    let mixed = mask_64 value in
    let mixed1 = mask_64 (bit_xor mixed (mixed / 2 ^ 30) * mix_multiplier_1) in
    let mixed2 = mask_64 (bit_xor mixed1 (mixed1 / 2 ^ 27) * mix_multiplier_2) in
    mask_64 (bit_xor mixed2 (mixed2 / 2 ^ 31))

-- The guards throw `RangeError` on what is no safe integer.
pub data RangeError : Type 0 where
  bad_ordinal bad_stream : RangeError

unfoldable pub sample64 : ℕ → ℕ → Result RangeError ℕ
sample64 account_ordinal stream =
    if ltb max_safe_integer account_ordinal
    then err bad_ordinal
    else if ltb max_safe_integer stream
    then err bad_stream
    else ok
        (mix64 (mask_64 (seed + account_ordinal * ordinal_multiplier + stream * stream_multiplier)))

-- The bounds of a tier, both included.
abbrev pub tier_bounds : ℕ → ℕ × ℕ
tier_bounds tier =
    if ltb tier 5500
    then (1, 2000)
    else if ltb tier 8400
    then (2001, 7500)
    else if ltb tier 9600
    then (7501, 20000)
    else (20001, 50000)

within : ℕ × ℕ → ℕ → ℕ
within (minimum, maximum) sample = minimum + sample % (maximum - minimum + 1)

unfoldable pub account_server_count : ℕ → Result RangeError ℕ
unfolding within
account_server_count account_ordinal =
    if ltb account_ordinal prelude_accounts then ok prelude_servers_per_account else do
      first ← sample64 account_ordinal 0
      second ← sample64 account_ordinal 1
      ok (within (tier_bounds (first % 10000)) second)
