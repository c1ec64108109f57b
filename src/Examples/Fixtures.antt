-- ===== src/Examples/Fixtures.antt =====
-- packages/fixture-generator at concrete inputs.
use eacl_demo.Base.{
  ℕ, suc, ◌≡◌, ◌≢◌, ◌≤◌, refl, ap, true, false, String, List, [], ◌∷◌, ◌++◌, none, ok, take, length,
  decimal, arith, ◌==◌,
}
use eacl_demo.Json.{Json, num, null, obj, end, member}
use eacl_demo.Json.Order.{utf16, digits, index_of, placed, key_order, compare_units}
use eacl_demo.Json.Canonical.{canonical_value, canonical_json, insert_member}
use eacl_demo.Json.Sorted.{IsCanonical, canonical_value_idem}
use eacl_demo.Json.Reorder.{Same, Reorder, canonical_json-Same}
use eacl_demo.Fixture.Samples.{account_server_count}
use eacl_demo.Fixture.Samples.Bounds.{account_server_count_bounds}
use eacl_demo.Fixture.Records.{
  Bundle, root_bundle, account_bundle, owner_id, account_id, team_bundle, leader_id, team_id,
}
use eacl_demo.Fixture.Bundles.{fixture_bundles}
use eacl_demo.Fixture.Stream.{stream}
use eacl_demo.Fixture.Stream.Cut.{
  IsCutPoint, fixture_bundles-eq-take, fixture_bundles_total, fixture_bundles_prefix,
}
use eacl_demo.Fixture.Batches.{
  line, bundle_bytes, default_durable_batch_limits, fixture_batches, validate_limits, batch_loop,
  finish_batch, would_exceed, is_oversized,
}
use eacl_demo.Fixture.Batches.Chunks.{Chunks}
use eacl_demo.Fixture.Batches.Whole.{first_oversized, fixture_batches-Chunks}
use eacl_demo.Fixture.Seeding.{Environment, seed_fixture_batches, seed_result}
use eacl_demo.Fixture.Seeding.Whole.{seed_fixture_batches_resumes}

abbrev two_keys : Json
two_keys = obj (member "b" (num 1) (member "a" null end))

abbrev sorted_keys : Json
sorted_keys = obj (member "a" null (member "b" (num 1) end))

abbrev first_unit : List ℕ → ℕ
first_unit [] = 0
first_unit (u ∷ us) = u

apart : (m : ℕ) → suc m ≢ m
apart m h = ground arith

keys_differ : utf16 "b" ≢ utf16 "a"
unfolding utf16
keys_differ = λ e. apart 97 (ap first_unit e)

canonical_json-Same_example : canonical_json two_keys ≡ canonical_json sorted_keys
canonical_json-Same_example =
    canonical_json-Same (Same.objects (Reorder.swap "b" "a" (num 1) null end keys_differ))

sorts_keys : canonical_value two_keys ≡ ok sorted_keys
unfolding canonical_value insert_member compare_units utf16 key_order placed index_of digits
sorts_keys = refl

-- Array indices are listed first, by their number: `01` and 2 ^ 32 - 1 are none.
lists_indices :
    canonical_value (
      obj (
        member "b"
          (num 1)
          (member "10" null (member "4294967295" null (member "01" null (member "9" null end))))))
    ≡ ok (
        obj (
          member "9" null (
            member "10" null
              (member "01" null (member "4294967295" null (member "b" (num 1) end))))))
unfolding canonical_value insert_member compare_units utf16 key_order placed index_of digits
lists_indices = refl

canonical_value_idem_example :
    IsCanonical sorted_keys × (canonical_value sorted_keys ≡ ok sorted_keys)
canonical_value_idem_example = canonical_value_idem two_keys sorted_keys sorts_keys

account_server_count_bounds_example :
    (n : ℕ) × (account_server_count 9 ≡ ok n) × (1 ≤ n) × (n ≤ 50000)
account_server_count_bounds_example = account_server_count_bounds 9 (omega arith)

abbrev is_cut_3 : IsCutPoint 3
is_cut_3 = (omega arith, omega arith)

abbrev is_cut_20 : IsCutPoint 20
is_cut_20 = (omega arith, omega arith)

abbrev is_cut_12 : IsCutPoint 12
is_cut_12 = (omega arith, omega arith)

abbrev bundles_20 : List Bundle
bundles_20 = take 20 (stream 20)

fixture_bundles-eq-take_example : fixture_bundles 12 ≡ ok (take 12 (stream 12))
fixture_bundles-eq-take_example = fixture_bundles-eq-take 12 is_cut_12

fixture_bundles_total_example :
    (bundles : List Bundle) × (fixture_bundles 20 ≡ ok bundles) × (length bundles ≡ 20)
fixture_bundles_total_example = fixture_bundles_total 20 is_cut_20

fixture_bundles_prefix_example : fixture_bundles 12 ≡ ok (take 12 bundles_20)
fixture_bundles_prefix_example =
    fixture_bundles_prefix 12 20 bundles_20 is_cut_12 is_cut_20 (omega arith)
      (fixture_bundles-eq-take 20 is_cut_20)

abbrev constant_hash : List String → String
constant_hash _ = "0"

valid_limits : validate_limits default_durable_batch_limits ≡ true
unfolding validate_limits
valid_limits = refl

fixture_batches-Chunks_example :
    (bundles : List Bundle) × (rest : List Bundle) × (fixture_bundles 20 ≡ ok bundles)
    × (length bundles ≡ 20)
    × Chunks constant_hash default_durable_batch_limits 0 bundles rest
        (fixture_batches constant_hash 20 default_durable_batch_limits).batches
    × ((fixture_batches constant_hash 20 default_durable_batch_limits).failure
        ≡ first_oversized default_durable_batch_limits 0 bundles)
    × (first_oversized default_durable_batch_limits 0 bundles ≡ none → rest ≡ [])
fixture_batches-Chunks_example =
    fixture_batches-Chunks constant_hash default_durable_batch_limits 20 is_cut_20 valid_limits

-- A first run whose `applyBatch` throws at the first batch, and a quiet one.
abbrev failing_run : Environment
failing_run = record { aborted = λ _. false; throws = λ i. i == 0 }

abbrev quiet_run : Environment
quiet_run = record { aborted = λ _. false; throws = λ _. false }

no_failure : (fixture_batches constant_hash 3 default_durable_batch_limits).failure ≡ none
unfolding fixture_batches batch_loop fixture_bundles finish_batch would_exceed is_oversized
    bundle_bytes line validate_limits root_bundle compare_units utf16 key_order placed index_of
    digits account_bundle owner_id account_id decimal team_bundle leader_id team_id
no_failure = refl

seed_fixture_batches_resumes_example :
    let first = seed_fixture_batches constant_hash failing_run 3 default_durable_batch_limits 0 in
    let second =
      seed_fixture_batches constant_hash quiet_run 3 default_durable_batch_limits first.completed in
    (first.applied ++ second.applied
      ≡ (fixture_batches constant_hash 3 default_durable_batch_limits).batches)
    × (seed_result 3 second
        ≡ ok (record { completed_resources = 3; total_resources = 3; ready_to_verify = true }))
seed_fixture_batches_resumes_example =
    seed_fixture_batches_resumes constant_hash default_durable_batch_limits failing_run quiet_run 3
      is_cut_3 valid_limits no_failure (record { no_abort = λ _. refl; no_throw = λ _. refl })
