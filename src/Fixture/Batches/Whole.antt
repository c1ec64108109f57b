-- ===== src/Fixture/Batches/Whole.antt =====
-- The batches of a whole fixture: they cover it, and the run fails at the first bundle that is too
-- large for a batch of its own, if there is one.
use eacl_demo.Base.{
  ℕ, suc, ◌≤◌, ◌≡◌, refl, ◌∙◌, true, if◌then◌else◌, String, List, [], ◌∷◌, Option, none, some, ok,
  arith, length,
}
use eacl_demo.Fixture.Records.{Bundle}
use eacl_demo.Fixture.Bundles.{fixture_bundles}
use eacl_demo.Fixture.Stream.Cut.{IsCutPoint, fixture_bundles_total}
use eacl_demo.Fixture.Batches.{
  Limits, Batch, BatchError, is_oversized, add_bundle, empty_batch, oversized_bundle, batch_loop,
  fixture_batches, validate_limits,
}
use eacl_demo.Fixture.Batches.Chunks.{Chunks, empty_batch-IsBatch, batch_loop-Covers}

-- The first bundle that no batch can hold, by its ordinal.
pub first_oversized : Limits → ℕ → List Bundle → Option BatchError
first_oversized limits next [] = none
first_oversized limits next (bundle ∷ bundles) =
    if is_oversized bundle limits
    then some (oversized_bundle next)
    else first_oversized limits (suc next) bundles

module _ (hash : List String → String) (limits : Limits) where
  batch_loop-failure :
      (next : ℕ) (batch : Batch) (bundles : List Bundle)
      → (batch_loop hash limits next batch bundles).failure ≡ first_oversized limits next bundles
  unfolding batch_loop first_oversized
  batch_loop-failure next batch [] = ground arith
  batch_loop-failure next batch (bundle ∷ bundles) = ground (
    arith,
    batch_loop-failure (suc next) (add_bundle batch bundle next) bundles,
    batch_loop-failure (suc next) (add_bundle (empty_batch next) bundle next) bundles,
  )

  some_resource : validate_limits limits ≡ true → 1 ≤ limits.max_resources
  unfolding validate_limits
  some_resource h = ground arith

  -- For each cut point and valid limits: the batches cut the fixture's bundles, from the first on,
  -- into consecutive chunks of at least one bundle within the limits, each batch with the ordinals,
  -- records, bytes and digest of its chunk; the run fails exactly at the first bundle that exceeds a
  -- limit by itself; and where there is none, no bundle is left over.
  pub fixture_batches-Chunks :
      (cut : ℕ)
      → IsCutPoint cut
      → validate_limits limits ≡ true
      → (bundles : List Bundle) × (rest : List Bundle) × (fixture_bundles cut ≡ ok bundles)
        × (length bundles ≡ cut)
        × Chunks hash limits 0 bundles rest (fixture_batches hash cut limits).batches
        × ((fixture_batches hash cut limits).failure ≡ first_oversized limits 0 bundles)
        × (first_oversized limits 0 bundles ≡ none → rest ≡ [])
  unfolding fixture_batches
  fixture_batches-Chunks cut h l =
      let (bundles, e, n) = fixture_bundles_total cut h in
      let (rest, chunks, done) =
        batch_loop-Covers hash limits (some_resource l) 0 0 [] (empty_batch 0) bundles
          (empty_batch-IsBatch 0) (omega arith) (λ m. absurd (omega arith)) in
      let failure = batch_loop-failure 0 (empty_batch 0) bundles in
      let same : fixture_batches hash cut limits
          ≡ batch_loop hash limits 0 (empty_batch 0) bundles =
        rw (e, fixture_batches, l) refl in
      (bundles, rest, e, n, rw same chunks, rw same failure, λ f. done (failure ∙ f))
