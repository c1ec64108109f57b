-- ===== src/Fixture/Seeding/Whole.antt =====
-- The whole of `seedFixtureBatches`, over the batches of a fixture.
use eacl_demo.Base.{
  ℕ, ◌+◌, ◌≤◌, ◌≡◌, refl, sym, ap, ◌∙◌, true, String, List, [], ◌∷◌, ◌++◌, none, ok, arith, length,
  length-append, ltb-eq-false, ==_iff,
}
use eacl_demo.Fixture.Samples.{max_safe_integer}
use eacl_demo.Fixture.Records.{Bundle}
use eacl_demo.Fixture.Stream.Cut.{IsCutPoint, validate_cut_point_lem}
use eacl_demo.Fixture.Batches.{Limits, FinishedBatch, fixture_batches, validate_limits}
use eacl_demo.Fixture.Batches.Chunks.{Chunks}
use eacl_demo.Fixture.Batches.Whole.{fixture_batches-Chunks}
use eacl_demo.Fixture.Seeding.{Environment, seed_loop, seed_fixture_batches, seed_result}
use eacl_demo.Fixture.Seeding.Resume.{
  Contiguous, IsQuiet, seed_loop_resumes, seed_loop-Progressed, Contiguous-le,
}

module _ (hash : List String → String) (limits : Limits) where
  Chunks-Contiguous :
      (first : ℕ) (bundles : List Bundle) (bs : List FinishedBatch)
      → Chunks hash limits first bundles [] bs
      → Contiguous first (first + length bundles) bs
  Chunks-Contiguous first bundles [] c = rw c (omega arith)
  Chunks-Contiguous first bundles (b ∷ bs) (chunk, others, e, (n, f, v, d), cs) =
      let ends = v.ends n in
      let total : first + length bundles ≡ first + length chunk + length others =
        omega (arith, ap length e, length-append chunk others) in
      (
        v.starts,
        omega arith,
        rw (ends, total) (Chunks-Contiguous (first + length chunk) others bs cs),
      )

  -- The batches of a fixture that has no oversized bundle take all its ordinals.
  pub fixture_batches-Contiguous :
      (cut : ℕ)
      → IsCutPoint cut
      → validate_limits limits ≡ true
      → (fixture_batches hash cut limits).failure ≡ none
      → Contiguous 0 cut (fixture_batches hash cut limits).batches
  fixture_batches-Contiguous cut h l f =
      let (bundles, rest, e, n, chunks, failure, done) =
        fixture_batches-Chunks hash limits cut h l in
      let z : rest ≡ [] = done (sym failure ∙ f) in
      let c = Chunks-Contiguous 0 bundles _ (rw z at chunks) in
      let m : 0 + length bundles ≡ cut = omega arith in rw m at c

  seed_fixture_batches_lem :
      (env : Environment) (cut resume : ℕ)
      → IsCutPoint cut
      → resume ≤ cut
      → (fixture_batches hash cut limits).failure ≡ none
      → seed_fixture_batches hash env cut limits resume
        ≡ seed_loop env resume 0 resume (fixture_batches hash cut limits).batches none
  unfolding seed_fixture_batches
  seed_fixture_batches_lem env cut resume h le f =
      rw
        (
          validate_cut_point_lem cut h,
          seed_fixture_batches,
          ltb-eq-false max_safe_integer resume (omega (arith, h.1)),
          ltb-eq-false cut resume le,
          f,
        )
        refl

  -- For a fixture none of whose bundles is oversized: whatever aborts the signal or makes `applyBatch`
  -- throw in a first run from the start, an uninterrupted run that resumes at its count of completed
  -- resources applies the batches that are left. Together the two apply each batch once and in order,
  -- and the second reports all resources completed and ready to verify.
  pub seed_fixture_batches_resumes :
      (env later : Environment) (cut : ℕ)
      → IsCutPoint cut
      → validate_limits limits ≡ true
      → (fixture_batches hash cut limits).failure ≡ none
      → IsQuiet later
      → let first = seed_fixture_batches hash env cut limits 0 in
        let second = seed_fixture_batches hash later cut limits first.completed in
        (first.applied ++ second.applied ≡ (fixture_batches hash cut limits).batches)
        × (seed_result cut second
            ≡ ok (record {
              completed_resources = cut;
              total_resources = cut;
              ready_to_verify = true;
            }))
  unfolding seed_result
  seed_fixture_batches_resumes env later cut h l f quiet =
      let all = (fixture_batches hash cut limits).batches in
      let c = fixture_batches-Contiguous cut h l f in
      let p = seed_loop-Progressed env 0 cut 0 0 [] all refl c in
      let le : (seed_loop env 0 0 0 all none).completed ≤ cut = Contiguous-le _ _ p.left p.behind in
      let (applied, completed, no_error) = seed_loop_resumes env later 0 cut [] all quiet refl c in
      rw
        (
          seed_fixture_batches_lem env cut 0 h (omega arith) f,
          seed_fixture_batches_lem later cut (seed_loop env 0 0 0 all none).completed h le f,
        )
        (applied, rw (no_error, seed_result, completed, (==_iff cut cut).1 refl) refl)
