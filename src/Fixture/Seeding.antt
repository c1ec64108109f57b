-- ===== src/Fixture/Seeding.antt =====
-- packages/fixture-generator/batching.mjs: `seedFixtureBatches`. What happens outside is the
-- environment of a run: at the i-th batch, whether the signal is aborted and whether `applyBatch`
-- throws. `onProgress` gets the completed resources and the digest of each applied batch.
pub mod Resume
pub mod Whole
use eacl_demo.Base.{
  ℕ, suc, ◌+◌, Bool, true, false, ltb, leb, ◌==◌, ◌&&◌, ◌||◌, if◌then◌else◌, String, List, [], ◌∷◌,
  Option, none, some, Result, ok, err,
}
use eacl_demo.Fixture.Samples.{max_safe_integer}
use eacl_demo.Fixture.Bundles.{validate_cut_point, BundleError}
use eacl_demo.Fixture.Batches.{Limits, FinishedBatch, Yielded, BatchError, fixture_batches}

pub record Environment : Type 0 where
  pub aborted : ℕ → Bool
  pub throws : ℕ → Bool

pub data SeedError : Type 0 where
  bad_cut : BundleError → SeedError
  bad_resume_ordinal : SeedError
  was_aborted : SeedError
  not_a_boundary : ℕ → SeedError
  apply_threw : SeedError
  bad_batches : BatchError → SeedError

-- What a run did: the batches it applied, in order, the resources completed, and how it ended.
pub record SeedRun : Type 0 where
  pub applied : List FinishedBatch
  pub completed : ℕ
  pub error : Option SeedError

abbrev pub apply_first : FinishedBatch → SeedRun → SeedRun
apply_first b run = record run { applied = b ∷ run.applied }

abbrev pub stop : ℕ → SeedError → SeedRun
stop completed e = record { applied = []; completed = completed; error = some e }

-- `index` counts the batches that came before.
unfoldable pub seed_loop :
    Environment → ℕ → ℕ → ℕ → List FinishedBatch → Option BatchError → SeedRun
seed_loop env resume index completed [] none = record {
  applied = [];
  completed = completed;
  error = none;
}
seed_loop env resume index completed [] (some e) = stop completed (bad_batches e)
seed_loop env resume index completed (b ∷ bs) failure =
    let skipped = seed_loop env resume (suc index) completed bs failure in
    let applied =
      apply_first b (seed_loop env resume (suc index) (b.last_resource_ordinal + 1) bs failure) in
    if env.aborted index
    then stop completed was_aborted
    else if ltb b.last_resource_ordinal resume
    then skipped
    else if ltb b.first_resource_ordinal resume
    then stop completed (not_a_boundary resume)
    else if env.throws index
    then stop completed apply_threw
    else applied

module _ (hash : List String → String) where
  unfoldable pub seed_fixture_batches : Environment → ℕ → Limits → ℕ → SeedRun
  seed_fixture_batches env cut limits resume = elim (validate_cut_point cut) [
    | err e ↦ stop resume (bad_cut e)
    | ok _ ↦
        let y = fixture_batches hash cut limits in
        if ltb max_safe_integer resume || ltb cut resume
        then stop resume bad_resume_ordinal
        else seed_loop env resume 0 resume y.batches y.failure
  ]

-- The value of a run that ends without an error.
pub record SeedResult : Type 0 where
  pub completed_resources : ℕ
  pub total_resources : ℕ
  pub ready_to_verify : Bool

unfoldable pub seed_result : ℕ → SeedRun → Result SeedError SeedResult
seed_result cut run = elim run.error [
  | some e ↦ err e
  | none ↦ ok (record {
    completed_resources = run.completed;
    total_resources = cut;
    ready_to_verify = run.completed == cut;
  })
]
