-- ===== src/Fixture/Batches.antt =====
-- packages/fixture-generator/batching.mjs: durable batches. `hash` stands for the SHA-256 digest,
-- in hexadecimal, of the texts that are fed to it in order (node:crypto).
pub mod Chunks
pub mod Whole
use Prim.Native.String.{◌++◌ as text_append}
use eacl_demo.Base.{
  ℕ, suc, ◌+◌, ◌-◌, Bool, true, false, ◌&&◌, ◌||◌, ltb, leb, if◌then◌else◌, String, decimal, len,
  length, map, List, [], ◌∷◌, ◌++◌, Option, none, some, Result, ok, err,
}
use eacl_demo.Json.{Json, str, obj, end, member}
use eacl_demo.Json.Canonical.{canonical_json}
use eacl_demo.Fixture.Samples.{max_safe_integer}
use eacl_demo.Fixture.Records.{ObjectRef, FixtureRecord, object_kind, relationship_kind, Bundle}
use eacl_demo.Fixture.Bundles.{BundleError, fixture_bundles}

abbrev pub object_json : ObjectRef → Json
object_json o = obj (member "type" (str o.type) (member "id" (str o.id) end))

-- The record as the generator builds it, its members in the source's order.
unfoldable pub record_json : FixtureRecord → Json
record_json (object_kind role o) =
    obj (
      member "kind" (str "object") (member "object" (object_json o) (member "role" (str role) end)))
record_json (relationship_kind relation resource subject) = obj (
    member "kind" (str "relationship") (
      member "relation" (str relation)
        (member "resource" (object_json resource) (member "subject" (object_json subject) end))))

-- `${canonicalJson(record)}\n`. Every record has a canonical form, so the last case is not reached.
unfoldable pub line : FixtureRecord → String
unfolding record_json canonical_json
line r = elim (canonical_json (record_json r)) [ ok text ↦ text_append text "\n" | err e ↦ "" ]

pub record Limits : Type 0 where
  pub max_resources : ℕ
  pub max_records : ℕ
  pub max_canonical_bytes : ℕ

abbrev pub default_durable_batch_limits : Limits
default_durable_batch_limits = record {
  max_resources = 250;
  max_records = 1250;
  max_canonical_bytes = 1048576;
}

abbrev pub default_in_memory_limits : Limits
default_in_memory_limits = record {
  max_resources = 10000;
  max_records = 50000;
  max_canonical_bytes = 8388608;
}

pub data BatchError : Type 0 where
  bad_limits : BatchError
  oversized_bundle : ℕ → BatchError
  bad_fixture : BundleError → BatchError

-- The batch under construction. While it is empty its last ordinal is not read.
pub record Batch : Type 0 where
  pub first_resource_ordinal : ℕ
  pub last_resource_ordinal : ℕ
  pub resource_count : ℕ
  pub records : List FixtureRecord
  pub canonical_bytes : ℕ

pub record FinishedBatch : Type 0 where
  pub batch : Batch
  pub open batch use *
  pub digest : String
  pub idempotency_key : String

-- What a run of the generator yields, and the error that ends it, if one does.
pub record Yielded : Type 0 where
  pub batches : List FinishedBatch
  pub failure : Option BatchError

pub sum : List ℕ → ℕ
sum [] = 0
sum (n ∷ ns) = n + sum ns

-- The bytes of a bundle's lines.
unfoldable pub bundle_bytes : Bundle → ℕ
unfolding sum
bundle_bytes bundle = sum (map (λ r. len (line r)) bundle.records)

abbrev pub empty_batch : ℕ → Batch
empty_batch first = record {
  first_resource_ordinal = first;
  last_resource_ordinal = first - 1;
  resource_count = 0;
  records = [];
  canonical_bytes = 0;
}

unfoldable pub would_exceed : Batch → ℕ → ℕ → Limits → Bool
would_exceed batch additional_records additional_bytes limits =
    ltb limits.max_resources (batch.resource_count + 1)
    || ltb limits.max_records (length batch.records + additional_records)
    || ltb limits.max_canonical_bytes (batch.canonical_bytes + additional_bytes)

abbrev pub is_limit : ℕ → Bool
is_limit n = leb 1 n && leb n max_safe_integer

unfoldable pub validate_limits : Limits → Bool
validate_limits limits =
    is_limit limits.max_resources
    && is_limit limits.max_records
    && is_limit limits.max_canonical_bytes

unfoldable pub is_oversized : Bundle → Limits → Bool
is_oversized bundle limits =
    ltb limits.max_records (length bundle.records)
    || ltb limits.max_canonical_bytes (bundle_bytes bundle)

-- `batch.resourceCount += 1` and the three updates below it.
abbrev pub add_bundle : Batch → Bundle → ℕ → Batch
add_bundle batch bundle ordinal = record batch {
  last_resource_ordinal = ordinal;
  resource_count = batch.resource_count + 1;
  records = batch.records ++ bundle.records;
  canonical_bytes = batch.canonical_bytes + bundle_bytes bundle;
}

abbrev pub yield_first : FinishedBatch → Yielded → Yielded
yield_first b rest = record rest { batches = b ∷ rest.batches }

module _ (hash : List String → String) where
  unfoldable pub finish_batch : Batch → FinishedBatch
  finish_batch batch = record {
    batch = batch;
    digest = text_append "sha256:" (hash (map line batch.records));
    idempotency_key = text_append "eacl-demo-fixture-v1:" (
        text_append (decimal batch.first_resource_ordinal)
          (text_append "-" (decimal batch.last_resource_ordinal)));
  }

  -- The loop over the bundles, and what is yielded behind it.
  unfoldable pub batch_loop : Limits → ℕ → Batch → List Bundle → Yielded
  batch_loop limits next batch [] =
      if ltb 0 batch.resource_count
      then record { batches = finish_batch batch ∷ []; failure = none }
      else record { batches = []; failure = none }
  batch_loop limits next batch (bundle ∷ bundles) =
      let same = batch_loop limits (suc next) (add_bundle batch bundle next) bundles in
      let fresh =
        yield_first (finish_batch batch)
          (batch_loop limits (suc next) (add_bundle (empty_batch next) bundle next) bundles) in
      if is_oversized bundle limits
      then record { batches = []; failure = some (oversized_bundle next) }
      else if ltb 0 batch.resource_count
          && would_exceed batch (length bundle.records) (bundle_bytes bundle) limits
      then fresh
      else same

  -- The cut point and the limits are checked before the first batch.
  unfoldable pub fixture_batches : ℕ → Limits → Yielded
  fixture_batches cut limits = elim (fixture_bundles cut) [
    | err e ↦ record { batches = []; failure = some (bad_fixture e) }
    | ok bundles ↦
        if validate_limits limits
        then batch_loop limits 0 (empty_batch 0) bundles
        else record { batches = []; failure = some bad_limits }
  ]
