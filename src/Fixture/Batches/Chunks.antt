-- ===== src/Fixture/Batches/Chunks.antt =====
-- What `fixtureBatches` promises: the batches cut the fixture into consecutive pieces within the
-- limits, each with the ordinals, the bytes and the digest of its piece.
use mathlib.Core.List.{append_assoc, append-nil}
use Prim.Native.String.{◌++◌ as text_append}
use eacl_demo.Base.{
  ℕ, suc, ◌+◌, ◌≤◌, ◌≡◌, refl, sym, ap, ◌∙◌, false, ◌&&◌, ltb, String, List, [], ◌∷◌, ◌++◌, map,
  none, arith, length, length-append, Bool-cases, inl, inr, ltb→lt,
}
use eacl_demo.Fixture.Records.{FixtureRecord, Bundle}
use eacl_demo.Fixture.Batches.{
  Limits, Batch, FinishedBatch, Yielded, bundle_bytes, line, empty_batch, would_exceed,
  is_oversized, add_bundle, yield_first, finish_batch, batch_loop,
}

abbrev pub records_of : List Bundle → List FixtureRecord
records_of [] = []
records_of (b ∷ bs) = b.records ++ records_of bs

abbrev pub bytes_of : List Bundle → ℕ
bytes_of [] = 0
bytes_of (b ∷ bs) = bundle_bytes b + bytes_of bs

records_of-append : (xs ys : List Bundle) → records_of (xs ++ ys) ≡ records_of xs ++ records_of ys
records_of-append [] ys = refl
records_of-append (x ∷ xs) ys =
    ap (x.records ++◌) (records_of-append xs ys) ∙ sym (append_assoc x.records _ _)

bytes_of-append : (xs ys : List Bundle) → bytes_of (xs ++ ys) ≡ bytes_of xs + bytes_of ys
bytes_of-append [] ys = omega arith
bytes_of-append (x ∷ xs) ys = omega (arith, bytes_of-append xs ys)

pub record Fits (limits : Limits) (chunk : List Bundle) : Type 0 where
  pub resources : length chunk ≤ limits.max_resources
  pub records : length (records_of chunk) ≤ limits.max_records
  pub bytes : bytes_of chunk ≤ limits.max_canonical_bytes

-- The batch stands for the bundles of `chunk`, the first of which has the ordinal `first`.
pub record IsBatch (first : ℕ) (chunk : List Bundle) (batch : Batch) : Type 0 where
  pub starts : batch.first_resource_ordinal ≡ first
  pub ends : 1 ≤ length chunk → batch.last_resource_ordinal + 1 ≡ first + length chunk
  pub count : batch.resource_count ≡ length chunk
  pub contents : batch.records ≡ records_of chunk
  pub bytes : batch.canonical_bytes ≡ bytes_of chunk

module _ (hash : List String → String) where
  abbrev pub IsChunk : Limits → ℕ → List Bundle → FinishedBatch → Type 0
  IsChunk limits first chunk b =
      (1 ≤ length chunk)
      × Fits limits chunk
      × IsBatch first chunk b.batch
      × (b.digest ≡ text_append "sha256:" (hash (map line (records_of chunk))))

  -- `bundles` is a chunk for each batch, in order, and then `rest`.
  abbrev pub Chunks : Limits → ℕ → List Bundle → List Bundle → List FinishedBatch → Type 0
  Chunks limits first bundles rest [] = bundles ≡ rest
  Chunks limits first bundles rest (b ∷ bs) =
      (chunk : List Bundle) × (others : List Bundle) × (bundles ≡ chunk ++ others)
      × IsChunk limits first chunk b
      × Chunks limits (first + length chunk) others rest bs

pub empty_batch-IsBatch : (first : ℕ) → IsBatch first [] (empty_batch first)
empty_batch-IsBatch first = record {
  starts = refl;
  ends = λ h. omega arith;
  count = refl;
  contents = refl;
  bytes = refl;
}

add_bundle-IsBatch :
    (first : ℕ) (chunk : List Bundle) (batch : Batch) (bundle : Bundle) (next : ℕ)
    → IsBatch first chunk batch
    → next ≡ first + length chunk
    → IsBatch first (chunk ++ bundle ∷ []) (add_bundle batch bundle next)
add_bundle-IsBatch first chunk batch bundle next v e = record {
  starts = v.starts;
  ends = λ h. omega (arith, length-append chunk (bundle ∷ []));
  count = omega (arith, v.count, length-append chunk (bundle ∷ []));
  contents = rw (records_of-append chunk (bundle ∷ []), append-nil, v.contents) refl;
  bytes = omega (arith, v.bytes, bytes_of-append chunk (bundle ∷ []));
}

is_oversized-Fits :
    (limits : Limits) (bundle : Bundle)
    → is_oversized bundle limits ≡ false
    → (length bundle.records ≤ limits.max_records)
      × (bundle_bytes bundle ≤ limits.max_canonical_bytes)
unfolding is_oversized
is_oversized-Fits limits bundle h = ground arith

-- A bundle alone, or behind a batch that has room for it.
alone-Fits :
    (limits : Limits) (bundle : Bundle)
    → 1 ≤ limits.max_resources
    → is_oversized bundle limits ≡ false
    → Fits limits (bundle ∷ [])
alone-Fits limits bundle m h =
    let (r, b) = is_oversized-Fits limits bundle h in
    record { resources = m; records = rw append-nil r; bytes = omega arith }

room-Fits :
    (limits : Limits) (first : ℕ) (chunk : List Bundle) (batch : Batch) (bundle : Bundle)
    → IsBatch first chunk batch
    → would_exceed batch (length bundle.records) (bundle_bytes bundle) limits ≡ false
    → Fits limits (chunk ++ bundle ∷ [])
unfolding would_exceed
room-Fits limits first chunk batch bundle v h =
    let c : length batch.records ≡ length (records_of chunk) = ap length v.contents in
    record {
      resources = rw (length-append chunk (bundle ∷ [])) (ground (arith, v.count));
      records =
          rw
            (
              records_of-append chunk (bundle ∷ []),
              append-nil,
              length-append (records_of chunk) bundle.records,
            )
            (ground (arith, c));
      bytes = rw (bytes_of-append chunk (bundle ∷ [])) (ground (arith, v.bytes));
    }

length-eq-zero : (bs : List Bundle) → length bs ≡ 0 → bs ≡ []
length-eq-zero [] h = refl
length-eq-zero (b ∷ bs) h = absurd (omega arith)

module _ (hash : List String → String) (limits : Limits)
    (some_resource : 1 ≤ limits.max_resources) where
  finish_batch-IsChunk :
      (first : ℕ) (chunk : List Bundle) (batch : Batch)
      → IsBatch first chunk batch
      → 1 ≤ length chunk
      → Fits limits chunk
      → IsChunk hash limits first chunk (finish_batch hash batch)
  unfolding finish_batch
  finish_batch-IsChunk first chunk batch v n f = (n, f, v, rw v.contents refl)

  abbrev pub Covers : ℕ → List Bundle → Yielded → Type 0
  Covers first bundles y =
      (rest : List Bundle) × Chunks hash limits first bundles rest y.batches
      × (y.failure ≡ none → rest ≡ [])

  Covers-step :
      (first next : ℕ) (chunk : List Bundle) (batch : Batch) (others : List Bundle) (y : Yielded)
      → IsBatch first chunk batch
      → next ≡ first + length chunk
      → 1 ≤ length chunk
      → Fits limits chunk
      → Covers next others y
      → Covers first (chunk ++ others) (yield_first (finish_batch hash batch) y)
  Covers-step first next chunk batch others y v e n f (rest, cs, done) =
      (rest, (chunk, others, refl, finish_batch-IsChunk first chunk batch v n f, rw e at cs), done)

  grown-Fits :
      (first : ℕ) (chunk : List Bundle) (batch : Batch) (bundle : Bundle)
      → IsBatch first chunk batch
      → is_oversized bundle limits ≡ false
      → (ltb 0 batch.resource_count
          && would_exceed batch (length bundle.records) (bundle_bytes bundle) limits)
        ≡ false
      → Fits limits (chunk ++ bundle ∷ [])
  grown-Fits first [] batch bundle v small room = alone-Fits limits bundle some_resource small
  grown-Fits first (c ∷ cs) batch bundle v small room =
      room-Fits limits first (c ∷ cs) batch bundle v (ground (arith, v.count))

  pub batch_loop-Covers :
      (first next : ℕ) (chunk : List Bundle) (batch : Batch) (bundles : List Bundle)
      → IsBatch first chunk batch
      → next ≡ first + length chunk
      → (1 ≤ length chunk → Fits limits chunk)
      → Covers first (chunk ++ bundles) (batch_loop hash limits next batch bundles)
  unfolding batch_loop
  batch_loop-Covers first next chunk batch [] v e f =
      elim (Bool-cases (ltb 0 batch.resource_count)) [
        | inl full ↦
            let n : 1 ≤ length chunk = omega (arith, v.count, ltb→lt 0 batch.resource_count full) in
            rw full (
              [],
              (chunk, [], refl, finish_batch-IsChunk first chunk batch v n (f n), refl),
              λ _. refl,
            )
        | inr empty ↦
            rw (empty, length-eq-zero chunk (ground (arith, v.count))) ([], refl, λ _. refl)
      ]
  batch_loop-Covers first next chunk batch (bundle ∷ bundles) v e f =
      elim (Bool-cases (is_oversized bundle limits)) [
        | inl large ↦ rw large (chunk ++ bundle ∷ bundles, refl, λ h. cc)
        | inr small ↦
            elim (Bool-cases (
              ltb 0 batch.resource_count
              && would_exceed batch (length bundle.records) (bundle_bytes bundle) limits)) [
                | inl full ↦
                    let n : 1 ≤ length chunk = ground (arith, v.count) in
                    rw (small, full)
                      (Covers-step first next chunk batch (bundle ∷ bundles) _ v e n (f n) (
                        batch_loop-Covers next (suc next) (bundle ∷ [])
                          (add_bundle (empty_batch next) bundle next) bundles
                          (add_bundle-IsBatch next [] _ bundle next (empty_batch-IsBatch next)
                            (omega arith))
                          (omega arith) (λ _. alone-Fits limits bundle some_resource small)))
                | inr room ↦
                    rw (small, room)
                      (rw (append_assoc chunk (bundle ∷ []) bundles) at (
                        batch_loop-Covers first (suc next) (chunk ++ bundle ∷ [])
                          (add_bundle batch bundle next) bundles
                          (add_bundle-IsBatch first chunk batch bundle next v e)
                          (omega (arith, length-append chunk (bundle ∷ [])))
                          (λ _. grown-Fits first chunk batch bundle v small room)))
              ]
      ]
