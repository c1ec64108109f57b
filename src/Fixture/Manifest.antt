-- ===== src/Fixture/Manifest.antt =====
-- packages/fixture-generator/generator.mjs: the manifest of a fixture, with its counts, digests and the
-- proofs of its prefixes. `hash` is SHA-256 as in Fixture.Batches; the digests of the files that
-- `fixtureContext` reads are an argument, and there is no `onLine`.

pub mod Prefixes
pub mod Proofs
use Prim.Native.String.{◌++◌ as text_append}
use eacl_demo.Base.{
  ℕ, suc, ◌+◌, Bool, true, false, ◌==◌, leb, ltb, str_eq, if◌then◌else◌, String, decimal, len, map,
  List, [], ◌∷◌, ◌++◌, Option, none, some, Result, ok, err,
}
use eacl_demo.Json.{Json, null, num, str, obj, arr, nil, cons, end, member, Members}
use eacl_demo.Json.Canonical.{canonical_json}
use eacl_demo.Fixture.Samples.{seed}
use eacl_demo.Fixture.Records.{ObjectRef, FixtureRecord, object_kind, relationship_kind, Bundle}
use eacl_demo.Fixture.Bundles.{BundleError, fixture_bundles}
use eacl_demo.Fixture.Batches.{line}

abbrev pub cut_points : List ℕ
cut_points = 10000 ∷ 1000000 ∷ []

pub record Context : Type 0 where
  pub schema_digest : String
  pub exemplar_digest : String
  pub generator_digest : String

-- The header record, its members in the source's order.
unfoldable pub fixture_header : ℕ → Context → Json
fixture_header cut context = obj (
    member "algorithm" (str "eacl-demo-fixture") (
      member "algorithmVersion" (num 1) (
        member "cutPointResources" (num cut) (
          member "exemplarDigest" (str context.exemplar_digest) (
            member "fixtureId" (str "eacl-demo-fixture-v1") (
              member "kind" (str "fixture") (
                member "schemaDigest" (str context.schema_digest)
                  (member "seed" (str (decimal seed)) end))))))))

-- `${canonicalJson(value)}\n`. The texts and numbers of a header and of a manifest have a canonical
-- form (its numbers are safe integers), so the last case is not reached.
abbrev pub text_line : Json → String
text_line value = elim (canonical_json value) [ ok text ↦ text_append text "\n" | err e ↦ "" ]

-- Numbers by a name, in the order in which the names came up.
abbrev pub Tallies : Type 0
Tallies = List (String × ℕ)

pub bump : String → Tallies → Tallies
bump name [] = (name, 1) ∷ []
bump name ((k, n) ∷ tallies) =
    if str_eq k name then (k, n + 1) ∷ tallies else (k, n) ∷ bump name tallies

pub record Group : Type 0 where
  pub total : ℕ
  pub by_type : Tallies

pub record Counts : Type 0 where
  pub bundles : ℕ
  pub bytes : ℕ
  pub objects : ℕ
  pub subjects : Group
  pub resources : Group
  pub relationships : ℕ
  pub by_relation : Tallies
  pub records : ℕ

abbrev pub empty_counts : Counts
empty_counts = record {
  bundles = 0;
  bytes = 0;
  objects = 0;
  subjects = record { total = 0; by_type = [] };
  resources = record { total = 0; by_type = [] };
  relationships = 0;
  by_relation = [];
  records = 0;
}

abbrev pub bump_group : String → Group → Group
bump_group type g = record { total = g.total + 1; by_type = bump type g.by_type }

-- The two kinds of a record are all there are.
unfoldable pub count_record : Counts → FixtureRecord → String → Counts
unfolding bump
count_record c (object_kind role o) text =
    let counted : Counts = record c {
      records = c.records + 1;
      bytes = c.bytes + len text;
      objects = c.objects + 1;
    } in
    if str_eq role "subject"
    then record counted { subjects = bump_group o.type c.subjects }
    else record counted { resources = bump_group o.type c.resources }
count_record c (relationship_kind relation resource subject) text = record c {
  records = c.records + 1;
  bytes = c.bytes + len text;
  relationships = c.relationships + 1;
  by_relation = bump relation c.by_relation;
}

-- The hash of a prefix: what was fed to it, and its number of records.
pub record Prefix : Type 0 where
  pub cut : ℕ
  pub fed : List String
  pub count : ℕ

-- What the loops keep: the fixture's hash, the records' hash and those of the prefixes.
pub record Tally : Type 0 where
  pub fixture : List String
  pub prefixes : List Prefix
  pub counts : Counts

unfoldable pub feed_prefix : ℕ → String → Prefix → Prefix
feed_prefix seen text p =
    if leb seen p.cut then record p { fed = p.fed ++ text ∷ []; count = p.count + 1 } else p

-- The loop over the records of a bundle.
unfoldable pub tally_records : ℕ → List FixtureRecord → Tally → Tally
tally_records seen [] t = t
tally_records seen (r ∷ rs) t = tally_records seen rs (record {
  fixture = t.fixture ++ line r ∷ [];
  prefixes = map (feed_prefix seen (line r)) t.prefixes;
  counts = count_record t.counts r (line r);
})

abbrev pub count_bundle : Tally → Tally
count_bundle t = record t { counts = record t.counts { bundles = t.counts.bundles + 1 } }

-- The loop over the bundles, with `resourcesSeen`.
unfoldable pub tally_bundles : ℕ → List Bundle → Tally → Tally
unfolding tally_records
tally_bundles seen [] t = t
tally_bundles seen (b ∷ bs) t =
    tally_bundles (seen + 1) bs (tally_records (seen + 1) b.records (count_bundle t))

pub open_prefixes : ℕ → List ℕ → List Prefix
open_prefixes cut [] = []
open_prefixes cut (c ∷ cs) =
    if leb c cut
    then record { cut = c; fed = []; count = 0 } ∷ open_prefixes cut cs
    else open_prefixes cut cs

unfoldable pub start : ℕ → Context → Tally
unfolding fixture_header open_prefixes
start cut context = record {
  fixture = text_line (fixture_header cut context) ∷ [];
  prefixes = open_prefixes cut cut_points;
  counts = empty_counts;
}

pub record Proof : Type 0 where
  pub cut : ℕ
  pub record_count : ℕ
  pub records_digest : String

pub record Manifest : Type 0 where
  pub cut_point : ℕ
  pub semantic_prefix_of : Option ℕ
  pub context : Context
  pub counts : Counts
  pub prefix_proofs : List Proof
  pub fixture_digest : String
  pub semantic_records : String
  pub manifest_digest : String

pub data ManifestError : Type 0 where
  bad_fixture : BundleError → ManifestError
  -- `prefixProofs[String(cutPointResources)]` is undefined.
  no_own_prefix : ManifestError

pub proof_at : ℕ → List Proof → Option Proof
proof_at cut [] = none
proof_at cut (p ∷ ps) = if p.cut == cut then some p else proof_at cut ps

pub insert_tally : (String → String → Bool) → String → ℕ → Tallies → Tallies
insert_tally before k n [] = (k, n) ∷ []
insert_tally before k n ((j, m) ∷ tallies) =
    if before j k then (j, m) ∷ insert_tally before k n tallies else (k, n) ∷ (j, m) ∷ tallies

abbrev pub sort_object : (String → String → Bool) → Tallies → Tallies
sort_object before [] = []
sort_object before ((k, n) ∷ tallies) = insert_tally before k n (sort_object before tallies)

abbrev pub tallies_json : Tallies → Members
tallies_json [] = end
tallies_json ((k, n) ∷ tallies) = member k (num n) (tallies_json tallies)

-- `before` is the order of `localeCompare`.
unfoldable pub finalize_counts : (String → String → Bool) → Counts → Json
unfolding insert_tally
finalize_counts before c =
    let group = λ (g : Group). obj (
      member "total" (num g.total)
        (member "byType" (obj (tallies_json (sort_object before g.by_type))) end)) in
    obj (
      member "bundles" (num c.bundles) (
        member "objects"
          (obj (
            member "total" (num c.objects)
              (member "subjects" (group c.subjects) (member "resources" (group c.resources) end))))
          (member "relationships"
            (obj (
              member "total" (num c.relationships) (
                member "unique" (num c.relationships) (
                  member "byRelation" (obj (tallies_json (sort_object before c.by_relation)))
                    end))))
            (member "records"
              (obj (member "total" (num c.records) (member "canonicalBytes" (num c.bytes) end)))
              end))))

abbrev pub proofs_json : List Proof → Members
proofs_json [] = end
proofs_json (p ∷ ps) =
    member (decimal p.cut)
      (obj (
        member "recordCount" (num p.record_count)
          (member "recordsDigest" (str p.records_digest) end)))
      (proofs_json ps)

abbrev pub or_null : Option ℕ → Json
or_null none = null
or_null (some n) = num n

-- The manifest without its own digest.
unfoldable pub manifest_json : (String → String → Bool) → Manifest → Json
unfolding finalize_counts
manifest_json before m = obj (
    member "schemaVersion" (num 1) (
      member "fixtureId" (str "eacl-demo-fixture-v1") (
        member "algorithm"
          (obj (
            member "id" (str "eacl-demo-fixture") (
              member "version" (num 1) (
                member "seed" (str (decimal seed)) (
                  member "generatorSource" (str "packages/fixture-generator/generator.mjs") (
                    member "generatorDigest" (str m.context.generator_digest)
                      (member "arithmetic" (str "unsigned-64-bit-modulo-2^64") end)))))))
          (member "cutPoint"
            (obj (
              member "logicalResources" (num m.cut_point)
                (member "semanticPrefixOf" (or_null m.semantic_prefix_of) end)))
            (member "format"
              (obj (
                member "mediaType" (str "application/x-ndjson") (
                  member "canonicalization"
                    (str "UTF-8; lexicographically sorted object keys; LF after every record")
                    (member "headerRecords" (num 1) (
                      member "recordKinds"
                        (arr (cons (str "object") (cons (str "relationship") nil))) end)))))
              (member "schema"
                (obj (
                  member "source" (str "fixtures/schema.v1.zed") (
                    member "digest" (str m.context.schema_digest) (
                      member "definitions" (num 6)
                        (member "relations" (num 13) (member "permissions" (num 9) end))))))
                (member "exemplars"
                  (obj (
                    member "source" (str "fixtures/exemplars.v1.json") (
                      member "digest" (str m.context.exemplar_digest)
                        (member "cases" (num 14) end))))
                  (member "counts" (finalize_counts before m.counts) (
                    member "prefixProofs" (obj (proofs_json m.prefix_proofs)) (
                      member "digests"
                        (obj (
                          member "fixture" (str m.fixture_digest)
                            (member "semanticRecords" (str m.semantic_records) end)))
                        end))))))))))

module _ (hash : List String → String) (before : String → String → Bool) where
  abbrev pub sha256 : List String → String
  sha256 texts = text_append "sha256:" (hash texts)

  abbrev pub prove : Prefix → Proof
  prove p = record { cut = p.cut; record_count = p.count; records_digest = sha256 p.fed }

  abbrev pub sealed : Manifest → Manifest
  sealed m = record m { manifest_digest = sha256 (text_line (manifest_json before m) ∷ []) }

  -- The manifest, with the proof of its own prefix.
  unfoldable pub assemble : ℕ → Context → Tally → Proof → Manifest
  unfolding manifest_json
  assemble cut context t own = sealed (record {
    cut_point = cut;
    semantic_prefix_of = (if ltb cut 1000000 then some 1000000 else none);
    context = context;
    counts = t.counts;
    prefix_proofs = map prove t.prefixes;
    fixture_digest = sha256 t.fixture;
    semantic_records = own.records_digest;
    manifest_digest = "";
  })

  -- What stands behind the loops.
  unfoldable pub finish_manifest : ℕ → Context → Tally → Result ManifestError Manifest
  unfolding proof_at assemble
  finish_manifest cut context t = elim (proof_at cut (map prove t.prefixes)) [
    | none ↦ err no_own_prefix
    | some own ↦ ok (assemble cut context t own)
  ]

  unfoldable pub generate_fixture_manifest : ℕ → Context → Result ManifestError Manifest
  unfolding start tally_bundles finish_manifest
  generate_fixture_manifest cut context = elim (fixture_bundles cut) [
    | err e ↦ err (bad_fixture e)
    | ok bundles ↦ finish_manifest cut context (tally_bundles 0 bundles (start cut context))
  ]
