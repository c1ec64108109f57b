-- ===== src/Examples/Presentations.antt =====
-- The presentation of a descriptor of packages/explorer-state, and a manifest's prefixes, at concrete
-- inputs.
use eacl_demo.Base.{
  ◌≡◌, refl, true, false, Bool, String, List, [], ◌∷◌, some, inl, inr, ok, err, arith,
}
use eacl_demo.Explorer.Dictionaries.{notice, operation_presentation}
use eacl_demo.Explorer.Presentation.{
  PresentationError, own, inherited, project_term, Capabilities, listed, Descriptor, Presentation,
  normalize_limits, project_descriptor_presentation,
}
use eacl_demo.Explorer.Presentation.Terms.{SaysTerms, project_descriptor_presentation-SaysTerms}
use eacl_demo.Fixture.Manifest.{Context, Manifest, Proof, proof_at, generate_fixture_manifest}
use eacl_demo.Fixture.Manifest.Proofs.{
  IsBalanced, generate_fixture_manifest-counts, generate_fixture_manifest-prefixes,
}

abbrev shown_capabilities : Capabilities
shown_capabilities = record {
  operations = some ("health" ∷ "get-schema" ∷ "constructor" ∷ []);
  consistency_modes = some ("minimize" ∷ []);
  snapshot_behavior = "request-snapshot";
  cache_behavior = "none";
  mutation_locality = "none";
  limitations = some ("lifecycle-rebuild" ∷ []);
}

abbrev shown_descriptor : Descriptor
shown_descriptor = record {
  has_facts = true;
  runtime = some (record {
    name = "JVM";
    architecture = "arm64";
    execution = "lambda";
    snap_start = "enabled";
  });
  capabilities = some shown_capabilities;
  limits = listed (("pageSize", 50) ∷ ("ceiling", 10) ∷ ("pageSize", 100) ∷ []);
}

last_limit_stands :
    normalize_limits (listed (("pageSize", 50) ∷ ("ceiling", 10) ∷ ("pageSize", 100) ∷ []))
    ≡ ok (("pageSize", 100) ∷ ("ceiling", 10) ∷ [])
unfolding normalize_limits
last_limit_stands = refl

-- An operation that the contract lists, but the presentation does not.
unknown_operation :
    project_descriptor_presentation (record shown_descriptor {
      capabilities =
          some (record shown_capabilities { operations = some ("lookup-resources" ∷ []) });
    })
    ≡ err (PresentationError.unknown "operation")
unfolding project_descriptor_presentation
unknown_operation = refl

-- An operation of the name of a member that every object has is not refused.
inherited_operation :
    project_term "toString" operation_presentation "operation" ≡ ok (inherited "toString")
unfolding project_term
inherited_operation = refl

abbrev shown : Presentation
shown = record {
  label = "JVM · arm64 · lambda";
  snap_start = "SnapStart enabled";
  operations =
      own (notice "health" "Health" "Report readiness and immutable serving identity.")
      ∷ own (notice "get-schema" "Schema" "Inspect the read-only normalized authorization schema.")
      ∷ inherited "constructor"
      ∷ [];
  controls = record {
    subjects = false;
    objects = false;
    relationships = false;
    reverse_relationships = false;
    authorization = false;
    schema = true;
    cache = false;
    consistency = false;
  };
  default_mode = some "minimize";
  modes =
      own (
        notice "minimize" "Minimize latency"
          "Use the lowest-latency consistency path this profile advertises.")
      ∷ [];
  snapshot = own (
      notice "request-snapshot" "Snapshot per request"
        "Each admitted operation owns a bounded immutable request snapshot.");
  cache = own (
      notice "none" "No authorization cache"
        "The profile advertises no reusable authorization cache.");
  mutation = own (
      notice "none" "No data mutation"
        "Neither public requests nor initialization mutate the dataset.");
  limitations =
      own (
        notice "lifecycle-rebuild" "Lifecycle rebuild"
          "Environment or page replacement discards owned database, cursor, and cache state and rebuilds from the accepted fixture.")
      ∷ [];
  limits = ("pageSize", 100) ∷ ("ceiling", 10) ∷ [];
}

shows : project_descriptor_presentation shown_descriptor ≡ ok shown
unfolding project_descriptor_presentation
shows = refl

project_descriptor_presentation-SaysTerms_example :
    (c : Capabilities) × (some shown_capabilities ≡ some c) × SaysTerms c shown
project_descriptor_presentation-SaysTerms_example =
    project_descriptor_presentation-SaysTerms shown_descriptor shown shows

abbrev any_context : Context
any_context = record { schema_digest = "s"; exemplar_digest = "e"; generator_digest = "g" }

abbrev first_text : List String → String
first_text [] = ""
first_text (s ∷ ss) = s

abbrev no_order : String → String → Bool
no_order a b = true

generate_fixture_manifest-counts_example :
    (m : Manifest) × (generate_fixture_manifest first_text no_order 10000 any_context ≡ ok m)
    × (m.counts.bundles ≡ 10000)
    × IsBalanced m.counts
generate_fixture_manifest-counts_example =
    generate_fixture_manifest-counts first_text no_order 10000 any_context (inl refl)

generate_fixture_manifest-prefixes_example :
    (s : Manifest) × (l : Manifest) × (p : Proof) × (generate_fixture_manifest first_text no_order
        10000 any_context
      ≡ ok s)
    × (generate_fixture_manifest first_text no_order 1000000 any_context ≡ ok l)
    × (proof_at 10000 l.prefix_proofs ≡ some p)
    × (p.records_digest ≡ s.semantic_records)
    × (p.record_count ≡ s.counts.records)
generate_fixture_manifest-prefixes_example =
    generate_fixture_manifest-prefixes first_text no_order 10000 1000000 any_context any_context
      (inl refl) (inr (inl refl)) (omega arith)
