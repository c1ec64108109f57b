-- ===== src/Examples/Qualification.antt =====
-- Qualification runs of packages/qualification at concrete inputs.
use eacl_demo.Base.{
  ◌≡◌, refl, slice, is_slug, is_hex_text, true, String, List, [], ◌∷◌, none, some, Result, ok,
  ◌>>=◌,
}
use eacl_demo.Json.{num, str}
use eacl_demo.Qualification.Runner.{
  Thrown, plain, Identity, Descriptor, Response, Case, Entry, Report, finished, supported,
  not_supported, bounded_details, safe_code, assert_envelope, successful_data, run_qualification,
}
use eacl_demo.Qualification.Passes.{Passed, run_qualification-passes}

abbrev keep : String → String
keep s = s

abbrev sha : String
sha = "0123456789abcdef0123456789abcdef01234567"

abbrev digest : String
digest = "0123456789abcdef0123456789abcdef0123456789abcdef0123456789abcdef"

abbrev target_identity : Identity
target_identity = record {
  profile_id = some "datahike-s3";
  demo_sha = some sha;
  eacl_sha = some sha;
  artifact_sha256 = some digest;
  deployment_id = some "d1";
  data_manifest_sha256 = some digest;
}

abbrev described : Descriptor
described = record {
  identity = some target_identity;
  contract_revision = some (num 3);
  fixture_id = str "eacl-demo-fixture-v1";
}

abbrev answered : Result Thrown Response
answered = ok (record { has_request_id = true; body = some described; error_code = none })

abbrev runs_case : Case
runs_case = record {
  id = "schema";
  category = "read";
  applies = λ _. ok supported;
  run = λ _. ok (finished (("definitions", num 6) ∷ []));
  duration = λ _. 2;
}

abbrev skipped_case : Case
skipped_case = record {
  id = "history";
  category = "consistency";
  applies = λ _. ok (not_supported none);
  run = λ _. Result.err (plain "not reached");
  duration = λ _. 0;
}

abbrev two_cases : Descriptor → Result Thrown (List Case)
two_cases d = ok (runs_case ∷ skipped_case ∷ [])

abbrev bootstrap_entry : Entry
bootstrap_entry = record {
  id = "bootstrap-identity";
  category = "identity";
  status = "passed";
  duration = 5;
  reason = none;
  details = ("contractRevision", num 3) ∷ ("fixtureId", str "eacl-demo-fixture-v1") ∷ [];
}

abbrev schema_entry : Entry
schema_entry = record {
  id = "schema";
  category = "read";
  status = "passed";
  duration = 2;
  reason = none;
  details = ("definitions", num 6) ∷ [];
}

abbrev history_entry : Entry
history_entry = record {
  id = "history";
  category = "consistency";
  status = "unsupported";
  duration = 0;
  reason = some "The descriptor does not advertise this capability.";
  details = [];
}

abbrev passing_report : Report
passing_report = record {
  schema = "eacl-demo.qualification-report.v1";
  result = "pass";
  identity = target_identity;
  descriptor_identity = some target_identity;
  release_outcome = "released";
  counts = record { passed = 2; failed = 0; unsupported = 1 };
  cases = bootstrap_entry ∷ schema_entry ∷ history_entry ∷ [];
}

runs :
    run_qualification keep target_identity (ok (some (ok true))) two_cases 5 answered
    ≡ ok passing_report
unfolding run_qualification is_slug is_hex_text slice
runs = refl

keeps_last :
    bounded_details (("a", num 1) ∷ ("b", num 2) ∷ ("a", num 3) ∷ [])
    ≡ ("a", num 3) ∷ ("b", num 2) ∷ []
unfolding bounded_details slice
keeps_last = refl

no_safe_code : safe_code (some "Not a code") ≡ "qualification-failed"
unfolding safe_code
no_safe_code = refl

run_qualification-passes_example :
    (d : Descriptor) × (answered >>= assert_envelope >>= successful_data ≡ ok d)
    × Passed keep target_identity two_cases d passing_report.cases
run_qualification-passes_example =
    run_qualification-passes keep target_identity (ok (some (ok true))) two_cases 5 answered
      passing_report runs refl
