-- ===== src/Examples/Evaluations.antt =====
-- Permissions of packages/fixture-generator over a small fixture whose accounts are each other's parent,
-- and the verification of a small stream.
use eacl_demo.Base.{
  decimal, ◌≡◌, ◌↔◌, refl, true, false, ◌&&◌, includes, string_eq, String, List, [], ◌∷◌, Option,
  none, some, ok, err, str_eq, if◌then◌else◌, ℕ,
}
use eacl_demo.Json.{Json, obj, member, end, num, str}
use eacl_demo.Fixture.Manifest.{Context}
use eacl_demo.Fixture.Verifier.{ManifestFile, Verified, VerificationError, verify_stream}
use eacl_demo.Fixture.Verifier.Exact.{IsExact, verify_stream-IsExact}
use eacl_demo.Json.Order.{Comparison, compare_units, utf16, digits, index_of, placed, key_order}
use eacl_demo.Fixture.Records.{ObjectRef, object, relationship_kind, object_kind}
use eacl_demo.Fixture.Evaluator.{
  object_key, parse_object_key, LogicalFixture, empty_fixture, add_records, Permission,
  permission_of, check_permission,
}
use eacl_demo.Fixture.Evaluator.Derived.{derived}
use eacl_demo.Fixture.Evaluator.Decides.{check_permission_iff}
use eacl_demo.Fixture.Evaluator.Lookups.{
  ResourceQuery, Member, passes_filter, lookup_resources, lookup_resources_iff,
}

abbrev ann : ObjectRef
ann = object "user" "ann"

abbrev account_1 : ObjectRef
account_1 = object "account" "a1"

abbrev account_2 : ObjectRef
account_2 = object "account" "a2"

abbrev server_1 : ObjectRef
server_1 = object "server" "s1"

abbrev small_fixture : LogicalFixture
small_fixture = record {
  objects = "user:ann" ∷ "account:a1" ∷ "account:a2" ∷ "server:s1" ∷ [];
  resources = server_1 ∷ account_2 ∷ account_1 ∷ [];
  subjects = ann ∷ [];
  relationships =
      ("account:a1#parent", "account:a2" ∷ [])
      ∷ ("account:a2#parent", "account:a1" ∷ [])
      ∷ ("account:a2#owner", "user:ann" ∷ [])
      ∷ ("server:s1#account", "account:a1" ∷ [])
      ∷ [];
}

builds :
    add_records empty_fixture (
      object_kind "subject" ann
      ∷ relationship_kind "owner" account_1 ann
      ∷ relationship_kind "owner" account_1 ann
      ∷ [])
    ≡ record empty_fixture {
      objects = "user:ann" ∷ [];
      subjects = ann ∷ [];
      relationships = ("account:a1#owner", "user:ann" ∷ []) ∷ [];
    }
unfolding add_records
builds = refl

parses : parse_object_key "server:a:b" ≡ object "server" "a:b"
unfolding parse_object_key
parses = refl

views : check_permission small_fixture ann "view" server_1 ≡ true
unfolding check_permission
views = refl

no_other : check_permission small_fixture ann "own" server_1 ≡ false
unfolding check_permission
no_other = refl

server_plain : parse_object_key (object_key server_1) ≡ server_1
unfolding parse_object_key object_key
server_plain = refl

check_permission_iff_example : (check_permission small_fixture ann "view" server_1 ≡ true) ↔ (
    (includes small_fixture.objects (object_key ann)
        && includes small_fixture.objects (object_key server_1)
      ≡ true)
    × (p : Permission) × (permission_of "view" ≡ some p)
    × (k : ℕ) × (derived small_fixture (object_key ann) k p server_1 ≡ true))
check_permission_iff_example = check_permission_iff small_fixture ann "view" server_1 server_plain

abbrev by_units : String → String → Comparison
by_units s t = compare_units (utf16 s) (utf16 t)

abbrev admin_accounts : ResourceQuery
admin_accounts = record {
  subject = ann;
  permission = "admin";
  resource_type = "account";
  relationship_filter = none;
}

finds : lookup_resources by_units small_fixture admin_accounts ≡ account_1 ∷ account_2 ∷ []
unfolding lookup_resources compare_units utf16
finds = refl

lookup_resources_iff_example :
    Member account_1 (lookup_resources by_units small_fixture admin_accounts) ↔ (
      Member account_1 small_fixture.resources
      × (account_1.type ≡ admin_accounts.resource_type)
      × (passes_filter small_fixture none account_1 ≡ true)
      × (check_permission small_fixture ann "admin" account_1 ≡ true))
lookup_resources_iff_example = lookup_resources_iff by_units small_fixture admin_accounts account_1

abbrev any_context : Context
any_context = record { schema_digest = "s"; exemplar_digest = "e"; generator_digest = "g" }

abbrev header : Json
header = obj (
    member "cutPointResources" (num 1) (
      member "exemplarDigest" (str "e") (
        member "fixtureId" (str "eacl-demo-fixture-v1")
          (member "kind" (str "fixture") (member "schemaDigest" (str "s") end)))))

abbrev header_line : String
header_line =
    "{\"cutPointResources\":1,\"exemplarDigest\":\"e\",\"fixtureId\":\"eacl-demo-fixture-v1\",\"kind\":\"fixture\",\"schemaDigest\":\"s\"}\n"

abbrev ann_record : Json
ann_record = obj (
    member "kind" (str "object")
      (member "object" (obj (member "id" (str "ann") (member "type" (str "user") end))) end))

abbrev ann_line : String
ann_line = "{\"kind\":\"object\",\"object\":{\"id\":\"ann\",\"type\":\"user\"}}\n"

abbrev reads : String → Option Json
reads s =
    if str_eq s header_line
    then some header
    else if str_eq s ann_line
    then some ann_record
    else none

abbrev constant_hash : List String → String
constant_hash texts = "h"

abbrev shows_text : Option Json → String
shows_text (some (str s)) = s
shows_text value = "undefined"

abbrev small_manifest : ManifestFile
small_manifest = record {
  schema_version = 1;
  fixture_id = "eacl-demo-fixture-v1";
  cut_point = 1;
  context = any_context;
  records_total = 1;
  fixture_digest = "sha256:h";
  semantic_digest = "sha256:h";
  manifest_digest = "m";
  payload = Json.null;
}

abbrev verified_small : Verified
verified_small = record {
  cut_point = 1;
  lines = 2;
  fixture_digest = "sha256:h";
  semantic_digest = "sha256:h";
  manifest_digest = "m";
}

verifies :
    verify_stream constant_hash reads shows_text
      (header_line ∷ ann_line ∷ [])
      (some header_line ∷ some ann_line ∷ [])
      small_manifest
      any_context
    ≡ ok verified_small
unfolding verify_stream compare_units utf16 key_order placed index_of digits decimal
verifies = refl

finds_duplicate :
    verify_stream constant_hash reads shows_text
      (header_line ∷ ann_line ∷ [])
      (some header_line ∷ some ann_line ∷ some ann_line ∷ [])
      small_manifest
      any_context
    ≡ err VerificationError.duplicate_record
unfolding verify_stream compare_units utf16 key_order placed index_of digits decimal
finds_duplicate = refl

verify_stream-IsExact_example :
    IsExact constant_hash reads shows_text
      (header_line ∷ ann_line ∷ [])
      (some header_line ∷ some ann_line ∷ [])
      small_manifest
verify_stream-IsExact_example =
    verify_stream-IsExact constant_hash reads shows_text (header_line ∷ ann_line ∷ [])
      (some header_line ∷ some ann_line ∷ []) small_manifest any_context verified_small verifies
