-- ===== src/Fixture/Verifier.antt =====
-- packages/fixture-generator/verifier.mjs: the check of a fixture's lines against its manifest and the
-- generator. `hash` and `parse` are SHA-256 and `JSON.parse`, and `shown` is what a template string makes
-- of a value that is no text. Where the source reads a member of null or undefined, it throws.
pub mod Exact
use Prim.Native.Char.{code}
use Prim.Native.String.{◌++◌ as text_append}
use eacl_demo.Base.{
  ℕ, suc, ◌+◌, Bool, true, false, not, ◌&&◌, ◌||◌, ◌==◌, str_eq, if◌then◌else◌, String, List, [],
  ◌∷◌, ◌++◌, length, includes, string_eq, Option, none, some, Result, ok, err, ◌>>=◌, ◌>>◌, require,
  reject,
}
use eacl_demo.Json.{Json, null, obj, str, num, Members}
use eacl_demo.Json.Canonical.{canonical_json}
use eacl_demo.Contracts.HttpFields.{value_of}
use eacl_demo.Fixture.Records.{Bundle}
use eacl_demo.Fixture.Bundles.{fixture_bundles}
use eacl_demo.Fixture.Manifest.{Context, cut_points, fixture_header, text_line}
use eacl_demo.Fixture.Manifest.Prefixes.{lines}

pub data VerificationError : Type 0 where
  manifest_identity_mismatch wrong_cut_point generator_drift schema_drift : VerificationError
  exemplar_drift manifest_digest_mismatch : VerificationError
  invalid_line_framing duplicate_record extra_record invalid_json : VerificationError
  non_canonical_json fixture_header_mismatch record_mismatch partial_fixture : VerificationError
  duplicate_object unknown_record_kind dangling_relationship : VerificationError
  fixture_digest_mismatch semantic_digest_mismatch record_count_mismatch : VerificationError
  -- What is thrown that is no verification error.
  type_error bad_fixture : VerificationError

-- What is read of a manifest. `payload` is the manifest without its own digest.
pub record ManifestFile : Type 0 where
  pub schema_version : ℕ
  pub fixture_id : String
  pub cut_point : ℕ
  pub context : Context
  pub records_total : ℕ
  pub fixture_digest : String
  pub semantic_digest : String
  pub manifest_digest : String
  pub payload : Json

abbrev pub listed : ℕ → List ℕ → Bool
listed n [] = false
listed n (m ∷ ms) = (m == n) || listed n ms

abbrev pub canonical_line : Json → Result VerificationError String
canonical_line value = elim (canonical_json value) [
  | err e ↦ err type_error
  | ok text ↦ ok (text_append text "\n")
]

-- The newline ends the text and stands nowhere else.
unfoldable pub is_framed : String → Bool
is_framed String.[] = false
is_framed (String.◌∷◌ c String.[]) = code c == 10
is_framed (String.◌∷◌ c (String.◌∷◌ d s)) = not (code c == 10) && is_framed (String.◌∷◌ d s)

abbrev pub field : String → Json → Result VerificationError (Option Json)
field key null = err type_error
field key (obj members) = ok (value_of key members)
field key value = ok none

abbrev pub is_text : String → Option Json → Bool
is_text s (some (str t)) = str_eq t s
is_text s value = false

abbrev pub is_number : ℕ → Option Json → Bool
is_number n (some (num m)) = m == n
is_number n value = false

unfoldable pub validate_header : Json → ℕ → Context → Result VerificationError (Unit {0})
unfolding value_of
validate_header header cut context = do
  kind ← field "kind" header
  id ← field "fixtureId" header
  require (is_text "fixture" kind && is_text "eacl-demo-fixture-v1" id) fixture_header_mismatch
  own ← field "cutPointResources" header
  require (is_number cut own) wrong_cut_point
  schema ← field "schemaDigest" header
  require (is_text context.schema_digest schema) schema_drift
  exemplars ← field "exemplarDigest" header
  require (is_text context.exemplar_digest exemplars) exemplar_drift

-- What the loop keeps: what the generator has yet to yield, the keys that were introduced, the line
-- before, and the lines that were fed to the fixture's hash, which are all but the first of the records'.
pub record Reading : Type 0 where
  pub expected : List String
  pub introduced : List String
  pub previous : Option String
  pub fed : List String

abbrev pub is_previous : String → Option String → Bool
is_previous line none = false
is_previous line (some p) = str_eq line p

-- Which error an unexpected line is.
abbrev pub unexpected : String → Option String → VerificationError → VerificationError
unexpected line previous e = if is_previous line previous then duplicate_record else e

abbrev pub tail_of : List String → List String
tail_of [] = []
tail_of (s ∷ ss) = ss

pub record Verified : Type 0 where
  pub cut_point : ℕ
  pub lines : ℕ
  pub fixture_digest : String
  pub semantic_digest : String
  pub manifest_digest : String

module _ (hash : List String → String) (parse : String → Option Json)
    (shown : Option Json → String) where
  abbrev pub digest : List String → String
  digest texts = text_append "sha256:" (hash texts)

  unfoldable pub validate_manifest_identity :
      ManifestFile → Context → Result VerificationError (Unit {0})
  unfolding canonical_json
  validate_manifest_identity m context = do
    require (m.schema_version == 1 && str_eq m.fixture_id "eacl-demo-fixture-v1")
        manifest_identity_mismatch
    require (listed m.cut_point cut_points) wrong_cut_point
    require (str_eq m.context.generator_digest context.generator_digest) generator_drift
    require (str_eq m.context.schema_digest context.schema_digest) schema_drift
    require (str_eq m.context.exemplar_digest context.exemplar_digest) exemplar_drift
    payload ← canonical_line m.payload
    require (str_eq m.manifest_digest (digest (payload ∷ []))) manifest_digest_mismatch

  -- `objectKey` of a member of the record.
  unfoldable pub key_of : String → Json → Result VerificationError String
  unfolding value_of
  key_of name r = do
    value ← field name r
    elim value [
      | none ↦ err type_error
      | some v ↦ do
        type ← field "type" v
        id ← field "id" v
        ok (text_append (shown type) (text_append ":" (shown id)))
    ]

  unfoldable pub validate_object : Json → List String → Result VerificationError (List String)
  unfolding key_of
  validate_object r introduced = do
    key ← key_of "object" r
    reject (includes introduced key) duplicate_object
    ok (key ∷ introduced)

  unfoldable pub validate_relationship : Json → List String → Result VerificationError (List String)
  unfolding key_of
  validate_relationship r introduced = do
    subject ← key_of "subject" r
    require (includes introduced subject) dangling_relationship
    resource ← key_of "resource" r
    require (includes introduced resource) dangling_relationship
    ok introduced

  abbrev pub by_kind : Option Json → Json → List String → Result VerificationError (List String)
  by_kind kind r introduced =
      if is_text "object" kind
      then validate_object r introduced
      else if is_text "relationship" kind
      then validate_relationship r introduced
      else err unknown_record_kind

  unfoldable pub validate_references : Json → List String → Result VerificationError (List String)
  unfolding validate_object validate_relationship value_of
  validate_references r introduced = do kind ← field "kind" r; by_kind kind r introduced

  abbrev pub introduce :
      List String → Json → ℕ → Context → List String → Result VerificationError (List String)
  introduce [] r cut context introduced = do validate_header r cut context; ok introduced
  introduce (s ∷ fed) r cut context introduced = validate_references r introduced

  -- A line that the generator has a line for.
  unfoldable pub verify_against :
      ℕ → Context → String → String → List String → Reading → Result VerificationError Reading
  unfolding validate_header validate_references canonical_json
  verify_against cut context line wanted rest s = elim (parse line) [
    | none ↦ err invalid_json
    | some r ↦ do
      canonical ← canonical_line r
      require (str_eq canonical line) non_canonical_json
      introduced ← introduce s.fed r cut context s.introduced
      require (str_eq line wanted) (unexpected line s.previous record_mismatch)
      ok (record {
        expected = rest;
        introduced = introduced;
        previous = some line;
        fed = s.fed ++ line ∷ [];
      })
  ]

  abbrev pub next_line :
      ℕ → Context → String → List String → Reading → Result VerificationError Reading
  next_line cut context line [] s = err (unexpected line s.previous extra_record)
  next_line cut context line (wanted ∷ rest) s = verify_against cut context line wanted rest s

  -- The body of the loop; what is no text is `none`.
  unfoldable pub verify_line :
      ℕ → Context → Option String → Reading → Result VerificationError Reading
  unfolding is_framed verify_against
  verify_line cut context none s = err invalid_line_framing
  verify_line cut context (some line) s = do
    require (is_framed line) invalid_line_framing
    next_line cut context line s.expected s

  unfoldable pub verify_lines :
      ℕ → Context → List (Option String) → Reading → Result VerificationError Reading
  unfolding verify_line
  verify_lines cut context [] s = ok s
  verify_lines cut context (line ∷ raw) s = do
    s' ← verify_line cut context line s
    verify_lines cut context raw s'

  unfoldable pub expected_lines : ℕ → Context → Result VerificationError (List String)
  unfolding fixture_header lines
  expected_lines cut context = elim (fixture_bundles cut) [
    | err e ↦ err bad_fixture
    | ok bundles ↦ ok (text_line (fixture_header cut context) ∷ lines bundles)
  ]

  abbrev pub is_done : List String → Bool
  is_done [] = true
  is_done (s ∷ ss) = false

  -- The tests behind the loop.
  unfoldable pub finish_verification : ManifestFile → Reading → Result VerificationError Verified
  finish_verification m s = do
    require (is_done s.expected) partial_fixture
    require (str_eq (digest s.fed) m.fixture_digest) fixture_digest_mismatch
    require (str_eq (digest (tail_of s.fed)) m.semantic_digest) semantic_digest_mismatch
    require (length s.fed == m.records_total + 1) record_count_mismatch
    ok (record {
      cut_point = m.cut_point;
      lines = length s.fed;
      fixture_digest = digest s.fed;
      semantic_digest = digest (tail_of s.fed);
      manifest_digest = m.manifest_digest;
    })

  abbrev pub opened : List String → Reading
  opened expected = record { expected = expected; introduced = []; previous = none; fed = [] }

  -- The loop and the tests behind it, against the lines that the generator is to yield.
  unfoldable pub verify_stream :
      List String
      → List (Option String)
      → ManifestFile
      → Context
      → Result VerificationError Verified
  unfolding verify_lines finish_verification
  verify_stream expected raw m context = do
    s ← verify_lines m.cut_point context raw (opened expected)
    finish_verification m s

  unfoldable pub verify_fixture_lines :
      List (Option String) → ManifestFile → Context → Result VerificationError Verified
  unfolding validate_manifest_identity expected_lines verify_stream
  verify_fixture_lines raw m context = do
    validate_manifest_identity m context
    expected ← expected_lines m.cut_point context
    verify_stream expected raw m context
