-- ===== src/Qualification/Runner.antt =====
-- packages/qualification/src/runner.mjs: a run of the qualification cases against one profile. What
-- the transport and the cases answer, and the clock, are arguments; so is `publicText`, which cuts a
-- message and takes secrets out of it.
use Prim.Native.Char.{code}
use eacl_demo.Base.{
  is_lower_or_digit, ℕ, ◌+◌, Bool, true, false, ◌&&◌, ◌||◌, ◌==◌, leb, str_eq, if◌then◌else◌,
  is_slug, is_hex_text, String, slice, units, List, [], ◌∷◌, take, map, Option, none, some, Result,
  ok, err, ◌>>=◌, ◌>>◌, require,
}
use eacl_demo.Json.{Json, str}

-- An error that is thrown: its own code and messages, where it has them, or one of the runner's.
pub record Thrown : Type 0 where
  pub code : Option String
  pub public_message : Option String
  pub message : Option String

abbrev pub plain : String → Thrown
plain text = record { code = none; public_message = none; message = some text }

-- What is no text, such as a missing field, is `none`.
pub record Identity : Type 0 where
  pub profile_id : Option String
  pub demo_sha : Option String
  pub eacl_sha : Option String
  pub artifact_sha256 : Option String
  pub deployment_id : Option String
  pub data_manifest_sha256 : Option String

abbrev pub has : (String → Bool) → Option String → Bool
has test none = false
has test (some s) = test s

unfoldable pub validate_identity : Option Identity → Result Thrown (Unit {0})
validate_identity none = err (plain "qualification identity is invalid")
validate_identity (some i) =
    require
      (has is_slug i.profile_id
        && has (is_hex_text 40) i.demo_sha
        && has (is_hex_text 40) i.eacl_sha
        && has (is_hex_text 64) i.artifact_sha256
        && has (is_hex_text 64) i.data_manifest_sha256
        && has (λ s. leb 1 (units s) && leb (units s) 256) i.deployment_id)
      (plain "qualification identity is invalid")

abbrev pub same : Option String → Option String → Bool
same none none = true
same (some s) (some t) = str_eq s t
same _ _ = false

abbrev pub mismatch : Thrown
mismatch = plain "qualification identity mismatch"

-- The loop over the keys is written out.
unfoldable pub assert_identity : Option Identity → Identity → Result Thrown (Unit {0})
unfolding validate_identity
assert_identity none expected = validate_identity none
assert_identity (some actual) expected = do
  validate_identity (some actual)
  require (same actual.profile_id expected.profile_id) mismatch
  require (same actual.demo_sha expected.demo_sha) mismatch
  require (same actual.eacl_sha expected.eacl_sha) mismatch
  require (same actual.artifact_sha256 expected.artifact_sha256) mismatch
  require (same actual.deployment_id expected.deployment_id) mismatch
  require (same actual.data_manifest_sha256 expected.data_manifest_sha256) mismatch

-- The fields of the bootstrap's data that the runner reads; `contract_revision` is `none` if there is
-- no contract, which throws.
pub record Descriptor : Type 0 where
  pub identity : Option Identity
  pub contract_revision : Option Json
  pub fixture_id : Json

-- A response: whether its `meta` has a request id, and its `data` and `error`, where it has these
-- members.
pub record Response : Type 0 where
  pub has_request_id : Bool
  pub body : Option Descriptor
  pub error_code : Option (Option String)

unfoldable pub assert_envelope : Response → Result Thrown Response
assert_envelope r = do
  require r.has_request_id (plain "qualification bootstrap response correlation mismatch")
  ok r

unfoldable pub successful_data : Response → Result Thrown Descriptor
successful_data r = elim r.body [
  | none ↦ err (plain "bootstrap qualification request failed")
  | some d ↦ elim r.error_code [
    | none ↦ ok d
    | some code ↦ err (plain "bootstrap qualification request failed")
  ]
]

pub record Entry : Type 0 where
  pub id : String
  pub category : String
  pub status : String
  pub duration : ℕ
  pub reason : Option String
  pub details : List (String × Json)

abbrev pub bounded_item : Json → Json
bounded_item (str s) = str (slice 256 s)
bounded_item item = item

-- `Object.fromEntries`, onto the members that are there.
pub put_detail : String → Json → List (String × Json) → List (String × Json)
put_detail k v [] = (k, v) ∷ []
put_detail k v ((j, w) ∷ m) = if str_eq j k then (j, v) ∷ m else (j, w) ∷ put_detail k v m

pub from_details : List (String × Json) → List (String × Json) → List (String × Json)
from_details m [] = m
from_details m ((k, v) ∷ entries) = from_details (put_detail k v m) entries

unfoldable pub bounded_details : List (String × Json) → List (String × Json)
unfolding from_details put_detail
bounded_details details =
    from_details [] (map (λ d. (slice 64 (d.0), bounded_item (d.1))) (take 16 details))

-- `[a-z0-9-]*$`
pub all_code_chars : String → Bool
all_code_chars String.[] = true
all_code_chars (String.◌∷◌ c s) = (is_lower_or_digit c || code c == 45) && all_code_chars s

unfoldable pub safe_code : Option String → String
unfolding all_code_chars
safe_code none = "qualification-failed"
safe_code (some s) =
    if all_code_chars s && leb 1 (units s) && leb (units s) 64 then s else "qualification-failed"

abbrev pub or_else {ℓ} : {A : Type ℓ} → Option A → Option A → Option A
or_else none b = b
or_else (some a) b = some a

abbrev pub text_or : Option String → String → String
text_or none d = d
text_or (some s) d = s

-- A case: its `applies` and `run` as functions of the descriptor.
pub data Applicability : Type 0 where
  supported : Applicability
  not_supported : Option String → Applicability

pub data Finished : Type 0 where
  -- What a case returns: an `unsupportedResult`, or its details.
  says_unsupported : Option String → Finished
  finished : List (String × Json) → Finished

pub record Case : Type 0 where
  pub id : String
  pub category : String
  pub applies : Descriptor → Result Thrown Applicability
  pub run : Descriptor → Result Thrown Finished
  pub duration : Descriptor → ℕ

pub record Counts : Type 0 where
  pub passed : ℕ
  pub failed : ℕ
  pub unsupported : ℕ

abbrev pub no_counts : Counts
no_counts = record { passed = 0; failed = 0; unsupported = 0 }

-- `[status]: accumulator[status] + 1`, for the three statuses that there are.
unfoldable pub count : Counts → String → Counts
count c status =
    if str_eq status "passed"
    then record c { passed = c.passed + 1 }
    else if str_eq status "failed"
    then record c { failed = c.failed + 1 }
    else if str_eq status "unsupported"
    then record c { unsupported = c.unsupported + 1 }
    else c

unfoldable pub count_all : Counts → List Entry → Counts
unfolding count
count_all c [] = c
count_all c (e ∷ es) = count_all (count c e.status) es

pub record Report : Type 0 where
  pub schema : String
  pub result : String
  pub identity : Identity
  pub descriptor_identity : Option Identity
  pub release_outcome : String
  pub counts : Counts
  pub cases : List Entry

abbrev pub result_of : Counts → String
result_of c = if c.failed == 0 then "pass" else "fail"

abbrev pub no_text : String
no_text = "The descriptor does not advertise this capability."

module _ (public_text : String → String) where
  unfoldable pub passed : String → String → ℕ → List (String × Json) → Entry
  unfolding bounded_details
  passed id category duration details = record {
    id = id;
    category = category;
    status = "passed";
    duration = duration;
    reason = none;
    details = bounded_details details;
  }

  unfoldable pub unsupported : String → String → Option String → Entry
  unsupported id category reason = record {
    id = id;
    category = category;
    status = "unsupported";
    duration = 0;
    reason = some (public_text (text_or reason no_text));
    details = [];
  }

  unfoldable pub failed : String → String → ℕ → Thrown → Entry
  unfolding safe_code
  failed id category duration e = record {
    id = id;
    category = category;
    status = "failed";
    duration = duration;
    reason =
        some (public_text (text_or (or_else e.public_message e.message) "Qualification failed."));
    details = ("code", str (safe_code e.code)) ∷ [];
  }

  -- The `try` around one case that applies.
  unfoldable pub run_case : Descriptor → Case → Entry
  unfolding passed unsupported failed
  run_case d c = elim (c.run d) [
    | err e ↦ failed c.id c.category (c.duration d) e
    | ok (says_unsupported reason) ↦ unsupported c.id c.category reason
    | ok (finished details) ↦ passed c.id c.category (c.duration d) details
  ]

  -- The loop over the cases. What `applies` throws ends it, in the runner's own entry.
  unfoldable pub run_cases : Descriptor → List Case → List Entry
  unfolding run_case unsupported failed
  run_cases d [] = []
  run_cases d (c ∷ cs) = elim (c.applies d) [
    | err e ↦ failed "qualification-runner" "harness" 0 e ∷ []
    | ok (not_supported reason) ↦ unsupported c.id c.category reason ∷ run_cases d cs
    | ok supported ↦ run_case d c ∷ run_cases d cs
  ]

  -- Behind the bootstrap: the entries, and the descriptor if there is one.
  unfoldable pub checked :
      Identity → (Descriptor → Result Thrown (List Case)) → ℕ → Descriptor → List Entry
  unfolding assert_identity run_cases passed failed
  checked expected cases duration d = elim (assert_identity d.identity expected) [
    | err e ↦ failed "bootstrap-identity" "identity" 0 e ∷ []
    | ok _ ↦ elim d.contract_revision [
      | none ↦ failed "bootstrap-identity" "identity" 0 (plain "TypeError") ∷ []
      | some revision ↦
          passed "bootstrap-identity" "identity" duration
            (("contractRevision", revision) ∷ ("fixtureId", d.fixture_id) ∷ [])
          ∷ (elim (cases d) [
            | err e ↦ failed "qualification-runner" "harness" 0 e ∷ []
            | ok selected ↦ run_cases d selected
          ])
    ]
  ]

  -- The body of the outer `try`, with its `catch`.
  unfoldable pub attempt :
      Identity
      → (Descriptor → Result Thrown (List Case))
      → ℕ
      → Result Thrown Response
      → List Entry × Option Descriptor
  unfolding checked assert_envelope successful_data failed
  attempt expected cases duration bootstrap =
      elim (bootstrap >>= assert_envelope >>= successful_data) [
        | err e ↦ (failed "bootstrap-identity" "identity" 0 e ∷ [], none)
        | ok d ↦ (checked expected cases duration d, some d)
      ]

  abbrev pub identity_of : Option Descriptor → Option Identity
  identity_of none = none
  identity_of (some d) = d.identity

  -- `transport.release`, where there is one: what it throws is thrown.
  abbrev pub release_of : Option (Result Thrown Bool) → Result Thrown String
  release_of none = ok "not-created"
  release_of (some (err e)) = err e
  release_of (some (ok false)) = ok "already-released"
  release_of (some (ok true)) = ok "released"

  unfoldable pub run_qualification :
      Identity
      → Result Thrown (Option (Result Thrown Bool))
      → (Descriptor → Result Thrown (List Case))
      → ℕ
      → Result Thrown Response
      → Result Thrown Report
  unfolding validate_identity attempt count_all
  run_qualification expected created cases duration bootstrap = do
    validate_identity (some expected)
    release ← created
    let tried = attempt expected cases duration bootstrap
    outcome ← release_of release
    let counts = count_all no_counts (tried.0)
    ok (record {
      schema = "eacl-demo.qualification-report.v1";
      result = result_of counts;
      identity = expected;
      descriptor_identity = identity_of (tried.1);
      release_outcome = outcome;
      counts = counts;
      cases = tried.0;
    })
