-- ===== src/Lifecycle.antt =====
-- packages/data-lifecycle/lifecycle.mjs: the record of a data lifecycle and its transitions. A record
-- has exactly the fields below, as `exactKeys` demands. `parses` stands for a finite `Date.parse`,
-- which reads formats that JavaScript leaves to the implementation.
pub mod Order
pub mod History
use Prim.Native.Char.{Char, code}
use Prim.Native.String.{◌++◌ as text_append}
use eacl_demo.Base.{
  ℕ, zero, suc, Bool, true, false, not, ◌&&◌, ◌||◌, ◌==◌, leb, str_eq, if◌then◌else◌, String, List,
  [], ◌∷◌, Option, none, some, Result, ok, err, ◌>>=◌, ◌>>◌, require, includes, string_eq,
}

-- A timestamp as it may stand in the record.
pub data Stamp : Type 0 where
  null other : Stamp
  text : String → Stamp

pub record Lifecycle : Type 0 where
  pub schema : String
  pub lifecycle_id : String
  pub profile_id : String
  pub storage_resource_id : String
  pub manifest_digest : String
  pub fixture_digest : String
  pub previous_lifecycle_id : Option String
  pub created_at : Stamp
  pub state : String
  pub verified_at : Stamp
  pub serving_at : Stamp
  pub retired_at : Stamp

pub data LifecycleError : Type 0 where
  bad_schema bad_id bad_digest bad_state : LifecycleError
  bad_date must_be_null : String → LifecycleError
  immutable_field forbidden_transition : LifecycleError
  not_serving stateful_migration_required : LifecycleError
  not_promotable crosses_profiles same_storage wrong_predecessor : LifecycleError

abbrev pub states : List String
states = "staging" ∷ "verified" ∷ "serving" ∷ "retired" ∷ []

abbrev pub is_between : ℕ → ℕ → Char → Bool
is_between low high c = leb low (code c) && leb (code c) high

-- `[a-z0-9]`, `[a-z0-9._-]` and `[0-9a-f]`
abbrev pub is_word : Char → Bool
is_word c = is_between 97 122 c || is_between 48 57 c

abbrev pub is_suffix_char : Char → Bool
is_suffix_char c = is_word c || code c == 46 || code c == 95 || code c == 45

abbrev pub is_hex : Char → Bool
is_hex c = is_between 48 57 c || is_between 97 102 c

pub all_suffix : String → Bool
all_suffix String.[] = true
all_suffix (String.◌∷◌ c s) = is_suffix_char c && all_suffix s

abbrev pub is_suffix : String → Bool
is_suffix String.[] = false
is_suffix (String.◌∷◌ c s) = all_suffix (String.◌∷◌ c s)

-- The rest of `[a-z0-9]+(?:-[a-z0-9]+)*:[a-z0-9._-]+$`, where the flag says that a word has begun.
pub matches_id : Bool → String → Bool
matches_id begun String.[] = false
matches_id begun (String.◌∷◌ c s) =
    let word = matches_id true s in
    let dash = matches_id false s in
    if is_word c
    then word
    else if begun && code c == 45
    then dash
    else begun && code c == 58 && is_suffix s

unfoldable pub is_lifecycle_id : String → Bool
unfolding matches_id all_suffix
is_lifecycle_id s = matches_id false s

pub hex_digits : ℕ → String → Bool
hex_digits zero String.[] = true
hex_digits zero (String.◌∷◌ c s) = false
hex_digits (suc n) String.[] = false
hex_digits (suc n) (String.◌∷◌ c s) = is_hex c && hex_digits n s

-- What follows a given beginning.
pub after_prefix : String → String → Option String
after_prefix String.[] s = some s
after_prefix (String.◌∷◌ c p) String.[] = none
after_prefix (String.◌∷◌ c p) (String.◌∷◌ d s) =
    let rest = after_prefix p s in if code c == code d then rest else none

unfoldable pub is_digest : String → Bool
unfolding hex_digits after_prefix
is_digest s = elim (after_prefix "sha256:" s) [ none ↦ false | some rest ↦ hex_digits 64 rest ]

-- The timestamps that a state requires.
abbrev pub required_timestamps : String → List String
required_timestamps state =
    if str_eq state "staging"
    then []
    else if str_eq state "verified"
    then "verifiedAt" ∷ []
    else if str_eq state "serving"
    then "verifiedAt" ∷ "servingAt" ∷ []
    else "verifiedAt" ∷ "servingAt" ∷ "retiredAt" ∷ []

abbrev pub is_null : Stamp → Bool
is_null null = true
is_null _ = false

pub record Promotion : Type 0 where
  pub profile_id : String
  pub from_lifecycle_id : String
  pub to_lifecycle_id : String
  pub expected_manifest_digest : String
  pub operation : String
  pub mutate_accepted_lifecycle : Bool

abbrev pub same_option : Option String → Option String → Bool
same_option none none = true
same_option (some s) (some t) = str_eq s t
same_option _ _ = false

-- `===` on timestamps; two objects that are no texts differ.
abbrev pub same_stamp : Stamp → Stamp → Bool
same_stamp null null = true
same_stamp (text s) (text t) = str_eq s t
same_stamp _ _ = false

-- The loop over `IMMUTABLE_FIELDS`.
unfoldable pub same_immutable : Lifecycle → Lifecycle → Bool
same_immutable a b =
    str_eq a.schema b.schema
    && str_eq a.lifecycle_id b.lifecycle_id
    && str_eq a.profile_id b.profile_id
    && str_eq a.storage_resource_id b.storage_resource_id
    && str_eq a.manifest_digest b.manifest_digest
    && str_eq a.fixture_digest b.fixture_digest
    && same_option a.previous_lifecycle_id b.previous_lifecycle_id
    && same_stamp a.created_at b.created_at

abbrev pub allowed_transitions : List String
allowed_transitions = "staging->verified" ∷ "verified->serving" ∷ "serving->retired" ∷ []

abbrev pub arrow : String → String → String
arrow a b = text_append a (text_append "->" b)

abbrev pub is_previous : Option String → String → Bool
is_previous none id = false
is_previous (some previous) id = str_eq previous id

module _ (parses : String → Bool) where
  abbrev pub is_date : Stamp → Bool
  is_date (text s) = parses s
  is_date _ = false

  abbrev pub check_timestamp : String → String → Stamp → Result LifecycleError (Unit {0})
  check_timestamp state field value =
      if includes (required_timestamps state) field
      then require (is_date value) (bad_date field)
      else require (is_null value) (must_be_null field)

  unfoldable pub validate_lifecycle : Lifecycle → Result LifecycleError (Unit {0})
  validate_lifecycle r = do
    require (str_eq r.schema "eacl-demo.data-lifecycle.v1") bad_schema
    require (is_lifecycle_id r.lifecycle_id) bad_id
    require (is_digest r.manifest_digest && is_digest r.fixture_digest) bad_digest
    require (includes states r.state) bad_state
    require (is_date r.created_at) (bad_date "createdAt")
    check_timestamp r.state "verifiedAt" r.verified_at
    check_timestamp r.state "servingAt" r.serving_at
    check_timestamp r.state "retiredAt" r.retired_at

  unfoldable pub transition_lifecycle : Lifecycle → Lifecycle → Result LifecycleError Lifecycle
  transition_lifecycle a b = do
    validate_lifecycle a
    validate_lifecycle b
    require (same_immutable a b) immutable_field
    require (includes allowed_transitions (arrow a.state b.state)) forbidden_transition
    ok b

  unfoldable pub require_ordinary_deploy_manifest :
      Lifecycle → String → Result LifecycleError Lifecycle
  require_ordinary_deploy_manifest r expected = do
    validate_lifecycle r
    require (str_eq r.state "serving") not_serving
    require (str_eq r.manifest_digest expected) stateful_migration_required
    ok r

  unfoldable pub plan_blue_green_promotion : Lifecycle → Lifecycle → Result LifecycleError Promotion
  plan_blue_green_promotion current candidate = do
    validate_lifecycle current
    validate_lifecycle candidate
    require (str_eq current.state "serving" && str_eq candidate.state "verified") not_promotable
    require (str_eq current.profile_id candidate.profile_id) crosses_profiles
    require
        (not (
          str_eq current.lifecycle_id candidate.lifecycle_id
          || str_eq current.storage_resource_id candidate.storage_resource_id))
        same_storage
    require (is_previous candidate.previous_lifecycle_id current.lifecycle_id) wrong_predecessor
    ok (record {
      profile_id = current.profile_id;
      from_lifecycle_id = current.lifecycle_id;
      to_lifecycle_id = candidate.lifecycle_id;
      expected_manifest_digest = candidate.manifest_digest;
      operation = "atomic-profile-data-pointer-update";
      mutate_accepted_lifecycle = false;
    })
