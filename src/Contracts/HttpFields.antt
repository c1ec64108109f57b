-- ===== src/Contracts/HttpFields.antt =====
-- packages/contracts/src/http-boundary.mjs: the fields of the operations' inputs, and the tests on a key and
-- a value.
use Prim.Native.Char.{Char, code}
use eacl_demo.Base.{
  ℕ, Bool, true, false, ◌&&◌, ◌||◌, ◌==◌, leb, str_eq, if◌then◌else◌, code_within, String, List, [],
  ◌∷◌, ◌++◌, length, all, includes, string_eq, Option, none, some,
}
use eacl_demo.Json.{Json, Members, end, member, str, num, bool}

abbrev pub modes : List String
modes = "minimize" ∷ "authoritative" ∷ "at-least" ∷ "exact" ∷ "historical-date" ∷ []

abbrev pub consistency_fields : List String
consistency_fields =
    "consistency" ∷ "atLeastAsFreshAs" ∷ "atLeastAsFreshBasisId" ∷ "atLeastAsFreshBasisCapturedAt"
    ∷ "atExactSnapshotAt" ∷ []

pub record Fields : Type 0 where
  pub required : List String
  pub optional : List String

abbrev pub fields : List String → List String → Fields
fields required optional = record { required = required; optional = optional }

abbrev pub caching : List String
caching = "cache" ∷ "populateCache" ∷ consistency_fields

abbrev pub body_fields : List (String × Fields)
body_fields =
    ("list-subjects", fields [] ("type" ∷ "pageSize" ∷ "cursor" ∷ []))
    ∷ ("get-object", fields ("type" ∷ "id" ∷ []) consistency_fields)
    ∷ (
      "list-relationships",
      fields ("resourceType" ∷ "resourceId" ∷ []) ("relation" ∷ "pageSize" ∷ "cursor" ∷ caching),
    )
    ∷ (
      "reverse-relationships",
      fields ("subjectType" ∷ "subjectId" ∷ []) (
          "resourceType" ∷ "authorizationSubjectType" ∷ "authorizationSubjectId" ∷ "permission"
          ∷ "relation" ∷ "pageSize" ∷ "cursor" ∷ caching),
    )
    ∷ (
      "check-permission",
      fields ("subjectType" ∷ "subjectId" ∷ "resourceType" ∷ "resourceId" ∷ "permission" ∷ [])
          caching,
    )
    ∷ (
      "lookup-resources",
      fields ("subjectType" ∷ "subjectId" ∷ "resourceType" ∷ "permission" ∷ []) (
          "relationshipSubjectType" ∷ "relationshipSubjectId" ∷ "relationshipRelation" ∷ "pageSize"
          ∷ "cursor" ∷ caching),
    )
    ∷ (
      "lookup-subjects",
      fields ("resourceType" ∷ "resourceId" ∷ "subjectType" ∷ "permission" ∷ [])
          ("pageSize" ∷ "cursor" ∷ caching),
    )
    ∷ (
      "count-resources",
      fields ("subjectType" ∷ "subjectId" ∷ "resourceType" ∷ "permission" ∷ [])
          ("ceiling" ∷ caching),
    )
    ∷ ("get-schema", fields [] consistency_fields)
    ∷ ("get-cache-info", fields [] [])
    ∷ ("count-objects", fields ("kind" ∷ []) ("type" ∷ "ceiling" ∷ consistency_fields))
    ∷ []

unfoldable pub fields_in : List (String × Fields) → String → Option Fields
fields_in [] operation = none
fields_in ((o, f) ∷ rest) operation =
    if str_eq o operation then some f else fields_in rest operation

abbrev pub keys_of : Members → List String
keys_of end = []
keys_of (member k v ms) = k ∷ keys_of ms

-- `key in input`
abbrev pub has_key : String → Members → Bool
has_key key input = includes (keys_of input) key

unfoldable pub value_of : String → Members → Option Json
value_of key end = none
value_of key (member k v ms) = if str_eq k key then some v else value_of key ms

unfoldable pub valid_keys : Members → Fields → Bool
valid_keys input f =
    all (λ k. has_key k input) f.required
    && all (includes (f.required ++ f.optional)) (keys_of input)
    && leb (length (keys_of input)) 1000

-- Characters of `[A-Za-z0-9]`, and of `[A-Za-z0-9._:@/-]`.
abbrev pub is_alphanumeric : Char → Bool
is_alphanumeric c = code_within 65 90 c || code_within 97 122 c || code_within 48 57 c

abbrev pub is_identifier_char : Char → Bool
is_identifier_char c =
    is_alphanumeric c
    || code c == 46
    || code c == 95
    || code c == 58
    || code c == 64
    || code c == 47
    || code c == 45

pub identifier_rest : String → Bool
identifier_rest String.[] = true
identifier_rest (String.◌∷◌ c s) = is_identifier_char c && identifier_rest s

-- `IDENTIFIER.test(value)`
unfoldable pub is_identifier : String → Bool
unfolding identifier_rest
is_identifier String.[] = false
is_identifier (String.◌∷◌ c s) = is_alphanumeric c && identifier_rest s

abbrev pub integer_within : ℕ → Json → Bool
integer_within high (num n) = leb 1 n && leb n high
integer_within high v = false

abbrev pub on_text : (String → Bool) → Json → Bool
on_text test (str s) = test s
on_text test v = false

abbrev pub is_bool : Json → Bool
is_bool (bool b) = true
is_bool v = false

abbrev pub dates : List String
dates = "atLeastAsFreshAs" ∷ "atLeastAsFreshBasisCapturedAt" ∷ "atExactSnapshotAt" ∷ []

abbrev pub typed_fields : List String
typed_fields = "pageSize" ∷ "ceiling" ∷ "cursor" ∷ "cache" ∷ "populateCache" ∷ "consistency" ∷ dates

abbrev pub filter_keys : List String
filter_keys = "relationshipSubjectType" ∷ "relationshipSubjectId" ∷ "relationshipRelation" ∷ []
