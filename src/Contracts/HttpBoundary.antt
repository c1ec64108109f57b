-- ===== src/Contracts/HttpBoundary.antt =====
-- packages/contracts/src/http-boundary.mjs: which HTTP requests are accepted, with the limits of
-- limits.v1.json. `JSON.parse` and whether `Date.parse` reads a text are arguments.

pub mod Freshness
use Prim.Native.Char.{Char, code}
use eacl_demo.Base.{
  ℕ, suc, ◌+◌, Bool, true, false, not, ◌&&◌, ◌||◌, ◌==◌, leb, str_eq, if◌then◌else◌, code_within,
  String, len, units, List, [], ◌∷◌, ◌++◌, length, all, includes, string_eq, Option, none, some,
  Result, ok, err, ◌>>=◌, ◌>>◌, require, require-eq-ok, bind-eq-ok, ◌≡◌,
}
use eacl_demo.Json.{Json, Members, end, member, obj, str, num, bool}
use eacl_demo.Json.Order.{compare_units}
use eacl_demo.Contracts.Routes.{
  RouteError, codes, is_same, is_method, logical_operations, parse_api_route,
  parse_api_route-IsOperation,
}
use eacl_demo.Contracts.HttpFields.{
  modes, consistency_fields, Fields, fields, caching, body_fields, fields_in, keys_of, has_key,
  value_of, valid_keys, is_alphanumeric, is_identifier_char, identifier_rest, is_identifier,
  integer_within, on_text, is_bool, dates, typed_fields, filter_keys,
}

pub data Rejected : Type 0 where
  route : RouteError → Rejected
  validation_error unsupported_media_type request_too_large : Rejected

-- What is no text is `none`, and a body may be absent, a text or something else.
pub data Body : Type 0 where
  absent other : Body
  text : String → Body

pub record HttpRequest : Type 0 where
  pub path : Option String
  pub method : Option String
  pub content_type : Option String
  pub query : Option String
  pub body : Body
  pub request_id : Option String

pub record Accepted : Type 0 where
  pub operation : String
  pub request_id : String
  pub input : Members

abbrev pub lower_codes : String → List ℕ
lower_codes String.[] = []
lower_codes (String.◌∷◌ c s) = (if code_within 65 90 c then code c + 32 else code c) ∷ lower_codes s

-- `contentType?.toLowerCase()` is one of the two.
unfoldable pub is_json_type : Option String → Bool
unfolding codes compare_units
is_json_type none = false
is_json_type (some s) =
    is_same (compare_units (lower_codes s) (codes "application/json"))
    || is_same (compare_units (lower_codes s) (codes "application/json; charset=utf-8"))

abbrev pub is_null : Option String → Bool
is_null none = true
is_null (some s) = false

-- No body, or an empty one.
abbrev pub is_empty : Body → Bool
is_empty absent = true
is_empty other = false
is_empty (text s) = str_eq s ""

abbrev pub last_is_slash : String → Bool
last_is_slash String.[] = false
last_is_slash (String.◌∷◌ c String.[]) = code c == 47
last_is_slash (String.◌∷◌ c (String.◌∷◌ d s)) = last_is_slash (String.◌∷◌ d s)

-- `path.includes("%") || path.includes("//")`
abbrev pub has_escape : String → Bool
has_escape String.[] = false
has_escape (String.◌∷◌ c String.[]) = code c == 37
has_escape (String.◌∷◌ c (String.◌∷◌ d s)) =
    code c == 37 || (code c == 47 && code d == 47) || has_escape (String.◌∷◌ d s)

abbrev pub is_clean : Option String → Bool
is_clean none = false
is_clean (some path) = not (has_escape path || last_is_slash path)

abbrev pub valid_id : Option String → Bool
valid_id none = false
valid_id (some s) = leb 1 (units s) && leb (units s) 128

abbrev pub text_or : Option String → String
text_or none = ""
text_or (some s) = s

-- `input[key] === value`
abbrev pub is_value : String → String → Members → Bool
is_value key value input = elim (value_of key input) [
  | none ↦ false
  | some v ↦ on_text (str_eq value) v
]

module _ (parses_date : String → Bool) (parse_json : String → Option Json) where
  abbrev pub valid_value : String → Json → Bool
  valid_value key v =
      (not (str_eq key "pageSize") || integer_within 1000 v)
      && (not (str_eq key "ceiling") || integer_within 1000000 v)
      && (not (str_eq key "cursor") || on_text (λ s. leb (len s) 4096) v)
      && (not (includes ("cache" ∷ "populateCache" ∷ []) key) || is_bool v)
      && (not (str_eq key "consistency") || on_text (includes modes) v)
      && (not (includes dates key) || on_text (λ s. leb (units s) 64 && parses_date s) v)
      && (includes typed_fields key || on_text (λ s. leb (len s) 256 && is_identifier s) v)

  pub all_valid : Members → Bool
  all_valid end = true
  all_valid (member k v ms) = valid_value k v && all_valid ms

  unfoldable pub valid_values : Members → Bool
  unfolding all_valid
  valid_values input =
      (not (has_key "authorizationSubjectType" input || has_key "authorizationSubjectId" input)
        || (has_key "authorizationSubjectType" input
            && has_key "authorizationSubjectId" input
            && has_key "permission" input))
      && (all (λ k. not (has_key k input)) filter_keys || all (λ k. has_key k input) filter_keys)
      && all_valid input

  -- The tests on the freshness options, in their order.
  unfoldable pub check_freshness : Members → Result Rejected (Unit {0})
  unfolding value_of
  check_freshness input = do
    require
        (not (
            has_key "atLeastAsFreshAs" input
            || has_key "atLeastAsFreshBasisId" input
            || has_key "atLeastAsFreshBasisCapturedAt" input)
          || is_value "consistency" "at-least" input)
        validation_error
    require (not (has_key "atLeastAsFreshBasisId" input) || has_key "atLeastAsFreshAs" input)
        validation_error
    require
        (not (has_key "atLeastAsFreshBasisCapturedAt" input)
          || (has_key "atLeastAsFreshAs" input && has_key "atLeastAsFreshBasisId" input))
        validation_error
    require
        (not (has_key "atExactSnapshotAt" input) || is_value "consistency" "historical-date" input)
        validation_error
    require
        (not (is_value "consistency" "historical-date" input) || has_key "atExactSnapshotAt" input)
        validation_error

  unfoldable pub check_input : String → Members → Result Rejected (Unit {0})
  unfolding fields_in valid_keys valid_values check_freshness
  check_input operation input = elim (fields_in body_fields operation) [
    | none ↦ err validation_error
    | some f ↦ do
      require (valid_keys input f) validation_error
      require
          (not (str_eq operation "reverse-relationships" && has_key "permission" input)
            || has_key "authorizationSubjectId" input)
          validation_error
      require (valid_values input) validation_error
      check_freshness input
  ]

  -- The body of a POST.
  unfoldable pub read_body : String → Body → Result Rejected Members
  unfolding check_input
  read_body operation absent = err request_too_large
  read_body operation other = err request_too_large
  read_body operation (text body) = do
    require (leb (len body) 65536) request_too_large
    elim (parse_json body) [
      | some (obj input) ↦ do check_input operation input; ok input
      | _ ↦ err validation_error
    ]

  abbrev pub routed : Result RouteError String → Result Rejected String
  routed (ok operation) = ok operation
  routed (err e) = err (route e)

  unfoldable pub accept_get : String → HttpRequest → Result Rejected Accepted
  accept_get operation r = do
    require (is_null r.content_type && is_empty r.body) unsupported_media_type
    ok (record { operation = operation; request_id = text_or r.request_id; input = end })

  unfoldable pub accept_post : String → HttpRequest → Result Rejected Accepted
  unfolding is_json_type read_body
  accept_post operation r = do
    require (is_json_type r.content_type) unsupported_media_type
    input ← read_body operation r.body
    ok (record { operation = operation; request_id = text_or r.request_id; input = input })

  unfoldable pub validate_http_request : HttpRequest → Result Rejected Accepted
  unfolding parse_api_route is_method accept_get accept_post
  validate_http_request r = do
    require (is_clean r.path) (route RouteError.route_not_found)
    require (str_eq (text_or r.query) "" && not (is_null r.query)) validation_error
    operation ← routed (parse_api_route r.path r.method)
    require (valid_id r.request_id) validation_error
    if is_method (text_or r.method) "GET" then accept_get operation r else accept_post operation r

  routed-ok :
      (r : Result RouteError String) (operation : String)
      → routed r ≡ ok operation
      → r ≡ ok operation
  routed-ok (ok o) operation h = cc
  routed-ok (err e) operation h = cc

  accepted_operation :
      (r : HttpRequest) (operation : String) (b : Bool) (a : Accepted)
      → (if b then accept_get operation r else accept_post operation r) ≡ ok a
      → a.operation ≡ operation
  unfolding accept_get accept_post
  accepted_operation r operation true a h =
      let (_, k) = require-eq-ok (is_null r.content_type && is_empty r.body) _ _ h in cc
  accepted_operation r operation false a h =
      let (_, k) = require-eq-ok (is_json_type r.content_type) _ _ h in
      let (input, _, last) = bind-eq-ok (read_body operation r.body) _ k in cc

  pub validate_http_request-IsOperation :
      (r : HttpRequest) (a : Accepted)
      → validate_http_request r ≡ ok a
      → includes logical_operations a.operation ≡ true
  unfolding validate_http_request
  validate_http_request-IsOperation r a h =
      let (_, h1) = require-eq-ok (is_clean r.path) _ _ h in
      let (_, h2) = require-eq-ok (str_eq (text_or r.query) "" && not (is_null r.query)) _ _ h1 in
      let (operation, e, h3) = bind-eq-ok (routed (parse_api_route r.path r.method)) _ h2 in
      let (_, h4) = require-eq-ok (valid_id r.request_id) _ _ h3 in
      let same = accepted_operation r operation (is_method (text_or r.method) "GET") a h4 in
      rw same (
        parse_api_route-IsOperation r.path r.method operation
          (routed-ok (parse_api_route r.path r.method) operation e))
