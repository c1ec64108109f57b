-- ===== src/Explorer/Transport.antt =====
-- packages/explorer-state/src/http-transport.mjs: the requests of a server profile's transport. The
-- network, with the deadline of each request, is an argument, as are the validators of requests and
-- responses, the decoder, `JSON.parse` and whether a URL stays in its route.
pub mod Binding
pub mod Start
pub mod Origin
pub mod Signal
use Prim.Native.Char.{code}
use Prim.Native.String.{◌++◌ as text_append}
use eacl_demo.Base.{
  ℕ, ◌+◌, Bool, true, false, not, ◌&&◌, ◌||◌, ◌==◌, leb, ltb, str_eq, if◌then◌else◌, String, units,
  decimal, List, [], ◌∷◌, includes, string_eq, Option, none, some, Result, ok, err, ◌>>=◌, ◌>>◌,
  require, reject,
}
use eacl_demo.Json.{Json, Members}
use eacl_demo.Contracts.Routes.{codes}
use eacl_demo.Contracts.HttpBoundary.{lower_codes}
use eacl_demo.Contracts.HttpFields.{is_alphanumeric}
use eacl_demo.Contracts.HttpClient.{ReadError, HttpResponse, read_bounded_json_response}
use eacl_demo.Explorer.Errors.{Thrown, coded, plain}

abbrev pub closed_operations : List String
closed_operations =
    "health" ∷ "bootstrap" ∷ "list-subjects" ∷ "get-object" ∷ "list-relationships"
    ∷ "reverse-relationships" ∷ "check-permission" ∷ "get-schema" ∷ "get-cache-info"
    ∷ "count-objects" ∷ "lookup-resources" ∷ "lookup-subjects" ∷ "count-resources" ∷ []

abbrev pub get_operations : List String
get_operations = "health" ∷ "bootstrap" ∷ []

pub id_rest : String → Bool
id_rest String.[] = true
id_rest (String.◌∷◌ c s) =
    (is_alphanumeric c || code c == 46 || code c == 95 || code c == 58 || code c == 45) && id_rest s

-- `REQUEST_ID`
unfoldable pub is_request_id : String → Bool
unfolding id_rest
is_request_id String.[] = false
is_request_id (String.◌∷◌ c s) = is_alphanumeric c && id_rest s && leb (units s) 127

-- An envelope that the validator has let pass: the request id of its `meta`, if it has one, and its
-- members `data` and `error`.
pub record Fault : Type 0 where
  pub code : String
  pub message : String

pub record Envelope (A : Type 0) : Type 0 where
  pub meta : Option (Option String)
  pub body : Option A
  pub fault : Option Fault

abbrev pub invalid_response : Thrown
invalid_response = coded "invalid-response" "The profile returned an invalid response." false

abbrev pub has {ℓ} : {A : Type ℓ} → Option A → Bool
has none = false
has (some a) = true

abbrev pub is_id : String → Option String → Bool
is_id request_id none = false
is_id request_id (some s) = str_eq s request_id

-- The tests on the status, which may be null.
unfoldable pub check_status : Bool → Bool → Option ℕ → Result Thrown (Unit {0})
check_status success failure none = ok tt
check_status success failure (some status) = do
  require (leb 200 status && leb status 599)
      (coded "invalid-response" "The profile returned an invalid HTTP status." false)
  require (not success || status == 200)
      (coded "invalid-response" "The profile success status was invalid." false)
  require (not failure || leb 400 status)
      (coded "invalid-response" "The profile failure status was invalid." false)

abbrev pub meta_of : Option (Option String) → Result Thrown (Option String)
meta_of none = err invalid_response
meta_of (some id) = ok id

unfoldable pub validate_envelope_binding :
    {A : Type 0} → Envelope A → String → Option ℕ → Result Thrown (Envelope A)
unfolding check_status
validate_envelope_binding e request_id status = do
  id ← meta_of e.meta
  require (is_id request_id id)
      (coded "identity-mismatch" "The profile response did not match this request." false)
  require ((has e.body && not (has e.fault)) || (has e.fault && not (has e.body))) invalid_response
  check_status (has e.body) (has e.fault) status
  ok e

pub record Transport : Type 0 where
  pub released : Bool
  pub sequence : ℕ

abbrev pub new_transport : Transport
new_transport = record { released = false; sequence = 0 }

pub record Options : Type 0 where
  pub request_id : Option String
  pub epoch : ℕ

-- What is handed to `fetch`; the body's text is `JSON.stringify` of the members.
pub record Outgoing : Type 0 where
  pub path : String
  pub method : String
  pub request_id : String
  pub body : Option Members

pub record Fetched : Type 0 where
  pub redirected : Bool
  pub content_type : String
  pub status : ℕ
  pub response : HttpResponse

-- What becomes of a request, and whether its deadline has passed by then.
pub record Answer : Type 0 where
  pub fetched : Result Thrown Fetched
  pub timed_out : Bool

abbrev pub is_prefix : List ℕ → List ℕ → Bool
is_prefix [] t = true
is_prefix (x ∷ s) [] = false
is_prefix (x ∷ s) (y ∷ t) = x == y && is_prefix s t

unfoldable pub is_json_response : String → Bool
unfolding codes
is_json_response s = is_prefix (codes "application/json") (lower_codes s)

abbrev pub read_failed : Result ReadError Members → Result Thrown Members
read_failed (ok members) = ok members
read_failed (err ReadError.too_large) =
    err (plain "HTTP response exceeds the one-megabyte client limit")
read_failed (err ReadError.invalid_response) =
    err (plain "HTTP target returned invalid JSON object")
read_failed (err e) = err (plain "HTTP response body is unreadable")

abbrev pub deadline_exceeded : Thrown
deadline_exceeded =
    coded "deadline-exceeded" "The profile request exceeded its client deadline." true

abbrev pub canceled : Thrown
canceled = coded "cancelled" "The selected profile transport has been released." true

-- The id of a request, and the transport whose sequence it may have counted up.
unfoldable pub request_id_of : Transport → Options → String × Transport
request_id_of t options = elim options.request_id [
  | some id ↦ (id, t)
  | none ↦ (
    text_append "browser-"
        (text_append (decimal options.epoch) (text_append "-" (decimal (t.sequence + 1)))),
    record t { sequence = t.sequence + 1 },
  )
]

abbrev pub method_of : String → String
method_of operation = if includes get_operations operation then "GET" else "POST"

abbrev pub outgoing : String → String → Members → Outgoing
outgoing operation request_id input = record {
  path = text_append "/" operation;
  method = method_of operation;
  request_id = request_id;
  body = (if includes get_operations operation then none else some input);
}

-- The validator of requests, which returns the input, the network and what reads its bytes.
pub record Services : Type 0 where
  pub validate_request : String → String → Members → Result Thrown Members
  pub stays_in_route : String → Bool
  pub network : Outgoing → Answer
  pub decode : List (List ℕ) → List ℕ → Option String
  pub flush : List (List ℕ) → Option String
  pub parse_json : String → Option Json
  pub maximum_response_bytes : ℕ

module _ {A : Type 0} (services : Services)
    (validate_response : Members → Result Thrown (Envelope A)) where
  -- The body of the `try`.
  unfoldable pub receive : String → Result Thrown Fetched → Result Thrown (Envelope A)
  unfolding is_json_response validate_envelope_binding read_bounded_json_response
  receive request_id fetched = do
    f ← fetched
    reject f.redirected invalid_response
    require (is_json_response f.content_type) invalid_response
    members ← read_failed (
        read_bounded_json_response services.decode services.flush services.parse_json
          services.maximum_response_bytes f.response)
    envelope ← validate_response members
    validate_envelope_binding envelope request_id (some f.status)

  abbrev pub late : Bool → Thrown → Thrown
  late timed_out e = if timed_out then deadline_exceeded else e

  -- With its `catch`.
  unfoldable pub send : Outgoing → Result Thrown (Envelope A)
  unfolding receive
  send o = elim (receive o.request_id ((services.network o).fetched)) [
    | ok envelope ↦ ok envelope
    | err e ↦ err (late (services.network o).timed_out e)
  ]

  -- With a request id at hand.
  unfoldable pub perform_with : String → String → Members → Result Thrown (Envelope A)
  unfolding is_request_id send
  perform_with operation request_id input = do
    require (is_request_id request_id) (plain "HTTP profile request ID is invalid")
    valid ← services.validate_request operation request_id input
    require (services.stays_in_route (text_append "/" operation))
        (plain "HTTP profile request escaped its deployment route")
    send (outgoing operation request_id valid)

  unfoldable pub perform_request :
      Transport → String → Members → Options → Result Thrown (Envelope A) × Transport
  unfolding request_id_of perform_with
  perform_request t operation input options =
      if t.released
      then (err canceled, t)
      else if includes closed_operations operation
      then (let (id, t') = request_id_of t options in (perform_with operation id input, t'))
      else (err (plain "HTTP profile operation is not closed"), t)

-- `release`: whether it was this call that released it.
unfoldable pub release : Transport → Bool × Transport
release t = if t.released then (false, t) else (true, record t { released = true })
