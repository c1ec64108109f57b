-- ===== src/Examples/Http.antt =====
-- The HTTP boundary of packages/contracts at concrete requests.
use eacl_demo.Base.{
  ◌≡◌, is_slug, ◌↔◌, refl, Bool, true, String, [], ◌∷◌, map, Option, some, ok, err,
}
use eacl_demo.Json.{Json, Members, end, member, obj, str}
use eacl_demo.Json.Order.{compare_units, utf16}
use eacl_demo.Contracts.Routes.{
  RouteError, slash, Reaches, operation_routes, parse_api_route, parse_api_route_iff,
}
use eacl_demo.Contracts.HttpBoundary.{
  Rejected, text, HttpRequest, Accepted, check_freshness, validate_http_request,
}
use eacl_demo.Contracts.HttpFields.{is_identifier}
use eacl_demo.Contracts.HttpBoundary.Freshness.{IsFresh, validate_http_request-IsFresh}
use eacl_demo.Contracts.Dispatcher.{
  Handlers, handler_of, create_read_only_dispatcher, dispatch, dispatch-serves,
}

abbrev any_date : String → Bool
any_date s = true

-- The one body that is read.
abbrev historical : Members
historical =
    member "consistency" (str "historical-date")
      (member "atExactSnapshotAt" (str "2026-01-02T03:04:05Z") end)

abbrev read_historical : String → Option Json
read_historical s = some (obj historical)

abbrev schema_request : HttpRequest
schema_request = record {
  path = some "/get-schema";
  method = some "post";
  content_type = some "Application/JSON";
  query = some "";
  body = text "{...}";
  request_id = some "r1";
}

abbrev accepted_schema : Accepted
accepted_schema = record { operation = "get-schema"; request_id = "r1"; input = historical }

accepts_schema : validate_http_request any_date read_historical schema_request ≡ ok accepted_schema
unfolding validate_http_request is_slug
accepts_schema = refl

abbrev escaped_request : HttpRequest
escaped_request = record schema_request { path = some "/get%2Dschema" }

rejects_escape :
    validate_http_request any_date read_historical escaped_request
    ≡ err (Rejected.route RouteError.route_not_found)
unfolding validate_http_request
rejects_escape = refl

rejects_get :
    parse_api_route (some "/get-schema") (some "GET")
    ≡ err (RouteError.method_not_allowed ("POST" ∷ []))
unfolding parse_api_route is_slug
rejects_get = refl

rejects_mode :
    check_freshness any_date read_historical (
      member "consistency"
        (str "exact")
        (member "atExactSnapshotAt" (str "2026-01-02T03:04:05Z") end))
    ≡ err Rejected.validation_error
unfolding check_freshness
rejects_mode = refl

accepts_identifier : is_identifier "user:7@x/y-z" ≡ true
unfolding is_identifier
accepts_identifier = refl

parse_api_route_iff_example :
    (parse_api_route (some "/health") (some "get") ≡ ok "health")
    ↔ (("/health" ≡ String.◌∷◌ slash "health") × Reaches operation_routes "health" "get")
parse_api_route_iff_example = parse_api_route_iff "/health" "get" "health"

validate_http_request-IsFresh_example : IsFresh historical
validate_http_request-IsFresh_example =
    validate_http_request-IsFresh any_date read_historical schema_request accepted_schema
      accepts_schema

abbrev echo : String → Members → String
echo operation input = operation

abbrev all_handlers : Handlers String
all_handlers = map (λ (r : String × String). (r.0, some (echo (r.0)))) operation_routes

dispatcher_made : create_read_only_dispatcher all_handlers ≡ ok all_handlers
unfolding create_read_only_dispatcher compare_units utf16
dispatcher_made = refl

dispatch-serves_example :
    (h : Members → String) × (handler_of "get-schema" all_handlers ≡ some (some h))
    × (dispatch all_handlers "get-schema" historical ≡ ok (h historical))
dispatch-serves_example =
    dispatch-serves any_date read_historical schema_request accepted_schema all_handlers
      all_handlers accepts_schema dispatcher_made
