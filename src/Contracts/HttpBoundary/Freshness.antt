-- ===== src/Contracts/HttpBoundary/Freshness.antt =====
-- packages/contracts/src/http-boundary.mjs: the freshness options of an accepted request fit together.
use eacl_demo.Base.{
  require-ok, ◌≡◌, ◌↔◌, Bool, true, false, not, ◌&&◌, ◌||◌, str_eq, if◌then◌else◌, String, Option,
  none, some, Result, ok, err, require-eq-ok, bind-eq-ok, ◌>>=◌, leb, len, inl, inr, Option-cases,
  arith,
}
use eacl_demo.Json.{Json, Members, end, obj}
use eacl_demo.Contracts.Routes.{is_method, parse_api_route}
use eacl_demo.Contracts.HttpBoundary.{
  Rejected, Body, absent, other, text, HttpRequest, Accepted, is_value, is_null, is_empty, is_clean,
  valid_id, text_or, valid_values, check_freshness, check_input, read_body, is_json_type, routed,
  accept_get, accept_post, validate_http_request,
}
use eacl_demo.Contracts.HttpFields.{has_key, body_fields, fields_in, valid_keys}

-- An exact snapshot goes with the historical mode, and each option of the relative mode with the one
-- before it.
pub record IsFresh (input : Members) : Type 0 where
  pub exact :
      (has_key "atExactSnapshotAt" input ≡ true)
      ↔ (is_value "consistency" "historical-date" input ≡ true)
  pub floor :
      has_key "atLeastAsFreshAs" input ≡ true → is_value "consistency" "at-least" input ≡ true
  pub basis : has_key "atLeastAsFreshBasisId" input ≡ true → has_key "atLeastAsFreshAs" input ≡ true
  pub captured :
      has_key "atLeastAsFreshBasisCapturedAt" input ≡ true
      → has_key "atLeastAsFreshBasisId" input ≡ true

first_implies : (a b c d : Bool) → (not (a || b || c) || d) ≡ true → a ≡ true → d ≡ true
first_implies a b c d h k = ground arith

implies : (a b : Bool) → (not a || b) ≡ true → a ≡ true → b ≡ true
implies a b h k = ground arith

implies_last : (a b c : Bool) → (not a || (b && c)) ≡ true → a ≡ true → c ≡ true
implies_last a b c h k = ground arith

module _ (parses_date : String → Bool) (parse_json : String → Option Json) where
  check_freshness-IsFresh :
      (input : Members) {u : Unit {0}}
      → check_freshness parses_date parse_json input ≡ ok u
      → IsFresh input
  unfolding check_freshness
  check_freshness-IsFresh input h =
      let floor = has_key "atLeastAsFreshAs" input in
      let basis = has_key "atLeastAsFreshBasisId" input in
      let captured = has_key "atLeastAsFreshBasisCapturedAt" input in
      let exact = has_key "atExactSnapshotAt" input in
      let relative = is_value "consistency" "at-least" input in
      let historical = is_value "consistency" "historical-date" input in
      let (a, h1) = require-eq-ok (not (floor || basis || captured) || relative) _ _ h in
      let (b, h2) = require-eq-ok (not basis || floor) _ _ h1 in
      let (c, h3) = require-eq-ok (not captured || (floor && basis)) _ _ h2 in
      let (d, h4) = require-eq-ok (not exact || historical) _ _ h3 in
      let e = require-ok (not historical || exact) _ h4 in
      record {
        exact = (implies exact historical d, implies historical exact e);
        floor = first_implies floor basis captured relative a;
        basis = implies basis floor b;
        captured = implies_last captured floor basis c;
      }

  check_input-IsFresh :
      (operation : String) (input : Members) {u : Unit {0}}
      → check_input parses_date parse_json operation input ≡ ok u
      → IsFresh input
  unfolding check_input
  check_input-IsFresh operation input h = elim (Option-cases (fields_in body_fields operation)) [
    | inl n ↦
        let no : ◌≡◌ {A = Result Rejected (Unit {0})} (err Rejected.validation_error) (ok _) =
          rw (n, check_input) at h in
        cc
    | inr (f, n) ↦
        let (_, h1) = require-eq-ok (valid_keys input f) _ _ (rw (n, check_input) at h) in
        let (_, h2) =
          require-eq-ok
            (not (str_eq operation "reverse-relationships" && has_key "permission" input)
              || has_key "authorizationSubjectId" input)
            _ _ h1 in
        let (_, h3) = require-eq-ok (valid_values parses_date parse_json input) _ _ h2 in
        check_freshness-IsFresh input h3
  ]

  parsed-IsFresh :
      (operation : String) (parsed : Option Json) (input : Members)
      → (elim parsed [
        | some (obj ms) ↦ (check_input parses_date parse_json operation ms >>= λ _. ok ms)
        | _ ↦ err Rejected.validation_error
      ])
        ≡ ok input
      → IsFresh input
  parsed-IsFresh operation none input h = cc
  parsed-IsFresh operation (some (obj ms)) input h =
      let (_, fits, e) = bind-eq-ok (check_input parses_date parse_json operation ms) _ h in
      let same : ms ≡ input = cc in rw (← same) (check_input-IsFresh operation ms fits)
  parsed-IsFresh operation (some _) input h = cc

  read_body-IsFresh :
      (operation : String) (body : Body) (input : Members)
      → read_body parses_date parse_json operation body ≡ ok input
      → IsFresh input
  unfolding read_body
  read_body-IsFresh operation absent input h = cc
  read_body-IsFresh operation other input h = cc
  read_body-IsFresh operation (text body) input h =
      let (_, h1) = require-eq-ok (leb (len body) 65536) _ _ h in
      parsed-IsFresh operation (parse_json body) input h1

  accepted-IsFresh :
      (r : HttpRequest) (operation : String) (b : Bool) (a : Accepted)
      → (if b
          then accept_get parses_date parse_json operation r
          else accept_post parses_date parse_json operation r)
        ≡ ok a
      → IsFresh a.input
  unfolding accept_get accept_post
  accepted-IsFresh r operation true a h =
      let (_, k) = require-eq-ok (is_null r.content_type && is_empty r.body) _ _ h in
      let same : end ≡ a.input = cc in
      rw (← same) (record {
        exact = (λ e. cc, λ e. cc);
        floor = λ e. cc;
        basis = λ e. cc;
        captured = λ e. cc;
      })
  accepted-IsFresh r operation false a h =
      let (_, k) = require-eq-ok (is_json_type r.content_type) _ _ h in
      let (input, read, last) =
        bind-eq-ok (read_body parses_date parse_json operation r.body) _ k in
      let same : input ≡ a.input = cc in rw (← same) (read_body-IsFresh operation r.body input read)

  -- In each request that is accepted the freshness options fit together: an exact snapshot is asked for
  -- exactly in the historical mode, a floor only in the mode `at-least`, the floor's basis only with a
  -- floor, and the time of the basis only with the basis.
  pub validate_http_request-IsFresh :
      (r : HttpRequest) (a : Accepted)
      → validate_http_request parses_date parse_json r ≡ ok a
      → IsFresh a.input
  unfolding validate_http_request
  validate_http_request-IsFresh r a h =
      let (_, h1) = require-eq-ok (is_clean r.path) _ _ h in
      let (_, h2) = require-eq-ok (str_eq (text_or r.query) "" && not (is_null r.query)) _ _ h1 in
      let (operation, _, h3) =
        bind-eq-ok (routed parses_date parse_json (parse_api_route r.path r.method)) _ h2 in
      let (_, h4) = require-eq-ok (valid_id r.request_id) _ _ h3 in
      accepted-IsFresh r operation (is_method (text_or r.method) "GET") a h4
