-- ===== src/Explorer/Controller/Panels.antt =====
-- packages/explorer-state/src/explorer-controller.mjs: `runPanel`, `cancelPanel`, `retryPanel`. The
-- await cuts `runPanel` in two; `panel_responded` is what follows it, with `catch` and `finally`.
use Prim.Native.Char.{Char, code}
use Prim.Native.String.{◌++◌ as text_append}
use eacl_demo.Base.{
  ℕ, zero, suc, Bool, true, false, ◌&&◌, ◌||◌, not, ◌==◌, leb, if◌then◌else◌, String, List, [], ◌∷◌,
  Option, none, some, ok, err, includes, string_eq, decimal,
}
use eacl_demo.Json.{Json}
use eacl_demo.Explorer.Types.{Descriptor}
use eacl_demo.Explorer.Errors.{
  Thrown, coded, plain, PublicError, EnvelopeError, safe_error, safe_envelope_error, request_failed,
}
use eacl_demo.Explorer.Controller.{
  Status, Phase, Panel, Controller, Session, PanelRequest, RetryInput, Validate, requesting,
}
use eacl_demo.Explorer.Controller.Publish.{
  lookup, insert, remove, publish_panel, publish_panel_announced, abort, is_aborted, await,
  transport_of,
}

abbrev pub within_code : ℕ → ℕ → Char → Bool
within_code low high c = leb low (code c) && leb (code c) high

abbrev pub is_lower : Char → Bool
is_lower = within_code 97 122

abbrev pub is_panel_char : Char → Bool
is_panel_char c = is_lower c || within_code 48 57 c || within_code 45 45 c

-- `[a-z0-9-]{0,n}$`
abbrev pub panel_tail : ℕ → String → Bool
panel_tail n String.[] = true
panel_tail zero (String.◌∷◌ c s) = false
panel_tail (suc n) (String.◌∷◌ c s) = is_panel_char c && panel_tail n s

-- `PANEL_ID.test(panelId)`
unfoldable pub validate_panel_id : String → Bool
validate_panel_id String.[] = false
validate_panel_id (String.◌∷◌ c s) = is_lower c && panel_tail 63 s

-- What a call of `runPanel` does up to its await.
pub data Run : Type 0 where
  invalid_id not_ready bad_descriptor unsupported : Run
  started : String → Run

abbrev pub operations_of : Descriptor → Option (List String)
operations_of d = elim d.capabilities [ none ↦ none | some c ↦ c.operations ]

abbrev pub unsupported_error : Thrown
unsupported_error =
    coded "unsupported-capability" "This profile does not advertise that operation." false

abbrev pub request_controller : Option PanelRequest → Option ℕ
request_controller none = none
request_controller (some r) = some r.controller

abbrev pub show_loading : String → String → Panel → Panel
show_loading operation request_id p = record p {
  phase = Phase.loading;
  operation = some operation;
  request_id = some request_id;
  error = none;
  retryable = false;
}

-- `new AbortController()` and `forwardAbort(current.controller.signal, controller)`.
abbrev pub linked_controller : ℕ → Controller → Controller
linked_controller parent s =
    let child = s.controllers in
    let reached = if is_aborted parent s then some child else none in
    abort reached (record s { controllers = suc child; links = (child, parent) ∷ s.links })

-- From `panelRequests.get(panelId)?.controller.abort("superseded")` on.
unfoldable pub start_request :
    String → String → Json → Validate → Session → Controller → Controller × Run
start_request id operation input validate current s =
    let request_id =
      text_append (decimal current.epoch) (text_append "-" (decimal (suc s.request_sequence))) in
    let request : PanelRequest = record {
      controller = s.controllers;
      epoch = current.epoch;
      request_id = request_id;
      operation = operation;
    } in
    let input_kept : RetryInput = record {
      operation = operation;
      input = input;
      validate = validate;
    } in
    let t =
      linked_controller current.controller
        (abort (request_controller (lookup id s.panel_requests)) s) in
    (
      await (requesting id request validate) (
          publish_panel id (show_loading operation request_id) (record t {
            request_sequence = suc s.request_sequence;
            panel_requests = insert id request t.panel_requests;
            retry_inputs = insert id input_kept t.retry_inputs;
          })),
      started request_id,
    )

abbrev pub show_panel_error : PublicError → Panel → Panel
show_panel_error e p = record p { phase = Phase.error; error = some e; retryable = e.retryable }

-- `!current || state.status !== "ready" || !state.descriptor`
abbrev pub ready_session :
    Option Session → Status → Option Descriptor → Option (Session × Descriptor)
ready_session (some current) Status.ready (some d) = some (current, d)
ready_session _ _ _ = none

unfoldable pub run_panel : String → String → Json → Validate → Controller → Controller × Run
run_panel id operation input validate s =
    if not (validate_panel_id id)
    then (s, invalid_id)
    else elim (ready_session s.session s.public.status s.public.descriptor) [
      | none ↦ (s, not_ready)
      | some (current, d) ↦ elim (operations_of d) [
        | none ↦ (s, bad_descriptor)
        | some operations ↦
            let next = start_request id operation input validate current s in
            if includes operations operation then next else (
              publish_panel_announced id
                  (λ p. record (show_panel_error (safe_error unsupported_error request_failed) p) {
                    operation = some operation;
                    retryable = false;
                  })
                  (text_append id " is unavailable.") "assertive" s,
              unsupported,
            )
      ]
    ]

-- How `transport.request` ends: an envelope with `error` or with `data`, another object or nothing,
-- a primitive value (for which `in` throws), or an exception.
pub data Reply : Type 0 where
  failure : EnvelopeError → Option Json → Reply
  success : Json → Option Json → Reply
  malformed : Reply
  primitive : Reply
  threw : Thrown → Reply

pub data Outcome : Type 0 where
  stale canceled failed succeeded : Outcome

-- `isCurrentPanelRequest`
unfoldable pub is_current : String → PanelRequest → Controller → Bool
is_current id request s = elim (lookup id s.panel_requests) [
  | none ↦ false
  | some r ↦ r.controller == request.controller
]

abbrev pub show_request_error : String → PublicError → Panel → Panel
show_request_error request_id e p = record (show_panel_error e p) { request_id = some request_id }

-- The `catch`.
unfoldable pub panel_threw : String → PanelRequest → Thrown → Controller → Controller × Outcome
panel_threw id request e s =
    if not (is_current id request s) || not (request.epoch == s.epoch)
    then (s, stale)
    else if is_aborted request.controller s
    then (
      publish_panel_announced id
          (λ p. record p {
            phase = Phase.canceled;
            request_id = some request.request_id;
            error = none;
            retryable = true;
          })
          (text_append id " canceled.") "polite" s,
      canceled,
    )
    else (
      publish_panel_announced id
          (show_request_error request.request_id (safe_error e request_failed))
          (text_append id " failed.") "assertive" s,
      failed,
    )

abbrev pub invalid_response : Thrown
invalid_response = coded "invalid-response" "The profile returned an invalid response." false

abbrev pub show_value : String → Json → Option Json → Panel → Panel
show_value request_id value meta p = record p {
  phase = Phase.ready;
  request_id = some request_id;
  value = some value;
  error = none;
  retryable = false;
  meta = meta;
}

-- The `try`, behind the await.
abbrev pub panel_replied :
    String → PanelRequest → Validate → Reply → Controller → Controller × Outcome
panel_replied id request validate (failure e meta) s = (
  publish_panel_announced id
      (λ p. record (show_request_error request.request_id (safe_envelope_error e) p) {
        meta = meta;
      })
      (text_append id " failed.") "assertive" s,
  failed,
)
panel_replied id request validate (success result meta) s = elim (validate result) [
  | err e ↦ panel_threw id request e s
  | ok value ↦ (
    publish_panel_announced id (show_value request.request_id value meta)
        (text_append id " updated.") "polite" s,
    succeeded,
  )
]
panel_replied id request validate malformed s = panel_threw id request invalid_response s
panel_replied id request validate primitive s = panel_threw id request (plain "TypeError") s
panel_replied id request validate (threw e) s = panel_threw id request e s

-- Only a call that threw goes to the `catch` without the test for staleness of the `try`.
abbrev pub returned : Reply → Bool
returned (threw e) = false
returned _ = true

-- The `finally`: unlink, and forget the request if it is the current one.
abbrev pub without_link : ℕ → List (ℕ × ℕ) → List (ℕ × ℕ)
without_link c [] = []
without_link c ((child, parent) ∷ links) =
    let rest = without_link c links in if child == c then rest else (child, parent) ∷ rest

unfoldable pub panel_settled : String → PanelRequest → Controller → Controller
panel_settled id request s = record s {
  links = without_link request.controller s.links;
  panel_requests =
      (if is_current id request s then remove id s.panel_requests else s.panel_requests);
}

-- Behind `await current.transport.request(…)`.
unfoldable pub panel_responded :
    String → PanelRequest → Validate → Reply → Controller → Controller × Outcome
panel_responded id request validate reply s =
    let current = is_current id request s in
    let is_stale =
      not current || is_aborted request.controller s || not (request.epoch == s.epoch) in
    let next =
      if returned reply && is_stale
      then (s, stale)
      else panel_replied id request validate reply s in
    (panel_settled id request (next.0), next.1)

pub data Cancel : Type 0 where
  invalid_id nothing_to_cancel : Cancel
  -- The transport whose `cancel` is called, if there is a session, and the request id.
  cancel_sent : Option ℕ → String → Cancel

unfoldable pub cancel_panel : String → Controller → Controller × Cancel
cancel_panel id s =
    if not (validate_panel_id id) then (s, invalid_id) else elim (lookup id s.panel_requests) [
      | none ↦ (s, nothing_to_cancel)
      | some r ↦ (abort (some r.controller) s, cancel_sent (transport_of s.session) r.request_id)
    ]

pub data Retry : Type 0 where
  invalid_id nothing_to_retry : Retry
  ran : Run → Retry

unfoldable pub retry_panel : String → Controller → Controller × Retry
retry_panel id s =
    if not (validate_panel_id id) then (s, invalid_id) else elim (lookup id s.retry_inputs) [
      | none ↦ (s, nothing_to_retry)
      | some r ↦ let (t, run) = run_panel id r.operation r.input r.validate s in (t, ran run)
    ]
