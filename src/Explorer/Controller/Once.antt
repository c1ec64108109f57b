-- ===== src/Explorer/Controller/Once.antt =====
-- packages/explorer-state/src/explorer-controller.mjs: over any steps the epoch never goes back, and
-- a transport is released at most once.
use eacl_demo.Base.{
  ℕ, suc, ◌≤◌, Bool, not, ◌&&◌, ◌||◌, ◌==◌, if_holds, elim_holds, Result-cases, inl, inr, String,
  List, Option, none, some, OnOk, OnOk-bind, OnOk-apply, any_ok, OnOk-renamed, includes, IsDistinct,
  nat_eq, string_eq, arith,
}
use eacl_demo.Json.{Json}
use eacl_demo.Explorer.Types.{Profile, Preferences}
use eacl_demo.Explorer.Errors.{Thrown}
use eacl_demo.Explorer.Identity.{validate_enabled_profile}
use eacl_demo.Explorer.Preferences.{validate_preferences}
use eacl_demo.Explorer.Controller.{Controller, Session, PanelRequest, Intent, Validate}
use eacl_demo.Explorer.Controller.Publish.{
  lookup, released_with, publish_announced, publish_panel, publish_panel_announced, abort,
  abort_panels, is_aborted,
}
use eacl_demo.Explorer.Controller.Switch.{
  Released, done, Made, made, not_made, Bootstrapped, described, threw, is_switching,
  check_descriptor, switch_profile, startup_failed, previous_released, bootstrapped,
  failed_released, cancel_startup, canceled_released, retry_profile, bad_profile,
  set_portable_intent, set_preferences, close, closed_released, startup_tick,
}
use eacl_demo.Explorer.Controller.Panels.{
  Reply, failure, success, malformed, primitive, threw as request_threw, Outcome, Run, Retry,
  Cancel, validate_panel_id, operations_of, ready_session, start_request, run_panel, is_current,
  panel_threw, panel_replied, panel_settled, panel_responded, cancel_panel, retry_panel, returned,
}
use eacl_demo.Explorer.Controller.Steps.{left, Step, Steps, Steps-holds}

pub released_with-IsDistinct :
    (transport : Option ℕ) (released : List ℕ)
    → IsDistinct released
    → IsDistinct (released_with transport released)
released_with-IsDistinct none released h = h
released_with-IsDistinct (some t) released h = ground arith

module _ (n : ℕ) where
  abbrev pub IsLater : Controller → Type 0
  IsLater s = (n ≤ s.epoch) × IsDistinct s.released

  switch_profile-IsLater :
      (profile : Profile) (intent : Intent) (now : ℕ) (s : Controller)
      → IsLater s
      → OnOk IsLater (switch_profile profile intent now s)
  unfolding switch_profile publish_announced abort_panels abort
  switch_profile-IsLater profile intent now s h =
      OnOk-bind (λ _. Unit) IsLater (validate_enabled_profile profile) _
        (any_ok (validate_enabled_profile profile))
        (λ _ _. (omega (arith, h.0), released_with-IsDistinct _ s.released h.1))

  startup_failed-IsLater :
      (epoch controller : ℕ) (transport : Option ℕ) (e : Thrown) (s : Controller)
      → IsLater s
      → IsLater (startup_failed epoch controller transport e s)
  unfolding startup_failed
  startup_failed-IsLater epoch controller transport e s h =
      let next = released_with-IsDistinct transport s.released h.1 in
      if_holds IsLater (is_aborted controller s || not (epoch == s.epoch)) (λ _. (h.0, next))
        (λ _. (h.0, next))

  previous_released-IsLater :
      (epoch : ℕ) (profile : Profile) (outcome : Released) (m : Made) (now : ℕ) (s : Controller)
      → IsLater s
      → IsLater (previous_released epoch profile outcome m now s)
  unfolding previous_released publish_announced
  previous_released-IsLater epoch profile (threw e) m now s h =
      if_holds IsLater (epoch == s.epoch) (λ _. h) (λ _. h)
  previous_released-IsLater epoch profile done (made t) now s h =
      if_holds IsLater (epoch == s.epoch) (λ _. h) (λ _. h)
  previous_released-IsLater epoch profile done (not_made t e) now s h =
      if_holds IsLater (epoch == s.epoch) (λ _. startup_failed-IsLater epoch s.controllers t e _ h)
        (λ _. h)

  bootstrapped-IsLater :
      (session : Session) (profile : Profile) (outcome : Bootstrapped) (now : ℕ) (s : Controller)
      → IsLater s
      → IsLater (bootstrapped session profile outcome now s)
  unfolding bootstrapped publish_announced
  bootstrapped-IsLater session profile (threw e) now s h =
      startup_failed-IsLater session.epoch session.controller (some session.transport) e s h
  bootstrapped-IsLater session profile (described d) now s h =
      if_holds IsLater (is_aborted session.controller s || not (session.epoch == s.epoch))
        (λ _. (h.0, released_with-IsDistinct (some session.transport) s.released h.1))
        (λ _. elim (Result-cases (check_descriptor profile d)) [
          | inl (e, refused) ↦ rw refused (
              startup_failed-IsLater session.epoch session.controller (some session.transport) _ s
                h)
          | inr (_, checked) ↦ rw checked h
        ])

  failed_released-IsLater :
      (epoch : ℕ) (transport : Option ℕ) (e : Thrown) (outcome : Released) (now : ℕ)
      (s : Controller)
      → IsLater s
      → IsLater (failed_released epoch transport e outcome now s)
  unfolding failed_released publish_announced
  failed_released-IsLater epoch transport e (threw _) now s h = h
  failed_released-IsLater epoch transport e done now s h = h

  cancel_startup-IsLater : (s : Controller) → IsLater s → IsLater ((cancel_startup s).0)
  unfolding cancel_startup abort_panels abort
  cancel_startup-IsLater s h =
      if_holds (λ (r : Controller × Bool). IsLater (r.0)) (is_switching s.public.status)
        (λ _.
          let le : n ≤ suc s.epoch = omega (arith, h.0) in
          (le, released_with-IsDistinct _ s.released h.1))
        (λ _. h)

  canceled_released-IsLater :
      (outcome : Released) (now : ℕ) (s : Controller)
      → IsLater s
      → IsLater (canceled_released outcome now s)
  unfolding canceled_released publish_announced
  canceled_released-IsLater done now s h = h
  canceled_released-IsLater (threw e) now s h = h

  close-IsLater : (s : Controller) → IsLater s → IsLater (close s)
  unfolding close abort_panels abort
  close-IsLater s h = (omega (arith, h.0), released_with-IsDistinct _ s.released h.1)

  closed_released-IsLater :
      (outcome : Released) (s : Controller) → IsLater s → IsLater (closed_released outcome s)
  unfolding closed_released
  closed_released-IsLater (threw _) s h = h
  closed_released-IsLater done s h = h

  set_preferences-IsLater :
      (change : Preferences → Preferences) (s : Controller)
      → IsLater s
      → OnOk IsLater (set_preferences change s)
  unfolding set_preferences
  set_preferences-IsLater change s h =
      OnOk-bind (λ _. Unit) IsLater (validate_preferences (change s.public.preferences)) _
        (any_ok (validate_preferences (change s.public.preferences))) (λ next _. h)

  startup_tick-IsLater :
      (epoch now : ℕ) (s : Controller) → IsLater s → IsLater (startup_tick epoch now s)
  unfolding startup_tick
  startup_tick-IsLater epoch now s h = elim_holds IsLater s.public.startup h (λ u.
      if_holds IsLater (not (epoch == s.epoch) || not (is_switching s.public.status)) (λ _. h)
        (λ _. h))

  retry_profile-IsLater :
      (now : ℕ) (s : Controller) → IsLater s → OnOk IsLater (retry_profile now s)
  unfolding retry_profile
  retry_profile-IsLater now s h = elim_holds (OnOk IsLater) s.last_profile tt (λ p.
      OnOk-renamed IsLater bad_profile (switch_profile p s.last_intent now s)
        (switch_profile-IsLater p s.last_intent now s h))

  run_panel-IsLater :
      (id operation : String) (input : Json) (validate : Validate) (s : Controller)
      → IsLater s
      → IsLater ((run_panel id operation input validate s).0)
  unfolding run_panel start_request publish_panel publish_panel_announced publish_announced abort
  run_panel-IsLater id operation input validate s h =
      if_holds Later (not (validate_panel_id id)) (λ _. h)
        (λ _. elim_holds Later (ready_session s.session s.public.status s.public.descriptor) h (λ r.
          elim_holds Later (operations_of (r.1)) h
            (λ operations. if_holds Later (includes operations operation) (λ _. h) (λ _. h))))
    where
      Later : Controller × Run → Type 0
      Later r = IsLater (r.0)

  panel_threw-IsLater :
      (id : String) (request : PanelRequest) (e : Thrown) (s : Controller)
      → IsLater s
      → IsLater ((panel_threw id request e s).0)
  unfolding panel_threw publish_panel_announced publish_announced
  panel_threw-IsLater id request e s h =
      if_holds Later (not (is_current id request s) || not (request.epoch == s.epoch)) (λ _. h)
        (λ _. if_holds Later (is_aborted request.controller s) (λ _. h) (λ _. h))
    where
      Later : Controller × Outcome → Type 0
      Later r = IsLater (r.0)

  panel_replied-IsLater :
      (id : String) (request : PanelRequest) (validate : Validate) (reply : Reply) (s : Controller)
      → IsLater s
      → IsLater ((panel_replied id request validate reply s).0)
  unfolding publish_panel_announced publish_announced
  panel_replied-IsLater id request validate (failure e meta) s h = h
  panel_replied-IsLater id request validate (success result meta) s h =
      elim (Result-cases (validate result)) [
        | inl (e, r) ↦ rw (r, panel_replied) (panel_threw-IsLater id request e s h)
        | inr (v, r) ↦ rw (r, panel_replied) h
      ]
  panel_replied-IsLater id request validate malformed s h = panel_threw-IsLater id request _ s h
  panel_replied-IsLater id request validate primitive s h = panel_threw-IsLater id request _ s h
  panel_replied-IsLater id request validate (request_threw e) s h =
      panel_threw-IsLater id request e s h

  panel_responded-IsLater :
      (id : String) (request : PanelRequest) (validate : Validate) (reply : Reply) (s : Controller)
      → IsLater s
      → IsLater ((panel_responded id request validate reply s).0)
  unfolding panel_responded panel_settled
  panel_responded-IsLater id request validate reply s h =
      if_holds Later
        (returned reply
          && (not (is_current id request s)
              || is_aborted request.controller s
              || not (request.epoch == s.epoch)))
        (λ _. h) (λ _. panel_replied-IsLater id request validate reply s h)
    where
      Later : Controller × Outcome → Type 0
      Later r = IsLater (r.0)

  cancel_panel-IsLater :
      (id : String) (s : Controller) → IsLater s → IsLater ((cancel_panel id s).0)
  unfolding cancel_panel abort
  cancel_panel-IsLater id s h =
      if_holds Later (not (validate_panel_id id)) (λ _. h)
        (λ _. elim_holds Later (lookup id s.panel_requests) h (λ r. h))
    where
      Later : Controller × Cancel → Type 0
      Later r = IsLater (r.0)

  retry_panel-IsLater : (id : String) (s : Controller) → IsLater s → IsLater ((retry_panel id s).0)
  unfolding retry_panel
  retry_panel-IsLater id s h =
      if_holds Later (not (validate_panel_id id)) (λ _. h)
        (λ _.
          elim_holds Later (lookup id s.retry_inputs) h
            (λ r. run_panel-IsLater id r.operation r.input r.validate s h))
    where
      Later : Controller × Retry → Type 0
      Later r = IsLater (r.0)

  Step-IsLater : (s t : Controller) → IsLater s → Step s t → IsLater t
  unfolding set_portable_intent
  Step-IsLater s t h (Step.switch_called p i now e) =
      OnOk-apply IsLater (switch_profile p i now s) t (switch_profile-IsLater p i now s h) e
  Step-IsLater s t h (Step.retry_called now e) =
      OnOk-apply IsLater (retry_profile now s) t (retry_profile-IsLater now s h) e
  Step-IsLater s _ h Step.cancel_called = cancel_startup-IsLater s h
  Step-IsLater s _ h Step.close_called = close-IsLater s h
  Step-IsLater s _ h (Step.intent_set i) = h
  Step-IsLater s t h (Step.preferences_set change e) =
      OnOk-apply IsLater (set_preferences change s) t (set_preferences-IsLater change s h) e
  Step-IsLater s _ h (Step.ticked epoch now) = startup_tick-IsLater epoch now s h
  Step-IsLater s _ h (Step.run_called id operation input validate) =
      run_panel-IsLater id operation input validate s h
  Step-IsLater s _ h (Step.cancel_panel_called id) = cancel_panel-IsLater id s h
  Step-IsLater s _ h (Step.retry_panel_called id) = retry_panel-IsLater id s h
  Step-IsLater s _ h (Step.previous_ended epoch profile us outcome m now p) =
      previous_released-IsLater epoch profile outcome m now (left us s) h
  Step-IsLater s _ h (Step.bootstrap_ended session profile us outcome now p) =
      bootstrapped-IsLater session profile outcome now (left us s) h
  Step-IsLater s _ h (Step.stale_ended us p) = h
  Step-IsLater s _ h (Step.failed_ended epoch transport e us outcome now p) =
      failed_released-IsLater epoch transport e outcome now (left us s) h
  Step-IsLater s _ h (Step.request_ended id request validate us reply p) =
      panel_responded-IsLater id request validate reply (left us s) h
  Step-IsLater s _ h (Step.canceled_ended us outcome now p) =
      canceled_released-IsLater outcome now (left us s) h
  Step-IsLater s _ h (Step.closed_ended us outcome p) =
      closed_released-IsLater outcome (left us s) h

-- Over any steps from a state in which no transport was released twice, the epoch never goes back and
-- `release` is called at most once for each transport.
pub Steps-released_once :
    (s t : Controller)
    → IsDistinct s.released
    → Steps s t
    → (s.epoch ≤ t.epoch) × IsDistinct t.released
Steps-released_once s t distinct steps =
    Steps-holds (IsLater s.epoch) (Step-IsLater s.epoch) (omega arith, distinct) steps
