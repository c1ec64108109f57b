-- ===== src/Explorer/Controller/Sound/Reach.antt =====
-- The panel operations of packages/explorer-state/src/explorer-controller.mjs keep the invariant, and
-- so does every step of the controller.
use eacl_demo.Base.{
  Picked, Picked-All, ◌≡◌, not, ◌&&◌, ◌||◌, ◌==◌, str_eq, if_holds, elim_holds, Option-cases, inl,
  inr, String, List, [], ◌∷◌, Option, none, some, All, Result-cases, OnOk-apply, includes,
  string_eq,
}
use eacl_demo.Json.{Json}
use eacl_demo.Explorer.Types.{Descriptor, Preferences}
use eacl_demo.Explorer.Errors.{Thrown}
use eacl_demo.Explorer.Controller.{
  Status, Controller, Session, Panel, PanelRequest, Validate, Task, create,
}
use eacl_demo.Explorer.Controller.Publish.{
  lookup, insert, remove, publish_announced, publish_panel, publish_panel_announced, abort,
  is_aborted,
}
use eacl_demo.Explorer.Controller.Panels.{
  Reply, failure, success, malformed, primitive, threw, Outcome, Run, Retry, Cancel,
  validate_panel_id, operations_of, ready_session, start_request, run_panel, is_current,
  panel_threw, panel_replied, panel_settled, panel_responded, cancel_panel, retry_panel, returned,
}
use eacl_demo.Explorer.Controller.Switch.{switch_profile, retry_profile, set_preferences}
use eacl_demo.Explorer.Controller.Steps.{left, Step, Steps, Steps-holds}
use eacl_demo.Explorer.Controller.Sound.{
  SessionFits, TaskFits, RequestFits, IsSound, create-IsSound,
}
use eacl_demo.Explorer.Controller.Sound.Startup.{
  switch_profile-IsSound, retry_profile-IsSound, cancel_startup-IsSound, close-IsSound,
  set_portable_intent-IsSound, set_preferences-IsSound, startup_tick-IsSound,
  previous_released-IsSound, bootstrapped-IsSound, failed_released-IsSound,
  canceled_released-IsSound, closed_released-IsSound,
}

module _ {V : Type 0} (P : String × V → Type 0) where
  pub All-insert :
      (k : String) (v : V) (m : List (String × V)) → P (k, v) → All P m → All P (insert k v m)
  unfolding insert
  All-insert k v [] p h = (p, tt)
  All-insert k v ((j, w) ∷ m) p h =
      if_holds (All P) (str_eq j k) (λ _. (p, h.1)) (λ _. (h.0, All-insert k v m p h.1))

  pub All-remove : (k : String) (m : List (String × V)) → All P m → All P (remove k m)
  unfolding remove
  All-remove k [] h = tt
  All-remove k ((j, w) ∷ m) h =
      if_holds (All P) (str_eq j k) (λ _. h.1) (λ _. (h.0, All-remove k m h.1))

panel_announced-IsSound :
    (id : String) (change : Panel → Panel) (message politeness : String) (s : Controller)
    → IsSound s
    → IsSound (publish_panel_announced id change message politeness s)
unfolding publish_panel_announced publish_announced
panel_announced-IsSound id change message politeness s h = record {
  shown_le = h.shown_le;
  session_fits = h.session_fits;
  tasks_fit = h.tasks_fit;
  requests_fit = h.requests_fit;
  ready_fits = h.ready_fits;
}

start_request-IsSound :
    (id operation : String) (input : Json) (validate : Validate) (current : Session)
    (s : Controller)
    → s.session ≡ some current
    → IsSound s
    → IsSound ((start_request id operation input validate current s).0)
unfolding start_request publish_panel abort
start_request-IsSound id operation input validate current s e h =
    let fits : SessionFits s.epoch s.public.epoch (some current) = rw e at h.session_fits in
    record {
      shown_le = h.shown_le;
      session_fits = h.session_fits;
      tasks_fit = (tt, h.tasks_fit);
      requests_fit = All-insert (RequestFits s.epoch) id _ s.panel_requests fits.0 h.requests_fit;
      ready_fits = h.ready_fits;
    }

ready_session-eq-some :
    (session : Option Session) (status : Status) (descriptor : Option Descriptor)
    (r : Session × Descriptor)
    → ready_session session status descriptor ≡ some r
    → session ≡ some (r.0)
ready_session-eq-some none status descriptor r e = cc
ready_session-eq-some (some current) Status.ready (some d) r e = cc
ready_session-eq-some (some current) Status.ready none r e = cc
ready_session-eq-some (some current) Status.idle descriptor r e = cc
ready_session-eq-some (some current) Status.switching descriptor r e = cc
ready_session-eq-some (some current) Status.error descriptor r e = cc
ready_session-eq-some (some current) Status.canceled descriptor r e = cc
ready_session-eq-some (some current) Status.closed descriptor r e = cc

run_panel-IsSound :
    (id operation : String) (input : Json) (validate : Validate) (s : Controller)
    → IsSound s
    → IsSound ((run_panel id operation input validate s).0)
unfolding run_panel
run_panel-IsSound id operation input validate s h =
    if_holds Sound (not (validate_panel_id id)) (λ _. h)
      (λ _. elim (Option-cases (ready_session s.session s.public.status s.public.descriptor)) [
        | inl e ↦ rw e h
        | inr ((current, d), e) ↦ rw e (
            elim_holds Sound (operations_of d) h (λ operations.
              if_holds Sound (includes operations operation)
                (λ _.
                  start_request-IsSound id operation input validate current s
                    (ready_session-eq-some s.session s.public.status s.public.descriptor _ e) h)
                (λ _. panel_announced-IsSound id _ _ _ s h)))
      ])
  where
    Sound : Controller × Run → Type 0
    Sound r = IsSound (r.0)

panel_threw-IsSound :
    (id : String) (request : PanelRequest) (e : Thrown) (s : Controller)
    → IsSound s
    → IsSound ((panel_threw id request e s).0)
unfolding panel_threw
panel_threw-IsSound id request e s h =
    if_holds Sound (not (is_current id request s) || not (request.epoch == s.epoch)) (λ _. h)
      (λ _.
        if_holds Sound (is_aborted request.controller s) (λ _. panel_announced-IsSound id _ _ _ s h)
          (λ _. panel_announced-IsSound id _ _ _ s h))
  where
    Sound : Controller × Outcome → Type 0
    Sound r = IsSound (r.0)

panel_replied-IsSound :
    (id : String) (request : PanelRequest) (validate : Validate) (reply : Reply) (s : Controller)
    → IsSound s
    → IsSound ((panel_replied id request validate reply s).0)
panel_replied-IsSound id request validate (failure e meta) s h =
    panel_announced-IsSound id _ _ _ s h
panel_replied-IsSound id request validate (success result meta) s h =
    elim (Result-cases (validate result)) [
      | inl (e, r) ↦ rw (r, panel_replied) (panel_threw-IsSound id request e s h)
      | inr (v, r) ↦ rw (r, panel_replied) (panel_announced-IsSound id _ _ _ s h)
    ]
panel_replied-IsSound id request validate malformed s h = panel_threw-IsSound id request _ s h
panel_replied-IsSound id request validate primitive s h = panel_threw-IsSound id request _ s h
panel_replied-IsSound id request validate (threw e) s h = panel_threw-IsSound id request e s h

panel_settled-IsSound :
    (id : String) (request : PanelRequest) (s : Controller)
    → IsSound s
    → IsSound (panel_settled id request s)
unfolding panel_settled
panel_settled-IsSound id request s h = record {
  shown_le = h.shown_le;
  session_fits = h.session_fits;
  tasks_fit = h.tasks_fit;
  requests_fit =
      if_holds (All (RequestFits s.epoch)) (is_current id request s)
        (λ _. All-remove (RequestFits s.epoch) id s.panel_requests h.requests_fit)
        (λ _. h.requests_fit);
  ready_fits = h.ready_fits;
}

panel_responded-IsSound :
    (id : String) (request : PanelRequest) (validate : Validate) (reply : Reply) (s : Controller)
    → IsSound s
    → IsSound ((panel_responded id request validate reply s).0)
unfolding panel_responded
panel_responded-IsSound id request validate reply s h = panel_settled-IsSound id request _ (
    if_holds Sound
      (returned reply
        && (not (is_current id request s)
            || is_aborted request.controller s
            || not (request.epoch == s.epoch)))
      (λ _. h) (λ _. panel_replied-IsSound id request validate reply s h))
  where
    Sound : Controller × Outcome → Type 0
    Sound r = IsSound (r.0)

cancel_panel-IsSound : (id : String) (s : Controller) → IsSound s → IsSound ((cancel_panel id s).0)
unfolding cancel_panel abort
cancel_panel-IsSound id s h =
    if_holds Sound (not (validate_panel_id id)) (λ _. h)
      (λ _. elim_holds Sound (lookup id s.panel_requests) h (λ r. record {
        shown_le = h.shown_le;
        session_fits = h.session_fits;
        tasks_fit = h.tasks_fit;
        requests_fit = h.requests_fit;
        ready_fits = h.ready_fits;
      }))
  where
    Sound : Controller × Cancel → Type 0
    Sound r = IsSound (r.0)

retry_panel-IsSound : (id : String) (s : Controller) → IsSound s → IsSound ((retry_panel id s).0)
unfolding retry_panel
retry_panel-IsSound id s h =
    if_holds Sound (not (validate_panel_id id)) (λ _. h)
      (λ _.
        elim_holds Sound (lookup id s.retry_inputs) h
          (λ r. run_panel-IsSound id r.operation r.input r.validate s h))
  where
    Sound : Controller × Retry → Type 0
    Sound r = IsSound (r.0)

left-IsSound :
    (t : Task) (us : List Task) (s : Controller)
    → Picked t s.pending us
    → IsSound s
    → IsSound (left us s)
left-IsSound t us s p h = record {
  shown_le = h.shown_le;
  session_fits = h.session_fits;
  tasks_fit = (Picked-All (TaskFits s.epoch s.last_profile s.public.epoch) p h.tasks_fit).1;
  requests_fit = h.requests_fit;
  ready_fits = h.ready_fits;
}

Step-IsSound : (s t : Controller) → IsSound s → Step s t → IsSound t
Step-IsSound s t h (Step.switch_called p i now e) =
    OnOk-apply IsSound (switch_profile p i now s) t (switch_profile-IsSound p i now s h) e
Step-IsSound s t h (Step.retry_called now e) =
    OnOk-apply IsSound (retry_profile now s) t (retry_profile-IsSound now s h) e
Step-IsSound s _ h Step.cancel_called = cancel_startup-IsSound s h
Step-IsSound s _ h Step.close_called = close-IsSound s h
Step-IsSound s _ h (Step.intent_set i) = set_portable_intent-IsSound i s h
Step-IsSound s t h (Step.preferences_set change e) =
    OnOk-apply IsSound (set_preferences change s) t (set_preferences-IsSound change s h) e
Step-IsSound s _ h (Step.ticked epoch now) = startup_tick-IsSound epoch now s h
Step-IsSound s _ h (Step.run_called id operation input validate) =
    run_panel-IsSound id operation input validate s h
Step-IsSound s _ h (Step.cancel_panel_called id) = cancel_panel-IsSound id s h
Step-IsSound s _ h (Step.retry_panel_called id) = retry_panel-IsSound id s h
Step-IsSound s _ h (Step.previous_ended epoch profile us outcome m now p) =
    previous_released-IsSound epoch profile outcome m now (left us s)
      ((Picked-All (TaskFits s.epoch s.last_profile s.public.epoch) p h.tasks_fit).0)
      (left-IsSound _ us s p h)
Step-IsSound s _ h (Step.bootstrap_ended session profile us outcome now p) =
    bootstrapped-IsSound session profile outcome now (left us s)
      ((Picked-All (TaskFits s.epoch s.last_profile s.public.epoch) p h.tasks_fit).0)
      (left-IsSound _ us s p h)
Step-IsSound s _ h (Step.stale_ended us p) = left-IsSound _ us s p h
Step-IsSound s _ h (Step.failed_ended epoch transport e us outcome now p) =
    failed_released-IsSound epoch transport e outcome now (left us s) (left-IsSound _ us s p h)
Step-IsSound s _ h (Step.request_ended id request validate us reply p) =
    panel_responded-IsSound id request validate reply (left us s) (left-IsSound _ us s p h)
Step-IsSound s _ h (Step.canceled_ended us outcome now p) =
    canceled_released-IsSound outcome now (left us s) (left-IsSound _ us s p h)
Step-IsSound s _ h (Step.closed_ended us outcome p) =
    closed_released-IsSound outcome (left us s) (left-IsSound _ us s p h)

-- Whatever is called and in whatever order the awaited operations end: a session is of the current
-- epoch, which the public state then shows; each current panel request is of the current epoch; and
-- a status `ready` shows a descriptor that was checked for a profile (the last one selected, if the
-- epoch shown is current), with a consistency mode that this descriptor advertises.
pub Steps-IsSound :
    (preferences : Preferences) (s : Controller) → Steps (create preferences) s → IsSound s
Steps-IsSound preferences s steps =
    Steps-holds IsSound Step-IsSound (create-IsSound preferences) steps
