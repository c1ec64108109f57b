-- ===== src/Examples/Controllers.antt =====
-- packages/explorer-state at concrete inputs.
use eacl_demo.Base.{
  Picked, here, sym, str_eq, str_eq_iff, decimal, ◌≡◌, ◌≢◌, ◌≤◌, inl, refl, true, false, String, [],
  ◌∷◌, none, some, Result, ok, err, IsDistinct, nat_eq, includes, arith,
}
use eacl_demo.Json.{null, num}
use eacl_demo.Explorer.Types.{Profile, Deployment, Descriptor, Preferences}
use eacl_demo.Explorer.Errors.{plain}
use eacl_demo.Explorer.Identity.{
  validate_enabled_profile, assert_descriptor_identity, validate_descriptor_capabilities,
  same_deployment,
}
use eacl_demo.Explorer.Preferences.{default_preferences, validate_preferences}
use eacl_demo.Explorer.Controller.{
  Controller, Session, Phase, Panel, PanelRequest, Validate, releasing_previous, bootstrapping,
  create,
}
use eacl_demo.Explorer.Controller.Publish.{
  lookup, insert, remove, publish_announced, publish_panel, abort, abort_panels, is_aborted,
}
use eacl_demo.Explorer.Controller.Switch.{
  described, done, made, switch_profile, previous_released, bootstrapped,
}
use eacl_demo.Explorer.Controller.Panels.{
  Reply, success, threw as request_threw, is_current, stale, canceled, validate_panel_id, run_panel,
  start_request, panel_responded, cancel_panel,
}
use eacl_demo.Explorer.Controller.Steps.{Step, Steps, stay, next}
use eacl_demo.Explorer.Controller.Sound.{IsSound}
use eacl_demo.Explorer.Controller.Sound.Reach.{Steps-IsSound}
use eacl_demo.Explorer.Controller.Once.{Steps-released_once}
use eacl_demo.Explorer.Controller.Stale.{
  panel_responded-stale, bootstrapped-stale, switch_profile-stale,
}
use eacl_demo.Explorer.Controller.Settle.{
  IsSettled, panel_responded-settles, panel_responded-others, cancel_panel-settles,
  cancel_panel-returned,
}

abbrev deployment : Deployment
deployment = record {
  demo_sha = "d";
  eacl_sha = "e";
  artifact_sha256 = "a";
  deployment_id = "1";
  data_manifest_sha256 = "m";
}

abbrev a_profile : Profile
a_profile = record {
  id = "p";
  backend = some "b";
  storage = some "s";
  state = "enabled";
  reason = none;
  deployment = some deployment;
}

abbrev a_descriptor : Descriptor
a_descriptor = record {
  identity = some (record { profile_id = "p"; deployment = deployment });
  profile = some (record { backend = "b"; storage = "s" });
  capabilities = some (record {
    operations = some ("health" ∷ "bootstrap" ∷ "check" ∷ []);
    consistency_modes = some ("minimize" ∷ []);
    snapshot_behavior = some "x";
    cache_behavior = some "y";
    mutation_locality = some "z";
    limitations = some [];
  });
  execution = "browser";
  snap_start = "disabled";
}

abbrev started_state : Controller
started_state = create default_preferences

-- The state after `switchProfile`, read off the result.
abbrev of_result : {E : Type 0} → Result E Controller → Controller
of_result (ok s) = s
of_result (err e) = started_state

abbrev switched : Controller
switched = of_result (switch_profile a_profile [] 5 started_state)

switched_lem : switch_profile a_profile [] 5 started_state ≡ ok switched
unfolding switch_profile validate_enabled_profile
switched_lem = refl

abbrev session_1 : Session
session_1 = record { epoch = 1; controller = 0; transport = 7 }

abbrev booting : Controller
booting = previous_released 1 a_profile done (made 7) 5 (record switched { pending = [] })

abbrev ready_state : Controller
ready_state =
    bootstrapped session_1 a_profile (described a_descriptor) 6 (record booting { pending = [] })

abbrev keep_value : Validate
keep_value value = ok value

abbrev asked : Controller
asked = (run_panel "list" "check" null keep_value ready_state).0

abbrev request_1 : PanelRequest
request_1 = record { controller = 1; epoch = 1; request_id = "1-1"; operation = "check" }

switched_pending : Picked (releasing_previous 1 a_profile) switched.pending []
unfolding switch_profile validate_enabled_profile publish_announced abort_panels abort
switched_pending = here

booting_pending : Picked (bootstrapping session_1 a_profile) booting.pending []
unfolding switch_profile validate_enabled_profile publish_announced previous_released abort_panels
    abort
booting_pending = here

to_ready : Steps started_state ready_state
to_ready =
    next
      (next (next stay (Step.switch_called a_profile [] 5 switched_lem))
        (Step.previous_ended 1 a_profile [] done (made 7) 5 switched_pending))
      (Step.bootstrap_ended session_1 a_profile [] (described a_descriptor) 6 booting_pending)

to_asked : Steps started_state asked
to_asked = next to_ready (Step.run_called "list" "check" null keep_value)

Steps-IsSound_example : IsSound asked
Steps-IsSound_example = Steps-IsSound default_preferences asked to_asked

Steps-released_once_example : (0 ≤ asked.epoch) × IsDistinct asked.released
Steps-released_once_example = Steps-released_once started_state asked tt to_asked

asked_request : lookup "list" asked.panel_requests ≡ some request_1
unfolding switch_profile validate_enabled_profile publish_announced previous_released abort_panels
    abort is_aborted bootstrapped assert_descriptor_identity validate_descriptor_capabilities
    same_deployment run_panel start_request publish_panel validate_panel_id insert decimal lookup
asked_request = refl

asked_epoch : asked.epoch ≡ 1
unfolding switch_profile validate_enabled_profile publish_announced previous_released abort_panels
    abort is_aborted bootstrapped assert_descriptor_identity validate_descriptor_capabilities
    same_deployment run_panel start_request publish_panel validate_panel_id insert decimal
asked_epoch = refl

asked_live : is_aborted 1 asked ≡ false
unfolding switch_profile validate_enabled_profile publish_announced previous_released abort_panels
    abort is_aborted bootstrapped assert_descriptor_identity validate_descriptor_capabilities
    same_deployment run_panel start_request publish_panel validate_panel_id insert decimal lookup
asked_live = refl

asked_current : is_current "list" request_1 asked ≡ true
unfolding switch_profile validate_enabled_profile publish_announced previous_released abort_panels
    abort is_aborted bootstrapped assert_descriptor_identity validate_descriptor_capabilities
    same_deployment run_panel start_request publish_panel validate_panel_id insert decimal lookup
    is_current
asked_current = refl

abbrev asked_again : Controller
asked_again = of_result (switch_profile a_profile [] 9 asked)

switched_again : switch_profile a_profile [] 9 asked ≡ ok asked_again
unfolding switch_profile validate_enabled_profile
switched_again = refl

abbrev a_reply : Reply
a_reply = success (num 3) none

none_current : is_current "list" request_1 started_state ≡ false
unfolding is_current lookup
none_current = refl

one_differs : session_1.epoch ≢ started_state.epoch
one_differs = λ e. omega (arith, e)

abbrev check_panel : String
check_panel = "check"

names_differ : check_panel ≢ "list"
names_differ =
    λ e. let h : str_eq check_panel "list" ≡ true = (str_eq_iff check_panel "list").1 e in cc

list_valid : validate_panel_id "list" ≡ true
unfolding validate_panel_id
list_valid = refl

panel_responded-stale_example :
    (((panel_responded "list" request_1 keep_value a_reply started_state).0).public
      ≡ started_state.public)
    × ((panel_responded "list" request_1 keep_value a_reply started_state).1 ≡ stale)
panel_responded-stale_example =
    panel_responded-stale "list" request_1 keep_value a_reply started_state (inl none_current)

bootstrapped-stale_example :
    ((bootstrapped session_1 a_profile (described a_descriptor) 6 started_state).public
      ≡ started_state.public)
    × ((bootstrapped session_1 a_profile (described a_descriptor) 6 started_state).session ≡ none)
    × (includes
          (bootstrapped session_1 a_profile (described a_descriptor) 6 started_state).released
          7
        ≡ true)
bootstrapped-stale_example =
    bootstrapped-stale session_1 a_profile (described a_descriptor) 6 started_state one_differs

switch_profile-stale_example :
    (((panel_responded "list" request_1 keep_value a_reply asked_again).0).public
      ≡ asked_again.public)
    × ((panel_responded "list" request_1 keep_value a_reply asked_again).1 ≡ stale)
switch_profile-stale_example =
    switch_profile-stale default_preferences a_profile [] 9 asked asked_again asked_again "list"
      request_1 keep_value a_reply to_asked asked_request switched_again stay

panel_responded-settles_example :
    (p : Panel) × (lookup "list"
        ((panel_responded "list" request_1 keep_value a_reply asked).0).public.panels
      ≡ some p)
    × IsSettled request_1 p ((panel_responded "list" request_1 keep_value a_reply asked).1)
panel_responded-settles_example =
    panel_responded-settles "list" request_1 keep_value a_reply asked asked_current
      (sym asked_epoch) asked_live

panel_responded-others_example :
    lookup check_panel ((panel_responded "list" request_1 keep_value a_reply asked).0).public.panels
    ≡ lookup check_panel asked.public.panels
panel_responded-others_example =
    panel_responded-others "list" check_panel request_1 keep_value a_reply asked names_differ

cancel_panel-settles_example :
    let t = (cancel_panel "list" asked).0 in
    let r = panel_responded "list" request_1 keep_value (request_threw (plain "aborted")) t in
    (r.1 ≡ canceled)
    × ((p : Panel) × (lookup "list" r.0.public.panels ≡ some p)
        × (p.phase ≡ Phase.canceled)
        × (p.retryable ≡ true))
cancel_panel-settles_example =
    cancel_panel-settles "list" request_1 keep_value (plain "aborted") asked list_valid
      asked_request (sym asked_epoch)

cancel_panel-returned_example :
    let t = (cancel_panel "list" asked).0 in
    let r = panel_responded "list" request_1 keep_value a_reply t in
    (r.1 ≡ stale)
    × (r.0.public ≡ asked.public)
    × (r.0.panel_requests ≡ remove "list" asked.panel_requests)
cancel_panel-returned_example =
    cancel_panel-returned "list" request_1 keep_value a_reply asked list_valid asked_request refl

abbrev many_panels : Preferences
many_panels = record default_preferences { expanded = "a" ∷ "b" ∷ "a" ∷ [] }

abbrev few_panels : Preferences
few_panels = record default_preferences { expanded = "a" ∷ "b" ∷ [] }

accepts_panels : validate_preferences many_panels ≡ ok few_panels
unfolding validate_preferences
accepts_panels = refl
