-- ===== src/Explorer/Controller/Switch.antt =====
-- packages/explorer-state/src/explorer-controller.mjs: `switchProfile`, `cancelStartup`,
-- `retryProfile`, `close`, the startup timer and the two setters. Each await cuts a function in two;
-- what follows it is a function of its own, from the task and the outcome.
use Prim.Native.String.{◌++◌ as text_append}
use eacl_demo.Base.{
  ℕ, suc, ◌-◌, Bool, true, false, ◌||◌, not, ◌==◌, if◌then◌else◌, String, List, [], Option, none,
  some, Result, ok, err, ◌>>=◌, ◌>>◌,
}
use eacl_demo.Explorer.Types.{Profile, Descriptor, Preferences}
use eacl_demo.Explorer.Errors.{Thrown, plain, safe_error}
use eacl_demo.Explorer.Preferences.{PreferenceError, validate_preferences, normalize_preferences}
use eacl_demo.Explorer.Identity.{
  IdentityError, validate_enabled_profile, assert_descriptor_identity,
  validate_descriptor_capabilities,
}
use eacl_demo.Explorer.Controller.{
  Status, Startup, PublicState, Controller, Session, Intent, releasing_previous, bootstrapping,
  releasing_stale, releasing_failed, releasing_canceled, releasing_closed, initial_state,
}
use eacl_demo.Explorer.Controller.Publish.{
  sanitize_portable_intent, public_profile, publish_announced, release, abort, session_controller,
  abort_panels, is_aborted, stop_startup_timer, finish_startup, await, transport_of,
}

-- How an awaited `release` ends.
pub data Released : Type 0 where
  done : Released
  threw : Thrown → Released

-- What `transportFactory` gives: a transport, or an error, with the object that was no transport.
pub data Made : Type 0 where
  made : ℕ → Made
  not_made : Option ℕ → Thrown → Made

pub data Bootstrapped : Type 0 where
  described : Descriptor → Bootstrapped
  threw : Thrown → Bootstrapped

abbrev pub text_or_empty : Option String → String
text_or_empty (some s) = s
text_or_empty none = ""

abbrev pub named : Profile → String
named p = text_append (text_or_empty p.backend) (text_append " with " (text_or_empty p.storage))

abbrev pub starting : ℕ → Startup
starting now = record {
  phase = "initializing";
  kind = "cold-or-restore";
  started_at = now;
  elapsed_ms = 0;
}

-- What `switchProfile` publishes first.
abbrev pub show_switching : ℕ → Profile → Intent → ℕ → PublicState → PublicState
show_switching epoch profile intent now p = record p {
  epoch = epoch;
  status = Status.switching;
  profile = some (public_profile profile);
  descriptor = none;
  portable_intent = sanitize_portable_intent intent;
  panels = [];
  error = none;
  startup = some (starting now);
}

abbrev pub show_error : String → Thrown → ℕ → PublicState → PublicState
show_error fallback e now p = record p {
  status = Status.error;
  descriptor = none;
  startup = some (finish_startup "error" none now p.startup);
  error = some (safe_error e fallback);
}

-- Up to the first await.
unfoldable pub switch_profile : Profile → Intent → ℕ → Controller → Result IdentityError Controller
switch_profile profile intent now s = do
  validate_enabled_profile profile
  let epoch = suc s.epoch
  let left = abort_panels (
      abort (session_controller s.session) (record (stop_startup_timer s) {
        epoch = epoch;
        last_profile = some profile;
        last_intent = sanitize_portable_intent intent;
        session = none;
      }))
  let shown =
      publish_announced (show_switching epoch profile intent now)
        (text_append "Initializing " (text_append (named profile) ".")) "polite"
        (record left { retry_inputs = [] })
  ok (
      await (releasing_previous epoch profile)
        (release (transport_of s.session) (record shown { startup_timer = some epoch })))

-- The inner `catch`: a startup that is not current ends quietly, any other is shown as failed.
unfoldable pub startup_failed : ℕ → ℕ → Option ℕ → Thrown → Controller → Controller
startup_failed epoch controller transport e s =
    if is_aborted controller s || not (epoch == s.epoch)
    then await releasing_stale (release transport (stop_startup_timer s))
    else await (releasing_failed epoch transport e) (release transport (stop_startup_timer s))

abbrev pub make_session : ℕ → Profile → Made → Controller → Controller
make_session epoch profile (made t) s =
    let session : Session = record { epoch = epoch; controller = s.controllers; transport = t } in
    await (bootstrapping session profile)
      (record s { session = some session; controllers = suc s.controllers })
make_session epoch profile (not_made t e) s =
    startup_failed epoch s.controllers t e (record s { controllers = suc s.controllers })

-- Behind `await release(previous?.transport)`. The factory is called only for the current epoch.
unfoldable pub previous_released : ℕ → Profile → Released → Made → ℕ → Controller → Controller
previous_released epoch profile (threw e) outcome now s =
    if epoch == s.epoch
    then publish_announced (show_error "The previous profile could not be released safely." e now)
        "The previous profile could not be released safely." "assertive" (stop_startup_timer s)
    else s
previous_released epoch profile done outcome now s =
    if epoch == s.epoch then make_session epoch profile outcome s else s

abbrev pub modes_of : Descriptor → List String
modes_of d = elim d.capabilities [
  | none ↦ []
  | some c ↦ elim c.consistency_modes [ none ↦ [] | some modes ↦ modes ]
]

abbrev pub show_ready : Descriptor → ℕ → PublicState → PublicState
show_ready d now p = record p {
  status = Status.ready;
  descriptor = some d;
  preferences = normalize_preferences p.preferences (modes_of d);
  startup = some (finish_startup "ready" (some d) now p.startup);
  error = none;
}

-- `assertDescriptorIdentity` and `validateDescriptorCapabilities`, in this order.
abbrev pub check_descriptor : Profile → Descriptor → Result IdentityError (Unit {0})
check_descriptor profile d =
    assert_descriptor_identity profile d >> validate_descriptor_capabilities profile d

-- Behind `await transport.bootstrap(…)`. The errors of the checks have no `code`.
unfoldable pub bootstrapped : Session → Profile → Bootstrapped → ℕ → Controller → Controller
bootstrapped session profile (threw e) now s =
    startup_failed session.epoch session.controller (some session.transport) e s
bootstrapped session profile (described d) now s =
    if is_aborted session.controller s || not (session.epoch == s.epoch)
    then await releasing_stale (release (some session.transport) s)
    else elim (check_descriptor profile d) [
      | err e ↦
          startup_failed session.epoch session.controller (some session.transport)
            (plain "descriptor check") s
      | ok _ ↦
          publish_announced (show_ready d now) (text_append (named profile) " is ready.") "polite"
            (stop_startup_timer s)
    ]

-- `if (transport && session?.transport === transport) session = null`
abbrev pub drop_session : Option ℕ → Option Session → Option Session
drop_session none session = session
drop_session (some t) none = none
drop_session (some t) (some session) = if session.transport == t then none else some session

-- Behind `await release(transport)` of a startup that failed. If the release throws, its error
-- leaves the function and nothing is published.
unfoldable pub failed_released : ℕ → Option ℕ → Thrown → Released → ℕ → Controller → Controller
failed_released epoch transport e (threw _) now s = s
failed_released epoch transport e done now s =
    publish_announced (show_error "Profile initialization failed." e now)
      "Profile initialization failed." "assertive"
      (record s { session = drop_session transport s.session })

-- Up to the await of `cancelStartup`; the flag is false where it returns false at once.
abbrev pub is_switching : Status → Bool
is_switching Status.switching = true
is_switching _ = false

unfoldable pub cancel_startup : Controller → Controller × Bool
cancel_startup s =
    let left =
      abort_panels
        (abort (session_controller s.session) (record s { session = none; epoch = suc s.epoch })) in
    if is_switching s.public.status
    then (
      await releasing_canceled (release (transport_of s.session) (stop_startup_timer left)),
      true,
    )
    else (s, false)

unfoldable pub canceled_released : Released → ℕ → Controller → Controller
canceled_released done now s =
    publish_announced
      (λ p. record p {
        epoch = s.epoch;
        status = Status.canceled;
        descriptor = none;
        panels = [];
        startup = some (finish_startup "canceled" none now p.startup);
        error = none;
      })
      "Profile initialization canceled." "polite" s
canceled_released (threw e) now s =
    publish_announced
      (λ p. record p {
        epoch = s.epoch;
        status = Status.error;
        descriptor = none;
        panels = [];
        startup = some (finish_startup "error" none now p.startup);
        error = some (safe_error e "Profile cancellation cleanup failed.");
      })
      "Profile cancellation cleanup failed." "assertive" s

pub data RetryError : Type 0 where
  not_selected : RetryError
  bad_profile : IdentityError → RetryError

unfoldable pub retry_profile : ℕ → Controller → Result RetryError Controller
retry_profile now s = elim s.last_profile [
  | none ↦ err not_selected
  | some profile ↦ elim (switch_profile profile s.last_intent now s) [
    | ok t ↦ ok t
    | err e ↦ err (bad_profile e)
  ]
]

unfoldable pub set_portable_intent : Intent → Controller → Controller
set_portable_intent intent s = record s {
  public = record s.public { portable_intent = sanitize_portable_intent intent };
}

-- `change` is the patch of the preferences.
unfoldable pub set_preferences :
    (Preferences → Preferences) → Controller → Result PreferenceError Controller
set_preferences change s = do
  next ← validate_preferences (change s.public.preferences)
  let normalized : Preferences = elim s.public.descriptor [
    | none ↦ next
    | some d ↦ normalize_preferences next (modes_of d)
  ]
  ok (record s { public = record s.public { preferences = normalized } })

-- Up to the await of `close`.
unfoldable pub close : Controller → Controller
close s =
    let left = abort_panels (
      abort (session_controller s.session)
        (stop_startup_timer (record s { session = none; epoch = suc s.epoch }))) in
    await releasing_closed (release (transport_of s.session) (record left { retry_inputs = [] }))

unfoldable pub closed_released : Released → Controller → Controller
closed_released (threw _) s = s
closed_released done s = record s {
  public = record (initial_state s.public.preferences) { epoch = s.epoch; status = Status.closed };
}

-- The callback of the timer that was started for `epoch`.
abbrev pub elapsed : ℕ → Startup → Startup
elapsed now u = record u { elapsed_ms = now - u.started_at }

unfoldable pub startup_tick : ℕ → ℕ → Controller → Controller
startup_tick epoch now s = elim s.public.startup [
  | none ↦ s
  | some u ↦
      if not (epoch == s.epoch) || not (is_switching s.public.status)
      then s
      else record s { public = record s.public { startup = some (elapsed now u) } }
]
