-- ===== src/Explorer/Controller/Steps.antt =====
-- The controller of packages/explorer-state/src/explorer-controller.mjs as a state machine: a call of
-- a method, a tick of the timer, or an awaited operation that ends. Awaits end in any order.
use eacl_demo.Base.{ℕ, ◌≡◌, String, List, Option, ok, Picked}
use eacl_demo.Json.{Json}
use eacl_demo.Explorer.Types.{Profile, Preferences}
use eacl_demo.Explorer.Errors.{Thrown}
use eacl_demo.Explorer.Controller.{
  Controller, Session, PanelRequest, Intent, Validate, Task, releasing_previous, bootstrapping,
  releasing_stale, releasing_failed, requesting, releasing_canceled, releasing_closed,
}
use eacl_demo.Explorer.Controller.Switch.{
  Released, Made, Bootstrapped, switch_profile, previous_released, bootstrapped, failed_released,
  cancel_startup, canceled_released, retry_profile, set_portable_intent, set_preferences, close,
  closed_released, startup_tick,
}
use eacl_demo.Explorer.Controller.Panels.{
  Reply, run_panel, panel_responded, cancel_panel, retry_panel,
}

-- The state without a task that is resumed.
abbrev pub left : List Task → Controller → Controller
left us s = record s { pending = us }

pub data Step (s : Controller) : Controller → Type 0 where
  switch_called :
      (profile : Profile) (intent : Intent) (now : ℕ) {t : Controller}
      → switch_profile profile intent now s ≡ ok t
      → Step s t
  retry_called : (now : ℕ) {t : Controller} → retry_profile now s ≡ ok t → Step s t
  cancel_called : Step s ((cancel_startup s).0)
  close_called : Step s (close s)
  intent_set : (intent : Intent) → Step s (set_portable_intent intent s)
  preferences_set :
      (change : Preferences → Preferences) {t : Controller}
      → set_preferences change s ≡ ok t
      → Step s t
  ticked : (epoch now : ℕ) → Step s (startup_tick epoch now s)
  run_called :
      (id operation : String) (input : Json) (validate : Validate)
      → Step s ((run_panel id operation input validate s).0)
  cancel_panel_called : (id : String) → Step s ((cancel_panel id s).0)
  retry_panel_called : (id : String) → Step s ((retry_panel id s).0)
  previous_ended :
      (epoch : ℕ) (profile : Profile) (us : List Task) (outcome : Released) (made : Made) (now : ℕ)
      → Picked (releasing_previous epoch profile) s.pending us
      → Step s (previous_released epoch profile outcome made now (left us s))
  bootstrap_ended :
      (session : Session) (profile : Profile) (us : List Task) (outcome : Bootstrapped) (now : ℕ)
      → Picked (bootstrapping session profile) s.pending us
      → Step s (bootstrapped session profile outcome now (left us s))
  stale_ended : (us : List Task) → Picked releasing_stale s.pending us → Step s (left us s)
  failed_ended :
      (epoch : ℕ) (transport : Option ℕ) (e : Thrown) (us : List Task) (outcome : Released)
      (now : ℕ)
      → Picked (releasing_failed epoch transport e) s.pending us
      → Step s (failed_released epoch transport e outcome now (left us s))
  request_ended :
      (id : String) (request : PanelRequest) (validate : Validate) (us : List Task) (reply : Reply)
      → Picked (requesting id request validate) s.pending us
      → Step s ((panel_responded id request validate reply (left us s)).0)
  canceled_ended :
      (us : List Task) (outcome : Released) (now : ℕ)
      → Picked releasing_canceled s.pending us
      → Step s (canceled_released outcome now (left us s))
  closed_ended :
      (us : List Task) (outcome : Released)
      → Picked releasing_closed s.pending us
      → Step s (closed_released outcome (left us s))

pub data Steps (s : Controller) : Controller → Type 0 where
  stay : Steps s s
  next : {t u : Controller} → Steps s t → Step t u → Steps s u

-- A property that every step keeps.
abbrev pub IsInvariant : (Controller → Type 0) → Type 0
IsInvariant P = (s t : Controller) → P s → Step s t → P t

pub Steps-holds :
    (P : Controller → Type 0) → IsInvariant P → {s t : Controller} → P s → Steps s t → P t
Steps-holds P keeps h stay = h
Steps-holds P keeps h (next steps step) = keeps _ _ (Steps-holds P keeps h steps) step
