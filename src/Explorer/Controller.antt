-- ===== src/Explorer/Controller.antt =====
-- packages/explorer-state/src/explorer-controller.mjs: the state of `createExplorerController`.
-- Transports and abort controllers are numbers, the controllers in the order of creation. An await is
-- a task in `pending`; an event outside resumes it with its outcome. The clock is an argument.
pub mod Publish
pub mod Switch
pub mod Panels
pub mod Steps
pub mod Sound
pub mod Once
pub mod Stale
pub mod Settle
use eacl_demo.Base.{ℕ, Bool, String, List, [], Option, none, some, Result, length, leb, ltb}
use eacl_demo.Json.{Json}
use eacl_demo.Explorer.Types.{Profile, Descriptor, Preferences}
use eacl_demo.Explorer.Errors.{Thrown, PublicError, EnvelopeError}
use eacl_demo.Explorer.Preferences.{default_preferences}

pub data Status : Type 0 where
  idle switching ready error canceled closed : Status

pub record ShownProfile : Type 0 where
  pub id : String
  pub backend : Option String
  pub storage : Option String
  pub state : String

pub record Startup : Type 0 where
  pub phase : String
  pub kind : String
  pub started_at : ℕ
  pub elapsed_ms : ℕ

pub record Announcement : Type 0 where
  pub sequence : ℕ
  pub politeness : String
  pub message : String

pub data Phase : Type 0 where
  idle loading ready error canceled : Phase

pub record Panel : Type 0 where
  pub phase : Phase
  pub operation : Option String
  pub request_id : Option String
  pub value : Option Json
  pub error : Option PublicError
  pub retryable : Bool
  pub meta : Option Json

abbrev pub Intent : Type 0
Intent = List (String × String)

-- What `getState` and `onState` give out.
pub record PublicState : Type 0 where
  pub epoch : ℕ
  pub status : Status
  pub profile : Option ShownProfile
  pub descriptor : Option Descriptor
  pub portable_intent : Intent
  pub preferences : Preferences
  pub panels : List (String × Panel)
  pub startup : Option Startup
  pub error : Option PublicError
  pub announcement : Option Announcement

pub record Session : Type 0 where
  pub epoch : ℕ
  pub controller : ℕ
  pub transport : ℕ

-- A request is known by its abort controller, which no other request has.
pub record PanelRequest : Type 0 where
  pub controller : ℕ
  pub epoch : ℕ
  pub request_id : String
  pub operation : String

abbrev pub Validate : Type 0
Validate = Json → Result Thrown Json

pub record RetryInput : Type 0 where
  pub operation : String
  pub input : Json
  pub validate : Validate

-- What is awaited, with the local variables that the code behind the await reads.
pub data Task : Type 0 where
  releasing_previous : ℕ → Profile → Task
  bootstrapping : Session → Profile → Task
  releasing_stale : Task
  releasing_failed : ℕ → Option ℕ → Thrown → Task
  requesting : String → PanelRequest → Validate → Task
  releasing_canceled : Task
  releasing_closed : Task

pub record Controller : Type 0 where
  pub epoch : ℕ
  pub request_sequence : ℕ
  pub announcement_sequence : ℕ
  pub controllers : ℕ
  pub session : Option Session
  pub public : PublicState
  pub startup_timer : Option ℕ
  pub last_profile : Option Profile
  pub last_intent : Intent
  -- The transports whose `release` was called, the last one first.
  pub released : List ℕ
  -- The controllers that are aborted, and the links of `forwardAbort`, child first.
  pub aborted : List ℕ
  pub links : List (ℕ × ℕ)
  pub panel_requests : List (String × PanelRequest)
  pub retry_inputs : List (String × RetryInput)
  pub pending : List Task

abbrev pub empty_panel : Panel
empty_panel = record {
  phase = Phase.idle;
  operation = none;
  request_id = none;
  value = none;
  error = none;
  retryable = Bool.false;
  meta = none;
}

abbrev pub initial_state : Preferences → PublicState
initial_state preferences = record {
  epoch = 0;
  status = Status.idle;
  profile = none;
  descriptor = none;
  portable_intent = [];
  preferences = preferences;
  panels = [];
  startup = none;
  error = none;
  announcement = none;
}

-- `createExplorerController`, with the preferences that it has validated.
abbrev pub create : Preferences → Controller
create preferences = record {
  epoch = 0;
  request_sequence = 0;
  announcement_sequence = 0;
  controllers = 0;
  session = none;
  public = initial_state preferences;
  startup_timer = none;
  last_profile = none;
  last_intent = [];
  released = [];
  aborted = [];
  links = [];
  panel_requests = [];
  retry_inputs = [];
  pending = [];
}
