-- ===== src/Explorer/Controller/Sound.antt =====
-- The invariant of the controller of packages/explorer-state/src/explorer-controller.mjs: sessions,
-- requests and awaits belong to epochs, and a state that is ready shows a checked descriptor.
pub mod Startup
pub mod Reach
use eacl_demo.Base.{
  ℕ, suc, ◌≤◌, ◌≡◌, refl, sym, ◌∙◌, Bool, true, false, not, ◌&&◌, ◌||◌, ◌==◌, ==_iff, if◌then◌else◌,
  if_holds, Bool-cases, Option-cases, inl, inr, String, List, [], ◌∷◌, Option, none, some, Result,
  ok, err, bind-eq-ok, require-eq-ok, All, includes, string_eq, arith,
}
use eacl_demo.Explorer.Types.{Profile, Descriptor, Capabilities, Preferences}
use eacl_demo.Explorer.Errors.{Thrown, plain}
use eacl_demo.Explorer.Preferences.{normalize_preferences}
use eacl_demo.Explorer.Controller.{
  Status, PublicState, Controller, Session, PanelRequest, Intent, Task, releasing_previous,
  bootstrapping, releasing_stale, releasing_failed, requesting, releasing_canceled,
  releasing_closed, create,
}
use eacl_demo.Explorer.Controller.Publish.{publish_announced, finish_startup, await, release}
use eacl_demo.Explorer.Controller.Switch.{modes_of, check_descriptor, drop_session}

-- A session is of the current epoch, which is then shown.
abbrev pub SessionFits : ℕ → ℕ → Option Session → Type 0
SessionFits epoch shown none = Unit
SessionFits epoch shown (some session) = (session.epoch ≡ epoch) × (shown ≡ epoch)

-- A startup of an epoch that is over may still be awaited; the one of the current epoch is of the
-- last profile, and its epoch is shown.
abbrev pub StartupFits : ℕ → Option Profile → ℕ → ℕ → Profile → Type 0
StartupFits epoch last shown n profile =
    (n ≤ epoch) × (n ≡ epoch → (last ≡ some profile) × (shown ≡ epoch))

abbrev pub TaskFits : ℕ → Option Profile → ℕ → Task → Type 0
TaskFits epoch last shown (releasing_previous n profile) = StartupFits epoch last shown n profile
TaskFits epoch last shown (bootstrapping session profile) =
    StartupFits epoch last shown session.epoch profile
TaskFits epoch last shown _ = Unit

abbrev pub RequestFits : ℕ → String × PanelRequest → Type 0
RequestFits epoch entry = entry.1.epoch ≡ epoch

-- The descriptor shown was checked for a profile, the last one if the epoch shown is current, and
-- it advertises the mode in use.
abbrev pub IsVerified : ℕ → Option Profile → ℕ → Option Descriptor → String → Type 0
IsVerified epoch last shown descriptor mode =
    (p : Profile) × (d : Descriptor) × (descriptor ≡ some d)
    × (check_descriptor p d ≡ ok tt)
    × (includes (modes_of d) mode ≡ true)
    × (shown ≡ epoch → last ≡ some p)

abbrev pub IfReady : Status → Type 0 → Type 0
IfReady Status.ready P = P
IfReady _ P = Unit

pub IfReady-map : (status : Status) (P Q : Type 0) → (P → Q) → IfReady status P → IfReady status Q
IfReady-map Status.ready P Q f h = f h
IfReady-map Status.idle P Q f h = tt
IfReady-map Status.switching P Q f h = tt
IfReady-map Status.error P Q f h = tt
IfReady-map Status.canceled P Q f h = tt
IfReady-map Status.closed P Q f h = tt

abbrev pub IsShown : Controller → Type 0
IsShown s =
    IsVerified s.epoch s.last_profile s.public.epoch s.public.descriptor
      s.public.preferences.consistency_mode

pub record IsSound (s : Controller) : Type 0 where
  pub shown_le : s.public.epoch ≤ s.epoch
  pub session_fits : SessionFits s.epoch s.public.epoch s.session
  pub tasks_fit : All (TaskFits s.epoch s.last_profile s.public.epoch) s.pending
  pub requests_fit : All (RequestFits s.epoch) s.panel_requests
  pub ready_fits : IfReady s.public.status (IsShown s)

pub create-IsSound : (preferences : Preferences) → IsSound (create preferences)
create-IsSound preferences = record {
  shown_le = omega arith;
  session_fits = tt;
  tasks_fit = tt;
  requests_fit = tt;
  ready_fits = tt;
}

pub SessionFits-shown :
    (epoch shown : ℕ) (session : Option Session)
    → SessionFits epoch shown session
    → SessionFits epoch epoch session
SessionFits-shown epoch shown none h = tt
SessionFits-shown epoch shown (some session) h = (h.0, refl)

-- Nothing is known of a current profile once the epoch has moved on.
pub IsVerified-later :
    (status : Status) (epoch later : ℕ) (last last' : Option Profile) (shown : ℕ)
    (descriptor : Option Descriptor) (mode : String)
    → suc epoch ≤ later
    → shown ≤ epoch
    → IfReady status (IsVerified epoch last shown descriptor mode)
    → IfReady status (IsVerified later last' shown descriptor mode)
IsVerified-later status epoch later last last' shown descriptor mode le shown_le h =
    IfReady-map status _ _
      (λ (p, d, e, checked, advertised, _).
        (p, d, e, checked, advertised, λ e. absurd (omega arith)))
      h

-- When the epoch moves on, the awaits of before are of an epoch that is over.
pub TaskFits-later :
    (epoch later : ℕ) (last last' : Option Profile) (shown shown' : ℕ) (ts : List Task)
    → suc epoch ≤ later
    → All (TaskFits epoch last shown) ts
    → All (TaskFits later last' shown') ts
TaskFits-later epoch later last last' shown shown' [] le h = tt
TaskFits-later epoch later last last' shown shown' (releasing_previous n p ∷ ts) le h = (
  (omega (arith, h.0.0), λ e. absurd (omega (arith, h.0.0))),
  TaskFits-later epoch later last last' shown shown' ts le h.1,
)
TaskFits-later epoch later last last' shown shown' (bootstrapping session p ∷ ts) le h = (
  (omega (arith, h.0.0), λ e. absurd (omega (arith, h.0.0))),
  TaskFits-later epoch later last last' shown shown' ts le h.1,
)
TaskFits-later epoch later last last' shown shown' (releasing_stale ∷ ts) le h =
    (tt, TaskFits-later epoch later last last' shown shown' ts le h.1)
TaskFits-later epoch later last last' shown shown' (releasing_failed _ _ _ ∷ ts) le h =
    (tt, TaskFits-later epoch later last last' shown shown' ts le h.1)
TaskFits-later epoch later last last' shown shown' (requesting _ _ _ ∷ ts) le h =
    (tt, TaskFits-later epoch later last last' shown shown' ts le h.1)
TaskFits-later epoch later last last' shown shown' (releasing_canceled ∷ ts) le h =
    (tt, TaskFits-later epoch later last last' shown shown' ts le h.1)
TaskFits-later epoch later last last' shown shown' (releasing_closed ∷ ts) le h =
    (tt, TaskFits-later epoch later last last' shown shown' ts le h.1)

-- The same when only the epoch that is shown becomes the current one.
abbrev pub TaskFits-shown :
    (epoch : ℕ) (last : Option Profile) (shown : ℕ) (t : Task)
    → TaskFits epoch last shown t
    → TaskFits epoch last epoch t
TaskFits-shown epoch last shown (releasing_previous n p) h = (h.0, λ e. ((h.1 e).0, refl))
TaskFits-shown epoch last shown (bootstrapping session p) h = (h.0, λ e. ((h.1 e).0, refl))
TaskFits-shown epoch last shown releasing_stale h = tt
TaskFits-shown epoch last shown (releasing_failed _ _ _) h = tt
TaskFits-shown epoch last shown (requesting _ _ _) h = tt
TaskFits-shown epoch last shown releasing_canceled h = tt
TaskFits-shown epoch last shown releasing_closed h = tt

pub TasksFit-shown :
    (epoch : ℕ) (last : Option Profile) (shown : ℕ) (ts : List Task)
    → All (TaskFits epoch last shown) ts
    → All (TaskFits epoch last epoch) ts
TasksFit-shown epoch last shown [] h = tt
TasksFit-shown epoch last shown (t ∷ ts) h =
    (TaskFits-shown epoch last shown t h.0, TasksFit-shown epoch last shown ts h.1)
