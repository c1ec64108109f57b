-- ===== src/Explorer/Controller/Stale.antt =====
-- packages/explorer-state/src/explorer-controller.mjs: an answer that comes too late changes nothing
-- that is shown.
use eacl_demo.Base.{
  ℕ, suc, ◌≡◌, ◌≢◌, ◌⊎◌, refl, subst, Bool, true, false, not, ◌||◌, ◌==◌, Bool-cases, inl, inr,
  String, str_eq, List, [], ◌∷◌, some, ok, All, OnOk, OnOk-bind, OnOk-apply, any_ok, includes,
  IsDistinct, nat_eq, arith,
}
use eacl_demo.Explorer.Types.{Profile, Preferences}
use eacl_demo.Explorer.Identity.{validate_enabled_profile}
use eacl_demo.Explorer.Controller.{Controller, Session, PanelRequest, Intent, Validate, create}
use eacl_demo.Explorer.Controller.Publish.{
  lookup, released_with, publish_announced, abort, abort_panels, is_aborted,
}
use eacl_demo.Explorer.Controller.Switch.{
  Bootstrapped, described, threw as bootstrap_threw, switch_profile, startup_failed, bootstrapped,
}
use eacl_demo.Explorer.Controller.Panels.{
  Reply, failure, success, malformed, primitive, threw, stale, is_current, panel_threw,
  panel_settled, panel_responded,
}
use eacl_demo.Explorer.Controller.Steps.{Steps}
use eacl_demo.Explorer.Controller.Sound.{RequestFits}
use eacl_demo.Explorer.Controller.Sound.Reach.{Steps-IsSound}
use eacl_demo.Explorer.Controller.Once.{Steps-released_once, released_with-IsDistinct}

late :
    (current aborted : Bool) (m n : ℕ)
    → (current ≡ false) ⊎ (m ≢ n)
    → ((not current || aborted || not (m == n)) ≡ true) × ((not current || not (m == n)) ≡ true)
late current aborted m n h = ground arith

-- A request that was superseded, settled or belongs to another epoch: whatever its reply, nothing
-- that is shown changes, and the outcome is `stale`.
pub panel_responded-stale :
    (id : String) (request : PanelRequest) (validate : Validate) (reply : Reply) (s : Controller)
    → (is_current id request s ≡ false) ⊎ (request.epoch ≢ s.epoch)
    → (((panel_responded id request validate reply s).0).public ≡ s.public)
      × ((panel_responded id request validate reply s).1 ≡ stale)
unfolding panel_responded panel_settled panel_threw
panel_responded-stale id request validate (threw e) s h =
    rw ((late (is_current id request s) false request.epoch s.epoch h).1) (refl, refl)
panel_responded-stale id request validate (failure e meta) s h =
    rw
      ((late (is_current id request s) (is_aborted request.controller s) request.epoch s.epoch h).0)
      (refl, refl)
panel_responded-stale id request validate (success result meta) s h =
    rw
      ((late (is_current id request s) (is_aborted request.controller s) request.epoch s.epoch h).0)
      (refl, refl)
panel_responded-stale id request validate malformed s h =
    rw
      ((late (is_current id request s) (is_aborted request.controller s) request.epoch s.epoch h).0)
      (refl, refl)
panel_responded-stale id request validate primitive s h =
    rw
      ((late (is_current id request s) (is_aborted request.controller s) request.epoch s.epoch h).0)
      (refl, refl)

late_startup : (aborted : Bool) (m n : ℕ) → m ≢ n → (aborted || not (m == n)) ≡ true
late_startup aborted m n h = ground arith

includes-released_with :
    (t : ℕ) (released : List ℕ) → includes (released_with (some t) released) t ≡ true
includes-released_with t released = ground arith

-- A startup of another epoch: whatever its outcome, what is shown and the session stay, and its
-- transport is released.
pub bootstrapped-stale :
    (session : Session) (profile : Profile) (outcome : Bootstrapped) (now : ℕ) (s : Controller)
    → session.epoch ≢ s.epoch
    → ((bootstrapped session profile outcome now s).public ≡ s.public)
      × ((bootstrapped session profile outcome now s).session ≡ s.session)
      × (includes (bootstrapped session profile outcome now s).released session.transport ≡ true)
unfolding bootstrapped startup_failed
bootstrapped-stale session profile (bootstrap_threw e) now s h =
    rw (late_startup (is_aborted session.controller s) session.epoch s.epoch h)
      (refl, refl, includes-released_with session.transport s.released)
bootstrapped-stale session profile (described d) now s h =
    rw (late_startup (is_aborted session.controller s) session.epoch s.epoch h)
      (refl, refl, includes-released_with session.transport s.released)

lookup-All :
    {V : Type 0} (P : String × V → Type 0) (k : String) (m : List (String × V)) (v : V)
    → lookup k m ≡ some v
    → All P m
    → (j : String) × P (j, v)
unfolding lookup
lookup-All P k [] v e h = cc
lookup-All P k ((j, w) ∷ m) v e h = elim (Bool-cases (str_eq j k)) [
  | inl same ↦ let e : w ≡ v = cc in (j, subst (λ x. P (j, x)) e h.0)
  | inr other ↦ let e : lookup k m ≡ some v = cc in lookup-All P k m v e h.1
]

abbrev Moved : Controller → Controller → Type 0
Moved s t = (t.epoch ≡ suc s.epoch) × IsDistinct t.released

switch_profile-Moved :
    (profile : Profile) (intent : Intent) (now : ℕ) (s : Controller)
    → IsDistinct s.released
    → OnOk (Moved s) (switch_profile profile intent now s)
unfolding switch_profile publish_announced abort_panels abort
switch_profile-Moved profile intent now s h =
    OnOk-bind (λ _. Unit) (Moved s) (validate_enabled_profile profile) _
      (any_ok (validate_enabled_profile profile))
      (λ _ _. (refl, released_with-IsDistinct _ s.released h))

-- After a switch of the profile, in whatever state the steps that follow lead to, the reply to a
-- request that was current before it changes nothing that is shown and its outcome is `stale`.
pub switch_profile-stale :
    (preferences : Preferences) (profile : Profile) (intent : Intent) (now : ℕ) (s t u : Controller)
    (id : String) (request : PanelRequest) (validate : Validate) (reply : Reply)
    → Steps (create preferences) s
    → lookup id s.panel_requests ≡ some request
    → switch_profile profile intent now s ≡ ok t
    → Steps t u
    → (((panel_responded id request validate reply u).0).public ≡ u.public)
      × ((panel_responded id request validate reply u).1 ≡ stale)
switch_profile-stale preferences profile intent now s t u id request validate reply before found
      switched after =
    let sound = Steps-IsSound preferences s before in
    let (_, of_epoch) =
      lookup-All (RequestFits s.epoch) id s.panel_requests request found sound.requests_fit in
    let (_, once) = Steps-released_once (create preferences) s tt before in
    let (moved, distinct) =
      OnOk-apply (Moved s) (switch_profile profile intent now s) t
        (switch_profile-Moved profile intent now s once) switched in
    let (later, _) = Steps-released_once t u distinct after in
    panel_responded-stale id request validate reply u (inr (λ e. absurd (omega arith)))
