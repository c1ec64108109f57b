-- ===== src/Explorer/Controller/Sound/Startup.antt =====
-- The operations of packages/explorer-state/src/explorer-controller.mjs that start, end and retry
-- a profile, and the setters, each with the invariant.
use eacl_demo.Base.{
  str_eq_iff, Result-cases, ℕ, suc, ◌≡◌, refl, Bool, true, false, not, ◌&&◌, ◌||◌, ◌==◌, ==_iff,
  if_holds, elim_holds, Option-cases, inl, inr, String, List, [], ◌∷◌, Option, none, some, ok,
  bind-eq-ok, require-eq-ok, All, OnOk, OnOk-bind, any_ok, OnOk-renamed, includes, string_eq, arith,
}
use eacl_demo.Explorer.Types.{Profile, Descriptor, Preferences}
use eacl_demo.Explorer.Errors.{Thrown}
use eacl_demo.Explorer.Preferences.{normalize_preferences, validate_preferences}
use eacl_demo.Explorer.Identity.{
  validate_enabled_profile, validate_descriptor_capabilities, assert_descriptor_identity, some_mode,
  is_some, advertises, same_mapping, capabilities_missing, mapping_mismatch, health_missing,
  no_consistency_mode,
}
use eacl_demo.Explorer.Controller.{Controller, Session, Intent}
use eacl_demo.Explorer.Controller.Publish.{publish_announced, abort, abort_panels, is_aborted}
use eacl_demo.Explorer.Controller.Switch.{
  Released, Made, Bootstrapped, done, made, not_made, described, modes_of, check_descriptor,
  drop_session, switch_profile, startup_failed, previous_released, bootstrapped, threw,
  failed_released, cancel_startup, is_switching, canceled_released, retry_profile, bad_profile,
  set_portable_intent, set_preferences, close, closed_released, startup_tick,
}
use eacl_demo.Explorer.Controller.Sound.{
  SessionFits, SessionFits-shown, StartupFits, TaskFits, IfReady-map, IsVerified-later, IsSound,
  TaskFits-later, TasksFit-shown,
}

some_mode-eq-true :
    (modes : Option (List String))
    → some_mode modes ≡ true
    → (m : String) × (ms : List String) × (modes ≡ some (m ∷ ms))
some_mode-eq-true none h = cc
some_mode-eq-true (some []) h = cc
some_mode-eq-true (some (m ∷ ms)) h = (m, ms, refl)

-- A descriptor that passes the checks advertises a mode, so the normalized mode is one of its own.
checked-modes :
    (p : Profile) (d : Descriptor)
    → check_descriptor p d ≡ ok tt
    → (m : String) × (ms : List String) × (modes_of d ≡ m ∷ ms)
unfolding validate_descriptor_capabilities
checked-modes p d h =
    let (_, _, k) = bind-eq-ok (assert_descriptor_identity p d) _ h in
    elim (Option-cases d.capabilities) [
      | inl e ↦ let k = rw (validate_descriptor_capabilities, e) at k in cc
      | inr (c, e) ↦
          let k : validate_descriptor_capabilities p (record d { capabilities = some c }) ≡ ok tt =
            rw e at k in
          let (_, k1) =
            require-eq-ok (is_some c.operations && is_some c.consistency_modes) capabilities_missing
              _ k in
          let (_, k2) =
            require-eq-ok (elim d.profile [ none ↦ false | some m ↦ same_mapping m p ])
              mapping_mismatch _ k1 in
          let (_, k3) =
            require-eq-ok (advertises c.operations "health" && advertises c.operations "bootstrap")
              health_missing _ k2 in
          let (some_modes, _) =
            require-eq-ok (some_mode c.consistency_modes) no_consistency_mode _ k3 in
          let (m, ms, e') = some_mode-eq-true c.consistency_modes some_modes in
          (m, ms, rw (e, e') refl)
    ]

normalize-advertised :
    (p : Profile) (d : Descriptor) (preferences : Preferences)
    → check_descriptor p d ≡ ok tt
    → includes (modes_of d) (normalize_preferences preferences (modes_of d)).consistency_mode ≡ true
unfolding normalize_preferences
normalize-advertised p d preferences h =
    let (m, ms, e) = checked-modes p d h in rw e (ground (arith, (str_eq_iff m m).1 refl))

drop_session-fits :
    (epoch shown : ℕ) (transport : Option ℕ) (session : Option Session)
    → SessionFits epoch shown session
    → SessionFits epoch shown (drop_session transport session)
drop_session-fits epoch shown none session h = h
drop_session-fits epoch shown (some t) none h = h
drop_session-fits epoch shown (some t) (some session) h =
    if_holds (SessionFits epoch shown) (session.transport == t) (λ _. tt) (λ _. h)

-- A switch makes a new epoch, without a session or requests.
pub switch_profile-IsSound :
    (profile : Profile) (intent : Intent) (now : ℕ) (s : Controller)
    → IsSound s
    → OnOk IsSound (switch_profile profile intent now s)
unfolding switch_profile publish_announced abort_panels abort
switch_profile-IsSound profile intent now s h =
    OnOk-bind (λ _. Unit) IsSound (validate_enabled_profile profile) _
      (any_ok (validate_enabled_profile profile))
      (λ _ _. record {
        shown_le = omega arith;
        session_fits = tt;
        tasks_fit = (
          (omega arith, λ _. (refl, refl)),
          TaskFits-later s.epoch (suc s.epoch) _ _ _ _ s.pending (omega arith) h.tasks_fit,
        );
        requests_fit = tt;
        ready_fits = tt;
      })

pub startup_failed-IsSound :
    (epoch controller : ℕ) (transport : Option ℕ) (e : Thrown) (s : Controller)
    → IsSound s
    → IsSound (startup_failed epoch controller transport e s)
unfolding startup_failed
startup_failed-IsSound epoch controller transport e s h =
    if_holds IsSound (is_aborted controller s || not (epoch == s.epoch))
      (λ _. record {
        shown_le = h.shown_le;
        session_fits = h.session_fits;
        tasks_fit = (tt, h.tasks_fit);
        requests_fit = h.requests_fit;
        ready_fits = h.ready_fits;
      })
      (λ _. record {
        shown_le = h.shown_le;
        session_fits = h.session_fits;
        tasks_fit = (tt, h.tasks_fit);
        requests_fit = h.requests_fit;
        ready_fits = h.ready_fits;
      })

pub cancel_startup-IsSound : (s : Controller) → IsSound s → IsSound ((cancel_startup s).0)
unfolding cancel_startup abort_panels abort
cancel_startup-IsSound s h =
    if_holds (λ (r : Controller × Bool). IsSound (r.0)) (is_switching s.public.status)
      (λ _.
        let later : All (TaskFits (suc s.epoch) s.last_profile s.public.epoch) s.pending =
          TaskFits-later s.epoch (suc s.epoch) _ _ _ _ s.pending (omega arith) h.tasks_fit in
        record {
          shown_le = omega (arith, h.shown_le);
          session_fits = tt;
          tasks_fit = (tt, later);
          requests_fit = tt;
          ready_fits =
              IsVerified-later s.public.status s.epoch (suc s.epoch) _ _ _ _ _ (omega arith)
                h.shown_le h.ready_fits;
        })
      (λ _. h)

pub canceled_released-IsSound :
    (outcome : Released) (now : ℕ) (s : Controller)
    → IsSound s
    → IsSound (canceled_released outcome now s)
unfolding canceled_released publish_announced
canceled_released-IsSound done now s h = record {
  shown_le = omega arith;
  session_fits = SessionFits-shown s.epoch s.public.epoch s.session h.session_fits;
  tasks_fit = TasksFit-shown s.epoch s.last_profile s.public.epoch s.pending h.tasks_fit;
  requests_fit = h.requests_fit;
  ready_fits = tt;
}
canceled_released-IsSound (threw e) now s h = record {
  shown_le = omega arith;
  session_fits = SessionFits-shown s.epoch s.public.epoch s.session h.session_fits;
  tasks_fit = TasksFit-shown s.epoch s.last_profile s.public.epoch s.pending h.tasks_fit;
  requests_fit = h.requests_fit;
  ready_fits = tt;
}

pub close-IsSound : (s : Controller) → IsSound s → IsSound (close s)
unfolding close abort abort_panels
close-IsSound s h = record {
  shown_le = omega (arith, h.shown_le);
  session_fits = tt;
  tasks_fit =
      (tt, TaskFits-later s.epoch (suc s.epoch) _ _ _ _ s.pending (omega arith) h.tasks_fit);
  requests_fit = tt;
  ready_fits =
      IsVerified-later s.public.status s.epoch (suc s.epoch) _ _ _ _ _ (omega arith) h.shown_le
        h.ready_fits;
}

pub closed_released-IsSound :
    (outcome : Released) (s : Controller) → IsSound s → IsSound (closed_released outcome s)
unfolding closed_released
closed_released-IsSound (threw _) s h = h
closed_released-IsSound done s h = record {
  shown_le = omega arith;
  session_fits = SessionFits-shown s.epoch s.public.epoch s.session h.session_fits;
  tasks_fit = TasksFit-shown s.epoch s.last_profile s.public.epoch s.pending h.tasks_fit;
  requests_fit = h.requests_fit;
  ready_fits = tt;
}

-- Behind the release of the previous transport: a session of the current epoch, or an error shown.
pub previous_released-IsSound :
    (epoch : ℕ) (profile : Profile) (outcome : Released) (m : Made) (now : ℕ) (s : Controller)
    → StartupFits s.epoch s.last_profile s.public.epoch epoch profile
    → IsSound s
    → IsSound (previous_released epoch profile outcome m now s)
unfolding previous_released publish_announced
previous_released-IsSound epoch profile (threw e) m now s fits h =
    if_holds IsSound (epoch == s.epoch)
      (λ _. record {
        shown_le = h.shown_le;
        session_fits = h.session_fits;
        tasks_fit = h.tasks_fit;
        requests_fit = h.requests_fit;
        ready_fits = tt;
      })
      (λ _. h)
previous_released-IsSound epoch profile done (made t) now s fits h =
    if_holds IsSound (epoch == s.epoch)
      (λ e.
        let e : epoch ≡ s.epoch = (==_iff epoch s.epoch).0 e in
        record {
          shown_le = h.shown_le;
          session_fits = (e, (fits.1 e).1);
          tasks_fit = (fits, h.tasks_fit);
          requests_fit = h.requests_fit;
          ready_fits = h.ready_fits;
        })
      (λ _. h)
previous_released-IsSound epoch profile done (not_made t e) now s fits h =
    if_holds IsSound (epoch == s.epoch)
      (λ _. startup_failed-IsSound epoch s.controllers t e _ (record {
        shown_le = h.shown_le;
        session_fits = h.session_fits;
        tasks_fit = h.tasks_fit;
        requests_fit = h.requests_fit;
        ready_fits = h.ready_fits;
      }))
      (λ _. h)

pub bootstrapped-IsSound :
    (session : Session) (profile : Profile) (outcome : Bootstrapped) (now : ℕ) (s : Controller)
    → StartupFits s.epoch s.last_profile s.public.epoch session.epoch profile
    → IsSound s
    → IsSound (bootstrapped session profile outcome now s)
unfolding bootstrapped publish_announced
bootstrapped-IsSound session profile (threw e) now s fits h =
    startup_failed-IsSound session.epoch session.controller (some session.transport) e s h
bootstrapped-IsSound session profile (described d) now s fits h =
    if_holds IsSound (is_aborted session.controller s || not (session.epoch == s.epoch))
      (λ _. record {
        shown_le = h.shown_le;
        session_fits = h.session_fits;
        tasks_fit = (tt, h.tasks_fit);
        requests_fit = h.requests_fit;
        ready_fits = h.ready_fits;
      })
      (λ current. elim (Result-cases (check_descriptor profile d)) [
        | inl (e, refused) ↦
            rw refused (
              startup_failed-IsSound session.epoch session.controller (some session.transport) _ s
                h)
        | inr (tt, checked) ↦
            let same : session.epoch ≡ s.epoch = ground arith in
            rw checked (record {
              shown_le = h.shown_le;
              session_fits = h.session_fits;
              tasks_fit = h.tasks_fit;
              requests_fit = h.requests_fit;
              ready_fits = (
                profile,
                d,
                refl,
                checked,
                normalize-advertised profile d s.public.preferences checked,
                λ _. (fits.1 same).0,
              );
            })
      ])

pub failed_released-IsSound :
    (epoch : ℕ) (transport : Option ℕ) (e : Thrown) (outcome : Released) (now : ℕ) (s : Controller)
    → IsSound s
    → IsSound (failed_released epoch transport e outcome now s)
unfolding failed_released publish_announced
failed_released-IsSound epoch transport e (threw _) now s h = h
failed_released-IsSound epoch transport e done now s h = record {
  shown_le = h.shown_le;
  session_fits = drop_session-fits _ _ transport s.session h.session_fits;
  tasks_fit = h.tasks_fit;
  requests_fit = h.requests_fit;
  ready_fits = tt;
}

pub retry_profile-IsSound :
    (now : ℕ) (s : Controller) → IsSound s → OnOk IsSound (retry_profile now s)
unfolding retry_profile
retry_profile-IsSound now s h = elim_holds (OnOk IsSound) s.last_profile tt (λ p.
    OnOk-renamed IsSound bad_profile (switch_profile p s.last_intent now s)
      (switch_profile-IsSound p s.last_intent now s h))

pub set_preferences-IsSound :
    (change : Preferences → Preferences) (s : Controller)
    → IsSound s
    → OnOk IsSound (set_preferences change s)
unfolding set_preferences
set_preferences-IsSound change s h =
    OnOk-bind (λ _. Unit) IsSound (validate_preferences (change s.public.preferences)) _
      (any_ok (validate_preferences (change s.public.preferences)))
      (λ next _. record {
        shown_le = h.shown_le;
        session_fits = h.session_fits;
        tasks_fit = h.tasks_fit;
        requests_fit = h.requests_fit;
        ready_fits =
            IfReady-map s.public.status _ _
              (λ (p, d, e, checked, advertised, last).
                (p, d, e, checked, rw e (normalize-advertised p d next checked), last))
              h.ready_fits;
      })

pub set_portable_intent-IsSound :
    (intent : Intent) (s : Controller) → IsSound s → IsSound (set_portable_intent intent s)
unfolding set_portable_intent
set_portable_intent-IsSound intent s h = record {
  shown_le = h.shown_le;
  session_fits = h.session_fits;
  tasks_fit = h.tasks_fit;
  requests_fit = h.requests_fit;
  ready_fits = h.ready_fits;
}

pub startup_tick-IsSound :
    (epoch now : ℕ) (s : Controller) → IsSound s → IsSound (startup_tick epoch now s)
unfolding startup_tick
startup_tick-IsSound epoch now s h = elim_holds IsSound s.public.startup h (λ u.
    if_holds IsSound (not (epoch == s.epoch) || not (is_switching s.public.status)) (λ _. h)
      (λ _. record {
        shown_le = h.shown_le;
        session_fits = h.session_fits;
        tasks_fit = h.tasks_fit;
        requests_fit = h.requests_fit;
        ready_fits = h.ready_fits;
      }))
