-- ===== src/Explorer/Controller/Settle.antt =====
-- packages/explorer-state/src/explorer-controller.mjs: how the reply to a current panel request ends,
-- and what a cancellation leaves.
use eacl_demo.Base.{
  ℕ, ◌≡◌, ◌≢◌, ◌⊎◌, refl, Bool, true, false, not, ◌&&◌, ◌||◌, ◌==◌, if_holds, Result-cases, inl,
  inr, String, str_eq_iff, List, [], ◌∷◌, none, some, nat_eq, arith,
}
use eacl_demo.Explorer.Errors.{Thrown}
use eacl_demo.Explorer.Controller.{Controller, Phase, Panel, PanelRequest, Validate}
use eacl_demo.Explorer.Controller.Publish.{
  lookup, insert, remove, publish_announced, publish_panel_announced, abort, is_aborted,
}
use eacl_demo.Explorer.Controller.Panels.{
  Reply, failure, success, malformed, primitive, threw, Outcome, stale, canceled, failed, succeeded,
  is_current, panel_threw, panel_replied, panel_settled, panel_responded, cancel_panel,
  validate_panel_id, returned,
}

module _ {V : Type 0} where
  lookup-insert : (k : String) (v : V) (m : List (String × V)) → lookup k (insert k v m) ≡ some v
  unfolding lookup insert
  lookup-insert k v [] = ground (arith, (str_eq_iff k k).1 refl)
  lookup-insert k v ((j, w) ∷ m) = ground (arith, lookup-insert k v m, (str_eq_iff k k).1 refl)

  lookup-insert_other :
      (j k : String) (v : V) (m : List (String × V)) → j ≢ k → lookup j (insert k v m) ≡ lookup j m
  unfolding lookup insert
  lookup-insert_other j k v [] h = ground (arith, (str_eq_iff k j).0)
  lookup-insert_other j k v ((i, w) ∷ m) h =
      ground (arith, lookup-insert_other j k v m h, (str_eq_iff k j).0, (str_eq_iff i k).0)

on_time :
    (current aborted : Bool) (m n : ℕ)
    → current ≡ true
    → m ≡ n
    → aborted ≡ false
    → ((not current || aborted || not (m == n)) ≡ false) × ((not current || not (m == n)) ≡ false)
on_time current aborted m n c e a = ground arith

-- How a panel looks after the outcome of its request.
abbrev pub IsSettled : PanelRequest → Panel → Outcome → Type 0
IsSettled request p outcome =
    (p.request_id ≡ some request.request_id)
    × (((outcome ≡ succeeded) × (p.phase ≡ Phase.ready) × (p.error ≡ none))
        ⊎ ((outcome ≡ failed) × (p.phase ≡ Phase.error)))

abbrev Shown : String → PanelRequest → Controller × Outcome → Type 0
Shown id request r =
    (p : Panel) × (lookup id r.0.public.panels ≡ some p) × IsSettled request p (r.1)

announced-Shown :
    (id : String) (request : PanelRequest) (change : Panel → Panel) (message politeness : String)
    (outcome : Outcome) (s : Controller)
    → ((p : Panel) → IsSettled request (change p) outcome)
    → Shown id request (publish_panel_announced id change message politeness s, outcome)
unfolding publish_panel_announced publish_announced
announced-Shown id request change message politeness outcome s h =
    (_, lookup-insert id _ s.public.panels, h _)

threw-Shown :
    (id : String) (request : PanelRequest) (e : Thrown) (s : Controller)
    → is_current id request s ≡ true
    → request.epoch ≡ s.epoch
    → is_aborted request.controller s ≡ false
    → Shown id request (panel_threw id request e s)
unfolding panel_threw
threw-Shown id request e s current epoch live =
    rw
      (
        (on_time (is_current id request s) (is_aborted request.controller s) request.epoch s.epoch
            current epoch live).1,
        live,
      )
      (announced-Shown id request _ _ _ failed s (λ p. (refl, inr (refl, refl))))

replied-Shown :
    (id : String) (request : PanelRequest) (validate : Validate) (reply : Reply) (s : Controller)
    → is_current id request s ≡ true
    → request.epoch ≡ s.epoch
    → is_aborted request.controller s ≡ false
    → Shown id request (panel_replied id request validate reply s)
replied-Shown id request validate (failure e meta) s current epoch live =
    announced-Shown id request _ _ _ failed s (λ p. (refl, inr (refl, refl)))
replied-Shown id request validate (success result meta) s current epoch live =
    elim (Result-cases (validate result)) [
      | inl (e, r) ↦ rw (r, panel_replied) (threw-Shown id request e s current epoch live)
      | inr (v, r) ↦
          rw (r, panel_replied)
            (announced-Shown id request _ _ _ succeeded s (λ p. (refl, inl (refl, refl, refl))))
    ]
replied-Shown id request validate malformed s current epoch live =
    threw-Shown id request _ s current epoch live
replied-Shown id request validate primitive s current epoch live =
    threw-Shown id request _ s current epoch live
replied-Shown id request validate (threw e) s current epoch live =
    threw-Shown id request e s current epoch live

on_time_absurd : (a b : Bool) → b ≡ false → (a && b) ≡ true → ⊥
on_time_absurd a b h e = ground arith

abbrev Others : String → Controller → Controller × Outcome → Type 0
Others j s r = lookup j r.0.public.panels ≡ lookup j s.public.panels

threw-Others :
    (id j : String) (request : PanelRequest) (e : Thrown) (s : Controller)
    → j ≢ id
    → Others j s (panel_threw id request e s)
unfolding panel_threw publish_panel_announced publish_announced
threw-Others id j request e s h =
    if_holds (Others j s) (not (is_current id request s) || not (request.epoch == s.epoch))
      (λ _. refl)
      (λ _.
        if_holds (Others j s) (is_aborted request.controller s)
          (λ _. lookup-insert_other j id _ s.public.panels h)
          (λ _. lookup-insert_other j id _ s.public.panels h))

replied-Others :
    (id j : String) (request : PanelRequest) (validate : Validate) (reply : Reply) (s : Controller)
    → j ≢ id
    → Others j s (panel_replied id request validate reply s)
unfolding publish_panel_announced publish_announced
replied-Others id j request validate (failure e meta) s h =
    lookup-insert_other j id _ s.public.panels h
replied-Others id j request validate (success result meta) s h =
    elim (Result-cases (validate result)) [
      | inl (e, r) ↦ rw (r, panel_replied) (threw-Others id j request e s h)
      | inr (v, r) ↦ rw (r, panel_replied) (lookup-insert_other j id _ s.public.panels h)
    ]
replied-Others id j request validate malformed s h = threw-Others id j request _ s h
replied-Others id j request validate primitive s h = threw-Others id j request _ s h
replied-Others id j request validate (threw e) s h = threw-Others id j request e s h

-- The reply to a current request that is not aborted settles its panel, under the id of this request:
-- either the outcome is a success and the panel is ready with no error, or a failure and the panel
-- shows an error.
pub panel_responded-settles :
    (id : String) (request : PanelRequest) (validate : Validate) (reply : Reply) (s : Controller)
    → is_current id request s ≡ true
    → request.epoch ≡ s.epoch
    → is_aborted request.controller s ≡ false
    → (p : Panel) × (lookup id ((panel_responded id request validate reply s).0).public.panels
        ≡ some p)
      × IsSettled request p ((panel_responded id request validate reply s).1)
unfolding panel_responded panel_settled
panel_responded-settles id request validate reply s current epoch live =
    if_holds (Shown id request)
      (returned reply
        && (not (is_current id request s)
            || is_aborted request.controller s
            || not (request.epoch == s.epoch)))
      (λ e. absurd (
        on_time_absurd (returned reply) _
          (on_time (is_current id request s) (is_aborted request.controller s) request.epoch s.epoch
            current epoch live).0
          e))
      (λ _. replied-Shown id request validate reply s current epoch live)

-- A response, whatever its outcome, leaves every other panel as it was.
pub panel_responded-others :
    (id j : String) (request : PanelRequest) (validate : Validate) (reply : Reply) (s : Controller)
    → j ≢ id
    → lookup j ((panel_responded id request validate reply s).0).public.panels
      ≡ lookup j s.public.panels
unfolding panel_responded panel_settled
panel_responded-others id j request validate reply s h =
    if_holds (Others j s)
      (returned reply
        && (not (is_current id request s)
            || is_aborted request.controller s
            || not (request.epoch == s.epoch)))
      (λ _. refl) (λ _. replied-Others id j request validate reply s h)

cancel_panel-aborts :
    (id : String) (request : PanelRequest) (s : Controller)
    → validate_panel_id id ≡ true
    → lookup id s.panel_requests ≡ some request
    → (cancel_panel id s).0 ≡ abort (some request.controller) s
unfolding cancel_panel
cancel_panel-aborts id request s valid found = rw (valid, found) refl

aborted_after : (c : ℕ) (s : Controller) → is_aborted c (abort (some c) s) ≡ true
unfolding is_aborted abort
aborted_after c s = ground arith

current_after :
    (id : String) (request : PanelRequest) (s : Controller)
    → lookup id s.panel_requests ≡ some request
    → is_current id request (abort (some request.controller) s) ≡ true
unfolding is_current abort
current_after id request s found = rw (found, is_current) (ground arith)

threw-Canceled :
    (id : String) (request : PanelRequest) (e : Thrown) (s : Controller)
    → is_current id request s ≡ true
    → request.epoch ≡ s.epoch
    → is_aborted request.controller s ≡ true
    → ((panel_threw id request e s).1 ≡ canceled)
      × ((p : Panel) × (lookup id (panel_threw id request e s).0.public.panels ≡ some p)
          × (p.phase ≡ Phase.canceled)
          × (p.retryable ≡ true))
unfolding panel_threw publish_panel_announced publish_announced
threw-Canceled id request e s current epoch aborted =
    rw
      (
        (on_time (is_current id request s) false request.epoch s.epoch current epoch refl).1,
        aborted,
      )
      (refl, (_, lookup-insert id _ s.public.panels, refl, refl))

aborted-late :
    (current aborted : Bool) (m n : ℕ)
    → aborted ≡ true
    → (not current || aborted || not (m == n)) ≡ true
aborted-late current aborted m n h = ground arith

-- `cancelPanel` of a request of the current epoch whose transport then rejects: the panel is shown
-- as canceled and may be retried.
pub cancel_panel-settles :
    (id : String) (request : PanelRequest) (validate : Validate) (e : Thrown) (s : Controller)
    → validate_panel_id id ≡ true
    → lookup id s.panel_requests ≡ some request
    → request.epoch ≡ s.epoch
    → let t = (cancel_panel id s).0 in
      let r = panel_responded id request validate (threw e) t in
      (r.1 ≡ canceled)
      × ((p : Panel) × (lookup id r.0.public.panels ≡ some p)
          × (p.phase ≡ Phase.canceled)
          × (p.retryable ≡ true))
unfolding panel_responded panel_settled abort
cancel_panel-settles id request validate e s valid found epoch =
    rw (cancel_panel-aborts id request s valid found) (
      threw-Canceled id request e (abort (some request.controller) s)
        (current_after id request s found) epoch (aborted_after request.controller s))

-- `cancelPanel` of a request whose transport yet returns a reply: the outcome is `stale`, what is shown
-- stays as it was, a panel that is loading included, and the request is forgotten.
pub cancel_panel-returned :
    (id : String) (request : PanelRequest) (validate : Validate) (reply : Reply) (s : Controller)
    → validate_panel_id id ≡ true
    → lookup id s.panel_requests ≡ some request
    → returned reply ≡ true
    → let t = (cancel_panel id s).0 in
      let r = panel_responded id request validate reply t in
      (r.1 ≡ stale) × (r.0.public ≡ s.public) × (r.0.panel_requests ≡ remove id s.panel_requests)
unfolding panel_responded panel_settled abort
cancel_panel-returned id request validate reply s valid found back =
    rw
      (
        cancel_panel-aborts id request s valid found,
        back,
        aborted-late (is_current id request (abort (some request.controller) s))
            (is_aborted request.controller (abort (some request.controller) s)) request.epoch
            s.epoch (aborted_after request.controller s),
        current_after id request s found,
      )
      (refl, refl, refl)
