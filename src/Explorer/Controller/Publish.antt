-- ===== src/Explorer/Controller/Publish.antt =====
-- The helpers of packages/explorer-state/src/explorer-controller.mjs that the operations share.
use eacl_demo.Base.{
  ℕ, suc, ◌-◌, Bool, ◌&&◌, ◌==◌, leb, str_eq, if◌then◌else◌, String, len, slice, List, [], ◌∷◌,
  Option, none, some, includes, string_eq, nat_eq,
}
use eacl_demo.Explorer.Types.{Profile, Descriptor}
use eacl_demo.Explorer.Controller.{
  ShownProfile, Startup, Panel, PublicState, Controller, Session, PanelRequest, Intent, Task,
  empty_panel,
}

-- A `Map` as a list of its entries; a new key goes to the end.
module _ {ℓ} {V : Type ℓ} where
  unfoldable pub lookup : String → List (String × V) → Option V
  lookup k [] = none
  lookup k ((j, v) ∷ m) = if str_eq j k then some v else lookup k m

  unfoldable pub insert : String → V → List (String × V) → List (String × V)
  insert k v [] = (k, v) ∷ []
  insert k v ((j, w) ∷ m) = if str_eq j k then (k, v) ∷ m else (j, w) ∷ insert k v m

  unfoldable pub remove : String → List (String × V) → List (String × V)
  remove k [] = []
  remove k ((j, v) ∷ m) = if str_eq j k then m else (j, v) ∷ remove k m

abbrev pub portable_fields : List String
portable_fields =
    "subject" ∷ "subjectType" ∷ "resourceType" ∷ "resourceId" ∷ "permission" ∷ "relation" ∷ "view"
    ∷ []

-- The entries whose values are texts, of which those of a known field and a bounded length stay.
unfoldable pub sanitize_portable_intent : Intent → Intent
sanitize_portable_intent [] = []
sanitize_portable_intent ((key, value) ∷ intent) =
    let rest = sanitize_portable_intent intent in
    if includes portable_fields key && leb (len value) 256 then (key, value) ∷ rest else rest

abbrev pub public_profile : Profile → ShownProfile
public_profile p = record { id = p.id; backend = p.backend; storage = p.storage; state = p.state }

-- `publish({ ..., announcement: announcement(message, politeness) })`: `change` is the patch.
unfoldable pub publish_announced :
    (PublicState → PublicState) → String → String → Controller → Controller
publish_announced change message politeness s = record s {
  announcement_sequence = suc s.announcement_sequence;
  public = record (change s.public) {
    announcement = some (record {
      sequence = suc s.announcement_sequence;
      politeness = politeness;
      message = slice 256 message;
    });
  };
}

abbrev pub patch_panel : String → (Panel → Panel) → PublicState → PublicState
patch_panel id change p = record p {
  panels =
      insert id (change (elim (lookup id p.panels) [ none ↦ empty_panel | some q ↦ q ])) p.panels;
}

-- `publishPanel` without a message, and with one.
unfoldable pub publish_panel : String → (Panel → Panel) → Controller → Controller
publish_panel id change s = record s { public = patch_panel id change s.public }

unfoldable pub publish_panel_announced :
    String → (Panel → Panel) → String → String → Controller → Controller
publish_panel_announced id change message politeness =
    publish_announced (patch_panel id change) message politeness

-- The synchronous part of `release`: a transport that is there and not yet released is called once.
abbrev pub released_with : Option ℕ → List ℕ → List ℕ
released_with none released = released
released_with (some t) released = if includes released t then released else t ∷ released

abbrev pub release : Option ℕ → Controller → Controller
release transport s = record s { released = released_with transport s.released }

-- `controller.abort(…)`, with the children that are linked to it.
abbrev pub linked_children : ℕ → List (ℕ × ℕ) → List ℕ
linked_children c [] = []
linked_children c ((child, parent) ∷ links) =
    let rest = linked_children c links in if parent == c then child ∷ rest else rest

abbrev pub prepend : List ℕ → List ℕ → List ℕ
prepend [] ys = ys
prepend (x ∷ xs) ys = x ∷ prepend xs ys

abbrev pub aborted_with : Option ℕ → List (ℕ × ℕ) → List ℕ → List ℕ
aborted_with none links aborted = aborted
aborted_with (some c) links aborted = c ∷ prepend (linked_children c links) aborted

-- The argument is an option for `?.abort(…)`.
unfoldable pub abort : Option ℕ → Controller → Controller
abort c s = record s { aborted = aborted_with c s.links s.aborted }

abbrev pub session_controller : Option Session → Option ℕ
session_controller none = none
session_controller (some session) = some session.controller

abbrev pub request_controllers : List (String × PanelRequest) → List ℕ
request_controllers [] = []
request_controllers ((_, r) ∷ rs) = r.controller ∷ request_controllers rs

unfoldable pub abort_panels : Controller → Controller
abort_panels s = record s {
  aborted = prepend (request_controllers s.panel_requests) s.aborted;
  panel_requests = [];
}

unfoldable pub is_aborted : ℕ → Controller → Bool
is_aborted c s = includes s.aborted c

abbrev pub stop_startup_timer : Controller → Controller
stop_startup_timer s = record s { startup_timer = none }

abbrev pub startup_kind : Descriptor → String
startup_kind d =
    if str_eq d.execution "browser"
    then "browser-initialization"
    else if str_eq d.snap_start "enabled"
    then "cold-or-restore"
    else "cold-start"

-- `finishStartup(phase, descriptor)` at the time `now`.
unfoldable pub finish_startup : String → Option Descriptor → ℕ → Option Startup → Startup
finish_startup phase descriptor now startup =
    let started : ℕ = elim startup [ none ↦ now | some u ↦ u.started_at ] in
    record {
      phase = phase;
      kind = elim descriptor [
        | some d ↦ startup_kind d
        | none ↦ elim startup [ none ↦ "cold-or-restore" | some u ↦ u.kind ]
      ];
      started_at = started;
      elapsed_ms = now - started;
    }

abbrev pub await : Task → Controller → Controller
await t s = record s { pending = t ∷ s.pending }

abbrev pub transport_of : Option Session → Option ℕ
transport_of none = none
transport_of (some session) = some session.transport
