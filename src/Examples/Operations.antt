-- ===== src/Examples/Operations.antt =====
-- Pages, counts, selections and platforms of packages/explorer-state at concrete inputs.
use eacl_demo.Base.{
  ◌≡◌, ◌⊎◌, ◌↔◌, ◌≤◌, ◌<◌, refl, true, false, List, [], ◌∷◌, length, All, none, some, ok, arith,
}
use eacl_demo.Json.{Json}
use eacl_demo.Explorer.Controller.Publish.{lookup, insert}
use eacl_demo.Explorer.Operations.{
  Page, PageInfo, EndCursor, Pager, State, Count, RawCount, DescriptorLimits, Direction, ask,
  initial_state, initial_pager, max_page_size, max_count, synchronize_epoch, bounded_cursor, set_at,
  cursor_at, turn_page, turned, run_cursor_page, page_arrived, validate_page, validate_count,
  descriptor_limit, count_ceiling,
}
use eacl_demo.Explorer.Operations.Pages.{IsPager, ArePagers, run_cursor_page-turns, turn_page-back}
use eacl_demo.Explorer.Operations.Counts.{validate_count-escalates}
use eacl_demo.Explorer.Selection.{
  Backend, Catalog, Selection, IsOffered, find_backend, initial_selection, select_backend,
}
use eacl_demo.Explorer.Origins.{PlatformProfile, profile_for_platform}
use eacl_demo.Explorer.Platforms.{
  PlatformOption, supported_platform, normalize_platform, platform_options,
  platform_options-supported,
}

abbrev page_info : PageInfo
page_info = record {
  has_next_page = some true;
  page_size = some 2;
  end_cursor = EndCursor.text "c1";
}

abbrev a_page : Page
a_page = record { items = some (Json.null ∷ Json.null ∷ []); page_info = some page_info }

abbrev asked_state : State
asked_state = record (initial_state 1) { pagers = ("subjects:all", initial_pager "subjects") ∷ [] }

abbrev arrived_state : State
arrived_state = record (initial_state 1) {
  pagers = ("subjects:all", turned "subjects" 0 (none ∷ []) a_page) ∷ [];
}

asks_first :
    (run_cursor_page 1 2 "subjects:all" "subjects" Direction.first (initial_state 1)).1
    ≡ ok (ask 0 (none ∷ []) 2 none)
unfolding run_cursor_page turn_page cursor_at synchronize_epoch lookup
asks_first = refl

are_pagers : ArePagers asked_state
are_pagers = (record { counted = omega arith; reached = omega arith }, tt)

arrives :
    page_arrived "subjects:all" "subjects" 0 (none ∷ []) 2 a_page asked_state ≡ ok arrived_state
unfolding page_arrived validate_page insert
arrives = refl

run_cursor_page-turns_example :
    ArePagers ((run_cursor_page 1 2 "subjects:all" "subjects" Direction.first (initial_state 1)).0)
    × ArePagers arrived_state
    × ((items : List Json) × (a_page.items ≡ some items)
        × (length items ≤ 2)
        × (length items ≤ max_page_size))
run_cursor_page-turns_example =
    run_cursor_page-turns 1 2 "subjects:all" "subjects" Direction.first (initial_state 1)
      asked_state arrived_state 0 2 (none ∷ []) none a_page tt asks_first are_pagers arrives

abbrev first_pager : Pager
first_pager = turned "subjects" 0 (none ∷ []) a_page

is_first_pager : IsPager first_pager
unfolding turned
is_first_pager = record { counted = omega arith; reached = omega arith }

asks_next :
    turn_page Direction.next 2 first_pager ≡ ok (ask 1 (none ∷ some "c1" ∷ []) 2 (some "c1"))
unfolding turn_page turned cursor_at bounded_cursor set_at
asks_next = refl

turn_page-back_example :
    (turn_page Direction.previous 2 (turned first_pager.panel_id 1 (none ∷ some "c1" ∷ []) a_page)
      ≡ ok (
          ask first_pager.index
            (none ∷ some "c1" ∷ [])
            2
            (cursor_at first_pager.index first_pager.cursors)))
    × ((turned first_pager.panel_id first_pager.index (none ∷ some "c1" ∷ []) a_page).index
        ≡ first_pager.index)
    × ((turned first_pager.panel_id first_pager.index (none ∷ some "c1" ∷ []) a_page).cursors
        ≡ first_pager.cursors)
turn_page-back_example =
    turn_page-back 2 2 1 first_pager (none ∷ some "c1" ∷ []) (some "c1") a_page a_page
      is_first_pager asks_next

abbrev raw_count : RawCount
raw_count = record { kind = "objects"; value = some 1000; exact = some false; ceiling = some 1000 }

abbrev full_count : Count
full_count = record { kind = "objects"; value = 1000; exact = false; ceiling = 1000 }

counts_up : validate_count raw_count "objects" 1000 ≡ ok full_count
unfolding validate_count
counts_up = refl

below_limit :
    1000 < descriptor_limit "count-ceiling" "countCeiling" max_count DescriptorLimits.absent
unfolding descriptor_limit
below_limit = omega arith

validate_count-escalates_example :
    (full_count.kind ≡ "objects")
    × (full_count.value ≤ 1000)
    × ((full_count.exact ≡ true) ⊎ (full_count.value ≡ 1000))
    × (full_count.value < count_ceiling true (some full_count) DescriptorLimits.absent)
    × (count_ceiling true (some full_count) DescriptorLimits.absent
        ≤ descriptor_limit "count-ceiling" "countCeiling" max_count DescriptorLimits.absent)
validate_count-escalates_example =
    validate_count-escalates raw_count "objects" 1000 DescriptorLimits.absent full_count counts_up
      below_limit

abbrev datahike : Backend
datahike = record { id = "datahike"; storages = "s3" ∷ "dynamodb" ∷ [] }

abbrev catalog : Catalog
catalog = record { default_backend = "datahike"; backends = datahike ∷ []; storages = [] }

abbrev on_s3 : Selection
on_s3 = record { backend = "datahike"; storage = "s3" }

selects : initial_selection catalog (some "unknown") none ≡ ok on_s3
unfolding initial_selection find_backend
selects = refl

offers_s3 : IsOffered catalog "datahike" "s3"
unfolding find_backend
offers_s3 = (datahike, refl, refl)

selects_dynamodb : (select_backend catalog on_s3 "datahike" (some "dynamodb")).1 ≡ some "dynamodb"
unfolding select_backend find_backend
selects_dynamodb = refl

platform_options-supported_example :
    All
      (λ (o : PlatformOption).
        (o.selectable ≡ supported_platform on_s3 o.id)
        × ((o.selectable ≡ true) ↔ (o.reason ≡ none)))
      (platform_options on_s3)
platform_options-supported_example = platform_options-supported on_s3

abbrev datahike_s3 : PlatformProfile
datahike_s3 = record {
  id = "datahike-s3";
  backend = "datahike";
  storage = "s3";
  state = some "enabled";
  api_origin = some "https://profile.example";
}

large_origin :
    profile_for_platform datahike_s3 (some "lambda-4096")
    ≡ ok (record datahike_s3 {
      api_origin = some "https://y66owmoqebrcmzyfw6uturkaue0exoqe.lambda-url.us-east-1.on.aws";
    })
unfolding profile_for_platform normalize_platform supported_platform
large_origin = refl
