-- ===== src/Explorer/Operations.antt =====
-- packages/explorer-state/src/explorer-operations.mjs: pages by cursor and bounded counts. A page is
-- asked for, and arrives validated; what the controller does in between is its own model. A field
-- that holds a value of no expected type is `none`.
pub mod Pages
pub mod Counts
use eacl_demo.Base.{
  ℕ, zero, suc, ◌+◌, ◌-◌, min, Bool, true, false, not, ◌&&◌, ◌||◌, ◌==◌, leb, ltb, str_eq,
  if◌then◌else◌, String, len, List, [], ◌∷◌, length, take, get_elem?, Option, none, some, Result,
  ok, err, ◌>>=◌, ◌>>◌, require,
}
use eacl_demo.Json.{Json}
use eacl_demo.Explorer.Controller.Publish.{lookup, insert}

pub data OperationError : Type 0 where
  bad_direction bad_cursor page_exceeds bad_metadata bad_cursor_state : OperationError
  bad_kind bad_count bad_truncated bad_exact : OperationError

abbrev pub max_cursor_bytes : ℕ
max_cursor_bytes = 4096

abbrev pub max_page_size : ℕ
max_page_size = 100

abbrev pub max_count : ℕ
max_count = 1000000

-- `endCursor`: null, a text, or anything else.
pub data EndCursor : Type 0 where
  null other : EndCursor
  text : String → EndCursor

pub record PageInfo : Type 0 where
  pub has_next_page : Option Bool
  pub page_size : Option ℕ
  pub end_cursor : EndCursor

pub record Page : Type 0 where
  pub items : Option (List Json)
  pub page_info : Option PageInfo

pub record Pager : Type 0 where
  pub panel_id : String
  pub index : ℕ
  pub page : ℕ
  pub cursors : List (Option String)
  pub page_info : Option PageInfo
  pub value : Option Page

pub record Count : Type 0 where
  pub kind : String
  pub value : ℕ
  pub exact : Bool
  pub ceiling : ℕ

pub record State : Type 0 where
  pub epoch : ℕ
  pub pagers : List (String × Pager)
  pub counts : List (String × Count)

abbrev pub initial_state : ℕ → State
initial_state epoch = record { epoch = epoch; pagers = []; counts = [] }

abbrev pub initial_pager : String → Pager
initial_pager panel_id = record {
  panel_id = panel_id;
  index = 0;
  page = 1;
  cursors = none ∷ [];
  page_info = none;
  value = none;
}

-- `epoch` is the controller's.
unfoldable pub synchronize_epoch : ℕ → State → State
synchronize_epoch epoch s = if s.epoch == epoch then s else initial_state epoch

-- The limits of a descriptor: a list of named values, or an object.
pub data DescriptorLimits : Type 0 where
  listed : List (String × ℕ) → DescriptorLimits
  object : List (String × ℕ) → DescriptorLimits
  absent : DescriptorLimits

abbrev pub or_fallback : Option ℕ → ℕ → ℕ
or_fallback none fallback = fallback
or_fallback (some n) fallback = n

unfoldable pub descriptor_limit : String → String → ℕ → DescriptorLimits → ℕ
descriptor_limit wire_name normalized_name fallback (listed limits) =
    or_fallback (lookup wire_name limits) fallback
descriptor_limit wire_name normalized_name fallback (object limits) =
    or_fallback (lookup normalized_name limits) fallback
descriptor_limit wire_name normalized_name fallback absent = fallback

unfoldable pub page_size : ℕ → DescriptorLimits → ℕ
page_size preferred limits =
    min (min preferred (descriptor_limit "page-size" "pageSize" max_page_size limits)) max_page_size

abbrev pub is_bounded : String → Bool
is_bounded cursor = leb 1 (len cursor) && leb (len cursor) max_cursor_bytes

unfoldable pub bounded_cursor : EndCursor → Result OperationError String
bounded_cursor (text cursor) = if is_bounded cursor then ok cursor else err bad_cursor
bounded_cursor _ = err bad_cursor

pub data Direction : Type 0 where
  first previous next unknown : Direction

-- `cursors[index] = cursor`: behind the end, the places between are left empty.
unfoldable pub set_at : ℕ → Option String → List (Option String) → List (Option String)
set_at zero cursor [] = cursor ∷ []
set_at zero cursor (c ∷ cs) = cursor ∷ cs
set_at (suc n) cursor [] = none ∷ set_at n cursor []
set_at (suc n) cursor (c ∷ cs) = c ∷ set_at n cursor cs

-- `cursors[index] ?? null`
unfoldable pub cursor_at : ℕ → List (Option String) → Option String
cursor_at n cursors = elim (get_elem? cursors n) [ none ↦ none | some c ↦ c ]

pub data Turn : Type 0 where
  complete : Option Page → Turn
  -- The index and the cursors of the page that is asked for, its size and its cursor.
  ask : ℕ → List (Option String) → ℕ → Option String → Turn

-- A text is truthy unless it is empty; no cursor that is no text passes the validation of a page.
abbrev pub has_more : Option PageInfo → Option EndCursor
has_more none = none
has_more (some info) = elim info.has_next_page [
  | some true ↦ elim info.end_cursor [
    | null ↦ none
    | other ↦ some other
    | text cursor ↦ if leb 1 (len cursor) then some (text cursor) else none
  ]
  | _ ↦ none
]

unfoldable pub turn_page : Direction → ℕ → Pager → Result OperationError Turn
turn_page first size p = ok (ask 0 p.cursors size (cursor_at 0 p.cursors))
turn_page previous size p =
    ok (ask (p.index - 1) p.cursors size (cursor_at (p.index - 1) p.cursors))
turn_page next size p = elim (has_more p.page_info) [
  | none ↦ ok (complete p.value)
  | some end_cursor ↦ do
    cursor ← bounded_cursor end_cursor
    let cursors = set_at (suc p.index) (some cursor) p.cursors
    ok (ask (suc p.index) cursors size (cursor_at (suc p.index) cursors))
]
turn_page unknown size p = err bad_direction

abbrev pub pager_of : String → String → State → Pager
pager_of key panel_id s = elim (lookup key s.pagers) [ none ↦ initial_pager panel_id | some p ↦ p ]

abbrev pub kept : Direction → Bool
kept unknown = false
kept _ = true

-- `runCursorPage` up to the call of `runPanel`; the pager is published even if its turn throws.
unfoldable pub run_cursor_page :
    ℕ → ℕ → String → String → Direction → State → State × Result OperationError Turn
run_cursor_page epoch size key panel_id direction s =
    let t = synchronize_epoch epoch s in
    let p = pager_of key panel_id t in
    let shown : State = elim (lookup key t.pagers) [
      | none ↦ record t { pagers = insert key p t.pagers }
      | some q ↦ t
    ] in
    if kept direction then (shown, turn_page direction size p) else (t, err bad_direction)

abbrev pub items_within : ℕ → Option (List Json) → Bool
items_within requested none = false
items_within requested (some items) =
    leb (length items) requested && leb (length items) max_page_size

abbrev pub metadata_within : ℕ → PageInfo → Bool
metadata_within requested info = elim info.has_next_page [
  | none ↦ false
  | some _ ↦ elim info.page_size [ none ↦ false | some n ↦ leb n requested ]
]

abbrev pub is_filled : EndCursor → Bool
is_filled (text cursor) = leb 1 (len cursor)
is_filled _ = false

abbrev pub is_null : EndCursor → Bool
is_null null = true
is_null _ = false

abbrev pub cursor_fits : PageInfo → Bool
cursor_fits info = elim info.has_next_page [
  | some true ↦ is_filled info.end_cursor
  | _ ↦ is_null info.end_cursor
]

abbrev pub is_short : EndCursor → Bool
is_short (text cursor) = is_bounded cursor
is_short _ = true

unfoldable pub validate_page : Page → ℕ → Result OperationError Page
validate_page value requested = elim value.page_info [
  | none ↦ err page_exceeds
  | some info ↦ do
    require (items_within requested value.items) page_exceeds
    require (metadata_within requested info) bad_metadata
    require (cursor_fits info) bad_cursor_state
    require (is_short info.end_cursor) bad_cursor
    ok value
]

-- `cursors.splice(targetIndex + 1)` and the pager that is published for a page that has arrived.
unfoldable pub turned : String → ℕ → List (Option String) → Page → Pager
turned panel_id target cursors value = record {
  panel_id = panel_id;
  index = target;
  page = target + 1;
  cursors = take (target + 1) cursors;
  page_info = value.page_info;
  value = some value;
}

unfoldable pub page_arrived :
    String → String → ℕ → List (Option String) → ℕ → Page → State → Result OperationError State
page_arrived key panel_id target cursors requested value s = do
  page ← validate_page value requested
  ok (record s { pagers = insert key (turned panel_id target cursors page) s.pagers })

abbrev pub count_steps : List ℕ
count_steps = 1000 ∷ 10000 ∷ 100000 ∷ 1000000 ∷ []

pub find_step : ℕ → ℕ → List ℕ → Option ℕ
find_step before maximum [] = none
find_step before maximum (step ∷ steps) =
    if ltb before step && leb step maximum then some step else find_step before maximum steps

unfoldable pub next_count_ceiling : ℕ → ℕ → ℕ
unfolding find_step
next_count_ceiling before maximum = or_fallback (find_step before maximum count_steps) maximum

-- A count as it is received; its own ceiling may be null.
pub record RawCount : Type 0 where
  pub kind : String
  pub value : Option ℕ
  pub exact : Option Bool
  pub ceiling : Option ℕ

abbrev pub is_number : Option ℕ → ℕ → Bool
is_number none n = false
is_number (some m) n = m == n

unfoldable pub validate_count : RawCount → String → ℕ → Result OperationError Count
validate_count raw kind ceiling = elim raw.value [
  | none ↦ err bad_count
  | some n ↦ elim raw.exact [
    | none ↦ err bad_count
    | some exact ↦ do
      require (str_eq raw.kind kind && leb n ceiling) bad_count
      require (exact || (is_number raw.ceiling ceiling && n == ceiling)) bad_truncated
      require (not exact || (elim raw.ceiling [ none ↦ true | some c ↦ c == ceiling ])) bad_exact
      ok (record { kind = raw.kind; value = n; exact = exact; ceiling = ceiling })
  ]
]

-- The ceiling that `countObjects` asks with.
unfoldable pub count_ceiling : Bool → Option Count → DescriptorLimits → ℕ
unfolding next_count_ceiling
count_ceiling true before limits =
    next_count_ceiling (elim before [ none ↦ 0 | some c ↦ c.ceiling ])
      (descriptor_limit "count-ceiling" "countCeiling" max_count limits)
count_ceiling false before limits =
    min 1000 (descriptor_limit "count-ceiling" "countCeiling" max_count limits)
