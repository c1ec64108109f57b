-- ===== src/Explorer/Operations/Pages.antt =====
-- packages/explorer-state/src/explorer-operations.mjs: turning pages forward and back.
use eacl_demo.Base.{
  ℕ, zero, suc, ◌+◌, ◌-◌, ◌≤◌, ◌≡◌, refl, ap, ◌∙◌, Bool, true, ◌&&◌, leb, leb→le, if_holds,
  elim_holds, Option-cases, Bool-cases, inl, inr, String, List, [], ◌∷◌, ◌++◌, length, length-take,
  length-append, take, take-append, take_all, All, Option, none, some, Result, ok, OnOk, OnOk-bind,
  OnOk-apply, any_ok, str_eq, ◌==◌, bind-eq-ok, require-eq-ok, arith,
}
use mathlib.Core.List.{append-nil}
use eacl_demo.Json.{Json}
use eacl_demo.Explorer.Controller.Publish.{lookup, insert}
use eacl_demo.Explorer.Controller.Sound.Reach.{All-insert}
use eacl_demo.Explorer.Operations.{
  page_exceeds, OperationError, Page, Pager, State, initial_pager, synchronize_epoch, max_page_size,
  bounded_cursor, Direction, first, previous, next, unknown, set_at, cursor_at, Turn, complete, ask,
  has_more, turn_page, pager_of, kept, run_cursor_page, items_within, validate_page, turned,
  page_arrived,
}

-- A pager has a cursor for each page up to the one it shows.
pub record IsPager (p : Pager) : Type 0 where
  pub counted : p.page ≡ p.index + 1
  pub reached : length p.cursors ≡ p.index + 1

set_at_end :
    (c : Option String) (xs : List (Option String)) → set_at (length xs) c xs ≡ xs ++ (c ∷ [])
unfolding set_at
set_at_end c [] = refl
set_at_end c (x ∷ xs) = ap (x ∷◌) (set_at_end c xs)

both : (a b : Bool) → (a && b) ≡ true → (a ≡ true) × (b ≡ true)
both a b h = ground arith

cursor_at-append :
    (n : ℕ) (xs ys : List (Option String))
    → suc n ≤ length xs
    → cursor_at n (xs ++ ys) ≡ cursor_at n xs
unfolding cursor_at
cursor_at-append n [] ys h = absurd (omega arith)
cursor_at-append zero (x ∷ xs) ys h = refl
cursor_at-append (suc n) (x ∷ xs) ys h = cursor_at-append n xs ys (omega arith)

-- What a turn asks for: a page that the pager has a cursor for, or the one behind its last.
abbrev IsAsked : Pager → Turn → Type 0
IsAsked p (complete value) = Unit
IsAsked p (ask target cursors size cursor) =
    (target ≤ p.index + 1) × (target + 1 ≤ length cursors) × (cursor ≡ cursor_at target cursors)

length-set_at :
    (n : ℕ) (c : Option String) (xs : List (Option String)) → suc n ≤ length (set_at n c xs)
unfolding set_at
length-set_at zero c [] = omega arith
length-set_at zero c (x ∷ xs) = omega arith
length-set_at (suc n) c [] = omega (arith, length-set_at n c [])
length-set_at (suc n) c (x ∷ xs) = omega (arith, length-set_at n c xs)

turn_page-IsAsked :
    (d : Direction) (size : ℕ) (p : Pager) → IsPager p → OnOk (IsAsked p) (turn_page d size p)
unfolding turn_page
turn_page-IsAsked first size p h = (omega arith, omega (arith, h.reached), refl)
turn_page-IsAsked previous size p h = (omega arith, omega (arith, h.reached), refl)
turn_page-IsAsked unknown size p h = tt
turn_page-IsAsked next size p h =
    elim_holds (OnOk (IsAsked p)) (has_more p.page_info) tt (λ end_cursor.
      OnOk-bind (λ _. Unit) (IsAsked p) (bounded_cursor end_cursor) _
        (any_ok (bounded_cursor end_cursor))
        (λ c _.
          let far : suc (suc p.index) ≤ length (set_at (suc p.index) (some c) p.cursors) =
            length-set_at (suc p.index) (some c) p.cursors in
          (omega arith, omega (arith, far), refl)))

turned-IsPager :
    (panel_id : String) (target : ℕ) (cursors : List (Option String)) (value : Page)
    → target + 1 ≤ length cursors
    → IsPager (turned panel_id target cursors value)
unfolding turned
turned-IsPager panel_id target cursors value h = record {
  counted = refl;
  reached = omega (arith, length-take (target + 1) cursors);
}

abbrev pub ArePagers : State → Type 0
ArePagers s = All (λ (e : String × Pager). IsPager (e.1)) s.pagers

initial_pager-IsPager : (panel_id : String) → IsPager (initial_pager panel_id)
initial_pager-IsPager panel_id = record { counted = omega arith; reached = omega arith }

lookup-IsPager :
    (key panel_id : String) (pagers : List (String × Pager))
    → All (λ (e : String × Pager). IsPager (e.1)) pagers
    → IsPager (elim (lookup key pagers) [ none ↦ initial_pager panel_id | some p ↦ p ])
unfolding lookup
lookup-IsPager key panel_id [] h = initial_pager-IsPager panel_id
lookup-IsPager key panel_id ((j, p) ∷ pagers) h = elim (Bool-cases (str_eq j key)) [
  | inl e ↦ rw (e, lookup) (h.0)
  | inr e ↦ rw (e, lookup) (lookup-IsPager key panel_id pagers h.1)
]

synchronize_epoch-ArePagers :
    (epoch : ℕ) (s : State) → ArePagers s → ArePagers (synchronize_epoch epoch s)
unfolding synchronize_epoch
synchronize_epoch-ArePagers epoch s h = if_holds ArePagers (s.epoch == epoch) (λ _. h) (λ _. tt)

abbrev HasItems : ℕ → Page → Type 0
HasItems n value =
    (items : List Json) × (value.items ≡ some items)
    × (length items ≤ n)
    × (length items ≤ max_page_size)

items_within-HasItems :
    (n : ℕ) (o : Option (List Json))
    → items_within n o ≡ true
    → (items : List Json) × (o ≡ some items) × (length items ≤ n) × (length items ≤ max_page_size)
items_within-HasItems n none h = cc
items_within-HasItems n (some items) h =
    let (a, b) = both (leb (length items) n) (leb (length items) max_page_size) h in
    (items, refl, leb→le _ _ a, leb→le _ _ b)

validate_page-HasItems :
    (value : Page) (n : ℕ) (w : Page) → validate_page value n ≡ ok w → HasItems n value
unfolding validate_page
validate_page-HasItems value n w h = elim (Option-cases value.page_info) [
  | inl e ↦ let h = rw (validate_page, e) at h in cc
  | inr (info, e) ↦
      let h : validate_page (record value { page_info = some info }) n ≡ ok w = rw e at h in
      let (within, _) = require-eq-ok (items_within n value.items) page_exceeds _ h in
      items_within-HasItems n value.items within
]

abbrev Asked : State × Result OperationError Turn → Pager → Type 0
Asked r p = OnOk (IsAsked p) (r.1)

run_cursor_page-Asked :
    (epoch size : ℕ) (key panel_id : String) (d : Direction) (s : State)
    → ArePagers s
    → Asked
        (run_cursor_page epoch size key panel_id d s)
        (pager_of key panel_id (synchronize_epoch epoch s))
unfolding run_cursor_page
run_cursor_page-Asked epoch size key panel_id d s h =
    let t = synchronize_epoch epoch s in
    let p = pager_of key panel_id t in
    if_holds (λ (r : State × Result OperationError Turn). Asked r p) (kept d)
      (λ _.
        turn_page-IsAsked d size p
          (lookup-IsPager key panel_id t.pagers (synchronize_epoch-ArePagers epoch s h)))
      (λ _. tt)

run_cursor_page-ArePagers :
    (epoch size : ℕ) (key panel_id : String) (d : Direction) (s : State)
    → ArePagers s
    → ArePagers ((run_cursor_page epoch size key panel_id d s).0)
unfolding run_cursor_page
run_cursor_page-ArePagers epoch size key panel_id d s h =
    let t = synchronize_epoch epoch s in
    let k : ArePagers t = synchronize_epoch-ArePagers epoch s h in
    if_holds (λ (r : State × Result OperationError Turn). ArePagers (r.0)) (kept d)
      (λ _.
        elim_holds ArePagers (lookup key t.pagers)
          (All-insert (λ (e : String × Pager). IsPager (e.1)) key _ t.pagers
            (lookup-IsPager key panel_id t.pagers k) k)
          (λ _. k))
      (λ _. k)

-- Asking for a page, in any direction, keeps each pager of the state with one cursor for each page up
-- to the one it shows. When a page then arrives that passes its validation, this holds again of the
-- state that it arrives in (which may have changed in between), and the page has at most as many
-- items as were asked for, and at most a hundred.
pub run_cursor_page-turns :
    (epoch size : ℕ) (key panel_id : String) (d : Direction) (s t u : State) (target n : ℕ)
    (cursors : List (Option String)) (cursor : Option String) (value : Page)
    → ArePagers s
    → (run_cursor_page epoch size key panel_id d s).1 ≡ ok (ask target cursors n cursor)
    → ArePagers t
    → page_arrived key panel_id target cursors n value t ≡ ok u
    → ArePagers ((run_cursor_page epoch size key panel_id d s).0)
      × ArePagers u
      × ((items : List Json) × (value.items ≡ some items)
          × (length items ≤ n)
          × (length items ≤ max_page_size))
unfolding page_arrived
run_cursor_page-turns epoch size key panel_id d s t u target n cursors cursor value hs asked ht
      arrived =
    let (_, enough, _) =
      OnOk-apply (IsAsked (pager_of key panel_id (synchronize_epoch epoch s))) _
        (ask target cursors n cursor) (run_cursor_page-Asked epoch size key panel_id d s hs)
        asked in
    let (w, valid, stored) = bind-eq-ok (validate_page value n) _ arrived in
    (
      run_cursor_page-ArePagers epoch size key panel_id d s hs,
      OnOk-apply ArePagers
          (ok (record t { pagers = insert key (turned panel_id target cursors w) t.pagers })) u
          (All-insert (λ (e : String × Pager). IsPager (e.1)) key _ t.pagers
            (turned-IsPager panel_id target cursors w enough) ht)
          stored,
      validate_page-HasItems value n w valid,
    )

abbrev IsNext : Pager → Turn → Type 0
IsNext p (complete value) = Unit
IsNext p (ask target cursors n cursor) =
    (target ≡ suc p.index) × ((c : String) × (cursors ≡ set_at (suc p.index) (some c) p.cursors))

turn_page-IsNext : (size : ℕ) (p : Pager) → OnOk (IsNext p) (turn_page next size p)
unfolding turn_page
turn_page-IsNext size p = elim_holds (OnOk (IsNext p)) (has_more p.page_info) tt (λ end_cursor.
    OnOk-bind (λ _. Unit) (IsNext p) (bounded_cursor end_cursor) _
      (any_ok (bounded_cursor end_cursor)) (λ c _. (refl, (c, refl))))

-- What the cursors are with one more behind them.
extended :
    (i : ℕ) (xs cs : List (Option String)) (c : Option String)
    → length xs ≡ i + 1
    → cs ≡ set_at (suc i) c xs
    → (take (suc i + 1) cs ≡ cs) × (cursor_at i cs ≡ cursor_at i xs) × (take (i + 1) cs ≡ xs)
extended i xs cs c h e =
    let n : suc i ≡ length xs = omega arith in
    let z : i + 1 - length xs ≡ 0 = omega arith in
    let whole : cs ≡ xs ++ (c ∷ []) = e ∙ ap (λ k. set_at k c xs) n ∙ set_at_end c xs in
    (
      take_all (suc i + 1) cs (omega (arith, ap length whole, length-append xs (c ∷ []))),
      ap (cursor_at i) whole ∙ cursor_at-append i xs (c ∷ []) (omega arith),
      ap (take (i + 1)) whole
          ∙ take-append (i + 1) xs (c ∷ [])
          ∙ rw (z, take_all (i + 1) xs (omega arith), append-nil) refl,
    )

-- The page behind the current one and back: when the next page has arrived, turning back asks for
-- the page that was shown, with the cursor that it was asked for with, and when that arrives again
-- the pager has the index and the cursors it had.
pub turn_page-back :
    (size n target : ℕ) (p : Pager) (cursors : List (Option String)) (cursor : Option String)
    (value value' : Page)
    → IsPager p
    → turn_page next size p ≡ ok (ask target cursors n cursor)
    → (turn_page previous size (turned p.panel_id target cursors value)
        ≡ ok (ask p.index cursors size (cursor_at p.index p.cursors)))
      × ((turned p.panel_id p.index cursors value').index ≡ p.index)
      × ((turned p.panel_id p.index cursors value').cursors ≡ p.cursors)
unfolding turn_page turned
turn_page-back size n target p cursors cursor value value' h e =
    let (forward, (c, longer)) =
      OnOk-apply (IsNext p) (turn_page next size p) (ask target cursors n cursor)
        (turn_page-IsNext size p) e in
    let (whole, same, back) = extended p.index p.cursors cursors (some c) h.reached longer in
    let z : suc p.index - 1 ≡ p.index = omega arith in
    (rw (forward, whole, z, same) refl, refl, back)
