-- ===== src/Contracts/Boundary.antt =====
-- packages/contracts/src/execution-boundary.mjs: admission, deadline and cleanup of requests. A request
-- is in its `try` (running) or in its `finally` (cleaning). Cleanups are numbers.
use mathlib.Core.List.{reverse}
use eacl_demo.Base.{
  ℕ, ◌+◌, ◌-◌, ◌≤◌, ◌≡◌, Bool, true, false, ltb, leb, if◌then◌else◌, if_holds, String, List, [],
  ◌∷◌, ◌++◌, length, Picked, length-Picked, Option, none, some, Result, ok, err, OnOk, OnOk-apply,
  arith,
}

-- The stable codes that the boundary throws itself; the others are the handler's.
pub data BoundaryError : Type 0 where
  overloaded deadline_exceeded cancelled internal_error response_too_large : BoundaryError
  handler_error : String → BoundaryError

pub record Request : Type 0 where
  pub aborted : Bool
  pub deadline_reached : Bool
  pub cleanups : List ℕ

-- The cleanups that are left, the next one first.
abbrev pub Cleaning : Type 0
Cleaning = List ℕ

-- `lost` counts the requests whose cleanup threw; the source keeps no such count.
pub record Boundary : Type 0 where
  pub active : ℕ
  pub running : List Request
  pub cleaning : List Cleaning
  pub lost : ℕ

abbrev pub no_requests : Boundary
no_requests = record { active = 0; running = []; cleaning = []; lost = 0 }

-- `execute` up to its `try`.
unfoldable pub admit : ℕ → Boundary → Result BoundaryError Boundary
admit maximum s =
    if leb maximum s.active
    then err overloaded
    else ok (record s {
      active = s.active + 1;
      running = record { aborted = false; deadline_reached = false; cleanups = [] } ∷ s.running;
    })

abbrev pub on_cleanup : ℕ → Request → Request
on_cleanup c r = record r { cleanups = r.cleanups ++ (c ∷ []) }

-- The parent signal, and the timer.
abbrev pub parent_abort : Request → Request
parent_abort r = record r { aborted = true }

abbrev pub deadline : Request → Request
deadline r = record r { aborted = true; deadline_reached = true }

abbrev pub aborted_code : Request → BoundaryError
aborted_code r = if r.deadline_reached then deadline_exceeded else cancelled

-- What wins the race: the handler's response (its bytes, or no JSON), its error, or the abort.
pub data Settled : Type 0 where
  responded : Option ℕ → Settled
  threw : String → Settled
  abort_won : Settled

unfoldable pub settle : ℕ → Request → Settled → Result BoundaryError (Unit {0})
settle maximum_response_bytes r (responded body) =
    if r.aborted then err (aborted_code r) else elim body [
      | none ↦ err internal_error
      | some bytes ↦ if ltb maximum_response_bytes bytes then err response_too_large else ok tt
    ]
settle maximum_response_bytes r (threw code) = err (handler_error code)
settle maximum_response_bytes r abort_won = err (aborted_code r)

-- The `finally`, from its first cleanup on, with the requests that are left.
unfoldable pub start_cleaning : Request → List Request → Boundary → Boundary
start_cleaning r others s = record s {
  running = others;
  cleaning = reverse r.cleanups ∷ s.cleaning;
}

unfoldable pub cleaned_one : Cleaning → List Cleaning → Boundary → Boundary
cleaned_one rest others s = record s { cleaning = rest ∷ others }

-- A cleanup that throws leaves the `finally` before its last line.
unfoldable pub cleanup_threw : List Cleaning → Boundary → Boundary
cleanup_threw others s = record s { cleaning = others; lost = s.lost + 1 }

unfoldable pub leave : List Cleaning → Boundary → Boundary
leave others s = record s { cleaning = others; active = s.active - 1 }

below : (m n : ℕ) → leb m n ≡ false → n + 1 ≤ m
below m n h = ground arith

module _ (maximum : ℕ) where
  pub data Move (s : Boundary) : Boundary → Type 0 where
    admitted : {t : Boundary} → admit maximum s ≡ ok t → Move s t
    registered :
        (c : ℕ) (r : Request) (others : List Request)
        → Picked r s.running others
        → Move s (record s { running = on_cleanup c r ∷ others })
    parent_aborted :
        (r : Request) (others : List Request)
        → Picked r s.running others
        → Move s (record s { running = parent_abort r ∷ others })
    timed_out :
        (r : Request) (others : List Request)
        → Picked r s.running others
        → Move s (record s { running = deadline r ∷ others })
    settled :
        (r : Request) (others : List Request)
        → Picked r s.running others
        → Move s (start_cleaning r others s)
    cleaned :
        (c : ℕ) (rest : Cleaning) (others : List Cleaning)
        → Picked (c ∷ rest) s.cleaning others
        → Move s (cleaned_one rest others s)
    broken :
        (c : ℕ) (rest : Cleaning) (others : List Cleaning)
        → Picked (c ∷ rest) s.cleaning others
        → Move s (cleanup_threw others s)
    left : (others : List Cleaning) → Picked [] s.cleaning others → Move s (leave others s)

  pub data Moves (s : Boundary) : Boundary → Type 0 where
    stay : Moves s s
    then_move : {t u : Boundary} → Moves s t → Move t u → Moves s u

  -- Each active request is in progress, or was lost.
  abbrev pub IsCounted : Boundary → Type 0
  IsCounted s = (s.active ≡ length s.running + length s.cleaning + s.lost) × (s.active ≤ maximum)

  admit-IsCounted : (s : Boundary) → IsCounted s → OnOk IsCounted (admit maximum s)
  unfolding admit
  admit-IsCounted s h =
      if_holds (OnOk IsCounted) (leb maximum s.active) (λ _. tt)
        (λ free. (omega (arith, h.0), below maximum s.active free))

  Move-IsCounted : (s t : Boundary) → IsCounted s → Move s t → IsCounted t
  unfolding start_cleaning cleaned_one cleanup_threw leave
  Move-IsCounted s t h (Move.admitted e) =
      OnOk-apply IsCounted (admit maximum s) t (admit-IsCounted s h) e
  Move-IsCounted s _ h (Move.registered c r others p) = (omega (arith, h.0, length-Picked p), h.1)
  Move-IsCounted s _ h (Move.parent_aborted r others p) = (omega (arith, h.0, length-Picked p), h.1)
  Move-IsCounted s _ h (Move.timed_out r others p) = (omega (arith, h.0, length-Picked p), h.1)
  Move-IsCounted s _ h (Move.settled r others p) = (omega (arith, h.0, length-Picked p), h.1)
  Move-IsCounted s _ h (Move.cleaned c rest others p) = (omega (arith, h.0, length-Picked p), h.1)
  Move-IsCounted s _ h (Move.broken c rest others p) = (omega (arith, h.0, length-Picked p), h.1)
  Move-IsCounted s _ h (Move.left others p) =
      (omega (arith, h.0, length-Picked p), omega (arith, h.1))

  -- However requests overlap: the active count is the number of requests in progress and of those
  -- whose cleanup threw, and never exceeds the maximum. In particular it returns to zero when no
  -- request is in progress, if no cleanup threw.
  pub Moves-IsCounted : (s : Boundary) → Moves no_requests s → IsCounted s
  Moves-IsCounted _ stay = (omega arith, omega arith)
  Moves-IsCounted s (then_move {t} moves move) = Move-IsCounted t s (Moves-IsCounted t moves) move
