-- ===== src/Explorer/Transport/Signal.antt =====
-- packages/explorer-state/src/http-transport.mjs: the signal of a request, which follows its parents'
-- and the deadline until it is closed.
use eacl_demo.Base.{
  ℕ, ◌+◌, ◌≡◌, refl, sym, ap, ap₂, ◌∙◌, Bool, true, false, ◌||◌, ◌==◌, if◌then◌else◌, Bool-cases,
  inl, inr, if_holds, String, List, [], ◌∷◌, ◌++◌, any, Option, none, some, arith,
}
use eacl_demo.Explorer.Transport.{has}

-- `listeners` are the parents, by their place, that the signal listens to.
pub record Bounded : Type 0 where
  pub aborted : Option String
  pub timed_out : Bool
  pub timer : Bool
  pub listeners : List ℕ

-- What may happen to a signal: a parent is aborted, with a reason, or the time is over.
pub data Event : Type 0 where
  parent_aborts : ℕ → String → Event
  time_over : Event

abbrev pub abort : String → Bounded → Bounded
abort reason s = record s { aborted = elim s.aborted [ none ↦ some reason | some r ↦ some r ] }

-- The loop over the parents, each aborted already, with its reason, or not.
unfoldable pub listen : ℕ → List (Option String) → Bounded → Bounded
listen i [] s = s
listen i (none ∷ parents) s =
    listen (i + 1) parents (record s { listeners = s.listeners ++ i ∷ [] })
listen i (some reason ∷ parents) s = listen (i + 1) parents (abort reason s)

abbrev pub fresh : Bounded
fresh = record { aborted = none; timed_out = false; timer = false; listeners = [] }

unfoldable pub bounded_signal : List (Option String) → Bounded
unfolding listen
bounded_signal parents = record (listen 0 parents fresh) { timer = true }

pub listens : ℕ → List ℕ → Bool
listens i [] = false
listens i (j ∷ js) = (j == i) || listens i js

-- A listener is called once.
pub unlisten : ℕ → List ℕ → List ℕ
unlisten i [] = []
unlisten i (j ∷ js) = if j == i then unlisten i js else j ∷ unlisten i js

unfoldable pub happen : Bounded → Event → Bounded
unfolding listens unlisten
happen s (parent_aborts i reason) =
    if listens i s.listeners
    then abort reason (record s { listeners = unlisten i s.listeners })
    else s
happen s time_over =
    if s.timer then abort "client-deadline" (record s { timed_out = true; timer = false }) else s

unfoldable pub run : Bounded → List Event → Bounded
unfolding happen
run s [] = s
run s (e ∷ es) = run (happen s e) es

abbrev pub close : Bounded → Bounded
close s = record s { timer = false; listeners = [] }

-- A description of what aborts a signal: a parent that was aborted already, one that is later, or the
-- deadline.
pub is_waiting : ℕ → ℕ → List (Option String) → Bool
is_waiting i j [] = false
is_waiting i j (none ∷ parents) = (j == i) || is_waiting i (j + 1) parents
is_waiting i j (some reason ∷ parents) = is_waiting i (j + 1) parents

abbrev pub stops : List (Option String) → Event → Bool
stops parents (parent_aborts i reason) = is_waiting i 0 parents
stops parents time_over = true

abbrev stops_at : List ℕ → Event → Bool
stops_at listeners (parent_aborts i reason) = listens i listeners
stops_at listeners time_over = true

abort-aborted :
    (o : Option String) (reason : String)
    → has (elim o [ none ↦ some reason | some r ↦ some r ]) ≡ true
abort-aborted none reason = refl
abort-aborted (some r) reason = refl

or_true : (b : Bool) → b || true ≡ true
or_true true = refl
or_true false = refl

happen-aborted : (s : Bounded) (e : Event) → has s.aborted ≡ true → has (happen s e).aborted ≡ true
unfolding happen
happen-aborted s (parent_aborts i reason) h =
    if_holds (λ (t : Bounded). has t.aborted ≡ true) (listens i s.listeners)
      (λ _. abort-aborted s.aborted reason) (λ _. h)
happen-aborted s time_over h =
    if_holds (λ (t : Bounded). has t.aborted ≡ true) s.timer
      (λ _. abort-aborted s.aborted "client-deadline") (λ _. h)

run-aborted : (s : Bounded) (es : List Event) → has s.aborted ≡ true → has (run s es).aborted ≡ true
unfolding run
run-aborted s [] h = h
run-aborted s (e ∷ es) h = run-aborted (happen s e) es (happen-aborted s e h)

happen-heard :
    (s : Bounded) (i : ℕ) (reason : String)
    → listens i s.listeners ≡ true
    → has (happen s (parent_aborts i reason)).aborted ≡ true
unfolding happen
happen-heard s i reason h = rw h (abort-aborted s.aborted reason)

happen-unheard :
    (s : Bounded) (i : ℕ) (reason : String)
    → listens i s.listeners ≡ false
    → happen s (parent_aborts i reason) ≡ s
unfolding happen
happen-unheard s i reason h = rw h refl

-- A signal that has not stopped yet is aborted by the first event that stops it.
run-stops :
    (s : Bounded) (es : List Event)
    → s.aborted ≡ none
    → s.timer ≡ true
    → has (run s es).aborted ≡ any (stops_at s.listeners) es
unfolding run
run-stops s [] h t = ap has h
run-stops s (time_over ∷ es) h t =
    rw t (run-aborted _ es (abort-aborted s.aborted "client-deadline"))
run-stops s (parent_aborts i reason ∷ es) h t = elim (Bool-cases (listens i s.listeners)) [
  | inl b ↦ rw b (run-aborted (happen s (parent_aborts i reason)) es (happen-heard s i reason b))
  | inr b ↦ rw b (
      ap (λ (u : Bounded). has (run u es).aborted) (happen-unheard s i reason b)
      ∙ run-stops s es h t)
]

listens-append : (i j : ℕ) (js : List ℕ) → listens i (js ++ j ∷ []) ≡ (listens i js || (j == i))
unfolding listens
listens-append i j [] = ground arith
listens-append i j (k ∷ js) = ground (arith, listens-append i j js)

listen-listeners :
    (i j : ℕ) (parents : List (Option String)) (s : Bounded)
    → listens i (listen j parents s).listeners ≡ (listens i s.listeners || is_waiting i j parents)
unfolding listen is_waiting
listen-listeners i j [] s = ground arith
listen-listeners i j (none ∷ parents) s =
    let ih = listen-listeners i (j + 1) parents (record s { listeners = s.listeners ++ j ∷ [] }) in
    let step = listens-append i j s.listeners in ground (arith, ih, step)
listen-listeners i j (some reason ∷ parents) s = listen-listeners i (j + 1) parents (abort reason s)

listen-aborted :
    (j : ℕ) (parents : List (Option String)) (s : Bounded)
    → has (listen j parents s).aborted ≡ (has s.aborted || any has parents)
unfolding listen
listen-aborted j [] s = ground arith
listen-aborted j (none ∷ parents) s =
    listen-aborted (j + 1) parents (record s { listeners = s.listeners ++ j ∷ [] })
listen-aborted j (some reason ∷ parents) s =
    listen-aborted (j + 1) parents (abort reason s)
    ∙ ap (λ b. b || any has parents) (abort-aborted s.aborted reason)
    ∙ sym (or_true (has s.aborted))

any_same : (f g : Event → Bool) (es : List Event) → ((e : Event) → f e ≡ g e) → any f es ≡ any g es
any_same f g [] same = refl
any_same f g (e ∷ es) same = ap₂ ◌||◌ (same e) (any_same f g es same)

has-none : (o : Option String) → has o ≡ false → o ≡ none
has-none none h = refl
has-none (some r) h = cc

stops_at-stops :
    (parents : List (Option String)) (e : Event)
    → stops_at (listen 0 parents fresh).listeners e ≡ stops parents e
unfolding is_waiting listens
stops_at-stops parents (parent_aborts i reason) = listen-listeners i 0 parents fresh
stops_at-stops parents time_over = refl

closed-run : (s : Bounded) (es : List Event) → run (close s) es ≡ close s
unfolding run happen listens
closed-run s [] = refl
closed-run s (parent_aborts i reason ∷ es) = closed-run s es
closed-run s (time_over ∷ es) = closed-run s es

-- Whatever happens to the signal of a request: it is aborted exactly if one of its parents was aborted
-- before, or one of the others was since, or the time was over; and once it is closed, which leaves no
-- listener and no timer, nothing changes it.
pub bounded_signal-follows :
    (parents : List (Option String)) (es after : List Event)
    → (has (run (bounded_signal parents) es).aborted ≡ (any has parents || any (stops parents) es))
      × (run (close (run (bounded_signal parents) es)) after
          ≡ close (run (bounded_signal parents) es))
unfolding bounded_signal
bounded_signal-follows parents es after = (
  elim (Bool-cases (any has parents)) [
    | inl b ↦ rw b (run-aborted (bounded_signal parents) es (listen-aborted 0 parents fresh ∙ b))
    | inr b ↦ rw b (
        run-stops (bounded_signal parents) es
          (has-none (listen 0 parents fresh).aborted (listen-aborted 0 parents fresh ∙ b)) refl
        ∙ any_same (stops_at (listen 0 parents fresh).listeners) (stops parents) es
            (stops_at-stops parents))
  ],
  closed-run (run (bounded_signal parents) es) after,
)
