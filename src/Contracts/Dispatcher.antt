-- ===== src/Contracts/Dispatcher.antt =====
-- packages/contracts/src/read-only-dispatcher.mjs: one handler for each operation of the closed set.
use eacl_demo.Base.{
  ◌≡◌, refl, sym, ap, ◌∙◌, Bool, true, false, ◌&&◌, ◌||◌, str_eq, str_eq_iff, if◌then◌else◌,
  Bool-cases, inl, inr, String, List, [], ◌∷◌, includes, string_eq, Option, none, some, Result, ok,
  err, require-eq-ok, ◌>>◌, require, arith,
}
use eacl_demo.Json.{Json, Members}
use eacl_demo.Json.Order.{before, same, after, compare_units, utf16}
use eacl_demo.Contracts.Routes.{logical_operations}
use eacl_demo.Contracts.HttpBoundary.{
  HttpRequest, Accepted, validate_http_request, validate_http_request-IsOperation,
}

pub data DispatchError : Type 0 where
  not_closed invalid_handler : DispatchError
  route_not_found not_a_function : DispatchError

-- `sort()` of texts.
pub insert_sorted : String → List String → List String
insert_sorted s [] = s ∷ []
insert_sorted s (t ∷ ts) = elim (compare_units (utf16 t) (utf16 s)) [
  | before ↦ t ∷ insert_sorted s ts
  | same ↦ s ∷ t ∷ ts
  | after ↦ s ∷ t ∷ ts
]

unfoldable pub sort_texts : List String → List String
unfolding insert_sorted
sort_texts [] = []
sort_texts (s ∷ ss) = insert_sorted s (sort_texts ss)

abbrev pub same_texts : List String → List String → Bool
same_texts [] [] = true
same_texts (s ∷ ss) (t ∷ ts) = str_eq s t && same_texts ss ts
same_texts _ _ = false

-- The object of handlers; what is no function is `none`.
abbrev pub Handlers : Type 0 → Type 0
Handlers R = List (String × Option (Members → R))

module _ {R : Type 0} where
  abbrev pub names : Handlers R → List String
  names [] = []
  names ((o, h) ∷ hs) = o ∷ names hs

  abbrev pub handler_of : String → Handlers R → Option (Option (Members → R))
  handler_of operation [] = none
  handler_of operation ((o, h) ∷ hs) =
      if str_eq o operation then some h else handler_of operation hs

  abbrev pub is_function : Option (Members → R) → Bool
  is_function none = false
  is_function (some h) = true

  abbrev pub all_functions : Handlers R → Bool
  all_functions [] = true
  all_functions ((o, h) ∷ hs) = includes logical_operations o && is_function h && all_functions hs

  -- `handlers[operation]`, which may be undefined.
  abbrev pub own : Option (Option (Members → R)) → Option (Members → R)
  own none = none
  own (some h) = h

  pub table_of : Handlers R → List String → Handlers R
  table_of hs [] = []
  table_of hs (o ∷ os) = (o, own (handler_of o hs)) ∷ table_of hs os

  unfoldable pub create_read_only_dispatcher : Handlers R → Result DispatchError (Handlers R)
  unfolding sort_texts table_of
  create_read_only_dispatcher hs = do
    require (same_texts (sort_texts (names hs)) (sort_texts logical_operations)) not_closed
    require (all_functions hs) invalid_handler
    ok (table_of hs logical_operations)

  unfoldable pub dispatch : Handlers R → String → Members → Result DispatchError R
  dispatch table operation input =
      if includes logical_operations operation
      then elim (own (handler_of operation table)) [
        | none ↦ err not_a_function
        | some h ↦ ok (h input)
      ]
      else err route_not_found

includes-insert_sorted :
    (s a : String) (ts : List String)
    → includes (insert_sorted s ts) a ≡ (str_eq s a || includes ts a)
unfolding insert_sorted
includes-insert_sorted s a [] = refl
includes-insert_sorted s a (t ∷ ts) = ground (arith, includes-insert_sorted s a ts)

includes-sort_texts : (a : String) (ss : List String) → includes (sort_texts ss) a ≡ includes ss a
unfolding sort_texts
includes-sort_texts a [] = refl
includes-sort_texts a (s ∷ ss) =
    includes-insert_sorted s a (sort_texts ss) ∙ ap (str_eq s a ||◌) (includes-sort_texts a ss)

same_texts-eq : (ss ts : List String) → same_texts ss ts ≡ true → ss ≡ ts
same_texts-eq [] [] h = refl
same_texts-eq [] (t ∷ ts) h = cc
same_texts-eq (s ∷ ss) [] h = cc
same_texts-eq (s ∷ ss) (t ∷ ts) h = ground (arith, str_eq_iff s t, same_texts-eq ss ts)

not_both : false ≡ true → ⊥
not_both e = cc

never : (a b : Bool) → a && false && b ≡ true → ⊥
never true b h = not_both h
never false b h = not_both h

last_of : (a b c : Bool) → a && b && c ≡ true → c ≡ true
last_of true true c h = h
last_of true false c h = cc
last_of false true c h = cc
last_of false false c h = cc

module _ {R : Type 0} where
  handler_of-function :
      (hs : Handlers R) (o : String)
      → all_functions hs ≡ true
      → includes (names hs) o ≡ true
      → (h : Members → R) × (handler_of o hs ≡ some (some h))
  handler_of-function [] o f i = cc
  handler_of-function ((p, none) ∷ hs) o f i = absurd (never (includes logical_operations p) _ f)
  handler_of-function ((p, some h) ∷ hs) o f i = elim (Bool-cases (str_eq p o)) [
    | inl e ↦ (h, rw e refl)
    | inr e ↦
        let (k, found) =
          handler_of-function hs o (last_of (includes logical_operations p) true _ f) (rw e at i) in
        (k, rw e found)
  ]

  handler_of-table_of :
      (hs : Handlers R) (o : String) (os : List String)
      → includes os o ≡ true
      → handler_of o (table_of hs os) ≡ some (own (handler_of o hs))
  unfolding table_of
  handler_of-table_of hs o [] i = cc
  handler_of-table_of hs o (p ∷ os) i = elim (Bool-cases (str_eq p o)) [
    | inl e ↦ rw (e, (str_eq_iff p o).0 e) refl
    | inr e ↦ rw e (handler_of-table_of hs o os (rw e at i))
  ]

  -- A dispatcher that was made has a handler for each request that the HTTP boundary accepts, and answers
  -- it with that handler, on the input that was accepted.
  pub dispatch-serves :
      (parses_date : String → Bool) (parse_json : String → Option Json) (request : HttpRequest)
      (a : Accepted) (hs table : Handlers R)
      → validate_http_request parses_date parse_json request ≡ ok a
      → create_read_only_dispatcher hs ≡ ok table
      → (h : Members → R) × (handler_of a.operation hs ≡ some (some h))
        × (dispatch table a.operation a.input ≡ ok (h a.input))
  unfolding create_read_only_dispatcher dispatch
  dispatch-serves parses_date parse_json request a hs table valid made =
      let listed = validate_http_request-IsOperation parses_date parse_json request a valid in
      let (closed, k1) =
        require-eq-ok (same_texts (sort_texts (names hs)) (sort_texts logical_operations)) _ _
          made in
      let (functions, k2) = require-eq-ok (all_functions hs) _ _ k1 in
      let same_names = same_texts-eq _ _ closed in
      let known : includes (names hs) a.operation ≡ true =
        sym (includes-sort_texts a.operation (names hs))
        ∙ ap (λ ss. includes ss a.operation) same_names
        ∙ includes-sort_texts a.operation logical_operations
        ∙ listed in
      let (h, found) = handler_of-function hs a.operation functions known in
      let in_table = handler_of-table_of hs a.operation logical_operations listed in
      let table' : table_of hs logical_operations ≡ table = cc in
      (h, found, rw (listed, ← table', in_table, found) refl)
