-- ===== src/Contracts/Routes.antt =====
-- packages/contracts/src/routes.mjs: the closed set of operations, and which path and method reach one.
use Prim.Native.Char.{Char, code}
use mathlib.Core.List.{◌++◌ as append}
use eacl_demo.Json.Order.{Comparison, same, compare_units}
use eacl_demo.Base.{
  ℕ, ◌-◌, ◌≡◌, refl, Bool, true, false, ◌&&◌, ◌||◌, ◌==◌, str_eq, str_eq_iff, if◌then◌else◌,
  Bool-cases, inl, inr, String, List, [], ◌∷◌, map, ◌⊎◌, ◌↔◌, all, includes, IsDistinct, string_eq,
  Option-cases, code_within, is_slug, Option, none, some, Result, ok, err,
}

pub data RouteError : Type 0 where
  route_not_found : RouteError
  method_not_allowed : List String → RouteError

abbrev pub operation_routes : List (String × String)
operation_routes =
    ("health", "GET")
    ∷ ("bootstrap", "GET")
    ∷ ("list-subjects", "POST")
    ∷ ("get-object", "POST")
    ∷ ("list-relationships", "POST")
    ∷ ("reverse-relationships", "POST")
    ∷ ("check-permission", "POST")
    ∷ ("lookup-resources", "POST")
    ∷ ("lookup-subjects", "POST")
    ∷ ("count-resources", "POST")
    ∷ ("get-schema", "POST")
    ∷ ("get-cache-info", "POST")
    ∷ ("count-objects", "POST")
    ∷ []

abbrev pub logical_operations : List String
logical_operations = map (λ (r : String × String). r.0) operation_routes

-- `METHOD_BY_OPERATION.get(operation)`
pub method_in : List (String × String) → String → Option String
method_in [] operation = none
method_in ((o, m) ∷ routes) operation =
    if str_eq o operation then some m else method_in routes operation

-- `toUpperCase`, as code points, exactly for each character whose upper case consists of letters of
-- the methods; any other is left as it is.
abbrev pub upper_codes : Char → List ℕ
upper_codes c =
    if code_within 97 122 c
    then (code c - 32) ∷ []
    else if code c == 0x17f
    then 83 ∷ []
    else if code_within 0xfb05 0xfb06 c
    then 83 ∷ 84 ∷ []
    else code c ∷ []

pub upper_case : String → List ℕ
upper_case String.[] = []
upper_case (String.◌∷◌ c s) = append (upper_codes c) (upper_case s)

unfoldable pub codes : String → List ℕ
codes String.[] = []
codes (String.◌∷◌ c s) = code c ∷ codes s

abbrev pub is_same : Comparison → Bool
is_same same = true
is_same _ = false

-- `method.toUpperCase() === expected`
unfoldable pub is_method : String → String → Bool
unfolding upper_case codes compare_units
is_method method expected = is_same (compare_units (upper_case method) (codes expected))

-- The operation of `/^\/([a-z0-9]+(?:-[a-z0-9]+)*)$/u`.
unfoldable pub path_operation : String → Option String
path_operation String.[] = none
path_operation (String.◌∷◌ c s) =
    if str_eq (String.◌∷◌ c String.[]) "/" && is_slug s then some s else none

-- A path or method that is no text is `none`.
unfoldable pub parse_api_route : Option String → Option String → Result RouteError String
unfolding path_operation method_in is_method
parse_api_route (some path) (some method) = elim (path_operation path) [
  | none ↦ err route_not_found
  | some operation ↦ elim (method_in operation_routes operation) [
    | none ↦ err route_not_found
    | some expected ↦
        if is_method method expected then ok operation else err (method_not_allowed (expected ∷ []))
  ]
]
parse_api_route _ _ = err route_not_found

abbrev pub slash : Char
slash = "/"

slash_only : (c : Char) → str_eq (String.◌∷◌ c String.[]) "/" ≡ true → c ≡ slash
slash_only c h =
    let e : String.◌∷◌ c String.[] ≡ String.◌∷◌ slash String.[] =
      (str_eq_iff (String.◌∷◌ c String.[]) "/").0 h in
    cc

both : (a b : Bool) → a && b ≡ true → (a ≡ true) × (b ≡ true)
both true b h = (refl, h)
both false b h = cc

some_inj : (a b : String) → some a ≡ some b → a ≡ b
some_inj a b h = cc

path_operation-some :
    (p op : String) → path_operation p ≡ some op → (p ≡ String.◌∷◌ slash op) × (is_slug op ≡ true)
unfolding path_operation
path_operation-some String.[] op h = cc
path_operation-some (String.◌∷◌ c s) op h =
    elim (Bool-cases (str_eq (String.◌∷◌ c String.[]) "/" && is_slug s)) [
      | inl e ↦
          let (a, b) = both _ _ e in
          let c' = slash_only c a in
          let same : s ≡ op = some_inj s op (rw e at h) in rw (c', same) (refl, rw (← same) b)
      | inr e ↦ let no : none ≡ some op = rw e at h in cc
    ]

path_operation-slash :
    (op : String) → is_slug op ≡ true → path_operation (String.◌∷◌ slash op) ≡ some op
unfolding path_operation
path_operation-slash op h = rw h refl

-- The routes of the table, each with its method.
abbrev pub Reaches : List (String × String) → String → String → Type 0
Reaches [] operation method = ⊥
Reaches ((o, m) ∷ routes) operation method =
    ((o ≡ operation) × (is_method method m ≡ true)) ⊎ Reaches routes operation method

or_true : (a : Bool) {b : Bool} → b ≡ true → a || b ≡ true
or_true true h = refl
or_true false h = h

abbrev names : List (String × String) → List String
names routes = map (λ (r : String × String). r.0) routes

Reaches-includes :
    (routes : List (String × String)) (operation method : String)
    → Reaches routes operation method
    → includes (names routes) operation ≡ true
Reaches-includes [] operation method h = absurd h
Reaches-includes ((o, m) ∷ routes) operation method (inl (e, k)) =
    rw ((str_eq_iff o operation).1 e) refl
Reaches-includes ((o, m) ∷ routes) operation method (inr r) =
    or_true (str_eq o operation) (Reaches-includes routes operation method r)

Reaches-slug :
    (routes : List (String × String)) (operation method : String)
    → all is_slug (names routes) ≡ true
    → Reaches routes operation method
    → is_slug operation ≡ true
Reaches-slug [] operation method h r = absurd r
Reaches-slug ((o, m) ∷ routes) operation method h (inl (e, k)) = rw (← e) (both _ _ h).0
Reaches-slug ((o, m) ∷ routes) operation method h (inr r) =
    Reaches-slug routes operation method (both _ _ h).1 r

method_in-Reaches :
    (routes : List (String × String)) (operation method : String)
    → IsDistinct (names routes)
    → Reaches routes operation method
    → (m : String) × (method_in routes operation ≡ some m) × (is_method method m ≡ true)
unfolding method_in
method_in-Reaches [] operation method d r = absurd r
method_in-Reaches ((o, m) ∷ routes) operation method d (inl (e, k)) =
    (m, rw ((str_eq_iff o operation).1 e) refl, k)
method_in-Reaches ((o, m) ∷ routes) operation method d (inr r) =
    elim (Bool-cases (str_eq o operation)) [
      | inl e ↦
          let same : o ≡ operation = (str_eq_iff o operation).0 e in
          let inside = Reaches-includes routes operation method r in
          let outside : includes (names routes) operation ≡ false = rw same at (d.0) in cc
      | inr e ↦
          let (n, found, k) = method_in-Reaches routes operation method d.1 r in
          (n, rw (e, found) refl, k)
    ]

Reaches-method_in :
    (routes : List (String × String)) (operation method m : String)
    → method_in routes operation ≡ some m
    → is_method method m ≡ true
    → Reaches routes operation method
unfolding method_in
Reaches-method_in [] operation method m h k = cc
Reaches-method_in ((o, n) ∷ routes) operation method m h k =
    elim (Bool-cases (str_eq o operation)) [
      | inl e ↦
          let h' : some n ≡ some m = rw e at h in
          inl ((str_eq_iff o operation).0 e, rw (some_inj n m h') k)
      | inr e ↦ inr (Reaches-method_in routes operation method m (rw e at h) k)
    ]

all_slugs : all is_slug (names operation_routes) ≡ true
unfolding is_slug
all_slugs = refl

IsDistinct-names : IsDistinct (names operation_routes)
IsDistinct-names = (
  refl,
  (
    refl,
    (refl, (refl, (refl, (refl, (refl, (refl, (refl, (refl, (refl, (refl, (refl, tt))))))))))),
  ),
)

-- A path and a method lead to an operation exactly if the path is a slash and the operation's name, and
-- the table lists the operation under the method, in whatever case the method is written.
pub parse_api_route_iff :
    (path method operation : String)
    → (parse_api_route (some path) (some method) ≡ ok operation)
      ↔ ((path ≡ String.◌∷◌ slash operation) × Reaches operation_routes operation method)
unfolding parse_api_route
parse_api_route_iff path method operation = (
  λ h. elim (Option-cases (path_operation path)) [
    | inl n ↦
        let no : ◌≡◌ {A = Result RouteError String} (err route_not_found) (ok operation) =
          rw (n, parse_api_route) at h in
        cc
    | inr (o, p) ↦ elim (Option-cases (method_in operation_routes o)) [
      | inl n ↦
          let no : ◌≡◌ {A = Result RouteError String} (err route_not_found) (ok operation) =
            rw (p, n, parse_api_route) at h in
          cc
      | inr (m, n) ↦ elim (Bool-cases (is_method method m)) [
        | inl k ↦
            let found : ◌≡◌ {A = Result RouteError String} (ok o) (ok operation) =
              rw (p, n, k, parse_api_route) at h in
            let same : o ≡ operation = cc in
            rw (← same)
              ((path_operation-some path o p).0, Reaches-method_in operation_routes o method m n k)
        | inr k ↦
            let no : ◌≡◌ {A = Result RouteError String} (err (method_not_allowed (m ∷ [])))
                (ok operation) =
              rw (p, n, k, parse_api_route) at h in
            cc
      ]
    ]
  ],
  λ h.
      let slug = Reaches-slug operation_routes operation method all_slugs (h.1) in
      let (m, found, k) =
        method_in-Reaches operation_routes operation method IsDistinct-names (h.1) in
      rw (h.0, path_operation-slash operation slug, found, k, parse_api_route) refl,
)

pub parse_api_route-IsOperation :
    (path method : Option String) (operation : String)
    → parse_api_route path method ≡ ok operation
    → includes logical_operations operation ≡ true
unfolding parse_api_route
parse_api_route-IsOperation none method operation h = cc
parse_api_route-IsOperation (some path) none operation h = cc
parse_api_route-IsOperation (some path) (some method) operation h =
    Reaches-includes operation_routes operation method
      ((parse_api_route_iff path method operation).0 h).1
