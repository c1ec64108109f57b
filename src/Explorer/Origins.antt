-- ===== src/Explorer/Origins.antt =====
-- packages/explorer-state/src/platforms.mjs: `profileForPlatform`, the API origin of a profile on the
-- platform that was selected, and `executionForPlatform`.
use eacl_demo.Base.{
  ◌≡◌, inl, inr, refl, sym, Bool, true, false, not, ◌||◌, str_eq, str_eq_iff, if◌then◌else◌,
  if_holds, Bool-cases, String, len, ltb, [], ◌∷◌, Option, none, some, Result, ok, err, includes,
  includes-cases, string_eq,
}
use eacl_demo.Explorer.Selection.{Selection}
use eacl_demo.Explorer.Platforms.{
  default_lambda, large_lambda, browser_platform, datomic_platforms, datahike_platforms,
  datalevin_platforms, is_datomic_dynamo, is_datalevin_embedded, supported_by, supported_platform,
  normalize_platform, normalize_platform-supported,
}

-- A profile of the registry; `state` may be absent, and the other fields are passed on unread.
pub record PlatformProfile : Type 0 where
  pub id : String
  pub backend : String
  pub storage : String
  pub state : Option String
  pub api_origin : Option String

pub data PlatformError : Type 0 where
  not_supported no_origin : PlatformError

abbrev pub selection_of : PlatformProfile → Selection
selection_of p = record { backend = p.backend; storage = p.storage }

abbrev pub datomic_origin : String → Option String
datomic_origin platform =
    if str_eq platform large_lambda
    then some "https://7um6u6hb6wq6yfl46ukjkxcpuy0gexer.lambda-url.us-east-1.on.aws"
    else if str_eq platform "ec2"
    then some "https://datomic.demo.eacl.dev"
    else none

abbrev pub datalevin_origin : String → Option String
datalevin_origin platform =
    if str_eq platform "ec2" then some "https://datalevin.demo.eacl.dev" else none

abbrev pub datahike_origin : String → String → Option String
datahike_origin id platform =
    if str_eq id "datahike-s3"
    then (if str_eq platform large_lambda
        then some "https://y66owmoqebrcmzyfw6uturkaue0exoqe.lambda-url.us-east-1.on.aws"
        else none)
    else if str_eq id "datahike-dynamodb"
    then (if str_eq platform large_lambda
        then some "https://ammics5svacgyu5eopgicnzz3y0lsryk.lambda-url.us-east-1.on.aws"
        else none)
    else none

-- The origin, on the values of the tests for Datomic and Datalevin.
abbrev pub origin_by : Bool → Bool → String → Option String → String → Option String
origin_by datomic datalevin id own selected =
    if str_eq selected default_lambda
    then own
    else if datomic
    then datomic_origin selected
    else if datalevin
    then datalevin_origin selected
    else datahike_origin id selected

abbrev pub is_filled : Option String → Bool
is_filled none = false
is_filled (some s) = ltb 0 (len s)

abbrev pub is_off : Option String → Bool
is_off none = false
is_off (some state) = not (str_eq state "enabled")

unfoldable pub profile_for_platform :
    PlatformProfile → Option String → Result PlatformError PlatformProfile
profile_for_platform p requested =
    let s = selection_of p in
    let selected = normalize_platform s requested in
    let origin =
      origin_by (is_datomic_dynamo s) (is_datalevin_embedded s) p.id p.api_origin selected in
    if not (supported_platform s selected)
    then err not_supported
    else if str_eq selected browser_platform || is_off p.state
    then ok p
    else if is_filled origin
    then ok (record p { api_origin = origin })
    else err no_origin

unfoldable pub execution_for_platform : String → String
execution_for_platform platform =
    if str_eq platform "ec2"
    then "ec2"
    else if str_eq platform browser_platform
    then "browser"
    else "lambda"

abbrev pub is_known : String → Bool
is_known id = str_eq id "datahike-s3" || str_eq id "datahike-dynamodb"

known_origin :
    (id : String) → is_known id ≡ true → is_filled (datahike_origin id large_lambda) ≡ true
known_origin id h =
    if_holds (λ o. is_filled o ≡ true) (str_eq id "datahike-s3") (λ _. refl)
      (λ no.
        if_holds (λ o. is_filled o ≡ true) (str_eq id "datahike-dynamodb") (λ _. refl)
          (λ no'. let e : is_known id ≡ false = rw (no, no') refl in cc))

abbrev Filled : Bool → Bool → String → Option String → String → Type 0
Filled dd dl id own selected = is_filled (origin_by dd dl id own selected) ≡ true

datomic_served :
    (dl : Bool) (id : String) (own : Option String) (selected : String)
    → includes datomic_platforms selected ≡ true
    → is_filled own ≡ true
    → Filled true dl id own selected
datomic_served dl id own selected h o =
    elim (includes-cases default_lambda selected (large_lambda ∷ "ec2" ∷ []) h) [
      | inl e ↦ rw (sym e) o
      | inr h ↦ elim (includes-cases large_lambda selected ("ec2" ∷ []) h) [
        | inl e ↦ rw (sym e) refl
        | inr h ↦ elim (includes-cases "ec2" selected [] h) [ inl e ↦ rw (sym e) refl | inr h ↦ cc ]
      ]
    ]

datahike_served :
    (id : String) (own : Option String) (selected : String)
    → includes datahike_platforms selected ≡ true
    → is_filled own ≡ true
    → is_known id ≡ true
    → Filled false false id own selected
datahike_served id own selected h o k =
    elim (includes-cases default_lambda selected (large_lambda ∷ []) h) [
      | inl e ↦ rw (sym e) o
      | inr h ↦ elim (includes-cases large_lambda selected [] h) [
        | inl e ↦ rw (sym e) (known_origin id k)
        | inr h ↦ cc
      ]
    ]

datalevin_served :
    (id : String) (own : Option String) (selected : String)
    → includes datalevin_platforms selected ≡ true
    → is_filled own ≡ true
    → Filled false true id own selected
datalevin_served id own selected h o =
    elim (includes-cases default_lambda selected ("ec2" ∷ []) h) [
      | inl e ↦ rw (sym e) o
      | inr h ↦ elim (includes-cases "ec2" selected [] h) [ inl e ↦ rw (sym e) refl | inr h ↦ cc ]
    ]

plain_served :
    (dl : Bool) (id : String) (own : Option String) (selected : String)
    → str_eq selected default_lambda ≡ true
    → is_filled own ≡ true
    → Filled false dl id own selected
plain_served dl id own selected h o = rw h o

served :
    (ds dd dh dl : Bool) (id : String) (own : Option String) (selected : String)
    → supported_by ds dd dh dl selected ≡ true
    → str_eq selected browser_platform ≡ false
    → is_filled own ≡ true
    → (dh ≡ true → is_known id ≡ true)
    → (dh ≡ true → dl ≡ false)
    → Filled dd dl id own selected
served true dd dh dl id own selected h b o k x = cc
served false true dh dl id own selected h b o k x = datomic_served dl id own selected h o
served false false true true id own selected h b o k x = let e = x refl in cc
served false false true false id own selected h b o k x =
    datahike_served id own selected h o (k refl)
served false false false true id own selected h b o k x = datalevin_served id own selected h o
served false false false false id own selected h b o k x = plain_served false id own selected h o

left_false : (a b : Bool) → (a || b) ≡ false → a ≡ false
left_false true b h = cc
left_false false b h = refl

platform_lem :
    (p : PlatformProfile) (requested : Option String) (selected : String)
    → selected ≡ normalize_platform (selection_of p) requested
    → is_filled p.api_origin ≡ true
    → (str_eq p.backend "datahike" ≡ true → is_known p.id ≡ true)
    → (str_eq selected browser_platform || is_off p.state) ≡ false
    → is_filled (
        origin_by
          (is_datomic_dynamo (selection_of p))
          (is_datalevin_embedded (selection_of p))
          p.id
          p.api_origin
          selected)
      ≡ true
unfolding supported_platform
platform_lem p requested selected e own known on =
    served (str_eq p.backend "datascript") (is_datomic_dynamo (selection_of p))
      (str_eq p.backend "datahike") (is_datalevin_embedded (selection_of p)) p.id p.api_origin
      selected (rw e (normalize_platform-supported (selection_of p) requested).0)
      (left_false (str_eq selected browser_platform) (is_off p.state) on) own known
      (λ h. let e = (str_eq_iff p.backend "datahike").0 h in rw e refl)

-- Whatever platform is requested for a profile that has an origin of its own, and, if it is a Datahike
-- profile, is one of the two that are deployed: the result is the profile with an origin that is not
-- empty, and with nothing else changed.
pub profile_for_platform-serves :
    (p : PlatformProfile) (requested : Option String)
    → is_filled p.api_origin ≡ true
    → (str_eq p.backend "datahike" ≡ true → is_known p.id ≡ true)
    → (origin : Option String) × (profile_for_platform p requested
        ≡ ok (record p { api_origin = origin }))
      × (is_filled origin ≡ true)
unfolding profile_for_platform
profile_for_platform-serves p requested own known =
    let s = selection_of p in
    let selected = normalize_platform s requested in
    let supported : supported_platform s selected ≡ true =
      (normalize_platform-supported s requested).0 in
    elim (Bool-cases (str_eq selected browser_platform || is_off p.state)) [
      | inl off ↦ (p.api_origin, rw (supported, off) refl, own)
      | inr on ↦
          let filled = platform_lem p requested selected refl own known on in
          let origin =
            origin_by (is_datomic_dynamo s) (is_datalevin_embedded s) p.id p.api_origin selected in
          (origin, rw (supported, on, filled) refl, filled)
    ]
