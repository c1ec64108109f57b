-- ===== src/Explorer/Platforms.antt =====
-- packages/explorer-state/src/platforms.mjs: which platform a selection may run on.
use eacl_demo.Base.{
  ◌↔◌, ◌≡◌, refl, Bool, true, false, ◌&&◌, ◌||◌, str_eq, str_eq_iff, if◌then◌else◌, if_holds,
  String, List, [], ◌∷◌, All, Option, none, some, includes, string_eq,
}
use eacl_demo.Explorer.Selection.{Selection}

abbrev pub default_lambda : String
default_lambda = "lambda-1769"

abbrev pub legacy_default_lambda : String
legacy_default_lambda = "lambda-1024"

abbrev pub large_lambda : String
large_lambda = "lambda-4096"

abbrev pub browser_platform : String
browser_platform = "browser"

abbrev pub datomic_platforms : List String
datomic_platforms = default_lambda ∷ large_lambda ∷ "ec2" ∷ []

abbrev pub datahike_platforms : List String
datahike_platforms = default_lambda ∷ large_lambda ∷ []

abbrev pub datalevin_platforms : List String
datalevin_platforms = default_lambda ∷ "ec2" ∷ []

abbrev pub is_datomic_dynamo : Selection → Bool
is_datomic_dynamo s = str_eq s.backend "datomic" && str_eq s.storage "dynamodb"

abbrev pub is_datalevin_embedded : Selection → Bool
is_datalevin_embedded s = str_eq s.backend "datalevin" && str_eq s.storage "embedded"

unfoldable pub default_platform : Selection → String
default_platform s = if str_eq s.backend "datascript" then browser_platform else default_lambda

-- The chain of tests, on their values: datascript, Datomic on DynamoDB, Datahike, Datalevin embedded.
abbrev pub supported_by : Bool → Bool → Bool → Bool → String → Bool
supported_by datascript datomic datahike datalevin platform =
    if datascript
    then str_eq platform browser_platform
    else if datomic
    then includes datomic_platforms platform
    else if datahike
    then includes datahike_platforms platform
    else if datalevin
    then includes datalevin_platforms platform
    else str_eq platform default_lambda

unfoldable pub supported_platform : Selection → String → Bool
supported_platform s platform =
    supported_by (str_eq s.backend "datascript") (is_datomic_dynamo s) (str_eq s.backend "datahike")
      (is_datalevin_embedded s) platform

abbrev pub canonical : String → String
canonical requested = if str_eq requested legacy_default_lambda then default_lambda else requested

-- A request that is missing is `none`, which no selection supports.
unfoldable pub normalize_platform : Selection → Option String → String
unfolding default_platform supported_platform
normalize_platform s none = default_platform s
normalize_platform s (some requested) =
    if supported_platform s (canonical requested) then canonical requested else default_platform s

pub record PlatformOption : Type 0 where
  pub id : String
  pub label : String
  pub selectable : Bool
  pub reason : Option String

abbrev pub is_deployed : Bool → Bool → Bool → String → Bool
is_deployed datomic datahike datalevin id =
    str_eq id default_lambda
    || datomic
    || (datahike && str_eq id large_lambda)
    || (datalevin && str_eq id "ec2")

-- The condition on the reason, which the program writes out a second time.
abbrev pub has_no_reason : Bool → Bool → Bool → String → Bool
has_no_reason datomic datahike datalevin id =
    str_eq id default_lambda
    || datomic
    || (datahike && str_eq id large_lambda)
    || (datalevin && str_eq id "ec2")

abbrev pub server_option : Bool → Bool → Bool → String → String → PlatformOption
server_option datomic datahike datalevin id label = record {
  id = id;
  label = label;
  selectable = is_deployed datomic datahike datalevin id;
  reason =
      (if has_no_reason datomic datahike datalevin id
        then none
        else if str_eq id "ec2"
        then some "EC2 is currently deployed only for Datomic/DynamoDB and Datalevin/Embedded disk."
        else some "This platform is not deployed for this backend.");
}

abbrev pub options_by : Bool → Bool → Bool → Bool → List PlatformOption
options_by datascript datomic datahike datalevin =
    if datascript
    then record { id = browser_platform; label = "Browser"; selectable = true; reason = none } ∷ []
    else server_option datomic datahike datalevin default_lambda "1,769 MiB Lambda (1 vCPU)"
      ∷ server_option datomic datahike datalevin large_lambda "4 GiB Lambda"
      ∷ server_option datomic datahike datalevin "ec2" "EC2 t3.micro (1 GiB)"
      ∷ []

unfoldable pub platform_options : Selection → List PlatformOption
platform_options s =
    options_by (str_eq s.backend "datascript") (is_datomic_dynamo s) (str_eq s.backend "datahike")
      (is_datalevin_embedded s)

default_by :
    (ds dd dh dl : Bool)
    → supported_by ds dd dh dl (if ds then browser_platform else default_lambda) ≡ true
default_by true dd dh dl = refl
default_by false true dh dl = refl
default_by false false true dl = refl
default_by false false false true = refl
default_by false false false false = refl

default_supported : (s : Selection) → supported_platform s (default_platform s) ≡ true
unfolding supported_platform default_platform
default_supported s =
    default_by (str_eq s.backend "datascript") (is_datomic_dynamo s) (str_eq s.backend "datahike")
      (is_datalevin_embedded s)

legacy_by : (ds dd dh dl : Bool) → supported_by ds dd dh dl legacy_default_lambda ≡ false
legacy_by true dd dh dl = refl
legacy_by false true dh dl = refl
legacy_by false false true dl = refl
legacy_by false false false true = refl
legacy_by false false false false = refl

-- A platform that is supported is not the legacy name, so its canonical form is itself.
canonical-supported :
    (s : Selection) (platform : String)
    → supported_platform s platform ≡ true
    → canonical platform ≡ platform
unfolding supported_platform
canonical-supported s platform h =
    if_holds (λ c. c ≡ platform) (str_eq platform legacy_default_lambda)
      (λ e.
        let e : platform ≡ legacy_default_lambda =
          (str_eq_iff platform legacy_default_lambda).0 e in
        let no =
          legacy_by (str_eq s.backend "datascript") (is_datomic_dynamo s)
            (str_eq s.backend "datahike") (is_datalevin_embedded s) in
        let yes : supported_platform s legacy_default_lambda ≡ true = rw e at h in cc)
      (λ _. refl)

normalize_platform-fixed :
    (s : Selection) (platform : String)
    → supported_platform s platform ≡ true
    → normalize_platform s (some platform) ≡ platform
unfolding normalize_platform
normalize_platform-fixed s platform h = rw (canonical-supported s platform h, h) refl

normalize_platform-lem :
    (s : Selection) (requested : Option String)
    → supported_platform s (normalize_platform s requested) ≡ true
unfolding normalize_platform default_platform
normalize_platform-lem s none = default_supported s
normalize_platform-lem s (some requested) =
    if_holds (λ p. supported_platform s p ≡ true) (supported_platform s (canonical requested))
      (λ h. h) (λ _. default_supported s)

-- Whatever is requested, the normalized platform is one that the selection supports, and normalizing
-- it again changes nothing.
pub normalize_platform-supported :
    (s : Selection) (requested : Option String)
    → (supported_platform s (normalize_platform s requested) ≡ true)
      × (normalize_platform s (some (normalize_platform s requested))
          ≡ normalize_platform s requested)
normalize_platform-supported s requested =
    let h = normalize_platform-lem s requested in
    (h, normalize_platform-fixed s (normalize_platform s requested) h)

open_lem : (o : Option String) → o ≡ none → (true ≡ true) ↔ (o ≡ none)
open_lem o e = (λ _. e, λ _. refl)

options-lem :
    (ds dd dh dl : Bool)
    → (dh ≡ true → dl ≡ false)
    → All
        (λ (o : PlatformOption).
          (o.selectable ≡ supported_by ds dd dh dl o.id)
          × ((o.selectable ≡ true) ↔ (o.reason ≡ none)))
        (options_by ds dd dh dl)
options-lem true dd dh dl h = ((refl, (λ _. refl, λ _. refl)), tt)
options-lem false true dh dl h =
    ((refl, open_lem none refl), ((refl, open_lem none refl), ((refl, open_lem none refl), tt)))
options-lem false false true true h = let e = h refl in cc
options-lem false false true false h =
    ((refl, open_lem none refl), ((refl, open_lem none refl), ((refl, (λ e. cc, λ e. cc)), tt)))
options-lem false false false true h =
    ((refl, open_lem none refl), ((refl, (λ e. cc, λ e. cc)), ((refl, open_lem none refl), tt)))
options-lem false false false false h =
    ((refl, open_lem none refl), ((refl, (λ e. cc, λ e. cc)), ((refl, (λ e. cc, λ e. cc)), tt)))

-- The options that are shown for a selection are selectable exactly if the selection supports them,
-- and exactly a selectable one has no reason against it.
pub platform_options-supported :
    (s : Selection)
    → All
        (λ (o : PlatformOption).
          (o.selectable ≡ supported_platform s o.id) × ((o.selectable ≡ true) ↔ (o.reason ≡ none)))
        (platform_options s)
unfolding platform_options supported_platform
platform_options-supported s =
    options-lem (str_eq s.backend "datascript") (is_datomic_dynamo s) (str_eq s.backend "datahike")
      (is_datalevin_embedded s) (λ h. let e = (str_eq_iff s.backend "datahike").0 h in rw e refl)
