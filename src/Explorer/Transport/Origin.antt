-- ===== src/Explorer/Transport/Origin.antt =====
-- packages/explorer-state/src/http-transport.mjs: which profiles and origins a transport is made for.
-- The URL parser is an argument.
use Prim.Native.Char.{Char, code}
use eacl_demo.Base.{
  ℕ, Bool, true, false, ◌&&◌, ◌||◌, ◌==◌, leb, str_eq, if◌then◌else◌, is_slug, is_lower_or_digit,
  String, List, [], ◌∷◌, includes, string_eq, Option, none, some, Result, ok, err, ◌>>=◌, ◌>>◌,
  require,
}
use eacl_demo.Explorer.Types.{Profile}
use eacl_demo.Explorer.Errors.{Thrown, plain}
use eacl_demo.Explorer.Transport.{has, Transport, new_transport}

-- A URL's parts, as `new URL` reads them.
pub record Url : Type 0 where
  pub username : String
  pub password : String
  pub pathname : String
  pub search : String
  pub hash : String
  pub port : String
  pub hostname : String
  pub protocol : String
  pub origin : String

abbrev pub loopback : List String
loopback = "localhost" ∷ "127.0.0.1" ∷ "[::1]" ∷ "::1" ∷ []

abbrev pub approved_https_host : List String
approved_https_host = "datomic.demo.eacl.dev" ∷ "datalevin.demo.eacl.dev" ∷ []

-- What stands behind the first characters of a class, if there is one at least.
pub after_class : (Char → Bool) → Bool → String → Option String
after_class test begun String.[] = if begun then some String.[] else none
after_class test begun (String.◌∷◌ c s) =
    let rest = after_class test true s in
    if test c then rest else if begun then some (String.◌∷◌ c s) else none

pub strip_prefix : String → String → Option String
strip_prefix String.[] s = some s
strip_prefix (String.◌∷◌ c p) String.[] = none
strip_prefix (String.◌∷◌ c p) (String.◌∷◌ d s) =
    let rest = strip_prefix p s in if code c == code d then rest else none

abbrev pub bound : Option String → (String → Option String) → Option String
bound none f = none
bound (some s) f = f s

-- `FUNCTION_URL_HOST`
unfoldable pub is_function_url_host : String → Bool
unfolding after_class strip_prefix
is_function_url_host host =
    elim (bound (bound (after_class is_lower_or_digit false host) (strip_prefix ".lambda-url."))
      (after_class (λ c. is_lower_or_digit c || code c == 45) false)) [
        | none ↦ false
        | some rest ↦ str_eq rest ".on.aws"
      ]

abbrev pub is_approved : Url → Bool
is_approved u =
    if includes loopback u.hostname
    then includes ("http:" ∷ "https:" ∷ []) u.protocol
    else str_eq u.protocol "https:"
      && (is_function_url_host u.hostname || includes approved_https_host u.hostname)

abbrev pub read_url : (String → Option Url) → Option String → Result Thrown Url
read_url parse_url none = err (plain "enabled server profile requires a deployment origin")
read_url parse_url (some String.[]) =
    err (plain "enabled server profile requires a deployment origin")
read_url parse_url (some (String.◌∷◌ c s)) = elim (parse_url (String.◌∷◌ c s)) [
  | none ↦ err (plain "Invalid URL")
  | some u ↦ ok u
]

unfoldable pub validate_api_origin : (String → Option Url) → Option String → Result Thrown String
unfolding is_function_url_host
validate_api_origin parse_url value = do
  u ← read_url parse_url value
  require
      (str_eq u.username ""
        && str_eq u.password ""
        && str_eq u.pathname "/"
        && str_eq u.search ""
        && str_eq u.hash ""
        && str_eq u.port "")
      (plain "HTTP profile API origin must be an origin without credentials or a path")
  require (is_approved u) (
      plain
        "HTTP profile transport requires an approved HTTPS deployment origin or loopback origin")
  ok u.origin

abbrev pub reason_of : Profile → String
reason_of p = elim p.reason [ none ↦ "profile is not enabled" | some reason ↦ reason ]

unfoldable pub validate_profile : Profile → Result Thrown (Unit {0})
validate_profile p = do
  require (str_eq p.state "enabled" && has p.deployment && is_slug p.id) (plain (reason_of p))
  require (has p.backend && has p.storage) (plain "profile mapping is missing")

-- A transport that was made, with its origin and limits.
pub record Made : Type 0 where
  pub transport : Transport
  pub origin : String

-- The parts of a profile that its type here lacks are arguments: its `apiOrigin` and `route`.
unfoldable pub create_server_profile_transport :
    (String → Option Url) → Profile → Option String → String → ℕ → ℕ → Result Thrown Made
unfolding validate_profile validate_api_origin
create_server_profile_transport parse_url profile api_origin route timeout maximum = do
  validate_profile profile
  require (leb 1000 timeout && leb timeout 60000) (plain "HTTP profile timeout is invalid")
  require (leb 1 maximum && leb maximum 1048576) (plain "HTTP response limit is invalid")
  origin ← validate_api_origin parse_url api_origin
  require (str_eq route "/") (plain "enabled profile route is not canonical")
  ok (record { transport = new_transport; origin = origin })
