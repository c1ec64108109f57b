-- ===== src/Contracts/Cursor.antt =====
-- packages/contracts/src/cursor-codec.mjs: cursors that are signed and bound to a scope. The bytes of a
-- text, `btoa`, `atob`, HMAC, SHA-256 and `JSON.parse` are arguments. Its `canonicalJson` is the one of
-- Json.Canonical on the values that both accept; a negative or fractional number is not modelled.
pub mod Scoped
use Prim.Native.Char.{Char, code}
use Prim.Native.String.{◌++◌ as text_append}
use eacl_demo.Base.{
  ℕ, zero, suc, ◌+◌, ◌-◌, ◌%◌, Bool, true, false, not, ◌&&◌, ◌||◌, ◌==◌, leb, ltb, str_eq,
  if◌then◌else◌, String, len, units, List, [], ◌∷◌, all, Option, none, some, Result, ok, err, ◌>>=◌,
  ◌>>◌, require,
}
use eacl_demo.Json.{Json, Members, end, member, obj, str, num}
use eacl_demo.Json.Canonical.{canonical_json}
use eacl_demo.Fixture.Samples.{max_safe_integer}
use eacl_demo.Contracts.HttpFields.{keys_of, value_of, is_alphanumeric}
use eacl_demo.Contracts.Dispatcher.{same_texts, sort_texts}

pub data CursorError : Type 0 where
  no_key scope_incomplete bad_ttl : CursorError
  cursor_invalid cursor_expired cursor_scope_mismatch : CursorError

pub record Scope : Type 0 where
  pub contract_version : String
  pub profile_id : String
  pub deployment_id : String
  pub data_manifest_sha256 : String
  pub lifecycle_id : String

pub record Payload : Type 0 where
  pub scope : Scope
  pub operation : String
  pub query_sha256 : String
  pub position : Json
  pub issued_at : ℕ
  pub expires_at : ℕ

abbrev pub payload_keys : List String
payload_keys =
    "version" ∷ "contractVersion" ∷ "profileId" ∷ "deploymentId" ∷ "dataManifestSha256"
    ∷ "lifecycleId" ∷ "operation" ∷ "querySha256" ∷ "position" ∷ "issuedAt" ∷ "expiresAt" ∷ []

abbrev pub payload_members : Payload → Members
payload_members p = member "version" (num 1) (
    member "contractVersion" (str p.scope.contract_version) (
      member "profileId" (str p.scope.profile_id) (
        member "deploymentId" (str p.scope.deployment_id) (
          member "dataManifestSha256" (str p.scope.data_manifest_sha256) (
            member "lifecycleId" (str p.scope.lifecycle_id) (
              member "operation" (str p.operation) (
                member "querySha256" (str p.query_sha256) (
                  member "position" p.position (
                    member "issuedAt" (num p.issued_at)
                      (member "expiresAt" (num p.expires_at) end))))))))))

abbrev pub maximum_cursor_bytes : ℕ
maximum_cursor_bytes = 4096

abbrev pub named : Option Json → Result CursorError String
named (some (str s)) = if leb 1 (units s) then ok s else err cursor_invalid
named value = err cursor_invalid

abbrev pub safe : Option Json → Result CursorError ℕ
safe (some (num n)) = if leb n max_safe_integer then ok n else err cursor_invalid
safe value = err cursor_invalid

abbrev pub is_one : Option Json → Bool
is_one (some (num n)) = n == 1
is_one value = false

abbrev pub canonical : Option Json → Result CursorError String
canonical none = err cursor_invalid
canonical (some value) = elim (canonical_json value) [
  | err e ↦ err cursor_invalid
  | ok text ↦ ok text
]

abbrev pub given : Option Json → Result CursorError Json
given none = err cursor_invalid
given (some value) = ok value

-- The payload that an object is, if it is a valid one.
unfoldable pub validate_payload : Json → Result CursorError Payload
unfolding value_of sort_texts canonical_json
validate_payload (obj ms) = do
  require (same_texts (sort_texts (keys_of ms)) (sort_texts payload_keys)) cursor_invalid
  require (is_one (value_of "version" ms)) cursor_invalid
  issued ← safe (value_of "issuedAt" ms)
  expires ← safe (value_of "expiresAt" ms)
  require (ltb issued expires) cursor_invalid
  contract ← named (value_of "contractVersion" ms)
  profile ← named (value_of "profileId" ms)
  deployment ← named (value_of "deploymentId" ms)
  manifest ← named (value_of "dataManifestSha256" ms)
  lifecycle ← named (value_of "lifecycleId" ms)
  operation ← named (value_of "operation" ms)
  query ← named (value_of "querySha256" ms)
  position ← given (value_of "position" ms)
  canonical (some position)
  ok (record {
    scope = record {
      contract_version = contract;
      profile_id = profile;
      deployment_id = deployment;
      data_manifest_sha256 = manifest;
      lifecycle_id = lifecycle;
    };
    operation = operation;
    query_sha256 = query;
    position = position;
    issued_at = issued;
    expires_at = expires;
  })
validate_payload value = err cursor_invalid

-- `replace(/=/gu, "").replace(/\+/gu, "-").replace(/\//gu, "_")`
abbrev pub to_url : String → String
to_url String.[] = String.[]
to_url (String.◌∷◌ c s) =
    if code c == 61
    then to_url s
    else if code c == 43
    then String.◌∷◌ "-" (to_url s)
    else if code c == 47
    then String.◌∷◌ "_" (to_url s)
    else String.◌∷◌ c (to_url s)

abbrev pub from_url : String → String
from_url String.[] = String.[]
from_url (String.◌∷◌ c s) =
    if code c == 45
    then String.◌∷◌ "+" (from_url s)
    else if code c == 95
    then String.◌∷◌ "/" (from_url s)
    else String.◌∷◌ c (from_url s)

abbrev pub all_url_chars : String → Bool
all_url_chars String.[] = true
all_url_chars (String.◌∷◌ c s) =
    (is_alphanumeric c || code c == 95 || code c == 45) && all_url_chars s

-- `padEnd` to the next multiple of four.
abbrev pub padding : ℕ → String
padding rest =
    if rest == 1 then "===" else if rest == 2 then "==" else if rest == 3 then "=" else ""

-- The two parts of a token, if it has exactly one full stop.
pub split_token : String → List String
split_token String.[] = "" ∷ []
split_token (String.◌∷◌ c s) =
    let rest = split_token s in
    if code c == 46
    then "" ∷ rest
    else elim rest [ [] ↦ String.◌∷◌ c "" ∷ [] | part ∷ parts ↦ String.◌∷◌ c part ∷ parts ]

pub record Crypto : Type 0 where
  pub utf8 : String → List ℕ
  pub btoa : List ℕ → String
  pub atob : String → Option (List ℕ)
  pub sign : List ℕ → List ℕ
  pub verify : List ℕ → List ℕ → Bool
  pub sha256 : String → String
  pub parse : List ℕ → Option Json

module _ (crypto : Crypto) where
  abbrev pub base64url : List ℕ → String
  base64url bytes = to_url (crypto.btoa bytes)

  abbrev pub decoded : Option (List ℕ) → Result CursorError (List ℕ)
  decoded none = err cursor_invalid
  decoded (some bytes) = ok bytes

  unfoldable pub from_base64url : String → Result CursorError (List ℕ)
  from_base64url value = do
    require (leb 1 (units value) && all_url_chars value) cursor_invalid
    decoded (crypto.atob (text_append (from_url value) (padding (units value % 4))))

  unfoldable pub query_digest : Json → Result CursorError String
  unfolding canonical_json
  query_digest query = do text ← canonical (some query); ok (crypto.sha256 text)

  unfoldable pub encode : Scope → ℕ → ℕ → String → Json → Json → Result CursorError String
  unfolding query_digest validate_payload canonical_json
  encode scope ttl issued operation query position = do
    digest ← query_digest query
    let payload : Payload = record {
      scope = scope;
      operation = operation;
      query_sha256 = digest;
      position = position;
      issued_at = issued;
      expires_at = issued + ttl;
    }
    validate_payload (obj (payload_members payload))
    body ← canonical (some (obj (payload_members payload)))
    let token =
        text_append (base64url (crypto.utf8 body))
          (text_append "." (base64url (crypto.sign (crypto.utf8 body))))
    require (leb (len token) maximum_cursor_bytes) cursor_invalid
    ok token

  -- The scope of the codec and of the request.
  unfoldable pub is_in_scope : Scope → String → String → Payload → Bool
  is_in_scope scope operation digest p =
      str_eq p.scope.contract_version scope.contract_version
      && str_eq p.scope.profile_id scope.profile_id
      && str_eq p.scope.deployment_id scope.deployment_id
      && str_eq p.scope.data_manifest_sha256 scope.data_manifest_sha256
      && str_eq p.scope.lifecycle_id scope.lifecycle_id
      && str_eq p.operation operation
      && str_eq p.query_sha256 digest

  abbrev pub parsed : Option Json → Result CursorError Json
  parsed none = err cursor_invalid
  parsed (some value) = ok value

  -- With the two parts of the token.
  unfoldable pub decode_parts :
      Scope → ℕ → String → Json → String → String → Result CursorError Json
  unfolding from_base64url validate_payload query_digest is_in_scope
  decode_parts scope now operation query first second = do
    body ← from_base64url first
    signature ← from_base64url second
    require (crypto.verify signature body) cursor_invalid
    value ← parsed (crypto.parse body)
    payload ← validate_payload value
    require (not (leb payload.expires_at now)) cursor_expired
    digest ← query_digest query
    require (is_in_scope scope operation digest payload) cursor_scope_mismatch
    ok payload.position

  abbrev pub decode_split : Scope → ℕ → String → Json → List String → Result CursorError Json
  decode_split scope now operation query (first ∷ second ∷ []) =
      decode_parts scope now operation query first second
  decode_split scope now operation query parts = err cursor_invalid

  unfoldable pub decode : Scope → ℕ → String → String → Json → Result CursorError Json
  unfolding split_token decode_parts
  decode scope now token operation query = do
    require (leb (len token) maximum_cursor_bytes) cursor_invalid
    decode_split scope now operation query (split_token token)

-- What a codec is made with, the key by its length.
unfoldable pub create_cursor_codec : ℕ → Scope → ℕ → Result CursorError Scope
create_cursor_codec key_length scope ttl = do
  require (leb 32 key_length) no_key
  require
      (all (λ s. leb 1 (units s))
        (scope.contract_version ∷ scope.profile_id ∷ scope.deployment_id
          ∷ scope.data_manifest_sha256 ∷ scope.lifecycle_id ∷ []))
      scope_incomplete
  require (leb 1000 ttl && leb ttl 86400000) bad_ttl
  ok scope
