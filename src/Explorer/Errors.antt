-- ===== src/Explorer/Errors.antt =====
-- packages/explorer-state/src/explorer-controller.mjs: what is thrown, and what of it is shown.
use eacl_demo.Base.{Bool, false, String, List, [], map, take, Option, none, some, slice}

-- `coded` has string properties `code` and `publicMessage`, and whether `retryable` is true.
pub data Thrown : Type 0 where
  coded : String → String → Bool → Thrown
  plain : String → Thrown

pub record PublicError : Type 0 where
  pub code : String
  pub message : String
  pub retryable : Bool
  pub details : List String

abbrev pub request_failed : String
request_failed = "The explorer request failed."

-- `fallback` is `request_failed` where the source passes none.
unfoldable pub safe_error : Thrown → String → PublicError
safe_error (coded code message retryable) fallback = record {
  code = slice 64 code;
  message = slice 512 message;
  retryable = retryable;
  details = [];
}
safe_error (plain message) fallback = record {
  code = "internal-error";
  message = fallback;
  retryable = false;
  details = [];
}

-- The `error` of an envelope: the fields of another type are `none`, and `details` its texts.
pub record EnvelopeError : Type 0 where
  pub code : Option String
  pub message : Option String
  pub retryable : Bool
  pub details : List String

abbrev pub or_else : Option String → String → String
or_else (some s) d = s
or_else none d = d

unfoldable pub safe_envelope_error : EnvelopeError → PublicError
safe_envelope_error e = record {
  code = elim e.code [ some c ↦ slice 64 c | none ↦ "internal-error" ];
  message = elim e.message [ some m ↦ slice 512 m | none ↦ request_failed ];
  retryable = e.retryable;
  details = map (slice 256) (take 32 e.details);
}
