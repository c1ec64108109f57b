-- ===== src/Examples/Cursors.antt =====
-- Cursors of packages/contracts at concrete tokens.
use eacl_demo.Base.{◌≡◌, refl, true, decimal, [], ◌∷◌, some, ok, err}
use eacl_demo.Json.{obj, num}
use eacl_demo.Json.Order.{compare_units, utf16, digits, index_of, placed, key_order}
use eacl_demo.Contracts.Cursor.{
  CursorError, Scope, Payload, payload_members, Crypto, encode, decode,
}

abbrev codec_scope : Scope
codec_scope = record {
  contract_version = "explorer.v1";
  profile_id = "datahike-s3";
  deployment_id = "d1";
  data_manifest_sha256 = "m";
  lifecycle_id = "l";
}

abbrev signed_payload : Payload
signed_payload = record {
  scope = codec_scope;
  operation = "list-subjects";
  query_sha256 = "q";
  position = num 7;
  issued_at = 10;
  expires_at = 2010;
}

abbrev toy_crypto : Crypto
toy_crypto = record {
  utf8 = λ _. 1 ∷ [];
  btoa = λ _. "a+/=";
  atob = λ _. some (1 ∷ []);
  sign = λ _. 2 ∷ [];
  verify = λ _ _. true;
  sha256 = λ _. "q";
  parse = λ _. some (obj (payload_members signed_payload));
}

encodes : encode toy_crypto codec_scope 2000 10 "list-subjects" (num 1) (num 7) ≡ ok "a-_.a-_"
unfolding encode compare_units utf16 key_order placed index_of digits decimal
encodes = refl

expires :
    decode toy_crypto codec_scope 2010 "a-_.a-_" "list-subjects" (num 1)
    ≡ err CursorError.cursor_expired
unfolding decode compare_units utf16 key_order placed index_of digits decimal
expires = refl

other_operation :
    decode toy_crypto codec_scope 11 "a-_.a-_" "list-relationships" (num 1)
    ≡ err CursorError.cursor_scope_mismatch
unfolding decode compare_units utf16 key_order placed index_of digits decimal
other_operation = refl
