-- ===== src/Contracts/Cursor/Scoped.antt =====
-- packages/contracts/src/cursor-codec.mjs: what a cursor that is accepted is bound to.
use eacl_demo.Base.{ℕ, ◌≡◌, ◌<◌, true, String, List, [], ◌∷◌, some, ok}
use eacl_demo.Json.{Json}
use eacl_demo.Contracts.Cursor.{
  Scope, Payload, validate_payload, split_token, Crypto, from_base64url, query_digest,
}

module _ (crypto : Crypto) where
  -- A payload that the codec has signed for this scope, operation and query, and that is not over.
  abbrev pub IsBound : Scope → ℕ → String → String → Json → Payload → Type 0
  IsBound scope now token operation query p =
      (first : String) × (second : String) × (body : List ℕ) × (signature : List ℕ) × (value : Json)
      × ((split_token token ≡ first ∷ second ∷ [])
          × (from_base64url crypto first ≡ ok body)
          × (from_base64url crypto second ≡ ok signature)
          × (crypto.verify signature body ≡ true)
          × (crypto.parse body ≡ some value)
          × (validate_payload value ≡ ok p)
          × (now < p.expires_at)
          × (p.scope ≡ scope)
          × (p.operation ≡ operation)
          × (query_digest crypto query ≡ ok p.query_sha256))
