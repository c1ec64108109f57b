-- ===== src/Explorer/Transport/Binding.antt =====
-- packages/explorer-state/src/http-transport.mjs: what an envelope that a request returns is bound to.
use eacl_demo.Base.{
  ℕ, ◌≡◌, ◌≤◌, ◌⊎◌, refl, ap, ◌∙◌, Bool, true, false, not, ◌&&◌, ◌||◌, ◌==◌, ==_iff, leb, leb→le,
  str_eq_iff, if◌then◌else◌, Result-cases, inl, inr, String, includes, string_eq, Option, none,
  some, Result, ok, err, OnOk-apply, require-ok, reject-eq-ok, require-eq-ok, bind-eq-ok, arith,
}
use eacl_demo.Json.{Members}
use eacl_demo.Contracts.HttpClient.{read_bounded_json_response}
use eacl_demo.Explorer.Errors.{Thrown, plain}
use eacl_demo.Explorer.Transport.{
  Envelope, has, is_id, check_status, meta_of, validate_envelope_binding, Transport, Options,
  Outgoing, Fetched, outgoing, closed_operations, is_json_response, read_failed, is_request_id,
  request_id_of, Services, receive, late, send, perform_with, perform_request, canceled,
}

-- Data with the status 200, or an error with a status from 400 on; never both.
abbrev pub Settled : {A : Type 0} → Envelope A → ℕ → Type 0
Settled e status =
    ((has e.body ≡ true) × (has e.fault ≡ false) × (status ≡ 200))
    ⊎ ((has e.body ≡ false) × (has e.fault ≡ true) × (400 ≤ status) × (status ≤ 599))

settled_by_tests :
    (success fault : Bool) (status : ℕ)
    → (success && not fault) || (fault && not success) ≡ true
    → leb 200 status && leb status 599 ≡ true
    → not success || status == 200 ≡ true
    → not fault || leb 400 status ≡ true
    → ((success ≡ true) × (fault ≡ false) × (status ≡ 200))
      ⊎ ((success ≡ false) × (fault ≡ true) × (400 ≤ status) × (status ≤ 599))
settled_by_tests true true status one range good bad = cc
settled_by_tests true false status one range good bad = inl (refl, refl, (==_iff status 200).0 good)
settled_by_tests false true status one range good bad =
    inr (refl, refl, leb→le 400 status bad, ground arith)
settled_by_tests false false status one range good bad = cc

is_id-eq : (id : String) (o : Option String) → is_id id o ≡ true → o ≡ some id
is_id-eq id none h = cc
is_id-eq id (some s) h = ap some ((str_eq_iff s id).0 h)

meta_of-ok : (m : Option (Option String)) (id : Option String) → meta_of m ≡ ok id → m ≡ some id
meta_of-ok none id h = cc
meta_of-ok (some m) id h = cc

Fails : {A T : Type 0} → Envelope A → Result Thrown (Envelope A) × T → Type 0
Fails {A = A} e r = ◌≡◌ {A = Result Thrown (Envelope A)} (r.0) (ok e) → ⊥

middle_branch :
    {A T : Type 0} (released closed : Bool) (x y z : Result Thrown (Envelope A) × T)
    (e : Envelope A)
    → (if released then x else if closed then y else z).0 ≡ ok e
    → Fails e x
    → Fails e z
    → (released ≡ false) × (closed ≡ true) × (y.0 ≡ ok e)
unfolding Fails
middle_branch true closed x y z e h no_x no_z = absurd (no_x h)
middle_branch false true x y z e h no_x no_z = (refl, refl, h)
middle_branch false false x y z e h no_x no_z = absurd (no_z h)

module _ {A : Type 0} where
  abbrev pub IsBound : String → ℕ → Envelope A → Type 0
  IsBound request_id status e = (e.meta ≡ some (some request_id)) × Settled e status

  validate_envelope_binding-IsBound :
      (e e' : Envelope A) (request_id : String) (status : ℕ)
      → validate_envelope_binding e request_id (some status) ≡ ok e'
      → (e ≡ e') × IsBound request_id status e'
  unfolding validate_envelope_binding check_status
  validate_envelope_binding-IsBound e e' request_id status h =
      let (id, m, h1) = bind-eq-ok (meta_of e.meta) _ h in
      let (same, h2) = require-eq-ok (is_id request_id id) _ _ h1 in
      let (one, h3) =
        require-eq-ok ((has e.body && not (has e.fault)) || (has e.fault && not (has e.body))) _ _
          h2 in
      let (_, checks, last) =
        bind-eq-ok (check_status (has e.body) (has e.fault) (some status)) _ h3 in
      let (range, c1) = require-eq-ok (leb 200 status && leb status 599) _ _ checks in
      let (success, c2) = require-eq-ok (not (has e.body) || status == 200) _ _ c1 in
      let failure = require-ok (not (has e.fault) || leb 400 status) _ c2 in
      OnOk-apply (λ x. (e ≡ x) × IsBound request_id status x) (ok e) e'
        (
          refl,
          (
            meta_of-ok e.meta id m ∙ ap some (is_id-eq request_id id same),
            settled_by_tests (has e.body) (has e.fault) status one range success failure,
          ),
        )
        last

module _ {A : Type 0} (services : Services)
    (validate_response : Members → Result Thrown (Envelope A)) where
  -- What the client reads from a response's body, within the limit.
  abbrev pub body_of : Fetched → Result Thrown Members
  body_of f = read_failed (
      read_bounded_json_response services.decode services.flush services.parse_json
        services.maximum_response_bytes f.response)

  -- The response that the network gave to a request; the envelope is what the validator makes of the
  -- response's body, and is tied to the request and to the response.
  abbrev pub IsAnswer : Outgoing → Envelope A → Type 0
  IsAnswer o e =
      (f : Fetched) × ((services.network o).fetched ≡ ok f)
      × (f.redirected ≡ false)
      × (is_json_response f.content_type ≡ true)
      × ((members : Members) × (body_of f ≡ ok members) × (validate_response members ≡ ok e))
      × IsBound o.request_id f.status e

  receive-IsAnswer :
      (o : Outgoing) (e : Envelope A)
      → receive services validate_response o.request_id (services.network o).fetched ≡ ok e
      → IsAnswer o e
  unfolding receive
  receive-IsAnswer o e h =
      let (f, fetched, h1) = bind-eq-ok ((services.network o).fetched) _ h in
      let (direct, h2) = reject-eq-ok f.redirected _ _ h1 in
      let (json, h3) = require-eq-ok (is_json_response f.content_type) _ _ h2 in
      let (members, read, h4) = bind-eq-ok (body_of f) _ h3 in
      let (envelope, validated, h5) = bind-eq-ok (validate_response members) _ h4 in
      let (same, bound) = validate_envelope_binding-IsBound envelope e o.request_id f.status h5 in
      (f, fetched, direct, json, (members, read, validated ∙ ap ok same), bound)

  send-IsAnswer :
      (o : Outgoing) (e : Envelope A) → send services validate_response o ≡ ok e → IsAnswer o e
  unfolding send
  send-IsAnswer o e h =
      elim (Result-cases
        (receive services validate_response o.request_id (services.network o).fetched)) [
          | inl (x, q) ↦
              let no : ◌≡◌ {A = Result Thrown (Envelope A)}
                  (err (late services validate_response (services.network o).timed_out x)) (ok e) =
                rw (q, send) at h in
              cc
          | inr (e', q) ↦
              let h' : ◌≡◌ {A = Result Thrown (Envelope A)} (ok e') (ok e) = rw (q, send) at h in
              receive-IsAnswer o e (q ∙ h')
        ]

  perform_with-IsAnswer :
      (operation request_id : String) (input : Members) (e : Envelope A)
      → perform_with services validate_response operation request_id input ≡ ok e
      → (valid : Members) × (is_request_id request_id ≡ true)
        × (services.validate_request operation request_id input ≡ ok valid)
        × IsAnswer (outgoing operation request_id valid) e
  unfolding perform_with
  perform_with-IsAnswer operation request_id input e h =
      let (id, h1) = require-eq-ok (is_request_id request_id) _ _ h in
      let (valid, passed, h2) =
        bind-eq-ok (services.validate_request operation request_id input) _ h1 in
      let (_, h3) = require-eq-ok (services.stays_in_route _) _ _ h2 in
      (valid, id, passed, send-IsAnswer (outgoing operation request_id valid) e h3)

  -- A request returns an envelope only if the transport is not released and the operation is of the
  -- closed set. The network has then answered the request that was sent with this id and the validated
  -- input, neither redirected nor with another type than JSON; the envelope is what the validator makes
  -- of the members read from the answer's body within the client's limit, is correlated by the request
  -- id, and is either a success with the status 200 or an error with a status from 400 to 599.
  pub perform_request-IsAnswer :
      (t : Transport) (operation : String) (input : Members) (options : Options) (e : Envelope A)
      → (perform_request services validate_response t operation input options).0 ≡ ok e
      → (t.released ≡ false)
        × (includes closed_operations operation ≡ true)
        × ((valid : Members) × (is_request_id (request_id_of t options).0 ≡ true)
            × (services.validate_request operation (request_id_of t options).0 input ≡ ok valid)
            × IsAnswer (outgoing operation (request_id_of t options).0 valid) e)
  unfolding perform_request Fails
  perform_request-IsAnswer t operation input options e h =
      let (id, t') = request_id_of t options in
      let (live, closed, sent) =
        middle_branch t.released (includes closed_operations operation) (err canceled, t)
          (perform_with services validate_response operation id input, t')
          (err (plain "HTTP profile operation is not closed"), t) e h (λ n. cc) (λ n. cc) in
      (live, closed, perform_with-IsAnswer operation id input e sent)
