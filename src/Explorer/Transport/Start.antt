-- ===== src/Explorer/Transport/Start.antt =====
-- packages/explorer-state/src/http-transport.mjs: `bootstrap`, which checks a service's health against
-- its bootstrap, and asks for the health again if its basis has moved.
use eacl_demo.Base.{
  ℕ, ◌≡◌, refl, ap, ◌∙◌, Bool, ◌&&◌, if◌then◌else◌, Bool-cases, inl, inr, String, [], ◌∷◌, includes,
  string_eq, Option, none, some, Result, ok, err, OnOk-apply, bind-eq-ok, ◌>>=◌, ◌>>◌,
}
use eacl_demo.Json.{Members, end}
use eacl_demo.Contracts.Handshake.{
  Basis, Health, Bootstrap, HandshakeError, Handshake, Warning, same_text,
  validate_descriptor_handshake,
}
use eacl_demo.Contracts.Handshake.Agreement.{Agrees, validate_descriptor_handshake-Agrees}
use eacl_demo.Explorer.Types.{Profile}
use eacl_demo.Explorer.Errors.{Thrown, coded, plain}
use eacl_demo.Explorer.Transport.{Envelope, Transport, Options, Services, perform_request}

unfoldable pub retryable_error : String → Bool
retryable_error code =
    includes
      ("cancelled" ∷ "canceled" ∷ "deadline-exceeded" ∷ "overloaded" ∷ "throttled"
        ∷ "dependency-unavailable" ∷ [])
      code

-- An envelope's data, unless it has an error.
unfoldable pub data_of : {A : Type 0} → Envelope A → Result Thrown (Option A)
data_of e = elim e.fault [
  | none ↦ ok e.body
  | some f ↦ err (coded f.code f.message (retryable_error f.code))
]

-- `left?.id === right?.id && left?.capturedAt === right?.capturedAt`
abbrev pub id_of : Option Basis → Option String
id_of none = none
id_of (some b) = some b.id

abbrev pub captured_of : Option Basis → Option String
captured_of none = none
captured_of (some b) = b.captured_at

abbrev pub same_basis : Option Basis → Option Basis → Bool
same_basis left right =
    same_text (id_of left) (id_of right) && same_text (captured_of left) (captured_of right)

abbrev pub health_basis : Option Health → Option Basis
health_basis none = none
health_basis (some h) = h.basis

abbrev pub bootstrap_basis : Option Bootstrap → Option Basis
bootstrap_basis none = none
bootstrap_basis (some b) = b.basis

-- The descriptor that is returned: the bootstrap's data with the health's basis.
pub record Started : Type 0 where
  pub descriptor : Bootstrap
  pub basis : Option Basis
  pub identity_warning : Option Warning

abbrev pub options_of : ℕ → Options
options_of epoch = record { request_id = none; epoch = epoch }

abbrev pub mismatch : HandshakeError → Thrown
mismatch HandshakeError.not_ready = plain "health is not ready"
mismatch HandshakeError.no_bootstrap = plain "bootstrap descriptor is missing"
mismatch e = plain "identity-mismatch"

abbrev pub handshaken : Result HandshakeError Handshake → Result Thrown Handshake
handshaken (ok h) = ok h
handshaken (err e) = err (mismatch e)

unfoldable pub finish_start :
    Profile → String → Option Health → Option Bootstrap → Result Thrown Started
unfolding validate_descriptor_handshake
finish_start registry route none bootstrap = err (mismatch HandshakeError.not_ready)
finish_start registry route (some health) none = do
  handshaken (validate_descriptor_handshake registry route route health none)
  err (mismatch HandshakeError.no_bootstrap)
finish_start registry route (some health) (some b) = do
  handshake ← handshaken (validate_descriptor_handshake registry route route health (some b))
  ok (record {
    descriptor = b;
    basis = health.basis;
    identity_warning = handshake.identity_warning;
  })

handshaken-ok :
    (r : Result HandshakeError Handshake) (h : Handshake) → handshaken r ≡ ok h → r ≡ ok h
handshaken-ok (ok g) h e = cc
handshaken-ok (err x) h e = cc

abbrev Finished : Profile → Option Health → Option Bootstrap → Started → Type 0
Finished registry fresh boot s =
    (health : Health) × (h : Handshake) × ((fresh ≡ some health) × (boot ≡ some s.descriptor))
    × Agrees registry health (some s.descriptor) h
    × (s.basis ≡ health.basis)
    × (s.identity_warning ≡ h.identity_warning)

finish_start-Finished :
    (registry : Profile) (route : String) (fresh : Option Health) (boot : Option Bootstrap)
    (s : Started)
    → finish_start registry route fresh boot ≡ ok s
    → Finished registry fresh boot s
unfolding finish_start
finish_start-Finished registry route none boot s e = cc
finish_start-Finished registry route (some health) none s e =
    let (_, _, e') =
      bind-eq-ok (handshaken (validate_descriptor_handshake registry route route health none)) _
        e in
    cc
finish_start-Finished registry route (some health) (some b) s e =
    let (h, shaken, last) =
      bind-eq-ok (handshaken (validate_descriptor_handshake registry route route health (some b))) _
        e in
    OnOk-apply (Finished registry (some health) (some b))
      (ok (record { descriptor = b; basis = health.basis; identity_warning = h.identity_warning }))
      s
      (
        health,
        h,
        (refl, refl),
        validate_descriptor_handshake-Agrees registry route route health (some b) h
            (handshaken-ok _ h shaken),
        refl,
        refl,
      )
      last

module _ (services : Services) (read_health : Members → Result Thrown (Envelope Health))
    (read_bootstrap : Members → Result Thrown (Envelope Bootstrap)) where
  unfoldable pub ask_health : Transport → ℕ → Result Thrown (Option Health)
  unfolding data_of
  ask_health t epoch =
      (perform_request services read_health t "health" end (options_of epoch)).0 >>= data_of

  unfoldable pub ask_bootstrap : Transport → ℕ → Result Thrown (Option Bootstrap)
  unfolding data_of
  ask_bootstrap t epoch =
      (perform_request services read_bootstrap t "bootstrap" end (options_of epoch)).0 >>= data_of

  unfoldable pub refreshed :
      Transport → ℕ → Option Health → Option Bootstrap → Result Thrown (Option Health)
  unfolding ask_health
  refreshed t epoch health bootstrap =
      if same_basis (health_basis health) (bootstrap_basis bootstrap)
      then ok health
      else ask_health t epoch

  -- The transport's state at each of the requests, since other calls come in between.
  unfoldable pub bootstrap :
      Profile → String → ℕ → Transport → Transport → Transport → Result Thrown Started
  unfolding ask_health ask_bootstrap refreshed finish_start
  bootstrap registry route epoch t1 t2 t3 = do
    health ← ask_health t1 epoch
    boot ← ask_bootstrap t2 epoch
    fresh ← refreshed t3 epoch health boot
    finish_start registry route fresh boot

  -- Some request for the health had this answer.
  abbrev pub SaidHealth : ℕ → Health → Type 0
  SaidHealth epoch h = (t : Transport) × (ask_health t epoch ≡ ok (some h))

  abbrev pub IsStarted : Profile → ℕ → Transport → Started → Type 0
  IsStarted registry epoch t2 s =
      (health : Health) × (h : Handshake) × SaidHealth epoch health
      × (ask_bootstrap t2 epoch ≡ ok (some s.descriptor))
      × Agrees registry health (some s.descriptor) h
      × (s.basis ≡ health.basis)
      × (s.identity_warning ≡ h.identity_warning)

  refreshed-SaidHealth :
      (t1 t3 : Transport) (epoch : ℕ) (first : Option Health) (b : Option Bootstrap) (h : Health)
      → ask_health t1 epoch ≡ ok first
      → refreshed t3 epoch first b ≡ ok (some h)
      → SaidHealth epoch h
  unfolding refreshed
  refreshed-SaidHealth t1 t3 epoch first b h asked e =
      elim (Bool-cases (same_basis (health_basis first) (bootstrap_basis b))) [
        | inl same ↦
            let e' : ◌≡◌ {A = Result Thrown (Option Health)} (ok first) (ok (some h)) =
              rw (same, refreshed) at e in
            (t1, asked ∙ e')
        | inr moved ↦ (t3, rw (moved, refreshed) at e)
      ]

  -- A start that succeeds returns the data of a bootstrap response that agrees, in its identity, with
  -- the registry's profile and with the data of a health response; its basis is the one of this health,
  -- and its warning the one of their handshake.
  pub bootstrap-IsStarted :
      (registry : Profile) (route : String) (epoch : ℕ) (t1 t2 t3 : Transport) (s : Started)
      → bootstrap registry route epoch t1 t2 t3 ≡ ok s
      → IsStarted registry epoch t2 s
  unfolding bootstrap
  bootstrap-IsStarted registry route epoch t1 t2 t3 s e =
      let (first, asked, e1) = bind-eq-ok (ask_health t1 epoch) _ e in
      let (boot, asked_too, e2) = bind-eq-ok (ask_bootstrap t2 epoch) _ e1 in
      let (fresh, again, e3) = bind-eq-ok (refreshed t3 epoch first boot) _ e2 in
      let (health, h, same, agrees, basis, warning) =
        finish_start-Finished registry route fresh boot s e3 in
      (
        health,
        h,
        refreshed-SaidHealth t1 t3 epoch first boot health asked (again ∙ ap ok (same.0)),
        asked_too ∙ ap ok (same.1),
        agrees,
        basis,
        warning,
      )
