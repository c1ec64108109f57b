-- ===== src/Contracts/Handshake.antt =====
-- packages/contracts/src/descriptor-handshake.mjs: what a profile says of itself, in its health and its
-- bootstrap, against the registry. A field that may be no text is an option.
pub mod Agreement
use eacl_demo.Base.{
  ℕ, ◌≡◌, ◌⊎◌, ◌↔◌, refl, sym, ap, ◌∙◌, Bool, true, false, not, ◌&&◌, ◌||◌, str_eq, str_eq_iff,
  if◌then◌else◌, if_holds, elim_holds, elim_holds_eq, Bool-cases, inl, inr, any, String, List, [],
  ◌∷◌, Option, none, some, Result, ok, err, ◌>>=◌, ◌>>◌, require, require_holds, OnOk, OnOk-apply,
  arith,
}
use eacl_demo.Json.{Json}
use eacl_demo.Explorer.Types.{Deployment, Profile, Mapping}
use eacl_demo.Explorer.Identity.{same_mapping}

pub record ServiceIdentity : Type 0 where
  pub profile_id : Option String
  pub demo_sha : Option String
  pub eacl_sha : Option String
  pub artifact_sha256 : Option String
  pub deployment_id : Option String
  pub data_manifest_sha256 : Option String

pub record Basis : Type 0 where
  pub id : String
  pub behavior : String
  pub fixed_for_environment : Bool
  pub captured_at : Option String

pub record Health : Type 0 where
  pub status : String
  pub ready : Bool
  pub identity : Option ServiceIdentity
  pub basis : Option Basis

-- The parts that are only copied are JSON values.
pub record Bootstrap : Type 0 where
  pub identity : Option ServiceIdentity
  pub profile : Option Mapping
  pub basis : Option Basis
  pub dataset_manifest_sha256 : String
  pub contract : Json
  pub runtime : Json
  pub capabilities : Json
  pub limits : Json

pub data HandshakeError : Type 0 where
  not_enabled wrong_route not_ready no_bootstrap : HandshakeError
  health_identity bootstrap_identity identities_differ : HandshakeError
  mapping_mismatch data_mismatch basis_mismatch dataset_mismatch : HandshakeError

pub record Difference : Type 0 where
  pub field : String
  pub expected : String
  pub actual : Option String

pub record Warning : Type 0 where
  pub message : String
  pub differences : List Difference

pub record Handshake : Type 0 where
  pub profile_id : String
  pub route : String
  pub identity : ServiceIdentity
  pub basis : Basis
  pub profile : Mapping
  pub identity_warning : Option Warning

abbrev pub same_text : Option String → Option String → Bool
same_text none none = true
same_text (some s) (some t) = str_eq s t
same_text _ _ = false

abbrev pub is_text : Option String → Bool
is_text none = false
is_text (some s) = true

unfoldable pub is_profile_identity : ServiceIdentity → String → Bool
is_profile_identity i id =
    is_text i.profile_id
    && is_text i.demo_sha
    && is_text i.eacl_sha
    && is_text i.artifact_sha256
    && is_text i.deployment_id
    && is_text i.data_manifest_sha256
    && same_text i.profile_id (some id)

unfoldable pub same_identity : ServiceIdentity → ServiceIdentity → Bool
same_identity a b =
    same_text a.profile_id b.profile_id
    && same_text a.demo_sha b.demo_sha
    && same_text a.eacl_sha b.eacl_sha
    && same_text a.artifact_sha256 b.artifact_sha256
    && same_text a.deployment_id b.deployment_id
    && same_text a.data_manifest_sha256 b.data_manifest_sha256

abbrev pub compared : String → String → Option String → List Difference → List Difference
compared field expected actual rest =
    if same_text (some expected) actual
    then rest
    else record { field = field; expected = expected; actual = actual } ∷ rest

unfoldable pub differences : Deployment → ServiceIdentity → List Difference
differences d i = compared "demoSha" d.demo_sha i.demo_sha (
    compared "eaclSha" d.eacl_sha i.eacl_sha (
      compared "artifactSha256" d.artifact_sha256 i.artifact_sha256 (
        compared "deploymentId" d.deployment_id i.deployment_id
          (compared "dataManifestSha256" d.data_manifest_sha256 i.data_manifest_sha256 []))))

abbrev pub warning_of : List Difference → Option Warning
warning_of [] = none
warning_of (d ∷ ds) = some (record {
  message =
      (if any (λ (x : Difference). str_eq x.field "eaclSha") (d ∷ ds)
        then "The service is running an out-of-date EACL version."
        else "The service deployment differs from the published registry version.");
  differences = d ∷ ds;
})

unfoldable pub deployment_identity_warning : Deployment → ServiceIdentity → Option Warning
unfolding differences
deployment_identity_warning d i = warning_of (differences d i)

abbrev pub same_bool : Bool → Bool → Bool
same_bool true b = b
same_bool false b = not b

abbrev pub same_basis : Basis → Basis → Bool
same_basis a b =
    str_eq a.id b.id
    && str_eq a.behavior b.behavior
    && same_bool a.fixed_for_environment b.fixed_for_environment

-- `route` is the one requested, `registered` the registry's.
unfoldable pub validate_descriptor_handshake :
    Profile → String → String → Health → Option Bootstrap → Result HandshakeError Handshake
validate_descriptor_handshake registry registered route health bootstrap =
    elim registry.deployment [
      | none ↦ err not_enabled
      | some deployment ↦ do
        require (str_eq registry.state "enabled") not_enabled
        require (str_eq route registered) wrong_route
        require (str_eq health.status "ready" && health.ready) not_ready
        elim bootstrap [
          | none ↦ err no_bootstrap
          | some b ↦ elim health.identity [
            | none ↦ err health_identity
            | some mine ↦ do
              require (is_profile_identity mine registry.id) health_identity
              elim b.identity [
                | none ↦ err bootstrap_identity
                | some theirs ↦ do
                  require (is_profile_identity theirs registry.id) bootstrap_identity
                  require (same_identity mine theirs) identities_differ
                  elim b.profile [
                    | none ↦ err mapping_mismatch
                    | some mapping ↦ do
                      require (same_mapping mapping registry) mapping_mismatch
                      require (same_text mine.data_manifest_sha256 theirs.data_manifest_sha256)
                          data_mismatch
                      elim health.basis [
                        | none ↦ err basis_mismatch
                        | some basis ↦ elim b.basis [
                          | none ↦ err basis_mismatch
                          | some other ↦ do
                            require (same_basis basis other) basis_mismatch
                            require
                                (same_text (some b.dataset_manifest_sha256)
                                  theirs.data_manifest_sha256)
                                dataset_mismatch
                            ok (record {
                              profile_id = registry.id;
                              route = route;
                              identity = mine;
                              basis = other;
                              profile = mapping;
                              identity_warning = deployment_identity_warning deployment mine;
                            })
                        ]
                      ]
                  ]
              ]
          ]
        ]
    ]
