-- ===== src/Explorer/Identity.antt =====
-- Which profile may be selected, and which descriptor a profile accepts: `validateEnabledProfile` and
-- `validateDescriptorCapabilities` of packages/explorer-state/src/explorer-controller.mjs, and
-- `assertDescriptorIdentity` of profile-controller.mjs beside it.
use eacl_demo.Base.{
  Bool, true, false, ◌&&◌, str_eq, String, List, ◌∷◌, Option, none, some, Result, err, ◌>>◌,
  require, includes, string_eq,
}
use eacl_demo.Explorer.Types.{Deployment, Profile, Mapping, Descriptor}

pub data IdentityError : Type 0 where
  not_enabled : Option String → IdentityError
  mapping_missing profile_mismatch mapping_mismatch deployment_mismatch : IdentityError
  capabilities_missing health_missing no_consistency_mode behavior_missing limitations_missing :
      IdentityError

abbrev pub is_some {ℓ} : {A : Type ℓ} → Option A → Bool
is_some none = false
is_some (some a) = true

unfoldable pub validate_enabled_profile : Profile → Result IdentityError (Unit {0})
validate_enabled_profile p = do
  require (str_eq p.state "enabled" && is_some p.deployment) (not_enabled p.reason)
  require (is_some p.backend && is_some p.storage) mapping_missing

-- `a === b`, where `b` may be no text.
abbrev pub is_text : String → Option String → Bool
is_text s none = false
is_text s (some t) = str_eq s t

abbrev pub same_mapping : Mapping → Profile → Bool
same_mapping m p = is_text m.backend p.backend && is_text m.storage p.storage

unfoldable pub same_deployment : Deployment → Deployment → Bool
same_deployment a b =
    str_eq a.demo_sha b.demo_sha
    && str_eq a.eacl_sha b.eacl_sha
    && str_eq a.artifact_sha256 b.artifact_sha256
    && str_eq a.deployment_id b.deployment_id
    && str_eq a.data_manifest_sha256 b.data_manifest_sha256

unfoldable pub assert_descriptor_identity : Profile → Descriptor → Result IdentityError (Unit {0})
unfolding same_deployment
assert_descriptor_identity p d = elim d.identity [
  | none ↦ err profile_mismatch
  | some actual ↦ do
    require (str_eq actual.profile_id p.id) profile_mismatch
    require (elim d.profile [ none ↦ true | some m ↦ same_mapping m p ]) mapping_mismatch
    require
        (elim p.deployment [
          | none ↦ false
          | some expected ↦ same_deployment actual.deployment expected
        ])
        deployment_mismatch
]

abbrev pub advertises : Option (List String) → String → Bool
advertises none s = false
advertises (some xs) s = includes xs s

abbrev pub some_mode : Option (List String) → Bool
some_mode (some (m ∷ ms)) = true
some_mode _ = false

unfoldable pub validate_descriptor_capabilities :
    Profile → Descriptor → Result IdentityError (Unit {0})
validate_descriptor_capabilities p d = elim d.capabilities [
  | none ↦ err capabilities_missing
  | some c ↦ do
    require (is_some c.operations && is_some c.consistency_modes) capabilities_missing
    require (elim d.profile [ none ↦ false | some m ↦ same_mapping m p ]) mapping_mismatch
    require (advertises c.operations "health" && advertises c.operations "bootstrap") health_missing
    require (some_mode c.consistency_modes) no_consistency_mode
    require (is_some c.snapshot_behavior && is_some c.cache_behavior && is_some c.mutation_locality)
        behavior_missing
    require (is_some c.limitations) limitations_missing
]
