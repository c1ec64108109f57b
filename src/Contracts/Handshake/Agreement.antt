-- ===== src/Contracts/Handshake/Agreement.antt =====
-- packages/contracts/src/descriptor-handshake.mjs: what an accepted handshake has made sure of.
use eacl_demo.Base.{
  ◌≡◌, ◌↔◌, refl, sym, ap, ◌∙◌, Bool, true, ◌&&◌, str_eq, str_eq_iff, elim_holds_eq, Bool-cases,
  inl, inr, String, List, [], ◌∷◌, Option, none, some, ok, require_holds, OnOk, OnOk-apply, arith,
}
use eacl_demo.Explorer.Types.{Deployment, Profile}
use eacl_demo.Explorer.Identity.{same_mapping}
use eacl_demo.Contracts.Handshake.{
  ServiceIdentity, Health, Bootstrap, Difference, Handshake, same_text, is_text,
  is_profile_identity, same_identity, compared, differences, warning_of,
  deployment_identity_warning, same_basis, validate_descriptor_handshake, not_enabled, wrong_route,
  not_ready, health_identity, bootstrap_identity, identities_differ, mapping_mismatch,
  data_mismatch, basis_mismatch, dataset_mismatch,
}

same_text-eq : (s t : Option String) → same_text s t ≡ true → s ≡ t
same_text-eq none none h = refl
same_text-eq none (some t) h = cc
same_text-eq (some s) none h = cc
same_text-eq (some s) (some t) h = ap some ((str_eq_iff s t).0 h)

same_text_self : (s : String) → same_text (some s) (some s) ≡ true
same_text_self s = (str_eq_iff s s).1 refl

all_six :
    (a b c d e f : Bool)
    → (a && b && c && d && e && f) ≡ true
    → (a ≡ true) × (b ≡ true) × (c ≡ true) × (d ≡ true) × (e ≡ true) × (f ≡ true)
all_six a b c d e f h = ground arith

same_identity-eq : (a b : ServiceIdentity) → same_identity a b ≡ true → b ≡ a
unfolding same_identity
same_identity-eq a b h =
    let (h1, h2, h3, h4, h5, h6) =
      all_six (same_text a.profile_id b.profile_id) (same_text a.demo_sha b.demo_sha)
        (same_text a.eacl_sha b.eacl_sha) (same_text a.artifact_sha256 b.artifact_sha256)
        (same_text a.deployment_id b.deployment_id)
        (same_text a.data_manifest_sha256 b.data_manifest_sha256) h in
    λ i. record {
      profile_id = sym (same_text-eq a.profile_id b.profile_id h1) i;
      demo_sha = sym (same_text-eq a.demo_sha b.demo_sha h2) i;
      eacl_sha = sym (same_text-eq a.eacl_sha b.eacl_sha h3) i;
      artifact_sha256 = sym (same_text-eq a.artifact_sha256 b.artifact_sha256 h4) i;
      deployment_id = sym (same_text-eq a.deployment_id b.deployment_id h5) i;
      data_manifest_sha256 = sym (same_text-eq a.data_manifest_sha256 b.data_manifest_sha256 h6) i;
    }

last_of_seven : (a b c d e f g : Bool) → (a && b && c && d && e && f && g) ≡ true → g ≡ true
last_of_seven a b c d e f g h = ground arith

is_profile_identity-eq :
    (i : ServiceIdentity) (id : String) → is_profile_identity i id ≡ true → i.profile_id ≡ some id
unfolding is_profile_identity
is_profile_identity-eq i id h = same_text-eq i.profile_id (some id) (
    last_of_seven (is_text i.profile_id) (is_text i.demo_sha) (is_text i.eacl_sha)
      (is_text i.artifact_sha256) (is_text i.deployment_id) (is_text i.data_manifest_sha256)
      (same_text i.profile_id (some id)) h)

-- The service runs the deployment that the registry names.
pub record IsDeployed (d : Deployment) (i : ServiceIdentity) : Type 0 where
  pub demo_sha : some d.demo_sha ≡ i.demo_sha
  pub eacl_sha : some d.eacl_sha ≡ i.eacl_sha
  pub artifact_sha256 : some d.artifact_sha256 ≡ i.artifact_sha256
  pub deployment_id : some d.deployment_id ≡ i.deployment_id
  pub data_manifest_sha256 : some d.data_manifest_sha256 ≡ i.data_manifest_sha256

compared-nil :
    (field expected : String) (actual : Option String) (rest : List Difference)
    → compared field expected actual rest ≡ []
    → (some expected ≡ actual) × (rest ≡ [])
compared-nil field expected actual rest h = elim (Bool-cases (same_text (some expected) actual)) [
  | inl e ↦ (same_text-eq (some expected) actual e, let r : rest ≡ [] = cc in r)
  | inr e ↦ cc
]

compared-same :
    (field expected : String) (actual : Option String) (rest : List Difference)
    → some expected ≡ actual
    → compared field expected actual rest ≡ rest
compared-same field expected actual rest h = rw (← h, same_text_self expected) refl

warning_of-none : (ds : List Difference) → warning_of ds ≡ none → ds ≡ []
warning_of-none [] h = refl
warning_of-none (d ∷ ds) h = cc

differences-nil : (d : Deployment) (i : ServiceIdentity) → differences d i ≡ [] → IsDeployed d i
unfolding differences
differences-nil d i h =
    let (e1, h1) = compared-nil "demoSha" d.demo_sha i.demo_sha _ h in
    let (e2, h2) = compared-nil "eaclSha" d.eacl_sha i.eacl_sha _ h1 in
    let (e3, h3) = compared-nil "artifactSha256" d.artifact_sha256 i.artifact_sha256 _ h2 in
    let (e4, h4) = compared-nil "deploymentId" d.deployment_id i.deployment_id _ h3 in
    let (e5, _) =
      compared-nil "dataManifestSha256" d.data_manifest_sha256 i.data_manifest_sha256 _ h4 in
    record {
      demo_sha = e1;
      eacl_sha = e2;
      artifact_sha256 = e3;
      deployment_id = e4;
      data_manifest_sha256 = e5;
    }

IsDeployed-differences :
    (d : Deployment) (i : ServiceIdentity) → IsDeployed d i → differences d i ≡ []
unfolding differences
IsDeployed-differences d i h =
    compared-same "demoSha" d.demo_sha i.demo_sha _ h.demo_sha
    ∙ compared-same "eaclSha" d.eacl_sha i.eacl_sha _ h.eacl_sha
    ∙ compared-same "artifactSha256" d.artifact_sha256 i.artifact_sha256 _ h.artifact_sha256
    ∙ compared-same "deploymentId" d.deployment_id i.deployment_id _ h.deployment_id
    ∙ compared-same "dataManifestSha256" d.data_manifest_sha256 i.data_manifest_sha256 []
        h.data_manifest_sha256

warning-IsDeployed :
    (d : Deployment) (i : ServiceIdentity)
    → (deployment_identity_warning d i ≡ none) ↔ IsDeployed d i
unfolding deployment_identity_warning
warning-IsDeployed d i = (
  λ h. differences-nil d i (warning_of-none (differences d i) h),
  λ h. rw (IsDeployed-differences d i h) refl,
)

-- What an accepted handshake says: one identity, of both answers.
abbrev pub Agrees : Profile → Health → Option Bootstrap → Handshake → Type 0
Agrees registry health bootstrap h =
    (d : Deployment) × (b : Bootstrap) × (registry.deployment ≡ some d)
    × (bootstrap ≡ some b)
    × (health.identity ≡ some h.identity)
    × (b.identity ≡ some h.identity)
    × (h.identity.profile_id ≡ some registry.id)
    × (b.basis ≡ some h.basis)
    × ((h.identity_warning ≡ none) ↔ IsDeployed d h.identity)

handshake-OnOk :
    (registry : Profile) (registered route : String) (health : Health)
    (bootstrap : Option Bootstrap)
    → OnOk
        (Agrees registry health bootstrap)
        (validate_descriptor_handshake registry registered route health bootstrap)
unfolding validate_descriptor_handshake
handshake-OnOk registry registered route health bootstrap =
    let P = Agrees registry health bootstrap in
    elim_holds_eq (OnOk P) registry.deployment (λ _. tt)
      (λ d e1. require_holds P (str_eq registry.state "enabled") not_enabled _ (λ _.
        require_holds P (str_eq route registered) wrong_route _ (λ _.
          require_holds P (str_eq health.status "ready" && health.ready) not_ready _ (λ _.
            elim_holds_eq (OnOk P) bootstrap (λ _. tt)
              (λ b e2.
                elim_holds_eq (OnOk P) health.identity (λ _. tt)
                  (λ mine e3.
                    require_holds P (is_profile_identity mine registry.id) health_identity _
                      (λ named.
                        elim_holds_eq (OnOk P) b.identity (λ _. tt)
                          (λ theirs e4.
                            require_holds P (is_profile_identity theirs registry.id)
                              bootstrap_identity _
                              (λ _.
                                require_holds P (same_identity mine theirs) identities_differ _
                                  (λ same.
                                    elim_holds_eq (OnOk P) b.profile (λ _. tt)
                                      (λ mapping _.
                                        require_holds P (same_mapping mapping registry)
                                          mapping_mismatch _
                                          (λ _.
                                            require_holds P
                                              (same_text mine.data_manifest_sha256
                                                theirs.data_manifest_sha256)
                                              data_mismatch _
                                              (λ _.
                                                elim_holds_eq (OnOk P) health.basis (λ _. tt)
                                                  (λ basis _.
                                                    elim_holds_eq (OnOk P) b.basis (λ _. tt)
                                                      (λ other e5.
                                                        require_holds P (same_basis basis other)
                                                          basis_mismatch _
                                                          (λ _.
                                                            require_holds P
                                                            (same_text
                                                            (some b.dataset_manifest_sha256)
                                                            theirs.data_manifest_sha256)
                                                            dataset_mismatch _
                                                            (λ _. (
                                                            d,
                                                            b,
                                                            e1,
                                                            e2,
                                                            e3,
                                                            e4
                                                            ∙ ap some
                                                            (same_identity-eq mine theirs same),
                                                            is_profile_identity-eq mine registry.id
                                                            named,
                                                            e5,
                                                            warning-IsDeployed d mine,
                                                            ))))))))))))))))))

-- A handshake that is accepted: health and bootstrap give one and the same identity, which is the
-- profile's of the registry, with the basis of the bootstrap; and there is no warning exactly if
-- the service runs the very deployment that the registry names.
pub validate_descriptor_handshake-Agrees :
    (registry : Profile) (registered route : String) (health : Health)
    (bootstrap : Option Bootstrap) (h : Handshake)
    → validate_descriptor_handshake registry registered route health bootstrap ≡ ok h
    → Agrees registry health bootstrap h
validate_descriptor_handshake-Agrees registry registered route health bootstrap h e =
    OnOk-apply (Agrees registry health bootstrap)
      (validate_descriptor_handshake registry registered route health bootstrap) h
      (handshake-OnOk registry registered route health bootstrap) e
