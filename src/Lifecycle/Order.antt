-- ===== src/Lifecycle/Order.antt =====
-- packages/data-lifecycle/lifecycle.mjs: the order of the states, and the fields that a record keeps.
use eacl_demo.Base.{
  ℕ, suc, ◌≤◌, ◌≡◌, ◌≢◌, refl, subst, ap, ◌∙◌, Bool, true, not, ◌&&◌, ◌||◌, str_eq, str_eq_iff,
  if◌then◌else◌, inl, inr, String, [], ◌∷◌, Option, none, some, includes, includes-cases, string_eq,
  arith,
}
use eacl_demo.Lifecycle.{
  Stamp, null, other, text, Lifecycle, states, allowed_transitions, arrow, same_option, same_stamp,
  same_immutable, Promotion, is_previous,
}

-- The place of a state in the life of a record.
abbrev pub rank : String → ℕ
rank state =
    if str_eq state "staging"
    then 0
    else if str_eq state "verified"
    then 1
    else if str_eq state "serving"
    then 2
    else 3

-- The fields that an accepted record keeps for ever.
pub record Frozen (a b : Lifecycle) : Type 0 where
  pub schema : a.schema ≡ b.schema
  pub lifecycle_id : a.lifecycle_id ≡ b.lifecycle_id
  pub profile_id : a.profile_id ≡ b.profile_id
  pub storage_resource_id : a.storage_resource_id ≡ b.storage_resource_id
  pub manifest_digest : a.manifest_digest ≡ b.manifest_digest
  pub fixture_digest : a.fixture_digest ≡ b.fixture_digest
  pub previous_lifecycle_id : a.previous_lifecycle_id ≡ b.previous_lifecycle_id
  pub created_at : a.created_at ≡ b.created_at

all_eight :
    (a b c d e f g i : Bool)
    → (a && b && c && d && e && f && g && i) ≡ true
    → (a ≡ true)
      × (b ≡ true)
      × (c ≡ true)
      × (d ≡ true)
      × (e ≡ true)
      × (f ≡ true)
      × (g ≡ true)
      × (i ≡ true)
all_eight a b c d e f g i h = ground arith

same_option-eq : (s t : Option String) → same_option s t ≡ true → s ≡ t
same_option-eq none none h = refl
same_option-eq none (some t) h = cc
same_option-eq (some s) none h = cc
same_option-eq (some s) (some t) h = ap some ((str_eq_iff s t).0 h)

same_stamp-eq : (s t : Stamp) → same_stamp s t ≡ true → s ≡ t
same_stamp-eq null null h = refl
same_stamp-eq null other h = cc
same_stamp-eq null (text t) h = cc
same_stamp-eq other t h = cc
same_stamp-eq (text s) null h = cc
same_stamp-eq (text s) other h = cc
same_stamp-eq (text s) (text t) h = ap text ((str_eq_iff s t).0 h)

pub same_immutable-Frozen : (a b : Lifecycle) → same_immutable a b ≡ true → Frozen a b
unfolding same_immutable
same_immutable-Frozen a b h =
    let (h1, h2, h3, h4, h5, h6, h7, h8) =
      all_eight (str_eq a.schema b.schema) (str_eq a.lifecycle_id b.lifecycle_id)
        (str_eq a.profile_id b.profile_id) (str_eq a.storage_resource_id b.storage_resource_id)
        (str_eq a.manifest_digest b.manifest_digest) (str_eq a.fixture_digest b.fixture_digest)
        (same_option a.previous_lifecycle_id b.previous_lifecycle_id)
        (same_stamp a.created_at b.created_at) h in
    record {
      schema = (str_eq_iff _ _).0 h1;
      lifecycle_id = (str_eq_iff _ _).0 h2;
      profile_id = (str_eq_iff _ _).0 h3;
      storage_resource_id = (str_eq_iff _ _).0 h4;
      manifest_digest = (str_eq_iff _ _).0 h5;
      fixture_digest = (str_eq_iff _ _).0 h6;
      previous_lifecycle_id = same_option-eq _ _ h7;
      created_at = same_stamp-eq _ _ h8;
    }

four_states :
    (P : String → Type 0) (s : String)
    → includes states s ≡ true
    → P "staging"
    → P "verified"
    → P "serving"
    → P "retired"
    → P s
four_states P s h staging verified serving retired =
    elim (includes-cases "staging" s ("verified" ∷ "serving" ∷ "retired" ∷ []) h) [
      | inl e ↦ subst P e staging
      | inr h ↦ elim (includes-cases "verified" s ("serving" ∷ "retired" ∷ []) h) [
        | inl e ↦ subst P e verified
        | inr h ↦ elim (includes-cases "serving" s ("retired" ∷ []) h) [
          | inl e ↦ subst P e serving
          | inr h ↦ elim (includes-cases "retired" s [] h) [
            | inl e ↦ subst P e retired
            | inr h ↦ cc
          ]
        ]
      ]
    ]

-- An allowed arrow between two states goes one place on.
abbrev pub Moves : String → String → Type 0
Moves s t = includes allowed_transitions (arrow s t) ≡ true → rank t ≡ suc (rank s)

pub allowed-rank : (s t : String) → includes states s ≡ true → includes states t ≡ true → Moves s t
allowed-rank s t hs ht =
    four_states (λ s. Moves s t) s hs
      (four_states (Moves "staging") t ht (λ h. cc) (λ h. refl) (λ h. cc) (λ h. cc))
      (four_states (Moves "verified") t ht (λ h. cc) (λ h. cc) (λ h. refl) (λ h. cc))
      (four_states (Moves "serving") t ht (λ h. cc) (λ h. cc) (λ h. cc) (λ h. refl))
      (four_states (Moves "retired") t ht (λ h. cc) (λ h. cc) (λ h. cc) (λ h. cc))

pub Frozen-self : (a : Lifecycle) → Frozen a a
Frozen-self a = record {
  schema = refl;
  lifecycle_id = refl;
  profile_id = refl;
  storage_resource_id = refl;
  manifest_digest = refl;
  fixture_digest = refl;
  previous_lifecycle_id = refl;
  created_at = refl;
}

pub Frozen-trans : (a b c : Lifecycle) → Frozen a b → Frozen b c → Frozen a c
Frozen-trans a b c h k = record {
  schema = h.schema ∙ k.schema;
  lifecycle_id = h.lifecycle_id ∙ k.lifecycle_id;
  profile_id = h.profile_id ∙ k.profile_id;
  storage_resource_id = h.storage_resource_id ∙ k.storage_resource_id;
  manifest_digest = h.manifest_digest ∙ k.manifest_digest;
  fixture_digest = h.fixture_digest ∙ k.fixture_digest;
  previous_lifecycle_id = h.previous_lifecycle_id ∙ k.previous_lifecycle_id;
  created_at = h.created_at ∙ k.created_at;
}

pub rank-serving : (s : String) → includes states s ≡ true → rank s ≡ 2 → s ≡ "serving"
rank-serving s h =
    four_states (λ s. rank s ≡ 2 → s ≡ "serving") s h (λ e. absurd (omega (arith, e)))
      (λ e. absurd (omega (arith, e))) (λ e. refl) (λ e. absurd (omega (arith, e)))

pub neither : (s t u v : String) → not (str_eq s t || str_eq u v) ≡ true → (s ≢ t) × (u ≢ v)
neither s t u v h = (
  λ e. let same = (str_eq_iff s t).1 e in cc,
  λ e. let same = (str_eq_iff u v).1 e in ground arith,
)

pub both : (a b : Bool) → (a && b) ≡ true → (a ≡ true) × (b ≡ true)
both a b h = ground arith

pub is_previous-eq : (o : Option String) (s : String) → is_previous o s ≡ true → o ≡ some s
is_previous-eq none s h = cc
is_previous-eq (some t) s h = ap some ((str_eq_iff t s).0 h)

-- What the checks of a planned promotion have made sure of.
pub record Planned (current candidate : Lifecycle) (p : Promotion) : Type 0 where
  pub verified : candidate.state ≡ "verified"
  pub same_profile : current.profile_id ≡ candidate.profile_id
  pub another : current.lifecycle_id ≢ candidate.lifecycle_id
  pub another_storage : current.storage_resource_id ≢ candidate.storage_resource_id
  pub predecessor : candidate.previous_lifecycle_id ≡ some current.lifecycle_id
  pub expected :
      (p.expected_manifest_digest ≡ candidate.manifest_digest)
      × (p.to_lifecycle_id ≡ candidate.lifecycle_id)

pub rank_bound : (s : String) → rank s ≤ 3
rank_bound s = ground arith
