-- ===== src/Fixture/Evaluator/Derived.antt =====
-- packages/fixture-generator/exemplar-evaluator.mjs: the evaluator against derivations of bounded depth,
-- which know no path.
use mathlib.Core.List.{◌++◌ as append}
use eacl_demo.Base.{
  ℕ, zero, suc, ◌≡◌, refl, sym, ap, ◌∙◌, Bool, true, false, ◌||◌, str_eq, str_eq_iff, if◌then◌else◌,
  Bool-cases, inl, inr, String, List, [], ◌∷◌, any, includes, string_eq,
}
use eacl_demo.Fixture.Records.{ObjectRef}
use eacl_demo.Explorer.Controller.Publish.{lookup}
use eacl_demo.Fixture.Evaluator.{
  parse_object_key, relationship_key, LogicalFixture, related_to, related, Permission, Clause,
  direct, arrow_relation, arrow_permission, self_permission, clauses, holds, rules, state_of,
  evaluate, targets_in,
}

pub or_right : (b : Bool) {c : Bool} → c ≡ true → b || c ≡ true
or_right true h = refl
or_right false h = h

any_mono :
    {A : Type 0} (f g : A → Bool) (xs : List A)
    → ((a : A) → f a ≡ true → g a ≡ true)
    → any f xs ≡ true
    → any g xs ≡ true
any_mono f g [] k h = h
any_mono f g (x ∷ xs) k h = elim (Bool-cases (f x)) [
  | inl e ↦ rw (k x e) refl
  | inr e ↦ let rest : any f xs ≡ true = rw e at h in or_right (g x) (any_mono f g xs k rest)
]

-- The same, where what is known holds for the texts of the list only.
any_mono_in :
    (f g : String → Bool) (xs : List String)
    → ((a : String) → includes xs a ≡ true → f a ≡ true → g a ≡ true)
    → any f xs ≡ true
    → any g xs ≡ true
any_mono_in f g [] k h = h
any_mono_in f g (x ∷ xs) k h = elim (Bool-cases (f x)) [
  | inl e ↦
      let here_too : includes (x ∷ xs) x ≡ true = rw ((str_eq_iff x x).1 refl) refl in
      rw (k x here_too e) refl
  | inr e ↦
      let rest : any f xs ≡ true = rw e at h in
      or_right (g x) (any_mono_in f g xs (λ a i. k a (or_right (str_eq x a) i)) rest)
]

includes-append_left :
    (xs ys : List String) (a : String) → includes xs a ≡ true → includes (append xs ys) a ≡ true
includes-append_left [] ys a h = cc
includes-append_left (x ∷ xs) ys a h = elim (Bool-cases (str_eq x a)) [
  | inl e ↦ rw e refl
  | inr e ↦ or_right (str_eq x a) (includes-append_left xs ys a (rw e at h))
]

includes-append_right :
    (xs ys : List String) (a : String) → includes ys a ≡ true → includes (append xs ys) a ≡ true
includes-append_right [] ys a h = h
includes-append_right (x ∷ xs) ys a h = or_right (str_eq x a) (includes-append_right xs ys a h)

related_to-cons :
    (key k : String) (values : List String) (rest : List (String × List String))
    → related_to key ((k, values) ∷ rest) ≡ (if str_eq k key then values else related_to key rest)
unfolding lookup
related_to-cons key k values rest = elim (Bool-cases (str_eq k key)) [
  | inl e ↦ rw (e, lookup) refl
  | inr e ↦ rw (e, lookup) refl
]

-- Whatever is related to a key is among the targets.
targets_in_related :
    (key t : String) (relationships : List (String × List String))
    → includes (related_to key relationships) t ≡ true
    → includes (targets_in relationships) t ≡ true
unfolding targets_in lookup
targets_in_related key t [] h = h
targets_in_related key t ((k, values) ∷ rest) h =
    let h' : includes (if str_eq k key then values else related_to key rest) t ≡ true =
      sym (ap (λ vs. includes vs t) (related_to-cons key k values rest)) ∙ h in
    elim (Bool-cases (str_eq k key)) [
      | inl e ↦ includes-append_left values (targets_in rest) t (rw e at h')
      | inr e ↦
          includes-append_right values (targets_in rest) t
            (targets_in_related key t rest (rw e at h'))
    ]

module _ (fixture : LogicalFixture) (subject_key : String) where
  abbrev pub targets : List String
  targets = targets_in fixture.relationships

  -- What the clauses of a resource ask for.
  abbrev pub Asks : (ObjectRef → Type 0) → ObjectRef → Type 0
  Asks P o = P o × ((t : String) → includes targets t ≡ true → P (parse_object_key t))

  holds_mono :
      (P : ObjectRef → Type 0) (f g : Permission → ObjectRef → Bool) (o : ObjectRef) (c : Clause)
      → Asks P o
      → ((p : Permission) (u : ObjectRef) → P u → f p u ≡ true → g p u ≡ true)
      → holds fixture subject_key f o c ≡ true
      → holds fixture subject_key g o c ≡ true
  unfolding holds related
  holds_mono P f g o (direct relation) asks k h = h
  holds_mono P f g o (arrow_relation via target) asks k h = h
  holds_mono P f g o (arrow_permission via target) asks k h =
      any_mono_in (λ t. f target (parse_object_key t)) (λ t. g target (parse_object_key t))
        (related fixture o via)
        (λ t i.
          k target (parse_object_key t)
            (asks.1 t (targets_in_related (relationship_key o via) t fixture.relationships i)))
        h
  holds_mono P f g o (self_permission target) asks k h = k target o (asks.0) h

  pub rules_mono :
      (P : ObjectRef → Type 0) (f g : Permission → ObjectRef → Bool) (p : Permission)
      (o : ObjectRef)
      → Asks P o
      → ((q : Permission) (u : ObjectRef) → P u → f q u ≡ true → g q u ≡ true)
      → rules fixture subject_key f p o ≡ true
      → rules fixture subject_key g p o ≡ true
  unfolding rules
  rules_mono P f g p o asks k h =
      any_mono (holds fixture subject_key f o) (holds fixture subject_key g o) (clauses o.type p)
        (λ c. holds_mono P f g o c asks k) h

  -- Derivations of a depth: what the rules give from what is derived one level below.
  unfoldable pub derived : ℕ → Permission → ObjectRef → Bool
  derived zero p o = false
  derived (suc k) p o = rules fixture subject_key (derived k) p o

  abbrev pub Anything : ObjectRef → Type 0
  Anything o = Unit

  pub anything : (o : ObjectRef) → Asks Anything o
  anything o = (tt, λ t i. tt)

  pub derived_mono :
      (k : ℕ) (p : Permission) (o : ObjectRef) → derived k p o ≡ true → derived (suc k) p o ≡ true
  unfolding derived
  derived_mono zero p o h = cc
  derived_mono (suc k) p o h =
      rules_mono Anything (derived k) (derived (suc k)) p o (anything o)
        (λ q u _. derived_mono k q u) h

  pub evaluate-rules :
      (n : ℕ) (path : List String) (p : Permission) (o : ObjectRef)
      → evaluate fixture subject_key (suc n) path p o ≡ true
      → (includes path (state_of fixture subject_key p o) ≡ false)
        × (rules fixture subject_key
              (evaluate fixture subject_key n (state_of fixture subject_key p o ∷ path))
              p
              o
            ≡ true)
  unfolding evaluate
  evaluate-rules n path p o h =
      elim (Bool-cases (includes path (state_of fixture subject_key p o))) [
        | inl e ↦ let no : false ≡ true = rw (e, evaluate) at h in cc
        | inr e ↦ (e, rw (e, evaluate) at h)
      ]

  pub rules-evaluate :
      (n : ℕ) (path : List String) (p : Permission) (o : ObjectRef)
      → includes path (state_of fixture subject_key p o) ≡ false
      → rules fixture subject_key
          (evaluate fixture subject_key n (state_of fixture subject_key p o ∷ path))
          p
          o
        ≡ true
      → evaluate fixture subject_key (suc n) path p o ≡ true
  unfolding evaluate
  rules-evaluate n path p o e h = rw (e, evaluate) h

  pub evaluate_sound :
      (n : ℕ) (path : List String) (p : Permission) (o : ObjectRef)
      → evaluate fixture subject_key n path p o ≡ true
      → derived n p o ≡ true
  unfolding derived evaluate
  evaluate_sound zero path p o h = cc
  evaluate_sound (suc n) path p o h =
      let (fresh, h') = evaluate-rules n path p o h in
      rules_mono Anything (evaluate fixture subject_key n (state_of fixture subject_key p o ∷ path))
        (derived n) p o (anything o)
        (λ q u _. evaluate_sound n (state_of fixture subject_key p o ∷ path) q u) h'
