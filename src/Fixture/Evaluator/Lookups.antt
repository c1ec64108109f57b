-- ===== src/Fixture/Evaluator/Lookups.antt =====
-- packages/fixture-generator/exemplar-evaluator.mjs: the lookups, which filter and sort. `locale` is the
-- order of `localeCompare` on texts.
use eacl_demo.Base.{
  ◌≡◌, ◌↔◌, ◌⊎◌, refl, Bool, true, false, ◌&&◌, str_eq, str_eq_iff, if◌then◌else◌, Bool-cases, inl,
  inr, String, List, [], ◌∷◌, includes, string_eq, Option, none, some, arith,
}
use eacl_demo.Json.Order.{Comparison, before, same}
use eacl_demo.Fixture.Records.{ObjectRef}
use eacl_demo.Fixture.Evaluator.{object_key, related, LogicalFixture, check_permission}

pub record Relationship : Type 0 where
  pub resource : ObjectRef
  pub relation : String
  pub subject : ObjectRef

unfoldable pub has_relationship : LogicalFixture → Relationship → Bool
unfolding object_key related
has_relationship fixture r = includes (related fixture r.resource r.relation) (object_key r.subject)

pub record RelationshipFilter : Type 0 where
  pub relation : String
  pub subject : ObjectRef

pub record ResourceQuery : Type 0 where
  pub subject : ObjectRef
  pub permission : String
  pub resource_type : String
  pub relationship_filter : Option RelationshipFilter

pub record SubjectQuery : Type 0 where
  pub resource : ObjectRef
  pub permission : String
  pub subject_type : String

abbrev pub passes_filter : LogicalFixture → Option RelationshipFilter → ObjectRef → Bool
passes_filter fixture none resource = true
passes_filter fixture (some f) resource =
    has_relationship fixture
      (record { resource = resource; relation = f.relation; subject = f.subject })

abbrev pub keep : (ObjectRef → Bool) → List ObjectRef → List ObjectRef
keep test [] = []
keep test (o ∷ os) = if test o then o ∷ keep test os else keep test os

unfoldable pub is_found : LogicalFixture → ResourceQuery → ObjectRef → Bool
unfolding has_relationship check_permission
is_found fixture query resource =
    str_eq resource.type query.resource_type
    && passes_filter fixture query.relationship_filter resource
    && check_permission fixture query.subject query.permission resource

module _ (locale : String → String → Comparison) where
  abbrev pub or_then : Comparison → Comparison → Comparison
  or_then same next = next
  or_then first next = first

  unfoldable pub compare_objects : ObjectRef → ObjectRef → Comparison
  compare_objects left right = or_then (locale left.type right.type) (locale left.id right.id)

  abbrev pub is_before : Comparison → Bool
  is_before before = true
  is_before order = false

  pub insert_object : ObjectRef → List ObjectRef → List ObjectRef
  insert_object o [] = o ∷ []
  insert_object o (u ∷ us) =
      let rest = insert_object o us in
      if is_before (compare_objects u o) then u ∷ rest else o ∷ u ∷ us

  unfoldable pub sort_objects : List ObjectRef → List ObjectRef
  unfolding insert_object compare_objects
  sort_objects [] = []
  sort_objects (o ∷ os) = insert_object o (sort_objects os)

  unfoldable pub lookup_resources : LogicalFixture → ResourceQuery → List ObjectRef
  unfolding is_found sort_objects
  lookup_resources fixture query = sort_objects (keep (is_found fixture query) fixture.resources)

  unfoldable pub lookup_subjects : LogicalFixture → SubjectQuery → List ObjectRef
  unfolding check_permission sort_objects
  lookup_subjects fixture query = sort_objects (
      keep (λ s. check_permission fixture s query.permission query.resource)
        (keep (λ s. str_eq s.type query.subject_type) fixture.subjects))

abbrev pub Member : ObjectRef → List ObjectRef → Type 0
Member o [] = ⊥
Member o (u ∷ us) = (u ≡ o) ⊎ Member o us

swap_first :
    (o u v : ObjectRef) (vs : List ObjectRef) → Member o (v ∷ u ∷ vs) → Member o (u ∷ v ∷ vs)
swap_first o u v vs (inl e) = inr (inl e)
swap_first o u v vs (inr (inl e)) = inl e
swap_first o u v vs (inr (inr m)) = inr (inr m)

all_three : (a b c : Bool) → a && b && c ≡ true → (a ≡ true) × (b ≡ true) × (c ≡ true)
all_three a b c h = ground arith

keep_here :
    (test : ObjectRef → Bool) (o u : ObjectRef) (us : List ObjectRef)
    → test u ≡ true
    → (Member o (keep test us) → Member o us × (test o ≡ true))
    → Member o (u ∷ keep test us)
    → Member o (u ∷ us) × (test o ≡ true)
keep_here test o u us t ih (inl e) = (inl e, rw (← e) t)
keep_here test o u us t ih (inr m) = let (m', t') = ih m in (inr m', t')

keep_there :
    (o u : ObjectRef) (kept us : List ObjectRef)
    → (Member o us → Member o kept)
    → Member o (u ∷ us)
    → Member o (u ∷ kept)
keep_there o u kept us ih (inl e) = inl e
keep_there o u kept us ih (inr m) = inr (ih m)

not_here :
    (test : ObjectRef → Bool) (o u : ObjectRef) (us : List ObjectRef)
    → test u ≡ false
    → Member o (u ∷ us)
    → test o ≡ true
    → Member o us
not_here test o u us f (inl e) t = let f' : test o ≡ false = rw (← e) f in cc
not_here test o u us f (inr m) t = m

keep-Member :
    (test : ObjectRef → Bool) (o : ObjectRef) (os : List ObjectRef)
    → Member o (keep test os) ↔ (Member o os × (test o ≡ true))
keep-Member test o [] = (λ m. absurd m, λ m. absurd (m.0))
keep-Member test o (u ∷ us) =
    let ih = keep-Member test o us in
    elim (Bool-cases (test u)) [
      | inl t ↦ (
        λ m. keep_here test o u us t (ih.0) (rw t at m),
        λ m. rw t (keep_there o u (keep test us) us (λ m'. ih.1 (m', m.1)) (m.0)),
      )
      | inr f ↦ (
        λ m. let (m', t) = ih.0 (rw f at m) in (inr m', t),
        λ m. rw f (ih.1 (not_here test o u us f (m.0) (m.1), m.1)),
      )
    ]

module _ (locale : String → String → Comparison) where
  insert_object-Member :
      (o u : ObjectRef) (us : List ObjectRef)
      → Member o (insert_object locale u us) ↔ Member o (u ∷ us)
  unfolding insert_object
  insert_object-Member o u [] = (λ m. m, λ m. m)
  insert_object-Member o u (v ∷ vs) =
      let ih = insert_object-Member o u vs in
      elim (Bool-cases (is_before locale (compare_objects locale v u))) [
        | inl b ↦ (
          λ m.
              swap_first o u v vs
                (keep_there o v (u ∷ vs) (insert_object locale u vs) (ih.0) (rw b at m)),
          λ m.
              rw b (
                keep_there o v (insert_object locale u vs) (u ∷ vs) (ih.1) (swap_first o v u vs m)),
        )
        | inr b ↦ (λ m. rw b at m, λ m. rw b m)
      ]

  sort_objects-Member :
      (o : ObjectRef) (os : List ObjectRef) → Member o (sort_objects locale os) ↔ Member o os
  unfolding sort_objects
  sort_objects-Member o [] = (λ m. m, λ m. m)
  sort_objects-Member o (u ∷ us) =
      let ih = sort_objects-Member o us in
      let step = insert_object-Member o u (sort_objects locale us) in
      (
        λ m. keep_there o u us (sort_objects locale us) (ih.0) (step.0 m),
        λ m. step.1 (keep_there o u (sort_objects locale us) us (ih.1) m),
      )

  -- The lookup of resources lists exactly the resources of the fixture that have the type asked for,
  -- satisfy the relationship asked for, if any, and that the check allows the subject.
  pub lookup_resources_iff :
      (fixture : LogicalFixture) (query : ResourceQuery) (o : ObjectRef)
      → Member o (lookup_resources locale fixture query) ↔ (
          Member o fixture.resources
          × (o.type ≡ query.resource_type)
          × (passes_filter fixture query.relationship_filter o ≡ true)
          × (check_permission fixture query.subject query.permission o ≡ true))
  unfolding lookup_resources is_found
  lookup_resources_iff fixture query o =
      let sorted = sort_objects-Member o (keep (is_found fixture query) fixture.resources) in
      let kept = keep-Member (is_found fixture query) o fixture.resources in
      (
        λ m.
            let (inside, found) = kept.0 (sorted.0 m) in
            let (t, f, c) = all_three _ _ _ found in
            (inside, (str_eq_iff o.type query.resource_type).0 t, f, c),
        λ m.
            let (inside, t, f, c) = m in
            sorted.1 (kept.1 (inside, rw ((str_eq_iff o.type query.resource_type).1 t, f, c) refl)),
      )
