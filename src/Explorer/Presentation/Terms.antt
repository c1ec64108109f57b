-- ===== src/Explorer/Presentation/Terms.antt =====
-- packages/explorer-state/src/descriptor-presentation.mjs: each term of a descriptor is shown as itself.
use eacl_demo.Base.{
  ◌≡◌, refl, ap, Bool-cases, Option-cases, inl, inr, String, List, string_eq, Option, some, Result,
  ok, err, bind-eq-ok, OnOk-apply,
}
use eacl_demo.Explorer.Dictionaries.{
  operation_presentation, consistency_presentation, snapshot_presentation, cache_presentation,
  mutation_presentation, limitation_presentation,
}
use eacl_demo.Explorer.Presentation.{
  PresentationError, incomplete, project_term, project_terms, Capabilities, Runtime, Limits,
  normalize_limits, Descriptor, Presentation, list_of, controls_of, snap_start_text, label_of,
  first_id, present, project_descriptor_presentation,
}
use eacl_demo.Explorer.Presentation.Entries.{
  Shows, ShowsList, terms_of, project_term-Shows, project_terms-ShowsList,
}

-- A presentation says what the capabilities say, term by term, and no more.
pub record SaysTerms (c : Capabilities) (p : Presentation) : Type 0 where
  pub operations : ShowsList c.operations operation_presentation p.operations
  pub modes : ShowsList c.consistency_modes consistency_presentation p.modes
  pub snapshot : Shows c.snapshot_behavior snapshot_presentation p.snapshot
  pub cache : Shows c.cache_behavior cache_presentation p.cache
  pub mutation : Shows c.mutation_locality mutation_presentation p.mutation
  pub limitations : ShowsList c.limitations limitation_presentation p.limitations
  pub controls : p.controls ≡ controls_of (terms_of p.operations) p.modes
  pub default_mode : first_id p.modes ≡ ok p.default_mode

list_of-some : (o : Option (List String)) (ts : List String) → o ≡ some ts → list_of o ≡ ts
list_of-some o ts e = rw e refl

present-SaysTerms :
    (r : Runtime) (c : Capabilities) (limits : Limits) (p : Presentation)
    → present r c limits ≡ ok p
    → SaysTerms c p
unfolding present
present-SaysTerms r c limits p h =
    let (ops, e1, h1) =
      bind-eq-ok (project_terms c.operations operation_presentation "operation") _ h in
    let (modes, e2, h2) =
      bind-eq-ok (project_terms c.consistency_modes consistency_presentation "consistency mode") _
        h1 in
    let (snapshot, e3, h3) =
      bind-eq-ok (project_term c.snapshot_behavior snapshot_presentation "snapshot behavior") _
        h2 in
    let (cache, e4, h4) =
      bind-eq-ok (project_term c.cache_behavior cache_presentation "cache behavior") _ h3 in
    let (mutation, e5, h5) =
      bind-eq-ok (project_term c.mutation_locality mutation_presentation "mutation locality") _
        h4 in
    let (limitations, e6, h6) =
      bind-eq-ok (project_terms c.limitations limitation_presentation "limitation") _ h5 in
    let (default_mode, e7, h7) = bind-eq-ok (first_id modes) _ h6 in
    let (bounds, e8, h8) = bind-eq-ok (normalize_limits limits) _ h7 in
    let operations =
      project_terms-ShowsList c.operations operation_presentation "operation" ops refl e1 in
    let is_p : Presentation = record {
      label = label_of r;
      snap_start = snap_start_text r.snap_start;
      operations = ops;
      controls = controls_of (list_of c.operations) modes;
      default_mode = default_mode;
      modes = modes;
      snapshot = snapshot;
      cache = cache;
      mutation = mutation;
      limitations = limitations;
      limits = bounds;
    } in
    OnOk-apply (SaysTerms c) (ok is_p) p
      (record {
        operations = operations;
        modes =
            project_terms-ShowsList c.consistency_modes consistency_presentation "consistency mode"
              modes refl e2;
        snapshot =
            project_term-Shows c.snapshot_behavior snapshot_presentation "snapshot behavior"
              snapshot refl e3;
        cache =
            project_term-Shows c.cache_behavior cache_presentation "cache behavior" cache refl e4;
        mutation =
            project_term-Shows c.mutation_locality mutation_presentation "mutation locality"
              mutation refl e5;
        limitations =
            project_terms-ShowsList c.limitations limitation_presentation "limitation" limitations
              refl e6;
        controls =
            ap (λ ts. controls_of ts modes) (list_of-some c.operations (terms_of ops) operations.0);
        default_mode = e7;
      })
      h8

abbrev Failed : Presentation → Type 0
Failed p = ◌≡◌ {A = Result PresentationError Presentation} (err incomplete) (ok p)

-- A descriptor that is presented has its capabilities shown term by term, in its order and nothing else.
-- A term is shown as the notice that the dictionary has under it, whose id it is, or else, where the
-- dictionary has none, as the member of that name which every object inherits; any other term is refused.
-- The controls are those of the operations shown, and the default mode is the id of the first mode.
pub project_descriptor_presentation-SaysTerms :
    (d : Descriptor) (p : Presentation)
    → project_descriptor_presentation d ≡ ok p
    → (c : Capabilities) × (d.capabilities ≡ some c) × SaysTerms c p
unfolding project_descriptor_presentation
project_descriptor_presentation-SaysTerms d p h = elim (Option-cases d.runtime) [
  | inl n ↦ let no : Failed p = rw (n, project_descriptor_presentation) at h in cc
  | inr (r, n) ↦ elim (Option-cases d.capabilities) [
    | inl m ↦ let no : Failed p = rw (n, m, project_descriptor_presentation) at h in cc
    | inr (c, m) ↦ elim (Bool-cases d.has_facts) [
      | inl b ↦ (
        c,
        m,
        present-SaysTerms r c d.limits p (rw (n, m, b, project_descriptor_presentation) at h),
      )
      | inr b ↦ let no : Failed p = rw (n, m, b, project_descriptor_presentation) at h in cc
    ]
  ]
]
