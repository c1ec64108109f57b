-- ===== src/Qualification/Reports.antt =====
-- packages/qualification/src/reports.mjs: what a report is checked for before it is rendered. The
-- rendering itself, and the redaction, are not modelled.
use eacl_demo.Base.{
  ℕ, ◌≡◌, refl, Bool, true, false, ◌&&◌, ◌==◌, ==_iff, str_eq, String, List, [], ◌∷◌, All, includes,
  string_eq, Option, none, some, Result, ok, err, OnOk-apply, Result-cases, Option-cases, inl, inr,
  if_holds, bind-eq-ok, str_eq_iff, ◌>>=◌, ◌>>◌, require,
}
use eacl_demo.Qualification.Runner.{
  Thrown, plain, assert_envelope, successful_data, Identity, Descriptor, Response, Case, Entry,
  Counts, Report, says_unsupported, finished, supported, not_supported, no_counts, count, count_all,
  result_of, passed, failed, unsupported, run_case, run_cases, checked, attempt, assert_identity,
  release_of, validate_identity, run_qualification,
}

pub data ReportError : Type 0 where
  bad_report bad_status bad_counts bad_result bad_workload bad_phase : ReportError

abbrev pub statuses : List String
statuses = "passed" ∷ "failed" ∷ "unsupported" ∷ []

abbrev pub results : List String
results = "pass" ∷ "fail" ∷ []

-- The `reduce` over the cases, which throws at a status that is not one of three.
unfoldable pub count_cases : Counts → List Entry → Result ReportError Counts
unfolding count
count_cases c [] = ok c
count_cases c (e ∷ es) = do
  require (includes statuses e.status) bad_status
  count_cases (count c e.status) es

unfoldable pub validate_qualification : Report → Result ReportError (Unit {0})
unfolding count_cases
validate_qualification r = do
  require (str_eq r.schema "eacl-demo.qualification-report.v1" && includes results r.result)
      bad_report
  actual ← count_cases no_counts r.cases
  require
      (r.counts.passed == actual.passed
        && r.counts.failed == actual.failed
        && r.counts.unsupported == actual.unsupported)
      bad_counts
  require (str_eq (result_of actual) r.result) bad_result

-- A workload report, with the statuses of its phases.
pub record Workload : Type 0 where
  pub schema : String
  pub profile_id : Option String
  pub phases : List String
  pub result : String

pub phases_valid : List String → Result ReportError (Unit {0})
phases_valid [] = ok tt
phases_valid (s ∷ ss) = do require (includes statuses s) bad_phase; phases_valid ss

abbrev pub is_profile : Option String → String → Bool
is_profile none id = false
is_profile (some p) id = str_eq p id

unfoldable pub validate_workload : Workload → String → Result ReportError (Unit {0})
unfolding phases_valid
validate_workload w profile_id = do
  require
      (str_eq w.schema "eacl-demo.qualification-workload.v1"
        && is_profile w.profile_id profile_id
        && includes results w.result)
      bad_workload
  phases_valid w.phases

abbrev IsStatus : Entry → Type 0
IsStatus e = includes statuses e.status ≡ true

count_cases-eq :
    (c : Counts) (es : List Entry) → All IsStatus es → count_cases c es ≡ ok (count_all c es)
unfolding count_cases count_all
count_cases-eq c [] h = refl
count_cases-eq c (e ∷ es) h = rw (h.0) (count_cases-eq (count c e.status) es h.1)

module _ (public_text : String → String) where
  run_case-IsStatus : (d : Descriptor) (c : Case) → IsStatus (run_case public_text d c)
  unfolding run_case passed failed unsupported
  run_case-IsStatus d c =
      elim (c.run d)
        as (λ o. IsStatus (elim o [
          | err e ↦ failed public_text c.id c.category (c.duration d) e
          | ok (says_unsupported reason) ↦ unsupported public_text c.id c.category reason
          | ok (finished details) ↦ passed public_text c.id c.category (c.duration d) details
        ])) [ err e ↦ refl | ok (says_unsupported reason) ↦ refl | ok (finished details) ↦ refl ]

  unsupported-IsStatus :
      (id category : String) (reason : Option String)
      → IsStatus (unsupported public_text id category reason)
  unfolding unsupported
  unsupported-IsStatus id category reason = refl

  failed-IsStatus :
      (id category : String) (duration : ℕ) (e : Thrown)
      → IsStatus (failed public_text id category duration e)
  unfolding failed
  failed-IsStatus id category duration e = refl

  run_cases-IsStatus : (d : Descriptor) (cs : List Case) → All IsStatus (run_cases public_text d cs)
  unfolding run_cases
  run_cases-IsStatus d [] = tt
  run_cases-IsStatus d (c ∷ cs) = elim (Result-cases (c.applies d)) [
    | inl (e, q) ↦ rw q (failed-IsStatus "qualification-runner" "harness" 0 e, tt)
    | inr (not_supported reason, q) ↦
        rw q (unsupported-IsStatus c.id c.category reason, run_cases-IsStatus d cs)
    | inr (supported, q) ↦ rw q (run_case-IsStatus d c, run_cases-IsStatus d cs)
  ]

  checked-IsStatus :
      (expected : Identity) (cases : Descriptor → Result Thrown (List Case)) (duration : ℕ)
      (d : Descriptor)
      → All IsStatus (checked public_text expected cases duration d)
  unfolding checked passed
  checked-IsStatus expected cases duration d =
      elim (Result-cases (assert_identity d.identity expected)) [
        | inl (e, q) ↦ rw (q, All) (failed-IsStatus "bootstrap-identity" "identity" 0 e, tt)
        | inr (_, q) ↦ elim (Option-cases d.contract_revision) [
          | inl n ↦
              rw (q, n, All)
                (failed-IsStatus "bootstrap-identity" "identity" 0 (plain "TypeError"), tt)
          | inr (revision, n) ↦ elim (Result-cases (cases d)) [
            | inl (e, k) ↦
                rw (q, n, k, All) (refl, (failed-IsStatus "qualification-runner" "harness" 0 e, tt))
            | inr (selected, k) ↦ rw (q, n, k, All) (refl, run_cases-IsStatus d selected)
          ]
        ]
      ]

  attempt-IsStatus :
      (expected : Identity) (cases : Descriptor → Result Thrown (List Case)) (duration : ℕ)
      (bootstrap : Result Thrown Response)
      → All IsStatus ((attempt public_text expected cases duration bootstrap).0)
  unfolding attempt
  attempt-IsStatus expected cases duration bootstrap =
      elim (Result-cases (bootstrap >>= assert_envelope >>= successful_data)) [
        | inl (e, q) ↦
            rw (q, All, attempt) (failed-IsStatus "bootstrap-identity" "identity" 0 e, tt)
        | inr (d, q) ↦ rw (q, All, attempt) (checked-IsStatus expected cases duration d)
      ]

  result_of-IsResult : (c : Counts) → includes results (result_of c) ≡ true
  result_of-IsResult c =
      if_holds (λ r. includes results r ≡ true) (c.failed == 0) (λ _. refl) (λ _. refl)

  valid_lem :
      (r : Report)
      → r.schema ≡ "eacl-demo.qualification-report.v1"
      → r.counts ≡ count_all no_counts r.cases
      → r.result ≡ result_of r.counts
      → All IsStatus r.cases
      → validate_qualification r ≡ ok tt
  unfolding validate_qualification
  valid_lem r schema counts result statuses =
      let c : Counts = count_all no_counts r.cases in
      let p = (==_iff c.passed c.passed).1 refl in
      let f = (==_iff c.failed c.failed).1 refl in
      let u = (==_iff c.unsupported c.unsupported).1 refl in
      let s = (str_eq_iff (result_of c) (result_of c)).1 refl in
      let known = result_of-IsResult c in
      rw (schema, result, counts, known, count_cases-eq no_counts r.cases statuses, p, f, u, s) refl

  -- Whatever the transport and the cases answer: a run that reports, reports what the renderer's
  -- validation accepts.
  pub run_qualification-validates :
      (expected : Identity) (created : Result Thrown (Option (Result Thrown Bool)))
      (cases : Descriptor → Result Thrown (List Case)) (duration : ℕ)
      (bootstrap : Result Thrown Response) (report : Report)
      → run_qualification public_text expected created cases duration bootstrap ≡ ok report
      → validate_qualification report ≡ ok tt
  unfolding run_qualification
  run_qualification-validates expected created cases duration bootstrap report e =
      let (_, _, step) = bind-eq-ok (validate_identity (some expected)) _ e in
      let (release, _, step') = bind-eq-ok created _ step in
      let (outcome, _, last) = bind-eq-ok (release_of public_text release) _ step' in
      OnOk-apply (λ r. validate_qualification r ≡ ok tt) (ok _) report
        (valid_lem _ refl refl refl (attempt-IsStatus expected cases duration bootstrap)) last
