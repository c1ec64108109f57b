-- ===== src/Qualification/Passes.antt =====
-- packages/qualification/src/runner.mjs: what a report that says `pass` stands for.
use eacl_demo.Base.{
  require-ok, ℕ, suc, ◌+◌, ◌≡◌, refl, sym, subst, ap, ◌∙◌, Bool, true, false, ◌==◌, ==_iff, str_eq,
  str_eq_iff, Bool-cases, Result-cases, Option-cases, inl, inr, String, List, [], ◌∷◌, length, All,
  Option, none, some, Result, ok, err, bind-eq-ok, require-eq-ok, ◌>>=◌, arith,
}
use eacl_demo.Qualification.Runner.{
  Thrown, Identity, Descriptor, Response, Case, Entry, Counts, Report, Finished, Applicability,
  supported, not_supported, no_counts, count, count_all, result_of, passed, failed, unsupported,
  run_case, run_cases, checked, attempt, same, assert_identity, assert_envelope, successful_data,
  release_of, validate_identity, run_qualification,
}

abbrev pub RunsFine : Result Thrown Finished → Type 0
RunsFine (err e) = ⊥
RunsFine (ok r) = Unit

abbrev pub AppliesFine : Result Thrown Applicability → Result Thrown Finished → Type 0
AppliesFine (err e) r = ⊥
AppliesFine (ok (not_supported reason)) r = Unit
AppliesFine (ok supported) r = RunsFine r

-- The case does not apply, or it ran and did not throw.
abbrev pub IsFine : Descriptor → Case → Type 0
IsFine d c = AppliesFine (c.applies d) (c.run d)

abbrev NotFailed : Entry → Type 0
NotFailed e = str_eq e.status "failed" ≡ false

fail_pass : ◌≡◌ {A = String} "fail" "pass" → ⊥
fail_pass e = let b = (str_eq_iff "fail" "pass").1 e in cc

count-failed :
    (c : Counts) (s : String)
    → (count c s).failed ≡ 0
    → (c.failed ≡ 0) × (str_eq s "failed" ≡ false)
unfolding count
count-failed c s h = elim (Bool-cases (str_eq s "passed")) [
  | inl p ↦
      let e = (str_eq_iff s "passed").0 p in
      let h' : (count c "passed").failed ≡ 0 = rw e at h in rw e (h', refl)
  | inr p ↦ elim (Bool-cases (str_eq s "failed")) [
    | inl f ↦ let h' : c.failed + 1 ≡ 0 = rw (p, f) at h in absurd (omega arith)
    | inr f ↦ elim (Bool-cases (str_eq s "unsupported")) [
      | inl u ↦ let h' : c.failed ≡ 0 = rw (p, f, u) at h in (h', f)
      | inr u ↦ let h' : c.failed ≡ 0 = rw (p, f, u) at h in (h', f)
    ]
  ]
]

count_all-failed :
    (c : Counts) (es : List Entry) → (count_all c es).failed ≡ 0 → All NotFailed es × (c.failed ≡ 0)
unfolding count_all
count_all-failed c [] h = (tt, h)
count_all-failed c (e ∷ es) h =
    let (rest, now) = count_all-failed (count c e.status) es h in
    let (before, this) = count-failed c e.status now in ((this, rest), before)

result_of-failed : (c : Counts) → result_of c ≡ "pass" → c.failed ≡ 0
result_of-failed c h = elim (Bool-cases (c.failed == 0)) [
  | inl e ↦ (==_iff c.failed 0).0 e
  | inr e ↦ let no : result_of c ≡ "fail" = rw e refl in absurd (fail_pass (sym no ∙ h))
]

same-eq : (a b : Option String) → same a b ≡ true → a ≡ b
same-eq none none h = refl
same-eq none (some t) h = cc
same-eq (some s) none h = cc
same-eq (some s) (some t) h = ap some ((str_eq_iff s t).0 h)

Identity-eq :
    (a b : Identity)
    → a.profile_id ≡ b.profile_id
    → a.demo_sha ≡ b.demo_sha
    → a.eacl_sha ≡ b.eacl_sha
    → a.artifact_sha256 ≡ b.artifact_sha256
    → a.deployment_id ≡ b.deployment_id
    → a.data_manifest_sha256 ≡ b.data_manifest_sha256
    → a ≡ b
Identity-eq a b p d e f g h = λ i. record {
  profile_id = p i;
  demo_sha = d i;
  eacl_sha = e i;
  artifact_sha256 = f i;
  deployment_id = g i;
  data_manifest_sha256 = h i;
}

assert_identity-eq :
    (actual : Option Identity) (expected : Identity) {u : Unit {0}}
    → assert_identity actual expected ≡ ok u
    → actual ≡ some expected
unfolding assert_identity validate_identity
assert_identity-eq none expected h = cc
assert_identity-eq (some a) x h =
    let (_, _, h1) = bind-eq-ok (validate_identity (some a)) _ h in
    let (p, h2) = require-eq-ok (same a.profile_id x.profile_id) _ _ h1 in
    let (d, h3) = require-eq-ok (same a.demo_sha x.demo_sha) _ _ h2 in
    let (e, h4) = require-eq-ok (same a.eacl_sha x.eacl_sha) _ _ h3 in
    let (f, h5) = require-eq-ok (same a.artifact_sha256 x.artifact_sha256) _ _ h4 in
    let (g, h6) = require-eq-ok (same a.deployment_id x.deployment_id) _ _ h5 in
    ap some (
      Identity-eq a x (same-eq _ _ p) (same-eq _ _ d) (same-eq _ _ e) (same-eq _ _ f)
        (same-eq _ _ g) (same-eq _ _ (require-ok _ _ h6)))

module _ (public_text : String → String) where
  run_case-RunsFine :
      (d : Descriptor) (c : Case) → NotFailed (run_case public_text d c) → RunsFine (c.run d)
  unfolding run_case failed
  run_case-RunsFine d c h = elim (Result-cases (c.run d)) [
    | inl (e, q) ↦ let no : true ≡ false = rw (q, run_case) at h in cc
    | inr (r, q) ↦ rw q tt
  ]

  run_cases-IsFine :
      (d : Descriptor) (cs : List Case)
      → All NotFailed (run_cases public_text d cs)
      → All (IsFine d) cs × (length (run_cases public_text d cs) ≡ length cs)
  unfolding run_cases failed
  run_cases-IsFine d [] h = (tt, refl)
  run_cases-IsFine d (c ∷ cs) h = elim (Result-cases (c.applies d)) [
    | inl (e, q) ↦ let no : (true ≡ false) × Unit {0} = rw q at h in cc
    | inr (not_supported reason, q) ↦
        let h' : NotFailed (unsupported public_text c.id c.category reason)
            × All NotFailed (run_cases public_text d cs) =
          rw q at h in
        let (fine, n) = run_cases-IsFine d cs (h'.1) in rw q ((tt, fine), ap suc n)
    | inr (supported, q) ↦
        let h' : NotFailed (run_case public_text d c) × All NotFailed (run_cases public_text d cs) =
          rw q at h in
        let (fine, n) = run_cases-IsFine d cs (h'.1) in
        rw q ((run_case-RunsFine d c (h'.0), fine), ap suc n)
  ]

  -- What a run of the cases shows that failed nowhere.
  abbrev pub Passed :
      Identity → (Descriptor → Result Thrown (List Case)) → Descriptor → List Entry → Type 0
  Passed expected cases d entries =
      (d.identity ≡ some expected)
      × ((selected : List Case) × (cases d ≡ ok selected)
          × All (IsFine d) selected
          × (length entries ≡ suc (length selected)))

  checked-Passed :
      (expected : Identity) (cases : Descriptor → Result Thrown (List Case)) (duration : ℕ)
      (d : Descriptor)
      → All NotFailed (checked public_text expected cases duration d)
      → Passed expected cases d (checked public_text expected cases duration d)
  unfolding checked failed passed
  checked-Passed expected cases duration d h =
      elim (Result-cases (assert_identity d.identity expected)) [
        | inl (e, q) ↦ let no : (true ≡ false) × Unit {0} = rw (q, All) at h in cc
        | inr (_, q) ↦ elim (Option-cases d.contract_revision) [
          | inl n ↦ let no : (true ≡ false) × Unit {0} = rw (q, n, All) at h in cc
          | inr (revision, n) ↦ elim (Result-cases (cases d)) [
            | inl (e, k) ↦
                let no : (false ≡ false) × ((true ≡ false) × Unit {0}) = rw (q, n, k, All) at h in
                cc
            | inr (selected, k) ↦
                let h' : (false ≡ false) × All NotFailed (run_cases public_text d selected) =
                  rw (q, n, k, All) at h in
                let (fine, size) = run_cases-IsFine d selected (h'.1) in
                (
                  assert_identity-eq d.identity expected q,
                  (selected, k, fine, rw (q, n, k, length) (ap suc size)),
                )
          ]
        ]
      ]

  attempt-Passed :
      (expected : Identity) (cases : Descriptor → Result Thrown (List Case)) (duration : ℕ)
      (bootstrap : Result Thrown Response)
      → All NotFailed ((attempt public_text expected cases duration bootstrap).0)
      → (d : Descriptor) × (bootstrap >>= assert_envelope >>= successful_data ≡ ok d)
        × Passed expected cases d ((attempt public_text expected cases duration bootstrap).0)
  unfolding attempt failed
  attempt-Passed expected cases duration bootstrap h =
      elim (Result-cases (bootstrap >>= assert_envelope >>= successful_data)) [
        | inl (e, q) ↦ let no : (true ≡ false) × Unit {0} = rw (q, attempt, All) at h in cc
        | inr (d, q) ↦
            let h' : All NotFailed (checked public_text expected cases duration d) =
              rw (q, attempt) at h in
            rw (q, attempt) (d, refl, checked-Passed expected cases duration d h')
      ]

  -- A report that says `pass`: the bootstrap's response is correlated and is a success, its identity is
  -- the expected one, the cases were selected for this descriptor, each of them either does not apply or
  -- ran without throwing, and the report has one entry for each and one for the bootstrap.
  pub run_qualification-passes :
      (expected : Identity) (created : Result Thrown (Option (Result Thrown Bool)))
      (cases : Descriptor → Result Thrown (List Case)) (duration : ℕ)
      (bootstrap : Result Thrown Response) (report : Report)
      → run_qualification public_text expected created cases duration bootstrap ≡ ok report
      → report.result ≡ "pass"
      → (d : Descriptor) × (bootstrap >>= assert_envelope >>= successful_data ≡ ok d)
        × Passed expected cases d report.cases
  unfolding run_qualification
  run_qualification-passes expected created cases duration bootstrap report e pass =
      let tried = attempt public_text expected cases duration bootstrap in
      let (_, _, step) = bind-eq-ok (validate_identity (some expected)) _ e in
      let (release, _, step') = bind-eq-ok created _ step in
      let (outcome, _, last) = bind-eq-ok (release_of public_text release) _ step' in
      let entries : tried.0 ≡ report.cases = cc in
      let result : result_of (count_all no_counts (tried.0)) ≡ report.result = cc in
      let none_failed = result_of-failed (count_all no_counts (tried.0)) (result ∙ pass) in
      let (d, got, passed) =
        attempt-Passed expected cases duration bootstrap
          (count_all-failed no_counts (tried.0) none_failed).0 in
      (d, got, subst (Passed expected cases d) entries passed)
