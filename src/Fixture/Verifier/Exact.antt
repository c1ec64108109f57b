-- ===== src/Fixture/Verifier/Exact.antt =====
-- packages/fixture-generator/verifier.mjs: what a fixture that passes consists of.
use mathlib.Core.List.{append_assoc, append-nil}
use eacl_demo.Base.{
  ℕ, ◌+◌, ◌≡◌, refl, sym, ap, ◌∙◌, true, ◌&&◌, ◌==◌, ==_iff, str_eq, str_eq_iff, Option-cases, inl,
  inr, String, List, [], ◌∷◌, ◌++◌, length, map, string_eq, Option, none, some, Result, ok, err,
  OnOk-apply, require-eq-ok, bind-eq-ok,
}
use eacl_demo.Json.{Json}
use eacl_demo.Fixture.Manifest.{Context, cut_points}
use eacl_demo.Fixture.Verifier.{
  VerificationError, ManifestFile, listed, canonical_line, is_framed, Reading, invalid_json,
  tail_of, digest, validate_manifest_identity, introduce, verify_against, next_line, verify_line,
  verify_lines, expected_lines, is_done, Verified, finish_verification, opened, verify_stream,
  verify_fixture_lines,
}

module _ (hash : List String → String) (parse : String → Option Json)
    (shown : Option Json → String) where
  -- A step took a line that is the next of the expected ones.
  abbrev Took : String → Reading → Reading → Type 0
  Took line s s' = (s.expected ≡ line ∷ s'.expected) × (s'.fed ≡ s.fed ++ line ∷ [])

  verify_against-Took :
      (cut : ℕ) (context : Context) (line wanted : String) (rest : List String) (s s' : Reading)
      → s.expected ≡ wanted ∷ rest
      → verify_against hash parse shown cut context line wanted rest s ≡ ok s'
      → Took line s s'
  unfolding verify_against
  verify_against-Took cut context line wanted rest s s' e h = elim (Option-cases (parse line)) [
    | inl n ↦
        let no : ◌≡◌ {A = Result VerificationError Reading} (err invalid_json) (ok s') =
          rw (n, verify_against) at h in
        cc
    | inr (r, n) ↦
        let (canonical, _, h1) = bind-eq-ok (canonical_line r) _ (rw (n, verify_against) at h) in
        let (_, h2) = require-eq-ok (str_eq canonical line) _ _ h1 in
        let (introduced, _, h3) =
          bind-eq-ok (introduce hash parse shown s.fed r cut context s.introduced) _ h2 in
        let (same, h4) = require-eq-ok (str_eq line wanted) _ _ h3 in
        let same' : line ≡ wanted = (str_eq_iff line wanted).0 same in
        OnOk-apply (Took line s)
          (ok (record {
            expected = rest;
            introduced = introduced;
            previous = some line;
            fed = s.fed ++ line ∷ [];
          }))
          s' (e ∙ ap (λ w. w ∷ rest) (sym same'), refl) h4
  ]

  next_line-Took :
      (cut : ℕ) (context : Context) (line : String) (expected : List String) (s s' : Reading)
      → s.expected ≡ expected
      → next_line hash parse shown cut context line expected s ≡ ok s'
      → Took line s s'
  next_line-Took cut context line [] s s' e h = cc
  next_line-Took cut context line (wanted ∷ rest) s s' e h =
      verify_against-Took cut context line wanted rest s s' e h

  verify_lines-Took :
      (cut : ℕ) (context : Context) (raw : List (Option String)) (s s' : Reading)
      → verify_lines hash parse shown cut context raw s ≡ ok s'
      → (taken : List String) × (raw ≡ map some taken)
        × (s.expected ≡ taken ++ s'.expected)
        × (s'.fed ≡ s.fed ++ taken)
  unfolding verify_lines verify_line
  verify_lines-Took cut context [] s s' h =
      OnOk-apply
        (λ (t : Reading).
          (taken : List String) × ([] ≡ map some taken)
          × (s.expected ≡ taken ++ t.expected)
          × (t.fed ≡ s.fed ++ taken))
        (ok s) s' ([], refl, refl, sym (append-nil s.fed)) h
  verify_lines-Took cut context (none ∷ raw) s s' h = cc
  verify_lines-Took cut context (some line ∷ raw) s s' h =
      let (t, step, h') = bind-eq-ok (verify_line hash parse shown cut context (some line) s) _ h in
      let (_, step') = require-eq-ok (is_framed line) _ _ step in
      let (now, fed) = next_line-Took cut context line s.expected s t refl step' in
      let (taken, e, later, fed') = verify_lines-Took cut context raw t s' h' in
      (
        line ∷ taken,
        ap (some line ∷◌) e,
        now ∙ ap (line ∷◌) later,
        fed' ∙ ap (λ x. x ++ taken) fed ∙ append_assoc s.fed (line ∷ []) taken,
      )

  -- The lines are the expected ones, and the manifest describes them.
  abbrev pub IsExact : List String → List (Option String) → ManifestFile → Type 0
  IsExact expected raw m =
      (raw ≡ map some expected)
      × (digest hash parse shown expected ≡ m.fixture_digest)
      × (digest hash parse shown (tail_of expected) ≡ m.semantic_digest)
      × (length expected ≡ m.records_total + 1)

  done-nil : (expected : List String) → is_done hash parse shown expected ≡ true → expected ≡ []
  done-nil [] h = refl
  done-nil (s ∷ ss) h = cc

  -- Whatever the generator is to yield: lines that pass the loop and the tests behind it are, one for
  -- one, the expected ones, none missing and none left over; the manifest's two digests are those of
  -- these lines, with and without the first, and its total is the number of the lines without the first.
  pub verify_stream-IsExact :
      (expected : List String) (raw : List (Option String)) (m : ManifestFile) (context : Context)
      (v : Verified)
      → verify_stream hash parse shown expected raw m context ≡ ok v
      → IsExact expected raw m
  unfolding verify_stream finish_verification
  verify_stream-IsExact expected raw m context v h =
      let (s, looped, h3) =
        bind-eq-ok
          (verify_lines hash parse shown m.cut_point context raw (opened hash parse shown expected))
          _ h in
      let (done, h4) = require-eq-ok (is_done hash parse shown s.expected) _ _ h3 in
      let (whole, h5) =
        require-eq-ok (str_eq (digest hash parse shown s.fed) m.fixture_digest) _ _ h4 in
      let (semantic, h6) =
        require-eq-ok (str_eq (digest hash parse shown (tail_of s.fed)) m.semantic_digest) _ _ h5 in
      let (counted, _) = require-eq-ok (length s.fed == m.records_total + 1) _ _ h6 in
      let (taken, r, all_taken, fed) =
        verify_lines-Took m.cut_point context raw (opened hash parse shown expected) s looped in
      let rest : s.expected ≡ [] = done-nil s.expected done in
      let same : taken ≡ expected =
        sym (append-nil taken) ∙ ap (λ x. taken ++ x) (sym rest) ∙ sym all_taken in
      let fed' : s.fed ≡ expected = fed ∙ same in
      (
        r ∙ ap (map some) same,
        ap (digest hash parse shown) (sym fed')
            ∙ (str_eq_iff (digest hash parse shown s.fed) m.fixture_digest).0 whole,
        ap (λ x. digest hash parse shown (tail_of x)) (sym fed')
            ∙ (str_eq_iff (digest hash parse shown (tail_of s.fed)) m.semantic_digest).0 semantic,
        ap length (sym fed') ∙ (==_iff (length s.fed) (m.records_total + 1)).0 counted,
      )

  -- The same of the generator's lines, for a listed cut point.
  verify_fixture_lines-IsExact :
      (raw : List (Option String)) (m : ManifestFile) (context : Context) (v : Verified)
      → verify_fixture_lines hash parse shown raw m context ≡ ok v
      → (expected : List String) × (listed m.cut_point cut_points ≡ true)
        × (expected_lines hash parse shown m.cut_point context ≡ ok expected)
        × IsExact expected raw m
  unfolding verify_fixture_lines validate_manifest_identity
  verify_fixture_lines-IsExact raw m context v h =
      let (_, checks, h1) =
        bind-eq-ok (validate_manifest_identity hash parse shown m context) _ h in
      let (_, c1) =
        require-eq-ok (m.schema_version == 1 && str_eq m.fixture_id "eacl-demo-fixture-v1") _ _
          checks in
      let (in_list, _) = require-eq-ok (listed m.cut_point cut_points) _ _ c1 in
      let (expected, wanted, h2) =
        bind-eq-ok (expected_lines hash parse shown m.cut_point context) _ h1 in
      (expected, in_list, wanted, verify_stream-IsExact expected raw m context v h2)
