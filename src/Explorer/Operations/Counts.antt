-- ===== src/Explorer/Operations/Counts.antt =====
-- packages/explorer-state/src/explorer-operations.mjs: bounded counts and their ceilings.
use eacl_demo.Base.{
  ℕ, ◌≤◌, ◌<◌, ◌≡◌, ◌⊎◌, refl, Bool, true, false, not, ◌&&◌, ◌||◌, ◌==◌, ==_iff, leb, ltb, leb→le,
  ltb→lt, if_holds, elim_holds, require_holds, str_eq, str_eq_iff, inl, inr, String, List, [], ◌∷◌,
  Option, none, some, ok, OnOk, OnOk-apply, arith,
}
use eacl_demo.Explorer.Operations.{
  bad_exact, Count, RawCount, is_number, max_count, count_steps, find_step, next_count_ceiling,
  validate_count, DescriptorLimits, descriptor_limit, count_ceiling,
}

both : (a b : Bool) → (a && b) ≡ true → (a ≡ true) × (b ≡ true)
both a b h = ground arith

find_step_lem :
    (before maximum : ℕ) (steps : List ℕ)
    → (find_step before maximum steps ≡ none)
      ⊎ ((n : ℕ) × (find_step before maximum steps ≡ some n) × (before < n) × (n ≤ maximum))
unfolding find_step
find_step_lem before maximum [] = inl refl
find_step_lem before maximum (step ∷ steps) =
    if_holds Found (ltb before step && leb step maximum)
      (λ h. inr (
        step,
        refl,
        ltb→lt _ _ ((both (ltb before step) (leb step maximum) h).0),
        leb→le _ _ ((both (ltb before step) (leb step maximum) h).1),
      ))
      (λ _. find_step_lem before maximum steps)
  where
    Found : Option ℕ → Type 0
    Found o = (o ≡ none) ⊎ ((n : ℕ) × (o ≡ some n) × (before < n) × (n ≤ maximum))

abbrev IsBounded : String → ℕ → Count → Type 0
IsBounded kind ceiling c =
    (c.kind ≡ kind)
    × (c.value ≤ ceiling)
    × ((c.exact ≡ true) ⊎ (c.value ≡ ceiling))
    × (c.ceiling ≡ ceiling)

exact_or_full :
    (exact same : Bool) (n ceiling : ℕ)
    → (exact || (same && n == ceiling)) ≡ true
    → (exact ≡ true) ⊎ (n ≡ ceiling)
exact_or_full true same n ceiling h = inl refl
exact_or_full false same n ceiling h = inr ((==_iff n ceiling).0 ((both same (n == ceiling) h).1))

validate_count-OnOk :
    (raw : RawCount) (kind : String) (ceiling : ℕ)
    → OnOk (IsBounded kind ceiling) (validate_count raw kind ceiling)
unfolding validate_count
validate_count-OnOk raw kind ceiling = elim_holds (OnOk (IsBounded kind ceiling)) raw.value tt (λ n.
    elim_holds (OnOk (IsBounded kind ceiling)) raw.exact tt (λ exact.
      require_holds (IsBounded kind ceiling) (str_eq raw.kind kind && leb n ceiling) _ _ (λ fits.
        require_holds (IsBounded kind ceiling)
          (exact || (is_number raw.ceiling ceiling && n == ceiling)) _ _
          (λ full.
            require_holds (IsBounded kind ceiling)
              (not exact || (elim raw.ceiling [ none ↦ true | some c ↦ c == ceiling ])) bad_exact
              (ok (record { kind = raw.kind; value = n; exact = exact; ceiling = ceiling }))
              (λ _. (
                (str_eq_iff raw.kind kind).0 ((both (str_eq raw.kind kind) (leb n ceiling) fits).0),
                leb→le n ceiling ((both (str_eq raw.kind kind) (leb n ceiling) fits).1),
                exact_or_full exact (is_number raw.ceiling ceiling) n ceiling full,
                refl,
              ))))))

validate_count-Bounded :
    (raw : RawCount) (kind : String) (ceiling : ℕ) (c : Count)
    → validate_count raw kind ceiling ≡ ok c
    → IsBounded kind ceiling c
validate_count-Bounded raw kind ceiling c h =
    OnOk-apply (IsBounded kind ceiling) (validate_count raw kind ceiling) c
      (validate_count-OnOk raw kind ceiling) h

-- Escalating a count raises its ceiling, up to the maximum that the profile allows, and never beyond.
pub next_count_ceiling-lt :
    (before maximum : ℕ)
    → before < maximum
    → (before < next_count_ceiling before maximum) × (next_count_ceiling before maximum ≤ maximum)
unfolding next_count_ceiling
next_count_ceiling-lt before maximum h = elim (find_step_lem before maximum count_steps) [
  | inl e ↦ rw e (h, omega arith)
  | inr (n, e, low, high) ↦ rw e (low, high)
]

-- A count that passes its validation is of the kind that was asked for, and within the ceiling it was
-- asked with; unless it is exact, it is equal to that ceiling. If it is escalated and its ceiling lies
-- below the maximum of the profile, the next ceiling lies above the value counted and within that
-- maximum.
pub validate_count-escalates :
    (raw : RawCount) (kind : String) (ceiling : ℕ) (limits : DescriptorLimits) (c : Count)
    → validate_count raw kind ceiling ≡ ok c
    → ceiling < descriptor_limit "count-ceiling" "countCeiling" max_count limits
    → (c.kind ≡ kind)
      × (c.value ≤ ceiling)
      × ((c.exact ≡ true) ⊎ (c.value ≡ ceiling))
      × (c.value < count_ceiling true (some c) limits)
      × (count_ceiling true (some c) limits
          ≤ descriptor_limit "count-ceiling" "countCeiling" max_count limits)
unfolding count_ceiling
validate_count-escalates raw kind ceiling limits c h below =
    let (same, within, exact, asked) = validate_count-Bounded raw kind ceiling c h in
    let (more, fits) =
      next_count_ceiling-lt c.ceiling
        (descriptor_limit "count-ceiling" "countCeiling" max_count limits) (omega arith) in
    (same, within, exact, omega arith, fits)
