-- ===== src/Fixture/Seeding/Resume.antt =====
-- A run of the seeding that was interrupted is completed by a run from its checkpoint: no batch is
-- lost, and none is applied twice.
use mathlib.Core.List.{append_assoc}
use eacl_demo.Base.{
  ℕ, suc, ◌+◌, ◌≤◌, ◌≡◌, refl, sym, ◌∙◌, ap, true, false, ltb, List, [], ◌∷◌, ◌++◌, none, arith,
  Bool-cases, inl, inr, ltb-eq-false, lt→ltb,
}
use eacl_demo.Fixture.Batches.{FinishedBatch}
use eacl_demo.Fixture.Seeding.{Environment, SeedRun, SeedError, seed_loop, stop, apply_first}

-- The batches take the ordinals from `first` up to `last`, with no gap.
abbrev pub Contiguous : ℕ → ℕ → List FinishedBatch → Type 0
Contiguous first last [] = first ≡ last
Contiguous first last (b ∷ bs) =
    (b.first_resource_ordinal ≡ first)
    × (first ≤ b.last_resource_ordinal)
    × Contiguous (b.last_resource_ordinal + 1) last bs

pub Contiguous-le :
    (first last : ℕ) (bs : List FinishedBatch) → Contiguous first last bs → first ≤ last
Contiguous-le first last [] c = omega arith
Contiguous-le first last (b ∷ bs) (_, h, c) =
    omega (arith, Contiguous-le (b.last_resource_ordinal + 1) last bs c)

-- What a run from a boundary does with the batches behind it.
pub record Progressed (resume last : ℕ) (todo : List FinishedBatch) (run : SeedRun) : Type 0 where
  pub left : List FinishedBatch
  pub split : todo ≡ run.applied ++ left
  pub before : Contiguous resume run.completed run.applied
  pub behind : Contiguous run.completed last left
  pub all_done : run.error ≡ none → left ≡ []

stopped :
    (resume last : ℕ) (todo : List FinishedBatch) (e : SeedError)
    → Contiguous resume last todo
    → Progressed resume last todo (stop resume e)
stopped resume last todo e c = record {
  left = todo;
  split = refl;
  before = refl;
  behind = c;
  all_done = λ h. cc;
}

applied_one :
    (first last : ℕ) (b : FinishedBatch) (bs : List FinishedBatch) (run : SeedRun)
    → Contiguous first last (b ∷ bs)
    → Progressed (b.last_resource_ordinal + 1) last bs run
    → Progressed first last (b ∷ bs) (apply_first b run)
applied_one first last b bs run c p = record {
  left = p.left;
  split = ap (b ∷◌) p.split;
  before = (c.0, c.1, p.before);
  behind = p.behind;
  all_done = p.all_done;
}

module _ (env : Environment) (resume last : ℕ) where
  seed_todo :
      (index completed : ℕ) (bs : List FinishedBatch)
      → resume ≤ completed
      → Contiguous completed last bs
      → Progressed completed last bs (seed_loop env resume index completed bs none)
  unfolding seed_loop
  seed_todo index completed [] le c = record {
    left = [];
    split = refl;
    before = refl;
    behind = c;
    all_done = λ _. refl;
  }
  seed_todo index completed (b ∷ bs) le c =
      let t1 : ltb b.last_resource_ordinal resume ≡ false = ltb-eq-false _ _ (omega (arith, c.1)) in
      let t2 : ltb b.first_resource_ordinal resume ≡ false =
        ltb-eq-false _ _ (omega (arith, c.0)) in
      elim (Bool-cases (env.aborted index)) [
        | inl a ↦ rw a (stopped completed last (b ∷ bs) _ c)
        | inr a ↦ elim (Bool-cases (env.throws index)) [
          | inl t ↦ rw (a, t1, t2, t) (stopped completed last (b ∷ bs) _ c)
          | inr t ↦
              rw (a, t1, t2, t)
                (applied_one completed last b bs _ c
                  (seed_todo (suc index) (b.last_resource_ordinal + 1) bs (omega (arith, c.1)) c.2))
        ]
      ]

  -- Batches before the resume ordinal are passed over.
  pub seed_loop-Progressed :
      (index first : ℕ) (seen todo : List FinishedBatch)
      → Contiguous first resume seen
      → Contiguous resume last todo
      → Progressed resume last todo (seed_loop env resume index resume (seen ++ todo) none)
  unfolding seed_loop
  seed_loop-Progressed index first [] todo s c = seed_todo index resume todo (omega arith) c
  seed_loop-Progressed index first (b ∷ seen) todo s c =
      let t : ltb b.last_resource_ordinal resume ≡ true =
        lt→ltb _ _ (omega (arith, Contiguous-le (b.last_resource_ordinal + 1) resume seen s.2)) in
      elim (Bool-cases (env.aborted index)) [
        | inl a ↦ rw a (stopped resume last todo _ c)
        | inr a ↦
            rw (a, t)
              (seed_loop-Progressed (suc index) (b.last_resource_ordinal + 1) seen todo s.2 c)
      ]

-- Nothing outside interrupts the run.
pub record IsQuiet (env : Environment) : Type 0 where
  pub no_abort : (i : ℕ) → env.aborted i ≡ false
  pub no_throw : (i : ℕ) → env.throws i ≡ false

module _ (env : Environment) (quiet : IsQuiet env) (resume last : ℕ) where
  quiet_todo :
      (index completed : ℕ) (bs : List FinishedBatch)
      → resume ≤ completed
      → Contiguous completed last bs
      → seed_loop env resume index completed bs none
        ≡ record { applied = bs; completed = last; error = none }
  unfolding seed_loop
  quiet_todo index completed [] le c = rw c refl
  quiet_todo index completed (b ∷ bs) le c =
      let t1 : ltb b.last_resource_ordinal resume ≡ false = ltb-eq-false _ _ (omega (arith, c.1)) in
      let t2 : ltb b.first_resource_ordinal resume ≡ false =
        ltb-eq-false _ _ (omega (arith, c.0)) in
      rw
        (
          quiet.no_abort index,
          t1,
          t2,
          quiet.no_throw index,
          quiet_todo (suc index) (b.last_resource_ordinal + 1) bs (omega (arith, c.1)) c.2,
        )
        refl

  pub quiet_run :
      (index first : ℕ) (seen todo : List FinishedBatch)
      → Contiguous first resume seen
      → Contiguous resume last todo
      → seed_loop env resume index resume (seen ++ todo) none
        ≡ record { applied = todo; completed = last; error = none }
  unfolding seed_loop
  quiet_run index first [] todo s c = quiet_todo index resume todo (omega arith) c
  quiet_run index first (b ∷ seen) todo s c =
      let t : ltb b.last_resource_ordinal resume ≡ true =
        lt→ltb _ _ (omega (arith, Contiguous-le (b.last_resource_ordinal + 1) resume seen s.2)) in
      rw
        (
          quiet.no_abort index,
          t,
          quiet_run (suc index) (b.last_resource_ordinal + 1) seen todo s.2 c,
        )
        refl

Contiguous-append :
    (first middle last : ℕ) (xs ys : List FinishedBatch)
    → Contiguous first middle xs
    → Contiguous middle last ys
    → Contiguous first last (xs ++ ys)
Contiguous-append first middle last [] ys c d = rw c d
Contiguous-append first middle last (x ∷ xs) ys c d =
    (c.0, c.1, Contiguous-append (x.last_resource_ordinal + 1) middle last xs ys c.2 d)

-- Take a run from the boundary `resume`, interrupted anywhere or not at all, over batches with no
-- gap up to `last`; then a run without interruption from where the first one stopped. Together they
-- apply each batch behind `resume` once and in order, none before it, and the second run ends
-- without an error, with all resources completed.
pub seed_loop_resumes :
    (env later : Environment) (resume last : ℕ) (seen todo : List FinishedBatch)
    → IsQuiet later
    → Contiguous 0 resume seen
    → Contiguous resume last todo
    → let first = seed_loop env resume 0 resume (seen ++ todo) none in
      let second = seed_loop later first.completed 0 first.completed (seen ++ todo) none in
      (first.applied ++ second.applied ≡ todo) × (second.completed ≡ last) × (second.error ≡ none)
seed_loop_resumes env later resume last seen todo quiet s c =
    let first = seed_loop env resume 0 resume (seen ++ todo) none in
    let p = seed_loop-Progressed env resume last 0 0 seen todo s c in
    let whole : seen ++ todo ≡ (seen ++ first.applied) ++ p.left =
      ap (seen ++◌) p.split ∙ sym (append_assoc seen first.applied p.left) in
    let e : seed_loop later first.completed 0 first.completed (seen ++ todo) none
        ≡ record { applied = p.left; completed = last; error = none } =
      ap (λ bs. seed_loop later first.completed 0 first.completed bs none) whole
      ∙ quiet_run later quiet first.completed last 0 0 (seen ++ first.applied) p.left
          (Contiguous-append 0 resume first.completed seen first.applied s p.before) p.behind in
    rw e (sym p.split, refl, refl)
