-- ===== src/Fixture/Evaluator/Decides.antt =====
-- packages/fixture-generator/exemplar-evaluator.mjs: the evaluator, which refuses a state that its path
-- has seen, decides whether there is a derivation, of any depth.
use eacl_demo.Base.{
  ℕ, zero, suc, ◌≤◌, ◌<◌, ◌≡◌, ◌↔◌, refl, sym, ap, true, false, ◌&&◌, str_eq, str_eq_iff,
  if◌then◌else◌, Bool-cases, Option-cases, inl, inr, String, List, [], ◌∷◌, length, map, includes,
  includes-cases, string_eq, some, arith,
}
use eacl_demo.Fixture.Records.{ObjectRef}
use eacl_demo.Fixture.Evaluator.{
  object_key, parse_object_key, LogicalFixture, Permission, admin, view, permission_of, state_of,
  evaluate, states, enough_fuel, check_permission,
}
use eacl_demo.Fixture.Evaluator.Keys.{IsPlain, parse_object_key-IsPlain, state_of-inj}
use eacl_demo.Fixture.Evaluator.Derived.{
  or_right, targets, rules_mono, derived, derived_mono, evaluate-rules, rules-evaluate,
  evaluate_sound,
}

-- How many of some states are not on a path.
pub remaining : List String → List String → ℕ
remaining path [] = 0
remaining path (u ∷ us) = if includes path u then remaining path us else suc (remaining path us)

remaining_le : (s : String) (path us : List String) → remaining (s ∷ path) us ≤ remaining path us
unfolding remaining
remaining_le s path [] = omega arith
remaining_le s path (u ∷ us) = ground (arith, remaining_le s path us)

remaining_lt :
    (s : String) (path us : List String)
    → includes us s ≡ true
    → includes path s ≡ false
    → remaining (s ∷ path) us < remaining path us
unfolding remaining
remaining_lt s path [] i f = cc
remaining_lt s path (u ∷ us) i f = elim (includes-cases u s us i) [
  | inl same ↦
      let seen : str_eq s u ≡ true = (str_eq_iff s u).1 (sym same) in
      let fresh : includes path u ≡ false = rw same f in
      let le = remaining_le s path us in rw (seen, fresh) (omega (arith, le))
  | inr later ↦ let lt = remaining_lt s path us later f in ground (arith, lt)
]

remaining-length : (us : List String) → remaining [] us ≡ length us
unfolding remaining
remaining-length [] = refl
remaining-length (u ∷ us) = ap suc (remaining-length us)

raised : ℕ → ℕ → ℕ
raised zero n = n
raised (suc j) n = suc (raised j n)

raised_le : (j n : ℕ) → n ≤ raised j n
unfolding raised
raised_le zero n = omega arith
raised_le (suc j) n = let le = raised_le j n in omega (arith, le)

raised_ge : (j n : ℕ) → j ≤ raised j n
unfolding raised
raised_ge zero n = omega arith
raised_ge (suc j) n = let le = raised_ge j n in omega (arith, le)

module _ (fixture : LogicalFixture) (subject_key : String) where
  abbrev state : Permission → ObjectRef → String
  state p o = state_of fixture subject_key p o

  -- Nothing on the path is derived at a depth.
  abbrev NotYet : ℕ → List String → Type 0
  NotYet k path =
      (q : Permission) (u : ObjectRef)
      → IsPlain u
      → includes path (state q u) ≡ true
      → derived fixture subject_key k q u ≡ false

  not_before :
      (k : ℕ) (p : Permission) (o : ObjectRef)
      → derived fixture subject_key (suc k) p o ≡ false
      → derived fixture subject_key k p o ≡ false
  not_before k p o h = elim (Bool-cases (derived fixture subject_key k p o)) [
    | inl d ↦ let later = derived_mono fixture subject_key k p o d in cc
    | inr d ↦ d
  ]

  NotYet-cons :
      (k : ℕ) (path : List String) (p : Permission) (o : ObjectRef)
      → IsPlain o
      → NotYet (suc k) path
      → derived fixture subject_key k p o ≡ false
      → NotYet k (state p o ∷ path)
  NotYet-cons k path p o plain none_yet nd q u plain' i =
      elim (includes-cases (state p o) (state q u) path i) [
        | inl same ↦
            let (e, e') = state_of-inj fixture subject_key p q o u plain plain' same in
            rw (← e, ← e') nd
        | inr old ↦ not_before k q u (none_yet q u plain' old)
      ]

  own_state :
      (o : ObjectRef) (os : List ObjectRef) (q : Permission)
      → includes (states fixture subject_key (o ∷ os)) (state q o) ≡ true
  unfolding states
  own_state o os admin = rw ((str_eq_iff (state admin o) (state admin o)).1 refl) refl
  own_state o os view =
      or_right (str_eq (state admin o) (state view o))
        (rw ((str_eq_iff (state view o) (state view o)).1 refl) refl)

  -- A derivation is found on a path none of whose states is derived at its depth.
  evaluate_complete :
      (k n : ℕ) (path : List String) (p : Permission) (o : ObjectRef)
      → IsPlain o
      → k ≤ n
      → NotYet k path
      → derived fixture subject_key k p o ≡ true
      → evaluate fixture subject_key n path p o ≡ true
  unfolding derived
  evaluate_complete zero n path p o plain le none_yet h = cc
  evaluate_complete (suc k) zero path p o plain le none_yet h = absurd (omega (arith, le))
  evaluate_complete (suc k) (suc n) path p o plain le none_yet h =
      elim (Bool-cases (includes path (state p o))) [
        | inl i ↦ let no = none_yet p o plain i in cc
        | inr fresh ↦ elim (Bool-cases (derived fixture subject_key k p o)) [
          | inl d ↦
              evaluate_complete k (suc n) path p o plain (omega (arith, le))
                (λ q u plain' i. not_before k q u (none_yet q u plain' i)) d
          | inr nd ↦ rules-evaluate fixture subject_key n path p o fresh (
              rules_mono fixture subject_key IsPlain (derived fixture subject_key k)
                (evaluate fixture subject_key n (state p o ∷ path)) p o
                (plain, λ t _. parse_object_key-IsPlain t)
                (λ q u plain' d.
                  evaluate_complete k n (state p o ∷ path) q u plain' (omega (arith, le))
                    (NotYet-cons k path p o plain none_yet nd) d)
                h)
        ]
      ]

  -- The states of an object are among some.
  abbrev Among : List String → ObjectRef → Type 0
  Among us o = (q : Permission) → includes us (state q o) ≡ true

  -- With more fuel than there are states off the path, no more is found with more fuel.
  less_fuel :
      (us : List String) (n : ℕ) (path : List String) (p : Permission) (o : ObjectRef)
      → Among us o
      → ((t : String)
          → includes (targets fixture subject_key) t ≡ true
          → Among us (parse_object_key t))
      → remaining path us < n
      → evaluate fixture subject_key (suc n) path p o ≡ true
      → evaluate fixture subject_key n path p o ≡ true
  less_fuel us zero path p o among all_among lt h = absurd (omega (arith, lt))
  less_fuel us (suc n) path p o among all_among lt h =
      let (fresh, h') = evaluate-rules fixture subject_key (suc n) path p o h in
      let fewer = remaining_lt (state p o) path us (among p) fresh in
      rules-evaluate fixture subject_key n path p o fresh (
        rules_mono fixture subject_key (Among us)
          (evaluate fixture subject_key (suc n) (state p o ∷ path))
          (evaluate fixture subject_key n (state p o ∷ path)) p o (among, all_among)
          (λ q u among'.
            less_fuel us n (state p o ∷ path) q u among' all_among (omega (arith, fewer, lt)))
          h')

  less_fuel_by :
      (us : List String) (j n : ℕ) (p : Permission) (o : ObjectRef)
      → Among us o
      → ((t : String)
          → includes (targets fixture subject_key) t ≡ true
          → Among us (parse_object_key t))
      → length us < n
      → evaluate fixture subject_key (raised j n) [] p o ≡ true
      → evaluate fixture subject_key n [] p o ≡ true
  unfolding raised
  less_fuel_by us zero n p o among all_among lt h = h
  less_fuel_by us (suc j) n p o among all_among lt h =
      let off = remaining-length us in
      let le = raised_le j n in
      less_fuel_by us j n p o among all_among lt
        (less_fuel us (raised j n) [] p o among all_among (omega (arith, off, le, lt)) h)

  Among-states :
      (ts : List String) (t : String)
      → includes ts t ≡ true
      → Among (states fixture subject_key (map parse_object_key ts)) (parse_object_key t)
  unfolding states
  Among-states [] t i q = cc
  Among-states (u ∷ ts) t i q = elim (includes-cases u t ts i) [
    | inl same ↦ rw same (own_state (parse_object_key t) (map parse_object_key ts) q)
    | inr later ↦
        or_right (str_eq (state admin (parse_object_key u)) (state q (parse_object_key t))) (
          or_right (str_eq (state view (parse_object_key u)) (state q (parse_object_key t)))
            (Among-states ts t later q))
  ]

  -- With the fuel that is given, the evaluator finds what is derived at any depth, and no more.
  evaluate_iff :
      (p : Permission) (o : ObjectRef)
      → IsPlain o
      → (evaluate fixture subject_key (enough_fuel fixture subject_key o) [] p o ≡ true)
        ↔ ((k : ℕ) × (derived fixture subject_key k p o ≡ true))
  unfolding enough_fuel
  evaluate_iff p o plain = (
    λ h. (
      enough_fuel fixture subject_key o,
      evaluate_sound fixture subject_key (enough_fuel fixture subject_key o) [] p o h,
    ),
    λ h.
        let (k, d) = h in
        let us =
          states fixture subject_key (o ∷ map parse_object_key (targets fixture subject_key)) in
        let n = enough_fuel fixture subject_key o in
        let found =
          evaluate_complete k (raised k n) [] p o plain (raised_ge k n) (λ q u _ i. cc) d in
        less_fuel_by us k n p o (own_state o (map parse_object_key (targets fixture subject_key)))
          (λ t i q. or_right (str_eq (state admin o) (state q (parse_object_key t))) (
            or_right (str_eq (state view o) (state q (parse_object_key t)))
              (Among-states (targets fixture subject_key) t i q)))
          (omega arith) found,
  )

-- For a resource that its key can be read back to (its type has no colon): the check succeeds exactly if
-- the fixture knows the subject and the resource, the permission is one that the rules name, and the
-- rules derive it at some depth. So the path cuts off no derivation, cycles in the relationships
-- included, and the recursion ends within one round for each state that can come up, and one more.
pub check_permission_iff :
    (fixture : LogicalFixture) (subject : ObjectRef) (permission : String) (resource : ObjectRef)
    → IsPlain resource
    → (check_permission fixture subject permission resource ≡ true) ↔ (
        (includes fixture.objects (object_key subject)
            && includes fixture.objects (object_key resource)
          ≡ true)
        × (p : Permission) × (permission_of permission ≡ some p)
        × (k : ℕ) × (derived fixture (object_key subject) k p resource ≡ true))
unfolding check_permission
check_permission_iff fixture subject permission resource plain = (
  λ h.
      elim (Bool-cases (
        includes fixture.objects (object_key subject)
        && includes fixture.objects (object_key resource))) [
          | inl known ↦ elim (Option-cases (permission_of permission)) [
            | inl n ↦ let no : false ≡ true = rw (known, n) at h in cc
            | inr (p, n) ↦
                let h' : evaluate fixture (object_key subject)
                      (enough_fuel fixture (object_key subject) resource) [] p resource
                    ≡ true =
                  rw (known, n) at h in
                let (k, d) = (evaluate_iff fixture (object_key subject) p resource plain).0 h' in
                (known, p, n, k, d)
          ]
          | inr unknown ↦ let no : false ≡ true = rw unknown at h in cc
        ],
  λ h.
      let (known, p, n, k, d) = h in
      rw (known, n) ((evaluate_iff fixture (object_key subject) p resource plain).1 (k, d)),
)
