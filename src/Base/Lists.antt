-- ===== src/Base/Lists.antt =====
-- Lists measured and cut by native numbers, under the library's names.
use Prim.Native.Nat.{ℕ, zero, suc, ◌+◌, ◌-◌, ◌≤◌, min}
use mathlib.Core.Path.{◌≡◌, refl, ap, ◌∙◌}
use mathlib.Core.Bool.{Bool, true, false, ◌&&◌, ◌||◌}
use mathlib.Core.List.{List, [], ◌∷◌, ◌++◌, map}
use mathlib.Core.Option.{Option, none, some}
use mathlib.Core.Logic.{◌⊎◌, inl, inr}
use eacl_demo.Base.Tests.{Bool-cases, Eq, if◌then◌else◌}
use native.Mathlib.Omega.{arith}

module _ {ℓ} {A : Type ℓ} where
  abbrev pub length : List A → ℕ
  length [] = 0
  length (x ∷ xs) = suc (length xs)

  abbrev pub get_elem? : List A → ℕ → Option A
  get_elem? [] i = none
  get_elem? (x ∷ xs) zero = some x
  get_elem? (x ∷ xs) (suc i) = get_elem? xs i

  abbrev pub take : ℕ → List A → List A
  take zero xs = []
  take (suc n) [] = []
  take (suc n) (x ∷ xs) = x ∷ take n xs

  abbrev pub drop : ℕ → List A → List A
  drop zero xs = xs
  drop (suc n) [] = []
  drop (suc n) (x ∷ xs) = drop n xs

  abbrev pub All {κ} : (A → Type κ) → List A → Type κ
  All P [] = Unit
  All P (x ∷ xs) = P x × All P xs

  abbrev pub all : (A → Bool) → List A → Bool
  all p [] = true
  all p (x ∷ xs) = p x && all p xs

  abbrev pub any : (A → Bool) → List A → Bool
  any p [] = false
  any p (x ∷ xs) = p x || any p xs

  abbrev pub concat : List (List A) → List A
  concat [] = []
  concat (xs ∷ xss) = xs ++ concat xss

module _ {ℓ} {A : Type ℓ} where
  pub length-append : (xs ys : List A) → length (xs ++ ys) ≡ length xs + length ys
  length-append [] ys = omega arith
  length-append (x ∷ xs) ys = omega (arith, length-append xs ys)

  pub length-map {κ} : {B : Type κ} (f : A → B) (xs : List A) → length (map f xs) ≡ length xs
  length-map f [] = refl
  length-map f (x ∷ xs) = ap suc (length-map f xs)

  pub length-take : (n : ℕ) (xs : List A) → length (take n xs) ≡ min n (length xs)
  length-take zero xs = omega arith
  length-take (suc n) [] = omega arith
  length-take (suc n) (x ∷ xs) = omega (arith, length-take n xs)

  pub length-drop : (n : ℕ) (xs : List A) → length (drop n xs) ≡ length xs - n
  length-drop zero xs = omega arith
  length-drop (suc n) [] = omega arith
  length-drop (suc n) (x ∷ xs) = omega (arith, length-drop n xs)

  pub take-nil : (n : ℕ) → take {A = A} n [] ≡ []
  take-nil zero = refl
  take-nil (suc n) = refl

  pub take-append :
      (n : ℕ) (xs ys : List A) → take n (xs ++ ys) ≡ take n xs ++ take (n - length xs) ys
  take-append n [] ys = let e : n - 0 ≡ n = omega arith in rw (e, take-nil n)
  take-append zero (x ∷ xs) ys = let e : 0 - suc (length xs) ≡ 0 = omega arith in rw e
  take-append (suc n) (x ∷ xs) ys =
      let e : suc n - suc (length xs) ≡ n - length xs = omega arith in
      rw e (ap (x ∷◌) (take-append n xs ys))

  pub take-take : (m n : ℕ) (xs : List A) → m ≤ n → take m (take n xs) ≡ take m xs
  take-take zero n xs h = refl
  take-take (suc m) zero xs h = absurd (omega arith)
  take-take (suc m) (suc n) [] h = refl
  take-take (suc m) (suc n) (x ∷ xs) h = ap (x ∷◌) (take-take m n xs (omega arith))

  pub take_all : (n : ℕ) (xs : List A) → length xs ≤ n → take n xs ≡ xs
  take_all zero [] h = refl
  take_all zero (x ∷ xs) h = absurd (omega arith)
  take_all (suc n) [] h = refl
  take_all (suc n) (x ∷ xs) h = ap (x ∷◌) (take_all n xs (omega arith))

  pub take-append-drop : (n : ℕ) (xs : List A) → take n xs ++ drop n xs ≡ xs
  take-append-drop zero xs = refl
  take-append-drop (suc n) [] = refl
  take-append-drop (suc n) (x ∷ xs) = ap (x ∷◌) (take-append-drop n xs)

  pub All-append {κ} : (P : A → Type κ) (xs ys : List A) → All P xs → All P ys → All P (xs ++ ys)
  All-append P [] ys hx hy = hy
  All-append P (x ∷ xs) ys hx hy = (hx.0, All-append P xs ys hx.1 hy)

  pub All-take {κ} : (P : A → Type κ) (n : ℕ) (xs : List A) → All P xs → All P (take n xs)
  All-take P zero xs h = tt
  All-take P (suc n) [] h = tt
  All-take P (suc n) (x ∷ xs) h = (h.0, All-take P n xs h.1)

-- Membership by a Boolean test, and the first occurrences (`[...new Set(xs)]`).
module _ {ℓ} {A : Type ℓ} ⦃e : Eq A⦄ where
  abbrev pub includes : List A → A → Bool
  includes [] a = false
  includes (x ∷ xs) a = e.beq x a || includes xs a

  abbrev pub without : A → List A → List A
  without a [] = []
  without a (x ∷ xs) = if e.beq x a then without a xs else x ∷ without a xs

  abbrev pub distinct : List A → List A
  distinct [] = []
  distinct (x ∷ xs) = x ∷ without x (distinct xs)

  -- No element stands twice.
  abbrev pub IsDistinct : List A → Type 0
  IsDistinct [] = Unit {0}
  IsDistinct (x ∷ xs) = (includes xs x ≡ false) × IsDistinct xs

  pub includes-cases :
      (x a : A) (xs : List A) → includes (x ∷ xs) a ≡ true → (x ≡ a) ⊎ (includes xs a ≡ true)
  includes-cases x a xs h = elim (Bool-cases (e.beq x a)) [
    | inl same ↦ inl ((e.beq_iff x a).0 same)
    | inr other ↦ inr (cc)
  ]

  pub includes-without_self : (a : A) (xs : List A) → includes (without a xs) a ≡ false
  includes-without_self a [] = refl
  includes-without_self a (x ∷ xs) = ground (arith, includes-without_self a xs)

  pub includes-without :
      (a b : A) (xs : List A) → includes xs b ≡ false → includes (without a xs) b ≡ false
  includes-without a b [] h = refl
  includes-without a b (x ∷ xs) h = ground (arith, includes-without a b xs)

  pub without_absent : (a : A) (xs : List A) → includes xs a ≡ false → without a xs ≡ xs
  without_absent a [] h = refl
  without_absent a (x ∷ xs) h = ground (arith, without_absent a xs)

  pub without-IsDistinct : (a : A) (xs : List A) → IsDistinct xs → IsDistinct (without a xs)
  without-IsDistinct a [] d = tt
  without-IsDistinct a (x ∷ xs) d =
      ground (arith, without-IsDistinct a xs d.1, includes-without a x xs d.0)

  pub distinct-IsDistinct : (xs : List A) → IsDistinct (distinct xs)
  distinct-IsDistinct [] = tt
  distinct-IsDistinct (x ∷ xs) = (
    includes-without_self x (distinct xs),
    without-IsDistinct x (distinct xs) (distinct-IsDistinct xs),
  )

  pub distinct_fixed : (xs : List A) → IsDistinct xs → distinct xs ≡ xs
  distinct_fixed [] d = refl
  distinct_fixed (x ∷ xs) d =
      ap (x ∷◌) (ap (without x) (distinct_fixed xs d.1) ∙ without_absent x xs d.0)

  pub includes-take :
      (n : ℕ) (a : A) (xs : List A) → includes xs a ≡ false → includes (take n xs) a ≡ false
  includes-take zero a xs h = refl
  includes-take (suc n) a [] h = refl
  includes-take (suc n) a (x ∷ xs) h = ground (arith, includes-take n a xs)

  pub take-IsDistinct : (n : ℕ) (xs : List A) → IsDistinct xs → IsDistinct (take n xs)
  take-IsDistinct zero xs d = tt
  take-IsDistinct (suc n) [] d = tt
  take-IsDistinct (suc n) (x ∷ xs) d = (includes-take n x xs d.0, take-IsDistinct n xs d.1)

module _ {ℓ} {A : Type ℓ} (p : A → Bool) where
  pub all-without : ⦃e : Eq A⦄ (a : A) (xs : List A) → all p xs ≡ true → all p (without a xs) ≡ true
  all-without a [] h = refl
  all-without a (x ∷ xs) h = ground (arith, all-without a xs)

  pub all-distinct : ⦃e : Eq A⦄ (xs : List A) → all p xs ≡ true → all p (distinct xs) ≡ true
  all-distinct [] h = refl
  all-distinct (x ∷ xs) h = ground (arith, all-distinct xs, all-without x (distinct xs))

  pub all-take : (n : ℕ) (xs : List A) → all p xs ≡ true → all p (take n xs) ≡ true
  all-take zero xs h = refl
  all-take (suc n) [] h = refl
  all-take (suc n) (x ∷ xs) h = ground (arith, all-take n xs)

-- One occurrence of an element is taken out of a list.
module _ {ℓ} {A : Type ℓ} where
  pub data Picked (a : A) : List A → List A → Type ℓ where
    here : {xs : List A} → Picked a (a ∷ xs) xs
    there : {b : A} {xs ys : List A} → Picked a xs ys → Picked a (b ∷ xs) (b ∷ ys)

  pub length-Picked : {a : A} {xs ys : List A} → Picked a xs ys → length xs ≡ suc (length ys)
  length-Picked here = refl
  length-Picked (there p) = ap suc (length-Picked p)

  pub Picked-All {κ} :
      {a : A} {xs ys : List A} (P : A → Type κ) → Picked a xs ys → All P xs → P a × All P ys
  Picked-All P here h = h
  Picked-All P (there p) h = let (x, y) = Picked-All P p (h.1) in (x, (h.0, y))
