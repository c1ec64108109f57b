-- ===== src/Json/Order.antt =====
-- The order in which `Array.prototype.sort` puts texts, by their UTF-16 units, and the order in which
-- JavaScript lists the keys of an object that was filled in that order.
use Prim.Native.Char.{code}
use Prim.Native.String.{String}
use eacl_demo.Base.{
  ℕ, zero, suc, ◌+◌, ◌-◌, ◌*◌, ◌/◌, ◌%◌, ◌^◌, ◌==◌, ◌&&◌, leb, ltb, if◌then◌else◌, List, [], ◌∷◌,
  Option, none, some, ◌≡◌, ◌≢◌, ◌≤◌, ◌↔◌, refl, sym, ap, ◌∙◌, arith,
}

-- A character outside the basic plane is a pair of surrogates.
unfoldable pub utf16 : String → List ℕ
utf16 String.[] = []
utf16 (String.◌∷◌ c s) =
    if ltb (code c) 0x10000
    then code c ∷ utf16 s
    else (0xd800 + (code c - 0x10000) / 0x400) ∷ (0xdc00 + (code c - 0x10000) % 0x400) ∷ utf16 s

-- The number that decimal digits write after those of `n`.
unfoldable pub digits : ℕ → String → Option ℕ
digits n String.[] = some n
digits n (String.◌∷◌ c s) =
    let rest = digits (n * 10 + (code c - 48)) s in
    if leb 48 (code c) && leb (code c) 57 then rest else none

abbrev zero_index : String → Option ℕ
zero_index String.[] = some 0
zero_index (String.◌∷◌ c s) = none

abbrev small_index : Option ℕ → Option ℕ
small_index none = none
small_index (some n) = if ltb n (2 ^ 32 - 1) then some n else none

-- The array index that a key writes, if it writes one: no zero in front, and below 2 ^ 32 - 1.
unfoldable pub index_of : String → Option ℕ
unfolding digits
index_of String.[] = none
index_of (String.◌∷◌ c s) =
    if code c == 48 then zero_index s else small_index (digits 0 (String.◌∷◌ c s))

-- Array indices come first, by their number, and the other keys after them, by their units.
unfoldable pub placed : Option ℕ → List ℕ → List ℕ
placed none us = 1 ∷ us
placed (some n) us = 0 ∷ n ∷ us

unfoldable pub key_order : String → List ℕ
unfolding placed index_of utf16
key_order k = placed (index_of k) (utf16 k)

pub data Comparison : Type 0 where
  before same after : Comparison

unfoldable pub compare_units : List ℕ → List ℕ → Comparison
compare_units [] [] = same
compare_units [] (y ∷ ys) = before
compare_units (x ∷ xs) [] = after
compare_units (x ∷ xs) (y ∷ ys) =
    if ltb x y then before else if ltb y x then after else compare_units xs ys

unfoldable pub flip : Comparison → Comparison
flip before = after
flip same = same
flip after = before

pub compare_units-flip : (xs ys : List ℕ) → compare_units ys xs ≡ flip (compare_units xs ys)
unfolding compare_units flip
compare_units-flip [] [] = refl
compare_units-flip [] (y ∷ ys) = refl
compare_units-flip (x ∷ xs) [] = refl
compare_units-flip (x ∷ xs) (y ∷ ys) = ground (arith, compare_units-flip xs ys)

pub compare_units-eq : (xs ys : List ℕ) → compare_units xs ys ≡ same → xs ≡ ys
unfolding compare_units
compare_units-eq [] [] h = refl
compare_units-eq [] (y ∷ ys) h = cc
compare_units-eq (x ∷ xs) [] h = cc
compare_units-eq (x ∷ xs) (y ∷ ys) h = ground (arith, compare_units-eq xs ys)

pub compare_units_trans :
    (xs ys zs : List ℕ)
    → compare_units xs ys ≡ before
    → compare_units ys zs ≡ before
    → compare_units xs zs ≡ before
unfolding compare_units
compare_units_trans [] [] zs h k = cc
compare_units_trans [] (y ∷ ys) [] h k = cc
compare_units_trans [] (y ∷ ys) (z ∷ zs) h k = refl
compare_units_trans (x ∷ xs) [] zs h k = cc
compare_units_trans (x ∷ xs) (y ∷ ys) [] h k = cc
compare_units_trans (x ∷ xs) (y ∷ ys) (z ∷ zs) h k = ground (arith, compare_units_trans xs ys zs)

-- The units of a key, taken back from its place in the order.
abbrev units_of : List ℕ → List ℕ
units_of [] = []
units_of (zero ∷ []) = []
units_of (zero ∷ n ∷ us) = us
units_of (suc m ∷ us) = us

units_of-placed : (o : Option ℕ) (us : List ℕ) → units_of (placed o us) ≡ us
unfolding placed
units_of-placed none us = refl
units_of-placed (some n) us = refl

pub key_order-utf16 : (k j : String) → key_order k ≡ key_order j → utf16 k ≡ utf16 j
unfolding key_order
key_order-utf16 k j h =
    sym (units_of-placed (index_of k) (utf16 k))
    ∙ ap units_of h
    ∙ units_of-placed (index_of j) (utf16 j)

-- What it takes for a key not to be listed after another one: an array index is before every other
-- key, a smaller index before a larger one, and other keys are compared by their units.
abbrev Ranked : Option ℕ → Option ℕ → Comparison → Type 0
Ranked (some n) (some m) c = (n ≤ m) × (n ≡ m → c ≢ after)
Ranked (some n) none c = Unit {0}
Ranked none (some m) c = ⊥
Ranked none none c = c ≢ after

abbrev pub Precedes : String → String → Type 0
Precedes k j = Ranked (index_of k) (index_of j) (compare_units (utf16 k) (utf16 j))

placed-Ranked :
    (o p : Option ℕ) (us vs : List ℕ)
    → (compare_units (placed o us) (placed p vs) ≢ after) ↔ Ranked o p (compare_units us vs)
unfolding placed compare_units
placed-Ranked none none us vs = (λ h. h, λ h. h)
placed-Ranked none (some m) us vs = (λ h. h refl, λ h. absurd h)
placed-Ranked (some n) none us vs = (λ _. tt, λ _ e. cc)
placed-Ranked (some n) (some m) us vs = (ground arith, ground arith)

pub key_order-Precedes :
    (k j : String) → (compare_units (key_order k) (key_order j) ≢ after) ↔ Precedes k j
unfolding key_order
key_order-Precedes k j = placed-Ranked (index_of k) (index_of j) (utf16 k) (utf16 j)
