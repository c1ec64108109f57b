-- ===== src/Base/Results.antt =====
-- Code that throws: a value or an error, with `do`.
use mathlib.Core.Path.{◌≡◌, refl}
use mathlib.Core.Logic.{◌⊎◌, inl, inr}
use mathlib.Core.Bool.{Bool, true, false}

pub data Result {ℓ κ} (E : Type ℓ) (A : Type κ) : Type (ℓ ⊔ κ) where
  ok : A → Result E A
  err : E → Result E A

module _ {ε} {E : Type ε} where
  infixl 5 ◌>>=◌ ◌>>◌
  abbrev pub ◌>>=◌ {ℓ κ} : {A : Type ℓ} → {B : Type κ} → Result E A → (A → Result E B) → Result E B
  err e >>= f = err e
  ok a >>= f = f a

  abbrev pub ◌>>◌ {ℓ κ} : {A : Type ℓ} {B : Type κ} → Result E A → Result E B → Result E B
  m >> k = m >>= λ _. k

  -- `if (!test) throw e`
  abbrev pub require : Bool → E → Result E (Unit {0})
  require true e = ok tt
  require false e = err e

  -- `if (test) throw e`
  abbrev pub reject : Bool → E → Result E (Unit {0})
  reject true e = err e
  reject false e = ok tt

  -- What a success satisfies.
  abbrev pub OnOk {ℓ κ} : {A : Type ℓ} → (A → Type κ) → Result E A → Type κ
  OnOk P (ok a) = P a
  OnOk P (err e) = Unit

  pub OnOk-bind {ℓ κ} :
      {A B : Type ℓ} (P : A → Type κ) (Q : B → Type κ) (m : Result E A) (f : A → Result E B)
      → OnOk P m
      → ((a : A) → P a → OnOk Q (f a))
      → OnOk Q (m >>= f)
  OnOk-bind P Q (ok a) f h k = k a h
  OnOk-bind P Q (err e) f h k = tt

  pub OnOk-apply {ℓ κ} :
      {A : Type ℓ} (P : A → Type κ) (m : Result E A) (a : A) → OnOk P m → m ≡ ok a → P a
  OnOk-apply P m a h e = rw e at h

  -- A block that begins with a guard succeeds only if the guard holds.
  pub require-eq-ok {ℓ} :
      {A : Type ℓ} (b : Bool) (e : E) (k : Result E A) {a : A}
      → (require b e >> k) ≡ ok a
      → (b ≡ true) × (k ≡ ok a)
  require-eq-ok true e k h = (refl, h)
  require-eq-ok false e k h = cc

  pub require-ok : (b : Bool) (e : E) {u : Unit {0}} → require b e ≡ ok u → b ≡ true
  require-ok true e h = refl
  require-ok false e h = cc

  pub reject-eq-ok {ℓ} :
      {A : Type ℓ} (b : Bool) (e : E) (k : Result E A) {a : A}
      → (reject b e >> k) ≡ ok a
      → (b ≡ false) × (k ≡ ok a)
  reject-eq-ok true e k h = cc
  reject-eq-ok false e k h = (refl, h)

  -- A chain succeeds only if its first step does, and the rest on the value of that.
  pub bind-eq-ok {ℓ κ} :
      {A : Type ℓ} {B : Type κ} (first : Result E A) (rest : A → Result E B) {b : B}
      → first >>= rest ≡ ok b
      → (a : A) × (first ≡ ok a) × (rest a ≡ ok b)
  bind-eq-ok (err e) rest h = cc
  bind-eq-ok (ok a) rest h = (a, refl, h)

pub Result-cases {ε ℓ} :
    {E : Type ε} {A : Type ℓ} (m : Result E A) → ((e : E) × (m ≡ err e)) ⊎ ((a : A) × (m ≡ ok a))
Result-cases (ok a) = inr (a, refl)
Result-cases (err e) = inl (e, refl)

pub any_ok {ε ℓ} : {E : Type ε} {A : Type ℓ} (m : Result E A) → OnOk (λ _. Unit {0}) m
any_ok (ok a) = tt
any_ok (err e) = tt

-- An error that is only renamed.
pub OnOk-renamed {ℓ κ ε φ} :
    {A : Type ℓ} {E : Type ε} {F : Type φ} (P : A → Type κ) (f : E → F) (m : Result E A)
    → OnOk P m
    → OnOk P (elim m [ ok t ↦ ok t | err e ↦ err (f e) ])
OnOk-renamed P f (ok t) h = h
OnOk-renamed P f (err e) h = tt

-- What holds behind a guard that did not throw.
pub require_holds {ε ℓ κ} :
    {E : Type ε} {A : Type ℓ} (P : A → Type κ) (b : Bool) (e : E) (k : Result E A)
    → (b ≡ true → OnOk P k)
    → OnOk P (require b e >> k)
require_holds P true e k h = h refl
require_holds P false e k h = tt
