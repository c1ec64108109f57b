-- ===== src/Explorer/Presentation/Entries.antt =====
-- packages/explorer-state/src/descriptor-presentation.mjs: what a term is found as in a dictionary.
use eacl_demo.Base.{
  ◌≡◌, refl, sym, ap, ◌∙◌, Bool, true, false, ◌&&◌, str_eq, str_eq_iff, ap₂, Bool-cases,
  Option-cases, inl, inr, ◌⊎◌, includes, String, List, [], ◌∷◌, map, all, string_eq, Option, none,
  some, Result, ok, err, bind-eq-ok,
}
use eacl_demo.Explorer.Dictionaries.{Notice, Dictionary}
use eacl_demo.Explorer.Presentation.{
  PresentationError, object_members, Shown, own, inherited, entry_of, project_term, project_all,
  project_terms,
}

-- The term that is shown.
abbrev pub term_of : Shown → String
term_of (own n) = n.id
term_of (inherited member) = member

abbrev pub terms_of : List Shown → List String
terms_of xs = map term_of xs

-- A dictionary's notice under its own key; or a member that every object has, if the dictionary has
-- no key of that name.
abbrev pub IsEntry : Dictionary → Shown → Type 0
IsEntry [] (own n) = ⊥
IsEntry ((k, m) ∷ d) (own n) = ((k ≡ n.id) × (m ≡ n)) ⊎ IsEntry d (own n)
IsEntry [] (inherited member) = includes object_members member ≡ true
IsEntry ((k, m) ∷ d) (inherited member) = (str_eq k member ≡ false) × IsEntry d (inherited member)

abbrev pub AreEntries : Dictionary → List Shown → Type 0
AreEntries d [] = Unit {0}
AreEntries d (x ∷ xs) = IsEntry d x × AreEntries d xs

abbrev is_keyed : String × Notice → Bool
is_keyed e = str_eq (e.0) ((e.1).id)

both : (a b : Bool) → a && b ≡ true → (a ≡ true) × (b ≡ true)
both true b h = (refl, h)
both false b h = cc

abbrev pub Shows : String → Dictionary → Shown → Type 0
Shows term d x = (term_of x ≡ term) × IsEntry d x

-- Behind an entry of another key.
IsEntry_later :
    (term k : String) (m : Notice) (d : Dictionary) (x : Shown)
    → str_eq k term ≡ false
    → Shows term d x
    → Shows term ((k, m) ∷ d) x
IsEntry_later term k m d (own n) e h = (h.0, inr h.1)
IsEntry_later term k m d (inherited member) e h = (h.0, (rw h.0 e, h.1))

entry_of-Shows :
    (term : String) (d : Dictionary) (x : Shown)
    → all is_keyed d ≡ true
    → entry_of term d ≡ some x
    → Shows term d x
unfolding entry_of
entry_of-Shows term [] x k h = elim (Bool-cases (includes object_members term)) [
  | inl e ↦
      let h' : ◌≡◌ {A = Option Shown} (some (inherited term)) (some x) = rw e at h in
      let same : inherited term ≡ x = cc in rw (← same) (refl, e)
  | inr e ↦ let no : ◌≡◌ {A = Option Shown} none (some x) = rw e at h in cc
]
entry_of-Shows term ((j, m) ∷ d) x k h = elim (Bool-cases (str_eq j term)) [
  | inl e ↦
      let h' : ◌≡◌ {A = Option Shown} (some (own m)) (some x) = rw e at h in
      let same : own m ≡ x = cc in
      let keyed : j ≡ m.id = (str_eq_iff j m.id).0 (both _ _ k).0 in
      let named : j ≡ term = (str_eq_iff j term).0 e in
      rw (← same) (sym keyed ∙ named, inl (keyed, refl))
  | inr e ↦ IsEntry_later term j m d x e (entry_of-Shows term d x (both _ _ k).1 (rw e at h))
]

pub project_term-Shows :
    (term : String) (d : Dictionary) (kind : String) (x : Shown)
    → all is_keyed d ≡ true
    → project_term term d kind ≡ ok x
    → Shows term d x
unfolding project_term
project_term-Shows term d kind x k h = elim (Option-cases (entry_of term d)) [
  | inl e ↦
      let no : ◌≡◌ {A = Result PresentationError Shown} (err (PresentationError.unknown kind))
          (ok x) =
        rw (e, project_term) at h in
      cc
  | inr (y, e) ↦
      let h' : ◌≡◌ {A = Result PresentationError Shown} (ok y) (ok x) = rw (e, project_term) at h in
      let same : y ≡ x = cc in entry_of-Shows term d x k (e ∙ ap some same)
]

abbrev ShowAll : List String → Dictionary → List Shown → Type 0
ShowAll terms d xs = (terms_of xs ≡ terms) × AreEntries d xs

project_all-ShowAll :
    (terms : List String) (d : Dictionary) (kind : String) (xs : List Shown)
    → all is_keyed d ≡ true
    → project_all terms d kind ≡ ok xs
    → ShowAll terms d xs
unfolding project_all
project_all-ShowAll [] d kind xs k h = let same : [] ≡ xs = cc in rw (← same) (refl, tt)
project_all-ShowAll (t ∷ ts) d kind xs k h =
    let (x, e, h1) = bind-eq-ok (project_term t d kind) _ h in
    let (rest, f, h2) = bind-eq-ok (project_all ts d kind) _ h1 in
    let same : x ∷ rest ≡ xs = cc in
    let (head, entry) = project_term-Shows t d kind x k e in
    let (tail, entries) = project_all-ShowAll ts d kind rest k f in
    rw (← same) (ap₂ (λ y ys. y ∷ ys) head tail, (entry, entries))

-- The terms of a list, in its order, and each of them an entry.
abbrev pub ShowsList : Option (List String) → Dictionary → List Shown → Type 0
ShowsList terms d xs = (terms ≡ some (terms_of xs)) × AreEntries d xs

pub project_terms-ShowsList :
    (terms : Option (List String)) (d : Dictionary) (kind : String) (xs : List Shown)
    → all is_keyed d ≡ true
    → project_terms terms d kind ≡ ok xs
    → ShowsList terms d xs
unfolding project_terms
project_terms-ShowsList none d kind xs k h = cc
project_terms-ShowsList (some terms) d kind xs k h =
    let (same, entries) = project_all-ShowAll terms d kind xs k h in (ap some (sym same), entries)
