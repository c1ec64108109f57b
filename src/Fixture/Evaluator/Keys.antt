-- ===== src/Fixture/Evaluator/Keys.antt =====
-- packages/fixture-generator/exemplar-evaluator.mjs: the keys of objects and the states of a path.
use Prim.Native.Char.{Char, code}
use Prim.Native.String.{◌++◌}
use text.Mathlib.TextLemmas.{append_cancel_left, nil-append, cons-append}
use eacl_demo.Base.{
  ℕ, ◌≡◌, refl, sym, ap, subst, ◌∙◌, false, Bool-cases, Option-cases, inl, inr, String, Option,
  none, some, arith,
}
use eacl_demo.Fixture.Records.{ObjectRef, object}
use eacl_demo.Fixture.Evaluator.{
  object_key, is_colon, split_key, without_last, parse_object_key, Permission, admin, view,
  permission_text, state_of, LogicalFixture,
}

abbrev HasNoColon : String → Type 0
HasNoColon s = split_key s ≡ none

split_key-cons :
    (c : Char) (s : String) → HasNoColon (String.◌∷◌ c s) → (is_colon c ≡ false) × HasNoColon s
unfolding split_key
split_key-cons c s h = elim (Bool-cases (is_colon c)) [
  | inl e ↦ let no : ◌≡◌ {A = Option (String × String)} (some ("", s)) none = rw e at h in cc
  | inr e ↦ elim (Option-cases (split_key s)) [
    | inl n ↦ (e, n)
    | inr ((type, id), n) ↦
        let no : ◌≡◌ {A = Option (String × String)} (some (String.◌∷◌ c type, id)) none =
          rw (e, n) at h in
        cc
  ]
]

cons-HasNoColon :
    (c : Char) (s : String) → is_colon c ≡ false → HasNoColon s → HasNoColon (String.◌∷◌ c s)
unfolding split_key
cons-HasNoColon c s e n = rw (e, n) refl

split_key_append :
    (type id : String) → HasNoColon type → split_key (type ++ String.◌∷◌ ":" id) ≡ some (type, id)
unfolding split_key
split_key_append String.[] id h = rw (nil-append (String.◌∷◌ ":" id)) refl
split_key_append (String.◌∷◌ c s) id h =
    let (e, n) = split_key-cons c s h in
    rw (cons-append c s (String.◌∷◌ ":" id), split_key, e, split_key_append s id n) refl

split_key-HasNoColon : (s type id : String) → split_key s ≡ some (type, id) → HasNoColon type
unfolding split_key
split_key-HasNoColon String.[] type id h = cc
split_key-HasNoColon (String.◌∷◌ c s) type id h = elim (Bool-cases (is_colon c)) [
  | inl e ↦
      let h' : ◌≡◌ {A = Option (String × String)} (some ("", s)) (some (type, id)) = rw e at h in
      let same : "" ≡ type = cc in rw (← same) refl
  | inr e ↦ elim (Option-cases (split_key s)) [
    | inl n ↦
        let no : ◌≡◌ {A = Option (String × String)} none (some (type, id)) = rw (e, n) at h in cc
    | inr ((rest, id'), n) ↦
        let h' : ◌≡◌ {A = Option (String × String)} (some (String.◌∷◌ c rest, id'))
            (some (type, id)) =
          rw (e, n) at h in
        let same : String.◌∷◌ c rest ≡ type = cc in
        rw (← same) (cons-HasNoColon c rest e (split_key-HasNoColon s rest id' n))
  ]
]

without_last-HasNoColon : (s : String) → HasNoColon s → HasNoColon (without_last s)
unfolding without_last split_key
without_last-HasNoColon String.[] h = h
without_last-HasNoColon (String.◌∷◌ c String.[]) h = refl
without_last-HasNoColon (String.◌∷◌ c (String.◌∷◌ d s)) h =
    let (e, n) = split_key-cons c (String.◌∷◌ d s) h in
    cons-HasNoColon c (without_last (String.◌∷◌ d s)) e (without_last-HasNoColon (String.◌∷◌ d s) n)

-- An object that its key can be read back to.
abbrev pub IsPlain : ObjectRef → Type 0
IsPlain o = parse_object_key (object_key o) ≡ o

parse-some :
    (s type id : String) → split_key s ≡ some (type, id) → parse_object_key s ≡ object type id
unfolding parse_object_key
parse-some s type id h = rw (h, parse_object_key) refl

parse-none : (s : String) → split_key s ≡ none → parse_object_key s ≡ object (without_last s) s
unfolding parse_object_key
parse-none s h = rw (h, parse_object_key) refl

pub object-IsPlain : (type id : String) → HasNoColon type → IsPlain (object type id)
unfolding object_key
object-IsPlain type id h =
    parse-some (type ++ String.◌∷◌ ":" id) type id (split_key_append type id h)

pub parse_object_key-IsPlain : (s : String) → IsPlain (parse_object_key s)
parse_object_key-IsPlain s = elim (Option-cases (split_key s)) [
  | inl n ↦
      subst IsPlain (sym (parse-none s n))
        (object-IsPlain (without_last s) s (without_last-HasNoColon s n))
  | inr ((type, id), n) ↦
      subst IsPlain (sym (parse-some s type id n))
        (object-IsPlain type id (split_key-HasNoColon s type id n))
]

head_code : (c d : Char) (s t : String) → String.◌∷◌ c s ≡ String.◌∷◌ d t → code c ≡ code d
head_code c d s t e = let same : c ≡ d = cc in ap code same

admin_view : (s t : String) → "admin" ++ s ≡ "view" ++ t → ⊥
admin_view s t e =
    let codes : ◌≡◌ {A = ℕ} 97 118 =
      head_code "a" "v" ("dmin" ++ s) ("iew" ++ t)
        (sym (cons-append "a" "dmin" s) ∙ e ∙ cons-append "v" "iew" t) in
    omega arith

tail : (c d : Char) (s t : String) → String.◌∷◌ c s ≡ String.◌∷◌ d t → s ≡ t
tail c d s t e = cc

same_key :
    (text : String) (o u : ObjectRef)
    → IsPlain o
    → IsPlain u
    → text ++ String.◌∷◌ "|" (object_key o) ≡ text ++ String.◌∷◌ "|" (object_key u)
    → o ≡ u
same_key text o u h k e =
    let keys : object_key o ≡ object_key u = tail "|" "|" _ _ (append_cancel_left text _ _ e) in
    sym h ∙ ap parse_object_key keys ∙ k

same_state :
    (p q : Permission) (o u : ObjectRef)
    → IsPlain o
    → IsPlain u
    → permission_text p ++ String.◌∷◌ "|" (object_key o)
      ≡ permission_text q ++ String.◌∷◌ "|" (object_key u)
    → (p ≡ q) × (o ≡ u)
same_state admin admin o u h k e = (refl, same_key "admin" o u h k e)
same_state view view o u h k e = (refl, same_key "view" o u h k e)
same_state admin view o u h k e = absurd (admin_view _ _ e)
same_state view admin o u h k e = absurd (admin_view _ _ (sym e))

-- A state tells the permission and the key.
pub state_of-inj :
    (fixture : LogicalFixture) (subject_key : String) (p q : Permission) (o u : ObjectRef)
    → IsPlain o
    → IsPlain u
    → state_of fixture subject_key p o ≡ state_of fixture subject_key q u
    → (p ≡ q) × (o ≡ u)
unfolding state_of
state_of-inj fixture subject_key p q o u h k e =
    same_state p q o u h k (tail "|" "|" _ _ (append_cancel_left subject_key _ _ e))
