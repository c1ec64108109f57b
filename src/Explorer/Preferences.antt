-- ===== src/Explorer/Preferences.antt =====
-- Preferences: `validatePreferences` and `normalizePreferencesForDescriptor` of
-- packages/explorer-state/src/explorer-controller.mjs.
use eacl_demo.Base.{
  ℕ, ◌≤◌, Bool, true, ◌&&◌, leb, if◌then◌else◌, String, units, List, [], ◌∷◌, Result, ok, ◌>>◌,
  require, includes, distinct, take, all, ◌≡◌, refl, arith, length, length-take, IsDistinct,
  distinct-IsDistinct, take-IsDistinct, distinct_fixed, take_all, all-distinct, all-take, string_eq,
  require-eq-ok, leb→le, ap, ◌∙◌,
}
use eacl_demo.Explorer.Types.{Preferences}

pub data PreferenceError : Type 0 where
  bad_theme bad_page_size bad_consistency bad_expanded : PreferenceError

abbrev pub themes : List String
themes = "system" ∷ "light" ∷ "dark" ∷ []

abbrev pub maximum_page_size : ℕ
maximum_page_size = 1000

abbrev pub default_preferences : Preferences
default_preferences = record {
  theme = "system";
  page_size = 20;
  cache_enabled = true;
  consistency_mode = "minimize";
  expanded = [];
}

abbrev pub short_names : List String → Bool
short_names = all (λ s. leb (units s) 64)

unfoldable pub validate_preferences : Preferences → Result PreferenceError Preferences
validate_preferences p = do
  require (includes themes p.theme) bad_theme
  require (leb 1 p.page_size && leb p.page_size maximum_page_size) bad_page_size
  require (leb (units p.consistency_mode) 32) bad_consistency
  require (short_names p.expanded) bad_expanded
  ok (record p { expanded = take 32 (distinct p.expanded) })

-- `modes[0]` of no modes is `undefined`; the descriptor check has refused that before.
abbrev pub first_mode : List String → String
first_mode [] = ""
first_mode (m ∷ ms) = m

unfoldable pub normalize_preferences : Preferences → List String → Preferences
normalize_preferences p modes = record p {
  consistency_mode =
      if includes modes p.consistency_mode then p.consistency_mode else first_mode modes;
}

pub record AreValid (p : Preferences) : Type 0 where
  pub known_theme : includes themes p.theme ≡ true
  pub page_from : 1 ≤ p.page_size
  pub page_to : p.page_size ≤ maximum_page_size
  pub short_mode : units p.consistency_mode ≤ 32
  pub short_panels : short_names p.expanded ≡ true
  pub distinct_panels : IsDistinct p.expanded
  pub few_panels : length p.expanded ≤ 32

accepted :
    (p q : Preferences)
    → includes themes p.theme ≡ true
    → (leb 1 p.page_size && leb p.page_size maximum_page_size) ≡ true
    → leb (units p.consistency_mode) 32 ≡ true
    → short_names p.expanded ≡ true
    → record p { expanded = take 32 (distinct p.expanded) } ≡ q
    → AreValid q × (validate_preferences q ≡ ok q)
unfolding validate_preferences
accepted p q t s m x e = rw (← e) (
  record {
    known_theme = t;
    page_from = ground arith;
    page_to = ground arith;
    short_mode = leb→le _ _ m;
    short_panels = short;
    distinct_panels = distinct_names;
    few_panels = few;
  },
  rw (t, s, m, short, again) refl,
)
  where
    names : List String
    names = take 32 (distinct p.expanded)

    short : short_names names ≡ true
    short = all-take _ 32 (distinct p.expanded) (all-distinct _ p.expanded x)

    distinct_names : IsDistinct names
    distinct_names = take-IsDistinct 32 (distinct p.expanded) (distinct-IsDistinct p.expanded)

    few : length names ≤ 32
    few = omega (arith, length-take 32 (distinct p.expanded))

    again : take 32 (distinct names) ≡ names
    again = ap (take 32) (distinct_fixed names distinct_names) ∙ take_all 32 names few

-- What the validation accepts is within its bounds, with each expanded panel once; accepted
-- preferences are accepted again unchanged.
pub validate_preferences-AreValid :
    (p q : Preferences)
    → validate_preferences p ≡ ok q
    → AreValid q × (validate_preferences q ≡ ok q)
unfolding validate_preferences
validate_preferences-AreValid p q e =
    let (t, e1) = require-eq-ok _ _ _ e in
    let (s, e2) = require-eq-ok _ _ _ e1 in
    let (m, e3) = require-eq-ok _ _ _ e2 in
    let (x, e4) = require-eq-ok _ _ _ e3 in accepted p q t s m x (cc)
