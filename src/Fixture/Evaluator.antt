-- ===== src/Fixture/Evaluator.antt =====
-- packages/fixture-generator/exemplar-evaluator.mjs: the permissions of a fixture, evaluated over its
-- relationships. `locale` is the order of `localeCompare`.
pub mod Keys
pub mod Derived
pub mod Decides
pub mod Lookups
use Prim.Native.Char.{Char}
use Prim.Native.String.{◌++◌}
use mathlib.Core.List.{◌++◌ as append}
use eacl_demo.Base.{
  ℕ, zero, suc, ◌+◌, Bool, true, false, ◌&&◌, ◌||◌, str_eq, if◌then◌else◌, String, List, [], ◌∷◌,
  length, map, any, includes, string_eq, Option, none, some, Result, ok, err,
}
use eacl_demo.Json.Order.{Comparison, before, same, after}
use eacl_demo.Explorer.Controller.Publish.{lookup, insert}
use eacl_demo.Fixture.Records.{
  ObjectRef, object, FixtureRecord, object_kind, relationship_kind, Bundle,
}
use eacl_demo.Fixture.Bundles.{BundleError, fixture_bundles}

unfoldable pub object_key : ObjectRef → String
object_key o = o.type ++ String.◌∷◌ ":" o.id

abbrev pub is_colon : Char → Bool
is_colon c = str_eq (String.◌∷◌ c String.[]) ":"

-- The text before the first colon and the one behind it.
pub split_key : String → Option (String × String)
split_key String.[] = none
split_key (String.◌∷◌ c s) =
    let rest = split_key s in
    if is_colon c
    then some ("", s)
    else elim rest [ none ↦ none | some (type, id) ↦ some (String.◌∷◌ c type, id) ]

-- `value.slice(0, -1)`, for a text that does not end outside the basic plane.
pub without_last : String → String
without_last String.[] = ""
without_last (String.◌∷◌ c String.[]) = ""
without_last (String.◌∷◌ c (String.◌∷◌ d s)) = String.◌∷◌ c (without_last (String.◌∷◌ d s))

-- With no colon, `indexOf` is -1: all but the last character, and all.
unfoldable pub parse_object_key : String → ObjectRef
unfolding split_key without_last
parse_object_key s = elim (split_key s) [
  | none ↦ object (without_last s) s
  | some (type, id) ↦ object type id
]

unfoldable pub relationship_key : ObjectRef → String → String
unfolding object_key
relationship_key resource relation = object_key resource ++ ("#" ++ relation)

-- `objects` has the keys of the map; the values are not read.
pub record LogicalFixture : Type 0 where
  pub objects : List String
  pub resources : List ObjectRef
  pub subjects : List ObjectRef
  pub relationships : List (String × List String)

abbrev pub add : String → List String → List String
add s ss = if includes ss s then ss else append ss (s ∷ [])

abbrev pub or_empty : Option (List String) → List String
or_empty none = []
or_empty (some values) = values

abbrev pub related_to : String → List (String × List String) → List String
related_to key relationships = or_empty (lookup key relationships)

unfoldable pub related : LogicalFixture → ObjectRef → String → List String
unfolding lookup relationship_key
related fixture resource relation =
    related_to (relationship_key resource relation) fixture.relationships

unfoldable pub add_record : LogicalFixture → FixtureRecord → LogicalFixture
unfolding object_key relationship_key insert lookup
add_record f (object_kind role o) =
    let known : LogicalFixture = record f { objects = add (object_key o) f.objects } in
    if str_eq role "subject"
    then record known { subjects = append f.subjects (o ∷ []) }
    else record known { resources = append f.resources (o ∷ []) }
add_record f (relationship_kind relation resource subject) =
    let key = relationship_key resource relation in
    record f {
      relationships =
          insert key (add (object_key subject) (related_to key f.relationships)) f.relationships;
    }

unfoldable pub add_records : LogicalFixture → List FixtureRecord → LogicalFixture
unfolding add_record
add_records f [] = f
add_records f (r ∷ rs) = add_records (add_record f r) rs

pub add_bundles : LogicalFixture → List Bundle → LogicalFixture
add_bundles f [] = f
add_bundles f (b ∷ bs) = add_bundles (add_records f b.records) bs

abbrev pub empty_fixture : LogicalFixture
empty_fixture = record { objects = []; resources = []; subjects = []; relationships = [] }

unfoldable pub build_logical_fixture : ℕ → Result BundleError LogicalFixture
unfolding add_bundles add_records add_record
build_logical_fixture cut = elim (fixture_bundles cut) [
  | err e ↦ err e
  | ok bundles ↦ ok (add_bundles empty_fixture bundles)
]

-- The permissions that a case of the `switch` names; for any other the default is false.
pub data Permission : Type 0 where
  admin view : Permission

abbrev pub permission_text : Permission → String
permission_text admin = "admin"
permission_text view = "view"

abbrev pub permission_of : String → Option Permission
permission_of s =
    if str_eq s "admin" then some admin else if str_eq s "view" then some view else none

-- The closures that a case joins by `||`.
pub data Clause : Type 0 where
  direct : String → Clause
  arrow_relation : String → String → Clause
  arrow_permission : String → Permission → Clause
  self_permission : Permission → Clause

-- The cases of the `switch`, by the type of the resource.
unfoldable pub clauses : String → Permission → List Clause
clauses type admin =
    if str_eq type "account"
    then direct "owner"
      ∷ arrow_permission "parent" admin
      ∷ arrow_relation "platform" "super_admin"
      ∷ []
    else if str_eq type "team"
    then arrow_permission "account" admin ∷ direct "leader" ∷ []
    else if str_eq type "vpc"
    then arrow_permission "account" admin ∷ direct "shared_admin" ∷ []
    else if str_eq type "server"
    then arrow_permission "account" admin ∷ direct "shared_admin" ∷ []
    else []
clauses type view =
    if str_eq type "platform"
    then direct "super_admin" ∷ []
    else if str_eq type "account"
    then self_permission admin ∷ arrow_permission "parent" admin ∷ []
    else if str_eq type "team"
    then self_permission admin ∷ []
    else if str_eq type "vpc"
    then self_permission admin ∷ []
    else if str_eq type "server"
    then self_permission admin
      ∷ arrow_permission "parent" view
      ∷ arrow_permission "account" view
      ∷ arrow_permission "team" view
      ∷ arrow_permission "vpc" view
      ∷ direct "shared_admin"
      ∷ []
    else []

-- The keys that the relationships lead to.
pub targets_in : List (String × List String) → List String
targets_in [] = []
targets_in ((key, values) ∷ rest) = append values (targets_in rest)

-- For one fixture and the key of one subject.
module _ (fixture : LogicalFixture) (subject_key : String) where
  -- Whether a clause holds, where `ask` answers the calls of `evaluate`.
  unfoldable pub holds : (Permission → ObjectRef → Bool) → ObjectRef → Clause → Bool
  unfolding parse_object_key related
  holds ask resource (direct relation) = includes (related fixture resource relation) subject_key
  holds ask resource (arrow_relation via target) =
      any (λ t. includes (related fixture (parse_object_key t) target) subject_key)
        (related fixture resource via)
  holds ask resource (arrow_permission via target) =
      any (λ t. ask target (parse_object_key t)) (related fixture resource via)
  holds ask resource (self_permission target) = ask target resource

  unfoldable pub rules : (Permission → ObjectRef → Bool) → Permission → ObjectRef → Bool
  unfolding holds clauses
  rules ask permission resource = any (holds ask resource) (clauses resource.type permission)

  unfoldable pub state_of : Permission → ObjectRef → String
  unfolding object_key
  state_of permission resource =
      subject_key
      ++ String.◌∷◌ "|" (permission_text permission ++ String.◌∷◌ "|" (object_key resource))

  -- The recursion, on fuel, with the states of the path.
  unfoldable pub evaluate : ℕ → List String → Permission → ObjectRef → Bool
  unfolding rules state_of
  evaluate zero path permission resource = false
  evaluate (suc fuel) path permission resource =
      let deeper = evaluate fuel (state_of permission resource ∷ path) in
      elim (includes path (state_of permission resource)) [
        | true ↦ false
        | false ↦ rules deeper permission resource
      ]

  -- The states that an evaluation may ask for.
  pub states : List ObjectRef → List String
  states [] = []
  states (o ∷ os) = state_of admin o ∷ state_of view o ∷ states os

  -- One round for each such state, and one more.
  unfoldable pub enough_fuel : ObjectRef → ℕ
  unfolding states targets_in
  enough_fuel resource =
      suc (length (states (resource ∷ map parse_object_key (targets_in fixture.relationships))))

unfoldable pub check_permission : LogicalFixture → ObjectRef → String → ObjectRef → Bool
unfolding object_key evaluate enough_fuel
check_permission fixture subject permission resource =
    if includes fixture.objects (object_key subject)
      && includes fixture.objects (object_key resource)
    then elim (permission_of permission) [
      | none ↦ false
      | some p ↦
          evaluate fixture (object_key subject) (enough_fuel fixture (object_key subject) resource)
            [] p resource
    ]
    else false
