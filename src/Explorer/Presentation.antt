-- ===== src/Explorer/Presentation.antt =====
-- packages/explorer-state/src/descriptor-presentation.mjs: how the terms of a descriptor are shown.
pub mod Entries
pub mod Terms
use Prim.Native.String.{◌++◌ as text_append}
use eacl_demo.Base.{
  ℕ, suc, ◌+◌, Bool, true, false, ◌&&◌, ltb, str_eq, if◌then◌else◌, String, List, [], ◌∷◌, length,
  includes, string_eq, Option, none, some, Result, ok, err, ◌>>=◌,
}
use eacl_demo.Explorer.Dictionaries.{
  Notice, notice, Dictionary, operation_presentation, consistency_presentation,
  snapshot_presentation, cache_presentation, mutation_presentation, limitation_presentation,
}

pub data PresentationError : Type 0 where
  incomplete no_limits no_mode : PresentationError
  list_missing unknown : String → PresentationError

-- The members that a dictionary inherits, as every object does.
abbrev pub object_members : List String
object_members =
    "constructor" ∷ "__defineGetter__" ∷ "__defineSetter__" ∷ "hasOwnProperty" ∷ "__lookupGetter__"
    ∷ "__lookupSetter__" ∷ "isPrototypeOf" ∷ "propertyIsEnumerable" ∷ "toString" ∷ "valueOf"
    ∷ "__proto__" ∷ "toLocaleString" ∷ []

-- What a term is shown as: the dictionary's own notice, or the inherited member of this name, which has
-- no id, no label and no description.
pub data Shown : Type 0 where
  own : Notice → Shown
  inherited : String → Shown

-- The `id` of what is shown; undefined is `none`.
abbrev pub id_of : Shown → Option String
id_of (own n) = some n.id
id_of (inherited member) = none

-- `dictionary[term]`
pub entry_of : String → Dictionary → Option Shown
entry_of term [] = if includes object_members term then some (inherited term) else none
entry_of term ((k, n) ∷ rest) = if str_eq k term then some (own n) else entry_of term rest

unfoldable pub project_term : String → Dictionary → String → Result PresentationError Shown
unfolding entry_of
project_term term dictionary kind = elim (entry_of term dictionary) [
  | none ↦ err (unknown kind)
  | some shown ↦ ok shown
]

pub project_all : List String → Dictionary → String → Result PresentationError (List Shown)
project_all [] dictionary kind = ok []
project_all (t ∷ ts) dictionary kind = do
  n ← project_term t dictionary kind
  ns ← project_all ts dictionary kind
  ok (n ∷ ns)

-- What is no list is `none`.
unfoldable pub project_terms :
    Option (List String) → Dictionary → String → Result PresentationError (List Shown)
unfolding project_all
project_terms none dictionary kind = err (list_missing kind)
project_terms (some terms) dictionary kind = project_all terms dictionary kind

pub record Capabilities : Type 0 where
  pub operations : Option (List String)
  pub consistency_modes : Option (List String)
  pub snapshot_behavior : String
  pub cache_behavior : String
  pub mutation_locality : String
  pub limitations : Option (List String)

pub record Runtime : Type 0 where
  pub name : String
  pub architecture : String
  pub execution : String
  pub snap_start : String

-- The limits of a descriptor: as a list of pairs (the last one of a name stands), or an object.
pub data Limits : Type 0 where
  missing : Limits
  listed as_object : List (String × ℕ) → Limits

-- `Object.fromEntries`, as an association list whose order stands for nothing.
pub put : String → ℕ → List (String × ℕ) → List (String × ℕ)
put k v [] = (k, v) ∷ []
put k v ((j, w) ∷ m) = if str_eq j k then (j, v) ∷ m else (j, w) ∷ put k v m

pub from_entries : List (String × ℕ) → List (String × ℕ) → List (String × ℕ)
from_entries m [] = m
from_entries m ((k, v) ∷ entries) = from_entries (put k v m) entries

unfoldable pub normalize_limits : Limits → Result PresentationError (List (String × ℕ))
unfolding from_entries put
normalize_limits missing = err no_limits
normalize_limits (listed entries) = ok (from_entries [] entries)
normalize_limits (as_object m) = ok m

pub record Descriptor : Type 0 where
  -- Whether identity, profile, dataset and basis are there; they are passed on unread.
  pub has_facts : Bool
  pub runtime : Option Runtime
  pub capabilities : Option Capabilities
  pub limits : Limits

pub record Controls : Type 0 where
  pub subjects : Bool
  pub objects : Bool
  pub relationships : Bool
  pub reverse_relationships : Bool
  pub authorization : Bool
  pub schema : Bool
  pub cache : Bool
  pub consistency : Bool

-- The facts that are copied as they are (identity, dataset, deployment, basis) are left out.
pub record Presentation : Type 0 where
  pub label : String
  pub snap_start : String
  pub operations : List Shown
  pub controls : Controls
  pub default_mode : Option String
  pub modes : List Shown
  pub snapshot : Shown
  pub cache : Shown
  pub mutation : Shown
  pub limitations : List Shown
  pub limits : List (String × ℕ)

abbrev pub list_of : Option (List String) → List String
list_of none = []
list_of (some terms) = terms

abbrev pub snap_start_text : String → String
snap_start_text s =
    if str_eq s "enabled"
    then "SnapStart enabled"
    else if str_eq s "disabled"
    then "SnapStart disabled"
    else "SnapStart not applicable"

abbrev pub label_of : Runtime → String
label_of r =
    text_append r.name
      (text_append " · " (text_append r.architecture (text_append " · " r.execution)))

abbrev pub controls_of : List String → List Shown → Controls
controls_of supported modes = record {
  subjects = includes supported "list-subjects";
  objects = includes supported "get-object" && includes supported "count-objects";
  relationships = includes supported "list-relationships";
  reverse_relationships = includes supported "reverse-relationships";
  authorization = includes supported "check-permission";
  schema = includes supported "get-schema";
  cache = includes supported "get-cache-info";
  consistency = ltb 1 (length modes);
}

-- `consistencyModes[0].id` throws if there is no mode.
abbrev pub first_id : List Shown → Result PresentationError (Option String)
first_id [] = err no_mode
first_id (mode ∷ modes) = ok (id_of mode)

-- With the facts at hand.
unfoldable pub present : Runtime → Capabilities → Limits → Result PresentationError Presentation
unfolding project_terms project_term normalize_limits
present r c limits = do
  operations ← project_terms c.operations operation_presentation "operation"
  modes ← project_terms c.consistency_modes consistency_presentation "consistency mode"
  snapshot ← project_term c.snapshot_behavior snapshot_presentation "snapshot behavior"
  cache ← project_term c.cache_behavior cache_presentation "cache behavior"
  mutation ← project_term c.mutation_locality mutation_presentation "mutation locality"
  limitations ← project_terms c.limitations limitation_presentation "limitation"
  default_mode ← first_id modes
  bounds ← normalize_limits limits
  ok (record {
    label = label_of r;
    snap_start = snap_start_text r.snap_start;
    operations = operations;
    controls = controls_of (list_of c.operations) modes;
    default_mode = default_mode;
    modes = modes;
    snapshot = snapshot;
    cache = cache;
    mutation = mutation;
    limitations = limitations;
    limits = bounds;
  })

unfoldable pub project_descriptor_presentation : Descriptor → Result PresentationError Presentation
unfolding present
project_descriptor_presentation d = elim d.runtime [
  | none ↦ err incomplete
  | some r ↦ elim d.capabilities [
    | none ↦ err incomplete
    | some c ↦ if d.has_facts then present r c d.limits else err incomplete
  ]
]
