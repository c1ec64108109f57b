-- ===== src/Json/Canonical.antt =====
-- packages/fixture-generator/canonical-json.mjs.
use eacl_demo.Base.{leb, if◌then◌else◌, String, Result, ok, err, ◌>>=◌, ◌^◌, ◌-◌}
use eacl_demo.Json.{
  Json, null, bool, num, unsafe, str, arr, obj, Items, nil, cons, Members, end, member, stringify,
}
use eacl_demo.Json.Order.{before, same, after, compare_units, key_order}

-- The `TypeError` of a value that has no canonical form.
pub data NotCanonical : Type 0 where
  not_canonical : NotCanonical

-- `Object.fromEntries` of the sorted keys: a member stands where JavaScript lists it, array indices
-- first, by their number, and the other keys after them, in the order of the sort.
unfoldable pub insert_member : String → Json → Members → Members
insert_member k v end = member k v end
insert_member k v (member j w ms) = elim (compare_units (key_order j) (key_order k)) [
  | before ↦ member j w (insert_member k v ms)
  | same ↦ member k v (member j w ms)
  | after ↦ member k v (member j w ms)
]

unfoldable mutual
  unfolding insert_member

  pub canonical_value : Json → Result NotCanonical Json
  canonical_value null = ok null
  canonical_value (bool b) = ok (bool b)
  canonical_value (num n) = if leb n (2 ^ 53 - 1) then ok (num n) else err not_canonical
  canonical_value unsafe = err not_canonical
  canonical_value (str s) = ok (str s)
  canonical_value (arr xs) = do ys ← canonical_items xs; ok (arr ys)
  canonical_value (obj ms) = do ns ← canonical_members ms; ok (obj ns)

  pub canonical_items : Items → Result NotCanonical Items
  canonical_items nil = ok nil
  canonical_items (cons x xs) = do y ← canonical_value x; ys ← canonical_items xs; ok (cons y ys)

  pub canonical_members : Members → Result NotCanonical Members
  canonical_members end = ok end
  canonical_members (member k v ms) = do
    w ← canonical_value v
    ns ← canonical_members ms
    ok (insert_member k w ns)

unfoldable pub canonical_json : Json → Result NotCanonical String
unfolding canonical_value stringify
canonical_json value = do canonical ← canonical_value value; ok (stringify canonical)
