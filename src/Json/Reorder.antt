-- ===== src/Json/Reorder.antt =====
-- The canonical form does not depend on the order in which an object lists its members.
use eacl_demo.Base.{String, Result, ok, err, ◌>>=◌, ◌≡◌, refl, ◌≢◌, ◌∙◌, ap, arith}
use eacl_demo.Json.{Json, arr, obj, Items, nil, cons, Members, end, member}
use eacl_demo.Json.Order.{
  flip, utf16, key_order, key_order-utf16, compare_units-flip, compare_units-eq,
  compare_units_trans,
}
use eacl_demo.Json.Canonical.{
  NotCanonical, not_canonical, insert_member, canonical_value, canonical_items, canonical_members,
  canonical_json,
}

-- The same value, but for the order of members, at any depth.
mutual
  pub data Same : Json → Json → Type 0 where
    leaf : (v : Json) → Same v v
    arrays : {xs ys : Items} → SameItems xs ys → Same (arr xs) (arr ys)
    objects : {ms ns : Members} → Reorder ms ns → Same (obj ms) (obj ns)

  pub data SameItems : Items → Items → Type 0 where
    no_items : SameItems nil nil
    items :
        {x y : Json} {xs ys : Items}
        → Same x y
        → SameItems xs ys
        → SameItems (cons x xs) (cons y ys)

  pub data Reorder : Members → Members → Type 0 where
    no_members : Reorder end end
    keep :
        {v w : Json} {ms ns : Members} (k : String)
        → Same v w
        → Reorder ms ns
        → Reorder (member k v ms) (member k w ns)
    swap :
        (k j : String) (v w : Json) (ms : Members)
        → utf16 k ≢ utf16 j
        → Reorder (member k v (member j w ms)) (member j w (member k v ms))
    trans : {ms ns os : Members} → Reorder ms ns → Reorder ns os → Reorder ms os

insert_member_comm :
    (k j : String) (v w : Json) (ms : Members)
    → key_order k ≢ key_order j
    → insert_member k v (insert_member j w ms) ≡ insert_member j w (insert_member k v ms)
unfolding insert_member flip
insert_member_comm k j v w end h = ground (
  arith,
  compare_units-flip (key_order k) (key_order j),
  compare_units-eq (key_order k) (key_order j),
)
insert_member_comm k j v w (member i u ms) h = ground (
  arith,
  insert_member_comm k j v w ms,
  compare_units-flip (key_order k) (key_order j),
  compare_units-eq (key_order k) (key_order j),
  compare_units-flip (key_order k) (key_order i),
  compare_units-flip (key_order j) (key_order i),
  compare_units_trans (key_order k) (key_order i) (key_order j),
  compare_units_trans (key_order j) (key_order i) (key_order k),
  compare_units_trans (key_order i) (key_order k) (key_order j),
  compare_units_trans (key_order i) (key_order j) (key_order k),
  compare_units_trans (key_order k) (key_order j) (key_order i),
  compare_units_trans (key_order j) (key_order k) (key_order i),
)

-- The first two members of an object may be read in either order.
swap_lem :
    (k j : String) (a b : Result NotCanonical Json) (c : Result NotCanonical Members)
    → key_order k ≢ key_order j
    → (a >>= λ v.
        (b >>= λ w. c >>= λ ms. ok (insert_member j w ms)) >>= λ ms. ok (insert_member k v ms))
      ≡ (b >>= λ w.
          (a >>= λ v. c >>= λ ms. ok (insert_member k v ms)) >>= λ ms. ok (insert_member j w ms))
swap_lem k j (ok v) (ok w) (ok ms) h = ap ok (insert_member_comm k j v w ms h)
swap_lem k j (ok v) (ok w) (err e) h = refl
swap_lem k j (ok v) (err not_canonical) c h = refl
swap_lem k j (err not_canonical) (ok w) (ok ms) h = refl
swap_lem k j (err not_canonical) (ok w) (err not_canonical) h = refl
swap_lem k j (err not_canonical) (err not_canonical) c h = refl

mutual
  unfolding canonical_value

  canonical_value-Same : {v w : Json} → Same v w → canonical_value v ≡ canonical_value w
  canonical_value-Same (leaf v) = refl
  canonical_value-Same (arrays s) = rw (canonical_items-Same s) refl
  canonical_value-Same (objects r) = rw (canonical_members-Reorder r) refl

  canonical_items-Same : {xs ys : Items} → SameItems xs ys → canonical_items xs ≡ canonical_items ys
  canonical_items-Same no_items = refl
  canonical_items-Same (items s ss) = rw (canonical_value-Same s, canonical_items-Same ss) refl

  canonical_members-Reorder :
      {ms ns : Members} → Reorder ms ns → canonical_members ms ≡ canonical_members ns
  canonical_members-Reorder no_members = refl
  canonical_members-Reorder (keep k s r) =
      rw (canonical_value-Same s, canonical_members-Reorder r) refl
  canonical_members-Reorder (swap k j v w ms h) =
      swap_lem k j (canonical_value v) (canonical_value w) (canonical_members ms)
        λ e. h (key_order-utf16 k j e)
  canonical_members-Reorder (trans r q) = canonical_members-Reorder r ∙ canonical_members-Reorder q

-- Two values that differ only in the order of members with distinct keys, at any depth, have the
-- same canonical JSON, or both have none.
pub canonical_json-Same : {v w : Json} → Same v w → canonical_json v ≡ canonical_json w
unfolding canonical_json
canonical_json-Same s = rw (canonical_value-Same s) refl
