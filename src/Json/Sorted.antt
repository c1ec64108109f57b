-- ===== src/Json/Sorted.antt =====
-- The order of the members of a canonical form.
use eacl_demo.Base.{ℕ, String, ok, ◌≡◌, refl, arith, OnOk, OnOk-bind, OnOk-apply, ◌^◌, ◌-◌, ◌≤◌}
use eacl_demo.Json.{
  Json, null, bool, num, unsafe, str, arr, obj, Items, nil, cons, Members, end, member,
}
use eacl_demo.Json.Order.{flip, key_order, Precedes, key_order-Precedes, compare_units-flip}
use eacl_demo.Json.Canonical.{insert_member, canonical_value, canonical_items, canonical_members}

abbrev pub max_safe_integer : ℕ
max_safe_integer = 2 ^ 53 - 1

-- `k` is not listed after the first key.
abbrev NotAfter : String → Members → Type 0
NotAfter k end = Unit {0}
NotAfter k (member j w ms) = Precedes k j

abbrev pub IsOrdered : Members → Type 0
IsOrdered end = Unit {0}
IsOrdered (member k v ms) = NotAfter k ms × IsOrdered ms

insert_member-NotAfter :
    (i k : String) (v : Json) (ms : Members)
    → NotAfter i ms
    → Precedes i k
    → NotAfter i (insert_member k v ms)
unfolding insert_member
insert_member-NotAfter i k v end h g = g
insert_member-NotAfter i k v (member j w ms) h g = ground arith

insert_member-IsOrdered :
    (k : String) (v : Json) (ms : Members) → IsOrdered ms → IsOrdered (insert_member k v ms)
unfolding insert_member flip
insert_member-IsOrdered k v end h = (tt, tt)
insert_member-IsOrdered k v (member j w ms) h = ground (
  arith,
  compare_units-flip (key_order k) (key_order j),
  key_order-Precedes k j,
  key_order-Precedes j k,
  insert_member-IsOrdered k v ms h.1,
  insert_member-NotAfter j k v ms h.0,
)

-- Inserting before a list that is in order changes nothing else.
insert_member_first :
    (k : String) (v : Json) (ms : Members) → NotAfter k ms → insert_member k v ms ≡ member k v ms
unfolding insert_member flip
insert_member_first k v end h = refl
insert_member_first k v (member j w ms) h =
    ground (arith, compare_units-flip (key_order k) (key_order j), (key_order-Precedes k j).1 h)

-- Every member of an object is in canonical form, and so is what they hold.
abbrev mutual
  pub IsCanonical : Json → Type 0
  IsCanonical null = Unit {0}
  IsCanonical (bool b) = Unit {0}
  IsCanonical (num n) = n ≤ max_safe_integer
  IsCanonical unsafe = ⊥
  IsCanonical (str s) = Unit {0}
  IsCanonical (arr xs) = AreCanonical xs
  IsCanonical (obj ms) = IsOrdered ms × HoldCanonical ms

  pub AreCanonical : Items → Type 0
  AreCanonical nil = Unit {0}
  AreCanonical (cons x xs) = IsCanonical x × AreCanonical xs

  pub HoldCanonical : Members → Type 0
  HoldCanonical end = Unit {0}
  HoldCanonical (member k v ms) = IsCanonical v × HoldCanonical ms

insert_member-HoldCanonical :
    (k : String) (v : Json) (ms : Members)
    → IsCanonical v
    → HoldCanonical ms
    → HoldCanonical (insert_member k v ms)
unfolding insert_member
insert_member-HoldCanonical k v end c h = (c, tt)
insert_member-HoldCanonical k v (member j w ms) c h =
    ground (arith, insert_member-HoldCanonical k v ms c h.1)

mutual
  unfolding canonical_value

  canonical_value-IsCanonical : (v : Json) → OnOk IsCanonical (canonical_value v)
  canonical_value-IsCanonical null = tt
  canonical_value-IsCanonical (bool b) = tt
  canonical_value-IsCanonical (num n) = ground arith
  canonical_value-IsCanonical unsafe = tt
  canonical_value-IsCanonical (str s) = tt
  canonical_value-IsCanonical (arr xs) =
      OnOk-bind AreCanonical IsCanonical (canonical_items xs) _ (canonical_items-AreCanonical xs)
        λ ys h. h
  canonical_value-IsCanonical (obj ms) =
      OnOk-bind (λ ns. IsOrdered ns × HoldCanonical ns) IsCanonical (canonical_members ms) _
        (canonical_members-IsOrdered ms) λ ns h. h

  canonical_items-AreCanonical : (xs : Items) → OnOk AreCanonical (canonical_items xs)
  canonical_items-AreCanonical nil = tt
  canonical_items-AreCanonical (cons x xs) =
      OnOk-bind IsCanonical AreCanonical (canonical_value x) _ (canonical_value-IsCanonical x)
        λ y hy.
          OnOk-bind AreCanonical AreCanonical (canonical_items xs) _
            (canonical_items-AreCanonical xs) λ ys h. (hy, h)

  canonical_members-IsOrdered :
      (ms : Members) → OnOk (λ ns. IsOrdered ns × HoldCanonical ns) (canonical_members ms)
  canonical_members-IsOrdered end = (tt, tt)
  canonical_members-IsOrdered (member k v ms) =
      OnOk-bind IsCanonical (λ ns. IsOrdered ns × HoldCanonical ns) (canonical_value v) _
        (canonical_value-IsCanonical v)
        λ w hw.
          OnOk-bind (λ ns. IsOrdered ns × HoldCanonical ns) (λ ns. IsOrdered ns × HoldCanonical ns)
            (canonical_members ms) _ (canonical_members-IsOrdered ms)
            λ ns h. (insert_member-IsOrdered k w ns h.0, insert_member-HoldCanonical k w ns hw h.1)

mutual
  unfolding canonical_value

  canonical_value_fixed : (v : Json) → IsCanonical v → canonical_value v ≡ ok v
  canonical_value_fixed null h = refl
  canonical_value_fixed (bool b) h = refl
  canonical_value_fixed (num n) h = ground arith
  canonical_value_fixed unsafe h = absurd h
  canonical_value_fixed (str s) h = refl
  canonical_value_fixed (arr xs) h = rw (canonical_items_fixed xs h) refl
  canonical_value_fixed (obj ms) h = rw (canonical_members_fixed ms h.0 h.1) refl

  canonical_items_fixed : (xs : Items) → AreCanonical xs → canonical_items xs ≡ ok xs
  canonical_items_fixed nil h = refl
  canonical_items_fixed (cons x xs) h =
      rw (canonical_value_fixed x h.0, canonical_items_fixed xs h.1) refl

  canonical_members_fixed :
      (ms : Members) → IsOrdered ms → HoldCanonical ms → canonical_members ms ≡ ok ms
  canonical_members_fixed end o h = refl
  canonical_members_fixed (member k v ms) o h =
      rw
        (
          canonical_value_fixed v h.0,
          canonical_members_fixed ms o.1 h.1,
          insert_member_first k v ms o.0,
        )
        refl

-- The canonical form lists the keys of every object in order, those that are array indices first and by
-- their number, the others after them and by their UTF-16 units, and is its own canonical form.
pub canonical_value_idem :
    (v w : Json) → canonical_value v ≡ ok w → IsCanonical w × (canonical_value w ≡ ok w)
canonical_value_idem v w e =
    let h : IsCanonical w =
      OnOk-apply IsCanonical (canonical_value v) w (canonical_value-IsCanonical v) e in
    (h, canonical_value_fixed w h)
