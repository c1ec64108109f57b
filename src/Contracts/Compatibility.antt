-- ===== src/Contracts/Compatibility.antt =====
-- packages/contracts/src/compatibility.mjs: which revisions of a contract work together.
use Prim.Native.String.{◌++◌ as text_append}
use eacl_demo.Base.{
  ℕ, ◌+◌, ◌<◌, ◌≡◌, refl, ap, ◌∙◌, Bool, true, false, not, ◌&&◌, ◌||◌, ◌==◌, ==_iff, ltb, leb,
  str_eq, str_eq_iff, sym, if◌then◌else◌, String, decimal, Result, ok, err, ◌>>◌, require,
  bind-eq-ok, arith,
}

pub record Identity : Type 0 where
  pub contract : String
  pub route_major : ℕ
  pub revision : ℕ

pub data ContractError : Type 0 where
  invalid_identity bad_semantics needs_new_major needs_next_revision : ContractError

abbrev pub max_safe_integer : ℕ
max_safe_integer = 9007199254740991

unfoldable pub validate_identity : Identity → Result ContractError (Unit {0})
validate_identity v =
    require
      (str_eq v.contract (text_append "explorer.v" (decimal v.route_major))
        && leb v.route_major max_safe_integer
        && leb 1 v.route_major
        && leb v.revision max_safe_integer)
      invalid_identity

pub data Negotiated : Type 0 where
  route_major_mismatch profile_newer_than_client outside_window : Negotiated
  mode_n mode_n_minus_1 : Negotiated

-- `profile.revision < client.revision - 1`, which may be negative there.
unfoldable pub negotiate : Identity → Identity → Negotiated
negotiate client profile =
    if not (client.route_major == profile.route_major)
      || not (str_eq client.contract profile.contract)
    then route_major_mismatch
    else if ltb client.revision profile.revision
    then profile_newer_than_client
    else if ltb (profile.revision + 1) client.revision
    then outside_window
    else if profile.revision == client.revision
    then mode_n
    else mode_n_minus_1

unfoldable pub negotiate_contract : Identity → Identity → Result ContractError Negotiated
negotiate_contract client profile = do
  validate_identity client
  validate_identity profile
  ok (negotiate client profile)

unfoldable pub require_compatible_evolution :
    Identity → Identity → String → Result ContractError (Unit {0})
require_compatible_evolution from to semantics = do
  validate_identity from
  validate_identity to
  require (str_eq semantics "additive" || str_eq semantics "incompatible") bad_semantics
  require (not (str_eq semantics "incompatible" && from.route_major == to.route_major))
      needs_new_major
  require
      (not (
        str_eq semantics "additive"
        && from.route_major == to.route_major
        && not (to.revision == from.revision + 1)))
      needs_next_revision

required : (b : Bool) (e : ContractError) → require b e ≡ ok tt → b ≡ true
required true e h = refl
required false e h = cc

first_of_four : (a b c d : Bool) → (a && b && c && d) ≡ true → a ≡ true
first_of_four a b c d h = ground arith

named_contract :
    (v : Identity)
    → validate_identity v ≡ ok tt
    → v.contract ≡ text_append "explorer.v" (decimal v.route_major)
unfolding validate_identity
named_contract v h =
    let name = text_append "explorer.v" (decimal v.route_major) in
    (str_eq_iff v.contract name).0 (
      first_of_four (str_eq v.contract name) (leb v.route_major max_safe_integer)
        (leb 1 v.route_major) (leb v.revision max_safe_integer)
        (required
          (str_eq v.contract name
            && leb v.route_major max_safe_integer
            && leb 1 v.route_major
            && leb v.revision max_safe_integer)
          invalid_identity h))

succeeds : (m n r s : ℕ) → m ≡ n → not (m == n && not (r == s)) ≡ true → r ≡ s
succeeds m n r s h e = ground arith

evolved :
    (old new : Identity)
    → new.route_major ≡ old.route_major
    → require_compatible_evolution old new "additive" ≡ ok tt
    → (validate_identity old ≡ ok tt)
      × (validate_identity new ≡ ok tt)
      × (new.revision ≡ old.revision + 1)
      × (new.contract ≡ old.contract)
unfolding require_compatible_evolution
evolved old new same h =
    let (_, v1, h1) = bind-eq-ok (validate_identity old) _ h in
    let (_, v2, h2) = bind-eq-ok (validate_identity new) _ h1 in
    (
      v1,
      v2,
      succeeds old.route_major new.route_major new.revision (old.revision + 1) (sym same)
          (required _ needs_next_revision h2),
      named_contract new v2
          ∙ ap (λ m. text_append "explorer.v" (decimal m)) same
          ∙ sym (named_contract old v1),
    )

negotiate-behind :
    (c p : Identity)
    → c.route_major ≡ p.route_major
    → c.contract ≡ p.contract
    → c.revision ≡ p.revision + 1
    → negotiate c p ≡ mode_n_minus_1
unfolding negotiate
negotiate-behind c p m t r = ground (arith, (str_eq_iff c.contract p.contract).1)

negotiate-outside :
    (c p : Identity)
    → c.route_major ≡ p.route_major
    → c.contract ≡ p.contract
    → p.revision + 1 < c.revision
    → negotiate c p ≡ outside_window
unfolding negotiate
negotiate-outside c p m t r = ground (arith, (str_eq_iff c.contract p.contract).1)

negotiate-newer :
    (c p : Identity)
    → c.route_major ≡ p.route_major
    → c.contract ≡ p.contract
    → c.revision < p.revision
    → negotiate c p ≡ profile_newer_than_client
unfolding negotiate
negotiate-newer c p m t r = ground (arith, (str_eq_iff c.contract p.contract).1)

-- One accepted additive change within a route major keeps the two sides together, a second one does
-- not: a client of the new revision works with a profile of the old one in the mode N-1, a client
-- of the revision after that refuses it, and the profile with the newer contract is refused by
-- the client with the older one. The same change called incompatible is not accepted.
pub require_compatible_evolution-negotiates :
    (old new newer : Identity)
    → new.route_major ≡ old.route_major
    → newer.route_major ≡ new.route_major
    → require_compatible_evolution old new "additive" ≡ ok tt
    → require_compatible_evolution new newer "additive" ≡ ok tt
    → (negotiate_contract new old ≡ ok mode_n_minus_1)
      × (negotiate_contract newer old ≡ ok outside_window)
      × (negotiate_contract old new ≡ ok profile_newer_than_client)
      × (require_compatible_evolution old new "incompatible" ≡ err needs_new_major)
unfolding require_compatible_evolution negotiate_contract
require_compatible_evolution-negotiates old new newer m1 m2 e1 e2 =
    let (v1, v2, r1, c1) = evolved old new m1 e1 in
    let (_, v3, r2, c2) = evolved new newer m2 e2 in
    (
      rw (v2, v1, negotiate-behind new old m1 c1 r1) refl,
      rw (v3, v1, negotiate-outside newer old (m2 ∙ m1) (c2 ∙ c1) (omega arith)) refl,
      rw (v1, v2, negotiate-newer old new (sym m1) (sym c1) (omega arith)) refl,
      rw (v1, v2, (==_iff old.route_major new.route_major).1 (sym m1)) refl,
    )
