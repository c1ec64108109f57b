-- ===== src/Explorer/Selection.antt =====
-- packages/explorer-state/src/selection.mjs: which backend and storage are selected. A request that
-- is missing is `none`.
use eacl_demo.Base.{
  ◌≡◌, refl, subst, sym, ap, ◌∙◌, Bool, true, false, str_eq, str_eq_iff, if◌then◌else◌,
  elim_holds_eq, elim_some, Bool-cases, Option-cases, inl, inr, String, List, [], ◌∷◌, Option, none,
  some, Result, ok, err, OnOk, OnOk-apply, includes, string_eq, arith,
}

pub record Backend : Type 0 where
  pub id : String
  pub storages : List String

pub record Storage : Type 0 where
  pub id : String
  pub label : String

pub record Catalog : Type 0 where
  pub default_backend : String
  pub backends : List Backend
  pub storages : List Storage

pub record Selection : Type 0 where
  pub backend : String
  pub storage : String

pub data SelectionError : Type 0 where
  no_default_backend : SelectionError
  no_storage : String → SelectionError

pub find_in : String → List Backend → Option Backend
find_in id [] = none
find_in id (b ∷ bs) = if str_eq b.id id then some b else find_in id bs

unfoldable pub find_backend : Catalog → String → Option Backend
unfolding find_in
find_backend catalog id = find_in id catalog.backends

abbrev pub find_requested : Catalog → Option String → Option Backend
find_requested catalog none = none
find_requested catalog (some id) = find_backend catalog id

abbrev pub offers : Backend → Option String → Bool
offers b none = false
offers b (some storage) = includes b.storages storage

abbrev pub first_storage : List String → Option String
first_storage [] = none
first_storage (s ∷ ss) = some s

-- `backend.storages.includes(wanted) ? wanted : fallback`
abbrev pub offered_or : Backend → Option String → Option String → Option String
offered_or b none fallback = fallback
offered_or b (some wanted) fallback = if includes b.storages wanted then some wanted else fallback

abbrev pub with_storage : Backend → Option String → Result SelectionError Selection
with_storage b none = err (no_storage b.id)
with_storage b (some storage) = ok (record { backend = b.id; storage = storage })

-- An empty text is falsy too.
abbrev pub truthy : Option String → Option String
truthy none = none
truthy (some String.[]) = none
truthy (some (String.◌∷◌ c s)) = some (String.◌∷◌ c s)

-- The parameters are the values of `backend` and `storage`.
unfoldable pub initial_selection :
    Catalog → Option String → Option String → Result SelectionError Selection
initial_selection catalog requested_backend requested_storage =
    elim (find_backend catalog catalog.default_backend) [
      | none ↦ err no_default_backend
      | some default ↦
          let b : Backend = elim (find_requested catalog requested_backend) [
            | none ↦ default
            | some b ↦ b
          ] in
          with_storage b (truthy (offered_or b requested_storage (first_storage b.storages)))
    ]

-- The storage is `undefined` for a backend without any.
unfoldable pub select_backend :
    Catalog → Selection → String → Option String → String × Option String
select_backend catalog current backend_id default_storage = elim (find_backend catalog backend_id) [
  | none ↦ (current.backend, some current.storage)
  | some b ↦ (
    b.id,
    offered_or b default_storage (offered_or b (some current.storage) (first_storage b.storages)),
  )
]

-- A selection of the catalog: a backend of it, and a storage that this backend offers.
abbrev pub IsOffered : Catalog → String → String → Type 0
IsOffered catalog backend storage =
    (b : Backend) × (find_backend catalog backend ≡ some b) × (includes b.storages storage ≡ true)

found-id : (id : String) (bs : List Backend) (b : Backend) → find_in id bs ≡ some b → b.id ≡ id
unfolding find_in
found-id id [] b h = cc
found-id id (c ∷ bs) b h = elim (Bool-cases (str_eq c.id id)) [
  | inl e ↦
      let same : c ≡ b = cc in ap (λ (x : Backend). x.id) (sym same) ∙ (str_eq_iff c.id id).0 e
  | inr e ↦ let rest : find_in id bs ≡ some b = cc in found-id id bs b rest
]

offered_or-includes :
    (b : Backend) (wanted fallback : Option String) (s : String)
    → (fallback ≡ some s → includes b.storages s ≡ true)
    → offered_or b wanted fallback ≡ some s
    → includes b.storages s ≡ true
offered_or-includes b none fallback s h e = h e
offered_or-includes b (some w) fallback s h e = elim (Bool-cases (includes b.storages w)) [
  | inl here ↦ let same : w ≡ s = cc in subst (λ x. includes b.storages x ≡ true) same here
  | inr out ↦ let rest : fallback ≡ some s = cc in h rest
]

first_storage-includes :
    (storages : List String) (s : String)
    → first_storage storages ≡ some s
    → includes storages s ≡ true
first_storage-includes [] s e = cc
first_storage-includes (t ∷ ts) s e =
    let same : t ≡ s = cc in ground (arith, (str_eq_iff t s).1 same)

truthy-eq : (o : Option String) (s : String) → truthy o ≡ some s → o ≡ some s
truthy-eq none s e = cc
truthy-eq (some String.[]) s e = cc
truthy-eq (some (String.◌∷◌ c t)) s e = e

find_requested-found :
    (catalog : Catalog) (requested : Option String) (b : Backend)
    → find_requested catalog requested ≡ some b
    → find_backend catalog b.id ≡ some b
unfolding find_backend
find_requested-found catalog none b e = cc
find_requested-found catalog (some id) b e =
    ap (λ i. find_in i catalog.backends) (found-id id catalog.backends b e) ∙ e

truthy_again : (o : Option String) (s : String) → truthy o ≡ some s → truthy (some s) ≡ some s
truthy_again none s e = cc
truthy_again (some String.[]) s e = cc
truthy_again (some (String.◌∷◌ c t)) s e = let same : String.◌∷◌ c t ≡ s = cc in rw⁻¹ same refl

-- What a selection is made of: a backend that is found, and a storage of it that is no empty text.
abbrev IsMade : Catalog → Selection → Type 0
IsMade catalog s =
    (b : Backend) × (find_backend catalog b.id ≡ some b)
    × (s.backend ≡ b.id)
    × (includes b.storages s.storage ≡ true)
    × (truthy (some s.storage) ≡ some s.storage)

with_storage-IsMade :
    (catalog : Catalog) (b : Backend) (wanted : Option String)
    → find_backend catalog b.id ≡ some b
    → OnOk
        (IsMade catalog)
        (with_storage b (truthy (offered_or b wanted (first_storage b.storages))))
with_storage-IsMade catalog b wanted found =
    elim (Option-cases (truthy (offered_or b wanted (first_storage b.storages)))) [
      | inl e ↦ rw e tt
      | inr (storage, e) ↦ rw e (
        b,
        found,
        refl,
        offered_or-includes b wanted (first_storage b.storages) storage
            (first_storage-includes b.storages storage) (truthy-eq _ storage e),
        truthy_again _ storage e,
      )
    ]

requested_or-found :
    (catalog : Catalog) (requested : Option String) (default : Backend)
    → find_backend catalog default.id ≡ some default
    → let b : Backend = elim (find_requested catalog requested) [ none ↦ default | some b ↦ b ] in
      find_backend catalog b.id ≡ some b
requested_or-found catalog requested default found =
    elim (Option-cases (find_requested catalog requested)) [
      | inl e ↦ rw e found
      | inr (b, e) ↦ rw e (find_requested-found catalog requested b e)
    ]

initial_selection-IsMade :
    (catalog : Catalog) (backend storage : Option String)
    → OnOk (IsMade catalog) (initial_selection catalog backend storage)
unfolding initial_selection
initial_selection-IsMade catalog backend storage =
    elim_holds_eq (OnOk (IsMade catalog)) (find_backend catalog catalog.default_backend) (λ _. tt)
      (λ default e. with_storage-IsMade catalog _ storage (
        requested_or-found catalog backend default
          (find_requested-found catalog (some catalog.default_backend) default e)))

has_default :
    (catalog : Catalog) (backend storage : Option String) (s : Selection)
    → initial_selection catalog backend storage ≡ ok s
    → (d : Backend) × (find_backend catalog catalog.default_backend ≡ some d)
unfolding initial_selection
has_default catalog backend storage s h =
    elim (Option-cases (find_backend catalog catalog.default_backend)) [
      | inl e ↦ cc
      | inr (d, e) ↦ (d, e)
    ]

-- Whatever the address asks for, the initial selection is a backend of the catalog with a storage
-- that this backend offers, and asking for this selection gives it back.
pub initial_selection-IsOffered :
    (catalog : Catalog) (backend storage : Option String) (s : Selection)
    → initial_selection catalog backend storage ≡ ok s
    → IsOffered catalog s.backend s.storage
      × (initial_selection catalog (some s.backend) (some s.storage) ≡ ok s)
unfolding initial_selection
initial_selection-IsOffered catalog backend storage s h =
    let (b, found, same, offered, text) =
      OnOk-apply (IsMade catalog) (initial_selection catalog backend storage) s
        (initial_selection-IsMade catalog backend storage) h in
    let (d, default) = has_default catalog backend storage s h in
    let mine : find_backend catalog s.backend ≡ some b = ap (find_backend catalog) same ∙ found in
    (
      (b, mine, offered),
      elim_some (λ r. r ≡ ok s) (find_backend catalog catalog.default_backend) d _ _ default
          (elim_some
            (λ (x : Backend).
              with_storage x (truthy (offered_or x (some s.storage) (first_storage x.storages)))
              ≡ ok s)
            (find_backend catalog s.backend) b _ _ mine
            (rw (offered, text)
              (ap (λ i. ok (record { backend = i; storage = s.storage })) (sym same)))),
    )

-- Selecting a backend keeps the selection within the catalog: the storage that is selected then, if
-- there is one, is offered by the backend that is selected then.
pub select_backend-IsOffered :
    (catalog : Catalog) (current : Selection) (id : String) (default : Option String)
    (storage : String)
    → IsOffered catalog current.backend current.storage
    → (select_backend catalog current id default).1 ≡ some storage
    → IsOffered catalog ((select_backend catalog current id default).0) storage
unfolding select_backend
select_backend-IsOffered catalog current id default storage h e =
    elim_holds_eq
      (λ (r : String × Option String). r.1 ≡ some storage → IsOffered catalog (r.0) storage)
      (find_backend catalog id)
      (λ _ e.
        let same : current.storage ≡ storage = cc in
        subst (λ x. IsOffered catalog current.backend x) same h)
      (λ b found e. (
        b,
        find_requested-found catalog (some id) b found,
        offered_or-includes b default
            (offered_or b (some current.storage) (first_storage b.storages)) storage
            (λ e2.
              offered_or-includes b (some current.storage) (first_storage b.storages) storage
                (first_storage-includes b.storages storage) e2)
            e,
      ))
      e
