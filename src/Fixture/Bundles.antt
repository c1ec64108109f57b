-- ===== src/Fixture/Bundles.antt =====
-- packages/fixture-generator/generator.mjs: `fixtureBundles`, the generator as the list that it
-- yields. `emitted` is the source's `emittedResources`.
use eacl_demo.Base.{
  ℕ, zero, suc, ◌+◌, Bool, true, false, ltb, leb, ◌==◌, if◌then◌else◌, List, [], ◌∷◌, ◌++◌, Result,
  ok, err, ◌>>=◌, ◌>>◌, require, ◌&&◌,
}
use eacl_demo.Fixture.Samples.{RangeError, account_server_count, max_safe_integer}
use eacl_demo.Fixture.Records.{
  Bundle, teams_per_account, vpcs_per_account, root_bundle, account_bundle, team_bundle, vpc_bundle,
  server_bundle,
}

pub data BundleError : Type 0 where
  bad_cut_point : BundleError
  bad_sample : RangeError → BundleError
  wrong_total : ℕ → BundleError

-- `for (k = ordinal; k < limit && emitted < cut; k += 1) { yield make(k); emitted += 1 }`, with
-- `left` the rounds up to the limit.
unfoldable pub emit_while : (ℕ → Bundle) → ℕ → ℕ → ℕ → ℕ → List Bundle × ℕ
emit_while make zero ordinal emitted cut = ([], emitted)
emit_while make (suc left) ordinal emitted cut =
    let rest = emit_while make left (suc ordinal) (emitted + 1) cut in
    if ltb emitted cut then (make ordinal ∷ rest.0, rest.1) else ([], emitted)

-- What a round of the loop over the accounts yields; `stop` is its `break`.
pub record Round : Type 0 where
  pub bundles : List Bundle
  pub emitted : ℕ
  pub stop : Bool

abbrev pub servers_round : ℕ → List Bundle → ℕ → ℕ → Result BundleError Round
servers_round account before emitted cut = elim (account_server_count account) [
  | err e ↦ err (bad_sample e)
  | ok server_count ↦
      let servers = emit_while (server_bundle account) server_count 0 emitted cut in
      ok (record { bundles = before ++ servers.0; emitted = servers.1; stop = false })
]

unfoldable pub account_round : ℕ → ℕ → ℕ → Result BundleError Round
account_round account emitted cut =
    let first = account_bundle account ∷ [] in
    if leb cut (emitted + 1)
    then ok (record { bundles = first; emitted = emitted + 1; stop = true })
    else let teams = emit_while (team_bundle account) teams_per_account 0 (emitted + 1) cut in
      if leb cut teams.1
      then ok (record { bundles = first ++ teams.0; emitted = teams.1; stop = true })
      else let vpcs = emit_while (vpc_bundle account) vpcs_per_account 0 teams.1 cut in
        if leb cut vpcs.1
        then ok (record { bundles = first ++ teams.0 ++ vpcs.0; emitted = vpcs.1; stop = true })
        else servers_round account (first ++ teams.0 ++ vpcs.0) vpcs.1 cut

abbrev pub prepend :
    List Bundle → Result BundleError (List Bundle × ℕ) → Result BundleError (List Bundle × ℕ)
prepend bundles (ok (rest, emitted)) = ok (bundles ++ rest, emitted)
prepend bundles (err e) = err e

-- The loop over the accounts, on fuel. A round emits a resource, so `cut` rounds are enough.
unfoldable pub account_loop : ℕ → ℕ → ℕ → ℕ → Result BundleError (List Bundle × ℕ)
account_loop zero account emitted cut = ok ([], emitted)
account_loop (suc fuel) account emitted cut = elim (ltb emitted cut) [
  | false ↦ ok ([], emitted)
  | true ↦ elim (account_round account emitted cut) [
    | err e ↦ err e
    | ok r ↦ elim r.stop [
      | true ↦ ok (r.bundles, r.emitted)
      | false ↦ prepend r.bundles (account_loop fuel (suc account) r.emitted cut)
    ]
  ]
]

unfoldable pub validate_cut_point : ℕ → Result BundleError (Unit {0})
validate_cut_point value = require (leb 1 value && leb value max_safe_integer) bad_cut_point

unfoldable pub fixture_bundles : ℕ → Result BundleError (List Bundle)
unfolding account_loop account_round emit_while account_server_count validate_cut_point
fixture_bundles cut = do
  validate_cut_point cut
  (bundles, emitted) ← account_loop cut 0 1 cut
  if emitted == cut then ok (root_bundle ∷ bundles) else err (wrong_total emitted)
