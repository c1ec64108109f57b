-- ===== src/Fixture/Stream/Round.antt =====
-- One round of the loop over the accounts yields the beginning of the account's block.
use mathlib.Core.List.{append_assoc, append-nil}
use native.Mathlib.Omega.{arith}
use eacl_demo.Base.{
  ℕ, suc, ◌+◌, ◌-◌, ◌≤◌, ◌<◌, min, ◌≡◌, refl, sym, ap, ◌∙◌, Bool, true, false, leb, List, [], ◌∷◌,
  ◌++◌, map, ok, length, take, Bool-cases, inl, inr, length-map, take-append, leb→le,
}
use eacl_demo.Fixture.Samples.{max_safe_integer, account_server_count}
use eacl_demo.Fixture.Samples.Bounds.{account_server_count_bounds}
use eacl_demo.Fixture.Records.{Bundle, account_bundle, team_bundle, vpc_bundle, server_bundle}
use eacl_demo.Fixture.Bundles.{Round, emit_while, account_round, servers_round}
use eacl_demo.Fixture.Stream.{range, account_block, server_total}
use eacl_demo.Fixture.Stream.Loops.{length-range, emit_while_lem, emitted-emit_while}

abbrev teams : ℕ → List Bundle
teams account = map (team_bundle account) (range 0 4)

abbrev vpcs : ℕ → List Bundle
vpcs account = map (vpc_bundle account) (range 0 2)

servers : ℕ → List Bundle
servers account = map (server_bundle account) (range 0 (server_total account))

-- The first resources of a block, by kind.
take-account_block :
    (account n : ℕ)
    → take (suc n) (account_block account)
      ≡ account_bundle account
        ∷ (take n (teams account)
            ++ (take (n - 4) (vpcs account) ++ take (n - 6) (servers account)))
unfolding account_block servers
take-account_block account n =
    let e : n - 4 - 2 ≡ n - 6 = omega arith in
    ap (account_bundle account ∷◌) (
      take-append n (teams account) _
      ∙ ap (take n (teams account) ++◌)
          (take-append (n - 4) (vpcs account) (servers account) ∙ rw e))

-- What a round gives back, for the account and the count with which it began.
pub record IsRound (account emitted cut : ℕ) (r : Round) : Type 0 where
  pub yielded : r.bundles ≡ take (cut - emitted) (account_block account)
  pub counted : r.emitted ≡ emitted + min (length (account_block account)) (cut - emitted)
  pub stopped : r.stop ≡ true → cut ≤ r.emitted

pub length-account_block : (account : ℕ) → length (account_block account) ≡ 7 + server_total account
unfolding account_block
length-account_block account = omega (
  arith,
  length-map (server_bundle account) (range 0 (server_total account)),
  length-range 0 (server_total account),
)

account_server_count_total :
    (account : ℕ)
    → account ≤ max_safe_integer
    → account_server_count account ≡ ok (server_total account)
account_server_count_total account h =
    let (n, e, _, _) = account_server_count_bounds account h in rw (e, server_total) refl

module _ (account emitted cut : ℕ) (safe : account ≤ max_safe_integer) (room : emitted < cut) where
  budget : cut - emitted ≡ suc (cut - (emitted + 1))
  budget = omega arith

  after_teams : ℕ
  after_teams = (emit_while (team_bundle account) 4 0 (emitted + 1) cut).1

  after_vpcs : ℕ
  after_vpcs = (emit_while (vpc_bundle account) 2 0 after_teams cut).1

  after_teams_lem : after_teams ≡ emitted + 1 + min 4 (cut - (emitted + 1))
  unfolding after_teams
  after_teams_lem = emitted-emit_while (team_bundle account) 4 0 (emitted + 1) cut

  after_vpcs_lem : after_vpcs ≡ after_teams + min 2 (cut - after_teams)
  unfolding after_vpcs
  after_vpcs_lem = emitted-emit_while (vpc_bundle account) 2 0 after_teams cut

  left : ℕ
  left = cut - (emitted + 1)

  abbrev parts : List Bundle
  parts =
      account_bundle account
      ∷ (take left (teams account)
          ++ (take (left - 4) (vpcs account) ++ take (left - 6) (servers account)))

  made-IsRound :
      (bundles : List Bundle) (counted : ℕ) (stop : Bool)
      → bundles ≡ parts
      → counted ≡ emitted + min (7 + server_total account) (cut - emitted)
      → (stop ≡ true → cut ≤ counted)
      → IsRound account emitted cut (record { bundles = bundles; emitted = counted; stop = stop })
  unfolding left
  made-IsRound bundles counted stop y c s = record {
    yielded = rw budget (y ∙ sym (take-account_block account (cut - (emitted + 1))));
    counted = rw (length-account_block account) c;
    stopped = s;
  }

  yielded_teams :
      (emit_while (team_bundle account) 4 0 (emitted + 1) cut).0 ≡ take left (teams account)
  unfolding left
  yielded_teams = emit_while_lem (team_bundle account) 4 0 (emitted + 1) cut

  yielded_vpcs :
      (emit_while (vpc_bundle account) 2 0 after_teams cut).0 ≡ take (left - 4) (vpcs account)
  unfolding left
  yielded_vpcs =
      let e : cut - after_teams ≡ cut - (emitted + 1) - 4 = omega (arith, after_teams_lem) in
      emit_while_lem (vpc_bundle account) 2 0 after_teams cut ∙ rw e

  yielded_servers :
      (emit_while (server_bundle account) (server_total account) 0 after_vpcs cut).0
      ≡ take (left - 6) (servers account)
  unfolding left servers
  yielded_servers =
      let e : cut - after_vpcs ≡ cut - (emitted + 1) - 6 =
        omega (arith, after_teams_lem, after_vpcs_lem) in
      emit_while_lem (server_bundle account) (server_total account) 0 after_vpcs cut ∙ rw e

  cut_after_first :
      leb cut (emitted + 1) ≡ true
      → IsRound account emitted cut
          (record { bundles = account_bundle account ∷ []; emitted = emitted + 1; stop = true })
  cut_after_first c =
      let h = leb→le _ _ c in
      made-IsRound _ _ _ (let e : left ≡ 0 = unfold left in omega arith in rw e refl) (omega arith)
        (λ _. h)

  cut_after_teams : cut ≤ after_teams → account_bundle account ∷ take left (teams account) ≡ parts
  unfolding left
  cut_after_teams h =
      let e4 : left - 4 ≡ 0 = omega (arith, after_teams_lem) in
      let e6 : left - 6 ≡ 0 = omega (arith, after_teams_lem) in rw (e4, e6, append-nil) refl

  cut_after_vpcs :
      cut ≤ after_vpcs
      → account_bundle account ∷ (take left (teams account) ++ take (left - 4) (vpcs account))
        ≡ parts
  unfolding left
  cut_after_vpcs h =
      let e6 : left - 6 ≡ 0 = omega (arith, after_teams_lem, after_vpcs_lem) in
      rw (e6, append-nil) refl

  pub account_round-IsRound :
      (r : Round) × (account_round account emitted cut ≡ ok r) × IsRound account emitted cut r
  unfolding account_round after_teams after_vpcs
  account_round-IsRound = elim (Bool-cases (leb cut (emitted + 1))) [
    | inl c1 ↦ (
      record { bundles = account_bundle account ∷ []; emitted = emitted + 1; stop = true },
      rw c1 refl,
      cut_after_first c1,
    )
    | inr c1 ↦ elim (Bool-cases (leb cut after_teams)) [
      | inl c2 ↦ (
        record {
          bundles =
              account_bundle account ∷ (emit_while (team_bundle account) 4 0 (emitted + 1) cut).0;
          emitted = after_teams;
          stop = true;
        },
        rw (c1, c2) refl,
        made-IsRound _ _ _ (rw yielded_teams (cut_after_teams (leb→le _ _ c2)))
            (omega (arith, after_teams_lem, leb→le cut after_teams c2)) (λ _. leb→le _ _ c2),
      )
      | inr c2 ↦ elim (Bool-cases (leb cut after_vpcs)) [
        | inl c3 ↦ (
          record {
            bundles =
                account_bundle account
                ∷ ((emit_while (team_bundle account) 4 0 (emitted + 1) cut).0
                    ++ (emit_while (vpc_bundle account) 2 0 after_teams cut).0);
            emitted = after_vpcs;
            stop = true;
          },
          rw (c1, c2, c3) refl,
          made-IsRound _ _ _ (rw (yielded_teams, yielded_vpcs) (cut_after_vpcs (leb→le _ _ c3)))
              (omega (arith, after_teams_lem, after_vpcs_lem, leb→le cut after_vpcs c3))
              (λ _. leb→le _ _ c3),
        )
        | inr c3 ↦ (
          record {
            bundles =
                account_bundle account
                ∷ (((emit_while (team_bundle account) 4 0 (emitted + 1) cut).0
                      ++ (emit_while (vpc_bundle account) 2 0 after_teams cut).0)
                    ++ (emit_while (server_bundle account) (server_total account) 0 after_vpcs
                        cut).0);
            emitted =
                (emit_while (server_bundle account) (server_total account) 0 after_vpcs cut).1;
            stop = false;
          },
          rw (c1, c2, c3, servers_round, account_server_count_total account safe) refl,
          made-IsRound _ _ _ (rw (yielded_teams, yielded_vpcs, yielded_servers, append_assoc) refl)
              (omega (
                arith,
                after_teams_lem,
                after_vpcs_lem,
                emitted-emit_while (server_bundle account) (server_total account) 0 after_vpcs cut,
              ))
              (λ e. cc),
        )
      ]
    ]
  ]
