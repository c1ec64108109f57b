-- ===== src/Fixture/Stream.antt =====
-- What packages/fixture-generator/generator.mjs promises of `fixtureBundles`: every fixture is
-- the beginning of one stream, cut at the number of resources asked for.
pub mod Loops
pub mod Round
pub mod Cut
use eacl_demo.Base.{ℕ, zero, suc, List, [], ◌∷◌, ◌++◌, map, Result, ok, err}
use eacl_demo.Fixture.Samples.{account_server_count}
use eacl_demo.Fixture.Records.{
  Bundle, teams_per_account, vpcs_per_account, root_bundle, account_bundle, team_bundle, vpc_bundle,
  server_bundle,
}

abbrev pub range : ℕ → ℕ → List ℕ
range start zero = []
range start (suc n) = start ∷ range (suc start) n

abbrev pub server_total : ℕ → ℕ
server_total account = elim (account_server_count account) [ ok n ↦ n | err e ↦ zero ]

-- An account with all that it owns.
unfoldable pub account_block : ℕ → List Bundle
account_block account =
    account_bundle account
    ∷ (map (team_bundle account) (range 0 teams_per_account)
        ++ (map (vpc_bundle account) (range 0 vpcs_per_account)
            ++ map (server_bundle account) (range 0 (server_total account))))

-- The blocks of `n` accounts from `account` on.
unfoldable pub account_blocks : ℕ → ℕ → List Bundle
account_blocks account zero = []
account_blocks account (suc n) = account_block account ++ account_blocks (suc account) n

-- The stream up to `n` accounts.
unfoldable pub stream : ℕ → List Bundle
unfolding account_blocks account_block
stream n = root_bundle ∷ account_blocks 0 n
