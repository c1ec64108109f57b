-- ===== src/Fixture/Records.antt =====
-- packages/fixture-generator/generator.mjs: objects, records and the resource bundles.
use Prim.Native.String.{◌++◌}
use eacl_demo.Base.{
  ℕ, ◌-◌, ◌%◌, String, Bool, not, ◌&&◌, ltb, ◌==◌, if◌then◌else◌, List, [], ◌∷◌, decimal,
}
use mathlib.Core.List.{◌++◌ as append}

pub record ObjectRef : Type 0 where
  pub type : String
  pub id : String

abbrev pub object : String → String → ObjectRef
object type id = record { type = type; id = id }

-- By the field `kind` of a record.
pub data FixtureRecord : Type 0 where
  object_kind : String → ObjectRef → FixtureRecord
  relationship_kind : String → ObjectRef → ObjectRef → FixtureRecord

abbrev pub object_record : String → String → String → FixtureRecord
object_record role type id = object_kind role (object type id)

-- The resource stands before the subject, as in the source's record.
abbrev pub relationship_record : String → String → String → String → String → FixtureRecord
relationship_record subject_type subject_id relation resource_type resource_id =
    relationship_kind relation (object resource_type resource_id) (object subject_type subject_id)

pub record Bundle : Type 0 where
  pub resource : ObjectRef
  pub records : List FixtureRecord

abbrev pub teams_per_account : ℕ
teams_per_account = 4

abbrev pub vpcs_per_account : ℕ
vpcs_per_account = 2

abbrev pub account_parent_group_size : ℕ
account_parent_group_size = 4

abbrev pub server_parent_group_size : ℕ
server_parent_group_size = 8

unfoldable pub account_id : ℕ → String
account_id account = "account-" ++ decimal account

unfoldable pub owner_id : ℕ → String
owner_id account = account_id account ++ "-owner"

unfoldable pub team_id : ℕ → ℕ → String
team_id account team = account_id account ++ "-team-" ++ decimal team

unfoldable pub leader_id : ℕ → ℕ → String
leader_id account team = team_id account team ++ "-leader"

unfoldable pub vpc_id : ℕ → ℕ → String
vpc_id account vpc = account_id account ++ "-vpc-" ++ decimal vpc

unfoldable pub admin_id : ℕ → ℕ → String
admin_id account vpc = vpc_id account vpc ++ "-admin"

unfoldable pub server_id : ℕ → ℕ → String
server_id account server = account_id account ++ "-server-" ++ decimal server

unfoldable pub root_bundle : Bundle
root_bundle = record {
  resource = object "platform" "platform";
  records =
      object_record "resource" "platform" "platform"
      ∷ object_record "subject" "user" "super-user"
      ∷ object_record "subject" "user" "user-1"
      ∷ object_record "subject" "user" "user-2"
      ∷ relationship_record "user" "super-user" "super_admin" "platform" "platform"
      ∷ [];
}

-- `if (test) records.push(record)`
abbrev pub push_if : Bool → FixtureRecord → List FixtureRecord → List FixtureRecord
push_if test r records = if test then append records (r ∷ []) else records

unfoldable pub account_bundle : ℕ → Bundle
account_bundle account =
    let start : List FixtureRecord =
      object_record "subject" "user" (owner_id account)
      ∷ object_record "resource" "account" (account_id account)
      ∷ relationship_record "platform" "platform" "platform" "account" (account_id account)
      ∷ relationship_record "user" (owner_id account) "owner" "account" (account_id account)
      ∷ [] in
    let with_parent : List FixtureRecord =
      push_if (ltb 0 account && not (account % account_parent_group_size == 0))
        (relationship_record "account" (account_id (account - 1)) "parent" "account"
          (account_id account))
        start in
    let with_back : List FixtureRecord =
      push_if (account == 1)
        (relationship_record "account" (account_id 1) "parent" "account" (account_id 0))
        with_parent in
    let with_user_1 : List FixtureRecord =
      push_if (account == 0)
        (relationship_record "user" "user-1" "owner" "account" (account_id account)) with_back in
    record {
      resource = object "account" (account_id account);
      records =
          push_if (account == 4)
            (relationship_record "user" "user-2" "owner" "account" (account_id account))
            with_user_1;
    }

unfoldable pub team_bundle : ℕ → ℕ → Bundle
team_bundle account team = record {
  resource = object "team" (team_id account team);
  records =
      object_record "subject" "user" (leader_id account team)
      ∷ object_record "resource" "team" (team_id account team)
      ∷ relationship_record "account" (account_id account) "account" "team" (team_id account team)
      ∷ relationship_record "user" (leader_id account team) "leader" "team" (team_id account team)
      ∷ [];
}

unfoldable pub vpc_bundle : ℕ → ℕ → Bundle
vpc_bundle account vpc = record {
  resource = object "vpc" (vpc_id account vpc);
  records =
      object_record "subject" "user" (admin_id account vpc)
      ∷ object_record "resource" "vpc" (vpc_id account vpc)
      ∷ relationship_record "account" (account_id account) "account" "vpc" (vpc_id account vpc)
      ∷ relationship_record "user" (admin_id account vpc) "shared_admin" "vpc" (vpc_id account vpc)
      ∷ [];
}

unfoldable pub server_bundle : ℕ → ℕ → Bundle
server_bundle account server = record {
  resource = object "server" (server_id account server);
  records =
      push_if (ltb 0 server && not (server % server_parent_group_size == 0))
        (relationship_record "server" (server_id account (server - 1)) "parent" "server"
          (server_id account server))
        (object_record "resource" "server" (server_id account server)
          ∷ relationship_record "account" (account_id account) "account" "server"
              (server_id account server)
          ∷ relationship_record "team" (team_id account (server % teams_per_account)) "team"
              "server" (server_id account server)
          ∷ relationship_record "vpc" (vpc_id account (server % vpcs_per_account)) "vpc" "server"
              (server_id account server)
          ∷ []);
}
