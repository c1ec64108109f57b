-- ===== src/Examples/Contracts.antt =====
-- packages/contracts and packages/data-lifecycle at concrete inputs.
use eacl_demo.Base.{
  ℕ, ◌+◌, ◌≡◌, ◌≢◌, ◌≤◌, refl, Bool, true, false, String, [], ◌∷◌, none, some, ok, decimal,
}
use eacl_demo.Json.{Json}
use eacl_demo.Explorer.Types.{Deployment, Profile}
use eacl_demo.Contracts.Boundary.{
  Boundary, no_requests, admit, stay, then_move, Move, IsCounted, Moves-IsCounted,
}
use eacl_demo.Contracts.Compatibility.{Identity, validate_identity, require_compatible_evolution}
use eacl_demo.Contracts.Handshake.{
  ServiceIdentity, Basis, Health, Bootstrap, Handshake, is_profile_identity, same_identity,
  differences, deployment_identity_warning, validate_descriptor_handshake,
}
use eacl_demo.Contracts.Handshake.Agreement.{Agrees, validate_descriptor_handshake-Agrees}
use eacl_demo.Lifecycle.{
  Lifecycle, Stamp, Promotion, is_lifecycle_id, is_digest, same_immutable, validate_lifecycle,
  transition_lifecycle, require_ordinary_deploy_manifest, plan_blue_green_promotion,
}
use eacl_demo.Lifecycle.Order.{Frozen, rank}
use eacl_demo.Lifecycle.History.{begun, moved, History-Frozen, plan_blue_green_promotion-deploys}

abbrev one_admitted : Boundary
one_admitted = record no_requests {
  active = 1;
  running = record { aborted = false; deadline_reached = false; cleanups = [] } ∷ [];
}

admits : admit 2 no_requests ≡ ok one_admitted
unfolding admit
admits = refl

Moves-IsCounted_example : IsCounted 2 one_admitted
Moves-IsCounted_example = Moves-IsCounted 2 one_admitted (then_move stay (Move.admitted admits))

abbrev revision : ℕ → Identity
revision n = record { contract = "explorer.v1"; route_major = 1; revision = n }

evolves_3 : require_compatible_evolution (revision 3) (revision 4) "additive" ≡ ok tt
unfolding require_compatible_evolution validate_identity decimal
evolves_3 = refl

evolves_4 : require_compatible_evolution (revision 4) (revision 5) "additive" ≡ ok tt
unfolding require_compatible_evolution validate_identity decimal
evolves_4 = refl

abbrev a_deployment : Deployment
a_deployment = record {
  demo_sha = "d";
  eacl_sha = "e";
  artifact_sha256 = "a";
  deployment_id = "1";
  data_manifest_sha256 = "m";
}

abbrev registry : Profile
registry = record {
  id = "p";
  backend = some "b";
  storage = some "s";
  state = "enabled";
  reason = none;
  deployment = some a_deployment;
}

-- The service runs another version of EACL than the registry says.
abbrev service : ServiceIdentity
service = record {
  profile_id = some "p";
  demo_sha = some "d";
  eacl_sha = some "old";
  artifact_sha256 = some "a";
  deployment_id = some "1";
  data_manifest_sha256 = some "m";
}

abbrev a_basis : Basis
a_basis = record { id = "x"; behavior = "fixed"; fixed_for_environment = true; captured_at = none }

abbrev a_health : Health
a_health = record { status = "ready"; ready = true; identity = some service; basis = some a_basis }

abbrev a_bootstrap : Bootstrap
a_bootstrap = record {
  identity = some service;
  profile = some (record { backend = "b"; storage = "s" });
  basis = some a_basis;
  dataset_manifest_sha256 = "m";
  contract = Json.null;
  runtime = Json.null;
  capabilities = Json.null;
  limits = Json.null;
}

abbrev accepted : Handshake
accepted = record {
  profile_id = "p";
  route = "/p";
  identity = service;
  basis = a_basis;
  profile = record { backend = "b"; storage = "s" };
  identity_warning = some (record {
    message = "The service is running an out-of-date EACL version.";
    differences = record { field = "eaclSha"; expected = "e"; actual = some "old" } ∷ [];
  });
}

accepts : validate_descriptor_handshake registry "/p" "/p" a_health (some a_bootstrap) ≡ ok accepted
unfolding validate_descriptor_handshake is_profile_identity same_identity differences
    deployment_identity_warning
accepts = refl

validate_descriptor_handshake-Agrees_example : Agrees registry a_health (some a_bootstrap) accepted
validate_descriptor_handshake-Agrees_example =
    validate_descriptor_handshake-Agrees registry "/p" "/p" a_health (some a_bootstrap) accepted
      accepts

abbrev any_date : String → Bool
any_date _ = true

abbrev digest : String
digest = "sha256:00000000000000000000000000000000000000000000000000000000000000ff"

abbrev stamp : Stamp
stamp = Stamp.text "2026-08-13T00:00:00Z"

abbrev verified_record : Lifecycle
verified_record = record {
  schema = "eacl-demo.data-lifecycle.v1";
  lifecycle_id = "p:2";
  profile_id = "p";
  storage_resource_id = "bucket-2";
  manifest_digest = digest;
  fixture_digest = digest;
  previous_lifecycle_id = some "p:1";
  created_at = stamp;
  state = "verified";
  verified_at = stamp;
  serving_at = Stamp.null;
  retired_at = Stamp.null;
}

abbrev serving_record : Lifecycle
serving_record = record verified_record { state = "serving"; serving_at = stamp }

abbrev first_record : Lifecycle
first_record = record serving_record {
  lifecycle_id = "p:1";
  storage_resource_id = "bucket-1";
  previous_lifecycle_id = none;
}

serves : transition_lifecycle any_date verified_record serving_record ≡ ok serving_record
unfolding transition_lifecycle validate_lifecycle is_lifecycle_id is_digest same_immutable
serves = refl

abbrev plan : Promotion
plan = record {
  profile_id = "p";
  from_lifecycle_id = "p:1";
  to_lifecycle_id = "p:2";
  expected_manifest_digest = digest;
  operation = "atomic-profile-data-pointer-update";
  mutate_accepted_lifecycle = false;
}

plans : plan_blue_green_promotion any_date first_record verified_record ≡ ok plan
unfolding plan_blue_green_promotion validate_lifecycle is_lifecycle_id is_digest
plans = refl

History-Frozen_example :
    Frozen verified_record serving_record
    × (rank serving_record.state ≡ rank verified_record.state + 1)
    × (1 ≤ 3)
History-Frozen_example =
    History-Frozen any_date verified_record serving_record 1 (moved begun serves)

plan_blue_green_promotion-deploys_example :
    (require_ordinary_deploy_manifest any_date serving_record digest ≡ ok serving_record)
    × (plan.to_lifecycle_id ≡ serving_record.lifecycle_id)
    × (first_record.lifecycle_id ≢ serving_record.lifecycle_id)
    × (first_record.storage_resource_id ≢ serving_record.storage_resource_id)
    × (first_record.profile_id ≡ serving_record.profile_id)
    × (serving_record.previous_lifecycle_id ≡ some first_record.lifecycle_id)
plan_blue_green_promotion-deploys_example =
    plan_blue_green_promotion-deploys any_date first_record verified_record serving_record
      serving_record plan plans serves
