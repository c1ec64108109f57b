-- ===== src/Examples/Transports.antt =====
-- The transport of packages/explorer-state and the reading of responses at concrete inputs.
use eacl_demo.Base.{
  ℕ, ◌≡◌, ◌≤◌, ◌↔◌, refl, Bool, true, false, ◌&&◌, ◌||◌, leb, any, includes, string_eq, decimal,
  String, List, [], ◌∷◌, Option, none, some, Result, ok, err,
}
use eacl_demo.Json.{Json, null, obj, Members, end, member}
use eacl_demo.Contracts.Handshake.{
  Health, Bootstrap, ServiceIdentity, Basis, is_profile_identity, same_identity,
  deployment_identity_warning,
}
use eacl_demo.Contracts.HttpClient.{
  Read, bytes, stream, maximum_response_bytes, declared_fits, join, read_chunks,
  read_bounded_text_response,
}
use eacl_demo.Contracts.HttpClient.Bounded.{Whole, read_bounded_text_response_iff}
use eacl_demo.Explorer.Types.{Deployment, Profile}
use eacl_demo.Explorer.Errors.{Thrown, plain}
use eacl_demo.Explorer.Transport.{
  Envelope, new_transport, Options, outgoing, Answer, Services, has, closed_operations,
  is_request_id, request_id_of, perform_request,
}
use eacl_demo.Explorer.Transport.Binding.{IsAnswer, perform_request-IsAnswer}
use eacl_demo.Explorer.Transport.Origin.{is_function_url_host}
use eacl_demo.Explorer.Transport.Signal.{
  parent_aborts, time_over, bounded_signal, stops, run, close, bounded_signal-follows,
}
use eacl_demo.Explorer.Transport.Start.{Started, IsStarted, bootstrap, bootstrap-IsStarted}

-- Each chunk of this decoder is one text.
abbrev one_text : List (List ℕ) → List ℕ → Option String
one_text fed chunk = some "{}"

abbrev no_rest : List (List ℕ) → Option String
no_rest fed = some ""

abbrev two_chunks : List Read
two_chunks = bytes (123 ∷ []) ∷ bytes (125 ∷ []) ∷ []

stops_at_limit : (read_chunks one_text no_rest 1 false [] [] 0 two_chunks).canceled ≡ true
unfolding read_chunks
stops_at_limit = refl

read_bounded_text_response_iff_example :
    ((read_chunks one_text no_rest 2 false [] [] 0 two_chunks).held ≤ 2)
    × ((read_bounded_text_response one_text no_rest 2
            (record { declared = some "2"; body = stream false two_chunks })
          ≡ ok "{}{}")
        ↔ ((leb 1 2 && leb 2 maximum_response_bytes ≡ true)
            × (declared_fits 2 (some "2") ≡ true)
            × (texts : List String) × (join texts ≡ "{}{}")
            × Whole one_text no_rest 2 0 [] two_chunks texts))
read_bounded_text_response_iff_example =
    read_bounded_text_response_iff one_text no_rest 2 (some "2") false two_chunks "{}{}"

function_url : is_function_url_host "abc1.lambda-url.eu-west-1.on.aws" ≡ true
unfolding is_function_url_host
function_url = refl

other_url : is_function_url_host "abc.def.lambda-url.eu-west-1.on.aws" ≡ false
unfolding is_function_url_host
other_url = refl

abbrev two_parents : List (Option String)
two_parents = none ∷ none ∷ []

bounded_signal-follows_example :
    (has (run (bounded_signal two_parents) (parent_aborts 1 "x" ∷ [])).aborted
      ≡ (any has two_parents || any (stops two_parents) (parent_aborts 1 "x" ∷ [])))
    × (run (close (run (bounded_signal two_parents) (parent_aborts 1 "x" ∷ []))) (time_over ∷ [])
        ≡ close (run (bounded_signal two_parents) (parent_aborts 1 "x" ∷ [])))
bounded_signal-follows_example =
    bounded_signal-follows two_parents (parent_aborts 1 "x" ∷ []) (time_over ∷ [])

abbrev answer : Answer
answer = record {
  fetched = ok (record {
    redirected = false;
    content_type = "application/json; charset=utf-8";
    status = 200;
    response = record { declared = none; body = stream false (bytes (123 ∷ 125 ∷ []) ∷ []) };
  });
  timed_out = false;
}

abbrev services : Services
services = record {
  validate_request = λ _ _ input. ok input;
  stays_in_route = λ _. true;
  network = λ _. answer;
  decode = one_text;
  flush = no_rest;
  parse_json = λ _. some (obj (member "data" null end));
  maximum_response_bytes = 1048576;
}

abbrev enveloped : {A : Type 0} → String → A → Members → Result Thrown (Envelope A)
enveloped id a end = err (plain "no data")
enveloped id a (member k v members) =
    ok (record { meta = some (some id); body = some a; fault = none })

abbrev schema_envelope : Envelope Bool
schema_envelope = record { meta = some (some "r1"); body = some true; fault = none }

abbrev named_r1 : Options
named_r1 = record { request_id = some "r1"; epoch = 0 }

performs :
    (perform_request services (enveloped "r1" true) new_transport "get-schema" end named_r1).0
    ≡ ok schema_envelope
unfolding perform_request
performs = refl

perform_request-IsAnswer_example :
    (false ≡ false)
    × (includes closed_operations "get-schema" ≡ true)
    × ((valid : Members) × (is_request_id (request_id_of new_transport named_r1).0 ≡ true)
        × (services.validate_request "get-schema" "r1" end ≡ ok valid)
        × IsAnswer services
            (enveloped "r1" true)
            (outgoing "get-schema" (request_id_of new_transport named_r1).0 valid)
            schema_envelope)
perform_request-IsAnswer_example =
    perform_request-IsAnswer services (enveloped "r1" true) new_transport "get-schema" end named_r1
      schema_envelope performs

abbrev deployment : Deployment
deployment = record {
  demo_sha = "d";
  eacl_sha = "e";
  artifact_sha256 = "a";
  deployment_id = "i";
  data_manifest_sha256 = "m";
}

abbrev profile : Profile
profile = record {
  id = "datahike-s3";
  backend = some "datahike";
  storage = some "s3";
  state = "enabled";
  reason = none;
  deployment = some deployment;
}

abbrev identity : ServiceIdentity
identity = record {
  profile_id = some "datahike-s3";
  demo_sha = some "d";
  eacl_sha = some "e";
  artifact_sha256 = some "a";
  deployment_id = some "i";
  data_manifest_sha256 = some "m";
}

abbrev basis_at : String → Basis
basis_at time = record {
  id = "b";
  behavior = "request-snapshot";
  fixed_for_environment = false;
  captured_at = some time;
}

abbrev health : Health
health = record {
  status = "ready";
  ready = true;
  identity = some identity;
  basis = some (basis_at "t2");
}

abbrev descriptor : Bootstrap
descriptor = record {
  identity = some identity;
  profile = some (record { backend = "datahike"; storage = "s3" });
  basis = some (basis_at "t2");
  dataset_manifest_sha256 = "m";
  contract = Json.null;
  runtime = Json.null;
  capabilities = Json.null;
  limits = Json.null;
}

abbrev started : Started
started = record { descriptor = descriptor; basis = some (basis_at "t2"); identity_warning = none }

starts :
    bootstrap services
      (enveloped "browser-0-1" health)
      (enveloped "browser-0-1" descriptor)
      profile
      "/"
      0
      new_transport
      new_transport
      new_transport
    ≡ ok started
unfolding bootstrap perform_request decimal is_profile_identity same_identity
    deployment_identity_warning
starts = refl

bootstrap-IsStarted_example :
    IsStarted services
      (enveloped "browser-0-1" health)
      (enveloped "browser-0-1" descriptor)
      profile
      0
      new_transport
      started
bootstrap-IsStarted_example =
    bootstrap-IsStarted services (enveloped "browser-0-1" health)
      (enveloped "browser-0-1" descriptor) profile "/" 0 new_transport new_transport new_transport
      started starts
