-- ===== src/Tests/Fixtures.antt =====
-- Examples of the theorems on fixtures, with a daemon that commits an instance on every request and
-- finds every token active.
use eidovela_open.Common.{
  pos, ◌≡◌, ◌≢◌, ◌⊎◌, ◌↔◌, refl, true, false, List, [], ◌∷◌, All, Option, none, some, ok, err,
}
use eidovela_open.Text.{Text, text, text_eq}
use eidovela_open.Platform.{Response}
use eidovela_open.Runner.Registry.{FakeRegistry}
use eidovela_open.Runner.Registry.Serve.{serve_http}
use eidovela_open.Runner.Registry.Operations.{Operation, seed, step, run}
use eidovela_open.Runner.Registry.Lifecycle.{IsNoSeed}
use eidovela_open.Runner.Executor.{
  Env, Step, World, Outgoing, unmet, pure, fail, ◌>>=◌, ◌>>◌, read, needs,
}
use eidovela_open.Runner.Executor.Tokens.{introspect, exchange}
use eidovela_open.Runner.Executor.Exec.{
  Scenario, Keys, begin, exec_step, operate, operation, introspection, op_of, outcome, run_steps,
  run_fixture, exchange_op,
}
use eidovela_open.Runner.Executor.Verdict.{
  HasFailed, StopsAt, exec_step_iff, exec_introspect_iff, run_steps_stops,
}
use eidovela_open.Runner.Executor.Respects.{UsesRequests}
use eidovela_open.Runner.Executor.Fixture.{run_fixture-Reaches}
use eidovela_open.Tests.Toy.{toy}
use eidovela_open.Tests.Registry.{started, commit_request}

abbrev answer : Outgoing → Unit {0} → FakeRegistry → Unit {0} × FakeRegistry × Option Response
answer out d r =
    (d, (serve_http toy commit_request r).0, some (record { status = 200; body = text "o" }))

abbrev pub env : Env (Unit {0})
env = record {
  platform = toy;
  base_url = text "http://127.0.0.1";
  answer = answer;
  now = pos 0;
  random = [];
  certificate = λ _. none;
  url_parse = λ _. none;
  query_escape = λ s. s;
  new_peer = none;
}

env-UsesRequests : UsesRequests toy env
unfolding run step
env-UsesRequests out d r = (commit_request ∷ [], refl)

abbrev pub step_of : Text → Text → Step
step_of op expect = record {
  op = op;
  workload = none;
  workload_attributes = [];
  attestation = none;
  audience = [];
  requested_audience = [];
  present_key = [];
  federation = none;
  federation_issuer = [];
  peer_agent = [];
  expired = false;
  reason = [];
  blueprint_version = [];
  blueprint_publisher = [];
  blueprint_class = [];
  expect_blueprint_status = [];
  expect = expect;
}

abbrev pub keys : Keys
keys = record { main_pub = []; main_priv = []; attacker_pub = []; attacker_priv = [] }

-- The exchange is denied, since there is no token, and the last step has no operation.
abbrev pub scenario : Scenario
scenario = record {
  agent_class = text "service";
  binding_type = text "owner";
  authority_root_ref = text "root";
  steps =
      step_of (text "activate") []
      ∷ step_of (text "exchange") (text "deny")
      ∷ step_of (text "unknown") []
      ∷ step_of (text "suspend") []
      ∷ [];
}

abbrev world : World (Unit {0})
world = begin keys scenario tt started none

run_fixture-Reaches_example :
    (ops : List Operation) × All IsNoSeed ops
    × ((run_fixture (λ _. env) keys scenario tt started none).0.registry
        ≡ run toy (seed (text "service") (text "owner") (text "root") ∷ ops) started)
run_fixture-Reaches_example =
    run_fixture-Reaches toy (λ _. env) keys scenario tt started none (λ _. env-UsesRequests)

stopped : run_steps (λ _. env) 0 scenario.steps world ≡ (world, err (2, unmet (text "unknown op")))
unfolding run_steps exec_step op_of operate pure outcome text_eq exchange ◌>>=◌ ◌>>◌ read needs
    begin fail
stopped = refl

run_steps_stops_example :
    StopsAt (λ _. env) 0 scenario.steps world 2 (unmet (text "unknown op")) world
run_steps_stops_example =
    run_steps_stops (λ _. env) 0 scenario.steps world 2 (unmet (text "unknown op")) world stopped

exchange_named : op_of (text "exchange") ≡ some (operation exchange_op)
unfolding op_of text_eq
exchange_named = refl

exec_step_iff_example :
    ((exec_step env (step_of (text "exchange") (text "deny")) world).0
      ≡ (operate env (step_of (text "exchange") (text "deny")) exchange_op world).0)
    × (((exec_step env (step_of (text "exchange") (text "deny")) world).1 ≡ ok tt) ↔ (
        ((text "deny" ≡ text "deny")
          × HasFailed (operate env (step_of (text "exchange") (text "deny")) exchange_op world).1)
        ⊎ ((text "deny" ≢ text "deny")
            × ((operate env (step_of (text "exchange") (text "deny")) exchange_op world).1
                ≡ ok tt))))
exec_step_iff_example =
    exec_step_iff env (step_of (text "exchange") (text "deny")) exchange_op world exchange_named

introspect_named : op_of (text "introspect") ≡ some introspection
unfolding op_of text_eq
introspect_named = refl

exec_introspect_iff_example : ((exec_step env (step_of (text "introspect") []) world).1 ≡ ok tt) ↔ (
    (([] ≡ text "deny") × ((introspect env (step_of (text "introspect") []) world).1 ≡ ok false))
    ⊎ (([] ≢ text "deny") × ((introspect env (step_of (text "introspect") []) world).1 ≡ ok true)))
exec_introspect_iff_example =
    exec_introspect_iff env (step_of (text "introspect") []) world introspect_named
