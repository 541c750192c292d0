-- ===== src/Runner/Registry/Operations.antt =====
-- The operations of the fake registry as one step function, and runs of them. The mutex makes every
-- interleaving of the runner's calls and the daemon's requests such a run.
use eidovela_open.Common.{ℤ, List, [], ◌∷◌}
use eidovela_open.Text.{Text}
use eidovela_open.Platform.{Platform}
use eidovela_open.Runner.Registry.{
  Workload, FakeRegistry, seed_agent, set_identity_attributes, add_workload, suspend_agent,
  revoke_agent, suspend_identity, terminate_instance, lease_instance,
}
use eidovela_open.Runner.Registry.Http.{Request}
use eidovela_open.Runner.Registry.Serve.{serve_http}

pub data Operation : Type 0 where
  seed : Text → Text → Text → Operation
  set_attributes : Text → Text → Operation
  add : Workload → Operation
  suspend revoke suspend_id : Operation
  terminate : Text → Operation
  lease : Text → ℤ → Operation
  serve : Request → Operation

-- The state behind an operation.
unfoldable pub step : Platform → Operation → FakeRegistry → FakeRegistry
step p (seed class binding root) r = (seed_agent class binding root r).0
step p (set_attributes identity_type subject) r = set_identity_attributes identity_type subject r
step p (add w) r = (add_workload w r).0
step p suspend r = suspend_agent r
step p revoke r = revoke_agent r
step p suspend_id r = suspend_identity r
step p (terminate id) r = terminate_instance id r
step p (lease id t) r = (lease_instance id t r).0
step p (serve req) r = (serve_http p req r).0

unfoldable pub run : Platform → List Operation → FakeRegistry → FakeRegistry
run p [] r = r
run p (op ∷ ops) r = run p ops (step p op r)
