-- ===== src/Runner/Registry/Reachable.antt =====
-- Every run from a new registry leaves it consistent.
use eidovela_open.Common.{
  ℕ, ◌+◌, ◌^◌, ◌≤◌, ◌<◌, ◌≡◌, refl, ap, sym, ◌∙◌, ℤ, pos, inc64, List, [], ◌∷◌, ◌++◌, Option,
  length, Option-cases, Bool-cases, inl, inr, arith,
}
use eidovela_open.Text.{Text, text_eq}
use eidovela_open.Dict.{lookup}
use eidovela_open.Dict.Keys.{keys-insert_new, All-insert}
use eidovela_open.Platform.{Platform}
use eidovela_open.Runner.Registry.{
  FakeRegistry, start_fake_registry, seed_agent, set_identity_attributes, suspend_agent,
  revoke_agent, suspend_identity, CommitBody, commit_instance, workload_id_of, instance_id_of,
}
use eidovela_open.Runner.Registry.Http.{Request}
use eidovela_open.Runner.Registry.Serve.{serve_http}
use eidovela_open.Runner.Registry.State.{serve_http_state}
use eidovela_open.Runner.Registry.Operations.{
  Operation, seed, set_attributes, add, suspend, revoke, suspend_id, terminate, lease, serve, step,
  run,
}
use eidovela_open.Runner.Registry.Ids.{
  All-IsNumbered_suc, Ascends-suc, next-Ascends, instance_id_of-IsInjective,
}
use eidovela_open.Runner.Registry.Totals.{seeds_of, seeds, total, step-total, pos-injective}
use eidovela_open.Runner.Registry.Consistent.{
  IsRegistered, IsNamed, IsConsistent, HasRoom, inc64_of_HasRoom, next_lookup-none, next-IsNumbered,
  next-Distinct, terminate_instance-IsConsistent, lease_instance-IsConsistent,
  add_workload-IsConsistent,
}

-- The registry stays consistent and makes at most one id.
abbrev pub Grows : ℕ → FakeRegistry → Type 0
Grows n r = (m : ℕ) × (n ≤ m) × (m ≤ n + 1) × IsConsistent m r

same_size : {n : ℕ} {r : FakeRegistry} → IsConsistent n r → Grows n r
same_size {n} c = (n, omega arith, omega arith, c)

next_size : {n : ℕ} {r : FakeRegistry} → IsConsistent (n + 1) r → Grows n r
next_size {n} c = (n + 1, omega arith, omega arith, c)

pub commit_instance-Grows :
    {n : ℕ} {r : FakeRegistry} (parse_time : Text → Option ℤ) (agent_id : Text) (body : CommitBody)
    → HasRoom n
    → IsConsistent n r
    → Grows n (commit_instance parse_time agent_id body r).0
unfolding commit_instance
commit_instance-Grows {n} {r} parse_time agent_id body room c =
    elim (Bool-cases (text_eq agent_id r.agent_id)) [
      | inr other ↦ rw (other, commit_instance) (same_size c)
      | inl same ↦ elim (Option-cases (lookup r.workloads body.workload_registration_id)) [
        | inl e ↦ rw (same, e, commit_instance) (same_size c)
        | inr (w, e) ↦
            rw (same, e, commit_instance)
              (next_size (
                let s = inc64 r.sequence in
                let seq : s ≡ pos (n + 1) = rw c.sequence (inc64_of_HasRoom n room) in
                let id = instance_id_of s in
                let inj = instance_id_of-IsInjective in
                let new =
                  next_lookup-none instance_id_of n s r.instances r.instance_order inj seq
                    c.instance_keys c.instance_ids in
                record {
                  sequence = seq;
                  workload_keys = c.workload_keys;
                  instance_keys =
                      keys-insert_new id _ r.instances new
                      ∙ ap (λ ks. ks ++ (id ∷ [])) c.instance_keys;
                  workload_ids =
                      All-IsNumbered_suc workload_id_of n r.workload_order c.workload_ids;
                  instance_ids =
                      next-IsNumbered instance_id_of n s r.instance_order seq c.instance_ids;
                  workloads_distinct = c.workloads_distinct;
                  instances_distinct =
                      next-Distinct instance_id_of n s r.instance_order inj seq c.instance_ids
                        c.instances_distinct;
                  workloads_ascend =
                      Ascends-suc workload_id_of 0 n r.workload_order c.workloads_ascend;
                  instances_ascend =
                      next-Ascends instance_id_of n s r.instance_order seq c.instances_ascend;
                  workloads_named = c.workloads_named;
                  instances_named = All-insert IsNamed id _ r.instances c.instances_named refl;
                  registered =
                      All-insert (IsRegistered r.workloads) id _ r.instances c.registered
                        (λ none'. cc);
                }))
      ]
    ]

serve_http-Grows :
    {n : ℕ} {r : FakeRegistry} (p : Platform) (req : Request)
    → HasRoom n
    → IsConsistent n r
    → Grows n (serve_http p req r).0
serve_http-Grows {n} {r} p req room c = elim (serve_http_state p req r) [
  | inl same ↦ rw same (same_size c)
  | inr (agent_id, body, same) ↦
      rw same (commit_instance-Grows p.parse_rfc3339 agent_id body room c)
]

seed_agent-IsConsistent :
    {n : ℕ} {r : FakeRegistry} (class binding root : Text)
    → HasRoom n
    → IsConsistent n r
    → IsConsistent (n + 1) (seed_agent class binding root r).0
unfolding seed_agent
seed_agent-IsConsistent {n} {r} class binding root room c = record {
  sequence = rw c.sequence (inc64_of_HasRoom n room);
  workload_keys = c.workload_keys;
  instance_keys = c.instance_keys;
  workload_ids = All-IsNumbered_suc workload_id_of n r.workload_order c.workload_ids;
  instance_ids = All-IsNumbered_suc instance_id_of n r.instance_order c.instance_ids;
  workloads_distinct = c.workloads_distinct;
  instances_distinct = c.instances_distinct;
  workloads_ascend = Ascends-suc workload_id_of 0 n r.workload_order c.workloads_ascend;
  instances_ascend = Ascends-suc instance_id_of 0 n r.instance_order c.instances_ascend;
  workloads_named = c.workloads_named;
  instances_named = c.instances_named;
  registered = c.registered;
}

-- Other fields than the ones of `IsConsistent` do not matter for it.
pub same_parts :
    {n : ℕ} {r : FakeRegistry} (s : FakeRegistry)
    → s.sequence ≡ r.sequence
    → s.workloads ≡ r.workloads
    → s.workload_order ≡ r.workload_order
    → s.instances ≡ r.instances
    → s.instance_order ≡ r.instance_order
    → IsConsistent n r
    → IsConsistent n s
same_parts s a b d e f c = record {
  sequence = rw a c.sequence;
  workload_keys = rw (b, d) c.workload_keys;
  instance_keys = rw (e, f) c.instance_keys;
  workload_ids = rw d c.workload_ids;
  instance_ids = rw f c.instance_ids;
  workloads_distinct = rw d c.workloads_distinct;
  instances_distinct = rw f c.instances_distinct;
  workloads_ascend = rw d c.workloads_ascend;
  instances_ascend = rw f c.instances_ascend;
  workloads_named = rw b c.workloads_named;
  instances_named = rw e c.instances_named;
  registered = rw (b, e) c.registered;
}

pub step-Grows :
    {n : ℕ} {r : FakeRegistry} (p : Platform) (op : Operation)
    → HasRoom n
    → IsConsistent n r
    → Grows n (step p op r)
unfolding step set_identity_attributes suspend_agent revoke_agent suspend_identity
step-Grows p (seed class binding root) room c =
    next_size (seed_agent-IsConsistent class binding root room c)
step-Grows p (set_attributes t s) room c = same_size (same_parts _ refl refl refl refl refl c)
step-Grows p (add w) room c = next_size (add_workload-IsConsistent w room c)
step-Grows p suspend room c = same_size (same_parts _ refl refl refl refl refl c)
step-Grows p revoke room c = same_size (same_parts _ refl refl refl refl refl c)
step-Grows p suspend_id room c = same_size (same_parts _ refl refl refl refl refl c)
step-Grows p (terminate id) room c = same_size (terminate_instance-IsConsistent id c)
step-Grows p (lease id t) room c = same_size (lease_instance-IsConsistent id t c)
step-Grows p (serve req) room c = serve_http-Grows p req room c

pub run-IsConsistent :
    (p : Platform) (ops : List Operation) {n : ℕ} {r : FakeRegistry}
    → n + length ops < 2 ^ 63
    → IsConsistent n r
    → (m : ℕ) × (m ≤ n + length ops) × IsConsistent m (run p ops r)
unfolding run
run-IsConsistent p [] {n} {r} room c = (n, omega arith, c)
run-IsConsistent p (op ∷ ops) {n} {r} room c =
    let (m, least, most, d) = step-Grows p op (omega arith) c in
    let (k, le, e) = run-IsConsistent p ops (omega arith) d in (k, omega arith, e)

start-IsConsistent : (namespace : Text) → IsConsistent 0 (start_fake_registry namespace)
unfolding start_fake_registry
start-IsConsistent namespace = record {
  sequence = refl;
  workload_keys = refl;
  instance_keys = refl;
  workload_ids = tt;
  instance_ids = tt;
  workloads_distinct = tt;
  instances_distinct = tt;
  workloads_ascend = omega arith;
  instances_ascend = omega arith;
  workloads_named = tt;
  instances_named = tt;
  registered = tt;
}

run-total :
    (p : Platform) (ops : List Operation) (k : ℕ) {n : ℕ} (r : FakeRegistry)
    → n + length ops < 2 ^ 63
    → IsConsistent n r
    → r.sequence ≡ pos (total k r)
    → (run p ops r).sequence ≡ pos (total (k + seeds ops) (run p ops r))
unfolding run
run-total p [] k {n} r room c h = h ∙ ap pos (omega arith)
run-total p (op ∷ ops) k {n} r room c h =
    let (m, least, most, d) = step-Grows p op (omega arith) c in
    let same = pos-injective n (total k r) (sym c.sequence ∙ h) in
    let next = step-total p op k r (omega (arith, same)) h in
    run-total p ops (k + seeds_of op) {n = m} (step p op r) (omega arith) d next
    ∙ ap pos (omega arith)

-- After any run of fewer than 2^63 operations and requests on a new registry, the sequence is the number of
-- ids made, one for each agent seeded, each workload registration and each instance, and at most the number
-- of operations; the order lists name the entries of the maps once each, in the order of the sequence
-- numbers in their ids, every entry stands under its own id, ids are numbered by the sequence, and every
-- instance's workload registration exists.
pub run-start-IsConsistent :
    (p : Platform) (namespace : Text) (ops : List Operation)
    → length ops < 2 ^ 63
    → let r = run p ops (start_fake_registry namespace) in
      (m : ℕ) × (m ≤ length ops)
      × (m ≡ seeds ops + length r.workload_order + length r.instance_order)
      × IsConsistent m r
unfolding start_fake_registry
run-start-IsConsistent p namespace ops room =
    let (m, le, c) = run-IsConsistent p ops (omega arith) (start-IsConsistent namespace) in
    let counted =
      run-total p ops 0 {n = 0} (start_fake_registry namespace) (omega arith)
        (start-IsConsistent namespace) refl in
    (m, omega arith, omega (arith, pos-injective _ _ (sym c.sequence ∙ counted)), c)
