-- ===== src/Runner/Registry/Generations.antt =====
-- What an instance keeps for good, and what its generation counts.
use eidovela_open.Common.{
  ℕ, ◌+◌, ◌^◌, ◌<◌, ◌≤◌, ◌≡◌, refl, ap, ◌∙◌, ℤ, pos, inc64, List, [], ◌∷◌, some, Option, length,
  ◌==◌, Option-cases, Bool-cases, inl, inr, arith, if◌then◌else◌,
}
use eidovela_open.Text.{Text, text, text_eq}
use eidovela_open.Text.Laws.{text_eq_iff, text_eq_sound}
use eidovela_open.Dict.{lookup}
use eidovela_open.Platform.{Platform}
use eidovela_open.Runner.Registry.{
  FakeRegistry, FakeInstance, seed_agent, set_identity_attributes, add_workload, suspend_agent,
  revoke_agent, suspend_identity, terminated, terminate_instance, lease_instance, commit_instance,
  CommitBody, instance_id_of,
}
use eidovela_open.Runner.Registry.Http.{Request}
use eidovela_open.Runner.Registry.Serve.{serve_http}
use eidovela_open.Runner.Registry.State.{serve_http_state}
use eidovela_open.Runner.Registry.Operations.{
  Operation, seed, set_attributes, add, suspend, revoke, suspend_id, terminate, lease, serve, step,
  run,
}
use eidovela_open.Runner.Registry.Consistent.{IsConsistent, HasRoom, inc64_of_HasRoom}
use eidovela_open.Runner.Registry.Commit.{commit_instance_cases, commit_instance_adds}
use eidovela_open.Runner.Registry.Reachable.{step-Grows}
use eidovela_open.Runner.Registry.Terminal.{lookup-terminate_instance, lookup-lease_instance}

-- The calls that terminate the instance
abbrev terminations_of : Text → Operation → ℕ
terminations_of id (terminate j) = if text_eq j id then 1 else 0
terminations_of id _ = 0

abbrev pub terminations : Text → List Operation → ℕ
terminations id [] = 0
terminations id (op ∷ ops) = terminations_of id op + terminations id ops

-- The state that calls leave: that of the last one that terminates the instance, if there is one
abbrev pub final_state : Text → ℕ → Text
final_state old n = if n == 0 then old else text "terminated"

-- Under the id there is still this instance, which was of generation g, after so many calls that terminate it.
pub record IsKept (id : Text) (old : FakeInstance) (g t : ℕ) (r : FakeRegistry) : Type 0 where
  pub instance' : FakeInstance
  pub found : lookup r.instances id ≡ some instance'
  pub generation' : instance'.generation ≡ pos (g + t)
  pub state : instance'.state ≡ final_state old.state t
  pub id' : instance'.id ≡ old.id
  pub agent_id : instance'.agent_id ≡ old.agent_id
  pub registration_id : instance'.registration_id ≡ old.registration_id
  pub workload_id : instance'.workload_id ≡ old.workload_id
  pub artifact_digest : instance'.artifact_digest ≡ old.artifact_digest
  pub attestation_ref : instance'.attestation_ref ≡ old.attestation_ref

same_instances :
    {id : Text} {old : FakeInstance} {g t : ℕ} {r : FakeRegistry} (s : FakeRegistry)
    → lookup s.instances id ≡ lookup r.instances id
    → IsKept id old g t r
    → IsKept id old g (t + 0) s
same_instances {old} {t} s e h = record {
  instance' = h.instance';
  found = e ∙ h.found;
  generation' = h.generation' ∙ ap pos (omega arith);
  state = h.state ∙ ap (final_state old.state) (omega arith);
  id' = h.id';
  agent_id = h.agent_id;
  registration_id = h.registration_id;
  workload_id = h.workload_id;
  artifact_digest = h.artifact_digest;
  attestation_ref = h.attestation_ref;
}

recounted :
    {id : Text} {old : FakeInstance} {g t u : ℕ} {r : FakeRegistry}
    → t ≡ u
    → IsKept id old g t r
    → IsKept id old g u r
recounted e h = rw e at h

terminated_state : (old : Text) (t : ℕ) → text "terminated" ≡ final_state old (t + 1)
terminated_state old t = ground arith

terminate_instance-IsKept :
    {id : Text} {old : FakeInstance} {g t : ℕ} {r : FakeRegistry} (j : Text)
    → HasRoom (g + t)
    → IsKept id old g t r
    → IsKept id old g (t + (if text_eq j id then 1 else 0)) (terminate_instance j r)
terminate_instance-IsKept {id} {old} {g} {t} {r} j room h = elim (Bool-cases (text_eq j id)) [
  | inl same ↦
      let next : inc64 h.instance'.generation ≡ pos (g + t + 1) =
        rw h.generation' (inc64_of_HasRoom (g + t) room) in
      rw same (record {
        instance' = terminated h.instance';
        found = lookup-terminate_instance j id r ∙ rw (same, h.found) refl;
        generation' = next ∙ ap pos (omega arith);
        state = terminated_state old.state t;
        id' = h.id';
        agent_id = h.agent_id;
        registration_id = h.registration_id;
        workload_id = h.workload_id;
        artifact_digest = h.artifact_digest;
        attestation_ref = h.attestation_ref;
      })
  | inr other ↦
      rw other (
        same_instances (terminate_instance j r) (lookup-terminate_instance j id r ∙ rw other refl)
          h)
]

lease_instance-IsKept :
    {id : Text} {old : FakeInstance} {g t : ℕ} {r : FakeRegistry} (j : Text) (until : ℤ)
    → IsKept id old g t r
    → IsKept id old g (t + 0) (lease_instance j until r).0
lease_instance-IsKept {id} {old} {g} {t} {r} j until h = elim (lookup-lease_instance j id until r) [
  | inr (e, same) ↦ same_instances _ (rw same refl) h
  | inl (_, (inst, found, live, after)) ↦ elim (Bool-cases (text_eq j id)) [
    | inr other ↦ same_instances _ (after ∙ rw other refl) h
    | inl same ↦
        let e : j ≡ id = text_eq_sound j id same in
        let found' : lookup r.instances id ≡ some inst = rw e at found in
        let it : inst ≡ h.instance' = cc (found', h.found) in
        record {
          instance' = record h.instance' { lease_expires_at = until };
          found = after ∙ rw (same, it) refl;
          generation' = h.generation' ∙ ap pos (omega arith);
          state = h.state ∙ ap (final_state old.state) (omega arith);
          id' = h.id';
          agent_id = h.agent_id;
          registration_id = h.registration_id;
          workload_id = h.workload_id;
          artifact_digest = h.artifact_digest;
          attestation_ref = h.attestation_ref;
        }
  ]
]

commit_instance-IsKept :
    {id : Text} {old : FakeInstance} {g t n : ℕ} {r : FakeRegistry} (parse_time : Text → Option ℤ)
    (agent_id : Text) (body : CommitBody)
    → HasRoom n
    → IsConsistent n r
    → IsKept id old g t r
    → IsKept id old g (t + 0) (commit_instance parse_time agent_id body r).0
commit_instance-IsKept {id} {old} {g} {t} {n} {r} parse_time agent_id body room c h =
    elim (commit_instance_cases parse_time agent_id body r) [
      | inl (_, e) ↦ same_instances _ (rw e refl) h
      | inr (inl (_, _, e)) ↦ same_instances _ (rw e refl) h
      | inr (inr (same, found, _)) ↦
          elim (Option-cases (lookup r.workloads body.workload_registration_id)) [
            | inl none' ↦ elim (found none') [ ]
            | inr (w, found') ↦
                let (_, new, after, _, _) =
                  commit_instance_adds parse_time agent_id body r {n = n} w id room c same found' in
                same_instances _
                  (ground (
                    arith,
                    after,
                    new,
                    h.found,
                    text_eq_iff (instance_id_of (inc64 r.sequence)) id,
                  ))
                  h
          ]
    ]

serve_http-IsKept :
    {id : Text} {old : FakeInstance} {g t n : ℕ} {r : FakeRegistry} (p : Platform) (req : Request)
    → HasRoom n
    → IsConsistent n r
    → IsKept id old g t r
    → IsKept id old g (t + 0) (serve_http p req r).0
serve_http-IsKept {id} {n} {r} p req room c h = elim (serve_http_state p req r) [
  | inl same ↦ same_instances _ (rw same refl) h
  | inr (agent_id, body, same) ↦
      rw same (commit_instance-IsKept {n = n} p.parse_rfc3339 agent_id body room c h)
]

step-IsKept :
    {id : Text} {old : FakeInstance} {g t n : ℕ} {r : FakeRegistry} (p : Platform) (op : Operation)
    → HasRoom n
    → HasRoom (g + t)
    → IsConsistent n r
    → IsKept id old g t r
    → IsKept id old g (t + terminations_of id op) (step p op r)
unfolding step seed_agent set_identity_attributes add_workload suspend_agent revoke_agent
    suspend_identity
step-IsKept p (seed class binding root) room top c h = same_instances _ refl h
step-IsKept p (set_attributes i s) room top c h = same_instances _ refl h
step-IsKept p (add w) room top c h = same_instances _ refl h
step-IsKept p suspend room top c h = same_instances _ refl h
step-IsKept p revoke room top c h = same_instances _ refl h
step-IsKept p suspend_id room top c h = same_instances _ refl h
step-IsKept p (terminate j) room top c h = terminate_instance-IsKept j top h
step-IsKept p (lease j until) room top c h = lease_instance-IsKept j until h
step-IsKept {n} p (serve req) room top c h = serve_http-IsKept {n = n} p req room c h

terminations_le : (id : Text) (op : Operation) → terminations_of id op ≤ 1
terminations_le id (terminate j) = ground arith
terminations_le id (seed class binding root) = omega arith
terminations_le id (set_attributes i s) = omega arith
terminations_le id (add w) = omega arith
terminations_le id suspend = omega arith
terminations_le id revoke = omega arith
terminations_le id suspend_id = omega arith
terminations_le id (lease j until) = omega arith
terminations_le id (serve req) = omega arith

run-IsKept_from :
    {id : Text} {old : FakeInstance} (p : Platform) (ops : List Operation) {g t n : ℕ}
    {r : FakeRegistry}
    → n + length ops < 2 ^ 63
    → g + t + length ops < 2 ^ 63
    → IsConsistent n r
    → IsKept id old g t r
    → IsKept id old g (t + terminations id ops) (run p ops r)
unfolding run
run-IsKept_from p [] room top c h = same_instances _ refl h
run-IsKept_from {id} {old} p (op ∷ ops) {g} {t} {n} {r} room top c h =
    let (m, least, most, d) = step-Grows p op (omega arith) c in
    let next = step-IsKept {n = n} p op (omega arith) (omega arith) c h in
    let le = terminations_le id op in
    let later = run-IsKept_from p ops {n = m} (omega arith) (omega arith) d next in
    recounted (omega arith) later

-- Over any operations and requests on a consistent registry, as long as neither ids nor generations run out,
-- an instance is never lost or replaced: under its id there is still an instance with its id, agent, workload
-- registration, workload, digest and attestation. Its generation grows by one for each call that terminates
-- it, and by no other operation and no request, and its state is "terminated" after the first such call, and
-- as it was before.
pub run-IsKept :
    (id : Text) (p : Platform) (ops : List Operation) {g n : ℕ} {r : FakeRegistry}
    (inst : FakeInstance)
    → n + length ops < 2 ^ 63
    → g + length ops < 2 ^ 63
    → IsConsistent n r
    → lookup r.instances id ≡ some inst
    → inst.generation ≡ pos g
    → IsKept id inst g (terminations id ops) (run p ops r)
run-IsKept id p ops {g} {n} {r} inst room top c found generation = recounted (omega arith) (
    run-IsKept_from p ops {t = 0} {n = n} room (omega arith) c (record {
      instance' = inst;
      found = found;
      generation' = generation ∙ ap pos (omega arith);
      state = refl;
      id' = refl;
      agent_id = refl;
      registration_id = refl;
      workload_id = refl;
      artifact_digest = refl;
      attestation_ref = refl;
    }))
