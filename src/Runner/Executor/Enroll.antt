-- ===== src/Runner/Executor/Enroll.antt =====
-- The operations on workloads, enrollments and leases: registerWorkload, completeEnrollment and
-- instanceLease of conformance/runner/executor.go.
use eidovela_open.Common.{List, [], ◌∷◌, Option, none, some, Result, ok, err, add_ℕ}
use eidovela_open.Text.{Text, text}
use eidovela_open.Base64
use eidovela_open.Json.{Value, string, object, Claims, members}
use eidovela_open.Json.Struct.{string_field}
use eidovela_open.Runner.Registry.{FakeRegistry, add_workload, lease_instance}
use eidovela_open.Runner.Executor.{
  Env, Step, Failure, unmet, Action, ◌>>=◌, ◌>>◌, fail, read, write, registry_call, needs, seconds,
}
use eidovela_open.Runner.Executor.Http.{post}
use eidovela_open.Runner.Executor.Proofs.{jwk, enrollment_proof, build_attestation}

abbrev pub strings : List (Text × Text) → Claims
strings [] = []
strings ((k, v) ∷ m) = (k, string v) ∷ strings m

-- The challenge: its id and its nonce
abbrev challenge : Claims → Option (Text × Text)
challenge ms = Base64.◌>>=◌ (string_field ms (text "enrollmentId")) λ id.
    Base64.◌>>=◌ (string_field ms (text "agentId"))
      λ _. Base64.◌>>=◌ (string_field ms (text "nonce")) λ nonce. some (id, nonce)

-- registerWorkload
unfoldable pub register_workload : {D : Type 0} → Env D → Step → Action D (Unit {0})
register_workload env step = elim step.workload [
  | none ↦ fail (unmet (text "register_workload requires workload"))
  | some workload ↦ do
    id ← registry_call λ r. let (r', id) = add_workload workload r in (r', ok id)
    write λ s. record s { reg_id = id }
    agent_id ← read λ s. s.agent_id
    (challenge_id, nonce) ←
        post env (text "/v1/enrollments")
          (object (
            members (
              (text "agentId", string agent_id) ∷ (text "workloadRegistrationId", string id) ∷ [])))
          challenge
    write λ s. record s { challenge_id = challenge_id; nonce = nonce }
]

abbrev attestation_entry : Option Value → Claims
attestation_entry none = []
attestation_entry (some v) = (text "attestation", v) ∷ []

-- completeEnrollment
unfoldable pub complete_enrollment : {D : Type 0} → Env D → Step → Action D (Unit {0})
complete_enrollment env step = do
  s ← read λ s. s
  needs s.reg_id (text "complete_enrollment requires register_workload first")
  needs s.challenge_id (text "complete_enrollment requires register_workload first")
  attestation ← build_attestation env step.attestation s.main_priv
  instance_id ←
      post env (text "/v1/enrollments/complete")
        (object (
          members (
            (text "enrollmentId", string s.challenge_id)
            ∷ (
              text "proofJwt",
              string (enrollment_proof env s.agent_id s.challenge_id s.nonce s.main_priv),
            )
            ∷ (text "publicKey", jwk s.main_pub)
            ∷ (text "runtime", string (text "praxovela"))
            ∷ (text "workloadId", string (text "wl_conformance"))
            ∷ (text "workloadAttributes", object (members (strings step.workload_attributes)))
            ∷ attestation_entry attestation)))
        (λ ms. string_field ms (text "instanceId"))
  write λ s. record s { instance_id = instance_id }

abbrev pub lease_result :
    {E : Type 0} → FakeRegistry × Result E (Unit {0}) → FakeRegistry × Result Failure (Unit {0})
lease_result (r, ok _) = (r, ok tt)
lease_result (r, err _) = (r, err (unmet (text "fake registry: no lease")))

-- instanceLease
unfoldable pub instance_lease : {D : Type 0} → Env D → Action D (Unit {0})
instance_lease env = do
  id ← read λ s. s.instance_id
  needs id (text "instance_lease requires completed enrollment")
  registry_call λ r. lease_result (lease_instance id (add_ℕ env.now (seconds 3600)) r)
