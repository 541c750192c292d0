-- ===== src/Runner/Executor/Safety.antt =====
-- The operations of a step that change the scenario move the registry by its own operations and
-- requests alone.
use eidovela_open.Common.{
  ℤ, ◌≡◌, refl, Option, none, some, Result, ok, err, if◌then◌else◌, Option-cases, Bool-cases, inl,
  inr,
}
use eidovela_open.Text.{Text, text, is_empty, text_eq}
use eidovela_open.Platform.{Platform}
use eidovela_open.Runner.Registry.{FakeRegistry, Workload, add_workload, lease_instance}
use eidovela_open.Runner.Registry.Operations.{add, lease, step}
use eidovela_open.Runner.Peers.{PeerError}
use eidovela_open.Runner.Executor.{Env, Step, Attest, Failure, pure}
use eidovela_open.Runner.Executor.Respects.{
  Reaches, Reaches-one, UsesRequests, Respects, same_registry, bind-Respects, next-Respects,
  pure-Respects, fail-Respects, lift-Respects, read-Respects, write-Respects, needs-Respects,
  call-Respects, post-Respects,
}
use eidovela_open.Runner.Executor.Proofs.{build_attestation, self_signed_pem_with_uri, returned}
use eidovela_open.Runner.Executor.Enroll.{
  register_workload, complete_enrollment, instance_lease, lease_result,
}
use eidovela_open.Runner.Executor.Tokens.{
  issue_token, introspect, exchange, peer_issuer, register_federation_trust,
  disable_federation_trust, broker_issue, issue_peer_token, signed,
}

module _ {D : Type 0} (p : Platform) (env : Env D) (uses : UsesRequests p env) where
  add-Reaches : (workload : Workload) (r : FakeRegistry) → Reaches p r (add_workload workload r).0
  unfolding step
  add-Reaches workload r = Reaches-one p (add workload) r tt

  lease_result_state :
      {E : Type 0} (x : FakeRegistry × Result E (Unit {0})) → (lease_result x).0 ≡ x.0
  lease_result_state (r, ok _) = refl
  lease_result_state (r, err _) = refl

  lease-Reaches :
      (id : Text) (t : ℤ) (r : FakeRegistry) → Reaches p r (lease_result (lease_instance id t r)).0
  unfolding step
  lease-Reaches id t r =
      rw (lease_result_state (lease_instance id t r)) (Reaches-one p (lease id t) r tt)

  returned-Respects : {A : Type 0} (r : Result Failure A) → Respects {D = D} p (returned r)
  returned-Respects (ok a) = pure-Respects p a
  returned-Respects (err e) = fail-Respects p e

  spiffe-Respects :
      (att : Attest) (pem : Text)
      → Respects {D = D} p (
          if is_empty att.spiffe_id
          then pure pem
          else returned (self_signed_pem_with_uri env att.spiffe_id))
  spiffe-Respects att pem = elim (Bool-cases (is_empty att.spiffe_id)) [
    | inl e ↦ rw e (pure-Respects p pem)
    | inr e ↦ rw e (returned-Respects (self_signed_pem_with_uri env att.spiffe_id))
  ]

  pub issue_token-Respects : (s : Step) → Respects p (issue_token env s)
  unfolding issue_token
  issue_token-Respects s = bind-Respects p _ _ (read-Respects p _) λ state.
      next-Respects p _ _ (needs-Respects p _ _)
        (bind-Respects p _ _ (post-Respects p env uses _ _ _) λ _. write-Respects p _)

  pub introspect-Respects : (s : Step) → Respects p (introspect env s)
  unfolding introspect
  introspect-Respects s =
      bind-Respects p _ _ (read-Respects p _)
        λ state. next-Respects p _ _ (needs-Respects p _ _) (post-Respects p env uses _ _ _)

  pub exchange-Respects : (s : Step) → Respects p (exchange env s)
  unfolding exchange
  exchange-Respects s = bind-Respects p _ _ (read-Respects p _) λ state.
      next-Respects p _ _ (needs-Respects p _ _)
        (bind-Respects p _ _ (post-Respects p env uses _ _ _) λ _. write-Respects p _)

  pub broker_issue-Respects : (s : Step) → Respects p (broker_issue env s)
  unfolding broker_issue
  broker_issue-Respects s = bind-Respects p _ _ (read-Respects p _) λ state.
      next-Respects p _ _ (needs-Respects p _ _) (
        bind-Respects p _ _ (post-Respects p env uses _ _ _)
          λ token. next-Respects p _ _ (needs-Respects p _ _) (write-Respects p _))

  peer_issuer-Respects : Respects p (peer_issuer env)
  unfolding peer_issuer
  peer_issuer-Respects = same_registry p (peer_issuer env) (λ w. elim (Option-cases w.peer) [
    | inr (peer, e) ↦ rw (peer_issuer, e)
    | inl e ↦ elim (Option-cases env.new_peer) [
      | inl e' ↦ rw (peer_issuer, e, e')
      | inr (start, e') ↦ rw (peer_issuer, e, e')
    ]
  ])

  pub register_federation_trust-Respects : (s : Step) → Respects p (register_federation_trust env s)
  unfolding register_federation_trust
  register_federation_trust-Respects s = elim (Option-cases s.federation) [
    | inl e ↦ rw (register_federation_trust, e) (fail-Respects p _)
    | inr (config, e) ↦
        rw (register_federation_trust, e)
          (bind-Respects p _ _ peer_issuer-Respects
            λ peer. bind-Respects p _ _ (post-Respects p env uses _ _ _) λ _. pure-Respects p _)
  ]

  pub disable_federation_trust-Respects : (s : Step) → Respects p (disable_federation_trust env s)
  unfolding disable_federation_trust
  disable_federation_trust-Respects s = post-Respects p env uses _ _ _

  signed-Respects : (r : Result PeerError Text) → Respects {D = D} p (signed r)
  signed-Respects (ok token) = pure-Respects p token
  signed-Respects (err e) = fail-Respects p _

  pub issue_peer_token-Respects : (s : Step) → Respects p (issue_peer_token env s)
  unfolding issue_peer_token
  issue_peer_token-Respects s = bind-Respects p _ _ peer_issuer-Respects λ peer.
      bind-Respects p _ _ (read-Respects p _)
        λ main_pub. bind-Respects p _ _ (signed-Respects _) λ token. write-Respects p _

  build_attestation-Respects :
      (att : Option Attest) (priv : Text) → Respects p (build_attestation env att priv)
  unfolding build_attestation
  build_attestation-Respects none priv = pure-Respects p none
  build_attestation-Respects (some att) priv =
      elim (Bool-cases (text_eq att.method (text "private_key_jwt"))) [
        | inl a ↦ rw a (pure-Respects p none)
        | inr a ↦ elim (Bool-cases (text_eq att.method (text "mtls"))) [
          | inl b ↦ rw (a, b) (bind-Respects p _ _ (lift-Respects p _ _) λ _. pure-Respects p _)
          | inr b ↦ elim (Bool-cases (text_eq att.method (text "spiffe_svid"))) [
            | inl c ↦
                rw (a, b, c)
                  (bind-Respects p _ _ (lift-Respects p _ _)
                    λ pem. bind-Respects p _ _ (spiffe-Respects att pem) λ _. pure-Respects p _)
            | inr c ↦ elim (Bool-cases (text_eq att.method (text "k8s_projected_sa"))) [
              | inl d ↦ rw (a, b, c, d) (pure-Respects p _)
              | inr d ↦ rw (a, b, c, d) (fail-Respects p _)
            ]
          ]
        ]
      ]

  pub register_workload-Respects : (s : Step) → Respects p (register_workload env s)
  unfolding register_workload
  register_workload-Respects s = elim (Option-cases s.workload) [
    | inl e ↦ rw (register_workload, e) (fail-Respects p _)
    | inr (workload, e) ↦
        rw (register_workload, e)
          (bind-Respects p _ _ (call-Respects p _ (add-Reaches workload)) λ id.
            next-Respects p _ _ (write-Respects p _) (
              bind-Respects p _ _ (read-Respects p _) λ agent_id.
                bind-Respects p _ _ (post-Respects p env uses _ _ _) λ answer. write-Respects p _))
  ]

  pub complete_enrollment-Respects : (s : Step) → Respects p (complete_enrollment env s)
  unfolding complete_enrollment
  complete_enrollment-Respects s = bind-Respects p _ _ (read-Respects p _) λ state.
      next-Respects p _ _ (needs-Respects p _ _) (
        next-Respects p _ _ (needs-Respects p _ _) (
          bind-Respects p _ _ (build_attestation-Respects _ _) λ attestation.
            bind-Respects p _ _ (post-Respects p env uses _ _ _) λ instance_id. write-Respects p _))

  pub instance_lease-Respects : Respects p (instance_lease env)
  unfolding instance_lease
  instance_lease-Respects =
      bind-Respects p _ _ (read-Respects p _)
        λ id. next-Respects p _ _ (needs-Respects p _ _) (call-Respects p _ (lease-Reaches id _))
