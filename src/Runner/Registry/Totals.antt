-- ===== src/Runner/Registry/Totals.antt =====
-- The sequence of the fake registry against what has an id.
use eidovela_open.Common.{
  ℕ, ◌+◌, ◌≡◌, ap, ◌∙◌, ℤ, pos, inc64, List, [], ◌∷◌, Option, length, length-append, Option-cases,
  Bool-cases, inl, inr, arith,
}
use eidovela_open.Text.{Text, text_eq}
use eidovela_open.Dict.{lookup}
use eidovela_open.Platform.{Platform}
use eidovela_open.Runner.Registry.{
  FakeRegistry, seed_agent, set_identity_attributes, suspend_agent, add_workload,
  terminate_instance, lease_instance, is_final, revoke_agent, suspend_identity, CommitBody,
  commit_instance, workload_id_of, instance_id_of,
}
use eidovela_open.Runner.Registry.State.{serve_http_state}
use eidovela_open.Runner.Registry.Operations.{
  Operation, seed, set_attributes, add, suspend, revoke, suspend_id, terminate, lease, serve, step,
}
use eidovela_open.Runner.Registry.Consistent.{HasRoom, inc64_of_HasRoom}

-- The agents that an operation seeds, and those that a run seeds
abbrev pub seeds_of : Operation → ℕ
seeds_of (seed class binding root) = 1
seeds_of _ = 0

abbrev pub seeds : List Operation → ℕ
seeds [] = 0
seeds (op ∷ ops) = seeds_of op + seeds ops

-- What has an id: so many agents, the workload registrations and the instances
abbrev pub total : ℕ → FakeRegistry → ℕ
total k r = k + length r.workload_order + length r.instance_order

next_total : (n m : ℕ) (s : ℤ) → s ≡ pos n → HasRoom n → m ≡ n + 1 → inc64 s ≡ pos m
next_total n m s e room t = rw (e, t) (inc64_of_HasRoom n room)

commit_instance-total :
    (parse_time : Text → Option ℤ) (agent_id : Text) (body : CommitBody) (k : ℕ) (r : FakeRegistry)
    → HasRoom (total k r)
    → r.sequence ≡ pos (total k r)
    → let r' = (commit_instance parse_time agent_id body r).0 in r'.sequence ≡ pos (total k r')
unfolding commit_instance
commit_instance-total parse_time agent_id body k r room h =
    elim (Bool-cases (text_eq agent_id r.agent_id)) [
      | inr other ↦ rw (other, commit_instance) h
      | inl same ↦ elim (Option-cases (lookup r.workloads body.workload_registration_id)) [
        | inl e ↦ rw (same, e, commit_instance) h
        | inr (w, e) ↦
            rw (same, e, commit_instance)
              (next_total (total k r) _ r.sequence h room (
                omega
                  (arith, length-append r.instance_order (instance_id_of (inc64 r.sequence) ∷ []))))
      ]
    ]

lease_instance-total :
    (id : Text) (t : ℤ) (k : ℕ) (r : FakeRegistry)
    → r.sequence ≡ pos (total k r)
    → let r' = (lease_instance id t r).0 in r'.sequence ≡ pos (total k r')
unfolding lease_instance
lease_instance-total id t k r h = elim (Option-cases (lookup r.instances id)) [
  | inl e ↦ rw (e, lease_instance) h
  | inr (inst, e) ↦ elim (Bool-cases (is_final inst)) [
    | inl final ↦ rw (e, lease_instance, final) h
    | inr open' ↦ rw (e, lease_instance, open') h
  ]
]

pub step-total :
    (p : Platform) (op : Operation) (k : ℕ) (r : FakeRegistry)
    → HasRoom (total k r)
    → r.sequence ≡ pos (total k r)
    → (step p op r).sequence ≡ pos (total (k + seeds_of op) (step p op r))
unfolding step set_identity_attributes suspend_agent revoke_agent suspend_identity seed_agent
    add_workload terminate_instance
step-total p (seed class binding root) k r room h =
    next_total (total k r) _ r.sequence h room (omega arith)
step-total p (set_attributes t s) k r room h = h ∙ ap pos (omega arith)
step-total p (add w) k r room h =
    next_total (total k r) _ r.sequence h room
      (omega (arith, length-append r.workload_order (workload_id_of (inc64 r.sequence) ∷ [])))
step-total p suspend k r room h = h ∙ ap pos (omega arith)
step-total p revoke k r room h = h ∙ ap pos (omega arith)
step-total p suspend_id k r room h = h ∙ ap pos (omega arith)
step-total p (terminate id) k r room h = elim (Option-cases (lookup r.instances id)) [
  | inl e ↦ rw (e, terminate_instance) (h ∙ ap pos (omega arith))
  | inr (inst, e) ↦ rw (e, terminate_instance) (h ∙ ap pos (omega arith))
]
step-total p (lease id t) k r room h = lease_instance-total id t k r h ∙ ap pos (omega arith)
step-total p (serve req) k r room h = elim (serve_http_state p req r) [
  | inl same ↦ rw same (h ∙ ap pos (omega arith))
  | inr (agent_id, body, same) ↦
      rw same
        (commit_instance-total p.parse_rfc3339 agent_id body k r room h ∙ ap pos (omega arith))
]

pub pos-injective : (a b : ℕ) → pos a ≡ pos b → a ≡ b
pos-injective a b h = ground (arith, h)
