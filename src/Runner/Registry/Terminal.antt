-- ===== src/Runner/Registry/Terminal.antt =====
-- A terminated instance is terminated for good.
use eidovela_open.Common.{
  ◌⊎◌, ℕ, ◌+◌, ◌^◌, ◌<◌, ◌≡◌, ◌≢◌, refl, ◌∙◌, ℤ, inc64, ◌↔◌, true, false, List, [], ◌∷◌, Option,
  none, some, ok, err, length, Option-cases, Bool-cases, inl, inr, arith, if◌then◌else◌,
}
use mathlib.Core.Option
use eidovela_open.Text.{Text, text, text_eq}
use eidovela_open.Text.Laws.{text_eq_iff, text_eq_refl}
use eidovela_open.Dict.{lookup, insert}
use eidovela_open.Dict.Keys.{lookup-insert}
use eidovela_open.Platform.{Platform}
use eidovela_open.Runner.Registry.{
  FakeRegistry, FakeInstance, seed_agent, set_identity_attributes, add_workload, suspend_agent,
  revoke_agent, suspend_identity, is_final, terminated, terminate_instance, lease_instance,
  commit_instance, CommitBody, LeaseError, instance_is, unknown_instance, instance_id_of,
}
use eidovela_open.Runner.Registry.Serve.{serve_http}
use eidovela_open.Runner.Registry.State.{serve_http_state}
use eidovela_open.Runner.Registry.Operations.{
  Operation, seed, set_attributes, add, suspend, revoke, suspend_id, terminate, lease, serve, step,
  run,
}
use eidovela_open.Runner.Registry.Http.{Request}
use eidovela_open.Runner.Registry.Consistent.{
  IsConsistent, HasRoom, terminate_instance-IsConsistent,
}
use eidovela_open.Runner.Registry.Commit.{commit_instance_cases, commit_instance_adds}
use eidovela_open.Runner.Registry.Reachable.{step-Grows}

-- Terminating an instance that exists sets its state and moves its generation on; every other instance
-- is as it was, and an id that no instance has changes nothing.
pub lookup-terminate_instance :
    (id j : Text) (r : FakeRegistry)
    → lookup (terminate_instance id r).instances j ≡ (
        if text_eq id j then Option.map terminated (lookup r.instances j) else lookup r.instances j)
unfolding terminate_instance
lookup-terminate_instance id j r = elim (Option-cases (lookup r.instances id)) [
  | inl e ↦ rw (e, terminate_instance) (ground (arith, text_eq_iff id j))
  | inr (inst, e) ↦
      rw (e, terminate_instance)
        (ground (arith, text_eq_iff id j, lookup-insert id j (terminated inst) r.instances))
]

abbrev pub IsEnded : FakeInstance → Type 0
IsEnded inst = (inst.state ≡ text "terminated") ⊎ (inst.state ≡ text "expired")

is_final_iff : (inst : FakeInstance) → (is_final inst ≡ true) ↔ IsEnded inst
unfolding is_final
is_final_iff inst =
    ground
      (arith, text_eq_iff inst.state (text "terminated"), text_eq_iff inst.state (text "expired"))

-- A lease of an id that no instance has, and one of an instance that is terminated or expired, is refused with
-- the id or the state, and changes nothing. Any other lease is accepted: it replaces the expiry of the
-- instance, leaves every other instance as it was, and changes no other part of the registry.
pub lease_instance_cases :
    (id : Text) (t : ℤ) (r : FakeRegistry)
    → ((lookup r.instances id ≡ none) × (lease_instance id t r ≡ (r, err (unknown_instance id))))
      ⊎ (((inst : FakeInstance) × (lookup r.instances id ≡ some inst)
            × IsEnded inst
            × (lease_instance id t r ≡ (r, err (instance_is id inst.state))))
          ⊎ ((inst : FakeInstance) × (m : List (Text × FakeInstance)) × (lookup r.instances id
                ≡ some inst)
              × (IsEnded inst → ⊥)
              × (lease_instance id t r ≡ (record r { instances = m }, ok tt))
              × (lookup m id ≡ some (record inst { lease_expires_at = t }))
              × ((j : Text) → j ≢ id → lookup m j ≡ lookup r.instances j)))
unfolding lease_instance
lease_instance_cases id t r = elim (Option-cases (lookup r.instances id)) [
  | inl e ↦ inl (e, rw (e, lease_instance) refl)
  | inr (inst, e) ↦ elim (Bool-cases (is_final inst)) [
    | inl final ↦
        inr (inl (inst, e, (is_final_iff inst).0 final, rw (e, lease_instance, final) refl))
    | inr live ↦
        let new = record inst { lease_expires_at = t } in
        inr (
          inr (
            inst,
            insert id new r.instances,
            e,
            (λ ended. absurd (cc ((is_final_iff inst).1 ended, live))),
            rw (e, lease_instance, live) refl,
            lookup-insert id id new r.instances ∙ rw (text_eq_refl id) refl,
            (λ j n. lookup-insert id j new r.instances ∙ ground (arith, n, text_eq_iff id j)),
          ))
  ]
]

-- What a lease leaves under an id
pub lookup-lease_instance :
    (id j : Text) (t : ℤ) (r : FakeRegistry)
    → ((lease_instance id t r).1 ≡ ok tt)
        × ((inst : FakeInstance) × (lookup r.instances id ≡ some inst)
            × (is_final inst ≡ false)
            × (lookup (lease_instance id t r).0.instances j ≡ (
                if text_eq id j
                then some (record inst { lease_expires_at = t })
                else lookup r.instances j)))
      ⊎ ((e : LeaseError) × (lease_instance id t r ≡ (r, err e)))
unfolding lease_instance
lookup-lease_instance id j t r = elim (Option-cases (lookup r.instances id)) [
  | inl e ↦ inr (unknown_instance id, rw (e, lease_instance))
  | inr (inst, e) ↦ elim (Bool-cases (is_final inst)) [
    | inl final ↦ inr (instance_is id inst.state, rw (e, lease_instance, final))
    | inr live ↦ inl (
      rw (e, lease_instance, live),
      (
        inst,
        e,
        live,
        rw (e, lease_instance, live)
            (lookup-insert id j (record inst { lease_expires_at = t }) r.instances),
      ),
    )
  ]
]

record IsTerminated (id : Text) (r : FakeRegistry) : Type 0 where
  instance' : FakeInstance
  found : lookup r.instances id ≡ some instance'
  state : instance'.state ≡ text "terminated"

same_instances :
    {id : Text} {r : FakeRegistry} (s : FakeRegistry)
    → s.instances ≡ r.instances
    → IsTerminated id r
    → IsTerminated id s
same_instances s e h = record { instance' = h.instance'; found = rw e h.found; state = h.state }

terminate_instance-IsTerminated :
    {id : Text} {r : FakeRegistry} (j : Text)
    → IsTerminated id r
    → IsTerminated id (terminate_instance j r)
terminate_instance-IsTerminated {id} {r} j h = elim (Bool-cases (text_eq j id)) [
  | inl same ↦ record {
    instance' = terminated h.instance';
    found = lookup-terminate_instance j id r ∙ rw (same, h.found);
    state = refl;
  }
  | inr other ↦ record {
    instance' = h.instance';
    found = lookup-terminate_instance j id r ∙ rw (other, h.found);
    state = h.state;
  }
]

-- A terminated instance cannot be leased, and the attempt changes nothing.
lease_of_IsTerminated :
    {id : Text} {r : FakeRegistry} (t : ℤ)
    → IsTerminated id r
    → lease_instance id t r ≡ (r, err (instance_is id (text "terminated")))
unfolding lease_instance is_final
lease_of_IsTerminated {id} {r} t h =
    rw (h.found, lease_instance, h.state, is_final, text_eq_refl (text "terminated"))

live_not_terminated : (inst : FakeInstance) → is_final inst ≡ false → inst.state ≢ text "terminated"
unfolding is_final
live_not_terminated inst live e = ground (arith, text_eq_iff inst.state (text "terminated"))

lease_instance-IsTerminated :
    {id : Text} {r : FakeRegistry} (j : Text) (t : ℤ)
    → IsTerminated id r
    → IsTerminated id (lease_instance j t r).0
lease_instance-IsTerminated {id} {r} j t h = elim (lookup-lease_instance j id t r) [
  | inr (e, same) ↦ rw same h
  | inl (_, (inst, found, live, after)) ↦ elim (Bool-cases (text_eq j id)) [
    | inr other ↦ record {
      instance' = h.instance';
      found = after ∙ rw (other, h.found);
      state = h.state;
    }
    | inl same ↦ elim (live_not_terminated inst live (ground (arith, text_eq_iff j id))) [ ]
  ]
]

commit_instance-IsTerminated :
    {id : Text} {n : ℕ} {r : FakeRegistry} (parse_time : Text → Option ℤ) (agent_id : Text)
    (body : CommitBody)
    → HasRoom n
    → IsConsistent n r
    → IsTerminated id r
    → IsTerminated id (commit_instance parse_time agent_id body r).0
commit_instance-IsTerminated {id} {n} {r} parse_time agent_id body room c h =
    elim (commit_instance_cases parse_time agent_id body r) [
      | inl (_, e) ↦ rw e h
      | inr (inl (_, _, e)) ↦ rw e h
      | inr (inr (same, found, _)) ↦
          elim (Option-cases (lookup r.workloads body.workload_registration_id)) [
            | inl none' ↦ elim (found none') [ ]
            | inr (w, found') ↦
                let (_, new, after, _, _) =
                  commit_instance_adds parse_time agent_id body r {n = n} w id room c same found' in
                record {
                  instance' = h.instance';
                  found =
                      ground
                        (arith, after, new, text_eq_iff (instance_id_of (inc64 r.sequence)) id);
                  state = h.state;
                }
          ]
    ]

serve_http-IsTerminated :
    {id : Text} {n : ℕ} {r : FakeRegistry} (p : Platform) (req : Request)
    → HasRoom n
    → IsConsistent n r
    → IsTerminated id r
    → IsTerminated id (serve_http p req r).0
serve_http-IsTerminated {id} {n} {r} p req room c h = elim (serve_http_state p req r) [
  | inl same ↦ rw same h
  | inr (agent_id, body, same) ↦
      rw same (commit_instance-IsTerminated {n = n} p.parse_rfc3339 agent_id body room c h)
]

step-IsTerminated :
    {id : Text} {n : ℕ} {r : FakeRegistry} (p : Platform) (op : Operation)
    → HasRoom n
    → IsConsistent n r
    → IsTerminated id r
    → IsTerminated id (step p op r)
unfolding step seed_agent set_identity_attributes add_workload suspend_agent revoke_agent
    suspend_identity
step-IsTerminated p (seed class binding root) room c h = same_instances _ refl h
step-IsTerminated p (set_attributes t s) room c h = same_instances _ refl h
step-IsTerminated p (add w) room c h = same_instances _ refl h
step-IsTerminated p suspend room c h = same_instances _ refl h
step-IsTerminated p revoke room c h = same_instances _ refl h
step-IsTerminated p suspend_id room c h = same_instances _ refl h
step-IsTerminated p (terminate j) room c h = terminate_instance-IsTerminated j h
step-IsTerminated p (lease j t) room c h = lease_instance-IsTerminated j t h
step-IsTerminated {n} p (serve req) room c h = serve_http-IsTerminated {n = n} p req room c h

run-IsTerminated :
    {id : Text} (p : Platform) (ops : List Operation) {n : ℕ} {r : FakeRegistry}
    → n + length ops < 2 ^ 63
    → IsConsistent n r
    → IsTerminated id r
    → IsTerminated id (run p ops r)
unfolding run
run-IsTerminated p [] room c h = h
run-IsTerminated p (op ∷ ops) {n} room c h =
    let (m, least, most, d) = step-Grows p op (omega arith) c in
    run-IsTerminated p ops {n = m} (omega arith) d
      (step-IsTerminated {n = n} p op (omega arith) c h)

-- An instance that exists and is terminated can no longer be leased: after any operations and requests
-- on a consistent registry, as long as ids do not run out, a lease of it is refused with the state
-- "terminated", and the refusal changes nothing.
pub lease_after_terminate :
    (id : Text) (p : Platform) (ops : List Operation) (t : ℤ) {n : ℕ} {r : FakeRegistry}
    (inst : FakeInstance)
    → n + length ops < 2 ^ 63
    → IsConsistent n r
    → lookup r.instances id ≡ some inst
    → let s = run p ops (terminate_instance id r) in
      lease_instance id t s ≡ (s, err (instance_is id (text "terminated")))
lease_after_terminate id p ops t {n} {r} inst room c found = lease_of_IsTerminated t (
    run-IsTerminated p ops {n = n} room (terminate_instance-IsConsistent id c) (record {
      instance' = terminated inst;
      found = lookup-terminate_instance id id r ∙ rw (text_eq_refl id, found);
      state = refl;
    }))
