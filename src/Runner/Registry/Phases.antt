-- ===== src/Runner/Registry/Phases.antt =====
-- The life of an instance as the registry's callers see it: the abstract machine that the registry of
-- conformance/runner/registry.go implements for each id.
use eidovela_open.Common.{
  ℕ, suc, ◌+◌, ◌^◌, ◌<◌, ◌≡◌, refl, false, ℤ, inc64, List, [], ◌∷◌, Option, none, some, length,
  Option-cases, Bool-cases, inl, inr, arith, if◌then◌else◌,
}
use mathlib.Core.Option
use eidovela_open.Text.{Text, text, text_eq}
use eidovela_open.Text.Laws.{text_eq_refl, text_eq_sound}
use eidovela_open.Dict.{lookup}
use eidovela_open.Platform.{Platform}
use eidovela_open.Runner.Registry.{
  FakeRegistry, FakeInstance, seed_agent, set_identity_attributes, add_workload, suspend_agent,
  revoke_agent, suspend_identity, is_final, terminated, terminate_instance, lease_instance,
  commit_instance, CommitBody, instance_id_of, new_instance, or_zero_time,
}
use eidovela_open.Runner.Registry.Serve.{serve_http}
use eidovela_open.Runner.Registry.State.{serve_http_state}
use eidovela_open.Runner.Registry.Operations.{
  Operation, seed, set_attributes, add, suspend, revoke, suspend_id, terminate, lease, serve, step,
  run,
}
use eidovela_open.Runner.Registry.Http.{Request}
use eidovela_open.Runner.Registry.Consistent.{IsConsistent, HasRoom}
use eidovela_open.Runner.Registry.Commit.{commit_instance_cases, commit_instance_adds}
use eidovela_open.Runner.Registry.Reachable.{step-Grows}
use eidovela_open.Runner.Registry.Terminal.{lookup-terminate_instance, lookup-lease_instance}

-- There is no instance, or one that is leased to a time, or one that has ended.
pub data Phase : Type 0 where
  absent ended : Phase
  live : ℤ → Phase

abbrev pub phase_of : Option FakeInstance → Phase
phase_of none = absent
phase_of (some inst) = if is_final inst then ended else live inst.lease_expires_at

abbrev pub phase : Text → FakeRegistry → Phase
phase id r = phase_of (lookup r.instances id)

-- The moves of the abstract machine
pub data Moves : Phase → Phase → Type 0 where
  stays : (a : Phase) → Moves a a
  commits : (t : ℤ) → Moves absent (live t)
  renews : (t u : ℤ) → Moves (live t) (live u)
  ends : (t : ℤ) → Moves (live t) ended

-- A life from one phase to another, of this many moves
pub data Life : Phase → ℕ → Phase → Type 0 where
  here : (a : Phase) → Life a 0 a
  next : {a b c : Phase} {n : ℕ} → Moves a b → Life b n c → Life a (suc n) c

terminated-ended : (inst : FakeInstance) → phase_of (some (terminated inst)) ≡ ended
unfolding is_final
terminated-ended inst = rw (text_eq_refl (text "terminated")) refl

terminated-Moves :
    (o : Option FakeInstance) → Moves (phase_of o) (phase_of (Option.map terminated o))
terminated-Moves none = stays absent
terminated-Moves (some inst) = rw (terminated-ended inst) (elim (Bool-cases (is_final inst)) [
  | inl final ↦ rw final (stays ended)
  | inr still ↦ rw still (ends inst.lease_expires_at)
])

terminate_instance-Moves :
    (id j : Text) (r : FakeRegistry) → Moves (phase j r) (phase j (terminate_instance id r))
terminate_instance-Moves id j r =
    rw (lookup-terminate_instance id j r) (elim (Bool-cases (text_eq id j)) [
      | inl same ↦ rw same (terminated-Moves (lookup r.instances j))
      | inr other ↦ rw other (stays (phase j r))
    ])

leased-live :
    (inst : FakeInstance) (t : ℤ)
    → is_final inst ≡ false
    → phase_of (some (record inst { lease_expires_at = t })) ≡ live t
unfolding is_final
leased-live inst t h = rw h refl

lease_instance-Moves :
    (id j : Text) (t : ℤ) (r : FakeRegistry) → Moves (phase j r) (phase j (lease_instance id t r).0)
lease_instance-Moves id j t r = elim (lookup-lease_instance id j t r) [
  | inr (e, same) ↦ rw same (stays (phase j r))
  | inl (_, (inst, found, still, after)) ↦ rw after (elim (Bool-cases (text_eq id j)) [
    | inr other ↦ rw other (stays (phase j r))
    | inl same ↦
        let e : id ≡ j = text_eq_sound id j same in
        let found' : lookup r.instances j ≡ some inst = rw e at found in
        let there : phase j r ≡ live inst.lease_expires_at = rw (found', still) refl in
        rw (same, there, leased-live inst t still) (renews inst.lease_expires_at t)
  ])
]

active-still : (inst : FakeInstance) → inst.state ≡ text "active" → is_final inst ≡ false
unfolding is_final text_eq
active-still inst h = rw h refl

committed-Moves :
    (id j : Text) (inst : FakeInstance) (r : FakeRegistry)
    → lookup r.instances id ≡ none
    → is_final inst ≡ false
    → Moves (phase j r) (phase_of (if text_eq id j then some inst else lookup r.instances j))
committed-Moves id j inst r new still = elim (Bool-cases (text_eq id j)) [
  | inr other ↦ rw other (stays (phase j r))
  | inl same ↦
      let e : id ≡ j = text_eq_sound id j same in
      let gone : lookup r.instances j ≡ none = rw e at new in
      rw (same, gone, still) (commits inst.lease_expires_at)
]

commit_instance-Moves :
    {n : ℕ} (j : Text) (parse_time : Text → Option ℤ) (agent_id : Text) (body : CommitBody)
    (r : FakeRegistry)
    → HasRoom n
    → IsConsistent n r
    → Moves (phase j r) (phase j (commit_instance parse_time agent_id body r).0)
unfolding is_final
commit_instance-Moves {n} j parse_time agent_id body r room c =
    elim (commit_instance_cases parse_time agent_id body r) [
      | inl (_, e) ↦ rw e (stays (phase j r))
      | inr (inl (_, _, e)) ↦ rw e (stays (phase j r))
      | inr (inr (same, found, _)) ↦
          elim (Option-cases (lookup r.workloads body.workload_registration_id)) [
            | inl none' ↦ elim (found none') [ ]
            | inr (w, found') ↦
                let (_, new, after, _, _) =
                  commit_instance_adds parse_time agent_id body r {n = n} w j room c same found' in
                let inst =
                  new_instance (instance_id_of (inc64 r.sequence)) agent_id body
                    (or_zero_time (parse_time body.lease_expires_at)) in
                rw after (committed-Moves inst.id j inst r new (active-still inst refl))
          ]
    ]

serve_http-Moves :
    {n : ℕ} (j : Text) (p : Platform) (req : Request) (r : FakeRegistry)
    → HasRoom n
    → IsConsistent n r
    → Moves (phase j r) (phase j (serve_http p req r).0)
serve_http-Moves {n} j p req r room c = elim (serve_http_state p req r) [
  | inl same ↦ rw same (stays (phase j r))
  | inr (agent_id, body, same) ↦
      rw same (commit_instance-Moves {n = n} j p.parse_rfc3339 agent_id body r room c)
]

step-Moves :
    {n : ℕ} (j : Text) (p : Platform) (op : Operation) (r : FakeRegistry)
    → HasRoom n
    → IsConsistent n r
    → Moves (phase j r) (phase j (step p op r))
unfolding step seed_agent set_identity_attributes add_workload suspend_agent revoke_agent
    suspend_identity
step-Moves j p (seed class binding root) r room c = stays (phase j r)
step-Moves j p (set_attributes t s) r room c = stays (phase j r)
step-Moves j p (add w) r room c = stays (phase j r)
step-Moves j p suspend r room c = stays (phase j r)
step-Moves j p revoke r room c = stays (phase j r)
step-Moves j p suspend_id r room c = stays (phase j r)
step-Moves j p (terminate id) r room c = terminate_instance-Moves id j r
step-Moves j p (lease id t) r room c = lease_instance-Moves id j t r
step-Moves {n} j p (serve req) r room c = serve_http-Moves {n = n} j p req r room c

-- The registry refines the abstract machine of an instance's life: over any operations and requests on a
-- consistent registry, as long as ids do not run out, what the registry holds under an id makes one move for
-- each of them, from absent to a lease, from a lease to another, from a lease to its end, or none.
pub run-Life :
    (id : Text) (p : Platform) (ops : List Operation) {n : ℕ} (r : FakeRegistry)
    → n + length ops < 2 ^ 63
    → IsConsistent n r
    → Life (phase id r) (length ops) (phase id (run p ops r))
unfolding run
run-Life id p [] r room c = here (phase id r)
run-Life id p (op ∷ ops) {n} r room c =
    let (m, least, most, d) = step-Grows p op (omega arith) c in
    next (step-Moves {n = n} id p op r (omega arith) c)
      (run-Life id p ops {n = m} (step p op r) (omega arith) d)
