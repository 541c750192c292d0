-- ===== src/Runner/Registry/Views.antt =====
-- What the fake registry answers about its entries, and which requests change it.
use eidovela_open.Common.{
  ℕ, ℤ, pos, ◌≡◌, ◌≢◌, ◌⊎◌, refl, false, ◌&&◌, List, [], ◌∷◌, All, none, some, Option-cases,
  Bool-cases, inl, inr, Result, ok, err,
}
use eidovela_open.Text.{
  Text, text, text_eq, is_empty, has_prefix, has_suffix, trim_prefix, trim_suffix,
}
use eidovela_open.Text.Laws.{text_eq_refl, text_eq_sound}
use eidovela_open.Dict.{lookup, keys}
use eidovela_open.Dict.Keys.{lookup-All}
use eidovela_open.Platform.{Platform}
use eidovela_open.Runner.Registry.{
  FakeRegistry, FakeWorkload, FakeInstance, CommitError, unknown_agent,
  unknown_workload_registration, workload_id_of, commit_instance,
}
use eidovela_open.Runner.Registry.Ids.{IsNumbered}
use eidovela_open.Runner.Registry.Consistent.{IsConsistent, IsRegistered}
use eidovela_open.Runner.Registry.Commit.{commit_instance_cases}
use eidovela_open.Runner.Registry.Http.{
  Request, reply, namespace_json, agent_json, identity_json, workload_json, instance_json,
}
use eidovela_open.Runner.Registry.Serve.{
  registry_context, context_workload, serve_http, handle_commit, commit_body, commit_reply,
  instances_prefix, instances_suffix,
}

workload_id_nonempty : (s : ℤ) → is_empty (workload_id_of s) ≡ false
unfolding workload_id_of
workload_id_nonempty s = refl

numbered_nonempty :
    (n : ℕ) (m : List (Text × FakeWorkload)) (k : Text)
    → All (IsNumbered workload_id_of n) (keys m)
    → lookup m k ≢ none
    → is_empty k ≡ false
unfolding lookup
numbered_nonempty n [] k h found = absurd (found refl)
numbered_nonempty n ((j, w) ∷ m) k ((i, le, e), h) found = elim (Bool-cases (text_eq j k)) [
  | inl same ↦ rw (← text_eq_sound j k same, e) (workload_id_nonempty (pos i))
  | inr other ↦ numbered_nonempty n m k h (λ e'. found (rw other e'))
]

-- On a consistent registry the context of an existing instance, asked for under the registry's agent,
-- is answered with status 200 and the documents of the namespace, the agent, the identity, the
-- instance, and the workload registration that the instance was committed for, whichever one the
-- request names.
pub registry_context_lem :
    (p : Platform) (instance_id registration_id : Text) (inst : FakeInstance) {n : ℕ}
    {r : FakeRegistry}
    → IsConsistent n r
    → instance_id ≢ []
    → lookup r.instances instance_id ≡ some inst
    → (w : FakeWorkload) × (lookup r.workloads inst.registration_id ≡ some w)
      × (registry_context p r r.agent_id instance_id registration_id
          ≡ reply 200 (
              (text "namespace", namespace_json r)
              ∷ (text "agent", agent_json r)
              ∷ (text "identity", identity_json r)
              ∷ (text "instance", instance_json p r inst)
              ∷ (text "workloadRegistration", workload_json r w)
              ∷ []))
unfolding registry_context context_workload
registry_context_lem p [] registration_id inst c set found = absurd (set refl)
registry_context_lem p (b ∷ s) registration_id inst {n} {r} c set found =
    let known = lookup-All (IsRegistered r.workloads) r.instances (b ∷ s) inst c.registered found in
    elim (Option-cases (lookup r.workloads inst.registration_id)) [
      | inl none' ↦ absurd (known none')
      | inr (w, e) ↦
          let named =
            numbered_nonempty n r.workloads inst.registration_id (rw c.workload_keys c.workload_ids)
              known in
          (w, e, rw (text_eq_refl r.agent_id, found, named, e))
    ]

commit_reply_created :
    (p : Platform) (x : FakeRegistry × Result CommitError FakeInstance) (inst : FakeInstance)
    → x.1 ≡ ok inst
    → (commit_reply p x).1.status ≡ 201
commit_reply_created p (r, ok _) inst h = refl
commit_reply_created p (r, err unknown_agent) inst h = cc
commit_reply_created p (r, err unknown_workload_registration) inst h = cc

handle_commit_created :
    (p : Platform) (agent_id body : Text) (r : FakeRegistry)
    → ((handle_commit p agent_id body r).0 ≡ r) ⊎ ((handle_commit p agent_id body r).1.status ≡ 201)
unfolding handle_commit
handle_commit_created p agent_id body r = elim (Option-cases (commit_body p body)) [
  | inl e ↦ rw (e, handle_commit) (inl refl)
  | inr (b, e) ↦ elim (commit_instance_cases p.parse_rfc3339 agent_id b r) [
    | inl (_, same) ↦ rw (e, handle_commit, same) (inl refl)
    | inr (inl (_, _, same)) ↦ rw (e, handle_commit, same) (inl refl)
    | inr (inr (_, _, made)) ↦
        rw (e, handle_commit)
          (inr (commit_reply_created p (commit_instance p.parse_rfc3339 agent_id b r) _ made))
  ]
]

-- A request changes the registry only if it is a POST that is answered with status 201.
pub serve_http_changes :
    (p : Platform) (req : Request) (r : FakeRegistry)
    → ((serve_http p req r).0 ≡ r)
      ⊎ ((req.method ≡ text "POST") × ((serve_http p req r).1.status ≡ 201))
unfolding serve_http
serve_http_changes p req r = elim (Bool-cases (text_eq req.method (text "GET"))) [
  | inl get ↦ rw get (inl refl)
  | inr other ↦
      let path = trim_suffix req.path (text "/") in
      elim (Bool-cases (text_eq req.method (text "POST"))) [
        | inr no_post ↦ rw (other, no_post) (inl refl)
        | inl post ↦
            elim (Bool-cases
              (has_prefix path instances_prefix && has_suffix path instances_suffix)) [
                | inr elsewhere ↦ rw (other, post, elsewhere) (inl refl)
                | inl there ↦
                    rw (other, post, there)
                      (elim (handle_commit_created p
                        (trim_suffix (trim_prefix path instances_prefix) instances_suffix) req.body
                        r) [
                          | inl same ↦ inl same
                          | inr made ↦ inr (text_eq_sound req.method (text "POST") post, made)
                        ])
              ]
      ]
]
