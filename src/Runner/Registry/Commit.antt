-- ===== src/Runner/Registry/Commit.antt =====
-- What the commit of an instance does, on every branch.
use eidovela_open.Common.{
  ℕ, ◌+◌, ◌≡◌, ◌≢◌, ◌⊎◌, ℤ, inc64, Option, none, some, ok, err, Option-cases, Bool-cases, inl, inr,
  arith, if◌then◌else◌,
}
use eidovela_open.Text.{Text, text_eq}
use eidovela_open.Text.Laws.{text_eq_iff, text_eq_sound}
use eidovela_open.Dict.{lookup}
use eidovela_open.Dict.Keys.{lookup-insert, length-insert_new}
use eidovela_open.Runner.Registry.{
  FakeRegistry, FakeWorkload, FakeInstance, CommitBody, unknown_agent,
  unknown_workload_registration, new_instance, or_zero_time, commit_instance, instance_id_of,
  instance_count,
}
use eidovela_open.Runner.Registry.Ids.{instance_id_of-IsInjective}
use eidovela_open.Runner.Registry.Consistent.{
  IsConsistent, HasRoom, inc64_of_HasRoom, next_lookup-none,
}

module _ (parse_time : Text → Option ℤ) (agent_id : Text) (body : CommitBody)
    (r : FakeRegistry) where
  abbrev committed : FakeInstance
  committed =
      new_instance (instance_id_of (inc64 r.sequence)) agent_id body
        (or_zero_time (parse_time body.lease_expires_at))

  -- A refused commit changes nothing. It is refused for an agent other than the registry's, and for a
  -- workload registration that does not exist; any other commit is accepted.
  pub commit_instance_cases :
      ((agent_id ≢ r.agent_id)
        × (commit_instance parse_time agent_id body r ≡ (r, err unknown_agent)))
      ⊎ (((agent_id ≡ r.agent_id)
            × (lookup r.workloads body.workload_registration_id ≡ none)
            × (commit_instance parse_time agent_id body r ≡ (r, err unknown_workload_registration)))
          ⊎ ((agent_id ≡ r.agent_id)
              × (lookup r.workloads body.workload_registration_id ≢ none)
              × ((commit_instance parse_time agent_id body r).1 ≡ ok committed)))
  unfolding commit_instance
  commit_instance_cases = elim (Bool-cases (text_eq agent_id r.agent_id)) [
    | inr other ↦ inl (ground (arith, text_eq_iff agent_id r.agent_id), rw (other, commit_instance))
    | inl same ↦
        let e = text_eq_sound agent_id r.agent_id same in
        elim (Option-cases (lookup r.workloads body.workload_registration_id)) [
          | inl missing ↦ inr (inl (e, missing, rw (same, missing, commit_instance)))
          | inr (w, found) ↦ inr (inr (e, (λ missing. cc), rw (same, found, commit_instance)))
        ]
  ]

  fresh_id : {n : ℕ} → HasRoom n → IsConsistent n r → lookup r.instances committed.id ≡ none
  fresh_id {n} room c =
      next_lookup-none instance_id_of n (inc64 r.sequence) r.instances r.instance_order
        instance_id_of-IsInjective (rw c.sequence (inc64_of_HasRoom n room)) c.instance_keys
        c.instance_ids

  -- A commit for the registry's agent and an existing workload registration adds one instance under an
  -- id that no instance had, and leaves every other instance as it was.
  pub commit_instance_adds :
      {n : ℕ} (w : FakeWorkload) (j : Text)
      → HasRoom n
      → IsConsistent n r
      → agent_id ≡ r.agent_id
      → lookup r.workloads body.workload_registration_id ≡ some w
      → let (r', result) = commit_instance parse_time agent_id body r in
        (result ≡ ok committed)
        × (lookup r.instances committed.id ≡ none)
        × (lookup r'.instances j
            ≡ (if text_eq committed.id j then some committed else lookup r.instances j))
        × (instance_count r' ≡ instance_count r + 1)
        × (r'.workloads ≡ r.workloads)
  unfolding commit_instance instance_count
  commit_instance_adds {n} w j room c same found =
      let new = fresh_id room c in
      ground (
        arith,
        text_eq_iff agent_id r.agent_id,
        lookup-insert committed.id j committed r.instances,
        length-insert_new committed.id committed r.instances new,
      )
