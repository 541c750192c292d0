-- ===== src/Runner/Registry/Consistent.antt =====
-- What holds of the fake registry between two operations: its sequence counts what it made, the order
-- lists name the entries of the maps once each, every entry stands under its own id, and an instance's
-- workload registration exists.
use eidovela_open.Common.{
  ℕ, ◌+◌, ◌-◌, ◌^◌, ◌<◌, ◌≡◌, ◌≢◌, refl, ap, ◌∙◌, ℤ, pos, inc64, List, [], ◌∷◌, ◌++◌, none, some,
  All, All-append, Option-cases, Bool-cases, inl, inr, arith,
}
use eidovela_open.Text.{Text}
use eidovela_open.Dict.{lookup, insert, keys}
use eidovela_open.Dict.Keys.{
  lookup-insert, keys-insert_old, keys-insert_new, lookup_of_new, lookup-All, All-insert,
}
use eidovela_open.Runner.Registry.{
  Workload, FakeWorkload, FakeInstance, FakeRegistry, add_workload, is_final, terminated,
  terminate_instance, lease_instance, workload_id_of, instance_id_of,
}
use eidovela_open.Runner.Registry.Ids.{
  IsInjective, IsNumbered, Ascends, Ascends-suc, next-Ascends, All-IsNumbered_suc, next_is_new,
  Distinct, Distinct-append, workload_id_of-IsInjective,
}

abbrev pub IsRegistered : List (Text × FakeWorkload) → Text × FakeInstance → Type 0
IsRegistered ws (_, inst) = lookup ws inst.registration_id ≢ none

abbrev pub IsNamed : Text × FakeInstance → Type 0
IsNamed (k, inst) = inst.id ≡ k

abbrev pub IsNamedWorkload : Text × FakeWorkload → Type 0
IsNamedWorkload (k, w) = w.id ≡ k

pub record IsConsistent (n : ℕ) (r : FakeRegistry) : Type 0 where
  pub sequence : r.sequence ≡ pos n
  pub workload_keys : keys r.workloads ≡ r.workload_order
  pub instance_keys : keys r.instances ≡ r.instance_order
  pub workload_ids : All (IsNumbered workload_id_of n) r.workload_order
  pub instance_ids : All (IsNumbered instance_id_of n) r.instance_order
  pub workloads_distinct : Distinct r.workload_order
  pub instances_distinct : Distinct r.instance_order
  pub workloads_ascend : Ascends workload_id_of 0 n r.workload_order
  pub instances_ascend : Ascends instance_id_of 0 n r.instance_order
  pub workloads_named : All IsNamedWorkload r.workloads
  pub instances_named : All IsNamed r.instances
  pub registered : All (IsRegistered r.workloads) r.instances

-- An int that is not the greatest one
abbrev pub HasRoom : ℕ → Type 0
HasRoom n = n < 2 ^ 63 - 1

pub inc64_of_HasRoom : (n : ℕ) → HasRoom n → inc64 (pos n) ≡ pos (n + 1)
inc64_of_HasRoom n h = ground arith

-- Replacing an instance by one with the same id and registration keeps the registry consistent.
pub update-IsConsistent :
    {n : ℕ} {r : FakeRegistry} (id : Text) (old new : FakeInstance)
    → lookup r.instances id ≡ some old
    → new.id ≡ old.id
    → new.registration_id ≡ old.registration_id
    → IsConsistent n r
    → IsConsistent n (record r { instances = insert id new r.instances })
update-IsConsistent {n} {r} id old new found same_id same_registration c = record {
  sequence = c.sequence;
  workload_keys = c.workload_keys;
  instance_keys = keys-insert_old id new old r.instances found ∙ c.instance_keys;
  workload_ids = c.workload_ids;
  instance_ids = c.instance_ids;
  workloads_distinct = c.workloads_distinct;
  instances_distinct = c.instances_distinct;
  workloads_ascend = c.workloads_ascend;
  instances_ascend = c.instances_ascend;
  workloads_named = c.workloads_named;
  instances_named =
      All-insert IsNamed id new r.instances c.instances_named
        (same_id ∙ lookup-All IsNamed r.instances id old c.instances_named found);
  registered = All-insert (IsRegistered r.workloads) id new r.instances c.registered (
      rw same_registration
        (lookup-All (IsRegistered r.workloads) r.instances id old c.registered found));
}

pub terminate_instance-IsConsistent :
    {n : ℕ} {r : FakeRegistry} (id : Text)
    → IsConsistent n r
    → IsConsistent n (terminate_instance id r)
unfolding terminate_instance
terminate_instance-IsConsistent {n} {r} id c = elim (Option-cases (lookup r.instances id)) [
  | inl e ↦ rw (e, terminate_instance) c
  | inr (inst, e) ↦
      rw (e, terminate_instance) (update-IsConsistent id inst (terminated inst) e refl refl c)
]

pub lease_instance-IsConsistent :
    {n : ℕ} {r : FakeRegistry} (id : Text) (t : ℤ)
    → IsConsistent n r
    → IsConsistent n (lease_instance id t r).0
unfolding lease_instance
lease_instance-IsConsistent {n} {r} id t c = elim (Option-cases (lookup r.instances id)) [
  | inl e ↦ rw (e, lease_instance) c
  | inr (inst, e) ↦ elim (Bool-cases (is_final inst)) [
    | inl final ↦ rw (e, lease_instance, final) c
    | inr open' ↦
        rw (e, lease_instance, open')
          (update-IsConsistent id inst (record inst { lease_expires_at = t }) e refl refl c)
  ]
]

IsRegistered-insert :
    (ws : List (Text × FakeWorkload)) (id : Text) (w : FakeWorkload)
    (is : List (Text × FakeInstance))
    → All (IsRegistered ws) is
    → All (IsRegistered (insert id w ws)) is
IsRegistered-insert ws id w [] h = tt
IsRegistered-insert ws id w ((k, inst) ∷ is) (p, h) = (
  rw (lookup-insert id inst.registration_id w ws) (ground arith),
  IsRegistered-insert ws id w is h,
)

-- The next id is no key yet.
pub next_lookup-none :
    {V : Type 0} (id_of : ℤ → Text) (n : ℕ) (s : ℤ) (m : List (Text × V)) (order : List Text)
    → IsInjective id_of
    → s ≡ pos (n + 1)
    → keys m ≡ order
    → All (IsNumbered id_of n) order
    → lookup m (id_of s) ≡ none
next_lookup-none id_of n s m order inj seq same numbered =
    rw seq
      (lookup_of_new (id_of (pos (n + 1))) m (rw same (next_is_new id_of n order inj numbered)))

-- The order list with the next id behind it.
pub next-IsNumbered :
    (id_of : ℤ → Text) (n : ℕ) (s : ℤ) (order : List Text)
    → s ≡ pos (n + 1)
    → All (IsNumbered id_of n) order
    → All (IsNumbered id_of (n + 1)) (order ++ (id_of s ∷ []))
next-IsNumbered id_of n s order seq h =
    All-append (IsNumbered id_of (n + 1)) order (id_of s ∷ []) (All-IsNumbered_suc id_of n order h)
      ((n + 1, omega arith, ap id_of seq), tt)

pub next-Distinct :
    (id_of : ℤ → Text) (n : ℕ) (s : ℤ) (order : List Text)
    → IsInjective id_of
    → s ≡ pos (n + 1)
    → All (IsNumbered id_of n) order
    → Distinct order
    → Distinct (order ++ (id_of s ∷ []))
next-Distinct id_of n s order inj seq numbered d =
    rw seq (Distinct-append order (id_of (pos (n + 1))) d (next_is_new id_of n order inj numbered))

pub add_workload-IsConsistent :
    {n : ℕ} {r : FakeRegistry} (w : Workload)
    → HasRoom n
    → IsConsistent n r
    → IsConsistent (n + 1) (add_workload w r).0
unfolding add_workload
add_workload-IsConsistent {n} {r} w room c =
    let s = inc64 r.sequence in
    let seq : s ≡ pos (n + 1) = rw c.sequence (inc64_of_HasRoom n room) in
    let id = workload_id_of s in
    let inj = workload_id_of-IsInjective in
    let new =
      next_lookup-none workload_id_of n s r.workloads r.workload_order inj seq c.workload_keys
        c.workload_ids in
    record {
      sequence = seq;
      workload_keys =
          keys-insert_new id _ r.workloads new ∙ ap (λ ks. ks ++ (id ∷ [])) c.workload_keys;
      instance_keys = c.instance_keys;
      workload_ids = next-IsNumbered workload_id_of n s r.workload_order seq c.workload_ids;
      instance_ids = All-IsNumbered_suc instance_id_of n r.instance_order c.instance_ids;
      workloads_distinct =
          next-Distinct workload_id_of n s r.workload_order inj seq c.workload_ids
            c.workloads_distinct;
      instances_distinct = c.instances_distinct;
      workloads_ascend = next-Ascends workload_id_of n s r.workload_order seq c.workloads_ascend;
      instances_ascend = Ascends-suc instance_id_of 0 n r.instance_order c.instances_ascend;
      workloads_named = All-insert IsNamedWorkload id _ r.workloads c.workloads_named refl;
      instances_named = c.instances_named;
      registered = IsRegistered-insert r.workloads id _ r.instances c.registered;
    }
