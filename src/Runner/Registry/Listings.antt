-- ===== src/Runner/Registry/Listings.antt =====
-- The two listings of the fake registry: GET of the workload registrations and of an agent's instances.
use eidovela_open.Common.{
  ℕ, ℤ, ◌≡◌, ◌≢◌, ◌⊎◌, ◌↔◌, refl, ap, ◌∙◌, sym, List, [], ◌∷◌, All, some, map, Bool-cases, inl, inr,
  arith, if◌then◌else◌,
}
use eidovela_open.Text.{Text, text_eq}
use eidovela_open.Text.Laws.{text_eq_iff, text_eq_refl, text_eq_sound}
use eidovela_open.Dict.{lookup, keys}
use eidovela_open.Platform.{Platform}
use eidovela_open.Runner.Registry.{
  FakeRegistry, FakeWorkload, FakeInstance, workload_id_of, instance_id_of,
}
use eidovela_open.Runner.Registry.Ids.{Distinct, Ascends, Ascends-lower}
use eidovela_open.Runner.Registry.Consistent.{IsConsistent, IsNamed}
use eidovela_open.Runner.Registry.Http.{
  workload_json, instance_json, workload_items, instance_items,
}

-- Every entry is the one that its key finds.
abbrev IsFound : {V : Type 0} → List (Text × V) → Text × V → Type 0
IsFound m (k, v) = lookup m k ≡ some v

IsFound-cons :
    {V : Type 0} (j : Text) (w : V) (m ms : List (Text × V))
    → All (λ i. i ≢ j) (keys ms)
    → All (IsFound m) ms
    → All (IsFound ((j, w) ∷ m)) ms
unfolding lookup
IsFound-cons j w m [] n h = tt
IsFound-cons j w m ((k, v) ∷ ms) (p, n) (e, h) =
    (ground (arith, text_eq_iff j k), IsFound-cons j w m ms n h)

IsFound-of_Distinct : {V : Type 0} (m : List (Text × V)) → Distinct (keys m) → All (IsFound m) m
unfolding lookup
IsFound-of_Distinct [] d = tt
IsFound-of_Distinct ((k, v) ∷ m) (n, d) =
    (rw (text_eq_refl k), IsFound-cons k v m m n (IsFound-of_Distinct m d))

-- The item is on the list.
abbrev pub IsIn : {A : Type 0} → A → List A → Type 0
IsIn a [] = ⊥
IsIn a (x ∷ xs) = (x ≡ a) ⊎ IsIn a xs

abbrev values_of : {V : Type 0} → List (Text × V) → List V
values_of [] = []
values_of ((k, v) ∷ m) = v ∷ values_of m

IsIn-of_lookup :
    {V : Type 0} (m : List (Text × V)) (k : Text) (v : V)
    → lookup m k ≡ some v
    → IsIn v (values_of m)
unfolding lookup
IsIn-of_lookup [] k v h = absurd cc
IsIn-of_lookup ((j, w) ∷ m) k v h = elim (Bool-cases (text_eq j k)) [
  | inl same ↦ let h' : some w ≡ some v = rw same at h in inl cc
  | inr other ↦ inr (IsIn-of_lookup m k v (rw other at h))
]

lookup-of_IsIn :
    {V : Type 0} (name : V → Text) (m ms : List (Text × V)) (v : V)
    → All (IsFound m) ms
    → All (λ (k, w). name w ≡ k) ms
    → IsIn v (values_of ms)
    → lookup m (name v) ≡ some v
lookup-of_IsIn name m ((k, w) ∷ ms) v (found, f) (named, g) (inl same) =
    rw (← same) (rw named found)
lookup-of_IsIn name m ((k, w) ∷ ms) v (found, f) (named, g) (inr later) =
    lookup-of_IsIn name m ms v f g later
lookup-of_IsIn name m [] v f g h = absurd h

names_of_keys :
    {V : Type 0} (name : V → Text) (ms : List (Text × V))
    → All (λ (k, w). name w ≡ k) ms
    → map name (values_of ms) ≡ keys ms
names_of_keys name [] h = refl
names_of_keys name ((k, w) ∷ ms) (e, h) = rw (e, names_of_keys name ms h) refl

workload_items_found :
    (r : FakeRegistry) (ms : List (Text × FakeWorkload))
    → All (IsFound r.workloads) ms
    → workload_items r (keys ms) ≡ map (workload_json r) (values_of ms)
unfolding workload_items
workload_items_found r [] h = refl
workload_items_found r ((k, w) ∷ ms) (e, h) = rw (e, workload_items_found r ms h)

-- The instances of one agent.
abbrev pub instances_of : Text → List (Text × FakeInstance) → List FakeInstance
instances_of agent_id [] = []
instances_of agent_id ((k, inst) ∷ ms) =
    if text_eq inst.agent_id agent_id
    then inst ∷ instances_of agent_id ms
    else instances_of agent_id ms

instance_items_found :
    (p : Platform) (r : FakeRegistry) (agent_id : Text) (ms : List (Text × FakeInstance))
    → All (IsFound r.instances) ms
    → instance_items p r agent_id (keys ms) ≡ map (instance_json p r) (instances_of agent_id ms)
unfolding instance_items
instance_items_found p r agent_id [] h = refl
instance_items_found p r agent_id ((k, inst) ∷ ms) (e, h) =
    elim (Bool-cases (text_eq inst.agent_id agent_id)) [
      | inl same ↦ rw (e, same, instance_items_found p r agent_id ms h)
      | inr other ↦ rw (e, other, instance_items_found p r agent_id ms h)
    ]

IsIn-instances_of :
    (agent_id : Text) (ms : List (Text × FakeInstance)) (inst : FakeInstance)
    → IsIn inst (instances_of agent_id ms) ↔ (IsIn inst (values_of ms) × (inst.agent_id ≡ agent_id))
IsIn-instances_of agent_id [] inst = ground arith
IsIn-instances_of agent_id ((k, x) ∷ ms) inst =
    let ih = IsIn-instances_of agent_id ms inst in
    elim (Bool-cases (text_eq x.agent_id agent_id)) [
      | inl same ↦
          let e = text_eq_sound x.agent_id agent_id same in
          rw same (
            λ h. elim h [
              | inl here ↦ (inl here, rw (← here) e)
              | inr later ↦ let (a, b) = ih.0 later in (inr a, b)
            ],
            λ (h, own). elim h [ inl here ↦ inl here | inr later ↦ inr (ih.1 (later, own)) ],
          )
      | inr other ↦ rw other (
        λ h. let (a, b) = ih.0 h in (inr a, b),
        λ (h, own). elim h [
          | inl here ↦ absurd (ground (arith, text_eq_iff x.agent_id agent_id, here, own))
          | inr later ↦ ih.1 (later, own)
        ],
      )
    ]

Ascends-instances_of :
    (id_of : ℤ → Text) (agent_id : Text) (low high : ℕ) (ms : List (Text × FakeInstance))
    → All IsNamed ms
    → Ascends id_of low high (keys ms)
    → Ascends id_of low high (map (λ i. i.id) (instances_of agent_id ms))
Ascends-instances_of id_of agent_id low high [] named h = h
Ascends-instances_of id_of agent_id low high ((k, x) ∷ ms) (e, named) (m, l, numbered, h) =
    let later = Ascends-instances_of id_of agent_id m high ms named h in
    elim (Bool-cases (text_eq x.agent_id agent_id)) [
      | inl same ↦ rw same (m, l, e ∙ numbered, later)
      | inr other ↦ rw other (Ascends-lower id_of low m high _ l later)
    ]

-- On a consistent registry the two listings hold the documents of the workload registrations, and of the
-- instances of the agent asked for, exactly of those that the registry has, and in the order in which they
-- were made: the sequence numbers in their ids ascend, so that none is listed twice.
pub listings_lem :
    (p : Platform) (agent_id : Text) {n : ℕ} {r : FakeRegistry}
    → IsConsistent n r
    → ((ws : List FakeWorkload) × (workload_items r r.workload_order ≡ map (workload_json r) ws)
        × Ascends workload_id_of 0 n (map (λ w. w.id) ws)
        × ((w : FakeWorkload) → IsIn w ws ↔ (lookup r.workloads w.id ≡ some w)))
      × ((is : List FakeInstance) × (instance_items p r agent_id r.instance_order
            ≡ map (instance_json p r) is)
          × Ascends instance_id_of 0 n (map (λ i. i.id) is)
          × ((i : FakeInstance)
              → IsIn i is ↔ ((lookup r.instances i.id ≡ some i) × (i.agent_id ≡ agent_id))))
listings_lem p agent_id {n} {r} c =
    let ws = IsFound-of_Distinct r.workloads (rw c.workload_keys c.workloads_distinct) in
    let is = IsFound-of_Distinct r.instances (rw c.instance_keys c.instances_distinct) in
    (
      (
        values_of r.workloads,
        ap (workload_items r) (sym c.workload_keys) ∙ workload_items_found r r.workloads ws,
        rw (names_of_keys (λ w. w.id) r.workloads c.workloads_named, c.workload_keys)
            c.workloads_ascend,
        λ w. (
          lookup-of_IsIn (λ w. w.id) r.workloads r.workloads w ws c.workloads_named,
          IsIn-of_lookup r.workloads w.id w,
        ),
      ),
      (
        instances_of agent_id r.instances,
        ap (instance_items p r agent_id) (sym c.instance_keys)
            ∙ instance_items_found p r agent_id r.instances is,
        Ascends-instances_of instance_id_of agent_id 0 n r.instances c.instances_named
            (rw c.instance_keys c.instances_ascend),
        λ i. (
          λ h.
              let (a, b) = (IsIn-instances_of agent_id r.instances i).0 h in
              (lookup-of_IsIn (λ i. i.id) r.instances r.instances i is c.instances_named a, b),
          λ (found, own).
              (IsIn-instances_of agent_id r.instances i).1
                (IsIn-of_lookup r.instances i.id i found, own),
        ),
      ),
    )
