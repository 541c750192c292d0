-- ===== src/Runner/Executor/Respects.antt =====
-- Actions that move the registry by its own operations and requests alone.
use eidovela_open.Common.{
  ◌≡◌, refl, ap, ◌∙◌, sym, List, [], ◌∷◌, ◌++◌, map, All, All-append, Option, none, some, Result,
  ok, err, Option-cases, leb, ltb, ◌&&◌, Bool-cases, inl, inr,
}
use eidovela_open.Text.{Text}
use eidovela_open.Platform.{Platform, Response}
use eidovela_open.Json.{Value, Claims}
use eidovela_open.Runner.Registry.{FakeRegistry}
use eidovela_open.Runner.Registry.Http.{Request}
use eidovela_open.Runner.Registry.Operations.{Operation, serve, step, run}
use eidovela_open.Runner.Registry.Lifecycle.{IsNoSeed}
use eidovela_open.Runner.Executor.{
  Env, World, Outgoing, Failure, Action, ScenarioState, ◌>>=◌, ◌>>◌, pure, fail, lift, read, write,
  registry_call, needs, then', refused,
}
use eidovela_open.Runner.Executor.Http.{exchange_http, success, post, fetch}

-- The second registry is the first one after operations that seed no agent.
pub record Reaches (p : Platform) (r s : FakeRegistry) : Type 0 where
  pub ops : List Operation
  pub no_seed : All IsNoSeed ops
  pub result : s ≡ run p ops r

run-append :
    (p : Platform) (ops more : List Operation) (r : FakeRegistry)
    → run p (ops ++ more) r ≡ run p more (run p ops r)
unfolding run
run-append p [] more r = refl
run-append p (op ∷ ops) more r = run-append p ops more (step p op r)

pub Reaches-refl : (p : Platform) (r : FakeRegistry) → Reaches p r r
unfolding run
Reaches-refl p r = record { ops = []; no_seed = tt; result = refl }

pub Reaches-trans :
    {p : Platform} {r s t : FakeRegistry} → Reaches p r s → Reaches p s t → Reaches p r t
Reaches-trans {p} {r} a b = record {
  ops = a.ops ++ b.ops;
  no_seed = All-append IsNoSeed a.ops b.ops a.no_seed b.no_seed;
  result = b.result ∙ ap (run p b.ops) a.result ∙ sym (run-append p a.ops b.ops r);
}

pub Reaches-one :
    (p : Platform) (op : Operation) (r : FakeRegistry) → IsNoSeed op → Reaches p r (step p op r)
unfolding run
Reaches-one p op r n = record { ops = op ∷ []; no_seed = (n, tt); result = refl }

-- The daemon reads and changes the registry by HTTP requests alone.
abbrev pub UsesRequests : {D : Type 0} → Platform → Env D → Type 0
UsesRequests {D} p env =
    (out : Outgoing) (d : D) (r : FakeRegistry)
    → (requests : List Request) × ((env.answer out d r).1 ≡ run p (map serve requests) r)

serve-IsNoSeed : (requests : List Request) → All IsNoSeed (map serve requests)
serve-IsNoSeed [] = tt
serve-IsNoSeed (q ∷ requests) = (tt, serve-IsNoSeed requests)

module _ {D : Type 0} (p : Platform) where
  -- The action moves the registry by operations alone.
  pub record Respects {A : Type 0} (m : Action D A) : Type 0 where
    pub go : (w : World D) → Reaches p w.registry (m w).0.registry

  pub same_registry :
      {A : Type 0} (m : Action D A) → ((w : World D) → (m w).0.registry ≡ w.registry) → Respects m
  same_registry m h = record { go = λ w. rw (h w) (Reaches-refl p w.registry) }

  then-Reaches :
      {A B : Type 0} (r : FakeRegistry) (x : World D × Result Failure A) (k : A → Action D B)
      → Reaches p r x.0.registry
      → ((a : A) → Respects (k a))
      → Reaches p r (then' x k).0.registry
  then-Reaches r (w, ok a) k h n = Reaches-trans h ((n a).go w)
  then-Reaches r (w, err e) k h n = h

  pub bind-Respects :
      {A B : Type 0} (m : Action D A) (k : A → Action D B)
      → Respects m
      → ((a : A) → Respects (k a))
      → Respects (m >>= k)
  unfolding ◌>>=◌
  bind-Respects m k h n = record { go = λ w. then-Reaches w.registry (m w) k (h.go w) n }

  pub next-Respects :
      {B : Type 0} (m : Action D (Unit {0})) (k : Action D B)
      → Respects m
      → Respects k
      → Respects (m >> k)
  unfolding ◌>>◌
  next-Respects m k h n = bind-Respects m (λ _. k) h (λ _. n)

  pub pure-Respects : {A : Type 0} (a : A) → Respects (pure a)
  unfolding pure
  pure-Respects a = same_registry (pure a) (λ w. refl)

  pub fail-Respects : {A : Type 0} (e : Failure) → Respects {A = A} (fail e)
  unfolding fail
  fail-Respects e = same_registry (fail e) (λ w. refl)

  pub lift-Respects : {A : Type 0} (o : Option A) (e : Failure) → Respects (lift o e)
  unfolding lift
  lift-Respects none e = fail-Respects e
  lift-Respects (some a) e = pure-Respects a

  pub read-Respects : {A : Type 0} (f : ScenarioState → A) → Respects (read f)
  unfolding read
  read-Respects f = same_registry (read f) (λ w. refl)

  pub write-Respects : (f : ScenarioState → ScenarioState) → Respects (write f)
  unfolding write
  write-Respects f = same_registry (write f) (λ w. refl)

  pub needs-Respects : (s message : Text) → Respects (needs s message)
  unfolding needs
  needs-Respects [] message = fail-Respects _
  needs-Respects (c ∷ s) message = pure-Respects tt

  pub success-Respects : (r : Response) → Respects (success r)
  success-Respects r = elim (Bool-cases (leb 200 r.status && ltb r.status 300)) [
    | inl fine ↦ rw fine (pure-Respects r)
    | inr bad ↦ rw bad (fail-Respects (refused r))
  ]

  pub call-Respects :
      {A : Type 0} (f : FakeRegistry → FakeRegistry × Result Failure A)
      → ((r : FakeRegistry) → Reaches p r (f r).0)
      → Respects (registry_call f)
  unfolding registry_call
  call-Respects f h = record { go = λ w. h w.registry }

  module _ (env : Env D) (uses : UsesRequests p env) where
    answer-Reaches :
        (out : Outgoing) (d : D) (r : FakeRegistry) → Reaches p r (env.answer out d r).1
    answer-Reaches out d r =
        let (requests, e) = uses out d r in
        record { ops = map serve requests; no_seed = serve-IsNoSeed requests; result = e }

    pub exchange_http-Respects : (out : Outgoing) → Respects (exchange_http env out)
    unfolding exchange_http
    exchange_http-Respects out = record {
      go = λ w. elim (Option-cases (env.answer out w.daemon w.registry).2) [
        | inl e ↦ rw (exchange_http, e) (answer-Reaches out w.daemon w.registry)
        | inr (r, e) ↦ rw (exchange_http, e) (answer-Reaches out w.daemon w.registry)
      ];
    }

    pub post-Respects :
        {A : Type 0} (path : Text) (payload : Value) (target : Claims → Option A)
        → Respects (post env path payload target)
    unfolding post
    post-Respects path payload target =
        bind-Respects _ _ (exchange_http-Respects _)
          λ r. bind-Respects _ _ (success-Respects r) λ s. lift-Respects _ _

    pub fetch-Respects :
        {A : Type 0} (path : Text) (target : Claims → Option A) → Respects (fetch env path target)
    unfolding fetch
    fetch-Respects path target =
        bind-Respects _ _ (exchange_http-Respects _)
          λ r. bind-Respects _ _ (success-Respects r) λ s. lift-Respects _ _
