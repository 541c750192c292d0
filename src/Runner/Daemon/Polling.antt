-- ===== src/Runner/Daemon/Polling.antt =====
-- The loop that waits for the daemon ends.
use eidovela_open.Common.{
  ℕ, zero, suc, ◌+◌, ◌*◌, ◌≤◌, ◌<◌, ◌≡◌, refl, true, false, some, ltb, arith, Bool-cases, ◌⊎◌, ◌==◌,
  inl, inr, ltb→lt,
}
use eidovela_open.Text.{Text}
use eidovela_open.Runner.Daemon.{System, poll, patience, nap, rounds, healthy}

-- The clock does not run before the start, and a round takes a nap at least.
pub record Sleeps (sys : System) : Type 0 where
  pub begins : sys.started ≤ sys.clock 0
  pub naps : (i : ℕ) → sys.clock i + nap ≤ sys.clock (suc i)

clock_bound : (sys : System) → Sleeps sys → (i : ℕ) → sys.started + i * nap ≤ sys.clock i
clock_bound sys s zero = omega (arith, s.begins)
clock_bound sys s (suc i) = omega (arith, clock_bound sys s i, s.naps i)

deadline : System → ℕ
deadline sys = sys.started + patience

-- The deadline lies at most 75 naps behind the start.
early-le : (sys : System) (i : ℕ) → Sleeps sys → ltb (sys.clock i) (deadline sys) ≡ true → i < 75
unfolding deadline
early-le sys i s h =
    omega (arith, clock_bound sys s i, ltb→lt (sys.clock i) (sys.started + patience) h)

-- The loop goes on from a round to a last one, at which the daemon is healthy or the deadline has passed;
-- in the rounds before, neither was so.
pub record Ends (sys : System) (base_url : Text) (from fuel : ℕ) : Type 0 where
  pub last : ℕ
  pub reached : from ≤ last
  pub bounded : last ≤ 75
  pub outcome :
      ((poll sys base_url fuel from ≡ some true)
        × (sys.clock last < sys.started + patience)
        × (healthy sys base_url last ≡ true))
      ⊎ ((poll sys base_url fuel from ≡ some false) × (sys.started + patience ≤ sys.clock last))
  pub before :
      (i : ℕ)
      → from ≤ i
      → i < last
      → (sys.clock i < sys.started + patience) × (healthy sys base_url i ≡ false)

Ends-step :
    (sys : System) (base_url : Text) (from fuel : ℕ)
    → ltb (sys.clock from) (sys.started + patience) ≡ true
    → healthy sys base_url from ≡ false
    → Ends sys base_url (suc from) fuel
    → Ends sys base_url from (suc fuel)
unfolding poll
Ends-step sys base_url from fuel early ill e = record {
  last = e.last;
  reached = omega (arith, e.reached);
  bounded = e.bounded;
  outcome = rw (early, ill) e.outcome;
  before = λ i h k. elim (Bool-cases (i == from)) [
    | inl same ↦
        let at : i ≡ from = ground arith in
        rw at (ltb→lt (sys.clock from) (sys.started + patience) early, ill)
    | inr other ↦ e.before i (ground arith) k
  ];
}

poll-Ends :
    (sys : System) (base_url : Text) (fuel from : ℕ)
    → Sleeps sys
    → fuel + from ≡ 76
    → from ≤ 75
    → Ends sys base_url from fuel
unfolding poll deadline
poll-Ends sys base_url zero from s h k = absurd (omega arith)
poll-Ends sys base_url (suc fuel) from s h k =
    elim (Bool-cases (ltb (sys.clock from) (sys.started + patience))) [
      | inr late ↦ record {
        last = from;
        reached = omega arith;
        bounded = k;
        outcome = inr (rw late refl, ground arith);
        before = λ i p q. absurd (omega arith);
      }
      | inl early ↦ elim (Bool-cases (healthy sys base_url from)) [
        | inl well ↦ record {
          last = from;
          reached = omega arith;
          bounded = k;
          outcome = inl (rw (early, well) refl, ltb→lt _ _ early, well);
          before = λ i p q. absurd (omega arith);
        }
        | inr ill ↦ Ends-step sys base_url from fuel early ill (
            poll-Ends sys base_url fuel (suc from) s (omega arith)
              (omega (arith, early-le sys from s early)))
      ]
    ]

-- Where the clock does not run before the start and each round of the loop takes a nap, the fuel is enough:
-- the loop ends in round 75 at the latest, counted from 0, at the first round in which the daemon is
-- healthy before the deadline or the deadline has passed, and says which.
pub poll_terminates : (sys : System) (base_url : Text) → Sleeps sys → Ends sys base_url 0 rounds
poll_terminates sys base_url s = poll-Ends sys base_url rounds 0 s (omega arith) (omega arith)
