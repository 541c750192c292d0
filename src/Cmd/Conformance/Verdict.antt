-- ===== src/Cmd/Conformance/Verdict.antt =====
-- What the conformance command counts, and what still runs when it ends
-- (cmd/eidovela-conformance/main.go).
use mathlib.Core.List.{append_assoc, reverse, reverse-cons}
use eidovela_open.Common.{
  ℕ, suc, ◌+◌, ◌<◌, ◌≡◌, refl, sym, ◌∙◌, Bool, true, false, List, [], ◌∷◌, ◌++◌, none, some, ok,
  ◌⊎◌, inl, inr, length, Bool-cases, if◌then◌else◌, arith,
}
use eidovela_open.Text.{Text, text}
use eidovela_open.Runner.Daemon.{Host, start_daemon}
use eidovela_open.Runner.Daemon.Cleanup.{idle, running}
use eidovela_open.Runner.Executor.{Env}
use eidovela_open.Runner.Executor.Exec.{Keys}
use eidovela_open.Runner.Loading.Decode.{Fixture}
use eidovela_open.Cmd.Flags
use eidovela_open.Cmd.Flags.{parsed, parse, string_flag}
use eidovela_open.Cmd.Conformance.{
  Setting, Bench, Tally, is_chosen, count, run_one, run_all, command_flags, fixtures_of, binary_for,
  loaded_from,
}

-- The ids that the substring chooses, in order
pub chosen_ids : Text → List Fixture → List Text
chosen_ids only [] = []
chosen_ids only (f ∷ fs) =
    let rest = chosen_ids only fs in if is_chosen only f then f.id ∷ rest else rest

-- The ids that were run, first to last, and one count for each
pub record Counted (before after : Tally) (ids : List Text) : Type 0 where
  pub ran : after.ran ≡ reverse ids ++ before.ran
  pub counted : after.passed + after.failed ≡ before.passed + before.failed + length ids

Counted-count :
    (t after : Tally) (id : Text) (b : Bool) (ids : List Text)
    → Counted (count t id b) after ids
    → Counted t after (id ∷ ids)
unfolding count
Counted-count t after id true ids c = record {
  ran = c.ran ∙ rw (reverse-cons id ids) (sym (append_assoc (reverse ids) (id ∷ []) t.ran));
  counted = omega (arith, c.counted);
}
Counted-count t after id false ids c = record {
  ran = c.ran ∙ rw (reverse-cons id ids) (sym (append_assoc (reverse ids) (id ∷ []) t.ran));
  counted = omega (arith, c.counted);
}

-- The loop runs the fixtures whose ids hold the substring, once each and in their order, and counts each
-- of them as passed or as failed.
pub run_all-Counted :
    {D : Type 0} (env : ℕ → ℕ → Env D) (keys : ℕ → Keys) (only : Text) (i : ℕ) (fs : List Fixture)
    (b : Bench D) (t : Tally)
    → Counted t (run_all env keys only i fs b t).1 (chosen_ids only fs)
unfolding run_all chosen_ids
run_all-Counted env keys only i [] b t = record { ran = refl; counted = omega arith }
run_all-Counted env keys only i (f ∷ fs) b t = elim (Bool-cases (is_chosen only f)) [
  | inr e ↦ rw e (run_all-Counted env keys only (suc i) fs b t)
  | inl e ↦
      let (b', passed) = run_one env keys i f b in
      rw e (
        Counted-count t _ f.id passed (chosen_ids only fs)
          (run_all-Counted env keys only (suc i) fs b' (count t f.id passed)))
]

-- The counts of a run of these fixtures against the daemon at an address
abbrev pub tally_of : {D : Type 0} → Setting D → Text → Text → List Fixture → Tally
tally_of s only url fixtures =
    (run_all (s.env url) s.keys only 0 fixtures
      (record { daemon = s.fresh; registry = s.registry; peer = none })
      (record { passed = 0; failed = 0; ran = [] })).1

-- A run of the command in which a fixture fails: it was given these flags, it found the directory, the
-- binary and the fixtures, and it started the daemon.
pub record FailedRun {D : Type 0} (s : Setting D) (args : List Text) : Type 0 where
  pub flags : Flags.Flags
  pub rest : List Text
  pub given : parse s.parse_int command_flags args ≡ parsed flags rest
  pub dir : Text
  pub found : fixtures_of s (string_flag flags (text "fixtures")) ≡ some dir
  pub binary : Text
  pub built : binary_for s (string_flag flags (text "daemon")) dir ≡ some binary
  pub fixtures : List Fixture
  pub loaded : loaded_from s dir ≡ some fixtures
  pub url : Text
  pub started : start_daemon s.system binary idle ≡ (running, ok url)
  pub failed : 0 < (tally_of s (string_flag flags (text "run")) url fixtures).failed

-- Nothing runs any more, or the registry and the daemon still do, the code is 1, and there is a reason.
abbrev pub IsEnd : Type 0 → Host × ℕ → Type 0
IsEnd Reason (host, code) = (host ≡ idle) ⊎ ((host ≡ running) × (code ≡ 1) × Reason)
