-- ===== src/Cmd/Conformance.antt =====
-- The conformance command, cmd/eidovela-conformance/main.go: it finds the daemon, loads the fixtures, starts
-- the daemon, runs the chosen fixtures and counts. Printing is left out.
pub mod Verdict
use eidovela_open.Common.{
  ℕ, ℤ, zero, suc, ◌+◌, Bool, true, false, not, ◌&&◌, ◌||◌, List, [], ◌∷◌, Option, none, some,
  Result, ok, err, ltb, if◌then◌else◌,
}
use eidovela_open.Text.{Text, text, is_empty}
use eidovela_open.Text.Split.{contains}
use eidovela_open.Platform.{Platform}
use eidovela_open.Runner.Registry.{FakeRegistry}
use eidovela_open.Runner.Peers.{PeerIssuer}
use eidovela_open.Runner.Executor.{World, Env, Failure}
use eidovela_open.Runner.Executor.Exec.{Keys, Scenario, run_fixture}
use eidovela_open.Runner.Daemon.{System, Host, DaemonError, find_daemon_binary, start_daemon, stop}
use eidovela_open.Runner.Loading.{Entry, LoadError, load_fixtures}
use eidovela_open.Runner.Loading.Decode.{Fixture}
use eidovela_open.Cmd.Flags
use eidovela_open.Cmd.Flags.{Flags, Parsed, parsed, parse, string_flag, string}

-- What the command meets outside, for a daemon with its own state: the surroundings of each step of each
-- fixture, the keys that each fixture generates, and the state in which the daemon starts.
pub record Setting (D : Type 0) : Type 0 where
  pub platform : Platform
  pub parse_int : Text → Option ℤ
  pub system : System
  pub working_directory : Option Text
  pub read_dir : Text → Option (List Entry)
  pub env : Text → ℕ → ℕ → Env D
  pub keys : ℕ → Keys
  pub fresh : D
  pub registry : FakeRegistry

-- What one fixture leaves to the next
pub record Bench (D : Type 0) : Type 0 where
  pub daemon : D
  pub registry : FakeRegistry
  pub peer : Option PeerIssuer

-- The counts, and the ids of the fixtures that were run, the last one first
pub record Tally : Type 0 where
  pub passed : ℕ
  pub failed : ℕ
  pub ran : List Text

abbrev pub bench_of : {D : Type 0} → World D → Bench D
bench_of w = record { daemon = w.daemon; registry = w.registry; peer = w.peer }

abbrev pub passes : {E A : Type 0} → Result E A → Bool
passes (ok a) = true
passes (err e) = false

-- `*only != "" && !strings.Contains(fixture.ID, *only)`, negated
unfoldable pub is_chosen : Text → Fixture → Bool
is_chosen only f = is_empty only || contains f.id only

unfoldable pub count : Tally → Text → Bool → Tally
count t id true = record t { passed = t.passed + 1; ran = id ∷ t.ran }
count t id false = record t { failed = t.failed + 1; ran = id ∷ t.ran }

module _ {D : Type 0} (env : ℕ → ℕ → Env D) (keys : ℕ → Keys) where
  -- One fixture, on what the one before it left
  unfoldable pub run_one : ℕ → Fixture → Bench D → Bench D × Bool
  run_one i f b =
      let (w, result) = run_fixture (env i) (keys i) f.scenario b.daemon b.registry b.peer in
      (bench_of w, passes result)

  -- The loop over the fixtures, of which the first has this index
  unfoldable pub run_all : Text → ℕ → List Fixture → Bench D → Tally → Bench D × Tally
  run_all only i [] b t = (b, t)
  run_all only i (f ∷ fs) b t =
      let (b', passed) = run_one i f b in
      let skipped = run_all only (suc i) fs b t in
      let later = run_all only (suc i) fs b' (count t f.id passed) in
      if is_chosen only f then later else skipped

abbrev pub command_flags : Flags
command_flags =
    (text "daemon", string []) ∷ (text "fixtures", string []) ∷ (text "run", string []) ∷ []

-- The directory of the fixtures, and the binary, or none where log.Fatal ends the program
unfoldable pub fixtures_of : {D : Type 0} → Setting D → Text → Option Text
fixtures_of s dir =
    if is_empty dir
    then (elim s.working_directory [
      | none ↦ none
      | some cwd ↦ some (s.system.join (cwd ∷ text "conformance" ∷ text "fixtures" ∷ []))
    ])
    else some dir

unfoldable pub binary_for : {D : Type 0} → Setting D → Text → Text → Option Text
binary_for s daemon dir =
    if is_empty daemon
    then (elim (find_daemon_binary s.system dir) [ err e ↦ none | ok path ↦ some path ])
    else some daemon

unfoldable pub loaded_from : {D : Type 0} → Setting D → Text → Option (List Fixture)
loaded_from s dir = elim (load_fixtures s.platform (s.read_dir dir)) [
  | err e ↦ none
  | ok [] ↦ none
  | ok (f ∷ fs) ↦ some (f ∷ fs)
]

-- The end of main: os.Exit leaves what was deferred, and a return runs it.
abbrev pub conclude : Host → Tally → Host × ℕ
conclude host t = if ltb 0 t.failed then (host, 1) else (stop host, 0)

-- The run of the fixtures against the daemon that was started
abbrev pub run_started :
    {D : Type 0} → Setting D → Text → List Fixture → Host × Result DaemonError Text → Host × ℕ
run_started s only fixtures (host, err e) = (host, 1)
run_started s only fixtures (host, ok url) =
    conclude host
      (run_all (s.env url) s.keys only 0 fixtures
        (record { daemon = s.fresh; registry = s.registry; peer = none })
        (record { passed = 0; failed = 0; ran = [] })).1

abbrev pub run_found :
    {D : Type 0} → Setting D → Host → Text → Option Text → Option (List Fixture) → Host × ℕ
run_found s host only (some binary) (some fixtures) =
    run_started s only fixtures (start_daemon s.system binary host)
run_found s host only _ _ = (host, 1)

abbrev pub run_in : {D : Type 0} → Setting D → Host → Text → Text → Option Text → Host × ℕ
run_in s host daemon only none = (host, 1)
run_in s host daemon only (some dir) =
    run_found s host only (binary_for s daemon dir) (loaded_from s dir)

abbrev pub run_parsed : {D : Type 0} → Setting D → Host → Parsed → Host × ℕ
run_parsed s host (Flags.exits code) = (host, code)
run_parsed s host (parsed flags args) =
    run_in s host (string_flag flags (text "daemon")) (string_flag flags (text "run"))
      (fixtures_of s (string_flag flags (text "fixtures")))

-- main, from what runs on the host: what runs after it, and the code that it ends with
unfoldable pub main : {D : Type 0} → Setting D → List Text → Host → Host × ℕ
main s args host = run_parsed s host (parse s.parse_int command_flags args)
