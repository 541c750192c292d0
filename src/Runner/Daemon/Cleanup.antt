-- ===== src/Runner/Daemon/Cleanup.antt =====
-- What runs when StartDaemon returns (conformance/runner/daemon.go).
use eidovela_open.Common.{
  ℕ, ◌+◌, ◌<◌, ◌≡◌, refl, Bool, true, false, some, Result, ok, err, inl, inr, if◌then◌else◌, ◌==◌,
}
use eidovela_open.Text.{Text}
use eidovela_open.Runner.Daemon.{
  System, Host, DaemonError, unhealthy, patience, poll, rounds, healthy, await, binary_of,
  start_daemon, free_port, stop, launch, launch_found,
}
use eidovela_open.Runner.Daemon.Polling.{Sleeps, poll_terminates}

abbrev pub idle : Host
idle = record { registry = false; process = false }

abbrev pub running : Host
running = record { registry = true; process = true }

-- Either nothing runs and there is an error, or both run, and the daemon was healthy before the deadline.
abbrev pub IsSettled : System → Host × Result DaemonError Text → Type 0
IsSettled sys (host, err e) = host ≡ idle
IsSettled sys (host, ok url) =
    (host ≡ running)
    × ((last : ℕ) × (healthy sys url last ≡ true) × (sys.clock last < sys.started + patience))

await-true :
    (sys : System) (url : Text) (host : Host)
    → poll sys url rounds 0 ≡ some true
    → await sys url host ≡ (host, ok url)
unfolding await
await-true sys url host h = rw (h, await) refl

await-false :
    (sys : System) (url : Text) (host : Host)
    → poll sys url rounds 0 ≡ some false
    → await sys url host ≡ (stop host, err unhealthy)
unfolding await
await-false sys url host h = rw (h, await) refl

await-IsSettled : (sys : System) (url : Text) → Sleeps sys → IsSettled sys (await sys url running)
unfolding stop
await-IsSettled sys url s =
    let e = poll_terminates sys url s in
    elim e.outcome [
      | inl (h, early, well) ↦ rw (await-true sys url running h) (refl, (e.last, well, early))
      | inr (h, late) ↦ rw (await-false sys url running h) refl
    ]

IsSettled-if :
    (sys : System) (b : Bool) (x y : Host × Result DaemonError Text)
    → IsSettled sys x
    → IsSettled sys y
    → IsSettled sys (if b then x else y)
IsSettled-if sys true x y h k = h
IsSettled-if sys false x y h k = k

launch-IsSettled :
    (sys : System) (binary : Text) → Sleeps sys → IsSettled sys (launch sys idle binary)
unfolding launch
launch-IsSettled sys binary s = IsSettled-if sys (free_port sys == 0) _ _ refl (
    IsSettled-if sys sys.registry_starts _ _
      (IsSettled-if sys (sys.process_starts binary) _ _ (await-IsSettled sys _ s) refl) refl)

launch_found-IsSettled :
    (sys : System) (found : Result DaemonError Text)
    → Sleeps sys
    → IsSettled sys (launch_found sys idle found)
launch_found-IsSettled sys (err e) s = refl
launch_found-IsSettled sys (ok binary) s = launch-IsSettled sys binary s

-- StartDaemon, on a host on which nothing runs, ends either with an error and nothing running, whichever
-- step failed, or with the registry and the daemon running, and the daemon was healthy before the deadline.
-- The clock does not run before the start, and each round of its loop takes a nap.
pub start_daemon-IsSettled :
    (sys : System) (binary_path : Text)
    → Sleeps sys
    → IsSettled sys (start_daemon sys binary_path idle)
unfolding start_daemon
start_daemon-IsSettled sys binary_path s = launch_found-IsSettled sys (binary_of sys binary_path) s
