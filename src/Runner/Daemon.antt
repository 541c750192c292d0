-- ===== src/Runner/Daemon.antt =====
-- The daemon's process: FindDaemonBinary, StartDaemon, healthy and freePort of
-- conformance/runner/daemon.go. The environment of the process and the address of the registry are left
-- out.
pub mod Polling
pub mod Cleanup
use eidovela_open.Common.{
  ℕ, ℤ, pos, zero, suc, ◌+◌, ◌*◌, ◌^◌, ◌≡◌, refl, Bool, true, false, List, [], ◌∷◌, ◌++◌, Option,
  none, some, Result, ok, err, ltb, ◌==◌, if◌then◌else◌,
}
use eidovela_open.Text.{Text, text, is_empty, trim_suffix}
use eidovela_open.Decimal.{itoa}

-- What StartDaemon meets outside: the system, the names of package path/filepath, and, for each round
-- of its loop, the monotonic clock in nanoseconds and the status of the answer of the daemon's health
-- endpoint, if there is one.
pub record System : Type 0 where
  pub is_windows : Bool
  pub join : List Text → Text
  pub parent : Text → Text
  pub exists : Text → Bool
  pub absolute : Text → Option Text
  pub listen : Option ℕ
  pub registry_starts : Bool
  pub process_starts : Text → Bool
  pub started : ℕ
  pub clock : ℕ → ℕ
  pub health : Text → ℕ → Option ℕ

-- What runs beside the runner
pub record Host : Type 0 where
  pub registry : Bool
  pub process : Bool

pub data DaemonError : Type 0 where
  not_absolute no_binary no_port registry_failed process_failed unhealthy : DaemonError

-- daemonBinaryName
unfoldable pub daemon_binary_name : System → Text
daemon_binary_name sys = if sys.is_windows then text "eidovelad.exe" else text "eidovelad"

-- The loop over the candidates
unfoldable pub first_binary : System → List Text → Result DaemonError Text
first_binary sys [] = err no_binary
first_binary sys (candidate ∷ candidates) =
    let later = first_binary sys candidates in
    if sys.exists candidate
    then (elim (sys.absolute candidate) [ none ↦ err not_absolute | some path ↦ ok path ])
    else later

unfoldable pub candidates : System → Text → List Text
candidates sys fixtures_dir =
    sys.join (sys.join (sys.parent fixtures_dir ∷ text "bin" ∷ []) ∷ daemon_binary_name sys ∷ [])
    ∷ sys.join (sys.parent fixtures_dir ∷ text ".." ∷ text "bin" ∷ daemon_binary_name sys ∷ [])
    ∷ []

unfoldable pub find_daemon_binary : System → Text → Result DaemonError Text
unfolding first_binary candidates
find_daemon_binary sys fixtures_dir = first_binary sys (candidates sys fixtures_dir)

-- freePort: 0 where the system gives none
unfoldable pub free_port : System → ℕ
free_port sys = elim sys.listen [ none ↦ 0 | some port ↦ port ]

-- healthy, in one round
unfoldable pub healthy : System → Text → ℕ → Bool
healthy sys base_url round =
    elim (sys.health (trim_suffix base_url (text "/") ++ text "/healthz") round) [
      | none ↦ false
      | some status ↦ status == 200
    ]

-- Fifteen seconds, and the sleep of a round
abbrev pub patience : ℕ
patience = 15 * 10 ^ 9

abbrev pub nap : ℕ
nap = 200 * 10 ^ 6

-- The loop of StartDaemon: whether the daemon became healthy, or none where the fuel runs out.
unfoldable pub poll : System → Text → ℕ → ℕ → Option Bool
poll sys base_url zero round = none
poll sys base_url (suc fuel) round =
    let later = poll sys base_url fuel (suc round) in
    if ltb (sys.clock round) (sys.started + patience)
    then (if healthy sys base_url round then some true else later)
    else some false

-- The daemon is asked 75 times at most, since each round takes a nap.
abbrev pub rounds : ℕ
rounds = 76

-- The stop that StartDaemon returns
unfoldable pub stop : Host → Host
stop host = record host { process = false; registry = false }

-- `if binaryPath == "" { … }`
unfoldable pub binary_of : System → Text → Result DaemonError Text
binary_of sys binary_path =
    if is_empty binary_path then find_daemon_binary sys (text "fixtures") else ok binary_path

abbrev base_url_of : ℕ → Text
base_url_of port = text "http://127.0.0.1:" ++ itoa (pos port)

-- The end of StartDaemon, with the registry and the process running
unfoldable pub await : System → Text → Host → Host × Result DaemonError Text
await sys base_url host = elim (poll sys base_url rounds 0) [
  | some true ↦ (host, ok base_url)
  | _ ↦ (stop host, err unhealthy)
]

-- StartDaemon behind the search for the binary
unfoldable pub launch : System → Host → Text → Host × Result DaemonError Text
launch sys host binary =
    let port = free_port sys in
    if port == 0
    then (host, err no_port)
    else if sys.registry_starts
    then (let served = record host { registry = true } in
        if sys.process_starts binary
        then await sys (base_url_of port) (record served { process = true })
        else (record served { registry = false }, err process_failed))
    else (host, err registry_failed)

abbrev pub launch_found : System → Host → Result DaemonError Text → Host × Result DaemonError Text
launch_found sys host (err e) = (host, err e)
launch_found sys host (ok binary) = launch sys host binary

-- StartDaemon: the base URL
unfoldable pub start_daemon : System → Text → Host → Host × Result DaemonError Text
start_daemon sys binary_path host = launch_found sys host (binary_of sys binary_path)
