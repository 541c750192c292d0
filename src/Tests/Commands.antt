-- ===== src/Tests/Commands.antt =====
-- Examples of the theorems on the commands, the daemon's process and the loading of fixtures.
use mathlib.Core.List.{Perm}
use eidovela_open.Common.{
  zero, suc, pos, ◌+◌, ◌*◌, ◌≡◌, refl, true, false, [], ◌∷◌, List, none, some, ok, err, arith,
}
use eidovela_open.Text.{Text, text, strip_prefix, has_prefix, text_eq, has_suffix, strip_suffix}
use eidovela_open.Text.Split.{join}
use eidovela_open.Json.{string, object, members, array, values}
use eidovela_open.Json.Struct.{string_field, struct_members, names_field}
use eidovela_open.Json.Fields.{field_from}
use eidovela_open.Platform.{Platform}
use eidovela_open.Sdk.Http
use eidovela_open.Sdk.Http.{Net, Transport}
use eidovela_open.Sdk.V2.Client.Trusts
use eidovela_open.Sdk.V2.Client.Enrollment
use eidovela_open.Runner.Daemon.{System, rounds, start_daemon, nap}
use eidovela_open.Runner.Daemon.Polling.{Sleeps, Ends, poll_terminates}
use eidovela_open.Runner.Daemon.Cleanup.{idle, IsSettled, start_daemon-IsSettled}
use eidovela_open.Runner.Loading.{
  Entry, load_fixtures, load_entries, is_fixture, load_entry, read_fixture, sort_fixtures,
  text_less,
}
use eidovela_open.Runner.Loading.Decode.{Fixture, zero_scenario, decode_fixture}
use eidovela_open.Runner.Loading.Order.{Loaded, IsSorted, load_fixtures-IsSorted}
use eidovela_open.Cmd.Eidovela.{Tools}
use eidovela_open.Cmd.Eidovela.Dispatch as Client
use eidovela_open.Cmd.Eidovela.Arguments.{main-positional_first}
use eidovela_open.Cmd.Conformance as Conformance
use eidovela_open.Cmd.Conformance.{
  Setting, count, fixtures_of, binary_for, loaded_from, run_one, run_all, is_chosen,
}
use eidovela_open.Tests.Toy.{toy}
use eidovela_open.Tests.Clients.{net_of}
use eidovela_open.Tests.Fixtures.{env, keys}
use eidovela_open.Tests.Registry.{started}

-- A platform that reads every time.
abbrev timed : Platform
timed = record toy { parse_rfc3339 = λ s. some (pos 7) }

abbrev tools : Tools
tools = record { net = net_of timed; parse_int = λ s. none }

abbrev silent : Transport
silent req = err (Http.ClientError.transport_failed (text "refused"))

main-positional_first_example :
    (Client.main tools silent (
        text "federation-trust"
        ∷ text "create"
        ∷ text "https://peer.test"
        ∷ text "-jwks-uri"
        ∷ text "https://peer.test/jwks.json"
        ∷ [])
      ≡ Client.exit 2)
    × (Client.main tools silent (
          text "instance"
          ∷ text "lease"
          ∷ text "https://peer.test"
          ∷ text "-jwks-uri"
          ∷ text "https://peer.test/jwks.json"
          ∷ [])
        ≡ Client.exit 2)
unfolding has_prefix strip_prefix
main-positional_first_example =
    main-positional_first tools silent (text "https://peer.test") (text "-jwks-uri")
      (text "https://peer.test/jwks.json" ∷ []) refl

-- A daemon that is healthy in the third round.
abbrev system : System
system = record {
  is_windows = false;
  join = λ parts. join parts (text "/");
  parent = λ s. text ".";
  exists = λ s. true;
  absolute = λ s. some s;
  listen = some 4000;
  registry_starts = true;
  process_starts = λ s. true;
  started = 5;
  clock = λ i. 5 + i * nap;
  health = λ url i. some (elim i [ zero ↦ 503 | suc zero ↦ 503 | suc (suc n) ↦ 200 ]);
}

system-Sleeps : Sleeps system
system-Sleeps = record { begins = omega arith; naps = λ i. omega arith }

poll_terminates_example : Ends system (text "http://127.0.0.1:4000") 0 rounds
poll_terminates_example = poll_terminates system (text "http://127.0.0.1:4000") system-Sleeps

start_daemon-IsSettled_example : IsSettled system (start_daemon system [] idle)
start_daemon-IsSettled_example = start_daemon-IsSettled system [] system-Sleeps

-- A platform whose documents name a fixture by their text.
abbrev named : Platform
named = record toy { json_unmarshal = λ s. some (object (members ((text "id", string s) ∷ []))) }

abbrev fixture : Text → Fixture
fixture id = record { id = id; scenario = record zero_scenario { agent_class = [] } }

abbrev entry : Text → Text → Entry
entry name raw = record { name = name; is_directory = false; raw = some raw }

abbrev directory : List Entry
directory =
    entry (text "b.json") (text "f-2")
    ∷ entry (text "manifest.json") (text "m")
    ∷ entry (text "c.json") (text "f-1")
    ∷ entry (text "notes.md") (text "n")
    ∷ []

loads : load_fixtures named (some directory) ≡ ok (fixture (text "f-1") ∷ fixture (text "f-2") ∷ [])
unfolding load_fixtures load_entries is_fixture has_suffix strip_suffix text_eq load_entry
    read_fixture decode_fixture struct_members string_field names_field field_from sort_fixtures
    text_less
loads = refl

load_fixtures-IsSorted_example :
    (entries : List Entry) × (found : List Fixture) × (some directory ≡ some entries)
    × Loaded named entries found
    × Perm (fixture (text "f-1") ∷ fixture (text "f-2") ∷ []) found
    × IsSorted (fixture (text "f-1") ∷ fixture (text "f-2") ∷ [])
load_fixtures-IsSorted_example = load_fixtures-IsSorted named (some directory) _ loads

-- Documents of fixtures with one step, of an operation that there is not.
abbrev stepping : Platform
stepping = record toy {
  json_unmarshal = λ s. some (
      object (
        members (
          (text "id", string s)
          ∷ (
            text "scenario",
            object (
                members (
                  (
                    text "steps",
                    array (values (object (members ((text "op", string (text "x")) ∷ [])) ∷ [])),
                  )
                  ∷ [])),
          )
          ∷ [])));
}

abbrev setting : Setting (Unit {0})
setting = record {
  platform = stepping;
  parse_int = λ s. none;
  system = system;
  working_directory = some (text "repo");
  read_dir = λ dir. some directory;
  env = λ url i j. env;
  keys = λ i. keys;
  fresh = tt;
  registry = started;
}
