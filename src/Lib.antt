-- ===== src/Lib.antt =====
-- Eidovela: the Go SDK, its command, and the conformance runner.
--
-- The repository holds the consumer side of an identity service. A service that receives a token
-- calls Verify of the SDK, which fetches the issuer's key set, checks the signature, the audience, the
-- expiry and the binding to the holder's proof key, and returns a principal. There are two versions
-- of the SDK, sdk/go/eidovela (one lifecycle epoch) and sdk/go/eidovela/v3 (an agent and an identity
-- epoch). Each has a client for the service's API, which signs the proofs of enrollments and token requests;
-- the command cmd/eidovela puts flags around the older one. The conformance runner plays the parties around
-- the daemon under test: a registry that keeps agents, workload registrations and instances
-- (conformance/runner/registry.go), and a federated peer that serves a key set and signs tokens
-- (conformance/runner/peers.go). The command cmd/eidovela-conformance starts the daemon, runs the fixtures of
-- a directory against it, and counts.
--
-- Files, and the code they are about:
--   Sdk/Token.antt            Verify of sdk/go/eidovela/v3/verify.go from its start to the agent id, which is
--                             the same text in sdk/go/eidovela/verify.go: parse_token, signing_key,
--                             signature_ok, expiry, bound_key, and authenticate, which puts them in the
--                             order of the code
--   Sdk/Token/Keys.antt       JWK, JWKFromPublic, the key set and its search, Thumbprint
--   Sdk/Token/Claims.antt     the error values, audienceContains, number
--   Sdk/Token/Form, Steps, Authentic, Keys/Search, Claims/Audience: what these accept
--   Sdk/V3/Verify.antt        the rest of Verify and tenantFromIssuer of v3/verify.go; laws in Laws, Tenant
--   Sdk/V2/Verify.antt        the rest of Verify of sdk/go/eidovela/verify.go; laws in Laws
--   Sdk/Presentation.antt     IntrospectContext of sdk/go/eidovela/v3/presentation.go, which is the same text in
--                             sdk/go/eidovela/presentation.go, and in Proof SignDPoP; Blank, Conditions and
--                             Accepted: which contexts are returned
--   Sdk/Http.antt             post, get and do of the clients over an arbitrary transport, and an operation as
--                             what it sends and how it reads the answer; laws in Laws
--   Sdk/Proofs.antt           sign, enrollmentProof and tokenProof; what a service can check of them in Laws
--   Sdk/Wire.antt             the fields of JSON structs; RoundTrip
--   Sdk/V3/Types, Sdk/V2/Types: the structs of the two packages with their encodings
--   Sdk/V3/Client             the methods of sdk/go/eidovela/v3/client.go: Enrollment, Views, Trusts; Paths
--   Sdk/V2/Client             pageQuery and the methods of sdk/go/eidovela/client.go: Agents, Enrollment, Trusts,
--                             Events; Queries, Lists and RoundTrip hold their laws
--   Runner/Peers.antt         conformance/runner/peers.go; the served key set in KeySet, the round trip with
--                             Verify in RoundTrip
--   Runner/Registry.antt      the state of FakeRegistry, and SeedAgent, SetIdentityAttributes, AddWorkload,
--                             SuspendAgent, RevokeAgent, SuspendIdentity, TerminateInstance, LeaseInstance,
--                             InstanceCount and commitInstance as functions from state to state
--   Runner/Registry/Http, Serve: ServeHTTP, registryContext and the documents they write
--   Runner/Registry/Operations: one step function over all of these, and runs of it
--   Runner/Registry/Ids, Totals, Consistent, State, Reachable, Commit, Lifecycle, Terminal, Generations, Phases,
--                             Listings, Views: their laws
--   Runner/Executor.antt      the state of a fixture's run and what the runner meets outside; Http, Proofs, Enroll,
--                             Tokens, Projections, Blueprints, Pages: the operations of
--                             conformance/runner/executor.go, and parseSPIFFE of spiffe.go; Exec: outcome,
--                             execStep, begin and RunFixture
--   Runner/Daemon.antt        conformance/runner/daemon.go; Polling, Cleanup
--   Runner/Loading.antt       LoadFixtures of conformance/runner/types.go, with the fixtures' documents in Decode; Order
--   Cmd/Eidovela.antt         cmd/eidovela/main.go, with its main in Dispatch, over the flags of Cmd/Flags; Arguments
--   Cmd/Conformance.antt      cmd/eidovela-conformance/main.go; Verdict
--   Runner/Executor/Verdict, Respects, Safety, Fixture, PeerToken: their laws
--   Tests/                    concrete inputs
--
-- Below these stand what the code takes from Go: texts as lists of bytes (Text), the escapes of URLs
-- (Text/Url), base64url (Base64), decimal formats (Decimal), maps (Dict), documents of encoding/json
-- (Json), and the helpers of all files (Common). Cryptography, the JSON and RFC 3339 text formats, and the
-- conversion of a float64 out of range are fields of the record Platform; the text format of time.Time and
-- the parsing of an address are fields of the record Net (Sdk/Http). Nothing is assumed of them except in
-- hypotheses: IsFaithful and IsPublished (Runner/Peers) in the results on signed tokens and proofs, and
-- that a codec reads back what it wrote in the round trips. Keys have the sizes that ed25519.GenerateKey gives
-- them; a key of another size, on which Go panics, does not occur in the code.
--
-- Numbers: an int or int64 is an integer with its wrap-around written out (inc64, to_uint64), and
-- the results on the registry assume fewer than 2^63 operations. Every loop of the code runs over a list,
-- except two. The one that waits for the daemon (Runner/Daemon) has fuel for 76 rounds, which is enough for its
-- fifteen seconds since a round sleeps 200 milliseconds (Runner/Daemon/Polling). The one that walks the pages of
-- agents (Runner/Executor/Pages) runs as long as the daemon names another cursor: its fuel is a number of pages,
-- enough when the daemon has no more of them (Runner/Executor/Pages/Walk).
--
-- The daemon under test is a parameter of a fixture's run: any function from a request, its own state
-- and the registry to the three after it. The clock and the random bytes stand still during one
-- step. Error messages are kept without the values put into them.
--
-- A method of a client is modelled as an Operation, what it sends and how it reads the answer; perform runs
-- one over a transport. The system below the daemon's process (files, ports, the clock of each round, the
-- answers of the health endpoint) is the record System, and what runs is the record Host.
--
-- Not modelled: listeners, servers and HTTP transport; what the commands print; the environment of the
-- daemon's process; a value that a method returns beside an error; the order in which sort.Slice leaves
-- fixtures of one id; the zone of a time, which is an instant; the bytes of the certificates that the
-- runner makes; a failure of the random source where keys are made, and a run without a registry; a document
-- that names a list member twice, where the second list is decoded into the elements of the first;
-- GeneratePoPKey, which only calls the random source; the example programs.
pub mod Common
pub mod Text
pub mod Base64
pub mod Decimal
pub mod Dict
pub mod Json
pub mod Platform
pub mod Sdk
pub mod Runner
pub mod Cmd
pub mod Tests
