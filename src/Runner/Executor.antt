-- ===== src/Runner/Executor.antt =====
-- The script runner of the conformance tests (conformance/runner/executor.go): the steps of a fixture,
-- the state that one fixture carries, and what the runner meets outside: the daemon, the clock,
-- randomness and certificates. The daemon may read and change the fake registry while it answers.
pub mod Http
pub mod Proofs
pub mod Enroll
pub mod Tokens
pub mod Projections
pub mod Blueprints
pub mod Pages
pub mod Exec
pub mod Verdict
pub mod Respects
pub mod Safety
pub mod Fixture
pub mod PeerToken
use eidovela_open.Common.{
  zero_time, unix, ℕ, ℤ, pos, negsuc, ◌*◌, ◌/◌, ◌^◌, Bool, List, Option, none, some, Result, ok,
  err, if◌then◌else◌,
}
use eidovela_open.Text.{Text, is_empty}
use eidovela_open.Json.{Value}
use eidovela_open.Platform.{Platform, Response}
use eidovela_open.Runner.Registry.{FakeRegistry, Workload}
use eidovela_open.Runner.Peers.{PeerIssuer}

-- Attest of types.go
pub record Attest : Type 0 where
  pub method : Text
  pub spiffe_id : Text
  pub subject_cn : Text
  pub dns_names : List Text
  pub kubernetes_issuer : Text
  pub kubernetes_subject : Text

-- FederationSpec, without the key set address, which the runner passes over
pub record FederationSpec : Type 0 where
  pub issuer : Text
  pub allowed_audiences : Option (List Text)
  pub claim_mappings : Option (List (Text × Text))
  pub status : Text

-- Step, with the fields that execStep and the operations read
pub record Step : Type 0 where
  pub op : Text
  pub workload : Option Workload
  pub workload_attributes : List (Text × Text)
  pub attestation : Option Attest
  pub audience : Text
  pub requested_audience : Text
  pub present_key : Text
  pub federation : Option FederationSpec
  pub federation_issuer : Text
  pub peer_agent : Text
  pub expired : Bool
  pub reason : Text
  pub blueprint_version : Text
  pub blueprint_publisher : Text
  pub blueprint_class : Text
  pub expect_blueprint_status : Text
  pub expect : Text

-- scenarioState
pub record ScenarioState : Type 0 where
  pub agent_id : Text
  pub reg_id : Text
  pub challenge_id : Text
  pub nonce : Text
  pub instance_id : Text
  pub agent_class : Text
  pub binding_type : Text
  pub authority_root_ref : Text
  pub managed_blueprint_id : Text
  pub managed_blueprint_version : Text
  pub main_pub : Text
  pub main_priv : Text
  pub attacker_pub : Text
  pub attacker_priv : Text
  pub issued_token : Text

-- An error; `unmet` has the message, without the values that are put into it.
pub data Failure : Type 0 where
  unmet : Text → Failure
  refused : Response → Failure
  transport malformed unparsed certificate_failed peer_failed : Failure

pub record World (D : Type 0) : Type 0 where
  pub daemon : D
  pub registry : FakeRegistry
  pub peer : Option PeerIssuer
  pub scenario : ScenarioState

-- A request to the daemon
pub record Outgoing : Type 0 where
  pub method : Text
  pub url : Text
  pub payload : Option Value

-- net/url.Parse, as far as it is read
pub record Url : Type 0 where
  pub scheme : Text
  pub host : Text
  pub has_user : Bool
  pub port : Text
  pub raw_query : Text
  pub fragment : Text
  pub path : Text

-- What the certificate of an attestation is made from
pub record Template : Type 0 where
  pub common_name : Text
  pub dns_names : List Text
  pub client_auth : Bool
  pub uris : List Url

-- What the runner meets during one step.
pub record Env (D : Type 0) : Type 0 where
  pub platform : Platform
  pub base_url : Text
  -- the daemon's answer, with its own state and the registry's after it; none is a transport error
  pub answer : Outgoing → D → FakeRegistry → D × FakeRegistry × Option Response
  -- time.Now, in nanoseconds since 1970
  pub now : ℤ
  -- sixteen bytes of crypto/rand
  pub random : Text
  -- crypto/x509 and encoding/pem, over a new key
  pub certificate : Template → Option Text
  -- net/url: Parse, and QueryEscape
  pub url_parse : Text → Option Url
  pub query_escape : Text → Text
  -- the address of a new peer's server and its key
  pub new_peer : Option (Text × Text)

-- A duration of whole seconds
abbrev pub seconds : ℕ → ℕ
seconds n = n * 10 ^ 9

-- An operation changes the world and returns a value or an error. It keeps what it changed before the
-- error.
abbrev pub Action : Type 0 → Type 0 → Type 0
Action D A = World D → World D × Result Failure A

abbrev pub then' :
    {D A B : Type 0} → World D × Result Failure A → (A → Action D B) → World D × Result Failure B
then' (w, ok a) k = k a w
then' (w, err e) k = (w, err e)

infixl 5 ◌>>=◌ ◌>>◌
unfoldable pub ◌>>=◌ : {D A B : Type 0} → Action D A → (A → Action D B) → Action D B
(m >>= k) w = then' (m w) k

unfoldable pub ◌>>◌ : {D B : Type 0} → Action D (Unit {0}) → Action D B → Action D B
m >> k = m >>= λ _. k

unfoldable pub pure : {D A : Type 0} → A → Action D A
pure a w = (w, ok a)

unfoldable pub fail : {D A : Type 0} → Failure → Action D A
fail e w = (w, err e)

unfoldable pub read : {D A : Type 0} → (ScenarioState → A) → Action D A
read f w = (w, ok (f w.scenario))

unfoldable pub write : {D : Type 0} → (ScenarioState → ScenarioState) → Action D (Unit {0})
write f w = (record w { scenario = f w.scenario }, ok tt)

-- A call of the registry
unfoldable pub registry_call :
    {D A : Type 0} → (FakeRegistry → FakeRegistry × Result Failure A) → Action D A
registry_call f w = let (r, result) = f w.registry in (record w { registry = r }, result)

-- `if s == "" { return … }`
unfoldable pub needs : {D : Type 0} → Text → Text → Action D (Unit {0})
needs s message = if is_empty s then fail (unmet message) else pure tt

-- `if s == "" { s = default }`
abbrev pub or_default : Text → Text → Text
or_default s default' = if is_empty s then default' else s

unfoldable pub lift : {D A : Type 0} → Option A → Failure → Action D A
lift none e = fail e
lift (some a) e = pure a
