-- ===== src/Tests/Clients.antt =====
-- Examples of the theorems on the clients of the SDK.
use eidovela_open.Common.{pos, ◌≡◌, ◌↔◌, refl, [], ◌∷◌, none, some, ok, err, arith, inr}
use eidovela_open.Text.{text}
use eidovela_open.Decimal.{itoa}
use eidovela_open.Text.Url.{path_escape}
use eidovela_open.Json.{Claims, get, object, members, string}
use eidovela_open.Json.Struct.{names_field}
use eidovela_open.Platform.{Platform}
use eidovela_open.Sdk.Http.{
  Net, Client, Transport, WireRequest, refused, path_of, perform, get_request,
}
use eidovela_open.Sdk.Http.Laws.{Sends, Exchanges, named, read_of, perform_iff, perform_refused}
use eidovela_open.Sdk.V2.Types.Agents.{Agent}
use eidovela_open.Sdk.V2.Types.Trusts.{FederationTrust, encode_federation_trust}
use eidovela_open.Sdk.V2.Client.Agents.{activate, list_agents_from}
use eidovela_open.Sdk.V2.Client.Trusts.{create_federation_trust}
use eidovela_open.Sdk.V2.Client.Lists.{HasQuery, list_agents_from-HasQuery}
use eidovela_open.Sdk.V2.Client.RoundTrip.{echo, create_federation_trust-echo}
use eidovela_open.Sdk.V3.Client.Views.{
  get_registry_agent, list_registry_instances, redrive_outbox_event,
}
use eidovela_open.Sdk.V3.Client.Trusts.{set_authentication_state, get_attestation}
use eidovela_open.Sdk.V3.Client.Paths.{HasSegment, id-HasSegment}
use eidovela_open.Sdk.Proofs.Laws.{
  Posts, IsProved, Asks, Introduces, token-IsProved, completion-IsProved,
}
use eidovela_open.Sdk.V3.Client.Enrollment as V3
use eidovela_open.Sdk.V3.Types.Enrollment as V3Types
use eidovela_open.Sdk.V2.Client.Enrollment as V2
use eidovela_open.Sdk.V2.Types.Instances as V2Types
use eidovela_open.Tests.Toy.{toy, toy-IsFaithful}

abbrev pub net_of : Platform → Net
net_of p = record {
  platform = p;
  time_json = λ t. some (text "now");
  time_of_json = λ s. some (pos 7);
  request_error = λ url. none;
}

abbrev pub net : Net
net = net_of toy

abbrev client : Client
client = record { base_url = text "https://core.test" }

abbrev refusing : Transport
refusing req = ok (record { status_code = 404; status = text "404 Not Found"; body = [] })

list_agents_from-HasQuery_example :
    HasQuery
      (path_of (list_agents_from net (text "a&b") (pos 5) (pos 9) (text "c==")))
      (text "/v1/agents")
      ((text "state", text "a&b") ∷ (text "limit", text "5") ∷ (text "cursor", text "c==") ∷ [])
unfolding itoa
list_agents_from-HasQuery_example =
    list_agents_from-HasQuery net (text "a&b") (pos 5) (pos 9) (text "c==") (omega arith)
      (omega arith)

id-HasSegment_example :
    HasSegment
      (path_of (get_registry_agent (text "a/b?c")))
      ([] ∷ text "v1" ∷ text "registry" ∷ text "agents" ∷ [])
      (text "a/b?c")
      []
    × HasSegment
        (path_of (list_registry_instances (text "a/b?c")))
        ([] ∷ text "v1" ∷ text "registry" ∷ text "agents" ∷ [])
        (text "a/b?c")
        (text "instances" ∷ [])
    × HasSegment
        (path_of (redrive_outbox_event (text "a/b?c")))
        ([] ∷ text "v1" ∷ text "ops" ∷ text "outbox" ∷ text "events" ∷ [])
        (text "a/b?c")
        (text "redrive" ∷ [])
    × HasSegment
        (path_of (get_attestation net (text "a/b?c")))
        ([] ∷ text "v1" ∷ text "attestations" ∷ [])
        (text "a/b?c")
        []
    × HasSegment
        (path_of (set_authentication_state net (text "a/b?c") (text "disable") []))
        ([] ∷ text "v1" ∷ text "authentication-state" ∷ [])
        (text "a/b?c")
        (text "disable" ∷ [])
id-HasSegment_example =
    id-HasSegment net (text "a/b?c") (text "disable") [] (omega arith) (omega arith)
      (omega arith, omega arith)

abbrev active : Agent
active = record { agent_id = text "a"; state = text "active"; epoch = 1 }

perform_iff_example : (perform net client refusing (activate (text "a")) ≡ ok active) ↔ (
    (req : WireRequest) × Sends net client (activate (text "a")) req
    × Exchanges net refusing req (read_of (activate (text "a"))) active)
perform_iff_example = perform_iff net client refusing (activate (text "a")) active

-- A service that says why it refuses.
abbrev explaining : Platform
explaining = record toy {
  json_decode = λ s. some (
      object
        (members ((text "code", string (text "7")) ∷ (text "error", string (text "no")) ∷ [])));
}

perform_refused_example :
    perform (net_of explaining) client refusing (get_registry_agent (text "a"))
    ≡ err (refused (text "eidovela: no"))
unfolding get_registry_agent path_escape names_field
perform_refused_example =
    perform_refused (net_of explaining) client refusing (get_registry_agent (text "a"))
      (get_request client (text "/v1/registry/agents/a"))
      (record { status_code = 404; status = text "404 Not Found"; body = [] }) (text "no") refl refl
      refl (inr (omega arith))
      (named ((text "code", string (text "7")) ∷ []) [] (text "error") refl refl refl (λ e. cc) tt)

abbrev trust : FederationTrust
trust = record {
  tenant_id = [];
  issuer = text "https://peer.test";
  jwks_uri = text "https://peer.test/jwks.json";
  allowed_audiences = some (text "api" ∷ []);
  claim_mappings = some ((text "agent_id", text "sub") ∷ []);
  status = text "active";
  created_at = pos 7;
}

-- A codec that knows the document of the trust.
abbrev codec : Platform
codec = record toy {
  json_marshal = λ v. text "d";
  json_decode = λ s. encode_federation_trust net trust;
}

create_federation_trust-echo_example :
    perform
      (net_of codec)
      client
      (echo 201 (text "201 Created"))
      (create_federation_trust (net_of codec) trust)
    ≡ ok trust
unfolding encode_federation_trust
create_federation_trust-echo_example =
    create_federation_trust-echo (net_of codec) client trust (text "now") (text "201 Created") 201
      (omega arith) (omega arith) refl refl refl (λ v h. h) (tt, tt)

token-IsProved_example :
    ((body claims : Claims) × Posts
        (V3.token net (pos 0) (some (1 ∷ [])) (text "a") (text "i") (text "api") (text "k"))
        (text "/oauth2/token")
        body
      × IsProved toy (text "publicKey") (text "proofJwt") body claims
      × Asks (pos 0) (1 ∷ []) (text "a") (text "i") claims)
    × ((body claims : Claims) × Posts
          (V2.token net (pos 0) (some (1 ∷ [])) (text "a") (text "i") (text "api") (text "k"))
          (text "/oauth2/token")
          body
        × IsProved toy (text "public_key") (text "proof_jwt") body claims
        × Asks (pos 0) (1 ∷ []) (text "a") (text "i") claims)
token-IsProved_example =
    token-IsProved net toy-IsFaithful (pos 0) (1 ∷ []) (text "a") (text "i") (text "api") (text "k")

abbrev challenge : V3Types.Challenge
challenge = record {
  enrollment_id = text "e";
  agent_id = text "a";
  nonce = text "n";
  expires_at = pos 9;
}

abbrev older_challenge : V2Types.Challenge
older_challenge = record {
  id = text "e";
  agent_id = text "a";
  nonce = text "n";
  expires_at = pos 9;
}

completion-IsProved_example :
    ((body claims : Claims) × Posts
        (ok (
          V3.complete_enrollment_with_attestation net
            (pos 0)
            challenge
            (text "k")
            (text "go")
            (text "w")
            (text "d")
            none
            none))
        (text "/v1/enrollments/complete")
        body
      × (get body (text "enrollmentId") ≡ string (text "e"))
      × IsProved toy (text "publicKey") (text "proofJwt") body claims
      × Introduces (pos 0) (text "a") (text "e") (text "n") claims)
    × ((body claims : Claims) × Posts
          (ok (
            V2.complete_enrollment_with_attestation net
              (pos 0)
              older_challenge
              (text "k")
              (text "go")
              (text "w")
              (text "d")
              none
              none))
          (text "/v1/enrollments/complete")
          body
        × (get body (text "enrollment_id") ≡ string (text "e"))
        × IsProved toy (text "public_key") (text "proof_jwt") body claims
        × Introduces (pos 0) (text "a") (text "e") (text "n") claims)
completion-IsProved_example =
    completion-IsProved net toy-IsFaithful (pos 0) (text "k") (text "go") (text "w") (text "d") none
      challenge none older_challenge none
