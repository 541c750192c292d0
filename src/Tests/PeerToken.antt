-- ===== src/Tests/PeerToken.antt =====
-- An example of the theorem on peer tokens.
use eidovela_open.Common.{
  pos, ◌≡◌, ◌≢◌, refl, true, false, [], ◌∷◌, Option, none, some, ok, unix, if◌then◌else◌,
}
use eidovela_open.Text.{Text, text, text_eq, has_prefix, strip_prefix}
use eidovela_open.Text.Split.{split_first, cut}
use eidovela_open.Base64
use eidovela_open.Json.{Value, float64, array, values, object, string, members}
use eidovela_open.Json.Number.{to_int64}
use eidovela_open.Platform.{Platform, Response}
use eidovela_open.Sdk.Token.{jwks_url}
use eidovela_open.Sdk.Token.Claims.{number}
use eidovela_open.Sdk.Token.Keys.{thumbprint}
use eidovela_open.Sdk.V3.Verify.{verify, principal_of}
use eidovela_open.Runner.Peers.{PeerIssuer, find_key, token_header, key_set, key_entry, serve_jwks}
use eidovela_open.Runner.Peers.KeySet.{IsFaithful}
use eidovela_open.Runner.Peers.RoundTrip.{IsPublished}
use eidovela_open.Runner.Executor.{Env, Step, World}
use eidovela_open.Runner.Executor.Exec.{begin}
use eidovela_open.Runner.Executor.Tokens.{
  audience_of, expiry_of, claims_with, peer_claims, issue_peer_token,
}
use eidovela_open.Runner.Executor.PeerToken.{presented, issue_peer_token-verify}
use eidovela_open.Tests.Toy.{toy, toy-IsFaithful, key_bytes}
use eidovela_open.Tests.Registry.{started}
use eidovela_open.Tests.Fixtures.{env, step_of, scenario}

abbrev peer : PeerIssuer
peer = record { url = text "http://127.0.0.1"; keys = (text "peer-1", text "private") ∷ [] }

abbrev step : Step
step = step_of (text "issue_peer_token") []

abbrev hour : Value
hour = float64 (record { negative = false; mantissa = 3600; exponent = pos 0 })

abbrev key_document : Value
key_document = object (
    members (
      (text "kty", string (text "OKP"))
      ∷ (text "crv", string (text "Ed25519"))
      ∷ (text "x", string (Base64.encode key_bytes))
      ∷ (text "kid", string (text "peer-1"))
      ∷ (text "alg", string (text "EdDSA"))
      ∷ (text "use", string (text "sig"))
      ∷ []))

abbrev p : Platform
p = record toy {
  json_unmarshal = λ s.
      if text_eq s (text "a")
      then some (token_header (text "peer-1"))
      else some (object (members (claims_with toy step key_bytes hour hour)));
  json_decode =
      λ _. some (object (members ((text "keys", array (values (key_document ∷ []))) ∷ [])));
}

abbrev peer_env : Env (Unit {0})
peer_env = record env { platform = p }

abbrev world : World (Unit {0})
world =
    begin (record { main_pub = key_bytes; main_priv = []; attacker_pub = []; attacker_priv = [] })
      scenario tt started (some peer)

abbrev fetch : Text → Option Response
fetch url =
    if text_eq url (text "https://peer.example.test/jwks.json")
    then some (serve_jwks p peer (text "/jwks.json"))
    else none

p-IsFaithful : IsFaithful p
p-IsFaithful = record {
  signs = toy-IsFaithful.signs;
  signature_bytes = toy-IsFaithful.signature_bytes;
  public_bytes = toy-IsFaithful.public_bytes;
  public_size = toy-IsFaithful.public_size;
  marshal_bytes = toy-IsFaithful.marshal_bytes;
}

p-IsPublished :
    IsPublished p fetch peer
      (text "peer-1")
      (peer_claims peer_env step key_bytes)
      (presented p step key_bytes hour hour (unix (expiry_of step (pos 0))))
unfolding token_header key_set key_entry has_prefix text_eq jwks_url serve_jwks Base64.encode
    strip_prefix split_first cut peer_claims thumbprint
p-IsPublished = record {
  header_back = refl;
  claims_back = refl;
  keys_back = refl;
  reachable = refl;
}

hour_read : number p hour ≡ (pos 3600, true)
unfolding number to_int64
hour_read = refl

peer_known : find_key peer.keys (text "peer-1") ≡ some (text "private")
unfolding find_key text_eq
peer_known = refl

thumbprint_set : thumbprint p key_bytes ≢ []
unfolding thumbprint Base64.encode
thumbprint_set = λ e. cc

world-peer : (world.peer ≡ some peer) × (world.scenario.main_pub ≡ key_bytes)
unfolding begin
world-peer = (refl, refl)

issue_peer_token-verify_example :
    let (w', result) = issue_peer_token peer_env step world in
    (result ≡ ok tt)
    × (verify p fetch (pos 10) w'.scenario.issued_token (audience_of step) world.scenario.main_pub
        ≡ ok (
            principal_of p
              (audience_of step)
              (presented p step world.scenario.main_pub hour hour (unix (expiry_of step (pos 0))))))
unfolding begin
issue_peer_token-verify_example =
    issue_peer_token-verify peer_env step world peer (text "private") p-IsFaithful fetch (pos 10)
      hour hour world-peer.0 peer_known p-IsPublished hour_read refl thumbprint_set
