-- ===== src/Runner/Executor/Tokens.antt =====
-- The operations on tokens and on the federated peer: issueToken, introspect, exchange, brokerIssue,
-- registerFederationTrust, disableFederationTrust, issuePeerToken and peerIssuer of
-- conformance/runner/executor.go.
use eidovela_open.Common.{
  unix, ℤ, Bool, [], ◌∷◌, Option, none, some, Result, ok, err, add_ℕ, sub_ℕ, if◌then◌else◌,
}
use eidovela_open.Text.{Text, text, text_eq}
use eidovela_open.Json.{Value, string, int64, object, Claims, members}
use eidovela_open.Json.Struct.{string_field}
use eidovela_open.Json.Fields.{bool_field}
use eidovela_open.Sdk.Token.Keys.{thumbprint}
use eidovela_open.Platform.{Platform}
use eidovela_open.Runner.Peers
use eidovela_open.Runner.Peers.{PeerIssuer, new_peer_issuer, jwks_uri}
use eidovela_open.Runner.Executor.{
  Env, Step, unmet, peer_failed, Action, ◌>>=◌, ◌>>◌, pure, fail, read, write, needs, or_default,
  seconds,
}
use eidovela_open.Runner.Executor.Http.{post}
use eidovela_open.Runner.Executor.Proofs.{jwk, token_proof}
use eidovela_open.Runner.Registry.Http.{selector_json, methods_json}

abbrev key_of : Step → Text → Text → Text
key_of step main attacker = if text_eq step.present_key (text "attacker") then attacker else main

abbrev pub audience_of : Step → Text
audience_of step = or_default step.audience (text "aegivela")

abbrev token_target : Claims → Option Text
token_target ms = string_field ms (text "token")

-- issueToken
unfoldable pub issue_token : {D : Type 0} → Env D → Step → Action D (Unit {0})
issue_token env step = do
  s ← read λ s. s
  needs s.instance_id (text "issue_token requires completed enrollment")
  token ←
      post env (text "/oauth2/token")
        (object (
          members (
            (text "agentId", string s.agent_id)
            ∷ (text "instanceId", string s.instance_id)
            ∷ (text "audience", string (audience_of step))
            ∷ (text "publicKey", jwk s.main_pub)
            ∷ (
              text "proofJwt",
              string (
                  token_proof env s.agent_id s.instance_id
                    (key_of step s.main_priv s.attacker_priv)),
            )
            ∷ [])))
        token_target
  write λ s. record s { issued_token = token }

-- introspect
unfoldable pub introspect : {D : Type 0} → Env D → Step → Action D Bool
introspect env step = do
  s ← read λ s. s
  needs s.issued_token (text "introspect requires an issued token")
  post env (text "/v1/introspect")
      (object (
        members (
          (text "token", string s.issued_token)
          ∷ (text "audience", string (audience_of step))
          ∷ (text "publicKey", jwk (key_of step s.main_pub s.attacker_pub))
          ∷ [])))
      (λ ms. bool_field ms (text "active"))

-- exchange
unfoldable pub exchange : {D : Type 0} → Env D → Step → Action D (Unit {0})
exchange env step = do
  s ← read λ s. s
  needs s.issued_token (text "exchange requires an issued token")
  token ←
      post env (text "/v1/token/exchange")
        (object (
          members (
            (text "subjectToken", string s.issued_token)
            ∷ (text "parentAudience", string (audience_of step))
            ∷ (
              text "requestedAudience",
              string (or_default step.requested_audience (audience_of step)),
            )
            ∷ (text "publicKey", jwk s.main_pub)
            ∷ [])))
        token_target
  write λ s. record s { issued_token = token }

-- peerIssuer: the peer is started on its first use.
unfoldable pub peer_issuer : {D : Type 0} → Env D → Action D PeerIssuer
peer_issuer env w = elim w.peer [
  | some peer ↦ (w, ok peer)
  | none ↦ elim env.new_peer [
    | none ↦ (w, err peer_failed)
    | some (url, priv) ↦
        (record w { peer = some (new_peer_issuer url priv) }, ok (new_peer_issuer url priv))
  ]
]

abbrev pub peer_url : Text
peer_url = text "https://peer.example.test"

-- registerFederationTrust
unfoldable pub register_federation_trust : {D : Type 0} → Env D → Step → Action D (Unit {0})
register_federation_trust env step = elim step.federation [
  | none ↦ fail (unmet (text "register_federation_trust requires a federation config"))
  | some config ↦ do
    peer ← peer_issuer env
    _ ←
        post env (text "/v1/federation/trusts")
          (object (
            members (
              (text "issuer", string (or_default config.issuer peer_url))
              ∷ (text "jwks_uri", string (jwks_uri peer))
              ∷ (text "claimMappings", selector_json config.claim_mappings)
              ∷ (text "allowed_audiences", methods_json config.allowed_audiences)
              ∷ (text "status", string (or_default config.status (text "active")))
              ∷ [])))
          (λ ms. string_field ms (text "status"))
    pure tt
]

-- disableFederationTrust
unfoldable pub disable_federation_trust : {D : Type 0} → Env D → Step → Action D (Unit {0})
disable_federation_trust env step =
    post env (text "/v1/federation/trusts/disable")
      (object (members ((text "issuer", string (or_default step.federation_issuer peer_url)) ∷ [])))
      (λ _. some tt)

-- brokerIssue
unfoldable pub broker_issue : {D : Type 0} → Env D → Step → Action D (Unit {0})
broker_issue env step = do
  s ← read λ s. s
  needs s.issued_token (text "broker_issue requires a peer assertion (issue_peer_token) first")
  token ←
      post env (text "/v1/broker/issue")
        (object (
          members (
            (text "token", string s.issued_token)
            ∷ (text "audience", string (audience_of step))
            ∷ (text "publicKey", jwk s.main_pub)
            ∷ [])))
        token_target
  needs token (text "broker_issue returned an empty token")
  write λ s. record s { issued_token = token }

abbrev pub expiry_of : Step → ℤ → ℤ
expiry_of step now = if step.expired then sub_ℕ now (seconds 60) else add_ℕ now (seconds 3600)

-- The claims of a peer token, with its two times
abbrev pub claims_with : Platform → Step → Text → Value → Value → Claims
claims_with p step main_pub iat exp =
    (text "iss", string (or_default step.federation_issuer peer_url))
    ∷ (text "sub", string (or_default step.peer_agent (text "agt_peer")))
    ∷ (text "aud", string (audience_of step))
    ∷ (text "iat", iat)
    ∷ (text "exp", exp)
    ∷ (text "jti", string (text "peer_jti"))
    ∷ (text "cnf", object (members ((text "jkt", string (thumbprint p main_pub)) ∷ [])))
    ∷ []

unfoldable pub peer_claims : {D : Type 0} → Env D → Step → Text → Claims
peer_claims env step main_pub =
    claims_with env.platform step main_pub (int64 (unix (sub_ℕ env.now (seconds 600))))
      (int64 (unix (expiry_of step env.now)))

abbrev pub signed : {D : Type 0} → Result Peers.PeerError Text → Action D Text
signed (ok token) = pure token
signed (err _) = fail (unmet (text "runner: unknown peer key"))

-- issuePeerToken
unfoldable pub issue_peer_token : {D : Type 0} → Env D → Step → Action D (Unit {0})
issue_peer_token env step = do
  peer ← peer_issuer env
  main_pub ← read λ s. s.main_pub
  token ← signed (Peers.sign env.platform peer (text "peer-1") (peer_claims env step main_pub))
  write λ s. record s { issued_token = token }
