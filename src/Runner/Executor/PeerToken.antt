-- ===== src/Runner/Executor/PeerToken.antt =====
-- The token that the step issue_peer_token stores, seen by a verifier.
use eidovela_open.Common.{ℤ, ◌≡◌, ◌≢◌, refl, true, [], ◌∷◌, Option, some, ok, ◌<ℤ◌, inl, unix}
use eidovela_open.Text.{Text, text, text_eq}
use eidovela_open.Json.{Value, Claims, get}
use eidovela_open.Platform.{Platform, Response}
use eidovela_open.Sdk.Token.{Authenticated}
use eidovela_open.Sdk.Token.Claims.{number}
use eidovela_open.Sdk.Token.Keys.{thumbprint}
use eidovela_open.Sdk.V3.Verify.{verify, principal_of}
use eidovela_open.Runner.Peers
use eidovela_open.Runner.Peers.{PeerIssuer, find_key, sign_with_kid}
use eidovela_open.Runner.Peers.KeySet.{IsFaithful}
use eidovela_open.Runner.Peers.RoundTrip.{IsPresentable, IsPublished, verify-sign}
use eidovela_open.Runner.Executor.{Env, Step, World, or_default, ◌>>=◌, read, write, pure}
use eidovela_open.Runner.Executor.Tokens.{
  audience_of, peer_url, expiry_of, claims_with, peer_claims, peer_issuer, issue_peer_token,
}

or_default-ne-nil : (s d : Text) → d ≢ [] → or_default s d ≢ []
or_default-ne-nil [] d h = h
or_default-ne-nil (c ∷ s) d h = λ e. cc

-- What the verifier reads off the token.
abbrev pub presented : Platform → Step → Text → Value → Value → ℤ → Authenticated
presented p step main_pub iat exp expires_at = record {
  claims = claims_with p step main_pub iat exp;
  issuer = or_default step.federation_issuer peer_url;
  expires_at = expires_at;
  jkt = thumbprint p main_pub;
  agent_id = or_default step.peer_agent (text "agt_peer");
}

presented-IsPresentable :
    (p : Platform) (step : Step) (main_pub : Text) (iat exp : Value) (expires_at now : ℤ)
    → number p exp ≡ (expires_at, true)
    → now <ℤ expires_at
    → thumbprint p main_pub ≢ []
    → IsPresentable p now (audience_of step) main_pub (presented p step main_pub iat exp expires_at)
unfolding get text_eq
presented-IsPresentable p step main_pub iat exp expires_at now read alive set = record {
  issuer = refl;
  issuer_set = or_default-ne-nil step.federation_issuer peer_url (λ e. cc);
  addressed = inl refl;
  expires = read;
  alive = alive;
  bound = refl;
  possessed = refl;
  jkt_set = set;
  subject = refl;
}

issue_peer_token_result :
    {D : Type 0} (env : Env D) (step : Step) (w : World D) (peer : PeerIssuer) (priv : Text)
    → w.peer ≡ some peer
    → find_key peer.keys (text "peer-1") ≡ some priv
    → issue_peer_token env step w ≡ (
      record w {
        scenario = record w.scenario {
          issued_token =
              sign_with_kid env.platform priv
                (text "peer-1")
                (peer_claims env step w.scenario.main_pub);
        };
      },
      ok tt,
    )
unfolding issue_peer_token peer_issuer ◌>>=◌ read write pure Peers.sign
issue_peer_token_result env step w peer priv started known = rw (started, known)

sign_of_find_key :
    (p : Platform) (peer : PeerIssuer) (kid priv : Text) (sent : Claims)
    → find_key peer.keys kid ≡ some priv
    → Peers.sign p peer kid sent ≡ ok (sign_with_kid p priv kid sent)
unfolding Peers.sign
sign_of_find_key p peer kid priv sent known = rw known

-- The step issue_peer_token, with the federated peer running, stores a token that package v3 verifies
-- for the step's audience and the scenario's main key, as long as the token's expiry lies ahead, when
-- the cryptography and the JSON codec behave as documented, the two times are read as what was
-- written, and the token's issuer serves the peer's key set. The principal is that of the step's
-- issuer and agent.
pub issue_peer_token-verify :
    {D : Type 0} (env : Env D) (step : Step) (w : World D) (peer : PeerIssuer) (priv : Text)
    (laws : IsFaithful env.platform) (fetch : Text → Option Response) (now : ℤ) (iat exp : Value)
    → w.peer ≡ some peer
    → find_key peer.keys (text "peer-1") ≡ some priv
    → IsPublished env.platform fetch peer
        (text "peer-1")
        (peer_claims env step w.scenario.main_pub)
        (presented env.platform step w.scenario.main_pub iat exp (unix (expiry_of step env.now)))
    → number env.platform exp ≡ (unix (expiry_of step env.now), true)
    → now <ℤ unix (expiry_of step env.now)
    → thumbprint env.platform w.scenario.main_pub ≢ []
    → let (w', result) = issue_peer_token env step w in
      (result ≡ ok tt)
      × (verify env.platform fetch now w'.scenario.issued_token
            (audience_of step)
            w.scenario.main_pub
          ≡ ok (
              principal_of env.platform (audience_of step) (
                presented env.platform step w.scenario.main_pub iat exp
                  (unix (expiry_of step env.now)))))
issue_peer_token-verify env step w peer priv laws fetch now iat exp started known published read
      alive set =
    rw (issue_peer_token_result env step w peer priv started known) (
      refl,
      verify-sign env.platform laws fetch now (audience_of step) w.scenario.main_pub peer
          (text "peer-1")
          (sign_with_kid env.platform priv (text "peer-1")
            (peer_claims env step w.scenario.main_pub))
          (peer_claims env step w.scenario.main_pub)
          (presented env.platform step w.scenario.main_pub iat exp (unix (expiry_of step env.now)))
          published
          (presented-IsPresentable env.platform step w.scenario.main_pub iat exp
            (unix (expiry_of step env.now)) now read alive set)
          (sign_of_find_key env.platform peer (text "peer-1") priv
            (peer_claims env step w.scenario.main_pub) known),
    )
