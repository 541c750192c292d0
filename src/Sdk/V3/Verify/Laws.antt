-- ===== src/Sdk/V3/Verify/Laws.antt =====
-- What Verify of package v3 returns, and when.
use eidovela_open.Common.{
  ℤ, pos, ◌≡◌, ◌≢◌, ◌⊎◌, ◌↔◌, refl, true, false, sym, ap, Option, ok, arith, >>=-eq-ok,
}
use eidovela_open.Text.{Text, text}
use eidovela_open.Json.{get, as_string}
use eidovela_open.Platform.{Platform, Response}
use eidovela_open.Sdk.Token.Claims.{number}
use eidovela_open.Sdk.Token.{Authenticated, authenticate}
use eidovela_open.Sdk.Token.Authentic.{Authentic, authenticate_iff}
use eidovela_open.Sdk.V3.Verify.{
  Principal, principal_of, agent_epoch_of, tenant_from_issuer, verify,
}

-- What the fields of a principal say of the claims. The agent epoch is that of the token; where both epochs
-- are 0 or missing, it is the token's one epoch, if there is one.
pub record IsPrincipal (p : Platform) (audience : Text) (a : Authenticated) (q : Principal)
    : Type 0 where
  pub tenant_id : q.tenant_id ≡ tenant_from_issuer a.issuer
  pub namespace : q.namespace ≡ as_string (get a.claims (text "registry"))
  pub agent_id : q.agent_id ≡ a.agent_id
  pub agent_class : q.agent_class ≡ as_string (get a.claims (text "agentClass"))
  pub instance_id : q.instance_id ≡ as_string (get a.claims (text "instanceId"))
  pub workload_id : q.workload_id ≡ as_string (get a.claims (text "workloadId"))
  pub authority_root_ref : q.authority_root_ref ≡ as_string (get a.claims (text "authorityRootRef"))
  pub identity_epoch : q.identity_epoch ≡ (number p (get a.claims (text "identityEpoch"))).0
  pub agent_epoch :
      let agent = (number p (get a.claims (text "agentEpoch"))).0 in
      let (legacy, known) = number p (get a.claims (text "lifecycleEpoch")) in
      ((agent ≡ pos 0) × (q.identity_epoch ≡ pos 0) × (known ≡ true) × (q.agent_epoch ≡ legacy))
      ⊎ (((agent ≢ pos 0) ⊎ ((q.identity_epoch ≢ pos 0) ⊎ (known ≡ false)))
          × (q.agent_epoch ≡ agent))
  pub jkt : q.jkt ≡ a.jkt
  pub jti : q.jti ≡ as_string (get a.claims (text "jti"))
  pub issuer : q.issuer ≡ a.issuer
  pub audience' : q.audience ≡ audience
  pub expires_at : q.expires_at ≡ a.expires_at

pub principal_of-IsPrincipal :
    (p : Platform) (audience : Text) (a : Authenticated)
    → IsPrincipal p audience a (principal_of p audience a)
unfolding principal_of agent_epoch_of
principal_of-IsPrincipal p audience a = record {
  tenant_id = refl;
  namespace = refl;
  agent_id = refl;
  agent_class = refl;
  instance_id = refl;
  workload_id = refl;
  authority_root_ref = refl;
  identity_epoch = refl;
  agent_epoch = ground arith;
  jkt = refl;
  jti = refl;
  issuer = refl;
  audience' = refl;
  expires_at = refl;
}

module _ (p : Platform) (fetch : Text → Option Response) (now : ℤ) (token audience proof_key : Text)
    (q : Principal) where
  verify_steps :
      verify p fetch now token audience proof_key ≡ ok q
      → (a : Authenticated) × (authenticate p fetch now token audience proof_key ≡ ok a)
        × (q ≡ principal_of p audience a)
  unfolding verify
  verify_steps h =
      let (a, e, k) =
        >>=-eq-ok (authenticate p fetch now token audience proof_key)
          (λ a. ok (principal_of p audience a)) h in
      (a, e, cc)

  -- Verify of package v3 returns the principal `q` exactly when the token is authentic for the
  -- audience and the proof key at the time `now`, and `q` is the principal of its claims, each field the
  -- claim of its name, the agent epoch the token's one epoch where both epochs are 0 or missing.
  pub verify_iff : (verify p fetch now token audience proof_key ≡ ok q) ↔ (
      (a : Authenticated) × Authentic p fetch now token audience proof_key a
      × (q ≡ principal_of p audience a)
      × IsPrincipal p audience a q)
  unfolding verify
  verify_iff = (
    λ h.
        let (a, e, same) = verify_steps h in
        (
          a,
          (authenticate_iff p fetch now token audience proof_key a).0 e,
          same,
          rw same (principal_of-IsPrincipal p audience a),
        ),
    λ (a, c, same, _).
        rw ((authenticate_iff p fetch now token audience proof_key a).1 c) (ap ok (sym same)),
  )
