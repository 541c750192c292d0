-- ===== src/Sdk/V3/Verify.antt =====
-- Verify of package v3 behind the agent id: the principal with its two epochs and its tenant
-- (sdk/go/eidovela/v3/verify.go).
pub mod Tenant
pub mod Laws
use eidovela_open.Common.{
  ℕ, ℤ, pos, Option, Bool, true, false, ◌&&◌, List, [], ◌∷◌, ◌++◌, Result, ok, err, ◌>>=◌, eq_ℤ,
  if◌then◌else◌,
}
use eidovela_open.Text.{Text, text, trim_prefix, trim_suffix}
use eidovela_open.Text.Split.{split_two}
use eidovela_open.Json.{Claims, get, as_string}
use eidovela_open.Platform.{Platform, Response}
use eidovela_open.Sdk.Token.Claims.{Error, number}
use eidovela_open.Sdk.Token.{Authenticated, authenticate}

pub record Principal : Type 0 where
  pub tenant_id : Text
  pub namespace : Text
  pub agent_id : Text
  pub agent_class : Text
  pub instance_id : Text
  pub workload_id : Text
  pub authority_root_ref : Text
  pub agent_epoch : ℤ
  pub identity_epoch : ℤ
  pub jkt : Text
  pub jti : Text
  pub issuer : Text
  pub audience : Text
  pub expires_at : ℤ

-- The parts around the first "/t/".
abbrev tenant_of_parts : Text → List Text → Text
tenant_of_parts issuer (base ∷ _ ∷ []) =
    trim_prefix issuer (trim_suffix base (text "/") ++ text "/t/")
tenant_of_parts issuer _ = []

unfoldable pub tenant_from_issuer : Text → Text
tenant_from_issuer issuer = tenant_of_parts issuer (split_two issuer (text "/t/"))

-- The fallback for a token with one epoch.
unfoldable pub agent_epoch_of : Platform → Claims → ℤ
agent_epoch_of p claims =
    let (agent, _) = number p (get claims (text "agentEpoch")) in
    let (identity, _) = number p (get claims (text "identityEpoch")) in
    let (legacy, known) = number p (get claims (text "lifecycleEpoch")) in
    if eq_ℤ agent (pos 0) && eq_ℤ identity (pos 0) then (if known then legacy else agent) else agent

unfoldable pub principal_of : Platform → Text → Authenticated → Principal
principal_of p audience a = record {
  tenant_id = tenant_from_issuer a.issuer;
  namespace = as_string (get a.claims (text "registry"));
  agent_id = a.agent_id;
  agent_class = as_string (get a.claims (text "agentClass"));
  instance_id = as_string (get a.claims (text "instanceId"));
  workload_id = as_string (get a.claims (text "workloadId"));
  authority_root_ref = as_string (get a.claims (text "authorityRootRef"));
  agent_epoch = agent_epoch_of p a.claims;
  identity_epoch = (number p (get a.claims (text "identityEpoch"))).0;
  jkt = a.jkt;
  jti = as_string (get a.claims (text "jti"));
  issuer = a.issuer;
  audience = audience;
  expires_at = a.expires_at;
}

unfoldable pub verify :
    Platform → (Text → Option Response) → ℤ → Text → Text → Text → Result Error Principal
verify p fetch now token audience proof_key = do
  a ← authenticate p fetch now token audience proof_key
  ok (principal_of p audience a)
