-- ===== src/Sdk/V2/Verify.antt =====
-- Verify of package eidovela behind the agent id: the principal with its one epoch, which the token
-- must carry, and the tenant that is cut off the issuer (sdk/go/eidovela/verify.go).
pub mod Laws
use eidovela_open.Common.{
  ℕ, ℤ, Option, none, some, Bool, not, ◌++◌, Result, ok, ◌>>=◌, require, to_uint64, if◌then◌else◌,
}
use eidovela_open.Text.{Text, text, trim_prefix, trim_suffix}
use eidovela_open.Text.Split.{split_first}
use eidovela_open.Json.{Claims, get, as_string}
use eidovela_open.Platform.{Platform, Response}
use eidovela_open.Sdk.Token.Claims.{Error, invalid_token, number}
use eidovela_open.Sdk.Token.{Authenticated, authenticate}

pub record Principal : Type 0 where
  pub tenant_id : Text
  pub agent_id : Text
  pub agent_class : Text
  pub instance_id : Text
  pub workload_id : Text
  pub authority_root_ref : Text
  pub epoch : ℕ  -- uint64
  pub issuer : Text
  pub audience : Text
  pub expires_at : ℤ

-- The tenant as the expression in Verify computes it.
unfoldable pub tenant_id_of : Text → Text
tenant_id_of issuer =
    trim_prefix issuer (trim_suffix (split_first issuer (text "/t/")) (text "/") ++ text "/t/")

-- `epoch, ok := number(claims["lifecycle_epoch"])`
unfoldable pub epoch_of : Platform → Claims → Option ℤ
epoch_of p claims =
    let (epoch, known) = number p (get claims (text "lifecycle_epoch")) in
    if known then some epoch else none

unfoldable pub principal_of : Text → Authenticated → ℤ → Principal
principal_of audience a epoch = record {
  tenant_id = tenant_id_of a.issuer;
  agent_id = a.agent_id;
  agent_class = as_string (get a.claims (text "agent_class"));
  instance_id = as_string (get a.claims (text "instance_id"));
  workload_id = as_string (get a.claims (text "workload_id"));
  authority_root_ref = as_string (get a.claims (text "authority_root_ref"));
  epoch = to_uint64 epoch;
  issuer = a.issuer;
  audience = audience;
  expires_at = a.expires_at;
}

unfoldable pub verify :
    Platform → (Text → Option Response) → ℤ → Text → Text → Text → Result Error Principal
verify p fetch now token audience proof_key = do
  a ← authenticate p fetch now token audience proof_key
  epoch ← require (epoch_of p a.claims) invalid_token
  ok (principal_of audience a epoch)
