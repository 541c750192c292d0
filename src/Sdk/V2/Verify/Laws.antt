-- ===== src/Sdk/V2/Verify/Laws.antt =====
-- What Verify of package eidovela returns, and when, and how its tenant differs from package v3.
use eidovela_open.Common.{
  ℤ, ◌≡◌, ◌↔◌, refl, to_uint64, sym, ap, ◌++◌, Option, some, none, true, ok, >>=-eq-ok,
  require-bind-eq-ok, length-append, arith, if◌then◌else◌,
}
use eidovela_open.Text.{Text, text, strip_prefix, trim_suffix}
use eidovela_open.Text.Laws.{strip_prefix-longer, length-trim_suffix, trim_prefix_of_none}
use eidovela_open.Text.Split.{contains, split_first, split_two}
use eidovela_open.Json.{Claims, get, as_string}
use eidovela_open.Platform.{Platform, Response}
use eidovela_open.Sdk.Token.Claims.{number}
use eidovela_open.Sdk.Token.{Authenticated, authenticate}
use eidovela_open.Sdk.Token.Authentic.{Authentic, authenticate_iff}
use eidovela_open.Sdk.V3.Verify.{tenant_from_issuer}
use eidovela_open.Sdk.V2.Verify.{Principal, principal_of, tenant_id_of, epoch_of, verify}

epoch_of_iff :
    (p : Platform) (claims : Claims) (epoch : ℤ)
    → (epoch_of p claims ≡ some epoch)
      ↔ (number p (get claims (text "lifecycle_epoch")) ≡ (epoch, true))
unfolding epoch_of
epoch_of_iff p claims epoch = ground arith

-- What the fields of a principal say of the claims and the epoch.
pub record IsPrincipal (audience : Text) (a : Authenticated) (epoch : ℤ) (q : Principal)
    : Type 0 where
  pub tenant_id : q.tenant_id ≡ tenant_id_of a.issuer
  pub agent_id : q.agent_id ≡ a.agent_id
  pub agent_class : q.agent_class ≡ as_string (get a.claims (text "agent_class"))
  pub instance_id : q.instance_id ≡ as_string (get a.claims (text "instance_id"))
  pub workload_id : q.workload_id ≡ as_string (get a.claims (text "workload_id"))
  pub authority_root_ref :
      q.authority_root_ref ≡ as_string (get a.claims (text "authority_root_ref"))
  pub epoch' : q.epoch ≡ to_uint64 epoch
  pub issuer : q.issuer ≡ a.issuer
  pub audience' : q.audience ≡ audience
  pub expires_at : q.expires_at ≡ a.expires_at

pub principal_of-IsPrincipal :
    (audience : Text) (a : Authenticated) (epoch : ℤ)
    → IsPrincipal audience a epoch (principal_of audience a epoch)
unfolding principal_of
principal_of-IsPrincipal audience a epoch = record {
  tenant_id = refl;
  agent_id = refl;
  agent_class = refl;
  instance_id = refl;
  workload_id = refl;
  authority_root_ref = refl;
  epoch' = refl;
  issuer = refl;
  audience' = refl;
  expires_at = refl;
}

module _ (p : Platform) (fetch : Text → Option Response) (now : ℤ) (token audience proof_key : Text)
    (q : Principal) where
  verify_steps :
      verify p fetch now token audience proof_key ≡ ok q
      → (a : Authenticated) × (authenticate p fetch now token audience proof_key ≡ ok a)
        × ((epoch : ℤ) × (epoch_of p a.claims ≡ some epoch) × (q ≡ principal_of audience a epoch))
  unfolding verify
  verify_steps h =
      let (a, e, k) = >>=-eq-ok (authenticate p fetch now token audience proof_key) _ h in
      let (epoch, e', k') = require-bind-eq-ok (epoch_of p a.claims) _ _ k in
      (a, e, (epoch, e', cc))

  -- Verify of package eidovela returns the principal `q` exactly when the token is authentic for the
  -- audience and the proof key at the time `now`, its claim lifecycle_epoch is a number, and `q` is
  -- the principal of its claims and that epoch, each field the claim of its name.
  pub verify_epoch_iff : (verify p fetch now token audience proof_key ≡ ok q) ↔ (
      (a : Authenticated) × Authentic p fetch now token audience proof_key a
      × ((epoch : ℤ) × (number p (get a.claims (text "lifecycle_epoch")) ≡ (epoch, true))
          × (q ≡ principal_of audience a epoch)
          × IsPrincipal audience a epoch q))
  unfolding verify
  verify_epoch_iff = (
    λ h.
        let (a, e, (epoch, e', same)) = verify_steps h in
        (
          a,
          (authenticate_iff p fetch now token audience proof_key a).0 e,
          (
            epoch,
            (epoch_of_iff p a.claims epoch).0 e',
            same,
            rw same (principal_of-IsPrincipal audience a epoch),
          ),
        ),
    λ (a, c, (epoch, e, same, _)).
        rw
          (
            (authenticate_iff p fetch now token audience proof_key a).1 c,
            (epoch_of_iff p a.claims epoch).1 e,
          )
          (ap ok (sym same)),
  )

too_short :
    (issuer : Text) → strip_prefix (trim_suffix issuer (text "/") ++ text "/t/") issuer ≡ none
too_short issuer = strip_prefix-longer _ issuer (
    omega (
      arith,
      length-trim_suffix issuer (text "/"),
      length-append {0} (trim_suffix issuer (text "/")) (text "/t/"),
    ))

-- The two versions read the same tenant off an issuer in which "/t/" occurs. Where it does not,
-- package eidovela takes the whole issuer for the tenant, and package v3 has none.
pub tenant_id_of-tenant_from_issuer :
    (issuer : Text)
    → tenant_id_of issuer
      ≡ (if contains issuer (text "/t/") then tenant_from_issuer issuer else issuer)
unfolding tenant_id_of tenant_from_issuer split_first split_two contains
tenant_id_of-tenant_from_issuer issuer =
    ground (arith, trim_prefix_of_none issuer _ (too_short issuer))
