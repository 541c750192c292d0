-- ===== src/Sdk/V3/Verify/Tenant.antt =====
-- The tenant that package v3 reads off an issuer.
use mathlib.Core.List.{append_assoc}
use eidovela_open.Common.{◌≡◌, ◌∙◌, ◌++◌, some, none, arith}
use eidovela_open.Text.{Text, text, strip_prefix, strip_suffix, trim_prefix, trim_suffix}
use eidovela_open.Text.Laws.{
  trim_prefix-append, trim_prefix_of_none, trim_suffix-append, trim_suffix_of_none,
  strip_prefix-append_both,
}
use eidovela_open.Text.Split.{cut, split_two}
use eidovela_open.Text.Cut.{EndsFirst, cut-append}
use eidovela_open.Sdk.V3.Verify.{tenant_from_issuer}

tenant_of_cut :
    (issuer base rest : Text)
    → cut (text "/t/") issuer ≡ some (base, rest)
    → tenant_from_issuer issuer ≡ trim_prefix issuer (trim_suffix base (text "/") ++ text "/t/")
unfolding tenant_from_issuer split_two
tenant_of_cut issuer base rest h = ground arith

-- For an issuer of a base that does not end in "/", then "/t/" for the first time, then the tenant,
-- the tenant is found, whatever it holds.
pub tenant_from_issuer_lem :
    (base tenant : Text)
    → EndsFirst (text "/t/") base
    → strip_suffix (text "/") base ≡ none
    → tenant_from_issuer (base ++ (text "/t/" ++ tenant)) ≡ tenant
tenant_from_issuer_lem base tenant first plain =
    tenant_of_cut _ base tenant (cut-append (text "/t/") base tenant (λ e. cc) first)
    ∙ (rw (trim_suffix_of_none base (text "/") plain, ← append_assoc base (text "/t/") tenant)
        (trim_prefix-append (base ++ text "/t/") tenant))

slash_is_no_tenant :
    (base tenant : Text)
    → strip_prefix (base ++ text "/t/") ((base ++ text "/") ++ (text "/t/" ++ tenant)) ≡ none
unfolding strip_prefix
slash_is_no_tenant base tenant =
    rw (append_assoc base (text "/") (text "/t/" ++ tenant))
      (strip_prefix-append_both base (text "/t/") (text "//t/" ++ tenant))

-- For a base that ends in "/", with "/t/" for the first time behind it, the result is not the tenant
-- but the whole issuer.
pub tenant_of_trailing_slash :
    (base tenant : Text)
    → EndsFirst (text "/t/") (base ++ text "/")
    → let issuer = (base ++ text "/") ++ (text "/t/" ++ tenant) in
      tenant_from_issuer issuer ≡ issuer
tenant_of_trailing_slash base tenant first =
    tenant_of_cut _ (base ++ text "/") tenant
      (cut-append (text "/t/") (base ++ text "/") tenant (λ e. cc) first)
    ∙ (rw (trim_suffix-append base (text "/"))
        (trim_prefix_of_none _ (base ++ text "/t/") (slash_is_no_tenant base tenant)))
