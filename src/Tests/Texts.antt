-- ===== src/Tests/Texts.antt =====
-- Examples of the theorems on issuers and tenants.
use eidovela_open.Common.{◌≡◌, refl, none, if◌then◌else◌}
use eidovela_open.Text.{text, strip_prefix, strip_suffix, text_eq}
use eidovela_open.Text.Split.{cut, contains}
use eidovela_open.Text.Cut.{EndsFirst}
use eidovela_open.Sdk.V3.Verify.{tenant_from_issuer}
use eidovela_open.Sdk.V3.Verify.Tenant.{tenant_from_issuer_lem, tenant_of_trailing_slash}
use eidovela_open.Sdk.V2.Verify.{tenant_id_of}
use eidovela_open.Sdk.V2.Verify.Laws.{tenant_id_of-tenant_from_issuer}

plain_first : EndsFirst (text "/t/") (text "https://i.test")
unfolding cut strip_prefix
plain_first = refl

plain_end : strip_suffix (text "/") (text "https://i.test") ≡ none
unfolding strip_suffix text_eq
plain_end = refl

tenant_from_issuer_lem_example :
    tenant_from_issuer (text "https://i.test/t/acme/t/x") ≡ text "acme/t/x"
tenant_from_issuer_lem_example =
    tenant_from_issuer_lem (text "https://i.test") (text "acme/t/x") plain_first plain_end

slash_first : EndsFirst (text "/t/") (text "https://i.test/")
unfolding cut strip_prefix
slash_first = refl

tenant_of_trailing_slash_example :
    tenant_from_issuer (text "https://i.test//t/acme") ≡ text "https://i.test//t/acme"
tenant_of_trailing_slash_example =
    tenant_of_trailing_slash (text "https://i.test") (text "acme") slash_first

tenant_id_of-tenant_from_issuer_example : tenant_id_of (text "https://i.test") ≡ (
    if contains (text "https://i.test") (text "/t/")
    then tenant_from_issuer (text "https://i.test")
    else text "https://i.test")
tenant_id_of-tenant_from_issuer_example = tenant_id_of-tenant_from_issuer (text "https://i.test")
