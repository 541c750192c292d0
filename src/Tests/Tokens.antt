-- ===== src/Tests/Tokens.antt =====
-- Examples of the theorems on tokens and keys.
use eidovela_open.Common.{pos, ◌≡◌, refl, true, List, [], ◌∷◌, some, ok, inl, inr}
use eidovela_open.Text.{text, text_eq}
use eidovela_open.Base64
use eidovela_open.Json.Number.{to_int64}
use eidovela_open.Json.{get, string, array, cons, nil}
use eidovela_open.Sdk.Token.Keys.{Jwk, jwk_from_public, select_key, usable_key}
use eidovela_open.Sdk.Token.Keys.Search.{IsChosen, select_key_iff}
use eidovela_open.Sdk.Token.Claims.{number, audience_contains}
use eidovela_open.Sdk.Token.Claims.Audience.{audience_contains_iff}
use eidovela_open.Sdk.Token.Authentic.{Authentic}
use eidovela_open.Sdk.V3.Verify as V3
use eidovela_open.Sdk.V3.Verify.Laws.{verify_iff, principal_of-IsPrincipal}
use eidovela_open.Sdk.V2.Verify as V2
use eidovela_open.Sdk.V2.Verify.Laws as V2Laws
use eidovela_open.Sdk.V2.Verify.Laws.{verify_epoch_iff}
use eidovela_open.Runner.Peers.{sign, find_key}
use eidovela_open.Runner.Peers.RoundTrip.{verify-sign, signed-Authentic}
use eidovela_open.Tests.Toy.{
  toy, fetch, peer, kid, token, sent, received, authenticated, key_bytes, toy-IsFaithful,
  toy-IsPublished, toy-IsPresentable,
}

signed : sign toy peer kid sent ≡ ok token
unfolding sign find_key text_eq
signed = refl

verify-sign_example :
    V3.verify toy fetch (pos 50) token (text "api") key_bytes
    ≡ ok (V3.principal_of toy (text "api") authenticated)
verify-sign_example =
    verify-sign toy toy-IsFaithful fetch (pos 50) (text "api") key_bytes peer kid token sent
      authenticated toy-IsPublished toy-IsPresentable signed

toy-Authentic : Authentic toy fetch (pos 50) token (text "api") key_bytes authenticated
unfolding find_key text_eq
toy-Authentic =
    signed-Authentic toy toy-IsFaithful fetch (pos 50) (text "api") key_bytes peer kid
      (text "private") sent authenticated toy-IsPublished toy-IsPresentable refl

verify_iff_example :
    V3.verify toy fetch (pos 50) token (text "api") key_bytes
    ≡ ok (V3.principal_of toy (text "api") authenticated)
verify_iff_example =
    (verify_iff toy fetch (pos 50) token (text "api") key_bytes
        (V3.principal_of toy (text "api") authenticated)).1
      (authenticated, toy-Authentic, refl, principal_of-IsPrincipal toy (text "api") authenticated)

epoch_read : number toy (get received (text "lifecycle_epoch")) ≡ (pos 100, true)
unfolding get number to_int64 text_eq
epoch_read = refl

verify_epoch_iff_example :
    V2.verify toy fetch (pos 50) token (text "api") key_bytes
    ≡ ok (V2.principal_of (text "api") authenticated (pos 100))
verify_epoch_iff_example =
    (verify_epoch_iff toy fetch (pos 50) token (text "api") key_bytes
        (V2.principal_of (text "api") authenticated (pos 100))).1
      (
        authenticated,
        toy-Authentic,
        (
          pos 100,
          epoch_read,
          refl,
          V2Laws.principal_of-IsPrincipal (text "api") authenticated (pos 100),
        ),
      )

-- Two entries have the key id; the first one is no Ed25519 key.
abbrev two_keys : List Jwk
two_keys =
    (record (jwk_from_public key_bytes kid) { crv = text "X25519" })
    ∷ jwk_from_public key_bytes kid
    ∷ []

two_keys_select : select_key two_keys kid ≡ some key_bytes
unfolding select_key usable_key jwk_from_public text_eq Base64.encode Base64.decode Base64.digit
    Base64.value
two_keys_select = refl

select_key_iff_example : IsChosen two_keys kid key_bytes
select_key_iff_example = (select_key_iff two_keys kid key_bytes).0 two_keys_select

audience_contains_iff_example :
    audience_contains (array (cons (string (text "a")) (cons (string (text "b")) nil))) (text "b")
    ≡ true
audience_contains_iff_example =
    (audience_contains_iff (array (cons (string (text "a")) (cons (string (text "b")) nil)))
        (text "b")).1
      (inr (cons (string (text "a")) (cons (string (text "b")) nil), refl, inr (inl refl)))
