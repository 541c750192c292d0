-- ===== src/Tests/Toy.antt =====
-- A platform, a peer and a token that are small enough to compute with.
use eidovela_open.Common.{
  true, ℕ, zero, suc, pos, ◌%◌, refl, false, [], ◌∷◌, replicate, Option, none, some, if◌then◌else◌,
  arith, inl, inr,
}
use eidovela_open.Text.{Text, text, text_eq, has_prefix, strip_prefix}
use eidovela_open.Text.Split.{split_first, cut}
use eidovela_open.Base64
use eidovela_open.Base64.RoundTrip.{IsBytes}
use eidovela_open.Json.Number.{to_int64}
use eidovela_open.Sdk.Token.Claims.{number}
use eidovela_open.Sdk.Token.Keys.{thumbprint}
use eidovela_open.Json.{
  get, bool, Value, Claims, members, values, object, string, int64, float64, array, end, member,
}
use eidovela_open.Platform.{Platform, Response}
use eidovela_open.Sdk.Token.{Authenticated, jwks_url}
use eidovela_open.Runner.Peers.{
  PeerIssuer, key_set, key_entry, serve_jwks, token_header, sign_with_kid,
}
use eidovela_open.Runner.Peers.KeySet.{IsFaithful}
use eidovela_open.Runner.Peers.RoundTrip.{IsPresentable, IsPublished}

abbrev pub key_bytes : Text
key_bytes = replicate 32 7

abbrev pub kid : Text
kid = text "k1"

abbrev pub issuer : Text
issuer = text "https://i.test/t/acme"

-- The claims, with an expiry as a decoder or as the signer holds it.
abbrev claims_of : Value → Claims
claims_of exp =
    (text "iss", string issuer)
    ∷ (text "aud", array (values (string (text "other") ∷ string (text "api") ∷ [])))
    ∷ (text "exp", exp)
    ∷ (text "cnf", object (members ((text "jkt", string (text "AQI")) ∷ [])))
    ∷ (text "sub", string (text "agent-1"))
    ∷ (text "lifecycle_epoch", exp)
    ∷ []

abbrev pub sent : Claims
sent = claims_of (int64 (pos 100))

abbrev pub received : Claims
received = claims_of (float64 (record { negative = false; mantissa = 100; exponent = pos 0 }))

abbrev key_document : Value
key_document = object (
    members (
      (text "kty", string (text "OKP"))
      ∷ (text "crv", string (text "Ed25519"))
      ∷ (text "x", string (Base64.encode key_bytes))
      ∷ (text "kid", string kid)
      ∷ (text "alg", string (text "EdDSA"))
      ∷ (text "use", string (text "sig"))
      ∷ []))

-- A document is marked by the first byte of its first name.
abbrev marshal : Value → Text
marshal (object (member (c ∷ _) _ _)) = (c % 256) ∷ []
marshal _ = []

abbrev pub toy : Platform
toy = record {
  sha256 = λ _. 1 ∷ 2 ∷ [];
  ed25519_verify = λ _ _ s. text_eq s (9 ∷ []);
  ed25519_sign = λ _ _. 9 ∷ [];
  ed25519_public = λ _. key_bytes;
  json_unmarshal = λ s.
      if text_eq s (text "a")
      then some (token_header kid)
      else if text_eq s (text "i")
      then some (object (members received))
      else none;
  json_decode = λ s.
      if has_prefix s (text "k")
      then some (object (members ((text "keys", array (values (key_document ∷ []))) ∷ [])))
      else if text_eq s (text "b")
      then some
          (object (members ((text "workloadRegistrationId", string (text "wr-00000002")) ∷ [])))
      else if text_eq s (text "o")
      then some (object (members ((text "active", bool true) ∷ [])))
      else none;
  json_marshal = marshal;
  json_error = λ _. text "invalid";
  parse_rfc3339 = λ _. none;
  format_rfc3339 = λ _. [];
  int64_overflow = λ _. pos 0;
}

abbrev pub peer : PeerIssuer
peer = record { url = text "https://i.test"; keys = (kid, text "private") ∷ [] }

abbrev pub fetch : Text → Option Response
fetch url =
    if text_eq url (text "https://i.test/jwks.json")
    then some (serve_jwks toy peer (text "/jwks.json"))
    else none

abbrev pub authenticated : Authenticated
authenticated = record {
  claims = received;
  issuer = issuer;
  expires_at = pos 100;
  jkt = text "AQI";
  agent_id = text "agent-1";
}

abbrev pub token : Text
token = sign_with_kid toy (text "private") kid sent

marshal-IsBytes : (v : Value) → IsBytes (marshal v)
marshal-IsBytes (object (member (c ∷ _) _ _)) = (omega arith, tt)
marshal-IsBytes (object (member [] _ _)) = tt
marshal-IsBytes (object end) = tt
marshal-IsBytes _ = tt

replicate-IsBytes : (n : ℕ) → IsBytes (replicate n 7)
replicate-IsBytes zero = tt
replicate-IsBytes (suc n) = (omega arith, replicate-IsBytes n)

pub toy-IsFaithful : IsFaithful toy
unfolding text_eq
toy-IsFaithful = record {
  signs = λ priv message. refl;
  signature_bytes = λ priv message. (omega arith, tt);
  public_bytes = λ priv. replicate-IsBytes 32;
  public_size = λ priv. refl;
  marshal_bytes = marshal-IsBytes;
}

pub toy-IsPublished : IsPublished toy fetch peer kid sent authenticated
unfolding token_header key_set key_entry has_prefix text_eq jwks_url serve_jwks Base64.encode
    strip_prefix split_first cut
toy-IsPublished = record {
  header_back = refl;
  claims_back = refl;
  keys_back = refl;
  reachable = refl;
}

pub toy-IsPresentable : IsPresentable toy (pos 50) (text "api") key_bytes authenticated
unfolding text_eq get number to_int64 thumbprint Base64.encode Base64.digit
toy-IsPresentable = record {
  issuer = refl;
  issuer_set = λ e. cc;
  addressed = inr (_, refl, inr (inl refl));
  expires = refl;
  alive = refl;
  bound = refl;
  possessed = refl;
  jkt_set = λ e. cc;
  subject = refl;
}
