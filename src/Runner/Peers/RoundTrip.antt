-- ===== src/Runner/Peers/RoundTrip.antt =====
-- A token that the peer signs is one that the SDK verifies against the key set that the peer serves.
use mathlib.Core.List.{append_assoc}
use eidovela_open.Common.{
  ℤ, ◌≡◌, ◌≢◌, refl, ap, true, [], ◌∷◌, ◌++◌, map, Option, some, ok, require-bind-eq-ok, ◌<ℤ◌,
}
use eidovela_open.Text.{Text, text, text_eq}
use eidovela_open.Base64
use eidovela_open.Base64.RoundTrip.{decode-encode, encode-Lacks_dot}
use eidovela_open.Json.{Claims, members, entries, object, string, get, as_map, to_map}
use eidovela_open.Json.Struct.{string_field, struct_members, names_field}
use eidovela_open.Platform.{Platform, Response}
use eidovela_open.Sdk.Token.Keys.{thumbprint}
use eidovela_open.Sdk.Token.Keys.Search.{select_key_iff}
use eidovela_open.Sdk.Token.Claims.{number}
use eidovela_open.Sdk.Token.Claims.Audience.{NamesAudience}
use eidovela_open.Sdk.Token.Form.{HasForm}
use eidovela_open.Sdk.Token.Steps.{IsServed, IsSigned}
use eidovela_open.Sdk.Token.Authentic.{Authentic}
use eidovela_open.Sdk.Token.{
  Segments, Authenticated, jwks_url, document, decode_header, decode_claims,
}
use eidovela_open.Sdk.V3.Verify.{principal_of, verify}
use eidovela_open.Sdk.V3.Verify.Laws.{verify_iff, principal_of-IsPrincipal}
use eidovela_open.Runner.Peers.{
  PeerIssuer, key_set, serve_jwks, find_key, token_header, sign_with_kid, sign,
}
use eidovela_open.Runner.Peers.KeySet.{
  IsFaithful, served_jwk, decode_jwks-key_set, select_key-served,
}

-- What the claims must say for the audience, the time and the holder of the proof key.
pub record IsPresentable (p : Platform) (now : ℤ) (audience proof_key : Text) (a : Authenticated)
    : Type 0 where
  pub issuer : get a.claims (text "iss") ≡ string a.issuer
  pub issuer_set : a.issuer ≢ []
  pub addressed : NamesAudience (get a.claims (text "aud")) audience
  pub expires : number p (get a.claims (text "exp")) ≡ (a.expires_at, true)
  pub alive : now <ℤ a.expires_at
  pub bound : get (as_map (get a.claims (text "cnf"))) (text "jkt") ≡ string a.jkt
  pub possessed : a.jkt ≡ thumbprint p proof_key
  pub jkt_set : a.jkt ≢ []
  pub subject : get a.claims (text "sub") ≡ string a.agent_id

-- The JSON decoder reads back what the encoder wrote: the header and the key set as they were, and
-- the claims as a decoder sees them. The issuer's key set is the peer's.
pub record IsPublished (p : Platform) (fetch : Text → Option Response) (peer : PeerIssuer)
    (kid : Text) (sent : Claims) (a : Authenticated) : Type 0 where
  pub header_back : p.json_unmarshal (p.json_marshal (token_header kid)) ≡ some (token_header kid)
  pub claims_back :
      p.json_unmarshal (p.json_marshal (object (members sent))) ≡ some (object (members a.claims))
  pub keys_back :
      p.json_decode (p.json_marshal (key_set p peer) ++ text "\n") ≡ some (key_set p peer)
  pub reachable : fetch (jwks_url a.issuer) ≡ some (serve_jwks p peer (text "/jwks.json"))

entries-members : (ms : Claims) → entries (members ms) ≡ ms
entries-members [] = refl
entries-members ((k, v) ∷ ms) = rw (entries-members ms)

module _ (p : Platform) (laws : IsFaithful p) (fetch : Text → Option Response) (now : ℤ)
    (audience proof_key : Text) (peer : PeerIssuer) (kid priv : Text) (sent : Claims)
    (a : Authenticated) where
  header_segment : Text
  header_segment = Base64.encode (p.json_marshal (token_header kid))

  payload_segment : Text
  payload_segment = Base64.encode (p.json_marshal (object (members sent)))

  raw_signature : Text
  unfolding header_segment payload_segment
  raw_signature = p.ed25519_sign priv (header_segment ++ (46 ∷ payload_segment))

  segments : Segments
  unfolding header_segment payload_segment raw_signature
  segments = record {
    header = header_segment;
    payload = payload_segment;
    signature = Base64.encode raw_signature;
  }

  signed-HasForm : HasForm (sign_with_kid p priv kid sent) segments
  unfolding segments sign_with_kid
  signed-HasForm = (
    append_assoc header_segment (46 ∷ payload_segment) (46 ∷ Base64.encode raw_signature),
    encode-Lacks_dot _ (laws.marshal_bytes _),
    encode-Lacks_dot _ (laws.marshal_bytes _),
    encode-Lacks_dot _ (laws.signature_bytes _ _),
  )

  segments-IsSigned : IsSigned p segments (p.ed25519_public priv)
  unfolding segments
  segments-IsSigned = (raw_signature, decode-encode _ (laws.signature_bytes _ _), laws.signs priv _)

  module _ (published : IsPublished p fetch peer kid sent a) where
    header_reads : decode_header p header_segment ≡ some (record { alg = text "EdDSA"; kid = kid })
    unfolding header_segment decode_header document token_header string_field struct_members
        names_field
    header_reads =
        rw (decode-encode _ (laws.marshal_bytes (token_header kid)), published.header_back)

    claims_read : decode_claims p payload_segment ≡ some a.claims
    unfolding payload_segment decode_claims document to_map
    claims_read =
        rw (decode-encode _ (laws.marshal_bytes (object (members sent))), published.claims_back)
          (ap some (entries-members a.claims))

    issuer-IsServed :
        find_key peer.keys kid ≡ some priv → IsServed p fetch a.issuer kid (p.ed25519_public priv)
    unfolding serve_jwks text_eq
    issuer-IsServed known = (
      serve_jwks p peer (text "/jwks.json"),
      published.reachable,
      refl,
      (
        map (served_jwk p) peer.keys,
        rw published.keys_back (decode_jwks-key_set p peer),
        (select_key_iff (map (served_jwk p) peer.keys) kid (p.ed25519_public priv)).0
            (select_key-served p laws peer.keys kid priv known),
      ),
    )

    pub signed-Authentic :
        IsPresentable p now audience proof_key a
        → find_key peer.keys kid ≡ some priv
        → Authentic p fetch now (sign_with_kid p priv kid sent) audience proof_key a
    unfolding segments
    signed-Authentic c known = record {
      parsed = record { segments = segments; kid = kid; claims = a.claims; issuer = a.issuer };
      public = p.ed25519_public priv;
      well_formed = record {
        form = signed-HasForm;
        header = header_reads;
        claims = claims_read;
        issuer = c.issuer;
        issuer_set = c.issuer_set;
      };
      issuer = refl;
      claims = refl;
      served = issuer-IsServed known;
      signed = segments-IsSigned;
      addressed = c.addressed;
      expires = c.expires;
      alive = c.alive;
      bound = c.bound;
      possessed = c.possessed;
      jkt_set = c.jkt_set;
      subject = c.subject;
    }

sign-eq-ok :
    (p : Platform) (peer : PeerIssuer) (kid token : Text) (sent : Claims)
    → sign p peer kid sent ≡ ok token
    → (priv : Text) × (find_key peer.keys kid ≡ some priv) × (token ≡ sign_with_kid p priv kid sent)
unfolding sign
sign-eq-ok p peer kid token sent h =
    let (priv, known, e) =
      require-bind-eq-ok (find_key peer.keys kid) _ (λ priv. ok (sign_with_kid p priv kid sent))
        h in
    (priv, known, cc)

-- A token that the peer signs is verified by package v3, with the principal of its claims, when the
-- cryptography and the JSON codec behave as documented, the issuer's key set address is answered by
-- the peer, and the claims name the issuer, the audience, a later expiry, the proof key's thumbprint and a
-- subject. The peer may hold any number of keys.
pub verify-sign :
    (p : Platform) (laws : IsFaithful p) (fetch : Text → Option Response) (now : ℤ)
    (audience proof_key : Text) (peer : PeerIssuer) (kid token : Text) (sent : Claims)
    (a : Authenticated)
    → IsPublished p fetch peer kid sent a
    → IsPresentable p now audience proof_key a
    → sign p peer kid sent ≡ ok token
    → verify p fetch now token audience proof_key ≡ ok (principal_of p audience a)
verify-sign p laws fetch now audience proof_key peer kid token sent a published c h =
    let (priv, known, same) = sign-eq-ok p peer kid token sent h in
    (verify_iff p fetch now token audience proof_key (principal_of p audience a)).1 (
      a,
      rw same (
          signed-Authentic p laws fetch now audience proof_key peer kid priv sent a published c
            known),
      refl,
      principal_of-IsPrincipal p audience a,
    )
