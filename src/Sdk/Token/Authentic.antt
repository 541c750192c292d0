-- ===== src/Sdk/Token/Authentic.antt =====
-- When a token is authentic, said without the order of Verify's tests, and that Verify's common part
-- accepts exactly these tokens (sdk/go/eidovela/v3/verify.go).
use eidovela_open.Common.{ℤ, ◌≡◌, ◌≢◌, ◌↔◌, sym, ◌∙◌, ap, true, [], Option, some, ok, ◌<ℤ◌, arith}
use eidovela_open.Text.{Text, text}
use eidovela_open.Json.{Value, string, get, as_map, as_string, as_string?}
use eidovela_open.Platform.{Platform, Response}
use eidovela_open.Sdk.Token.Keys.{thumbprint}
use eidovela_open.Sdk.Token.Claims.{audience_contains, number}
use eidovela_open.Sdk.Token.{
  Parsed, parse_token, jwks_url, signing_key, signature_ok, Authenticated, expiry, bound_key,
  authenticate,
}
use eidovela_open.Sdk.Token.Form.{three_sound, three_complete}
use eidovela_open.Sdk.Token.Keys.Search.{select_key_iff}
use eidovela_open.Sdk.Token.Claims.Audience.{NamesAudience, audience_contains_iff}
use eidovela_open.Sdk.Token.Steps.{
  IsWellFormed, issuer_of_iff, parse_token_iff, IsServed, signing_key_sound, signing_key_complete,
  IsSigned, signature_ok_iff, expiry_iff, bound_key_iff,
}

pub record Authentic (p : Platform) (fetch : Text → Option Response) (now : ℤ)
    (token audience proof_key : Text) (a : Authenticated) : Type 0 where
  pub parsed : Parsed
  pub public : Text
  pub well_formed : IsWellFormed p token parsed
  pub issuer : parsed.issuer ≡ a.issuer
  pub claims : parsed.claims ≡ a.claims
  pub served : IsServed p fetch a.issuer parsed.kid public
  pub signed : IsSigned p parsed.segments public
  pub addressed : NamesAudience (get a.claims (text "aud")) audience
  pub expires : number p (get a.claims (text "exp")) ≡ (a.expires_at, true)
  pub alive : now <ℤ a.expires_at
  pub bound : get (as_map (get a.claims (text "cnf"))) (text "jkt") ≡ string a.jkt
  pub possessed : a.jkt ≡ thumbprint p proof_key
  pub jkt_set : a.jkt ≢ []
  pub subject : get a.claims (text "sub") ≡ string a.agent_id

-- The steps that led to a result.
abbrev Steps : Platform → (Text → Option Response) → ℤ → Text → Text → Text → Authenticated → Type 0
Steps p fetch now token audience proof_key a =
    (t : Parsed) × (parse_token p token ≡ ok t)
    × (t.claims ≡ a.claims)
    × (t.issuer ≡ a.issuer)
    × ((public : Text) × (signing_key p fetch t.issuer t.kid ≡ ok public)
        × (signature_ok p t.segments public ≡ true))
    × (audience_contains (get a.claims (text "aud")) audience ≡ true)
    × (expiry p now a.claims ≡ some a.expires_at)
    × (bound_key p proof_key a.claims ≡ some a.jkt)
    × (as_string? (get a.claims (text "sub")) ≡ some a.agent_id)

authenticate-Steps :
    (p : Platform) (fetch : Text → Option Response) (now : ℤ) (token audience proof_key : Text)
    (a : Authenticated)
    → authenticate p fetch now token audience proof_key ≡ ok a
    → Steps p fetch now token audience proof_key a
unfolding authenticate
authenticate-Steps p fetch now token audience proof_key a h = ground arith

steps_authenticate :
    (p : Platform) (fetch : Text → Option Response) (now : ℤ) (token audience proof_key : Text)
    (a : Authenticated) (t : Parsed) (public : Text)
    → parse_token p token ≡ ok t
    → t.claims ≡ a.claims
    → t.issuer ≡ a.issuer
    → signing_key p fetch t.issuer t.kid ≡ ok public
    → signature_ok p t.segments public ≡ true
    → audience_contains (get a.claims (text "aud")) audience ≡ true
    → expiry p now a.claims ≡ some a.expires_at
    → bound_key p proof_key a.claims ≡ some a.jkt
    → as_string? (get a.claims (text "sub")) ≡ some a.agent_id
    → authenticate p fetch now token audience proof_key ≡ ok a
unfolding authenticate
steps_authenticate p fetch now token audience proof_key a t public parsed c i k s aud exp bound
      sub =
    ground arith

string_of_as_string : (v : Value) (s : Text) → as_string v ≡ s → s ≢ [] → v ≡ string s
string_of_as_string v s e h = ground arith

string_of_as_string? : (v : Value) (s : Text) → as_string? v ≡ some s → v ≡ string s
string_of_as_string? v s e = ground arith

module _ (p : Platform) (fetch : Text → Option Response) (now : ℤ) (token audience proof_key : Text)
    (a : Authenticated) where
  authenticate_sound :
      authenticate p fetch now token audience proof_key ≡ ok a
      → Authentic p fetch now token audience proof_key a
  authenticate_sound h =
      let (t, parsed, claims, issuer, (public, keyed, signed), addressed, alive, bound, subject) =
        authenticate-Steps p fetch now token audience proof_key a h in
      let (form, header, claims_read, issuer_read) = (parse_token_iff p token t).0 parsed in
      let (issuer_named, issuer_set) = (issuer_of_iff t.claims t.issuer).0 issuer_read in
      let (response, fetched, fine, (keys, read, chosen)) =
        signing_key_sound p fetch t.issuer t.kid public keyed in
      let (expires, later) = (expiry_iff p now a.claims a.expires_at).0 alive in
      let (jkt, jkt_set, possessed) = (bound_key_iff p proof_key a.claims a.jkt).0 bound in
      record {
        parsed = t;
        public = public;
        well_formed = record {
          form = three_sound token t.segments form;
          header = header;
          claims = claims_read;
          issuer = issuer_named;
          issuer_set = issuer_set;
        };
        issuer = issuer;
        claims = claims;
        served = (
          response,
          ap (λ i. fetch (jwks_url i)) (sym issuer) ∙ fetched,
          fine,
          (keys, read, (select_key_iff keys t.kid public).0 chosen),
        );
        signed = (signature_ok_iff p t.segments public).0 signed;
        addressed = (audience_contains_iff (get a.claims (text "aud")) audience).0 addressed;
        expires = expires;
        alive = later;
        bound =
            string_of_as_string (get (as_map (get a.claims (text "cnf"))) (text "jkt")) a.jkt jkt
              jkt_set;
        possessed = possessed;
        jkt_set = jkt_set;
        subject = string_of_as_string? (get a.claims (text "sub")) a.agent_id subject;
      }

  authenticate_complete :
      Authentic p fetch now token audience proof_key a
      → authenticate p fetch now token audience proof_key ≡ ok a
  authenticate_complete c =
      let t = c.parsed in
      let w = c.well_formed in
      let (response, fetched, fine, (keys, read, chosen)) = c.served in
      steps_authenticate p fetch now token audience proof_key a t c.public
        ((parse_token_iff p token t).1 (
          three_complete token t.segments w.form,
          w.header,
          w.claims,
          (issuer_of_iff t.claims t.issuer).1 (w.issuer, w.issuer_set),
        ))
        c.claims c.issuer
        (signing_key_complete p fetch t.issuer t.kid c.public response keys (rw c.issuer fetched)
          fine read ((select_key_iff keys t.kid c.public).1 chosen))
        ((signature_ok_iff p t.segments c.public).1 c.signed)
        ((audience_contains_iff (get a.claims (text "aud")) audience).1 c.addressed)
        ((expiry_iff p now a.claims a.expires_at).1 (c.expires, c.alive))
        ((bound_key_iff p proof_key a.claims a.jkt).1
          (ap as_string c.bound, c.jkt_set, c.possessed))
        (ap as_string? c.subject)

  -- Verify's common part returns `a` exactly when the token is authentic with `a`: three segments,
  -- an EdDSA header, an issuer whose served key set chooses a key for the header's key id, a
  -- signature of that key over the first two segments, the audience named, an expiry after now, and
  -- the claim cnf.jkt equal to the proof key's thumbprint.
  pub authenticate_iff :
      (authenticate p fetch now token audience proof_key ≡ ok a)
      ↔ Authentic p fetch now token audience proof_key a
  authenticate_iff = (authenticate_sound, authenticate_complete)
