-- ===== src/Tests/Presentation.antt =====
-- An example of the theorem on IntrospectContext.
use eidovela_open.Common.{pos, ◌≡◌, ◌≢◌, refl, true, false, [], ◌∷◌, some, ok, length}
use eidovela_open.Text.{text, text_eq}
use eidovela_open.Base64
use eidovela_open.Json.{Value, object, string, bool, json_number, members}
use eidovela_open.Json.Struct.{struct_members, names_field}
use eidovela_open.Json.Fields.{field_from, bool_pointer}
use eidovela_open.Json.Number.{parse_int}
use eidovela_open.Sdk.Token.Keys.{public_key_size, thumbprint}
use eidovela_open.Sdk.Presentation.{
  TokenContext, Endpoint, Web, introspect_context, read_answer, read_context, is_bound, is_about,
  is_complete, is_current, has_class, has_subject, is_endpoint, is_secure, token_hash_of,
}
use eidovela_open.Sdk.Presentation.Blank.{is_blank}
use eidovela_open.Sdk.Presentation.Conditions.{IsBound, IsClassified}
use eidovela_open.Sdk.Presentation.Accepted.{IsAnswered, introspect_context_iff}
use eidovela_open.Tests.Toy.{toy, key_bytes}

abbrev endpoint : Endpoint
endpoint = record {
  scheme = text "https";
  host = text "g.test";
  hostname = text "g.test";
  has_user = false;
  raw_query = [];
  fragment = [];
  opaque = [];
  address = text "https://g.test/v1/introspect";
  bare = text "https://g.test/v1/introspect";
}

abbrev context : TokenContext
context = record {
  schema_version = text "eidovela.token-context.v1";
  namespace = text "n";
  agent_id = text "a";
  agent_ref = text "r";
  agent_class = text "twin";
  registry_class = text "c";
  identity_type = text "interactive";
  subject_ref = text "s";
  agent_epoch = pos 2;
  identity_epoch = pos 1;
  instance_id = text "i";
  issuer = text "u";
  audience = text "api";
  expires_at = pos 100;
  token_hash = text "AQI";
  presenter_jkt = text "AQI";
}

abbrev document : Value
document = object (
    members (
      (text "active", bool true)
      ∷ (
        text "context",
        object (
            members (
              (text "schemaVersion", string context.schema_version)
              ∷ (text "namespace", string context.namespace)
              ∷ (text "agentId", string context.agent_id)
              ∷ (text "agentRef", string context.agent_ref)
              ∷ (text "agentClass", string context.agent_class)
              ∷ (text "registryClass", string context.registry_class)
              ∷ (text "identityType", string context.identity_type)
              ∷ (text "subjectRef", string context.subject_ref)
              ∷ (text "agentEpoch", json_number (text "2"))
              ∷ (text "identityEpoch", json_number (text "1"))
              ∷ (text "instanceId", string context.instance_id)
              ∷ (text "issuer", string context.issuer)
              ∷ (text "audience", string context.audience)
              ∷ (text "expiresAt", string (text "later"))
              ∷ (text "tokenHash", string context.token_hash)
              ∷ (text "presenterJkt", string context.presenter_jkt)
              ∷ [])),
      )
      ∷ []))

abbrev web : Web
web = record {
  platform = toy;
  url_parse = λ _. some endpoint;
  is_loopback = λ _. false;
  unmarshal = λ _. some document;
  parse_time = λ _. some (pos 100);
  answer = λ _ _. some (record { status = 200; body = text "body" });
  now = pos 50;
}

returned :
    introspect_context web
      (text "https://g.test")
      (text "token")
      (text "api")
      (text "proof")
      key_bytes
    ≡ ok context
unfolding introspect_context read_answer read_context is_bound is_about is_complete is_current
    has_class has_subject is_endpoint is_secure token_hash_of is_blank text_eq struct_members
    names_field field_from bool_pointer parse_int thumbprint Base64.encode Base64.digit
returned = refl

introspect_context_iff_example :
    (text "token" ≢ [])
    × (text "api" ≢ [])
    × (text "proof" ≢ [])
    × (length key_bytes ≡ public_key_size)
    × IsAnswered web (text "https://g.test") (text "token") (text "api") (text "proof") context
    × IsBound web (text "token") (text "api") key_bytes context
    × IsClassified context
introspect_context_iff_example =
    (introspect_context_iff web (text "https://g.test") (text "token") (text "api") (text "proof")
        key_bytes context).0
      returned
