-- ===== src/Sdk/Presentation.antt =====
-- Presentation of a token through a gateway: IntrospectContext of
-- sdk/go/eidovela/v3/presentation.go, and the same text in sdk/go/eidovela/presentation.go.
pub mod Blank
pub mod Proof
pub mod Conditions
pub mod Accepted
use eidovela_open.Common.{
  zero_time, unix, ℕ, ◌*◌, ◌/◌, ◌-◌, ◌^◌, ℤ, pos, negsuc, Bool, true, false, not, ◌&&◌, ◌||◌, List,
  [], ◌∷◌, ◌++◌, Option, none, some, Result, ok, err, ◌>>=◌, ◌>>◌, guard, require, leb, leb_ℤ, eq_ℤ,
  ◌==◌, length, if◌then◌else◌,
}
use eidovela_open.Text.{Text, text, text_eq, is_empty}
use eidovela_open.Base64
use eidovela_open.Json.{Value, null, object, string, bool, int64, Claims, members}
use eidovela_open.Json.Struct.{assign_text, struct_members}
use eidovela_open.Json.Fields.{bool_pointer, assign_int, field_from}
use eidovela_open.Platform.{Platform, Response}
use eidovela_open.Sdk.Token.Keys.{public_key_size, thumbprint, Jwk, jwk_from_public}
use Blank.{is_blank}

pub record TokenContext : Type 0 where
  pub schema_version : Text
  pub namespace : Text
  pub agent_id : Text
  pub agent_ref : Text
  pub agent_class : Text
  pub registry_class : Text
  pub identity_type : Text
  pub subject_ref : Text
  pub agent_epoch : ℤ
  pub identity_epoch : ℤ
  pub instance_id : Text
  pub issuer : Text
  pub audience : Text
  pub expires_at : ℤ
  pub token_hash : Text
  pub presenter_jkt : Text

-- net/url.Parse, as far as it is read; `bare` is String() without the query and the fragment.
pub record Endpoint : Type 0 where
  pub scheme : Text
  pub host : Text
  pub hostname : Text
  pub has_user : Bool
  pub raw_query : Text
  pub fragment : Text
  pub opaque : Text
  pub address : Text
  pub bare : Text

-- What these functions meet outside: the parts of Go's library, and the service.
pub record Web : Type 0 where
  pub platform : Platform
  pub url_parse : Text → Option Endpoint
  -- net.ParseIP, then IsLoopback
  pub is_loopback : Text → Bool
  -- json.Unmarshal of a whole text, with its numbers as they are written
  pub unmarshal : Text → Option Value
  -- time.Time's UnmarshalJSON of a string, in nanoseconds since 1970
  pub parse_time : Text → Option ℤ
  -- the answer to a POST of a document; none is a transport error
  pub answer : Text → Value → Option Response
  -- time.Now, in nanoseconds since 1970
  pub now : ℤ

pub data ContextError : Type 0 where
  invalid_token inactive needs_tls transport_failed : ContextError
  http_status : ℕ → ContextError

abbrev assign_time : Web → ℤ → Value → Option ℤ
assign_time web old (string s) = web.parse_time s
assign_time web old null = some old
assign_time web old _ = none

-- The context of the answer, from what an earlier member of its name left
unfoldable pub read_context : Web → TokenContext → Claims → Option TokenContext
read_context web old ms =
    Base64.◌>>=◌ (field_from assign_text (text "schemaVersion") old.schema_version ms)
      λ schema_version.
        Base64.◌>>=◌ (field_from assign_text (text "namespace") old.namespace ms) λ namespace.
          Base64.◌>>=◌ (field_from assign_text (text "agentId") old.agent_id ms) λ agent_id.
            Base64.◌>>=◌ (field_from assign_text (text "agentRef") old.agent_ref ms) λ agent_ref.
              Base64.◌>>=◌ (field_from assign_text (text "agentClass") old.agent_class ms)
                λ agent_class.
                  Base64.◌>>=◌ (field_from assign_text (text "registryClass") old.registry_class ms)
                    λ registry_class.
                      Base64.◌>>=◌
                        (field_from assign_text (text "identityType") old.identity_type ms)
                        λ identity_type.
                          Base64.◌>>=◌
                            (field_from assign_text (text "subjectRef") old.subject_ref ms)
                            λ subject_ref.
                              Base64.◌>>=◌
                                (field_from assign_int (text "agentEpoch") old.agent_epoch ms)
                                λ agent_epoch.
                                  Base64.◌>>=◌
                                    (field_from assign_int (text "identityEpoch") old.identity_epoch
                                      ms)
                                    λ identity_epoch.
                                      Base64.◌>>=◌
                                        (field_from assign_text (text "instanceId") old.instance_id
                                          ms)
                                        λ instance_id.
                                          Base64.◌>>=◌
                                            (field_from assign_text (text "issuer") old.issuer ms)
                                            λ issuer.
                                              Base64.◌>>=◌
                                                (field_from assign_text (text "audience")
                                                  old.audience ms)
                                                λ audience.
                                                  Base64.◌>>=◌
                                                    (field_from (assign_time web) (text "expiresAt")
                                                      old.expires_at ms)
                                                    λ expires_at.
                                                      Base64.◌>>=◌
                                                        (field_from assign_text (text "tokenHash")
                                                          old.token_hash ms)
                                                        λ token_hash.
                                                          Base64.◌>>=◌
                                                            (field_from assign_text
                                                            (text "presenterJkt") old.presenter_jkt
                                                            ms)
                                                            λ presenter_jkt. some (record {
                                                            schema_version = schema_version;
                                                            namespace = namespace;
                                                            agent_id = agent_id;
                                                            agent_ref = agent_ref;
                                                            agent_class = agent_class;
                                                            registry_class = registry_class;
                                                            identity_type = identity_type;
                                                            subject_ref = subject_ref;
                                                            agent_epoch = agent_epoch;
                                                            identity_epoch = identity_epoch;
                                                            instance_id = instance_id;
                                                            issuer = issuer;
                                                            audience = audience;
                                                            expires_at = expires_at;
                                                            token_hash = token_hash;
                                                            presenter_jkt = presenter_jkt;
                                                            })

abbrev zero_context : TokenContext
zero_context = record {
  schema_version = [];
  namespace = [];
  agent_id = [];
  agent_ref = [];
  agent_class = [];
  registry_class = [];
  identity_type = [];
  subject_ref = [];
  agent_epoch = pos 0;
  identity_epoch = pos 0;
  instance_id = [];
  issuer = [];
  audience = [];
  expires_at = zero_time;
  token_hash = [];
  presenter_jkt = [];
}

abbrev context_before : Option TokenContext → TokenContext
context_before none = zero_context
context_before (some old) = old

-- A pointer to a struct: null is nil, and an object is read into the struct that is there.
abbrev assign_context : Web → Option TokenContext → Value → Option (Option TokenContext)
assign_context web old null = some none
assign_context web old v =
    Base64.◌>>=◌ (struct_members v)
      λ ms. Base64.◌>>=◌ (read_context web (context_before old) ms) λ c. some (some c)

-- The fields active and context of the answer
unfoldable pub read_answer : Web → Text → Option (Option Bool × Option TokenContext)
read_answer web raw = Base64.◌>>=◌ (web.unmarshal raw) λ v. Base64.◌>>=◌ (struct_members v) λ ms.
    Base64.◌>>=◌ (bool_pointer ms (text "active")) λ active.
      Base64.◌>>=◌ (field_from (assign_context web) (text "context") none ms)
        λ context. some (active, context)

unfoldable pub token_hash_of : Platform → Text → Text
token_hash_of p token = Base64.encode (p.sha256 token)

abbrev pub set : Text → Bool
set s = not (is_empty s)

-- The first condition on the result, negated, in three parts: what the context speaks of, what it
-- must name, and its epochs and expiry.
unfoldable pub is_about : Web → Text → Text → Text → TokenContext → Bool
is_about web token audience presenter c =
    text_eq c.schema_version (text "eidovela.token-context.v1")
    && text_eq c.token_hash (token_hash_of web.platform token)
    && text_eq c.presenter_jkt (thumbprint web.platform presenter)
    && text_eq c.audience audience

unfoldable pub is_complete : TokenContext → Bool
is_complete c =
    set c.namespace
    && set c.issuer
    && set c.agent_id
    && set c.agent_ref
    && set c.registry_class
    && set c.instance_id

unfoldable pub is_current : Web → TokenContext → Bool
is_current web c =
    leb_ℤ (pos 1) c.agent_epoch
    && leb_ℤ (pos 1) c.identity_epoch
    && not (leb_ℤ c.expires_at web.now)

unfoldable pub is_bound : Web → Text → Text → Text → TokenContext → Bool
is_bound web token audience presenter c =
    is_about web token audience presenter c && is_complete c && is_current web c

-- The condition on the class, negated
unfoldable pub has_class : TokenContext → Bool
has_class c =
    text_eq c.agent_class (text "service")
    || text_eq c.agent_class (text "twin")
    || text_eq c.agent_class (text "ephemeral")

-- The switch on the identity type
unfoldable pub has_subject : TokenContext → Bool
has_subject c =
    if text_eq c.identity_type (text "interactive")
      || text_eq c.identity_type (text "digitalEmployee")
    then not (is_blank c.subject_ref)
    else text_eq c.identity_type (text "autonomous") && is_empty c.subject_ref

unfoldable pub is_endpoint : Endpoint → Bool
is_endpoint e =
    set e.host && not e.has_user && is_empty e.raw_query && is_empty e.fragment && is_empty e.opaque

unfoldable pub is_secure : Web → Endpoint → Bool
is_secure web e =
    text_eq e.scheme (text "https")
    || (text_eq e.scheme (text "http") && web.is_loopback e.hostname)

abbrev pub max_response : ℕ
max_response = 64 * 1024

abbrev pub context_request : Text → Text → Text → Value
context_request token audience proof = object (
    members (
      (text "token", string token)
      ∷ (text "audience", string audience)
      ∷ (text "dpopProof", string proof)
      ∷ (text "includeContext", bool true)
      ∷ []))

-- IntrospectContext
unfoldable pub introspect_context :
    Web → Text → Text → Text → Text → Text → Result ContextError TokenContext
introspect_context web base_url token audience proof presenter = do
  guard (set token && set audience && set proof && (length presenter == public_key_size))
      invalid_token
  e ← require (web.url_parse (base_url ++ text "/v1/introspect")) invalid_token
  guard (is_endpoint e) invalid_token
  guard (is_secure web e) needs_tls
  response ← require (web.answer e.address (context_request token audience proof)) transport_failed
  guard (response.status == 200) (http_status response.status)
  guard (leb (length response.body) max_response) invalid_token
  (active, context) ← require (read_answer web response.body) invalid_token
  is_active ← require active invalid_token
  guard is_active inactive
  c ← require context invalid_token
  guard (is_bound web token audience presenter c) invalid_token
  guard (has_class c) invalid_token
  guard (has_subject c) invalid_token
  ok c
