-- ===== src/Sdk/Presentation/Accepted.antt =====
-- Which contexts IntrospectContext returns.
use eidovela_open.Common.{◌≤◌, ◌≡◌, ◌≢◌, ◌↔◌, ◌⊎◌, true, false, [], ◌++◌, some, ok, length, arith}
use eidovela_open.Text.{Text, text}
use eidovela_open.Text.Laws.{text_eq_iff}
use eidovela_open.Platform.{Response}
use eidovela_open.Sdk.Token.Keys.{public_key_size}
use eidovela_open.Sdk.Presentation.{
  TokenContext, Endpoint, Web, read_answer, is_bound, has_class, has_subject, is_endpoint,
  is_secure, max_response, context_request, introspect_context,
}
use eidovela_open.Sdk.Presentation.Conditions.{
  IsBound, IsClassified, is_empty_iff, is_bound_sound, is_bound_complete, has_class_iff,
  has_subject_iff,
}

-- A host, and no user, query, fragment or opaque part
abbrev pub IsPlain : Endpoint → Type 0
IsPlain e =
    (e.host ≢ []) × (e.has_user ≡ false) × (e.raw_query ≡ []) × (e.fragment ≡ []) × (e.opaque ≡ [])

-- The request that was made and its answer.
pub record IsAnswered (web : Web) (base_url token audience proof : Text) (c : TokenContext)
    : Type 0 where
  pub endpoint : Endpoint
  pub response : Response
  pub parsed : web.url_parse (base_url ++ text "/v1/introspect") ≡ some endpoint
  pub plain : IsPlain endpoint
  pub secure :
      (endpoint.scheme ≡ text "https")
      ⊎ ((endpoint.scheme ≡ text "http") × (web.is_loopback endpoint.hostname ≡ true))
  pub answered : web.answer endpoint.address (context_request token audience proof) ≡ some response
  pub success : response.status ≡ 200
  pub small : length response.body ≤ max_response
  pub active : read_answer web response.body ≡ some (some true, some c)

is_endpoint_iff : (e : Endpoint) → (is_endpoint e ≡ true) ↔ IsPlain e
unfolding is_endpoint
is_endpoint_iff e = ground (
  arith,
  is_empty_iff e.host,
  is_empty_iff e.raw_query,
  is_empty_iff e.fragment,
  is_empty_iff e.opaque,
)

is_secure_iff :
    (web : Web) (e : Endpoint)
    → (is_secure web e ≡ true) ↔ (
        (e.scheme ≡ text "https")
        ⊎ ((e.scheme ≡ text "http") × (web.is_loopback e.hostname ≡ true)))
unfolding is_secure
is_secure_iff web e =
    ground (arith, text_eq_iff e.scheme (text "https"), text_eq_iff e.scheme (text "http"))

module _ (web : Web) (base_url token audience proof presenter : Text) (c : TokenContext) where
  -- What the steps of the function found.
  abbrev Found : Type 0
  Found =
      (e : Endpoint) × (web.url_parse (base_url ++ text "/v1/introspect") ≡ some e)
      × (is_endpoint e ≡ true)
      × (is_secure web e ≡ true)
      × ((response : Response) × (web.answer e.address (context_request token audience proof)
            ≡ some response)
          × (response.status ≡ 200)
          × (length response.body ≤ max_response)
          × (read_answer web response.body ≡ some (some true, some c)))

  introspect_context_found :
      introspect_context web base_url token audience proof presenter ≡ ok c
      → Found
        × (token ≢ [])
        × (audience ≢ [])
        × (proof ≢ [])
        × (length presenter ≡ public_key_size)
        × (is_bound web token audience presenter c ≡ true)
        × (has_class c ≡ true)
        × (has_subject c ≡ true)
  unfolding introspect_context
  introspect_context_found h =
      ground (arith, is_empty_iff token, is_empty_iff audience, is_empty_iff proof)

  introspect_context_returns :
      (e : Endpoint) (response : Response)
      → token ≢ []
      → audience ≢ []
      → proof ≢ []
      → length presenter ≡ public_key_size
      → web.url_parse (base_url ++ text "/v1/introspect") ≡ some e
      → is_endpoint e ≡ true
      → is_secure web e ≡ true
      → web.answer e.address (context_request token audience proof) ≡ some response
      → response.status ≡ 200
      → length response.body ≤ max_response
      → read_answer web response.body ≡ some (some true, some c)
      → is_bound web token audience presenter c ≡ true
      → has_class c ≡ true
      → has_subject c ≡ true
      → introspect_context web base_url token audience proof presenter ≡ ok c
  unfolding introspect_context
  introspect_context_returns e response t a q k url plain secure answered success small active bound
        class subject =
      ground (arith, is_empty_iff token, is_empty_iff audience, is_empty_iff proof)

  -- IntrospectContext returns the context c exactly when the token, the audience and the proof are
  -- set and the presenter's key has 32 bytes, the endpoint is plain and uses https, or http to a loopback
  -- address, the answer has status 200, at most 64 KiB, is active and holds c, and c speaks of this
  -- token, this key and this audience, names everything it must, has positive epochs, has not
  -- expired, has one of the three classes, and has a subject exactly as its identity type requires.
  pub introspect_context_iff :
      (introspect_context web base_url token audience proof presenter ≡ ok c) ↔ (
        (token ≢ [])
        × (audience ≢ [])
        × (proof ≢ [])
        × (length presenter ≡ public_key_size)
        × IsAnswered web base_url token audience proof c
        × IsBound web token audience presenter c
        × IsClassified c)
  introspect_context_iff = (
    λ h.
        let (
          (e, parsed, plain, secure, (response, answered, success, small, active)),
          t,
          a,
          q,
          k,
          bound,
          class,
          subject,
        ) =
          introspect_context_found h in
        (
          t,
          a,
          q,
          k,
          record {
            endpoint = e;
            response = response;
            parsed = parsed;
            plain = (is_endpoint_iff e).0 plain;
            secure = (is_secure_iff web e).0 secure;
            answered = answered;
            success = success;
            small = small;
            active = active;
          },
          is_bound_sound web token audience presenter c bound,
          record { class = (has_class_iff c).0 class; subject = (has_subject_iff c).0 subject },
        ),
    λ (t, a, q, k, r, bound, classified).
        introspect_context_returns r.endpoint r.response t a q k r.parsed
          ((is_endpoint_iff r.endpoint).1 r.plain) ((is_secure_iff web r.endpoint).1 r.secure)
          r.answered r.success r.small r.active
          (is_bound_complete web token audience presenter c bound)
          ((has_class_iff c).1 classified.class) ((has_subject_iff c).1 classified.subject),
  )
