-- ===== src/Runner/Executor/Proofs.antt =====
-- The proofs that the runner signs and the attestations that it makes: jwk, sign, enrollmentProof,
-- tokenProof, k8sToken and buildAttestation of conformance/runner/executor.go, and parseSPIFFE of
-- conformance/runner/spiffe.go.
use eidovela_open.Common.{
  unix, Bool, true, false, not, ◌||◌, List, [], ◌∷◌, ◌++◌, Option, none, some, Result, ok, err,
  require, add_ℕ, if◌then◌else◌,
}
use eidovela_open.Text.{Text, text, text_eq, is_empty, has_prefix}
use eidovela_open.Base64
use eidovela_open.Json.{Value, string, int64, object, Claims, members}
use eidovela_open.Platform.{Platform}
use eidovela_open.Runner.Executor.{
  Env, Attest, Url, Failure, unmet, unparsed, certificate_failed, Action, ◌>>=◌, pure, fail, lift,
  or_default, seconds,
}

-- jwk
unfoldable pub jwk : Text → Value
jwk pub' = object (
    members (
      (text "kty", string (text "OKP"))
      ∷ (text "crv", string (text "Ed25519"))
      ∷ (text "x", string (Base64.encode pub'))
      ∷ []))

-- sign
unfoldable pub sign_claims : Platform → Text → Claims → Text
sign_claims p priv claims =
    let header = Base64.encode (
      p.json_marshal (
        object (
          members
            ((text "alg", string (text "EdDSA")) ∷ (text "typ", string (text "JWT")) ∷ [])))) in
    let input = header ++ (b'.' ∷ Base64.encode (p.json_marshal (object (members claims)))) in
    input ++ (b'.' ∷ Base64.encode (p.ed25519_sign priv input))

-- enrollmentProof
unfoldable pub enrollment_proof : {D : Type 0} → Env D → Text → Text → Text → Text → Text
enrollment_proof env agent_id challenge_id nonce priv = sign_claims env.platform priv (
    (text "iss", string agent_id)
    ∷ (text "sub", string agent_id)
    ∷ (text "aud", string (text "eidovela:enroll"))
    ∷ (text "jti", string challenge_id)
    ∷ (text "nonce", string nonce)
    ∷ (text "exp", int64 (unix (add_ℕ env.now (seconds 60))))
    ∷ [])

-- tokenProof
unfoldable pub token_proof : {D : Type 0} → Env D → Text → Text → Text → Text
token_proof env agent_id instance_id priv = sign_claims env.platform priv (
    (text "iss", string agent_id)
    ∷ (text "sub", string instance_id)
    ∷ (text "aud", string (text "eidovela:token"))
    ∷ (text "jti", string (Base64.encode env.random))
    ∷ (text "exp", int64 (unix (add_ℕ env.now (seconds 60))))
    ∷ [])

-- k8sToken
unfoldable pub k8s_token : {D : Type 0} → Env D → Attest → Text → Text
k8s_token env att priv = sign_claims env.platform priv (
    (text "iss", string (or_default att.kubernetes_issuer (text "https://kubernetes.example.test")))
    ∷ (text "aud", string (text "eidovela"))
    ∷ (
      text "sub",
      string (or_default att.kubernetes_subject (text "system:serviceaccount:default:agent")),
    )
    ∷ (text "exp", int64 (unix (add_ℕ env.now (seconds 600))))
    ∷ [])

-- parseSPIFFE
unfoldable pub parse_spiffe : (Text → Option Url) → Text → Result Failure Url
parse_spiffe url_parse raw = elim (url_parse raw) [
  | none ↦ err unparsed
  | some u ↦
      if not (text_eq u.scheme (text "spiffe"))
        || is_empty u.host
        || u.has_user
        || not (is_empty u.port)
        || not (is_empty u.raw_query)
        || not (is_empty u.fragment)
      then err (unmet (text "runner: malformed SPIFFE ID"))
      else if not (has_prefix u.path (text "/")) || text_eq u.path (text "/")
      then err (unmet (text "runner: SPIFFE ID must carry a non-empty path"))
      else ok u
]

-- selfSignedPEM
unfoldable pub self_signed_pem : {D : Type 0} → Env D → Text → List Text → Bool → Option Text
self_signed_pem env cn dns client_auth =
    env.certificate
      (record { common_name = cn; dns_names = dns; client_auth = client_auth; uris = [] })

-- selfSignedPEMWithURI
unfoldable pub self_signed_pem_with_uri : {D : Type 0} → Env D → Text → Result Failure Text
self_signed_pem_with_uri env spiffe_id = elim (parse_spiffe env.url_parse spiffe_id) [
  | err e ↦ err e
  | ok u ↦
      require
        (env.certificate
          (record { common_name = u.host; dns_names = []; client_auth = false; uris = u ∷ [] }))
        certificate_failed
]

abbrev pub returned : {D A : Type 0} → Result Failure A → Action D A
returned (ok a) = pure a
returned (err e) = fail e

abbrev attested : Text → Text → Text → Option Value
attested method name value =
    some (object (members ((text "method", string method) ∷ (name, string value) ∷ [])))

-- buildAttestation
unfoldable pub build_attestation :
    {D : Type 0} → Env D → Option Attest → Text → Action D (Option Value)
build_attestation env none priv = pure none
build_attestation env (some att) priv =
    if text_eq att.method (text "private_key_jwt")
    then pure none
    else if text_eq att.method (text "mtls")
    then (do
      pem ← lift (self_signed_pem env att.subject_cn att.dns_names true) certificate_failed
      pure (attested (text "mtls") (text "certificatePem") pem))
    else if text_eq att.method (text "spiffe_svid")
    then (do
      pem ← lift (self_signed_pem env att.subject_cn att.dns_names false) certificate_failed
      pem' ←
          (if is_empty att.spiffe_id
            then pure pem
            else returned (self_signed_pem_with_uri env att.spiffe_id))
      pure (attested (text "spiffe_svid") (text "certificatePem") pem'))
    else if text_eq att.method (text "k8s_projected_sa")
    then pure (attested (text "k8s_projected_sa") (text "token") (k8s_token env att priv))
    else fail (unmet (text "unsupported attestation method"))
