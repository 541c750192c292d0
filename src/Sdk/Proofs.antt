-- ===== src/Sdk/Proofs.antt =====
-- The proofs that a client signs: sign, enrollmentProof and tokenProof of sdk/go/eidovela/v3/client.go,
-- and the same text in sdk/go/eidovela/client.go. They run a minute.
pub mod Laws
use eidovela_open.Common.{
  ◌*◌, ◌^◌, ℤ, [], ◌∷◌, ◌++◌, List, Option, none, some, Result, ok, ◌>>=◌, require, unix, add_ℕ,
}
use eidovela_open.Text.{Text, text}
use eidovela_open.Base64
use eidovela_open.Json.{Value, string, int64, object, Claims, members}
use eidovela_open.Platform.{Platform}
use eidovela_open.Sdk.Http.{ClientError, no_randomness}

abbrev pub proof_header : Value
proof_header =
    object (members ((text "alg", string (text "EdDSA")) ∷ (text "typ", string (text "JWT")) ∷ []))

unfoldable pub sign : Platform → Text → Claims → Text
sign p private claims =
    let header = Base64.encode (p.json_marshal proof_header) in
    let payload = Base64.encode (p.json_marshal (object (members claims))) in
    let input = header ++ (b'.' ∷ payload) in
    input ++ (b'.' ∷ Base64.encode (p.ed25519_sign private input))

-- time.Now().Add(time.Minute).Unix()
abbrev pub minute_later : ℤ → ℤ
minute_later now = unix (add_ℕ now (60 * 10 ^ 9))

unfoldable pub enrollment_claims : ℤ → Text → Text → Text → Claims
enrollment_claims now agent_id enrollment_id nonce =
    (text "iss", string agent_id)
    ∷ (text "sub", string agent_id)
    ∷ (text "aud", string (text "eidovela:enroll"))
    ∷ (text "jti", string enrollment_id)
    ∷ (text "nonce", string nonce)
    ∷ (text "exp", int64 (minute_later now))
    ∷ []

unfoldable pub enrollment_proof : Platform → ℤ → Text → Text → Text → Text → Text
enrollment_proof p now agent_id enrollment_id nonce private =
    sign p private (enrollment_claims now agent_id enrollment_id nonce)

unfoldable pub token_claims : ℤ → Text → Text → Text → Claims
token_claims now random agent_id instance_id =
    (text "iss", string agent_id)
    ∷ (text "sub", string instance_id)
    ∷ (text "aud", string (text "eidovela:token"))
    ∷ (text "jti", string (Base64.encode random))
    ∷ (text "exp", int64 (minute_later now))
    ∷ []

-- Over sixteen random bytes, or none where the system has none
unfoldable pub token_proof :
    Platform → ℤ → Option Text → Text → Text → Text → Result ClientError Text
token_proof p now random agent_id instance_id private = do
  jti ← require random no_randomness
  ok (sign p private (token_claims now jti agent_id instance_id))
