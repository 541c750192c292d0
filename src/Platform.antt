-- ===== src/Platform.antt =====
-- What the program calls and this repository does not implement: the cryptography and the text formats
-- of Go's library (JSON, RFC 3339), a float64 conversion that depends on the platform, and a peer's answer to
-- an HTTP request. Each theorem that relies on their behaviour names it as a hypothesis.
use eidovela_open.Common.{ℕ, ℤ, Bool, Option}
use eidovela_open.Text.{Text}
use eidovela_open.Json.{Value, Float64}

pub record Platform : Type 0 where
  -- crypto/sha256.Sum256
  pub sha256 : Text → Text
  -- crypto/ed25519: Verify(public, message, signature), Sign(private, message), Public()
  pub ed25519_verify : Text → Text → Text → Bool
  pub ed25519_sign : Text → Text → Text
  pub ed25519_public : Text → Text
  -- encoding/json: the document that a whole text holds, the first document of a stream, with its
  -- numbers as they are written, and the text of a document
  pub json_unmarshal : Text → Option Value
  pub json_decode : Text → Option Value
  pub json_marshal : Value → Text
  -- the message of the decoder's error
  pub json_error : Text → Text
  -- time.Parse and Time.Format at time.RFC3339, for times in nanoseconds since 1970
  pub parse_rfc3339 : Text → Option ℤ
  pub format_rfc3339 : ℤ → Text
  -- int64(f) for a float64 out of range
  pub int64_overflow : Float64 → ℤ

-- An HTTP response as the program reads it; a request with none failed in transport.
pub record Response : Type 0 where
  pub status : ℕ
  pub body : Text
