-- ===== src/Sdk/Proofs/Laws.antt =====
-- What a client signs: the service that reads the request can check the proof under the key beside it.
use mathlib.Core.List.{append_assoc}
use eidovela_open.Common.{◌≡◌, refl, true, [], ◌∷◌, ◌++◌, Option, none, some, ℤ, List, Result, ok}
use eidovela_open.Text.{Text, text, text_eq}
use eidovela_open.Base64
use eidovela_open.Base64.RoundTrip.{decode-encode, encode-Lacks_dot}
use eidovela_open.Json.{Claims, int64, object, members, string, get, entries}
use eidovela_open.Json.Struct.{string_field, struct_members, names_field}
use eidovela_open.Platform.{Platform}
use eidovela_open.Runner.Peers.KeySet.{IsFaithful}
use eidovela_open.Sdk.Token.{Segments}
use eidovela_open.Sdk.Token.Form.{HasForm}
use eidovela_open.Sdk.Token.Keys.{Jwk, to_jwk, jwk_from_public}
use eidovela_open.Sdk.Presentation.Proof.{jwk_json}
use eidovela_open.Sdk.Wire.RoundTrip.{entries-members}
use eidovela_open.Sdk.Http.{Net, ClientError, Operation, posting}
use eidovela_open.Sdk.Proofs.{
  proof_header, minute_later, sign, enrollment_claims, enrollment_proof, token_claims, token_proof,
}
use eidovela_open.Sdk.V3.Client.Enrollment as V3
use eidovela_open.Sdk.V3.Types.Enrollment as V3Types
use eidovela_open.Sdk.V2.Client.Enrollment as V2
use eidovela_open.Sdk.V2.Types.Instances as V2Types

-- The proof has three segments, the second holds the claims, and the third a signature of the first two
-- that verifies under the key.
abbrev pub Proves : Platform → Text → Text → Claims → Type 0
Proves p proof public claims =
    (s : Segments) × HasForm proof s
    × (Base64.decode s.header ≡ some (p.json_marshal proof_header))
    × (Base64.decode s.payload ≡ some (p.json_marshal (object (members claims))))
    × ((signature : Text) × (Base64.decode s.signature ≡ some signature)
        × (p.ed25519_verify public (s.header ++ (b'.' ∷ s.payload)) signature ≡ true))

sign-Proves :
    (p : Platform) (laws : IsFaithful p) (private : Text) (claims : Claims)
    → Proves p (sign p private claims) (p.ed25519_public private) claims
unfolding sign
sign-Proves p laws private claims =
    let header = Base64.encode (p.json_marshal proof_header) in
    let payload = Base64.encode (p.json_marshal (object (members claims))) in
    let signature = p.ed25519_sign private (header ++ (b'.' ∷ payload)) in
    (
      record { header = header; payload = payload; signature = Base64.encode signature },
      (
        append_assoc header (b'.' ∷ payload) (b'.' ∷ Base64.encode signature),
        encode-Lacks_dot _ (laws.marshal_bytes proof_header),
        encode-Lacks_dot _ (laws.marshal_bytes (object (members claims))),
        encode-Lacks_dot _ (laws.signature_bytes private (header ++ (b'.' ∷ payload))),
      ),
      decode-encode _ (laws.marshal_bytes proof_header),
      decode-encode _ (laws.marshal_bytes (object (members claims))),
      (
        signature,
        decode-encode _ (laws.signature_bytes private (header ++ (b'.' ∷ payload))),
        laws.signs private (header ++ (b'.' ∷ payload)),
      ),
    )

-- The members of a request name a key and a proof that the key verifies, with these claims.
pub record IsProved (p : Platform) (key_name proof_name : Text) (body claims : Claims)
    : Type 0 where
  pub jwk : Jwk
  pub public : Text
  pub proof : Text
  pub key_there : to_jwk (get body key_name) ≡ some jwk
  pub key_read : Base64.decode jwk.x ≡ some public
  pub proof_there : get body proof_name ≡ string proof
  pub proves : Proves p proof public claims

public_jwk-back :
    (p : Platform) (private : Text)
    → to_jwk (jwk_json (jwk_from_public (p.ed25519_public private) []))
      ≡ some (jwk_from_public (p.ed25519_public private) [])
unfolding to_jwk jwk_json jwk_from_public string_field struct_members names_field
public_jwk-back p private = refl

IsProved-of :
    (p : Platform) (laws : IsFaithful p) (private : Text) (claims body : Claims)
    (key_name proof_name : Text)
    → get body key_name ≡ jwk_json (jwk_from_public (p.ed25519_public private) [])
    → get body proof_name ≡ string (sign p private claims)
    → IsProved p key_name proof_name body claims
unfolding jwk_from_public
IsProved-of p laws private claims body key_name proof_name k e = record {
  jwk = jwk_from_public (p.ed25519_public private) [];
  public = p.ed25519_public private;
  proof = sign p private claims;
  key_there = rw k (public_jwk-back p private);
  key_read = decode-encode _ (laws.public_bytes private);
  proof_there = e;
  proves = sign-Proves p laws private claims;
}

module _ (net : Net) (laws : IsFaithful net.platform) (now : ℤ) (private : Text) where
  completion-V3 :
      (runtime workload_id digest : Text) (attributes : Option (List (Text × Text)))
      (c : V3Types.Challenge) (attestation : Option V3Types.WorkloadAttestation)
      → IsProved net.platform
          (text "publicKey")
          (text "proofJwt")
          (V3.completion net now c private runtime workload_id digest attributes attestation)
          (enrollment_claims now c.agent_id c.enrollment_id c.nonce)
  unfolding V3.completion get text_eq enrollment_proof
  completion-V3 runtime workload_id digest attributes c none =
      IsProved-of net.platform laws private _ _ _ _ refl refl
  completion-V3 runtime workload_id digest attributes c (some a) =
      IsProved-of net.platform laws private _ _ _ _ refl refl

  completion-V2 :
      (runtime workload_id digest : Text) (attributes : Option (List (Text × Text)))
      (c : V2Types.Challenge) (attestation : Option V2Types.WorkloadAttestation)
      → IsProved net.platform
          (text "public_key")
          (text "proof_jwt")
          (V2.completion net now c private runtime workload_id digest attributes attestation)
          (enrollment_claims now c.agent_id c.id c.nonce)
  unfolding V2.completion get text_eq enrollment_proof
  completion-V2 runtime workload_id digest attributes c none =
      IsProved-of net.platform laws private _ _ _ _ refl refl
  completion-V2 runtime workload_id digest attributes c (some a) =
      IsProved-of net.platform laws private _ _ _ _ refl refl

  enrollment_id-V3 :
      (runtime workload_id digest : Text) (attributes : Option (List (Text × Text)))
      (c : V3Types.Challenge) (attestation : Option V3Types.WorkloadAttestation)
      → get
          (V3.completion net now c private runtime workload_id digest attributes attestation)
          (text "enrollmentId")
        ≡ string c.enrollment_id
  unfolding V3.completion get text_eq
  enrollment_id-V3 runtime workload_id digest attributes c none = refl
  enrollment_id-V3 runtime workload_id digest attributes c (some a) = refl

  enrollment_id-V2 :
      (runtime workload_id digest : Text) (attributes : Option (List (Text × Text)))
      (c : V2Types.Challenge) (attestation : Option V2Types.WorkloadAttestation)
      → get
          (V2.completion net now c private runtime workload_id digest attributes attestation)
          (text "enrollment_id")
        ≡ string c.id
  unfolding V2.completion get text_eq
  enrollment_id-V2 runtime workload_id digest attributes c none = refl
  enrollment_id-V2 runtime workload_id digest attributes c (some a) = refl

-- The body that an operation posts
abbrev pub Posts : {A : Type 0} → Result ClientError (Operation A) → Text → Claims → Type 0
Posts (ok (posting path' (some (object ms)) read)) path body = (path' ≡ path) × (entries ms ≡ body)
Posts _ path body = ⊥

-- What the proof of an enrollment says: for which agent it stands, the enrollment, and the nonce
abbrev pub Introduces : ℤ → Text → Text → Text → Claims → Type 0
Introduces now agent_id enrollment_id nonce claims =
    (get claims (text "iss") ≡ string agent_id)
    × (get claims (text "sub") ≡ string agent_id)
    × (get claims (text "aud") ≡ string (text "eidovela:enroll"))
    × (get claims (text "jti") ≡ string enrollment_id)
    × (get claims (text "nonce") ≡ string nonce)
    × (get claims (text "exp") ≡ int64 (minute_later now))

-- What the proof for a token says: which agent and instance asks, with the random bytes
abbrev pub Asks : ℤ → Text → Text → Text → Claims → Type 0
Asks now random agent_id instance_id claims =
    (get claims (text "iss") ≡ string agent_id)
    × (get claims (text "sub") ≡ string instance_id)
    × (get claims (text "aud") ≡ string (text "eidovela:token"))
    × (get claims (text "jti") ≡ string (Base64.encode random))
    × (get claims (text "exp") ≡ int64 (minute_later now))

Introduces-enrollment_claims :
    (now : ℤ) (agent_id enrollment_id nonce : Text)
    → Introduces now agent_id enrollment_id nonce
        (enrollment_claims now agent_id enrollment_id nonce)
unfolding enrollment_claims get text_eq
Introduces-enrollment_claims now agent_id enrollment_id nonce = (refl, refl, refl, refl, refl, refl)

Asks-token_claims :
    (now : ℤ) (random agent_id instance_id : Text)
    → Asks now random agent_id instance_id (token_claims now random agent_id instance_id)
unfolding token_claims get text_eq
Asks-token_claims now random agent_id instance_id = (refl, refl, refl, refl, refl)

-- Token of either package, where the system gives random bytes and the cryptography behaves as documented,
-- posts a key and a proof to the token endpoint. The proof verifies under the key; it names the agent, the
-- instance, the endpoint's audience and the random bytes, and it runs a minute.
pub token-IsProved :
    (net : Net)
    → IsFaithful net.platform
    → (now : ℤ) (random agent_id instance_id audience private : Text)
    → ((body claims : Claims) × Posts
          (V3.token net now (some random) agent_id instance_id audience private)
          (text "/oauth2/token")
          body
        × IsProved net.platform (text "publicKey") (text "proofJwt") body claims
        × Asks now random agent_id instance_id claims)
      × ((body claims : Claims) × Posts
            (V2.token net now (some random) agent_id instance_id audience private)
            (text "/oauth2/token")
            body
          × IsProved net.platform (text "public_key") (text "proof_jwt") body claims
          × Asks now random agent_id instance_id claims)
unfolding V3.token V2.token token_proof get text_eq
token-IsProved net laws now random agent_id instance_id audience private = (
  (
    _,
    token_claims now random agent_id instance_id,
    (refl, refl),
    IsProved-of net.platform laws private _ _ _ _ refl refl,
    Asks-token_claims now random agent_id instance_id,
  ),
  (
    _,
    token_claims now random agent_id instance_id,
    (refl, refl),
    IsProved-of net.platform laws private _ _ _ _ refl refl,
    Asks-token_claims now random agent_id instance_id,
  ),
)

-- CompleteEnrollmentWithAttestation of either package, where the cryptography behaves as documented, posts
-- to the endpoint of completions the challenge's id, a key and a proof. The proof verifies under the key; it
-- names the challenge's agent, id and nonce and the audience of an enrollment, and it runs a minute.
pub completion-IsProved :
    (net : Net)
    → IsFaithful net.platform
    → (now : ℤ) (private runtime workload_id digest : Text)
      (attributes : Option (List (Text × Text))) (c : V3Types.Challenge)
      (attestation : Option V3Types.WorkloadAttestation) (d : V2Types.Challenge)
      (attestation' : Option V2Types.WorkloadAttestation)
    → ((body claims : Claims) × Posts
          (ok (
            V3.complete_enrollment_with_attestation net now c private runtime workload_id digest
              attributes attestation))
          (text "/v1/enrollments/complete")
          body
        × (get body (text "enrollmentId") ≡ string c.enrollment_id)
        × IsProved net.platform (text "publicKey") (text "proofJwt") body claims
        × Introduces now c.agent_id c.enrollment_id c.nonce claims)
      × ((body claims : Claims) × Posts
            (ok (
              V2.complete_enrollment_with_attestation net now d private runtime workload_id digest
                attributes attestation'))
            (text "/v1/enrollments/complete")
            body
          × (get body (text "enrollment_id") ≡ string d.id)
          × IsProved net.platform (text "public_key") (text "proof_jwt") body claims
          × Introduces now d.agent_id d.id d.nonce claims)
unfolding V3.complete_enrollment_with_attestation V2.complete_enrollment_with_attestation
completion-IsProved net laws now private runtime workload_id digest attributes c a d b = (
  (
    V3.completion net now c private runtime workload_id digest attributes a,
    enrollment_claims now c.agent_id c.enrollment_id c.nonce,
    (refl, entries-members _),
    enrollment_id-V3 net laws now private runtime workload_id digest attributes c a,
    completion-V3 net laws now private runtime workload_id digest attributes c a,
    Introduces-enrollment_claims now c.agent_id c.enrollment_id c.nonce,
  ),
  (
    V2.completion net now d private runtime workload_id digest attributes b,
    enrollment_claims now d.agent_id d.id d.nonce,
    (refl, entries-members _),
    enrollment_id-V2 net laws now private runtime workload_id digest attributes d b,
    completion-V2 net laws now private runtime workload_id digest attributes d b,
    Introduces-enrollment_claims now d.agent_id d.id d.nonce,
  ),
)
