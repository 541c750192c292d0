-- ===== src/Runner/Peers.antt =====
-- The federated peer of the conformance runner: an issuer with its signing keys, which serves their
-- public halves and signs tokens (conformance/runner/peers.go). Go leaves the order in which a map is
-- walked open; the list of keys stands for any order.
pub mod KeySet
pub mod RoundTrip
use eidovela_open.Common.{
  ℕ, Bool, List, [], ◌∷◌, ◌++◌, map, Option, none, some, Result, ok, err, ◌>>=◌, require,
  if◌then◌else◌,
}
use eidovela_open.Text.{Text, text, text_eq}
use eidovela_open.Base64
use eidovela_open.Json.{Value, null, string, array, object, Claims, members, values}
use eidovela_open.Platform.{Platform, Response}

-- Keys are named by their ids; the halves kept are the private ones.
pub record PeerIssuer : Type 0 where
  pub url : Text
  pub keys : List (Text × Text)

-- newPeerIssuer, from the address of its server and a generated key
unfoldable pub new_peer_issuer : Text → Text → PeerIssuer
new_peer_issuer url priv = record { url = url; keys = (text "peer-1", priv) ∷ [] }

unfoldable pub jwks_uri : PeerIssuer → Text
jwks_uri peer = peer.url ++ text "/jwks.json"

-- One entry of the key set.
unfoldable pub key_entry : Platform → Text × Text → Value
key_entry p (kid, priv) = object (
    members (
      (text "kty", string (text "OKP"))
      ∷ (text "crv", string (text "Ed25519"))
      ∷ (text "x", string (Base64.encode (p.ed25519_public priv)))
      ∷ (text "kid", string kid)
      ∷ (text "alg", string (text "EdDSA"))
      ∷ (text "use", string (text "sig"))
      ∷ []))

-- A nil slice is written as null.
abbrev pub items : List Value → Value
items [] = null
items (v ∷ vs) = array (values (v ∷ vs))

unfoldable pub key_set : Platform → PeerIssuer → Value
key_set p peer = object (members ((text "keys", items (map (key_entry p) peer.keys)) ∷ []))

-- serveJWKS; the encoder ends the document by a line end. The body of the refusal is http.NotFound's.
unfoldable pub serve_jwks : Platform → PeerIssuer → Text → Response
serve_jwks p peer path =
    if text_eq path (text "/jwks.json")
    then record { status = 200; body = p.json_marshal (key_set p peer) ++ text "\n" }
    else record { status = 404; body = text "404 page not found\n" }

-- `p.keys[kid]`
unfoldable pub find_key : List (Text × Text) → Text → Option Text
find_key [] kid = none
find_key ((name, priv) ∷ keys) kid =
    let later = find_key keys kid in if text_eq name kid then some priv else later

unfoldable pub token_header : Text → Value
token_header kid = object (
    members (
      (text "alg", string (text "EdDSA"))
      ∷ (text "kid", string kid)
      ∷ (text "typ", string (text "JWT"))
      ∷ []))

unfoldable pub sign_with_kid : Platform → Text → Text → Claims → Text
sign_with_kid p priv kid claims =
    let header = Base64.encode (p.json_marshal (token_header kid)) in
    let payload = Base64.encode (p.json_marshal (object (members claims))) in
    let input = header ++ (b'.' ∷ payload) in
    input ++ (b'.' ∷ Base64.encode (p.ed25519_sign priv input))

pub data PeerError : Type 0 where
  unknown_peer_key : Text → PeerError

-- Sign
unfoldable pub sign : Platform → PeerIssuer → Text → Claims → Result PeerError Text
sign p peer kid claims = do
  priv ← require (find_key peer.keys kid) (unknown_peer_key kid)
  ok (sign_with_kid p priv kid claims)
