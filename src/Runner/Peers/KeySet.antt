-- ===== src/Runner/Peers/KeySet.antt =====
-- The key set that the peer serves, as the SDK reads it.
use eidovela_open.Common.{
  ◌≡◌, refl, true, List, [], ◌∷◌, map, none, some, length, arith, if◌then◌else◌,
}
use eidovela_open.Text.{Text, text, text_eq}
use eidovela_open.Base64.RoundTrip.{IsBytes, decode-encode}
use eidovela_open.Json.{Value, members, values, elements, object}
use eidovela_open.Json.Struct.{string_field, struct_members, names_field}
use eidovela_open.Platform.{Platform}
use eidovela_open.Sdk.Token.Keys.{
  Jwk, to_jwk, to_jwks, decode_jwks, usable_key, select_key, public_key_size, jwk_from_public,
}
use eidovela_open.Runner.Peers.{PeerIssuer, key_entry, key_set, find_key, items}

-- The documented behaviour of the cryptography and of the JSON encoder: a public key has 32 bytes, a
-- signature verifies under the public half of its key, and what these and the encoder make are bytes.
pub record IsFaithful (p : Platform) : Type 0 where
  pub signs :
      (priv message : Text)
      → p.ed25519_verify (p.ed25519_public priv) message (p.ed25519_sign priv message) ≡ true
  pub signature_bytes : (priv message : Text) → IsBytes (p.ed25519_sign priv message)
  pub public_bytes : (priv : Text) → IsBytes (p.ed25519_public priv)
  pub public_size : (priv : Text) → length (p.ed25519_public priv) ≡ public_key_size
  pub marshal_bytes : (v : Value) → IsBytes (p.json_marshal v)

-- The JWK of one key.
abbrev pub served_jwk : Platform → Text × Text → Jwk
served_jwk p (kid, priv) = jwk_from_public (p.ed25519_public priv) kid

to_jwk-key_entry : (p : Platform) (k : Text × Text) → to_jwk (key_entry p k) ≡ some (served_jwk p k)
unfolding to_jwk key_entry string_field struct_members names_field jwk_from_public
to_jwk-key_entry p (kid, priv) = refl

to_jwks-key_entry :
    (p : Platform) (keys : List (Text × Text))
    → to_jwks (elements (values (map (key_entry p) keys))) ≡ some (map (served_jwk p) keys)
unfolding to_jwks
to_jwks-key_entry p [] = refl
to_jwks-key_entry p (k ∷ keys) = rw (to_jwk-key_entry p k, to_jwks-key_entry p keys)

decode_keys :
    (p : Platform) (keys : List (Text × Text))
    → decode_jwks (object (members ((text "keys", items (map (key_entry p) keys)) ∷ [])))
      ≡ some (map (served_jwk p) keys)
unfolding decode_jwks struct_members names_field
decode_keys p [] = refl
decode_keys p (k ∷ keys) = rw (to_jwks-key_entry p (k ∷ keys))

-- The SDK reads the served document as the keys' JWKs.
pub decode_jwks-key_set :
    (p : Platform) (peer : PeerIssuer)
    → decode_jwks (key_set p peer) ≡ some (map (served_jwk p) peer.keys)
unfolding key_set
decode_jwks-key_set p peer = decode_keys p peer.keys

usable_key-served :
    (p : Platform) (laws : IsFaithful p) (kid name priv : Text)
    → usable_key kid (served_jwk p (name, priv))
      ≡ (if text_eq name kid then some (p.ed25519_public priv) else none)
unfolding usable_key jwk_from_public text_eq
usable_key-served p laws kid name priv =
    ground
      (arith, decode-encode (p.ed25519_public priv) (laws.public_bytes priv), laws.public_size priv)

-- The SDK finds in them the public half of the key that the peer signs with.
pub select_key-served :
    (p : Platform) (laws : IsFaithful p) (keys : List (Text × Text)) (kid priv : Text)
    → find_key keys kid ≡ some priv
    → select_key (map (served_jwk p) keys) kid ≡ some (p.ed25519_public priv)
unfolding find_key select_key
select_key-served p laws [] kid priv h = cc
select_key-served p laws ((name, k) ∷ keys) kid priv h =
    ground (arith, usable_key-served p laws kid name k, select_key-served p laws keys kid priv)
