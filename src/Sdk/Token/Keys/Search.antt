-- ===== src/Sdk/Token/Keys/Search.antt =====
-- Which key the loop of Verify over the key set finds.
use eidovela_open.Common.{
  ◌≡◌, ◌↔◌, inl, inr, refl, ap, List, [], ◌∷◌, ◌++◌, none, some, length, arith, Option-cases, All,
}
use eidovela_open.Text.{Text, text}
use eidovela_open.Text.Laws.{text_eq_iff}
use eidovela_open.Base64
use eidovela_open.Sdk.Token.Keys.{Jwk, usable_key, select_key, public_key_size}

-- The key is offered by the first entry of the key set that offers one for the key id.
pub record IsChosen (keys : List Jwk) (kid public : Text) : Type 0 where
  pub before : List Jwk
  pub key : Jwk
  pub after : List Jwk
  pub among : keys ≡ before ++ (key ∷ after)
  pub passed : All (λ k. usable_key kid k ≡ none) before
  pub named : key.kid ≡ kid
  pub kty : key.kty ≡ text "OKP"
  pub crv : key.crv ≡ text "Ed25519"
  pub decoded : Base64.decode key.x ≡ some public
  pub sized : length public ≡ public_key_size

usable_key_iff :
    (kid : Text) (key : Jwk) (public : Text)
    → (usable_key kid key ≡ some public) ↔ (
        (key.kid ≡ kid)
        × (key.kty ≡ text "OKP")
        × (key.crv ≡ text "Ed25519")
        × (Base64.decode key.x ≡ some public)
        × (length public ≡ public_key_size))
unfolding usable_key
usable_key_iff kid key public = ground (
  arith,
  text_eq_iff key.kid kid,
  text_eq_iff key.kty (text "OKP"),
  text_eq_iff key.crv (text "Ed25519"),
)

select_key-append :
    (before : List Jwk) (key : Jwk) (after : List Jwk) (kid public : Text)
    → All (λ k. usable_key kid k ≡ none) before
    → usable_key kid key ≡ some public
    → select_key (before ++ (key ∷ after)) kid ≡ some public
unfolding select_key
select_key-append [] key after kid public h e = rw (e, select_key)
select_key-append (k ∷ before) key after kid public (n, h) e =
    rw (n, select_key) (select_key-append before key after kid public h e)

select_key_sound :
    (keys : List Jwk) (kid public : Text)
    → select_key keys kid ≡ some public
    → IsChosen keys kid public
unfolding select_key
select_key_sound [] kid public h = cc
select_key_sound (key ∷ keys) kid public h = elim (Option-cases (usable_key kid key)) [
  | inl e ↦
      let later = select_key_sound keys kid public (rw (e, select_key) at h) in
      record {
        before = key ∷ later.before;
        key = later.key;
        after = later.after;
        among = ap (λ ks. key ∷ ks) later.among;
        passed = (e, later.passed);
        named = later.named;
        kty = later.kty;
        crv = later.crv;
        decoded = later.decoded;
        sized = later.sized;
      }
  | inr (k, e) ↦
      let offered : usable_key kid key ≡ some public = ground arith in
      let (named, kty, crv, decoded, sized) = (usable_key_iff kid key public).0 offered in
      record {
        before = [];
        key = key;
        after = keys;
        among = refl;
        passed = tt;
        named = named;
        kty = kty;
        crv = crv;
        decoded = decoded;
        sized = sized;
      }
]

-- The search of Verify finds a key exactly when the first entry of the key set that offers a key for the
-- key id offers it: an entry with this key id, of type OKP and curve Ed25519, that decodes to 32 bytes.
pub select_key_iff :
    (keys : List Jwk) (kid public : Text)
    → (select_key keys kid ≡ some public) ↔ IsChosen keys kid public
select_key_iff keys kid public = (
  select_key_sound keys kid public,
  λ c. rw c.among (
      select_key-append c.before c.key c.after kid public c.passed
        ((usable_key_iff kid c.key public).1 (c.named, c.kty, c.crv, c.decoded, c.sized))),
)
