-- ===== src/Sdk/Presentation/Conditions.antt =====
-- What IntrospectContext asks of a context.
use eidovela_open.Common.{pos, ◌≡◌, ◌≢◌, ◌↔◌, ◌⊎◌, true, false, [], ◌∷◌, ◌≤ℤ◌, ◌<ℤ◌, arith}
use eidovela_open.Text.{Text, text, is_empty}
use eidovela_open.Text.Laws.{text_eq_iff}
use eidovela_open.Sdk.Token.Keys.{thumbprint}
use eidovela_open.Sdk.Presentation.Blank.{is_blank}
use eidovela_open.Sdk.Presentation.{
  TokenContext, Web, token_hash_of, is_about, is_complete, is_current, is_bound, has_class,
  has_subject,
}

-- The context speaks of the token, the key and the audience, is complete, and has not expired.
pub record IsBound (web : Web) (token audience presenter : Text) (c : TokenContext) : Type 0 where
  pub schema_version : c.schema_version ≡ text "eidovela.token-context.v1"
  pub token_hash : c.token_hash ≡ token_hash_of web.platform token
  pub presenter_jkt : c.presenter_jkt ≡ thumbprint web.platform presenter
  pub audience' : c.audience ≡ audience
  pub namespace : c.namespace ≢ []
  pub issuer : c.issuer ≢ []
  pub agent_id : c.agent_id ≢ []
  pub agent_ref : c.agent_ref ≢ []
  pub registry_class : c.registry_class ≢ []
  pub instance_id : c.instance_id ≢ []
  pub agent_epoch : pos 1 ≤ℤ c.agent_epoch
  pub identity_epoch : pos 1 ≤ℤ c.identity_epoch
  pub alive : web.now <ℤ c.expires_at

-- The class is one of three, and a subject is there exactly for the identity types that have one.
pub record IsClassified (c : TokenContext) : Type 0 where
  pub class :
      (c.agent_class ≡ text "service")
      ⊎ ((c.agent_class ≡ text "twin") ⊎ (c.agent_class ≡ text "ephemeral"))
  pub subject :
      (((c.identity_type ≡ text "interactive") ⊎ (c.identity_type ≡ text "digitalEmployee"))
        × (is_blank c.subject_ref ≡ false))
      ⊎ ((c.identity_type ≡ text "autonomous") × (c.subject_ref ≡ []))

pub is_empty_iff : (s : Text) → (is_empty s ≡ false) ↔ (s ≢ [])
is_empty_iff [] = ground arith
is_empty_iff (c ∷ s) = ground arith

is_about_iff :
    (web : Web) (token audience presenter : Text) (c : TokenContext)
    → (is_about web token audience presenter c ≡ true) ↔ (
        (c.schema_version ≡ text "eidovela.token-context.v1")
        × (c.token_hash ≡ token_hash_of web.platform token)
        × (c.presenter_jkt ≡ thumbprint web.platform presenter)
        × (c.audience ≡ audience))
unfolding is_about
is_about_iff web token audience presenter c = ground (
  arith,
  text_eq_iff c.schema_version (text "eidovela.token-context.v1"),
  text_eq_iff c.token_hash (token_hash_of web.platform token),
  text_eq_iff c.presenter_jkt (thumbprint web.platform presenter),
  text_eq_iff c.audience audience,
)

is_complete_iff :
    (c : TokenContext)
    → (is_complete c ≡ true) ↔ (
        (c.namespace ≢ [])
        × (c.issuer ≢ [])
        × (c.agent_id ≢ [])
        × (c.agent_ref ≢ [])
        × (c.registry_class ≢ [])
        × (c.instance_id ≢ []))
unfolding is_complete
is_complete_iff c = ground (
  arith,
  is_empty_iff c.namespace,
  is_empty_iff c.issuer,
  is_empty_iff c.agent_id,
  is_empty_iff c.agent_ref,
  is_empty_iff c.registry_class,
  is_empty_iff c.instance_id,
)

is_current_iff :
    (web : Web) (c : TokenContext)
    → (is_current web c ≡ true)
      ↔ ((pos 1 ≤ℤ c.agent_epoch) × (pos 1 ≤ℤ c.identity_epoch) × (web.now <ℤ c.expires_at))
unfolding is_current
is_current_iff web c = ground arith

is_bound_iff :
    (web : Web) (token audience presenter : Text) (c : TokenContext)
    → (is_bound web token audience presenter c ≡ true) ↔ (
        (is_about web token audience presenter c ≡ true)
        × (is_complete c ≡ true)
        × (is_current web c ≡ true))
unfolding is_bound
is_bound_iff web token audience presenter c = ground arith

pub is_bound_sound :
    (web : Web) (token audience presenter : Text) (c : TokenContext)
    → is_bound web token audience presenter c ≡ true
    → IsBound web token audience presenter c
is_bound_sound web token audience presenter c h =
    let (about, complete, current) = (is_bound_iff web token audience presenter c).0 h in
    let (a1, a2, a3, a4) = (is_about_iff web token audience presenter c).0 about in
    let (b1, b2, b3, b4, b5, b6) = (is_complete_iff c).0 complete in
    let (c1, c2, c3) = (is_current_iff web c).0 current in
    record {
      schema_version = a1;
      token_hash = a2;
      presenter_jkt = a3;
      audience' = a4;
      namespace = b1;
      issuer = b2;
      agent_id = b3;
      agent_ref = b4;
      registry_class = b5;
      instance_id = b6;
      agent_epoch = c1;
      identity_epoch = c2;
      alive = c3;
    }

pub is_bound_complete :
    (web : Web) (token audience presenter : Text) (c : TokenContext)
    → IsBound web token audience presenter c
    → is_bound web token audience presenter c ≡ true
is_bound_complete web token audience presenter c h =
    (is_bound_iff web token audience presenter c).1 (
      (is_about_iff web token audience presenter c).1
          (h.schema_version, h.token_hash, h.presenter_jkt, h.audience'),
      (is_complete_iff c).1
          (h.namespace, h.issuer, h.agent_id, h.agent_ref, h.registry_class, h.instance_id),
      (is_current_iff web c).1 (h.agent_epoch, h.identity_epoch, h.alive),
    )

pub has_class_iff :
    (c : TokenContext)
    → (has_class c ≡ true) ↔ (
        (c.agent_class ≡ text "service")
        ⊎ ((c.agent_class ≡ text "twin") ⊎ (c.agent_class ≡ text "ephemeral")))
unfolding has_class
has_class_iff c = ground (
  arith,
  text_eq_iff c.agent_class (text "service"),
  text_eq_iff c.agent_class (text "twin"),
  text_eq_iff c.agent_class (text "ephemeral"),
)

pub has_subject_iff :
    (c : TokenContext)
    → (has_subject c ≡ true) ↔ (
        (((c.identity_type ≡ text "interactive") ⊎ (c.identity_type ≡ text "digitalEmployee"))
          × (is_blank c.subject_ref ≡ false))
        ⊎ ((c.identity_type ≡ text "autonomous") × (c.subject_ref ≡ [])))
unfolding has_subject
has_subject_iff c = ground (
  arith,
  text_eq_iff c.identity_type (text "interactive"),
  text_eq_iff c.identity_type (text "digitalEmployee"),
  text_eq_iff c.identity_type (text "autonomous"),
  is_empty_iff c.subject_ref,
)
