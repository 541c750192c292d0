-- ===== src/Sdk/Token/Claims/Audience.antt =====
-- What audienceContains tests.
use eidovela_open.Common.{◌≡◌, ◌↔◌, ◌⊎◌, inl, inr, refl, true, List, [], ◌∷◌, arith}
use eidovela_open.Text.{Text}
use eidovela_open.Text.Laws.{text_eq_iff}
use eidovela_open.Json
use eidovela_open.Json.{Value, string, array, elements, get, as_map, as_string, as_string?}
use eidovela_open.Sdk.Token.Claims.{audience_contains, any_item}

-- One of the values is the audience.
abbrev pub HasItem : Text → List Value → Type 0
HasItem audience [] = ⊥
HasItem audience (v ∷ vs) = (v ≡ string audience) ⊎ HasItem audience vs

-- The aud claim is the audience, or a list that holds it.
abbrev pub NamesAudience : Value → Text → Type 0
NamesAudience v audience =
    (v ≡ string audience) ⊎ ((vs : Json.Values) × (v ≡ array vs) × HasItem audience (elements vs))

any_item_iff :
    (vs : List Value) (audience : Text) → (any_item vs audience ≡ true) ↔ HasItem audience vs
unfolding any_item
any_item_iff [] audience = ground arith
any_item_iff (string s ∷ vs) audience =
    ground (arith, any_item_iff vs audience, text_eq_iff s audience)
any_item_iff (_ ∷ vs) audience = ground (arith, any_item_iff vs audience)

array_named :
    (vs : Json.Values) (audience : Text)
    → NamesAudience (array vs) audience
    → any_item (elements vs) audience ≡ true
array_named vs audience (inl e) = cc
array_named vs audience (inr (ws, e, m)) = ground (arith, any_item_iff (elements ws) audience)

-- audienceContains holds exactly when the claim names the audience.
pub audience_contains_iff :
    (v : Value) (audience : Text) → (audience_contains v audience ≡ true) ↔ NamesAudience v audience
unfolding audience_contains
audience_contains_iff (string s) audience = ground (arith, text_eq_iff s audience)
audience_contains_iff (array vs) audience =
    (λ h. inr (vs, refl, (any_item_iff (elements vs) audience).0 h), array_named vs audience)
audience_contains_iff _ audience = ground arith
