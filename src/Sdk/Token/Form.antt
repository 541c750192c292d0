-- ===== src/Sdk/Token/Form.antt =====
-- The three segments of a token (the split at the start of Verify).
use eidovela_open.Common.{◌≡◌, sym, ◌∙◌, ap, List, [], ◌∷◌, ◌++◌, some, arith, All}
use eidovela_open.Text.{Text}
use eidovela_open.Text.Split.{
  split, join, join-split, split-Lacks, split-append, split_of_Lacks, Lacks,
}
use eidovela_open.Sdk.Token.{Segments, three}

-- The token has three segments that full stops separate.
abbrev pub HasForm : Text → Segments → Type 0
HasForm token s =
    (token ≡ s.header ++ (46 ∷ (s.payload ++ (46 ∷ s.signature))))
    × Lacks 46 s.header
    × Lacks 46 s.payload
    × Lacks 46 s.signature

three_form :
    (parts : List Text) (s : Segments)
    → three parts ≡ some s
    → parts ≡ s.header ∷ s.payload ∷ s.signature ∷ []
unfolding three
three_form [] s h = cc
three_form (a ∷ []) s h = cc
three_form (a ∷ b ∷ []) s h = cc
three_form (a ∷ b ∷ c ∷ []) s h = ground arith
three_form (a ∷ b ∷ c ∷ d ∷ r) s h = cc

pub three_sound : (token : Text) (s : Segments) → three (split token 46) ≡ some s → HasForm token s
unfolding join
three_sound token s h =
    let e = three_form (split token 46) s h in
    let k : All (Lacks 46) (s.header ∷ s.payload ∷ s.signature ∷ []) =
      rw e at (split-Lacks token 46) in
    (sym (join-split token 46) ∙ ap (λ parts. join parts (46 ∷ [])) e, k.0, k.1.0, k.1.1.0)

pub three_complete :
    (token : Text) (s : Segments) → HasForm token s → three (split token 46) ≡ some s
unfolding three
three_complete token s (e, a, b, c) = rw (
  e,
  split-append s.header (s.payload ++ (46 ∷ s.signature)) 46 a,
  split-append s.payload s.signature 46 b,
  split_of_Lacks s.signature 46 c,
  three,
)
