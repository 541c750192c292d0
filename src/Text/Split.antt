-- ===== src/Text/Split.antt =====
-- strings.Index as a cut at the first occurrence, strings.Split at one byte, strings.Join.
use eidovela_open.Common.{
  ℕ, ◌≡◌, ◌≢◌, refl, Bool, true, false, List, [], ◌∷◌, ◌++◌, Option, none, some, ◌==◌, All, arith,
  Bool-cases, inl, inr, if◌then◌else◌,
}
use eidovela_open.Text.{Text, strip_prefix}

-- The text before the first occurrence of a separator, which is not empty, and the text behind it.
unfoldable pub cut : Text → Text → Option (Text × Text)
cut sep [] = none
cut sep (c ∷ s) =
    let later = cut sep s in
    elim (strip_prefix sep (c ∷ s)) [
      | some rest ↦ some ([], rest)
      | none ↦ elim later [ none ↦ none | some (before, behind) ↦ some (c ∷ before, behind) ]
    ]

-- strings.Contains(s, sep)
unfoldable pub contains : Text → Text → Bool
contains s sep = elim (cut sep s) [ none ↦ false | some _ ↦ true ]

-- strings.Split(s, sep)[0]
unfoldable pub split_first : Text → Text → Text
split_first s sep = elim (cut sep s) [ none ↦ s | some (before, _) ↦ before ]

-- strings.SplitN(s, sep, 2)
unfoldable pub split_two : Text → Text → List Text
split_two s sep = elim (cut sep s) [ none ↦ s ∷ [] | some (before, behind) ↦ before ∷ behind ∷ [] ]

-- Puts one byte in front of the first part.
abbrev onto_first : ℕ → List Text → List Text
onto_first c [] = (c ∷ []) ∷ []
onto_first c (part ∷ parts) = (c ∷ part) ∷ parts

-- strings.Split(s, sep) for a separator of one byte
unfoldable pub split : Text → ℕ → List Text
split [] sep = [] ∷ []
split (c ∷ s) sep = let parts = split s sep in if c == sep then [] ∷ parts else onto_first c parts

-- strings.Join(parts, sep)
unfoldable pub join : List Text → Text → Text
join [] sep = []
join (p ∷ []) sep = p
join (p ∷ q ∷ ps) sep = let rest = join (q ∷ ps) sep in p ++ (sep ++ rest)

-- The byte does not occur in the text.
abbrev pub Lacks : ℕ → Text → Type 0
Lacks b s = All (λ c. c ≢ b) s

pub split-ne-nil : (s : Text) (sep : ℕ) → split s sep ≢ []
unfolding split
split-ne-nil [] sep = ground arith
split-ne-nil (c ∷ s) sep = ground arith

-- A text without the separator is one part.
pub split_of_Lacks : (s : Text) (sep : ℕ) → Lacks sep s → split s sep ≡ s ∷ []
unfolding split
split_of_Lacks [] sep h = refl
split_of_Lacks (c ∷ s) sep (p, h) = ground (arith, split_of_Lacks s sep h)

-- The first separator ends the first part.
pub split-append :
    (p s : Text) (sep : ℕ) → Lacks sep p → split (p ++ (sep ∷ s)) sep ≡ p ∷ split s sep
unfolding split
split-append [] s sep h = ground arith
split-append (c ∷ p) s sep (q, h) = ground (arith, split-append p s sep h)

All-onto_first :
    (c sep : ℕ) (parts : List Text)
    → c ≢ sep
    → All (Lacks sep) parts
    → All (Lacks sep) (onto_first c parts)
All-onto_first c sep [] h k = ((h, tt), tt)
All-onto_first c sep (p ∷ ps) h (k, ks) = ((h, k), ks)

join-onto_first :
    (c : ℕ) (parts : List Text) (sep : Text) → join (onto_first c parts) sep ≡ c ∷ join parts sep
unfolding join
join-onto_first c [] sep = refl
join-onto_first c (p ∷ []) sep = refl
join-onto_first c (p ∷ q ∷ ps) sep = refl

join-nil-cons :
    (parts : List Text) (sep : ℕ)
    → parts ≢ []
    → join ([] ∷ parts) (sep ∷ []) ≡ sep ∷ join parts (sep ∷ [])
unfolding join
join-nil-cons [] sep h = absurd (h refl)
join-nil-cons (p ∷ ps) sep h = refl

-- The parts of a split hold no separator.
pub split-Lacks : (s : Text) (sep : ℕ) → All (Lacks sep) (split s sep)
unfolding split
split-Lacks [] sep = (tt, tt)
split-Lacks (c ∷ s) sep = elim (Bool-cases (c == sep)) [
  | inl e ↦ rw e (tt, split-Lacks s sep)
  | inr e ↦ rw e (All-onto_first c sep (split s sep) (ground arith) (split-Lacks s sep))
]

-- Joining the parts of a split gives the text back.
pub join-split : (s : Text) (sep : ℕ) → join (split s sep) (sep ∷ []) ≡ s
unfolding split join
join-split [] sep = refl
join-split (c ∷ s) sep = elim (Bool-cases (c == sep)) [
  | inl e ↦
      rw e (ground (arith, join-nil-cons (split s sep) sep (split-ne-nil s sep), join-split s sep))
  | inr e ↦ rw e (cc (join-onto_first c (split s sep) (sep ∷ []), join-split s sep))
]
