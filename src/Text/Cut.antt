-- ===== src/Text/Cut.antt =====
-- Where a text is cut at the first occurrence of a separator.
use eidovela_open.Common.{
  ◌≡◌, ◌≢◌, refl, [], ◌∷◌, ◌++◌, some, inl, inr, length-append, arith, Option-cases,
}
use mathlib.Core.List.{append_assoc}
use eidovela_open.Text.{Text, strip_prefix}
use eidovela_open.Text.Split.{cut}
use eidovela_open.Text.Laws.{strip_prefix-append, strip_prefix-none_append}

-- The first occurrence of the separator in the base followed by the separator is that at the end.
abbrev pub EndsFirst : Text → Text → Type 0
EndsFirst sep base = cut sep (base ++ sep) ≡ some (base, [])

-- Then the text behind the separator does not matter.
pub cut-append :
    (sep base rest : Text)
    → sep ≢ []
    → EndsFirst sep base
    → cut sep (base ++ (sep ++ rest)) ≡ some (base, rest)
unfolding cut
cut-append [] base rest n h = absurd (n refl)
cut-append (x ∷ sep) [] rest n h = rw (strip_prefix-append (x ∷ sep) rest, cut)
cut-append (x ∷ sep) (c ∷ base) rest n h =
    elim (Option-cases (strip_prefix (x ∷ sep) (c ∷ (base ++ (x ∷ sep))))) [
      | inr (r, e) ↦ cc (rw (e, cut) at h)
      | inl e ↦
          let longer = rw (append_assoc base (x ∷ sep) rest) at (
            strip_prefix-none_append (x ∷ sep) (c ∷ (base ++ (x ∷ sep))) rest e
              (omega (arith, length-append {0} base (x ∷ sep)))) in
          ground (arith, longer, cut-append (x ∷ sep) base rest n)
    ]
