-- ===== src/Text/Laws.antt =====
-- Equality of texts, prefixes and suffixes.
use eidovela_open.Common.{
  ℕ, ◌+◌, ◌≤◌, ◌<◌, ◌≡◌, refl, ◌↔◌, ap, true, [], ◌∷◌, ◌++◌, ◌≢◌, length, length-append,
  Option-cases, inl, inr, some, none, arith,
}
use mathlib.Core.Bool.{false≢true}
use eidovela_open.Text.{
  Text, text_eq, strip_prefix, has_prefix, trim_prefix, strip_suffix, trim_suffix,
}

pub text_eq_refl : (s : Text) → text_eq s s ≡ true
unfolding text_eq
text_eq_refl [] = refl
text_eq_refl (c ∷ s) = ground (arith, text_eq_refl s)

pub text_eq_sound : (s t : Text) → text_eq s t ≡ true → s ≡ t
unfolding text_eq
text_eq_sound [] [] h = refl
text_eq_sound [] (b ∷ t) h = cc
text_eq_sound (a ∷ s) [] h = cc
text_eq_sound (a ∷ s) (b ∷ t) h = ground (arith, text_eq_sound s t)

pub text_eq_iff : (s t : Text) → (text_eq s t ≡ true) ↔ (s ≡ t)
text_eq_iff s t = (text_eq_sound s t, λ e. rw e (text_eq_refl t))

pub strip_prefix-append : (p s : Text) → strip_prefix p (p ++ s) ≡ some s
unfolding strip_prefix
strip_prefix-append [] s = refl
strip_prefix-append (c ∷ p) s = ground (arith, strip_prefix-append p s)

pub strip_prefix_sound : (p s rest : Text) → strip_prefix p s ≡ some rest → s ≡ p ++ rest
unfolding strip_prefix
strip_prefix_sound [] s rest h = ground arith
strip_prefix_sound (c ∷ p) [] rest h = cc
strip_prefix_sound (c ∷ p) (d ∷ s) rest h = ground (arith, strip_prefix_sound p s rest)

pub trim_prefix-append : (p s : Text) → trim_prefix (p ++ s) p ≡ s
unfolding trim_prefix
trim_prefix-append p s = rw (strip_prefix-append p s, trim_prefix)

pub has_prefix-append : (p s : Text) → has_prefix (p ++ s) p ≡ true
unfolding has_prefix
has_prefix-append p s = rw (strip_prefix-append p s, has_prefix)

pub has_prefix_sound : (s p : Text) → has_prefix s p ≡ true → (rest : Text) × (s ≡ p ++ rest)
unfolding has_prefix
has_prefix_sound s p h = elim (Option-cases (strip_prefix p s)) [
  | inl none' ↦ absurd (false≢true (rw (none', has_prefix) at h))
  | inr (rest, e) ↦ (rest, strip_prefix_sound p s rest e)
]

append-eq-self_nil : (p : Text) (c : ℕ) (s : Text) → (c ∷ s) ++ p ≢ p
append-eq-self_nil p c s e = absurd (omega (arith, ap length e, length-append {0} s p))

pub strip_suffix-append : (s p : Text) → strip_suffix p (s ++ p) ≡ some s
unfolding strip_suffix
strip_suffix-append [] [] = rw (text_eq_refl [])
strip_suffix-append [] (c ∷ p) = rw (text_eq_refl (c ∷ p))
strip_suffix-append (c ∷ s) p =
    ground (arith, strip_suffix-append s p, text_eq_iff (c ∷ (s ++ p)) p, append-eq-self_nil p c s)

pub strip_suffix_sound : (s p rest : Text) → strip_suffix p s ≡ some rest → s ≡ rest ++ p
unfolding strip_suffix
strip_suffix_sound [] p rest h = ground (arith, text_eq_iff [] p)
strip_suffix_sound (c ∷ s) p rest h = elim (Option-cases (strip_suffix p s)) [
  | inl e ↦ ground (arith, text_eq_iff (c ∷ s) p)
  | inr (r, e) ↦ ground (arith, text_eq_iff (c ∷ s) p, strip_suffix_sound s p r e)
]

pub trim_suffix-append : (s p : Text) → trim_suffix (s ++ p) p ≡ s
unfolding trim_suffix
trim_suffix-append s p = rw (strip_suffix-append s p, trim_suffix)

pub strip_prefix-append_both : (p q s : Text) → strip_prefix (p ++ q) (p ++ s) ≡ strip_prefix q s
unfolding strip_prefix
strip_prefix-append_both [] q s = refl
strip_prefix-append_both (c ∷ p) q s = ground (arith, strip_prefix-append_both p q s)

-- A prefix that a text is long enough for is found in the text alone.
pub strip_prefix-none_append :
    (p s rest : Text)
    → strip_prefix p s ≡ none
    → length p ≤ length s
    → strip_prefix p (s ++ rest) ≡ none
unfolding strip_prefix
strip_prefix-none_append [] s rest h le = cc
strip_prefix-none_append (c ∷ p) [] rest h le = absurd (omega arith)
strip_prefix-none_append (c ∷ p) (d ∷ s) rest h le =
    ground (arith, strip_prefix-none_append p s rest)

pub strip_prefix-longer : (p s : Text) → length s < length p → strip_prefix p s ≡ none
unfolding strip_prefix
strip_prefix-longer [] s h = absurd (omega arith)
strip_prefix-longer (c ∷ p) [] h = refl
strip_prefix-longer (c ∷ p) (d ∷ s) h = ground (arith, strip_prefix-longer p s)

-- Trimming a suffix shortens the text by at most the suffix.
pub length-trim_suffix : (s p : Text) → length s ≤ length (trim_suffix s p) + length p
unfolding trim_suffix
length-trim_suffix s p = elim (Option-cases (strip_suffix p s)) [
  | inl e ↦ rw (e, trim_suffix) (omega arith)
  | inr (r, e) ↦
      rw (e, trim_suffix)
        (omega (arith, ap length (strip_suffix_sound s p r e), length-append {0} r p))
]

-- A text that does not end in the suffix is left.
pub trim_suffix_of_none : (s p : Text) → strip_suffix p s ≡ none → trim_suffix s p ≡ s
unfolding trim_suffix
trim_suffix_of_none s p h = rw (h, trim_suffix)

-- A text that does not begin with the prefix is left.
pub trim_prefix_of_none : (s p : Text) → strip_prefix p s ≡ none → trim_prefix s p ≡ s
unfolding trim_prefix
trim_prefix_of_none s p h = rw (h, trim_prefix)
