-- ===== src/Runner/Registry/Ids.antt =====
-- The ids that the fake registry makes from its sequence are told apart by the number in them.
use eidovela_open.Common.{
  ℕ, ◌+◌, ◌≤◌, ◌<◌, ◌≡◌, ◌≢◌, refl, sym, ap, ◌∙◌, ℤ, pos, List, [], ◌∷◌, ◌++◌, All, All-append,
  arith,
}
use eidovela_open.Text.{Text, text, trim_prefix, trim_suffix}
use eidovela_open.Text.Laws.{trim_prefix-append, trim_suffix-append}
pub use eidovela_open.Dict.Keys.{Distinct}
use eidovela_open.Decimal.{format_08d, format_08d-injective}
use eidovela_open.Runner.Registry.{agent_id_of, workload_id_of, instance_id_of}

-- Ids of one kind are injective in the number.
abbrev pub IsInjective : (ℤ → Text) → Type 0
IsInjective id_of = (a b : ℕ) → id_of (pos a) ≡ id_of (pos b) → a ≡ b

pub workload_id_of-IsInjective : IsInjective workload_id_of
unfolding workload_id_of
workload_id_of-IsInjective a b e = format_08d-injective a b (
    sym (trim_prefix-append (text "wr-") (format_08d (pos a)))
    ∙ ap (λ s. trim_prefix s (text "wr-")) e
    ∙ trim_prefix-append (text "wr-") (format_08d (pos b)))

pub instance_id_of-IsInjective : IsInjective instance_id_of
unfolding instance_id_of
instance_id_of-IsInjective a b e = format_08d-injective a b (
    sym (trim_prefix-append (text "inst-") (format_08d (pos a)))
    ∙ ap (λ s. trim_prefix s (text "inst-")) e
    ∙ trim_prefix-append (text "inst-") (format_08d (pos b)))

abbrev agent_suffix : Text
agent_suffix = text "-0000-0000-0000-000000000000"

pub agent_id_of-IsInjective : IsInjective agent_id_of
unfolding agent_id_of
agent_id_of-IsInjective a b e = format_08d-injective a b (
    sym (trim_suffix-append (format_08d (pos a)) agent_suffix)
    ∙ ap (λ s. trim_suffix s agent_suffix) e
    ∙ trim_suffix-append (format_08d (pos b)) agent_suffix)

-- The id is one of the first n of its kind.
abbrev pub IsNumbered : (ℤ → Text) → ℕ → Text → Type 0
IsNumbered id_of n k = (m : ℕ) × (m ≤ n) × (k ≡ id_of (pos m))

pub All-IsNumbered_suc :
    (id_of : ℤ → Text) (n : ℕ) (ks : List Text)
    → All (IsNumbered id_of n) ks
    → All (IsNumbered id_of (n + 1)) ks
All-IsNumbered_suc id_of n [] h = tt
All-IsNumbered_suc id_of n (k ∷ ks) ((m, le, e), h) =
    ((m, omega arith, e), All-IsNumbered_suc id_of n ks h)

-- The next id differs from all of them.
pub next_is_new :
    (id_of : ℤ → Text) (n : ℕ) (ks : List Text)
    → IsInjective id_of
    → All (IsNumbered id_of n) ks
    → All (λ k. k ≢ id_of (pos (n + 1))) ks
next_is_new id_of n [] inj h = tt
next_is_new id_of n (k ∷ ks) inj ((m, le, e), h) =
    (λ same. absurd (omega (arith, inj m (n + 1) (sym e ∙ same))), next_is_new id_of n ks inj h)

pub Distinct-append :
    (ks : List Text) (k : Text) → Distinct ks → All (λ j. j ≢ k) ks → Distinct (ks ++ (k ∷ []))
Distinct-append [] k d n = (tt, tt)
Distinct-append (j ∷ ks) k (a, d) (p, n) =
    (All-append (λ i. i ≢ j) ks (k ∷ []) a ((λ e. p (sym e)), tt), Distinct-append ks k d n)

-- The ids have ascending numbers, above the one and up to the other.
abbrev pub Ascends : (ℤ → Text) → ℕ → ℕ → List Text → Type 0
Ascends id_of low high [] = low ≤ high
Ascends id_of low high (k ∷ ks) =
    (m : ℕ) × (low < m) × (k ≡ id_of (pos m)) × Ascends id_of m high ks

pub Ascends-suc :
    (id_of : ℤ → Text) (low high : ℕ) (ks : List Text)
    → Ascends id_of low high ks
    → Ascends id_of low (high + 1) ks
Ascends-suc id_of low high [] h = omega (arith, h)
Ascends-suc id_of low high (k ∷ ks) (m, l, e, h) = (m, l, e, Ascends-suc id_of m high ks h)

Ascends-append :
    (id_of : ℤ → Text) (low high : ℕ) (ks : List Text)
    → Ascends id_of low high ks
    → Ascends id_of low (high + 1) (ks ++ (id_of (pos (high + 1)) ∷ []))
Ascends-append id_of low high [] h = (high + 1, omega (arith, h), refl, omega arith)
Ascends-append id_of low high (k ∷ ks) (m, l, e, h) = (m, l, e, Ascends-append id_of m high ks h)

-- The order list with the next id behind it
pub next-Ascends :
    (id_of : ℤ → Text) (n : ℕ) (s : ℤ) (order : List Text)
    → s ≡ pos (n + 1)
    → Ascends id_of 0 n order
    → Ascends id_of 0 (n + 1) (order ++ (id_of s ∷ []))
next-Ascends id_of n s order seq h = rw seq (Ascends-append id_of 0 n order h)

pub Ascends-lower :
    (id_of : ℤ → Text) (low m high : ℕ) (ks : List Text)
    → low < m
    → Ascends id_of m high ks
    → Ascends id_of low high ks
Ascends-lower id_of low m high [] l h = omega (arith, h)
Ascends-lower id_of low m high (k ∷ ks) l (i, l', e, h) = (i, omega (arith, l'), e, h)
