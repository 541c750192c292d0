-- ===== src/Text/Url/Query.antt =====
-- What a query says that is joined from parts.
use mathlib.Core.List.{append_assoc}
use eidovela_open.Common.{
  ℕ, ◌≡◌, ◌≢◌, refl, false, List, [], ◌∷◌, ◌++◌, some, All, All-append, arith, All-imp, sym,
  Option-cases, inl, inr,
}
use eidovela_open.Text.{Text, text, strip_prefix}
use eidovela_open.Text.Split.{cut, split, contains, join, Lacks, split_of_Lacks, split-append}
use eidovela_open.Text.Cut.{EndsFirst, cut-append}
use eidovela_open.Base64.RoundTrip.{IsBytes}
use eidovela_open.Text.Url.{query_escape, query_unescape, read_part, read_parts, parse_query}
use eidovela_open.Text.Url.RoundTrip.{query_unescape-query_escape, query_escape-All, IsQueryByte}

-- The parts of a joined text, the last of which may itself be joined.
pub split-join_last :
    (sep : ℕ) (xs : List Text) (q : Text)
    → All (Lacks sep) xs
    → split (join (xs ++ (q ∷ [])) (sep ∷ [])) sep ≡ xs ++ split q sep
unfolding join
split-join_last sep [] q h = refl
split-join_last sep (x ∷ []) q (h, _) = split-append x q sep h
split-join_last sep (x ∷ y ∷ xs) q (h, k) =
    rw
      (
        split-append x (join (y ∷ (xs ++ (q ∷ []))) (sep ∷ [])) sep h,
        split-join_last sep (y ∷ xs) q k,
      )
      refl

pub split-join :
    (sep : ℕ) (x : Text) (xs : List Text)
    → All (Lacks sep) (x ∷ xs)
    → split (join (x ∷ xs) (sep ∷ [])) sep ≡ x ∷ xs
unfolding join
split-join sep x [] (h, _) = split_of_Lacks x sep h
split-join sep x (y ∷ xs) (h, k) =
    rw (split-append x (join (y ∷ xs) (sep ∷ [])) sep h, split-join sep y xs k) refl

pub read_parts-append :
    (xs ys : List Text) {a b : List (Text × Text)}
    → read_parts xs ≡ some a
    → read_parts ys ≡ some b
    → read_parts (xs ++ ys) ≡ some (a ++ b)
unfolding read_parts
read_parts-append [] ys {a} {b} h k = ground arith
read_parts-append (x ∷ xs) ys {a} {b} h k = elim (Option-cases (read_part x)) [
  | inl e ↦ cc
  | inr (p, e) ↦ elim (Option-cases (read_parts xs)) [
    | inl e' ↦ cc (rw (e, e') at h)
    | inr (r, e') ↦ rw (e, read_parts-append xs ys e' k) (cc (append_assoc p r b, rw (e, e') at h))
  ]
]

-- A query that ends in another one says what its parts say, and what that one says.
pub parse_query-join_last :
    (xs : List Text) (q : Text) {a b : List (Text × Text)}
    → All (Lacks b'&') xs
    → read_parts xs ≡ some a
    → parse_query q ≡ some b
    → parse_query (join (xs ++ (q ∷ [])) (text "&")) ≡ some (a ++ b)
unfolding parse_query
parse_query-join_last xs q l h k =
    rw (split-join_last b'&' xs q l) (read_parts-append xs (split q b'&') h k)

pub parse_query-join :
    (xs : List Text) {a : List (Text × Text)}
    → All (Lacks b'&') xs
    → read_parts xs ≡ some a
    → parse_query (join xs (text "&")) ≡ some a
unfolding parse_query
parse_query-join [] l h = unfold join split read_parts in unfold read_part in unfold read_parts in h
parse_query-join (x ∷ xs) l h = rw (split-join b'&' x xs l) h

-- A name that stands for itself and ends at the first "=".
pub record IsName (k : Text) : Type 0 where
  pub plain : query_unescape k ≡ some k
  pub ends : EndsFirst (text "=") k
  pub clear : All IsQueryByte k

contains_of_Lacks : (b : ℕ) (s : Text) → Lacks b s → contains s (b ∷ []) ≡ false
unfolding contains cut strip_prefix
contains_of_Lacks b [] h = refl
contains_of_Lacks b (c ∷ s) (n, h) = ground (arith, contains_of_Lacks b s h)

append-ne_nil : (k : Text) (c : ℕ) (s : Text) → k ++ (c ∷ s) ≢ []
append-ne_nil [] c s e = cc
append-ne_nil (d ∷ k) c s e = cc

module _ (k v : Text) (name : IsName k) (bytes : IsBytes v) where
  pub param-Lacks :
      (b : ℕ)
      → b ≢ b'='
      → ((c : ℕ) → IsQueryByte c → c ≢ b)
      → Lacks b (k ++ (text "=" ++ query_escape v))
  param-Lacks b e f =
      All-append (λ c. c ≢ b) k (text "=" ++ query_escape v)
        (All-imp IsQueryByte (λ c. c ≢ b) k f name.clear)
        (
          λ p. e (sym p),
          All-imp IsQueryByte (λ c. c ≢ b) (query_escape v) f (query_escape-All v bytes),
        )

  read_part-set :
      (s : Text)
      → s ≢ []
      → contains s (text ";") ≡ false
      → cut (text "=") s ≡ some (k, query_escape v)
      → read_part s ≡ some ((k, v) ∷ [])
  unfolding read_part
  read_part-set [] n h e = absurd (n refl)
  read_part-set (c ∷ s) n h e = rw (h, e, name.plain, query_unescape-query_escape v bytes) refl

  -- A part "name=value" is read as its name and its value.
  pub read_part-param : read_part (k ++ (text "=" ++ query_escape v)) ≡ some ((k, v) ∷ [])
  read_part-param =
      read_part-set (k ++ (text "=" ++ query_escape v)) (append-ne_nil k b'=' (query_escape v))
        (contains_of_Lacks b';' (k ++ (text "=" ++ query_escape v))
          (param-Lacks b';' (omega arith) (λ c q. q.1)))
        (cut-append (text "=") k (query_escape v) (λ e. cc e) name.ends)

-- The entry of a filter that is left out where it is empty.
abbrev pub given : Text → Text → List (Text × Text)
given k [] = []
given k (c ∷ v) = (k, c ∷ v) ∷ []

-- The parts of a query, none of which holds an "&", say these entries.
abbrev pub Says : List Text → List (Text × Text) → Type 0
Says parts said = All (Lacks b'&') parts × (read_parts parts ≡ some said)

pub Says-nil : Says [] []
unfolding read_parts
Says-nil = (tt, refl)

pub Says-append :
    (ps qs : List Text) {a b : List (Text × Text)}
    → Says ps a
    → Says qs b
    → Says (ps ++ qs) (a ++ b)
Says-append ps qs (l, h) (m, k) = (All-append (Lacks b'&') ps qs l m, read_parts-append ps qs h k)

pub Says-param :
    (k v : Text)
    → IsName k
    → IsBytes v
    → Says ((k ++ (text "=" ++ query_escape v)) ∷ []) ((k, v) ∷ [])
unfolding read_parts
Says-param k v name bytes = (
  (param-Lacks k v name bytes b'&' (omega arith) (λ c q. q.0), tt),
  rw (read_part-param k v name bytes) refl,
)
