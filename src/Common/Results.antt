-- ===== src/Common/Results.antt =====
-- Go's pair of a value and an error: a call returns the one or the other.
use mathlib.Core.Path.{◌≡◌, refl}
use mathlib.Core.Logic.{◌⊎◌, inl, inr}
use mathlib.Core.Bool.{Bool, true, false}
use mathlib.Core.Option.{Option, none, some}

pub data Result (E A : Type 0) : Type 0 where
  ok : A → Result E A
  err : E → Result E A

infixl 5 ◌>>=◌ ◌>>◌
abbrev pub ◌>>=◌ : {E A B : Type 0} → Result E A → (A → Result E B) → Result E B
err problem >>= next = err problem
ok value >>= next = next value

abbrev pub ◌>>◌ : {E B : Type 0} → Result E (Unit {0}) → Result E B → Result E B
checked >> rest = checked >>= λ _. rest

-- `if !b { return …, e }`
abbrev pub guard : {E : Type 0} → Bool → E → Result E (Unit {0})
guard false problem = err problem
guard true problem = ok tt

-- A chain succeeds only through its first step.
pub >>=-eq-ok :
    {E A B : Type 0} (first : Result E A) (next : A → Result E B) {result : B}
    → (first >>= next) ≡ ok result
    → (value : A) × (first ≡ ok value) × (next value ≡ ok result)
>>=-eq-ok (err problem) next h = cc
>>=-eq-ok (ok value) next h = (value, refl, h)

pub guard-eq-ok :
    {E A : Type 0} (b : Bool) (e : E) (k : Result E A) {a : A}
    → (guard b e >> k) ≡ ok a
    → (b ≡ true) × (k ≡ ok a)
guard-eq-ok true e k h = (refl, h)
guard-eq-ok false e k h = cc

-- `if !ok { return …, e }`
abbrev pub require : {E A : Type 0} → Option A → E → Result E A
require none e = err e
require (some a) e = ok a

pub require-eq-ok : {E A : Type 0} (o : Option A) (e : E) {a : A} → require o e ≡ ok a → o ≡ some a
require-eq-ok none e h = cc
require-eq-ok (some a) e h = cc

pub require-bind-eq-ok :
    {E A B : Type 0} (o : Option A) (e : E) (f : A → Result E B) {b : B}
    → (require o e >>= f) ≡ ok b
    → (a : A) × (o ≡ some a) × (f a ≡ ok b)
require-bind-eq-ok none e f h = cc
require-bind-eq-ok (some a) e f h = (a, refl, h)

pub Result-cases :
    {E A : Type 0} (r : Result E A) → ((e : E) × (r ≡ err e)) ⊎ ((a : A) × (r ≡ ok a))
Result-cases (err e) = inl (e, refl)
Result-cases (ok a) = inr (a, refl)
