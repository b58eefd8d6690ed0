-- ===== src/Outcome.antt =====
-- What a call of the code may do: return, throw one of the standard exceptions, or run into
-- undefined behaviour (an index out of range, a conversion that does not fit, signed overflow).
use cppmetrics.Prelude.{String, Option, none, some}

pub data Exception : Type 0 where
  invalid_argument : String → Exception
  runtime_error : String → Exception

pub data Outcome {ℓ} (A : Type ℓ) : Type ℓ where
  returns : A → Outcome A
  throws : Exception → Outcome A
  undefined : Outcome A
  -- The fuel of the model ran out.
  unfinished : Outcome A

infixl 5 ◌>>=◌
abbrev pub ◌>>=◌ {ℓ κ} : {A : Type ℓ} {B : Type κ} → Outcome A → (A → Outcome B) → Outcome B
returns a >>= f = f a
throws e >>= f = throws e
undefined >>= f = undefined
unfinished >>= f = unfinished

-- An operation that is undefined where the option is empty.
abbrev pub defined {ℓ} : {A : Type ℓ} → Option A → Outcome A
defined none = undefined
defined (some a) = returns a

-- The call returns, and its value has the property.
abbrev pub Returns {ℓ} : {A : Type ℓ} → (A → Type 0) → Outcome A → Type 0
Returns P (returns a) = P a
Returns P (throws e) = ⊥
Returns P undefined = ⊥
Returns P unfinished = ⊥

pub Returns-mono {ℓ} :
    {A : Type ℓ} {P Q : A → Type 0} (o : Outcome A)
    → ((a : A) → P a → Q a)
    → Returns P o
    → Returns Q o
Returns-mono (returns a) f h = f a h
Returns-mono (throws e) f h = absurd h
Returns-mono undefined f h = absurd h
Returns-mono unfinished f h = absurd h

pub Returns->>= {ℓ κ} :
    {A : Type ℓ} {B : Type κ} {P : A → Type 0} (Q : B → Type 0) (o : Outcome A) (f : A → Outcome B)
    → Returns P o
    → ((a : A) → P a → Returns Q (f a))
    → Returns Q (o >>= f)
Returns->>= Q (returns a) f h k = k a h
Returns->>= Q (throws e) f h k = absurd h
Returns->>= Q undefined f h k = absurd h
Returns->>= Q unfinished f h k = absurd h

-- If the call returns, its value has the property.
abbrev pub Whenever {ℓ} : {A : Type ℓ} → (A → Type 0) → Outcome A → Type 0
Whenever P (returns a) = P a
Whenever P _ = Unit

pub Whenever->>= {ℓ κ} :
    {A : Type ℓ} {B : Type κ} (P : A → Type 0) (Q : B → Type 0) (o : Outcome A) (f : A → Outcome B)
    → Whenever P o
    → ((a : A) → P a → Whenever Q (f a))
    → Whenever Q (o >>= f)
Whenever->>= P Q (returns a) f h k = k a h
Whenever->>= P Q (throws e) f h k = tt
Whenever->>= P Q undefined f h k = tt
Whenever->>= P Q unfinished f h k = tt

pub Whenever-any {ℓ} : {A : Type ℓ} (o : Outcome A) → Whenever (λ a. Unit) o
Whenever-any (returns a) = tt
Whenever-any (throws e) = tt
Whenever-any undefined = tt
Whenever-any unfinished = tt
