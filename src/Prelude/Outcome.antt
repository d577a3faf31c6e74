-- ===== src/Prelude/Outcome.antt =====
-- How a call ends: with a value, with an error that the caller sees, or in a panic; and calls that
-- read and write a state, which keeps what was written before an error.
use mathlib.Core.Path.{◌≡◌, refl}
use mathlib.Core.Logic.{◌⊎◌, inl, inr}
use mathlib.Core.Bool.{Bool}
use mathlib.Core.Option.{Option, none, some}

pub data Outcome (E A : Type 0) : Type 0 where
  ok : A → Outcome E A
  err : E → Outcome E A
  panic : Outcome E A

abbrev pub Action : Type 0 → Type 0 → Type 0 → Type 0
Action S E A = S → Outcome E A × S

module _ {S E A : Type 0} where
  abbrev pub pure : A → Action S E A
  pure a s = (ok a, s)

  abbrev pub raise : E → Action S E A
  raise e s = (err e, s)

  abbrev pub gets : (S → A) → Action S E A
  gets f s = (ok (f s), s)

  -- `.unwrap()`, and arithmetic that panics on overflow.
  abbrev pub unwrap : Option A → Action S E A
  unwrap none s = (panic, s)
  unwrap (some a) s = (ok a, s)

  abbrev pub or_raise : Option A → E → Action S E A
  or_raise none e s = (err e, s)
  or_raise (some a) e s = (ok a, s)

abbrev pub modify : {S E : Type 0} → (S → S) → Action S E (Unit {0})
modify f s = (ok tt, f s)

infixl 5 ◌>>=◌ ◌>>◌
abbrev pub ◌>>=◌ : {S E A B : Type 0} → Action S E A → (A → Action S E B) → Action S E B
◌>>=◌ m f s =
    let (r, s') = m s in elim r [ ok a ↦ f a s' | err e ↦ (err e, s') | panic ↦ (panic, s') ]

abbrev pub ◌>>◌ : {S E A B : Type 0} → Action S E A → Action S E B → Action S E B
m >> k = m >>= λ _. k

-- The call returned normally.
abbrev pub is_ok : {E A : Type 0} → Outcome E A → Bool
is_ok (ok a) = Bool.true
is_ok (err e) = Bool.false
is_ok panic = Bool.false

-- To split on a computed outcome and keep the equation.
pub Outcome-cases :
    {E A : Type 0} (o : Outcome E A)
    → (o ≡ panic) ⊎ (((e : E) × (o ≡ err e)) ⊎ ((a : A) × (o ≡ ok a)))
Outcome-cases panic = inl refl
Outcome-cases (err e) = inr (inl (e, refl))
Outcome-cases (ok a) = inr (inr (a, refl))
