-- ===== src/Prelude/Options.antt =====
-- Chains of steps that may end without a result.
use mathlib.Core.Path.{◌≡◌, refl, subst}
use mathlib.Core.Bool.{Bool, true, false}
use mathlib.Core.Option.{Option, none, some}
use hass_clips_manager.Prelude.Results.{Result, ok, err}

infixl 5 ◌>>=◌ ◌>>◌
abbrev pub ◌>>=◌ : {A B : Type 0} → Option A → (A → Option B) → Option B
none >>= f = none
some a >>= f = f a

abbrev pub ◌>>◌ : {A B : Type 0} → Option A → Option B → Option B
m >> k = m >>= λ _. k

-- A condition without which the chain ends
abbrev pub check : Bool → Option (Unit {0})
check true = some tt
check false = none

-- A call whose exception ends the chain
abbrev pub attempt : {E A : Type 0} → Result E A → Option A
attempt (ok a) = some a
attempt (err e) = none

-- What holds of a result, where there is one
abbrev pub Given : {A : Type 0} → (A → Type 0) → Option A → Type 0
Given P none = Unit
Given P (some a) = P a

pub >>=-Given :
    {A B : Type 0} (P : A → Type 0) (Q : B → Type 0) (m : Option A) (f : A → Option B)
    → Given P m
    → ((a : A) → P a → Given Q (f a))
    → Given Q (m >>= f)
>>=-Given P Q none f h k = tt
>>=-Given P Q (some a) f h k = k a h

pub Given-weaken :
    {A : Type 0} {P : A → Type 0} (Q : A → Type 0) (m : Option A)
    → ((a : A) → P a → Q a)
    → Given P m
    → Given Q m
Given-weaken Q none k h = tt
Given-weaken Q (some a) k h = k a h

abbrev pub Anything : {A : Type 0} → A → Type 0
Anything a = Unit

pub anything : {A : Type 0} (m : Option A) → Given (Anything {A = A}) m
anything none = tt
anything (some a) = tt

pub check-Given : (b : Bool) → Given (λ _. b ≡ true) (check b)
check-Given true = refl
check-Given false = tt

pub attempt-Given : {E A : Type 0} (r : Result E A) → Given (λ a. r ≡ ok a) (attempt r)
attempt-Given (ok a) = refl
attempt-Given (err e) = tt

pub Given-eq : {A : Type 0} (P : A → Type 0) {m : Option A} {a : A} → m ≡ some a → Given P m → P a
Given-eq P h g = subst (Given P) h g
