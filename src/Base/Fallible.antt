-- ===== src/Base/Fallible.antt =====
-- Code that may fault or panic: `none` is the failure.
use mathlib.Core.Path.{◌≡◌, refl}
use mathlib.Core.Option.{Option, none, some}

infixl 5 ◌>>=◌
abbrev pub ◌>>=◌ {ℓ κ} : {A : Type ℓ} {B : Type κ} → Option A → (A → Option B) → Option B
none >>= f = none
some a >>= f = f a

-- The result is there and has the property.
abbrev pub Returns {ℓ} : {A : Type ℓ} → Option A → (A → Type 0) → Type 0
Returns none P = ⊥
Returns (some a) P = P a

-- A bind returns if its parts do.
pub bind-Returns :
    {A B : Type 0} (m : Option A) (f : A → Option B) (P : A → Type 0) (Q : B → Type 0)
    → Returns m P
    → ((a : A) → P a → Returns (f a) Q)
    → Returns (m >>= f) Q
bind-Returns none f P Q h k = absurd h
bind-Returns (some a) f P Q h k = k a h

pub Returns-map :
    {A : Type 0} (m : Option A) (P Q : A → Type 0)
    → Returns m P
    → ((a : A) → P a → Q a)
    → Returns m Q
Returns-map none P Q h k = absurd h
Returns-map (some a) P Q h k = k a h

-- If there is a result, it has the property.
abbrev pub Allows {ℓ} : {A : Type ℓ} → Option A → (A → Type 0) → Type 0
Allows none P = Unit
Allows (some a) P = P a

pub bind-Allows :
    {A B : Type 0} (m : Option A) (f : A → Option B) (P : A → Type 0) (Q : B → Type 0)
    → Allows m P
    → ((a : A) → P a → Allows (f a) Q)
    → Allows (m >>= f) Q
bind-Allows none f P Q h k = tt
bind-Allows (some a) f P Q h k = k a h

-- Nothing is asked of the result.
pub anything : {A : Type 0} (o : Option A) → Allows o (λ _. Unit {0})
anything none = tt
anything (some a) = tt

pub bind-eq-none :
    {A B : Type 0} (o : Option A) (f : A → Option B) (P : A → Type 0)
    → Allows o P
    → ((a : A) → P a → f a ≡ none)
    → (o >>= f) ≡ none
bind-eq-none none f P h k = refl
bind-eq-none (some a) f P h k = k a h

pub bind-eq_of :
    {A B : Type 0} (o : Option A) (f g : A → Option B) (P : A → Type 0)
    → Allows o P
    → ((a : A) → P a → f a ≡ g a)
    → (o >>= f) ≡ (o >>= g)
bind-eq_of none f g P h k = refl
bind-eq_of (some a) f g P h k = k a h

pub Allows-map :
    {A : Type 0} (m : Option A) (P Q : A → Type 0) → Allows m P → ((a : A) → P a → Q a) → Allows m Q
Allows-map none P Q h k = tt
Allows-map (some a) P Q h k = k a h
