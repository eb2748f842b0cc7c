-- ===== src/Prelude/Effects.antt =====
-- What running a piece of C code gives.
use mathlib.Core.Path.{◌≡◌, refl}
use mathlib.Core.Bool.{Bool, true, false}
use mydns.Prelude.Tests.{if◌then◌else◌}
use mathlib.Core.Option.{Option, none, some}

-- `fault` is an access outside a block, which C leaves undefined; `no_fuel` is a loop that the
-- model stopped before it ended by itself.
pub data Outcome {ℓ} (A : Type ℓ) : Type ℓ where
  done : A → Outcome A
  fault : Outcome A
  no_fuel : Outcome A

infixl 5 ◌>>=◌
abbrev pub ◌>>=◌ {ℓ κ} : {A : Type ℓ} {B : Type κ} → Outcome A → (A → Outcome B) → Outcome B
done a >>= f = f a
fault >>= f = fault
no_fuel >>= f = no_fuel

-- An access that may be out of range.
abbrev pub from_option {ℓ} : {A : Type ℓ} → Option A → Outcome A
from_option none = fault
from_option (some a) = done a

-- Inversion of a bind that returned.
pub >>=-eq-done {ℓ κ} :
    {A : Type ℓ} {B : Type κ} (m : Outcome A) (f : A → Outcome B) {b : B}
    → (m >>= f) ≡ done b
    → (a : A) × (m ≡ done a) × (f a ≡ done b)
>>=-eq-done (done a) f h = (a, refl, h)
>>=-eq-done fault f h = cc
>>=-eq-done no_fuel f h = cc

-- A bind that returns `a` unless the test faults, carried on by a pure function.
pub >>=-guarded {ℓ κ λ'} :
    {A : Type ℓ} {B : Type κ} {C : Type λ'} (m : Outcome A) (f : A → Outcome B) (g : B → C)
    → (test : Bool) (b : B) → (m >>= f) ≡ (if test then fault else done b)
    → (m >>= (λ a. f a >>= (λ x. done (g x)))) ≡ (if test then fault else done (g b))
>>=-guarded (done a) f g true b e = rw e refl
>>=-guarded (done a) f g false b e = rw e refl
>>=-guarded fault f g true b e = refl
>>=-guarded fault f g false b e = cc
>>=-guarded no_fuel f g true b e = cc
>>=-guarded no_fuel f g false b e = cc

pub done-injective {ℓ} : {A : Type ℓ} {a b : A} → done a ≡ done b → a ≡ b
done-injective e = cc

-- The result satisfies `P`, if the code returns.
abbrev pub Ensures {ℓ κ} : {A : Type ℓ} → (A → Type κ) → Outcome A → Type κ
Ensures P (done a) = P a
Ensures P fault = Unit
Ensures P no_fuel = Unit

pub Ensures->>= {ℓ κ λ' μ} :
    {A : Type ℓ} {B : Type κ} (Q : A → Type λ') (P : B → Type μ) (m : Outcome A) (f : A → Outcome B)
    → Ensures Q m
    → ((a : A) → Q a → Ensures P (f a))
    → Ensures P (m >>= f)
Ensures->>= Q P (done a) f q h = h a q
Ensures->>= Q P fault f q h = tt
Ensures->>= Q P no_fuel f q h = tt

pub Ensures-if {ℓ κ} :
    {A : Type ℓ} (P : A → Type κ) (b : Bool) (x y : Outcome A)
    → (b ≡ true → Ensures P x)
    → (b ≡ false → Ensures P y)
    → Ensures P (if b then x else y)
Ensures-if P true x y h k = h refl
Ensures-if P false x y h k = k refl

pub Ensures-true {ℓ} : {A : Type ℓ} (m : Outcome A) → Ensures (λ a. Unit {0}) m
Ensures-true (done a) = tt
Ensures-true fault = tt
Ensures-true no_fuel = tt

-- The postcondition of code that returned.
pub Ensures-done {ℓ κ} :
    {A : Type ℓ} (P : A → Type κ) (m : Outcome A) {a : A} → Ensures P m → m ≡ done a → P a
Ensures-done P m h e = rw e at h

pub Ensures-weaken {ℓ κ μ} :
    {A : Type ℓ} (P : A → Type κ) (Q : A → Type μ) (m : Outcome A)
    → ((a : A) → P a → Q a)
    → Ensures P m
    → Ensures Q m
Ensures-weaken P Q (done a) f h = f a h
Ensures-weaken P Q fault f h = tt
Ensures-weaken P Q no_fuel f h = tt

-- The code returns, and the result satisfies `P`.
abbrev pub Returns {ℓ} : {A : Type ℓ} → (A → Type 0) → Outcome A → Type 0
Returns P (done a) = P a
Returns P fault = ⊥
Returns P no_fuel = ⊥

pub Returns->>= {ℓ κ} :
    {A : Type ℓ} {B : Type κ} (Q : A → Type 0) (P : B → Type 0) (m : Outcome A) (f : A → Outcome B)
    → Returns Q m
    → ((a : A) → Q a → Returns P (f a))
    → Returns P (m >>= f)
Returns->>= Q P (done a) f q h = h a q
Returns->>= Q P fault f q h = absurd q
Returns->>= Q P no_fuel f q h = absurd q

pub Returns-if {ℓ} :
    {A : Type ℓ} (P : A → Type 0) (b : Bool) (x y : Outcome A)
    → (b ≡ true → Returns P x)
    → (b ≡ false → Returns P y)
    → Returns P (if b then x else y)
Returns-if P true x y h k = h refl
Returns-if P false x y h k = k refl

pub Returns-done {ℓ} :
    {A : Type ℓ} (P : A → Type 0) (m : Outcome A) → Returns P m → (a : A) × (m ≡ done a) × P a
Returns-done P (done a) h = (a, refl, h)
Returns-done P fault h = absurd h
Returns-done P no_fuel h = absurd h

pub Returns-weaken {ℓ} :
    {A : Type ℓ} (P : A → Type 0) (Q : A → Type 0) (m : Outcome A)
    → ((a : A) → P a → Q a)
    → Returns P m
    → Returns Q m
Returns-weaken P Q (done a) f h = f a h
Returns-weaken P Q fault f h = absurd h
Returns-weaken P Q no_fuel f h = absurd h
