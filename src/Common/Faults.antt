-- ===== src/Common/Faults.antt =====
-- How a call of the C++ code ends: with a value, or with one of the faults that the code can run
-- into.

pub data Fault : Type 0 where
  -- Behaviour that C++ leaves undefined, such as a dereferenced end iterator or null pointer.
  undefined : Fault
  -- `LOG(FATAL)` or `exit` ends the process.
  aborted : Fault
  -- `vector::at` throws `std::out_of_range`.
  out_of_range : Fault
  -- A loop that never ends.
  endless : Fault

pub data Outcome {ℓ} (A : Type ℓ) : Type ℓ where
  ok : A → Outcome A
  fault : Fault → Outcome A

infixl 5 ◌>>=◌
abbrev pub ◌>>=◌ {ℓ κ} : {A : Type ℓ} {B : Type κ} → Outcome A → (A → Outcome B) → Outcome B
ok a >>= f = f a
fault e >>= f = fault e

-- What an outcome's value, if it has one, satisfies.
abbrev pub Holds {ℓ κ} : {A : Type ℓ} → (A → Type κ) → Outcome A → Type κ
Holds P (ok a) = P a
Holds P (fault e) = Unit

pub bind-Holds {ℓ κ μ} :
    {A : Type ℓ} {B : Type κ} (P : B → Type μ) (m : Outcome A) (f : A → Outcome B)
    → ((a : A) → Holds P (f a))
    → Holds P (m >>= f)
bind-Holds P (ok a) f h = h a
bind-Holds P (fault e) f h = tt

-- A step whose value satisfies `Q`, and then the rest.
pub bind-Holds_of {ℓ κ μ ν} :
    {A : Type ℓ} {B : Type κ} (Q : A → Type ν) (P : B → Type μ) (m : Outcome A) (f : A → Outcome B)
    → Holds Q m
    → ((a : A) → Q a → Holds P (f a))
    → Holds P (m >>= f)
bind-Holds_of Q P (ok a) f q h = h a q
bind-Holds_of Q P (fault e) f q h = tt

-- What follows from it.
pub weaken-Holds {ℓ κ μ} :
    {A : Type ℓ} (P : A → Type κ) (Q : A → Type μ) (m : Outcome A)
    → ((a : A) → P a → Q a)
    → Holds P m
    → Holds Q m
weaken-Holds P Q (ok a) f h = f a h
weaken-Holds P Q (fault e) f h = tt
