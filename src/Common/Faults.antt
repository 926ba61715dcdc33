-- ===== src/Common/Faults.antt =====
-- Results of code that may stop: a C++ fault (a failed ASSERT, a null pointer, an access outside
-- a buffer) is a value.
use mathlib.Core.Path.{◌≡◌, refl, subst, ap}
use mathlib.Core.Bool.{Bool, true, false}
use wifi_audio.Common.Tests.{if◌then◌else◌}
use mathlib.Core.Logic.{◌≢◌}

pub data Fault : Type 0 where
  assertion null_pointer out_of_bounds : Fault
  -- Not a fault of the code: the fuel of a loop ran out.
  out_of_fuel : Fault

pub data Outcome {ℓ} (A : Type ℓ) : Type ℓ where
  ret : A → Outcome A
  fault : Fault → Outcome A

infixl 5 ◌>>=◌ ◌>>◌
abbrev pub ◌>>=◌ {ℓ κ} : {A : Type ℓ} {B : Type κ} → Outcome A → (A → Outcome B) → Outcome B
ret a >>= f = f a
fault e >>= f = fault e

abbrev pub ◌>>◌ {ℓ} : {B : Type ℓ} → Outcome (Unit {0}) → Outcome B → Outcome B
m >> k = m >>= λ _. k

-- `ASSERT`
abbrev pub assert : Bool → Outcome (Unit {0})
assert true = ret tt
assert false = fault Fault.assertion

pub ret_inj {ℓ} : {A : Type ℓ} {a b : A} → ret a ≡ ret b → a ≡ b
ret_inj {A = A} {a = a} e = ap (λ m. value a m) e
  where
    value : A → Outcome A → A
    value a (ret b) = b
    value a (fault f) = a

pub >>=-eq-ret {ℓ κ} :
    {A : Type ℓ} {B : Type κ} (m : Outcome A) (f : A → Outcome B) {b : B}
    → (m >>= f) ≡ ret b
    → (a : A) × (m ≡ ret a) × (f a ≡ ret b)
>>=-eq-ret (ret a) f h = (a, refl, h)
>>=-eq-ret (fault e) f h = cc

-- If the code returns, the result is as stated, and if it stops, the fault is one of `E`.
pub data Ensures {ℓ κ} {A : Type ℓ} (E : Fault → Type 0) (Q : A → Type κ)
    : Outcome A → Type (ℓ ⊔ κ) where
  returns : {a : A} → Q a → Ensures E Q (ret a)
  stops : {e : Fault} → E e → Ensures E Q (fault e)

-- No ASSERT fails.
abbrev pub NotAssertion : Fault → Type 0
NotAssertion e = e ≢ Fault.assertion

pub null_pointer-NotAssertion : NotAssertion Fault.null_pointer
null_pointer-NotAssertion e = cc

pub out_of_bounds-NotAssertion : NotAssertion Fault.out_of_bounds
out_of_bounds-NotAssertion e = cc

pub out_of_fuel-NotAssertion : NotAssertion Fault.out_of_fuel
out_of_fuel-NotAssertion e = cc

abbrev pub Asserts {ℓ κ} : {A : Type ℓ} (Q : A → Type κ) → Outcome A → Type (ℓ ⊔ κ)
Asserts Q m = Ensures NotAssertion Q m

abbrev pub NoAssert {ℓ} : {A : Type ℓ} → Outcome A → Type ℓ
NoAssert m = Asserts (λ a. Unit {0}) m

module _ {ℓ κ} {A : Type ℓ} {E : Fault → Type 0} {Q : A → Type κ} where
  pub Ensures-ret : {a : A} → Ensures E Q (ret a) → Q a
  Ensures-ret (returns q) = q

  pub Ensures-fault : {e : Fault} → Ensures E Q (fault e) → E e
  Ensures-fault (stops h) = h

  pub Ensures-eq : {m : Outcome A} {a : A} → Ensures E Q m → m ≡ ret a → Q a
  Ensures-eq {a = a} h e = Ensures-ret (subst (Ensures E Q) e h)

  pub Ensures-if :
      (b : Bool) {m n : Outcome A}
      → Ensures E Q m
      → Ensures E Q n
      → Ensures E Q (if b then m else n)
  Ensures-if true p q = p
  Ensures-if false p q = q

-- The rule for a sequence of two steps.
pub Ensures-bind {ℓ κ ℓ' κ'} :
    {A : Type ℓ} {B : Type ℓ'} {E : Fault → Type 0} {Q : A → Type κ} {R : B → Type κ'}
    {m : Outcome A} (f : A → Outcome B)
    → Ensures E Q m
    → ((a : A) → Q a → Ensures E R (f a))
    → Ensures E R (m >>= f)
Ensures-bind f (returns {a} q) h = h a q
Ensures-bind f (stops n) h = stops n

pub Ensures-weaken {ℓ κ κ'} :
    {A : Type ℓ} {E F : Fault → Type 0} {Q : A → Type κ} {R : A → Type κ'} {m : Outcome A}
    → ((e : Fault) → E e → F e)
    → ((a : A) → Q a → R a)
    → Ensures E Q m
    → Ensures F R m
Ensures-weaken f g (returns q) = returns (g _ q)
Ensures-weaken f g (stops n) = stops (f _ n)

-- What is known of code that nothing is assumed of.
pub any_outcome {ℓ} : {A : Type ℓ} (m : Outcome A) → Ensures (λ e. Unit {0}) (λ a. Unit {0}) m
any_outcome (ret a) = returns tt
any_outcome (fault e) = stops tt

pub any_result {ℓ} : {A : Type ℓ} (m : Outcome A) → Ensures (λ e. Unit {0}) (λ a. m ≡ ret a) m
any_result (ret a) = returns refl
any_result (fault e) = stops tt

pub Ensures-both {ℓ κ κ'} :
    {A : Type ℓ} {E : Fault → Type 0} {Q : A → Type κ} {R : A → Type κ'} {m : Outcome A}
    → Ensures E Q m
    → Ensures E R m
    → Ensures E (λ a. Q a × R a) m
Ensures-both (returns q) h = returns (q, Ensures-ret h)
Ensures-both (stops n) h = stops n
