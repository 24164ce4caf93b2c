-- ===== src/Common/Outcome.antt =====
-- Python's exceptions, and the monad of code that returns or raises. A message that the source
-- formats is represented by its fixed part.
use Prim.Native.Nat.{ℕ}
use Prim.Native.String.{String}
use mathlib.Core.Path.{◌≡◌, refl, ap}
use mathlib.Core.Logic.{◌⊎◌, inl, inr}
use mathlib.Core.Bool.{Bool, true, false}
use mathlib.Core.Option.{Option, none, some}
use mathlib.Core.List.{List, [], ◌∷◌}

pub data Exception : Type 0 where
  value_error : String → Exception
  runtime_error : String → Exception
  type_error : Exception
  key_error : String → Exception
  attribute_error : Exception
  index_error : Exception
  http_error : ℕ → Exception
  os_error : Exception
  file_exists_error : Exception
  called_process_error : Exception

pub data Result {ℓ} (A : Type ℓ) : Type ℓ where
  ok : A → Result A
  raise : Exception → Result A

-- What comes after a call that has raised is not run.
module _ {ℓ κ} {A : Type ℓ} {B : Type κ} where
  infixl 5 ◌>>=◌
  abbrev pub ◌>>=◌ : Result A → (A → Result B) → Result B
  raise error >>= next = raise error
  ok value >>= next = next value

  -- Where the whole has returned, so has the call, and what comes after it.
  pub >>=-eq-ok :
      (call : Result A) (next : A → Result B) {result : B}
      → (call >>= next) ≡ ok result
      → (value : A) × (call ≡ ok value) × (next value ≡ ok result)
  >>=-eq-ok (raise error) next returned = cc
  >>=-eq-ok (ok value) next returned = (value, refl, returned)

module _ {ℓ} {B : Type ℓ} where
  infixl 5 ◌>>◌
  abbrev pub ◌>>◌ : Result (Unit {0}) → Result B → Result B
  check >> next = check >>= λ _. next

  pub >>-eq-ok :
      (check : Result (Unit {0})) (next : Result B) {result : B}
      → (check >> next) ≡ ok result
      → (check ≡ ok tt) × (next ≡ ok result)
  >>-eq-ok (raise error) next returned = cc
  >>-eq-ok (ok tt) next returned = (refl, returned)

-- `if not b: raise ValueError(message)`
abbrev pub require : Bool → String → Result (Unit {0})
require true message = ok tt
require false message = raise (value_error message)

-- `if not b: raise error`
abbrev pub require_else : Bool → Exception → Result (Unit {0})
require_else true error = ok tt
require_else false error = raise error

abbrev pub from_option {ℓ} : {A : Type ℓ} → Exception → Option A → Result A
from_option error none = raise error
from_option error (some a) = ok a

-- A list comprehension whose element expression may raise.
abbrev pub traverse {ℓ κ} : {A : Type ℓ} {B : Type κ} → (A → Result B) → List A → Result (List B)
traverse f [] = ok []
traverse f (x ∷ xs) = do y ← f x; ys ← traverse f xs; ok (y ∷ ys)

-- A `for` loop that checks each element.
abbrev pub for_each {ℓ} : {A : Type ℓ} → (A → Result (Unit {0})) → List A → Result (Unit {0})
for_each f [] = ok tt
for_each f (x ∷ xs) = f x >> for_each f xs

pub require-eq-ok : (b : Bool) (message : String) → require b message ≡ ok tt → b ≡ true
require-eq-ok true message h = refl
require-eq-ok false message h = cc

pub require_else-eq-ok : (b : Bool) (error : Exception) → require_else b error ≡ ok tt → b ≡ true
require_else-eq-ok true error h = refl
require_else-eq-ok false error h = cc

module _ {ℓ} {A : Type ℓ} where
  pub Result-cases : (r : Result A) → ((e : Exception) × (r ≡ raise e)) ⊎ ((a : A) × (r ≡ ok a))
  Result-cases (ok a) = inr (a, refl)
  Result-cases (raise e) = inl (e, refl)

  pub ok-injective : {a b : A} → ok a ≡ ok b → a ≡ b
  ok-injective h = cc

  pub from_option-eq-ok :
      (e : Exception) (o : Option A) {a : A} → from_option e o ≡ ok a → o ≡ some a
  from_option-eq-ok e none h = cc
  from_option-eq-ok e (some a) h = ap some (ok-injective h)
