-- ===== src/Prelude/Results.antt =====
-- Python code that returns or raises.
use mathlib.Core.Path.{◌≡◌, refl}
use mathlib.Core.Option.{Option, none, some}

-- The exceptions that the modelled code raises or lets through, by the class of the exception.
pub data Error : Type 0 where
  does_not_exist : Error
  multiple_objects_returned : Error
  validation_error : Error
  already_exists : Error
  integrity_error : Error
  key_error : Error
  value_error : Error

pub data Result {ℓ} (A : Type ℓ) : Type ℓ where
  err : Error → Result A
  ok : A → Result A

-- The statements that follow one that may raise.
infixl 5 ◌>>=◌
abbrev pub ◌>>=◌ {ℓ κ} : {A : Type ℓ} {B : Type κ} → Result A → (A → Result B) → Result B
◌>>=◌ (err raised) rest = err raised
◌>>=◌ (ok value) rest = rest value

-- Objects.get(...): the row, or DoesNotExist.
abbrev pub or_raise {ℓ} : {A : Type ℓ} → Error → Option A → Result A
or_raise e none = err e
or_raise e (some a) = ok a

-- A sequence that returns: its first statement returned, and then the rest did.
pub bind-eq-ok {ℓ κ} :
    {A : Type ℓ} {B : Type κ} (start : Result A) (rest : A → Result B) {end_ : B}
    → (start >>= rest) ≡ ok end_
    → (value : A) × (start ≡ ok value) × (rest value ≡ ok end_)
bind-eq-ok (err raised) rest h = cc
bind-eq-ok (ok value) rest h = (value, refl, h)

-- The same where the first step reads a row.
pub or_raise-eq-ok {ℓ κ} :
    {A : Type ℓ} {B : Type κ} (e : Error) (o : Option A) (f : A → Result B) {b : B}
    → (or_raise e o >>= f) ≡ ok b
    → (a : A) × (o ≡ some a) × (f a ≡ ok b)
or_raise-eq-ok e none f h = cc
or_raise-eq-ok e (some a) f h = (a, refl, h)

pub ok-injective {ℓ} : {A : Type ℓ} (a b : A) → ok a ≡ ok b → a ≡ b
ok-injective a b h = cc
