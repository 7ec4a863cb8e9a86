-- ===== src/Prelude/Result.antt =====
-- Raised exceptions as values: the classes that the modelled code raises, and `do` over them.
use mathlib.Core.Path.{◌≡◌, refl}

pub data Error : Type 0 where
  value_error key_error index_error io_error runtime_error integrity_error : Error

pub data Result {ℓ} (A : Type ℓ) : Type ℓ where
  ok : A → Result A
  err : Error → Result A

infixl 5 ◌>>=◌ ◌>>◌
-- The first exception is the one that is seen.
abbrev pub ◌>>=◌ {ℓ κ} :
    {Value : Type ℓ} {Out : Type κ} → Result Value → (Value → Result Out) → Result Out
r >>= next = elim r [ err raised ↦ err raised | ok value ↦ next value ]

abbrev pub ◌>>◌ {κ} : {Out : Type κ} → Result (Unit {0}) → Result Out → Result Out
check >> rest = check >>= λ _. rest

-- Inversion of a successful bind.
pub >>=-eq-ok {ℓ κ} :
    {Value : Type ℓ} {Out : Type κ} (r : Result Value) (next : Value → Result Out) {out : Out}
    → (r >>= next) ≡ ok out
    → (value : Value) × (r ≡ ok value) × (next value ≡ ok out)
>>=-eq-ok (err raised) next e = cc
>>=-eq-ok (ok value) next e = (value, refl, e)
