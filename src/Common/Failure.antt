-- ===== src/Common/Failure.antt =====
-- A call that may throw: `ok` its value, or `throw` the message of the error.
use Prim.Native.String.{String}
use mathlib.Core.Path.{◌≡◌, refl}
use mathlib.Core.Logic.{◌⊎◌, inl, inr}
use mathlib.Core.Bool.{Bool, true, false}
use mathlib.Core.Option.{Option, none, some}

pub data Result {ℓ} (A : Type ℓ) : Type ℓ where
  ok : A → Result A
  throw : String → Result A

-- `undefined` turned into an error
abbrev pub or_throw {ℓ} : {A : Type ℓ} → String → Option A → Result A
or_throw message (some a) = ok a
or_throw message none = throw message

-- `if(!test) throw new Error(message)`
abbrev pub guard : Bool → String → Result (Unit {0})
guard test message = or_throw message (elim test [ true ↦ some tt | false ↦ none ])

-- an exception skips the statements that follow
infixl 5 ◌>>=◌ ◌>>◌
abbrev pub ◌>>=◌ {ℓ κ} : {A : Type ℓ} {B : Type κ} → Result A → (A → Result B) → Result B
throw message >>= then = throw message
ok value >>= then = then value

abbrev pub ◌>>◌ {κ} : {B : Type κ} → Result (Unit {0}) → Result B → Result B
throw message >> after = throw message
ok done >> after = after

-- the steps of a block that ended well ended well
pub >>=-eq-ok {ℓ κ} :
    {A : Type ℓ} {B : Type κ} {result : B} (first : Result A) (then : A → Result B)
    → (first >>= then) ≡ ok result
    → (value : A) × (first ≡ ok value) × (then value ≡ ok result)
>>=-eq-ok (throw message) then h = cc
>>=-eq-ok (ok value) then h = (value, refl, h)

pub ok-inj {ℓ} : {A : Type ℓ} {a b : A} → ok a ≡ ok b → a ≡ b
ok-inj h = cc

pub Result-cases {ℓ} :
    {A : Type ℓ} (r : Result A)
    → ((a : A) × (r ≡ ok a)) ⊎ ((message : String) × (r ≡ throw message))
Result-cases (ok a) = inl (a, refl)
Result-cases (throw message) = inr (message, refl)
