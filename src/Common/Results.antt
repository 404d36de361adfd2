-- ===== src/Common/Results.antt =====
-- Thrown errors as values.
use mathlib.Core.Path.{◌≡◌, refl}
use mathlib.Core.Bool.{Bool, true, false}
use mathlib.Core.Option.{Option, none, some}

-- A call returns a value or throws an error of the component's own type.
pub data Result {ℓ} (Thrown : Type 0) (Value : Type ℓ) : Type ℓ where
  ok : Value → Result Thrown Value
  err : Thrown → Result Thrown Value

-- `if (value === undefined) throw error;`
abbrev pub expect {ℓ} :
    {Thrown : Type 0} {Value : Type ℓ} → Option Value → Thrown → Result Thrown Value
expect (some value) thrown = ok value
expect none thrown = err thrown

infixl 5 ◌>>=◌ ◌>>◌
abbrev pub ◌>>=◌ {ℓ κ} :
    {Thrown : Type 0} {Value : Type ℓ} {Next : Type κ}
    → Result Thrown Value
    → (Value → Result Thrown Next)
    → Result Thrown Next
err thrown >>= next = err thrown
ok value >>= next = next value

-- `if (!test) throw error;`
abbrev pub guard : {Thrown : Type 0} → Bool → Thrown → Result Thrown (Unit {0})
guard false thrown = err thrown
guard true thrown = ok tt

abbrev pub ◌>>◌ {ℓ} :
    {Thrown : Type 0} {Next : Type ℓ}
    → Result Thrown (Unit {0})
    → Result Thrown Next
    → Result Thrown Next
check >> next = check >>= λ done. next

-- What a chain that returned went through, one link at a time.
pub expect-eq-ok {ℓ κ} :
    {Thrown : Type 0} {Value : Type ℓ} {Next : Type κ} (o : Option Value) (thrown : Thrown)
    (next : Value → Result Thrown Next) {last : Next}
    → (expect o thrown >>= next) ≡ ok last
    → (value : Value) × (o ≡ some value) × (next value ≡ ok last)
expect-eq-ok none thrown next returned = cc
expect-eq-ok (some value) thrown next returned = (value, refl, returned)

pub guard-eq-ok {ℓ} :
    {Thrown : Type 0} {Next : Type ℓ} (test : Bool) (thrown : Thrown) (next : Result Thrown Next)
    {last : Next}
    → (guard test thrown >> next) ≡ ok last
    → (test ≡ true) × (next ≡ ok last)
guard-eq-ok false thrown next returned = cc
guard-eq-ok true thrown next returned = (refl, returned)

pub >>=-eq-ok {ℓ κ} :
    {Thrown : Type 0} {Value : Type ℓ} {Next : Type κ} (call : Result Thrown Value)
    (next : Value → Result Thrown Next) {last : Next}
    → (call >>= next) ≡ ok last
    → (value : Value) × (call ≡ ok value) × (next value ≡ ok last)
>>=-eq-ok (err thrown) next returned = cc
>>=-eq-ok (ok value) next returned = (value, refl, returned)

-- What holds of the value, if there is one.
abbrev pub Ensures {ℓ κ} :
    {Thrown : Type 0} {Value : Type ℓ} → (Value → Type κ) → Result Thrown Value → Type κ
Ensures P (err thrown) = Unit
Ensures P (ok value) = P value
