-- ===== src/Printf/Outcome.antt =====
-- How a call of `terminal_printf` may go: a failed `assert` stops the machine, and a signed overflow or
-- a read outside of an array has no defined result. `out_of_fuel` is the model's own.
use os_c.Prelude.{Bool, true, false, ◌≡◌, refl}

pub data Result {α} (X : Type α) : Type α where
  ok : X → Result X
  halted : Result X
  fault : Result X
  out_of_fuel : Result X

infixl 5 ◌>>=◌ ◌>>◌
-- what follows runs where the call returned
abbrev pub ◌>>=◌ {α β} : {X : Type α} {Y : Type β} → Result X → (X → Result Y) → Result Y
ok x >>= next = next x
halted >>= next = halted
fault >>= next = fault
out_of_fuel >>= next = out_of_fuel

abbrev pub ◌>>◌ {β} : {Y : Type β} → Result (Unit {0}) → Result Y → Result Y
check >> next = check >>= λ done. next

-- `assert` of src/assert.h; `_os_assert` ends in `hlt`
abbrev pub assert : Bool → Result (Unit {0})
assert true = ok tt
assert false = halted

-- Where the whole returns, so do the call and what follows it.
pub >>=-eq-ok {α β} :
    {X : Type α} {Y : Type β} (call : Result X) (next : X → Result Y) {out : Y}
    → (call >>= next) ≡ ok out
    → (x : X) × (call ≡ ok x) × (next x ≡ ok out)
>>=-eq-ok (ok x) next returned = (x, refl, returned)
>>=-eq-ok halted next returned = cc
>>=-eq-ok fault next returned = cc
>>=-eq-ok out_of_fuel next returned = cc

-- The laws of the bind.
pub >>=-ext {ℓ κ} :
    {A : Type ℓ} {B : Type κ} (m : Result A) (f g : A → Result B)
    → ((a : A) → m ≡ ok a → f a ≡ g a)
    → (m >>= f) ≡ (m >>= g)
>>=-ext (ok a) f g h = h a refl
>>=-ext halted f g h = refl
>>=-ext fault f g h = refl
>>=-ext out_of_fuel f g h = refl

pub >>=-assoc {ℓ κ ι} :
    {A : Type ℓ} {B : Type κ} {C : Type ι} (r : Result A) (f : A → Result B) (g : B → Result C)
    → ((r >>= f) >>= g) ≡ (r >>= λ a. f a >>= g)
>>=-assoc (ok a) f g = refl
>>=-assoc halted f g = refl
>>=-assoc fault f g = refl
>>=-assoc out_of_fuel f g = refl

pub >>=-ok {ℓ} : {A : Type ℓ} (r : Result A) → (r >>= λ a. ok a) ≡ r
>>=-ok (ok a) = refl
>>=-ok halted = refl
>>=-ok fault = refl
>>=-ok out_of_fuel = refl
