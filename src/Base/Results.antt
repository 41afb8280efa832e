-- ===== src/Base/Results.antt =====
-- What a call of the program comes to: a result, a stop (a failed `assert`, or a read through a
-- null pointer), or a loop that goes on after the rounds that the model allows it.
use mathlib.Core.Path.{◌≡◌, refl}
use mathlib.Core.Bool.{Bool, true, false}
use z3_engine.Base.Tests.{if◌then◌else◌}
use mathlib.Core.Logic.{◌⊎◌, inl, inr, ◌≢◌}

pub data Outcome {ℓ} (R : Type ℓ) : Type ℓ where
  hangs fault : Outcome R
  ok : (result : R) → Outcome R

infixl 5 ◌>>=◌
abbrev pub ◌>>=◌ {κ ℓ} :
    {S : Type κ} {R : Type ℓ} (first : Outcome R) (next : R → Outcome S) → Outcome S
hangs >>= next = hangs
fault >>= next = fault
ok result >>= next = next result

pub Outcome-cases {ℓ} :
    {A : Type ℓ} (o : Outcome A) → ((a : A) × (o ≡ ok a)) ⊎ ((o ≡ fault) ⊎ (o ≡ hangs))
Outcome-cases (ok a) = inl (a, refl)
Outcome-cases fault = inr (inl refl)
Outcome-cases hangs = inr (inr refl)

pub >>=-eq-ok {κ ℓ} :
    {S : Type κ} {R : Type ℓ} (first : Outcome R) (next : R → Outcome S) {out : S}
    → (first >>= next) ≡ ok out
    → (mid : R) × (first ≡ ok mid) × (next mid ≡ ok out)
>>=-eq-ok hangs next e = cc
>>=-eq-ok fault next e = cc
>>=-eq-ok (ok mid) next e = (mid, refl, e)

pub ok-injective {ℓ} : {A : Type ℓ} {a b : A} → ok a ≡ ok b → a ≡ b
ok-injective e = cc

-- The call comes to an end, with a result or a stop.
abbrev pub Halts {ℓ} : {A : Type ℓ} → Outcome A → Type ℓ
Halts o = o ≢ hangs

pub >>=-Halts {κ ℓ} :
    {S : Type κ} {R : Type ℓ} (first : Outcome R) (next : R → Outcome S)
    → Halts first
    → ((mid : R) → first ≡ ok mid → Halts (next mid))
    → Halts (first >>= next)
>>=-Halts hangs next h k = λ e. h refl
>>=-Halts fault next h k = λ e. cc
>>=-Halts (ok mid) next h k = k mid refl

pub ok-Halts {ℓ} : {A : Type ℓ} (a : A) → Halts (ok a)
ok-Halts a = λ e. cc

pub then-ok-Halts {κ ℓ} :
    {S : Type κ} {R : Type ℓ} (m : Outcome R) (f : R → S) → Halts m → Halts (m >>= λ r. ok (f r))
then-ok-Halts m f h = >>=-Halts m (λ r. ok (f r)) h (λ r _. ok-Halts (f r))

pub if-Halts {ℓ} :
    {A : Type ℓ} (b : Bool) (x y : Outcome A) → Halts x → Halts y → Halts (if b then x else y)
if-Halts true x y h k = h
if-Halts false x y h k = k
