-- ===== src/Base/Results.antt =====
-- Results of code that can fail: `err` carries what the failure was.
use mathlib.Core.Path.{◌≡◌, refl, sym, subst}

pub data Result {ℓ κ} (E : Type ℓ) (A : Type κ) : Type (ℓ ⊔ κ) where
  ok : A → Result E A
  err : E → Result E A

module _ {ℓ κ ι} {E : Type ℓ} {A : Type κ} {B : Type ι} where
  infixl 5 ◌>>=◌
  abbrev pub ◌>>=◌ : Result E A → (A → Result E B) → Result E B
  ok a >>= next = next a
  err failure >>= next = err failure

  -- Inversion of a successful bind.
  pub >>=-eq-ok :
      (first : Result E A) (next : A → Result E B) {last : B}
      → (first >>= next) ≡ ok last
      → (mid : A) × (first ≡ ok mid) × (next mid ≡ ok last)
  >>=-eq-ok (ok mid) next h = (mid, refl, h)
  >>=-eq-ok (err failure) next h = cc

-- A run-time panic of Go. Nothing in the program recovers from one.
pub data Panic : Type 0 where
  panic : Panic

abbrev pub Go {ℓ} : Type ℓ → Type ℓ
Go A = Result Panic A

-- What holds of the result, if the code does not panic.
abbrev pub Holds : {A : Type 0} → (A → Type 0) → Go A → Type 0
Holds P (ok a) = P a
Holds P (err panic) = Unit

pub Holds-bind :
    {A B : Type 0} (P : A → Type 0) (Q : B → Type 0) (m : Go A) (f : A → Go B)
    → Holds P m
    → ((a : A) → P a → Holds Q (f a))
    → Holds Q (m >>= f)
Holds-bind P Q (ok a) f h k = k a h
Holds-bind P Q (err panic) f h k = tt

pub Holds-any : {A : Type 0} (m : Go A) → Holds (λ _. Unit {0}) m
Holds-any (ok a) = tt
Holds-any (err panic) = tt

pub Holds-map :
    {A : Type 0} {P Q : A → Type 0} (m : Go A) → ((a : A) → P a → Q a) → Holds P m → Holds Q m
Holds-map (ok a) f h = f a h
Holds-map (err panic) f h = tt

-- The code does not panic, and this holds of its result.
abbrev pub Returns : {A : Type 0} → (A → Type 0) → Go A → Type 0
Returns {A} P m = (a : A) × (m ≡ ok a) × P a

ok_injective : {A : Type 0} {a b : A} → ◌≡◌ {A = Go A} (ok a) (ok b) → a ≡ b
ok_injective h = cc

pub Returns-bind :
    {A B : Type 0} (P : A → Type 0) (Q : B → Type 0) (m : Go A) (f : A → Go B)
    → Returns P m
    → ((a : A) → P a → Returns Q (f a))
    → Returns Q (m >>= f)
Returns-bind P Q (ok a) f (b, e, h) k = k a (subst P (ok_injective (sym e)) h)
Returns-bind P Q (err panic) f h k = cc (h.1)

pub Returns-map :
    {A : Type 0} {P Q : A → Type 0} (m : Go A) → ((a : A) → P a → Q a) → Returns P m → Returns Q m
Returns-map m f h = (h.0, h.1, f h.0 h.2)
