-- ===== src/Base/Fallible.antt =====
-- A Go result `(value, error)`: one of the two.
use mathlib.Core.Path.{◌≡◌, refl, ap}
use mathlib.Core.Logic.{◌⊎◌, inl, inr}
use mathlib.Core.Bool.{Bool, true, false}
use mathlib.Core.Option.{Option, none, some}

pub data Result {ℓ} (E : Type 0) (A : Type ℓ) : Type ℓ where
  ok : A → Result E A
  err : E → Result E A

infixl 5 ◌>>=◌ ◌>>◌
abbrev pub ◌>>=◌ {ℓ κ} :
    {E : Type 0} {A : Type ℓ} {B : Type κ} → Result E A → (A → Result E B) → Result E B
ok a >>= f = f a
err e >>= f = err e

abbrev pub ◌>>◌ {ℓ} : {E : Type 0} {B : Type ℓ} → Result E (Unit {0}) → Result E B → Result E B
m >> k = m >>= λ _. k

-- `if !b { return e }`.
abbrev pub require : {E : Type 0} → Bool → E → Result E (Unit {0})
require true e = ok tt
require false e = err e

-- `v, ok := …; if !ok { return e }`.
abbrev pub expect {ℓ} : {E : Type 0} {A : Type ℓ} → Option A → E → Result E A
expect (some a) e = ok a
expect none e = err e

pub Result-cases {ℓ} :
    {E : Type 0} {A : Type ℓ} (m : Result E A) → ((a : A) × (m ≡ ok a)) ⊎ ((e : E) × (m ≡ err e))
Result-cases (ok a) = inl (a, refl)
Result-cases (err e) = inr (e, refl)

pub ok-injective {ℓ} :
    {E : Type 0} {A : Type ℓ} {a b : A} → ◌≡◌ {A = Result E A} (ok a) (ok b) → a ≡ b
ok-injective {E = E} {A = A} {a = a} e = ap value e
  where
    value : Result E A → A
    value (ok v) = v
    value (err x) = a

pub require-eq-ok : {E : Type 0} (b : Bool) (e : E) {u : Unit {0}} → require b e ≡ ok u → b ≡ true
require-eq-ok true e h = refl
require-eq-ok false e h = cc

-- To take a chain that succeeded apart, one step at a time.
pub after_require {ℓ κ} :
    {E : Type 0} {B : Type ℓ} {C : Type κ} (c : Bool) (e : E) (k : Result E B) {b : B}
    → (require c e >> k) ≡ ok b
    → (c ≡ true → k ≡ ok b → C)
    → C
after_require true e k h use_it = use_it refl h
after_require false e k h use_it = absurd (cc)

pub after_expect {ℓ κ μ} :
    {E : Type 0} {A : Type ℓ} {B : Type κ} {C : Type μ} (o : Option A) (e : E) (k : A → Result E B)
    {b : B}
    → (expect o e >>= k) ≡ ok b
    → ((a : A) → o ≡ some a → k a ≡ ok b → C)
    → C
after_expect (some a) e k h use_it = use_it a refl h
after_expect none e k h use_it = absurd (cc)

pub after_bind {ℓ κ μ} :
    {E : Type 0} {A : Type ℓ} {B : Type κ} {C : Type μ} (m : Result E A) (k : A → Result E B)
    {b : B}
    → (m >>= k) ≡ ok b
    → ((a : A) → m ≡ ok a → k a ≡ ok b → C)
    → C
after_bind (ok a) k h use_it = use_it a refl h
after_bind (err e) k h use_it = absurd (cc)
