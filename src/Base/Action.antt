-- ===== src/Base/Action.antt =====
-- A handler over a store: state and errors. What was written stays written when an error is returned.
use mathlib.Core.Path.{◌≡◌, refl, sym, ap, ◌∙◌}
use mathlib.Core.Bool.{Bool, true, false}
use mathlib.Core.Option.{Option, none, some}
use kexcore_oidc.Base.Fallible.{Result, ok, err}

abbrev pub Action {ℓ} : Type 0 → Type 0 → Type ℓ → Type ℓ
Action S E A = S → S × Result E A

abbrev pub continue {ℓ κ} :
    {S E : Type 0} {A : Type ℓ} {B : Type κ} → (A → Action S E B) → S × Result E A → S × Result E B
continue f (s, ok a) = f a s
continue f (s, err e) = (s, err e)

infixl 5 ◌>>=◌ ◌>>◌
abbrev pub ◌>>=◌ {ℓ κ} :
    {S E : Type 0} {A : Type ℓ} {B : Type κ} → Action S E A → (A → Action S E B) → Action S E B
◌>>=◌ m f s = continue f (m s)

abbrev pub ◌>>◌ {ℓ} :
    {S E : Type 0} {B : Type ℓ} → Action S E (Unit {0}) → Action S E B → Action S E B
m >> k = m >>= λ _. k

module _ {S E : Type 0} where
  abbrev pub pure {ℓ} : {A : Type ℓ} → A → Action S E A
  pure a s = (s, ok a)

  abbrev pub fail {ℓ} : {A : Type ℓ} → E → Action S E A
  fail e s = (s, err e)

  -- A step that does not touch the state.
  abbrev pub lift {ℓ} : {A : Type ℓ} → Result E A → Action S E A
  lift r s = (s, r)

  -- `if !b { return e }`.
  abbrev pub check : Bool → E → Action S E (Unit {0})
  check true e s = (s, ok tt)
  check false e s = (s, err e)

  -- `v, err := store.Get(...); if err != nil { return e }`.
  abbrev pub read {ℓ} : {A : Type ℓ} → (S → Option A) → E → Action S E A
  read f e s = elim (f s) [ none ↦ (s, err e) | some a ↦ (s, ok a) ]

  abbrev pub gets {ℓ} : {A : Type ℓ} → (S → A) → Action S E A
  gets f s = (s, ok (f s))

  abbrev pub change : (S → S) → Action S E (Unit {0})
  change f s = (f s, ok tt)

-- An action succeeds, from one state to another, with a value.
pub record Succeeds {ℓ} {S E : Type 0} {A : Type ℓ} (m : Action S E A) (s s' : S) (a : A)
    : Type ℓ where
  pub outcome : m s ≡ (s', ok a)

-- To take an action that succeeded apart, one step at a time.
module _ {S E : Type 0} where
  pub after {ℓ κ μ} :
      {A : Type ℓ} {B : Type κ} {C : Type μ} (m : Action S E A) (k : A → Action S E B) (s : S)
      {s' : S} {b : B}
      → Succeeds (m >>= k) s s' b
      → ((a : A) (s1 : S) → Succeeds m s s1 a → Succeeds (k a) s1 s' b → C)
      → C
  after {A = A} {B = B} {C = C} m k s {s' = s'} {b = b} h use_it = split (m s) refl h.outcome
    where
      split : (r : S × Result E A) → m s ≡ r → continue k r ≡ (s', ok b) → C
      split (s1, ok a) e g = use_it a s1 (record { outcome = e }) (record { outcome = g })
      split (s1, err x) e g = absurd (cc)

  pub after_lift {ℓ κ μ} :
      {A : Type ℓ} {B : Type κ} {C : Type μ} (r : Result E A) (k : A → Action S E B) (s : S)
      {s' : S} {b : B}
      → Succeeds (lift r >>= k) s s' b
      → ((a : A) → r ≡ ok a → Succeeds (k a) s s' b → C)
      → C
  after_lift (ok a) k s h use_it = use_it a refl (record { outcome = h.outcome })
  after_lift (err x) k s h use_it = absurd (let g = h.outcome in cc)

  pub after_check {κ μ} :
      {B : Type κ} {C : Type μ} (c : Bool) (e : E) (k : Action S E B) (s : S) {s' : S} {b : B}
      → Succeeds (check c e >> k) s s' b
      → (c ≡ true → Succeeds k s s' b → C)
      → C
  after_check true e k s h use_it = use_it refl (record { outcome = h.outcome })
  after_check false e k s h use_it = absurd (let g = h.outcome in cc)

  pub after_read {ℓ κ μ} :
      {A : Type ℓ} {B : Type κ} {C : Type μ} (f : S → Option A) (e : E) (k : A → Action S E B)
      (s : S) {s' : S} {b : B}
      → Succeeds (read f e >>= k) s s' b
      → ((a : A) → f s ≡ some a → Succeeds (k a) s s' b → C)
      → C
  after_read {A = A} {B = B} {C = C} f e k s {s' = s'} {b = b} h use_it = split (f s) refl h.outcome
    where
      split :
          (o : Option A)
          → f s ≡ o
          → continue k (elim o [ none ↦ (s, err e) | some a ↦ (s, ok a) ]) ≡ (s', ok b)
          → C
      split none q g = absurd (cc)
      split (some a) q g = use_it a q (record { outcome = g })

  pub after_gets {ℓ κ μ} :
      {A : Type ℓ} {B : Type κ} {C : Type μ} (f : S → A) (k : A → Action S E B) (s : S) {s' : S}
      {b : B}
      → Succeeds (gets f >>= k) s s' b
      → ((a : A) → f s ≡ a → Succeeds (k a) s s' b → C)
      → C
  after_gets f k s h use_it = use_it (f s) refl (record { outcome = h.outcome })

  -- The state and the value of an outcome.
  pub state_of {ℓ} :
      {A : Type ℓ} {s s' : S} {a b : Result E A} → ◌≡◌ {A = S × Result E A} (s, a) (s', b) → s ≡ s'
  state_of {A = A} e = ap (λ (p : S × Result E A). p.0) e

  pub value_of {ℓ} :
      {A : Type ℓ} {s s' : S} {a b : A} → ◌≡◌ {A = S × Result E A} (s, ok a) (s', ok b) → a ≡ b
  value_of {A = A} {a = a} e = ap (λ (p : S × Result E A). value p.1) e
    where
      value : Result E A → A
      value (ok v) = v
      value (err x) = a

-- What a run of an action gives.
pub record Runs {ℓ} {S E : Type 0} {A : Type ℓ} (m : Action S E A) (s : S) (r : S × Result E A)
    : Type ℓ where
  pub run : m s ≡ r

module _ {S E : Type 0} where
  -- A check that holds is passed, and an action that fails ends the chain.
  pub passes {κ μ} :
      {B : Type κ} {C : Type μ} (c : Bool) (e0 : E) (k : Action S E B) (s : S) {r : S × Result E B}
      → Runs (check c e0 >> k) s r
      → c ≡ true
      → (Runs k s r → C)
      → C
  passes true e0 k s start h use_it = use_it (record { run = start.run })
  passes false e0 k s start h use_it = absurd (cc)

  pub stops {ℓ κ} :
      {A : Type ℓ} {B : Type κ} (m : Action S E A) (k : A → Action S E B) (s : S)
      {r : S × Result E B} {s' : S} {e : E}
      → Runs (m >>= k) s r
      → m s ≡ (s', err e)
      → r ≡ (s', err e)
  stops m k s start f = sym start.run ∙ ap (continue k) f

  pub check_passes {ℓ} :
      {B : Type ℓ} (c : Bool) (e : E) (k : Action S E B) (s : S)
      → c ≡ true
      → (check c e >> k) s ≡ k s
  check_passes true e k s h = refl
  check_passes false e k s h = absurd (cc)

  pub bind_fails {ℓ κ} :
      {A : Type ℓ} {B : Type κ} (m : Action S E A) (k : A → Action S E B) (s : S) (e : E)
      → (m s).1 ≡ err e
      → ((m >>= k) s).1 ≡ err e
  bind_fails {A = A} {B = B} m k s e h = split (m s) h
    where
      split : (r : S × Result E A) → r.1 ≡ err e → (continue k r).1 ≡ err e
      split (s1, ok a) g = absurd (cc)
      split (s1, err x) g = failed x g
        where
          failed :
              (x : E) → ◌≡◌ {A = Result E A} (err x) (err e) → ◌≡◌ {A = Result E B} (err x) (err e)
          failed x g = cc
