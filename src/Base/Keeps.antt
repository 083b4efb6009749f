-- ===== src/Base/Keeps.antt =====
-- Properties of the state that an action keeps, whether it succeeds or not.
use mathlib.Core.Bool.{Bool, true, false}
use mathlib.Core.Option.{Option, none, some}
use kexcore_oidc.Base.Fallible.{Result, ok, err}
use kexcore_oidc.Base.Action.{
  Action, ◌>>=◌, ◌>>◌, continue, pure, fail, lift, check, read, gets, change,
}

pub record Keeps {ℓ} {S E : Type 0} {A : Type ℓ} (P : S → Type 0) (m : Action S E A) : Type ℓ where
  pub kept : (s : S) → P s → P (m s).0

module _ {S E : Type 0} (P : S → Type 0) where
  pub bind-Keeps {ℓ μ} :
      {A : Type ℓ} {B : Type μ} (m : Action S E A) (k : A → Action S E B)
      → Keeps P m
      → ((a : A) → Keeps P (k a))
      → Keeps P (m >>= k)
  bind-Keeps {A = A} m k hm hk = record { kept = λ s p. split (m s) (hm.kept s p) }
    where
      split : (r : S × Result E A) → P r.0 → P (continue k r).0
      split (s1, ok a) q = (hk a).kept s1 q
      split (s1, err e) q = q

  -- A property that the first step brings about, and that the rest keeps.
  pub bind-reaches {ℓ μ} :
      {A : Type ℓ} {B : Type μ} (m : Action S E A) (k : A → Action S E B) (s : S)
      → P (m s).0
      → ((a : A) → Keeps P (k a))
      → P ((m >>= k) s).0
  bind-reaches {A = A} m k s reached hk = split (m s) reached
    where
      split : (r : S × Result E A) → P r.0 → P (continue k r).0
      split (s1, ok a) q = (hk a).kept s1 q
      split (s1, err e) q = q

  pub then-Keeps {μ} :
      {B : Type μ} (m : Action S E (Unit {0})) (k : Action S E B)
      → Keeps P m
      → Keeps P k
      → Keeps P (m >> k)
  then-Keeps m k hm hk = bind-Keeps m (λ _. k) hm (λ _. hk)

  pub pure-Keeps {ℓ} : {A : Type ℓ} (a : A) → Keeps P (pure {S = S} {E = E} a)
  pure-Keeps a = record { kept = λ s p. p }

  pub fail-Keeps {ℓ} : {A : Type ℓ} (e : E) → Keeps P (fail {S = S} {E = E} {A = A} e)
  fail-Keeps e = record { kept = λ s p. p }

  pub change-Keeps : (f : S → S) → ((s : S) → P s → P (f s)) → Keeps P (change {S = S} {E = E} f)
  change-Keeps f h = record { kept = h }

  -- A step that leaves the state alone, before one that keeps the property.
  pub lift-Keeps {ℓ μ} :
      {A : Type ℓ} {B : Type μ} (r : Result E A) (k : A → Action S E B)
      → ((a : A) → Keeps P (k a))
      → Keeps P (lift r >>= k)
  lift-Keeps r k hk = bind-Keeps (lift r) k (record { kept = λ s p. p }) hk

  pub gets-Keeps {ℓ μ} :
      {A : Type ℓ} {B : Type μ} (f : S → A) (k : A → Action S E B)
      → ((a : A) → Keeps P (k a))
      → Keeps P (gets f >>= k)
  gets-Keeps f k hk = bind-Keeps (gets f) k (record { kept = λ s p. p }) hk

  pub check-Keeps {μ} :
      {B : Type μ} (b : Bool) (e : E) (k : Action S E B) → Keeps P k → Keeps P (check b e >> k)
  check-Keeps true e k hk = record { kept = hk.kept }
  check-Keeps false e k hk = record { kept = λ s p. p }

  pub read-Keeps {ℓ μ} :
      {A : Type ℓ} {B : Type μ} (f : S → Option A) (e : E) (k : A → Action S E B)
      → ((a : A) → Keeps P (k a))
      → Keeps P (read f e >>= k)
  read-Keeps {A = A} f e k hk = record { kept = λ s p. split s p (f s) }
    where
      split :
          (s : S)
          → P s
          → (o : Option A) → P (continue k (elim o [ none ↦ (s, err e) | some a ↦ (s, ok a) ])).0
      split s p none = p
      split s p (some a) = (hk a).kept s p
