-- ===== src/Base/Lists.antt =====
-- Lists measured by native numbers, and kept by a Boolean test.
use Prim.Native.Nat.{ℕ, zero, suc, ◌+◌, ◌≤◌, ◌<◌}
use mathlib.Core.Path.{◌≡◌, refl}
use mathlib.Core.Bool.{Bool, true, false}
use mathlib.Core.Option.{Option, none, some}
use mathlib.Core.List.{List, [], ◌∷◌, ◌++◌}
use native.Mathlib.Omega.{arith}
use kexcore_oidc.Base.Tests.{if◌then◌else◌, leb, Bool-cases}
use mathlib.Core.Logic.{inl, inr}

module _ {ℓ} {A : Type ℓ} where
  abbrev pub length : List A → ℕ
  length [] = 0
  length (x ∷ xs) = suc (length xs)

  abbrev pub get_elem? : List A → ℕ → Option A
  get_elem? [] i = none
  get_elem? (x ∷ xs) zero = some x
  get_elem? (x ∷ xs) (suc i) = get_elem? xs i

  -- The elements that pass the test, in order.
  abbrev pub keep : (A → Bool) → List A → List A
  keep p [] = []
  keep p (x ∷ xs) = if p x then x ∷ keep p xs else keep p xs

  abbrev pub any : (A → Bool) → List A → Bool
  any p [] = false
  any p (x ∷ xs) = if p x then true else any p xs

  pub length-append : (xs ys : List A) → length (xs ++ ys) ≡ length xs + length ys
  length-append [] ys = omega arith
  length-append (x ∷ xs) ys = omega (arith, length-append xs ys)

  pub length-keep : (p : A → Bool) (xs : List A) → length (keep p xs) ≤ length xs
  length-keep p [] = omega arith
  length-keep p (x ∷ xs) = ground (arith, length-keep p xs)

  pub keep-append : (p : A → Bool) (xs ys : List A) → keep p (xs ++ ys) ≡ keep p xs ++ keep p ys
  keep-append p [] ys = refl
  keep-append p (x ∷ xs) ys = ground (arith, keep-append p xs ys)

  -- A coarser test before a finer one changes nothing.
  pub keep-keep :
      (p q : A → Bool)
      → ((x : A) → p x ≡ true → q x ≡ true)
      → (xs : List A) → keep p (keep q xs) ≡ keep p xs
  keep-keep p q h [] = refl
  keep-keep p q h (x ∷ xs) = ground (arith, h x, keep-keep p q h xs)

  abbrev pub All {κ} : (A → Type κ) → List A → Type κ
  All P [] = Unit
  All P (x ∷ xs) = P x × All P xs

-- Insertion sort, for `slices.SortFunc` by the order of the values.
unfoldable pub insert_sorted : ℕ → List ℕ → List ℕ
insert_sorted x [] = x ∷ []
insert_sorted x (y ∷ ys) = if leb x y then x ∷ y ∷ ys else y ∷ insert_sorted x ys

unfoldable pub sort : List ℕ → List ℕ
unfolding insert_sorted
sort [] = []
sort (x ∷ xs) = insert_sorted x (sort xs)

-- How many values are at most `c`.
abbrev pub count_le : ℕ → List ℕ → ℕ
count_le c [] = 0
count_le c (x ∷ xs) = if leb x c then suc (count_le c xs) else count_le c xs

pub count_le-insert_sorted :
    (c x : ℕ) (xs : List ℕ) → count_le c (insert_sorted x xs) ≡ count_le c (x ∷ xs)
unfolding insert_sorted
count_le-insert_sorted c x [] = refl
count_le-insert_sorted c x (y ∷ ys) = ground (arith, count_le-insert_sorted c x ys)

pub count_le-sort : (c : ℕ) (xs : List ℕ) → count_le c (sort xs) ≡ count_le c xs
unfolding sort
count_le-sort c [] = refl
count_le-sort c (x ∷ xs) = ground (arith, count_le-insert_sorted c x (sort xs), count_le-sort c xs)

-- Sorted: each element is at most every later one.
abbrev pub AtLeast : ℕ → List ℕ → Type 0
AtLeast x ys = All (λ y. x ≤ y) ys

abbrev pub IsSorted : List ℕ → Type 0
IsSorted [] = Unit
IsSorted (x ∷ xs) = AtLeast x xs × IsSorted xs

AtLeast-insert_sorted :
    (b x : ℕ) (xs : List ℕ) → b ≤ x → AtLeast b xs → AtLeast b (insert_sorted x xs)
unfolding insert_sorted
AtLeast-insert_sorted b x [] h a = (h, tt)
AtLeast-insert_sorted b x (y ∷ ys) h a = elim (Bool-cases (leb x y)) [
  | inl e ↦ rw e (h, a)
  | inr e ↦ rw e (a.0, AtLeast-insert_sorted b x ys h a.1)
]

AtLeast-weaken : (b x : ℕ) (xs : List ℕ) → b ≤ x → AtLeast x xs → AtLeast b xs
AtLeast-weaken b x [] h a = tt
AtLeast-weaken b x (y ∷ ys) h a = (omega (arith, a.0), AtLeast-weaken b x ys h a.1)

insert_sorted-IsSorted : (x : ℕ) (xs : List ℕ) → IsSorted xs → IsSorted (insert_sorted x xs)
unfolding insert_sorted
insert_sorted-IsSorted x [] s = (tt, tt)
insert_sorted-IsSorted x (y ∷ ys) s = elim (Bool-cases (leb x y)) [
  | inl e ↦ let h : x ≤ y = ground arith in rw e ((h, AtLeast-weaken x y ys h s.0), s)
  | inr e ↦
      let h : y ≤ x = ground arith in
      rw e (AtLeast-insert_sorted y x ys h s.0, insert_sorted-IsSorted x ys s.1)
]

pub sort-IsSorted : (xs : List ℕ) → IsSorted (sort xs)
unfolding sort
sort-IsSorted [] = tt
sort-IsSorted (x ∷ xs) = insert_sorted-IsSorted x (sort xs) (sort-IsSorted xs)

AtLeast-get_elem? : (b i c : ℕ) (xs : List ℕ) → AtLeast b xs → get_elem? xs i ≡ some c → b ≤ c
AtLeast-get_elem? b i c [] a e = cc
AtLeast-get_elem? b zero c (x ∷ xs) a e = ground arith
AtLeast-get_elem? b (suc i) c (x ∷ xs) a e = AtLeast-get_elem? b i c xs a.1 e

-- In a sorted list the element at `i` has at least `i + 1` elements at or below it.
pub count_le-get_elem? :
    (xs : List ℕ) (i c : ℕ) → IsSorted xs → get_elem? xs i ≡ some c → i < count_le c xs
count_le-get_elem? [] i c s e = cc
count_le-get_elem? (x ∷ xs) zero c s e = ground arith
count_le-get_elem? (x ∷ xs) (suc i) c s e =
    ground (arith, AtLeast-get_elem? x i c xs s.0, count_le-get_elem? xs i c s.1)

pub get_elem?-some {ℓ} :
    {A : Type ℓ} (xs : List A) (i : ℕ) → i < length xs → (a : A) × (get_elem? xs i ≡ some a)
get_elem?-some [] i h = absurd (omega arith)
get_elem?-some (x ∷ xs) zero h = (x, refl)
get_elem?-some (x ∷ xs) (suc i) h = get_elem?-some xs i (omega arith)

length-insert_sorted : (x : ℕ) (xs : List ℕ) → length (insert_sorted x xs) ≡ suc (length xs)
unfolding insert_sorted
length-insert_sorted x [] = refl
length-insert_sorted x (y ∷ ys) = ground (arith, length-insert_sorted x ys)

pub length-sort : (xs : List ℕ) → length (sort xs) ≡ length xs
unfolding sort
length-sort [] = refl
length-sort (x ∷ xs) = ground (arith, length-insert_sorted x (sort xs), length-sort xs)
