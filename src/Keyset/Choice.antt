-- ===== src/Keyset/Choice.antt =====
-- pkg/protocol/keyset.go: which key is found.
use kexcore_oidc.Base.{
  String, ◌≡◌, refl, sym, ap, ◌∙◌, ◌⊎◌, inl, inr, Bool, true, ◌&&◌, Option, none, some, List, [],
  ◌∷◌, ◌++◌, arith, eq_iff, if◌then◌else◌, Bool-cases, Option-cases, keep, Result, ok, err,
  contains, not, false, ◌||◌, ◌==◌, eqb, length,
}
use kexcore_oidc.Keyset.{
  Jwk, KeyError, alg_to_key_type, is_usable, is_exact, is_candidate, pick, find_loop,
  find_matching_key, key_none, key_multiple,
}
use text.Mathlib.Text.{starts_with}
use mathlib.Core.List.{append-nil, append_assoc}

-- The usable keys that name no other key id: what the loop collects.
abbrev pub candidates : (key_id use_for alg : String) → List Jwk → List Jwk
candidates key_id use_for alg ks = keep (λ k. is_usable use_for alg k && is_candidate key_id k) ks

-- The first usable key with the id.
abbrev pub first_exact : (key_id use_for alg : String) → List Jwk → Option Jwk
first_exact key_id use_for alg [] = none
first_exact key_id use_for alg (k ∷ ks) =
    if is_usable use_for alg k && is_exact key_id k
    then some k
    else first_exact key_id use_for alg ks

abbrev pub prefer : Option Jwk → Result KeyError Jwk → Result KeyError Jwk
prefer (some k) r = ok k
prefer none r = r

find_loop-eq :
    (key_id use_for alg : String) (ks valid : List Jwk)
    → find_loop key_id use_for alg ks valid
      ≡ prefer
          (first_exact key_id use_for alg ks)
          (pick (valid ++ candidates key_id use_for alg ks))
unfolding find_loop
find_loop-eq key_id use_for alg [] valid = rw append-nil
find_loop-eq key_id use_for alg (k ∷ ks) valid =
    let here = is_usable use_for alg k in
    elim (Bool-cases (here && is_exact key_id k)) [
      | inl e ↦ rw e refl
      | inr e ↦ elim (Bool-cases (here && is_candidate key_id k)) [
        | inl c ↦
            rw (e, c)
              (find_loop-eq key_id use_for alg ks (valid ++ k ∷ [])
                ∙ ap (λ (l : List Jwk). prefer (first_exact key_id use_for alg ks) (pick l))
                    (append_assoc valid (k ∷ []) (candidates key_id use_for alg ks)))
        | inr c ↦ rw (e, c) (find_loop-eq key_id use_for alg ks valid)
      ]
    ]

find_matching_key-first_exact :
    (key_id use_for alg : String) (ks : List Jwk)
    → find_matching_key key_id use_for alg ks
      ≡ prefer (first_exact key_id use_for alg ks) (pick (candidates key_id use_for alg ks))
unfolding find_matching_key
find_matching_key-first_exact key_id use_for alg ks = find_loop-eq key_id use_for alg ks []

-- The rule, written on its own. The key type that an algorithm needs:
abbrev pub family_of : (rsa ec okp : Bool) → Option String
family_of true ec okp = some "RSA"
family_of false true okp = some "EC"
family_of false false true = some "OKP"
family_of false false false = none

abbrev pub key_family : (alg : String) → Option String
key_family alg =
    family_of (starts_with alg "RS" || starts_with alg "PS")
      (starts_with alg "ES" || (alg == "SGD_SM3_SM2")) (alg == "EdDSA")

-- A key for this use and algorithm.
abbrev pub serves : (use_for alg : String) → Jwk → Bool
serves use_for alg k =
    contains ("" ∷ use_for ∷ []) k.use_for
    && elim (key_family alg) [ none ↦ false | some family ↦ k.kty == family ]

-- The first key for it that has the token's key id.
abbrev pub first_named : (key_id use_for alg : String) → List Jwk → Option Jwk
first_named key_id use_for alg [] = none
first_named key_id use_for alg (k ∷ ks) =
    if serves use_for alg k && (not (key_id == "") && (key_id == k.kid))
    then some k
    else first_named key_id use_for alg ks

-- The keys for it that cannot be told apart by an id: the key has none, or the token.
abbrev pub unnamed : (key_id use_for alg : String) → List Jwk → List Jwk
unnamed key_id use_for alg ks =
    keep (λ k. serves use_for alg k && ((key_id == "") || ("" == k.kid))) ks

-- The element of a list of one.
abbrev pub the_only : List Jwk → Result KeyError Jwk
the_only [] = err key_none
the_only (k ∷ ks) = if eqb (length ks) 0 then ok k else err key_multiple

is_usable-serves : (use_for alg : String) (k : Jwk) → is_usable use_for alg k ≡ serves use_for alg k
unfolding alg_to_key_type
is_usable-serves use_for alg k =
    by_family (starts_with alg "RS" || starts_with alg "PS")
      (starts_with alg "ES" || (alg == "SGD_SM3_SM2")) (alg == "EdDSA")
      ((k.use_for == use_for) || (k.use_for == "")) (contains ("" ∷ use_for ∷ []) k.use_for)
      (ground (
        arith,
        eq_iff k.use_for use_for,
        eq_iff use_for k.use_for,
        eq_iff k.use_for "",
        eq_iff "" k.use_for,
      ))
  where
    by_family :
        (rsa ec okp used used' : Bool)
        → used ≡ used'
        → (used
            && (if rsa
                then k.kty == "RSA"
                else if ec
                then k.kty == "EC"
                else if okp
                then k.kty == "OKP"
                else false))
          ≡ (used' && elim (family_of rsa ec okp) [ none ↦ false | some family ↦ k.kty == family ])
    by_family true ec okp used used' e = ap (λ (b : Bool). b && (k.kty == "RSA")) e
    by_family false true okp used used' e = ap (λ (b : Bool). b && (k.kty == "EC")) e
    by_family false false true used used' e = ap (λ (b : Bool). b && (k.kty == "OKP")) e
    by_family false false false used used' e = ap (λ (b : Bool). b && false) e

first_exact-named :
    (key_id use_for alg : String) (ks : List Jwk)
    → first_exact key_id use_for alg ks ≡ first_named key_id use_for alg ks
first_exact-named key_id use_for alg [] = refl
first_exact-named key_id use_for alg (k ∷ ks) =
    let same = is_usable-serves use_for alg k in
    let rest = first_exact-named key_id use_for alg ks in
    ground (arith, eq_iff k.kid key_id, eq_iff key_id k.kid, eq_iff key_id "", same, rest)

candidates-unnamed :
    (key_id use_for alg : String) (ks : List Jwk)
    → candidates key_id use_for alg ks ≡ unnamed key_id use_for alg ks
candidates-unnamed key_id use_for alg [] = refl
candidates-unnamed key_id use_for alg (k ∷ ks) =
    let same = is_usable-serves use_for alg k in
    let rest = candidates-unnamed key_id use_for alg ks in
    ground (arith, eq_iff k.kid "", eq_iff "" k.kid, eq_iff key_id "", same, rest)

pick-the_only : (ks : List Jwk) → pick ks ≡ the_only ks
pick-the_only [] = refl
pick-the_only (k ∷ []) = refl
pick-the_only (k ∷ k' ∷ ks) = ground arith

-- The loop answers by a plain rule, with the key type of the algorithm and the use of the token: the
-- first such key with the token's key id if there is one, and otherwise the only such key where the
-- key or the token has no id; none or several of these are two different errors.
pub find_matching_key-eq :
    (key_id use_for alg : String) (ks : List Jwk)
    → find_matching_key key_id use_for alg ks
      ≡ prefer (first_named key_id use_for alg ks) (the_only (unnamed key_id use_for alg ks))
find_matching_key-eq key_id use_for alg ks =
    rw
      (
        find_matching_key-first_exact key_id use_for alg ks,
        first_exact-named key_id use_for alg ks,
        candidates-unnamed key_id use_for alg ks,
        pick-the_only (unnamed key_id use_for alg ks),
      )
      refl

-- That a key is in a list.
abbrev pub Held : Jwk → List Jwk → Type 0
Held k [] = ⊥
Held k (x ∷ xs) = (x ≡ k) ⊎ Held k xs

first_exact-Held :
    (key_id use_for alg : String) (ks : List Jwk) (k : Jwk)
    → first_exact key_id use_for alg ks ≡ some k
    → Held k ks
first_exact-Held key_id use_for alg [] k e = cc
first_exact-Held key_id use_for alg (x ∷ ks) k e =
    elim (Bool-cases (is_usable use_for alg x && is_exact key_id x)) [
      | inl h ↦ inl (some-eq (rw h at e))
      | inr h ↦ inr (first_exact-Held key_id use_for alg ks k (rw h at e))
    ]
  where
    some-eq : {a b : Jwk} → some a ≡ some b → a ≡ b
    some-eq p = cc

head-keep-Held : (p : Jwk → Bool) (ks rest : List Jwk) (k : Jwk) → keep p ks ≡ k ∷ rest → Held k ks
head-keep-Held p [] rest k e = cc
head-keep-Held p (x ∷ ks) rest k e = elim (Bool-cases (p x)) [
  | inl h ↦ inl (cons-eq (rw h at e))
  | inr h ↦ inr (head-keep-Held p ks rest k (rw h at e))
]
  where
    cons-eq : {a b : Jwk} {l m : List Jwk} → a ∷ l ≡ b ∷ m → a ≡ b
    cons-eq q = cc

first_exact-holds :
    (key_id use_for alg : String) (ks : List Jwk) (k : Jwk)
    → first_exact key_id use_for alg ks ≡ some k
    → (is_usable use_for alg k && is_exact key_id k) ≡ true
first_exact-holds key_id use_for alg [] k e = cc
first_exact-holds key_id use_for alg (x ∷ ks) k e =
    elim (Bool-cases (is_usable use_for alg x && is_exact key_id x)) [
      | inl h ↦ let same : x ≡ k = some-eq (rw h at e) in rw (← same) h
      | inr h ↦ first_exact-holds key_id use_for alg ks k (rw h at e)
    ]
  where
    some-eq : {a b : Jwk} → some a ≡ some b → a ≡ b
    some-eq p = cc

head-keep : (p : Jwk → Bool) (ks rest : List Jwk) (k : Jwk) → keep p ks ≡ k ∷ rest → p k ≡ true
head-keep p [] rest k e = cc
head-keep p (x ∷ ks) rest k e = elim (Bool-cases (p x)) [
  | inl h ↦ let same : x ≡ k = cons-eq (rw h at e) in rw (← same) h
  | inr h ↦ head-keep p ks rest k (rw h at e)
]
  where
    cons-eq : {a b : Jwk} {l m : List Jwk} → a ∷ l ≡ b ∷ m → a ≡ b
    cons-eq q = cc

pick-eq-ok : (l : List Jwk) (k : Jwk) → pick l ≡ ok k → l ≡ k ∷ []
pick-eq-ok [] k e = cc
pick-eq-ok (x ∷ []) k e = ground arith
pick-eq-ok (x ∷ y ∷ l) k e = cc

-- A key that is found fits the usage and the algorithm, and no two different key ids are confused:
-- the ids are the same, or one of them is missing.
pub find_matching_key_sound :
    (key_id use_for alg : String) (ks : List Jwk) (k : Jwk)
    → find_matching_key key_id use_for alg ks ≡ ok k
    → (alg_to_key_type k alg ≡ true)
      × ((k.use_for ≡ use_for) ⊎ (k.use_for ≡ ""))
      × ((k.kid ≡ key_id) ⊎ ((k.kid ≡ "") ⊎ (key_id ≡ "")))
find_matching_key_sound key_id use_for alg ks k e =
    let ruled = sym (find_matching_key-first_exact key_id use_for alg ks) ∙ e in
    elim (Option-cases (first_exact key_id use_for alg ks)) [
      | inl none_exact ↦
          let alone = pick-eq-ok (candidates key_id use_for alg ks) k (rw none_exact at ruled) in
          let h = head-keep (λ x. is_usable use_for alg x && is_candidate key_id x) ks [] k alone in
          facts h
      | inr (x, exact) ↦
          let same : x ≡ k = ok-eq (rw exact at ruled) in
          let h = first_exact-holds key_id use_for alg ks k (exact ∙ ap some same) in facts' h
    ]
  where
    ok-eq : {a b : Jwk} → ◌≡◌ {A = Result KeyError Jwk} (ok a) (ok b) → a ≡ b
    ok-eq p = cc

    facts :
        (is_usable use_for alg k && is_candidate key_id k) ≡ true
        → (alg_to_key_type k alg ≡ true)
          × ((k.use_for ≡ use_for) ⊎ (k.use_for ≡ ""))
          × ((k.kid ≡ key_id) ⊎ ((k.kid ≡ "") ⊎ (key_id ≡ "")))
    facts h =
        ground
          (arith, eq_iff k.use_for use_for, eq_iff k.use_for "", eq_iff k.kid "", eq_iff key_id "")

    facts' :
        (is_usable use_for alg k && is_exact key_id k) ≡ true
        → (alg_to_key_type k alg ≡ true)
          × ((k.use_for ≡ use_for) ⊎ (k.use_for ≡ ""))
          × ((k.kid ≡ key_id) ⊎ ((k.kid ≡ "") ⊎ (key_id ≡ "")))
    facts' h = ground (arith, eq_iff k.use_for use_for, eq_iff k.use_for "", eq_iff k.kid key_id)

-- A key that is found is one of the list.
pub find_matching_key-Held :
    (key_id use_for alg : String) (ks : List Jwk) (k : Jwk)
    → find_matching_key key_id use_for alg ks ≡ ok k
    → Held k ks
find_matching_key-Held key_id use_for alg ks k e =
    let ruled = sym (find_matching_key-first_exact key_id use_for alg ks) ∙ e in
    elim (Option-cases (first_exact key_id use_for alg ks)) [
      | inl none_exact ↦
          head-keep-Held (λ x. is_usable use_for alg x && is_candidate key_id x) ks [] k
            (pick-eq-ok (candidates key_id use_for alg ks) k (rw none_exact at ruled))
      | inr (x, exact) ↦
          first_exact-Held key_id use_for alg ks k (exact ∙ ap some (ok-eq (rw exact at ruled)))
    ]
  where
    ok-eq : {a b : Jwk} → ◌≡◌ {A = Result KeyError Jwk} (ok a) (ok b) → a ≡ b
    ok-eq p = cc
