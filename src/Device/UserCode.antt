-- ===== src/Device/UserCode.antt =====
-- pkg/storm/plugins/device/util.go: user codes. A text is the list of its bytes, and what
-- crypto/rand draws is an argument.
use kexcore_oidc.Base.{
  ℕ, zero, suc, ◌+◌, ◌/◌, ◌%◌, ◌≤◌, ◌<◌, ◌≡◌, refl, sym, subst, ◌↔◌, inl, inr, Bool, true, false,
  none, some, List, [], ◌∷◌, map, arith, leb, eqb, if◌then◌else◌, Bool-cases, length, get_elem?,
  Result, ok, err,
}
use kexcore_oidc.OidcError.{OidcError, server_error}

-- "BCDFGHJKLMNPQRSTVWXYZ".
abbrev pub charset : List ℕ
charset =
    b'B' ∷ b'C' ∷ b'D' ∷ b'F' ∷ b'G' ∷ b'H' ∷ b'J' ∷ b'K' ∷ b'L' ∷ b'M' ∷ b'N' ∷ b'P' ∷ b'Q' ∷ b'R'
    ∷ b'S' ∷ b'T' ∷ b'V' ∷ b'W' ∷ b'X' ∷ b'Y' ∷ b'Z' ∷ []

-- `charset[b%byte(len(charset))]`; the index is in range.
abbrev pub letter_of : ℕ → ℕ
letter_of byte = elim (get_elem? charset (byte % 21)) [ none ↦ 0 | some c ↦ c ]

-- `code[:mid] + "-" + code[mid:]`.
abbrev pub hyphenate : (mid : ℕ) → List ℕ → List ℕ
hyphenate zero code = b'-' ∷ code
hyphenate (suc mid) [] = b'-' ∷ []
hyphenate (suc mid) (c ∷ code) = c ∷ hyphenate mid code

-- `generateRandomUserCode`, over the bytes that were drawn.
unfoldable pub random_user_code : (bytes : List ℕ) → List ℕ
random_user_code bytes =
    let code = map letter_of bytes in
    if leb 4 (length code) then hyphenate (length code / 2) code else code

-- `generateUniqueUserCode`: `taken` is whether the store has a code, and `draws` the bytes drawn in
-- each round, from round `i` on, with the rounds left as the last argument.
unfoldable pub unique_user_code :
    (taken : List ℕ → Bool)
    → (draws : ℕ → List ℕ) → (i : ℕ) → (retries : ℕ) → Result OidcError (List ℕ)
unique_user_code taken draws i zero = err server_error
unique_user_code taken draws i (suc retries) =
    let rest = unique_user_code taken draws (i + 1) retries in
    if taken (random_user_code (draws i)) then rest else ok (random_user_code (draws i))

-- A code that is handed out is not in the store, and was drawn in one of the rounds.
pub unique_user_code-free :
    (taken : List ℕ → Bool) (draws : ℕ → List ℕ) (i retries : ℕ) (code : List ℕ)
    → unique_user_code taken draws i retries ≡ ok code
    → (taken code ≡ false)
      × ((n : ℕ) × (i ≤ n) × ((n < i + retries) × (code ≡ random_user_code (draws n))))
unfolding unique_user_code
unique_user_code-free taken draws i zero code e = cc
unique_user_code-free taken draws i (suc retries) code e =
    elim (Bool-cases (taken (random_user_code (draws i)))) [
      | inl used ↦
          let (free, (n, low, (high, same))) =
            unique_user_code-free taken draws (i + 1) retries code (rw used at e) in
          (free, (n, omega arith, (omega arith, same)))
      | inr unused ↦
          let same : random_user_code (draws i) ≡ code = drawn (rw unused at e) in
          (
            subst (λ (x : List ℕ). taken x ≡ false) same unused,
            (i, omega arith, (omega arith, sym same)),
          )
    ]
  where
    drawn :
        ◌≡◌ {A = Result OidcError (List ℕ)} (ok (random_user_code (draws i))) (ok code)
        → random_user_code (draws i) ≡ code
    drawn h = cc

unique_user_code_found :
    (taken : List ℕ → Bool) (draws : ℕ → List ℕ) (i retries n : ℕ)
    → i ≤ n
    → n < i + retries
    → taken (random_user_code (draws n)) ≡ false
    → (code : List ℕ) × (unique_user_code taken draws i retries ≡ ok code)
unfolding unique_user_code
unique_user_code_found taken draws i zero n low high free = absurd (omega arith)
unique_user_code_found taken draws i (suc retries) n low high free =
    elim (Bool-cases (taken (random_user_code (draws i)))) [
      | inl used ↦
          let later : i + 1 ≤ n = elim (Bool-cases (eqb i n)) [
            | inl same ↦ absurd (clash used free (ground arith))
            | inr apart ↦ ground arith
          ] in
          let (code, rest) =
            unique_user_code_found taken draws (i + 1) retries n later (omega arith) free in
          (code, rw used rest)
      | inr unused ↦ (random_user_code (draws i), rw unused refl)
    ]
  where
    clash :
        taken (random_user_code (draws i)) ≡ true
        → taken (random_user_code (draws n)) ≡ false
        → i ≡ n
        → ⊥
    clash used free same = cc

-- A code is handed out exactly when one of the rounds draws a code that is free; so with no round
-- at all there is none.
pub unique_user_code_iff :
    (taken : List ℕ → Bool) (draws : ℕ → List ℕ) (i retries : ℕ)
    → ((code : List ℕ) × (unique_user_code taken draws i retries ≡ ok code))
      ↔ ((n : ℕ) × (i ≤ n) × ((n < i + retries) × (taken (random_user_code (draws n)) ≡ false)))
unique_user_code_iff taken draws i retries = (
  λ h.
      let (free, (n, low, (high, same))) = unique_user_code-free taken draws i retries h.0 h.1 in
      (n, low, (high, subst (λ (x : List ℕ). taken x ≡ false) same free)),
  λ h. unique_user_code_found taken draws i retries h.0 h.1 h.2.0 h.2.1,
)
