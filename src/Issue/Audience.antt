-- ===== src/Issue/Audience.antt =====
-- pkg/storm/plugins/token: the audience of a request with resources.
use kexcore_oidc.Base.{
  String, ◌≡◌, refl, ◌↔◌, ◌⊎◌, inl, inr, Bool, true, false, List, [], ◌∷◌, contains, Listed,
  contains_iff, subst,
}
use kexcore_oidc.Issue.Request.{distinct}

-- What is left out was seen.
distinct-finds :
    (a : String) (seen xs : List String) → Listed a xs → Listed a seen ⊎ Listed a (distinct seen xs)
unfolding distinct
distinct-finds a seen [] m = absurd m
distinct-finds a seen (v ∷ vs) m =
    by_flag (contains seen v) refl (distinct-finds a seen vs) (distinct-finds a (v ∷ seen) vs) m
  where
    by_flag :
        (b : Bool)
        → contains seen v ≡ b
        → (Listed a vs → Listed a seen ⊎ Listed a (distinct seen vs))
        → (Listed a vs → Listed a (v ∷ seen) ⊎ Listed a (distinct (v ∷ seen) vs))
        → Listed a (v ∷ vs)
        → Listed a seen
          ⊎ Listed a (elim b [ true ↦ distinct seen vs | false ↦ v ∷ distinct (v ∷ seen) vs ])
    by_flag true old here there (inl e) =
        inl (subst (λ (z : String). Listed z seen) e ((contains_iff seen v).0 old))
    by_flag true old here there (inr later) = here later
    by_flag false new here there (inl e) = inr (inl e)
    by_flag false new here there (inr later) = shift (there later)
      where
        shift :
            Listed a (v ∷ seen) ⊎ Listed a (distinct (v ∷ seen) vs)
            → Listed a seen ⊎ Listed a (v ∷ distinct (v ∷ seen) vs)
        shift (inl (inl e)) = inr (inl e)
        shift (inl (inr s)) = inl s
        shift (inr d) = inr (inr d)

distinct-keeps : (a : String) (seen xs : List String) → Listed a (distinct seen xs) → Listed a xs
unfolding distinct
distinct-keeps a seen [] m = absurd m
distinct-keeps a seen (v ∷ vs) m =
    by_flag (contains seen v) (distinct-keeps a seen vs) (distinct-keeps a (v ∷ seen) vs) m
  where
    by_flag :
        (b : Bool)
        → (Listed a (distinct seen vs) → Listed a vs)
        → (Listed a (distinct (v ∷ seen) vs) → Listed a vs)
        → Listed a (elim b [ true ↦ distinct seen vs | false ↦ v ∷ distinct (v ∷ seen) vs ])
        → Listed a (v ∷ vs)
    by_flag true here there later = inr (here later)
    by_flag false here there (inl e) = inl e
    by_flag false here there (inr later) = inr (there later)

-- The values are the same, without their repetitions.
pub distinct-Listed : (a : String) (xs : List String) → Listed a xs ↔ Listed a (distinct [] xs)
distinct-Listed a xs = (
  λ m. elim (distinct-finds a [] xs m) [ inl s ↦ absurd s | inr d ↦ d ],
  λ m. distinct-keeps a [] xs m,
)
