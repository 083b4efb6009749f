-- ===== src/Dpop/Eviction.antt =====
-- pkg/storm/plugins/dpop/dpop.go: eviction removes a quarter, the oldest, and the cache of jti
-- values stays within its limit.
use kexcore_oidc.Base.{
  ℕ, suc, ◌+◌, ◌-◌, ◌≤◌, ◌<◌, String, ◌≡◌, refl, sym, ap, ◌∙◌, Bool, Option, none, some, [], ◌∷◌,
  arith, ltb, length, Map, lookup, retain, length-insert, length-delete, filter_option,
  lookup-retain, sort,
}
use kexcore_oidc.Dpop.Cache.{
  Plugin, max_nonce_cache_size, evict_target, values, evict_from, evict_oldest, Request,
  check_replay, middleware,
}
use kexcore_oidc.Dpop.Proof.{Jose, Proof}
use kexcore_oidc.Base.{
  count_le, count_le-sort, count_le-get_elem?, get_elem?-some, length-sort, sort-IsSorted,
}

length-values : (m : Map ℕ) → length (values m) ≡ length m
length-values [] = refl
length-values ((k, t) ∷ m) = ap suc (length-values m)

-- What an eviction by a cutoff leaves, with what it takes.
length-retain_above :
    (c : ℕ) (m : Map ℕ) → length (retain (λ t. ltb c t) m) + count_le c (values m) ≤ length m
unfolding retain
length-retain_above c [] = omega arith
length-retain_above c ((k, t) ∷ m) =
    ground (arith, length-retain_above c m, length-delete k (retain (λ t. ltb c t) m))

-- The cutoff that `evict_from` finds: at least `target` values are at or below it.
record IsCutoff (target : ℕ) (m : Map ℕ) (c : ℕ) : Type 0 where
  evicts : evict_from target m ≡ retain (λ t. ltb c t) m
  enough : target ≤ count_le c (values m)

evict_from-IsCutoff :
    (target : ℕ) (m : Map ℕ) → 0 < target → target ≤ length m → (c : ℕ) × IsCutoff target m c
unfolding evict_from
evict_from-IsCutoff target m pos h =
    let vs = values m in
    let (c, found) =
      get_elem?-some (sort vs) (target - 1) (omega (arith, length-sort vs, length-values m)) in
    (
      c,
      record {
        evicts = ground (arith, found, length-values m);
        enough = omega (
          arith,
          count_le-get_elem? (sort vs) (target - 1) c (sort-IsSorted vs) found,
          count_le-sort c vs,
        );
      },
    )

-- An eviction from a cache of at least `target` entries removes at least `target` of them.
pub length-evict_from :
    (target : ℕ) (m : Map ℕ)
    → 0 < target
    → target ≤ length m
    → length (evict_from target m) + target ≤ length m
length-evict_from target m pos h =
    let (c, v) = evict_from-IsCutoff target m pos h in
    omega (arith, v.enough, ap length v.evicts, length-retain_above c m)

abbrev older : ℕ → ℕ → Bool
older c t = ltb c t

-- What an eviction of a positive number of entries, from a cache of at least that many, keeps is
-- newer than everything that it removes, and is kept unchanged.
pub evict_from-oldest :
    (target : ℕ) (m : Map ℕ) (j k : String) (t u : ℕ)
    → 0 < target
    → target ≤ length m
    → lookup j m ≡ some t
    → lookup j (evict_from target m) ≡ none
    → lookup k (evict_from target m) ≡ some u
    → (lookup k m ≡ some u) × (t < u)
evict_from-oldest target m j k t u pos h had gone kept =
    let (c, v) = evict_from-IsCutoff target m pos h in
    let gone' = sym (ap (lookup j) v.evicts ∙ lookup-retain (older c) j m) ∙ gone in
    let kept' = sym (ap (lookup k) v.evicts ∙ lookup-retain (older c) k m) ∙ kept in
    separate c (lookup j m) (lookup k m) had gone' kept'
  where
    separate :
        (c : ℕ) (a b : Option ℕ)
        → a ≡ some t
        → filter_option (older c) a ≡ none
        → filter_option (older c) b ≡ some u
        → (b ≡ some u) × (t < u)
    separate c (some x) (some y) p q r = ground arith
    separate c none b p q r = cc
    separate c (some x) none p q r = cc

check_replay-bounded :
    (p : Plugin) (proof : Proof) (now : ℕ)
    → length p.used_nonces ≤ max_nonce_cache_size
    → length (check_replay p proof now).0.used_nonces ≤ max_nonce_cache_size
unfolding check_replay evict_oldest
check_replay-bounded p proof now h =
    let evicted = evict_from evict_target p.used_nonces in
    ground (
      arith,
      length-insert proof.unique_id now p.used_nonces,
      length-insert proof.unique_id now evicted,
      length-evict_from evict_target p.used_nonces,
    )

-- The middleware never lets the cache of jti values grow past its limit.
pub middleware-bounded :
    (j : Jose) (p : Plugin) (r : Request) (now : ℕ)
    → length p.used_nonces ≤ max_nonce_cache_size
    → length (middleware j p r now).0.used_nonces ≤ max_nonce_cache_size
unfolding middleware
middleware-bounded j p r now h = grind (arith, check_replay-bounded)
