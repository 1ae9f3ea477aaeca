-- ===== src/Dict/Distinct.antt =====
-- Maps whose keys are distinct, as a Go map's are.
use rule_engine.Prelude.{
  sym, ◌≡◌, refl, [], ◌∷◌, none, some, arith, Equality, ◌==◌, beq_refl, inl, inr, Bool-cases, Each,
}
use rule_engine.Dict.{Dict, get, put, get-put}

module _ {ℓ κ} {K : Type ℓ} {V : Type κ} ⦃e : Equality K⦄ where
  abbrev pub DistinctKeys : Dict K V → Type κ
  DistinctKeys [] = Unit
  DistinctKeys ((k, v) ∷ m) = (get m k ≡ none) × DistinctKeys m

  pub put-DistinctKeys : (m : Dict K V) (k : K) (v : V) → DistinctKeys m → DistinctKeys (put m k v)
  unfolding put get
  put-DistinctKeys [] k v d = (refl, tt)
  put-DistinctKeys ((j, w) ∷ m) k v (fresh, d) = elim (Bool-cases (j == k)) [
    | inl same ↦ rw same (fresh, d)
    | inr other ↦
        rw other (
          ground (arith, get-put m k j v, e.same_iff j k, e.same_iff k j),
          put-DistinctKeys m k v d,
        )
  ]

  -- an entry after the first is found under its key
  pub get-tail :
      (m : Dict K V) (j k : K) (w v : V)
      → get m j ≡ none
      → get m k ≡ some v
      → get ((j, w) ∷ m) k ≡ some v
  unfolding get
  get-tail m j k w v fresh found = ground (arith, e.same_iff j k)

  pub get-head : (m : Dict K V) (k : K) (v : V) → get ((k, v) ∷ m) k ≡ some v
  unfolding get
  get-head m k v = ground (arith, beq_refl k)

  -- what holds of every key that is there holds of every entry
  pub Each-keys {μ} :
      (P : K → Type μ) (m : Dict K V)
      → DistinctKeys m
      → ((k : K) (v : V) → get m k ≡ some v → P k)
      → Each (λ (p : K × V). P p.0) m
  Each-keys P [] d h = tt
  Each-keys P ((k, v) ∷ m) (fresh, d) h =
      (h k v (get-head m k v), Each-keys P m d (λ j w e. h j w (get-tail m k j v w fresh e)))

  pub Each-entries {μ} :
      (P : V → Type μ) (m : Dict K V)
      → DistinctKeys m
      → ((k : K) (v : V) → get m k ≡ some v → P v)
      → Each (λ (p : K × V). P p.1) m
  Each-entries P [] d h = tt
  Each-entries P ((k, v) ∷ m) (fresh, d) h =
      (h k v (get-head m k v), Each-entries P m d (λ j w e. h j w (get-tail m k j v w fresh e)))

  pub Each-get {μ} :
      (P : V → Type μ) (m : Dict K V) (k : K) (v : V)
      → Each (λ (p : K × V). P p.1) m
      → get m k ≡ some v
      → P v
  unfolding get
  Each-get P [] k v h e = cc e
  Each-get P ((j, w) ∷ m) k v (here, h) e = elim (Bool-cases (j == k)) [
    | inl same ↦ let whole : w ≡ v = ground (arith, same, e) in rw (sym whole) here
    | inr other ↦ Each-get P m k v h (ground (arith, other, e))
  ]
