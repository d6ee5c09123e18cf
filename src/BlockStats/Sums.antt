-- ===== src/BlockStats/Sums.antt =====
-- Sums over the values of a map in the order of its keys.
use rustaxa.Common.{
  ℕ, suc, ◌+◌, ◌≡◌, refl, inl, inr, Option, none, some, [], ◌∷◌, arith, ltb, ◌==◌, ltb→lt,
  Bool-cases,
}
use rustaxa.Common.Map.{Map, lookup, put, erase}
use rustaxa.Common.Map.Sorted.{From, From-weaken, lookup_below}

module _ {ℓ} {V : Type ℓ} (f : V → ℕ) where
  abbrev pub sum : Map V → ℕ
  sum [] = 0
  sum ((_, v) ∷ m) = f v + sum m

  abbrev pub part : Option V → ℕ
  part none = 0
  part (some v) = f v

  pub sum-put :
      (lo k : ℕ) (v : V) (m : Map V) → From lo m → sum (put k v m) + part (lookup k m) ≡ sum m + f v
  unfolding put lookup
  sum-put lo k v [] s = omega arith
  sum-put lo k v ((j, w) ∷ m) s = elim (Bool-cases (j == k)) [
    | inl e ↦ rw e (omega arith)
    | inr e ↦ elim (Bool-cases (ltb k j)) [
      | inl g ↦ rw (e, g, lookup_below (suc j) k m s.1 (omega (arith, ltb→lt k j g))) (omega arith)
      | inr g ↦ rw (e, g) (omega (arith, sum-put (suc j) k v m s.1))
    ]
  ]

  pub erase-none : (k : ℕ) (m : Map V) → lookup k m ≡ none → erase k m ≡ m
  unfolding lookup erase
  erase-none k [] h = refl
  erase-none k ((j, u) ∷ m) h = ground (arith, erase-none k m)

  pub sum-erase : (lo k : ℕ) (m : Map V) → From lo m → sum (erase k m) + part (lookup k m) ≡ sum m
  unfolding erase lookup
  sum-erase lo k [] s = omega arith
  sum-erase lo k ((j, w) ∷ m) s = elim (Bool-cases (j == k)) [
    | inl e ↦
        let gone = erase-none k m (lookup_below (suc j) k m s.1 (ground arith)) in
        rw (e, gone) (omega arith)
    | inr e ↦ rw e (omega (arith, sum-erase (suc j) k m s.1))
  ]

  pub erase-IsSorted : (lo k : ℕ) (m : Map V) → From lo m → From lo (erase k m)
  unfolding erase
  erase-IsSorted lo k [] s = tt
  erase-IsSorted lo k ((j, w) ∷ m) s = elim (Bool-cases (j == k)) [
    | inl e ↦
        rw e
          (From-weaken (suc j) lo (erase k m) (omega (arith, s.0)) (erase-IsSorted (suc j) k m s.1))
    | inr e ↦ rw e (s.0, erase-IsSorted (suc j) k m s.1)
  ]
