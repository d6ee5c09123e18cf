-- ===== src/Common/Map/Reversed.antt =====
-- Maps read from the greatest key down, as by `rbegin`.
use mathlib.Core.List.{reverse, reverse-cons}
use Prim.Native.Nat.{ℕ, suc, ◌≤◌, ◌<◌, max}
use mathlib.Core.Path.{◌≡◌, refl}
use mathlib.Core.Option.{none, some}
use mathlib.Core.List.{[], ◌∷◌, ◌++◌}
use native.Mathlib.Omega.{arith}
use rustaxa.Common.Tests.{◌==◌, if◌then◌else◌}
use rustaxa.Common.Map.{Map, lookup, or_else}
use rustaxa.Common.Map.Sorted.{From, lookup_below}

module _ {ℓ} {V : Type ℓ} where
  -- Keys below a bound that fall along the list.
  abbrev pub Falls : ℕ → Map V → Type 0
  Falls hi [] = Unit
  Falls hi ((k, _) ∷ m) = (k < hi) × Falls k m

  abbrev pub AtLeast : ℕ → Map V → Type 0
  AtLeast lo [] = Unit
  AtLeast lo ((k, _) ∷ m) = (lo ≤ k) × AtLeast lo m

  Falls-snoc :
      (hi lo k : ℕ) (r : V) (m : Map V)
      → k < hi
      → k < lo
      → AtLeast lo m
      → Falls hi m
      → Falls hi (m ++ (k, r) ∷ [])
  Falls-snoc hi lo k r [] h l a f = (h, tt)
  Falls-snoc hi lo k r ((j, _) ∷ m) h l a f = (f.0, Falls-snoc j lo k r m (omega arith) l a.1 f.1)

  AtLeast-snoc :
      (lo k : ℕ) (r : V) (m : Map V) → lo ≤ k → AtLeast lo m → AtLeast lo (m ++ (k, r) ∷ [])
  AtLeast-snoc lo k r [] h a = (h, tt)
  AtLeast-snoc lo k r ((j, _) ∷ m) h a = (a.0, AtLeast-snoc lo k r m h a.1)

  AtLeast-weaken : (lo lo' : ℕ) (m : Map V) → lo' ≤ lo → AtLeast lo m → AtLeast lo' m
  AtLeast-weaken lo lo' [] h a = tt
  AtLeast-weaken lo lo' ((j, _) ∷ m) h a = (omega arith, AtLeast-weaken lo lo' m h a.1)

  reverse-AtLeast : (lo : ℕ) (m : Map V) → From lo m → AtLeast lo (reverse m)
  reverse-AtLeast lo [] s = tt
  reverse-AtLeast lo ((k, r) ∷ m) s = rw (reverse-cons (k, r) m) (
      AtLeast-snoc lo k r (reverse m) s.0
        (AtLeast-weaken (suc k) lo (reverse m) (omega arith) (reverse-AtLeast (suc k) m s.1)))

  -- The greatest key is below some bound.
  abbrev pub bound : Map V → ℕ
  bound [] = 0
  bound ((k, _) ∷ m) = max (suc k) (bound m)

  pub reverse-Falls : (hi lo : ℕ) (m : Map V) → From lo m → bound m ≤ hi → Falls hi (reverse m)
  reverse-Falls hi lo [] s h = tt
  reverse-Falls hi lo ((k, r) ∷ m) s h = rw (reverse-cons (k, r) m) (
      Falls-snoc hi (suc k) k r (reverse m) (omega arith) (omega arith)
        (reverse-AtLeast (suc k) m s.1) (reverse-Falls hi (suc k) m s.1 (omega arith)))

  lookup-snoc :
      (j k : ℕ) (r : V) (m : Map V)
      → lookup j (m ++ (k, r) ∷ []) ≡ or_else (lookup j m) (if k == j then some r else none)
  unfolding lookup
  lookup-snoc j k r [] = refl
  lookup-snoc j k r ((i, _) ∷ m) = ground (arith, lookup-snoc j k r m)

  pub lookup-reverse : (j lo : ℕ) (m : Map V) → From lo m → lookup j (reverse m) ≡ lookup j m
  unfolding lookup
  lookup-reverse j lo [] s = refl
  lookup-reverse j lo ((k, r) ∷ m) s = rw (reverse-cons (k, r) m) (
      ground (
        arith,
        lookup-snoc j k r (reverse m),
        lookup-reverse j (suc k) m s.1,
        lookup_below (suc k) j m s.1,
      ))

  pub lookup-Falls : (hi j : ℕ) (m : Map V) (r : V) → Falls hi m → lookup j m ≡ some r → j < hi
  unfolding lookup
  lookup-Falls hi j [] r f e = absurd (ground arith)
  lookup-Falls hi j ((k, _) ∷ m) r f e = ground (arith, lookup-Falls k j m r f.1)
