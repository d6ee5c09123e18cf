-- ===== src/Common/Map/Sorted.antt =====
-- Maps in the order of their keys, which is what `put` and `erase` keep.
use Prim.Native.Nat.{ℕ, suc, ◌<◌, ◌≤◌}
use mathlib.Core.Path.{◌≡◌, refl}
use mathlib.Core.Option.{none}
use mathlib.Core.List.{[], ◌∷◌}
use native.Mathlib.Omega.{arith}
use rustaxa.Common.Tests.{ltb, if◌then◌else◌}
use rustaxa.Common.Map.{Map, lookup, put}

module _ {ℓ} {V : Type ℓ} where
  -- Every key is at least `lo`, and the keys rise.
  abbrev pub From : ℕ → Map V → Type 0
  From lo [] = Unit
  From lo ((k, _) ∷ m) = (lo ≤ k) × From (suc k) m

  abbrev pub IsSorted : Map V → Type 0
  IsSorted = From 0

  pub From-weaken : (lo lo' : ℕ) (m : Map V) → lo' ≤ lo → From lo m → From lo' m
  From-weaken lo lo' [] h s = tt
  From-weaken lo lo' ((k, _) ∷ m) h s = (omega arith, s.1)

  pub put-From : (lo k : ℕ) (v : V) (m : Map V) → lo ≤ k → From lo m → From lo (put k v m)
  unfolding put
  put-From lo k v [] h s = (h, tt)
  put-From lo k v ((j, w) ∷ m) h s = ground (arith, put-From (suc j) k v m)

  pub lookup_below : (lo k : ℕ) (m : Map V) → From lo m → k < lo → lookup k m ≡ none
  unfolding lookup
  lookup_below lo k [] s h = refl
  lookup_below lo k ((j, w) ∷ m) s h = ground (arith, lookup_below (suc j) k m)

  -- `while (it != end && it->first < lo) it = erase(it)`, from the beginning: it stops at the first
  -- key that is not below, and keeps all from there on.
  unfoldable pub drop_below : ℕ → Map V → Map V
  drop_below lo [] = []
  drop_below lo ((k, v) ∷ m) = let rest = drop_below lo m in if ltb k lo then rest else (k, v) ∷ m

  pub drop_below-From : (lo from : ℕ) (m : Map V) → From from m → From lo (drop_below lo m)
  unfolding drop_below
  drop_below-From lo from [] s = tt
  drop_below-From lo from ((k, v) ∷ m) s = ground (arith, drop_below-From lo (suc k) m)

  pub lookup-drop_below :
      (lo k from : ℕ) (m : Map V)
      → From from m
      → lookup k (drop_below lo m) ≡ (if ltb k lo then none else lookup k m)
  unfolding lookup drop_below
  lookup-drop_below lo k from [] s = ground arith
  lookup-drop_below lo k from ((j, w) ∷ m) s =
      ground (arith, lookup-drop_below lo k (suc j) m, lookup_below (suc j) k m)
