-- ===== src/Common/Map/Entries.antt =====
-- A property of all entries of a map.
use Prim.Native.Nat.{ℕ}
use mathlib.Core.List.{[], ◌∷◌}
use native.Mathlib.Omega.{arith}
use rustaxa.Common.Lists.{All}
use rustaxa.Common.Map.{Map, put, erase}

module _ {ℓ} {V : Type ℓ} (P : ℕ × V → Type 0) where
  pub put-All : (k : ℕ) (v : V) (m : Map V) → P (k, v) → All P m → All P (put k v m)
  unfolding put
  put-All k v [] p all = (p, tt)
  put-All k v ((j, w) ∷ m) p all = ground (arith, put-All k v m)

  pub erase-All : (k : ℕ) (m : Map V) → All P m → All P (erase k m)
  unfolding erase
  erase-All k [] all = tt
  erase-All k ((j, w) ∷ m) all = ground (arith, erase-All k m)
