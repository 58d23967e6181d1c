-- ===== src/Base/Maps.antt =====
-- `std::map` with numbers as keys: the pairs in the order of the keys.
use Prim.Native.Nat.{ℕ}
use mathlib.Core.List.{List, [], ◌∷◌}
use mathlib.Core.Option.{Option, none, some}
use tin_serwer.Base.Tests.{ltb, ◌==◌, if◌then◌else◌}

module _ {ℓ} {V : Type ℓ} where
  unfoldable pub find : ℕ → List (ℕ × V) → Option V
  find k [] = none
  find k ((k', v) ∷ m) = if k == k' then some v else find k m

  -- `insert`: a value that the key has already is kept.
  unfoldable pub insert : ℕ → V → List (ℕ × V) → List (ℕ × V)
  insert k v [] = (k, v) ∷ []
  insert k v ((k', v') ∷ m) =
      if ltb k k'
      then (k, v) ∷ (k', v') ∷ m
      else if k == k'
      then (k', v') ∷ m
      else (k', v') ∷ insert k v m

  -- `map[k] = v`
  unfoldable pub assign : ℕ → V → List (ℕ × V) → List (ℕ × V)
  assign k v [] = (k, v) ∷ []
  assign k v ((k', v') ∷ m) =
      if ltb k k'
      then (k, v) ∷ (k', v') ∷ m
      else if k == k'
      then (k, v) ∷ m
      else (k', v') ∷ assign k v m

  unfoldable pub erase : ℕ → List (ℕ × V) → List (ℕ × V)
  erase k [] = []
  erase k ((k', v) ∷ m) = if k == k' then m else (k', v) ∷ erase k m
