-- ===== src/Base/Values.antt =====
-- What holds of each value of a `std::map`.
use Prim.Native.Nat.{ℕ}
use mathlib.Core.Path.{◌≡◌, subst}
use mathlib.Core.Logic.{inl, inr}
use mathlib.Core.Option.{some}
use mathlib.Core.List.{List, [], ◌∷◌}
use tin_serwer.Base.Tests.{ltb, ◌==◌, Bool-cases}
use tin_serwer.Base.Maps.{find, insert, assign, erase}

abbrev pub AllValues {ℓ} : {V : Type ℓ} → (V → Type 0) → List (ℕ × V) → Type 0
AllValues P [] = Unit {0}
AllValues P ((k, v) ∷ m) = P v × AllValues P m

module _ {ℓ} {V : Type ℓ} where
  pub AllValues-map :
      (P Q : V → Type 0) (m : List (ℕ × V)) → ((v : V) → P v → Q v) → AllValues P m → AllValues Q m
  AllValues-map P Q [] f all = tt
  AllValues-map P Q ((k, v) ∷ m) f (one, all) = (f v one, AllValues-map P Q m f all)

  pub AllValues-insert :
      (P : V → Type 0) (k : ℕ) (v : V) (m : List (ℕ × V))
      → P v
      → AllValues P m
      → AllValues P (insert k v m)
  unfolding insert
  AllValues-insert P k v [] one all = (one, tt)
  AllValues-insert P k v ((k', v') ∷ m) one (first, all) = elim (Bool-cases (ltb k k')) [
    | inl less ↦ rw less (one, (first, all))
    | inr more ↦ elim (Bool-cases (k == k')) [
      | inl same ↦ rw (more, same) (first, all)
      | inr other ↦ rw (more, other) (first, AllValues-insert P k v m one all)
    ]
  ]

  pub AllValues-assign :
      (P : V → Type 0) (k : ℕ) (v : V) (m : List (ℕ × V))
      → P v
      → AllValues P m
      → AllValues P (assign k v m)
  unfolding assign
  AllValues-assign P k v [] one all = (one, tt)
  AllValues-assign P k v ((k', v') ∷ m) one (first, all) = elim (Bool-cases (ltb k k')) [
    | inl less ↦ rw less (one, (first, all))
    | inr more ↦ elim (Bool-cases (k == k')) [
      | inl same ↦ rw (more, same) (one, all)
      | inr other ↦ rw (more, other) (first, AllValues-assign P k v m one all)
    ]
  ]

  pub AllValues-erase :
      (P : V → Type 0) (k : ℕ) (m : List (ℕ × V)) → AllValues P m → AllValues P (erase k m)
  unfolding erase
  AllValues-erase P k [] all = tt
  AllValues-erase P k ((k', v') ∷ m) (first, all) = elim (Bool-cases (k == k')) [
    | inl same ↦ rw same all
    | inr other ↦ rw other (first, AllValues-erase P k m all)
  ]

  pub AllValues-find :
      (P : V → Type 0) (k : ℕ) (v : V) (m : List (ℕ × V)) → AllValues P m → find k m ≡ some v → P v
  unfolding find
  AllValues-find P k v [] all e = cc
  AllValues-find P k v ((k', v') ∷ m) (first, all) e = elim (Bool-cases (k == k')) [
    | inl same ↦ let is : v' ≡ v = cc in subst P is first
    | inr other ↦ AllValues-find P k v m all (cc)
  ]
