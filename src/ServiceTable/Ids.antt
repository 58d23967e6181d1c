-- ===== src/ServiceTable/Ids.antt =====
-- Counting a service number in the parts of the table.
use tin_serwer.Base.{
  ℕ, zero, suc, ◌+◌, ◌≤◌, ◌<◌, ◌≡◌, refl, true, false, Option, none, some, List, [], ◌∷◌, ◌++◌,
  arith, ◌==◌, if◌then◌else◌, length, set, Option-cases, inl, inr,
}
use tin_serwer.ServiceTable.{erase_first, resize, occupied}

-- How often `i` stands in the list.
abbrev pub count : ℕ → List ℕ → ℕ
count i [] = 0
count i (x ∷ xs) = (if x == i then 1 else 0) + count i xs

pub count-append : (i : ℕ) (xs ys : List ℕ) → count i (xs ++ ys) ≡ count i xs + count i ys
count-append i [] ys = omega arith
count-append i (x ∷ xs) ys = omega (arith, count-append i xs ys)

pub count-erase_first :
    (num i : ℕ) (xs rest : List ℕ)
    → erase_first num xs ≡ some rest
    → count i xs ≡ (if num == i then 1 else 0) + count i rest
unfolding erase_first
count-erase_first num i [] rest e = cc
count-erase_first num i (x ∷ xs) rest e = elim (Option-cases (erase_first num xs)) [
  | inl e' ↦ ground arith
  | inr (ys, e') ↦ ground (arith, count-erase_first num i xs ys e')
]

pub erase_first-none : (num : ℕ) (xs : List ℕ) → erase_first num xs ≡ none → count num xs ≡ 0
unfolding erase_first
erase_first-none num [] e = refl
erase_first-none num (x ∷ xs) e = elim (Option-cases (erase_first num xs)) [
  | inl e' ↦ ground (arith, erase_first-none num xs e')
  | inr (ys, e') ↦ ground arith
]

-- A number that stands in the list is found.
pub erase_first_found :
    (num : ℕ) (xs : List ℕ) → 0 < count num xs → (rest : List ℕ) × (erase_first num xs ≡ some rest)
erase_first_found num xs h = elim (Option-cases (erase_first num xs)) [
  | inl e ↦ absurd (omega (arith, erase_first-none num xs e))
  | inr r ↦ r
]

module _ {ℓ} {A : Type ℓ} where
  -- One if the slot `i` holds a service, and zero else.
  abbrev pub in_use : ℕ → List (Option A) → ℕ
  in_use i xs = if occupied xs i then 1 else 0

  pub length-resize : (n : ℕ) (xs : List (Option A)) → length (resize n xs) ≡ n
  unfolding resize
  length-resize zero xs = refl
  length-resize (suc n) [] = omega (arith, length-resize n [])
  length-resize (suc n) (x ∷ xs) = omega (arith, length-resize n xs)

  -- Growing the vector keeps every slot, and the new slots are null.
  pub occupied-resize_grow :
      (n : ℕ) (xs : List (Option A)) (i : ℕ)
      → length xs ≤ n
      → occupied (resize n xs) i ≡ occupied xs i
  unfolding resize
  occupied-resize_grow zero [] i h = refl
  occupied-resize_grow zero (x ∷ xs) i h = absurd (omega arith)
  occupied-resize_grow (suc n) [] zero h = refl
  occupied-resize_grow (suc n) [] (suc i) h = occupied-resize_grow n [] i (omega arith)
  occupied-resize_grow (suc n) (x ∷ xs) zero h = refl
  occupied-resize_grow (suc n) (x ∷ xs) (suc i) h = occupied-resize_grow n xs i (omega arith)

  pub occupied-set-none :
      (xs : List (Option A)) (num i : ℕ)
      → occupied (set xs num none) i ≡ (if num == i then false else occupied xs i)
  occupied-set-none [] num i = ground arith
  occupied-set-none (x ∷ xs) zero zero = refl
  occupied-set-none (x ∷ xs) zero (suc i) = ground arith
  occupied-set-none (x ∷ xs) (suc num) zero = ground arith
  occupied-set-none (x ∷ xs) (suc num) (suc i) = ground (arith, occupied-set-none xs num i)

  pub occupied-set-some :
      (xs : List (Option A)) (num i : ℕ) (a : A)
      → num < length xs
      → occupied (set xs num (some a)) i ≡ (if num == i then true else occupied xs i)
  occupied-set-some [] num i a h = absurd (omega arith)
  occupied-set-some (x ∷ xs) zero zero a h = refl
  occupied-set-some (x ∷ xs) zero (suc i) a h = ground arith
  occupied-set-some (x ∷ xs) (suc num) zero a h = ground arith
  occupied-set-some (x ∷ xs) (suc num) (suc i) a h = ground (arith, occupied-set-some xs num i a)
