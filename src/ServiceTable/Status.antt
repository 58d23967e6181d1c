-- ===== src/ServiceTable/Status.antt =====
-- What the service table promises (ServiceTable.cpp): each number has a status, and an operation
-- changes the status of one number at most.
use tin_serwer.Base.{
  ℕ, zero, suc, ◌+◌, ◌≤◌, ◌<◌, ◌≡◌, refl, Bool, true, Option, none, some, List, [], ◌∷◌, arith, ltb,
  ◌==◌, if◌then◌else◌, ◌&&◌, length, get_elem?, set, Option-cases, Bool-cases, inl, inr, ◌⊎◌, ◌↔◌,
  Outcome, ok, fault, ap, lt→ltb,
}
use tin_serwer.ServiceTable.{
  ServiceTable, erase_first, resize, occupied, reserve, unreserve, push, remove, get_service,
}
use tin_serwer.ServiceTable.Ids.{count, count-append, count-erase_first, erase_first-none}
use tin_serwer.ServiceTable.Invariant.{IsValid, HasRoom, reserve-Reserves, reserved-lt}

-- The status of a service number.
pub data Status {ℓ} (A : Type ℓ) : Type ℓ where
  absent spare pending : Status A
  live : A → Status A

module _ {A : Type 0} where
  abbrev pub slot : List (Option A) → ℕ → Option A
  slot xs i = elim (get_elem? xs i) [ none ↦ none | some p ↦ p ]

  abbrev pub status_of : Option A → ℕ → ℕ → Status A
  status_of (some a) r f = live a
  status_of none r f = if ltb 0 r then pending else if ltb 0 f then spare else absent

  pub status : ServiceTable A → ℕ → Status A
  status t i = status_of (slot t.services i) (count i t.reserved) (count i t.free)

  slot_past : (xs : List (Option A)) (i : ℕ) → length xs ≤ i → slot xs i ≡ none
  slot_past [] i h = refl
  slot_past (x ∷ xs) zero h = absurd (omega arith)
  slot_past (x ∷ xs) (suc i) h = slot_past xs i (omega arith)

  pub get_service-slot : (i : ℕ) (t : ServiceTable A) → get_service i t ≡ slot t.services i
  unfolding get_service
  get_service-slot i t = ground (arith, slot_past t.services i)

  pub slot-resize :
      (n : ℕ) (xs : List (Option A)) (i : ℕ) → length xs ≤ n → slot (resize n xs) i ≡ slot xs i
  unfolding resize
  slot-resize zero [] i h = refl
  slot-resize zero (x ∷ xs) i h = absurd (omega arith)
  slot-resize (suc n) [] zero h = refl
  slot-resize (suc n) [] (suc i) h = slot-resize n [] i (omega arith)
  slot-resize (suc n) (x ∷ xs) zero h = refl
  slot-resize (suc n) (x ∷ xs) (suc i) h = slot-resize n xs i (omega arith)

  pub slot-set :
      (xs : List (Option A)) (num i : ℕ) (p : Option A)
      → num < length xs
      → slot (set xs num p) i ≡ (if num == i then p else slot xs i)
  slot-set [] num i p h = absurd (omega arith)
  slot-set (x ∷ xs) zero zero p h = refl
  slot-set (x ∷ xs) zero (suc i) p h = ground arith
  slot-set (x ∷ xs) (suc num) zero p h = ground arith
  slot-set (x ∷ xs) (suc num) (suc i) p h = ground (arith, slot-set xs num i p)

  -- On a valid table that has room, `reserve` gives out a number between 1 and 255 that nobody
  -- holds, and makes it pending. No other number changes.
  pub status-reserve :
      (t : ServiceTable A)
      → IsValid t
      → HasRoom t
      → let (c, u) = reserve t in
        (0 < c)
        × (c ≤ 255)
        × ((status t c ≡ absent) ⊎ (status t c ≡ spare))
        × ((j : ℕ) → status u j ≡ (if c == j then pending else status t j))
  unfolding status
  status-reserve t v h = elim (reserve-Reserves t v h) [
    | inl (c, rest, e, small, r) ↦ rw r (
      ground (arith, v.exact c, ap (count c) e),
      small,
      ground (arith, v.exact c, ap (count c) e),
      λ j. ground (
        arith,
        v.exact j,
        v.exact c,
        ap (count j) e,
        ap (count c) e,
        count-append j t.reserved (c ∷ []),
      ),
    )
    | inr (e, small, r) ↦ rw r (
      v.positive,
      omega arith,
      inl (ground (arith, v.exact (length t.services), slot_past t.services (length t.services))),
      λ j. ground (
        arith,
        v.exact (length t.services),
        slot_past t.services (length t.services),
        slot-resize (length t.services + 1) t.services j,
        count-append j t.reserved (length t.services ∷ []),
      ),
    )
  ]

  -- On a valid table `unreserve` succeeds exactly on a reserved number, and makes it spare. No
  -- other number changes.
  pub status-unreserve :
      (num : ℕ) (t : ServiceTable A)
      → IsValid t
      → let (done, u) = unreserve num t in
        ((done ≡ true) ↔ (status t num ≡ pending))
        × ((j : ℕ) → status u j ≡ (if done && (num == j) then spare else status t j))
  unfolding status unreserve
  status-unreserve num t v = elim (Option-cases (erase_first num t.reserved)) [
    | inl e ↦ rw (e, unreserve) (ground (arith, erase_first-none num t.reserved e), λ j. refl)
    | inr (rest, e) ↦
        rw (e, unreserve)
          (
            ground (arith, v.exact num, count-erase_first num num t.reserved rest e),
            λ j. ground (
              arith,
              v.exact num,
              v.exact j,
              count-erase_first num j t.reserved rest e,
              count-append j t.free (num ∷ []),
            ),
          )
  ]

  occupied-slot :
      (xs : List (Option A)) (i : ℕ) → occupied xs i ≡ true → (a : A) × (slot xs i ≡ some a)
  occupied-slot [] i h = cc
  occupied-slot (none ∷ xs) zero h = cc
  occupied-slot (some a ∷ xs) zero h = (a, refl)
  occupied-slot (x ∷ xs) (suc i) h = occupied-slot xs i h

  status_live :
      (num : ℕ) (t : ServiceTable A)
      → occupied t.services num ≡ true
      → (a : A) × (status t num ≡ live a)
  unfolding status
  status_live num t h = let (a, e) = occupied-slot t.services num h in (a, rw e)

  -- On a valid table `remove` succeeds exactly on a number in use, and makes it spare. No other
  -- number changes.
  pub status-remove :
      (num : ℕ) (t : ServiceTable A)
      → IsValid t
      → let (done, u) = remove num t in
        ((done ≡ true) ↔ ((a : A) × (status t num ≡ live a)))
        × ((j : ℕ) → status u j ≡ (if done && (num == j) then spare else status t j))
  unfolding status remove
  status-remove num t v =
      elim (Bool-cases (ltb num (length t.services) && occupied t.services num)) [
        | inl e ↦ rw e (
          (λ _. status_live num t (ground arith), λ _. refl),
          λ j. ground (
            arith,
            v.exact num,
            v.exact j,
            slot-set t.services num j none,
            count-append j t.free (num ∷ []),
          ),
        )
        | inr e ↦ rw e (ground (arith, slot_past t.services num), λ j. refl)
      ]

  -- Whether a push went through, and the table after it.
  abbrev pub Pushes : A → ℕ → ServiceTable A → Outcome (Bool × ServiceTable A) → Type 0
  Pushes a num t (ok (done, u)) =
      ((done ≡ true) ↔ (status t num ≡ pending))
      × ((j : ℕ) → status u j ≡ (if done && (num == j) then live a else status t j))
  Pushes a num t (fault e) = ⊥

  -- On a valid table `push` of the address of a service never writes out of bounds. It succeeds
  -- exactly on a reserved number, and makes it live with that address. No other number changes.
  pub push-Pushes :
      (a : A) (num : ℕ) (t : ServiceTable A) → IsValid t → Pushes a num t (push (some a) num t)
  unfolding status push
  push-Pushes a num t v = elim (Option-cases (erase_first num t.reserved)) [
    | inl e ↦ rw (e, push) (ground (arith, erase_first-none num t.reserved e), λ j. refl)
    | inr (rest, e) ↦
        rw (e, push, lt→ltb _ _ (reserved-lt num t rest v e))
          (
            ground (arith, v.exact num, count-erase_first num num t.reserved rest e),
            λ j. ground (
              arith,
              v.exact num,
              v.exact j,
              count-erase_first num j t.reserved rest e,
              slot-set t.services num j (some a),
              reserved-lt num t rest v e,
            ),
          )
  ]
