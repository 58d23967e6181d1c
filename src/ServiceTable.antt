-- ===== src/ServiceTable.antt =====
-- ServiceTable.h and ServiceTable.cpp: the table that hands out service numbers. Every operation
-- but `get_service` holds the table's mutex, so each is one step. `A` stands for the addresses of
-- services: `none` is the null pointer.
pub mod Ids
pub mod Invariant
pub mod Status
pub mod History
use tin_serwer.Base.{
  ℕ, zero, suc, ◌+◌, ◌%◌, ◌<◌, Bool, true, false, Option, none, some, List, [], ◌∷◌, ◌++◌, ltb, leb,
  ◌==◌, if◌then◌else◌, ◌&&◌, length, get_elem?, set, Outcome, ok, fault, out_of_bounds,
}

pub record ServiceTable {ℓ} (A : Type ℓ) : Type ℓ where
  pub services : List (Option A)
  pub free : List ℕ
  pub reserved : List ℕ

-- The loop over a list of numbers up to the first that equals `num`, and its `erase`.
unfoldable pub erase_first : ℕ → List ℕ → Option (List ℕ)
erase_first num [] = none
erase_first num (x ∷ xs) =
    if x == num
    then some xs
    else elim (erase_first num xs) [ none ↦ none | some ys ↦ some (x ∷ ys) ]

module _ {ℓ} {A : Type ℓ} where
  -- `std::vector::resize`: cuts the vector, or fills it up with null pointers.
  unfoldable pub resize : ℕ → List (Option A) → List (Option A)
  resize zero xs = []
  resize (suc n) [] = none ∷ resize n []
  resize (suc n) (x ∷ xs) = x ∷ resize n xs

  -- `services[num] != nullptr`
  abbrev pub occupied : List (Option A) → ℕ → Bool
  occupied xs num = elim (get_elem? xs num) [ some (some a) ↦ true | _ ↦ false ]

  -- The constructor.
  unfoldable pub new_table : ServiceTable A
  new_table = record { services = none ∷ []; free = []; reserved = [] }

  -- The first half of `reserve`: the candidate is an `unsigned char`.
  unfoldable pub candidate : ServiceTable A → ℕ × ServiceTable A
  candidate t = elim t.free [
    | [] ↦ let c = length t.services % 256 in (c, record t { services = resize (c + 1) t.services })
    | c ∷ rest ↦ (c, record t { free = rest })
  ]

  unfoldable pub reserve : ServiceTable A → ℕ × ServiceTable A
  unfolding candidate
  reserve t =
      let (c, u) = candidate t in
      if ltb 255 c then (0, u) else (c, record u { reserved = u.reserved ++ c ∷ [] })

  unfoldable pub unreserve : ℕ → ServiceTable A → Bool × ServiceTable A
  unreserve num t = elim (erase_first num t.reserved) [
    | none ↦ (false, t)
    | some rest ↦ (true, record t { reserved = rest; free = t.free ++ num ∷ [] })
  ]

  -- The write `services[num] = service` is not checked.
  unfoldable pub push : Option A → ℕ → ServiceTable A → Outcome (Bool × ServiceTable A)
  push service num t = elim (erase_first num t.reserved) [
    | none ↦ ok (false, t)
    | some rest ↦
        if ltb num (length t.services)
        then ok (true, record t { reserved = rest; services = set t.services num service })
        else fault out_of_bounds
  ]

  pub remove : ℕ → ServiceTable A → Bool × ServiceTable A
  remove num t =
      if ltb num (length t.services) && occupied t.services num
      then (true, record t { services = set t.services num none; free = t.free ++ num ∷ [] })
      else (false, t)

  unfoldable pub get_service : ℕ → ServiceTable A → Option A
  get_service id t =
      if leb (length t.services) id
      then none
      else (elim (get_elem? t.services id) [ none ↦ none | some p ↦ p ])
