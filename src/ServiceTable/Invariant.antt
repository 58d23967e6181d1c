-- ===== src/ServiceTable/Invariant.antt =====
-- The invariant of the service table (ServiceTable.cpp): each number between 1 and the size of the
-- vector stands in exactly one place.
use tin_serwer.Base.{
  ℕ, zero, suc, ◌+◌, ◌≤◌, ◌<◌, ◌≡◌, refl, Bool, none, some, List, [], ◌∷◌, ◌++◌, arith, ltb,
  if◌then◌else◌, ◌&&◌, length, Option-cases, Bool-cases, inl, inr, ◌⊎◌, length-set, Outcome, ok,
  fault, ap, lt→ltb,
}
use tin_serwer.ServiceTable.{
  ServiceTable, erase_first, resize, occupied, new_table, reserve, unreserve, push, remove,
}
use tin_serwer.ServiceTable.Ids.{
  count, count-append, count-erase_first, in_use, length-resize, occupied-resize_grow,
  occupied-set-none, occupied-set-some,
}

-- One for the numbers that the table manages, and zero for 0 and those past its end.
abbrev pub inside : ℕ → ℕ → ℕ
inside i size = if ltb 0 i && ltb i size then 1 else 0

-- Slot 0 is never given out, the numbers fit a byte, and every number that the table manages is
-- free, reserved or in use: one of the three, once.
pub record IsValid {ℓ} {A : Type ℓ} (t : ServiceTable A) : Type 0 where
  pub positive : 0 < length t.services
  pub bounded : length t.services ≤ 256
  pub exact :
      (i : ℕ)
      → count i t.free + count i t.reserved + in_use i t.services ≡ inside i (length t.services)

-- The table can still give out a number.
abbrev pub HasRoom {ℓ} : {A : Type ℓ} → ServiceTable A → Type 0
HasRoom t = (length t.services < 256) ⊎ ((c : ℕ) × (rest : List ℕ) × (t.free ≡ c ∷ rest))

module _ {ℓ} {A : Type ℓ} where
  pub new_table-IsValid : IsValid (new_table {A = A})
  unfolding new_table
  new_table-IsValid = record {
    positive = omega arith;
    bounded = omega arith;
    exact = λ i.
        elim i as (λ i. count i [] + count i [] + in_use {A = A} i (none ∷ []) ≡ inside i 1) [
          | zero ↦ refl
          | suc i ↦ ground arith
        ];
  }

  free-le : (t : ServiceTable A) (c : ℕ) (rest : List ℕ) → IsValid t → t.free ≡ c ∷ rest → c ≤ 255
  free-le t c rest v e =
      let f : count c t.free ≡ suc (count c rest) = rw e (ground arith) in ground (arith, v.exact c)

  -- The two ways in which `reserve` gives out a number: the first free one, or the size of the
  -- vector, which grows by a null pointer.
  abbrev pub Reserves : ServiceTable A → ℕ × ServiceTable A → Type ℓ
  Reserves t r =
      ((c : ℕ) × (rest : List ℕ) × (t.free ≡ c ∷ rest)
        × (c ≤ 255)
        × (r ≡ (c, record t { free = rest; reserved = t.reserved ++ c ∷ [] })))
      ⊎ ((t.free ≡ [])
          × (length t.services < 256)
          × (r ≡ (
            length t.services,
            record t {
              services = resize (length t.services + 1) t.services;
              reserved = t.reserved ++ length t.services ∷ [];
            },
          )))

  reserve-Reserves_from :
      (t : ServiceTable A) (fs : List ℕ)
      → t.free ≡ fs
      → IsValid t
      → HasRoom t
      → Reserves t (reserve t)
  unfolding reserve
  reserve-Reserves_from t [] e v (inl h) = inr (e, h, ground arith)
  reserve-Reserves_from t [] e v (inr (c, rest, e')) = cc
  reserve-Reserves_from t (c ∷ rest) e v h =
      let small = free-le t c rest v e in inl (c, rest, e, small, ground arith)

  pub reserve-Reserves : (t : ServiceTable A) → IsValid t → HasRoom t → Reserves t (reserve t)
  reserve-Reserves t v h = reserve-Reserves_from t t.free refl v h

  pub reserve-IsValid : (t : ServiceTable A) → IsValid t → HasRoom t → IsValid (reserve t).1
  reserve-IsValid t v h = elim (reserve-Reserves t v h) [
    | inl (c, rest, e, small, r) ↦ rw r (record {
      positive = v.positive;
      bounded = v.bounded;
      exact = λ i. ground (arith, v.exact i, count-append i t.reserved (c ∷ []), ap (count i) e);
    })
    | inr (e, small, r) ↦ rw r (record {
      positive = rw length-resize (omega arith);
      bounded = rw length-resize (omega arith);
      exact = λ i. rw length-resize (
          ground (
            arith,
            v.exact i,
            v.positive,
            count-append i t.reserved (length t.services ∷ []),
            occupied-resize_grow (length t.services + 1) t.services i,
          ));
    })
  ]

  pub unreserve-IsValid : (num : ℕ) (t : ServiceTable A) → IsValid t → IsValid (unreserve num t).1
  unfolding unreserve
  unreserve-IsValid num t v = elim (Option-cases (erase_first num t.reserved)) [
    | inl e ↦ rw (e, unreserve) v
    | inr (rest, e) ↦
        rw (e, unreserve)
          (record {
            positive = v.positive;
            bounded = v.bounded;
            exact = λ i. omega (
              arith,
              v.exact i,
              count-append i t.free (num ∷ []),
              count-erase_first num i t.reserved rest e,
            );
          })
  ]

  pub remove-IsValid : (num : ℕ) (t : ServiceTable A) → IsValid t → IsValid (remove num t).1
  unfolding remove
  remove-IsValid num t v =
      elim (Bool-cases (ltb num (length t.services) && occupied t.services num)) [
        | inl e ↦ rw e (record {
          positive = rw length-set v.positive;
          bounded = rw length-set v.bounded;
          exact = λ i. rw length-set (
              ground (
                arith,
                v.exact i,
                count-append i t.free (num ∷ []),
                occupied-set-none t.services num i,
              ));
        })
        | inr e ↦ rw e v
      ]

  -- A reserved number lies inside the table, so the write of `push` is in bounds.
  pub reserved-lt :
      (num : ℕ) (t : ServiceTable A) (rest : List ℕ)
      → IsValid t
      → erase_first num t.reserved ≡ some rest
      → num < length t.services
  reserved-lt num t rest v e =
      ground (arith, v.exact num, count-erase_first num num t.reserved rest e)

  -- After a push of a service that is there, the table is valid; a push never writes out of bounds.
  abbrev pub IsValidPush : Outcome (Bool × ServiceTable A) → Type 0
  IsValidPush (ok (b, u)) = IsValid u
  IsValidPush (fault e) = ⊥

  pub push-IsValid :
      (a : A) (num : ℕ) (t : ServiceTable A) → IsValid t → IsValidPush (push (some a) num t)
  unfolding push
  push-IsValid a num t v = elim (Option-cases (erase_first num t.reserved)) [
    | inl e ↦ rw (e, push) v
    | inr (rest, e) ↦
        rw (e, push, lt→ltb _ _ (reserved-lt num t rest v e))
          (record {
            positive = rw length-set v.positive;
            bounded = rw length-set v.bounded;
            exact = λ i. rw length-set (
                ground (
                  arith,
                  v.exact i,
                  v.exact num,
                  reserved-lt num t rest v e,
                  count-erase_first num i t.reserved rest e,
                  occupied-set-some t.services num i a,
                ));
          })
  ]
