-- ===== src/Tests/Table.antt =====
-- ServiceTable.cpp at concrete inputs.
use tin_serwer.Base.{
  ℕ, zero, suc, ◌+◌, ◌≡◌, ◌≤◌, ◌<◌, refl, true, Option, none, some, List, [], ◌∷◌, ok, fault,
  out_of_bounds, arith, inl, ◌⊎◌, ◌↔◌, if◌then◌else◌, ◌==◌, ◌&&◌, ltb, length,
}
use tin_serwer.ServiceTable.{ServiceTable, reserve, unreserve, push, remove, new_table, get_service}
use tin_serwer.ServiceTable.Ids.{count, in_use}
use tin_serwer.ServiceTable.Invariant.{IsValid, inside}
use tin_serwer.ServiceTable.Status.{
  absent, spare, pending, live, status, status-reserve, status-unreserve, status-remove, Pushes,
  push-Pushes,
}
use tin_serwer.ServiceTable.History.{
  Call, reserves, pushes, removes, unreserves, run, run-new_table, reserve_exhausted,
  push_exhausted,
}

-- Number 1 is free again, 2 is reserved, and 3 belongs to the service at address 70.
abbrev table : ServiceTable ℕ
table = record { services = none ∷ none ∷ none ∷ some 70 ∷ []; free = 1 ∷ []; reserved = 2 ∷ [] }

table-exact :
    (i : ℕ)
    → count i table.free + count i table.reserved + in_use i table.services
      ≡ inside i (length table.services)
table-exact zero = refl
table-exact (suc zero) = refl
table-exact (suc (suc zero)) = refl
table-exact (suc (suc (suc zero))) = refl
table-exact (suc (suc (suc (suc i)))) = ground arith

table-IsValid : IsValid table
table-IsValid = record { positive = omega arith; bounded = omega arith; exact = table-exact }

-- A vector in which every slot holds the service at address 7.
fill : ℕ → List (Option ℕ)
fill zero = []
fill (suc n) = some 7 ∷ fill n

length-fill : (n : ℕ) → length (fill n) ≡ n
unfolding fill
length-fill zero = refl
length-fill (suc n) = omega (arith, length-fill n)

in_use-fill : (i n : ℕ) → in_use i (fill n) ≡ (if ltb i n then 1 else 0)
unfolding fill
in_use-fill zero zero = refl
in_use-fill (suc i) zero = ground arith
in_use-fill zero (suc n) = ground arith
in_use-fill (suc i) (suc n) = ground (arith, in_use-fill i n)

-- All 256 slots are there, and only number 1 is not in use: it is reserved.
abbrev full_table : ServiceTable ℕ
full_table = record { services = none ∷ none ∷ fill 254; free = []; reserved = 1 ∷ [] }

full_table-exact :
    (i : ℕ)
    → count i full_table.free + count i full_table.reserved + in_use i full_table.services
      ≡ inside i (length full_table.services)
full_table-exact zero = refl
full_table-exact (suc zero) = ground (arith, length-fill 254)
full_table-exact (suc (suc i)) = ground (arith, length-fill 254, in_use-fill i 254)

full_table-IsValid : IsValid full_table
full_table-IsValid = record {
  positive = omega arith;
  bounded = omega (arith, length-fill 254);
  exact = full_table-exact;
}

status-reserve_example :
    let (c, u) = reserve table in
    (0 < c)
    × (c ≤ 255)
    × ((status table c ≡ absent) ⊎ (status table c ≡ spare))
    × ((j : ℕ) → status u j ≡ (if c == j then pending else status table j))
status-reserve_example = status-reserve table table-IsValid (inl (omega arith))

status-unreserve_example :
    let (done, u) = unreserve 2 table in
    ((done ≡ true) ↔ (status table 2 ≡ pending))
    × ((j : ℕ) → status u j ≡ (if done && (2 == j) then spare else status table j))
status-unreserve_example = status-unreserve 2 table table-IsValid

status-remove_example :
    let (done, u) = remove 3 table in
    ((done ≡ true) ↔ ((a : ℕ) × (status table 3 ≡ live a)))
    × ((j : ℕ) → status u j ≡ (if done && (3 == j) then spare else status table j))
status-remove_example = status-remove 3 table table-IsValid

push-Pushes_example : Pushes 71 2 table (push (some 71) 2 table)
push-Pushes_example = push-Pushes 71 2 table table-IsValid

abbrev calls : List (Call ℕ)
calls = reserves ∷ pushes 70 1 ∷ reserves ∷ removes 1 ∷ unreserves 2 ∷ reserves ∷ []

run-new_table_example : (u : ServiceTable ℕ) × (run calls new_table ≡ ok u) × IsValid u
run-new_table_example = run-new_table calls (omega arith)

reserve_exhausted_example :
    let (c, u) = reserve full_table in
    (c ≡ 0) × ((i : ℕ) → get_service i u ≡ none) × ((reserve u).0 ≡ 1)
reserve_exhausted_example =
    reserve_exhausted full_table full_table-IsValid refl (omega (arith, length-fill 254))

push_exhausted_example : push (some 9) 1 (reserve full_table).1 ≡ fault out_of_bounds
push_exhausted_example =
    push_exhausted full_table 1 9 full_table-IsValid refl (omega (arith, length-fill 254))
      (omega arith) (omega arith)
