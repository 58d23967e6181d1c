-- ===== src/ServiceTable/History.antt =====
-- Sequences of calls of the service table (ServiceTable.cpp), each under the table's mutex.
use tin_serwer.Base.{
  ℕ, zero, suc, ◌+◌, ◌≤◌, ◌<◌, ◌≡◌, refl, Bool, Option, none, some, List, [], ◌∷◌, ◌++◌, arith,
  length, inl, inr, length-set, Outcome, ok, fault, out_of_bounds, ◌>>=◌, le→ltb,
}
use tin_serwer.ServiceTable.{
  erase_first, ServiceTable, resize, new_table, reserve, unreserve, push, remove, get_service,
}
use tin_serwer.ServiceTable.Ids.{count, count-append, erase_first_found, length-resize, in_use}
use tin_serwer.ServiceTable.Invariant.{
  IsValid, reserve-Reserves, reserve-IsValid, unreserve-IsValid, remove-IsValid, push-IsValid,
  new_table-IsValid, IsValidPush,
}

-- The calls that change the table. A push passes the address of a service, never a null pointer.
pub data Call {ℓ} (A : Type ℓ) : Type ℓ where
  reserves : Call A
  pushes : A → ℕ → Call A
  unreserves removes : ℕ → Call A

module _ {A : Type 0} where
  pub step : Call A → ServiceTable A → Outcome (ServiceTable A)
  step reserves t = ok (reserve t).1
  step (pushes a num) t = push (some a) num t >>= λ r. ok r.1
  step (unreserves num) t = ok (unreserve num t).1
  step (removes num) t = ok (remove num t).1

  pub run : List (Call A) → ServiceTable A → Outcome (ServiceTable A)
  run [] t = ok t
  run (c ∷ cs) t = step c t >>= run cs

  abbrev pub reserves_in : List (Call A) → ℕ
  reserves_in [] = 0
  reserves_in (reserves ∷ cs) = suc (reserves_in cs)
  reserves_in (c ∷ cs) = reserves_in cs

  abbrev grows_by : Call A → ℕ
  grows_by reserves = 1
  grows_by c = 0

  -- A call that goes through, with the invariant kept and the growth bounded.
  abbrev Keeps : Call A → ServiceTable A → Type 0
  Keeps c t =
      (u : ServiceTable A) × (step c t ≡ ok u)
      × IsValid u
      × (length u.services ≤ length t.services + grows_by c)

  reserve_size :
      (t : ServiceTable A)
      → IsValid t
      → length t.services < 256
      → length (reserve t).1.services ≤ length t.services + 1
  reserve_size t v h = elim (reserve-Reserves t v (inl h)) [
    | inl (c, rest, e, small, r) ↦ rw r (omega arith)
    | inr (e, small, r) ↦ rw r (omega (arith, length-resize (length t.services + 1) t.services))
  ]

  length-push :
      (a : A) (num : ℕ) (t : ServiceTable A) (b : Bool) (u : ServiceTable A)
      → push (some a) num t ≡ ok (b, u)
      → length u.services ≤ length t.services + 0
  unfolding push
  length-push a num t b u e = ground (arith, length-set t.services num (some a))

  length-unreserve :
      (num : ℕ) (t : ServiceTable A) → length (unreserve num t).1.services ≤ length t.services + 0
  unfolding unreserve
  length-unreserve num t = ground arith

  length-remove :
      (num : ℕ) (t : ServiceTable A) → length (remove num t).1.services ≤ length t.services + 0
  unfolding remove
  length-remove num t = ground (arith, length-set t.services num none)

  push-Keeps : (a : A) (num : ℕ) (t : ServiceTable A) → IsValid t → Keeps (pushes a num) t
  unfolding step
  push-Keeps a num t v = go (push (some a) num t) refl (push-IsValid a num t v)
    where
      go :
          (r : Outcome (Bool × ServiceTable A))
          → push (some a) num t ≡ r
          → IsValidPush r
          → Keeps (pushes a num) t
      go (ok (b, u)) e w = (u, rw e, w, length-push a num t b u e)
      go (fault e) _ w = absurd w

  step-Keeps :
      (c : Call A) (t : ServiceTable A)
      → IsValid t
      → length t.services + grows_by c ≤ 256
      → Keeps c t
  unfolding step
  step-Keeps reserves t v h =
      ((reserve t).1, refl, reserve-IsValid t v (inl (omega arith)), reserve_size t v (omega arith))
  step-Keeps (pushes a num) t v h = push-Keeps a num t v
  step-Keeps (unreserves num) t v h =
      ((unreserve num t).1, refl, unreserve-IsValid num t v, length-unreserve num t)
  step-Keeps (removes num) t v h =
      ((remove num t).1, refl, remove-IsValid num t v, length-remove num t)

  grows_reserves_in :
      (c : Call A) (cs : List (Call A)) → reserves_in (c ∷ cs) ≡ grows_by c + reserves_in cs
  grows_reserves_in reserves cs = omega arith
  grows_reserves_in c cs = omega arith

  -- Any calls that reserve no more numbers than the vector can still grow by go through: no write
  -- is out of bounds, and the invariant holds after them.
  pub run-IsValid :
      (cs : List (Call A)) (t : ServiceTable A)
      → IsValid t
      → length t.services + reserves_in cs ≤ 256
      → (u : ServiceTable A) × (run cs t ≡ ok u) × IsValid u
  unfolding run
  run-IsValid [] t v h = (t, refl, v)
  run-IsValid (c ∷ cs) t v h =
      let g = grows_reserves_in c cs in
      let (u, e, w, l) = step-Keeps c t v (omega arith) in
      let (r, e', w') = run-IsValid cs u w (omega arith) in (r, rw e e', w')

  -- From the constructor on: with at most 255 reservations in all, every sequence of calls goes
  -- through and keeps the invariant.
  pub run-new_table :
      (cs : List (Call A))
      → reserves_in cs ≤ 255
      → (u : ServiceTable A) × (run cs new_table ≡ ok u) × IsValid u
  unfolding new_table
  run-new_table cs h = run-IsValid cs new_table new_table-IsValid (omega arith)

  abbrev cut : ServiceTable A → ServiceTable A
  cut t = record t { services = none ∷ []; reserved = t.reserved ++ 0 ∷ [] }

  resize_one : (xs : List (Option A)) → 0 < length xs → in_use 0 xs ≡ 0 → resize 1 xs ≡ none ∷ []
  unfolding resize
  resize_one [] h e = absurd (omega arith)
  resize_one (none ∷ xs) h e = refl
  resize_one (some a ∷ xs) h e = absurd (omega arith)

  reserve_cuts :
      (t : ServiceTable A)
      → IsValid t
      → t.free ≡ []
      → length t.services ≡ 256
      → reserve t ≡ (0, cut t)
  unfolding reserve
  reserve_cuts t v e full =
      rw (e, reserve, full) (ground (arith, resize_one t.services v.positive, v.exact 0))

  -- On a valid table with no free number whose vector has all of its 256 slots, `reserve` returns 0
  -- and cuts the vector to one slot: no number finds a service any more, and the next call gives
  -- out number 1, whoever holds it.
  pub reserve_exhausted :
      (t : ServiceTable A)
      → IsValid t
      → t.free ≡ []
      → length t.services ≡ 256
      → let (c, u) = reserve t in (c ≡ 0) × ((i : ℕ) → get_service i u ≡ none) × ((reserve u).0 ≡ 1)
  unfolding reserve get_service
  reserve_exhausted t v e full = rw (reserve_cuts t v e full) (
    refl,
    (λ i. elim i as (λ i. get_service i (cut t) ≡ none) [ zero ↦ refl | suc i ↦ ground arith ]),
    rw (e, reserve),
  )

  push-cut :
      (t : ServiceTable A) (num : ℕ) (a : A) (rest : List ℕ)
      → 0 < num
      → erase_first num (t.reserved ++ 0 ∷ []) ≡ some rest
      → push (some a) num (cut t) ≡ fault out_of_bounds
  unfolding push
  push-cut t num a rest pos found = rw (found, push, le→ltb num 1 pos)

  -- After such a call, a push of any number above 0 that was reserved before writes out of bounds.
  pub push_exhausted :
      (t : ServiceTable A) (num : ℕ) (a : A)
      → IsValid t
      → t.free ≡ []
      → length t.services ≡ 256
      → 0 < num
      → 0 < count num t.reserved
      → push (some a) num (reserve t).1 ≡ fault out_of_bounds
  push_exhausted t num a v e full pos held =
      let listed : 0 < count num (t.reserved ++ 0 ∷ []) =
        omega (arith, count-append num t.reserved (0 ∷ [])) in
      let (rest, found) = erase_first_found num (t.reserved ++ 0 ∷ []) listed in
      rw (reserve_cuts t v e full) (push-cut t num a rest pos found)
