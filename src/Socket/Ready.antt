-- ===== src/Socket/Ready.antt =====
-- When the kernel is ready to move bytes (packet.cpp), and lists cut in two steps.
use tin_serwer.Base.{
  ℕ, zero, suc, ◌+◌, ◌-◌, ◌≡◌, ◌≤◌, ◌<◌, refl, ap, ◌∙◌, List, [], ◌∷◌, ◌++◌, take, drop, arith,
}
use tin_serwer.Socket.{Answer, fails, moves}

pub take-take :
    {A : Type 0} (m n : ℕ) (xs : List A) → m ≤ n → take m xs ++ take (n - m) (drop m xs) ≡ take n xs
take-take zero n xs h = ap (λ k. take k xs) (omega arith)
take-take (suc m) zero xs h = absurd (omega arith)
take-take (suc m) (suc n) [] h = take_nil (suc n - suc m)
  where
    take_nil : {A : Type 0} (k : ℕ) → take {A = A} k [] ≡ []
    take_nil zero = refl
    take_nil (suc k) = refl
take-take (suc m) (suc n) (x ∷ xs) h =
    let e : suc n - suc m ≡ n - m = omega arith in
    rw e (ap (◌∷◌ x) (take-take m n xs (omega arith)))

pub drop-drop : {A : Type 0} (m n : ℕ) (xs : List A) → m ≤ n → drop (n - m) (drop m xs) ≡ drop n xs
drop-drop zero n xs h = ap (λ k. drop k xs) (omega arith)
drop-drop (suc m) zero xs h = absurd (omega arith)
drop-drop (suc m) (suc n) [] h = drop_nil (suc n - suc m)
  where
    drop_nil : {A : Type 0} (k : ℕ) → drop {A = A} k [] ≡ []
    drop_nil zero = refl
    drop_nil (suc k) = refl
drop-drop (suc m) (suc n) (x ∷ xs) h =
    let e : suc n - suc m ≡ n - m = omega arith in rw e (drop-drop m n xs (omega arith))

pub take_add :
    {A : Type 0} (m n : ℕ) (xs : List A) → take m xs ++ take n (drop m xs) ≡ take (m + n) xs
take_add m n xs =
    let e : n ≡ m + n - m = omega arith in
    ap (λ k. take m xs ++ take k (drop m xs)) e ∙ take-take m (m + n) xs (omega arith)

-- The kernel is ready to move something in each of the next `n` calls.
abbrev pub Ready : ℕ → List Answer → Type 0
Ready zero answers = Unit
Ready (suc n) [] = ⊥
Ready (suc n) (fails ∷ later) = ⊥
Ready (suc n) (moves k ∷ later) = (0 < k) × Ready n later

pub Ready-mono : (m n : ℕ) (answers : List Answer) → m ≤ n → Ready n answers → Ready m answers
Ready-mono zero n answers h r = tt
Ready-mono (suc m) zero answers h r = absurd (omega arith)
Ready-mono (suc m) (suc n) [] h r = r
Ready-mono (suc m) (suc n) (fails ∷ later) h r = r
Ready-mono (suc m) (suc n) (moves k ∷ later) h r = (r.0, Ready-mono m n later (omega arith) r.1)
