-- ===== src/Bytes/Laws.antt =====
-- The laws of copies into and out of buffers.
use tin_serwer.Base.{
  ℕ, zero, suc, ◌+◌, ◌/◌, ◌^◌, ◌<◌, ◌≤◌, ◌≡◌, refl, ap, List, [], ◌∷◌, ◌++◌, length, take, drop, ok,
  fault, out_of_bounds, arith, le→leb, lt→leb, length-append,
}
use native.Mathlib.Nat.{pow-suc, zero-add, suc-add}
use tin_serwer.Bytes.{Garbage, alloc, copy_to, copy_from, to_bytes, from_bytes}

pub length-alloc : (g : Garbage) (n : ℕ) → length (alloc g n) ≡ n
unfolding alloc
length-alloc g zero = refl
length-alloc g (suc n) = ap suc (length-alloc _ n)

pub length-to_bytes : (w n : ℕ) → length (to_bytes w n) ≡ w
unfolding to_bytes
length-to_bytes zero n = refl
length-to_bytes (suc w) n = ap suc (length-to_bytes w (n / 256))

-- A number that fits into `w` bytes is read back from them.
pub from_bytes-to_bytes : (w n : ℕ) → n < 256 ^ w → from_bytes (to_bytes w n) ≡ n
unfolding from_bytes to_bytes
from_bytes-to_bytes zero n h = omega arith
from_bytes-to_bytes (suc w) n h =
    omega (arith, from_bytes-to_bytes w (n / 256) (omega (arith, pow-suc 256 w)))

pub take_all : {A : Type 0} (xs : List A) → take (length xs) xs ≡ xs
take_all [] = refl
take_all (x ∷ xs) = ap (◌∷◌ x) (take_all xs)

pub take-append : {A : Type 0} (xs ys : List A) → take (length xs) (xs ++ ys) ≡ xs
take-append [] ys = refl
take-append (x ∷ xs) ys = ap (◌∷◌ x) (take-append xs ys)

pub drop-append : {A : Type 0} (xs ys : List A) → drop (length xs) (xs ++ ys) ≡ ys
drop-append [] ys = refl
drop-append (x ∷ xs) ys = drop-append xs ys

pub drop_past : {A : Type 0} (n : ℕ) (xs : List A) → length xs ≤ n → drop n xs ≡ []
drop_past zero [] h = refl
drop_past zero (x ∷ xs) h = absurd (omega arith)
drop_past (suc n) [] h = refl
drop_past (suc n) (x ∷ xs) h = drop_past n xs (omega arith)

pub drop_add : {A : Type 0} (xs ys : List A) (n : ℕ) → drop (length xs + n) (xs ++ ys) ≡ drop n ys
drop_add [] ys n = rw zero-add
drop_add (x ∷ xs) ys n = rw suc-add (drop_add xs ys n)

-- A copy that lies behind what has been written so far, and does not pass the end.
pub copy_to-append :
    (done rest src : List ℕ)
    → length src ≤ length rest
    → copy_to (done ++ rest) (length done) src ≡ ok (done ++ (src ++ drop (length src) rest))
unfolding copy_to
copy_to-append done rest src h =
    let fits : length done + length src ≤ length (done ++ rest) =
      omega (arith, length-append done rest) in
    rw (le→leb _ _ fits, take-append done rest, drop_add done rest (length src))

pub copy_from-append :
    (done src rest : List ℕ) → copy_from (done ++ (src ++ rest)) (length done) (length src) ≡ ok src
unfolding copy_from
copy_from-append done src rest =
    let fits : length done + length src ≤ length (done ++ (src ++ rest)) =
      omega (arith, length-append done (src ++ rest), length-append src rest) in
    rw (le→leb _ _ fits, drop-append done (src ++ rest), take-append src rest)

pub copy_to_past :
    (buf src : List ℕ) (off : ℕ)
    → length buf < off + length src
    → copy_to buf off src ≡ fault out_of_bounds
unfolding copy_to
copy_to_past buf src off h = rw (lt→leb _ _ h)

pub copy_from_past :
    (buf : List ℕ) (off n : ℕ) → length buf < off + n → copy_from buf off n ≡ fault out_of_bounds
unfolding copy_from
copy_from_past buf off n h = rw (lt→leb _ _ h)
