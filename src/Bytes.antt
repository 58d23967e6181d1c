-- ===== src/Bytes.antt =====
-- Raw memory: a buffer is the list of its bytes. An access past the end of a buffer is undefined
-- behaviour in the source, and a fault here. Numbers and floats are copied by `memcpy` in the byte
-- order of the platform, which is little-endian.
pub mod Laws
pub mod Filling
use tin_serwer.Base.{
  ℕ, zero, suc, ◌+◌, ◌*◌, ◌/◌, ◌%◌, Bool, List, [], ◌∷◌, ◌++◌, leb, ltb, ◌==◌, if◌then◌else◌,
  length, take, drop, Outcome, ok, fault, out_of_bounds,
}

-- The bytes that a fresh allocation happens to hold: their values are indeterminate.
abbrev pub Garbage : Type 0
Garbage = ℕ → ℕ

-- `new unsigned char[size]`
unfoldable pub alloc : Garbage → ℕ → List ℕ
alloc g zero = []
alloc g (suc n) = g 0 ∷ alloc (λ i. g (suc i)) n

-- `memcpy(&buf[off], src, src_size)`
unfoldable pub copy_to : List ℕ → ℕ → List ℕ → Outcome (List ℕ)
copy_to buf off src =
    if leb (off + length src) (length buf)
    then ok (take off buf ++ (src ++ drop (off + length src) buf))
    else fault out_of_bounds

-- `memcpy(dest, &buf[off], n)`
unfoldable pub copy_from : List ℕ → ℕ → ℕ → Outcome (List ℕ)
copy_from buf off n =
    if leb (off + n) (length buf) then ok (take n (drop off buf)) else fault out_of_bounds

-- `buf[i] = b`
unfoldable pub write_byte : List ℕ → ℕ → ℕ → Outcome (List ℕ)
unfolding copy_to
write_byte buf i b = copy_to buf i (b ∷ [])

abbrev pub head_byte : List ℕ → Outcome ℕ
head_byte [] = fault out_of_bounds
head_byte (b ∷ bs) = ok b

-- `buf[i]`
unfoldable pub read_byte : List ℕ → ℕ → Outcome ℕ
read_byte buf i = head_byte (drop i buf)

-- The `w` bytes of a number, the lowest first.
unfoldable pub to_bytes : ℕ → ℕ → List ℕ
to_bytes zero n = []
to_bytes (suc w) n = n % 256 ∷ to_bytes w (n / 256)

unfoldable pub from_bytes : List ℕ → ℕ
from_bytes [] = 0
from_bytes (b ∷ bs) = b + 256 * from_bytes bs

-- The text that a `const char *` points at, up to the terminating zero. A text that runs off the
-- end of its buffer is undefined behaviour.
unfoldable pub c_string : List ℕ → Outcome (List ℕ)
c_string [] = fault out_of_bounds
c_string (b ∷ bs) =
    if b == 0 then ok [] else elim (c_string bs) [ ok s ↦ ok (b ∷ s) | fault e ↦ fault e ]
