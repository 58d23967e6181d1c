-- ===== src/Packet/Layout.antt =====
-- The layout of a description, which packet.cpp and queuePacket.cpp fill in alike behind different
-- headers: the name with its zero, four bytes for the unit, the minimum and the maximum.
use tin_serwer.Base.{
  ℕ, zero, suc, ◌+◌, ◌^◌, ◌≤◌, ◌<◌, ◌≡◌, refl, sym, ap, ◌∙◌, List, [], ◌∷◌, ◌++◌, length, take,
  drop, Outcome, ok, ◌>>=◌, arith, append_assoc, length-append, le→leb, append-nil, length-take,
}
use tin_serwer.Bytes.{Garbage, alloc, copy_to, copy_from, to_bytes, from_bytes, c_string}
use tin_serwer.Bytes.Laws.{
  length-alloc, length-to_bytes, from_bytes-to_bytes, drop-append, copy_from-append,
}
use tin_serwer.Bytes.Filling.{
  Filled, copy_to-Filled, Filled-all, NoZero, c_string-text, length-Filled,
}
use tin_serwer.Float32.{Float32}
use tin_serwer.Packet.{c_str, from_end}

-- The four bytes that are copied for a unit.
abbrev pub unit_field : Garbage → List ℕ → List ℕ
unit_field g unit = take 4 (c_str g unit)

abbrev pub named : List ℕ → List ℕ → List ℕ
named header name = header ++ (name ++ 0 ∷ [])

-- The whole buffer.
abbrev pub described : Garbage → List ℕ → List ℕ → List ℕ → Float32 → Float32 → List ℕ
described g header name unit min max =
    ((named header name ++ unit_field g unit) ++ to_bytes 4 min) ++ to_bytes 4 max

-- The copies behind the header, and what is done with the buffer then.
abbrev pub describe {ℓ} :
    {B : Type ℓ}
    → Garbage
    → List ℕ
    → List ℕ
    → Float32
    → Float32
    → ℕ
    → List ℕ
    → (List ℕ → Outcome B)
    → Outcome B
describe g name unit min max start buf k = do
  bytes ← copy_from (c_str g name) 0 (length name + 1)
  buf ← copy_to buf start bytes
  bytes ← copy_from (c_str g unit) 0 4
  off ← from_end buf 12
  buf ← copy_to buf off bytes
  off ← from_end buf 8
  buf ← copy_to buf off (to_bytes 4 min)
  off ← from_end buf 4
  buf ← copy_to buf off (to_bytes 4 max)
  k buf

from_end-Filled :
    (done : List ℕ) (n : ℕ) (buf : List ℕ) → Filled done n buf → from_end buf n ≡ ok (length done)
unfolding from_end
from_end-Filled done n buf f =
    let e = length-Filled done n buf f in
    rw (le→leb n (length buf) (omega (arith, e))) (ap ok (omega (arith, e)))

name_copied :
    (g : Garbage) (name : List ℕ)
    → copy_from (c_str g name) 0 (length name + 1) ≡ ok (name ++ 0 ∷ [])
unfolding c_str
name_copied g name =
    ap (λ n. copy_from (name ++ 0 ∷ alloc g 15) 0 n) (sym (length-append name (0 ∷ [])))
    ∙ (ap (λ xs. copy_from xs 0 (length (name ++ 0 ∷ [])))
          (sym (append_assoc name (0 ∷ []) (alloc g 15)))
        ∙ copy_from-append [] (name ++ 0 ∷ []) (alloc g 15))

unit_copied : (g : Garbage) (unit : List ℕ) → copy_from (c_str g unit) 0 4 ≡ ok (unit_field g unit)
unfolding c_str copy_from
unit_copied g unit =
    rw
      (le→leb 4 (length (unit ++ 0 ∷ alloc g 15))
        (omega (arith, length-append unit (0 ∷ alloc g 15), length-alloc g 15)))
      refl

length-unit_field : (g : Garbage) (unit : List ℕ) → length (unit_field g unit) ≡ 4
unfolding c_str
length-unit_field g unit = omega (
  arith,
  length-take 4 (unit ++ 0 ∷ alloc g 15),
  length-append unit (0 ∷ alloc g 15),
  length-alloc g 15,
)

pub length-described :
    (g : Garbage) (header name unit : List ℕ) (min max : Float32)
    → length (described g header name unit min max) ≡ length name + (length header + 13)
length-described g header name unit min max = omega (
  arith,
  length-append ((named header name ++ unit_field g unit) ++ to_bytes 4 min) (to_bytes 4 max),
  length-append (named header name ++ unit_field g unit) (to_bytes 4 min),
  length-append (named header name) (unit_field g unit),
  length-append header (name ++ 0 ∷ []),
  length-append name (0 ∷ []),
  length-unit_field g unit,
  length-to_bytes 4 min,
  length-to_bytes 4 max,
)

-- Behind a header, with room for exactly the fields, the copies give the layout.
pub describe-described {ℓ} :
    {B : Type ℓ} (g : Garbage) (header name unit : List ℕ) (min max : Float32) (start : ℕ)
    (buf : List ℕ) (k : List ℕ → Outcome B)
    → Filled header (length name + 13) buf
    → start ≡ length header
    → describe g name unit min max start buf k ≡ k (described g header name unit min max)
describe-described g header name unit min max start buf k f e =
    let (b1, e1, f1) =
      copy_to-Filled header (length name + 13) 12 start buf (name ++ 0 ∷ []) f
        (omega (arith, length-append name (0 ∷ []))) e in
    let (b2, e2, f2) =
      copy_to-Filled (named header name) 12 8 _ b1 (unit_field g unit) f1
        (omega (arith, length-unit_field g unit)) refl in
    let (b3, e3, f3) =
      copy_to-Filled _ 8 4 _ b2 (to_bytes 4 min) f2 (omega (arith, length-to_bytes 4 min)) refl in
    let (b4, e4, f4) =
      copy_to-Filled _ 4 0 _ b3 (to_bytes 4 max) f3 (omega (arith, length-to_bytes 4 max)) refl in
    rw
      (
        name_copied g name,
        e1,
        unit_copied g unit,
        from_end-Filled _ 12 b1 f1,
        e2,
        from_end-Filled _ 8 b2 f2,
        e3,
        from_end-Filled _ 4 b3 f3,
        e4,
      )
      (ap k (Filled-all _ b4 f4))

from_end-append : (xs ys : List ℕ) (n : ℕ) → length ys ≡ n → from_end (xs ++ ys) n ≡ ok (length xs)
unfolding from_end
from_end-append xs ys n e =
    rw (le→leb n (length (xs ++ ys)) (omega (arith, e, length-append xs ys)))
      (ap ok (omega (arith, e, length-append xs ys)))

-- A number that stands `n` bytes before the end is read back.
float_read :
    (xs rest : List ℕ) (x : Float32) (n : ℕ)
    → 4 + length rest ≡ n
    → x < 2 ^ 32
    → (from_end (xs ++ (to_bytes 4 x ++ rest)) n >>= λ off.
        copy_from (xs ++ (to_bytes 4 x ++ rest)) off 4 >>= λ bytes. ok (from_bytes bytes))
      ≡ ok x
unfolding to_bytes
float_read xs rest x n e h = rw (from_end-append xs (to_bytes 4 x ++ rest) n (omega (arith, e))) (
    ap (λ m. m >>= λ bytes. ok (from_bytes bytes)) (copy_from-append xs (to_bytes 4 x) rest)
    ∙ ap ok (from_bytes-to_bytes 4 x h))

-- A text is read back from a field that it leaves room in.
c_string-take :
    (k : ℕ) (s rest more : List ℕ)
    → length s < k
    → NoZero s
    → c_string (take k (s ++ 0 ∷ rest) ++ more) ≡ ok s
unfolding c_string
c_string-take zero s rest more l h = absurd (omega arith)
c_string-take (suc k) [] rest more l h = refl
c_string-take (suc k) (b ∷ s) rest more l h =
    ground (arith, c_string-take k s rest more (omega arith) h.1)

-- The name is read back.
pub described-name :
    (g : Garbage) (header name unit : List ℕ) (min max : Float32)
    → NoZero name
    → c_string (drop (length header) (described g header name unit min max)) ≡ ok name
described-name g header name unit min max h =
    let back = unit_field g unit ++ (to_bytes 4 min ++ to_bytes 4 max) in
    rw
      (
        append_assoc,
        append_assoc,
        append_assoc,
        append_assoc name (0 ∷ []) back,
        drop-append header (name ++ 0 ∷ back),
      )
      (c_string-text name back h)

-- A unit of at most three characters is read back.
pub described-unit :
    (g : Garbage) (header name unit : List ℕ) (min max : Float32)
    → length unit ≤ 3
    → NoZero unit
    → (from_end (described g header name unit min max) 12 >>= λ off.
        c_string (drop off (described g header name unit min max)))
      ≡ ok unit
unfolding c_str to_bytes
described-unit g header name unit min max small h =
    let fields = to_bytes 4 min ++ to_bytes 4 max in
    let back = unit_field g unit ++ fields in
    let room : length back ≡ 12 =
      omega (arith, length-unit_field g unit, length-append (unit_field g unit) fields) in
    rw
      (
        append_assoc (named header name ++ unit_field g unit),
        append_assoc (named header name),
        from_end-append (named header name) back 12 room,
        drop-append (named header name) back,
      )
      (c_string-take 4 unit (alloc g 15) fields (omega arith) h)

-- The minimum is read back.
pub described-min :
    (g : Garbage) (header name unit : List ℕ) (min max : Float32)
    → min < 2 ^ 32
    → (from_end (described g header name unit min max) 8 >>= λ off.
        copy_from (described g header name unit min max) off 4 >>= λ bytes. ok (from_bytes bytes))
      ≡ ok min
described-min g header name unit min max h =
    rw (append_assoc (named header name ++ unit_field g unit)) (
      float_read (named header name ++ unit_field g unit) (to_bytes 4 max) min 8
        (omega (arith, length-to_bytes 4 max)) h)

-- The maximum is read back.
pub described-max :
    (g : Garbage) (header name unit : List ℕ) (min max : Float32)
    → max < 2 ^ 32
    → (from_end (described g header name unit min max) 4 >>= λ off.
        copy_from (described g header name unit min max) off 4 >>= λ bytes. ok (from_bytes bytes))
      ≡ ok max
described-max g header name unit min max h =
    let front = (named header name ++ unit_field g unit) ++ to_bytes 4 min in
    ap
      (λ xs. from_end (front ++ xs) 4 >>= λ off.
        copy_from (front ++ xs) off 4 >>= λ bytes. ok (from_bytes bytes))
      (sym (append-nil (to_bytes 4 max)))
    ∙ float_read front [] max 4 refl h
