-- ===== src/Bytes/Filling.antt =====
-- Buffers that are filled in from the front, one copy behind the other.
use tin_serwer.Base.{
  ℕ, ◌+◌, ◌≡◌, ◌≢◌, refl, sym, ap, ◌∙◌, List, [], ◌∷◌, ◌++◌, length, drop, ok, arith, append_assoc,
  append-nil, length-append, length-drop,
}
use tin_serwer.Bytes.{Garbage, alloc, copy_to, c_string}
use tin_serwer.Bytes.Laws.{length-alloc, copy_to-append}

-- The buffer begins with `done`, and `n` more bytes follow.
pub record Filled (done : List ℕ) (n : ℕ) (buf : List ℕ) : Type 0 where
  pub rest : List ℕ
  pub parts : buf ≡ done ++ rest
  pub room : length rest ≡ n

pub alloc-Filled : (g : Garbage) (n : ℕ) → Filled [] n (alloc g n)
alloc-Filled g n = record { rest = alloc g n; parts = refl; room = length-alloc g n }

pub length-Filled :
    (done : List ℕ) (n : ℕ) (buf : List ℕ) → Filled done n buf → length buf ≡ length done + n
length-Filled done n buf f = omega (arith, ap length f.parts, length-append done f.rest, f.room)

pub Filled-all : (done buf : List ℕ) → Filled done 0 buf → buf ≡ done
Filled-all done buf f = f.parts ∙ (ap (◌++◌ done) (empty f.rest f.room) ∙ append-nil done)
  where
    empty : (xs : List ℕ) → length xs ≡ 0 → xs ≡ []
    empty [] h = refl
    empty (x ∷ xs) h = absurd (omega arith)

-- A copy to the first byte that is not filled in yet.
pub copy_to-Filled :
    (done : List ℕ) (m n off : ℕ) (buf src : List ℕ)
    → Filled done m buf
    → m ≡ length src + n
    → off ≡ length done
    → (buf' : List ℕ) × (copy_to buf off src ≡ ok buf') × Filled (done ++ src) n buf'
copy_to-Filled done m n off buf src f d e =
    let left = drop (length src) f.rest in
    (
      done ++ (src ++ left),
      rw (e, f.parts) (copy_to-append done f.rest src (omega (arith, f.room, d))),
      record {
        rest = left;
        parts = sym (append_assoc done src left);
        room = omega (arith, length-drop (length src) f.rest, f.room, d);
      },
    )

-- A text has no zero in it.
abbrev pub NoZero : List ℕ → Type 0
NoZero [] = Unit
NoZero (b ∷ bs) = (b ≢ 0) × NoZero bs

-- A text is read back up to the zero behind it.
pub c_string-text : (s rest : List ℕ) → NoZero s → c_string (s ++ 0 ∷ rest) ≡ ok s
unfolding c_string
c_string-text [] rest h = refl
c_string-text (b ∷ bs) rest h = ground (arith, c_string-text bs rest h.1)
