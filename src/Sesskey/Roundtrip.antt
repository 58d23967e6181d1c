-- ===== src/Sesskey/Roundtrip.antt =====
-- Session keys (sesskey.cpp): what `encrypt` seals, `decrypt` opens.
use tin_serwer.Base.{
  ℕ, ◌+◌, ◌-◌, ◌%◌, ◌≤◌, ◌≡◌, refl, sym, ap, ◌∙◌, true, some, List, [], ◌∷◌, ◌++◌, length, drop,
  le→leb, arith, append_assoc, append-nil, length-append, length-drop, ok,
}
use native.Mathlib.Nat.{zero-add}
use tin_serwer.Bytes.{copy_to}
use tin_serwer.Bytes.Laws.{copy_to-append, take-append, drop-append, drop_past}
use tin_serwer.Socket.{count}
use tin_serwer.Sesskey.{Evp, encrypt, decrypt}

-- What the EVP calls promise for one key and one vector of 16 bytes: encryption pads the text to
-- the next multiple of 16, by 1 to 16 bytes, and decryption of the result gives the text back.
pub record IsCbc (evp : Evp) (key : List ℕ) (iv : List ℕ) (src : List ℕ) : Type 0 where
  pub init : evp.encrypt_init key iv ≡ true
  pub init' : evp.decrypt_init key iv ≡ true
  pub updated : List ℕ
  pub finished : List ℕ
  pub updates : evp.encrypt_update key iv src ≡ some updated
  pub finishes : evp.encrypt_final key iv src ≡ some finished
  pub padded : length updated + length finished ≡ length src + (16 - length src % 16)
  pub opened : List ℕ
  pub closed : List ℕ
  pub opens : evp.decrypt_update key iv (updated ++ finished) ≡ some opened
  pub closes : evp.decrypt_final key iv (updated ++ finished) ≡ some closed
  pub same : opened ++ closed ≡ src
  pub vector : length iv ≡ 16

drop-drop_append :
    (a b dest : List ℕ) → drop (length b) (drop (length a) dest) ≡ drop (length (a ++ b)) dest
drop-drop_append [] b dest = refl
drop-drop_append (x ∷ a) b [] = drop_past (length b) [] (omega arith)
drop-drop_append (x ∷ a) b (y ∷ dest) = drop-drop_append a b dest

copy_to-start :
    (rest src : List ℕ)
    → length src ≤ length rest
    → copy_to rest 0 src ≡ ok (src ++ drop (length src) rest)
copy_to-start rest src h = copy_to-append [] rest src h

-- A second copy right behind a first one.
copy_to-next :
    (dest a b : List ℕ)
    → length a + length b ≤ length dest
    → copy_to (a ++ drop (length a) dest) (0 + length a) b
      ≡ ok ((a ++ b) ++ drop (length (a ++ b)) dest)
copy_to-next dest a b h =
    rw
      (
        zero-add,
        copy_to-append a (drop (length a) dest) b (omega (arith, length-drop (length a) dest)),
      )
      (ap ok (sym (append_assoc a b _) ∙ ap (λ rest. (a ++ b) ++ rest) (drop-drop_append a b dest)))

module _ (evp : Evp) (key iv src : List ℕ) (c : IsCbc evp key iv src) where
  -- The message of an encrypted text: its blocks, and the vector behind them.
  abbrev pub sealed : List ℕ
  sealed = (c.updated ++ c.finished) ++ iv

  pub length-sealed : length sealed ≡ length src + (16 - length src % 16) + 16
  length-sealed = omega (
    arith,
    length-append (c.updated ++ c.finished) iv,
    length-append c.updated c.finished,
    c.padded,
    c.vector,
  )

  -- `encrypt` fills a buffer of the right size with the message, and returns its length.
  pub encrypt-sealed :
      (dest : List ℕ)
      → length dest ≡ length sealed
      → encrypt evp (some iv) key dest src ≡ ok (count (length sealed), sealed)
  unfolding encrypt
  encrypt-sealed dest h =
      let n = length-append c.updated c.finished in
      let m = length-append (c.updated ++ c.finished) iv in
      let done : length (c.updated ++ c.finished) ≡ 0 + length c.updated + length c.finished =
        omega arith in
      let rest = drop (length (c.updated ++ c.finished)) dest in
      let size : length rest ≡ length dest - length (c.updated ++ c.finished) =
        length-drop (length (c.updated ++ c.finished)) dest in
      let full : drop (length iv) rest ≡ [] = drop_past (length iv) rest (omega arith) in
      rw (
        c.init,
        c.updates,
        encrypt,
        c.finishes,
        copy_to-start dest c.updated (omega arith),
        copy_to-next dest c.updated c.finished (omega arith),
        ← done,
        copy_to-append (c.updated ++ c.finished) rest iv (omega arith),
        full,
        append-nil,
        ← m,
      )

  -- `decrypt` writes the text to the front of the buffer, and leaves what stands behind it.
  pub decrypt-sealed :
      (dest : List ℕ)
      → length src ≤ length dest
      → decrypt evp key dest sealed ≡ ok (count 0, src ++ drop (length src) dest)
  unfolding decrypt
  decrypt-sealed dest h =
      let front : length sealed - 16 ≡ length (c.updated ++ c.finished) =
        omega (arith, length-append (c.updated ++ c.finished) iv, c.vector) in
      let big : 16 ≤ length sealed =
        omega (arith, length-append (c.updated ++ c.finished) iv, c.vector) in
      rw (
        le→leb _ _ big,
        front,
        take-append (c.updated ++ c.finished) iv,
        drop-append (c.updated ++ c.finished) iv,
        c.init',
        c.opens,
        c.closes,
        copy_to-start dest c.opened
            (omega (arith, length-append c.opened c.closed, ap length c.same)),
        copy_to-next dest c.opened c.closed
            (omega (arith, length-append c.opened c.closed, ap length c.same)),
        c.same,
      )
