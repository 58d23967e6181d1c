-- ===== src/Sesskey.antt =====
-- sesskey.cpp: `Sesskey::encrypt` and `Sesskey::decrypt`. The calls of OpenSSL are a parameter.
pub mod Roundtrip
use tin_serwer.Base.{
  ℕ, ◌+◌, ◌-◌, Bool, true, false, Option, none, some, List, length, take, drop, if◌then◌else◌,
  Outcome, ok, fault, ◌>>=◌, leb, out_of_bounds,
}
use tin_serwer.Bytes.{copy_to}
use tin_serwer.Socket.{Ret, minus_one, count}

-- AES-128-CBC by the EVP functions, each with the key, the initialisation vector and the input so
-- far: whether `..Init_ex` succeeds, and what `..Update` and `..Final_ex` write, if they succeed.
pub record Evp : Type 0 where
  pub encrypt_init : List ℕ → List ℕ → Bool
  pub encrypt_update : List ℕ → List ℕ → List ℕ → Option (List ℕ)
  pub encrypt_final : List ℕ → List ℕ → List ℕ → Option (List ℕ)
  pub decrypt_init : List ℕ → List ℕ → Bool
  pub decrypt_update : List ℕ → List ℕ → List ℕ → Option (List ℕ)
  pub decrypt_final : List ℕ → List ℕ → List ℕ → Option (List ℕ)

-- What a stage writes to `dest`, or the early return with `dest` as it is.
abbrev stage :
    Option (List ℕ) → List ℕ → ℕ → (List ℕ → ℕ → Outcome (Ret × List ℕ)) → Outcome (Ret × List ℕ)
stage none dest off k = ok (minus_one, dest)
stage (some out) dest off k = copy_to dest off out >>= λ dest'. k dest' (off + length out)

-- `iv` is what `RNG::generate` fills in, or `none` where it fails.
unfoldable pub encrypt : Evp → Option (List ℕ) → List ℕ → List ℕ → List ℕ → Outcome (Ret × List ℕ)
encrypt evp none key dest src = ok (minus_one, dest)
encrypt evp (some iv) key dest src =
    if evp.encrypt_init key iv
    then stage (evp.encrypt_update key iv src) dest 0 (λ dest len.
      stage (evp.encrypt_final key iv src) dest len
        (λ dest len. stage (some iv) dest len (λ dest len. ok (count len, dest))))
    else ok (minus_one, dest)

-- The vector is the last 16 bytes of the message; a message with fewer is read out of bounds.
pub decrypt : Evp → List ℕ → List ℕ → List ℕ → Outcome (Ret × List ℕ)
decrypt evp key dest src =
    if leb 16 (length src)
    then (let msg = take (length src - 16) src in
        let iv = drop (length src - 16) src in
        if evp.decrypt_init key iv
        then stage (evp.decrypt_update key iv msg) dest 0 (λ dest len.
          stage (evp.decrypt_final key iv msg) dest len (λ dest len. ok (count 0, dest)))
        else ok (minus_one, dest))
    else fault out_of_bounds
