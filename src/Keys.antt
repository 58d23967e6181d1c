-- ===== src/Keys.antt =====
-- RNG.cpp, pubkey.cpp and privkey.cpp: random numbers and the asymmetric keys. The calls of OpenSSL
-- are parameters.
pub mod Files
use tin_serwer.Base.{
  ℕ, Bool, true, false, Option, none, some, List, [], ◌∷◌, length, ◌==◌, if◌then◌else◌, Outcome, ok,
  fault, ◌>>=◌, out_of_bounds,
}
use tin_serwer.Bytes.{Garbage, alloc, copy_to}
use tin_serwer.Packet.{Packet, body_of}
use tin_serwer.Socket.{Ret, minus_one, count}

-- What the functions of OpenSSL do with one key, for the padding that the code asks for: the bytes
-- that they write, or `none` where they fail. `rsa_verify` has a digest and a signature.
pub record Pubkey : Type 0 where
  pub rsa_public_decrypt : List ℕ → Option (List ℕ)
  pub rsa_public_encrypt : List ℕ → Option (List ℕ)
  pub rsa_verify : List ℕ → List ℕ → Bool

pub record Privkey : Type 0 where
  pub rsa_private_decrypt : List ℕ → Option (List ℕ)
  pub rsa_private_encrypt : List ℕ → Option (List ℕ)
  pub rsa_sign : List ℕ → Option (List ℕ)

-- `RNG::generate`: `rand` is what `RAND_bytes` writes, or `none` where it does not return 1.
unfoldable pub generate : Option (List ℕ) → List ℕ → Outcome (Ret × List ℕ)
generate none buf = ok (minus_one, buf)
generate (some bytes) buf = copy_to buf 0 bytes >>= λ buf. ok (count 0, buf)

-- What a function of OpenSSL returns, and the buffer that it writes to.
abbrev written : Option (List ℕ) → List ℕ → Outcome (Ret × List ℕ)
written none buf = ok (minus_one, buf)
written (some out) buf = copy_to buf 0 out >>= λ buf. ok (count (length out), buf)

pub pubkey_decrypt : Pubkey → List ℕ → List ℕ → Outcome (Ret × List ℕ)
pubkey_decrypt key encrypted buf = written (key.rsa_public_decrypt encrypted) buf

unfoldable pub pubkey_encrypt : Pubkey → List ℕ → List ℕ → Outcome (Ret × List ℕ)
pubkey_encrypt key plain buf = written (key.rsa_public_encrypt plain) buf

unfoldable pub privkey_decrypt : Privkey → List ℕ → List ℕ → Outcome (Ret × List ℕ)
privkey_decrypt key encrypted buf = written (key.rsa_private_decrypt encrypted) buf

pub privkey_encrypt : Privkey → List ℕ → List ℕ → Outcome (Ret × List ℕ)
privkey_encrypt key plain buf = written (key.rsa_private_encrypt plain) buf

-- `ret < 0`
abbrev below_zero : Ret → Bool
below_zero minus_one = true
below_zero (count n) = false

-- The loop that compares `buf[i]` with `chal[i]`, over the bytes of `chal`.
pub same_bytes : List ℕ → List ℕ → Outcome Bool
same_bytes buf [] = ok true
same_bytes [] (c ∷ cs) = fault out_of_bounds
same_bytes (b ∷ bs) (c ∷ cs) = let rest = same_bytes bs cs in if b == c then rest else ok false

pub verify_resp : Pubkey → Garbage → List ℕ → List ℕ → Outcome Bool
unfolding pubkey_decrypt same_bytes
verify_resp key g resp chal = do
  r ← pubkey_decrypt key resp (alloc g (length chal))
  if below_zero r.0 then ok false else same_bytes r.1 chal

-- `sha1` is what the three calls of SHA1 make of the data.
unfoldable pub verify_sign : (List ℕ → List ℕ) → Pubkey → List ℕ → List ℕ → Bool
verify_sign sha1 key text signature = key.rsa_verify (sha1 text) signature

-- The return value, and the buffer for the signature.
unfoldable pub sign : (List ℕ → List ℕ) → Privkey → List ℕ → List ℕ → Outcome (Bool × List ℕ)
sign sha1 key text buf = elim (key.rsa_sign (sha1 text)) [
  | none ↦ ok (false, buf)
  | some out ↦ copy_to buf 0 out >>= λ buf. ok (true, buf)
]

-- The constructors of `Sesskey` (sesskey.cpp): a random key, or the key in a KEY packet. Where they
-- fail, the key is what the memory holds.
unfoldable pub new_sesskey : Option (List ℕ) → Garbage → Outcome (List ℕ)
new_sesskey rand g = generate rand (alloc g 16) >>= λ r. ok r.1

unfoldable pub sesskey_from_packet : Privkey → Garbage → Packet → Outcome (List ℕ)
sesskey_from_packet privkey g key_pck = body_of key_pck 256 >>= λ encrypted.
    privkey_decrypt privkey encrypted (alloc g 16) >>= λ r. ok r.1
