-- ===== src/Keys/Files.antt =====
-- The constructors of pubkey.cpp and privkey.cpp, which read a key from a file, and throw where
-- they cannot. What the calls of the system and of OpenSSL return is a parameter. The file is
-- closed on every path on which it was opened.
use tin_serwer.Base.{Bool, true, false, Option, none, some}
use tin_serwer.Keys.{Pubkey, Privkey}

-- Why a constructor throws.
pub data KeyError : Type 0 where
  unable_to_open unable_to_allocate unable_to_read : KeyError

-- A constructor ends with the key, or throws.
pub data Constructed (K : Type 0) : Type 0 where
  constructed : K → Constructed K
  throws : KeyError → Constructed K

-- `opens` and `allocates` are whether `fopen` and `RSA_new` succeed; the last argument is what is
-- read from the file.
unfoldable pub new_pubkey : (opens allocates : Bool) → Option Pubkey → Constructed Pubkey
new_pubkey false allocates read = throws unable_to_open
new_pubkey true false read = throws unable_to_allocate
new_pubkey true true none = throws unable_to_read
new_pubkey true true (some key) = constructed key

unfoldable pub new_privkey : (opens allocates : Bool) → Option Privkey → Constructed Privkey
new_privkey false allocates read = throws unable_to_open
new_privkey true false read = throws unable_to_allocate
new_privkey true true none = throws unable_to_read
new_privkey true true (some key) = constructed key
