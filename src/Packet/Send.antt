-- ===== src/Packet/Send.antt =====
-- `EncrptedPacket::send` and `PlainPacket::send` of packet.cpp.
use tin_serwer.Base.{
  ℕ, ◌+◌, ◌-◌, ◌%◌, Bool, true, false, Option, none, some, List, [], ◌∷◌, length, if◌then◌else◌,
  ltb, leb, Outcome, ok, fault, ◌>>=◌, bad_alloc, null_pointer, signed_overflow,
}
use tin_serwer.Bytes.{Garbage, alloc, to_bytes}
use tin_serwer.Socket.{Ret, below_one, Socket, write_till_done}
use tin_serwer.Sesskey.{Evp, encrypt}
use tin_serwer.Packet.{Packet, is_encrypted}

-- `encryptedLen` of a `uint32_t` that is passed as an `int`, and the allocation of so many bytes. A
-- length of 2^31 or more stands for the negative number -n: the remainder of its division by 16 is
-- -(n % 16), and an allocation of a negative size throws.
unfoldable pub encrypted_len : ℕ → Outcome ℕ
encrypted_len plain_len =
    if ltb plain_len 0x80000000
    then (let len = plain_len + (16 - plain_len % 16) + 16 in
        if ltb len 0x80000000 then ok len else fault signed_overflow)
    else (let n = 0x100000000 - plain_len in
        if leb n (32 + n % 16) then ok (32 + n % 16 - n) else fault bad_alloc)

-- The three writes that both functions end with: the length, the flag and the body. Each is made
-- only if the one before it returned more than 0.
unfoldable pub send_parts : ℕ → Bool → List ℕ → Socket → Ret × Socket
send_parts buf_size flag body s =
    let (ret, s1) = write_till_done (to_bytes 4 buf_size) s in
    if below_one ret
    then (ret, s1)
    else (let (ret, s2) = write_till_done ((if flag then 1 else 0) ∷ []) s1 in
        if below_one ret then (ret, s2) else write_till_done body s2)

-- The result of the encryption is not looked at: where it fails, what the buffer holds is sent.
unfoldable pub send_encrypted :
    Evp → Option (List ℕ) → Garbage → Option (List ℕ) → List ℕ → Socket → Outcome (Ret × Socket)
send_encrypted evp iv g none buf s = fault null_pointer
send_encrypted evp iv g (some key) buf s = do
  size ← encrypted_len (length buf)
  r ← encrypt evp iv key (alloc g size) buf
  ok (send_parts (length buf) true r.1 s)

unfoldable pub send_plain : List ℕ → Socket → Outcome (Ret × Socket)
send_plain buf s = ok (send_parts (length buf) false buf s)

-- The virtual call `packet.send(soc_desc, sesskey)`.
unfoldable pub send :
    Evp → Option (List ℕ) → Garbage → Packet → Option (List ℕ) → Socket → Outcome (Ret × Socket)
send evp iv g p sesskey s =
    if is_encrypted p.type then send_encrypted evp iv g sesskey p.buf s else send_plain p.buf s
