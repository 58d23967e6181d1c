-- ===== src/Packet/Factory.antt =====
-- `Packet::packetFactory` of packet.cpp: reads one packet from a connection.
pub mod Plain
use tin_serwer.Base.{
  ℕ, zero, suc, ◌+◌, ◌%◌, ◌^◌, Bool, true, false, not, Option, none, some, List, [], ◌∷◌, length,
  if◌then◌else◌, ltb, leb, ◌==◌, ◌||◌, Outcome, ok, fault, ◌>>=◌, bad_alloc, null_pointer,
}
use tin_serwer.Bytes.{Garbage, alloc, copy_to, copy_from, read_byte, from_bytes}
use tin_serwer.Socket.{Ret, below_one, Socket, read_till_done}
use tin_serwer.Sesskey.{Evp, decrypt}
use tin_serwer.Packet.{Packet, PckType, pck_code, copy_packet}
use tin_serwer.Packet.Send.{encrypted_len}

-- The cases of the second switch: there is none for PCK_SET.
unfoldable pub type_of_byte : ℕ → Option PckType
unfolding pck_code
type_of_byte b =
    if b == pck_code PckType.ack
    then some PckType.ack
    else if b == pck_code PckType.nak
    then some PckType.nak
    else if b == pck_code PckType.eot
    then some PckType.eot
    else if b == pck_code PckType.key
    then some PckType.key
    else if b == pck_code PckType.chall
    then some PckType.chall
    else if b == pck_code PckType.chall_resp
    then some PckType.chall_resp
    else if b == pck_code PckType.desc
    then some PckType.desc
    else if b == pck_code PckType.val
    then some PckType.val
    else if b == pck_code PckType.exit
    then some PckType.exit
    else if b == pck_code PckType.id
    then some PckType.id
    else none

-- How many bytes the constructor of a class copies: a DESC takes the length of the message.
unfoldable pub size_of : PckType → ℕ → ℕ
size_of PckType.ack n = 2
size_of PckType.nak n = 2
size_of PckType.eot n = 1
size_of PckType.chall n = 9
size_of PckType.chall_resp n = 257
size_of PckType.key n = 257
size_of PckType.desc n = n
size_of PckType.val n = 10
size_of PckType.set n = 6
size_of PckType.exit n = 2
size_of PckType.id n = 2

unfoldable pub construct : List ℕ → ℕ → Option PckType → Outcome (Option Packet)
unfolding size_of
construct new_buf plain_len none = ok none
construct new_buf plain_len (some t) =
    copy_packet t new_buf (size_of t plain_len) >>= λ p. ok (some p)

-- The second switch, over the buffer `new_buf`.
unfoldable pub make_packet : List ℕ → ℕ → Outcome (Option Packet)
make_packet new_buf plain_len =
    read_byte new_buf 0 >>= λ b. construct new_buf plain_len (type_of_byte b)

-- The first switch: the headers that must not come in plain text.
unfoldable pub must_be_encrypted : ℕ → Bool
unfolding pck_code
must_be_encrypted b =
    b == pck_code PckType.ack
    || (b == pck_code PckType.nak
        || (b == pck_code PckType.eot
            || (b == pck_code PckType.desc
                || (b == pck_code PckType.val || b == pck_code PckType.exit))))

-- `expected_size`, as the size of an allocation.
unfoldable pub expected_size : Bool → ℕ → Outcome ℕ
expected_size true plain_len = encrypted_len plain_len
expected_size false plain_len = if ltb plain_len 0x80000000 then ok plain_len else fault bad_alloc

-- A message in plain text is refused or copied to `new_buf`.
unfoldable pub open_plain : Garbage → ℕ → List ℕ → ℕ → Outcome (Option Packet)
open_plain g plain_len encrypted b =
    if must_be_encrypted b
    then ok none
    else (copy_to (alloc g ((plain_len + 16) % 2 ^ 32)) 0 encrypted >>= λ new_buf.
        make_packet new_buf plain_len)

-- What is made of the body that was read. The result of the decryption is not looked at.
unfoldable pub open_body : Evp → Garbage → Option (List ℕ) → ℕ → List ℕ → Outcome (Option Packet)
open_body evp g (some key) plain_len encrypted =
    decrypt evp key (alloc g ((plain_len + 16) % 2 ^ 32)) encrypted >>= λ r.
    make_packet r.1 plain_len
open_body evp g none plain_len encrypted =
    read_byte encrypted 0 >>= λ b. open_plain g plain_len encrypted b

-- The third read, of `size` bytes, and what follows it.
unfoldable pub read_rest :
    Evp → Garbage → Option (List ℕ) → ℕ → Socket → ℕ → Outcome (Option Packet × Socket)
read_rest evp g key plain_len s size =
    let (ret, encrypted, s') = read_till_done size s in
    if below_one ret
    then ok (none, s')
    else (open_body evp g key plain_len encrypted >>= λ p. ok (p, s'))

-- The allocations and the third read, with the key if the message is encrypted.
unfoldable pub read_body :
    Evp → Garbage → Option (List ℕ) → ℕ → Socket → Outcome (Option Packet × Socket)
read_body evp g none plain_len s =
    expected_size false plain_len >>= read_rest evp g none plain_len s
read_body evp g (some key) plain_len s =
    expected_size true plain_len >>= read_rest evp g (some key) plain_len s

-- What follows the length and the flag.
unfoldable pub read_flagged :
    Evp → Garbage → Option (List ℕ) → ℕ → ℕ → Socket → Outcome (Option Packet × Socket)
read_flagged evp g sesskey plain_len flag s =
    if flag == 0
    then read_body evp g none plain_len s
    else (elim sesskey [ none ↦ ok (none, s) | some key ↦ read_body evp g (some key) plain_len s ])

-- The first two reads, of the length and the flag, and what follows them.
unfoldable pub read_header :
    (ℕ → ℕ → Socket → Outcome (Option Packet × Socket)) → Socket → Outcome (Option Packet × Socket)
read_header flagged s =
    let (ret, len_bytes, s1) = read_till_done 4 s in
    if below_one ret
    then ok (none, s1)
    else (let (ret, flag, s2) = read_till_done 1 s1 in
        if below_one ret
        then ok (none, s2)
        else flagged (from_bytes len_bytes) (from_bytes flag) s2)

unfoldable pub packet_factory :
    Evp → Garbage → Option (List ℕ) → Socket → Outcome (Option Packet × Socket)
unfolding read_header
packet_factory evp g sesskey s = read_header (read_flagged evp g sesskey) s
