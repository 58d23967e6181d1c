-- ===== src/Packet.antt =====
-- packet.h and the classes of packet.cpp: a packet is its class and its buffer, `buf_size` the
-- buffer's length. The constructors allocate a buffer and fill it in; `g` is what fresh memory
-- holds.
pub mod Layout
pub mod Descriptions
pub mod Send
pub mod Wire
pub mod Roundtrip
pub mod Factory
use tin_serwer.Base.{
  ℕ, ◌+◌, ◌-◌, Bool, true, false, List, [], ◌∷◌, ◌++◌, length, take, drop, if◌then◌else◌, ltb, leb,
  Outcome, ok, fault, ◌>>=◌, ◌>>◌, double_free, out_of_bounds, check,
}
use tin_serwer.Bytes.{
  Garbage, alloc, copy_to, copy_from, write_byte, read_byte, to_bytes, from_bytes, c_string,
}
use tin_serwer.Float32.{Float32}

-- `Packet::pck_type`, which names the classes too.
pub data PckType : Type 0 where
  ack nak eot chall chall_resp key desc val set exit id : PckType

unfoldable pub pck_code : PckType → ℕ
pck_code PckType.ack = 0x01
pck_code PckType.nak = 0x02
pck_code PckType.eot = 0x03
pck_code PckType.chall = 0x04
pck_code PckType.chall_resp = 0x05
pck_code PckType.key = 0x06
pck_code PckType.desc = 0x07
pck_code PckType.val = 0x08
pck_code PckType.set = 0x09
pck_code PckType.exit = 0x0a
pck_code PckType.id = 0x0b

-- The classes below `EncrptedPacket`; the others are below `PlainPacket`.
unfoldable pub is_encrypted : PckType → Bool
is_encrypted PckType.chall = false
is_encrypted PckType.chall_resp = false
is_encrypted PckType.key = false
is_encrypted PckType.id = false
is_encrypted _ = true

pub record Packet : Type 0 where
  pub type : PckType
  pub buf : List ℕ

-- The constructor of the base class that copies `buf_len` bytes.
unfoldable pub copy_packet : PckType → List ℕ → ℕ → Outcome Packet
copy_packet t buf_in buf_len = copy_from buf_in 0 buf_len >>= λ b. ok (record { type = t; buf = b })

-- The header and one more byte.
unfoldable pub two_bytes : Garbage → PckType → ℕ → Outcome Packet
unfolding pck_code
two_bytes g t b = do
  buf ← write_byte (alloc g 2) 0 (pck_code t)
  buf ← write_byte buf 1 b
  ok (record { type = t; buf = buf })

unfoldable pub new_ack : Garbage → ℕ → Outcome Packet
unfolding two_bytes
new_ack g num = two_bytes g PckType.ack num

pub new_nak : Garbage → ℕ → Outcome Packet
unfolding two_bytes
new_nak g num = two_bytes g PckType.nak num

pub new_exit : Garbage → ℕ → Outcome Packet
unfolding two_bytes
new_exit g code = two_bytes g PckType.exit code

unfoldable pub new_id : Garbage → ℕ → Outcome Packet
unfolding two_bytes
new_id g num = two_bytes g PckType.id num

unfoldable pub new_eot : Garbage → Outcome Packet
unfolding pck_code
new_eot g = do
  buf ← write_byte (alloc g 1) 0 (pck_code PckType.eot)
  ok (record { type = PckType.eot; buf = buf })

-- `createFromRandom` and `createFromEncrypted`: the header and `n` bytes that the caller passes.
unfoldable pub create_from : Garbage → PckType → ℕ → List ℕ → Outcome Packet
unfolding pck_code
create_from g t n src = do
  buf ← write_byte (alloc g (n + 1)) 0 (pck_code t)
  body ← copy_from src 0 n
  buf ← copy_to buf 1 body
  copy_packet t buf (n + 1)

unfoldable pub chall_from_random : Garbage → List ℕ → Outcome Packet
unfolding create_from
chall_from_random g rand = create_from g PckType.chall 8 rand

unfoldable pub chall_resp_from_encrypted : Garbage → List ℕ → Outcome Packet
unfolding create_from
chall_resp_from_encrypted g encrypt = create_from g PckType.chall_resp 256 encrypt

unfoldable pub key_from_encrypted : Garbage → List ℕ → Outcome Packet
unfolding create_from
key_from_encrypted g encrypt = create_from g PckType.key 256 encrypt

unfoldable pub new_set : Garbage → ℕ → Float32 → Outcome Packet
unfolding pck_code
new_set g num value = do
  buf ← write_byte (alloc g 6) 0 (pck_code PckType.set)
  buf ← write_byte buf 1 num
  buf ← copy_to buf 2 (to_bytes 4 value)
  ok (record { type = PckType.set; buf = buf })

-- The memory behind `c_str()`: the text, its terminating zero, and what the string's storage, of
-- at least 16 bytes, holds after that.
unfoldable pub c_str : Garbage → List ℕ → List ℕ
c_str g s = s ++ 0 ∷ alloc g 15

-- `&buf[buf_size - back]`: an offset below zero wraps around, far past the end of the buffer.
unfoldable pub from_end : List ℕ → ℕ → Outcome ℕ
from_end buf back = if leb back (length buf) then ok (length buf - back) else fault out_of_bounds

-- A unit of more than three characters makes the constructor free the buffer and throw. The
-- unwinding then runs the destructor of the base class, which frees the buffer again.
unfoldable pub new_desc : Garbage → Garbage → List ℕ → List ℕ → Float32 → Float32 → Outcome Packet
unfolding pck_code
new_desc g g' name unit min max = do
  check (leb (length unit) 3) double_free
  buf ← write_byte (alloc g (length name + 15)) 0 (pck_code PckType.desc)
  buf ← write_byte buf 1 0x00
  bytes ← copy_from (c_str g' name) 0 (length name + 1)
  buf ← copy_to buf 2 bytes
  bytes ← copy_from (c_str g' unit) 0 4
  off ← from_end buf 12
  buf ← copy_to buf off bytes
  off ← from_end buf 8
  buf ← copy_to buf off (to_bytes 4 min)
  off ← from_end buf 4
  buf ← copy_to buf off (to_bytes 4 max)
  ok (record { type = PckType.desc; buf = buf })

-- The getters: `getId`, `getServiceId`, `getCode` and `getDeviceClass` read byte 1.
unfoldable pub byte_1 : Packet → Outcome ℕ
byte_1 p = read_byte p.buf 1

-- `getChall`, `getResp` and `getKeyBuf`, with the number of bytes that the caller reads there.
unfoldable pub body_of : Packet → ℕ → Outcome (List ℕ)
body_of p n = copy_from p.buf 1 n

unfoldable pub get_name : Packet → Outcome (List ℕ)
get_name p = c_string (drop 2 p.buf)

unfoldable pub get_unit : Packet → Outcome (List ℕ)
unfolding from_end
get_unit p = from_end p.buf 12 >>= λ off. c_string (drop off p.buf)

unfoldable pub get_min : Packet → Outcome Float32
unfolding from_end
get_min p = do off ← from_end p.buf 8; bytes ← copy_from p.buf off 4; ok (from_bytes bytes)

unfoldable pub get_max : Packet → Outcome Float32
unfolding from_end
get_max p = do off ← from_end p.buf 4; bytes ← copy_from p.buf off 4; ok (from_bytes bytes)

unfoldable pub get_value : Packet → Outcome Float32
get_value p = do bytes ← copy_from p.buf 2 4; ok (from_bytes bytes)

-- `time_size` is the platform's `sizeof(time_t)`.
unfoldable pub get_timestamp : ℕ → Packet → Outcome ℕ
get_timestamp time_size p = do bytes ← copy_from p.buf 6 time_size; ok (from_bytes bytes)
