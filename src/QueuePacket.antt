-- ===== src/QueuePacket.antt =====
-- queuePacket.h, queuePacket.cpp, ReadQueue.cpp and AddQueue.cpp: packets to and from the message
-- queues of the second server part. A packet is its class and its buffer.
pub mod Queue
pub mod Values
pub mod Descriptions
pub mod Delivery
pub mod Headers
pub mod Opening
pub mod Fitting
use tin_serwer.Base.{
  ℕ, ◌+◌, ◌-◌, Bool, true, false, List, [], ◌∷◌, ◌++◌, length, drop, if◌then◌else◌, leb, Outcome,
  ok, ◌>>=◌, ◌>>◌, double_free, check,
}
use tin_serwer.Bytes.{
  Garbage, alloc, copy_to, copy_from, write_byte, read_byte, to_bytes, from_bytes, c_string,
}
use tin_serwer.Float32.{Float32}
use tin_serwer.Packet.{c_str, from_end}

-- `QueuePacket::packet_type`, which names the classes too.
pub data PakType : Type 0 where
  nak eot desc val get set exit : PakType

unfoldable pub pak_code : PakType → ℕ
pak_code PakType.nak = 0x12
pak_code PakType.eot = 0x13
pak_code PakType.desc = 0x14
pak_code PakType.val = 0x15
pak_code PakType.get = 0x16
pak_code PakType.set = 0x17
pak_code PakType.exit = 0x18

pub record QueuePacket : Type 0 where
  pub type : PakType
  pub buf : List ℕ

-- The constructor of the base class that copies `buf_len` bytes.
unfoldable pub copy_queue_packet : PakType → List ℕ → ℕ → Outcome QueuePacket
copy_queue_packet t bufor buf_len =
    copy_from bufor 0 buf_len >>= λ b. ok (record { type = t; buf = b })

-- The header and one more byte.
unfoldable pub header_and_id : Garbage → PakType → ℕ → Outcome QueuePacket
unfolding pak_code
header_and_id g t num = do
  buf ← write_byte (alloc g 2) 0 (pak_code t)
  buf ← write_byte buf 1 num
  ok (record { type = t; buf = buf })

unfoldable pub new_q_nak : Garbage → ℕ → Outcome QueuePacket
unfolding header_and_id
new_q_nak g num = header_and_id g PakType.nak num

pub new_q_get : Garbage → ℕ → Outcome QueuePacket
unfolding header_and_id
new_q_get g num = header_and_id g PakType.get num

pub new_q_exit : Garbage → ℕ → Outcome QueuePacket
unfolding header_and_id
new_q_exit g num = header_and_id g PakType.exit num

pub new_q_eot : Garbage → Outcome QueuePacket
unfolding pak_code
new_q_eot g = do
  buf ← write_byte (alloc g 1) 0 (pak_code PakType.eot)
  ok (record { type = PakType.eot; buf = buf })

unfoldable pub new_q_set : Garbage → ℕ → Float32 → Outcome QueuePacket
unfolding pak_code
new_q_set g num value = do
  buf ← write_byte (alloc g 6) 0 (pak_code PakType.set)
  buf ← write_byte buf 1 num
  buf ← copy_to buf 2 (to_bytes 4 value)
  ok (record { type = PakType.set; buf = buf })

-- `time_size` is the platform's `sizeof(time_t)`. The buffer has 10 bytes.
pub new_q_val : ℕ → Garbage → ℕ → Float32 → ℕ → Outcome QueuePacket
unfolding pak_code
new_q_val time_size g num value time_stamp = do
  buf ← write_byte (alloc g 10) 0 (pak_code PakType.val)
  buf ← write_byte buf 1 num
  buf ← copy_to buf 2 (to_bytes 4 value)
  buf ← copy_to buf 6 (to_bytes time_size time_stamp)
  ok (record { type = PakType.val; buf = buf })

-- A unit of more than three characters makes the constructor free the buffer and throw. The
-- unwinding then runs the destructor of the base class, which frees the buffer again.
unfoldable pub new_q_desc :
    Garbage → Garbage → ℕ → ℕ → List ℕ → List ℕ → Float32 → Float32 → Outcome QueuePacket
unfolding pak_code
new_q_desc g g' dev_id dev_class name unit min max = do
  check (leb (length unit) 3) double_free
  buf ← write_byte (alloc g (length name + 16)) 0 (pak_code PakType.desc)
  buf ← write_byte buf 1 dev_id
  buf ← write_byte buf 2 dev_class
  bytes ← copy_from (c_str g' name) 0 (length name + 1)
  buf ← copy_to buf 3 bytes
  bytes ← copy_from (c_str g' unit) 0 4
  off ← from_end buf 12
  buf ← copy_to buf off bytes
  off ← from_end buf 8
  buf ← copy_to buf off (to_bytes 4 min)
  off ← from_end buf 4
  buf ← copy_to buf off (to_bytes 4 max)
  ok (record { type = PakType.desc; buf = buf })

-- The getters: `getId`, `getServiceId` and `getDeviceId` read byte 1.
unfoldable pub get_id : QueuePacket → Outcome ℕ
get_id p = read_byte p.buf 1

pub get_device_class : QueuePacket → Outcome ℕ
get_device_class p = read_byte p.buf 2

unfoldable pub get_name : QueuePacket → Outcome (List ℕ)
get_name p = c_string (drop 3 p.buf)

unfoldable pub get_unit : QueuePacket → Outcome (List ℕ)
get_unit p = from_end p.buf 12 >>= λ off. c_string (drop off p.buf)

unfoldable pub get_min : QueuePacket → Outcome Float32
get_min p = do off ← from_end p.buf 8; bytes ← copy_from p.buf off 4; ok (from_bytes bytes)

unfoldable pub get_max : QueuePacket → Outcome Float32
get_max p = do off ← from_end p.buf 4; bytes ← copy_from p.buf off 4; ok (from_bytes bytes)

unfoldable pub get_value : QueuePacket → Outcome Float32
get_value p = do bytes ← copy_from p.buf 2 4; ok (from_bytes bytes)

unfoldable pub get_timestamp : ℕ → QueuePacket → Outcome ℕ
get_timestamp time_size p = do bytes ← copy_from p.buf 6 time_size; ok (from_bytes bytes)
