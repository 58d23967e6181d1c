-- ===== src/Tests/Queue.antt =====
-- queuePacket.cpp and the descriptions of packet.cpp at concrete inputs.
use tin_serwer.Base.{
  ℕ, ◌+◌, ◌≡◌, refl, some, List, [], ◌∷◌, length, ok, fault, out_of_bounds, indeterminate, arith,
  inr,
}
use tin_serwer.Bytes.{Garbage, alloc, write_byte, to_bytes, copy_to}
use tin_serwer.Socket.{count}
use tin_serwer.QueuePacket.{
  QueuePacket, PakType, pak_code, new_q_val, new_q_desc, new_q_get, new_q_set,
}
use tin_serwer.QueuePacket.Queue.{
  AddQueue, add_to_queue, packet_from_queue, pak_size, Received, message, error, read_to_char_array,
}
use tin_serwer.QueuePacket.Delivery.{IsWhole, packet_from_queue-add, packet_from_queue_unknown}
use tin_serwer.QueuePacket.Values.{new_q_val-getters, new_q_val_overflow}
use tin_serwer.QueuePacket.Descriptions.{new_q_desc-getters}
use tin_serwer.QueuePacket
use tin_serwer.Packet.{Packet, PckType, new_desc, byte_1}
use tin_serwer.Packet
use tin_serwer.Packet.Descriptions.{new_desc-getters}

abbrev pub junk : Garbage
junk i = i + 100

-- "lamp" and "lx"
abbrev lamp : List ℕ
lamp = 108 ∷ 97 ∷ 109 ∷ 112 ∷ []

abbrev lux : List ℕ
lux = 108 ∷ 120 ∷ []

abbrev wanted : QueuePacket
wanted = record { type = PakType.set; buf = 0x17 ∷ 4 ∷ 0 ∷ 0 ∷ 128 ∷ 63 ∷ [] }

wanted-IsWhole : IsWhole wanted
unfolding pak_code pak_size
wanted-IsWhole = record { rest = 4 ∷ 0 ∷ 0 ∷ 128 ∷ 63 ∷ []; parts = refl; size = refl }

abbrev queue : AddQueue
queue = record { msg_size = 128; messages = [] }

wanted_made : new_q_set junk 4 0x3f800000 ≡ ok wanted
unfolding new_q_set write_byte alloc to_bytes copy_to
wanted_made = refl

new_q_val-getters_example :
    (p : QueuePacket) × (new_q_val 4 junk 9 0x40400000 1528000000 ≡ ok p)
    × (p.type ≡ PakType.val)
    × IsWhole p
    × (length p.buf ≡ 10)
    × (QueuePacket.get_id p ≡ ok 9)
    × (QueuePacket.get_value p ≡ ok 0x40400000)
    × (QueuePacket.get_timestamp 4 p ≡ ok 1528000000)
new_q_val-getters_example =
    new_q_val-getters 4 junk 9 0x40400000 1528000000 (omega arith) (omega arith) (omega arith)

new_q_val_overflow_example : new_q_val 8 junk 9 0x40400000 1528000000 ≡ fault out_of_bounds
new_q_val_overflow_example = new_q_val_overflow 8 junk 9 0x40400000 1528000000 (omega arith)

new_q_desc-getters_example :
    (p : QueuePacket) × (new_q_desc junk junk 4 1 lamp lux 0 0x40400000 ≡ ok p)
    × (p.type ≡ PakType.desc)
    × IsWhole p
    × (length p.buf ≡ 20)
    × (QueuePacket.get_id p ≡ ok 4)
    × (QueuePacket.get_device_class p ≡ ok 1)
    × (QueuePacket.get_name p ≡ ok lamp)
    × (QueuePacket.get_unit p ≡ ok lux)
    × (QueuePacket.get_min p ≡ ok 0)
    × (QueuePacket.get_max p ≡ ok 0x40400000)
new_q_desc-getters_example =
    new_q_desc-getters junk junk 4 1 lamp lux 0 0x40400000 (omega arith) (ground arith)
      (ground arith) (omega arith) (omega arith)

new_desc-getters_example :
    (p : Packet) × (new_desc junk junk lamp lux 0 0x40400000 ≡ ok p)
    × (p.type ≡ PckType.desc)
    × (byte_1 p ≡ ok 0)
    × (Packet.get_name p ≡ ok lamp)
    × (Packet.get_unit p ≡ ok lux)
    × (Packet.get_min p ≡ ok 0)
    × (Packet.get_max p ≡ ok 0x40400000)
new_desc-getters_example =
    new_desc-getters junk junk lamp lux 0 0x40400000 (omega arith) (ground arith) (ground arith)
      (omega arith) (omega arith)

packet_from_queue-add_example :
    (add_to_queue wanted queue ≡ (count 0, record { msg_size = 128; messages = wanted.buf ∷ [] }))
    × (packet_from_queue junk junk (count 6) wanted.buf ≡ ok (some wanted))
packet_from_queue-add_example =
    packet_from_queue-add junk junk wanted queue wanted-IsWhole (omega arith) (omega arith)

packet_from_queue_unknown_example :
    packet_from_queue junk junk (count 2) (0x19 ∷ 4 ∷ []) ≡ fault indeterminate
packet_from_queue_unknown_example =
    packet_from_queue_unknown junk junk 0x19 (4 ∷ []) (omega arith) (inr (omega arith))

abbrev reads : List Received
reads = error 110 ∷ error 110 ∷ message (0x16 ∷ 4 ∷ []) ∷ error 9 ∷ []

-- The loop waits over two timeouts.
reads_run : read_to_char_array reads 0 ≡ some (count 2, 0x16 ∷ 4 ∷ [], 110, error 9 ∷ [])
unfolding read_to_char_array
reads_run = refl
