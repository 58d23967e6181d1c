-- ===== src/Tests/Serving.antt =====
-- Server.cpp at concrete inputs: number 1 is a lamp (an output), number 2 is pending, number 3 a
-- sensor (an input).
use tin_serwer.Base.{
  ℕ, zero, suc, ◌+◌, ◌≡◌, refl, subst, true, false, Bool, Option, none, some, List, [], ◌∷◌, ◌++◌,
  length, ok, fault, out_of_bounds, null_pointer, arith, ◌==◌, if◌then◌else◌, ◌&&◌, ◌↔◌,
}
use tin_serwer.Socket.{count, minus_one}
use tin_serwer.Service.{Service, ServiceType, Common, input, output, common_of}
use tin_serwer.ServiceTable.{ServiceTable, get_service}
use tin_serwer.ServiceTable.Ids.{count as count_of, in_use}
use tin_serwer.ServiceTable.Invariant.{IsValid, inside}
use tin_serwer.ServiceTable.Status.{spare, pending, live, status, get_service-slot}
use tin_serwer.QueuePacket.{
  QueuePacket, PakType, get_id, pak_code, copy_queue_packet, new_q_nak, header_and_id,
}
use tin_serwer.QueuePacket.Queue.{
  packet_from_queue, pak_of_byte, construct_pak, pak_size, add_to_queue, add_message,
}
use tin_serwer.Bytes.{copy_to, copy_from, alloc, read_byte, write_byte}
use tin_serwer.Server.{Server, send_message, add_service, unregister_service}
use tin_serwer.Server.Receiving.{
  mq_receive, Round, mq_receive_loop, cast_get, cast_set, handle_get, id_through, look, answer,
}
use tin_serwer.Server.Requests.{
  IsServing, Answered, Fits, reply_of, reply_to, q_get, Sent, mq_receive_get, mq_receive_overflow,
}
use tin_serwer.Server.Setting.{mq_receive_loop-set}
use tin_serwer.QueuePacket.Delivery.{IsWhole}
use tin_serwer.Server.Rounds.{Kept, mq_receive_loop-Kept}
use tin_serwer.Server.Announcements.{
  IsDescribable, Describes, add_service-Describes, unregister_service-Sent,
}
use tin_serwer.Tests.Queue.{junk}

abbrev lamp : Service
lamp = output (record {
  common = record {
    id = 1;
    type = ServiceType.analog_out;
    name = 108 ∷ 97 ∷ [];
    unit = 108 ∷ [];
    min = 0;
    max = 0x40400000;
    val = 0x3f800000;
  };
  expected = 0;
  in_progress = 0;
  change = false;
})

abbrev sensor_common : Common
sensor_common = record {
  id = 3;
  type = ServiceType.analog_in;
  name = 116 ∷ [];
  unit = 67 ∷ [];
  min = 0;
  max = 0x42c80000;
  val = 0x41a00000;
}

abbrev sensor : Service
sensor = input (record { common = sensor_common; timestamp = 1528000000 })

abbrev heap : ℕ → Option Service
heap a = if a == 71 then some lamp else if a == 73 then some sensor else none

abbrev table : ServiceTable ℕ
table = record { services = none ∷ some 71 ∷ none ∷ some 73 ∷ []; free = []; reserved = 2 ∷ [] }

abbrev server : Server
server = record {
  service_table = table;
  heap = heap;
  send_msg_queue = record { msg_size = 128; messages = [] };
}

table-IsValid : IsValid table
table-IsValid = record { positive = omega arith; bounded = omega arith; exact = exact }
  where
    exact :
        (i : ℕ)
        → count_of i table.free + count_of i table.reserved + in_use i table.services
          ≡ inside i (length table.services)
    exact zero = refl
    exact (suc zero) = refl
    exact (suc (suc zero)) = refl
    exact (suc (suc (suc zero))) = refl
    exact (suc (suc (suc (suc i)))) = ground arith

abbrev Alive : ℕ → Type 0
Alive a =
    (service : Service) × (heap a ≡ some service) × Fits 4 1528000007 (reply_of 1528000007 service)

lamp-Alive : (a : ℕ) → ◌≡◌ {A = Option ℕ} (some 71) (some a) → Alive a
lamp-Alive a e = let at : 71 ≡ a = cc in subst Alive at (lamp, refl, (omega arith, omega arith))

sensor-Alive : (a : ℕ) → ◌≡◌ {A = Option ℕ} (some 73) (some a) → Alive a
sensor-Alive a e = let at : 73 ≡ a = cc in subst Alive at (sensor, refl, (omega arith, omega arith))

alive : (num a : ℕ) → get_service num table ≡ some a → Alive a
unfolding get_service
alive zero a e = cc
alive (suc zero) a e = lamp-Alive a e
alive (suc (suc zero)) a e = cc
alive (suc (suc (suc zero))) a e = sensor-Alive a e
alive (suc (suc (suc (suc num)))) a e =
    let past : get_service (suc (suc (suc (suc num)))) table ≡ none = get_service-slot _ table in cc

server-IsServing : IsServing 4 1528000007 server
server-IsServing = record { alive = alive; room = omega arith; bound = omega arith }

mq_receive_get_example :
    Answered 4
      (reply_to 1528000007 server 3)
      server
      (mq_receive 4 junk 1528000007 0 (some (q_get (0x16 ∷ 3 ∷ []))) server)
unfolding get_id read_byte
mq_receive_get_example =
    mq_receive_get 4 junk 1528000007 0 3 (0x16 ∷ 3 ∷ []) server (omega arith) server-IsServing refl

mq_receive_overflow_example :
    mq_receive 8 junk 1528000007 0 (some (q_get (0x16 ∷ 3 ∷ []))) server ≡ fault out_of_bounds
unfolding get_id get_service read_byte
mq_receive_overflow_example =
    mq_receive_overflow 8 junk 1528000007 0 3 (0x16 ∷ 3 ∷ []) server 73 sensor (omega arith) refl
      refl refl

-- A request for a number that nobody has, an interrupted read, and the end of the queue.
abbrev rounds : List Round
rounds =
    record { ret = count 2; bytes = 0x16 ∷ 9 ∷ []; errno = 0; now = 1528000008 }
    ∷ record { ret = minus_one; bytes = []; errno = 4; now = 1528000009 }
    ∷ record { ret = minus_one; bytes = []; errno = 9; now = 1528000009 }
    ∷ []

abbrev refused : Server
refused = record server {
  send_msg_queue = record { msg_size = 128; messages = (0x12 ∷ 9 ∷ []) ∷ [] };
}

rounds_run : mq_receive_loop 4 junk rounds server ≡ ok (false, refused)
unfolding mq_receive_loop packet_from_queue copy_to copy_from alloc read_byte pak_of_byte pak_code
    construct_pak pak_size copy_queue_packet mq_receive cast_get cast_set handle_get id_through
    get_id look get_service answer new_q_nak header_and_id write_byte send_message add_to_queue
    add_message
rounds_run = refl

mq_receive_loop-Kept_example : Kept server refused
mq_receive_loop-Kept_example = mq_receive_loop-Kept 4 junk rounds server refused false rounds_run

-- The lamp is to be set to 1.0.
abbrev set_lamp : List ℕ
set_lamp = 0x17 ∷ 1 ∷ 0 ∷ 0 ∷ 128 ∷ 63 ∷ []

abbrev first_round : List Round
first_round = record { ret = count 2; bytes = 0x16 ∷ 9 ∷ []; errno = 0; now = 1528000008 } ∷ []

first_round_run : mq_receive_loop 4 junk first_round server ≡ ok (true, refused)
unfolding mq_receive_loop packet_from_queue copy_to copy_from alloc read_byte pak_of_byte pak_code
    construct_pak pak_size copy_queue_packet mq_receive cast_get cast_set handle_get id_through
    get_id look get_service answer new_q_nak header_and_id write_byte send_message add_to_queue
    add_message
first_round_run = refl

set_lamp-IsWhole : IsWhole (record { type = PakType.set; buf = set_lamp })
unfolding pak_code pak_size
set_lamp-IsWhole = record { rest = 1 ∷ 0 ∷ 0 ∷ 128 ∷ 63 ∷ []; parts = refl; size = refl }

mq_receive_loop-set_example :
    mq_receive_loop 4 junk
      (first_round
        ++ record { ret = count 6; bytes = set_lamp; errno = 0; now = 1528000008 } ∷ rounds)
      server
    ≡ fault null_pointer
mq_receive_loop-set_example =
    mq_receive_loop-set 4 junk first_round rounds server refused set_lamp 0 1528000008
      first_round_run set_lamp-IsWhole (omega arith)

sensor-IsDescribable : IsDescribable (common_of sensor) 128
unfolding common_of
sensor-IsDescribable = record {
  unit_fits = omega arith;
  name_text = ground arith;
  unit_text = ground arith;
  min_fits = omega arith;
  max_fits = omega arith;
  room = omega arith;
}

add_service-Describes_example :
    (done : Bool) × (t : ServiceTable ℕ) × (s' : Server) × (p : QueuePacket) × (add_service junk
        junk 2
        (some 73)
        server
      ≡ ok (done, s'))
    × Describes (common_of sensor) p
    × Sent p (record server { service_table = t }) s'
    × ((done ≡ true) ↔ (status table 2 ≡ pending))
    × ((j : ℕ) → status t j ≡ (if done && (2 == j) then live 73 else status table j))
add_service-Describes_example =
    add_service-Describes junk junk 2 73 sensor server table-IsValid refl sensor-IsDescribable
      (omega arith)

unregister_service-Sent_example :
    (done : Bool) × (t : ServiceTable ℕ) × (s' : Server) × (p : QueuePacket) × (unregister_service
        junk 3 server
      ≡ ok (done, s'))
    × (p.type ≡ PakType.exit)
    × (get_id p ≡ ok 3)
    × Sent p (record server { service_table = t }) s'
    × ((done ≡ true) ↔ ((a : ℕ) × (status table 3 ≡ live a)))
    × ((j : ℕ) → status t j ≡ (if done && (3 == j) then spare else status table j))
unregister_service-Sent_example =
    unregister_service-Sent junk 3 server table-IsValid (omega arith) (omega arith)
