-- ===== src/Client/Times.antt =====
-- `VAL::getTimestamp` (packet.cpp) in `Client::getValues` (client.cpp), by the size of a time.
use tin_serwer.Base.{
  ℕ, ◌≡◌, refl, ◌∙◌, ◌<◌, Option, some, List, ◌∷◌, length, take, drop, ok, fault, out_of_bounds,
  le→leb, arith,
}
use tin_serwer.Bytes.{copy_from, from_bytes}
use tin_serwer.Bytes.Laws.{copy_from_past}
use tin_serwer.Packet.{Packet, PckType, byte_1, get_value, get_timestamp}
use tin_serwer.Service.{Input, input}
use tin_serwer.Link.{Link}
use tin_serwer.Client.{Heap, input_at, take_value, get_values}
use tin_serwer.Client.Readings.{read_values-val, get_values-val}

value_there :
    (p : Packet) → length p.buf ≡ 10 → get_value p ≡ ok (from_bytes (take 4 (drop 2 p.buf)))
unfolding get_value copy_from
value_there p ten = rw (le→leb 6 (length p.buf) (omega arith)) refl

time_past :
    (time_size : ℕ) (p : Packet)
    → 4 < time_size
    → length p.buf ≡ 10
    → get_timestamp time_size p ≡ fault out_of_bounds
unfolding get_timestamp
time_past time_size p h ten = rw (copy_from_past p.buf 6 time_size (omega arith)) refl

-- Where a time has more than 4 bytes, a first VAL of 10 bytes for an input of the client makes the
-- server read behind the end of the packet.
pub get_values_overflow :
    (time_size : ℕ) (inputs : ℕ → Option ℕ) (p : Packet) (later : List (Option Packet))
    (heap : Heap) (link : Link) (num a : ℕ) (i : Input)
    → 4 < time_size
    → link.coming ≡ some p ∷ later
    → p.type ≡ PckType.val
    → length p.buf ≡ 10
    → byte_1 p ≡ ok num
    → inputs num ≡ some a
    → heap a ≡ some (input i)
    → get_values time_size inputs heap link ≡ fault out_of_bounds
unfolding take_value input_at
get_values_overflow time_size inputs p later heap link num a i h e is_val ten has_num there at =
    get_values-val time_size inputs p later heap link is_val e
    ∙ (read_values-val time_size inputs p later heap link is_val
        ∙ rw (has_num, there, value_there p ten, input_at, at, time_past time_size p h ten) refl)
