-- ===== src/Tests/Clients.antt =====
-- client.cpp at concrete inputs: the client has the inputs 3 and 5.
use tin_serwer.Base.{
  ℕ, ◌≡◌, refl, subst, Option, Bool-cases, inl, inr, none, some, List, [], ◌∷◌, ◌==◌, if◌then◌else◌,
  arith, fault, out_of_bounds,
}
use tin_serwer.Bytes.{copy_from, read_byte, from_bytes}
use tin_serwer.Packet.{Packet, PckType, byte_1, get_value, get_timestamp}
use tin_serwer.Service.{ServiceType, Input, input}
use tin_serwer.Link.{Link, stopped}
use tin_serwer.Client.{Heap, get_values}
use tin_serwer.Client.Readings.{Owns, Reading, CarryAll, Measures, eot, get_values-measured}
use tin_serwer.Client.Times.{get_values_overflow}

abbrev sensor : ℕ → Input
sensor num = record {
  common = record {
    id = num;
    type = ServiceType.analog_in;
    name = 116 ∷ [];
    unit = 67 ∷ [];
    min = 0;
    max = 0x42c80000;
    val = 0x41a00000;
  };
  timestamp = 0;
}

abbrev inputs : ℕ → Option ℕ
inputs num = if num == 3 then some 73 else if num == 5 then some 75 else none

abbrev heap : Heap
heap a =
    if a == 73 then some (input (sensor 3)) else if a == 75 then some (input (sensor 5)) else none

abbrev OwnsAt : ℕ → ℕ → Type 0
OwnsAt a num = (i : Input) × (heap a ≡ some (input i)) × (i.id ≡ num)

inputs-Owns : Owns inputs heap
inputs-Owns num a e = elim (Bool-cases (num == 3)) [
  | inl three ↦
      let at : 73 ≡ a = ground arith in
      let is_num : 3 ≡ num = ground arith in
      subst (λ a. OwnsAt a num) at (subst (λ n. OwnsAt 73 n) is_num (sensor 3, refl, refl))
  | inr not_three ↦
      let at : 75 ≡ a = ground arith in
      let is_num : 5 ≡ num = ground arith in
      subst (λ a. OwnsAt a num) at (subst (λ n. OwnsAt 75 n) is_num (sensor 5, refl, refl))
]

-- 0x41200000 at time 1000 from input 3, and the same with 7 from nobody's number 9.
abbrev vals : List Packet
vals =
    record { type = PckType.val; buf = 8 ∷ 3 ∷ 0 ∷ 0 ∷ 32 ∷ 65 ∷ 232 ∷ 3 ∷ 0 ∷ 0 ∷ [] }
    ∷ record { type = PckType.val; buf = 8 ∷ 9 ∷ 0 ∷ 0 ∷ 32 ∷ 65 ∷ 7 ∷ 0 ∷ 0 ∷ 0 ∷ [] }
    ∷ []

abbrev readings : List Reading
readings =
    record { num = 3; value = 0x41200000; time = 1000 }
    ∷ record { num = 9; value = 0x41200000; time = 7 }
    ∷ []

vals-CarryAll : CarryAll 4 readings vals
unfolding byte_1 get_value get_timestamp copy_from read_byte from_bytes
vals-CarryAll = (
  record { is_val = refl; num_read = refl; value_read = refl; time_read = refl },
  (record { is_val = refl; num_read = refl; value_read = refl; time_read = refl }, tt),
)

abbrev link : Link
link = record {
  curr = none;
  coming =
      some (record { type = PckType.val; buf = 8 ∷ 3 ∷ 0 ∷ 0 ∷ 32 ∷ 65 ∷ 232 ∷ 3 ∷ 0 ∷ 0 ∷ [] })
      ∷ some (record { type = PckType.val; buf = 8 ∷ 9 ∷ 0 ∷ 0 ∷ 32 ∷ 65 ∷ 7 ∷ 0 ∷ 0 ∷ 0 ∷ [] })
      ∷ some (record { type = PckType.eot; buf = 3 ∷ [] })
      ∷ [];
  sends = 0;
  soc = record { incoming = []; outgoing = []; reads = []; writes = [] };
}

get_values-measured_example :
    Measures inputs readings heap
      (stopped (some (eot (3 ∷ []))) [] link)
      (get_values 4 inputs heap link)
get_values-measured_example =
    get_values-measured 4 inputs readings vals (3 ∷ []) [] heap link inputs-Owns vals-CarryAll refl

get_values_overflow_example : get_values 8 inputs heap link ≡ fault out_of_bounds
unfolding byte_1 read_byte
get_values_overflow_example =
    get_values_overflow 8 inputs
      (record { type = PckType.val; buf = 8 ∷ 3 ∷ 0 ∷ 0 ∷ 32 ∷ 65 ∷ 232 ∷ 3 ∷ 0 ∷ 0 ∷ [] }) _ heap
      link 3 73 (sensor 3) (omega arith) refl refl refl refl refl refl
