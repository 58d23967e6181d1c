-- ===== src/Client.antt =====
-- client.cpp: the exchange of data with a client. The services live in the store of addresses that
-- the server's table points into; `inputs` is the client's map from numbers to addresses.
pub mod Readings
pub mod Times
pub mod Setting
pub mod Settling
pub mod Registering
pub mod Sessions
pub mod Verifying
pub mod Describing
pub mod Turns
pub mod Looping
pub mod Concluding
pub mod Enlisting
pub mod Membership
pub mod Registration
pub mod Kinds
pub mod Owning
pub mod Shrinking
pub mod Arriving
use tin_serwer.Base.{
  ℕ, ◌+◌, Bool, true, false, Option, none, some, List, [], ◌∷◌, ◌==◌, if◌then◌else◌, Outcome, ok,
  fault, ◌>>=◌, dangling_pointer,
}
use tin_serwer.Link.{Link, stopped, next_packet, class_of}
use tin_serwer.Packet.{Packet, PckType, byte_1, get_value, get_timestamp}
use tin_serwer.Service.{Service, Input, input, output}
use tin_serwer.Service.Inputs.{set_val, set_timestamp}

abbrev pub Heap : Type 0
Heap = ℕ → Option Service

abbrev pub update : Heap → ℕ → Service → Heap
update heap address service a = if address == a then some service else heap a

-- An address in the map is that of an input: any other content means that it was freed.
unfoldable pub input_at : Heap → ℕ → Outcome Input
input_at heap address = elim (heap address) [ some (input i) ↦ ok i | _ ↦ fault dangling_pointer ]

-- What is done with a VAL in the loop of `getValues`.
pub take_value : ℕ → (ℕ → Option ℕ) → Packet → Heap → Outcome Heap
take_value time_size inputs val heap = do
  num ← byte_1 val
  elim (inputs num) [
    | none ↦ ok heap
    | some address ↦ (do
      v ← get_value val
      i ← input_at heap address
      t ← get_timestamp time_size val
      ok (update heap address (input (set_timestamp t (set_val v i)))))
  ]

-- The loop of `getValues`, over what `nextPacket` returns: whether it ends well, the services, and
-- the link with the packet that it stopped at.
pub read_values :
    ℕ → (ℕ → Option ℕ) → List (Option Packet) → Heap → Link → Outcome (Bool × Heap × Link)
read_values time_size inputs [] heap link = ok (false, heap, stopped none [] link)
read_values time_size inputs (none ∷ later) heap link = ok (false, heap, stopped none later link)
read_values time_size inputs (some p ∷ later) heap link = elim p.type [
  | PckType.eot ↦ ok (true, heap, stopped (some p) later link)
  | PckType.val ↦
      take_value time_size inputs p heap >>= λ heap. read_values time_size inputs later heap link
  | _ ↦ ok (false, heap, stopped (some p) later link)
]

-- `getValues`: the first packet has to be a VAL or an EOT.
pub get_values : ℕ → (ℕ → Option ℕ) → Heap → Link → Outcome (Bool × Heap × Link)
unfolding next_packet
get_values time_size inputs heap link =
    let first = next_packet link in
    elim (class_of first.curr) [
      | some PckType.val ↦ read_values time_size inputs link.coming heap link
      | some PckType.eot ↦ read_values time_size inputs link.coming heap link
      | _ ↦ ok (false, heap, first)
    ]
