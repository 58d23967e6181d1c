-- ===== src/Tests/Wire.antt =====
-- packet.cpp and sesskey.cpp at concrete inputs.
use tin_serwer.Base.{
  ◌<◌, fault, dangling_pointer, ℕ, zero, suc, ◌-◌, ◌%◌, ◌<◌, ◌≡◌, inl, ◌⊎◌, refl, true, false, none,
  some, List, [], ◌∷◌, ◌++◌, length, take, arith, ok,
}
use tin_serwer.Bytes.{Garbage, alloc, read_byte, copy_to, copy_from, from_bytes}
use tin_serwer.Socket.{
  Socket, Answer, moves, count, read_till_done, fails, below_one, write_till_done,
}
use tin_serwer.Socket.Ready.{Ready}
use tin_serwer.Socket.Reads.{read_till_done_cases}
use tin_serwer.Socket.Writes.{write_till_done_cases}
use tin_serwer.Sesskey.{Evp}
use tin_serwer.Sesskey.Roundtrip.{IsCbc}
use tin_serwer.Packet.{Packet, PckType, pck_code, is_encrypted, copy_packet}
use tin_serwer.Packet.Send.{send}
use tin_serwer.Packet.Factory.{
  packet_factory, size_of, read_flagged, read_body, expected_size, read_rest, open_body, open_plain,
  must_be_encrypted, make_packet, construct, type_of_byte,
}
use tin_serwer.Packet.Factory.Plain.{packet_factory_plain}
use tin_serwer.Receiver.{Receiver, no_key, key_at, add_sesskey, leave_scope, next_packet}
use tin_serwer.Receiver.Scopes.{next_packet_scopes}
use tin_serwer.Packet.Roundtrip.{IsWhole, wire, packet_factory-send}

-- A cipher that pads as CBC does and hides nothing: the number of padding bytes stands in front.
toy_open : List ℕ → List ℕ
toy_open [] = []
toy_open (k ∷ rest) = take (length rest - (k - 1)) rest

abbrev toy_pad : List ℕ → ℕ
toy_pad src = 16 - length src % 16

abbrev toy : Evp
toy = record {
  encrypt_init = λ key iv. true;
  encrypt_update = λ key iv src. some (toy_pad src ∷ src);
  encrypt_final = λ key iv src. some (alloc (λ i. 0) (toy_pad src - 1));
  decrypt_init = λ key iv. true;
  decrypt_update = λ key iv src. some (toy_open src);
  decrypt_final = λ key iv src. some [];
}

abbrev zeros : Garbage
zeros = λ i. 0

abbrev vector : List ℕ
vector = alloc (λ i. 9) 16

abbrev ack_7 : Packet
ack_7 = record { type = PckType.ack; buf = 0x01 ∷ 7 ∷ [] }

ack_7-IsCbc : IsCbc toy [] vector (0x01 ∷ 7 ∷ [])
unfolding toy_open alloc
ack_7-IsCbc = record {
  init = refl;
  init' = refl;
  updated = _;
  finished = _;
  updates = refl;
  finishes = refl;
  padded = refl;
  opened = _;
  closed = _;
  opens = refl;
  closes = refl;
  same = refl;
  vector = refl;
}

ack_7-IsWhole : IsWhole ack_7
unfolding pck_code size_of
ack_7-IsWhole = record {
  rest = 7 ∷ [];
  header = refl;
  known = λ e. cc;
  size = refl;
  small = omega arith;
}

-- The kernel moves at most three bytes in a call.
steps : ℕ → List Answer
steps zero = []
steps (suc n) = moves 3 ∷ steps n

steps-Ready : (n : ℕ) → Ready n (steps n)
unfolding steps
steps-Ready zero = tt
steps-Ready (suc n) = (omega arith, steps-Ready n)

abbrev ack_wire : List ℕ
ack_wire = wire toy [] vector ack_7 ack_7-IsCbc

abbrev sender : Socket
sender = record { incoming = []; outgoing = 5 ∷ []; reads = []; writes = steps (length ack_wire) }

abbrev receiver : Socket
receiver = record {
  incoming = ack_wire ++ 8 ∷ [];
  outgoing = [];
  reads = steps (length ack_wire);
  writes = [];
}

packet_factory-send_example :
    ((n : ℕ) × (s' : Socket) × (send toy (some vector) zeros ack_7 (some []) sender
        ≡ ok (count n, s'))
      × (0 < n)
      × (s'.outgoing ≡ 5 ∷ ack_wire))
    × ((r' : Socket) × (packet_factory toy zeros (some []) receiver ≡ ok (some ack_7, r'))
        × (r'.incoming ≡ 8 ∷ []))
packet_factory-send_example =
    packet_factory-send toy [] vector ack_7 ack_7-IsCbc zeros zeros (8 ∷ []) sender receiver
      ack_7-IsWhole (steps-Ready (length ack_wire)) refl (steps-Ready (length ack_wire))

-- An ID packet in plain text, of the client with number 5.
abbrev id_input : Socket
id_input = record {
  incoming = 2 ∷ 0 ∷ 0 ∷ 0 ∷ 0 ∷ 0x0b ∷ 5 ∷ [];
  outgoing = [];
  reads = moves 2 ∷ moves 9 ∷ moves 1 ∷ moves 2 ∷ [];
  writes = [];
}

abbrev id_5 : Packet
id_5 = record { type = PckType.id; buf = 0x0b ∷ 5 ∷ [] }

packet_factory-id :
    packet_factory toy zeros none id_input
    ≡ ok (some id_5, record id_input { incoming = []; reads = [] })
unfolding packet_factory read_till_done read_flagged read_body expected_size read_rest open_body
    open_plain must_be_encrypted make_packet construct type_of_byte size_of copy_packet read_byte
    copy_to copy_from alloc from_bytes
packet_factory-id = refl

packet_factory_plain_example : is_encrypted PckType.id ≡ false
packet_factory_plain_example =
    packet_factory_plain toy zeros none id_input (record id_input { incoming = []; reads = [] })
      id_5 packet_factory-id (inl refl)

abbrev halting : Socket
halting = record {
  incoming = 1 ∷ 2 ∷ 3 ∷ [];
  outgoing = [];
  reads = moves 1 ∷ fails ∷ [];
  writes = moves 2 ∷ moves 0 ∷ [];
}

read_till_done_cases_example :
    let (ret, got, s') = read_till_done 3 halting in
    (got ++ s'.incoming ≡ 1 ∷ 2 ∷ 3 ∷ [])
    × (((ret ≡ count 3) × (length got ≡ 3)) ⊎ ((below_one ret ≡ true) × (length got < 3)))
read_till_done_cases_example = read_till_done_cases 3 halting

abbrev message : List ℕ
message = 4 ∷ 5 ∷ 6 ∷ []

write_till_done_cases_example :
    let (ret, s') = write_till_done message halting in
    (n : ℕ) × (s'.outgoing ≡ take n message)
    × ((below_one ret ≡ true) ⊎ ((ret ≡ count 3) × (take n message ≡ message)))
write_till_done_cases_example = write_till_done_cases message halting

-- A connection that the message comes in over.
abbrev connection : Receiver
connection = record { sesskey = no_key; curr = none; soc = receiver }

next_packet_scopes_example :
    (soc : Socket) × (soc.incoming ≡ 8 ∷ [])
    × (next_packet toy zeros (add_sesskey [] connection)
        ≡ ok (record connection { sesskey = key_at []; curr = some ack_7; soc = soc }))
    × (next_packet toy zeros (leave_scope (add_sesskey [] connection)) ≡ fault dangling_pointer)
unfolding is_encrypted
next_packet_scopes_example =
    next_packet_scopes toy [] vector ack_7 ack_7-IsCbc zeros (8 ∷ []) connection ack_7-IsWhole refl
      (steps-Ready (length ack_wire))
