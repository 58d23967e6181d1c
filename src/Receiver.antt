-- ===== src/Receiver.antt =====
-- Receiver.h and Receiver.cpp: the packets of a connection, and the session key that they may be
-- encrypted with. The receiver has a pointer to the key; client.cpp gives it the address of a local
-- variable, and ConHandler.cpp goes on with the receiver after that variable is gone.
pub mod Scopes
use tin_serwer.Base.{
  ℕ, true, Option, none, some, List, [], ◌∷◌, if◌then◌else◌, ◌==◌, Outcome, ok, fault, ◌>>=◌,
  dangling_pointer,
}
use tin_serwer.Bytes.{Garbage}
use tin_serwer.Socket.{below_one, Socket, read_till_done}
use tin_serwer.Sesskey.{Evp}
use tin_serwer.Packet.{Packet}
use tin_serwer.Packet.Factory.{expected_size, read_body, read_header, read_flagged, packet_factory}

-- The member `sesskey`: null, a pointer to a key, or a pointer to a key whose scope was left.
pub data KeyPointer : Type 0 where
  no_key : KeyPointer
  key_at : List ℕ → KeyPointer
  gone : KeyPointer

pub record Receiver : Type 0 where
  pub sesskey : KeyPointer
  pub curr : Option Packet
  pub soc : Socket

-- The constructor.
unfoldable pub new_receiver : Socket → Receiver
new_receiver soc = record { sesskey = no_key; curr = none; soc = soc }

-- `addSesskey`
unfoldable pub add_sesskey : List ℕ → Receiver → Receiver
add_sesskey key r = record r { sesskey = key_at key }

-- The scope of the key is left, as at the end of `tryDataExchange` and of `initalize`.
unfoldable pub leave_scope : Receiver → Receiver
leave_scope r = elim r.sesskey [ no_key ↦ r | _ ↦ record r { sesskey = gone } ]

abbrev pub get_packet : Receiver → Option Packet
get_packet r = r.curr

-- What `packetFactory` does with a message once it has the length and the flag, with a pointer that
-- leads nowhere: it reads the whole message, and uses the key to decrypt it.
unfoldable pub read_flagged_gone : Evp → Garbage → ℕ → ℕ → Socket → Outcome (Option Packet × Socket)
read_flagged_gone evp g plain_len flag s =
    if flag == 0
    then read_body evp g none plain_len s
    else (expected_size true plain_len >>= λ size.
        let (ret, encrypted, s') = read_till_done size s in
        if below_one ret then ok (none, s') else fault dangling_pointer)

unfoldable pub receive : Evp → Garbage → KeyPointer → Socket → Outcome (Option Packet × Socket)
receive evp g no_key s = packet_factory evp g none s
receive evp g (key_at key) s = packet_factory evp g (some key) s
receive evp g gone s = read_header (read_flagged_gone evp g) s

-- `nextPacket`
unfoldable pub next_packet : Evp → Garbage → Receiver → Outcome Receiver
next_packet evp g r =
    receive evp g r.sesskey r.soc >>= λ got. ok (record r { curr = got.0; soc = got.1 })
