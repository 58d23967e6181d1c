-- ===== src/Link.antt =====
-- The connection that a client's session goes over, as client.cpp sees it: the packet that
-- `Receiver` (Receiver.cpp) holds, what its `nextPacket` will return, and the socket that packets
-- are sent on. `sends` counts the packets sent, and picks the initialisation vector of the next.
use tin_serwer.Base.{ℕ, ◌+◌, Option, none, some, List, [], ◌∷◌, Outcome, ok, ◌>>=◌}
use tin_serwer.Bytes.{Garbage}
use tin_serwer.Socket.{Ret, Socket}
use tin_serwer.Sesskey.{Evp}
use tin_serwer.Packet.{Packet, PckType}
use tin_serwer.Packet.Send.{send}

pub record Link : Type 0 where
  pub curr : Option Packet
  pub coming : List (Option Packet)
  pub sends : ℕ
  pub soc : Socket

-- The link when `p` was received last and `later` is to come.
abbrev pub stopped : Option Packet → List (Option Packet) → Link → Link
stopped p later link = record link { curr = p; coming = later }

-- `nextPacket`: past the end of the list the connection has failed, and it returns null.
unfoldable pub next_packet : Link → Link
next_packet link = elim link.coming [ [] ↦ stopped none [] link | p ∷ later ↦ stopped p later link ]

-- The class of a packet, or `none` for the null pointer: what the casts look at.
abbrev pub class_of : Option Packet → Option PckType
class_of none = none
class_of (some p) = some p.type

-- `packet.send(sockDesc, key)`, with the initialisation vectors that the generator will give.
unfoldable pub send_on :
    Evp → (ℕ → Option (List ℕ)) → Garbage → Packet → Option (List ℕ) → Link → Outcome (Ret × Link)
send_on evp ivs g p key link = send evp (ivs link.sends) g p key link.soc >>= λ r.
    ok (r.0, record link { sends = link.sends + 1; soc = r.1 })
