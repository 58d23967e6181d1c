-- ===== src/ConHandler.antt =====
-- ConHandler.h and ConHandler.cpp, with the calls of client.cpp that come back to it: the clients
-- of the configuration and the addresses that are verified, and what is done with a connection. A
-- client is known by the number of its object. Each call here is one step: what two threads do is
-- one step after the other.
pub mod Walking
pub mod Admission
pub mod Leaving
pub mod Configuring
pub mod Keeping
pub mod Serving
pub mod Entering
use tin_serwer.Base.{
  ℕ, ◌+◌, ◌==◌, Bool, true, false, not, Option, none, some, List, [], ◌∷◌, if◌then◌else◌, Outcome,
  ok, fault, ◌>>=◌, stale_iterator, null_pointer, find, assign, erase,
}
use tin_serwer.Bytes.{Garbage}
use tin_serwer.Keys.{Pubkey}
use tin_serwer.Packet.{PckType, Packet, byte_1}
use tin_serwer.Link.{Link, next_packet, class_of}
use tin_serwer.Server.{Server}
use tin_serwer.Client.{Heap, get_values}
use tin_serwer.Client.Setting.{set_values, set_exit}
use tin_serwer.Client.Registering.{Client, World}
use tin_serwer.Client.Sessions.{
  Crypto, get_used, set_used, unregister_services, send_key, initalize,
}

-- `idClientPairs`, where `none` is the null pointer, `addrClientPairs`, and the objects. `next` is
-- the address that the next allocation of a service will give.
pub record ConHandler : Type 0 where
  pub id_client_pairs : List (ℕ × Option ℕ)
  pub addr_client_pairs : List (ℕ × ℕ)
  pub clients : ℕ → Client
  pub exit_flag : Bool
  pub server : Server
  pub next : ℕ

abbrev pub set_client : ℕ → Client → ConHandler → ConHandler
set_client i c h = record h { clients = λ j. if i == j then c else h.clients j }

-- `setExit`
abbrev pub request_exit : ConHandler → ConHandler
request_exit h = record h { exit_flag = true }

unfoldable pub clients_registered : ConHandler → Bool
clients_registered h = elim h.addr_client_pairs [ [] ↦ false | _ ∷ _ ↦ true ]

-- `idClientPairs[id]` adds a null pointer for a number that is not there.
pub client_of_id : ℕ → ConHandler → Option ℕ × ConHandler
client_of_id id h = elim (find id h.id_client_pairs) [
  | some pointer ↦ (pointer, h)
  | none ↦ (none, record h { id_client_pairs = assign id none h.id_client_pairs })
]

-- The first address whose client is `pointer`.
unfoldable pub address_of : Option ℕ → List (ℕ × ℕ) → Option ℕ
address_of none pairs = none
address_of (some i) [] = none
address_of (some i) ((addr, j) ∷ pairs) = if j == i then some addr else address_of (some i) pairs

-- The client at `addr` is taken out and its services leave.
pub disconnect : Garbage → ℕ → ℕ → ConHandler → Outcome ConHandler
disconnect g addr i h = do
  server ← unregister_services g (h.clients i) h.server
  ok (record h { addr_client_pairs = erase addr h.addr_client_pairs; server = server })

-- What is done with the address that the loop has found.
pub unregister_at : Garbage → ℕ → Option ℕ → ConHandler → Outcome (Bool × ConHandler)
unregister_at g i none h = ok (false, h)
unregister_at g i (some addr) h = disconnect g addr i h >>= λ h'. ok (true, h')

pub unregister_pointer : Garbage → Option ℕ → ConHandler → Outcome (Bool × ConHandler)
unregister_pointer g none h = ok (false, h)
unregister_pointer g (some i) h = unregister_at g i (address_of (some i) h.addr_client_pairs) h

pub unregister_client : Garbage → ℕ → ConHandler → Outcome (Bool × ConHandler)
unregister_client g id h = let (pointer, h1) = client_of_id id h in unregister_pointer g pointer h1

-- The loop of `clockWalk`: erasing an entry leaves the iterator invalid, and the loop advances it.
unfoldable pub walk : Garbage → List (ℕ × ℕ) → ConHandler → Outcome ConHandler
walk g [] h = ok h
walk g ((addr, i) ∷ rest) h =
    if get_used (h.clients i)
    then walk g rest (set_client i (set_used false (h.clients i)) h)
    else (disconnect g addr i h >>= λ _. fault stale_iterator)

unfoldable pub clock_walk : Garbage → ConHandler → Outcome ConHandler
clock_walk g h = walk g h.addr_client_pairs h

-- `Client::tryUnregister`, for the client `i`.
pub try_unregister : Garbage → ℕ → Link → ConHandler → Outcome (Bool × ConHandler)
try_unregister g i link h = elim (class_of link.curr) [
  | some PckType.exit ↦ unregister_client g (h.clients i).id h >>= λ r. ok (true, r.1)
  | _ ↦ ok (false, h)
]

abbrev pub addresses : List (ℕ × ℕ) → List ℕ
addresses [] = []
addresses ((num, a) ∷ m) = a ∷ addresses m

abbrev pub with_heap : Heap → ConHandler → ConHandler
with_heap heap h = record h { server = record h.server { heap = heap } }

-- The client is marked as used where the exchange ended well.
abbrev pub mark : ℕ → Bool × Link × ConHandler → Bool × Link × ConHandler
mark i (false, link, h) = (false, link, h)
mark i (true, link, h) = (true, link, set_client i (set_used true (h.clients i)) h)

module _ (crypto : Crypto) where
  -- What follows `getValues`.
  pub settle_exchange :
      ℕ → Bool → List ℕ → Bool → Link → ConHandler → Outcome (Bool × Link × ConHandler)
  settle_exchange i end key false link h =
      try_unregister crypto.g i link h >>= λ r. ok (mark i (r.0, link, r.1))
  settle_exchange i true key true link h =
      set_exit crypto.evp crypto.ivs crypto.g (some key) link >>= λ r. ok (mark i (r.0, r.1, h))
  settle_exchange i false key true link h =
      set_values crypto.evp crypto.ivs crypto.g (some key) (addresses (h.clients i).outputs)
        h.server.heap link
      >>= λ r. ok (mark i (r.0, r.2, with_heap r.1 h))

  -- `Client::tryDataExchange`
  pub client_exchange : Pubkey → ℕ → Bool → Link → ConHandler → Outcome (Bool × Link × ConHandler)
  client_exchange pubkey i end link h = send_key crypto pubkey link >>= λ sent. elim sent.0 [
    | none ↦ ok (false, sent.1, h)
    | some key ↦
        get_values crypto.time_size (λ num. find num (h.clients i).inputs) h.server.heap sent.1
        >>= λ r. settle_exchange i end key r.0 r.2 (with_heap r.1 h)
  ]

  -- `ConHandler::tryDataExchange`
  pub try_data_exchange : Pubkey → ℕ → Link → ConHandler → Outcome (Bool × Link × ConHandler)
  try_data_exchange pubkey i link h = client_exchange pubkey i h.exit_flag link h >>= λ r.
      if r.0
      then (if h.exit_flag
          then (unregister_client crypto.g (r.2.clients i).id r.2 >>= λ u. ok (true, r.1, u.1))
          else ok (true, r.1, r.2))
      else ok (false, r.1, r.2)

  -- The client of a number verifies and registers: where that went through, its address is added.
  unfoldable pub admit_client :
      (ℕ → Pubkey) → ℕ → Option ℕ → Link → ConHandler → Outcome (Link × ConHandler)
  admit_client keys addr none link h = fault null_pointer
  admit_client keys addr (some i) link h =
      initalize crypto (keys i) (h.clients i)
        (record { server = h.server; next = h.next; link = link })
      >>= λ r.
          let h1 = set_client i r.1 (record h { server = r.2.server; next = r.2.next }) in
          ok (
            r.2.link,
            (if r.0
                then record h1 { addr_client_pairs = assign addr i h1.addr_client_pairs }
                else h1),
          )

  -- The part of `registration` that has an ID.
  unfoldable pub identify :
      (ℕ → Pubkey) → ℕ → Packet → Link → ConHandler → Outcome (Link × ConHandler)
  identify keys addr p link h = byte_1 p >>= λ id. elim (find id h.id_client_pairs) [
    | none ↦ ok (link, h)
    | some pointer ↦ admit_client keys addr pointer link h
  ]

  -- What `registration` does with the packet that was received.
  unfoldable pub cast_id :
      (ℕ → Pubkey) → ℕ → Option Packet → Link → ConHandler → Outcome (Link × ConHandler)
  cast_id keys addr none link h = ok (link, h)
  cast_id keys addr (some p) link h = elim p.type [
    | PckType.id ↦ identify keys addr p link h
    | _ ↦ ok (link, h)
  ]

  unfoldable pub registration : (ℕ → Pubkey) → ℕ → Link → ConHandler → Outcome (Link × ConHandler)
  registration keys addr link h =
      if h.exit_flag then ok (link, h) else cast_id keys addr link.curr link h

  -- An address that is known has failed to exchange data: with an ID it verifies again.
  pub retry : (ℕ → Pubkey) → ℕ → Link → ConHandler → Outcome (Link × ConHandler)
  retry keys addr link h = elim (class_of link.curr) [
    | some PckType.id ↦
        registration keys addr link
          (record h { addr_client_pairs = erase addr h.addr_client_pairs })
    | _ ↦ ok (link, h)
  ]

  unfoldable pub handle : (ℕ → Pubkey) → ℕ → Link → ConHandler → Outcome (Link × ConHandler)
  handle keys addr link h = elim (find addr h.addr_client_pairs) [
    | none ↦ registration keys addr (next_packet link) h
    | some i ↦ try_data_exchange (keys i) i link h >>= λ r.
        if r.0 then ok (r.1, r.2) else retry keys addr r.1 r.2
  ]

  -- `conHandle`, which the thread pool calls with the number of its thread.
  abbrev pub con_handle : ℕ → (ℕ → Pubkey) → ℕ → Link → ConHandler → Outcome (Link × ConHandler)
  con_handle thread keys addr link h = handle keys addr link h
