-- ===== src/Client/Registering.antt =====
-- `registerServices` of client.cpp, and the client with the maps of its services. The maps and the
-- list of new services hold addresses; `next` is the address that the next allocation will give.
use tin_serwer.Base.{
  ℕ, ◌+◌, ◌==◌, Bool, true, false, Option, none, some, List, [], ◌∷◌, ◌++◌, if◌then◌else◌, ltb,
  Outcome, ok, ◌>>=◌, insert,
}
use tin_serwer.Bytes.{Garbage}
use tin_serwer.Float32.{Float32}
use tin_serwer.Socket.{below_one}
use tin_serwer.Sesskey.{Evp}
use tin_serwer.Packet.{
  Packet, PckType, new_ack, new_nak, byte_1, get_name, get_unit, get_min, get_max,
}
use tin_serwer.Link.{Link, stopped, next_packet, class_of, send_on}
use tin_serwer.Service.{Service, input, output, common_of, service_factory}
use tin_serwer.Server.{Server, dereference, reserve_id, unreserve_id, add_service}

-- The members of a client that change.
pub record Client : Type 0 where
  pub id : ℕ
  pub used : Bool
  pub inputs : List (ℕ × ℕ)
  pub outputs : List (ℕ × ℕ)

pub record World : Type 0 where
  pub server : Server
  pub next : ℕ
  pub link : Link

-- The addresses of the services made so far: `none` is the null pointer.
abbrev pub Services : Type 0
Services = List (Option ℕ)

-- The store with `s` at `address`, or with nothing there.
abbrev pub store : ℕ → Option Service → Server → Server
store address s server = record server { heap = λ a. if address == a then s else server.heap a }

-- How the loop ends: with the EOT, with something else that calls for a NAK, or with an ACK that
-- could not be sent.
pub data Ending : Type 0 where
  complete refused unreachable : Ending

-- What becomes of one DESC.
pub data Turn : Type 0 where
  admitted : Option ℕ → Turn
  out_of_numbers : Turn
  unacknowledged : Option ℕ → Turn

-- `services.push_back(service)`, after `serviceFactory`: a class of device that is not known makes
-- a null pointer.
unfoldable pub allocate : Option Service → World → Option ℕ × World
allocate none w = (none, w)
allocate (some s) w =
    (some w.next, record w { server = store w.next (some s) w.server; next = w.next + 1 })

-- One service is added to the table and to a map of the client.
unfoldable pub enlist_one :
    Garbage → Garbage → Option ℕ → Client → Server → Outcome (Client × Server)
enlist_one g g' pointer c server = do
  s ← dereference server.heap pointer
  added ← add_service g g' (common_of s).id pointer server
  elim pointer [
    | none ↦ ok (c, added.1)
    | some a ↦ elim s [
      | input i ↦ ok (record c { inputs = insert i.id a c.inputs }, added.1)
      | output o ↦ ok (record c { outputs = insert o.id a c.outputs }, added.1)
    ]
  ]

-- The loop after the EOT.
unfoldable pub enlist : Garbage → Garbage → Services → Client → Server → Outcome (Client × Server)
enlist g g' [] c server = ok (c, server)
enlist g g' (pointer ∷ rest) c server =
    enlist_one g g' pointer c server >>= λ r. enlist g g' rest r.0 r.1

-- The loop after the NAK: each number is given back, and each service is freed.
unfoldable pub give_back : Services → Server → Outcome Server
give_back [] server = ok server
give_back (none ∷ rest) server = dereference server.heap none >>= λ _. give_back rest server
give_back (some a ∷ rest) server = dereference server.heap (some a) >>= λ s.
    give_back rest (store a none (unreserve_id (common_of s).id server).1)

module _ (evp : Evp) (ivs : ℕ → Option (List ℕ)) (g g' : Garbage) (junk junk' : Float32)
    (key : List ℕ) where
  -- The service that a DESC describes, under the number `id`.
  unfoldable pub make_service : ℕ → Packet → Outcome (Option Service)
  make_service id desc = do
    srv_type ← byte_1 desc
    name ← get_name desc
    unit ← get_unit desc
    min ← get_min desc
    max ← get_max desc
    ok (service_factory junk junk' id srv_type name unit min max)

  -- The service is kept, and the ACK with its number is sent.
  unfoldable pub acknowledge : ℕ → Option Service → World → Outcome (Turn × World)
  acknowledge id service w =
      let (pointer, made) = allocate service w in
      new_ack g id >>= λ ack. send_on evp ivs g ack (some key) made.link >>= λ sent. ok (
        (if below_one sent.0 then unacknowledged pointer else admitted pointer),
        record made { link = sent.1 },
      )

  -- The loop's body up to the ACK.
  unfoldable pub admit : Packet → World → Outcome (Turn × World)
  admit desc w =
      let (id, server) = reserve_id w.server in
      let taken = record w { server = server } in
      if ltb 0 id
      then (make_service id desc >>= λ service. acknowledge id service taken)
      else ok (out_of_numbers, taken)

  -- The loop, over what `nextPacket` returns.
  unfoldable pub register_loop :
      List (Option Packet) → Services → World → Outcome (Ending × Services × World)
  register_loop [] services w = ok (refused, services, record w { link = stopped none [] w.link })
  register_loop (none ∷ later) services w =
      ok (refused, services, record w { link = stopped none later w.link })
  register_loop (some p ∷ later) services w =
      let w1 = record w { link = stopped (some p) later w.link } in
      elim p.type [
        | PckType.desc ↦ admit p w1 >>= λ r. elim r.0 [
          | out_of_numbers ↦ ok (refused, services, r.1)
          | unacknowledged pointer ↦ ok (unreachable, services ++ pointer ∷ [], r.1)
          | admitted pointer ↦
              let replied = next_packet r.1.link in
              elim (class_of replied.curr) [
                | some PckType.eot ↦
                    ok (complete, services ++ pointer ∷ [], record r.1 { link = replied })
                | _ ↦ register_loop later (services ++ pointer ∷ []) r.1
              ]
        ]
        | _ ↦ ok (refused, services, w1)
      ]

  -- What follows the loop.
  unfoldable pub conclude : Ending → Services → Client → World → Outcome (Bool × Client × World)
  conclude complete services c w = do
    r ← enlist g g' services c w.server
    ok (true, r.0, record w { server = r.1 })
  conclude unreachable services c w = ok (false, c, w)
  conclude refused services c w = do
    nak ← new_nak g 0
    sent ← send_on evp ivs g nak (some key) w.link
    server ← give_back services w.server
    ok (false, c, record w { server = server; link = sent.1 })

  unfoldable pub register_services : Client → World → Outcome (Bool × Client × World)
  register_services c w = register_loop w.link.coming [] w >>= λ r. conclude r.0 r.1 c r.2
