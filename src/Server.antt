-- ===== src/Server.antt =====
-- Server.h and Server.cpp: the server between the clients' handlers and the second server part. Its
-- table holds the addresses of services, which live in a store that the clients own.
pub mod Receiving
pub mod Requests
pub mod Rounds
pub mod Setting
pub mod Announcements
use tin_serwer.Base.{
  ℕ, ◌+◌, Bool, true, false, Option, none, some, List, [], ◌∷◌, ◌==◌, if◌then◌else◌, Outcome, ok,
  fault, ◌>>=◌, null_pointer, dangling_pointer,
}
use tin_serwer.Bytes.{Garbage}
use tin_serwer.Service.{Service, common_of, type_code}
use tin_serwer.ServiceTable.{new_table, ServiceTable, reserve, unreserve, push, remove}
use tin_serwer.QueuePacket.{QueuePacket, new_q_desc, new_q_exit}
use tin_serwer.QueuePacket.Queue.{AddQueue, add_to_queue}

-- `heap` is what the addresses of services point at: `none` is an address that was freed.
pub record Server : Type 0 where
  pub service_table : ServiceTable ℕ
  pub heap : ℕ → Option Service
  pub send_msg_queue : AddQueue

-- `*pointer`, where the null pointer is `none`.
unfoldable pub dereference : (ℕ → Option Service) → Option ℕ → Outcome Service
dereference heap none = fault null_pointer
dereference heap (some address) = elim (heap address) [
  | none ↦ fault dangling_pointer
  | some s ↦ ok s
]

-- `packet.addToQueue(&sendMsgQueue)`, whose result is not looked at.
unfoldable pub send_message : QueuePacket → Server → Server
send_message p s = record s { send_msg_queue = (add_to_queue p s.send_msg_queue).1 }

-- The constructor, with the queue that it opened for messages to the second part.
unfoldable pub new_server : AddQueue → Server
new_server queue = record { service_table = new_table; heap = λ a. none; send_msg_queue = queue }

unfoldable pub reserve_id : Server → ℕ × Server
reserve_id s = let (id, t) = reserve s.service_table in (id, record s { service_table = t })

unfoldable pub unreserve_id : ℕ → Server → Bool × Server
unreserve_id id s =
    let (done, t) = unreserve id s.service_table in (done, record s { service_table = t })

unfoldable pub add_service : Garbage → Garbage → ℕ → Option ℕ → Server → Outcome (Bool × Server)
add_service g g' id service s = do
  pushed ← push service id s.service_table
  pointed_at ← dereference s.heap service
  let c = common_of pointed_at
  desc ← new_q_desc g g' c.id (type_code c.type) c.name c.unit c.min c.max
  ok (pushed.0, send_message desc (record s { service_table = pushed.1 }))

pub unregister_service : Garbage → ℕ → Server → Outcome (Bool × Server)
unregister_service g id s = do
  let removed = remove id s.service_table
  exit ← new_q_exit g id
  ok (removed.0, send_message exit (record s { service_table = removed.1 }))
