-- ===== src/Server/Receiving.antt =====
-- `Server::mqReceiveLoop` of Server.cpp.
use tin_serwer.Base.{
  ℕ, Bool, true, false, Option, none, some, List, [], ◌∷◌, ◌==◌, if◌then◌else◌, Outcome, ok, fault,
  ◌>>=◌, null_pointer,
}
use tin_serwer.Bytes.{Garbage}
use tin_serwer.Socket.{Ret}
use tin_serwer.Service.{Service, input, output}
use tin_serwer.Service.Outputs.{set_val}
use tin_serwer.ServiceTable.{get_service}
use tin_serwer.QueuePacket.{QueuePacket, PakType, new_q_nak, new_q_val, get_id, get_value}
use tin_serwer.QueuePacket.Queue.{packet_from_queue}
use tin_serwer.Server.{Server, dereference, send_message}

abbrev pub ebadf : ℕ
ebadf = 9

-- `dynamic_cast<Q_GET*>` and `dynamic_cast<Q_SET*>`
unfoldable pub cast_get : Option QueuePacket → Option QueuePacket
cast_get none = none
cast_get (some p) = elim p.type [ PakType.get ↦ some p | _ ↦ none ]

unfoldable pub cast_set : Option QueuePacket → Option QueuePacket
cast_set none = none
cast_set (some p) = elim p.type [ PakType.set ↦ some p | _ ↦ none ]

-- `get->getId()`
unfoldable pub id_through : Option QueuePacket → Outcome ℕ
id_through none = fault null_pointer
id_through (some p) = get_id p

-- What `dynamic_cast` looks at: the service that a pointer points at, if it is not null.
unfoldable pub look : (ℕ → Option Service) → Option ℕ → Outcome (Option Service)
look heap none = ok none
look heap (some address) = dereference heap (some address) >>= λ s. ok (some s)

unfoldable pub write_heap : (ℕ → Option Service) → ℕ → Service → ℕ → Option Service
write_heap heap address service a = if a == address then some service else heap a

-- The three cases of the branch of a Q_GET, by the service that was found. `now` is the time.
unfoldable pub answer :
    ℕ → Garbage → ℕ → Option QueuePacket → Server → Option Service → Outcome Server
answer time_size g now get s (some (input i)) =
    new_q_val time_size g i.id i.val i.timestamp >>= λ val. ok (send_message val s)
answer time_size g now get s (some (output o)) =
    new_q_val time_size g o.id o.val now >>= λ val. ok (send_message val s)
answer time_size g now get s none = do
  num ← id_through get
  nak ← new_q_nak g num
  ok (send_message nak s)

unfoldable pub handle_get : ℕ → Garbage → ℕ → Option QueuePacket → Server → Outcome Server
unfolding answer
handle_get time_size g now get s = do
  num ← id_through get
  found ← look s.heap (get_service num s.service_table)
  answer time_size g now get s found

-- The branch of a Q_SET, with the pointer `get`, which it uses, and the packet. The two last cases
-- only log, and read `get` once more.
unfoldable pub handle_set : Option QueuePacket → QueuePacket → Server → Outcome Server
handle_set get set s = do
  num ← id_through get
  found ← look s.heap (get_service num s.service_table)
  elim found [
    | some (output o) ↦ get_value set >>= λ v. ok (elim (get_service num s.service_table) [
      | none ↦ s
      | some address ↦ record s { heap = write_heap s.heap address (output (set_val v o)) }
    ])
    | _ ↦ id_through get >>= λ num. ok s
  ]

-- One round: whether the loop goes on, and the server. `errno` is the error number of the read.
unfoldable pub mq_receive :
    ℕ → Garbage → ℕ → ℕ → Option QueuePacket → Server → Outcome (Bool × Server)
mq_receive time_size g now errno in_packet s = elim (cast_get in_packet) [
  | some get ↦ handle_get time_size g now (some get) s >>= λ s. ok (true, s)
  | none ↦ elim (cast_set in_packet) [
    | some set ↦ handle_set (cast_get in_packet) set s >>= λ s. ok (true, s)
    | none ↦ elim in_packet [
      | none ↦ ok (if errno == ebadf then false else true, s)
      | some p ↦ ok (true, s)
    ]
  ]
]

-- What one call of `readToCharArray` gives: its result, the bytes and the error number; and the
-- time when the round comes to ask for it.
pub record Round : Type 0 where
  pub ret : Ret
  pub bytes : List ℕ
  pub errno : ℕ
  pub now : ℕ

-- The loop, over the rounds to come: whether it still works after them.
unfoldable pub mq_receive_loop : ℕ → Garbage → List Round → Server → Outcome (Bool × Server)
mq_receive_loop time_size g [] s = ok (true, s)
mq_receive_loop time_size g (r ∷ later) s = do
  in_packet ← packet_from_queue g g r.ret r.bytes
  result ← mq_receive time_size g r.now r.errno in_packet s
  if result.0 then mq_receive_loop time_size g later result.1 else ok result
