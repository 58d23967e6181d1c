-- ===== src/Server/Requests.antt =====
-- What `Server::mqReceiveLoop` (Server.cpp) answers to the requests of the second server part.
use tin_serwer.Base.{
  ℕ, ◌^◌, ◌≤◌, ◌<◌, ◌≡◌, refl, sym, ap, subst, Bool, true, none, some, List, [], ◌∷◌, ◌++◌, length,
  Outcome, ok, fault, ◌>>=◌, null_pointer, out_of_bounds, arith, Option-cases, inl, inr,
}
use tin_serwer.Bytes.{Garbage}
use tin_serwer.Float32.{Float32}
use tin_serwer.Socket.{count}
use tin_serwer.Service.{Service, input, output}
use tin_serwer.ServiceTable.{get_service}
use tin_serwer.QueuePacket.{QueuePacket, PakType, new_q_val, get_id, get_value, get_timestamp}
use tin_serwer.QueuePacket.Queue.{packet_from_queue}
use tin_serwer.QueuePacket.Headers.{new_q_nak-IsNumbered}
use tin_serwer.QueuePacket.Delivery.{IsWhole, packet_from_queue-add}
use tin_serwer.QueuePacket.Values.{new_q_val-getters, new_q_val_overflow}
use tin_serwer.Server.{Server, dereference, send_message}
use tin_serwer.Server.Receiving.{
  cast_get, cast_set, id_through, look, answer, handle_get, handle_set, mq_receive,
}

-- What the second part asks for: the value of a service with its time, or a refusal.
pub data Reply : Type 0 where
  value : ℕ → Float32 → ℕ → Reply
  refusal : ℕ → Reply

abbrev pub reply_of : ℕ → Service → Reply
reply_of now (input i) = value i.id i.val i.timestamp
reply_of now (output o) = value o.id o.val now

-- The reply that the table and the store determine.
abbrev pub reply_to : ℕ → Server → ℕ → Reply
reply_to now s num = elim (get_service num s.service_table) [
  | none ↦ refusal num
  | some a ↦ elim (s.heap a) [ none ↦ refusal num | some service ↦ reply_of now service ]
]

reply_to-unknown :
    (now num : ℕ) (s : Server)
    → get_service num s.service_table ≡ none
    → reply_to now s num ≡ refusal num
reply_to-unknown now num s e = rw (reply_to, e) refl

reply_to-live :
    (now num a : ℕ) (service : Service) (s : Server)
    → get_service num s.service_table ≡ some a
    → s.heap a ≡ some service
    → reply_to now s num ≡ reply_of now service
reply_to-live now num a service s e at = rw (reply_to, e, at) refl

-- What the getters of a packet say.
abbrev pub Says : ℕ → QueuePacket → Reply → Type 0
Says time_size p (value id v t) =
    (p.type ≡ PakType.val)
    × (get_id p ≡ ok id)
    × (get_value p ≡ ok v)
    × (get_timestamp time_size p ≡ ok t)
Says time_size p (refusal id) = (p.type ≡ PakType.nak) × (get_id p ≡ ok id)

-- The numbers of a service fit their types.
abbrev pub Fits : ℕ → ℕ → Reply → Type 0
Fits time_size now (value id v t) = (v < 2 ^ 32) × (t < 256 ^ time_size)
Fits time_size now (refusal id) = Unit

-- The table holds addresses of services only, whose numbers fit, and the queue takes the messages.
pub record IsServing (time_size now : ℕ) (s : Server) : Type 0 where
  pub alive :
      (num a : ℕ)
      → get_service num s.service_table ≡ some a
      → (service : Service) × (s.heap a ≡ some service) × Fits time_size now (reply_of now service)
  pub room : 10 ≤ s.send_msg_queue.msg_size
  pub bound : s.send_msg_queue.msg_size ≤ 256

-- The server with one more message in its queue, which the other end reads as the packet.
pub record Sent (p : QueuePacket) (s s' : Server) : Type 0 where
  pub queued : s' ≡ record s {
    send_msg_queue = record (s.send_msg_queue) {
      messages = s.send_msg_queue.messages ++ p.buf ∷ [];
    };
  }
  pub readable :
      (g g' : Garbage) → packet_from_queue g g' (count (length p.buf)) p.buf ≡ ok (some p)

pub send_message-Sent :
    (p : QueuePacket) (s : Server)
    → IsWhole p
    → length p.buf ≤ s.send_msg_queue.msg_size
    → s.send_msg_queue.msg_size ≤ 256
    → Sent p s (send_message p s)
unfolding send_message
send_message-Sent p s w fits bound = record {
  queued =
      ap (λ r. record s { send_msg_queue = r.1 })
        (packet_from_queue-add (λ _. 0) (λ _. 0) p s.send_msg_queue w fits bound).0;
  readable = λ g g'. (packet_from_queue-add g g' p s.send_msg_queue w fits bound).1;
}

-- A Q_GET with its bytes.
abbrev pub q_get : List ℕ → QueuePacket
q_get buf = record { type = PakType.get; buf = buf }

-- What one round comes to for a Q_GET.
abbrev pub Answered : ℕ → Reply → Server → Outcome (Bool × Server) → Type 0
Answered time_size r s result =
    (s' : Server) × (p : QueuePacket) × (result ≡ ok (true, s')) × Says time_size p r × Sent p s s'

send_value :
    (time_size : ℕ) (g : Garbage) (id v t : ℕ) (s : Server)
    → time_size ≤ 4
    → (v < 2 ^ 32) × (t < 256 ^ time_size)
    → 10 ≤ s.send_msg_queue.msg_size
    → s.send_msg_queue.msg_size ≤ 256
    → Answered time_size
        (value id v t)
        s
        ((new_q_val time_size g id v t >>= λ val. ok (send_message val s)) >>= λ s'. ok (true, s'))
send_value time_size g id v t s small (fv, ft) room bound =
    let (q, made, is_val, whole, ten, has_id, has_value, has_time) =
      new_q_val-getters time_size g id v t small fv ft in
    rw made (
      send_message q s,
      q,
      refl,
      (is_val, has_id, has_value, has_time),
      send_message-Sent q s whole (omega (arith, ten, room)) bound,
    )

-- Where a time has at most 4 bytes, a serving server answers each Q_GET with one message, and
-- changes nothing else: for a live service with its number, its value and the time of the
-- measurement (the present time for an output), else with a refusal. The reader at the other end
-- gets the packet that says so.
pub mq_receive_get :
    (time_size : ℕ) (g : Garbage) (now errno num : ℕ) (buf : List ℕ) (s : Server)
    → time_size ≤ 4
    → IsServing time_size now s
    → get_id (q_get buf) ≡ ok num
    → Answered time_size
        (reply_to now s num)
        s
        (mq_receive time_size g now errno (some (q_get buf)) s)
unfolding mq_receive cast_get handle_get answer id_through look dereference
mq_receive_get time_size g now errno num buf s small v has_id =
    elim (Option-cases (get_service num s.service_table)) [
      | inl e ↦
          let (q, made, (is_nak, whole, two, has_num)) = new_q_nak-IsNumbered g num in
          let sent = send_message-Sent q s whole (omega (arith, v.room)) v.bound in
          subst
            (λ r. Answered time_size r s (mq_receive time_size g now errno (some (q_get buf)) s))
            (sym (reply_to-unknown now num s e))
            (rw (has_id, e, has_id, made) (send_message q s, q, refl, (is_nak, has_num), sent))
      | inr (a, e) ↦ live a e (v.alive num a e).0 (v.alive num a e).1 (v.alive num a e).2
    ]
  where
    live :
        (a : ℕ)
        → get_service num s.service_table ≡ some a
        → (service : Service) → s.heap a ≡ some service
        → Fits time_size now (reply_of now service)
        → Answered time_size
            (reply_to now s num)
            s
            (mq_receive time_size g now errno (some (q_get buf)) s)
    live a e (input i) at fits =
        subst (λ r. Answered time_size r s (mq_receive time_size g now errno (some (q_get buf)) s))
          (sym (reply_to-live now num a (input i) s e at))
          (rw (has_id, e, look, dereference, at)
            (send_value time_size g i.id i.val i.timestamp s small fits v.room v.bound))
    live a e (output o) at fits =
        subst (λ r. Answered time_size r s (mq_receive time_size g now errno (some (q_get buf)) s))
          (sym (reply_to-live now num a (output o) s e at))
          (rw (has_id, e, look, dereference, at)
            (send_value time_size g o.id o.val now s small fits v.room v.bound))

-- Each Q_SET stops the server: the branch reads the number through the pointer `get`, which is null
-- whenever it is entered. No request is ever carried out.
pub mq_receive-set :
    (time_size : ℕ) (g : Garbage) (now errno : ℕ) (buf : List ℕ) (s : Server)
    → mq_receive time_size g now errno (some (record { type = PakType.set; buf = buf })) s
      ≡ fault null_pointer
unfolding mq_receive cast_get cast_set handle_set id_through
mq_receive-set time_size g now errno buf s = refl

-- Where a time has more than 4 bytes, each Q_GET for a live service makes the server write out of
-- bounds.
pub mq_receive_overflow :
    (time_size : ℕ) (g : Garbage) (now errno num : ℕ) (buf : List ℕ) (s : Server) (a : ℕ)
    (service : Service)
    → 4 < time_size
    → get_id (q_get buf) ≡ ok num
    → get_service num s.service_table ≡ some a
    → s.heap a ≡ some service
    → mq_receive time_size g now errno (some (q_get buf)) s ≡ fault out_of_bounds
unfolding mq_receive cast_get handle_get answer id_through look dereference
mq_receive_overflow time_size g now errno num buf s a (input i) h has_id e at =
    rw (has_id, e, look, dereference, at, new_q_val_overflow time_size g i.id i.val i.timestamp h)
      refl
mq_receive_overflow time_size g now errno num buf s a (output o) h has_id e at =
    rw (has_id, e, look, dereference, at, new_q_val_overflow time_size g o.id o.val now h) refl
