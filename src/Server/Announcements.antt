-- ===== src/Server/Announcements.antt =====
-- `Server::addService` and `Server::unregisterService` of Server.cpp: what they do to the table,
-- and what they tell the second server part.
use tin_serwer.Base.{
  ℕ, ◌+◌, ◌^◌, ◌≤◌, ◌<◌, ◌≡◌, refl, Bool, true, some, length, Outcome, ok, fault, arith, ◌↔◌, ◌&&◌,
  ◌==◌, if◌then◌else◌,
}
use tin_serwer.Bytes.{Garbage}
use tin_serwer.Bytes.Filling.{NoZero}
use tin_serwer.Service.{Service, Common, common_of, type_code}
use tin_serwer.ServiceTable.{ServiceTable, push, remove}
use tin_serwer.ServiceTable.Invariant.{IsValid}
use tin_serwer.ServiceTable.Status.{
  spare, pending, live, status, Pushes, push-Pushes, status-remove,
}
use tin_serwer.QueuePacket.{
  QueuePacket, PakType, get_id, get_device_class, get_name, get_unit, get_min, get_max,
}
use tin_serwer.QueuePacket.Descriptions.{new_q_desc-getters}
use tin_serwer.QueuePacket.Headers.{new_q_exit-IsNumbered}
use tin_serwer.Server.{Server, dereference, send_message, add_service, unregister_service}
use tin_serwer.Server.Requests.{Sent, send_message-Sent}

-- The members of a service fit a description, and the description fits the queue.
pub record IsDescribable (c : Common) (msg_size : ℕ) : Type 0 where
  pub unit_fits : length c.unit ≤ 3
  pub name_text : NoZero c.name
  pub unit_text : NoZero c.unit
  pub min_fits : c.min < 2 ^ 32
  pub max_fits : c.max < 2 ^ 32
  pub room : length c.name + 16 ≤ msg_size

-- What the getters of a packet say of a service.
abbrev pub Describes : Common → QueuePacket → Type 0
Describes c p =
    (p.type ≡ PakType.desc)
    × (get_id p ≡ ok c.id)
    × (get_device_class p ≡ ok (type_code c.type))
    × (get_name p ≡ ok c.name)
    × (get_unit p ≡ ok c.unit)
    × (get_min p ≡ ok c.min)
    × (get_max p ≡ ok c.max)

pushed :
    (id a : ℕ) (t : ServiceTable ℕ) (r : Outcome (Bool × ServiceTable ℕ))
    → push (some a) id t ≡ r
    → Pushes a id t r
    → (done : Bool) × (u : ServiceTable ℕ) × (push (some a) id t ≡ ok (done, u))
      × Pushes a id t (ok (done, u))
pushed id a t (ok (done, u)) e h = (done, u, e, h)
pushed id a t (fault f) e h = absurd h

-- On a valid table, a service that can be described is made live exactly where its number is
-- pending, no other number changes, and the second part is sent its description, whether or not it
-- was made live.
pub add_service-Describes :
    (g g' : Garbage) (id a : ℕ) (service : Service) (s : Server)
    → IsValid s.service_table
    → s.heap a ≡ some service
    → IsDescribable (common_of service) s.send_msg_queue.msg_size
    → s.send_msg_queue.msg_size ≤ 256
    → (done : Bool) × (t : ServiceTable ℕ) × (s' : Server) × (p : QueuePacket) × (add_service g g'
          id
          (some a)
          s
        ≡ ok (done, s'))
      × Describes (common_of service) p
      × Sent p (record s { service_table = t }) s'
      × ((done ≡ true) ↔ (status s.service_table id ≡ pending))
      × ((j : ℕ) → status t j ≡ (if done && (id == j) then live a else status s.service_table j))
unfolding add_service dereference
add_service-Describes g g' id a service s v at d bound =
    let (done, t, e, (exact, others)) =
      pushed id a s.service_table _ refl (push-Pushes a id s.service_table v) in
    let c = common_of service in
    let s1 = record s { service_table = t } in
    let (p, made, is_desc, whole, len, has_id, has_class, has_name, has_unit, has_min, has_max) =
      new_q_desc-getters g g' c.id (type_code c.type) c.name c.unit c.min c.max d.unit_fits
        d.name_text d.unit_text d.min_fits d.max_fits in
    (
      done,
      t,
      send_message p s1,
      p,
      rw (e, dereference, at, made) refl,
      (is_desc, has_id, has_class, has_name, has_unit, has_min, has_max),
      send_message-Sent p s1 whole (omega (arith, len, d.room)) bound,
      exact,
      others,
    )

-- On a valid table, a number is taken out exactly where it is in use, no other number changes, and
-- the second part is told that the service with the number has gone, whether or not there was one.
pub unregister_service-Sent :
    (g : Garbage) (id : ℕ) (s : Server)
    → IsValid s.service_table
    → 2 ≤ s.send_msg_queue.msg_size
    → s.send_msg_queue.msg_size ≤ 256
    → (done : Bool) × (t : ServiceTable ℕ) × (s' : Server) × (p : QueuePacket) × (unregister_service
          g id s
        ≡ ok (done, s'))
      × (p.type ≡ PakType.exit)
      × (get_id p ≡ ok id)
      × Sent p (record s { service_table = t }) s'
      × ((done ≡ true) ↔ ((a : ℕ) × (status s.service_table id ≡ live a)))
      × ((j : ℕ) → status t j ≡ (if done && (id == j) then spare else status s.service_table j))
unfolding unregister_service
unregister_service-Sent g id s v room bound =
    let (done, t) = remove id s.service_table in
    let s1 = record s { service_table = t } in
    let (p, made, (is_exit, whole, two, num)) = new_q_exit-IsNumbered g id in
    let (exact, others) = status-remove id s.service_table v in
    (
      done,
      t,
      send_message p s1,
      p,
      rw made refl,
      is_exit,
      num,
      send_message-Sent p s1 whole (omega (arith, two, room)) bound,
      exact,
      others,
    )
