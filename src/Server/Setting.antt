-- ===== src/Server/Setting.antt =====
-- What a Q_SET does to `Server::mqReceiveLoop` (Server.cpp).
use tin_serwer.Base.{
  ℕ, ◌≡◌, refl, ◌≤◌, Bool, true, false, List, [], ◌∷◌, ◌++◌, length, ok, fault, ◌∙◌, ap, >>=-eq-ok,
  null_pointer, arith, if◌then◌else◌,
}
use tin_serwer.Bytes.{Garbage}
use tin_serwer.Socket.{count}
use tin_serwer.QueuePacket.{QueuePacket, PakType}
use tin_serwer.QueuePacket.Queue.{AddQueue, packet_from_queue}
use tin_serwer.QueuePacket.Delivery.{IsWhole, packet_from_queue-add}
use tin_serwer.Server.{Server}
use tin_serwer.Server.Requests.{mq_receive-set}
use tin_serwer.Server.Receiving.{mq_receive, Round, mq_receive_loop}

-- Rounds that the loop outlives can be run first.
mq_receive_loop-append :
    (time_size : ℕ) (g : Garbage) (before later : List Round) (s s1 : Server)
    → mq_receive_loop time_size g before s ≡ ok (true, s1)
    → mq_receive_loop time_size g (before ++ later) s ≡ mq_receive_loop time_size g later s1
unfolding mq_receive_loop
mq_receive_loop-append time_size g [] later s s1 h =
    let e : s ≡ s1 = cc in ap (mq_receive_loop time_size g later) e
mq_receive_loop-append time_size g (r ∷ before) later s s1 h =
    let (p, e, h1) = >>=-eq-ok (packet_from_queue g g r.ret r.bytes) _ h in
    let (result, e', h2) = >>=-eq-ok (mq_receive time_size g r.now r.errno p s) _ h1 in
    rw (e, e')
      (goes_on result.0 result.1 h2 (mq_receive_loop-append time_size g before later result.1 s1))
  where
    goes_on :
        (working : Bool) (u : Server)
        → (if working then mq_receive_loop time_size g before u else ok (working, u))
          ≡ ok (true, s1)
        → (mq_receive_loop time_size g before u ≡ ok (true, s1)
            → mq_receive_loop time_size g (before ++ later) u
              ≡ mq_receive_loop time_size g later s1)
        → (if working then mq_receive_loop time_size g (before ++ later) u else ok (working, u))
          ≡ mq_receive_loop time_size g later s1
    goes_on true u h k = k h
    goes_on false u h k = cc

-- A whole Q_SET of at most 256 bytes that is read while the loop works makes the server use a null
-- pointer, whatever rounds went before and whatever service the packet names.
pub mq_receive_loop-set :
    (time_size : ℕ) (g : Garbage) (before later : List Round) (s s1 : Server) (buf : List ℕ)
    (errno now : ℕ)
    → mq_receive_loop time_size g before s ≡ ok (true, s1)
    → IsWhole (record { type = PakType.set; buf = buf })
    → length buf ≤ 256
    → mq_receive_loop time_size g
        (before
          ++ record { ret = count (length buf); bytes = buf; errno = errno; now = now } ∷ later)
        s
      ≡ fault null_pointer
unfolding mq_receive_loop
mq_receive_loop-set time_size g before later s s1 buf errno now h w small =
    let p : QueuePacket = record { type = PakType.set; buf = buf } in
    let q : AddQueue = record { msg_size = 256; messages = [] } in
    mq_receive_loop-append time_size g before _ s s1 h
    ∙ rw
        (
          (packet_from_queue-add g g p q w small (omega arith)).1,
          mq_receive-set time_size g now errno buf s1,
        )
        refl
