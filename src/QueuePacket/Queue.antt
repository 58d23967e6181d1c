-- ===== src/QueuePacket/Queue.antt =====
-- The two message queues: `AddQueue::addMessage`, `ReadQueue::readToCharArray`, and
-- `QueuePacket::addToQueue` and `packetFromQueue`.
use tin_serwer.Base.{
  ℕ, Option, none, some, List, [], ◌∷◌, ◌++◌, length, if◌then◌else◌, leb, ◌==◌, Outcome, ok, fault,
  ◌>>=◌, indeterminate,
}
use tin_serwer.Bytes.{Garbage, alloc, copy_to, copy_from, read_byte}
use tin_serwer.Socket.{Ret, minus_one, count, below_one}
use tin_serwer.QueuePacket.{QueuePacket, PakType, pak_code, copy_queue_packet}

-- A queue that is written to: the limit on a message, `mq_msgsize`, and the messages, oldest first.
-- `mq_send` waits while the queue is full, so a message that is not too long gets in.
pub record AddQueue : Type 0 where
  pub msg_size : ℕ
  pub messages : List (List ℕ)

unfoldable pub add_message : List ℕ → AddQueue → Ret × AddQueue
add_message msg q =
    if leb (length msg) q.msg_size
    then (count 0, record q { messages = q.messages ++ msg ∷ [] })
    else (minus_one, q)

unfoldable pub add_to_queue : QueuePacket → AddQueue → Ret × AddQueue
unfolding add_message
add_to_queue p q = add_message p.buf q

-- What `mq_timedreceive` returns: a message, or -1 with an error number.
pub data Received : Type 0 where
  message : List ℕ → Received
  error : ℕ → Received

abbrev pub etimedout : ℕ
etimedout = 110

-- The loop of `readToCharArray`, with `errno` as it was left before: it goes on while nothing was
-- read and `errno` says that the time is over. The result is `none` while it still waits.
unfoldable pub read_to_char_array : List Received → ℕ → Option (Ret × List ℕ × ℕ × List Received)
read_to_char_array [] errno = none
read_to_char_array (message (b ∷ bs) ∷ later) errno =
    some (count (length (b ∷ bs)), b ∷ bs, errno, later)
read_to_char_array (message [] ∷ later) errno =
    let rest = read_to_char_array later errno in
    if errno == etimedout then rest else some (count 0, [], errno, later)
read_to_char_array (error e ∷ later) errno =
    let rest = read_to_char_array later e in
    if e == etimedout then rest else some (minus_one, [], e, later)

-- The cases of the switch.
unfoldable pub pak_of_byte : ℕ → Option PakType
unfolding pak_code
pak_of_byte b =
    if b == pak_code PakType.nak
    then some PakType.nak
    else if b == pak_code PakType.eot
    then some PakType.eot
    else if b == pak_code PakType.desc
    then some PakType.desc
    else if b == pak_code PakType.val
    then some PakType.val
    else if b == pak_code PakType.get
    then some PakType.get
    else if b == pak_code PakType.set
    then some PakType.set
    else if b == pak_code PakType.exit
    then some PakType.exit
    else none

-- How many bytes the constructor of a class copies: a Q_DESC takes the length of the message.
unfoldable pub pak_size : PakType → ℕ → ℕ
pak_size PakType.nak n = 2
pak_size PakType.eot n = 1
pak_size PakType.desc n = n
pak_size PakType.val n = 10
pak_size PakType.get n = 2
pak_size PakType.set n = 6
pak_size PakType.exit n = 2

-- The switch has no default: for any other header the pointer that is returned is indeterminate.
unfoldable pub construct_pak : List ℕ → ℕ → Option PakType → Outcome QueuePacket
construct_pak bufor n none = fault indeterminate
construct_pak bufor n (some t) = copy_queue_packet t bufor (pak_size t n)

-- What `packetFromQueue` makes of the return value and the bytes: `none` is the null pointer. The
-- two arrays of 256 bytes begin with what `g` and `g'` hold.
unfoldable pub packet_from_queue : Garbage → Garbage → Ret → List ℕ → Outcome (Option QueuePacket)
packet_from_queue g g' ret bytes = if below_one ret then ok none else (do
  bufor ← copy_to (alloc g 256) 0 bytes
  read ← copy_from bufor 0 (length bytes)
  bufor_unsigned ← copy_to (alloc g' 256) 0 read
  b ← read_byte bufor_unsigned 0
  p ← construct_pak bufor_unsigned (length bytes) (pak_of_byte b)
  ok (some p))
