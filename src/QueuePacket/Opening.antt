-- ===== src/QueuePacket/Opening.antt =====
-- The constructors, the destructors and the getters of the two queues (AddQueue.cpp,
-- ReadQueue.cpp). What the calls of `mq_open`, `mq_getattr`, `mq_close` and `mq_unlink` return is
-- a parameter. A `CHECK` (common.h) that fails ends the program: `none`.
use tin_serwer.Base.{
  ℕ, ◌+◌, Bool, true, false, ◌&&◌, Option, none, some, List, [], ◌∷◌, ◌++◌, if◌then◌else◌, Outcome,
  ok, fault, indeterminate,
}
use tin_serwer.Socket.{Ret}
use tin_serwer.QueuePacket.Queue.{AddQueue, add_message}

-- What `mq_getattr` fills in.
pub record MqAttr : Type 0 where
  pub msgsize : ℕ
  pub maxmsg : ℕ
  pub curmsgs : ℕ

-- The member `attributes`: not set, or an object with what was asked for.
pub data Attributes : Type 0 where
  unset : Attributes
  asked : (msg_size max_msgs : ℕ) → Attributes

-- The members of both classes. `last_msg` is the size of the buffer, of a `ReadQueue` only.
pub record MessageQueue : Type 0 where
  pub queue_descriptor : ℕ
  pub queue_name : List ℕ
  pub attributes : Attributes
  pub last_msg : Option ℕ

-- Both constructors of `AddQueue`: `descriptor` is the result of `mq_open`, or `none` for -1.
unfoldable pub new_add_queue : List ℕ → Attributes → (descriptor : Option ℕ) → Option MessageQueue
new_add_queue name attributes none = none
new_add_queue name attributes (some d) =
    some
      (record { queue_descriptor = d; queue_name = name; attributes = attributes; last_msg = none })

-- `getMsgSize`: `attr` is what `mq_getattr` gives, or `none` where it fails.
unfoldable pub get_msg_size : Option MqAttr → ℕ
get_msg_size none = 0
get_msg_size (some attr) = attr.msgsize

-- Both constructors of `ReadQueue`.
unfoldable pub new_read_queue :
    List ℕ → Attributes → (descriptor : Option ℕ) → (attr : Option MqAttr) → Option MessageQueue
new_read_queue name attributes none attr = none
new_read_queue name attributes (some d) attr = some (record {
  queue_descriptor = d;
  queue_name = name;
  attributes = attributes;
  last_msg = some (get_msg_size attr + 1);
})

-- `getMessagesInQueue` of both classes.
unfoldable pub get_messages_in_queue : Option MqAttr → Option ℕ
get_messages_in_queue none = none
get_messages_in_queue (some attr) = some attr.curmsgs

abbrev pub get_name : MessageQueue → List ℕ
get_name q = q.queue_name

-- The destructor of `AddQueue`: whether the program goes on.
unfoldable pub delete_add_queue : (closed unlinked : Bool) → Bool
delete_add_queue closed unlinked = closed && unlinked

-- The destructor of `ReadQueue` deletes `attributes`, which one constructor does not set.
unfoldable pub delete_read_queue : (closed unlinked : Bool) → MessageQueue → Outcome Bool
delete_read_queue closed unlinked q =
    if closed && unlinked
    then (elim q.attributes [ unset ↦ fault indeterminate | asked msg_size max_msgs ↦ ok true ])
    else ok false

-- `addMessage` of a string: its bytes and the terminating zero.
unfoldable pub add_text : List ℕ → AddQueue → Ret × AddQueue
add_text msg q = add_message (msg ++ 0 ∷ []) q
