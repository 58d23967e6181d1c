-- ===== src/Socket.antt =====
-- `readTillDone` and `writeTillDone` of packet.cpp, over a connection as the kernel shows it. The
-- kernel may move fewer bytes than asked for in one call: `reads` and `writes` list what it is
-- ready to do in the calls to come, and a call past the end of the list fails (as a read does after
-- the receive timeout). The lists may be of any length.
pub mod Ready
pub mod Reads
pub mod Writes
use tin_serwer.Base.{
  ℕ, zero, suc, ◌+◌, ◌-◌, ◌≡◌, Bool, true, false, List, [], ◌∷◌, ◌++◌, ◌==◌, min, if◌then◌else◌,
  length, take, drop,
}

-- What `read` and `write` return: -1, or a number of bytes.
pub data Ret : Type 0 where
  minus_one : Ret
  count : ℕ → Ret

-- `ret < 1`, and `ret <= 0`
abbrev pub below_one : Ret → Bool
below_one minus_one = true
below_one (count n) = n == 0

-- `!ret`
abbrev pub is_zero : Ret → Bool
is_zero minus_one = false
is_zero (count n) = n == 0

pub data Answer : Type 0 where
  fails : Answer
  moves : ℕ → Answer

-- The bytes that the peer has sent and will send before it closes, and the bytes sent to it.
pub record Socket : Type 0 where
  pub incoming : List ℕ
  pub outgoing : List ℕ
  pub reads : List Answer
  pub writes : List Answer

-- What one call asks for, and what is there, bound the bytes that it moves.
abbrev pub moved : ℕ → ℕ → ℕ → ℕ
moved ready wanted there = min ready (min wanted there)

-- One round after another, with the bytes read so far and the number still missing. The result has
-- the return value and the bytes read, what is left of the input, and the answers left.
pub read_loop : List Answer → List ℕ → List ℕ → ℕ → Ret × List ℕ × List ℕ × List Answer
read_loop [] incoming got zero = (count (length got), got, incoming, [])
read_loop [] incoming got (suc n) = (minus_one, got, incoming, [])
read_loop (a ∷ later) incoming got zero = (count (length got), got, incoming, a ∷ later)
read_loop (fails ∷ later) incoming got (suc n) = (minus_one, got, incoming, later)
read_loop (moves k ∷ later) incoming got (suc n) =
    let m = moved k (suc n) (length incoming) in
    let rest = read_loop later (drop m incoming) (got ++ take m incoming) (suc n - m) in
    if m == 0 then (count 0, got, incoming, later) else rest

unfoldable pub read_till_done : ℕ → Socket → Ret × List ℕ × Socket
unfolding read_loop
read_till_done msg_size s =
    let (ret, got, incoming, reads) = read_loop s.reads s.incoming [] msg_size in
    (ret, got, record s { incoming = incoming; reads = reads })

-- One round after another, with the number of bytes written so far and the bytes still to write.
unfoldable pub write_loop : List Answer → List ℕ → ℕ → List ℕ → Ret × List ℕ × List Answer
write_loop answers outgoing done [] = (count done, outgoing, answers)
write_loop [] outgoing done (b ∷ bs) = (minus_one, outgoing, [])
write_loop (fails ∷ later) outgoing done (b ∷ bs) = (minus_one, outgoing, later)
write_loop (moves k ∷ later) outgoing done (b ∷ bs) =
    let m = min k (length (b ∷ bs)) in
    let rest = write_loop later (outgoing ++ take m (b ∷ bs)) (done + m) (drop m (b ∷ bs)) in
    if m == 0 then (count 0, outgoing, later) else rest

unfoldable pub write_till_done : List ℕ → Socket → Ret × Socket
unfolding write_loop
write_till_done msg s =
    let (ret, outgoing, writes) = write_loop s.writes s.outgoing 0 msg in
    (ret, record s { outgoing = outgoing; writes = writes })
