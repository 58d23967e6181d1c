-- ===== src/QueuePacket/Values.antt =====
-- Q_VAL of queuePacket.cpp: its buffer has room for a time of 4 bytes.
use tin_serwer.Base.{
  ℕ, length-append, length-drop, ◌+◌, ◌^◌, ◌≤◌, ◌<◌, ◌≡◌, refl, sym, ap, ◌∙◌, List, [], ◌∷◌, ◌++◌,
  length, drop, ok, fault, ◌>>=◌, out_of_bounds, arith,
}
use tin_serwer.Bytes.{
  Garbage, alloc, copy_to, copy_from, write_byte, read_byte, to_bytes, from_bytes,
}
use tin_serwer.Bytes.Laws.{
  length-to_bytes, from_bytes-to_bytes, copy_to-append, copy_from-append, copy_to_past,
}
use tin_serwer.Float32.{Float32}
use tin_serwer.QueuePacket.Delivery.{IsWhole}
use tin_serwer.QueuePacket.Queue.{pak_size}
use tin_serwer.QueuePacket.{
  QueuePacket, PakType, pak_code, new_q_val, get_id, get_value, get_timestamp,
}

-- What the first three copies leave: 6 bytes that are filled in, and 4 more.
abbrev val_front : ℕ → Float32 → List ℕ
unfolding to_bytes
val_front num value = 0x15 ∷ num ∷ to_bytes 4 value

abbrev val_back : Garbage → List ℕ
unfolding alloc
val_back g = alloc (λ i. g (6 + i)) 4

new_q_val_last :
    (time_size : ℕ) (g : Garbage) (num : ℕ) (value : Float32) (time_stamp : ℕ)
    → new_q_val time_size g num value time_stamp ≡ (
        copy_to (val_front num value ++ val_back g) 6 (to_bytes time_size time_stamp) >>= λ buf.
        ok (record { type = PakType.val; buf = buf }))
unfolding new_q_val alloc write_byte copy_to to_bytes
new_q_val_last time_size g num value time_stamp = refl

-- Where a time has at most 4 bytes, the constructor makes a whole packet of 10 bytes, from which
-- the getters read back the number, the value and the time, if these fit their types; what fresh
-- memory holds is no matter.
pub new_q_val-getters :
    (time_size : ℕ) (g : Garbage) (num : ℕ) (value : Float32) (time_stamp : ℕ)
    → time_size ≤ 4
    → value < 2 ^ 32
    → time_stamp < 256 ^ time_size
    → (p : QueuePacket) × (new_q_val time_size g num value time_stamp ≡ ok p)
      × (p.type ≡ PakType.val)
      × IsWhole p
      × (length p.buf ≡ 10)
      × (get_id p ≡ ok num)
      × (get_value p ≡ ok value)
      × (get_timestamp time_size p ≡ ok time_stamp)
unfolding get_id get_value get_timestamp read_byte pak_code pak_size val_front val_back to_bytes
new_q_val-getters time_size g num value time_stamp small v t =
    let front = val_front num value in
    let stamp = to_bytes time_size time_stamp in
    let left = drop (length stamp) (val_back g) in
    let value_read : (copy_from (front ++ (stamp ++ left)) 2 4 >>= λ bytes. ok (from_bytes bytes))
        ≡ ok value =
      ap (λ m. m >>= λ bytes. ok (from_bytes bytes))
        (copy_from-append (0x15 ∷ num ∷ []) (to_bytes 4 value) (stamp ++ left))
      ∙ ap ok (from_bytes-to_bytes 4 value v) in
    let time_read : (copy_from (front ++ (stamp ++ left)) 6 time_size >>= λ bytes.
    ok (from_bytes bytes))
        ≡ ok time_stamp =
      ap (λ n. copy_from (front ++ (stamp ++ left)) 6 n >>= λ bytes. ok (from_bytes bytes))
        (sym (length-to_bytes time_size time_stamp))
      ∙ (ap (λ m. m >>= λ bytes. ok (from_bytes bytes)) (copy_from-append front stamp left)
          ∙ ap ok (from_bytes-to_bytes time_size time_stamp t)) in
    let room : length stamp ≤ 4 = omega (arith, length-to_bytes time_size time_stamp) in
    let ten : length (front ++ (stamp ++ left)) ≡ 10 = omega (
      arith,
      length-append front (stamp ++ left),
      length-append stamp left,
      length-drop (length stamp) (val_back g),
    ) in
    (
      record { type = PakType.val; buf = front ++ (stamp ++ left) },
      new_q_val_last time_size g num value time_stamp
          ∙ ap (λ m. m >>= λ buf. ok (record { type = PakType.val; buf = buf }))
              (copy_to-append front (val_back g) stamp room),
      refl,
      record { rest = num ∷ to_bytes 4 value ++ (stamp ++ left); parts = refl; size = sym ten },
      ten,
      refl,
      value_read,
      time_read,
    )

-- Where a time has more than 4 bytes, as on every 64-bit platform, each call of the constructor
-- writes behind the end of its buffer.
pub new_q_val_overflow :
    (time_size : ℕ) (g : Garbage) (num : ℕ) (value : Float32) (time_stamp : ℕ)
    → 4 < time_size
    → new_q_val time_size g num value time_stamp ≡ fault out_of_bounds
unfolding val_front to_bytes val_back
new_q_val_overflow time_size g num value time_stamp h =
    new_q_val_last time_size g num value time_stamp
    ∙ ap (λ m. m >>= λ buf. ok (record { type = PakType.val; buf = buf }))
        (copy_to_past (val_front num value ++ val_back g) (to_bytes time_size time_stamp) 6
          (omega (arith, length-to_bytes time_size time_stamp)))
