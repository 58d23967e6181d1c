-- ===== src/QueuePacket/Delivery.antt =====
-- A message that one end puts in a queue with `addToQueue` and the other reads with
-- `packetFromQueue` (queuePacket.cpp).
use tin_serwer.Base.{
  ℕ, ◌≤◌, ◌<◌, ◌≡◌, refl, sym, ap, ◌∙◌, some, List, [], ◌∷◌, ◌++◌, length, drop, ok, fault, ◌>>=◌,
  indeterminate, subst, arith, le→leb, ◌⊎◌,
}
use tin_serwer.Bytes.{Garbage, alloc, read_byte}
use tin_serwer.Bytes.Laws.{length-alloc, copy_to-append, copy_from-append}
use tin_serwer.Socket.{count}
use tin_serwer.QueuePacket.{QueuePacket, PakType, pak_code, copy_queue_packet}
use tin_serwer.QueuePacket.Queue.{
  AddQueue, add_message, add_to_queue, pak_of_byte, pak_size, construct_pak, packet_from_queue,
}

-- A packet as the constructors leave it: the code of its class first, and the length of its class.
pub record IsWhole (p : QueuePacket) : Type 0 where
  pub rest : List ℕ
  pub parts : p.buf ≡ pak_code p.type ∷ rest
  pub size : pak_size p.type (length p.buf) ≡ length p.buf

pak_of_byte-pak_code : (t : PakType) → pak_of_byte (pak_code t) ≡ some t
unfolding pak_of_byte pak_code
pak_of_byte-pak_code PakType.nak = refl
pak_of_byte-pak_code PakType.eot = refl
pak_of_byte-pak_code PakType.desc = refl
pak_of_byte-pak_code PakType.val = refl
pak_of_byte-pak_code PakType.get = refl
pak_of_byte-pak_code PakType.set = refl
pak_of_byte-pak_code PakType.exit = refl

-- A message that fits into the array of 256 bytes is what the switch goes by.
received :
    (g g' : Garbage) (b : ℕ) (bs : List ℕ)
    → length (b ∷ bs) ≤ 256
    → packet_from_queue g g' (count (length (b ∷ bs))) (b ∷ bs) ≡ (
        construct_pak
          (b ∷ bs ++ drop (length (b ∷ bs)) (alloc g' 256))
          (length (b ∷ bs))
          (pak_of_byte b)
        >>= λ p. ok (some p))
unfolding packet_from_queue read_byte
received g g' b bs fits =
    let left = drop (length (b ∷ bs)) (alloc g 256) in
    rw
      (
        copy_to-append [] (alloc g 256) (b ∷ bs) (omega (arith, length-alloc g 256)),
        copy_from-append [] (b ∷ bs) left,
        copy_to-append [] (alloc g' 256) (b ∷ bs) (omega (arith, length-alloc g' 256)),
      )
      (ground arith)

read_back :
    (g g' : Garbage) (t : PakType) (buf rest : List ℕ)
    → buf ≡ pak_code t ∷ rest
    → pak_size t (length buf) ≡ length buf
    → length buf ≤ 256
    → packet_from_queue g g' (count (length buf)) buf ≡ ok (some (record { type = t; buf = buf }))
unfolding construct_pak copy_queue_packet
read_back g g' t buf rest e size fits =
    let left = drop (length buf) (alloc g' 256) in
    let whole : construct_pak (buf ++ left) (length buf) (some t)
        ≡ ok (record { type = t; buf = buf }) =
      rw (size, copy_from-append [] buf left) refl in
    subst
      (λ b. packet_from_queue g g' (count (length b)) b ≡ ok (some (record { type = t; buf = b })))
      (sym e)
      (received g g' (pak_code t) rest (subst (λ b. length b ≤ 256) e fits)
        ∙ rw (pak_of_byte-pak_code t) (
            ap (λ m. m >>= λ p. ok (some p))
              (subst
                (λ b.
                  construct_pak (b ++ drop (length b) (alloc g' 256)) (length b) (some t)
                  ≡ ok (record { type = t; buf = b }))
                e whole)))

-- A whole packet that the queue has room for gets into it, and what the reader at the other end
-- makes of the message is the packet, whatever its arrays held.
pub packet_from_queue-add :
    (g g' : Garbage) (p : QueuePacket) (q : AddQueue)
    → IsWhole p
    → length p.buf ≤ q.msg_size
    → q.msg_size ≤ 256
    → (add_to_queue p q ≡ (count 0, record q { messages = q.messages ++ p.buf ∷ [] }))
      × (packet_from_queue g g' (count (length p.buf)) p.buf ≡ ok (some p))
unfolding add_to_queue add_message construct_pak copy_queue_packet
packet_from_queue-add g g' p q w fits small =
    (rw (le→leb _ _ fits) refl, read_back g g' p.type p.buf w.rest w.parts w.size (omega arith))

-- A message with a header of no class makes the reader return an indeterminate pointer.
pub packet_from_queue_unknown :
    (g g' : Garbage) (b : ℕ) (bs : List ℕ)
    → length (b ∷ bs) ≤ 256
    → b < 0x12 ⊎ 0x18 < b
    → packet_from_queue g g' (count (length (b ∷ bs))) (b ∷ bs) ≡ fault indeterminate
unfolding pak_of_byte construct_pak pak_code
packet_from_queue_unknown g g' b bs fits h = rw (received g g' b bs fits) (ground arith)
