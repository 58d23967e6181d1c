-- ===== src/QueuePacket/Headers.antt =====
-- Q_NAK, Q_GET and Q_EXIT of queuePacket.cpp: a header and a number.
use tin_serwer.Base.{ℕ, ◌≡◌, refl, [], ◌∷◌, length, ok}
use tin_serwer.Bytes.{Garbage, alloc, write_byte, copy_to, read_byte}
use tin_serwer.QueuePacket.{
  QueuePacket, PakType, pak_code, header_and_id, new_q_nak, new_q_exit, get_id,
}
use tin_serwer.QueuePacket.Queue.{pak_size}
use tin_serwer.QueuePacket.Delivery.{IsWhole}

-- A whole packet of two bytes, from which the number is read back.
abbrev pub IsNumbered : PakType → ℕ → QueuePacket → Type 0
IsNumbered t num p = (p.type ≡ t) × IsWhole p × (length p.buf ≡ 2) × (get_id p ≡ ok num)

header_and_id-IsNumbered :
    (g : Garbage) (t : PakType) (num : ℕ)
    → pak_size t 2 ≡ 2
    → (p : QueuePacket) × (header_and_id g t num ≡ ok p) × IsNumbered t num p
unfolding header_and_id write_byte copy_to alloc get_id read_byte
header_and_id-IsNumbered g t num h = (
  record { type = t; buf = pak_code t ∷ num ∷ [] },
  refl,
  (refl, record { rest = num ∷ []; parts = refl; size = h }, refl, refl),
)

pub new_q_nak-IsNumbered :
    (g : Garbage) (num : ℕ)
    → (p : QueuePacket) × (new_q_nak g num ≡ ok p) × IsNumbered PakType.nak num p
unfolding new_q_nak pak_size
new_q_nak-IsNumbered g num = header_and_id-IsNumbered g PakType.nak num refl

pub new_q_exit-IsNumbered :
    (g : Garbage) (num : ℕ)
    → (p : QueuePacket) × (new_q_exit g num ≡ ok p) × IsNumbered PakType.exit num p
unfolding new_q_exit pak_size
new_q_exit-IsNumbered g num = header_and_id-IsNumbered g PakType.exit num refl
