-- ===== src/QueuePacket/Descriptions.antt =====
-- Q_DESC of queuePacket.cpp: what its constructor fills in, its getters read.
use tin_serwer.Base.{
  ℕ, ◌+◌, ◌^◌, ◌≤◌, ◌<◌, ◌≡◌, refl, List, [], ◌∷◌, length, ok, fault, double_free, arith, le→leb,
  lt→leb,
}
use tin_serwer.Bytes.{Garbage, write_byte, read_byte}
use tin_serwer.Bytes.Filling.{alloc-Filled, copy_to-Filled, NoZero}
use tin_serwer.Float32.{Float32}
use tin_serwer.Packet.Layout.{
  described, length-described, describe-described, described-name, described-unit, described-min,
  described-max,
}
use tin_serwer.QueuePacket.Delivery.{IsWhole}
use tin_serwer.QueuePacket.Queue.{pak_size}
use tin_serwer.QueuePacket.{
  pak_code, QueuePacket, PakType, new_q_desc, get_id, get_device_class, get_name, get_unit, get_min,
  get_max,
}

-- From a unit of at most three characters, texts without a zero and 32-bit floats, the constructor
-- makes a whole packet of 16 bytes more than the name, from which the getters read back the
-- number, the class, the name, the unit and the bounds; what fresh memory holds is no matter.
pub new_q_desc-getters :
    (g g' : Garbage) (dev_id dev_class : ℕ) (name unit : List ℕ) (min max : Float32)
    → length unit ≤ 3
    → NoZero name
    → NoZero unit
    → min < 2 ^ 32
    → max < 2 ^ 32
    → (p : QueuePacket) × (new_q_desc g g' dev_id dev_class name unit min max ≡ ok p)
      × (p.type ≡ PakType.desc)
      × IsWhole p
      × (length p.buf ≡ length name + 16)
      × (get_id p ≡ ok dev_id)
      × (get_device_class p ≡ ok dev_class)
      × (get_name p ≡ ok name)
      × (get_unit p ≡ ok unit)
      × (get_min p ≡ ok min)
      × (get_max p ≡ ok max)
unfolding new_q_desc write_byte get_id get_device_class get_name get_unit get_min get_max read_byte
    pak_code pak_size
new_q_desc-getters g g' dev_id dev_class name unit min max small hn hu h h' =
    let header = 0x14 ∷ dev_id ∷ dev_class ∷ [] in
    let n = length name + 16 in
    let (b1, e1, f1) =
      copy_to-Filled [] n (length name + 15) 0 _ (0x14 ∷ []) (alloc-Filled g n) (omega arith)
        refl in
    let (b2, e2, f2) =
      copy_to-Filled _ _ (length name + 14) 1 b1 (dev_id ∷ []) f1 (omega arith) refl in
    let (b3, e3, f3) =
      copy_to-Filled _ _ (length name + 13) 2 b2 (dev_class ∷ []) f2 (omega arith) refl in
    (
      record { type = PakType.desc; buf = described g' header name unit min max },
      rw (le→leb _ _ small, e1, e2, e3)
          (describe-described g' header name unit min max 3 b3
            (λ buf. ok (record { type = PakType.desc; buf = buf })) f3 refl),
      refl,
      record { rest = _; parts = refl; size = refl },
      length-described g' header name unit min max,
      refl,
      refl,
      described-name g' header name unit min max hn,
      described-unit g' header name unit min max small hu,
      described-min g' header name unit min max h,
      described-max g' header name unit min max h',
    )

-- A unit of more than three characters makes the constructor's buffer be freed twice.
pub new_q_desc_long_unit :
    (g g' : Garbage) (dev_id dev_class : ℕ) (name unit : List ℕ) (min max : Float32)
    → 3 < length unit
    → new_q_desc g g' dev_id dev_class name unit min max ≡ fault double_free
unfolding new_q_desc
new_q_desc_long_unit g g' dev_id dev_class name unit min max h = rw (lt→leb _ _ h)
