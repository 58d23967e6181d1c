-- ===== src/Packet/Descriptions.antt =====
-- DESC of packet.cpp: what its constructor fills in, its getters read.
use tin_serwer.Base.{ℕ, ◌+◌, ◌^◌, ◌≤◌, ◌<◌, ◌≡◌, refl, List, [], ◌∷◌, length, ok, arith, le→leb}
use tin_serwer.Bytes.{Garbage, write_byte, read_byte}
use tin_serwer.Bytes.Filling.{alloc-Filled, copy_to-Filled, NoZero}
use tin_serwer.Float32.{Float32}
use tin_serwer.Packet.Layout.{
  described, describe-described, described-name, described-unit, described-min, described-max,
}
use tin_serwer.Packet.{Packet, PckType, new_desc, byte_1, get_name, get_unit, get_min, get_max}

-- From a unit of at most three characters, texts without a zero and 32-bit floats, the constructor
-- makes a packet from which the getters read back the class 0, the name, the unit and the bounds;
-- what fresh memory holds is no matter.
pub new_desc-getters :
    (g g' : Garbage) (name unit : List ℕ) (min max : Float32)
    → length unit ≤ 3
    → NoZero name
    → NoZero unit
    → min < 2 ^ 32
    → max < 2 ^ 32
    → (p : Packet) × (new_desc g g' name unit min max ≡ ok p)
      × (p.type ≡ PckType.desc)
      × (byte_1 p ≡ ok 0)
      × (get_name p ≡ ok name)
      × (get_unit p ≡ ok unit)
      × (get_min p ≡ ok min)
      × (get_max p ≡ ok max)
unfolding new_desc write_byte byte_1 get_name get_unit get_min get_max read_byte
new_desc-getters g g' name unit min max small hn hu h h' =
    let header = 0x07 ∷ 0x00 ∷ [] in
    let n = length name + 15 in
    let (b1, e1, f1) =
      copy_to-Filled [] n (length name + 14) 0 _ (0x07 ∷ []) (alloc-Filled g n) (omega arith)
        refl in
    let (b2, e2, f2) =
      copy_to-Filled _ _ (length name + 13) 1 b1 (0x00 ∷ []) f1 (omega arith) refl in
    (
      record { type = PckType.desc; buf = described g' header name unit min max },
      rw (le→leb _ _ small, e1, e2)
          (describe-described g' header name unit min max 2 b2
            (λ buf. ok (record { type = PckType.desc; buf = buf })) f2 refl),
      refl,
      refl,
      described-name g' header name unit min max hn,
      described-unit g' header name unit min max small hu,
      described-min g' header name unit min max h,
      described-max g' header name unit min max h',
    )
