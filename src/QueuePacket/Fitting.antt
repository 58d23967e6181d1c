-- ===== src/QueuePacket/Fitting.antt =====
-- What `packetFromQueue` (queuePacket.cpp) makes of a message that its arrays have room for.
use tin_serwer.Base.{
  ℕ, ◌+◌, ◌≤◌, ◌<◌, ◌≡◌, refl, Option, none, some, List, [], ◌∷◌, ◌++◌, length, take, drop, Outcome,
  ok, fault, ◌>>=◌, indeterminate, Bool-cases, inl, inr, ◌⊎◌, arith, length-append, length-drop,
  length-take, le→leb,
}
use tin_serwer.Bytes.{Garbage, alloc, copy_to, copy_from, read_byte}
use tin_serwer.Bytes.Laws.{copy_to-append, length-alloc}
use tin_serwer.Socket.{Ret, below_one}
use tin_serwer.QueuePacket.{QueuePacket, PakType, copy_queue_packet}
use tin_serwer.QueuePacket.Queue.{pak_of_byte, pak_size, construct_pak, packet_from_queue}

-- The code ends well, or with an indeterminate pointer.
abbrev pub EndsOrStrays {ℓ} : {A : Type ℓ} → Outcome A → Type ℓ
EndsOrStrays {A = A} m = ((a : A) × (m ≡ ok a)) ⊎ (m ≡ fault indeterminate)

filled :
    (g : Garbage) (bytes : List ℕ)
    → length bytes ≤ 256
    → (buf : List ℕ) × (copy_to (alloc g 256) 0 bytes ≡ ok buf) × (length buf ≡ 256)
filled g bytes le =
    let size = length-alloc g 256 in
    (
      bytes ++ drop (length bytes) (alloc g 256),
      copy_to-append [] (alloc g 256) bytes (omega (arith, le, size)),
      omega (
        arith,
        length-append bytes (drop (length bytes) (alloc g 256)),
        length-drop (length bytes) (alloc g 256),
        le,
        size,
      ),
    )

copied_out : (buf : List ℕ) (n : ℕ) → n ≤ length buf → copy_from buf 0 n ≡ ok (take n buf)
unfolding copy_from
copied_out buf n le = rw (le→leb (0 + n) (length buf) (omega (arith, le))) refl

first_byte : (buf : List ℕ) → 0 < length buf → (b : ℕ) × (read_byte buf 0 ≡ ok b)
unfolding read_byte
first_byte [] lt = absurd (omega arith)
first_byte (b ∷ buf) lt = (b, refl)

pak_size-le : (t : PakType) (n : ℕ) → n ≤ 256 → pak_size t n ≤ 256
unfolding pak_size
pak_size-le PakType.desc n le = le
pak_size-le PakType.nak n le = omega arith
pak_size-le PakType.eot n le = omega arith
pak_size-le PakType.val n le = omega arith
pak_size-le PakType.get n le = omega arith
pak_size-le PakType.set n le = omega arith
pak_size-le PakType.exit n le = omega arith

made :
    (buf : List ℕ) (n : ℕ) (t : Option PakType)
    → n ≤ 256
    → length buf ≡ 256
    → EndsOrStrays (construct_pak buf n t >>= λ p. ok (some p))
unfolding construct_pak copy_queue_packet
made buf n none le size = inr refl
made buf n (some t) le size =
    rw (copied_out buf (pak_size t n) (omega (arith, size, pak_size-le t n le))) (inl (_, refl))

received :
    (g g' : Garbage) (bytes : List ℕ)
    → length bytes ≤ 256
    → EndsOrStrays {A = Option QueuePacket} (do
      bufor ← copy_to (alloc g 256) 0 bytes
      read ← copy_from bufor 0 (length bytes)
      bufor_unsigned ← copy_to (alloc g' 256) 0 read
      b ← read_byte bufor_unsigned 0
      p ← construct_pak bufor_unsigned (length bytes) (pak_of_byte b)
      ok (some p))
received g g' bytes le =
    let (bufor, e1, size1) = filled g bytes le in
    let e2 = copied_out bufor (length bytes) (omega (arith, le, size1)) in
    let (bufor', e3, size3) =
      filled g' (take (length bytes) bufor)
        (omega (arith, length-take (length bytes) bufor, size1, le)) in
    let (b, e4) = first_byte bufor' (omega (arith, size3)) in
    rw (e1, e2, e3, e4) (made bufor' (length bytes) (pak_of_byte b) le size3)

-- With a message of at most 256 bytes `packetFromQueue` never copies out of bounds, whatever
-- `readToCharArray` returned and whatever the bytes are: it comes to its end, or, for a header that
-- it does not know, returns an indeterminate pointer.
pub packet_from_queue-EndsOrStrays :
    (g g' : Garbage) (ret : Ret) (bytes : List ℕ)
    → length bytes ≤ 256
    → EndsOrStrays (packet_from_queue g g' ret bytes)
unfolding packet_from_queue
packet_from_queue-EndsOrStrays g g' ret bytes le = elim (Bool-cases (below_one ret)) [
  | inl fails ↦ rw fails (inl (none, refl))
  | inr reads ↦ rw reads (received g g' bytes le)
]
