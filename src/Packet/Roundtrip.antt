-- ===== src/Packet/Roundtrip.antt =====
-- A packet that one end sends is the packet that the other end gets (packet.cpp).
use tin_serwer.Base.{
  ℕ, ◌+◌, ◌-◌, ◌%◌, ◌^◌, ◌≤◌, ◌<◌, ◌≡◌, ◌≢◌, refl, sym, ap, ◌∙◌, true, false, Option, none, some,
  List, [], ◌∷◌, ◌++◌, length, if◌then◌else◌, ltb, lt→ltb, arith, append_assoc, ok, ◌==◌,
  Bool-cases, inl, inr,
}
use tin_serwer.Bytes.{Garbage, alloc, read_byte, to_bytes}
use tin_serwer.Bytes.Laws.{copy_to-append, copy_from-append, length-alloc}
use tin_serwer.Socket.{count, Socket, Answer}
use tin_serwer.Socket.Ready.{Ready, Ready-mono}
use tin_serwer.Sesskey.{Evp}
use tin_serwer.Sesskey.Roundtrip.{IsCbc, sealed, length-sealed, encrypt-sealed, decrypt-sealed}
use tin_serwer.Packet.{Packet, PckType, pck_code, is_encrypted, copy_packet}
use tin_serwer.Packet.Send.{encrypted_len, send_encrypted, send_plain, send}
use tin_serwer.Packet.Factory.{
  type_of_byte, size_of, construct, make_packet, must_be_encrypted, expected_size, open_plain,
  open_body, read_rest, read_body, read_flagged, packet_factory,
}
use tin_serwer.Packet.Wire.{
  frame, length-frame, send_parts-Ready, read_till_done-front, packet_factory-frame,
}

-- A packet as its class makes it: the header, the size of the class, and a class that the factory
-- knows. The length leaves room for the padding and the vector in an `int`.
pub record IsWhole (p : Packet) : Type 0 where
  pub rest : List ℕ
  pub header : p.buf ≡ pck_code p.type ∷ rest
  pub known : p.type ≢ PckType.set
  pub size : size_of p.type (length p.buf) ≡ length p.buf
  pub small : length p.buf + 32 < 0x80000000

type_of_byte-pck_code : (t : PckType) → t ≢ PckType.set → type_of_byte (pck_code t) ≡ some t
unfolding type_of_byte pck_code
type_of_byte-pck_code PckType.set h = absurd (h refl)
type_of_byte-pck_code PckType.ack h = refl
type_of_byte-pck_code _ h = refl

must_be_encrypted-pck_code :
    (t : PckType) → is_encrypted t ≡ false → must_be_encrypted (pck_code t) ≡ false
unfolding must_be_encrypted is_encrypted pck_code
must_be_encrypted-pck_code PckType.chall h = refl
must_be_encrypted-pck_code PckType.ack h = cc
must_be_encrypted-pck_code _ h = first_of (cc, ground arith)

-- A buffer that begins with a whole packet is read back as that packet.
make_packet-whole :
    (p : Packet) (junk : List ℕ)
    → IsWhole p
    → make_packet (p.buf ++ junk) (length p.buf) ≡ ok (some p)
unfolding make_packet construct copy_packet read_byte
make_packet-whole p junk w =
    let first : read_byte (p.buf ++ junk) 0 ≡ ok (pck_code p.type) = rw w.header refl in
    rw (
      first,
      type_of_byte-pck_code p.type w.known,
      construct,
      w.size,
      copy_from-append [] p.buf junk,
    )

-- The length of an encrypted message is the one that both ends compute.
pub encrypted_len-small :
    (n : ℕ) → n + 32 < 0x80000000 → encrypted_len n ≡ ok (n + (16 - n % 16) + 16)
unfolding encrypted_len
encrypted_len-small n h =
    rw (lt→ltb n 0x80000000 (omega arith), lt→ltb (n + (16 - n % 16) + 16) 0x80000000 (omega arith))

module _ (evp : Evp) (key iv : List ℕ) (p : Packet) (c : IsCbc evp key iv p.buf) where
  -- The body on the wire, and the whole message.
  abbrev pub wire_body : List ℕ
  wire_body = if is_encrypted p.type then sealed evp key iv p.buf c else p.buf

  abbrev pub wire : List ℕ
  wire = frame (length p.buf) (is_encrypted p.type) wire_body

  whole-pos : IsWhole p → 0 < length p.buf
  whole-pos w = omega (arith, ap length w.header)

  sealed-pos : 0 < length (sealed evp key iv p.buf c)
  sealed-pos = omega (arith, length-sealed evp key iv p.buf c)

  send_encrypted-frame :
      (g : Garbage) (s : Socket)
      → IsWhole p
      → Ready (length (frame (length p.buf) true (sealed evp key iv p.buf c))) s.writes
      → (later : List Answer) × (send_encrypted evp (some iv) g (some key) p.buf s
          ≡ ok (
            count (length (sealed evp key iv p.buf c)),
            record s {
              outgoing = s.outgoing ++ frame (length p.buf) true (sealed evp key iv p.buf c);
              writes = later;
            },
          ))
  unfolding send_encrypted
  send_encrypted-frame g s w r =
      let n = length p.buf in
      let body = sealed evp key iv p.buf c in
      let (later, e, _) =
        send_parts-Ready n 0 true body s sealed-pos (Ready-mono _ _ s.writes (omega arith) r) in
      let room : length (alloc g (n + (16 - n % 16) + 16)) ≡ length body =
        length-alloc g _ ∙ sym (length-sealed evp key iv p.buf c) in
      (
        later,
        rw (
          encrypted_len-small n w.small,
          encrypt-sealed evp key iv p.buf c (alloc g (n + (16 - n % 16) + 16)) room,
          e,
        ),
      )

  wire_body-pos : IsWhole p → 0 < length wire_body
  wire_body-pos w = elim (Bool-cases (is_encrypted p.type)) [
    | inl e ↦ rw e sealed-pos
    | inr e ↦ rw e (whole-pos w)
  ]

  -- Sending a whole packet puts the message on the wire, and returns a number above 0.
  pub send-wire :
      (g : Garbage) (s : Socket)
      → IsWhole p
      → Ready (length wire) s.writes
      → (later : List Answer) × (send evp (some iv) g p (some key) s
          ≡ ok (
            count (length wire_body),
            record s { outgoing = s.outgoing ++ wire; writes = later },
          ))
  unfolding send send_plain
  send-wire g s w r = elim (Bool-cases (is_encrypted p.type)) [
    | inl e ↦ let (later, sent) = send_encrypted-frame g s w (rw e at r) in (later, rw e sent)
    | inr e ↦
        let (later, sent, _) =
          send_parts-Ready (length p.buf) 0 false p.buf s (whole-pos w)
            (Ready-mono _ _ s.writes (omega arith) (rw e at r)) in
        (later, rw e (ap ok sent))
  ]

  open_encrypted :
      (g : Garbage)
      → IsWhole p
      → open_body evp g (some key) (length p.buf) (sealed evp key iv p.buf c) ≡ ok (some p)
  unfolding open_body
  open_encrypted g w =
      let room : length p.buf ≤ length (alloc g ((length p.buf + 16) % 2 ^ 32)) =
        omega (arith, length-alloc g ((length p.buf + 16) % 2 ^ 32), w.small) in
      rw (decrypt-sealed evp key iv p.buf c (alloc g ((length p.buf + 16) % 2 ^ 32)) room)
        (make_packet-whole p _ w)

  open_decrypted :
      (g : Garbage)
      → IsWhole p
      → is_encrypted p.type ≡ false
      → open_body evp g none (length p.buf) p.buf ≡ ok (some p)
  unfolding open_body open_plain read_byte
  open_decrypted g w e =
      let memory = alloc g ((length p.buf + 16) % 2 ^ 32) in
      let room : length p.buf ≤ length memory =
        omega (arith, length-alloc g ((length p.buf + 16) % 2 ^ 32), w.small) in
      let first : read_byte p.buf 0 ≡ ok (pck_code p.type) = rw w.header in
      rw (first, must_be_encrypted-pck_code p.type e, copy_to-append [] memory p.buf room)
        (make_packet-whole p _ w)

  read_rest-body :
      (g : Garbage) (k : Option (List ℕ)) (n : ℕ) (body more : List ℕ) (r : Socket)
      → 0 < length body
      → r.incoming ≡ body ++ more
      → Ready (length body) r.reads
      → open_body evp g k n body ≡ ok (some p)
      → (r' : Socket) × (read_rest evp g k n r (length body) ≡ ok (some p, r'))
        × (r'.incoming ≡ more)
  unfolding read_rest
  read_rest-body g k n body more r pos e ready opened =
      let (later, got, _) =
        read_till_done-front (length body) 0 body more r refl e
          (Ready-mono _ _ r.reads (omega arith) ready) in
      let some_read : (length body == 0) ≡ false = ground arith in
      (record r { incoming = more; reads = later }, rw (got, read_rest, some_read, opened), refl)

  read_flagged-body :
      (g : Garbage) (more : List ℕ) (r : Socket)
      → IsWhole p
      → r.incoming ≡ wire_body ++ more
      → Ready (length wire_body) r.reads
      → (r' : Socket) × (read_flagged evp g
            (some key)
            (length p.buf)
            (if is_encrypted p.type then 1 else 0)
            r
          ≡ ok (some p, r'))
        × (r'.incoming ≡ more)
  unfolding read_flagged read_body expected_size
  read_flagged-body g more r w e ready = elim (Bool-cases (is_encrypted p.type)) [
    | inl h ↦
        let (r', got, left) =
          read_rest-body g (some key) (length p.buf) (sealed evp key iv p.buf c) more r sealed-pos
            (rw h at e) (rw h at ready) (open_encrypted g w) in
        (
          r',
          rw (h, encrypted_len-small (length p.buf) w.small, ← length-sealed evp key iv p.buf c)
              got,
          left,
        )
    | inr h ↦
        let (r', got, left) =
          read_rest-body g none (length p.buf) p.buf more r (whole-pos w) (rw h at e)
            (rw h at ready) (open_decrypted g w h) in
        let fits : ltb (length p.buf) 0x80000000 ≡ true = lt→ltb _ _ (omega (arith, w.small)) in
        (r', rw (h, fits) got, left)
  ]

  -- A whole packet that one end sends, the other end gets, if the EVP calls keep their promise on
  -- its buffer. The kernels may split the message anyhow, as long as each call moves something. The
  -- sender's call returns a number above 0 and appends the message to what it has sent; the
  -- receiver, which has the same session key, gets the same packet, and what comes behind it in
  -- its input is left. This holds for packets that are encrypted and for those that are not, and
  -- whatever the memory of the two ends holds.
  pub packet_factory-send :
      (g g' : Garbage) (more : List ℕ) (s r : Socket)
      → IsWhole p
      → Ready (length wire) s.writes
      → r.incoming ≡ wire ++ more
      → Ready (length wire) r.reads
      → ((n : ℕ) × (s' : Socket) × (send evp (some iv) g p (some key) s ≡ ok (count n, s'))
          × (0 < n)
          × (s'.outgoing ≡ s.outgoing ++ wire))
        × ((r' : Socket) × (packet_factory evp g' (some key) r ≡ ok (some p, r'))
            × (r'.incoming ≡ more))
  packet_factory-send g g' more s r w writes incoming reads =
      let (later, sent) = send-wire g s w writes in
      let size = length-frame (length p.buf) (is_encrypted p.type) wire_body in
      let flag : ℕ = if is_encrypted p.type then 1 else 0 in
      let whole : r.incoming ≡ frame (length p.buf) (is_encrypted p.type) (wire_body ++ more) =
        incoming ∙ append_assoc (to_bytes 4 (length p.buf)) (flag ∷ wire_body) more in
      let (l, e, ready) =
        packet_factory-frame evp g' (some key) (length p.buf) (length wire_body)
          (is_encrypted p.type) (wire_body ++ more) r (omega (arith, w.small)) whole
          (Ready-mono _ _ r.reads (omega arith) reads) in
      let (r', got, left) =
        read_flagged-body g' more (record r { incoming = wire_body ++ more; reads = l }) w refl
          ready in
      (
        (
          length wire_body,
          record s { outgoing = s.outgoing ++ wire; writes = later },
          sent,
          wire_body-pos w,
          refl,
        ),
        (r', e ∙ got, left),
      )
