-- ===== src/Receiver/Scopes.antt =====
-- What a receiver gets before and after the scope of its session key is left (Receiver.cpp).
use tin_serwer.Base.{
  ℕ, ◌+◌, ◌≡◌, refl, sym, ◌∙◌, true, false, some, List, ◌∷◌, ◌++◌, length, if◌then◌else◌, ◌==◌, ok,
  fault, dangling_pointer, arith, Bool-cases, inl, inr, append_assoc,
}
use tin_serwer.Bytes.{Garbage, to_bytes}
use tin_serwer.Socket.{Socket}
use tin_serwer.Socket.Ready.{Ready, Ready-mono}
use tin_serwer.Sesskey.{Evp}
use tin_serwer.Sesskey.Roundtrip.{IsCbc, sealed, length-sealed}
use tin_serwer.Packet.{Packet, is_encrypted}
use tin_serwer.Packet.Factory.{expected_size, read_flagged, packet_factory}
use tin_serwer.Packet.Wire.{frame, length-frame, read_header-frame, read_till_done-front}
use tin_serwer.Packet.Roundtrip.{IsWhole, wire, encrypted_len-small, packet_factory-send}
use tin_serwer.Receiver.{
  Receiver, key_at, gone, add_sesskey, leave_scope, read_flagged_gone, receive, next_packet,
}

module _ (evp : Evp) (key iv : List ℕ) (p : Packet) (c : IsCbc evp key iv p.buf) (g : Garbage)
    (more : List ℕ) (r : Receiver) where
  -- A message in plain text is read as if the key were there: the pointer is not used.
  plain_same :
      IsWhole p
      → r.soc.incoming ≡ wire evp key iv p c ++ more
      → Ready (length (wire evp key iv p c)) r.soc.reads
      → is_encrypted p.type ≡ false
      → receive evp g gone r.soc ≡ receive evp g (key_at key) r.soc
  unfolding receive read_flagged_gone read_flagged packet_factory
  plain_same w incoming reads plain =
      let n = length p.buf in
      let whole : r.soc.incoming ≡ frame n false (p.buf ++ more) =
        incoming ∙ rw plain (append_assoc (to_bytes 4 n) (0 ∷ p.buf) more) in
      let ready : Ready (5 + n) r.soc.reads =
        Ready-mono _ _ r.soc.reads (rw plain (omega (arith, length-frame n false p.buf))) reads in
      let (later, read, left) =
        read_header-frame n n false (p.buf ++ more) r.soc (omega (arith, w.small)) whole ready in
      read (read_flagged_gone evp g) ∙ sym (read (read_flagged evp g (some key)))

  in_scope :
      IsWhole p
      → r.soc.incoming ≡ wire evp key iv p c ++ more
      → Ready (length (wire evp key iv p c)) r.soc.reads
      → (soc : Socket) × (receive evp g (key_at key) r.soc ≡ ok (some p, soc))
        × (soc.incoming ≡ more)
  unfolding receive
  in_scope w incoming reads =
      let (_, (soc, got, left)) =
        packet_factory-send evp key iv p c g g more (record r.soc { writes = r.soc.reads }) r.soc w
          reads incoming reads in
      (soc, got, left)

  out_of_scope :
      IsWhole p
      → r.soc.incoming ≡ wire evp key iv p c ++ more
      → Ready (length (wire evp key iv p c)) r.soc.reads
      → is_encrypted p.type ≡ true
      → next_packet evp g (leave_scope (add_sesskey key r)) ≡ fault dangling_pointer
  unfolding next_packet add_sesskey leave_scope receive read_flagged_gone expected_size
  out_of_scope w incoming reads encrypted =
      let n = length p.buf in
      let body = sealed evp key iv p.buf c in
      let size = length-sealed evp key iv p.buf c in
      let whole : r.soc.incoming ≡ frame n true (body ++ more) =
        incoming ∙ rw encrypted (append_assoc (to_bytes 4 n) (1 ∷ body) more) in
      let ready : Ready (5 + length body) r.soc.reads =
        Ready-mono _ _ r.soc.reads (rw encrypted (omega (arith, length-frame n true body))) reads in
      let (later, read, left) =
        read_header-frame n (length body) true (body ++ more) r.soc (omega (arith, w.small)) whole
          ready in
      let (later2, got, _) =
        read_till_done-front (length body) 0 body more
          (record r.soc { incoming = body ++ more; reads = later }) refl refl
          (Ready-mono _ _ later (omega arith) left) in
      let pos : (length body == 0) ≡ false = ground (arith, size) in
      rw (read (read_flagged_gone evp g), encrypted_len-small n w.small, ← size, got, pos) refl

  -- A whole packet comes in over a connection whose receiver was given a session key. While the key
  -- is in scope `nextPacket` gets the packet, encrypted or not, and leaves the rest of the input.
  -- After the scope was left, as when `tryDataExchange` has returned false and the handler goes on
  -- with `registration`, a packet that is not encrypted is still got, but one that is makes it use
  -- the key that is gone.
  pub next_packet_scopes :
      IsWhole p
      → r.soc.incoming ≡ wire evp key iv p c ++ more
      → Ready (length (wire evp key iv p c)) r.soc.reads
      → (soc : Socket) × (soc.incoming ≡ more)
        × (next_packet evp g (add_sesskey key r)
            ≡ ok (record r { sesskey = key_at key; curr = some p; soc = soc }))
        × (next_packet evp g (leave_scope (add_sesskey key r)) ≡ (
            if is_encrypted p.type
            then fault dangling_pointer
            else ok (record r { sesskey = gone; curr = some p; soc = soc })))
  unfolding next_packet add_sesskey leave_scope
  next_packet_scopes w incoming reads =
      let (soc, got, left) = in_scope w incoming reads in
      (
        soc,
        left,
        rw got refl,
        elim (Bool-cases (is_encrypted p.type)) [
          | inl encrypted ↦ rw encrypted (out_of_scope w incoming reads encrypted)
          | inr plain ↦ rw (plain, plain_same w incoming reads plain, got) refl
        ],
      )
