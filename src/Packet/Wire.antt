-- ===== src/Packet/Wire.antt =====
-- A packet over the wire (packet.cpp): what `send` writes, `packetFactory` reads back.
use tin_serwer.Base.{
  Outcome, ℕ, ◌+◌, ◌^◌, ◌<◌, ◌≡◌, refl, ap, ◌∙◌, Bool, Option, List, [], ◌∷◌, ◌++◌, length, take,
  drop, if◌then◌else◌, arith, append_assoc, length-append,
}
use tin_serwer.Bytes.{Garbage, to_bytes, from_bytes}
use tin_serwer.Bytes.Laws.{take-append, drop-append, length-to_bytes, from_bytes-to_bytes}
use tin_serwer.Socket.{count, Socket, Answer, read_till_done}
use tin_serwer.Socket.Ready.{Ready, Ready-mono}
use tin_serwer.Socket.Reads.{read_till_done-Ready}
use tin_serwer.Socket.Writes.{write_till_done-Ready}
use tin_serwer.Sesskey.{Evp}
use tin_serwer.Packet.Send.{send_parts}
use tin_serwer.Packet.{Packet}
use tin_serwer.Packet.Factory.{read_header, read_flagged, packet_factory}

-- What goes over the wire: the length in four bytes, the flag in one, and the body.
abbrev pub frame : ℕ → Bool → List ℕ → List ℕ
frame n flag body = to_bytes 4 n ++ ((if flag then 1 else 0) ∷ body)

pub length-frame :
    (n : ℕ) (flag : Bool) (body : List ℕ) → length (frame n flag body) ≡ 5 + length body
unfolding to_bytes
length-frame n flag body = omega arith

-- If the kernel takes part of the bytes in each call, the whole frame goes out.
pub send_parts-Ready :
    (n m : ℕ) (flag : Bool) (body : List ℕ) (s : Socket)
    → 0 < length body
    → Ready (length (frame n flag body) + m) s.writes
    → (later : List Answer) × (send_parts n flag body s ≡ (
      count (length body),
      record s { outgoing = s.outgoing ++ frame n flag body; writes = later },
    ))
      × Ready m later
unfolding send_parts
send_parts-Ready n m flag body s h r =
    let size = length-frame n flag body in
    let f : ℕ = if flag then 1 else 0 in
    let w1 =
      Ready-mono _ (length (frame n flag body) + m) s.writes (omega (arith, length-to_bytes 4 n))
        r in
    let (l1, e1, r1) = write_till_done-Ready (to_bytes 4 n) (1 + (length body + m)) s w1 in
    let s1 : Socket = record s { outgoing = s.outgoing ++ to_bytes 4 n; writes = l1 } in
    let (l2, e2, r2) = write_till_done-Ready (f ∷ []) (length body + m) s1 r1 in
    let s2 : Socket = record s1 { outgoing = s1.outgoing ++ f ∷ []; writes = l2 } in
    let (l3, e3, r3) = write_till_done-Ready body m s2 r2 in
    let sent : ((s.outgoing ++ to_bytes 4 n) ++ f ∷ []) ++ body ≡ s.outgoing ++ frame n flag body =
      simp append_assoc in
    (l3, rw (e1, length-to_bytes, send_parts, e2, e3, sent), r3)

pub read_till_done-front :
    (k m : ℕ) (front rest : List ℕ) (r : Socket)
    → length front ≡ k
    → r.incoming ≡ front ++ rest
    → Ready (k + m) r.reads
    → (later : List Answer) × (read_till_done k r
        ≡ (count k, front, record r { incoming = rest; reads = later }))
      × Ready m later
read_till_done-front k m front rest r l e ready =
    let (later, got, left) =
      read_till_done-Ready k m r ready (omega (arith, ap length e, length-append front rest)) in
    let taken : take k r.incoming ≡ front = rw (e, ← l) (take-append front rest) in
    let dropped : drop k r.incoming ≡ rest = rw (e, ← l) (drop-append front rest) in
    (later, got ∙ rw (taken, dropped), left)

from_bytes-byte : (b : ℕ) → from_bytes (b ∷ []) ≡ b
unfolding from_bytes
from_bytes-byte b = omega arith

-- If the kernel brings part of the bytes in each call, the factory gets at the length, the flag and
-- the rest of the frame.
pub read_header-frame :
    (n m : ℕ) (flag : Bool) (body : List ℕ) (r : Socket)
    → n < 2 ^ 32
    → r.incoming ≡ frame n flag body
    → Ready (5 + m) r.reads
    → (later : List Answer) × ((flagged : ℕ → ℕ → Socket → Outcome (Option Packet × Socket))
        → read_header flagged r
          ≡ flagged n (if flag then 1 else 0) (record r { incoming = body; reads = later }))
      × Ready m later
unfolding read_header
read_header-frame n m flag body r small e ready =
    let f : ℕ = if flag then 1 else 0 in
    let (l1, e1, r1) =
      read_till_done-front 4 (1 + m) (to_bytes 4 n) (f ∷ body) r (length-to_bytes 4 n) e
        (Ready-mono _ (5 + m) r.reads (omega arith) ready) in
    let s1 : Socket = record r { incoming = f ∷ body; reads = l1 } in
    let (l2, e2, r2) = read_till_done-front 1 m (f ∷ []) body s1 refl refl r1 in
    (l2, λ flagged. rw (e1, read_header, e2, from_bytes-to_bytes 4 n small, from_bytes-byte f), r2)

pub packet_factory-frame :
    (evp : Evp) (g : Garbage) (sesskey : Option (List ℕ)) (n m : ℕ) (flag : Bool) (body : List ℕ)
    (r : Socket)
    → n < 2 ^ 32
    → r.incoming ≡ frame n flag body
    → Ready (5 + m) r.reads
    → (later : List Answer) × (packet_factory evp g sesskey r
        ≡ read_flagged evp g sesskey n
            (if flag then 1 else 0)
            (record r { incoming = body; reads = later }))
      × Ready m later
unfolding packet_factory
packet_factory-frame evp g sesskey n m flag body r small e ready =
    let (later, read, left) = read_header-frame n m flag body r small e ready in
    (later, read (read_flagged evp g sesskey), left)
