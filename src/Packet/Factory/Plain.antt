-- ===== src/Packet/Factory/Plain.antt =====
-- What `packetFactory` (packet.cpp) accepts without encryption.
use tin_serwer.Base.{
  ℕ, zero, suc, ◌+◌, ◌%◌, ◌^◌, ◌≡◌, refl, sym, ap, ◌∙◌, ◌⊎◌, inl, inr, false, Option, none, some,
  List, [], ◌∷◌, ◌++◌, length, get_elem?, ◌==◌, arith, Bool-cases, ok, >>=-eq-ok,
}
use tin_serwer.Bytes.{Garbage, alloc, copy_to, read_byte, from_bytes}
use tin_serwer.Socket.{below_one, Socket, read_till_done}
use tin_serwer.Socket.Reads.{read_till_done-Reads}
use tin_serwer.Sesskey.{Evp}
use tin_serwer.Packet.{Packet, PckType, copy_packet, is_encrypted}
use tin_serwer.Packet.Factory.{
  type_of_byte, size_of, construct, make_packet, must_be_encrypted, expected_size, open_plain,
  open_body, read_rest, read_body, read_flagged, packet_factory,
}

-- A header that may come in plain text makes a packet of a plain class.
plain_type :
    (b : ℕ) (t : PckType)
    → must_be_encrypted b ≡ false
    → type_of_byte b ≡ some t
    → is_encrypted t ≡ false
unfolding must_be_encrypted type_of_byte is_encrypted
plain_type b t h e = ground arith

copy_packet-type :
    (t : PckType) (buf : List ℕ) (n : ℕ) (p : Packet) → copy_packet t buf n ≡ ok p → p.type ≡ t
unfolding copy_packet
copy_packet-type t buf n p e = ground arith

construct-type :
    (buf : List ℕ) (n : ℕ) (o : Option PckType) (p : Packet)
    → construct buf n o ≡ ok (some p)
    → o ≡ some p.type
unfolding construct
construct-type buf n none p e = cc
construct-type buf n (some t) p e =
    let (q, copied, same) = >>=-eq-ok (copy_packet t buf (size_of t n)) (λ q. ok (some q)) e in
    ground (arith, copy_packet-type t buf (size_of t n) q copied)

-- The class of the packet is the one that the first byte of the buffer names.
pub make_packet-type :
    (buf : List ℕ) (n : ℕ) (p : Packet)
    → make_packet buf n ≡ ok (some p)
    → (b : ℕ) × (read_byte buf 0 ≡ ok b) × (type_of_byte b ≡ some p.type)
unfolding make_packet
make_packet-type buf n p e =
    let (b, r, rest) = >>=-eq-ok (read_byte buf 0) _ e in
    (b, r, construct-type buf n (type_of_byte b) p rest)

read_byte-copy_to :
    (buf src new_buf : List ℕ) (b : ℕ)
    → read_byte src 0 ≡ ok b
    → copy_to buf 0 src ≡ ok new_buf
    → read_byte new_buf 0 ≡ ok b
unfolding read_byte copy_to
read_byte-copy_to buf [] new_buf b h e = cc
read_byte-copy_to buf (x ∷ src) new_buf b h e = ground arith

open_plain_plain :
    (g : Garbage) (n b : ℕ) (body : List ℕ) (p : Packet)
    → read_byte body 0 ≡ ok b
    → open_plain g n body b ≡ ok (some p)
    → is_encrypted p.type ≡ false
unfolding open_plain
open_plain_plain g n b body p r e = elim (Bool-cases (must_be_encrypted b)) [
  | inl h ↦ ground arith
  | inr h ↦
      let (new_buf, copied, made) =
        >>=-eq-ok (copy_to (alloc g ((n + 16) % 2 ^ 32)) 0 body) (λ new_buf. make_packet new_buf n)
          (rw h at e) in
      let (c, r', t) = make_packet-type new_buf n p made in
      plain_type b p.type h
        (ground (arith, read_byte-copy_to (alloc g ((n + 16) % 2 ^ 32)) body new_buf b r copied))
]

read_rest_plain :
    (evp : Evp) (g : Garbage) (n size : ℕ) (s s' : Socket) (p : Packet)
    → read_rest evp g none n s size ≡ ok (some p, s')
    → is_encrypted p.type ≡ false
unfolding read_rest open_body
read_rest_plain evp g n size s s' p e =
    let (ret, body, after) = read_till_done size s in
    elim (Bool-cases (below_one ret)) [
      | inl h ↦ ground arith
      | inr h ↦
          let (o, opened, same) =
            >>=-eq-ok (open_body evp g none n body) (λ o. ok (o, after)) (rw h at e) in
          let some_p : o ≡ some p = ground arith in
          let (b, r, rest) = >>=-eq-ok (read_byte body 0) _ opened in
          open_plain_plain g n b body p r (rest ∙ ap ok some_p)
    ]

read_body_plain :
    (evp : Evp) (g : Garbage) (n : ℕ) (s s' : Socket) (p : Packet)
    → read_body evp g none n s ≡ ok (some p, s')
    → is_encrypted p.type ≡ false
unfolding read_body
read_body_plain evp g n s s' p e =
    let (size, _, rest) = >>=-eq-ok (expected_size false n) (read_rest evp g none n s) e in
    read_rest_plain evp g n size s s' p rest

read_flagged_plain :
    (evp : Evp) (g : Garbage) (sesskey : Option (List ℕ)) (n flag : ℕ) (s s' : Socket) (p : Packet)
    → (sesskey ≡ none) ⊎ (flag ≡ 0)
    → read_flagged evp g sesskey n flag s ≡ ok (some p, s')
    → is_encrypted p.type ≡ false
unfolding read_flagged
read_flagged_plain evp g sesskey n flag s s' p h e = elim (Bool-cases (flag == 0)) [
  | inl plain ↦ read_body_plain evp g n s s' p (rw plain at e)
  | inr marked ↦ ground arith
]

get_elem?-behind :
    (xs ys : List ℕ) (n : ℕ) → length xs ≡ n → get_elem? (xs ++ ys) n ≡ get_elem? ys 0
get_elem?-behind [] ys zero h = refl
get_elem?-behind [] ys (suc n) h = absurd (omega arith)
get_elem?-behind (x ∷ xs) ys zero h = absurd (omega arith)
get_elem?-behind (x ∷ xs) ys (suc n) h = get_elem?-behind xs ys n (omega arith)

-- The byte behind a read of 4 and a read of 1.
fifth_byte :
    (four one rest all : List ℕ) (b : ℕ)
    → length four ≡ 4
    → length one ≡ 1
    → four ++ (one ++ rest) ≡ all
    → get_elem? all 4 ≡ some b
    → from_bytes one ≡ b
unfolding from_bytes
fifth_byte four [] rest all b l l' e h = absurd (omega arith)
fifth_byte four (c ∷ []) rest all b l l' e h =
    let found = get_elem?-behind four (c ∷ rest) 4 l in
    let same : some c ≡ some b = sym found ∙ (ap (λ xs. get_elem? xs 4) e ∙ h) in ground arith
fifth_byte four (c ∷ d ∷ more) rest all b l l' e h = absurd (omega arith)

flag_of : {A B C : Type 0} → A ⊎ B → (B → C) → A ⊎ C
flag_of (inl a) f = inl a
flag_of (inr b) f = inr (f b)

-- A packet that comes while there is no session key, or whose fifth byte, the flag, is 0, is of a
-- class that may travel in plain text: never an ACK, NAK, EOT, DESC, VAL, SET or EXIT.
pub packet_factory_plain :
    (evp : Evp) (g : Garbage) (sesskey : Option (List ℕ)) (s s' : Socket) (p : Packet)
    → packet_factory evp g sesskey s ≡ ok (some p, s')
    → (sesskey ≡ none) ⊎ (get_elem? s.incoming 4 ≡ some 0)
    → is_encrypted p.type ≡ false
unfolding packet_factory
packet_factory_plain evp g sesskey s s' p e h =
    let (ret, four, s1) = read_till_done 4 s in
    let (ret1, one, s2) = read_till_done 1 s1 in
    let (kept, whole) = read_till_done-Reads 4 s in
    let (kept1, whole1) = read_till_done-Reads 1 s1 in
    elim (Bool-cases (below_one ret)) [
      | inl bad ↦ ground arith
      | inr good ↦ elim (Bool-cases (below_one ret1)) [
        | inl bad ↦ ground arith
        | inr good1 ↦
            let (_, l) = whole good in
            let (_, l1) = whole1 good1 in
            let all = ap (◌++◌ four) kept1 ∙ kept in
            read_flagged_plain evp g sesskey (from_bytes four) (from_bytes one) s2 s' p
              (flag_of h (fifth_byte four one s2.incoming s.incoming 0 l l1 all))
              (rw (good, good1) at e)
      ]
    ]
