-- ===== src/ClientMock/Handshake.antt =====
-- The client of ClientMock.h against the server of client.cpp.
use tin_serwer.Base.{
  ℕ, ◌+◌, ◌≤◌, ◌<◌, ◌^◌, ◌≡◌, refl, ap, ◌∙◌, subst, Bool, true, false, not, Option, none, some,
  List, [], ◌∷◌, length, Outcome, ok, ◌>>=◌, arith, append-nil,
}
use tin_serwer.Bytes.{Garbage, alloc, copy_to, copy_from, write_byte}
use tin_serwer.Bytes.Laws.{copy_to-append, copy_from-append, length-alloc, drop_past}
use tin_serwer.Bytes.Filling.{alloc-Filled, copy_to-Filled, Filled-all, NoZero}
use tin_serwer.Float32.{Float32}
use tin_serwer.Socket.{below_one}
use tin_serwer.Sesskey.{Evp}
use tin_serwer.Keys.{Pubkey, Privkey, sign, verify_sign}
use tin_serwer.Packet.{
  Packet, PckType, pck_code, body_of, create_from, copy_packet, chall_from_random,
  chall_resp_from_encrypted, new_desc,
}
use tin_serwer.Packet.Descriptions.{new_desc-getters}
use tin_serwer.Link.{Link, stopped, next_packet, send_on}
use tin_serwer.Service.{ServiceType, input, new_input, new_common, service_factory}
use tin_serwer.Client.Registering.{make_service}
use tin_serwer.Client.Sessions.{Crypto, check_response}
use tin_serwer.ClientMock.{sign_answer, verify_against_server}

-- A packet made of as many bytes as the caller has.
abbrev pub packet_of : PckType → List ℕ → Packet
packet_of t src = record { type = t; buf = pck_code t ∷ src }

all_copied : (src : List ℕ) (n : ℕ) → length src ≡ n → copy_from src 0 n ≡ ok src
all_copied src n e =
    subst (λ k. copy_from src 0 k ≡ ok src) e
      (subst (λ xs. copy_from xs 0 (length src) ≡ ok src) (append-nil src)
        (copy_from-append [] src []))

create_from-packet_of :
    (g : Garbage) (t : PckType) (n : ℕ) (src : List ℕ)
    → length src ≡ n
    → create_from g t n src ≡ ok (packet_of t src)
unfolding create_from write_byte copy_packet
create_from-packet_of g t n src e =
    let (b1, e1, f1) =
      copy_to-Filled [] (n + 1) n 0 _ (pck_code t ∷ []) (alloc-Filled g (n + 1)) (omega arith)
        refl in
    let (b2, e2, f2) = copy_to-Filled _ n 0 1 b1 src f1 (omega (arith, e)) refl in
    let is = Filled-all _ b2 f2 in
    rw (e1, all_copied src n e, e2, is, all_copied (pck_code t ∷ src) (n + 1) (omega (arith, e)))
      refl

body_of-packet_of :
    (t : PckType) (src : List ℕ) (n : ℕ) → length src ≡ n → body_of (packet_of t src) n ≡ ok src
unfolding body_of
body_of-packet_of t src n e =
    subst (λ k. copy_from (pck_code t ∷ src) 1 k ≡ ok src) e
      (subst (λ xs. copy_from (pck_code t ∷ xs) 1 (length src) ≡ ok src) (append-nil src)
        (copy_from-append (pck_code t ∷ []) src []))

signed_by :
    (signed : Option (List ℕ)) (buf signature : List ℕ)
    → copy_to buf 0 signature ≡ ok signature
    → signed ≡ some signature
    → ◌≡◌ {A = Outcome (Bool × List ℕ)}
        (elim signed [
          | none ↦ ok (false, buf)
          | some out ↦ copy_to buf 0 out >>= λ buf. ok (true, buf)
        ])
        (ok (true, signature))
signed_by none buf signature copied e = cc
signed_by (some out) buf signature copied e = let is : out ≡ signature = cc in rw (is, copied) refl

sign-ok :
    (sha1 : List ℕ → List ℕ) (key : Privkey) (g : Garbage) (text signature : List ℕ)
    → length signature ≡ 256
    → key.rsa_sign (sha1 text) ≡ some signature
    → sign sha1 key text (alloc g 256) ≡ ok (true, signature)
unfolding sign
sign-ok sha1 key g text signature len signs =
    let size = length-alloc g 256 in
    let copied = copy_to-append [] (alloc g 256) signature (omega (arith, len, size)) in
    let none_left = drop_past (length signature) (alloc g 256) (omega (arith, len, size)) in
    signed_by (key.rsa_sign (sha1 text)) (alloc g 256) signature
      (copied ∙ rw (none_left, append-nil signature) refl) signs

verify_sign-true :
    (sha1 : List ℕ → List ℕ) (key : Pubkey) (text signature digest : List ℕ)
    → sha1 text ≡ digest
    → key.rsa_verify digest signature ≡ true
    → verify_sign sha1 key text signature ≡ true
unfolding verify_sign
verify_sign-true sha1 key text signature digest same verifies =
    ap (λ d. key.rsa_verify d signature) same ∙ verifies

module _ (mock server : Crypto) (pubkey : Pubkey) (random signature : List ℕ) (chall : Packet)
    (link : Link) (later : List (Option Packet)) where
  -- A challenge that the server made of 8 random bytes comes to the client of ClientMock.h, whose
  -- private key signs their hash with 256 bytes that the server's copy of its public key verifies.
  -- Then all that the client sends is one packet, it succeeds if that went through, and the server
  -- accepts this packet as the response to its random bytes. Both sides have the same hash.
  pub verify_against_server-check_response :
      length random ≡ 8
      → length signature ≡ 256
      → server.sha1 random ≡ mock.sha1 random
      → mock.privkey.rsa_sign (mock.sha1 random) ≡ some signature
      → pubkey.rsa_verify (mock.sha1 random) signature ≡ true
      → chall_from_random server.g random ≡ ok chall
      → link.coming ≡ some chall ∷ later
      → (resp : Packet) × (verify_against_server mock link ≡ (
          send_on mock.evp mock.ivs mock.g resp none (stopped (some chall) later link) >>= λ sent.
          ok (not (below_one sent.0), sent.1)))
        × (check_response server pubkey random (some resp) ≡ ok true)
  unfolding chall_from_random verify_against_server sign_answer next_packet check_response
      chall_resp_from_encrypted
  verify_against_server-check_response len len' same signs verifies made comes =
      let made' = create_from-packet_of server.g PckType.chall 8 random len in
      let is : chall ≡ packet_of PckType.chall random = cc in
      let comes' : link.coming ≡ some (packet_of PckType.chall random) ∷ later =
        comes ∙ ap (λ p. some p ∷ later) is in
      (
        packet_of PckType.chall_resp signature,
        rw
            (
              comes',
              is,
              body_of-packet_of PckType.chall random 8 len,
              sign-ok mock.sha1 mock.privkey mock.g random signature len' signs,
              create_from-packet_of mock.g PckType.chall_resp 256 signature len',
            )
            refl,
        rw
            (
              body_of-packet_of PckType.chall_resp signature 256 len',
              verify_sign-true server.sha1 pubkey random signature (mock.sha1 random) same verifies,
            )
            refl,
      )

-- A service that a client describes by name, unit and bounds, with a DESC of its own, becomes an
-- analog input at the server, under the number that it was given, with the same name, unit and
-- bounds, the lower bound as its value and the time 0. The unit has at most three characters, the
-- texts have no zero, the bounds are floats.
pub make_service-new_desc :
    (evp : Evp) (ivs : ℕ → Option (List ℕ)) (g g' : Garbage) (junk junk' : Float32) (key : List ℕ)
    (id : ℕ) (name unit : List ℕ) (min max : Float32) (p : Packet)
    → length unit ≤ 3
    → NoZero name
    → NoZero unit
    → min < 2 ^ 32
    → max < 2 ^ 32
    → new_desc g g' name unit min max ≡ ok p
    → make_service evp ivs g g' junk junk' key id p
      ≡ ok (
          some (
            input (record {
              common = record {
                id = id;
                type = ServiceType.analog_in;
                name = name;
                unit = unit;
                min = min;
                max = max;
                val = min;
              };
              timestamp = 0;
            })))
unfolding make_service service_factory new_input new_common
make_service-new_desc evp ivs g g' junk junk' key id name unit min max p small hn hu h h' e =
    let (p', made, _, class, named, measured, low, high) =
      new_desc-getters g g' name unit min max small hn hu h h' in
    let is : p' ≡ p = cc in rw (← is, class, named, measured, low, high) refl
