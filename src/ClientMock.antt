-- ===== src/ClientMock.antt =====
-- ClientMock.h: a client in the program itself, for trying out the server. `Crypto` has what its
-- side does, with its own private key, and `Link` is its connection: `packetFactory` is called
-- where the server's side has `nextPacket`.
pub mod Handshake
use tin_serwer.Base.{
  ℕ, zero, suc, Bool, true, false, not, Option, none, some, List, [], ◌∷◌, ◌++◌, if◌then◌else◌,
  Outcome, ok, ◌>>=◌,
}
use tin_serwer.Bytes.{alloc}
use tin_serwer.Float32.{Float32}
use tin_serwer.Socket.{below_one}
use tin_serwer.Keys.{Pubkey, sign, verify_sign, sesskey_from_packet}
use tin_serwer.Packet.{
  Packet, PckType, body_of, byte_1, chall_from_random, chall_resp_from_encrypted, new_id, new_desc,
  new_eot,
}
use tin_serwer.Link.{Link, next_packet, send_on}
use tin_serwer.Client.Sessions.{Crypto, challenge}

module _ (crypto : Crypto) where
  -- The answer to a challenge, if it can be signed.
  unfoldable pub sign_answer : Packet → Link → Outcome (Bool × Link)
  sign_answer p link = do
    chall ← body_of p 8
    signed ← sign crypto.sha1 crypto.privkey chall (alloc crypto.g 256)
    (if signed.0
        then (chall_resp_from_encrypted crypto.g signed.1 >>= λ resp.
            send_on crypto.evp crypto.ivs crypto.g resp none link >>= λ sent.
            ok (not (below_one sent.0), sent.1))
        else ok (false, link))

  unfoldable pub verify_against_server : Link → Outcome (Bool × Link)
  verify_against_server link =
      let asked = next_packet link in
      elim asked.curr [
        | none ↦ ok (false, asked)
        | some p ↦ elim p.type [ PckType.chall ↦ sign_answer p asked | _ ↦ ok (false, asked) ]
      ]

  -- What `verifyAgainstClient` makes of the response.
  unfoldable pub accept_response : Pubkey → List ℕ → Option Packet → Outcome Bool
  accept_response pubkey random none = ok false
  accept_response pubkey random (some p) = elim p.type [
    | PckType.chall_resp ↦ body_of p 256 >>= λ resp. ok (verify_sign crypto.sha1 pubkey random resp)
    | _ ↦ ok false
  ]

  unfoldable pub verify_against_client : Pubkey → Link → Outcome (Bool × Link)
  verify_against_client pubkey link = challenge crypto >>= λ random.
      chall_from_random crypto.g random >>= λ chall.
      send_on crypto.evp crypto.ivs crypto.g chall none link >>= λ sent.
      if below_one sent.0
      then ok (false, sent.1)
      else (let replied = next_packet sent.1 in
          accept_response pubkey random replied.curr >>= λ good. ok (good, replied))

  -- "Nazwa" and "szt", and 1.2 and 1.3 as floats.
  abbrev pub name : List ℕ
  name = 78 ∷ 97 ∷ 122 ∷ 119 ∷ 97 ∷ []

  abbrev pub unit : List ℕ
  unit = 115 ∷ 122 ∷ 116 ∷ []

  abbrev pub min_value : Float32
  min_value = 0x3f99999a

  abbrev pub max_value : Float32
  max_value = 0x3fa66666

  -- The number that an ACK has, which is printed.
  unfoldable pub printed_id : Option Packet → Outcome (List ℕ)
  printed_id none = ok []
  printed_id (some p) = elim p.type [ PckType.ack ↦ byte_1 p >>= λ id. ok (id ∷ []) | _ ↦ ok [] ]

  -- The loop over the services, `n` times: the numbers that were printed. The results of the calls
  -- of `send` are not looked at.
  unfoldable pub describe_services : ℕ → List ℕ → Link → Outcome (List ℕ × Link)
  describe_services zero key link = ok ([], link)
  describe_services (suc n) key link = do
    desc ← new_desc crypto.g crypto.g' name unit min_value max_value
    sent ← send_on crypto.evp crypto.ivs crypto.g desc (some key) link
    let replied = next_packet sent.1
    id ← printed_id replied.curr
    more ← describe_services n key replied
    ok (id ++ more.0, more.1)

  -- What follows the KEY.
  unfoldable pub describe_all : Packet → Link → Outcome (Option (List ℕ) × Link)
  describe_all key_pck link = do
    key ← sesskey_from_packet crypto.privkey crypto.g key_pck
    described ← describe_services 5 key link
    eot ← new_eot crypto.g
    sent ← send_on crypto.evp crypto.ivs crypto.g eot (some key) described.1
    ok (some described.0, sent.1)

  -- What follows the verification of both sides.
  unfoldable pub take_key : Link → Outcome (Option (List ℕ) × Link)
  take_key link =
      let got = next_packet link in
      elim got.curr [
        | none ↦ ok (none, got)
        | some p ↦ elim p.type [ PckType.key ↦ describe_all p got | _ ↦ ok (none, got) ]
      ]

  -- `clientMock`, where `connected` is whether `connect` succeeds: the numbers that it prints, or
  -- `none` where it gives up.
  unfoldable pub client_mock : Bool → Pubkey → Link → Outcome (Option (List ℕ) × Link)
  client_mock false pubkey link = ok (none, link)
  client_mock true pubkey link = do
    id ← new_id crypto.g 1
    sent ← send_on crypto.evp crypto.ivs crypto.g id none link
    server ← verify_against_server sent.1
    (if server.0
        then (verify_against_client pubkey server.1 >>= λ client.
            if client.0 then take_key client.1 else ok (none, client.1))
        else ok (none, server.1))
