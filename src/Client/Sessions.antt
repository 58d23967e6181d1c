-- ===== src/Client/Sessions.antt =====
-- The rest of client.cpp: how a client and the server verify each other, and how a client's
-- services leave. `Crypto` has what both sides do with random numbers and keys.
use tin_serwer.Base.{
  ℕ, Bool, true, false, not, Option, none, some, List, [], ◌∷◌, if◌then◌else◌, Outcome, ok, fault,
  ◌>>=◌, stale_iterator,
}
use tin_serwer.Bytes.{Garbage, alloc}
use tin_serwer.Float32.{Float32}
use tin_serwer.Socket.{below_one, is_zero}
use tin_serwer.Sesskey.{Evp}
use tin_serwer.Keys.{Pubkey, Privkey, generate, new_sesskey, pubkey_encrypt, verify_sign, sign}
use tin_serwer.Packet.{
  Packet, PckType, chall_from_random, chall_resp_from_encrypted, key_from_encrypted, body_of,
}
use tin_serwer.Link.{Link, next_packet, send_on}
use tin_serwer.Service.{common_of}
use tin_serwer.Server.{Server, dereference, unregister_service}
use tin_serwer.Client.Registering.{Client, World, register_services}

-- What the environment does: the session cipher and its vectors, what memory holds, the numbers
-- that `RAND_bytes` gives for a challenge and a session key, the hash, and the server's key.
pub record Crypto : Type 0 where
  pub evp : Evp
  pub ivs : ℕ → Option (List ℕ)
  pub g : Garbage
  pub g' : Garbage
  pub junk : Float32
  pub junk' : Float32
  pub rand_chall : Option (List ℕ)
  pub rand_key : Option (List ℕ)
  pub sha1 : List ℕ → List ℕ
  pub privkey : Privkey
  pub time_size : ℕ

-- A loop of `unregisterServices`: `erase` leaves the iterator of the range-for invalid, and the
-- loop then advances it.
unfoldable pub unregister_all : Garbage → List (ℕ × ℕ) → Server → Outcome Server
unregister_all g [] server = ok server
unregister_all g ((num, a) ∷ rest) server = do
  s ← dereference server.heap (some a)
  left ← unregister_service g (common_of s).id server
  fault stale_iterator

unfoldable pub unregister_services : Garbage → Client → Server → Outcome Server
unregister_services g c server =
    unregister_all g c.inputs server >>= λ server. unregister_all g c.outputs server

abbrev pub get_used : Client → Bool
get_used c = c.used

abbrev pub set_used : Bool → Client → Client
set_used u c = record c { used = u }

module _ (crypto : Crypto) where
  -- The random bytes of the challenge: the result of `generate` is not looked at.
  abbrev pub challenge : Outcome (List ℕ)
  challenge = generate crypto.rand_chall (alloc crypto.g 8) >>= λ r. ok r.1

  -- The `CHALL_RESP` that answers the challenge, if the packet is one.
  unfoldable pub check_response : Pubkey → List ℕ → Option Packet → Outcome Bool
  check_response key random none = ok false
  check_response key random (some p) = elim p.type [
    | PckType.chall_resp ↦ body_of p 256 >>= λ resp. ok (verify_sign crypto.sha1 key random resp)
    | _ ↦ ok false
  ]

  unfoldable pub verify_client : Pubkey → Link → Outcome (Bool × Link)
  verify_client key link = challenge >>= λ random. chall_from_random crypto.g random >>= λ chall.
      send_on crypto.evp crypto.ivs crypto.g chall none link >>= λ sent.
      if below_one sent.0
      then ok (false, sent.1)
      else (let replied = next_packet sent.1 in
          check_response key random replied.curr >>= λ good. ok (good, replied))

  -- The answer to a challenge: where `sign` fails, what the buffer holds is sent.
  unfoldable pub answer_challenge : Packet → Link → Outcome (Bool × Link)
  answer_challenge p link = do
    chall ← body_of p 8
    signed ← sign crypto.sha1 crypto.privkey chall (alloc crypto.g 256)
    resp ← chall_resp_from_encrypted crypto.g signed.1
    sent ← send_on crypto.evp crypto.ivs crypto.g resp none link
    ok (not (below_one sent.0), sent.1)

  -- `Server::verifyServer`
  unfoldable pub verify_server : Link → Outcome (Bool × Link)
  verify_server link =
      let asked = next_packet link in
      elim asked.curr [
        | none ↦ ok (false, asked)
        | some p ↦ elim p.type [ PckType.chall ↦ answer_challenge p asked | _ ↦ ok (false, asked) ]
      ]

  -- A new session key is sent to the client: the key if that went through. The result of the
  -- encryption is taken for a failure only where it is 0.
  unfoldable pub send_key : Pubkey → Link → Outcome (Option (List ℕ) × Link)
  send_key key link = new_sesskey crypto.rand_key crypto.g >>= λ sesskey.
      pubkey_encrypt key sesskey (alloc crypto.g 256) >>= λ cip.
      if is_zero cip.0
      then ok (none, link)
      else (key_from_encrypted crypto.g cip.1 >>= λ p.
          send_on crypto.evp crypto.ivs crypto.g p none link >>= λ sent.
          ok ((if below_one sent.0 then none else some sesskey), sent.1))

  -- The end of `initalize`.
  unfoldable pub register_with : Option (List ℕ) → Client → World → Outcome (Bool × Client × World)
  register_with none c w = ok (false, c, w)
  register_with (some key) c w =
      register_services crypto.evp crypto.ivs crypto.g crypto.g' crypto.junk crypto.junk' key c w
      >>= λ r. ok (r.0, (if r.0 then set_used true r.1 else r.1), r.2)

  unfoldable pub initalize : Pubkey → Client → World → Outcome (Bool × Client × World)
  initalize key c w = verify_client key w.link >>= λ client.
      let w1 = record w { link = client.1 } in
      if client.0
      then (verify_server w1.link >>= λ server.
          let w2 = record w { link = server.1 } in
          if server.0
          then (send_key key w2.link >>= λ sent.
              register_with sent.0 c (record w { link = sent.1 }))
          else ok (false, c, w2))
      else ok (false, c, w1)
