-- ===== src/Client/Verifying.antt =====
-- `verifyClient` and `initalize` of client.cpp: what a client has shown before the server changes.
use tin_serwer.Base.{
  ℕ, ◌≡◌, refl, Bool, true, false, Option, none, some, List, [], ◌∷◌, if◌then◌else◌, Outcome, ok,
  ◌>>=◌, >>=-eq-ok, Bool-cases, inl, inr, ◌⊎◌, sym, ◌∙◌,
}
use tin_serwer.Bytes.{Garbage}
use tin_serwer.Socket.{Ret}
use tin_serwer.Sesskey.{Evp}
use tin_serwer.Keys.{Pubkey, verify_sign}
use tin_serwer.Packet.{Packet, PckType, chall_from_random, body_of}
use tin_serwer.Packet.Send.{send}
use tin_serwer.Link.{Link, stopped, next_packet, send_on}
use tin_serwer.Client.Registering.{Client, World}
use tin_serwer.Client.Sessions.{Crypto, challenge, check_response, verify_client, initalize}

-- The next packet of the link is a response with a signature of the challenge's random bytes, by
-- the hash and the client's key.
pub record Verified (crypto : Crypto) (key : Pubkey) (link : Link) : Type 0 where
  pub random : List ℕ
  pub response : Packet
  pub later : List (Option Packet)
  pub signature : List ℕ
  pub challenged : challenge crypto ≡ ok random
  pub received : link.coming ≡ some response ∷ later
  pub is_response : response.type ≡ PckType.chall_resp
  pub signed : body_of response 256 ≡ ok signature
  pub verified : key.rsa_verify (crypto.sha1 random) signature ≡ true

-- Sending leaves alone what is to come.
pub send_on-coming :
    (evp : Evp) (ivs : ℕ → Option (List ℕ)) (g : Garbage) (p : Packet) (key : Option (List ℕ))
    (link : Link) (ret : Ret) (link' : Link)
    → send_on evp ivs g p key link ≡ ok (ret, link')
    → (link'.coming ≡ link.coming) × (link'.curr ≡ link.curr)
unfolding send_on
send_on-coming evp ivs g p key link ret link' e =
    let (r, sent, same) = >>=-eq-ok (send evp (ivs link.sends) g p key link.soc) _ e in (cc, cc)

-- What an accepted response shows.
abbrev Accepted : Crypto → Pubkey → List ℕ → Packet → Type 0
Accepted crypto key random p =
    (p.type ≡ PckType.chall_resp)
    × ((signature : List ℕ) × (body_of p 256 ≡ ok signature)
        × (key.rsa_verify (crypto.sha1 random) signature ≡ true))

check_response-typed :
    (crypto : Crypto) (key : Pubkey) (random : List ℕ) (t : PckType) (buf : List ℕ)
    → check_response crypto key random (some (record { type = t; buf = buf })) ≡ ok true
    → Accepted crypto key random (record { type = t; buf = buf })
unfolding check_response verify_sign
check_response-typed crypto key random PckType.chall_resp buf e =
    let (signature, read, good) =
      >>=-eq-ok _ (λ resp. ok (key.rsa_verify (crypto.sha1 random) resp)) e in
    (refl, (signature, read, cc))
check_response-typed crypto key random PckType.ack buf e = cc
check_response-typed crypto key random PckType.nak buf e = cc
check_response-typed crypto key random PckType.eot buf e = cc
check_response-typed crypto key random PckType.chall buf e = cc
check_response-typed crypto key random PckType.key buf e = cc
check_response-typed crypto key random PckType.desc buf e = cc
check_response-typed crypto key random PckType.val buf e = cc
check_response-typed crypto key random PckType.set buf e = cc
check_response-typed crypto key random PckType.exit buf e = cc
check_response-typed crypto key random PckType.id buf e = cc

check_response-true :
    (crypto : Crypto) (key : Pubkey) (random : List ℕ) (p : Option Packet)
    → check_response crypto key random p ≡ ok true
    → (response : Packet) × (p ≡ some response) × Accepted crypto key random response
unfolding check_response
check_response-true crypto key random none e = cc
check_response-true crypto key random (some p) e =
    (p, refl, check_response-typed crypto key random p.type p.buf e)

next_packet-some_of :
    (link : Link) (p : Packet) (ps : List (Option Packet))
    → (elim ps as (λ _. Link) [ [] ↦ stopped none [] link | q ∷ later ↦ stopped q later link ]).curr
      ≡ some p
    → (later : List (Option Packet)) × (ps ≡ some p ∷ later)
next_packet-some_of link p [] e = cc
next_packet-some_of link p (q ∷ later) e = (later, cc)

next_packet-some :
    (link : Link) (p : Packet)
    → (next_packet link).curr ≡ some p
    → (later : List (Option Packet)) × (link.coming ≡ some p ∷ later)
unfolding next_packet
next_packet-some link p e = next_packet-some_of link p link.coming e

replied-checked :
    (crypto : Crypto) (key : Pubkey) (random : List ℕ) (low : Bool) (after link' : Link)
    → if◌then◌else◌ {A = Outcome (Bool × Link)} low (ok (false, after)) (
        check_response crypto key random (next_packet after).curr >>= λ good.
        ok (good, next_packet after))
      ≡ ok (true, link')
    → check_response crypto key random (next_packet after).curr ≡ ok true
replied-checked crypto key random true after link' e = cc
replied-checked crypto key random false after link' e =
    let (good, checked, same) =
      >>=-eq-ok (check_response crypto key random (next_packet after).curr) _ e in
    let true_one : good ≡ true = cc in rw (← true_one) checked

-- `verifyClient` succeeds only on a response that shows the client's key.
verify_client-Verified :
    (crypto : Crypto) (key : Pubkey) (link link' : Link)
    → verify_client crypto key link ≡ ok (true, link')
    → Verified crypto key link
unfolding verify_client
verify_client-Verified crypto key link link' e =
    let (random, challenged, e1) = >>=-eq-ok (challenge crypto) _ e in
    let (chall, made, e2) = >>=-eq-ok (chall_from_random crypto.g random) _ e1 in
    let ((ret, after), sent, e3) =
      >>=-eq-ok (send_on crypto.evp crypto.ivs crypto.g chall none link) _ e2 in
    let (coming, curr) = send_on-coming _ _ _ _ _ link ret after sent in
    let (p, is_p, (is_response, (signature, read, good))) =
      check_response-true crypto key random _
        (replied-checked crypto key random _ after link' e3) in
    let (later, ahead) = next_packet-some after p is_p in
    record {
      random = random;
      response = p;
      later = later;
      signature = signature;
      challenged = challenged;
      received = sym coming ∙ ahead;
      is_response = is_response;
      signed = read;
      verified = good;
    }

initalize_stopped :
    (c c' : Client) (w w' : World) (done good : Bool) (goes_on : Outcome (Bool × Client × World))
    (link1 : Link)
    → good ≡ false
    → if◌then◌else◌ {A = Outcome (Bool × Client × World)} good goes_on
        (ok (false, c, record w { link = link1 }))
      ≡ ok (done, c', w')
    → (done ≡ false) × (c' ≡ c) × (w'.server ≡ w.server) × (w'.next ≡ w.next)
initalize_stopped c c' w w' done true goes_on link1 fails e = cc
initalize_stopped c c' w w' done false goes_on link1 fails e = (cc, cc, cc, cc)

-- A client that `initalize` has not verified is not registered, and the server, the client and the
-- allocations are as before: whenever the function returns, either the packet that came next was a
-- response with a good signature of the challenge, or it returned false and changed none of them.
pub initalize-Verified :
    (crypto : Crypto) (key : Pubkey) (c c' : Client) (w w' : World) (done : Bool)
    → initalize crypto key c w ≡ ok (done, c', w')
    → Verified crypto key w.link
      ⊎ ((done ≡ false) × (c' ≡ c) × (w'.server ≡ w.server) × (w'.next ≡ w.next))
unfolding initalize
initalize-Verified crypto key c c' w w' done e =
    let ((good, link1), checked, e1) = >>=-eq-ok (verify_client crypto key w.link) _ e in
    elim (Bool-cases good) [
      | inl succeeds ↦
          inl (verify_client-Verified crypto key w.link link1 (rw (← succeeds) checked))
      | inr fails ↦ inr (initalize_stopped c c' w w' done good _ link1 fails e1)
    ]
