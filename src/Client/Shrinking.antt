-- ===== src/Client/Shrinking.antt =====
-- The exchanges of client.cpp and Server.cpp before the registration: none adds to the packets that
-- are to come.
use tin_serwer.Base.{
  ℕ, ◌≡◌, sym, ap, Bool, true, false, Option, none, some, List, length, if◌then◌else◌, Outcome, ok,
  >>=-eq-ok, arith, inl, inr, ◌⊎◌,
}
use tin_serwer.Bytes.{alloc}
use tin_serwer.Socket.{below_one, is_zero}
use tin_serwer.Keys.{Pubkey, new_sesskey, pubkey_encrypt, sign}
use tin_serwer.Packet.{
  Packet, PckType, body_of, chall_from_random, chall_resp_from_encrypted, key_from_encrypted,
}
use tin_serwer.Link.{Link, next_packet, send_on}
use tin_serwer.Client.Sessions.{
  Crypto, challenge, check_response, verify_client, answer_challenge, verify_server, send_key,
}
use tin_serwer.Client.Kinds.{Shrinks, next_packet-Shrinks, send_on-Shrinks}

-- What `x` is, or what an early return with the link leaves.
left_as :
    {A : Type 0} (low : Bool) (x : A) (a b : Link) (out : Outcome (A × Link)) (r : A)
    → if◌then◌else◌ {A = Outcome (A × Link)} low (ok (x, a)) out ≡ ok (r, b)
    → (b ≡ a) ⊎ (out ≡ ok (r, b))
left_as true x a b out r e = inl (cc)
left_as false x a b out r e = inr e

Shrinks-as : (link a b : Link) → Shrinks link a → b ≡ a → Shrinks link b
Shrinks-as link a b le same = omega (arith, le, ap (λ l. length l.coming) same)

module _ (crypto : Crypto) where
  pub verify_client-Shrinks :
      (key : Pubkey) (link link' : Link) (good : Bool)
      → verify_client crypto key link ≡ ok (good, link')
      → Shrinks link link'
  unfolding verify_client
  verify_client-Shrinks key link link' good e =
      let (random, _, e1) = >>=-eq-ok (challenge crypto) _ e in
      let (chall, _, e2) = >>=-eq-ok (chall_from_random crypto.g random) _ e1 in
      let ((ret, after), sent, e3) =
        >>=-eq-ok (send_on crypto.evp crypto.ivs crypto.g chall none link) _ e2 in
      let le = send_on-Shrinks _ _ _ _ _ link ret after sent in
      elim (left_as (below_one ret) false after link' _ good e3) [
        | inl same ↦ Shrinks-as link after link' le same
        | inr goes_on ↦
            let (shown, _, e4) =
              >>=-eq-ok (check_response crypto key random (next_packet after).curr) _ goes_on in
            let same : next_packet after ≡ link' = cc in
            Shrinks-as link (next_packet after) link' (omega (arith, le, next_packet-Shrinks after))
              (sym same)
      ]

  answer_challenge-Shrinks :
      (p : Packet) (link link' : Link) (good : Bool)
      → answer_challenge crypto p link ≡ ok (good, link')
      → Shrinks link link'
  unfolding answer_challenge
  answer_challenge-Shrinks p link link' good e =
      let (chall, _, e1) = >>=-eq-ok (body_of p 8) _ e in
      let (signed, _, e2) =
        >>=-eq-ok (sign crypto.sha1 crypto.privkey chall (alloc crypto.g 256)) _ e1 in
      let (resp, _, e3) = >>=-eq-ok (chall_resp_from_encrypted crypto.g signed.1) _ e2 in
      let ((ret, after), sent, e4) =
        >>=-eq-ok (send_on crypto.evp crypto.ivs crypto.g resp none link) _ e3 in
      Shrinks-as link after link' (send_on-Shrinks _ _ _ _ _ link ret after sent) (cc)

  pub send_key-Shrinks :
      (key : Pubkey) (link link' : Link) (sesskey : Option (List ℕ))
      → send_key crypto key link ≡ ok (sesskey, link')
      → Shrinks link link'
  unfolding send_key
  send_key-Shrinks key link link' sesskey e =
      let (made, _, e1) = >>=-eq-ok (new_sesskey crypto.rand_key crypto.g) _ e in
      let (cip, _, e2) = >>=-eq-ok (pubkey_encrypt key made (alloc crypto.g 256)) _ e1 in
      elim (left_as (is_zero cip.0) none link link' _ sesskey e2) [
        | inl same ↦ Shrinks-as link link link' (omega arith) same
        | inr goes_on ↦
            let (p, _, e3) = >>=-eq-ok (key_from_encrypted crypto.g cip.1) _ goes_on in
            let ((ret, after), sent, e4) =
              >>=-eq-ok (send_on crypto.evp crypto.ivs crypto.g p none link) _ e3 in
            Shrinks-as link after link' (send_on-Shrinks _ _ _ _ _ link ret after sent) (cc)
      ]

-- What is done with a challenge, or else.
if_chall {ℓ} :
    {A : Type ℓ} (t : PckType) (x z : A) {r : A}
    → (elim t [ PckType.chall ↦ x | _ ↦ z ]) ≡ r
    → (x ≡ r) ⊎ (z ≡ r)
if_chall PckType.ack x z e = inr e
if_chall PckType.nak x z e = inr e
if_chall PckType.eot x z e = inr e
if_chall PckType.chall x z e = inl e
if_chall PckType.chall_resp x z e = inr e
if_chall PckType.key x z e = inr e
if_chall PckType.desc x z e = inr e
if_chall PckType.val x z e = inr e
if_chall PckType.set x z e = inr e
if_chall PckType.exit x z e = inr e
if_chall PckType.id x z e = inr e

module _ (crypto : Crypto) where
  asked-Shrinks :
      (curr : Option Packet) (asked link' : Link) (good : Bool)
      → ◌≡◌ {A = Outcome (Bool × Link)}
          (elim curr [
            | none ↦ ok (false, asked)
            | some p ↦ elim p.type [
              | PckType.chall ↦ answer_challenge crypto p asked
              | _ ↦ ok (false, asked)
            ]
          ])
          (ok (good, link'))
      → Shrinks asked link'
  asked-Shrinks none asked link' good e = Shrinks-as asked asked link' (omega arith) (cc)
  asked-Shrinks (some p) asked link' good e = elim (if_chall p.type _ _ e) [
    | inl answers ↦ answer_challenge-Shrinks crypto p asked link' good answers
    | inr stops ↦ Shrinks-as asked asked link' (omega arith) (cc)
  ]

  pub verify_server-Shrinks :
      (link link' : Link) (good : Bool)
      → verify_server crypto link ≡ ok (good, link')
      → Shrinks link link'
  unfolding verify_server
  verify_server-Shrinks link link' good e =
      let le = asked-Shrinks (next_packet link).curr (next_packet link) link' good e in
      omega (arith, le, next_packet-Shrinks link)
