-- ===== src/Client/Kinds/Settings.antt =====
-- `setValues` and `setExit` of client.cpp: what they leave of the kinds of services, and of the
-- link.
use tin_serwer.Base.{
  ℕ, ◌≡◌, refl, sym, ap, ◌∙◌, Bool, true, false, Option, none, some, List, [], ◌∷◌, length,
  if◌then◌else◌, Outcome, ok, ◌>>=◌, >>=-eq-ok, arith,
}
use tin_serwer.Bytes.{Garbage}
use tin_serwer.Socket.{is_zero}
use tin_serwer.Sesskey.{Evp}
use tin_serwer.Packet.{PckType, new_set, new_eot, new_exit}
use tin_serwer.Link.{Link, next_packet, class_of, send_on}
use tin_serwer.Float32.{Float32}
use tin_serwer.Service.{Output, output}
use tin_serwer.Service.Outputs.{begin_setting, finalize_setting}
use tin_serwer.Client.{Heap, update}
use tin_serwer.Client.Setting.{output_at, finalize_at, settle, set_one, set_values, set_exit}
use tin_serwer.Client.Kinds.{
  kind, SameKinds, Shrinks, Exchanged, update-SameKinds, output_at-kind, next_packet-Shrinks,
  send_on-Shrinks,
}

finalize_at-SameKinds :
    (heap heap' : Heap) (a : ℕ) → finalize_at heap a ≡ ok heap' → SameKinds heap heap'
unfolding finalize_at
finalize_at-SameKinds heap heap' a e =
    let (o, there, e1) = >>=-eq-ok (output_at heap a) _ e in
    let same : update heap a (output (finalize_setting o)) ≡ heap' = cc in
    λ b.
      ap (λ h. kind (h b)) (sym same)
      ∙ update-SameKinds heap a _ (sym (output_at-kind heap a o there)) b

confirmed-SameKinds :
    (heap heap' : Heap) (a : ℕ)
    → (finalize_at heap a >>= λ h. ok (some h)) ≡ ok (some heap')
    → SameKinds heap heap'
confirmed-SameKinds heap heap' a e =
    let (h, done, e1) = >>=-eq-ok (finalize_at heap a) (λ h. ok (some h)) e in
    let same : h ≡ heap' = cc in finalize_at-SameKinds heap heap' a (done ∙ ap ok same)

settle-SameKinds :
    (heap heap' : Heap) (a : ℕ) (t : Option PckType)
    → settle heap a t ≡ ok (some heap')
    → SameKinds heap heap'
unfolding settle
settle-SameKinds heap heap' a none e = cc
settle-SameKinds heap heap' a (some PckType.ack) e = confirmed-SameKinds heap heap' a e
settle-SameKinds heap heap' a (some PckType.nak) e =
    let same : heap ≡ heap' = cc in λ b. ap (λ h. kind (h b)) (sym same)
settle-SameKinds heap heap' a (some PckType.eot) e = cc
settle-SameKinds heap heap' a (some PckType.chall) e = cc
settle-SameKinds heap heap' a (some PckType.chall_resp) e = cc
settle-SameKinds heap heap' a (some PckType.key) e = cc
settle-SameKinds heap heap' a (some PckType.desc) e = cc
settle-SameKinds heap heap' a (some PckType.val) e = cc
settle-SameKinds heap heap' a (some PckType.set) e = cc
settle-SameKinds heap heap' a (some PckType.exit) e = cc
settle-SameKinds heap heap' a (some PckType.id) e = cc

module _ (evp : Evp) (ivs : ℕ → Option (List ℕ)) (g : Garbage) (key : Option (List ℕ)) where
  replied-Exchanged :
      (zero_sent : Bool) (a : ℕ) (heap : Heap) (sent link' : Link) (r : Option Heap)
      → if◌then◌else◌ {A = Outcome (Option Heap × Link)} zero_sent
          (ok (none, sent))
          (settle heap a (class_of (next_packet sent).curr) >>= λ r. ok (r, next_packet sent))
        ≡ ok (r, link')
      → Shrinks sent link' × ((heap' : Heap) → r ≡ some heap' → SameKinds heap heap')
  replied-Exchanged true a heap sent link' r e =
      let left : sent ≡ link' = cc in
      (omega (arith, ap (λ l. length l.coming) left), λ heap' is. cc)
  replied-Exchanged false a heap sent link' r e =
      let (r', settled, e1) = >>=-eq-ok (settle heap a (class_of (next_packet sent).curr)) _ e in
      let left : next_packet sent ≡ link' = cc in
      let same : r' ≡ r = cc in
      (
        omega (arith, next_packet-Shrinks sent, ap (λ l. length l.coming) left),
        λ heap' is. settle-SameKinds heap heap' a _ (settled ∙ ap ok (same ∙ is)),
      )

  set_one-Exchanged :
      (a : ℕ) (v : Float32) (o : Output) (heap : Heap) (link link' : Link) (r : Option Heap)
      → set_one evp ivs g key a v o heap link ≡ ok (r, link')
      → Shrinks link link' × ((heap' : Heap) → r ≡ some heap' → SameKinds heap heap')
  unfolding set_one
  set_one-Exchanged a v o heap link link' r e =
      let (set, _, e1) = >>=-eq-ok (new_set g o.id v) _ e in
      let ((ret, sent), wrote, e2) = >>=-eq-ok (send_on evp ivs g set key link) _ e1 in
      let (le, same) = replied-Exchanged (is_zero ret) a heap sent link' r e2 in
      (omega (arith, le, send_on-Shrinks evp ivs g set key link ret sent wrote), same)

  -- What follows a SET that got its reply, where the rest of the loop does as it should.
  settled-Exchanged :
      (rest : List ℕ) (heap heap' : Heap) (link1 link' : Link) (done : Bool) (r : Option Heap)
      → ((heap2 : Heap) → r ≡ some heap2 → SameKinds heap heap2)
      → ((heap2 : Heap) (link2 : Link)
          → set_values evp ivs g key rest heap2 link2 ≡ ok (done, heap', link')
          → Exchanged heap2 (length link2.coming) heap' link')
      → ◌≡◌ {A = Outcome (Bool × Heap × Link)}
          (elim r [
            | none ↦ ok (false, heap, link1)
            | some heap2 ↦ set_values evp ivs g key rest heap2 link1
          ])
          (ok (done, heap', link'))
      → Exchanged heap (length link1.coming) heap' link'
  settled-Exchanged rest heap heap' link1 link' done none one more e =
      let same : heap ≡ heap' = cc in
      let left : link1 ≡ link' = cc in
      (λ b. ap (λ h. kind (h b)) (sym same), omega (arith, ap (λ l. length l.coming) left))
  settled-Exchanged rest heap heap' link1 link' done (some heap2) one more e =
      let (same, le) = more heap2 link1 e in (λ b. same b ∙ one heap2 refl b, le)

  asked-Exchanged :
      (rest : List ℕ) (heap heap' : Heap) (link link' : Link) (done begun : Bool)
      (asks : Outcome (Option Heap × Link))
      → ((r : Option Heap) (link1 : Link)
          → asks ≡ ok (r, link1)
          → Shrinks link link1 × ((heap2 : Heap) → r ≡ some heap2 → SameKinds heap heap2))
      → ((heap2 : Heap) (link2 : Link)
          → set_values evp ivs g key rest heap2 link2 ≡ ok (done, heap', link')
          → Exchanged heap2 (length link2.coming) heap' link')
      → ◌≡◌ {A = Outcome (Bool × Heap × Link)}
          (elim begun [
            | false ↦ set_values evp ivs g key rest heap link
            | true ↦ asks >>= λ r. elim r.0 [
              | none ↦ ok (false, heap, r.1)
              | some heap2 ↦ set_values evp ivs g key rest heap2 r.1
            ]
          ])
          (ok (done, heap', link'))
      → Exchanged heap (length link.coming) heap' link'
  asked-Exchanged rest heap heap' link link' done false asks one more e = more heap link e
  asked-Exchanged rest heap heap' link link' done true asks one more e =
      let ((r, link1), is, e1) = >>=-eq-ok asks _ e in
      let (le, kept) = one r link1 is in
      let (same, le') = settled-Exchanged rest heap heap' link1 link' done r kept more e1 in
      (same, omega (arith, le, le'))

  pub set_values-Exchanged :
      (at : List ℕ) (heap heap' : Heap) (link link' : Link) (done : Bool)
      → set_values evp ivs g key at heap link ≡ ok (done, heap', link')
      → Exchanged heap (length link.coming) heap' link'
  unfolding set_values
  set_values-Exchanged [] heap heap' link link' done e =
      let (eot, _, e1) = >>=-eq-ok (new_eot g) _ e in
      let ((ret, sent), wrote, e2) = >>=-eq-ok (send_on evp ivs g eot key link) _ e1 in
      let same : heap ≡ heap' = cc in
      let left : sent ≡ link' = cc in
      (
        λ b. ap (λ h. kind (h b)) (sym same),
        omega (
          arith,
          send_on-Shrinks evp ivs g eot key link ret sent wrote,
          ap (λ l. length l.coming) left,
        ),
      )
  set_values-Exchanged (a ∷ rest) heap heap' link link' done e =
      let (o, there, e1) = >>=-eq-ok (output_at heap a) _ e in
      let (v, begun, o') = begin_setting o in
      let heap1 = update heap a (output o') in
      let first = update-SameKinds heap a (output o') (sym (output_at-kind heap a o there)) in
      let (same, le) =
        asked-Exchanged rest heap1 heap' link link' done begun
          (set_one evp ivs g key a v o heap1 link)
          (λ r link1 e. set_one-Exchanged a v o heap1 link link1 r e)
          (λ heap2 link2 e. set_values-Exchanged rest heap2 heap' link2 link' done e) e1 in
      (λ b. same b ∙ first b, le)

  pub set_exit-Shrinks :
      (link link' : Link) (done : Bool)
      → set_exit evp ivs g key link ≡ ok (done, link')
      → Shrinks link link'
  unfolding set_exit
  set_exit-Shrinks link link' done e =
      let (exit, _, e1) = >>=-eq-ok (new_exit g 0) _ e in
      let ((ret, sent), wrote, e2) = >>=-eq-ok (send_on evp ivs g exit key link) _ e1 in
      let left : sent ≡ link' = cc in
      omega (
        arith,
        send_on-Shrinks evp ivs g exit key link ret sent wrote,
        ap (λ l. length l.coming) left,
      )
