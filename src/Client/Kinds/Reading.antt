-- ===== src/Client/Kinds/Reading.antt =====
-- `getValues` of client.cpp: what it leaves of the kinds of services, and of the link.
use tin_serwer.Base.{
  ℕ, ◌≤◌, ◌≡◌, sym, ap, ◌∙◌, Bool, true, false, Option, none, some, List, [], ◌∷◌, length, Outcome,
  ok, >>=-eq-ok, arith, inl, inr, ◌⊎◌,
}
use tin_serwer.Packet.{Packet, PckType}
use tin_serwer.Link.{Link, stopped, next_packet, class_of}
use tin_serwer.Client.{Heap, take_value, read_values, get_values}
use tin_serwer.Client.Kinds.{kind, Exchanged, next_packet-Shrinks, take_value-SameKinds}

-- What is done with an EOT, with a VAL, or else.
if_value {ℓ} :
    {A : Type ℓ} (t : PckType) (x y z : A) {r : A}
    → (elim t [ PckType.eot ↦ x | PckType.val ↦ y | _ ↦ z ]) ≡ r
    → (y ≡ r) ⊎ ((x ≡ r) ⊎ (z ≡ r))
if_value PckType.ack x y z e = inr (inr e)
if_value PckType.nak x y z e = inr (inr e)
if_value PckType.eot x y z e = inr (inl e)
if_value PckType.chall x y z e = inr (inr e)
if_value PckType.chall_resp x y z e = inr (inr e)
if_value PckType.key x y z e = inr (inr e)
if_value PckType.desc x y z e = inr (inr e)
if_value PckType.val x y z e = inl e
if_value PckType.set x y z e = inr (inr e)
if_value PckType.exit x y z e = inr (inr e)
if_value PckType.id x y z e = inr (inr e)

read_stops :
    (b done : Bool) (heap heap' : Heap) (p : Option Packet) (later : List (Option Packet))
    (link link' : Link) (n : ℕ)
    → length later ≤ n
    → ◌≡◌ {A = Outcome (Bool × Heap × Link)}
        (ok (b, heap, stopped p later link))
        (ok (done, heap', link'))
    → Exchanged heap n heap' link'
read_stops b done heap heap' p later link link' n le e =
    let same : heap ≡ heap' = cc in
    let left : stopped p later link ≡ link' = cc in
    (λ a. ap (λ h. kind (h a)) (sym same), omega (arith, le, ap (λ l. length l.coming) left))

-- What is done with a VAL or an EOT, or else.
if_reading {ℓ} :
    {A : Type ℓ} (t : Option PckType) (x z : A) {r : A}
    → (elim t [ some PckType.val ↦ x | some PckType.eot ↦ x | _ ↦ z ]) ≡ r
    → (x ≡ r) ⊎ (z ≡ r)
if_reading none x z e = inr e
if_reading (some PckType.ack) x z e = inr e
if_reading (some PckType.nak) x z e = inr e
if_reading (some PckType.eot) x z e = inl e
if_reading (some PckType.chall) x z e = inr e
if_reading (some PckType.chall_resp) x z e = inr e
if_reading (some PckType.key) x z e = inr e
if_reading (some PckType.desc) x z e = inr e
if_reading (some PckType.val) x z e = inl e
if_reading (some PckType.set) x z e = inr e
if_reading (some PckType.exit) x z e = inr e
if_reading (some PckType.id) x z e = inr e

get_stops :
    (heap heap' : Heap) (link link' : Link) (done : Bool)
    → ◌≡◌ {A = Outcome (Bool × Heap × Link)}
        (ok (false, heap, next_packet link))
        (ok (done, heap', link'))
    → Exchanged heap (length link.coming) heap' link'
get_stops heap heap' link link' done e =
    let same : heap ≡ heap' = cc in
    let left : next_packet link ≡ link' = cc in
    (
      λ a. ap (λ h. kind (h a)) (sym same),
      omega (arith, next_packet-Shrinks link, ap (λ l. length l.coming) left),
    )

module _ (time_size : ℕ) (inputs : ℕ → Option ℕ) where
  read_values-Exchanged :
      (ps : List (Option Packet)) (heap heap' : Heap) (link link' : Link) (done : Bool)
      → read_values time_size inputs ps heap link ≡ ok (done, heap', link')
      → Exchanged heap (length ps) heap' link'
  unfolding read_values
  read_values-Exchanged [] heap heap' link link' done e =
      read_stops false done heap heap' none [] link link' 0 (omega arith) e
  read_values-Exchanged (none ∷ later) heap heap' link link' done e =
      read_stops false done heap heap' none later link link' _ (omega arith) e
  read_values-Exchanged (some p ∷ later) heap heap' link link' done e =
      elim (if_value p.type _ _ _ e) [
        | inl more ↦
            let (heap1, one, rest) = >>=-eq-ok (take_value time_size inputs p heap) _ more in
            let (same, le) = read_values-Exchanged later heap1 heap' link link' done rest in
            (
              λ a. same a ∙ take_value-SameKinds time_size inputs p heap heap1 one a,
              omega (arith, le),
            )
        | inr (inl ends) ↦
            read_stops true done heap heap' (some p) later link link' _ (omega arith) ends
        | inr (inr ends) ↦
            read_stops false done heap heap' (some p) later link link' _ (omega arith) ends
      ]

  pub get_values-Exchanged :
      (heap heap' : Heap) (link link' : Link) (done : Bool)
      → get_values time_size inputs heap link ≡ ok (done, heap', link')
      → Exchanged heap (length link.coming) heap' link'
  unfolding get_values
  get_values-Exchanged heap heap' link link' done e =
      elim (if_reading (class_of (next_packet link).curr) _ _ e) [
        | inl reads ↦ read_values-Exchanged link.coming heap heap' link link' done reads
        | inr ends ↦ get_stops heap heap' link link' done ends
      ]
