-- ===== src/Client/Looping.antt =====
-- The loop of `registerServices` of client.cpp, from its first packet to its last.
use tin_serwer.Base.{
  ℕ, suc, ◌+◌, ◌≤◌, ◌≡◌, refl, sym, ◌∙◌, subst, Option, none, some, List, [], ◌∷◌, ◌++◌, length,
  Outcome, ok, >>=-eq-ok, inl, inr, ◌⊎◌, arith, append_assoc, append-nil,
}
use tin_serwer.Bytes.{Garbage}
use tin_serwer.Float32.{Float32}
use tin_serwer.Sesskey.{Evp}
use tin_serwer.Packet.{Packet, PckType}
use tin_serwer.Link.{stopped, next_packet, class_of}
use tin_serwer.ServiceTable.Invariant.{IsValid}
use tin_serwer.Client.Registering.{
  World, Services, Ending, Turn, complete, refused, unreachable, admitted, out_of_numbers,
  unacknowledged, admit, register_loop,
}
use tin_serwer.Client.Describing.{Grows, Grows-refl, Grows-cons}
use tin_serwer.Client.Turns.{Decided, TurnLeaves, admit-Grows}

-- What is done with a DESC, or else.
if_desc {ℓ} :
    {A : Type ℓ} (t : PckType) (x y z : A)
    → (elim t [ PckType.desc ↦ x | _ ↦ y ]) ≡ z
    → (x ≡ z) ⊎ (y ≡ z)
if_desc PckType.ack x y z e = inr e
if_desc PckType.nak x y z e = inr e
if_desc PckType.eot x y z e = inr e
if_desc PckType.chall x y z e = inr e
if_desc PckType.chall_resp x y z e = inr e
if_desc PckType.key x y z e = inr e
if_desc PckType.desc x y z e = inl e
if_desc PckType.val x y z e = inr e
if_desc PckType.set x y z e = inr e
if_desc PckType.exit x y z e = inr e
if_desc PckType.id x y z e = inr e

-- What is done with an EOT, or else.
if_eot {ℓ} :
    {A : Type ℓ} (t : Option PckType) (x y z : A)
    → (elim t [ some PckType.eot ↦ x | _ ↦ y ]) ≡ z
    → (x ≡ z) ⊎ (y ≡ z)
if_eot none x y z e = inr e
if_eot (some PckType.ack) x y z e = inr e
if_eot (some PckType.nak) x y z e = inr e
if_eot (some PckType.eot) x y z e = inl e
if_eot (some PckType.chall) x y z e = inr e
if_eot (some PckType.chall_resp) x y z e = inr e
if_eot (some PckType.key) x y z e = inr e
if_eot (some PckType.desc) x y z e = inr e
if_eot (some PckType.val) x y z e = inr e
if_eot (some PckType.set) x y z e = inr e
if_eot (some PckType.exit) x y z e = inr e
if_eot (some PckType.id) x y z e = inr e

-- What the loop leaves behind, with the services that it had before.
abbrev pub LoopLeaves : Services → World → Services → World → Type 0
LoopLeaves services w all w' =
    (made : Services) × (ids : List ℕ) × (all ≡ services ++ made)
    × Grows w.server w.next w'.server w'.next made ids

-- The loop stops with the services that it has.
stops-Leaves :
    (services all : Services) (ending ending' : Ending) (w w1 w' : World)
    → IsValid w.server.service_table
    → w1.server ≡ w.server
    → w1.next ≡ w.next
    → ◌≡◌ {A = Outcome (Ending × Services × World)}
        (ok (ending', services, w1))
        (ok (ending, all, w'))
    → LoopLeaves services w all w'
stops-Leaves services all ending ending' w w1 w' v server next e =
    let is : all ≡ services = cc in
    let server' : w.server ≡ w'.server = cc in
    let next' : w.next ≡ w'.next = cc in
    (
      [],
      [],
      is ∙ sym (append-nil services),
      subst (λ s. Grows w.server w.next s w'.next [] []) server'
          (subst (λ n. Grows w.server w.next w.server n [] []) next'
            (Grows-refl w.server w.next v)),
    )

-- The loop stops with one service more.
ends-Leaves :
    (services all : Services) (ending ending' : Ending) (w w1 w2 w' : World) (p : Option ℕ) (id : ℕ)
    → Grows w.server w.next w1.server w1.next (p ∷ []) (id ∷ [])
    → w2.server ≡ w1.server
    → w2.next ≡ w1.next
    → ◌≡◌ {A = Outcome (Ending × Services × World)}
        (ok (ending', services ++ p ∷ [], w2))
        (ok (ending, all, w'))
    → LoopLeaves services w all w'
ends-Leaves services all ending ending' w w1 w2 w' p id one server next e =
    let is : all ≡ services ++ p ∷ [] = cc in
    let server' : w1.server ≡ w'.server = cc in
    let next' : w1.next ≡ w'.next = cc in
    (
      p ∷ [],
      id ∷ [],
      is,
      subst (λ s. Grows w.server w.next s w'.next (p ∷ []) (id ∷ [])) server'
          (subst (λ n. Grows w.server w.next w1.server n (p ∷ []) (id ∷ [])) next' one),
    )

-- The rest of the loop goes on from one service more.
goes_on-Leaves :
    (services all : Services) (w w1 w' : World) (p : Option ℕ) (id : ℕ)
    → Grows w.server w.next w1.server w1.next (p ∷ []) (id ∷ [])
    → LoopLeaves (services ++ p ∷ []) w1 all w'
    → LoopLeaves services w all w'
goes_on-Leaves services all w w1 w' p id one (made, ids, is, more) = (
  p ∷ made,
  id ∷ ids,
  is ∙ append_assoc services (p ∷ []) made,
  Grows-cons w.server w1.server w'.server w.next w1.next w'.next p id made ids one more,
)

pointer-admitted : (p q : Option ℕ) → Decided p (admitted q) → p ≡ q
pointer-admitted p q (inl is) = cc
pointer-admitted p q (inr is) = cc

pointer-unacknowledged : (p q : Option ℕ) → Decided p (unacknowledged q) → p ≡ q
pointer-unacknowledged p q (inl is) = cc
pointer-unacknowledged p q (inr is) = cc

module _ (evp : Evp) (ivs : ℕ → Option (List ℕ)) (g g' : Garbage) (junk junk' : Float32)
    (key : List ℕ) where
  -- The number of packets that are still to come bounds the growth of the table.
  abbrev Grown : List (Option Packet) → Type 0
  Grown coming =
      (services all : Services) (ending : Ending) (w w' : World)
      → IsValid w.server.service_table
      → length w.server.service_table.services + length coming ≤ 256
      → register_loop evp ivs g g' junk junk' key coming services w ≡ ok (ending, all, w')
      → LoopLeaves services w all w'

  turn-Leaves :
      (later : List (Option Packet)) (turn : Turn) (services all : Services) (ending : Ending)
      (w w1 w' : World)
      → Grown later
      → length w.server.service_table.services + suc (length later) ≤ 256
      → TurnLeaves evp ivs g g' junk junk' key w turn w1
      → ◌≡◌ {A = Outcome (Ending × Services × World)}
          (elim turn [
            | out_of_numbers ↦ ok (refused, services, w1)
            | unacknowledged pointer ↦ ok (unreachable, services ++ pointer ∷ [], w1)
            | admitted pointer ↦ elim (class_of (next_packet w1.link).curr) [
              | some PckType.eot ↦
                  ok (complete, services ++ pointer ∷ [], record w1 { link = next_packet w1.link })
              | _ ↦ register_loop evp ivs g g' junk junk' key later (services ++ pointer ∷ []) w1
            ]
          ])
          (ok (ending, all, w'))
      → LoopLeaves services w all w'
  turn-Leaves later out_of_numbers services all ending w w1 w' loop room (p, id, inl is, one, size)
        e =
      cc
  turn-Leaves later out_of_numbers services all ending w w1 w' loop room (p, id, inr is, one, size)
        e =
      cc
  turn-Leaves later (unacknowledged q) services all ending w w1 w' loop room (p, id, d, one, size)
        e =
      let one' =
        subst (λ p. Grows w.server w.next w1.server w1.next (p ∷ []) (id ∷ []))
          (pointer-unacknowledged p q d) one in
      ends-Leaves services all ending unreachable w w1 w1 w' q id one' refl refl e
  turn-Leaves later (admitted q) services all ending w w1 w' loop room (p, id, d, one, size) e =
      let one' =
        subst (λ p. Grows w.server w.next w1.server w1.next (p ∷ []) (id ∷ []))
          (pointer-admitted p q d) one in
      elim (if_eot (class_of (next_packet w1.link).curr) _ _ _ e) [
        | inl ended ↦
            ends-Leaves services all ending complete w w1 (record w1 { link = next_packet w1.link })
              w' q id one' refl refl ended
        | inr more ↦
            goes_on-Leaves services all w w1 w' q id one' (
              loop (services ++ q ∷ []) all ending w1 w' one.valid (omega (arith, size, room)) more)
      ]

  -- From a valid table with room for as many numbers as packets are to come, the loop only reserves
  -- numbers and makes their services, one after another.
  pub register_loop-Grown : (coming : List (Option Packet)) → Grown coming
  unfolding register_loop
  register_loop-Grown [] services all ending w w' v room e =
      stops-Leaves services all ending refused w _ w' v refl refl e
  register_loop-Grown (none ∷ later) services all ending w w' v room e =
      stops-Leaves services all ending refused w _ w' v refl refl e
  register_loop-Grown (some p ∷ later) services all ending w w' v room e =
      let loop = register_loop-Grown later in
      let w0 = record w { link = stopped (some p) later w.link } in
      elim (if_desc p.type _ _ _ e) [
        | inr other ↦ stops-Leaves services all ending refused w w0 w' v refl refl other
        | inl is_desc ↦
            let ((turn, w1), turned, e1) =
              >>=-eq-ok (admit evp ivs g g' junk junk' key p w0) _ is_desc in
            turn-Leaves later turn services all ending w w1 w' loop room
              (admit-Grows evp ivs g g' junk junk' key p w0 w1 turn v (omega (arith, room)) turned)
              e1
      ]
