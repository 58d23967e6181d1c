-- ===== src/Client/Registration.antt =====
-- `registerServices` of client.cpp as a whole: what each of its endings leaves behind.
use tin_serwer.Base.{
  ℕ, ◌+◌, ◌≤◌, ◌<◌, ◌≡◌, sym, ◌∙◌, subst, Bool, true, false, Option, none, some, List, [], ◌∷◌,
  length, leb, ok, >>=-eq-ok, >>=-first, inl, inr, arith, Bool-cases, ltb, ◌||◌,
}
use tin_serwer.Bytes.{Garbage}
use tin_serwer.Float32.{Float32}
use tin_serwer.Sesskey.{Evp}
use tin_serwer.Packet.{new_nak}
use tin_serwer.Link.{send_on}
use tin_serwer.ServiceTable.Ids.{count}
use tin_serwer.ServiceTable.Invariant.{IsValid}
use tin_serwer.ServiceTable.{get_service}
use tin_serwer.ServiceTable.Status.{slot, get_service-slot}
use tin_serwer.Server.{Server}
use tin_serwer.Client.Registering.{
  Client, World, Services, Ending, complete, refused, unreachable, enlist, give_back, register_loop,
  conclude, register_services,
}
use tin_serwer.Client.Membership.{knows, enlist-knows}
use tin_serwer.Client.Describing.{past-le, Named, Grows}
use tin_serwer.Client.Looping.{register_loop-Grown}
use tin_serwer.Client.Concluding.{Restored, give_back-Restored}
use tin_serwer.Client.Enlisting.{Lives, Enlisted, enlist-Enlisted}

-- The services stand in the store and in the table, each under its number. No number is left
-- reserved for them, and no other number leads to another service than before.
pub record Registered (s s' : Server) (next : ℕ) (services : Services) (ids : List ℕ) : Type 0 where
  pub made : Named s'.heap next services ids
  pub lives : Lives (λ j. get_service j s'.service_table) services ids
  pub others :
      (j : ℕ) → count j ids ≡ 0 → get_service j s'.service_table ≡ get_service j s.service_table
  pub none_reserved : (j : ℕ) → count j s'.service_table.reserved ≡ count j s.service_table.reserved
  pub table_valid : IsValid s'.service_table

-- The numbers, the services and the store are as they were.
pub record Undone (s s' : Server) : Type 0 where
  pub none_reserved : (j : ℕ) → count j s'.service_table.reserved ≡ count j s.service_table.reserved
  pub same_services : (j : ℕ) → get_service j s'.service_table ≡ get_service j s.service_table
  pub same_store : (a : ℕ) → s'.heap a ≡ s.heap a
  pub table_valid : IsValid s'.service_table

-- The services stand in the store, and their numbers stay reserved.
pub record Abandoned (s s' : Server) (next : ℕ) (services : Services) (ids : List ℕ) : Type 0 where
  pub made : Named s'.heap next services ids
  pub still_reserved :
      (j : ℕ) → count j s'.service_table.reserved ≡ count j s.service_table.reserved + count j ids
  pub same_services : (j : ℕ) → get_service j s'.service_table ≡ get_service j s.service_table
  pub table_valid : IsValid s'.service_table

-- What `registerServices` leaves behind and returns, for each ending of its loop.
abbrev pub Concluded : Ending → Services → Client → World → Bool → Client → World → Type 0
Concluded complete services c w done c' w' =
    (done ≡ true)
    × ((ids : List ℕ) × Registered w.server w'.server w.next services ids
        × ((j : ℕ) → knows j c' ≡ (ltb 0 (count j ids) || knows j c)))
Concluded refused services c w done c' w' = (done ≡ false) × (c' ≡ c) × Undone w.server w'.server
Concluded unreachable services c w done c' w' =
    (done ≡ false) × (c' ≡ c) × ((ids : List ℕ) × Abandoned w.server w'.server w.next services ids)

slots_kept :
    (s s' : Server) (j : ℕ)
    → slot s'.service_table.services j ≡ slot s.service_table.services j
    → get_service j s'.service_table ≡ get_service j s.service_table
slots_kept s s' j e =
    get_service-slot j s'.service_table ∙ (e ∙ sym (get_service-slot j s.service_table))

Lives-looked :
    (s : Server) (ps : Services) (ids : List ℕ)
    → Lives (slot s.service_table.services) ps ids
    → Lives (λ j. get_service j s.service_table) ps ids
Lives-looked s [] [] l = tt
Lives-looked s [] (id ∷ ids) l = l
Lives-looked s (none ∷ ps) [] l = l
Lives-looked s (some a ∷ ps) [] l = l
Lives-looked s (none ∷ ps) (id ∷ ids) l = l
Lives-looked s (some a ∷ ps) (id ∷ ids) (l, ls) =
    (get_service-slot id s.service_table ∙ l, Lives-looked s ps ids ls)

registered :
    (s s1 s' : Server) (next n1 : ℕ) (ps : Services) (ids : List ℕ)
    → Grows s next s1 n1 ps ids
    → Enlisted (λ j. count j s.service_table.reserved) s1 s' ps ids
    → Registered s s' next ps ids
registered s s1 s' next n1 ps ids grows e = record {
  made = subst (λ h. Named h next ps ids) (sym e.heap) grows.named;
  lives = Lives-looked s' ps ids e.lives;
  others = λ j out. slots_kept s s' j (e.others j out ∙ grows.slots j);
  none_reserved = e.reserved;
  table_valid = e.valid;
}

undone :
    (s s1 s' : Server) (next n1 : ℕ) (ps : Services) (ids : List ℕ)
    → ((a : ℕ) → next ≤ a → s.heap a ≡ none)
    → Grows s next s1 n1 ps ids
    → Restored (λ j. count j s.service_table.reserved) next s1 s'
    → Undone s s'
undone s s1 s' next n1 ps ids fresh grows r = record {
  none_reserved = r.reserved;
  same_services = λ j. slots_kept s s' j (r.slots j ∙ grows.slots j);
  same_store = λ a. elim (Bool-cases (leb next a)) [
    | inl past_next ↦
        r.freed a (ground (arith, past_next)) ∙ sym (fresh a (ground (arith, past_next)))
    | inr before ↦ let lt : a < next = ground (arith, before) in r.below a lt ∙ grows.below a lt
  ];
  table_valid = r.valid;
}

module _ (evp : Evp) (ivs : ℕ → Option (List ℕ)) (g g' : Garbage) (junk junk' : Float32)
    (key : List ℕ) where
  conclude-Concluded :
      (ending : Ending) (ps : Services) (ids : List ℕ) (c c' : Client) (w w1 w' : World)
      (done : Bool)
      → ((a : ℕ) → w.next ≤ a → w.server.heap a ≡ none)
      → Grows w.server w.next w1.server w1.next ps ids
      → conclude evp ivs g g' junk junk' key ending ps c w1 ≡ ok (done, c', w')
      → Concluded ending ps c w done c' w'
  unfolding conclude
  conclude-Concluded complete ps ids c c' w w1 w' done fresh grows e =
      let ((c2, s2), listed, e1) = >>=-eq-ok (enlist g g' ps c w1.server) _ e in
      let server : s2 ≡ w'.server = cc in
      let client : c2 ≡ c' = cc in
      (
        cc,
        (
          ids,
          subst (λ s. Registered w.server s w.next ps ids) server
              (registered w.server w1.server s2 w.next w1.next ps ids grows (
                enlist-Enlisted g g' ps ids _ w.next c c2 w1.server s2 grows.named grows.valid
                  grows.reserved listed)),
          λ j.
              subst (λ x. knows j x ≡ (ltb 0 (count j ids) || knows j c)) client
                (enlist-knows g g' ps ids w.next j c c2 w1.server s2 grows.named listed),
        ),
      )
  conclude-Concluded refused ps ids c c' w w1 w' done fresh grows e =
      let (nak, _, e1) = >>=-eq-ok (new_nak g 0) _ e in
      let ((ret, link), _, e2) = >>=-eq-ok (send_on evp ivs g nak (some key) w1.link) _ e1 in
      let (s2, given, e3) = >>=-eq-ok (give_back ps w1.server) _ e2 in
      let server : s2 ≡ w'.server = cc in
      (
        cc,
        cc,
        subst (Undone w.server) server (
            undone w.server w1.server s2 w.next w1.next ps ids fresh grows (
              give_back-Restored ps ids _ w.next w1.server s2 grows.named grows.valid grows.reserved
                (λ a le.
                  grows.above a (omega (arith, grows.reaches, le))
                  ∙ fresh a (omega (arith, past-le w.next ps, le)))
                given)),
      )
  conclude-Concluded unreachable ps ids c c' w w1 w' done fresh grows e =
      let server : w1.server ≡ w'.server = cc in
      (
        cc,
        cc,
        (
          ids,
          subst (λ s. Abandoned w.server s w.next ps ids) server
              (record {
                made = grows.named;
                still_reserved = grows.reserved;
                same_services = λ j. slots_kept w.server w1.server j (grows.slots j);
                table_valid = grows.valid;
              }),
        ),
      )

  -- From a valid table with room for as many numbers as packets are to come, and addresses that
  -- are not in use yet: if the loop ended with the EOT, `registerServices` returns true, each
  -- service that was described is in the store and in the table under its number, no other number
  -- has changed, and the client's maps have gained exactly these numbers. If it was refused, false
  -- is returned, and the numbers, the services, the store and the client are as before. If an ACK
  -- could not be sent, false is returned, the client is as before, and the numbers stay reserved
  -- for services that stay in the store.
  pub register_services-Concluded :
      (c c' : Client) (w w1 w' : World) (ending : Ending) (services : Services) (done : Bool)
      → IsValid w.server.service_table
      → length w.server.service_table.services + length w.link.coming ≤ 256
      → ((a : ℕ) → w.next ≤ a → w.server.heap a ≡ none)
      → register_loop evp ivs g g' junk junk' key w.link.coming [] w ≡ ok (ending, services, w1)
      → register_services evp ivs g g' junk junk' key c w ≡ ok (done, c', w')
      → Concluded ending services c w done c' w'
  unfolding register_services
  register_services-Concluded c c' w w1 w' ending services done v room fresh looped e =
      let (made, ids, is, grows) =
        register_loop-Grown evp ivs g g' junk junk' key w.link.coming [] services ending w w1 v room
          looped in
      conclude-Concluded ending services ids c c' w w1 w' done fresh
        (subst (λ ps. Grows w.server w.next w1.server w1.next ps ids) (sym is) grows)
        (>>=-first _ _ looped e)
