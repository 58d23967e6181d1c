-- ===== src/Client/Arriving.antt =====
-- `registerServices` and `initalize` of client.cpp: what they leave of a server and a client whose
-- addresses all lead to services.
use tin_serwer.Base.{
  ℕ, ◌+◌, ◌≤◌, ◌≡◌, refl, sym, ◌∙◌, subst, Bool, true, false, Option, none, some, List, [], length,
  if◌then◌else◌, Outcome, ok, >>=-eq-ok, arith, inl, inr, ◌⊎◌,
}
use tin_serwer.Bytes.{Garbage}
use tin_serwer.Float32.{Float32}
use tin_serwer.Sesskey.{Evp}
use tin_serwer.Keys.{Pubkey}
use tin_serwer.Packet.{new_nak}
use tin_serwer.Link.{Link, send_on}
use tin_serwer.Client.{Heap}
use tin_serwer.Client.Registering.{
  Client, World, Services, Ending, complete, refused, unreachable, enlist, give_back, register_loop,
  conclude, register_services,
}
use tin_serwer.Client.Sessions.{
  Crypto, verify_client, verify_server, send_key, set_used, register_with, initalize,
}
use tin_serwer.Client.Describing.{past-le, Grows}
use tin_serwer.Client.Looping.{register_loop-Grown}
use tin_serwer.Client.Concluding.{give_back-Restored}
use tin_serwer.Client.Enlisting.{enlist-Enlisted}
use tin_serwer.Client.Shrinking.{verify_client-Shrinks, verify_server-Shrinks, send_key-Shrinks}
use tin_serwer.Client.Owning.{
  IsSound, Owns, Stays, Owns-Stays, Grows-Stays, Grows-IsSound, Restored-IsSound, Enlisted-IsSound,
  enlist-Owns,
}

-- The server is sound, what stood in the store stays, and the client owns its services.
abbrev pub Arrived : Heap → Client → World → Type 0
Arrived heap c w = IsSound w.server w.next × Stays heap w.server.heap × Owns w.server.heap c

Stays-refl : (heap : Heap) → Stays heap heap
Stays-refl heap a = inr refl

moved :
    (heap : Heap) (c c' : Client) (w w' : World)
    → c ≡ c'
    → w ≡ w'
    → Arrived heap c w
    → Arrived heap c' w'
moved heap c c' w w' client world arrived =
    subst (Arrived heap c') world (subst (λ x. Arrived heap x w) client arrived)

module _ (evp : Evp) (ivs : ℕ → Option (List ℕ)) (g g' : Garbage) (junk junk' : Float32)
    (key : List ℕ) where
  conclude-Arrived :
      (ending : Ending) (ps : Services) (ids : List ℕ) (c c' : Client) (w w1 w' : World)
      (done : Bool)
      → IsSound w.server w.next
      → Owns w.server.heap c
      → Grows w.server w.next w1.server w1.next ps ids
      → conclude evp ivs g g' junk junk' key ending ps c w1 ≡ ok (done, c', w')
      → Arrived w.server.heap c' w'
  unfolding conclude
  conclude-Arrived complete ps ids c c' w w1 w' done sound owns grows e =
      let ((c2, s2), listed, e1) = >>=-eq-ok (enlist g g' ps c w1.server) _ e in
      let enlisted =
        enlist-Enlisted g g' ps ids _ w.next c c2 w1.server s2 grows.named grows.valid
          grows.reserved listed in
      let stays = Grows-Stays w.server w1.server w.next w1.next ps ids sound grows in
      let grown = Grows-IsSound w.server w1.server w.next w1.next ps ids sound grows in
      moved w.server.heap c2 c' (record w1 { server = s2 }) w' (cc) (cc)
        (
          Enlisted-IsSound w1.server s2 _ w.next w1.next ps ids grown grows.named enlisted,
          subst (Stays w.server.heap) (sym enlisted.heap) stays,
          enlist-Owns g g' ps c c2 w1.server s2 (Owns-Stays _ _ c stays owns) listed,
        )
  conclude-Arrived refused ps ids c c' w w1 w' done sound owns grows e =
      let (nak, _, e1) = >>=-eq-ok (new_nak g 0) _ e in
      let ((ret, link), _, e2) = >>=-eq-ok (send_on evp ivs g nak (some key) w1.link) _ e1 in
      let (s2, given, e3) = >>=-eq-ok (give_back ps w1.server) _ e2 in
      let restored =
        give_back-Restored ps ids _ w.next w1.server s2 grows.named grows.valid grows.reserved
          (λ a le.
            grows.above a (omega (arith, grows.reaches, le))
            ∙ sound.fresh a (omega (arith, past-le w.next ps, le)))
          given in
      let (left, stays) =
        Restored-IsSound w.server w1.server s2 _ w.next w1.next ps ids sound grows restored in
      moved w.server.heap c c' (record w1 { server = s2; link = link }) w' (cc) (cc)
        (left, stays, Owns-Stays _ _ c stays owns)
  conclude-Arrived unreachable ps ids c c' w w1 w' done sound owns grows e =
      let stays = Grows-Stays w.server w1.server w.next w1.next ps ids sound grows in
      moved w.server.heap c c' w1 w' (cc) (cc) (
        Grows-IsSound w.server w1.server w.next w1.next ps ids sound grows,
        stays,
        Owns-Stays _ _ c stays owns,
      )

  pub register_services-Arrived :
      (c c' : Client) (w w' : World) (done : Bool)
      → IsSound w.server w.next
      → Owns w.server.heap c
      → length w.server.service_table.services + length w.link.coming ≤ 256
      → register_services evp ivs g g' junk junk' key c w ≡ ok (done, c', w')
      → Arrived w.server.heap c' w'
  unfolding register_services
  register_services-Arrived c c' w w' done sound owns room e =
      let ((ending, services, w1), looped, e1) =
        >>=-eq-ok (register_loop evp ivs g g' junk junk' key w.link.coming [] w) _ e in
      let (made, ids, is, grows) =
        register_loop-Grown evp ivs g g' junk junk' key w.link.coming [] services ending w w1
          sound.table_valid room looped in
      conclude-Arrived ending services ids c c' w w1 w' done sound owns
        (subst (λ ps. Grows w.server w.next w1.server w1.next ps ids) (sym is) grows) e1

module _ (crypto : Crypto) where
  register_with-Arrived :
      (key : Option (List ℕ)) (c c' : Client) (w w' : World) (done : Bool)
      → IsSound w.server w.next
      → Owns w.server.heap c
      → length w.server.service_table.services + length w.link.coming ≤ 256
      → register_with crypto key c w ≡ ok (done, c', w')
      → Arrived w.server.heap c' w'
  unfolding register_with
  register_with-Arrived none c c' w w' done sound owns room e =
      moved w.server.heap c c' w w' (cc) (cc) (sound, Stays-refl w.server.heap, owns)
  register_with-Arrived (some key) c c' w w' done sound owns room e =
      let ((good, c1, w1), registered, e1) =
        >>=-eq-ok
          (register_services crypto.evp crypto.ivs crypto.g crypto.g' crypto.junk crypto.junk' key c
            w)
          _ e in
      let (sound1, stays, owns1) =
        register_services-Arrived crypto.evp crypto.ivs crypto.g crypto.g' crypto.junk crypto.junk'
          key c c1 w w1 good sound owns room registered in
      moved w.server.heap (if good then set_used true c1 else c1) c' w1 w' (cc) (cc)
        (sound1, stays, used_owned good w1.server.heap c1 owns1)
    where
      used_owned :
          (good : Bool) (heap : Heap) (c : Client)
          → Owns heap c
          → Owns heap (if good then set_used true c else c)
      used_owned true heap c owns = record { inputs = owns.inputs; outputs = owns.outputs }
      used_owned false heap c owns = owns

  -- Where a step of `initalize` fails, the server and the client are as before.
  stopped-Arrived :
      (good : Bool) (out : Outcome (Bool × Client × World)) (link : Link) (c c' : Client)
      (w w' : World) (done : Bool)
      → IsSound w.server w.next
      → Owns w.server.heap c
      → if◌then◌else◌ {A = Outcome (Bool × Client × World)} good out
          (ok (false, c, record w { link = link }))
        ≡ ok (done, c', w')
      → Arrived w.server.heap c' w' ⊎ (out ≡ ok (done, c', w'))
  stopped-Arrived true out link c c' w w' done sound owns e = inr e
  stopped-Arrived false out link c c' w w' done sound owns e = inl (
      moved w.server.heap c c' (record w { link = link }) w' (cc) (cc)
        (sound, Stays-refl w.server.heap, owns))

  pub initalize-Arrived :
      (key : Pubkey) (c c' : Client) (w w' : World) (done : Bool)
      → IsSound w.server w.next
      → Owns w.server.heap c
      → length w.server.service_table.services + length w.link.coming ≤ 256
      → initalize crypto key c w ≡ ok (done, c', w')
      → Arrived w.server.heap c' w'
  unfolding initalize
  initalize-Arrived key c c' w w' done sound owns room e =
      let ((good, link1), checked, e1) = >>=-eq-ok (verify_client crypto key w.link) _ e in
      let le1 = verify_client-Shrinks crypto key w.link link1 good checked in
      elim (stopped-Arrived good _ link1 c c' w w' done sound owns e1) [
        | inl stops ↦ stops
        | inr verified ↦
            let ((shown, link2), answered, e2) =
              >>=-eq-ok (verify_server crypto link1) _ verified in
            let le2 = verify_server-Shrinks crypto link1 link2 shown answered in
            elim (stopped-Arrived shown _ link2 c c' w w' done sound owns e2) [
              | inl stops ↦ stops
              | inr trusted ↦
                  let ((sesskey, link3), sent, e3) =
                    >>=-eq-ok (send_key crypto key link2) _ trusted in
                  let le3 = send_key-Shrinks crypto key link2 link3 sesskey sent in
                  register_with-Arrived sesskey c c' (record w { link = link3 }) w' done sound owns
                    (omega (arith, room, le1, le2, le3)) e3
            ]
      ]
