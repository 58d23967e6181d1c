-- ===== src/Client/Turns.antt =====
-- The loop of `registerServices` of client.cpp, turn by turn.
use tin_serwer.Base.{
  ℕ, suc, ◌+◌, ◌≤◌, ◌<◌, ◌==◌, ◌≡◌, refl, sym, ◌∙◌, subst, Bool, true, false, Option, none, some,
  List, [], ◌∷◌, if◌then◌else◌, length, ltb, ok, >>=-eq-ok, Bool-cases, inl, inr, ◌⊎◌, arith,
  lt→ltb, if_true,
}
use tin_serwer.Bytes.{Garbage}
use tin_serwer.Float32.{Float32}
use tin_serwer.Socket.{below_one}
use tin_serwer.Sesskey.{Evp}
use tin_serwer.Packet.{Packet, new_ack, byte_1, get_name, get_unit, get_min, get_max}
use tin_serwer.Link.{send_on}
use tin_serwer.Service.{Service, common_of, service_factory}
use tin_serwer.ServiceTable.{ServiceTable, reserve}
use tin_serwer.ServiceTable.Ids.{count, count-append, length-resize}
use tin_serwer.ServiceTable.Invariant.{IsValid, reserve-Reserves, reserve-IsValid}
use tin_serwer.ServiceTable.Status.{slot, slot-resize}
use tin_serwer.Server.{Server, reserve_id}
use tin_serwer.Client.Registering.{
  World, Turn, admitted, unacknowledged, allocate, make_service, acknowledge, admit,
}
use tin_serwer.Client.Describing.{past, Named, Grows}

-- What one call of `reserve` changes.
abbrev ReservesOne : ServiceTable ℕ → ℕ × ServiceTable ℕ → Type 0
ReservesOne t (id, u) =
    (0 < id)
    × ((j : ℕ) → count j u.reserved ≡ count j t.reserved + count j (id ∷ []))
    × ((j : ℕ) → slot u.services j ≡ slot t.services j)
    × (length u.services ≤ length t.services + 1)
    × IsValid u

reserve-ReservesOne :
    (t : ServiceTable ℕ) → IsValid t → length t.services < 256 → ReservesOne t (reserve t)
reserve-ReservesOne t v small =
    let v' = reserve-IsValid t v (inl small) in
    elim (reserve-Reserves t v (inl small)) [
      | inl (c, rest, e, le, r) ↦
          let free : count c t.free ≡ suc (count c rest) = rw e (ground arith) in
          subst (ReservesOne t) (sym r) (
            ground (arith, v.exact c, free),
            λ j. count-append j t.reserved (c ∷ []),
            λ j. refl,
            omega arith,
            subst (λ x. IsValid x.1) r v',
          )
      | inr (e, le, r) ↦ subst (ReservesOne t) (sym r) (
        v.positive,
        λ j. count-append j t.reserved (length t.services ∷ []),
        λ j. slot-resize (length t.services + 1) t.services j (omega arith),
        omega (arith, length-resize (length t.services + 1) t.services),
        subst (λ x. IsValid x.1) r v',
      )
    ]

-- The number of what the factory made, or `id` for the null pointer.
abbrev number_of : ℕ → Option Service → ℕ
number_of id none = id
number_of id (some s) = (common_of s).id

-- The number of a service is the one that the factory was given.
number_of-service_factory :
    (junk junk' : Float32) (id srv_type : ℕ) (name unit : List ℕ) (min max : Float32)
    → number_of id (service_factory junk junk' id srv_type name unit min max) ≡ id
unfolding service_factory common_of
number_of-service_factory junk junk' id srv_type name unit min max =
    elim (Bool-cases (srv_type == 0)) [
      | inl e ↦ rw e refl
      | inr e ↦ elim (Bool-cases (srv_type == 2)) [
        | inl e2 ↦ rw (e, e2) refl
        | inr e2 ↦ elim (Bool-cases (srv_type == 1)) [
          | inl e1 ↦ rw (e, e2, e1) refl
          | inr e1 ↦ elim (Bool-cases (srv_type == 3)) [
            | inl e3 ↦ rw (e, e2, e1, e3) refl
            | inr e3 ↦ rw (e, e2, e1, e3) refl
          ]
        ]
      ]
    ]

-- The heap and the allocations after `allocate`.
allocate-Named :
    (service : Option Service) (w : World) (id : ℕ)
    → number_of id service ≡ id
    → let (pointer, made) = allocate service w in
      Named made.server.heap w.next (pointer ∷ []) (id ∷ [])
      × (made.next ≡ past w.next (pointer ∷ []))
      × ((a : ℕ) → a < w.next → made.server.heap a ≡ w.server.heap a)
      × ((a : ℕ) → made.next ≤ a → made.server.heap a ≡ w.server.heap a)
      × (made.server.service_table ≡ w.server.service_table)
      × (made.server.send_msg_queue ≡ w.server.send_msg_queue)
      × (made.link ≡ w.link)
unfolding allocate
allocate-Named none w id num = (tt, refl, λ a lt. refl, λ a le. refl, refl, refl, refl)
allocate-Named (some s) w id num = (
  (refl, (s, ground (arith), num), tt),
  omega arith,
  λ a lt. ground arith,
  λ a le. ground arith,
  refl,
  refl,
  refl,
)

-- What becomes of a service that was made.
abbrev pub Decided : Option ℕ → Turn → Type 0
Decided pointer turn = (turn ≡ admitted pointer) ⊎ (turn ≡ unacknowledged pointer)

decided :
    (low : Bool) (pointer : Option ℕ)
    → Decided pointer (if low then unacknowledged pointer else admitted pointer)
decided true pointer = inr refl
decided false pointer = inl refl

module _ (evp : Evp) (ivs : ℕ → Option (List ℕ)) (g g' : Garbage) (junk junk' : Float32)
    (key : List ℕ) where
  number_of-make_service :
      (id : ℕ) (p : Packet) (service : Option Service)
      → make_service evp ivs g g' junk junk' key id p ≡ ok service
      → number_of id service ≡ id
  unfolding make_service
  number_of-make_service id p service e =
      let (srv_type, _, e1) = >>=-eq-ok (byte_1 p) _ e in
      let (name, _, e2) = >>=-eq-ok (get_name p) _ e1 in
      let (unit, _, e3) = >>=-eq-ok (get_unit p) _ e2 in
      let (min, _, e4) = >>=-eq-ok (get_min p) _ e3 in
      let (max, _, e5) = >>=-eq-ok (get_max p) _ e4 in
      let made : service ≡ service_factory junk junk' id srv_type name unit min max = cc in
      rw made (number_of-service_factory junk junk' id srv_type name unit min max)

  -- A reserved number and an allocated service make the server grow.
  made-Grows :
      (id : ℕ) (p : Option ℕ) (s made : Server) (u : ServiceTable ℕ) (n n' : ℕ)
      → ReservesOne s.service_table (id, u)
      → made.service_table ≡ u
      → made.send_msg_queue ≡ s.send_msg_queue
      → Named made.heap n (p ∷ []) (id ∷ [])
      → n' ≡ past n (p ∷ [])
      → ((a : ℕ) → a < n → made.heap a ≡ s.heap a)
      → ((a : ℕ) → n' ≤ a → made.heap a ≡ s.heap a)
      → Grows s n made n' (p ∷ []) (id ∷ [])
        × (length made.service_table.services ≤ length s.service_table.services + 1)
  made-Grows id p s made u n n' one table queue named reaches low high =
      let (pos, counts, slots, size, v) : ReservesOne s.service_table (id, made.service_table) =
        subst (λ t. ReservesOne s.service_table (id, t)) (sym table) one in
      (
        record {
          named = named;
          reaches = reaches;
          below = low;
          above = high;
          reserved = counts;
          slots = slots;
          valid = v;
          queue = queue;
        },
        size,
      )

  -- What a turn leaves behind.
  abbrev pub TurnLeaves : World → Turn → World → Type 0
  TurnLeaves w turn w' =
      (pointer : Option ℕ) × (id : ℕ) × Decided pointer turn
      × Grows w.server w.next w'.server w'.next (pointer ∷ []) (id ∷ [])
      × (length w'.server.service_table.services ≤ length w.server.service_table.services + 1)

  acknowledge-Grows :
      (id : ℕ) (service : Option Service) (u : ServiceTable ℕ) (w w' : World) (turn : Turn)
      → number_of id service ≡ id
      → ReservesOne w.server.service_table (id, u)
      → acknowledge evp ivs g g' junk junk' key id service
          (record w { server = record w.server { service_table = u } })
        ≡ ok (turn, w')
      → TurnLeaves w turn w'
  unfolding acknowledge
  acknowledge-Grows id service u w w' turn num one e =
      let w1 = record w { server = record w.server { service_table = u } } in
      let (pointer, made) = allocate service w1 in
      let (named, next, low, high, table, queue, link) = allocate-Named service w1 id num in
      let (ack, _, e2) = >>=-eq-ok (new_ack g id) _ e in
      let ((ret, link1), sent, e3) = >>=-eq-ok (send_on evp ivs g ack (some key) made.link) _ e2 in
      let after : record made { link = link1 } ≡ w' = cc in
      let (grows, size) =
        made-Grows id pointer w.server made.server u w.next made.next one table queue named next low
          high in
      let turned : (if below_one ret then unacknowledged pointer else admitted pointer) ≡ turn =
        cc in
      (
        pointer,
        id,
        subst (Decided pointer) turned (decided (below_one ret) pointer),
        subst (λ k. Grows w.server w.next k.server k.next (pointer ∷ []) (id ∷ [])) after grows,
        subst
            (λ k.
              length k.server.service_table.services ≤ length w.server.service_table.services + 1)
            after size,
      )

  -- One turn of the loop that found a number: the number is reserved, and a service is made for it.
  pub admit-Grows :
      (p : Packet) (w w' : World) (turn : Turn)
      → IsValid w.server.service_table
      → length w.server.service_table.services < 256
      → admit evp ivs g g' junk junk' key p w ≡ ok (turn, w')
      → TurnLeaves w turn w'
  unfolding admit reserve_id
  admit-Grows p w w' turn v small e =
      let (id, u) = reserve w.server.service_table in
      let one = reserve-ReservesOne w.server.service_table v small in
      let e0 = sym (if_true (ltb 0 id) _ _ (lt→ltb 0 id one.0)) ∙ e in
      let (service, made, e1) = >>=-eq-ok (make_service evp ivs g g' junk junk' key id p) _ e0 in
      acknowledge-Grows id service u w w' turn (number_of-make_service id p service made) one e1
