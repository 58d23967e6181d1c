-- ===== src/ConHandler/Entering.antt =====
-- `ConHandler::registration` and `ConHandler::handle` of ConHandler.cpp, on a handler whose
-- addresses all lead to services.
use tin_serwer.Base.{
  ℕ, ◌+◌, ◌≤◌, ◌≡◌, refl, ap, subst, Bool, true, false, Option, none, some, length, if◌then◌else◌,
  ◌==◌, Outcome, ok, ◌>>=◌, >>=-eq-ok, arith, Bool-cases, inl, inr, ◌⊎◌, find, erase,
  AllValues-assign, AllValues-find, ==_refl,
}
use tin_serwer.Keys.{Pubkey}
use tin_serwer.Packet.{Packet, PckType, byte_1}
use tin_serwer.Link.{Link, next_packet, class_of}
use tin_serwer.Client.Registering.{Client, World}
use tin_serwer.Client.Sessions.{Crypto, initalize}
use tin_serwer.Client.Kinds.{next_packet-Shrinks}
use tin_serwer.Client.Owning.{IsSound, Owns, Stays, Owns-Stays}
use tin_serwer.Client.Arriving.{initalize-Arrived}
use tin_serwer.ConHandler.{
  ConHandler, set_client, admit_client, identify, cast_id, registration, retry, try_data_exchange,
  handle,
}
use tin_serwer.ConHandler.Admission.{left}
use tin_serwer.ConHandler.Keeping.{OwnsAt, IsWhole, updated-IsWhole, erase-Keeps}
use tin_serwer.ConHandler.Serving.{try_data_exchange-Served}

-- The table has room for a number for each packet that is to come.
abbrev pub HasRoomFor : Link → ConHandler → Type 0
HasRoomFor link h = length h.server.service_table.services + length link.coming ≤ 256

-- What is done with an ID, or else.
if_id {ℓ} :
    {A : Type ℓ} (t : PckType) (x z : A) {r : A}
    → (elim t [ PckType.id ↦ x | _ ↦ z ]) ≡ r
    → (x ≡ r) ⊎ (z ≡ r)
if_id PckType.ack x z e = inr e
if_id PckType.nak x z e = inr e
if_id PckType.eot x z e = inr e
if_id PckType.chall x z e = inr e
if_id PckType.chall_resp x z e = inr e
if_id PckType.key x z e = inr e
if_id PckType.desc x z e = inr e
if_id PckType.val x z e = inr e
if_id PckType.set x z e = inr e
if_id PckType.exit x z e = inr e
if_id PckType.id x z e = inl e

if_id_class {ℓ} :
    {A : Type ℓ} (t : Option PckType) (x z : A) {r : A}
    → (elim t [ some PckType.id ↦ x | _ ↦ z ]) ≡ r
    → (x ≡ r) ⊎ (z ≡ r)
if_id_class none x z e = inr e
if_id_class (some PckType.ack) x z e = inr e
if_id_class (some PckType.nak) x z e = inr e
if_id_class (some PckType.eot) x z e = inr e
if_id_class (some PckType.chall) x z e = inr e
if_id_class (some PckType.chall_resp) x z e = inr e
if_id_class (some PckType.key) x z e = inr e
if_id_class (some PckType.desc) x z e = inr e
if_id_class (some PckType.val) x z e = inr e
if_id_class (some PckType.set) x z e = inr e
if_id_class (some PckType.exit) x z e = inr e
if_id_class (some PckType.id) x z e = inl e

-- What `admitClient` leaves of a whole handler, where the client that arrived owns its services.
left-IsWhole :
    (addr i : ℕ) (done : Bool) (c : Client) (w : World) (h : ConHandler)
    → IsSound w.server w.next
    → Stays h.server.heap w.server.heap
    → Owns w.server.heap c
    → IsWhole h
    → IsWhole (left addr i done c w h)
left-IsWhole addr i done c w h sound stays owns whole = entered done
  where
    h1 : ConHandler
    h1 = set_client i c (record h { server = w.server; next = w.next })

    still :
        (j : ℕ)
        → Owns h.server.heap (h.clients j)
        → Owns w.server.heap (if i == j then c else h.clients j)
    still j owned = elim (Bool-cases (i == j)) [
      | inl same ↦ rw same owns
      | inr other ↦ rw other (Owns-Stays h.server.heap w.server.heap (h.clients j) stays owned)
    ]

    entered : (done : Bool) → IsWhole (left addr i done c w h)
    entered false = updated-IsWhole h w.server w.next h1.clients sound still whole
    entered true =
        let before = updated-IsWhole h w.server w.next h1.clients sound still whole in
        record {
          sound = before.sound;
          known = before.known;
          admitted =
              AllValues-assign (λ j. Owns w.server.heap (h1.clients j)) addr i h.addr_client_pairs
                (rw (==_refl i) owns) before.admitted;
        }

module _ (crypto : Crypto) (keys : ℕ → Pubkey) (addr : ℕ) where
  admit_client-IsWhole :
      (pointer : Option ℕ) (h h' : ConHandler) (link link' : Link)
      → HasRoomFor link h
      → OwnsAt h.server.heap h.clients pointer
      → IsWhole h
      → admit_client crypto keys addr pointer link h ≡ ok (link', h')
      → IsWhole h'
  unfolding admit_client
  admit_client-IsWhole none h h' link link' room owns whole e = cc
  admit_client-IsWhole (some i) h h' link link' room owns whole e =
      let w : World = record { server = h.server; next = h.next; link = link } in
      let ((done, c, w'), ended, e1) = >>=-eq-ok (initalize crypto (keys i) (h.clients i) w) _ e in
      let (sound, stays, owned) =
        initalize-Arrived crypto (keys i) (h.clients i) c w w' done whole.sound owns room ended in
      let is : left addr i done c w' h ≡ h' = cc in
      subst IsWhole is (left-IsWhole addr i done c w' h sound stays owned whole)

  -- A number of the configuration, or else.
  found-IsWhole :
      (num : ℕ) (found : Option (Option ℕ)) (h h' : ConHandler) (link link' : Link)
      → HasRoomFor link h
      → find num h.id_client_pairs ≡ found
      → IsWhole h
      → ◌≡◌ {A = Outcome (Link × ConHandler)}
          (elim found [
            | none ↦ ok (link, h)
            | some pointer ↦ admit_client crypto keys addr pointer link h
          ])
          (ok (link', h'))
      → IsWhole h'
  found-IsWhole num none h h' link link' room known whole e =
      let same : h ≡ h' = cc in subst IsWhole same whole
  found-IsWhole num (some pointer) h h' link link' room known whole e =
      admit_client-IsWhole pointer h h' link link' room
        (AllValues-find (OwnsAt h.server.heap h.clients) num pointer h.id_client_pairs whole.known
          known)
        whole e

  identify-IsWhole :
      (p : Packet) (h h' : ConHandler) (link link' : Link)
      → HasRoomFor link h
      → IsWhole h
      → identify crypto keys addr p link h ≡ ok (link', h')
      → IsWhole h'
  unfolding identify
  identify-IsWhole p h h' link link' room whole e =
      let (num, _, e1) = >>=-eq-ok (byte_1 p) _ e in
      found-IsWhole num _ h h' link link' room refl whole e1

  cast_id-IsWhole :
      (curr : Option Packet) (h h' : ConHandler) (link link' : Link)
      → HasRoomFor link h
      → IsWhole h
      → cast_id crypto keys addr curr link h ≡ ok (link', h')
      → IsWhole h'
  unfolding cast_id
  cast_id-IsWhole none h h' link link' room whole e =
      let same : h ≡ h' = cc in subst IsWhole same whole
  cast_id-IsWhole (some p) h h' link link' room whole e = elim (if_id p.type _ _ e) [
    | inl identifies ↦ identify-IsWhole p h h' link link' room whole identifies
    | inr stops ↦ let same : h ≡ h' = cc in subst IsWhole same whole
  ]

  registration-IsWhole :
      (h h' : ConHandler) (link link' : Link)
      → HasRoomFor link h
      → IsWhole h
      → registration crypto keys addr link h ≡ ok (link', h')
      → IsWhole h'
  unfolding registration
  registration-IsWhole h h' link link' room whole e = exiting h.exit_flag e
    where
      exiting :
          (flag : Bool)
          → if◌then◌else◌ {A = Outcome (Link × ConHandler)} flag
              (ok (link, h))
              (cast_id crypto keys addr link.curr link h)
            ≡ ok (link', h')
          → IsWhole h'
      exiting true e = let same : h ≡ h' = cc in subst IsWhole same whole
      exiting false e = cast_id-IsWhole link.curr h h' link link' room whole e

  retry-IsWhole :
      (h h' : ConHandler) (link link' : Link)
      → HasRoomFor link h
      → IsWhole h
      → retry crypto keys addr link h ≡ ok (link', h')
      → IsWhole h'
  unfolding retry
  retry-IsWhole h h' link link' room whole e = elim (if_id_class (class_of link.curr) _ _ e) [
    | inl again ↦
        registration-IsWhole (record h { addr_client_pairs = erase addr h.addr_client_pairs }) h'
          link link' room ((erase-Keeps h addr).0 whole) again
    | inr stops ↦ let same : h ≡ h' = cc in subst IsWhole same whole
  ]

  -- What is done with a connection from an address that is known, or else.
  served-IsWhole :
      (i : ℕ) (h h' : ConHandler) (link link' : Link)
      → HasRoomFor link h
      → IsWhole h
      → (try_data_exchange crypto (keys i) i link h >>= λ r.
          if r.0 then ok (r.1, r.2) else retry crypto keys addr r.1 r.2)
        ≡ ok (link', h')
      → IsWhole h'
  served-IsWhole i h h' link link' room whole e =
      let ((good, link1, h1), exchanged, e1) =
        >>=-eq-ok (try_data_exchange crypto (keys i) i link h) _ e in
      let (keeps, table, le) =
        try_data_exchange-Served crypto (keys i) i good h h1 link link1 exchanged in
      retried good h1 link1 (keeps whole)
        (omega (arith, room, le, ap (λ t. length t.services) table)) e1
    where
      retried :
          (good : Bool) (h1 : ConHandler) (link1 : Link)
          → IsWhole h1
          → HasRoomFor link1 h1
          → if◌then◌else◌ {A = Outcome (Link × ConHandler)} good
              (ok (link1, h1))
              (retry crypto keys addr link1 h1)
            ≡ ok (link', h')
          → IsWhole h'
      retried true h1 link1 whole1 room1 e = let same : h1 ≡ h' = cc in subst IsWhole same whole1
      retried false h1 link1 whole1 room1 e = retry-IsWhole h1 h' link1 link' room1 whole1 e

  pub handle-IsWhole :
      (h h' : ConHandler) (link link' : Link)
      → HasRoomFor link h
      → IsWhole h
      → handle crypto keys addr link h ≡ ok (link', h')
      → IsWhole h'
  unfolding handle
  handle-IsWhole h h' link link' room whole e = at_address (find addr h.addr_client_pairs) e
    where
      at_address :
          (found : Option ℕ)
          → ◌≡◌ {A = Outcome (Link × ConHandler)}
              (elim found [
                | none ↦ registration crypto keys addr (next_packet link) h
                | some i ↦ try_data_exchange crypto (keys i) i link h >>= λ r.
                    if r.0 then ok (r.1, r.2) else retry crypto keys addr r.1 r.2
              ])
              (ok (link', h'))
          → IsWhole h'
      at_address none e =
          registration-IsWhole h h' (next_packet link) link'
            (omega (arith, room, next_packet-Shrinks link)) whole e
      at_address (some i) e = served-IsWhole i h h' link link' room whole e
