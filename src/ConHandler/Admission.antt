-- ===== src/ConHandler/Admission.antt =====
-- `ConHandler::registration` and `ConHandler::handle` of ConHandler.cpp: which addresses get in.
use tin_serwer.Base.{
  ℕ, ◌==◌, ◌≡◌, refl, sym, ◌∙◌, Bool, true, false, Option, none, some, List, if◌then◌else◌, Outcome,
  ok, >>=-eq-ok, inl, inr, ◌⊎◌, arith, find, assign,
}
use tin_serwer.Keys.{Pubkey}
use tin_serwer.Packet.{PckType, Packet, byte_1}
use tin_serwer.Link.{Link, next_packet}
use tin_serwer.Client.Registering.{Client, World}
use tin_serwer.Client.Sessions.{Crypto, initalize}
use tin_serwer.Client.Verifying.{Verified, initalize-Verified}
use tin_serwer.ConHandler.{
  ConHandler, set_client, admit_client, identify, cast_id, registration, handle,
}

-- Nothing that a connection can change has changed.
pub record Unchanged (h h' : ConHandler) : Type 0 where
  pub same_addresses : h'.addr_client_pairs ≡ h.addr_client_pairs
  pub same_numbers : h'.id_client_pairs ≡ h.id_client_pairs
  pub same_server : h'.server ≡ h.server
  pub same_clients : (j : ℕ) → h'.clients j ≡ h.clients j
  pub same_flag : h'.exit_flag ≡ h.exit_flag

-- The server is not exiting, the packet is an ID with the number of a client of the configuration,
-- that client has been verified, and at most its own object and the entry of `addr` have changed.
pub record Admitted (crypto : Crypto) (keys : ℕ → Pubkey) (addr : ℕ) (link : Link)
    (h h' : ConHandler) : Type 0 where
  pub running : h.exit_flag ≡ false
  pub packet : Packet
  pub received : link.curr ≡ some packet
  pub is_id : packet.type ≡ PckType.id
  pub num : ℕ
  pub numbered : byte_1 packet ≡ ok num
  pub client : ℕ
  pub known : find num h.id_client_pairs ≡ some (some client)
  pub shown : Verified crypto (keys client) link
  pub others : (j : ℕ) → (client == j) ≡ false → h'.clients j ≡ h.clients j
  pub entry :
      (h'.addr_client_pairs ≡ h.addr_client_pairs)
      ⊎ (h'.addr_client_pairs ≡ assign addr client h.addr_client_pairs)

-- What `admitClient` leaves, with the result of `initalize`.
abbrev pub left : ℕ → ℕ → Bool → Client → World → ConHandler → ConHandler
left addr i done c w h =
    let h1 = set_client i c (record h { server = w.server; next = w.next }) in
    if done then record h1 { addr_client_pairs = assign addr i h1.addr_client_pairs } else h1

left-Unchanged :
    (addr i : ℕ) (done : Bool) (c : Client) (w : World) (h h' : ConHandler)
    → h' ≡ left addr i done c w h
    → done ≡ false
    → c ≡ h.clients i
    → w.server ≡ h.server
    → Unchanged h h'
left-Unchanged addr i true c w h h' e d same server = cc
left-Unchanged addr i false c w h h' e d same server = rw e (record {
  same_addresses = refl;
  same_numbers = refl;
  same_server = server;
  same_clients = λ j. ground (arith, same);
  same_flag = refl;
})

left-entry :
    (addr i : ℕ) (done : Bool) (c : Client) (w : World) (h : ConHandler)
    → ((left addr i done c w h).addr_client_pairs ≡ h.addr_client_pairs)
      ⊎ ((left addr i done c w h).addr_client_pairs ≡ assign addr i h.addr_client_pairs)
left-entry addr i true c w h = inr refl
left-entry addr i false c w h = inl refl

left-others :
    (addr i : ℕ) (done : Bool) (c : Client) (w : World) (h : ConHandler) (j : ℕ)
    → (i == j) ≡ false
    → (left addr i done c w h).clients j ≡ h.clients j
left-others addr i true c w h j other = ground arith
left-others addr i false c w h j other = ground arith

module _ (crypto : Crypto) (keys : ℕ → Pubkey) (addr : ℕ) where
  -- The result of a function that stops without a change.
  stopped-Unchanged :
      (link link' : Link) (h h' : ConHandler)
      → ◌≡◌ {A = Outcome (Link × ConHandler)} (ok (link, h)) (ok (link', h'))
      → Unchanged h h'
  stopped-Unchanged link link' h h' e =
      let same : h' ≡ h = cc in
      rw same (record {
        same_addresses = refl;
        same_numbers = refl;
        same_server = refl;
        same_clients = λ j. refl;
        same_flag = refl;
      })

  module _ (p : Packet) (link : Link) (h : ConHandler) (num i : ℕ) where
    admit_client-Admitted :
        (link' : Link) (h' : ConHandler)
        → h.exit_flag ≡ false
        → link.curr ≡ some p
        → p.type ≡ PckType.id
        → byte_1 p ≡ ok num
        → find num h.id_client_pairs ≡ some (some i)
        → admit_client crypto keys addr (some i) link h ≡ ok (link', h')
        → Unchanged h h' ⊎ Admitted crypto keys addr link h h'
    unfolding admit_client
    admit_client-Admitted link' h' running received is_id numbered known e =
        let w : World = record { server = h.server; next = h.next; link = link } in
        let ((done, c, w'), ended, e1) =
          >>=-eq-ok (initalize crypto (keys i) (h.clients i) w) _ e in
        let is : h' ≡ left addr i done c w' h = cc in
        elim (initalize-Verified crypto (keys i) (h.clients i) c w w' done ended) [
          | inr (stops, same, server, next) ↦
              inl (left-Unchanged addr i done c w' h h' is stops same server)
          | inl shown ↦ inr (record {
            running = running;
            packet = p;
            received = received;
            is_id = is_id;
            num = num;
            numbered = numbered;
            client = i;
            known = known;
            shown = shown;
            others = rw is (left-others addr i done c w' h);
            entry = rw is (left-entry addr i done c w' h);
          })
        ]

  found-Admitted :
      (p : Packet) (link link' : Link) (h h' : ConHandler) (num : ℕ) (found : Option (Option ℕ))
      → h.exit_flag ≡ false
      → link.curr ≡ some p
      → p.type ≡ PckType.id
      → byte_1 p ≡ ok num
      → find num h.id_client_pairs ≡ found
      → ◌≡◌ {A = Outcome (Link × ConHandler)}
          (elim found [
            | none ↦ ok (link, h)
            | some pointer ↦ admit_client crypto keys addr pointer link h
          ])
          (ok (link', h'))
      → Unchanged h h' ⊎ Admitted crypto keys addr link h h'
  unfolding admit_client
  found-Admitted p link link' h h' num none running received is_id numbered known e =
      inl (stopped-Unchanged link link' h h' e)
  found-Admitted p link link' h h' num (some none) running received is_id numbered known e = cc
  found-Admitted p link link' h h' num (some (some i)) running received is_id numbered known e =
      admit_client-Admitted p link h num i link' h' running received is_id numbered known e

  identify-Admitted :
      (p : Packet) (link link' : Link) (h h' : ConHandler)
      → h.exit_flag ≡ false
      → link.curr ≡ some p
      → p.type ≡ PckType.id
      → identify crypto keys addr p link h ≡ ok (link', h')
      → Unchanged h h' ⊎ Admitted crypto keys addr link h h'
  unfolding identify
  identify-Admitted p link link' h h' running received is_id e =
      let (num, numbered, e1) = >>=-eq-ok (byte_1 p) _ e in
      found-Admitted p link link' h h' num _ running received is_id numbered refl e1

  received-Admitted :
      (t : PckType) (buf : List ℕ) (link link' : Link) (h h' : ConHandler)
      → h.exit_flag ≡ false
      → link.curr ≡ some (record { type = t; buf = buf })
      → cast_id crypto keys addr (some (record { type = t; buf = buf })) link h ≡ ok (link', h')
      → Unchanged h h' ⊎ Admitted crypto keys addr link h h'
  unfolding cast_id
  received-Admitted PckType.id buf link link' h h' running received e =
      identify-Admitted _ link link' h h' running received refl e
  received-Admitted PckType.ack buf link link' h h' running received e =
      inl (stopped-Unchanged link link' h h' e)
  received-Admitted PckType.nak buf link link' h h' running received e =
      inl (stopped-Unchanged link link' h h' e)
  received-Admitted PckType.eot buf link link' h h' running received e =
      inl (stopped-Unchanged link link' h h' e)
  received-Admitted PckType.chall buf link link' h h' running received e =
      inl (stopped-Unchanged link link' h h' e)
  received-Admitted PckType.chall_resp buf link link' h h' running received e =
      inl (stopped-Unchanged link link' h h' e)
  received-Admitted PckType.key buf link link' h h' running received e =
      inl (stopped-Unchanged link link' h h' e)
  received-Admitted PckType.desc buf link link' h h' running received e =
      inl (stopped-Unchanged link link' h h' e)
  received-Admitted PckType.val buf link link' h h' running received e =
      inl (stopped-Unchanged link link' h h' e)
  received-Admitted PckType.set buf link link' h h' running received e =
      inl (stopped-Unchanged link link' h h' e)
  received-Admitted PckType.exit buf link link' h h' running received e =
      inl (stopped-Unchanged link link' h h' e)

  registration-Admitted :
      (flag : Bool) (curr : Option Packet) (link link' : Link) (h h' : ConHandler)
      → h.exit_flag ≡ flag
      → link.curr ≡ curr
      → (if flag then ok (link, h) else cast_id crypto keys addr curr link h) ≡ ok (link', h')
      → Unchanged h h' ⊎ Admitted crypto keys addr link h h'
  unfolding cast_id
  registration-Admitted true curr link link' h h' running received e =
      inl (stopped-Unchanged link link' h h' e)
  registration-Admitted false none link link' h h' running received e =
      inl (stopped-Unchanged link link' h h' e)
  registration-Admitted false (some p) link link' h h' running received e =
      received-Admitted p.type p.buf link link' h h' running received e

  handle-registration :
      (link : Link) (h : ConHandler)
      → find addr h.addr_client_pairs ≡ none
      → handle crypto keys addr link h ≡ registration crypto keys addr (next_packet link) h
  unfolding handle
  handle-registration link h stranger = rw (stranger, handle) refl

  registration-received :
      (link : Link) (h : ConHandler)
      → registration crypto keys addr link h
        ≡ (if h.exit_flag then ok (link, h) else cast_id crypto keys addr link.curr link h)
  unfolding registration
  registration-received link h = refl

  -- A connection from an address that is not known leaves the addresses, the numbers, the server,
  -- the clients and the exit flag as they are, unless the server is not exiting, the first packet
  -- is an ID with the number of a client of the configuration, and the packet after it is a
  -- response with a good signature, by the key of that client, of the random bytes of the
  -- challenge. Even then no other client changes, and at most the entry of this address is set, to
  -- that client.
  pub handle-Admitted :
      (link link' : Link) (h h' : ConHandler)
      → find addr h.addr_client_pairs ≡ none
      → handle crypto keys addr link h ≡ ok (link', h')
      → Unchanged h h' ⊎ Admitted crypto keys addr (next_packet link) h h'
  handle-Admitted link link' h h' stranger e =
      registration-Admitted h.exit_flag (next_packet link).curr (next_packet link) link' h h' refl
        refl
        (sym (registration-received (next_packet link) h)
          ∙ (sym (handle-registration link h stranger) ∙ e))
