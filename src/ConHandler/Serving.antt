-- ===== src/ConHandler/Serving.antt =====
-- A connection from an address that is known (ConHandler.cpp): what the exchange of data leaves of
-- a handler whose addresses all lead to services.
use tin_serwer.Base.{
  ℕ, ◌≡◌, ap, ◌∙◌, Bool, true, false, Option, none, some, List, length, if◌then◌else◌, Outcome, ok,
  ◌>>=◌, >>=-eq-ok, arith, inl, inr, ◌⊎◌, find,
}
use tin_serwer.Bytes.{Garbage}
use tin_serwer.Keys.{Pubkey}
use tin_serwer.Packet.{PckType}
use tin_serwer.Link.{Link, class_of}
use tin_serwer.Client.{get_values}
use tin_serwer.Client.Setting.{set_values, set_exit}
use tin_serwer.Client.Sessions.{Crypto, send_key}
use tin_serwer.Client.Kinds.{Shrinks}
use tin_serwer.Client.Kinds.Reading.{get_values-Exchanged}
use tin_serwer.Client.Kinds.Settings.{set_values-Exchanged, set_exit-Shrinks}
use tin_serwer.Client.Shrinking.{send_key-Shrinks}
use tin_serwer.ConHandler.{
  ConHandler, unregister_client, try_unregister, addresses, with_heap, mark, settle_exchange,
  client_exchange, try_data_exchange,
}
use tin_serwer.ConHandler.Keeping.{
  Served, Keeps, Keeps-refl, Keeps-trans, Keeps-as, with_heap-Keeps, set_used-Keeps,
  unregister_client-Keeps,
}

-- What is done with an EXIT, or else.
if_exit {ℓ} :
    {A : Type ℓ} (t : Option PckType) (x z : A) {r : A}
    → (elim t [ some PckType.exit ↦ x | _ ↦ z ]) ≡ r
    → (x ≡ r) ⊎ (z ≡ r)
if_exit none x z e = inr e
if_exit (some PckType.ack) x z e = inr e
if_exit (some PckType.nak) x z e = inr e
if_exit (some PckType.eot) x z e = inr e
if_exit (some PckType.chall) x z e = inr e
if_exit (some PckType.chall_resp) x z e = inr e
if_exit (some PckType.key) x z e = inr e
if_exit (some PckType.desc) x z e = inr e
if_exit (some PckType.val) x z e = inr e
if_exit (some PckType.set) x z e = inr e
if_exit (some PckType.exit) x z e = inl e
if_exit (some PckType.id) x z e = inr e

try_unregister-Keeps :
    (g : Garbage) (i : ℕ) (link : Link) (h h' : ConHandler) (b : Bool)
    → try_unregister g i link h ≡ ok (b, h')
    → Keeps h h'
unfolding try_unregister
try_unregister-Keeps g i link h h' b e = elim (if_exit (class_of link.curr) _ _ e) [
  | inl leaves ↦
      let ((b1, h1), left, e1) = >>=-eq-ok (unregister_client g (h.clients i).id h) _ leaves in
      Keeps-as h h1 h' (cc) (unregister_client-Keeps g (h.clients i).id h h1 b1 left)
  | inr stays ↦ Keeps-as h h h' (cc) (Keeps-refl h)
]

-- The link and the handler that an exchange leaves.
mark-Served :
    (i : ℕ) (b done : Bool) (h h1 h' : ConHandler) (link link1 link' : Link)
    → Keeps h h1
    → Shrinks link link1
    → ◌≡◌ {A = Outcome (Bool × Link × ConHandler)}
        (ok (mark i (b, link1, h1)))
        (ok (done, link', h'))
    → Served h link h' link'
mark-Served i true done h h1 h' link link1 link' keeps le e =
    let left : link1 ≡ link' = cc in
    let (w, t) = Keeps-as h _ h' (cc) (Keeps-trans h h1 _ keeps (set_used-Keeps h1 i true)) in
    (w, t, omega (arith, le, ap (λ l. length l.coming) left))
mark-Served i false done h h1 h' link link1 link' keeps le e =
    let left : link1 ≡ link' = cc in
    let (w, t) = Keeps-as h h1 h' (cc) keeps in
    (w, t, omega (arith, le, ap (λ l. length l.coming) left))

module _ (crypto : Crypto) where
  settle_exchange-Served :
      (i : ℕ) (end : Bool) (key : List ℕ) (got done : Bool) (h h' : ConHandler) (link link' : Link)
      → settle_exchange crypto i end key got link h ≡ ok (done, link', h')
      → Served h link h' link'
  unfolding settle_exchange
  settle_exchange-Served i end key false done h h' link link' e =
      let ((b, h1), left, e1) = >>=-eq-ok (try_unregister crypto.g i link h) _ e in
      mark-Served i b done h h1 h' link link link'
        (try_unregister-Keeps crypto.g i link h h1 b left) (omega arith) e1
  settle_exchange-Served i true key true done h h' link link' e =
      let ((b, link1), sent, e1) =
        >>=-eq-ok (set_exit crypto.evp crypto.ivs crypto.g (some key) link) _ e in
      mark-Served i b done h h h' link link1 link' (Keeps-refl h)
        (set_exit-Shrinks crypto.evp crypto.ivs crypto.g (some key) link link1 b sent) e1
  settle_exchange-Served i false key true done h h' link link' e =
      let ((b, heap, link1), set, e1) =
        >>=-eq-ok
          (set_values crypto.evp crypto.ivs crypto.g (some key) (addresses (h.clients i).outputs)
            h.server.heap link)
          _ e in
      let (same, le) =
        set_values-Exchanged crypto.evp crypto.ivs crypto.g (some key)
          (addresses (h.clients i).outputs) h.server.heap heap link link1 b set in
      mark-Served i b done h (with_heap heap h) h' link link1 link' (with_heap-Keeps h heap same) le
        e1

  -- What follows the session key.
  keyed-Served :
      (i : ℕ) (end : Bool) (sesskey : Option (List ℕ)) (done : Bool) (h h' : ConHandler)
      (link link' : Link)
      → ◌≡◌ {A = Outcome (Bool × Link × ConHandler)}
          (elim sesskey [
            | none ↦ ok (false, link, h)
            | some key ↦
                get_values crypto.time_size
                  (λ num. find num (h.clients i).inputs)
                  h.server.heap
                  link
                >>= λ r. settle_exchange crypto i end key r.0 r.2 (with_heap r.1 h)
          ])
          (ok (done, link', h'))
      → Served h link h' link'
  keyed-Served i end none done h h' link link' e =
      let (w, t) = Keeps-as h h h' (cc) (Keeps-refl h) in
      let left : link ≡ link' = cc in (w, t, omega (arith, ap (λ l. length l.coming) left))
  keyed-Served i end (some key) done h h' link link' e =
      let ((got, heap, link1), read, e1) =
        >>=-eq-ok
          (get_values crypto.time_size (λ num. find num (h.clients i).inputs) h.server.heap link) _
          e in
      let (same, le) =
        get_values-Exchanged crypto.time_size (λ num. find num (h.clients i).inputs) h.server.heap
          heap link link1 got read in
      let (w, t, le') =
        settle_exchange-Served i end key got done (with_heap heap h) h' link1 link' e1 in
      let (w1, t1) = Keeps-trans h (with_heap heap h) h' (with_heap-Keeps h heap same) (w, t) in
      (w1, t1, omega (arith, le, le'))

  client_exchange-Served :
      (pubkey : Pubkey) (i : ℕ) (end done : Bool) (h h' : ConHandler) (link link' : Link)
      → client_exchange crypto pubkey i end link h ≡ ok (done, link', h')
      → Served h link h' link'
  unfolding client_exchange
  client_exchange-Served pubkey i end done h h' link link' e =
      let ((sesskey, link1), sent, e1) = >>=-eq-ok (send_key crypto pubkey link) _ e in
      let le = send_key-Shrinks crypto pubkey link link1 sesskey sent in
      let (w, t, le') = keyed-Served i end sesskey done h h' link1 link' e1 in
      (w, t, omega (arith, le, le'))

  -- What follows the exchange: an exiting server lets the client go.
  exchanged-Served :
      (good exiting done : Bool) (id : ℕ) (h h' : ConHandler) (link link' : Link)
      → if◌then◌else◌ {A = Outcome (Bool × Link × ConHandler)} good
          (if exiting
            then (unregister_client crypto.g id h >>= λ u. ok (true, link, u.1))
            else ok (true, link, h))
          (ok (false, link, h))
        ≡ ok (done, link', h')
      → Served h link h' link'
  exchanged-Served true true done id h h' link link' e =
      let ((b, h1), left, e1) = >>=-eq-ok (unregister_client crypto.g id h) _ e in
      let (w, t) = Keeps-as h h1 h' (cc) (unregister_client-Keeps crypto.g id h h1 b left) in
      let same : link ≡ link' = cc in (w, t, omega (arith, ap (λ l. length l.coming) same))
  exchanged-Served true false done id h h' link link' e =
      let (w, t) = Keeps-as h h h' (cc) (Keeps-refl h) in
      let same : link ≡ link' = cc in (w, t, omega (arith, ap (λ l. length l.coming) same))
  exchanged-Served false exiting done id h h' link link' e =
      let (w, t) = Keeps-as h h h' (cc) (Keeps-refl h) in
      let same : link ≡ link' = cc in (w, t, omega (arith, ap (λ l. length l.coming) same))

  pub try_data_exchange-Served :
      (pubkey : Pubkey) (i : ℕ) (done : Bool) (h h' : ConHandler) (link link' : Link)
      → try_data_exchange crypto pubkey i link h ≡ ok (done, link', h')
      → Served h link h' link'
  unfolding try_data_exchange
  try_data_exchange-Served pubkey i done h h' link link' e =
      let ((good, link1, h1), exchanged, e1) =
        >>=-eq-ok (client_exchange crypto pubkey i h.exit_flag link h) _ e in
      let (w, t, le) = client_exchange-Served pubkey i h.exit_flag good h h1 link link1 exchanged in
      let (w', t', le') =
        exchanged-Served good h.exit_flag done (h1.clients i).id h1 h' link1 link' e1 in
      (λ x. w' (w x), t' ∙ t, omega (arith, le, le'))
