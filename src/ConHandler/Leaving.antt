-- ===== src/ConHandler/Leaving.antt =====
-- `ConHandler::unregisterClient` of ConHandler.cpp and `Client::unregisterServices` of client.cpp:
-- which clients can leave.
use tin_serwer.Base.{
  ℕ, ◌≡◌, refl, sym, ap, ◌∙◌, Bool, true, some, List, [], ◌∷◌, ok, ◌>>=◌, >>=-eq-ok, ◌↔◌, find,
  erase,
}
use tin_serwer.Bytes.{Garbage}
use tin_serwer.Service.{common_of}
use tin_serwer.Server.{Server, dereference, unregister_service}
use tin_serwer.Client.Registering.{Client}
use tin_serwer.Client.Sessions.{unregister_all, unregister_services}
use tin_serwer.ConHandler.{
  ConHandler, client_of_id, address_of, unregister_at, unregister_pointer, disconnect,
  unregister_client,
}

unregister_all-ok :
    (g : Garbage) (m : List (ℕ × ℕ)) (s s' : Server)
    → unregister_all g m s ≡ ok s'
    → (m ≡ []) × (s ≡ s')
unfolding unregister_all
unregister_all-ok g [] s s' e = (refl, cc)
unregister_all-ok g ((num, a) ∷ rest) s s' e =
    let (service, _, e1) = >>=-eq-ok (dereference s.heap (some a)) _ e in
    let (left, _, e2) = >>=-eq-ok (unregister_service g (common_of service).id s) _ e1 in
    absurd (cc)

-- A client without services.
abbrev pub IsBare : Client → Type 0
IsBare c = (c.inputs ≡ []) × (c.outputs ≡ [])

pub unregister_services-ok :
    (g : Garbage) (c : Client) (s s' : Server) → unregister_services g c s ≡ ok s' → IsBare c
unfolding unregister_services
unregister_services-ok g c s s' e =
    let (s1, first, e1) = >>=-eq-ok (unregister_all g c.inputs s) (unregister_all g c.outputs) e in
    ((unregister_all-ok g c.inputs s s1 first).0, (unregister_all-ok g c.outputs s1 s' e1).0)

unregister_all-nil :
    (g : Garbage) (m : List (ℕ × ℕ)) (s : Server) → m ≡ [] → unregister_all g m s ≡ ok s
unfolding unregister_all
unregister_all-nil g m s e = rw e refl

pub unregister_services-bare :
    (g : Garbage) (c : Client) (s : Server) → IsBare c → unregister_services g c s ≡ ok s
unfolding unregister_services
unregister_services-bare g c s (no_inputs, no_outputs) =
    rw (unregister_all-nil g c.inputs s no_inputs) (unregister_all-nil g c.outputs s no_outputs)

module _ (g : Garbage) (id i addr : ℕ) (h : ConHandler) where
  client_of_id-known : find id h.id_client_pairs ≡ some (some i) → client_of_id id h ≡ (some i, h)
  unfolding client_of_id
  client_of_id-known known = rw (known, client_of_id) refl

  unregister_client-disconnect :
      find id h.id_client_pairs ≡ some (some i)
      → address_of (some i) h.addr_client_pairs ≡ some addr
      → unregister_client g id h ≡ (disconnect g addr i h >>= λ h'. ok (true, h'))
  unfolding unregister_client unregister_pointer unregister_at
  unregister_client-disconnect known at =
      ap (λ r. unregister_pointer g r.0 r.1) (client_of_id-known known)
      ∙ ap (λ a. unregister_at g i a h) at

  unregister_bare :
      find id h.id_client_pairs ≡ some (some i)
      → address_of (some i) h.addr_client_pairs ≡ some addr
      → IsBare (h.clients i)
      → unregister_client g id h
        ≡ ok (true, record h { addr_client_pairs = erase addr h.addr_client_pairs })
  unfolding disconnect
  unregister_bare known at bare =
      unregister_client-disconnect known at
      ∙ rw (unregister_services-bare g (h.clients i) h.server bare) refl

  unregister_ok :
      (r : Bool × ConHandler)
      → find id h.id_client_pairs ≡ some (some i)
      → address_of (some i) h.addr_client_pairs ≡ some addr
      → unregister_client g id h ≡ ok r
      → IsBare (h.clients i)
  unfolding disconnect
  unregister_ok r known at e =
      let e0 = sym (unregister_client-disconnect known at) ∙ e in
      let (h', gone, _) = >>=-eq-ok (disconnect g addr i h) _ e0 in
      let (s', left, _) = >>=-eq-ok (unregister_services g (h.clients i) h.server) _ gone in
      unregister_services-ok g (h.clients i) h.server s' left

  -- A client of the configuration that has an address can be unregistered exactly if it has no
  -- services: then true is returned, its entry is erased, and nothing else changes. With a service,
  -- the function advances an iterator of an entry that it has erased, or faults before that.
  pub unregister_client-IsBare :
      (r : Bool × ConHandler)
      → find id h.id_client_pairs ≡ some (some i)
      → address_of (some i) h.addr_client_pairs ≡ some addr
      → (unregister_client g id h ≡ ok r) ↔ (
          IsBare (h.clients i)
          × (r ≡ (true, record h { addr_client_pairs = erase addr h.addr_client_pairs })))
  unregister_client-IsBare r known at = (
    λ e.
        let bare = unregister_ok r known at e in
        let gone = unregister_bare known at bare in (bare, cc),
    λ (bare, is). unregister_bare known at bare ∙ ap ok (sym is),
  )
