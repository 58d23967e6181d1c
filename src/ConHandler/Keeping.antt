-- ===== src/ConHandler/Keeping.antt =====
-- The operations of ConHandler.cpp that serve a client whose address is known, on a handler whose
-- addresses all lead to services.
use tin_serwer.Base.{
  ℕ, ◌≡◌, refl, ◌∙◌, subst, Bool, Option, none, some, if◌then◌else◌, ◌==◌, ok, >>=-eq-ok, arith,
  Bool-cases, inl, inr, find, assign, erase, AllValues, AllValues-map, AllValues-assign,
  AllValues-erase,
}
use tin_serwer.Bytes.{Garbage}
use tin_serwer.Link.{Link}
use tin_serwer.Server.{Server}
use tin_serwer.Client.{Heap}
use tin_serwer.Client.Registering.{Client}
use tin_serwer.Client.Sessions.{set_used, unregister_services}
use tin_serwer.Client.Kinds.{SameKinds, Shrinks}
use tin_serwer.Client.Owning.{IsSound, Owns, Owns-Stays, IsSound-Same}
use tin_serwer.ConHandler.{
  ConHandler, set_client, client_of_id, address_of, disconnect, unregister_at, unregister_pointer,
  unregister_client, with_heap,
}
use tin_serwer.ConHandler.Leaving.{unregister_services-ok, unregister_services-bare}

-- What a pointer of `idClientPairs` leads to owns its services.
abbrev pub OwnsAt : Heap → (ℕ → Client) → Option ℕ → Type 0
OwnsAt heap clients none = Unit {0}
OwnsAt heap clients (some i) = Owns heap (clients i)

-- The server is sound, and each client of the configuration, and each that is verified, owns its
-- services.
pub record IsWhole (h : ConHandler) : Type 0 where
  pub sound : IsSound h.server h.next
  pub known : AllValues (OwnsAt h.server.heap h.clients) h.id_client_pairs
  pub admitted : AllValues (λ i. Owns h.server.heap (h.clients i)) h.addr_client_pairs

-- The clients own their services after as before.
abbrev OwnStill : ConHandler → Heap → (ℕ → Client) → Type 0
OwnStill h heap' clients' = (j : ℕ) → Owns h.server.heap (h.clients j) → Owns heap' (clients' j)

OwnStill-at :
    (h : ConHandler) (heap' : Heap) (clients' : ℕ → Client)
    → OwnStill h heap' clients'
    → (pointer : Option ℕ) → OwnsAt h.server.heap h.clients pointer
    → OwnsAt heap' clients' pointer
OwnStill-at h heap' clients' still none at = tt
OwnStill-at h heap' clients' still (some j) at = still j at

-- A handler with the same lists, and a server and clients that go on from those before.
pub updated-IsWhole :
    (h : ConHandler) (s' : Server) (n' : ℕ) (clients' : ℕ → Client)
    → IsSound s' n'
    → ((j : ℕ) → Owns h.server.heap (h.clients j) → Owns s'.heap (clients' j))
    → IsWhole h
    → IsWhole (record h { server = s'; next = n'; clients = clients' })
updated-IsWhole h s' n' clients' sound still w = record {
  sound = sound;
  known =
      AllValues-map (OwnsAt h.server.heap h.clients) (OwnsAt s'.heap clients') h.id_client_pairs
        (OwnStill-at h s'.heap clients' still) w.known;
  admitted =
      AllValues-map (λ i. Owns h.server.heap (h.clients i)) (λ i. Owns s'.heap (clients' i))
        h.addr_client_pairs still w.admitted;
}

-- The handler, the table and the link after an exchange of data.
abbrev pub Served : ConHandler → Link → ConHandler → Link → Type 0
Served h link h' link' =
    (IsWhole h → IsWhole h')
    × (h'.server.service_table ≡ h.server.service_table)
    × Shrinks link link'

-- The table stays, and a whole handler stays one.
abbrev pub Keeps : ConHandler → ConHandler → Type 0
Keeps h h' = (IsWhole h → IsWhole h') × (h'.server.service_table ≡ h.server.service_table)

pub Keeps-refl : (h : ConHandler) → Keeps h h
Keeps-refl h = (λ w. w, refl)

pub Keeps-trans : (h h1 h2 : ConHandler) → Keeps h h1 → Keeps h1 h2 → Keeps h h2
Keeps-trans h h1 h2 (w, t) (w', t') = (λ x. w' (w x), t' ∙ t)

pub Keeps-as : (h h1 h2 : ConHandler) → h1 ≡ h2 → Keeps h h1 → Keeps h h2
Keeps-as h h1 h2 same = subst (Keeps h) same

pub with_heap-Keeps :
    (h : ConHandler) (heap : Heap) → SameKinds h.server.heap heap → Keeps h (with_heap heap h)
with_heap-Keeps h heap same = (
  λ w.
      updated-IsWhole h (record h.server { heap = heap }) h.next h.clients
        (IsSound-Same h.server (record h.server { heap = heap }) h.next refl same w.sound)
        (λ j. Owns-Stays h.server.heap heap (h.clients j) (λ a. inr (same a))) w,
  refl,
)

pub set_used-Keeps :
    (h : ConHandler) (i : ℕ) (u : Bool) → Keeps h (set_client i (set_used u (h.clients i)) h)
set_used-Keeps h i u = (λ w. updated-IsWhole h h.server h.next _ w.sound still w, refl)
  where
    still :
        (j : ℕ)
        → Owns h.server.heap (h.clients j)
        → Owns h.server.heap (if i == j then set_used u (h.clients i) else h.clients j)
    still j owns = elim (Bool-cases (i == j)) [
      | inl same ↦
          let is : j ≡ i = ground (arith, same) in
          rw same (record {
            inputs = (subst (λ k. Owns h.server.heap (h.clients k)) is owns).inputs;
            outputs = (subst (λ k. Owns h.server.heap (h.clients k)) is owns).outputs;
          })
      | inr other ↦ rw other owns
    ]

pub erase-Keeps :
    (h : ConHandler) (addr : ℕ)
    → Keeps h (record h { addr_client_pairs = erase addr h.addr_client_pairs })
erase-Keeps h addr = (
  λ w. record {
    sound = w.sound;
    known = w.known;
    admitted =
        AllValues-erase (λ i. Owns h.server.heap (h.clients i)) addr h.addr_client_pairs w.admitted;
  },
  refl,
)

disconnect-Keeps :
    (g : Garbage) (addr i : ℕ) (h h' : ConHandler) → disconnect g addr i h ≡ ok h' → Keeps h h'
unfolding disconnect
disconnect-Keeps g addr i h h' e =
    let (s', left, e1) = >>=-eq-ok (unregister_services g (h.clients i) h.server) _ e in
    let bare = unregister_services-ok g (h.clients i) h.server s' left in
    let none_left = unregister_services-bare g (h.clients i) h.server bare in
    let same : s' ≡ h.server = cc in
    Keeps-as h (record h { addr_client_pairs = erase addr h.addr_client_pairs }) h' (cc)
      (erase-Keeps h addr)

unregister_at-Keeps :
    (g : Garbage) (i : ℕ) (at : Option ℕ) (h h' : ConHandler) (b : Bool)
    → unregister_at g i at h ≡ ok (b, h')
    → Keeps h h'
unfolding unregister_at
unregister_at-Keeps g i none h h' b e = Keeps-as h h h' (cc) (Keeps-refl h)
unregister_at-Keeps g i (some addr) h h' b e =
    let (h1, left, e1) = >>=-eq-ok (disconnect g addr i h) _ e in
    disconnect-Keeps g addr i h h' (cc)

unregister_pointer-Keeps :
    (g : Garbage) (pointer : Option ℕ) (h h' : ConHandler) (b : Bool)
    → unregister_pointer g pointer h ≡ ok (b, h')
    → Keeps h h'
unfolding unregister_pointer
unregister_pointer-Keeps g none h h' b e = Keeps-as h h h' (cc) (Keeps-refl h)
unregister_pointer-Keeps g (some i) h h' b e =
    unregister_at-Keeps g i (address_of (some i) h.addr_client_pairs) h h' b e

client_of_id-Keeps : (id : ℕ) (h : ConHandler) → Keeps h (client_of_id id h).1
unfolding client_of_id
client_of_id-Keeps id h = found (find id h.id_client_pairs)
  where
    found :
        (o : Option (Option ℕ))
        → Keeps h
            (elim o as (λ _. Option ℕ × ConHandler) [
              | some pointer ↦ (pointer, h)
              | none ↦ (none, record h { id_client_pairs = assign id none h.id_client_pairs })
            ]).1
    found (some pointer) = Keeps-refl h
    found none = (
      λ w. record {
        sound = w.sound;
        known =
            AllValues-assign (OwnsAt h.server.heap h.clients) id none h.id_client_pairs tt w.known;
        admitted = w.admitted;
      },
      refl,
    )

pub unregister_client-Keeps :
    (g : Garbage) (id : ℕ) (h h' : ConHandler) (b : Bool)
    → unregister_client g id h ≡ ok (b, h')
    → Keeps h h'
unfolding unregister_client
unregister_client-Keeps g id h h' b e =
    let (pointer, h1) = client_of_id id h in
    Keeps-trans h h1 h' (client_of_id-Keeps id h) (unregister_pointer-Keeps g pointer h1 h' b e)
