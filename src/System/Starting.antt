-- ===== src/System/Starting.antt =====
-- The handler that the constructors leave (ConHandler.cpp, Server.cpp).
use tin_serwer.Base.{
  ℕ, ◌+◌, ◌==◌, ◌≡◌, ◌≢◌, zero, suc, refl, sym, ◌∙◌, subst, Bool, true, false, Option, none, some,
  List, [], ◌∷◌, ℤ, if◌then◌else◌, Bool-cases, inl, inr, AllValues-assign, ==_refl,
}
use tin_serwer.QueuePacket.Queue.{AddQueue}
use tin_serwer.ServiceTable.{new_table}
use tin_serwer.ServiceTable.Invariant.{new_table-IsValid}
use tin_serwer.ServiceTable.Status.{slot, get_service-slot}
use tin_serwer.Server.{Server, new_server}
use tin_serwer.Client.Registering.{Client}
use tin_serwer.Client.Owning.{IsSound, Owns}
use tin_serwer.ConHandler.{ConHandler, set_client}
use tin_serwer.ConHandler.Configuring.{
  to_uint8, new_client, add_client, add_clients, fresh_handler, new_con_handler,
}
use tin_serwer.ConHandler.Keeping.{OwnsAt, IsWhole, updated-IsWhole}

not_none : {a : ℕ} → some a ≢ none
not_none e = cc

nothing_there : (j : ℕ) → slot {A = ℕ} (none ∷ []) j ≡ none
nothing_there zero = refl
nothing_there (suc j) = refl

new_server-IsSound : (queue : AddQueue) (next : ℕ) → IsSound (new_server queue) next
unfolding new_server new_table
new_server-IsSound queue next = record {
  table_valid = new_table-IsValid;
  fresh = λ a le. refl;
  alive = λ j a there gone. not_none (sym there ∙ (get_service-slot j new_table ∙ nothing_there j));
}

fresh_handler-IsWhole :
    (queue : AddQueue) (next : ℕ) (memory : ℕ → Client)
    → IsWhole (fresh_handler (new_server queue) next memory)
fresh_handler-IsWhole queue next memory = record {
  sound = new_server-IsSound queue next;
  known = tt;
  admitted = tt;
}

add_client-IsWhole :
    (junk : Bool) (i : ℕ) (id : ℤ) (h : ConHandler) → IsWhole h → IsWhole (add_client junk i id h)
unfolding add_client new_client
add_client-IsWhole junk i id h whole = record {
  sound = before.sound;
  known =
      AllValues-assign (OwnsAt h.server.heap h1.clients) (to_uint8 id) (some i) h.id_client_pairs
        (rw (==_refl i) bare) before.known;
  admitted = before.admitted;
}
  where
    h1 : ConHandler
    h1 = set_client i (new_client junk id) h

    bare : Owns h.server.heap (new_client junk id)
    bare = record { inputs = tt; outputs = tt }

    still :
        (j : ℕ)
        → Owns h.server.heap (h.clients j)
        → Owns h.server.heap (if i == j then new_client junk id else h.clients j)
    still j owned = elim (Bool-cases (i == j)) [
      | inl same ↦ rw same bare
      | inr other ↦ rw other owned
    ]

    before : IsWhole h1
    before = updated-IsWhole h h.server h.next h1.clients whole.sound still whole

add_clients-IsWhole :
    (stoi : List ℕ → Option ℤ) (readable : List ℕ → Bool) (junk : Bool) (n : ℕ)
    (words : List (List ℕ)) (h h' : ConHandler)
    → IsWhole h
    → add_clients stoi readable junk n words h ≡ some h'
    → IsWhole h'
unfolding add_clients
add_clients-IsWhole stoi readable junk n [] h h' whole e =
    let same : h ≡ h' = cc in subst IsWhole same whole
add_clients-IsWhole stoi readable junk n (device_id ∷ []) h h' whole e = cc
add_clients-IsWhole stoi readable junk n (device_id ∷ pubkey_file ∷ rest) h h' whole e =
    added (λ h1 whole1 more. add_clients-IsWhole stoi readable junk (n + 1) rest h1 h' whole1 more)
      (stoi device_id) (readable pubkey_file) e
  where
    added :
        ((h1 : ConHandler)
          → IsWhole h1
          → add_clients stoi readable junk (n + 1) rest h1 ≡ some h'
          → IsWhole h')
        → (id : Option ℤ) (has_key : Bool)
        → ◌≡◌ {A = Option ConHandler}
            (elim id [
              | none ↦ none
              | some id ↦
                  if has_key
                  then add_clients stoi readable junk (n + 1) rest (add_client junk n id h)
                  else none
            ])
            (some h')
        → IsWhole h'
    added more none has_key e = cc
    added more (some id) false e = cc
    added more (some id) true e =
        more (add_client junk n id h) (add_client-IsWhole junk n id h whole) e

-- The server over the file of its key, where that can be read, and the queue that was opened.
abbrev pub server_of : (List ℕ → Bool) → AddQueue → List ℕ → Option Server
server_of readable queue privkey_file =
    if readable privkey_file then some (new_server queue) else none

keyed-IsWhole :
    (stoi : List ℕ → Option ℤ) (readable : List ℕ → Bool) (has_key : Bool) (queue : AddQueue)
    (junk : Bool) (next : ℕ) (memory : ℕ → Client) (words : List (List ℕ)) (h : ConHandler)
    → ◌≡◌ {A = Option ConHandler}
        (elim (if has_key then some (new_server queue) else none) [
          | none ↦ none
          | some server ↦ add_clients stoi readable junk 0 words (fresh_handler server next memory)
        ])
        (some h)
    → IsWhole h
keyed-IsWhole stoi readable true queue junk next memory words h e =
    add_clients-IsWhole stoi readable junk 0 words (fresh_handler (new_server queue) next memory) h
      (fresh_handler-IsWhole queue next memory) e
keyed-IsWhole stoi readable false queue junk next memory words h e = cc

-- The handler that the constructor makes is whole: it has no service.
pub new_con_handler-IsWhole :
    (stoi : List ℕ → Option ℤ) (readable readable' : List ℕ → Bool) (queue : AddQueue) (junk : Bool)
    (next : ℕ) (memory : ℕ → Client) (file : Option (List (List ℕ))) (h : ConHandler)
    → new_con_handler stoi readable (server_of readable' queue) junk next memory file ≡ some h
    → IsWhole h
unfolding new_con_handler
new_con_handler-IsWhole stoi readable readable' queue junk next memory none h e = cc
new_con_handler-IsWhole stoi readable readable' queue junk next memory (some []) h e = cc
new_con_handler-IsWhole stoi readable readable' queue junk next memory (some (key_file ∷ words)) h
      e =
    keyed-IsWhole stoi readable (readable' key_file) queue junk next memory words h e
