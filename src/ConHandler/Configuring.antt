-- ===== src/ConHandler/Configuring.antt =====
-- The constructor of ConHandler.cpp, over the words of the configuration file, and the destructors
-- of ConHandler.cpp and client.cpp.
pub mod Matching
use tin_serwer.Base.{
  ℕ, ◌+◌, ◌-◌, ◌%◌, ◌==◌, Bool, true, false, Option, none, some, List, [], ◌∷◌, if◌then◌else◌, ℤ,
  pos, negsuc, Outcome, ok, fault, ◌>>=◌, double_free, assign,
}
use tin_serwer.Keys.{Pubkey}
use tin_serwer.Server.{Server}
use tin_serwer.Client.Registering.{Client, store}
use tin_serwer.ConHandler.{ConHandler, set_client}

-- `(uint8_t)id`
unfoldable pub to_uint8 : ℤ → ℕ
to_uint8 (pos n) = n % 256
to_uint8 (negsuc n) = 255 - n % 256

-- A new client. The constructor does not set `used`: it is what the memory holds.
unfoldable pub new_client : Bool → ℤ → Client
unfolding to_uint8
new_client junk id = record { id = to_uint8 id; used = junk; inputs = []; outputs = [] }

-- The handler with the client that the words of a line describe, under the number `i` of its
-- object.
unfoldable pub add_client : Bool → ℕ → ℤ → ConHandler → ConHandler
add_client junk i id h = record (set_client i (new_client junk id) h) {
  id_client_pairs = assign (to_uint8 id) (some i) h.id_client_pairs;
}

-- The loop over the words, two by two: `stoi` is `none` where it throws, and `readable` is whether
-- a file has a public key. The result is `none` where the program exits.
unfoldable pub add_clients :
    (List ℕ → Option ℤ)
    → (List ℕ → Bool)
    → Bool
    → ℕ
    → List (List ℕ)
    → ConHandler
    → Option ConHandler
add_clients stoi readable junk i [] h = some h
add_clients stoi readable junk i (device_id ∷ []) h = none
add_clients stoi readable junk i (device_id ∷ pubkey_file ∷ rest) h = elim (stoi device_id) [
  | none ↦ none
  | some id ↦
      let more = add_clients stoi readable junk (i + 1) rest (add_client junk i id h) in
      if readable pubkey_file then more else none
]

-- A handler without clients.
abbrev pub fresh_handler : Server → ℕ → (ℕ → Client) → ConHandler
fresh_handler server next memory = record {
  id_client_pairs = [];
  addr_client_pairs = [];
  clients = memory;
  exit_flag = false;
  server = server;
  next = next;
}

-- The constructor, over the words of the file or `none` if it cannot be opened, and the server that
-- the first word makes. `memory` is what stands where the objects will be.
unfoldable pub new_con_handler :
    (List ℕ → Option ℤ)
    → (List ℕ → Bool)
    → (List ℕ → Option Server)
    → Bool
    → ℕ
    → (ℕ → Client)
    → Option (List (List ℕ))
    → Option ConHandler
new_con_handler stoi readable make_server junk next memory none = none
new_con_handler stoi readable make_server junk next memory (some []) = none
new_con_handler stoi readable make_server junk next memory (some (privkey_file ∷ words)) =
    elim (make_server privkey_file) [
      | none ↦ none
      | some server ↦ add_clients stoi readable junk 0 words (fresh_handler server next memory)
    ]

-- The destructor of a client: a loop over one of its maps.
unfoldable pub delete_services : List (ℕ × ℕ) → Server → Outcome Server
delete_services [] server = ok server
delete_services ((num, a) ∷ m) server = elim (server.heap a) [
  | none ↦ fault double_free
  | some s ↦ delete_services m (store a none server)
]

unfoldable pub delete_client : Client → Server → Outcome Server
delete_client c server =
    delete_services c.inputs server >>= λ server. delete_services c.outputs server

-- The destructor of the handler: a null pointer is skipped by `delete`.
unfoldable pub delete_clients : List (ℕ × Option ℕ) → (ℕ → Client) → Server → Outcome Server
delete_clients [] clients server = ok server
delete_clients ((id, none) ∷ pairs) clients server = delete_clients pairs clients server
delete_clients ((id, some i) ∷ pairs) clients server =
    delete_client (clients i) server >>= λ server. delete_clients pairs clients server
