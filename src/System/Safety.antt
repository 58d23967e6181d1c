-- ===== src/System/Safety.antt =====
-- What every state of the server has in common (ConHandler.cpp, client.cpp, Server.cpp,
-- ServiceTable.cpp).
use tin_serwer.Base.{
  ℕ, ◌≡◌, ◌≢◌, refl, Bool, Option, none, some, List, [], ◌∷◌, ℤ, Outcome, ok, fault,
  dangling_pointer, find, AllValues-find,
}
use tin_serwer.QueuePacket.Queue.{AddQueue}
use tin_serwer.Service.{Service, Input, Output, input, output}
use tin_serwer.ServiceTable.{get_service}
use tin_serwer.Server.{dereference}
use tin_serwer.Client.{Heap, input_at}
use tin_serwer.Client.Setting.{output_at}
use tin_serwer.Client.Registering.{Client}
use tin_serwer.Client.Kinds.{vacant, an_input, an_output, kind}
use tin_serwer.Client.Owning.{Owns, AllOf}
use tin_serwer.ConHandler.{ConHandler, addresses}
use tin_serwer.ConHandler.Configuring.{new_con_handler}
use tin_serwer.ConHandler.Keeping.{IsWhole}
use tin_serwer.System.{Reaches}
use tin_serwer.System.Walks.{Reaches-IsWhole_from}
use tin_serwer.System.Starting.{server_of, new_con_handler-IsWhole}

-- Each address in the list leads to an output.
abbrev pub AllOutputs : Heap → List ℕ → Type 0
AllOutputs heap [] = Unit {0}
AllOutputs heap (a ∷ rest) = ((o : Output) × (output_at heap a ≡ ok o)) × AllOutputs heap rest

-- What a client's numbers and addresses lead to.
abbrev pub ReadsAndWrites : Heap → Client → Type 0
ReadsAndWrites heap c =
    ((num a : ℕ) → find num c.inputs ≡ some a → (i : Input) × (input_at heap a ≡ ok i))
    × AllOutputs heap (addresses c.outputs)

dereference-there :
    (o : Option Service)
    → kind o ≢ vacant
    → (s : Service) × ◌≡◌ {A = Outcome Service}
        (elim o [ none ↦ fault dangling_pointer | some t ↦ ok t ])
        (ok s)
dereference-there none there = absurd (there refl)
dereference-there (some s) there = (s, refl)

input_of :
    (o : Option Service)
    → kind o ≡ an_input
    → (i : Input) × ◌≡◌ {A = Outcome Input}
        (elim o [ some (input j) ↦ ok j | _ ↦ fault dangling_pointer ])
        (ok i)
input_of none e = cc
input_of (some (input i)) e = (i, refl)
input_of (some (output o)) e = cc

output_of :
    (o : Option Service)
    → kind o ≡ an_output
    → (i : Output) × ◌≡◌ {A = Outcome Output}
        (elim o [ some (output j) ↦ ok j | _ ↦ fault dangling_pointer ])
        (ok i)
output_of none e = cc
output_of (some (input i)) e = cc
output_of (some (output o)) e = (o, refl)

all_outputs :
    (heap : Heap) (m : List (ℕ × ℕ)) → AllOf an_output heap m → AllOutputs heap (addresses m)
unfolding output_at
all_outputs heap [] all = tt
all_outputs heap ((num, a) ∷ m) (one, all) = (output_of (heap a) one, all_outputs heap m all)

Owns-ReadsAndWrites : (heap : Heap) (c : Client) → Owns heap c → ReadsAndWrites heap c
unfolding input_at
Owns-ReadsAndWrites heap c owns = (
  λ num a e.
      input_of (heap a)
        (AllValues-find (λ b. kind (heap b) ≡ an_input) num a c.inputs owns.inputs e),
  all_outputs heap c.outputs owns.outputs,
)

module _ (stoi : List ℕ → Option ℤ) (readable readable' : List ℕ → Bool) (queue : AddQueue)
    (junk : Bool) (next : ℕ) (memory : ℕ → Client) (file : Option (List (List ℕ)))
    (start h : ConHandler) where
  -- Whatever connections, walks of the clock, requests to exit and rounds of the message queue
  -- come to their end, in any order, after the constructors: the table of services is valid, no
  -- address from the next allocation on is in use, each number of the table leads to a service in
  -- the store, and the inputs and outputs of each client of the configuration and of each client
  -- with an address are inputs and outputs in the store. A connection is one that the table has
  -- room for: the size of its vector and the packets to come are at most 256 together.
  pub Reaches-IsWhole :
      new_con_handler stoi readable (server_of readable' queue) junk next memory file ≡ some start
      → Reaches start h
      → IsWhole h
  Reaches-IsWhole made r =
      Reaches-IsWhole_from start h r
        (new_con_handler-IsWhole stoi readable readable' queue junk next memory file start made)

  -- In each state that comes after the constructors, by any sequence of connections that the
  -- table has room for, walks of the clock, requests to exit and rounds of the message queue that
  -- come to their end: the pointer that a number of the table gives can be dereferenced. So can,
  -- for a client with an address, what `getValues` looks up among the inputs, as an input, and
  -- each address that `setValues` goes through, as an output.
  pub Reaches-ReadsAndWrites :
      new_con_handler stoi readable (server_of readable' queue) junk next memory file ≡ some start
      → Reaches start h
      → ((num a : ℕ)
          → get_service num h.server.service_table ≡ some a
          → (s : Service) × (dereference h.server.heap (some a) ≡ ok s))
        × ((addr i : ℕ)
            → find addr h.addr_client_pairs ≡ some i
            → ReadsAndWrites h.server.heap (h.clients i))
  unfolding dereference
  Reaches-ReadsAndWrites made r =
      let whole = Reaches-IsWhole made r in
      (
        λ num a there. dereference-there (h.server.heap a) (whole.sound.alive num a there),
        λ addr i there. Owns-ReadsAndWrites h.server.heap (h.clients i) (
            AllValues-find (λ j. Owns h.server.heap (h.clients j)) addr i h.addr_client_pairs
              whole.admitted there),
      )
