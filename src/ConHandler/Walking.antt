-- ===== src/ConHandler/Walking.antt =====
-- `ConHandler::clockWalk` of ConHandler.cpp: when the walk comes to its end.
use tin_serwer.Base.{
  ℕ, ◌==◌, ◌≡◌, refl, subst, Bool, true, false, List, [], ◌∷◌, if◌then◌else◌, ◌||◌, Outcome, Fault,
  ok, fault, ◌>>=◌, ◌≢◌, ◌⊎◌, Bool-cases, inl, inr, arith, stale_iterator, ==_refl,
}
use tin_serwer.Bytes.{Garbage}
use tin_serwer.Client.Registering.{Client}
use tin_serwer.Client.Sessions.{get_used, set_used}
use tin_serwer.ConHandler.{ConHandler, set_client, disconnect, walk, clock_walk, clients_registered}

-- Whether the client `i` has an address in the list.
abbrev pub listed : ℕ → List (ℕ × ℕ) → Bool
listed i [] = false
listed i ((addr, j) ∷ pairs) = (j == i) || listed i pairs

-- Each client in the list is used, and none stands there under two addresses.
abbrev pub AllUsedOnce : (ℕ → Client) → List (ℕ × ℕ) → Type 0
AllUsedOnce clients [] = Unit {0}
AllUsedOnce clients ((addr, i) ∷ pairs) =
    (get_used (clients i) ≡ true) × (listed i pairs ≡ false) × AllUsedOnce clients pairs

-- The clients after a walk over the list.
abbrev pub unmarked : List (ℕ × ℕ) → (ℕ → Client) → ℕ → Client
unmarked pairs clients i = if listed i pairs then set_used false (clients i) else clients i

-- What a walk that ends well does.
abbrev pub Walked : ConHandler → List (ℕ × ℕ) → ConHandler → Type 0
Walked h pairs h' =
    (h'.addr_client_pairs ≡ h.addr_client_pairs)
    × (h'.server ≡ h.server)
    × ((i : ℕ) → h'.clients i ≡ unmarked pairs h.clients i)

after_one :
    (h : ConHandler) (i : ℕ) (pairs : List (ℕ × ℕ))
    → AllUsedOnce h.clients pairs
    → listed i pairs ≡ false
    → AllUsedOnce (set_client i (set_used false (h.clients i)) h).clients pairs
after_one h i [] a out = tt
after_one h i ((addr, j) ∷ pairs) (u, once, a) out =
    (ground (arith, u), once, after_one h i pairs a (ground arith))

before_one :
    (h : ConHandler) (i : ℕ) (pairs : List (ℕ × ℕ))
    → AllUsedOnce (set_client i (set_used false (h.clients i)) h).clients pairs
    → (listed i pairs ≡ false) × AllUsedOnce h.clients pairs
before_one h i [] a = (refl, tt)
before_one h i ((addr, j) ∷ pairs) (u, once, a) =
    let (out, a') = before_one h i pairs a in (ground arith, (ground (arith, u), once, a'))

walk-Walked :
    (g : Garbage) (pairs : List (ℕ × ℕ)) (h : ConHandler)
    → AllUsedOnce h.clients pairs
    → (h' : ConHandler) × (walk g pairs h ≡ ok h') × Walked h pairs h'
unfolding walk
walk-Walked g [] h a = (h, refl, (refl, refl, λ i. refl))
walk-Walked g ((addr, i) ∷ pairs) h (u, once, a) =
    let h1 = set_client i (set_used false (h.clients i)) h in
    let (h', ends, (same, server, now)) = walk-Walked g pairs h1 (after_one h i pairs a once) in
    (h', rw u ends, (same, server, λ j. ground (arith, now j)))

not_ok {ι κ} :
    {X : Type ι} {Y : Type κ} (m : Outcome X) (why : Fault) (y : Y)
    → (m >>= λ _. fault why) ≡ ok y
    → ⊥
not_ok (fault e) why y ended = cc
not_ok (ok x) why y ended = cc

walk-ok :
    (g : Garbage) (pairs : List (ℕ × ℕ)) (h h' : ConHandler)
    → walk g pairs h ≡ ok h'
    → AllUsedOnce h.clients pairs
unfolding walk
walk-ok g [] h h' ends = tt
walk-ok g ((addr, i) ∷ pairs) h h' ends = elim (Bool-cases (get_used (h.clients i))) [
  | inl u ↦
      let h1 = set_client i (set_used false (h.clients i)) h in
      let (out, a) = before_one h i pairs (walk-ok g pairs h1 h' (cc)) in (u, out, a)
  | inr u ↦ absurd (not_ok (disconnect g addr i h) stale_iterator h' (cc))
]

-- A list with an address whose clients were unmarked is not used.
unmarked_idle :
    (clients now : ℕ → Client) (pairs : List (ℕ × ℕ)) (some_pair : ℕ × ℕ) (rest : List (ℕ × ℕ))
    → pairs ≡ some_pair ∷ rest
    → ((i : ℕ) → now i ≡ unmarked pairs clients i)
    → AllUsedOnce now pairs
    → ⊥
unmarked_idle clients now [] (addr, i) rest e unused a = cc
unmarked_idle clients now ((addr, i) ∷ pairs) p rest e unused (u, once, a) =
    ground (arith, u, unused i, ==_refl i)

pub clock_walk-Walked :
    (g : Garbage) (h : ConHandler)
    → AllUsedOnce h.clients h.addr_client_pairs
    → (h' : ConHandler) × (clock_walk g h ≡ ok h') × Walked h h.addr_client_pairs h'
unfolding clock_walk
clock_walk-Walked g h a = walk-Walked g h.addr_client_pairs h a

-- How a walk ends: well, with each client used once, or by a fault.
abbrev pub EndsOrFaults : ConHandler → Outcome ConHandler → Type 0
EndsOrFaults h outcome =
    (AllUsedOnce h.clients h.addr_client_pairs
      × ((h' : ConHandler) × (outcome ≡ ok h') × Walked h h.addr_client_pairs h'))
    ⊎ ((¬ AllUsedOnce h.clients h.addr_client_pairs) × ((why : Fault) × (outcome ≡ fault why)))

walked_to :
    (g : Garbage) (h : ConHandler) (outcome : Outcome ConHandler)
    → walk g h.addr_client_pairs h ≡ outcome
    → EndsOrFaults h outcome
walked_to g h (ok h') e =
    let a = walk-ok g h.addr_client_pairs h h' e in
    let (h1, ends, walked) = walk-Walked g h.addr_client_pairs h a in inl (a, (h1, cc, walked))
walked_to g h (fault why) e =
    inr (λ a. let (h1, ends, walked) = walk-Walked g h.addr_client_pairs h a in cc, (why, refl))

-- Either every client that has an address is used and has one address only: then the walk comes to
-- its end, marks exactly these clients as unused, and leaves the addresses and the server as they
-- were. Or some client with an address is unused or has two, and then the walk faults.
pub clock_walk_cases : (g : Garbage) (h : ConHandler) → EndsOrFaults h (clock_walk g h)
unfolding clock_walk
clock_walk_cases g h = walked_to g h (walk g h.addr_client_pairs h) refl

any-cons :
    (pairs : List (ℕ × ℕ))
    → (elim pairs as (λ _. Bool) [ [] ↦ false | _ ∷ _ ↦ true ]) ≡ true
    → (p : ℕ × ℕ) × (rest : List (ℕ × ℕ)) × (pairs ≡ p ∷ rest)
any-cons [] e = cc
any-cons (p ∷ rest) e = (p, rest, refl)

-- While clients are registered, two walks of which the first ends well, with no exchange of data in
-- between, never both come to their end.
pub clock_walk-twice :
    (g : Garbage) (h h' h'' : ConHandler)
    → clients_registered h ≡ true
    → clock_walk g h ≡ ok h'
    → clock_walk g h' ≢ ok h''
unfolding clock_walk clients_registered
clock_walk-twice g h h' h'' r first second =
    let (h1, ends, walked) =
      walk-Walked g h.addr_client_pairs h (walk-ok g h.addr_client_pairs h h' first) in
    let (p, rest, e) = any-cons h.addr_client_pairs r in
    let one : h1 ≡ h' = cc in
    let (same, server, now) : Walked h h.addr_client_pairs h' =
      subst (Walked h h.addr_client_pairs) one walked in
    let a : AllUsedOnce h'.clients h.addr_client_pairs =
      subst (AllUsedOnce h'.clients) same (walk-ok g h'.addr_client_pairs h' h'' second) in
    unmarked_idle h.clients h'.clients h.addr_client_pairs p rest e now a
