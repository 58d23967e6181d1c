-- ===== src/Client/Concluding.antt =====
-- How `registerServices` of client.cpp ends: the services are given back, or enlisted.
use tin_serwer.Base.{
  ℕ, suc, ◌+◌, ◌≤◌, ◌<◌, ◌≡◌, refl, ap, ◌∙◌, subst, Option, none, some, List, [], ◌∷◌, ltb, Outcome,
  ok, fault, dangling_pointer, >>=-eq-ok, inl, inr, Bool-cases, arith,
}
use tin_serwer.Service.{Service, common_of}
use tin_serwer.ServiceTable.{ServiceTable, unreserve}
use tin_serwer.ServiceTable.Ids.{count, count-erase_first, erase_first_found}
use tin_serwer.ServiceTable.Invariant.{IsValid, unreserve-IsValid}
use tin_serwer.ServiceTable.Status.{slot}
use tin_serwer.Server.{Server, dereference, unreserve_id}
use tin_serwer.Client.Registering.{Services, store, give_back}
use tin_serwer.Client.Describing.{past, Named, Named-stable}

-- The server without the services from `next` on: `k` counts the reserved numbers.
pub record Restored (k : ℕ → ℕ) (next : ℕ) (s s' : Server) : Type 0 where
  pub reserved : (j : ℕ) → count j s'.service_table.reserved ≡ k j
  pub slots : (j : ℕ) → slot s'.service_table.services j ≡ slot s.service_table.services j
  pub valid : IsValid s'.service_table
  pub below : (a : ℕ) → a < next → s'.heap a ≡ s.heap a
  pub freed : (a : ℕ) → next ≤ a → s'.heap a ≡ none

-- What `unreserve` does to a number that is reserved once more than `k` says.
unreserve-count :
    (id : ℕ) (k : ℕ → ℕ) (t : ServiceTable ℕ)
    → ((j : ℕ) → count j t.reserved ≡ count j (id ∷ []) + k j)
    → let u = (unreserve id t).1 in ((j : ℕ) → count j u.reserved ≡ k j) × (u.services ≡ t.services)
unfolding unreserve
unreserve-count id k t counts =
    let (rest, e) = erase_first_found id t.reserved (ground (arith, counts id)) in
    rw (e, unreserve) (λ j. omega (arith, counts j, count-erase_first id j t.reserved rest e), refl)

found_there :
    (o : Option Service) (s : Service)
    → ◌≡◌ {A = Outcome Service} (elim o [ none ↦ fault dangling_pointer | some t ↦ ok t ]) (ok s)
    → o ≡ some s
found_there none s e = cc
found_there (some t) s e = cc

-- What an address leads to.
pub dereference-some :
    (heap : ℕ → Option Service) (a : ℕ) (s : Service)
    → dereference heap (some a) ≡ ok s
    → heap a ≡ some s
unfolding dereference
dereference-some heap a s e = found_there (heap a) s e

null_given : (ps : Services) (s s' : Server) → give_back (none ∷ ps) s ≡ ok s' → ⊥
unfolding give_back dereference
null_given ps s s' e = cc

-- What is nothing from one address on, and at that address, is nothing from it on.
freed_from :
    (before after : ℕ → Option Service) (next a b : ℕ)
    → a ≡ next
    → next ≤ b
    → before a ≡ none
    → ((c : ℕ) → c < suc next → after c ≡ before c)
    → ((c : ℕ) → suc next ≤ c → after c ≡ none)
    → after b ≡ none
freed_from before after next a b at le gone below above = elim (Bool-cases (ltb next b)) [
  | inl more ↦ above b (ground arith)
  | inr same ↦
      let is : b ≡ a = ground (arith, at) in below b (omega (arith, is, at)) ∙ (ap before is ∙ gone)
]

-- Giving back the services from `next` on releases their numbers, and frees them.
pub give_back-Restored :
    (ps : Services) (ids : List ℕ) (k : ℕ → ℕ) (next : ℕ) (s s' : Server)
    → Named s.heap next ps ids
    → IsValid s.service_table
    → ((j : ℕ) → count j s.service_table.reserved ≡ k j + count j ids)
    → ((a : ℕ) → past next ps ≤ a → s.heap a ≡ none)
    → give_back ps s ≡ ok s'
    → Restored k next s s'
unfolding give_back unreserve_id
give_back-Restored [] [] k next s s' n v counts fresh e =
    let same : s ≡ s' = cc in
    subst (Restored k next s) same (record {
      reserved = λ j. omega (arith, counts j);
      slots = λ j. refl;
      valid = v;
      below = λ a lt. refl;
      freed = fresh;
    })
give_back-Restored [] (id ∷ ids) k next s s' n v counts fresh e = absurd n
give_back-Restored (none ∷ ps) ids k next s s' n v counts fresh e = absurd (null_given ps s s' e)
give_back-Restored (some a ∷ ps) [] k next s s' n v counts fresh e = absurd n
give_back-Restored (some a ∷ ps) (id ∷ ids) k next s s' (at, (service, there, num), n) v counts
      fresh e =
    let (found, e0, e1) = >>=-eq-ok (dereference s.heap (some a)) _ e in
    let there' = dereference-some s.heap a found e0 in
    let same : found ≡ service = cc in
    let is : (common_of found).id ≡ id = ap (λ x. (common_of x).id) same ∙ num in
    let s1 = store a none (unreserve_id id s).1 in
    let (counts1, services1) =
      unreserve-count id (λ j. k j + count j ids) s.service_table (λ j. omega (arith, counts j)) in
    let r =
      give_back-Restored ps ids k (suc next) s1 s'
        (Named-stable s.heap s1.heap (suc next) ps ids (λ b le. ground (arith, at)) n)
        (unreserve-IsValid id s.service_table v) counts1 (λ b le. ground (arith, fresh b le))
        (subst (λ i. give_back ps (store a none (unreserve_id i s).1) ≡ ok s') is e1) in
    record {
      reserved = r.reserved;
      slots = λ j. r.slots j ∙ ap (λ xs. slot xs j) services1;
      valid = r.valid;
      below = λ b lt. ground (arith, r.below b (omega arith), at);
      freed =
          λ b le. freed_from s1.heap s'.heap next a b at le (ground (arith, at)) r.below r.freed;
    }
