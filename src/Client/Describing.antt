-- ===== src/Client/Describing.antt =====
-- What the loop of `registerServices` of client.cpp takes from the server.
use tin_serwer.Base.{
  ℕ, suc, ◌+◌, ◌≤◌, ◌<◌, ◌≡◌, refl, ap, ◌∙◌, subst, Option, none, some, List, [], ◌∷◌, arith,
}
use tin_serwer.Service.{Service, common_of}
use tin_serwer.ServiceTable.Ids.{count}
use tin_serwer.ServiceTable.Invariant.{IsValid}
use tin_serwer.ServiceTable.Status.{slot}
use tin_serwer.Server.{Server}
use tin_serwer.Client.Registering.{Services}

-- The address after those of the services in the list.
abbrev pub past : ℕ → Services → ℕ
past next [] = next
past next (none ∷ ps) = past next ps
past next (some a ∷ ps) = past (suc next) ps

-- The services stand one after another from `next` on, each under its number in the list.
abbrev pub Named : (ℕ → Option Service) → ℕ → Services → List ℕ → Type 0
Named heap next [] [] = Unit {0}
Named heap next (none ∷ ps) (id ∷ ids) = Named heap next ps ids
Named heap next (some a ∷ ps) (id ∷ ids) =
    (a ≡ next)
    × ((s : Service) × (heap next ≡ some s) × ((common_of s).id ≡ id))
    × Named heap (suc next) ps ids
Named heap next _ _ = ⊥

-- From `s` to `s'`, numbers are reserved and services are made, and nothing else happens.
pub record Grows (s : Server) (next : ℕ) (s' : Server) (next' : ℕ) (ps : Services) (ids : List ℕ)
    : Type 0 where
  pub named : Named s'.heap next ps ids
  pub reaches : next' ≡ past next ps
  pub below : (a : ℕ) → a < next → s'.heap a ≡ s.heap a
  pub above : (a : ℕ) → next' ≤ a → s'.heap a ≡ s.heap a
  pub reserved :
      (j : ℕ) → count j s'.service_table.reserved ≡ count j s.service_table.reserved + count j ids
  pub slots : (j : ℕ) → slot s'.service_table.services j ≡ slot s.service_table.services j
  pub valid : IsValid s'.service_table
  pub queue : s'.send_msg_queue ≡ s.send_msg_queue

pub past-le : (next : ℕ) (ps : Services) → next ≤ past next ps
past-le next [] = omega arith
past-le next (none ∷ ps) = past-le next ps
past-le next (some a ∷ ps) = omega (arith, past-le (suc next) ps)

pub Named-stable :
    (heap heap' : ℕ → Option Service) (next : ℕ) (ps : Services) (ids : List ℕ)
    → ((a : ℕ) → next ≤ a → heap' a ≡ heap a)
    → Named heap next ps ids
    → Named heap' next ps ids
Named-stable heap heap' next [] [] same n = tt
Named-stable heap heap' next [] (id ∷ ids) same n = n
Named-stable heap heap' next (none ∷ ps) [] same n = n
Named-stable heap heap' next (some a ∷ ps) [] same n = n
Named-stable heap heap' next (none ∷ ps) (id ∷ ids) same n =
    Named-stable heap heap' next ps ids same n
Named-stable heap heap' next (some a ∷ ps) (id ∷ ids) same (at, (s, there, num), n) = (
  at,
  (s, same next (omega arith) ∙ there, num),
  Named-stable heap heap' (suc next) ps ids (λ a le. same a (omega arith)) n,
)

pub Grows-refl : (s : Server) (next : ℕ) → IsValid s.service_table → Grows s next s next [] []
Grows-refl s next v = record {
  named = tt;
  reaches = refl;
  below = λ a lt. refl;
  above = λ a le. refl;
  reserved = λ j. omega arith;
  slots = λ j. refl;
  valid = v;
  queue = refl;
}

named_cons :
    (h1 h2 : ℕ → Option Service) (n n1 : ℕ) (p : Option ℕ) (id : ℕ) (ps : Services) (ids : List ℕ)
    → Named h1 n (p ∷ []) (id ∷ [])
    → n1 ≡ past n (p ∷ [])
    → ((a : ℕ) → a < n1 → h2 a ≡ h1 a)
    → Named h2 n1 ps ids
    → Named h2 n (p ∷ ps) (id ∷ ids)
named_cons h1 h2 n n1 none id ps ids one at same more = subst (λ k. Named h2 k ps ids) at more
named_cons h1 h2 n n1 (some a) id ps ids (is, (s, there, num), _) at same more =
    (is, (s, same n (omega (arith, at)) ∙ there, num), subst (λ k. Named h2 k ps ids) at more)

past_cons : (n : ℕ) (p : Option ℕ) (ps : Services) → past (past n (p ∷ [])) ps ≡ past n (p ∷ ps)
past_cons n none ps = refl
past_cons n (some a) ps = refl

pub Grows-cons :
    (s s1 s2 : Server) (n n1 n2 : ℕ) (p : Option ℕ) (id : ℕ) (ps : Services) (ids : List ℕ)
    → Grows s n s1 n1 (p ∷ []) (id ∷ [])
    → Grows s1 n1 s2 n2 ps ids
    → Grows s n s2 n2 (p ∷ ps) (id ∷ ids)
Grows-cons s s1 s2 n n1 n2 p id ps ids one more = record {
  named = named_cons s1.heap s2.heap n n1 p id ps ids one.named one.reaches more.below more.named;
  reaches = more.reaches ∙ (ap (λ k. past k ps) one.reaches ∙ past_cons n p ps);
  below =
      λ a lt. more.below a (omega (arith, lt, one.reaches, past-le n (p ∷ []))) ∙ one.below a lt;
  above = λ a le. more.above a le ∙ one.above a (omega (arith, le, more.reaches, past-le n1 ps));
  reserved = λ j. omega (arith, one.reserved j, more.reserved j);
  slots = λ j. more.slots j ∙ one.slots j;
  valid = more.valid;
  queue = more.queue ∙ one.queue;
}
