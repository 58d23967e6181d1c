-- ===== src/Client/Enlisting.antt =====
-- The loop after the EOT in `registerServices` of client.cpp: what it does to the service table.
use tin_serwer.Base.{
  ℕ, suc, ◌+◌, ◌<◌, ◌==◌, ◌≡◌, refl, sym, ap, ◌∙◌, subst, Bool, true, Option, none, some, List, [],
  ◌∷◌, if◌then◌else◌, length, set, Outcome, ok, >>=-eq-ok, arith, lt→ltb, insert,
}
use tin_serwer.Bytes.{Garbage}
use tin_serwer.Service.{Service, common_of, type_code, input, output}
use tin_serwer.ServiceTable.{ServiceTable, push, erase_first}
use tin_serwer.ServiceTable.Ids.{count, count-erase_first, erase_first_found}
use tin_serwer.ServiceTable.Invariant.{IsValid, IsValidPush, push-IsValid, reserved-lt}
use tin_serwer.ServiceTable.Status.{slot, slot-set}
use tin_serwer.Server.{Server, dereference, add_service, send_message}
use tin_serwer.QueuePacket.{new_q_desc}
use tin_serwer.Client.Registering.{Client, Services, enlist_one, enlist}
use tin_serwer.Client.Describing.{Named}
use tin_serwer.Client.Concluding.{dereference-some}

-- Each service of the list is what its number leads to.
abbrev pub Lives : (ℕ → Option ℕ) → Services → List ℕ → Type 0
Lives look [] [] = Unit {0}
Lives look (some a ∷ ps) (id ∷ ids) = (look id ≡ some a) × Lives look ps ids
Lives look _ _ = ⊥

-- The server with the services in its table: `k` counts the reserved numbers that are left.
pub record Enlisted (k : ℕ → ℕ) (s s' : Server) (ps : Services) (ids : List ℕ) : Type 0 where
  pub reserved : (j : ℕ) → count j s'.service_table.reserved ≡ k j
  pub lives : Lives (slot s'.service_table.services) ps ids
  pub others :
      (j : ℕ) → count j ids ≡ 0 → slot s'.service_table.services j ≡ slot s.service_table.services j
  pub valid : IsValid s'.service_table
  pub heap : s'.heap ≡ s.heap

-- What a push of a number that is reserved does.
abbrev PushesOne : ℕ → ℕ → (ℕ → ℕ) → ServiceTable ℕ → ServiceTable ℕ → Type 0
PushesOne a id k t u =
    ((j : ℕ) → count j u.reserved ≡ k j)
    × ((j : ℕ) → slot u.services j ≡ (if id == j then some a else slot t.services j))
    × IsValid u

push-found :
    (a id : ℕ) (t : ServiceTable ℕ) (rest : List ℕ)
    → erase_first id t.reserved ≡ some rest
    → id < length t.services
    → push (some a) id t
      ≡ ok (true, record t { reserved = rest; services = set t.services id (some a) })
unfolding push
push-found a id t rest found small = rw (found, push, lt→ltb _ _ small) refl

pushed_one :
    (a id : ℕ) (k : ℕ → ℕ) (t u u0 : ServiceTable ℕ) (done : Bool)
    → push (some a) id t ≡ ok (done, u)
    → push (some a) id t ≡ ok (true, u0)
    → PushesOne a id k t u0
    → PushesOne a id k t u
pushed_one a id k t u u0 done e pushed one =
    let is : u0 ≡ u = cc in subst (PushesOne a id k t) is one

push-PushesOne :
    (a id : ℕ) (k : ℕ → ℕ) (t u : ServiceTable ℕ) (done : Bool)
    → IsValid t
    → ((j : ℕ) → count j t.reserved ≡ count j (id ∷ []) + k j)
    → push (some a) id t ≡ ok (done, u)
    → PushesOne a id k t u
push-PushesOne a id k t u done v counts e =
    let (rest, found) = erase_first_found id t.reserved (ground (arith, counts id)) in
    let small = reserved-lt id t rest v found in
    let pushed = push-found a id t rest found small in
    pushed_one a id k t u _ done e pushed (
      λ j. omega (arith, counts j, count-erase_first id j t.reserved rest found),
      λ j. slot-set t.services id j (some a) small,
      subst IsValidPush pushed (push-IsValid a id t v),
    )

-- What the entry of one service changes.
abbrev pub EntersOne : ℕ → Server → Server → Type 0
EntersOne a s s' =
    (service : Service) × (done : Bool) × (s.heap a ≡ some service)
    × (push (some a) (common_of service).id s.service_table ≡ ok (done, s'.service_table))
    × (s'.heap ≡ s.heap)

add_service-push :
    (g g' : Garbage) (id a : ℕ) (s s' : Server) (done : Bool)
    → add_service g g' id (some a) s ≡ ok (done, s')
    → (push (some a) id s.service_table ≡ ok (done, s'.service_table)) × (s'.heap ≡ s.heap)
unfolding add_service send_message
add_service-push g g' id a s s' done e =
    let ((done', u), pushed, e1) = >>=-eq-ok (push (some a) id s.service_table) _ e in
    let (service, _, e2) = >>=-eq-ok (dereference s.heap (some a)) _ e1 in
    let c = common_of service in
    let (desc, _, e3) =
      >>=-eq-ok (new_q_desc g g' c.id (type_code c.type) c.name c.unit c.min c.max) _ e2 in
    let same : done' ≡ done = cc in
    let table : u ≡ s'.service_table = cc in
    let heap : s.heap ≡ s'.heap = cc in
    (
      subst (λ x. push (some a) id s.service_table ≡ ok (done, x)) table
          (subst (λ x. push (some a) id s.service_table ≡ ok (x, u)) same pushed),
      sym heap,
    )

same_server :
    (a : ℕ) (c c' : Client) (s1 s' : Server) (service : Service)
    → ◌≡◌ {A = Outcome (Client × Server)}
        (elim service [
          | input i ↦ ok (record c { inputs = insert i.id a c.inputs }, s1)
          | output o ↦ ok (record c { outputs = insert o.id a c.outputs }, s1)
        ])
        (ok (c', s'))
    → s1 ≡ s'
same_server a c c' s1 s' (input i) e = cc
same_server a c c' s1 s' (output o) e = cc

pub enlist_one-EntersOne :
    (g g' : Garbage) (a : ℕ) (c c' : Client) (s s' : Server)
    → enlist_one g g' (some a) c s ≡ ok (c', s')
    → EntersOne a s s'
unfolding enlist_one
enlist_one-EntersOne g g' a c c' s s' e =
    let (service, there, e1) = >>=-eq-ok (dereference s.heap (some a)) _ e in
    let ((done, s1), added, e2) =
      >>=-eq-ok (add_service g g' (common_of service).id (some a) s) _ e1 in
    let (pushed, heap) = add_service-push g g' (common_of service).id a s s1 done added in
    let same : s1 ≡ s' = same_server a c c' s1 s' service e2 in
    (
      service,
      done,
      dereference-some s.heap a service there,
      subst (λ x. push (some a) (common_of service).id s.service_table ≡ ok (done, x.service_table))
          same pushed,
      ap (λ x. x.heap) (sym same) ∙ heap,
    )

pub null_enlisted :
    (g g' : Garbage) (ps : Services) (c c' : Client) (s s' : Server)
    → enlist g g' (none ∷ ps) c s ≡ ok (c', s')
    → ⊥
unfolding enlist enlist_one dereference
null_enlisted g g' ps c c' s s' e = cc

-- Services whose numbers are reserved become what their numbers lead to, and no other number
-- changes.
pub enlist-Enlisted :
    (g g' : Garbage) (ps : Services) (ids : List ℕ) (k : ℕ → ℕ) (next : ℕ) (c c' : Client)
    (s s' : Server)
    → Named s.heap next ps ids
    → IsValid s.service_table
    → ((j : ℕ) → count j s.service_table.reserved ≡ k j + count j ids)
    → enlist g g' ps c s ≡ ok (c', s')
    → Enlisted k s s' ps ids
unfolding enlist
enlist-Enlisted g g' [] [] k next c c' s s' n v counts e =
    let same : s ≡ s' = cc in
    subst (λ x. Enlisted k s x [] []) same
      (record {
        reserved = λ j. omega (arith, counts j);
        lives = tt;
        others = λ j none. refl;
        valid = v;
        heap = refl;
      })
enlist-Enlisted g g' [] (id ∷ ids) k next c c' s s' n v counts e = absurd n
enlist-Enlisted g g' (none ∷ ps) ids k next c c' s s' n v counts e =
    absurd (null_enlisted g g' ps c c' s s' e)
enlist-Enlisted g g' (some a ∷ ps) [] k next c c' s s' n v counts e = absurd n
enlist-Enlisted g g' (some a ∷ ps) (id ∷ ids) k next c c' s s' (at, (service, there, num), n) v
      counts e =
    let ((c1, s1), first, e1) = >>=-eq-ok (enlist_one g g' (some a) c s) _ e in
    let (found, done, there', pushed, heap) = enlist_one-EntersOne g g' a c c1 s s1 first in
    let same : found ≡ service = cc in
    let is : (common_of found).id ≡ id = ap (λ x. (common_of x).id) same ∙ num in
    let (counts1, slots1, v1) =
      push-PushesOne a id (λ j. k j + count j ids) s.service_table s1.service_table done v
        (λ j. omega (arith, counts j))
        (subst (λ i. push (some a) i s.service_table ≡ ok (done, s1.service_table)) is pushed) in
    let r =
      enlist-Enlisted g g' ps ids k (suc next) c1 c' s1 s'
        (subst (λ h. Named h (suc next) ps ids) (sym heap) n) v1 counts1 e1 in
    let once : count id ids ≡ 0 = ground (arith, v.exact id, counts id) in
    let at_id : slot s1.service_table.services id ≡ some a = ground (arith, slots1 id) in
    record {
      reserved = r.reserved;
      lives = (r.others id once ∙ at_id, r.lives);
      others = λ j out. ground (arith, out, r.others j (omega (arith, out)), slots1 j);
      valid = r.valid;
      heap = r.heap ∙ heap;
    }
