-- ===== src/Client/Owning.antt =====
-- The services that the table and the clients' maps lead to, and what `registerServices` of
-- client.cpp does to them.
use tin_serwer.Base.{
  ℕ, suc, ◌≤◌, ◌<◌, ◌≡◌, ◌≢◌, refl, sym, ap, ◌∙◌, subst, Option, none, some, List, [], ◌∷◌, leb,
  ltb, ◌==◌, Outcome, ok, >>=-eq-ok, arith, Bool-cases, inl, inr, ◌⊎◌, insert, AllValues,
  AllValues-map, AllValues-insert,
}
use tin_serwer.Bytes.{Garbage}
use tin_serwer.Service.{Service, common_of, input, output}
use tin_serwer.ServiceTable.{get_service}
use tin_serwer.ServiceTable.Ids.{count}
use tin_serwer.ServiceTable.Invariant.{IsValid}
use tin_serwer.ServiceTable.Status.{slot, get_service-slot}
use tin_serwer.Server.{Server, dereference, add_service}
use tin_serwer.Client.{Heap}
use tin_serwer.Client.Registering.{Client, Services, enlist_one, enlist}
use tin_serwer.Client.Describing.{past-le, Named, Grows}
use tin_serwer.Client.Concluding.{Restored, dereference-some}
use tin_serwer.Client.Enlisting.{Lives, Enlisted, enlist_one-EntersOne, null_enlisted}
use tin_serwer.Client.Kinds.{Kind, vacant, an_input, an_output, kind, SameKinds}

-- The table is valid, no address from `next` on is in use, and each number of the table leads to a
-- service.
pub record IsSound (s : Server) (next : ℕ) : Type 0 where
  pub table_valid : IsValid s.service_table
  pub fresh : (a : ℕ) → next ≤ a → s.heap a ≡ none
  pub alive : (j a : ℕ) → get_service j s.service_table ≡ some a → kind (s.heap a) ≢ vacant

-- Each number of the map leads to a service of the kind.
abbrev pub AllOf : Kind → Heap → List (ℕ × ℕ) → Type 0
AllOf k heap m = AllValues (λ a. kind (heap a) ≡ k) m

-- The client's inputs are inputs of the store, and its outputs are outputs.
pub record Owns (heap : Heap) (c : Client) : Type 0 where
  pub inputs : AllOf an_input heap c.inputs
  pub outputs : AllOf an_output heap c.outputs

-- An address that leads to a service leads to one of the same kind after.
abbrev pub Stays : Heap → Heap → Type 0
Stays heap heap' = (a : ℕ) → (kind (heap a) ≡ vacant) ⊎ (kind (heap' a) ≡ kind (heap a))

AllOf-Stays :
    (k : Kind) (heap heap' : Heap) (m : List (ℕ × ℕ))
    → k ≢ vacant
    → Stays heap heap'
    → AllOf k heap m
    → AllOf k heap' m
AllOf-Stays k heap heap' m there stays all =
    AllValues-map (λ a. kind (heap a) ≡ k) (λ a. kind (heap' a) ≡ k) m
      (λ a one. elim (stays a) [
        | inl gone ↦ absurd (there (sym one ∙ gone))
        | inr same ↦ same ∙ one
      ])
      all

pub Owns-Stays : (heap heap' : Heap) (c : Client) → Stays heap heap' → Owns heap c → Owns heap' c
Owns-Stays heap heap' c stays owns = record {
  inputs = AllOf-Stays an_input heap heap' c.inputs (λ e. cc) stays owns.inputs;
  outputs = AllOf-Stays an_output heap heap' c.outputs (λ e. cc) stays owns.outputs;
}

-- A server with the same table, whose store leads to the same kinds.
pub IsSound-Same :
    (s s' : Server) (next : ℕ)
    → s'.service_table ≡ s.service_table
    → SameKinds s.heap s'.heap
    → IsSound s next
    → IsSound s' next
IsSound-Same s s' next table kinds sound = record {
  table_valid = subst IsValid (sym table) sound.table_valid;
  fresh = λ a le. none_there (s'.heap a) (kinds a ∙ ap kind (sound.fresh a le));
  alive = λ j a there gone.
      sound.alive j a (ap (get_service j) (sym table) ∙ there) (sym (kinds a) ∙ gone);
}
  where
    none_there : (o : Option Service) → kind o ≡ vacant → o ≡ none
    none_there none e = refl
    none_there (some (input i)) e = cc
    none_there (some (output o)) e = cc

-- What a loop of `registerServices` makes stands beside what was there.
pub Grows-Stays :
    (s s' : Server) (n n' : ℕ) (ps : Services) (ids : List ℕ)
    → IsSound s n
    → Grows s n s' n' ps ids
    → Stays s.heap s'.heap
Grows-Stays s s' n n' ps ids sound grows a = elim (Bool-cases (leb n a)) [
  | inl le ↦ inl (ap kind (sound.fresh a (ground (arith, le))))
  | inr gt ↦ inr (ap kind (grows.below a (ground (arith, gt))))
]

same_slots :
    (s s' : Server) (j : ℕ)
    → slot s'.service_table.services j ≡ slot s.service_table.services j
    → get_service j s'.service_table ≡ get_service j s.service_table
same_slots s s' j e =
    get_service-slot j s'.service_table ∙ (e ∙ sym (get_service-slot j s.service_table))

pub Grows-IsSound :
    (s s' : Server) (n n' : ℕ) (ps : Services) (ids : List ℕ)
    → IsSound s n
    → Grows s n s' n' ps ids
    → IsSound s' n'
Grows-IsSound s s' n n' ps ids sound grows = record {
  table_valid = grows.valid;
  fresh = λ a le. grows.above a le ∙ sound.fresh a (omega (arith, le, grows.reaches, past-le n ps));
  alive = λ j a there gone.
      let alive = sound.alive j a (sym (same_slots s s' j (grows.slots j)) ∙ there) in
      elim (Grows-Stays s s' n n' ps ids sound grows a) [
        | inl vacated ↦ alive vacated
        | inr same ↦ alive (sym same ∙ gone)
      ];
}

-- What is given back leaves what was there before.
pub Restored-IsSound :
    (s s1 s' : Server) (k : ℕ → ℕ) (n n1 : ℕ) (ps : Services) (ids : List ℕ)
    → IsSound s n
    → Grows s n s1 n1 ps ids
    → Restored k n s1 s'
    → IsSound s' n1 × Stays s.heap s'.heap
Restored-IsSound s s1 s' k n n1 ps ids sound grows r =
    let stays : Stays s.heap s'.heap = λ a. elim (Bool-cases (leb n a)) [
      | inl le ↦ inl (ap kind (sound.fresh a (ground (arith, le))))
      | inr gt ↦
          let lt : a < n = ground (arith, gt) in inr (ap kind (r.below a lt ∙ grows.below a lt))
    ] in
    (
      record {
        table_valid = r.valid;
        fresh = λ a le. r.freed a (omega (arith, le, grows.reaches, past-le n ps));
        alive = λ j a there gone.
            let alive =
              sound.alive j a (sym (same_slots s s' j (r.slots j ∙ grows.slots j)) ∙ there) in
            elim (stays a) [ inl vacated ↦ alive vacated | inr same ↦ alive (sym same ∙ gone) ];
      },
      stays,
    )

entered-Owns :
    (a : ℕ) (heap : Heap) (c c' : Client) (s1 s' : Server) (service : Service)
    → heap a ≡ some service
    → Owns heap c
    → ◌≡◌ {A = Outcome (Client × Server)}
        (elim service [
          | input i ↦ ok (record c { inputs = insert i.id a c.inputs }, s1)
          | output o ↦ ok (record c { outputs = insert o.id a c.outputs }, s1)
        ])
        (ok (c', s'))
    → Owns heap c'
entered-Owns a heap c c' s1 s' (input i) at owns e =
    let is : record c { inputs = insert i.id a c.inputs } ≡ c' = cc in
    subst (Owns heap) is (record {
      inputs =
          AllValues-insert (λ x. kind (heap x) ≡ an_input) i.id a c.inputs (ap kind at) owns.inputs;
      outputs = owns.outputs;
    })
entered-Owns a heap c c' s1 s' (output o) at owns e =
    let is : record c { outputs = insert o.id a c.outputs } ≡ c' = cc in
    subst (Owns heap) is (record {
      inputs = owns.inputs;
      outputs =
          AllValues-insert (λ x. kind (heap x) ≡ an_output) o.id a c.outputs (ap kind at)
            owns.outputs;
    })

enlist_one-Owns :
    (g g' : Garbage) (a : ℕ) (c c' : Client) (s s' : Server)
    → Owns s.heap c
    → enlist_one g g' (some a) c s ≡ ok (c', s')
    → Owns s'.heap c'
unfolding enlist_one
enlist_one-Owns g g' a c c' s s' owns e =
    let (service, there, e1) = >>=-eq-ok (dereference s.heap (some a)) _ e in
    let ((done, s1), added, e2) =
      >>=-eq-ok (add_service g g' (common_of service).id (some a) s) _ e1 in
    let at = dereference-some s.heap a service there in
    let (_, _, _, _, same) = enlist_one-EntersOne g g' a c c' s s' e in
    subst (λ heap. Owns heap c') (sym same) (entered-Owns a s.heap c c' s1 s' service at owns e2)

pub enlist-Owns :
    (g g' : Garbage) (ps : Services) (c c' : Client) (s s' : Server)
    → Owns s.heap c
    → enlist g g' ps c s ≡ ok (c', s')
    → Owns s'.heap c'
unfolding enlist
enlist-Owns g g' [] c c' s s' owns e =
    let client : c ≡ c' = cc in
    let server : s ≡ s' = cc in subst (λ x. Owns x.heap c') server (subst (Owns s.heap) client owns)
enlist-Owns g g' (none ∷ ps) c c' s s' owns e = absurd (null_enlisted g g' ps c c' s s' e)
enlist-Owns g g' (some a ∷ ps) c c' s s' owns e =
    let ((c1, s1), first, e1) = >>=-eq-ok (enlist_one g g' (some a) c s) _ e in
    enlist-Owns g g' ps c1 c' s1 s' (enlist_one-Owns g g' a c c1 s s1 owns first) e1

some-kind : (o : Option Service) (s : Service) → o ≡ some s → kind o ≢ vacant
some-kind none s e = cc
some-kind (some (input i)) s e = λ k. cc
some-kind (some (output i)) s e = λ k. cc

-- A number that was described leads to a service.
Lives-alive :
    (look : ℕ → Option ℕ) (heap : Heap) (n : ℕ) (ps : Services) (ids : List ℕ) (j a : ℕ)
    → Named heap n ps ids
    → Lives look ps ids
    → count j ids ≢ 0
    → look j ≡ some a
    → kind (heap a) ≢ vacant
Lives-alive look heap n [] [] j a named lives counted there = absurd (counted refl)
Lives-alive look heap n [] (id ∷ ids) j a named lives counted there = absurd lives
Lives-alive look heap n (none ∷ ps) ids j a named lives counted there = absurd lives
Lives-alive look heap n (some b ∷ ps) [] j a named lives counted there = absurd lives
Lives-alive look heap n (some b ∷ ps) (id ∷ ids) j a (at, (s, made, num), named) (live, lives)
      counted there =
    elim (Bool-cases (id == j)) [
      | inl same ↦
          let is : j ≡ id = ground (arith, same) in
          let found : ◌≡◌ {A = Option ℕ} (some a) (some b) = sym there ∙ (ap look is ∙ live) in
          let here : a ≡ n = cc in some-kind (heap a) s (ap heap here ∙ made)
      | inr other ↦
          Lives-alive look heap (suc n) ps ids j a named lives
            (λ z. counted (ground (arith, other, z))) there
    ]

pub Enlisted-IsSound :
    (s s' : Server) (k : ℕ → ℕ) (n next : ℕ) (ps : Services) (ids : List ℕ)
    → IsSound s next
    → Named s.heap n ps ids
    → Enlisted k s s' ps ids
    → IsSound s' next
Enlisted-IsSound s s' k n next ps ids sound named e = record {
  table_valid = e.valid;
  fresh = λ a le. ap (λ h. h a) e.heap ∙ sound.fresh a le;
  alive = λ j a there gone.
      let gone' : kind (s.heap a) ≡ vacant = ap (λ h. kind (h a)) (sym e.heap) ∙ gone in
      elim (Bool-cases (ltb 0 (count j ids))) [
        | inl counted ↦
            Lives-alive (slot s'.service_table.services) s.heap n ps ids j a named e.lives
              (λ z. ground (arith, counted, z)) (sym (get_service-slot j s'.service_table) ∙ there)
              gone'
        | inr out ↦
            sound.alive j a (sym (same_slots s s' j (e.others j (ground (arith, out)))) ∙ there)
              gone'
      ];
}
