-- ===== src/Client/Membership.antt =====
-- The loop after the EOT in `registerServices` of client.cpp: what it does to the client's maps.
use tin_serwer.Base.{
  ℕ, suc, ◌==◌, ◌≡◌, sym, ap, ◌∙◌, subst, Bool, true, false, ◌||◌, Option, none, some, List, [],
  ◌∷◌, ltb, Outcome, ok, >>=-eq-ok, arith, find, insert, Bool-cases, inl, inr,
}
use tin_serwer.Bytes.{Garbage}
use tin_serwer.Service.{Service, common_of, input, output}
use tin_serwer.ServiceTable.Ids.{count}
use tin_serwer.Server.{Server, dereference, add_service}
use tin_serwer.Client.Registering.{Client, Services, enlist_one, enlist}
use tin_serwer.Client.Describing.{Named}
use tin_serwer.Client.Concluding.{dereference-some}
use tin_serwer.Client.Enlisting.{enlist_one-EntersOne, null_enlisted}

abbrev is_some {ℓ} : {V : Type ℓ} → Option V → Bool
is_some none = false
is_some (some v) = true

-- Whether one of the maps of the client has the number.
abbrev pub knows : ℕ → Client → Bool
knows j c = is_some (find j c.inputs) || is_some (find j c.outputs)

find-insert :
    (k j v : ℕ) (m : List (ℕ × ℕ))
    → is_some (find j (insert k v m)) ≡ ((j == k) || is_some (find j m))
unfolding find insert
find-insert k j v [] = ground arith
find-insert k j v ((k', v') ∷ m) = elim (Bool-cases (ltb k k')) [
  | inl less ↦ rw less (ground arith)
  | inr more ↦ elim (Bool-cases (k == k')) [
    | inl same ↦ rw (more, same) (ground (arith, same))
    | inr other ↦ rw (more, other) (ground (arith, other, find-insert k j v m))
  ]
]

entered :
    (a j : ℕ) (c c' : Client) (s1 s' : Server) (service : Service)
    → ◌≡◌ {A = Outcome (Client × Server)}
        (elim service [
          | input i ↦ ok (record c { inputs = insert i.id a c.inputs }, s1)
          | output o ↦ ok (record c { outputs = insert o.id a c.outputs }, s1)
        ])
        (ok (c', s'))
    → knows j c' ≡ ((j == (common_of service).id) || knows j c)
unfolding common_of
entered a j c c' s1 s' (input i) e =
    let is : record c { inputs = insert i.id a c.inputs } ≡ c' = cc in
    subst (λ x. knows j x ≡ ((j == i.id) || knows j c)) is
      (ground (arith, find-insert i.id j a c.inputs))
entered a j c c' s1 s' (output o) e =
    let is : record c { outputs = insert o.id a c.outputs } ≡ c' = cc in
    subst (λ x. knows j x ≡ ((j == o.id) || knows j c)) is
      (ground (arith, find-insert o.id j a c.outputs))

enlist_one-knows :
    (g g' : Garbage) (a j : ℕ) (c c' : Client) (s s' : Server) (service : Service)
    → s.heap a ≡ some service
    → enlist_one g g' (some a) c s ≡ ok (c', s')
    → knows j c' ≡ ((j == (common_of service).id) || knows j c)
unfolding enlist_one
enlist_one-knows g g' a j c c' s s' service at e =
    let (found, there, e1) = >>=-eq-ok (dereference s.heap (some a)) _ e in
    let ((done, s1), added, e2) =
      >>=-eq-ok (add_service g g' (common_of found).id (some a) s) _ e1 in
    let there' = dereference-some s.heap a found there in
    let same : found ≡ service = cc in
    subst (λ x. knows j c' ≡ ((j == (common_of x).id) || knows j c)) same
      (entered a j c c' s1 s' found e2)

-- After the loop the client's maps have exactly the numbers that they had, and those of the
-- services.
pub enlist-knows :
    (g g' : Garbage) (ps : Services) (ids : List ℕ) (next j : ℕ) (c c' : Client) (s s' : Server)
    → Named s.heap next ps ids
    → enlist g g' ps c s ≡ ok (c', s')
    → knows j c' ≡ (ltb 0 (count j ids) || knows j c)
unfolding enlist
enlist-knows g g' [] [] next j c c' s s' n e = let same : c ≡ c' = cc in ap (knows j) (sym same)
enlist-knows g g' [] (id ∷ ids) next j c c' s s' n e = absurd n
enlist-knows g g' (none ∷ ps) ids next j c c' s s' n e = absurd (null_enlisted g g' ps c c' s s' e)
enlist-knows g g' (some a ∷ ps) [] next j c c' s s' n e = absurd n
enlist-knows g g' (some a ∷ ps) (id ∷ ids) next j c c' s s' (at, (service, there, num), n) e =
    let ((c1, s1), first, e1) = >>=-eq-ok (enlist_one g g' (some a) c s) _ e in
    let (found, done, there', pushed, heap) = enlist_one-EntersOne g g' a c c1 s s1 first in
    let at_a : s.heap a ≡ some service = ap s.heap at ∙ there in
    let one = enlist_one-knows g g' a j c c1 s s1 service at_a first in
    let more =
      enlist-knows g g' ps ids (suc next) j c1 c' s1 s'
        (subst (λ h. Named h (suc next) ps ids) (sym heap) n) e1 in
    ground (arith, one, more, num)
