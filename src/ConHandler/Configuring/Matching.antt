-- ===== src/ConHandler/Configuring/Matching.antt =====
-- The numbers of the configuration (ConHandler.cpp) and the objects that they lead to.
use tin_serwer.Base.{
  ℕ, ◌+◌, ◌<◌, ◌==◌, ◌≡◌, refl, sym, ap, ◌∙◌, subst, Bool, true, false, Option, none, some, List,
  [], ◌∷◌, if◌then◌else◌, ltb, ◌&&◌, ℤ, pos, negsuc, ◌%◌, arith, find, assign, Bool-cases, inl, inr,
  if_true, if_false, ==_refl,
}
use tin_serwer.Client.Registering.{Client}
use tin_serwer.ConHandler.{ConHandler}
use tin_serwer.Server.{Server}
use tin_serwer.ConHandler.Configuring.{
  to_uint8, new_client, add_client, add_clients, fresh_handler, new_con_handler,
}

find-assign :
    {V : Type 0} (k j : ℕ) (v : V) (m : List (ℕ × V))
    → find j (assign k v m) ≡ (if j == k then some v else find j m)
unfolding find assign
find-assign k j v [] = refl
find-assign k j v ((k', v') ∷ m) = elim (Bool-cases (ltb k k')) [
  | inl less ↦ rw less refl
  | inr more ↦ elim (Bool-cases (k == k')) [
    | inl same ↦ rw (more, same) (ground (arith, same))
    | inr other ↦ rw (more, other) (ground (arith, other, find-assign k j v m))
  ]
]

-- Every number leads to an object of its own number, among the first `n`.
abbrev pub Matches : ℕ → ConHandler → Type 0
Matches n h =
    (id : ℕ) (pointer : Option ℕ)
    → find id h.id_client_pairs ≡ some pointer
    → (i : ℕ) × (pointer ≡ some i) × (i < n) × ((h.clients i).id ≡ id)

add_client-Matches :
    (junk : Bool) (n : ℕ) (id : ℤ) (h : ConHandler)
    → Matches n h
    → Matches (n + 1) (add_client junk n id h)
unfolding add_client new_client
add_client-Matches junk n id h m j pointer e =
    let e0 = sym (find-assign (to_uint8 id) j (some n) h.id_client_pairs) ∙ e in
    elim (Bool-cases (j == to_uint8 id)) [
      | inl is ↦
          let e1 = sym (if_true (j == to_uint8 id) _ _ is) ∙ e0 in
          let to_new : pointer ≡ some n = cc in
          let num : to_uint8 id ≡ j = ground (arith, is) in
          (n, to_new, omega arith, ground (arith, num, ==_refl n))
      | inr other ↦
          let e1 = sym (if_false (j == to_uint8 id) _ _ other) ∙ e0 in
          let (i, to_old, lt, num) = m j pointer e1 in
          (i, to_old, omega (arith, lt), ground (arith, num, lt))
    ]

-- One line, with what `stoi` and the key file give.
next_client :
    (stoi : List ℕ → Option ℤ) (readable : List ℕ → Bool) (junk : Bool) (n : ℕ)
    (rest : List (List ℕ)) (h h' : ConHandler)
    → Matches n h
    → ((h1 h2 : ConHandler)
        → Matches (n + 1) h1
        → add_clients stoi readable junk (n + 1) rest h1 ≡ some h2
        → (k : ℕ) × Matches k h2 × (h2.addr_client_pairs ≡ h1.addr_client_pairs))
    → (id : Option ℤ) (has_key : Bool)
    → ◌≡◌ {A = Option ConHandler}
        (elim id [
          | none ↦ none
          | some id ↦
              if has_key
              then add_clients stoi readable junk (n + 1) rest (add_client junk n id h)
              else none
        ])
        (some h')
    → (k : ℕ) × Matches k h' × (h'.addr_client_pairs ≡ h.addr_client_pairs)
unfolding add_client
next_client stoi readable junk n rest h h' m later none has_key e = cc
next_client stoi readable junk n rest h h' m later (some id) false e = cc
next_client stoi readable junk n rest h h' m later (some id) true e =
    later (add_client junk n id h) h' (add_client-Matches junk n id h m) e

add_clients-Matches :
    (stoi : List ℕ → Option ℤ) (readable : List ℕ → Bool) (junk : Bool) (n : ℕ)
    (words : List (List ℕ)) (h h' : ConHandler)
    → Matches n h
    → add_clients stoi readable junk n words h ≡ some h'
    → (k : ℕ) × Matches k h' × (h'.addr_client_pairs ≡ h.addr_client_pairs)
unfolding add_clients
add_clients-Matches stoi readable junk n [] h h' m e =
    let same : h ≡ h' = cc in
    (n, subst (Matches n) same m, ap (λ x. x.addr_client_pairs) (sym same))
add_clients-Matches stoi readable junk n (device_id ∷ []) h h' m e = cc
add_clients-Matches stoi readable junk n (device_id ∷ pubkey_file ∷ rest) h h' m e =
    next_client stoi readable junk n rest h h' m
      (add_clients-Matches stoi readable junk (n + 1) rest) (stoi device_id) (readable pubkey_file)
      e

fresh_handler-Matches :
    (server : Server) (next : ℕ) (memory : ℕ → Client)
    → Matches 0 (fresh_handler server next memory)
unfolding find
fresh_handler-Matches server next memory id pointer e = cc

-- Whether `id` is what is left of the number in a byte.
abbrev pub numbered : Option ℤ → ℕ → Bool
numbered none id = false
numbered (some (pos n)) id = id == n % 256
numbered (some (negsuc n)) id = ltb id 256 && ((id + n + 1) % 256 == 0)

-- Where the map has to lead from `id`: to the object of the last line with this number, where the
-- lines have their objects in order from `i`, or else to where it led before.
abbrev pub object_of :
    (stoi : List ℕ → Option ℤ) (id i : ℕ) (words : List (List ℕ))
    → (before : Option (Option ℕ)) → Option (Option ℕ)
object_of stoi id i (device_id ∷ pubkey_file ∷ rest) before =
    object_of stoi id (i + 1) rest (if numbered (stoi device_id) id then some (some i) else before)
object_of stoi id i _ before = before

-- The words of the file behind the name of the private key.
abbrev pub lines_of : Option (List (List ℕ)) → List (List ℕ)
lines_of (some (privkey_file ∷ words)) = words
lines_of _ = []

numbered-to_uint8 : (id : ℤ) (j : ℕ) → (j == to_uint8 id) ≡ numbered (some id) j
unfolding to_uint8
numbered-to_uint8 (pos n) j = refl
numbered-to_uint8 (negsuc n) j = ground arith

find-add_client :
    (junk : Bool) (n : ℕ) (id : ℤ) (h : ConHandler) (j : ℕ)
    → find j (add_client junk n id h).id_client_pairs
      ≡ (if numbered (some id) j then some (some n) else find j h.id_client_pairs)
unfolding add_client
find-add_client junk n id h j =
    find-assign (to_uint8 id) j (some n) h.id_client_pairs
    ∙ ap (λ b. if b then some (some n) else find j h.id_client_pairs) (numbered-to_uint8 id j)

found_next :
    (stoi : List ℕ → Option ℤ) (readable : List ℕ → Bool) (junk : Bool) (n : ℕ)
    (rest : List (List ℕ)) (h h' : ConHandler) (j : ℕ)
    → ((h1 h2 : ConHandler)
        → add_clients stoi readable junk (n + 1) rest h1 ≡ some h2
        → find j h2.id_client_pairs ≡ object_of stoi j (n + 1) rest (find j h1.id_client_pairs))
    → (id : Option ℤ) (has_key : Bool)
    → ◌≡◌ {A = Option ConHandler}
        (elim id [
          | none ↦ none
          | some id ↦
              if has_key
              then add_clients stoi readable junk (n + 1) rest (add_client junk n id h)
              else none
        ])
        (some h')
    → find j h'.id_client_pairs
      ≡ object_of stoi j
          (n + 1)
          rest
          (if numbered id j then some (some n) else find j h.id_client_pairs)
found_next stoi readable junk n rest h h' j later none has_key e = cc
found_next stoi readable junk n rest h h' j later (some id) false e = cc
found_next stoi readable junk n rest h h' j later (some id) true e =
    later (add_client junk n id h) h' e
    ∙ ap (object_of stoi j (n + 1) rest) (find-add_client junk n id h j)

find-add_clients :
    (stoi : List ℕ → Option ℤ) (readable : List ℕ → Bool) (junk : Bool) (n : ℕ)
    (words : List (List ℕ)) (h h' : ConHandler) (j : ℕ)
    → add_clients stoi readable junk n words h ≡ some h'
    → find j h'.id_client_pairs ≡ object_of stoi j n words (find j h.id_client_pairs)
unfolding add_clients
find-add_clients stoi readable junk n [] h h' j e =
    let same : h ≡ h' = cc in ap (λ x. find j x.id_client_pairs) (sym same)
find-add_clients stoi readable junk n (device_id ∷ []) h h' j e = cc
find-add_clients stoi readable junk n (device_id ∷ pubkey_file ∷ rest) h h' j e =
    found_next stoi readable junk n rest h h' j
      (λ h1 h2 e'. find-add_clients stoi readable junk (n + 1) rest h1 h2 j e') (stoi device_id)
      (readable pubkey_file) e

-- What holds of a handler made of these lines: no address is known, each number leads to the object
-- of its last line, if it has one, and this object is one of those made and has the number.
abbrev pub MadeOf : (List ℕ → Option ℤ) → List (List ℕ) → ConHandler → Type 0
MadeOf stoi words h =
    (h.addr_client_pairs ≡ [])
    × ((id : ℕ) → find id h.id_client_pairs ≡ object_of stoi id 0 words none)
    × ((n : ℕ) × Matches n h)

from_server :
    (stoi : List ℕ → Option ℤ) (readable : List ℕ → Bool) (junk : Bool) (next : ℕ)
    (memory : ℕ → Client) (words : List (List ℕ)) (h : ConHandler) (made : Option Server)
    → ◌≡◌ {A = Option ConHandler}
        (elim made [
          | none ↦ none
          | some server ↦ add_clients stoi readable junk 0 words (fresh_handler server next memory)
        ])
        (some h)
    → MadeOf stoi words h
unfolding find
from_server stoi readable junk next memory words h none e = cc
from_server stoi readable junk next memory words h (some server) e =
    let fresh = fresh_handler server next memory in
    let (n, m, none_known) =
      add_clients-Matches stoi readable junk 0 words fresh h
        (fresh_handler-Matches server next memory) e in
    (none_known, (λ id. find-add_clients stoi readable junk 0 words fresh h id e), (n, m))

-- Where the constructor comes to its end, no address is known, and `idClientPairs` leads from each
-- byte to the object made for the last line of the file whose number it is, modulo 256, and from
-- all other bytes nowhere: each configured number is present, it never leads to the null pointer,
-- and the object that it leads to has this number as its own.
pub new_con_handler-Matches :
    (stoi : List ℕ → Option ℤ) (readable : List ℕ → Bool) (make_server : List ℕ → Option Server)
    (junk : Bool) (next : ℕ) (memory : ℕ → Client) (file : Option (List (List ℕ))) (h : ConHandler)
    → new_con_handler stoi readable make_server junk next memory file ≡ some h
    → MadeOf stoi (lines_of file) h
unfolding new_con_handler
new_con_handler-Matches stoi readable make_server junk next memory none h e = cc
new_con_handler-Matches stoi readable make_server junk next memory (some []) h e = cc
new_con_handler-Matches stoi readable make_server junk next memory (some (privkey_file ∷ words)) h
      e =
    from_server stoi readable junk next memory words h (make_server privkey_file) e
