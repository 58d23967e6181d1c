-- ===== src/Main/Terminating.antt =====
-- `terminationHandler` of main.cpp: when it ends, and how.
use tin_serwer.Base.{
  ◌≡◌, ◌≢◌, refl, ◌∙◌, subst, Bool, true, false, ◌||◌, Option, some, List, [], ◌∷◌, ok, >>=-eq-ok,
  Bool-cases, inl, inr, ◌⊎◌, ◌↔◌, sym, if_false,
}
use tin_serwer.Bytes.{Garbage}
use tin_serwer.ConHandler.{ConHandler, request_exit, clients_registered, clock_walk}
use tin_serwer.ConHandler.Walking.{AllUsedOnce, clock_walk-Walked, clock_walk-twice}
use tin_serwer.Main.{Wait, termination_loop, termination_handler, Farewell, farewell, no_clients}

-- Whether a signal comes in one of the waits.
abbrev pub signal_comes : List Wait → Bool
signal_comes [] = false
signal_comes (w ∷ later) = w.signalled || signal_comes later

-- Before each walk up to the signal, the other threads have marked each client that has an address
-- as used, and none has two.
abbrev pub KeptUsed : Garbage → List Wait → ConHandler → Type 0
KeptUsed g [] h = Unit {0}
KeptUsed g (w ∷ later) h =
    (w.signalled ≡ true)
    ⊎ (AllUsedOnce (w.others h).clients (w.others h).addr_client_pairs
        × ((h' : ConHandler) → clock_walk g (w.others h) ≡ ok h' → KeptUsed g later h'))

termination_loop_signalled :
    (g : Garbage) (w : Wait) (later : List Wait) (h : ConHandler)
    → w.signalled ≡ true
    → termination_loop g (w ∷ later) h ≡ ok (true, request_exit (w.others h))
unfolding termination_loop
termination_loop_signalled g w later h e = rw e refl

termination_loop_walks :
    (g : Garbage) (w : Wait) (later : List Wait) (h h1 : ConHandler)
    → w.signalled ≡ false
    → clock_walk g (w.others h) ≡ ok h1
    → termination_loop g (w ∷ later) h ≡ termination_loop g later h1
unfolding termination_loop
termination_loop_walks g w later h h1 e walked = rw (e, walked) refl

comes_later : (now later : Bool) → now ≡ false → (now || later) ≡ true → later ≡ true
comes_later true later e comes = cc
comes_later false later e comes = comes

termination_loop_ends :
    (g : Garbage) (waits : List Wait) (h : ConHandler)
    → KeptUsed g waits h
    → signal_comes waits ≡ true
    → (h' : ConHandler) × (termination_loop g waits h ≡ ok (true, h')) × (h'.exit_flag ≡ true)
unfolding termination_loop
termination_loop_ends g [] h used comes = cc
termination_loop_ends g (w ∷ later) h (inl now) comes =
    (request_exit (w.others h), termination_loop_signalled g w later h now, refl)
termination_loop_ends g (w ∷ later) h (inr (used, more)) comes = elim (Bool-cases w.signalled) [
  | inl now ↦ (request_exit (w.others h), termination_loop_signalled g w later h now, refl)
  | inr not_yet ↦
      let (h1, walked, marked) = clock_walk-Walked g (w.others h) used in
      let (h', ends, flag) =
        termination_loop_ends g later h1 (more h1 walked)
          (comes_later w.signalled (signal_comes later) not_yet comes) in
      (h', termination_loop_walks g w later h h1 not_yet walked ∙ ends, flag)
]

farewell-no_clients :
    (some_left notified : Bool) → (farewell some_left notified ≡ no_clients) ↔ (some_left ≡ false)
unfolding farewell
farewell-no_clients true true = (λ e. cc, λ e. cc)
farewell-no_clients true false = (λ e. cc, λ e. cc)
farewell-no_clients false notified = (λ e. refl, λ e. refl)

-- If a signal comes, and up to then each client with an address has been used before each walk and
-- none has two addresses, `terminationHandler` comes to its end: the flag `end` and the exit flag
-- are set, and it logs what there was to wait for.
pub termination_handler_ends :
    (g : Garbage) (waits : List Wait) (notified : Bool) (h : ConHandler)
    → KeptUsed g waits h
    → signal_comes waits ≡ true
    → (h' : ConHandler) × (said : Farewell) × (termination_handler g waits notified h
        ≡ ok (some (true, said, h')))
      × (h'.exit_flag ≡ true)
      × ((said ≡ no_clients) ↔ (clients_registered h' ≡ false))
unfolding termination_handler
termination_handler_ends g waits notified h used comes =
    let (h', ends, flag) = termination_loop_ends g waits h used comes in
    (
      h',
      farewell (clients_registered h') notified,
      rw ends refl,
      flag,
      farewell-no_clients (clients_registered h') notified,
    )

first_walk :
    (g : Garbage) (w : Wait) (later : List Wait) (h : ConHandler) (r : Bool × ConHandler)
    → w.signalled ≡ false
    → termination_loop g (w ∷ later) h ≡ ok r
    → (h1 : ConHandler) × (clock_walk g (w.others h) ≡ ok h1) × (termination_loop g later h1 ≡ ok r)
unfolding termination_loop
first_walk g w later h r e ended =
    >>=-eq-ok (clock_walk g (w.others h)) (termination_loop g later)
      (sym (if_false w.signalled _ _ e) ∙ ended)

-- Where clients are registered, two waits that run into their timeouts, with nothing done by the
-- other threads in the second, are the end of the thread: it neither waits on nor sets the flag
-- `end`.
pub termination_handler_silent :
    (g : Garbage) (first second : Wait) (later : List Wait) (notified : Bool) (h : ConHandler)
    (r : Option (Bool × Farewell × ConHandler))
    → first.signalled ≡ false
    → second.signalled ≡ false
    → ((h' : ConHandler) → second.others h' ≡ h')
    → clients_registered (first.others h) ≡ true
    → termination_handler g (first ∷ second ∷ later) notified h ≢ ok r
unfolding termination_handler
termination_handler_silent g first second later notified h r no_signal no_signal' silent
      some_clients e =
    let (looped, ran, e1) = >>=-eq-ok (termination_loop g (first ∷ second ∷ later) h) _ e in
    let (h1, walked, ran1) = first_walk g first (second ∷ later) h looped no_signal ran in
    let (h2, walked2, ran2) = first_walk g second later h1 looped no_signal' ran1 in
    clock_walk-twice g (first.others h) h1 h2 some_clients walked
      (subst (λ x. clock_walk g x ≡ ok h2) (silent h1) walked2)
