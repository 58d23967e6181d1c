-- ===== src/System/Walks.antt =====
-- Each step of the server keeps what every address leads to.
use tin_serwer.Base.{
  ℕ, ◌≡◌, sym, ap, subst, false, List, [], ◌∷◌, Outcome, ok, ◌>>=◌, Fault, fault, stale_iterator,
  Bool-cases, inl, inr,
}
use tin_serwer.Bytes.{Garbage}
use tin_serwer.Server.Rounds.{mq_receive_loop-Kept}
use tin_serwer.Client.Sessions.{get_used, set_used}
use tin_serwer.Client.Kinds.{kind}
use tin_serwer.Client.Owning.{Owns, IsSound-Same}
use tin_serwer.ConHandler.{ConHandler, set_client, disconnect, walk, clock_walk}
use tin_serwer.ConHandler.Keeping.{IsWhole, updated-IsWhole, set_used-Keeps}
use tin_serwer.ConHandler.Entering.{handle-IsWhole}
use tin_serwer.System.{Step, connects, walks, exits, answers, Reaches, begins, goes_on}

never_ok :
    (m : Outcome ConHandler) (why : Fault) (h' : ConHandler)
    → ◌≡◌ {A = Outcome ConHandler} (m >>= λ _. fault why) (ok h')
    → ⊥
never_ok (fault e) why h' ended = cc
never_ok (ok x) why h' ended = cc

walk-IsWhole :
    (g : Garbage) (pairs : List (ℕ × ℕ)) (h h' : ConHandler)
    → IsWhole h
    → walk g pairs h ≡ ok h'
    → IsWhole h'
unfolding walk
walk-IsWhole g [] h h' whole e = let same : h ≡ h' = cc in subst IsWhole same whole
walk-IsWhole g ((addr, i) ∷ rest) h h' whole e = elim (Bool-cases (get_used (h.clients i))) [
  | inl used ↦
      walk-IsWhole g rest (set_client i (set_used false (h.clients i)) h) h'
        ((set_used-Keeps h i false).0 whole) (cc)
  | inr idle ↦ absurd (never_ok (disconnect g addr i h) stale_iterator h' (cc))
]

Step-IsWhole : (h h' : ConHandler) → Step h h' → IsWhole h → IsWhole h'
unfolding clock_walk
Step-IsWhole h h' (connects crypto keys addr link link' room e) whole =
    handle-IsWhole crypto keys addr h h' link link' room whole e
Step-IsWhole h h' (walks g e) whole = walk-IsWhole g h.addr_client_pairs h h' whole e
Step-IsWhole h h' exits whole = record {
  sound = whole.sound;
  known = whole.known;
  admitted = whole.admitted;
}
Step-IsWhole h h' (answers time_size g rounds working {s'} e) whole =
    let kept = mq_receive_loop-Kept time_size g rounds h.server s' working e in
    updated-IsWhole h s' h.next h.clients
      (IsSound-Same h.server s' h.next kept.same_table
        (λ a. ap (λ heap. kind (heap a)) kept.same_heap) whole.sound)
      (λ j owns. subst (λ heap. Owns heap (h.clients j)) (sym kept.same_heap) owns) whole

pub Reaches-IsWhole_from : (start h : ConHandler) → Reaches start h → IsWhole start → IsWhole h
Reaches-IsWhole_from start h begins whole = whole
Reaches-IsWhole_from start h (goes_on {h = h1} r step) whole =
    Step-IsWhole h1 h step (Reaches-IsWhole_from start h1 r whole)
