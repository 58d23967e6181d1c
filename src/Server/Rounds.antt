-- ===== src/Server/Rounds.antt =====
-- What the rounds of `Server::mqReceiveLoop` (Server.cpp) leave alone.
use tin_serwer.Base.{
  ℕ, ◌≡◌, refl, sym, ap, ◌∙◌, Bool, true, false, Option, none, some, List, [], ◌∷◌, ◌++◌, Outcome,
  ok, fault, ◌>>=◌, >>=-eq-ok, if◌then◌else◌, Bool-cases, inl, inr, append_assoc, append-nil, subst,
  length, leb,
}
use tin_serwer.Bytes.{Garbage}
use tin_serwer.Service.{Service, input, output}
use tin_serwer.QueuePacket.{QueuePacket, PakType}
use tin_serwer.QueuePacket.Queue.{add_to_queue, add_message, packet_from_queue}
use tin_serwer.Server.{Server, send_message}
use tin_serwer.Server.Receiving.{
  cast_get, cast_set, id_through, answer, handle_get, handle_set, mq_receive, Round,
  mq_receive_loop,
}

-- The table and the services are as before, and the queue has messages more, or as many.
pub record Kept (s s' : Server) : Type 0 where
  pub same_table : s'.service_table ≡ s.service_table
  pub same_heap : s'.heap ≡ s.heap
  pub sent : List (List ℕ)
  pub more : s'.send_msg_queue.messages ≡ s.send_msg_queue.messages ++ sent

Kept-refl : (s : Server) → Kept s s
Kept-refl s = record { same_table = refl; same_heap = refl; sent = []; more = sym (append-nil _) }

Kept-trans : (s t u : Server) → Kept s t → Kept t u → Kept s u
Kept-trans s t u k l = record {
  same_table = l.same_table ∙ k.same_table;
  same_heap = l.same_heap ∙ k.same_heap;
  sent = k.sent ++ l.sent;
  more =
      l.more
      ∙ (ap (λ m. m ++ l.sent) k.more ∙ append_assoc s.send_msg_queue.messages k.sent l.sent);
}

send_message-Kept : (p : QueuePacket) (s : Server) → Kept s (send_message p s)
unfolding send_message add_to_queue add_message
send_message-Kept p s = elim (Bool-cases (leb (length p.buf) s.send_msg_queue.msg_size)) [
  | inl e ↦ rw e (record { same_table = refl; same_heap = refl; sent = p.buf ∷ []; more = refl })
  | inr e ↦ rw e (Kept-refl s)
]

sent-Kept :
    (m : Outcome QueuePacket) (s s' : Server)
    → (m >>= λ p. ok (send_message p s)) ≡ ok s'
    → Kept s s'
sent-Kept (ok p) s s' h =
    let e : send_message p s ≡ s' = cc in subst (λ t. Kept s t) e (send_message-Kept p s)
sent-Kept (fault e) s s' h = cc

answer-Kept :
    (time_size : ℕ) (g : Garbage) (now : ℕ) (get : Option QueuePacket) (s s' : Server)
    (found : Option Service)
    → answer time_size g now get s found ≡ ok s'
    → Kept s s'
unfolding answer
answer-Kept time_size g now get s s' (some (input i)) h = sent-Kept _ s s' h
answer-Kept time_size g now get s s' (some (output o)) h = sent-Kept _ s s' h
answer-Kept time_size g now get s s' none h =
    let (num, _, h1) = >>=-eq-ok (id_through get) _ h in sent-Kept _ s s' h1

handle_get-Kept :
    (time_size : ℕ) (g : Garbage) (now : ℕ) (get : Option QueuePacket) (s s' : Server)
    → handle_get time_size g now get s ≡ ok s'
    → Kept s s'
unfolding handle_get
handle_get-Kept time_size g now get s s' h =
    let (num, _, h1) = >>=-eq-ok (id_through get) _ h in
    let (found, _, h2) = >>=-eq-ok _ (answer time_size g now get s) h1 in
    answer-Kept time_size g now get s s' found h2

idle-Kept :
    (w w' : Bool) (s s' : Server)
    → ◌≡◌ {A = Outcome (Bool × Server)} (ok (w, s)) (ok (w', s'))
    → Kept s s'
idle-Kept w w' s s' h = let e : s ≡ s' = cc in subst (λ t. Kept s t) e (Kept-refl s)

mq_receive-Kept :
    (time_size : ℕ) (g : Garbage) (now errno : ℕ) (t : PakType) (buf : List ℕ) (s s' : Server)
    (w : Bool)
    → mq_receive time_size g now errno (some (record { type = t; buf = buf })) s ≡ ok (w, s')
    → Kept s s'
unfolding mq_receive cast_get cast_set handle_set id_through
mq_receive-Kept time_size g now errno PakType.get buf s s' w h =
    let (u, e, h1) = >>=-eq-ok _ (λ s. ok (true, s)) h in
    Kept-trans s u s' (handle_get-Kept time_size g now _ s u e) (idle-Kept true w u s' h1)
mq_receive-Kept time_size g now errno PakType.set buf s s' w h = cc
mq_receive-Kept time_size g now errno PakType.nak buf s s' w h = idle-Kept true w s s' h
mq_receive-Kept time_size g now errno PakType.eot buf s s' w h = idle-Kept true w s s' h
mq_receive-Kept time_size g now errno PakType.desc buf s s' w h = idle-Kept true w s s' h
mq_receive-Kept time_size g now errno PakType.val buf s s' w h = idle-Kept true w s s' h
mq_receive-Kept time_size g now errno PakType.exit buf s s' w h = idle-Kept true w s s' h

round-Kept :
    (time_size : ℕ) (g : Garbage) (now errno : ℕ) (p : Option QueuePacket) (s s' : Server)
    (w : Bool)
    → mq_receive time_size g now errno p s ≡ ok (w, s')
    → Kept s s'
unfolding mq_receive cast_get cast_set
round-Kept time_size g now errno none s s' w h = idle-Kept _ w s s' h
round-Kept time_size g now errno (some p) s s' w h =
    mq_receive-Kept time_size g now errno p.type p.buf s s' w h

-- Whatever messages come in, as long as the loop has not run into a fault it has changed neither
-- the table nor any service, and taken nothing out of the queue: no request to set a value is ever
-- carried out.
pub mq_receive_loop-Kept :
    (time_size : ℕ) (g : Garbage) (rounds : List Round) (s s' : Server) (w : Bool)
    → mq_receive_loop time_size g rounds s ≡ ok (w, s')
    → Kept s s'
unfolding mq_receive_loop
mq_receive_loop-Kept time_size g [] s s' w h = idle-Kept true w s s' h
mq_receive_loop-Kept time_size g (r ∷ later) s s' w h =
    let (p, _, h1) = >>=-eq-ok (packet_from_queue g g r.ret r.bytes) _ h in
    let (result, e, h2) = >>=-eq-ok (mq_receive time_size g r.now r.errno p s) _ h1 in
    let first = round-Kept time_size g r.now r.errno p s result.1 result.0 e in
    goes_on result.0 result.1 first (mq_receive_loop-Kept time_size g later result.1 s' w) h2
  where
    goes_on :
        (working : Bool) (u : Server)
        → Kept s u
        → (mq_receive_loop time_size g later u ≡ ok (w, s') → Kept u s')
        → (if working then mq_receive_loop time_size g later u else ok (working, u)) ≡ ok (w, s')
        → Kept s s'
    goes_on true u k l h = Kept-trans s u s' k (l h)
    goes_on false u k l h = Kept-trans s u s' k (idle-Kept false w u s' h)
