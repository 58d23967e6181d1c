-- ===== src/Socket/Writes.antt =====
-- What the write loop of packet.cpp sends, whatever the sizes of the kernel's steps.
use tin_serwer.Base.{
  ℕ, zero, suc, ◌+◌, ◌-◌, ◌≡◌, ◌≤◌, refl, sym, ap, ◌∙◌, true, false, List, [], ◌∷◌, ◌++◌, ◌==◌, min,
  length, take, drop, arith, inl, inr, ◌⊎◌, Bool-cases, append_assoc, append-nil, length-drop,
  take-append-drop,
}
use native.Mathlib.Nat.{add-zero, zero-add}
use tin_serwer.Socket.{
  Ret, count, below_one, Answer, fails, moves, Socket, write_loop, write_till_done,
}
use tin_serwer.Socket.Ready.{take_add, Ready, Ready-mono}

write_join :
    (outgoing msg : List ℕ) (m : ℕ) → (outgoing ++ take m msg) ++ drop m msg ≡ outgoing ++ msg
write_join outgoing msg m = append_assoc outgoing _ _ ∙ ap (◌++◌ outgoing) (take-append-drop m msg)

-- Enough answers send the whole message.
write_loop-Ready :
    (answers : List Answer) (outgoing msg : List ℕ) (done m k : ℕ)
    → length msg + m ≤ k
    → Ready k answers
    → (later : List Answer) × (write_loop answers outgoing done msg
        ≡ (count (done + length msg), outgoing ++ msg, later))
      × Ready m later
unfolding write_loop
write_loop-Ready [] outgoing [] done m k h r =
    ([], rw (add-zero, append-nil), Ready-mono m k [] (omega arith) r)
write_loop-Ready (a ∷ later) outgoing [] done m k h r =
    (a ∷ later, rw (add-zero, append-nil), Ready-mono m k (a ∷ later) (omega arith) r)
write_loop-Ready answers outgoing (b ∷ bs) done m zero h r = absurd (omega arith)
write_loop-Ready [] outgoing (b ∷ bs) done m (suc k) h r = absurd r
write_loop-Ready (fails ∷ later) outgoing (b ∷ bs) done m (suc k) h r = absurd r
write_loop-Ready (moves j ∷ later) outgoing (b ∷ bs) done m (suc k) h r =
    let m' = min j (length (b ∷ bs)) in
    let some_moved : (m' == 0) ≡ false = ground arith in
    let rest = drop m' (b ∷ bs) in
    let size : length rest ≡ length (b ∷ bs) - m' = length-drop m' (b ∷ bs) in
    let (left, e, ready) =
      write_loop-Ready later (outgoing ++ take m' (b ∷ bs)) rest (done + m') m k (omega arith)
        r.1 in
    let sent : done + m' + length rest ≡ done + length (b ∷ bs) = omega arith in
    (left, rw some_moved (e ∙ rw (sent, write_join outgoing (b ∷ bs) m')), ready)

-- `writeTillDone` sends the whole message behind what was sent before, if the kernel is ready to
-- move some in each call; then it is still ready for `m` more calls.
pub write_till_done-Ready :
    (msg : List ℕ) (m : ℕ) (s : Socket)
    → Ready (length msg + m) s.writes
    → (later : List Answer) × (write_till_done msg s
        ≡ (count (length msg), record s { outgoing = s.outgoing ++ msg; writes = later }))
      × Ready m later
unfolding write_till_done
write_till_done-Ready msg m s r =
    let (later, e, ready) =
      write_loop-Ready s.writes s.outgoing msg 0 m (length msg + m) (omega arith) r in
    (later, rw (e, write_till_done, zero-add), ready)

-- How a write ended: a first part of the message has gone out, and the whole of it unless the
-- return value is -1 or 0.
abbrev Writes : List ℕ → ℕ → List ℕ → Ret × List ℕ × List Answer → Type 0
Writes outgoing done msg (ret, sent, later) =
    (n : ℕ) × (sent ≡ outgoing ++ take n msg)
    × (below_one ret ≡ false → (ret ≡ count (done + length msg)) × (take n msg ≡ msg))

Writes-step :
    (outgoing msg : List ℕ) (done m : ℕ) (r : Ret × List ℕ × List Answer)
    → m ≤ length msg
    → Writes (outgoing ++ take m msg) (done + m) (drop m msg) r
    → Writes outgoing done msg r
Writes-step outgoing msg done m r h (n, sent, whole) = (
  m + n,
  sent ∙ (append_assoc outgoing _ _ ∙ ap (◌++◌ outgoing) (take_add m n msg)),
  λ good.
      let (e, all) = whole good in
      (
        e ∙ ap count (omega (arith, length-drop m msg)),
        sym (take_add m n msg) ∙ (ap (◌++◌ (take m msg)) all ∙ take-append-drop m msg),
      ),
)

write_loop-Writes :
    (answers : List Answer) (outgoing msg : List ℕ) (done : ℕ)
    → Writes outgoing done msg (write_loop answers outgoing done msg)
unfolding write_loop
write_loop-Writes answers outgoing [] done = (0, rw append-nil, λ h. (rw add-zero, refl))
write_loop-Writes [] outgoing (b ∷ bs) done = (0, rw append-nil, λ h. cc)
write_loop-Writes (fails ∷ later) outgoing (b ∷ bs) done = (0, rw append-nil, λ h. cc)
write_loop-Writes (moves j ∷ later) outgoing (b ∷ bs) done =
    let m' = min j (length (b ∷ bs)) in
    elim (Bool-cases (m' == 0)) [
      | inl stop ↦ rw stop (0, rw append-nil, λ h. cc)
      | inr more ↦ rw more (
          Writes-step outgoing (b ∷ bs) done m'
            (write_loop later (outgoing ++ take m' (b ∷ bs)) (done + m') (drop m' (b ∷ bs)))
            (omega arith)
            (write_loop-Writes later (outgoing ++ take m' (b ∷ bs)) (drop m' (b ∷ bs)) (done + m')))
    ]

-- However `writeTillDone` ends, what has gone out is a first part of the message behind what was
-- sent before, and the whole message if it reports neither -1 nor 0.
pub write_till_done-Writes :
    (msg : List ℕ) (s : Socket)
    → let (ret, s') = write_till_done msg s in
      (n : ℕ) × (s'.outgoing ≡ s.outgoing ++ take n msg)
      × (below_one ret ≡ false → (ret ≡ count (length msg)) × (take n msg ≡ msg))
unfolding write_till_done
write_till_done-Writes msg s =
    let (n, sent, whole) = write_loop-Writes s.writes s.outgoing msg 0 in
    (n, sent, λ h. let (e, all) = whole h in (e ∙ ap count (zero-add _), all))

-- However `writeTillDone` ends, a first part of the message has gone out behind what was sent
-- before; and it reports -1 or 0, or the length of the message, and then the whole has gone out.
pub write_till_done_cases :
    (msg : List ℕ) (s : Socket)
    → let (ret, s') = write_till_done msg s in
      (n : ℕ) × (s'.outgoing ≡ s.outgoing ++ take n msg)
      × ((below_one ret ≡ true) ⊎ ((ret ≡ count (length msg)) × (take n msg ≡ msg)))
write_till_done_cases msg s =
    let (n, sent, whole) = write_till_done-Writes msg s in
    (
      n,
      sent,
      elim (Bool-cases (below_one (write_till_done msg s).0)) [
        | inl bad ↦ inl bad
        | inr good ↦ inr (whole good)
      ],
    )
