-- ===== src/Socket/Reads.antt =====
-- What the read loop of packet.cpp gets, whatever the sizes of the kernel's steps.
use tin_serwer.Base.{
  ℕ, zero, suc, ◌+◌, ◌-◌, ◌≡◌, ◌≤◌, ◌<◌, refl, ap, ◌∙◌, true, false, List, [], ◌∷◌, ◌++◌, ◌==◌,
  length, take, drop, arith, inl, inr, ◌⊎◌, Bool-cases, append_assoc, append-nil, length-append,
  length-take, length-drop, take-append-drop,
}
use native.Mathlib.Nat.{add-zero, zero-add}
use tin_serwer.Socket.{
  Ret, count, below_one, Answer, fails, moves, Socket, moved, read_loop, read_till_done,
}
use tin_serwer.Socket.Ready.{take-take, drop-drop, Ready, Ready-mono}

read_join :
    (later : List Answer) (incoming got : List ℕ) (m n : ℕ)
    → m ≤ n
    → m ≤ length incoming
    → ◌≡◌ {A = Ret × List ℕ × List ℕ × List Answer}
        (
          count (length (got ++ take m incoming) + (n - m)),
          (got ++ take m incoming) ++ take (n - m) (drop m incoming),
          drop (n - m) (drop m incoming),
          later,
        )
        (count (length got + n), got ++ take n incoming, drop n incoming, later)
read_join later incoming got m n h there =
    let sizes : length (got ++ take m incoming) + (n - m) ≡ length got + n =
      omega (arith, length-append got (take m incoming), length-take m incoming) in
    let bytes : (got ++ take m incoming) ++ take (n - m) (drop m incoming)
        ≡ got ++ take n incoming =
      append_assoc got _ _ ∙ ap (◌++◌ got) (take-take m n incoming h) in
    rw (sizes, bytes, drop-drop m n incoming h)

-- Enough answers bring all the bytes that were asked for.
read_loop-Ready :
    (answers : List Answer) (incoming got : List ℕ) (n m k : ℕ)
    → n + m ≤ k
    → Ready k answers
    → n ≤ length incoming
    → (later : List Answer) × (read_loop answers incoming got n
        ≡ (count (length got + n), got ++ take n incoming, drop n incoming, later))
      × Ready m later
unfolding read_loop
read_loop-Ready [] incoming got zero m k h r there =
    ([], rw (add-zero, append-nil), Ready-mono m k [] (omega arith) r)
read_loop-Ready [] incoming got (suc n) m zero h r there = absurd (omega arith)
read_loop-Ready [] incoming got (suc n) m (suc k) h r there = absurd r
read_loop-Ready (a ∷ later) incoming got zero m k h r there =
    (a ∷ later, rw (add-zero, append-nil), Ready-mono m k (a ∷ later) (omega arith) r)
read_loop-Ready (a ∷ later) incoming got (suc n) m zero h r there = absurd (omega arith)
read_loop-Ready (fails ∷ later) incoming got (suc n) m (suc k) h r there = absurd r
read_loop-Ready (moves j ∷ later) incoming got (suc n) m (suc k) h r there =
    let m' = moved j (suc n) (length incoming) in
    let some_moved : (m' == 0) ≡ false = ground arith in
    let (left, e, ready) =
      read_loop-Ready later (drop m' incoming) (got ++ take m' incoming) (suc n - m') m k
        (omega arith) r.1 (omega (arith, length-drop m' incoming)) in
    (
      left,
      rw some_moved (e ∙ read_join left incoming got m' (suc n) (omega arith) (omega arith)),
      ready,
    )

-- `readTillDone` gets all the bytes that it asks for, in order, and leaves the rest, if they come
-- and the kernel is ready to move some in each call; then it is still ready for `m` more calls.
pub read_till_done-Ready :
    (n m : ℕ) (s : Socket)
    → Ready (n + m) s.reads
    → n ≤ length s.incoming
    → (later : List Answer) × (read_till_done n s
        ≡ (count n, take n s.incoming, record s { incoming = drop n s.incoming; reads = later }))
      × Ready m later
unfolding read_till_done
read_till_done-Ready n m s r there =
    let (later, e, ready) =
      read_loop-Ready s.reads s.incoming [] n m (n + m) (omega arith) r there in
    (later, rw (e, read_till_done, zero-add), ready)

-- How a read ended: the bytes that it got stand before those that are left, and either it reports
-- their number and got as many as were asked for, or it reports -1 or 0 and got fewer.
abbrev Reads : List ℕ → ℕ → List ℕ → Ret × List ℕ × List ℕ × List Answer → Type 0
Reads incoming wanted got (ret, bytes, left, later) =
    (bytes ++ left ≡ got ++ incoming)
    × (((ret ≡ count (length bytes)) × (length bytes ≡ wanted))
        ⊎ ((below_one ret ≡ true) × (length bytes < wanted)))

Reads-step :
    (incoming got : List ℕ) (m n : ℕ) (r : Ret × List ℕ × List ℕ × List Answer)
    → m ≤ n
    → m ≤ length incoming
    → Reads (drop m incoming) (length (got ++ take m incoming) + (n - m)) (got ++ take m incoming) r
    → Reads incoming (length got + n) got r
Reads-step incoming got m n r h there (kept, ends) =
    let wanted : length (got ++ take m incoming) + (n - m) ≡ length got + n =
      omega (arith, length-append got (take m incoming), length-take m incoming) in
    (
      kept ∙ (append_assoc got _ _ ∙ ap (◌++◌ got) (take-append-drop m incoming)),
      elim ends [
        | inl (e, whole) ↦ inl (e, whole ∙ wanted)
        | inr (bad, fewer) ↦ inr (bad, omega (arith, fewer, wanted))
      ],
    )

read_loop-Reads :
    (answers : List Answer) (incoming got : List ℕ) (n : ℕ)
    → Reads incoming (length got + n) got (read_loop answers incoming got n)
unfolding read_loop
read_loop-Reads [] incoming got zero = (refl, inl (refl, omega arith))
read_loop-Reads [] incoming got (suc n) = (refl, inr (refl, omega arith))
read_loop-Reads (a ∷ later) incoming got zero = (refl, inl (refl, omega arith))
read_loop-Reads (fails ∷ later) incoming got (suc n) = (refl, inr (refl, omega arith))
read_loop-Reads (moves j ∷ later) incoming got (suc n) =
    let m' = moved j (suc n) (length incoming) in
    elim (Bool-cases (m' == 0)) [
      | inl stop ↦ rw stop (refl, inr (refl, omega arith))
      | inr more ↦ rw more (
          Reads-step incoming got m' (suc n)
            (read_loop later (drop m' incoming) (got ++ take m' incoming) (suc n - m'))
            (omega arith) (omega arith)
            (read_loop-Reads later (drop m' incoming) (got ++ take m' incoming) (suc n - m')))
    ]

-- However `readTillDone` ends, the bytes that it got and those that are left are the input, in
-- order; and either it reports the number of bytes asked for, and got that many, or it reports -1
-- or 0, and got fewer.
pub read_till_done_cases :
    (n : ℕ) (s : Socket)
    → let (ret, got, s') = read_till_done n s in
      (got ++ s'.incoming ≡ s.incoming)
      × (((ret ≡ count n) × (length got ≡ n)) ⊎ ((below_one ret ≡ true) × (length got < n)))
unfolding read_till_done
read_till_done_cases n s =
    let (kept, ends) = read_loop-Reads s.reads s.incoming [] n in
    (
      kept,
      elim ends [
        | inl (e, l) ↦ inl (e ∙ ap count (l ∙ zero-add n), l ∙ zero-add n)
        | inr (bad, fewer) ↦ inr (bad, omega (arith, fewer))
      ],
    )

-- If `readTillDone` reports neither -1 nor 0 it got exactly the bytes asked for.
pub read_till_done-Reads :
    (n : ℕ) (s : Socket)
    → let (ret, got, s') = read_till_done n s in
      (got ++ s'.incoming ≡ s.incoming)
      × (below_one ret ≡ false → (ret ≡ count n) × (length got ≡ n))
read_till_done-Reads n s =
    let (kept, ends) = read_till_done_cases n s in
    (kept, λ good. elim ends [ inl whole ↦ whole | inr (bad, fewer) ↦ cc ])
