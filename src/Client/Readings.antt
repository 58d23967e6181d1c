-- ===== src/Client/Readings.antt =====
-- What `Client::getValues` (client.cpp) leaves in the inputs of a client.
use tin_serwer.Base.{
  ℕ, ◌≡◌, ◌≢◌, refl, sym, ap, ◌∙◌, subst, Bool, true, false, Option, some, List, [], ◌∷◌, ◌==◌,
  if◌then◌else◌, Outcome, ok, ◌>>=◌, arith, Option-cases, Bool-cases, inl, inr, ==_refl,
}
use tin_serwer.Float32.{Float32}
use tin_serwer.Packet.{Packet, PckType, byte_1, get_value, get_timestamp}
use tin_serwer.Service.{Input, input}
use tin_serwer.Service.Inputs.{set_val, set_timestamp}
use tin_serwer.Link.{Link, stopped, next_packet}
use tin_serwer.Client.{Heap, update, input_at, take_value, read_values, get_values}

-- The map leads from the number of each input to that input.
abbrev pub Owns : (ℕ → Option ℕ) → Heap → Type 0
Owns inputs heap =
    (num a : ℕ) → inputs num ≡ some a → (i : Input) × (heap a ≡ some (input i)) × (i.id ≡ num)

-- A measurement: the number of the service, the value and the time.
pub record Reading : Type 0 where
  pub num : ℕ
  pub value : Float32
  pub time : ℕ

-- A VAL with a reading in it.
pub record Carries (time_size : ℕ) (r : Reading) (p : Packet) : Type 0 where
  pub is_val : p.type ≡ PckType.val
  pub num_read : byte_1 p ≡ ok r.num
  pub value_read : get_value p ≡ ok r.value
  pub time_read : get_timestamp time_size p ≡ ok r.time

-- The packets carry the readings, one each, and an EOT follows.
abbrev pub CarryAll : ℕ → List Reading → List Packet → Type 0
CarryAll time_size [] [] = Unit
CarryAll time_size (r ∷ rs) (p ∷ ps) = Carries time_size r p × CarryAll time_size rs ps
CarryAll time_size _ _ = ⊥

-- An input after a reading: if it has its number it has its value and time, and is otherwise the
-- same.
abbrev pub after : Reading → Input → Input
after r i =
    if i.id == r.num
    then record { common = record (i.common) { val = r.value }; timestamp = r.time }
    else i

-- The input after the readings: each that has its number replaces the value and the time.
pub measured : List Reading → Input → Input
measured [] i = i
measured (r ∷ rs) i = measured rs (after r i)

abbrev pub somes : List Packet → List (Option Packet) → List (Option Packet)
somes [] later = later
somes (p ∷ ps) later = some p ∷ somes ps later

after_id : (r : Reading) (i : Input) → (after r i).id ≡ i.id
after_id r i = elim (Bool-cases (i.id == r.num)) [ inl e ↦ rw e refl | inr e ↦ rw e refl ]

same : (a b : ℕ) → (a == b) ≡ true → a ≡ b
same a b h = ground arith

other : (a b : ℕ) → a ≢ b → (a == b) ≡ false
other a b h = ground arith

-- What one reading changes.
record Taken (inputs : ℕ → Option ℕ) (r : Reading) (heap heap' : Heap) : Type 0 where
  owns : Owns inputs heap'
  takes :
      (num a : ℕ) (i : Input)
      → inputs num ≡ some a
      → heap a ≡ some (input i)
      → heap' a ≡ some (input (after r i))
  leaves : (a : ℕ) → ((num : ℕ) → inputs num ≢ some a) → heap' a ≡ heap a

Owns-after :
    (inputs : ℕ → Option ℕ) (r : Reading) (heap heap' : Heap)
    → Owns inputs heap
    → ((num a : ℕ) (i : Input)
        → inputs num ≡ some a
        → heap a ≡ some (input i)
        → heap' a ≡ some (input (after r i)))
    → Owns inputs heap'
Owns-after inputs r heap heap' o takes num a e =
    let (i, at, id) = o num a e in (after r i, takes num a i e at, after_id r i ∙ id)

-- An input in the map has the number that leads to it.
number_of :
    (inputs : ℕ → Option ℕ) (heap : Heap) (num a : ℕ) (i : Input)
    → Owns inputs heap
    → inputs num ≡ some a
    → heap a ≡ some (input i)
    → i.id ≡ num
number_of inputs heap num a i o e at =
    let (j, at', id) = o num a e in let eq : j ≡ i = cc in ap (λ k. k.id) (sym eq) ∙ id

arrives :
    (inputs : ℕ → Option ℕ) (n : ℕ) (heap : Heap) (num a : ℕ) (i : Input)
    → Owns inputs heap
    → inputs num ≡ some a
    → heap a ≡ some (input i)
    → i.id ≡ n
    → inputs n ≡ some a
arrives inputs n heap num a i o e at eq =
    subst (λ k. inputs k ≡ some a) (sym (number_of inputs heap num a i o e at) ∙ eq) e

updated :
    (inputs : ℕ → Option ℕ) (r : Reading) (heap : Heap) (address : ℕ) (i0 : Input) (num a : ℕ)
    (i : Input)
    → Owns inputs heap
    → inputs r.num ≡ some address
    → heap address ≡ some (input i0)
    → inputs num ≡ some a
    → heap a ≡ some (input i)
    → update heap address (input (set_timestamp r.time (set_val r.value i0))) a
      ≡ some (input (after r i))
unfolding set_timestamp set_val
updated inputs r heap address i0 num a i o there at0 e at = elim (Bool-cases (address == a)) [
  | inl eq ↦
      let here : heap a ≡ some (input i0) =
        subst (λ x. heap x ≡ some (input i0)) (same address a eq) at0 in
      let is_it : i0 ≡ i = cc in
      let id : (i0.id == r.num) ≡ true =
        ap (λ k. k == r.num) (number_of inputs heap r.num address i0 o there at0) ∙ ==_refl r.num in
      rw eq (
        subst
          (λ j. some (input (set_timestamp r.time (set_val r.value i0))) ≡ some (input (after r j)))
          is_it (rw id refl))
  | inr eq ↦
      let differs : i.id ≢ r.num = λ h.
        let arrived = arrives inputs r.num heap num a i o e at h in
        let one : address ≡ a = cc in
        let yes : (address == a) ≡ true =
          subst (λ x. (address == x) ≡ true) one (==_refl address) in
        cc in
      rw (eq, other i.id r.num differs) at
]

take_value-Taken :
    (time_size : ℕ) (inputs : ℕ → Option ℕ) (r : Reading) (p : Packet) (heap : Heap)
    → Owns inputs heap
    → Carries time_size r p
    → (heap' : Heap) × (take_value time_size inputs p heap ≡ ok heap') × Taken inputs r heap heap'
unfolding take_value input_at set_timestamp set_val
take_value-Taken time_size inputs r p heap o c = elim (Option-cases (inputs r.num)) [
  | inl none_there ↦
      let takes : (num a : ℕ) (i : Input)
          → inputs num ≡ some a
          → heap a ≡ some (input i)
          → heap a ≡ some (input (after r i)) =
        λ num a i e at.
          rw
            (other i.id r.num (λ eq. let there = arrives inputs r.num heap num a i o e at eq in cc))
            at in
      (
        heap,
        rw (c.num_read, none_there) refl,
        record { owns = o; takes = takes; leaves = λ a h. refl },
      )
  | inr (address, there) ↦
      let (i0, at0, id0) = o r.num address there in
      let new = set_timestamp r.time (set_val r.value i0) in
      let takes : (num a : ℕ) (i : Input)
          → inputs num ≡ some a
          → heap a ≡ some (input i)
          → update heap address (input new) a ≡ some (input (after r i)) =
        λ num a i e at. updated inputs r heap address i0 num a i o there at0 e at in
      (
        update heap address (input new),
        rw (c.num_read, there, c.value_read, input_at, at0, c.time_read) refl,
        record {
          owns = Owns-after inputs r heap (update heap address (input new)) o takes;
          takes = takes;
          leaves = λ a h.
              rw (other address a (λ eq. h r.num (subst (λ x. inputs r.num ≡ some x) eq there)))
                refl;
        },
      )
]

as_val : (p : Packet) → p.type ≡ PckType.val → p ≡ record { type = PckType.val; buf = p.buf }
as_val p h = ap (λ t. record { type = t; buf = p.buf }) h

pub read_values-val :
    (time_size : ℕ) (inputs : ℕ → Option ℕ) (p : Packet) (later : List (Option Packet))
    (heap : Heap) (link : Link)
    → p.type ≡ PckType.val
    → read_values time_size inputs (some p ∷ later) heap link
      ≡ (take_value time_size inputs p heap >>= λ h. read_values time_size inputs later h link)
unfolding read_values
read_values-val time_size inputs p later heap link h =
    subst
      (λ q.
        read_values time_size inputs (some q ∷ later) heap link
        ≡ (take_value time_size inputs q heap >>= λ h. read_values time_size inputs later h link))
      (sym (as_val p h)) refl

pub get_values-val :
    (time_size : ℕ) (inputs : ℕ → Option ℕ) (p : Packet) (later : List (Option Packet))
    (heap : Heap) (link : Link)
    → p.type ≡ PckType.val
    → link.coming ≡ some p ∷ later
    → get_values time_size inputs heap link
      ≡ read_values time_size inputs (some p ∷ later) heap link
unfolding get_values
get_values-val time_size inputs p later heap link h e = simp (get_values, next_packet, e, h)

-- An EOT.
abbrev pub eot : List ℕ → Packet
eot buf = record { type = PckType.eot; buf = buf }

-- What the loop comes to with the readings.
abbrev pub Measures :
    (ℕ → Option ℕ) → List Reading → Heap → Link → Outcome (Bool × Heap × Link) → Type 0
Measures inputs rs heap link result =
    (heap' : Heap) × (result ≡ ok (true, heap', link))
    × ((num a : ℕ) (i : Input)
        → inputs num ≡ some a
        → heap a ≡ some (input i)
        → heap' a ≡ some (input (measured rs i)))
    × ((a : ℕ) → ((num : ℕ) → inputs num ≢ some a) → heap' a ≡ heap a)

read_values-measured :
    (time_size : ℕ) (inputs : ℕ → Option ℕ) (rs : List Reading) (ps : List Packet) (buf : List ℕ)
    (later : List (Option Packet)) (heap : Heap) (link : Link)
    → Owns inputs heap
    → CarryAll time_size rs ps
    → Measures inputs rs heap
        (stopped (some (eot buf)) later link)
        (read_values time_size inputs (somes ps (some (eot buf) ∷ later)) heap link)
unfolding read_values measured
read_values-measured time_size inputs [] [] buf later heap link o c =
    (heap, refl, λ num a i e at. at, λ a h. refl)
read_values-measured time_size inputs (r ∷ rs) (p ∷ ps) buf later heap link o c =
    let (heap1, e1, t) = take_value-Taken time_size inputs r p heap o c.0 in
    let (heap2, e2, takes, leaves) =
      read_values-measured time_size inputs rs ps buf later heap1 link t.owns c.1 in
    (
      heap2,
      read_values-val time_size inputs p _ heap link c.0.is_val ∙ rw e1 e2,
      λ num a i e at. takes num a (after r i) e (t.takes num a i e at),
      λ a h. leaves a h ∙ t.leaves a h,
    )
read_values-measured time_size inputs [] (p ∷ ps) buf later heap link o c = absurd c
read_values-measured time_size inputs (r ∷ rs) [] buf later heap link o c = absurd c

-- Where each number in the map leads to its input, packets with readings and an EOT behind them
-- end the exchange well, and what comes behind the EOT is not read. Then each input has the value
-- and the time of the last reading with its number, if there was one, and a reading with a number
-- that is not in the map changes no service.
pub get_values-measured :
    (time_size : ℕ) (inputs : ℕ → Option ℕ) (rs : List Reading) (ps : List Packet) (buf : List ℕ)
    (later : List (Option Packet)) (heap : Heap) (link : Link)
    → Owns inputs heap
    → CarryAll time_size rs ps
    → link.coming ≡ somes ps (some (eot buf) ∷ later)
    → Measures inputs rs heap
        (stopped (some (eot buf)) later link)
        (get_values time_size inputs heap link)
unfolding get_values read_values measured
get_values-measured time_size inputs [] [] buf later heap link o c e =
    (heap, simp (get_values, next_packet, e), λ num a i k at. at, λ a h. refl)
get_values-measured time_size inputs (r ∷ rs) (p ∷ ps) buf later heap link o c e =
    let (heap', ends, takes, leaves) =
      read_values-measured time_size inputs (r ∷ rs) (p ∷ ps) buf later heap link o c in
    (heap', get_values-val time_size inputs p _ heap link c.0.is_val e ∙ ends, takes, leaves)
get_values-measured time_size inputs [] (p ∷ ps) buf later heap link o c e = absurd c
get_values-measured time_size inputs (r ∷ rs) [] buf later heap link o c e = absurd c
