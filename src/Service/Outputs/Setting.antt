-- ===== src/Service/Outputs/Setting.antt =====
-- The life of an output's value (Service.cpp): asked for, sent, confirmed.
use tin_serwer.Base.{
  ℕ, ◌≡◌, refl, ◌⊎◌, inl, inr, ◌∙◌, Bool, true, false, List, [], ◌∷◌, some, arith,
}
use tin_serwer.Float32.{Float32, is_nan, lt_float, lt_float_irrefl, lt_float_nan}
use tin_serwer.Service.{Output, output, service_factory}
use tin_serwer.Service.Outputs.{begin_setting, finalize_setting, clamp, set_val}

-- If the minimum is not above the maximum, the value that a request leaves is neither above the
-- maximum nor below the minimum; and it is the value asked for, unless that is above or below.
pub clamp_bounds :
    (min max new_val : Float32)
    → lt_float max min ≡ false
    → (lt_float max (clamp min max new_val) ≡ false)
      × (lt_float (clamp min max new_val) min ≡ false)
      × ((clamp min max new_val ≡ new_val)
          ⊎ (lt_float max new_val ≡ true)
          ⊎ (lt_float new_val min ≡ true))
unfolding clamp
clamp_bounds min max new_val h = ground (arith, lt_float_irrefl max, lt_float_irrefl min)

-- A request for a NaN passes the range check: it is stored and marked for sending whatever the
-- range.
pub set_val_nan :
    (o : Output) (new_val : Float32)
    → is_nan new_val ≡ true
    → ((set_val new_val o).expected ≡ new_val) × ((set_val new_val o).change ≡ true)
unfolding set_val
set_val_nan o new_val h = ground (arith, lt_float_nan new_val o.max h, lt_float_nan new_val o.min h)

-- What happens to an output: a request from the message queue, or a step of a data exchange.
pub data Event : Type 0 where
  request : Float32 → Event
  begins finalizes : Event

pub step : Event → Output → Output
unfolding begin_setting finalize_setting set_val
step (request v) o = set_val v o
step begins o = (begin_setting o).2
step finalizes o = finalize_setting o

-- The first event happens first.
unfoldable pub run : List Event → Output → Output
unfolding step
run [] o = o
run (e ∷ es) o = run es (step e o)

-- The last value asked for, as the range lets it through; `v` if nothing was asked for.
abbrev pub last_request : Float32 → Float32 → Float32 → List Event → Float32
last_request min max v [] = v
last_request min max v (request w ∷ es) = last_request min max (clamp min max w) es
last_request min max v (begins ∷ es) = last_request min max v es
last_request min max v (finalizes ∷ es) = last_request min max v es

abbrev pub requested : List Event → Bool
requested [] = false
requested (request w ∷ es) = true
requested (e ∷ es) = requested es

-- An output that `serviceFactory` makes has nothing to send, and the range that it was given.
factory-output :
    (junk junk' : Float32) (id srv_type : ℕ) (name unit : List ℕ) (min max : Float32) (o : Output)
    → service_factory junk junk' id srv_type name unit min max ≡ some (output o)
    → (o.change ≡ false) × (o.min ≡ min) × (o.max ≡ max)
unfolding service_factory
factory-output junk junk' id srv_type name unit min max o h = ground arith

expected-run :
    (es : List Event) (o : Output) → (run es o).expected ≡ last_request o.min o.max o.expected es
unfolding run step begin_setting finalize_setting set_val
expected-run [] o = refl
expected-run (request w ∷ es) o = expected-run es (set_val w o)
expected-run (begins ∷ es) o = expected-run es (begin_setting o).2
expected-run (finalizes ∷ es) o = ground (arith, expected-run es (finalize_setting o))

change-run :
    (es : List Event) (o : Output)
    → (run es o).change ≡ true
    → (o.change ≡ true) ⊎ (requested es ≡ true)
unfolding run step begin_setting finalize_setting set_val
change-run [] o h = inl h
change-run (request w ∷ es) o h = inr refl
change-run (begins ∷ es) o h = change-run es (begin_setting o).2 h
change-run (finalizes ∷ es) o h = ground (arith, change-run es (finalize_setting o) h)

last_request_any :
    (min max v w : Float32) (es : List Event)
    → requested es ≡ true
    → last_request min max v es ≡ last_request min max w es
last_request_any min max v w [] h = cc
last_request_any min max v w (request x ∷ es) h = refl
last_request_any min max v w (begins ∷ es) h = last_request_any min max v w es h
last_request_any min max v w (finalizes ∷ es) h = last_request_any min max v w es h

-- Whatever has happened to an output since `serviceFactory` made it, when an exchange has a value
-- to send it is the last one asked for, clamped to the range: never one of the values `junk` and
-- `junk'` that the constructor leaves indeterminate, since `v` may be any value.
pub begin_setting-run :
    (es : List Event) (junk junk' v : Float32) (id srv_type : ℕ) (name unit : List ℕ)
    (min max : Float32) (o : Output)
    → service_factory junk junk' id srv_type name unit min max ≡ some (output o)
    → (begin_setting (run es o)).1 ≡ true
    → (begin_setting (run es o)).0 ≡ last_request min max v es
unfolding begin_setting
begin_setting-run es junk junk' v id srv_type name unit min max o made h =
    let (unset, e, e') = factory-output junk junk' id srv_type name unit min max o made in
    elim (change-run es o h) [
      | inl set ↦ cc
      | inr r ↦ rw (← e, ← e') (expected-run es o ∙ last_request_any o.min o.max o.expected v es r)
    ]

-- When the device confirms and nothing was asked for in between, the output shows the value that
-- was sent, and there is no more to send.
pub finalize_setting-begin_setting :
    (o : Output)
    → o.change ≡ true
    → let (sent, _, begun) = begin_setting o in
      let done = finalize_setting begun in
      (done.val ≡ sent) × (done.expected ≡ sent) × (done.change ≡ false)
unfolding begin_setting finalize_setting
finalize_setting-begin_setting o h = ground arith

-- A request that comes between the sending and the confirmation is lost: the output shows the old
-- value, and the next exchange has nothing to send.
pub request_lost :
    (o : Output) (v : Float32)
    → let (sent, _, begun) = begin_setting o in
      let done = finalize_setting (set_val v begun) in
      (done.val ≡ sent) × (done.expected ≡ clamp o.min o.max v) × ((begin_setting done).1 ≡ false)
unfolding begin_setting finalize_setting set_val
request_lost o v = ground arith
