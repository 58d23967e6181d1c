-- ===== src/Client/Setting.antt =====
-- `setValues` and `setExit` of client.cpp. The outputs are listed in the order of the map, by their
-- addresses in the store.
use tin_serwer.Base.{
  ℕ, Bool, true, false, not, Option, none, some, List, [], ◌∷◌, if◌then◌else◌, Outcome, ok, fault,
  ◌>>=◌, dangling_pointer,
}
use tin_serwer.Bytes.{Garbage}
use tin_serwer.Socket.{is_zero, below_one}
use tin_serwer.Sesskey.{Evp}
use tin_serwer.Packet.{PckType, new_set, new_exit, new_eot}
use tin_serwer.Link.{Link, next_packet, class_of, send_on}
use tin_serwer.Service.{Output, output}
use tin_serwer.Service.Outputs.{begin_setting, finalize_setting}
use tin_serwer.Float32.{Float32}
use tin_serwer.Client.{Heap, update}

unfoldable pub output_at : Heap → ℕ → Outcome Output
output_at heap address = elim (heap address) [ some (output o) ↦ ok o | _ ↦ fault dangling_pointer ]

-- `finalizeSetting` of the output that an address leads to.
unfoldable pub finalize_at : Heap → ℕ → Outcome Heap
finalize_at heap address =
    output_at heap address >>= λ o. ok (update heap address (output (finalize_setting o)))

-- What the class of the reply to a SET says: confirmed, refused, or nothing that is expected.
unfoldable pub settle : Heap → ℕ → Option PckType → Outcome (Option Heap)
settle heap address (some PckType.ack) = finalize_at heap address >>= λ h. ok (some h)
settle heap address (some PckType.nak) = ok (some heap)
settle heap address _ = ok none

module _ (evp : Evp) (ivs : ℕ → Option (List ℕ)) (g : Garbage) (key : Option (List ℕ)) where
  -- A SET and its reply. `none` is the early return with false.
  unfoldable pub set_one : ℕ → Float32 → Output → Heap → Link → Outcome (Option Heap × Link)
  set_one address val o heap link = new_set g o.id val >>= λ set.
      send_on evp ivs g set key link >>= λ sent.
      if is_zero sent.0
      then ok (none, sent.1)
      else (let replied = next_packet sent.1 in
          settle heap address (class_of replied.curr) >>= λ r. ok (r, replied))

  -- The loop over the outputs, and the EOT.
  unfoldable pub set_values : List ℕ → Heap → Link → Outcome (Bool × Heap × Link)
  set_values [] heap link = do
    eot ← new_eot g
    sent ← send_on evp ivs g eot key link
    ok (not (is_zero sent.0), heap, sent.1)
  set_values (address ∷ rest) heap link = do
    o ← output_at heap address
    let begun = begin_setting o
    let heap1 = update heap address (output (begun.2))
    elim (begun.1) [
      | false ↦ set_values rest heap1 link
      | true ↦ set_one address begun.0 o heap1 link >>= λ r. elim r.0 [
        | none ↦ ok (false, heap1, r.1)
        | some heap2 ↦ set_values rest heap2 r.1
      ]
    ]

  unfoldable pub set_exit : Link → Outcome (Bool × Link)
  set_exit link = do
    exit ← new_exit g 0
    sent ← send_on evp ivs g exit key link
    ok (not (below_one sent.0), sent.1)
