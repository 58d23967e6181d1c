-- ===== src/Client/Kinds.antt =====
-- What the addresses of the store lead to: nothing, an input or an output. `getValues` and
-- `setValues` of client.cpp write to services, and never change that.
pub mod Reading
pub mod Settings
use tin_serwer.Base.{
  ℕ, ◌≤◌, ◌≡◌, refl, sym, ap, ◌∙◌, Bool, true, false, Option, none, some, List, [], ◌∷◌, length,
  if◌then◌else◌, ◌==◌, Outcome, ok, fault, ◌>>=◌, dangling_pointer, >>=-eq-ok, arith, Bool-cases,
  inl, inr, ◌⊎◌,
}
use tin_serwer.Bytes.{Garbage}
use tin_serwer.Socket.{Ret, is_zero}
use tin_serwer.Sesskey.{Evp}
use tin_serwer.Packet.{
  Packet, PckType, byte_1, get_value, get_timestamp, new_set, new_eot, new_exit,
}
use tin_serwer.Link.{Link, stopped, next_packet, class_of, send_on}
use tin_serwer.Float32.{Float32}
use tin_serwer.Service.{Service, Input, Output, input, output}
use tin_serwer.Service.Inputs.{set_val, set_timestamp}
use tin_serwer.Service.Outputs.{begin_setting, finalize_setting}
use tin_serwer.Client.{Heap, update, input_at, take_value, read_values, get_values}
use tin_serwer.Client.Setting.{output_at, finalize_at, settle, set_one, set_values, set_exit}
use tin_serwer.Client.Verifying.{send_on-coming}

pub data Kind : Type 0 where
  vacant an_input an_output : Kind

abbrev pub kind : Option Service → Kind
kind none = vacant
kind (some (input i)) = an_input
kind (some (output o)) = an_output

-- Each address leads to what it led to before.
abbrev pub SameKinds : Heap → Heap → Type 0
SameKinds heap heap' = (a : ℕ) → kind (heap' a) ≡ kind (heap a)

-- No packet has been added to those that are to come.
abbrev pub Shrinks : Link → Link → Type 0
Shrinks link link' = length link'.coming ≤ length link.coming

pub update-SameKinds :
    (heap : Heap) (a : ℕ) (s : Service)
    → kind (some s) ≡ kind (heap a)
    → SameKinds heap (update heap a s)
update-SameKinds heap a s same b = elim (Bool-cases (a == b)) [
  | inl e ↦ ground (arith, same)
  | inr e ↦ ground arith
]

input_there :
    (o : Option Service) (i : Input)
    → ◌≡◌ {A = Outcome Input} (elim o [ some (input j) ↦ ok j | _ ↦ fault dangling_pointer ]) (ok i)
    → kind o ≡ an_input
input_there none i e = cc
input_there (some (input j)) i e = refl
input_there (some (output p)) i e = cc

output_there :
    (o : Option Service) (i : Output)
    → ◌≡◌ {A = Outcome Output}
        (elim o [ some (output j) ↦ ok j | _ ↦ fault dangling_pointer ])
        (ok i)
    → kind o ≡ an_output
output_there none i e = cc
output_there (some (input j)) i e = cc
output_there (some (output p)) i e = refl

pub input_at-kind :
    (heap : Heap) (a : ℕ) (i : Input) → input_at heap a ≡ ok i → kind (heap a) ≡ an_input
unfolding input_at
input_at-kind heap a i e = input_there (heap a) i e

pub output_at-kind :
    (heap : Heap) (a : ℕ) (o : Output) → output_at heap a ≡ ok o → kind (heap a) ≡ an_output
unfolding output_at
output_at-kind heap a o e = output_there (heap a) o e

pub next_packet-Shrinks : (link : Link) → Shrinks link (next_packet link)
unfolding next_packet
next_packet-Shrinks link = shorter link.coming
  where
    shorter :
        (ps : List (Option Packet))
        → length
            (elim ps as (λ _. Link) [
              | [] ↦ stopped none [] link
              | q ∷ later ↦ stopped q later link
            ]).coming
          ≤ length ps
    shorter [] = omega arith
    shorter (q ∷ later) = omega arith

pub send_on-Shrinks :
    (evp : Evp) (ivs : ℕ → Option (List ℕ)) (g : Garbage) (p : Packet) (key : Option (List ℕ))
    (link : Link) (ret : Ret) (link' : Link)
    → send_on evp ivs g p key link ≡ ok (ret, link')
    → Shrinks link link'
send_on-Shrinks evp ivs g p key link ret link' e =
    let (coming, _) = send_on-coming evp ivs g p key link ret link' e in
    omega (arith, ap length coming)

module _ (time_size : ℕ) (inputs : ℕ → Option ℕ) where
  taken :
      (p : Packet) (heap heap' : Heap) (at : Option ℕ)
      → ◌≡◌ {A = Outcome Heap}
          (elim at [
            | none ↦ ok heap
            | some address ↦ (do
              v ← get_value p
              i ← input_at heap address
              t ← get_timestamp time_size p
              ok (update heap address (input (set_timestamp t (set_val v i)))))
          ])
          (ok heap')
      → SameKinds heap heap'
  taken p heap heap' none e a = let same : heap ≡ heap' = cc in ap (λ h. kind (h a)) (sym same)
  taken p heap heap' (some address) e a =
      let (v, _, e1) = >>=-eq-ok (get_value p) _ e in
      let (i, there, e2) = >>=-eq-ok (input_at heap address) _ e1 in
      let (t, _, e3) = >>=-eq-ok (get_timestamp time_size p) _ e2 in
      let same : update heap address (input (set_timestamp t (set_val v i))) ≡ heap' = cc in
      ap (λ h. kind (h a)) (sym same)
      ∙ update-SameKinds heap address _ (sym (input_at-kind heap address i there)) a

  pub take_value-SameKinds :
      (p : Packet) (heap heap' : Heap)
      → take_value time_size inputs p heap ≡ ok heap'
      → SameKinds heap heap'
  unfolding take_value
  take_value-SameKinds p heap heap' e =
      let (num, _, e1) = >>=-eq-ok (byte_1 p) _ e in taken p heap heap' (inputs num) e1

-- What an exchange leaves of the store and of the link.
abbrev pub Exchanged : Heap → ℕ → Heap → Link → Type 0
Exchanged heap n heap' link' = SameKinds heap heap' × (length link'.coming ≤ n)
