-- ===== src/Client/Settling.antt =====
-- What `setValues` (client.cpp) does to the outputs of a client.
use tin_serwer.Base.{
  ℕ, ◌≡◌, refl, ap, ◌∙◌, subst, Bool, true, false, Option, none, some, List, [], ◌∷◌, if◌then◌else◌,
  ◌==◌, Outcome, ok, fault, ◌>>=◌, dangling_pointer, >>=-eq-ok, ◌⊎◌, inl, inr, Bool-cases, ==_refl,
  arith,
}
use tin_serwer.Bytes.{Garbage}
use tin_serwer.Socket.{is_zero}
use tin_serwer.Sesskey.{Evp}
use tin_serwer.Packet.{PckType, new_set, new_eot}
use tin_serwer.Link.{Link, next_packet, class_of, send_on}
use tin_serwer.Float32.{Float32}
use tin_serwer.Service.{Service, Output, input, output}
use tin_serwer.Service.Outputs.{begin_setting, finalize_setting}
use tin_serwer.Client.{Heap, update}
use tin_serwer.Client.Setting.{output_at, finalize_at, settle, set_one, set_values}

-- The request stays, and either nothing is confirmed, or just what was asked for.
abbrev pub Settles : Output → Output → Type 0
Settles o o' =
    (o'.expected ≡ o.expected)
    × (((o'.val ≡ o.val) × (o'.change ≡ o.change)) ⊎ ((o'.val ≡ o.expected) × (o'.change ≡ false)))

abbrev pub SettleAll : Heap → Heap → Type 0
SettleAll heap heap' =
    (a : ℕ) (o : Output)
    → heap a ≡ some (output o)
    → (o' : Output) × (heap' a ≡ some (output o')) × Settles o o'

Settles-trans : (o p q : Output) → Settles o p → Settles p q → Settles o q
Settles-trans o p q (e, inl (v, c)) (e', inl (v', c')) = (e' ∙ e, inl (v' ∙ v, c' ∙ c))
Settles-trans o p q (e, inr (v, c)) (e', inl (v', c')) = (e' ∙ e, inr (v' ∙ v, c' ∙ c))
Settles-trans o p q (e, _) (e', inr (v', c')) = (e' ∙ e, inr (v' ∙ e, c'))

SettleAll-refl : (heap : Heap) → SettleAll heap heap
SettleAll-refl heap a o at = (o, at, (refl, inl (refl, refl)))

SettleAll-trans : (h h' h'' : Heap) → SettleAll h h' → SettleAll h' h'' → SettleAll h h''
SettleAll-trans h h' h'' f f' a o at =
    let (p, at', r) = f a o at in
    let (q, at'', r') = f' a p at' in (q, at'', Settles-trans o p q r r')

update-SettleAll :
    (heap : Heap) (address : ℕ) (o o1 : Output)
    → heap address ≡ some (output o)
    → Settles o o1
    → SettleAll heap (update heap address (output o1))
update-SettleAll heap address o o1 at0 r a p at = elim (Bool-cases (address == a)) [
  | inl eq ↦
      let same : address ≡ a = ground arith in
      let here : heap a ≡ some (output o) = subst (λ x. heap x ≡ some (output o)) same at0 in
      let one : o ≡ p = cc in (o1, rw eq refl, subst (λ x. Settles x o1) one r)
  | inr eq ↦ (p, rw eq at, (refl, inl (refl, refl)))
]

output_at-ok :
    (heap : Heap) (address : ℕ) (o : Output)
    → output_at heap address ≡ ok o
    → heap address ≡ some (output o)
unfolding output_at
output_at-ok heap address o h = by_content (heap address) h
  where
    by_content :
        (c : Option Service)
        → (elim c [ some (output o) ↦ ok o | _ ↦ fault dangling_pointer ]) ≡ ok o
        → c ≡ some (output o)
    by_content (some (output p)) h = cc
    by_content (some (input i)) h = cc
    by_content none h = cc

begin_setting-Settles : (o : Output) → Settles o (begin_setting o).2
unfolding begin_setting
begin_setting-Settles o = (refl, inl (refl, refl))

finalize_setting-Settles :
    (o : Output) → Settles (begin_setting o).2 (finalize_setting (begin_setting o).2)
unfolding begin_setting finalize_setting
finalize_setting-Settles o = elim (Bool-cases o.change) [
  | inl e ↦ rw e (refl, inr (refl, refl))
  | inr e ↦ rw e (refl, inl (refl, refl))
]

finalize_at-SettleAll :
    (heap heap2 : Heap) (address : ℕ) (o : Output)
    → heap address ≡ some (output (begin_setting o).2)
    → finalize_at heap address ≡ ok heap2
    → SettleAll heap heap2
unfolding finalize_at
finalize_at-SettleAll heap heap2 address o at h =
    let (p, e, h1) = >>=-eq-ok (output_at heap address) _ h in
    let there : heap address ≡ some (output p) = output_at-ok heap address p e in
    let one : (begin_setting o).2 ≡ p = cc in
    let done : update heap address (output (finalize_setting p)) ≡ heap2 = cc in
    subst (λ h. SettleAll heap h) done
      (update-SettleAll heap address p (finalize_setting p) there
        (subst (λ q. Settles q (finalize_setting q)) one (finalize_setting-Settles o)))

settle-SettleAll :
    (heap heap2 : Heap) (address : ℕ) (o : Output) (c : Option PckType)
    → heap address ≡ some (output (begin_setting o).2)
    → settle heap address c ≡ ok (some heap2)
    → SettleAll heap heap2
unfolding settle
settle-SettleAll heap heap2 address o (some PckType.ack) at h =
    let (h1, e, e') = >>=-eq-ok (finalize_at heap address) _ h in
    let one : h1 ≡ heap2 = cc in
    subst (λ h. SettleAll heap h) one (finalize_at-SettleAll heap h1 address o at e)
settle-SettleAll heap heap2 address o (some PckType.nak) at h =
    let one : heap ≡ heap2 = cc in subst (λ h. SettleAll heap h) one (SettleAll-refl heap)
settle-SettleAll heap heap2 address o (some _) at h = cc
settle-SettleAll heap heap2 address o none at h = cc

module _ (evp : Evp) (ivs : ℕ → Option (List ℕ)) (g : Garbage) (key : Option (List ℕ)) where
  set_one-SettleAll :
      (address : ℕ) (val : Float32) (o : Output) (heap heap2 : Heap) (s s' : Link)
      → heap address ≡ some (output (begin_setting o).2)
      → set_one evp ivs g key address val o heap s ≡ ok (some heap2, s')
      → SettleAll heap heap2
  unfolding set_one
  set_one-SettleAll address val o heap heap2 s s' at h =
      let (set, _, h1) = >>=-eq-ok (new_set g o.id val) _ h in
      let (sent, _, h2) = >>=-eq-ok (send_on evp ivs g set key s) _ h1 in
      by_sent (is_zero sent.0) sent.1 h2
    where
      by_sent :
          (unsent : Bool) (t : Link)
          → ◌≡◌ {A = Outcome (Option Heap × Link)}
              (if unsent
                then ok (none, t)
                else (settle heap address (class_of (next_packet t).curr) >>= λ r.
                    ok (r, next_packet t)))
              (ok (some heap2, s'))
          → SettleAll heap heap2
      by_sent true t h = cc
      by_sent false t h =
          let (r, e, h1) = >>=-eq-ok (settle heap address (class_of (next_packet t).curr)) _ h in
          let one : r ≡ some heap2 = cc in
          settle-SettleAll heap heap2 address o _ at (e ∙ ap ok one)

  -- Whatever the connection does and whatever replies come, if `setValues` returns, the request of
  -- each output in the store stays, and its confirmed value is as it was, with its mark, or else
  -- is the value asked for, with the mark taken off.
  pub set_values-SettleAll :
      (addresses : List ℕ) (heap heap' : Heap) (s s' : Link) (w : Bool)
      → set_values evp ivs g key addresses heap s ≡ ok (w, heap', s')
      → SettleAll heap heap'
  unfolding set_values
  set_values-SettleAll [] heap heap' s s' w h =
      let (eot, _, h1) = >>=-eq-ok (new_eot g) _ h in
      let (sent, _, h2) = >>=-eq-ok (send_on evp ivs g eot key s) _ h1 in
      let one : heap ≡ heap' = cc in subst (λ h. SettleAll heap h) one (SettleAll-refl heap)
  set_values-SettleAll (address ∷ rest) heap heap' s s' w h =
      let (o, e, h1) = >>=-eq-ok (output_at heap address) _ h in
      let begun = (begin_setting o).2 in
      let heap1 = update heap address (output begun) in
      let there = output_at-ok heap address o e in
      let first = update-SettleAll heap address o begun there (begin_setting-Settles o) in
      let at1 : heap1 address ≡ some (output begun) = rw (==_refl address) refl in
      SettleAll-trans heap heap1 heap' first (
        by_change o heap1 at1 (λ u t. set_values-SettleAll rest u heap' t s' w) (begin_setting o).1
          h1)
    where
      by_result :
          (o : Output) (heap1 : Heap)
          → heap1 address ≡ some (output (begin_setting o).2)
          → ((u : Heap) (t : Link)
              → set_values evp ivs g key rest u t ≡ ok (w, heap', s')
              → SettleAll u heap')
          → (r : Option Heap) (t : Link)
          → set_one evp ivs g key address (begin_setting o).0 o heap1 s ≡ ok (r, t)
          → ◌≡◌ {A = Outcome (Bool × Heap × Link)}
              (elim r [
                | none ↦ ok (false, heap1, t)
                | some heap2 ↦ set_values evp ivs g key rest heap2 t
              ])
              (ok (w, heap', s'))
          → SettleAll heap1 heap'
      by_result o heap1 at k none t e h =
          let one : heap1 ≡ heap' = cc in subst (λ h. SettleAll heap1 h) one (SettleAll-refl heap1)
      by_result o heap1 at k (some heap2) t e h =
          SettleAll-trans heap1 heap2 heap'
            (set_one-SettleAll address (begin_setting o).0 o heap1 heap2 s t at e) (k heap2 t h)

      by_change :
          (o : Output) (heap1 : Heap)
          → heap1 address ≡ some (output (begin_setting o).2)
          → ((u : Heap) (t : Link)
              → set_values evp ivs g key rest u t ≡ ok (w, heap', s')
              → SettleAll u heap')
          → (change : Bool)
          → ◌≡◌ {A = Outcome (Bool × Heap × Link)}
              (elim change [
                | false ↦ set_values evp ivs g key rest heap1 s
                | true ↦ set_one evp ivs g key address (begin_setting o).0 o heap1 s >>= λ r.
                    elim r.0 [
                      | none ↦ ok (false, heap1, r.1)
                      | some heap2 ↦ set_values evp ivs g key rest heap2 r.1
                    ]
              ])
              (ok (w, heap', s'))
          → SettleAll heap1 heap'
      by_change o heap1 at k false h = k heap1 s h
      by_change o heap1 at k true h =
          let (r, e, h1) =
            >>=-eq-ok (set_one evp ivs g key address (begin_setting o).0 o heap1 s) _ h in
          by_result o heap1 at k r.0 r.1 e h1
