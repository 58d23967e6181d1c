-- ===== src/Main/Options.antt =====
-- The options of main.cpp: what the checks let through.
use tin_serwer.Base.{
  ℤ, pos, negsuc, ℕ, ◌≤◌, ◌<◌, ◌≡◌, subst, Option, none, some, List, [], ◌∷◌, inl, inr, arith, ltb,
  ◌||◌, Bool-cases,
}
use tin_serwer.Main.{
  Settings, Opt, to_uint16, set_verbosity, set_port, set_option, set_options, verbosity_opt,
  port_opt, embeded_opt, mobile_opt, logfile_opt, in_opt, out_opt, server_opt, unknown_opt,
}

-- The port is free for a user's program, and the verbosity is one of the five levels.
pub record InRange (s : Settings) : Type 0 where
  pub port_from : 1025 ≤ s.port
  pub port_to : s.port < 65536
  pub verbosity_to : s.verbosity ≤ 4

abbrev AllInRange : Option Settings → Type 0
AllInRange none = Unit {0}
AllInRange (some s) = InRange s

set_verbosity-InRange : (n : ℤ) (s : Settings) → InRange s → AllInRange (set_verbosity n s)
unfolding set_verbosity
set_verbosity-InRange (negsuc n) s r = tt
set_verbosity-InRange (pos n) s r = elim (Bool-cases (ltb 4 n)) [
  | inl e ↦ rw e tt
  | inr e ↦
      rw e (record { port_from = r.port_from; port_to = r.port_to; verbosity_to = ground arith })
]

set_port-InRange : (n : ℤ) (s : Settings) → InRange s → AllInRange (set_port n s)
unfolding set_port
set_port-InRange n s r = elim (Bool-cases (ltb (to_uint16 n) 1025 || ltb 65535 (to_uint16 n))) [
  | inl e ↦ rw e tt
  | inr e ↦
      rw e
        (record { port_from = ground arith; port_to = ground arith; verbosity_to = r.verbosity_to })
]

set_option-InRange :
    (atoi : List ℕ → ℤ) (opt : Opt) (arg : List ℕ) (s : Settings)
    → InRange s
    → AllInRange (set_option atoi opt arg s)
unfolding set_option
set_option-InRange atoi verbosity_opt arg s r = set_verbosity-InRange (atoi arg) s r
set_option-InRange atoi port_opt arg s r = set_port-InRange (atoi arg) s r
set_option-InRange atoi embeded_opt arg s r = record {
  port_from = r.port_from;
  port_to = r.port_to;
  verbosity_to = r.verbosity_to;
}
set_option-InRange atoi mobile_opt arg s r = record {
  port_from = r.port_from;
  port_to = r.port_to;
  verbosity_to = r.verbosity_to;
}
set_option-InRange atoi logfile_opt arg s r = record {
  port_from = r.port_from;
  port_to = r.port_to;
  verbosity_to = r.verbosity_to;
}
set_option-InRange atoi in_opt arg s r = record {
  port_from = r.port_from;
  port_to = r.port_to;
  verbosity_to = r.verbosity_to;
}
set_option-InRange atoi out_opt arg s r = record {
  port_from = r.port_from;
  port_to = r.port_to;
  verbosity_to = r.verbosity_to;
}
set_option-InRange atoi server_opt arg s r = record {
  port_from = r.port_from;
  port_to = r.port_to;
  verbosity_to = r.verbosity_to;
}
set_option-InRange atoi unknown_opt arg s r = tt

next_option :
    (atoi : List ℕ → ℤ) (rest : List (Opt × List ℕ)) (s' : Settings)
    → ((s1 s2 : Settings) → InRange s1 → set_options atoi rest s1 ≡ some s2 → InRange s2)
    → (o : Option Settings) → AllInRange o
    → ◌≡◌ {A = Option Settings}
        (elim o [ none ↦ none | some s1 ↦ set_options atoi rest s1 ])
        (some s')
    → InRange s'
next_option atoi rest s' later none r e = cc
next_option atoi rest s' later (some s1) r e = later s1 s' r e

-- Whatever options are given, and whatever `atoi` makes of their arguments: where the program
-- starts from settings in their ranges and does not return early, the port is at least 1025 and
-- fits 16 bits, and the verbosity is at most 4.
pub set_options-InRange :
    (atoi : List ℕ → ℤ) (opts : List (Opt × List ℕ)) (s s' : Settings)
    → InRange s
    → set_options atoi opts s ≡ some s'
    → InRange s'
unfolding set_options
set_options-InRange atoi [] s s' r e = let same : s ≡ s' = cc in subst InRange same r
set_options-InRange atoi ((opt, arg) ∷ rest) s s' r e =
    next_option atoi rest s' (set_options-InRange atoi rest) (set_option atoi opt arg s)
      (set_option-InRange atoi opt arg s r) e
