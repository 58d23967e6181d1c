-- ===== src/Main.antt =====
-- main.cpp: the options of the program, and `terminationHandler`, the thread that waits for a
-- signal and walks over the clients.
pub mod Options
pub mod Terminating
pub mod Startup
pub mod Ready
use tin_serwer.Base.{
  ℤ, pos, negsuc, ℕ, ◌+◌, ◌-◌, ◌%◌, Bool, true, false, not, Option, none, some, List, [], ◌∷◌,
  if◌then◌else◌, ltb, leb, ◌||◌, Outcome, ok, fault, ◌>>=◌,
}
use tin_serwer.Bytes.{Garbage}
use tin_serwer.ConHandler.{ConHandler, request_exit, clients_registered, clock_walk}

-- The variables of `main` that the options set.
pub record Settings : Type 0 where
  pub verbosity : ℕ
  pub port : ℕ
  pub embeded_conf : List ℕ
  pub mobile_conf : List ℕ
  pub logfile : List ℕ
  pub in_mq : List ℕ
  pub out_mq : List ℕ
  pub mobile_server : List ℕ

-- The options that `getopt` can return.
pub data Opt : Type 0 where
  verbosity_opt port_opt embeded_opt mobile_opt logfile_opt in_opt out_opt server_opt unknown_opt :
      Opt

-- The conversion of an `int` to `uint16_t`.
unfoldable pub to_uint16 : ℤ → ℕ
to_uint16 (pos n) = n % 65536
to_uint16 (negsuc n) = 65535 - n % 65536

-- `verbosity < 0 || verbosity > 4`
pub set_verbosity : ℤ → Settings → Option Settings
set_verbosity (pos n) s = if ltb 4 n then none else some (record s { verbosity = n })
set_verbosity (negsuc n) s = none

-- `port` is a `uint16_t` when it is compared.
unfoldable pub set_port : ℤ → Settings → Option Settings
unfolding to_uint16
set_port n s =
    let port = to_uint16 n in
    if ltb port 1025 || ltb 65535 port then none else some (record s { port = port })

-- The switch: `none` is the return with -1.
unfoldable pub set_option : (List ℕ → ℤ) → Opt → List ℕ → Settings → Option Settings
unfolding set_verbosity set_port
set_option atoi verbosity_opt arg s = set_verbosity (atoi arg) s
set_option atoi port_opt arg s = set_port (atoi arg) s
set_option atoi embeded_opt arg s = some (record s { embeded_conf = arg })
set_option atoi mobile_opt arg s = some (record s { mobile_conf = arg })
set_option atoi logfile_opt arg s = some (record s { logfile = arg })
set_option atoi in_opt arg s = some (record s { in_mq = arg })
set_option atoi out_opt arg s = some (record s { out_mq = arg })
set_option atoi server_opt arg s = some (record s { mobile_server = arg })
set_option atoi unknown_opt arg s = none

-- The loop over what `getopt` returns.
unfoldable pub set_options : (List ℕ → ℤ) → List (Opt × List ℕ) → Settings → Option Settings
set_options atoi [] s = some s
set_options atoi ((opt, arg) ∷ rest) s = elim (set_option atoi opt arg s) [
  | none ↦ none
  | some s1 ↦ set_options atoi rest s1
]

-- One wait of `terminationHandler`: what other threads do to the handler before it is over, and
-- whether it is over because of a signal.
pub record Wait : Type 0 where
  pub others : ConHandler → ConHandler
  pub signalled : Bool

-- The loop of `terminationHandler`, over the waits to come: whether a signal has come.
pub termination_loop : Garbage → List Wait → ConHandler → Outcome (Bool × ConHandler)
termination_loop g [] h = ok (false, h)
termination_loop g (w ∷ later) h =
    if w.signalled
    then ok (true, request_exit (w.others h))
    else (clock_walk g (w.others h) >>= λ h'. termination_loop g later h')

-- What is logged before the end.
pub data Farewell : Type 0 where
  not_responding all_disconnected no_clients : Farewell

-- `notified` is whether the wait for the condition variable ends before its timeout.
pub farewell : Bool → Bool → Farewell
farewell true true = all_disconnected
farewell true false = not_responding
farewell false notified = no_clients

-- `terminationHandler`: `none` while it waits, and else the flag `end`, what it has logged, and the
-- handler.
pub termination_handler :
    Garbage → List Wait → Bool → ConHandler → Outcome (Option (Bool × Farewell × ConHandler))
termination_handler g waits notified h = termination_loop g waits h >>= λ r.
    if r.0 then ok (some (true, farewell (clients_registered r.1) notified, r.1)) else ok none
