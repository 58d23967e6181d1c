-- ===== src/Main/Startup.antt =====
-- The rest of main.cpp: the socket, the process of the mobile server, and what `main` does up to
-- its loop, and in it. What the system calls return is a parameter.
use tin_serwer.Base.{
  ℕ, ℤ, Bool, true, false, Option, none, some, List, [], ◌∷◌, if◌then◌else◌, Outcome, ok, ◌>>=◌,
}
use tin_serwer.Log.{Log, init_log}
use tin_serwer.ConHandler.{ConHandler}
use tin_serwer.Main.{Settings, Opt, set_options}

-- `initSocket`: whether `bind` and `listen` return a number below 0. The result is `none` for -1.
unfoldable pub init_socket : (bind_fails listen_fails : Bool) → ℕ → Option ℕ
init_socket true listen_fails listen_sock = none
init_socket false true listen_sock = none
init_socket false false listen_sock = some listen_sock

-- What `fork` returns: in the child, in the parent with the number of the child, or a failure.
pub data Forked : Type 0 where
  in_child : Forked
  in_parent : ℕ → Forked
  not_forked : Forked

-- What becomes of the process that calls `runMobileServer`: it runs the mobile server instead, it
-- sends SIGINT to its parent and exits, it exits, or it goes on with the number of the child.
pub data MobileRun : Type 0 where
  replaced : MobileRun
  aborts_parent : MobileRun
  aborts : MobileRun
  created : ℕ → MobileRun

-- `runMobileServer`, where `execl` returns only if it fails.
unfoldable pub run_mobile_server : Forked → (execl_fails : Bool) → MobileRun
run_mobile_server in_child true = aborts_parent
run_mobile_server in_child false = replaced
run_mobile_server not_forked execl_fails = aborts
run_mobile_server (in_parent pid) execl_fails = created pid

-- What the system gives to `main` in its own process.
pub record Startup : Type 0 where
  pub log_opens : Bool
  pub bind_fails : Bool
  pub listen_fails : Bool
  pub listen_sock : ℕ
  pub forked : Forked
  pub execl_fails : Bool

-- `main` up to its loop: the socket, the number of the mobile server, the handler and the log, or
-- `none` where the program ends before. `make_handler` is the constructor of the handler, over the
-- name of its file.
unfoldable pub main_start :
    (List ℕ → ℤ)
    → List (Opt × List ℕ)
    → Settings
    → (failed succeed : List ℕ) → Startup
    → (List ℕ → Option ConHandler)
    → Log
    → Outcome (Option (ℕ × ℕ × Settings × ConHandler × Log))
main_start atoi options defaults failed succeed up make_handler l =
    elim (set_options atoi options defaults) [
      | none ↦ ok none
      | some s ↦ init_log up.log_opens s.verbosity failed succeed l >>= λ r.
          if r.0
          then (elim (init_socket up.bind_fails up.listen_fails up.listen_sock) [
            | none ↦ ok none
            | some socket ↦ elim (make_handler s.embeded_conf) [
              | none ↦ ok none
              | some h ↦ elim (run_mobile_server up.forked up.execl_fails) [
                | created pid ↦ ok (some (socket, pid, s, h, r.1))
                | _ ↦ ok none
              ]
            ]
          ])
          else ok none
    ]

-- The loop of `main`: for each turn the flag `end` as it is tested, and what `accept` returns,
-- `none` for a number below 0. The result are the connections that are passed to the handler.
unfoldable pub accept_loop : List (Bool × Option ℕ) → List ℕ
accept_loop [] = []
accept_loop ((true, accepted) ∷ turns) = []
accept_loop ((false, none) ∷ turns) = accept_loop turns
accept_loop ((false, some connection) ∷ turns) = connection ∷ accept_loop turns
