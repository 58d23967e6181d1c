-- ===== src/Main/Ready.antt =====
-- What holds when `main` (main.cpp) comes to its loop.
use tin_serwer.Base.{
  ℕ, ℤ, ◌≡◌, refl, ap, subst, Bool, true, false, Option, none, some, List, if◌then◌else◌, Outcome,
  ok, ◌>>=◌, >>=-eq-ok,
}
use tin_serwer.QueuePacket.Queue.{AddQueue}
use tin_serwer.Log.{Log, init_log}
use tin_serwer.Client.Registering.{Client}
use tin_serwer.ConHandler.{ConHandler}
use tin_serwer.ConHandler.Configuring.{new_con_handler}
use tin_serwer.ConHandler.Keeping.{IsWhole}
use tin_serwer.System.Starting.{server_of, new_con_handler-IsWhole}
use tin_serwer.Main.{Settings, Opt, set_options}
use tin_serwer.Main.Options.{InRange, set_options-InRange}
use tin_serwer.Main.Startup.{
  Startup, Forked, in_child, in_parent, not_forked, MobileRun, created, replaced, aborts_parent,
  aborts, init_socket, run_mobile_server, main_start,
}

-- What `main` has when it comes to its loop.
abbrev pub Begun : Type 0
Begun = ℕ × ℕ × Settings × ConHandler × Log

begun_with :
    (run : MobileRun) (socket socket' pid' : ℕ) (s s' : Settings) (h h' : ConHandler) (l l' : Log)
    → ◌≡◌ {A = Outcome (Option Begun)}
        (elim run [ created pid ↦ ok (some (socket, pid, s, h, l)) | _ ↦ ok none ])
        (ok (some (socket', pid', s', h', l')))
    → (socket ≡ socket') × (run ≡ created pid') × (s ≡ s') × (h ≡ h')
begun_with replaced socket socket' pid' s s' h h' l l' e = cc
begun_with aborts_parent socket socket' pid' s s' h h' l l' e = cc
begun_with aborts socket socket' pid' s s' h h' l l' e = cc
begun_with (created pid) socket socket' pid' s s' h h' l l' e = (cc, cc, cc, cc)

handled_with :
    (made : Option ConHandler) (run : MobileRun) (socket socket' pid' : ℕ) (s s' : Settings)
    (h' : ConHandler) (l l' : Log)
    → ◌≡◌ {A = Outcome (Option Begun)}
        (elim made [
          | none ↦ ok none
          | some h ↦ elim run [ created pid ↦ ok (some (socket, pid, s, h, l)) | _ ↦ ok none ]
        ])
        (ok (some (socket', pid', s', h', l')))
    → (made ≡ some h') × (socket ≡ socket') × (run ≡ created pid') × (s ≡ s')
handled_with none run socket socket' pid' s s' h' l l' e = cc
handled_with (some h) run socket socket' pid' s s' h' l l' e =
    let (it, is, same, same_handler) = begun_with run socket socket' pid' s s' h h' l l' e in
    (ap some same_handler, it, is, same)

created-in_parent :
    (forked : Forked) (execl_fails : Bool) (pid : ℕ)
    → run_mobile_server forked execl_fails ≡ created pid
    → forked ≡ in_parent pid
unfolding run_mobile_server
created-in_parent in_child true pid e = cc
created-in_parent in_child false pid e = cc
created-in_parent not_forked execl_fails pid e = cc
created-in_parent (in_parent pid') execl_fails pid e = cc

module _ (up : Startup) (make_handler : List ℕ → Option ConHandler) where
  socket_with :
      (bind_fails listen_fails good : Bool) (socket' pid' : ℕ) (s s' : Settings) (h' : ConHandler)
      (l l' : Log)
      → ◌≡◌ {A = Outcome (Option Begun)}
          (if good
            then (elim (init_socket bind_fails listen_fails up.listen_sock) [
              | none ↦ ok none
              | some socket ↦ elim (make_handler s.embeded_conf) [
                | none ↦ ok none
                | some h ↦ elim (run_mobile_server up.forked up.execl_fails) [
                  | created pid ↦ ok (some (socket, pid, s, h, l))
                  | _ ↦ ok none
                ]
              ]
            ])
            else ok none)
          (ok (some (socket', pid', s', h', l')))
      → (bind_fails ≡ false)
        × (listen_fails ≡ false)
        × (make_handler s.embeded_conf ≡ some h')
        × (up.listen_sock ≡ socket')
        × (run_mobile_server up.forked up.execl_fails ≡ created pid')
        × (s ≡ s')
  unfolding init_socket
  socket_with true listen_fails true socket' pid' s s' h' l l' e = cc
  socket_with true listen_fails false socket' pid' s s' h' l l' e = cc
  socket_with false true true socket' pid' s s' h' l l' e = cc
  socket_with false listen_fails false socket' pid' s s' h' l l' e = cc
  socket_with false false true socket' pid' s s' h' l l' e =
      let (made, it, run, same) =
        handled_with (make_handler s.embeded_conf) _ up.listen_sock socket' pid' s s' h' l l' e in
      (refl, refl, made, it, run, same)

  -- The socket and the processes that `main` has when it comes to its loop, and where its handler
  -- comes from.
  abbrev pub Established : ℕ → List ℕ → ConHandler → ℕ → Type 0
  Established socket conf h pid =
      (up.bind_fails ≡ false)
      × (up.listen_fails ≡ false)
      × (make_handler conf ≡ some h)
      × (up.listen_sock ≡ socket)
      × (up.forked ≡ in_parent pid)

  options_with :
      (chosen : Option Settings) (failed succeed : List ℕ) (socket' pid' : ℕ) (s' : Settings)
      (h' : ConHandler) (l l' : Log)
      → ◌≡◌ {A = Outcome (Option Begun)}
          (elim chosen [
            | none ↦ ok none
            | some s ↦ init_log up.log_opens s.verbosity failed succeed l >>= λ r.
                if r.0
                then (elim (init_socket up.bind_fails up.listen_fails up.listen_sock) [
                  | none ↦ ok none
                  | some socket ↦ elim (make_handler s.embeded_conf) [
                    | none ↦ ok none
                    | some h ↦ elim (run_mobile_server up.forked up.execl_fails) [
                      | created pid ↦ ok (some (socket, pid, s, h, r.1))
                      | _ ↦ ok none
                    ]
                  ]
                ])
                else ok none
          ])
          (ok (some (socket', pid', s', h', l')))
      → (chosen ≡ some s') × Established socket' s'.embeded_conf h' pid'
  options_with none failed succeed socket' pid' s' h' l l' e = cc
  options_with (some s) failed succeed socket' pid' s' h' l l' e =
      let ((good, l1), _, e1) =
        >>=-eq-ok (init_log up.log_opens s.verbosity failed succeed l) _ e in
      let (bound, listens, made, it, run, same) =
        socket_with up.bind_fails up.listen_fails good socket' pid' s s' h' l1 l' e1 in
      (
        ap some same,
        subst (λ x. Established socket' x.embeded_conf h' pid') same
            (bound, listens, made, it, created-in_parent up.forked up.execl_fails pid' run),
      )

module _ (stoi : List ℕ → Option ℤ) (readable readable' : List ℕ → Bool) (queue : AddQueue)
    (junk : Bool) (next : ℕ) (memory : ℕ → Client) (files : List ℕ → Option (List (List ℕ))) where
  -- The constructor of the handler, over the name of its file.
  abbrev pub handler_from : List ℕ → Option ConHandler
  handler_from conf =
      new_con_handler stoi readable (server_of readable' queue) junk next memory (files conf)

  -- When `main` comes to its loop, from defaults in range, then the port and the verbosity are in
  -- range, its socket is the one that was bound and listens, it is the parent of a process with
  -- this number, and the handler, made from the file of the settings, is whole.
  pub main_start-Established :
      (atoi : List ℕ → ℤ) (options : List (Opt × List ℕ)) (defaults : Settings)
      (failed succeed : List ℕ) (up : Startup) (socket pid : ℕ) (s : Settings) (h : ConHandler)
      (l l' : Log)
      → InRange defaults
      → main_start atoi options defaults failed succeed up handler_from l
        ≡ ok (some (socket, pid, s, h, l'))
      → InRange s × IsWhole h × Established up handler_from socket s.embeded_conf h pid
  unfolding main_start
  main_start-Established atoi options defaults failed succeed up socket pid s h l l' r e =
      let (chosen, established) =
        options_with up handler_from (set_options atoi options defaults) failed succeed socket pid s
          h l l' e in
      (
        set_options-InRange atoi options defaults s r chosen,
        new_con_handler-IsWhole stoi readable readable' queue junk next memory
            (files s.embeded_conf) h established.2,
        established,
      )
