-- ===== src/Tests/Starting.antt =====
-- main.cpp at concrete inputs.
use tin_serwer.Base.{
  assign, ◌==◌, if◌then◌else◌, pos, ◌≡◌, ◌≢◌, ◌↔◌, refl, true, false, none, some, [], ◌∷◌, ok, inl,
  inr, arith,
}
use tin_serwer.Main.{
  Settings, port_opt, in_opt, set_option, set_options, set_port, to_uint16, Wait, Farewell,
  no_clients, termination_handler,
}
use tin_serwer.ConHandler.{ConHandler, clients_registered}
use tin_serwer.Main.Options.{InRange, set_options-InRange}
use tin_serwer.Main.Startup.{Startup, in_parent, init_socket, run_mobile_server, main_start}
use tin_serwer.Main.Ready.{handler_from}
use tin_serwer.Log.{Log, no_file, opened, log, init_log, write_line}
use tin_serwer.QueuePacket.Queue.{AddQueue}
use tin_serwer.ServiceTable.{new_table}
use tin_serwer.Server.{new_server}
use tin_serwer.Main.Terminating.{KeptUsed, termination_handler_ends, termination_handler_silent}
use tin_serwer.ConHandler.Configuring.{
  to_uint8, new_client, add_client, add_clients, new_con_handler,
}
use tin_serwer.ConHandler.Configuring.Matching.{MadeOf, new_con_handler-Matches}
use tin_serwer.Tests.Joining.{zeros, client}
use tin_serwer.Tests.Handling.{empty_server, busy, busy-AllUsedOnce}

abbrev defaults : Settings
defaults = record {
  verbosity = 2;
  port = 12345;
  embeded_conf = [];
  mobile_conf = [];
  logfile = [];
  in_mq = [];
  out_mq = [];
  mobile_server = [];
}

-- -p 67536 -i q: the port wraps to 2000.
abbrev given : Settings
given = record defaults { port = 2000; in_mq = 113 ∷ [] }

given_run :
    set_options (λ text. pos 67536) ((port_opt, []) ∷ (in_opt, 113 ∷ []) ∷ []) defaults ≡ some given
unfolding set_options set_option set_port to_uint16
given_run = refl

set_options-InRange_example : InRange given
set_options-InRange_example =
    set_options-InRange (λ text. pos 67536) ((port_opt, []) ∷ (in_opt, 113 ∷ []) ∷ []) defaults
      given (record { port_from = omega arith; port_to = omega arith; verbosity_to = omega arith })
      given_run

abbrev timeout : Wait
timeout = record { others = λ h. h; signalled = false }

abbrev interrupt : Wait
interrupt = record { others = λ h. h; signalled = true }

busy-KeptUsed : KeptUsed zeros (timeout ∷ interrupt ∷ []) busy
busy-KeptUsed = inr (busy-AllUsedOnce, λ h' walked. inl refl)

termination_handler_ends_example :
    (h' : ConHandler) × (said : Farewell) × (termination_handler zeros
        (timeout ∷ interrupt ∷ [])
        true
        busy
      ≡ ok (some (true, said, h')))
    × (h'.exit_flag ≡ true)
    × ((said ≡ no_clients) ↔ (clients_registered h' ≡ false))
termination_handler_ends_example =
    termination_handler_ends zeros (timeout ∷ interrupt ∷ []) true busy busy-KeptUsed refl

termination_handler_silent_example :
    termination_handler zeros (timeout ∷ timeout ∷ []) true busy ≢ ok none
unfolding clients_registered
termination_handler_silent_example =
    termination_handler_silent zeros timeout timeout [] true busy none refl refl (λ h. refl) refl

-- A configuration with the number 257: it is taken for the number 1.
abbrev configured : ConHandler
configured = record {
  id_client_pairs = (1, some 0) ∷ [];
  addr_client_pairs = [];
  clients =
      λ i. if 0 == i then record { id = 1; used = false; inputs = []; outputs = [] } else client;
  exit_flag = false;
  server = empty_server;
  next = 500;
}

configured_run :
    new_con_handler
      (λ word. some (pos 257))
      (λ file. true)
      (λ file. some empty_server)
      false
      500
      (λ i. client)
      (some ((107 ∷ []) ∷ (50 ∷ 53 ∷ 55 ∷ []) ∷ (97 ∷ []) ∷ []))
    ≡ some configured
unfolding new_con_handler add_clients add_client new_client to_uint8 assign
configured_run = refl

new_con_handler-Matches_example :
    MadeOf (λ word. some (pos 257)) ((50 ∷ 53 ∷ 55 ∷ []) ∷ (97 ∷ []) ∷ []) configured
new_con_handler-Matches_example =
    new_con_handler-Matches (λ word. some (pos 257)) (λ file. true) (λ file. some empty_server)
      false 500 (λ i. client) (some ((107 ∷ []) ∷ (50 ∷ 53 ∷ 55 ∷ []) ∷ (97 ∷ []) ∷ [])) configured
      configured_run

abbrev queue : AddQueue
queue = record { msg_size = 64; messages = [] }

abbrev up : Startup
up = record {
  log_opens = true;
  bind_fails = false;
  listen_fails = false;
  listen_sock = 3;
  forked = in_parent 77;
  execl_fails = false;
}

abbrev before : Log
before = record { verbosity = 0; logfile = no_file; printed = [] }

-- The line on the opening of the file is in it, and was not printed.
abbrev after : Log
after = record { verbosity = 2; logfile = opened ((3, []) ∷ []); printed = [] }

main_run :
    main_start
      (λ text. pos 67536)
      ((port_opt, []) ∷ (in_opt, 113 ∷ []) ∷ [])
      defaults
      []
      []
      up
      (handler_from
        (λ word. some (pos 257))
        (λ file. true)
        (λ file. true)
        queue
        false
        500
        (λ i. client)
        (λ conf. some ((107 ∷ []) ∷ (50 ∷ 53 ∷ 55 ∷ []) ∷ (97 ∷ []) ∷ [])))
      before
    ≡ ok (some (3, 77, given, configured, after))
unfolding main_start set_options set_option set_port to_uint16 init_log log write_line init_socket
    run_mobile_server new_con_handler add_clients add_client new_client to_uint8 assign new_server
    new_table
main_run = refl
