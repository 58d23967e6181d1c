-- ===== src/Tests/Running.antt =====
-- The whole server at a concrete run: a client of the configuration joins with its thermometer, the
-- clock walks, and the server is told to exit.
use tin_serwer.Base.{
  ℕ, ◌≡◌, refl, true, false, Bool, none, some, [], ◌∷◌, ok, pos, arith, ◌==◌, if◌then◌else◌, insert,
  find, assign,
}
use tin_serwer.Bytes.{
  c_string, read_byte, copy_from, from_bytes, write_byte, copy_to, alloc, to_bytes,
}
use tin_serwer.Socket.{write_till_done, write_loop}
use tin_serwer.Sesskey.{encrypt}
use tin_serwer.Packet.{
  body_of, create_from, chall_from_random, chall_resp_from_encrypted, key_from_encrypted,
  copy_packet, byte_1, get_name, get_unit, get_min, get_max, from_end, new_ack, two_bytes, pck_code,
  is_encrypted, c_str,
}
use tin_serwer.Packet.Send.{send_plain, send, send_encrypted, encrypted_len, send_parts}
use tin_serwer.Link.{send_on, next_packet}
use tin_serwer.QueuePacket.{new_q_desc, pak_code}
use tin_serwer.QueuePacket.Queue.{AddQueue, add_to_queue, add_message}
use tin_serwer.Service.{
  Service, service_factory, new_common, new_input, new_output, common_of, type_code,
}
use tin_serwer.ServiceTable.{new_table, reserve, candidate, resize, push, erase_first, get_service}
use tin_serwer.Client.Registering.{
  register_loop, admit, acknowledge, make_service, allocate, conclude, enlist, enlist_one,
  register_services,
}
use tin_serwer.Server.{new_server, reserve_id, dereference, add_service, send_message}
use tin_serwer.Keys.{new_sesskey, generate, verify_sign, sign, pubkey_encrypt}
use tin_serwer.Client.Sessions.{
  check_response, verify_client, answer_challenge, verify_server, send_key, register_with,
  initalize,
}
use tin_serwer.ConHandler.{
  ConHandler, clock_walk, walk, handle, registration, cast_id, identify, admit_client,
}
use tin_serwer.ConHandler.Configuring.{
  to_uint8, new_client, add_client, add_clients, new_con_handler,
}
use tin_serwer.ConHandler.Keeping.{IsWhole}
use tin_serwer.System.{connects, walks, Reaches, begins, goes_on}
use tin_serwer.System.Starting.{server_of}
use tin_serwer.System.Safety.{ReadsAndWrites, Reaches-IsWhole, Reaches-ReadsAndWrites}
use tin_serwer.Tests.Joining.{zeros, client}
use tin_serwer.Tests.Handling.{pubkey, crypto, joining, joined_link, joined}

abbrev queue : AddQueue
queue = record { msg_size = 64; messages = [] }

abbrev start : ConHandler
start = record {
  id_client_pairs = (1, some 0) ∷ [];
  addr_client_pairs = [];
  clients = λ i. if 0 == i then client else client;
  exit_flag = false;
  server = record {
    service_table = record { services = none ∷ []; free = []; reserved = [] };
    heap = λ a. none;
    send_msg_queue = queue;
  };
  next = 500;
}

-- The client 0 has joined, and is used or not.
abbrev entered : Bool → ConHandler
entered used = record joined {
  clients = λ i.
      if 0 == i
      then record { id = 1; used = used; inputs = (1, 500) ∷ []; outputs = [] }
      else (if 0 == i then client else client);
}

start_run :
    new_con_handler
      (λ word. some (pos 257))
      (λ file. true)
      (server_of (λ file. true) queue)
      false
      500
      (λ i. client)
      (some ((107 ∷ []) ∷ (50 ∷ 53 ∷ 55 ∷ []) ∷ (97 ∷ []) ∷ []))
    ≡ some start
unfolding new_con_handler add_clients add_client new_client to_uint8 assign new_server new_table
start_run = refl

enters_run : handle crypto (λ i. pubkey) 167772161 joining start ≡ ok (joined_link, entered true)
unfolding handle registration cast_id identify admit_client find assign initalize verify_client
    check_response verify_server answer_challenge send_key register_with new_sesskey generate
    verify_sign sign pubkey_encrypt body_of create_from chall_from_random chall_resp_from_encrypted
    key_from_encrypted copy_packet send_plain register_loop admit acknowledge make_service allocate
    reserve_id reserve candidate resize byte_1 get_name get_unit get_min get_max from_end c_string
    read_byte copy_from from_bytes service_factory new_common new_input new_output new_ack two_bytes
    pck_code write_byte copy_to alloc send_on send is_encrypted send_encrypted encrypted_len encrypt
    send_parts write_till_done write_loop to_bytes next_packet conclude enlist enlist_one
    dereference add_service push erase_first new_q_desc pak_code c_str send_message add_to_queue
    add_message common_of type_code insert register_services
enters_run = refl

abbrev walked : ConHandler
walked = record joined {
  clients = λ i.
      if 0 == i
      then record { id = 1; used = false; inputs = (1, 500) ∷ []; outputs = [] }
      else (entered true).clients i;
}

walks_run : clock_walk zeros (entered true) ≡ ok walked
unfolding clock_walk walk
walks_run = refl

walked-Reaches : Reaches start walked
walked-Reaches =
    goes_on
      (goes_on begins
        (connects crypto (λ i. pubkey) 167772161 joining joined_link (omega arith) enters_run))
      (walks zeros walks_run)

Reaches-IsWhole_example : IsWhole walked
Reaches-IsWhole_example =
    Reaches-IsWhole (λ word. some (pos 257)) (λ file. true) (λ file. true) queue false 500
      (λ i. client) (some ((107 ∷ []) ∷ (50 ∷ 53 ∷ 55 ∷ []) ∷ (97 ∷ []) ∷ [])) start walked
      start_run walked-Reaches

Reaches-ReadsAndWrites_example :
    ((num a : ℕ)
      → get_service num walked.server.service_table ≡ some a
      → (s : Service) × (dereference walked.server.heap (some a) ≡ ok s))
    × ((addr i : ℕ)
        → find addr walked.addr_client_pairs ≡ some i
        → ReadsAndWrites walked.server.heap (walked.clients i))
Reaches-ReadsAndWrites_example =
    Reaches-ReadsAndWrites (λ word. some (pos 257)) (λ file. true) (λ file. true) queue false 500
      (λ i. client) (some ((107 ∷ []) ∷ (50 ∷ 53 ∷ 55 ∷ []) ∷ (97 ∷ []) ∷ [])) start walked
      start_run walked-Reaches
