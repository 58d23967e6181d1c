-- ===== src/Tests/Handling.antt =====
-- ConHandler.cpp and the verification of client.cpp at concrete inputs: one client is known, and
-- its thermometer. The keys accept every signature.
use tin_serwer.Base.{
  ℕ, ◌≡◌, ◌≢◌, ◌⊎◌, ◌↔◌, refl, true, false, Bool, none, some, List, [], ◌∷◌, ◌++◌, ok, ◌==◌,
  if◌then◌else◌, insert, find, erase, assign,
}
use tin_serwer.Bytes.{
  c_string, read_byte, copy_from, from_bytes, write_byte, copy_to, alloc, to_bytes,
}
use tin_serwer.Socket.{moves, write_till_done, write_loop}
use tin_serwer.Sesskey.{encrypt}
use tin_serwer.Packet.{
  Packet, PckType, body_of, create_from, chall_from_random, chall_resp_from_encrypted,
  key_from_encrypted, copy_packet, byte_1, get_name, get_unit, get_min, get_max, from_end, new_ack,
  two_bytes, pck_code, is_encrypted, c_str,
}
use tin_serwer.Packet.Send.{send_plain, send, send_encrypted, encrypted_len, send_parts}
use tin_serwer.Link.{Link, send_on, next_packet}
use tin_serwer.QueuePacket.{new_q_desc, pak_code}
use tin_serwer.QueuePacket.Queue.{add_to_queue, add_message}
use tin_serwer.Service.{service_factory, new_common, new_input, new_output, common_of, type_code}
use tin_serwer.ServiceTable.{ServiceTable, reserve, candidate, resize, push, erase_first}
use tin_serwer.Client.Registering.{
  World, register_loop, admit, acknowledge, make_service, allocate, conclude, enlist, enlist_one,
  register_services,
}
use tin_serwer.Server.{Server, reserve_id, dereference, add_service, send_message}
use tin_serwer.Keys.{new_sesskey, Pubkey, generate, verify_sign, sign, pubkey_encrypt}
use tin_serwer.Client.Sessions.{
  Crypto, check_response, verify_client, answer_challenge, verify_server, send_key, register_with,
  initalize,
}
use tin_serwer.Client.Verifying.{Verified, initalize-Verified}
use tin_serwer.ConHandler.Leaving.{IsBare, unregister_client-IsBare}
use tin_serwer.ConHandler.{
  unregister_client, address_of, ConHandler, clock_walk, walk, clients_registered, handle,
  registration, cast_id, identify, admit_client,
}
use tin_serwer.ConHandler.Walking.{AllUsedOnce, EndsOrFaults, clock_walk_cases, clock_walk-twice}
use tin_serwer.ConHandler.Admission.{Unchanged, Admitted, handle-Admitted}
use tin_serwer.Tests.Joining.{evp, zeros, thermometer, eot, client, sensor}

abbrev table : ServiceTable ℕ
table = record { services = none ∷ []; free = []; reserved = [] }

abbrev pub empty_server : Server
empty_server = record {
  service_table = table;
  heap = λ a. none;
  send_msg_queue = record { msg_size = 64; messages = [] };
}

-- The client 0 is used and has an address.
abbrev pub busy : ConHandler
busy = record {
  id_client_pairs = (1, some 0) ∷ [];
  addr_client_pairs = (167772161, 0) ∷ [];
  clients = λ i. record client { used = true };
  exit_flag = false;
  server = empty_server;
  next = 500;
}

abbrev idle : ConHandler
idle = record busy { clients = λ i. if 0 == i then client else record client { used = true } }

pub busy-AllUsedOnce : AllUsedOnce busy.clients busy.addr_client_pairs
busy-AllUsedOnce = (refl, refl, tt)

clock_walk_cases_example : EndsOrFaults busy (clock_walk zeros busy)
clock_walk_cases_example = clock_walk_cases zeros busy

walk_run : clock_walk zeros busy ≡ ok idle
unfolding clock_walk walk
walk_run = refl

clock_walk-twice_example : clock_walk zeros idle ≢ ok idle
unfolding clients_registered
clock_walk-twice_example = clock_walk-twice zeros busy idle idle refl walk_run

abbrev pub pubkey : Pubkey
pubkey = record {
  rsa_public_decrypt = λ bytes. none;
  rsa_public_encrypt = λ bytes. some (alloc zeros 256);
  rsa_verify = λ digest signature. true;
}

abbrev pub crypto : Crypto
crypto = record {
  evp = evp;
  ivs = λ i. none;
  g = zeros;
  g' = zeros;
  junk = 0;
  junk' = 0;
  rand_chall = some (alloc zeros 8);
  rand_key = some (alloc zeros 16);
  sha1 = λ bytes. [];
  privkey = record {
    rsa_private_decrypt = λ bytes. none;
    rsa_private_encrypt = λ bytes. none;
    rsa_sign = λ bytes. some (alloc zeros 256);
  };
  time_size = 4;
}

abbrev response : Packet
response = record { type = PckType.chall_resp; buf = 5 ∷ alloc zeros 256 }

-- The bytes of a message in plain text.
abbrev sent_chall : List ℕ
sent_chall = 9 ∷ 0 ∷ 0 ∷ 0 ∷ 0 ∷ 4 ∷ alloc zeros 8

abbrev challenged : World
challenged = record {
  server = empty_server;
  next = 500;
  link = record {
    curr = none;
    coming = some response ∷ [];
    sends = 0;
    soc = record {
      incoming = [];
      outgoing = [];
      reads = [];
      writes = moves 300 ∷ moves 300 ∷ moves 300 ∷ [];
    };
  };
}

abbrev stopped_after : World
stopped_after = record challenged {
  link = record {
    curr = none;
    coming = [];
    sends = 1;
    soc = record { incoming = []; outgoing = sent_chall; reads = []; writes = [] };
  };
}

initalize_run : initalize crypto pubkey client challenged ≡ ok (false, client, stopped_after)
unfolding initalize verify_client check_response verify_server answer_challenge send_key
    register_with generate verify_sign sign pubkey_encrypt body_of create_from chall_from_random
    chall_resp_from_encrypted key_from_encrypted copy_packet send_plain register_loop admit
    acknowledge make_service allocate reserve_id reserve candidate resize byte_1 get_name get_unit
    get_min get_max from_end c_string read_byte copy_from from_bytes service_factory new_common
    new_input new_output new_ack two_bytes pck_code write_byte copy_to alloc send_on send
    is_encrypted send_encrypted encrypted_len encrypt send_parts write_till_done write_loop to_bytes
    next_packet conclude enlist enlist_one dereference add_service push erase_first new_q_desc
    pak_code c_str send_message add_to_queue add_message common_of type_code insert
    register_services
initalize_run = refl

initalize-Verified_example :
    Verified crypto pubkey challenged.link
    ⊎ (◌≡◌ {A = Bool} false false
        × (client ≡ client)
        × (stopped_after.server ≡ challenged.server)
        × (stopped_after.next ≡ challenged.next))
initalize-Verified_example =
    initalize-Verified crypto pubkey client client challenged stopped_after false initalize_run

-- No address is known yet.
abbrev empty_handler : ConHandler
empty_handler = record {
  id_client_pairs = (1, some 0) ∷ [];
  addr_client_pairs = [];
  clients = λ i. client;
  exit_flag = false;
  server = empty_server;
  next = 500;
}

abbrev pub joining : Link
joining = record {
  curr = none;
  coming =
      some (record { type = PckType.id; buf = 11 ∷ 1 ∷ [] })
      ∷ some response
      ∷ some (record { type = PckType.chall; buf = 4 ∷ alloc zeros 8 })
      ∷ some thermometer
      ∷ some eot
      ∷ [];
  sends = 0;
  soc = record {
    incoming = [];
    outgoing = [];
    reads = [];
    writes =
        moves 300
        ∷ moves 300
        ∷ moves 300
        ∷ moves 300
        ∷ moves 300
        ∷ moves 300
        ∷ moves 300
        ∷ moves 300
        ∷ moves 300
        ∷ moves 300
        ∷ moves 300
        ∷ moves 300
        ∷ [];
  };
}

abbrev pub joined_link : Link
joined_link = record {
  curr = some eot;
  coming = [];
  sends = 4;
  soc = record {
    incoming = [];
    outgoing =
        sent_chall
        ++ ((1 ∷ 1 ∷ 0 ∷ 0 ∷ 0 ∷ 5 ∷ alloc zeros 256)
            ++ ((1 ∷ 1 ∷ 0 ∷ 0 ∷ 0 ∷ 6 ∷ alloc zeros 256) ++ (2 ∷ 0 ∷ 0 ∷ 0 ∷ 1 ∷ alloc zeros 32)));
    reads = [];
    writes = [];
  };
}

abbrev pub joined : ConHandler
joined = record {
  id_client_pairs = (1, some 0) ∷ [];
  addr_client_pairs = (167772161, 0) ∷ [];
  clients = λ i.
      if 0 == i
      then record { id = 1; used = true; inputs = (1, 500) ∷ []; outputs = [] }
      else client;
  exit_flag = false;
  server = record {
    service_table = record { services = none ∷ some 500 ∷ []; free = []; reserved = [] };
    heap = λ a. if 500 == a then some sensor else none;
    send_msg_queue = record {
      msg_size = 64;
      messages =
          (20 ∷ 1 ∷ 0 ∷ 116 ∷ 0 ∷ 67 ∷ 0 ∷ 0 ∷ 0 ∷ 0 ∷ 0 ∷ 0 ∷ 0 ∷ 0 ∷ 0 ∷ 200 ∷ 66 ∷ []) ∷ [];
    };
  };
  next = 501;
}

handle_run : handle crypto (λ i. pubkey) 167772161 joining empty_handler ≡ ok (joined_link, joined)
unfolding handle registration cast_id identify admit_client find assign initalize verify_client
    check_response verify_server answer_challenge send_key register_with new_sesskey generate
    verify_sign sign pubkey_encrypt body_of create_from chall_from_random chall_resp_from_encrypted
    key_from_encrypted copy_packet send_plain register_loop admit acknowledge make_service allocate
    reserve_id reserve candidate resize byte_1 get_name get_unit get_min get_max from_end c_string
    read_byte copy_from from_bytes service_factory new_common new_input new_output new_ack two_bytes
    pck_code write_byte copy_to alloc send_on send is_encrypted send_encrypted encrypted_len encrypt
    send_parts write_till_done write_loop to_bytes next_packet conclude enlist enlist_one
    dereference add_service push erase_first new_q_desc pak_code c_str send_message add_to_queue
    add_message common_of type_code insert register_services
handle_run = refl

handle-Admitted_example :
    Unchanged empty_handler joined
    ⊎ Admitted crypto (λ i. pubkey) 167772161 (next_packet joining) empty_handler joined
unfolding find
handle-Admitted_example =
    handle-Admitted crypto (λ i. pubkey) 167772161 joining joined_link empty_handler joined refl
      handle_run

unregister_client-IsBare_example :
    (unregister_client zeros 1 busy ≡ ok (true, record busy { addr_client_pairs = [] })) ↔ (
      IsBare (busy.clients 0)
      × (◌≡◌ {A = Bool × ConHandler}
          (true, record busy { addr_client_pairs = [] })
          (true, record busy { addr_client_pairs = erase 167772161 busy.addr_client_pairs })))
unfolding find address_of
unregister_client-IsBare_example =
    unregister_client-IsBare zeros 1 0 167772161 busy (true, record busy { addr_client_pairs = [] })
      refl refl
