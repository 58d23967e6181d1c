-- ===== src/Tests/Joining.antt =====
-- `registerServices` of client.cpp at concrete inputs: a client with one thermometer.
use tin_serwer.Base.{
  ◌≡◌, refl, true, false, none, some, [], ◌∷◌, ok, ◌==◌, if◌then◌else◌, arith, insert,
}
use tin_serwer.Bytes.{
  Garbage, c_string, read_byte, copy_from, from_bytes, write_byte, copy_to, alloc, to_bytes,
}
use tin_serwer.Socket.{moves, write_till_done, write_loop}
use tin_serwer.Sesskey.{Evp, encrypt}
use tin_serwer.Packet.{
  Packet, PckType, byte_1, get_name, get_unit, get_min, get_max, from_end, new_ack, two_bytes,
  pck_code, is_encrypted, c_str,
}
use tin_serwer.Packet.Send.{send, send_encrypted, encrypted_len, send_parts}
use tin_serwer.Link.{Link, send_on, next_packet}
use tin_serwer.QueuePacket.{new_q_desc, pak_code}
use tin_serwer.QueuePacket.Queue.{add_to_queue, add_message}
use tin_serwer.Service.{
  Service, ServiceType, input, service_factory, new_common, new_input, new_output, common_of,
  type_code,
}
use tin_serwer.ServiceTable.{new_table, reserve, candidate, resize, push, erase_first}
use tin_serwer.ServiceTable.Invariant.{new_table-IsValid}
use tin_serwer.Server.{reserve_id, dereference, add_service, send_message}
use tin_serwer.Client.Registering.{
  Client, World, complete, register_loop, admit, acknowledge, make_service, allocate, conclude,
  enlist, enlist_one, register_services,
}
use tin_serwer.Client.Registration.{Concluded, register_services-Concluded}

abbrev pub evp : Evp
evp = record {
  encrypt_init = λ key iv. false;
  encrypt_update = λ key iv src. none;
  encrypt_final = λ key iv src. none;
  decrypt_init = λ key iv. false;
  decrypt_update = λ key iv src. none;
  decrypt_final = λ key iv src. none;
}

abbrev pub zeros : Garbage
zeros = λ _. 0

-- A DESC of the analog input "t" in "C", from 0 to 100.
abbrev pub thermometer : Packet
thermometer = record {
  type = PckType.desc;
  buf = 7 ∷ 0 ∷ 116 ∷ 0 ∷ 67 ∷ 0 ∷ 0 ∷ 0 ∷ 0 ∷ 0 ∷ 0 ∷ 0 ∷ 0 ∷ 0 ∷ 200 ∷ 66 ∷ [];
}

abbrev pub eot : Packet
eot = record { type = PckType.eot; buf = 3 ∷ [] }

abbrev world : World
world = record {
  server = record {
    service_table = record { services = none ∷ []; free = []; reserved = [] };
    heap = λ a. none;
    send_msg_queue = record { msg_size = 64; messages = [] };
  };
  next = 500;
  link = record {
    curr = none;
    coming = some thermometer ∷ some eot ∷ [];
    sends = 0;
    soc = record {
      incoming = [];
      outgoing = [];
      reads = [];
      writes = moves 100 ∷ moves 100 ∷ moves 100 ∷ [];
    };
  };
}

abbrev pub client : Client
client = record { id = 1; used = false; inputs = []; outputs = [] }

-- The service that is made of the description.
abbrev pub sensor : Service
sensor = input (record {
  common = record {
    id = 1;
    type = ServiceType.analog_in;
    name = 116 ∷ [];
    unit = 67 ∷ [];
    min = 0;
    max = 0x42c80000;
    val = 0;
  };
  timestamp = 0;
})

-- The link after the ACK and the EOT. What is sent of the ACK is what the buffer holds, as the
-- cipher fails.
abbrev link_after : Link
link_after = record {
  curr = some eot;
  coming = [];
  sends = 1;
  soc = record {
    incoming = [];
    outgoing = 2 ∷ 0 ∷ 0 ∷ 0 ∷ 1 ∷ alloc zeros 32;
    reads = [];
    writes = [];
  };
}

abbrev described : World
described = record {
  server = record {
    service_table = record { services = none ∷ none ∷ []; free = []; reserved = 1 ∷ [] };
    heap = λ a. if 500 == a then some sensor else none;
    send_msg_queue = record { msg_size = 64; messages = [] };
  };
  next = 501;
  link = link_after;
}

abbrev joined : World
joined = record {
  server = record {
    service_table = record { services = none ∷ some 500 ∷ []; free = []; reserved = [] };
    heap = λ a. if 500 == a then some sensor else none;
    send_msg_queue = record {
      msg_size = 64;
      messages =
          (20 ∷ 1 ∷ 0 ∷ 116 ∷ 0 ∷ 67 ∷ 0 ∷ 0 ∷ 0 ∷ 0 ∷ 0 ∷ 0 ∷ 0 ∷ 0 ∷ 0 ∷ 200 ∷ 66 ∷ []) ∷ [];
    };
  };
  next = 501;
  link = link_after;
}

abbrev member : Client
member = record { id = 1; used = false; inputs = (1, 500) ∷ []; outputs = [] }

register_loop_run :
    register_loop evp (λ _. none) zeros zeros 0 0 [] world.link.coming [] world
    ≡ ok (complete, some 500 ∷ [], described)
unfolding register_loop admit acknowledge make_service allocate reserve_id reserve candidate resize
    byte_1 get_name get_unit get_min get_max from_end c_string read_byte copy_from from_bytes
    service_factory new_common new_input new_output new_ack two_bytes pck_code write_byte copy_to
    alloc send_on send is_encrypted send_encrypted encrypted_len encrypt send_parts write_till_done
    write_loop to_bytes next_packet conclude enlist enlist_one dereference add_service push
    erase_first new_q_desc pak_code c_str send_message add_to_queue add_message common_of type_code
    insert register_services
register_loop_run = refl

register_services_run :
    register_services evp (λ _. none) zeros zeros 0 0 [] client world ≡ ok (true, member, joined)
unfolding register_loop admit acknowledge make_service allocate reserve_id reserve candidate resize
    byte_1 get_name get_unit get_min get_max from_end c_string read_byte copy_from from_bytes
    service_factory new_common new_input new_output new_ack two_bytes pck_code write_byte copy_to
    alloc send_on send is_encrypted send_encrypted encrypted_len encrypt send_parts write_till_done
    write_loop to_bytes next_packet conclude enlist enlist_one dereference add_service push
    erase_first new_q_desc pak_code c_str send_message add_to_queue add_message common_of type_code
    insert register_services
register_services_run = refl

register_services-Concluded_example :
    Concluded complete (some 500 ∷ []) client world true member joined
unfolding new_table
register_services-Concluded_example =
    register_services-Concluded evp (λ _. none) zeros zeros 0 0 [] client member world described
      joined complete (some 500 ∷ []) true new_table-IsValid (omega arith) (λ a le. refl)
      register_loop_run register_services_run
