-- ===== src/Tests/Opening.antt =====
-- Runs of the queues' constructors and destructors, of the loop of `main`, and of `clientMock`.
use tin_serwer.Base.{
  ℕ, ◌≡◌, refl, Bool, true, false, Option, none, some, List, [], ◌∷◌, ok, fault, indeterminate,
  Outcome, ◌>>=◌,
}
use tin_serwer.Bytes.{alloc, write_byte, copy_to, copy_from, to_bytes, read_byte}
use tin_serwer.Socket.{count, write_till_done, write_loop}
use tin_serwer.Sesskey.{encrypt}
use tin_serwer.Packet.{
  Packet, PckType, pck_code, chall_from_random, chall_resp_from_encrypted, create_from, copy_packet,
  new_desc, c_str, from_end, body_of, byte_1, new_id, two_bytes, new_eot, is_encrypted,
}
use tin_serwer.Packet.Send.{send_plain, send, send_encrypted, encrypted_len, send_parts}
use tin_serwer.QueuePacket.Queue.{add_message}
use tin_serwer.QueuePacket.Opening.{
  unset, asked, new_add_queue, new_read_queue, get_msg_size, get_messages_in_queue,
  delete_add_queue, delete_read_queue, add_text,
}
use tin_serwer.Link.{Link, next_packet, send_on}
use tin_serwer.Keys.Files.{new_pubkey, new_privkey, throws, constructed, unable_to_read}
use tin_serwer.Keys.{generate, sign, verify_sign, sesskey_from_packet, privkey_decrypt}
use tin_serwer.Main.Startup.{accept_loop}
use tin_serwer.ClientMock.{
  sign_answer, verify_against_server, accept_response, verify_against_client, printed_id,
  describe_services, describe_all, take_key, client_mock,
}
use tin_serwer.Tests.Joining.{zeros}
use tin_serwer.Tests.Handling.{crypto, pubkey, joining}

-- A queue that was opened without attributes cannot be destroyed.
short_run :
    ◌≡◌ {A = Outcome Bool}
      (elim (new_read_queue (47 ∷ []) unset (some 3) none) [
        | none ↦ ok false
        | some q ↦ delete_read_queue true true q
      ])
      (fault indeterminate)
unfolding new_read_queue get_msg_size delete_read_queue
short_run = refl

whole_run :
    ◌≡◌ {A = Outcome Bool}
      (elim (new_read_queue
        (47 ∷ [])
        (asked 128 10)
        (some 3)
        (some (record { msgsize = 128; maxmsg = 10; curmsgs = 0 }))) [
          | none ↦ ok false
          | some q ↦ delete_read_queue true true q
        ])
      (ok true)
unfolding new_read_queue get_msg_size delete_read_queue
whole_run = refl

unopened_run : new_add_queue (47 ∷ []) (asked 128 10) none ≡ none
unfolding new_add_queue
unopened_run = refl

unlinked_run : delete_add_queue true false ≡ false
unfolding delete_add_queue
unlinked_run = refl

counted_run :
    get_messages_in_queue (some (record { msgsize = 128; maxmsg = 10; curmsgs = 4 })) ≡ some 4
unfolding get_messages_in_queue
counted_run = refl

text_run :
    add_text (104 ∷ 105 ∷ []) (record { msg_size = 8; messages = [] })
    ≡ (count 0, record { msg_size = 8; messages = (104 ∷ 105 ∷ 0 ∷ []) ∷ [] })
unfolding add_text add_message
text_run = refl

-- A connection that comes after the flag was set is not handled.
accept_run :
    accept_loop ((false, some 4) ∷ (false, none) ∷ (false, some 5) ∷ (true, some 6) ∷ [])
    ≡ 4 ∷ 5 ∷ []
unfolding accept_loop
accept_run = refl

abbrev ack : ℕ → Option Packet
ack id = some (record { type = PckType.ack; buf = 1 ∷ id ∷ [] })

abbrev server_side : Link
server_side = record joining {
  coming =
      some (record { type = PckType.chall; buf = 4 ∷ alloc zeros 8 })
      ∷ some (record { type = PckType.chall_resp; buf = 5 ∷ alloc zeros 256 })
      ∷ some (record { type = PckType.key; buf = 6 ∷ alloc zeros 256 })
      ∷ ack 1
      ∷ ack 2
      ∷ ack 3
      ∷ none
      ∷ ack 4
      ∷ [];
}

-- The numbers of the services that the server acknowledged.
printed : Outcome (List ℕ)
printed = client_mock crypto true pubkey server_side >>= λ r. elim r.0 [
  | none ↦ ok []
  | some ids ↦ ok ids
]

mock_run : printed ≡ ok (1 ∷ 2 ∷ 3 ∷ 4 ∷ [])
unfolding printed client_mock verify_against_server sign_answer accept_response
    verify_against_client take_key describe_all describe_services printed_id new_id two_bytes
    new_eot new_desc generate sign verify_sign sesskey_from_packet privkey_decrypt body_of byte_1
    create_from chall_from_random chall_resp_from_encrypted copy_packet write_byte copy_to copy_from
    alloc to_bytes read_byte pck_code c_str from_end next_packet send_on send send_plain
    send_encrypted is_encrypted encrypted_len encrypt send_parts write_till_done write_loop
mock_run = refl

unreadable_run : new_privkey true true none ≡ throws unable_to_read
unfolding new_privkey
unreadable_run = refl

readable_run : new_pubkey true true (some pubkey) ≡ constructed pubkey
unfolding new_pubkey
readable_run = refl
