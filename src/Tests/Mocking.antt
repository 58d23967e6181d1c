-- ===== src/Tests/Mocking.antt =====
-- The client of ClientMock.h and the queues at concrete inputs.
use tin_serwer.Base.{◌≡◌, refl, true, not, none, some, [], ◌∷◌, ok, ◌>>=◌, arith}
use tin_serwer.Bytes.{alloc, write_byte, copy_to, copy_from, to_bytes}
use tin_serwer.Socket.{below_one, count}
use tin_serwer.Packet.{
  Packet, PckType, pck_code, chall_from_random, create_from, copy_packet, new_desc, c_str, from_end,
}
use tin_serwer.QueuePacket.Queue.{packet_from_queue}
use tin_serwer.QueuePacket.Fitting.{EndsOrStrays, packet_from_queue-EndsOrStrays}
use tin_serwer.Link.{Link, stopped, send_on}
use tin_serwer.Service.{ServiceType, input}
use tin_serwer.Client.Registering.{make_service}
use tin_serwer.Client.Sessions.{check_response}
use tin_serwer.ClientMock.{verify_against_server}
use tin_serwer.ClientMock.Handshake.{verify_against_server-check_response, make_service-new_desc}
use tin_serwer.Tests.Joining.{evp, zeros, thermometer}
use tin_serwer.Tests.Handling.{crypto, pubkey, joining}

abbrev chall : Packet
chall = record { type = PckType.chall; buf = 4 ∷ alloc zeros 8 }

abbrev asked : Link
asked = record joining { coming = some chall ∷ [] }

chall_run : chall_from_random zeros (alloc zeros 8) ≡ ok chall
unfolding chall_from_random create_from copy_packet write_byte copy_to copy_from alloc pck_code
chall_run = refl

verify_against_server-check_response_example :
    (resp : Packet) × (verify_against_server crypto asked ≡ (
      send_on evp (λ i. none) zeros resp none (stopped (some chall) [] asked) >>= λ sent.
      ok (not (below_one sent.0), sent.1)))
    × (check_response crypto pubkey (alloc zeros 8) (some resp) ≡ ok true)
unfolding alloc
verify_against_server-check_response_example =
    verify_against_server-check_response crypto crypto pubkey (alloc zeros 8) (alloc zeros 256)
      chall asked [] refl refl refl refl refl chall_run refl

thermometer_run : new_desc zeros zeros (116 ∷ []) (67 ∷ []) 0 0x42c80000 ≡ ok thermometer
unfolding new_desc write_byte copy_to copy_from alloc pck_code c_str from_end to_bytes
thermometer_run = refl

make_service-new_desc_example :
    make_service evp (λ i. none) zeros zeros 0 0 [] 1 thermometer
    ≡ ok (
        some (
          input (record {
            common = record {
              id = 1;
              type = ServiceType.analog_in;
              name = 116 ∷ [];
              unit = 67 ∷ [];
              min = 0;
              max = 0x42c80000;
              val = 0;
            };
            timestamp = 0;
          })))
make_service-new_desc_example =
    make_service-new_desc evp (λ i. none) zeros zeros 0 0 [] 1 (116 ∷ []) (67 ∷ []) 0 0x42c80000
      thermometer (omega arith) (λ e. omega (arith, e), tt) (λ e. omega (arith, e), tt)
      (omega arith) (omega arith) thermometer_run

packet_from_queue-EndsOrStrays_example :
    EndsOrStrays (packet_from_queue zeros zeros (count 2) (13 ∷ 7 ∷ []))
packet_from_queue-EndsOrStrays_example =
    packet_from_queue-EndsOrStrays zeros zeros (count 2) (13 ∷ 7 ∷ []) (omega arith)
