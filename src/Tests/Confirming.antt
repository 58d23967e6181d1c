-- ===== src/Tests/Confirming.antt =====
-- `setValues` of client.cpp over a connection that is broken for writing: a SET that could not be
-- sent counts as confirmed by the next ACK.
use tin_serwer.Base.{◌≡◌, refl, true, false, none, some, [], ◌∷◌, ok, ◌==◌, if◌then◌else◌}
use tin_serwer.Bytes.{alloc, write_byte, copy_to, to_bytes}
use tin_serwer.Socket.{Socket, write_till_done, write_loop}
use tin_serwer.Sesskey.{Evp, encrypt}
use tin_serwer.Packet.{PckType, pck_code, is_encrypted, new_set, new_eot}
use tin_serwer.Packet.Send.{encrypted_len, send_parts, send_encrypted, send}
use tin_serwer.Service.{Output, ServiceType, output}
use tin_serwer.Service.Outputs.{begin_setting, finalize_setting}
use tin_serwer.Link.{Link, next_packet, send_on}
use tin_serwer.Client.{Heap, update}
use tin_serwer.Client.Setting.{output_at, finalize_at, settle, set_one, set_values}
use tin_serwer.Client.Settling.{SettleAll, set_values-SettleAll}
use tin_serwer.Tests.Queue.{junk}

abbrev evp : Evp
evp = record {
  encrypt_init = λ key iv. false;
  encrypt_update = λ key iv src. none;
  encrypt_final = λ key iv src. none;
  decrypt_init = λ key iv. false;
  decrypt_update = λ key iv src. none;
  decrypt_final = λ key iv src. none;
}

abbrev lamp : Output
lamp = record {
  common = record {
    id = 1;
    type = ServiceType.analog_out;
    name = [];
    unit = [];
    min = 0;
    max = 0x40400000;
    val = 0;
  };
  expected = 0x3f800000;
  in_progress = 0;
  change = true;
}

abbrev begun : Output
begun = record lamp { in_progress = 0x3f800000 }

abbrev confirmed : Output
confirmed = record begun { common = record (begun.common) { val = 0x3f800000 }; change = false }

abbrev heap : Heap
heap a = if a == 71 then some (output lamp) else none

abbrev final : Heap
final = update (update heap 71 (output begun)) 71 (output confirmed)

abbrev broken : Socket
broken = record { incoming = []; outgoing = []; reads = []; writes = [] }

abbrev link : Link
link = record {
  curr = none;
  coming = some (record { type = PckType.ack; buf = 1 ∷ 1 ∷ [] }) ∷ [];
  sends = 0;
  soc = broken;
}

abbrev link_after : Link
link_after = record {
  curr = some (record { type = PckType.ack; buf = 1 ∷ 1 ∷ [] });
  coming = [];
  sends = 2;
  soc = broken;
}

set_values_run :
    set_values evp (λ _. none) junk (some []) (71 ∷ []) heap link ≡ ok (true, final, link_after)
unfolding set_values set_one settle finalize_at output_at begin_setting finalize_setting new_set
    new_eot pck_code write_byte alloc to_bytes copy_to send_on next_packet send send_encrypted
    is_encrypted encrypted_len encrypt send_parts write_till_done write_loop
set_values_run = refl

set_values-SettleAll_example : SettleAll heap final
set_values-SettleAll_example =
    set_values-SettleAll evp (λ _. none) junk (some []) (71 ∷ []) heap final link link_after true
      set_values_run
