-- ===== src/Tests/Outputs.antt =====
-- Service.cpp at concrete inputs. 0x3f800000 is 1.0, 0x40000000 is 2.0, 0x40400000 is 3.0, and
-- 0x7fc00000 is a NaN.
use tin_serwer.Base.{◌≡◌, refl, ◌⊎◌, true, false, List, [], ◌∷◌}
use tin_serwer.Float32.{lt_float}
use tin_serwer.Service.{Output, ServiceType, service_factory}
use tin_serwer.Service.Outputs.{begin_setting, finalize_setting, clamp, set_val}
use tin_serwer.Service.Outputs.Setting.{
  Event, request, begins, last_request, clamp_bounds, set_val_nan, begin_setting-run, request_lost,
  run,
}

abbrev lamp : Output
lamp = record {
  common = record {
    id = 4;
    type = ServiceType.analog_out;
    name = [];
    unit = [];
    min = 0x3f800000;
    max = 0x40000000;
    val = 0x3f800000;
  };
  expected = 77;
  in_progress = 78;
  change = false;
}

abbrev events : List Event
events = begins ∷ request 0x40400000 ∷ begins ∷ []

clamp_bounds_example :
    (lt_float 0x40000000 (clamp 0x3f800000 0x40000000 0x40400000) ≡ false)
    × (lt_float (clamp 0x3f800000 0x40000000 0x40400000) 0x3f800000 ≡ false)
    × ((clamp 0x3f800000 0x40000000 0x40400000 ≡ 0x40400000)
        ⊎ (lt_float 0x40000000 0x40400000 ≡ true)
        ⊎ (lt_float 0x40400000 0x3f800000 ≡ true))
unfolding lt_float
clamp_bounds_example = clamp_bounds 0x3f800000 0x40000000 0x40400000 refl

set_val_nan_example :
    ((set_val 0x7fc00000 lamp).expected ≡ 0x7fc00000) × ((set_val 0x7fc00000 lamp).change ≡ true)
unfolding lt_float
set_val_nan_example = set_val_nan lamp 0x7fc00000 refl

begin_setting-run_example :
    (begin_setting (run events lamp)).0 ≡ last_request 0x3f800000 0x40000000 0 events
unfolding service_factory run begin_setting
begin_setting-run_example =
    begin_setting-run events 77 78 0 4 0x01 [] [] 0x3f800000 0x40000000 lamp refl refl

request_lost_example :
    let (sent, _, begun) = begin_setting lamp in
    let done = finalize_setting (set_val 0x40400000 begun) in
    (done.val ≡ sent)
    × (done.expected ≡ clamp lamp.min lamp.max 0x40400000)
    × ((begin_setting done).1 ≡ false)
request_lost_example = request_lost lamp 0x40400000
