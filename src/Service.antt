-- ===== src/Service.antt =====
-- Service.h and Service.cpp: the services of a client's devices. An input keeps the last
-- measurement; an output keeps the value that was asked for, the one that is being set, and the
-- one that the device has confirmed. Each method holds the service's mutex, so it is one step.
pub mod Inputs
pub mod Outputs
pub mod Getters
use tin_serwer.Base.{ℕ, Bool, true, false, Option, none, some, List, ◌==◌, ◌||◌, if◌then◌else◌}
use tin_serwer.Float32.{Float32, lt_float}

-- `Service::serviceType`
pub data ServiceType : Type 0 where
  analog_in analog_out digital_in digital_out : ServiceType

unfoldable pub type_code : ServiceType → ℕ
type_code ServiceType.analog_in = 0x00
type_code ServiceType.analog_out = 0x01
type_code ServiceType.digital_in = 0x02
type_code ServiceType.digital_out = 0x03

-- The members of the base class.
pub record Common : Type 0 where
  pub id : ℕ
  pub type : ServiceType
  pub name : List ℕ
  pub unit : List ℕ
  pub min : Float32
  pub max : Float32
  pub val : Float32

pub record Input : Type 0 where
  pub common : Common
  pub open common use *
  pub timestamp : ℕ

pub record Output : Type 0 where
  pub common : Common
  pub open common use *
  pub expected : Float32
  pub in_progress : Float32
  pub change : Bool

-- What a `Service *` points at: `dynamic_cast` asks which of the two it is.
pub data Service : Type 0 where
  input : Input → Service
  output : Output → Service

unfoldable pub common_of : Service → Common
common_of (input i) = i.common
common_of (output o) = o.common

-- The constructor of the base class: the value starts at the minimum.
unfoldable pub new_common : ℕ → ServiceType → List ℕ → List ℕ → Float32 → Float32 → Common
new_common id type name unit min max = record {
  id = id;
  type = type;
  name = name;
  unit = unit;
  min = min;
  max = max;
  val = min;
}

unfoldable pub new_input : Common → Service
new_input c = input (record { common = c; timestamp = 0 })

-- The constructor leaves `expected` and `inProgress` indeterminate: they are the values that the
-- memory holds.
unfoldable pub new_output : Float32 → Float32 → Common → Service
new_output expected in_progress c =
    output (record { common = c; expected = expected; in_progress = in_progress; change = false })

unfoldable pub service_factory :
    Float32 → Float32 → ℕ → ℕ → List ℕ → List ℕ → Float32 → Float32 → Option Service
unfolding new_common new_input new_output
service_factory junk junk' id srv_type name unit min max =
    if srv_type == 0x00
    then some (new_input (new_common id ServiceType.analog_in name unit min max))
    else if srv_type == 0x02
    then some (new_input (new_common id ServiceType.digital_in name unit min max))
    else if srv_type == 0x01
    then some (new_output junk junk' (new_common id ServiceType.analog_out name unit min max))
    else if srv_type == 0x03
    then some (new_output junk junk' (new_common id ServiceType.digital_out name unit min max))
    else none
