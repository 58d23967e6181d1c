-- ===== src/Service/Outputs.antt =====
-- The methods of `Output` (Service.cpp).
pub mod Setting
use tin_serwer.Base.{Bool, true, false, if◌then◌else◌}
use tin_serwer.Float32.{Float32, lt_float}
use tin_serwer.Service.{Output}

-- The value to send, and whether there is one to send.
unfoldable pub begin_setting : Output → Float32 × Bool × Output
begin_setting o = (o.expected, o.change, record o { in_progress = o.expected })

unfoldable pub finalize_setting : Output → Output
finalize_setting o =
    if o.change
    then record o { common = record (o.common) { val = o.in_progress }; change = false }
    else o

-- `newVal > max`, then `newVal < min`.
pub clamp : Float32 → Float32 → Float32 → Float32
clamp min max new_val =
    if lt_float max new_val then max else if lt_float new_val min then min else new_val

pub set_val : Float32 → Output → Output
unfolding clamp
set_val new_val o = record o { expected = clamp o.min o.max new_val; change = true }
