-- ===== src/Service/Inputs.antt =====
-- The methods of `Input` (Service.cpp).
use tin_serwer.Base.{ℕ}
use tin_serwer.Float32.{Float32}
use tin_serwer.Service.{Input}

unfoldable pub set_val : Float32 → Input → Input
set_val new_val i = record i { common = record (i.common) { val = new_val } }

unfoldable pub set_timestamp : ℕ → Input → Input
set_timestamp time i = record i { timestamp = time }
