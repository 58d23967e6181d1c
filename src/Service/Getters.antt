-- ===== src/Service/Getters.antt =====
-- The getters of Service.cpp. Those that lock the mutex are one step.
use tin_serwer.Base.{ℕ, List}
use tin_serwer.Float32.{Float32}
use tin_serwer.Service.{Service, Input, common_of, type_code}

abbrev pub get_id : Service → ℕ
get_id s = (common_of s).id

abbrev pub get_name : Service → List ℕ
get_name s = (common_of s).name

abbrev pub get_unit : Service → List ℕ
get_unit s = (common_of s).unit

abbrev pub get_val : Service → Float32
get_val s = (common_of s).val

abbrev pub get_min : Service → Float32
get_min s = (common_of s).min

abbrev pub get_max : Service → Float32
get_max s = (common_of s).max

abbrev pub get_type : Service → ℕ
get_type s = type_code (common_of s).type

abbrev pub get_timestamp : Input → ℕ
get_timestamp i = i.timestamp
