-- ===== src/Float32.antt =====
-- The `float` of the platform, IEEE 754 binary32, as its bit pattern. The source only copies and
-- compares floats.
use tin_serwer.Base.{ℕ, ◌+◌, ◌%◌, ◌≡◌, Bool, true, false, not, ◌&&◌, ltb, leb, if◌then◌else◌, arith}

abbrev pub Float32 : Type 0
Float32 = ℕ

-- The exponent and the fraction.
abbrev pub magnitude : Float32 → ℕ
magnitude x = x % 0x80000000

abbrev pub negative : Float32 → Bool
negative x = leb 0x80000000 x

-- The exponent is all ones and the fraction is not zero.
pub is_nan : Float32 → Bool
is_nan x = ltb 0x7f800000 (magnitude x)

-- `a < b`: false where one is a NaN, and a zero equals a negative zero.
unfoldable pub lt_float : Float32 → Float32 → Bool
unfolding is_nan
lt_float a b =
    (not (is_nan a) && not (is_nan b))
    && (if negative a
        then (if negative b
            then ltb (magnitude b) (magnitude a)
            else ltb 0 (magnitude a + magnitude b))
        else (if negative b then false else ltb (magnitude a) (magnitude b)))

pub lt_float_irrefl : (a : Float32) → lt_float a a ≡ false
unfolding lt_float
lt_float_irrefl a = ground arith

pub lt_float_asymm : (a b : Float32) → lt_float a b ≡ true → lt_float b a ≡ false
unfolding lt_float
lt_float_asymm a b h = ground arith

-- A comparison with a NaN is false.
pub lt_float_nan :
    (a b : Float32) → is_nan a ≡ true → (lt_float a b ≡ false) × (lt_float b a ≡ false)
unfolding lt_float
lt_float_nan a b h = ground arith
