-- ===== src/Negotiate/Values.antt =====
-- The helpers of iSCSISession.c that combine an offer with an answer.
use i_scsiinitiator.Base.{
  Str, ℕ, ◌≤◌, Bool, true, false, ◌||◌, ◌&&◌, ltb, if◌then◌else◌, ◌≡◌, arith,
}
use i_scsiinitiator.Platform.{Platform}
use i_scsiinitiator.Keys.{value_yes}

-- iSCSILVGetEqual
unfoldable pub get_equal : Platform → Str → Str → Bool
get_equal sys cmd rsp = sys.compare_ci cmd rsp

-- iSCSILVGetAnd
unfoldable pub get_and : Platform → Str → Str → Bool
get_and sys cmd rsp = sys.compare_ci cmd value_yes && sys.compare_ci rsp value_yes

-- iSCSILVGetOr
unfoldable pub get_or : Platform → Str → Str → Bool
get_or sys cmd rsp = if sys.compare_ci cmd value_yes then true else sys.compare_ci rsp value_yes

-- iSCSILVGetMin
unfoldable pub get_min : Platform → Str → Str → ℕ
get_min sys cmd rsp =
    if ltb (sys.int_value cmd) (sys.int_value rsp) then sys.int_value cmd else sys.int_value rsp

-- iSCSILVGetMax
unfoldable pub get_max : Platform → Str → Str → ℕ
get_max sys cmd rsp =
    if ltb (sys.int_value rsp) (sys.int_value cmd) then sys.int_value cmd else sys.int_value rsp

-- iSCSILVRangeInvalid
unfoldable pub range_invalid : ℕ → ℕ → ℕ → Bool
range_invalid value low high = ltb value low || ltb high value

pub range_invalid-false :
    (value low high : ℕ) → range_invalid value low high ≡ false → (low ≤ value) × (value ≤ high)
unfolding range_invalid
range_invalid-false value low high h = ground arith

pub range_invalid-true :
    (value low high : ℕ) → low ≤ value → value ≤ high → range_invalid value low high ≡ false
unfolding range_invalid
range_invalid-true value low high h i = ground arith

pub get_min-le :
    (sys : Platform) (cmd rsp : Str)
    → (get_min sys cmd rsp ≤ sys.int_value cmd) × (get_min sys cmd rsp ≤ sys.int_value rsp)
unfolding get_min
get_min-le sys cmd rsp = ground arith
