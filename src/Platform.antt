-- ===== src/Platform.antt =====
-- What the daemon takes from the operating system: string functions of CoreFoundation and `malloc`.
-- None of it is in the repository, so it is a parameter, with what the daemon relies on as laws.
pub mod Ascii
use i_scsiinitiator.Base.{Str, ℕ, ◌<◌, ◌^◌, Bool, true, Option, none, some, List, ◌≡◌, length}

pub record Platform : Type 0 where
  -- CFStringCompare with kCFCompareCaseInsensitive gives kCFCompareEqualTo
  pub compare_ci : Str → Str → Bool
  -- CFStringGetIntValue, as the 32-bit pattern that a UInt32 variable receives
  pub int_value : Str → ℕ
  -- CFStringCreateWithFormat with "%u"
  pub format_u : ℕ → Str
  -- CFStringFind(text, what, kCFCompareCaseInsensitive) finds `what`
  pub find_ci : Str → Str → Bool
  -- malloc, with the bytes that the block happens to hold
  pub malloc : ℕ → Option (List ℕ)
  -- CC_MD5 of a message
  pub md5 : List ℕ → List ℕ
  -- what the compiler makes of (unsigned int)(2e24-1), which C leaves undefined
  pub length_max : ℕ
  pub compare_ci_self : (s : Str) → compare_ci s s ≡ true
  pub int_value-lt : (s : Str) → int_value s < 2 ^ 32
  pub int_value-format_u : (n : ℕ) → n < 2 ^ 31 → int_value (format_u n) ≡ n
  pub length-malloc : (n : ℕ) (block : List ℕ) → malloc n ≡ some block → length block ≡ n
