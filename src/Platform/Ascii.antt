-- ===== src/Platform/Ascii.antt =====
-- A concrete platform: decimal numbers, ASCII case, substring search, and an allocator whose blocks
-- hold 0xaa. It shows that the laws of `Platform` can hold, and the tests run on it.
use mathlib.Core.List.{foldl-append}
use native.Mathlib.Nat.{pow-suc}
use i_scsiinitiator.Platform.{Platform}
use i_scsiinitiator.Base.{
  Str, ℕ, zero, suc, ◌+◌, ◌-◌, ◌*◌, ◌/◌, ◌%◌, ◌^◌, ◌<◌, Bool, true, false, ◌&&◌, ◌||◌, Option, some,
  List, [], ◌∷◌, ◌++◌, foldl, ◌≡◌, refl, arith, ltb, leb, ◌==◌, ==_self, if◌then◌else◌, length,
  replicate, length-replicate, Bool-cases, inl, inr,
}

-- Decimal digits, the last one first computed; ten of them hold every 32-bit number.
abbrev pub print : ℕ → ℕ → Str
print zero n = []
print (suc f) n =
    let front = print f (n / 10) in (if ltb n 10 then [] else front) ++ (n % 10 + 48) ∷ []

abbrev pub digit : ℕ → ℕ → ℕ
digit acc c = acc * 10 + (c - 48)

unfoldable pub value : Str → ℕ
value s = foldl digit 0 s % 2 ^ 32

abbrev pub upper : ℕ → ℕ
upper c = if leb 97 c && leb c 122 then c - 32 else c

unfoldable pub same : Str → Str → Bool
same [] [] = true
same (a ∷ s) (b ∷ t) = upper a == upper b && same s t
same _ _ = false

unfoldable pub starts : Str → Str → Bool
starts s [] = true
starts [] (b ∷ t) = false
starts (a ∷ s) (b ∷ t) = upper a == upper b && starts s t

unfoldable pub occurs : Str → Str → Bool
unfolding starts
occurs [] w = false
occurs (a ∷ s) w = starts (a ∷ s) w || occurs s w

-- CFStringFind does not find the empty string.
unfoldable pub find : Str → Str → Bool
unfolding occurs
find s [] = false
find s (b ∷ w) = occurs s (b ∷ w)

pub same_self : (s : Str) → same s s ≡ true
unfolding same
same_self [] = refl
same_self (a ∷ s) = ground (arith, ==_self (upper a), same_self s)

fold-print : (f n : ℕ) → n < 10 ^ f → foldl digit 0 (print f n) ≡ n
fold-print zero n h = omega arith
fold-print (suc f) n h = elim (Bool-cases (ltb n 10)) [
  | inl e ↦ rw e (ground arith)
  | inr e ↦
      rw (e, foldl-append digit 0 (print f (n / 10)) ((n % 10 + 48) ∷ []))
        (omega (arith, fold-print f (n / 10) (ground (arith, pow-suc 10 f))))
]

pub value-print : (n : ℕ) → n < 2 ^ 31 → value (print 10 n) ≡ n
unfolding value
value-print n h = omega (arith, fold-print 10 n (omega arith))

pub value-lt : (s : Str) → value s < 2 ^ 32
unfolding value
value-lt s = omega arith

unfoldable pub block : ℕ → Option (List ℕ)
block n = some (replicate n 0xaa)

pub length-block : (n : ℕ) (b : List ℕ) → block n ≡ some b → length b ≡ n
unfolding block
length-block n b e = ground (arith, length-replicate {A = ℕ} n 0xaa)

-- A checksum in the place of MD5: sixteen bytes that depend on every byte of the message.
unfoldable pub digest_bytes : List ℕ → List ℕ
digest_bytes message = replicate 16 (foldl (λ acc b. (acc * 31 + b) % 256) 7 message)

unfoldable pub ascii : Platform
unfolding value same find block digest_bytes
ascii = record {
  compare_ci = same;
  int_value = value;
  format_u = print 10;
  find_ci = find;
  malloc = block;
  md5 = digest_bytes;
  length_max = 2 ^ 32 - 1;
  compare_ci_self = same_self;
  int_value-lt = value-lt;
  int_value-format_u = value-print;
  length-malloc = length-block;
}
