-- ===== src/Kernel/Bits.antt =====
-- `|` of a field and of what stands above it, and `&` with a mask of low bits, as arithmetic.
use Prim.Native.Nat.{max, min, digits, bit_or-bitwise, bit_and-bitwise}
use native.Mathlib.Nat.{pow-suc, le_refl, one-le-pow}
use i_scsiinitiator.Base.{
  ℕ, zero, suc, ◌+◌, ◌-◌, ◌*◌, ◌/◌, ◌%◌, ◌^◌, ◌≤◌, ◌<◌, bit_or, bit_and, ◌≡◌, refl, ap, arith,
}

double : (high k : ℕ) → high * 2 ^ suc k ≡ 2 * (high * 2 ^ k)
double high k = omega (arith, ap (λ (t : ℕ). high * t) (pow-suc 2 k))

-- By the digits of the lower field, which are at most `n`.
digits-disjoint :
    (n k low high : ℕ)
    → low ≤ n
    → low < 2 ^ k
    → digits (λ b. b) max n low (high * 2 ^ k) ≡ low + high * 2 ^ k
digits-disjoint zero k zero high bound fits = omega arith
digits-disjoint zero k (suc low) high bound fits = absurd (omega arith)
digits-disjoint (suc n) k zero high bound fits = omega arith
digits-disjoint (suc n) zero (suc low) high bound fits = absurd (omega arith)
digits-disjoint (suc n) (suc k) (suc low) high bound fits =
    rw (double high k, halved)
      (omega
        (arith, digits-disjoint n k (suc low / 2) high (omega arith) (omega (arith, pow-suc 2 k))))
  where
    halved : (2 * (high * 2 ^ k)) / 2 ≡ high * 2 ^ k
    halved = omega arith

pub bit_or-disjoint :
    (k low high : ℕ) → low < 2 ^ k → bit_or low (high * 2 ^ k) ≡ low + high * 2 ^ k
bit_or-disjoint k low high fits =
    simp bit_or-bitwise (digits-disjoint low k low high (le_refl low) fits)

digits-zero : (n a : ℕ) → digits (λ _. 0) min n a 0 ≡ 0
digits-zero zero a = refl
digits-zero (suc n) zero = refl
digits-zero (suc n) (suc a) = omega (arith, digits-zero n (suc a / 2))

digits-mask :
    (n k a q r : ℕ)
    → a ≤ n
    → a ≡ q * 2 ^ k + r
    → r < 2 ^ k
    → digits (λ _. 0) min n a (2 ^ k - 1) ≡ r
digits-mask zero k a q r bound split fits = omega arith
digits-mask (suc n) k zero q r bound split fits = omega arith
digits-mask (suc n) zero (suc a) q r bound split fits = omega (arith, digits-zero (suc n) (suc a))
digits-mask (suc n) (suc k) (suc a) q r bound split fits =
    rw (halved, odd)
      (omega (
        arith,
        digits-mask n k (suc a / 2) q (r / 2) (omega arith) (omega (arith, double q k))
            (omega (arith, pow-suc 2 k)),
        double q k,
      ))
  where
    halved : (2 ^ suc k - 1) / 2 ≡ 2 ^ k - 1
    halved = omega (arith, pow-suc 2 k, one-le-pow k 2)

    odd : (2 ^ suc k - 1) % 2 ≡ 1
    odd = omega (arith, pow-suc 2 k, one-le-pow k 2)

pub bit_and-mask : (k a : ℕ) → bit_and a (2 ^ k - 1) ≡ a % 2 ^ k
bit_and-mask k a = simp bit_and-bitwise (
    digits-mask a k a (a / 2 ^ k) (a % 2 ^ k) (le_refl a) (ground (arith, one-le-pow k 2))
      (ground (arith, one-le-pow k 2)))
