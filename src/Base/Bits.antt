-- ===== src/Base/Bits.antt =====
-- `&` and `|` of C++ at variables: the law of the lowest digit, and the parts of a word that a mask
-- reads.
use Prim.Native.Nat.{
  ℕ, zero, suc, ◌+◌, ◌*◌, ◌/◌, ◌%◌, ◌^◌, ◌≤◌, ◌<◌, min, max, digits, bit_and, bit_or,
  bit_and-bitwise, bit_or-bitwise,
}
use mathlib.Core.Path.{◌≡◌, refl, ◌∙◌, ap}
use mathlib.Core.Bool.{Bool, true, false}
use pingfs.Base.Logic.{if◌then◌else◌}
use native.Mathlib.Omega.{arith}
use native.Mathlib.Nat.{pow-suc}
use native.Mathlib.Decide.{ℕ_discrete}

module _ (z : ℕ → ℕ) (f : ℕ → ℕ → ℕ) where
  digits-suc : (n a b : ℕ) → a ≤ n → digits z f (suc n) a b ≡ digits z f n a b
  digits-suc zero zero b h = refl
  digits-suc zero (suc a) b h = absurd (omega arith)
  digits-suc (suc n) zero b h = refl
  digits-suc (suc n) (suc a) b h = rw (digits-suc n (suc a / 2) (b / 2) (omega arith))

  -- Fuel above the first number changes nothing.
  digits-le : (m n a b : ℕ) → a ≤ n → n ≤ m → digits z f m a b ≡ digits z f n a b
  digits-le zero zero a b p q = refl
  digits-le zero (suc n) a b p q = absurd (omega arith)
  digits-le (suc m) n a b p q = elim (ℕ_discrete n (suc m)) [
    | yes e ↦ rw e refl
    | no ne ↦ digits-suc m a b (omega arith) ∙ digits-le m n a b p (omega arith)
  ]

pub bit_and_digit : (a b : ℕ) → bit_and a b ≡ bit_and (a / 2) (b / 2) * 2 + min (a % 2) (b % 2)
bit_and_digit zero b = simp bit_and-bitwise (omega arith)
bit_and_digit (suc a) b = simp bit_and-bitwise (
    omega
      (arith, digits-le (λ _. 0) min a (suc a / 2) (suc a / 2) (b / 2) (omega arith) (omega arith)))

pub bit_or_digit : (a b : ℕ) → bit_or a b ≡ bit_or (a / 2) (b / 2) * 2 + max (a % 2) (b % 2)
bit_or_digit zero b = simp bit_or-bitwise (omega arith)
bit_or_digit (suc a) b = simp bit_or-bitwise (
    omega
      (arith, digits-le (λ y. y) max a (suc a / 2) (suc a / 2) (b / 2) (omega arith) (omega arith)))

-- The lowest `k` digits, and what is above them.
abbrev pub low_part : ℕ → ℕ → ℕ
low_part zero a = 0
low_part (suc k) a = low_part k (a / 2) * 2 + a % 2

abbrev pub high_part : ℕ → ℕ → ℕ
high_part zero a = a
high_part (suc k) a = high_part k (a / 2)

bit_and_nil_at : (n a : ℕ) → a ≤ n → bit_and a 0 ≡ 0
bit_and_nil_at n zero h = refl
bit_and_nil_at zero (suc a) h = absurd (omega arith)
bit_and_nil_at (suc n) (suc a) h =
    omega (arith, bit_and_digit (suc a) 0, bit_and_nil_at n (suc a / 2) (omega arith))

pub bit_and_nil : (a : ℕ) → bit_and a 0 ≡ 0
bit_and_nil a = bit_and_nil_at a a (omega arith)

-- A mask below `2 ^ k` reads the lowest `k` digits only.
pub bit_and-low_part : (k a m : ℕ) → m < 2 ^ k → bit_and a m ≡ bit_and (low_part k a) m
bit_and-low_part zero a m h = let e : m ≡ 0 = omega arith in rw e (bit_and_nil a)
bit_and-low_part (suc k) a m h = omega (
  arith,
  bit_and_digit a m,
  bit_and_digit (low_part k (a / 2) * 2 + a % 2) m,
  bit_and-low_part k (a / 2) (m / 2) (omega (arith, pow-suc 2 k)),
  ap (λ (t : ℕ). bit_and t (m / 2)) (halve (low_part k (a / 2)) a),
)
  where
    halve : (q a : ℕ) → (q * 2 + a % 2) / 2 ≡ q
    halve q a = omega arith

-- A mask of one digit reads that digit.
pub bit_and-pow : (k a : ℕ) → bit_and a (2 ^ k) ≡ high_part k a % 2 * 2 ^ k
bit_and-pow zero a = omega (arith, bit_and_digit a 1, bit_and_nil (a / 2))
bit_and-pow (suc k) a =
    let p = pow-suc 2 k in
    let e : 2 ^ suc k / 2 ≡ 2 ^ k = omega (arith, p) in
    omega (
      arith,
      p,
      ap (λ (t : ℕ). high_part k (a / 2) % 2 * t) p,
      bit_and_digit a (2 ^ suc k),
      bit_and-pow k (a / 2),
      ap (λ (t : ℕ). bit_and (a / 2) t) e,
    )

-- A test that evaluation finds true for each number of a small range.
unfoldable pub all_below : (ℕ → Bool) → ℕ → Bool
all_below test zero = true
all_below test (suc bound) = if test bound then all_below test bound else false

pub all_below_sound :
    (test : ℕ → Bool) (bound x : ℕ) → all_below test bound ≡ true → x < bound → test x ≡ true
unfolding all_below
all_below_sound test zero x checked below = absurd (omega arith)
all_below_sound test (suc bound) x checked below = ground (arith, all_below_sound test bound x)
