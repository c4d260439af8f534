-- ===== src/Base/Bits.antt =====
-- Laws of `bit_and` and `bit_or` at variables: the two halves of a word are worked on apart.
use Prim.Native.Nat.{
  ℕ, zero, suc, ◌+◌, ◌-◌, ◌*◌, ◌/◌, ◌%◌, ◌^◌, ◌≤◌, ◌<◌, min, max, bit_and, bit_or, digits, bitwise,
  bit_and-bitwise, bit_or-bitwise,
}
use Prim.Native.Nat.pow
use mathlib.Core.Path.{◌≡◌, refl, sym, ap, ap₂, ◌∙◌}
use native.Mathlib.Omega.{arith}
use native.Mathlib.Decide.{ℕ_discrete}

-- `digits` counts down from a bound on its first number; any bound will do.
module _ (z : ℕ → ℕ) (f : ℕ → ℕ → ℕ) where
  surplus : (k x y : ℕ) → x ≤ k → digits z f (suc k) x y ≡ digits z f k x y
  surplus zero zero y le = refl
  surplus (suc k) zero y le = refl
  surplus zero (suc x) y le = absurd (omega arith)
  surplus (suc k) (suc x) y le = omega (arith, surplus k (suc x / 2) (y / 2) (omega arith))

  digits-bitwise : (n x y : ℕ) → x ≤ n → digits z f n x y ≡ bitwise z f x y
  digits-bitwise zero zero y le = refl
  digits-bitwise zero (suc x) y le = absurd (omega arith)
  digits-bitwise (suc n) x y le = elim (ℕ_discrete (suc n) x) [
    | yes same ↦ ap (λ m. digits z f m x y) same
    | no ne ↦ surplus n x y (omega arith) ∙ digits-bitwise n x y (omega arith)
  ]

  unroll :
      (last : (y : ℕ) → z y ≡ z (y / 2) * 2 + f 0 (y % 2)) (x y : ℕ)
      → bitwise z f x y ≡ bitwise z f (x / 2) (y / 2) * 2 + f (x % 2) (y % 2)
  unroll last zero y = last y
  unroll last (suc x) y = omega (arith, digits-bitwise x (suc x / 2) (y / 2) (omega arith))

pub bit_and_step : (a b : ℕ) → bit_and a b ≡ bit_and (a / 2) (b / 2) * 2 + min (a % 2) (b % 2)
bit_and_step a b = omega (
  arith,
  bit_and-bitwise a b,
  bit_and-bitwise (a / 2) (b / 2),
  unroll (λ y. zero) min (λ y. omega arith) a b,
)

pub bit_or_step : (a b : ℕ) → bit_or a b ≡ bit_or (a / 2) (b / 2) * 2 + max (a % 2) (b % 2)
bit_or_step a b = omega (
  arith,
  bit_or-bitwise a b,
  bit_or-bitwise (a / 2) (b / 2),
  unroll (λ y. y) max (λ y. omega arith) a b,
)

pub zero-bit_or : (b : ℕ) → bit_or 0 b ≡ b
zero-bit_or b = bit_or-bitwise 0 b

pow_suc : (k : ℕ) → 2 ^ suc k ≡ 2 * 2 ^ k
pow_suc k = omega (arith, pow.suc 2 k)

-- What holds of any operation that works digit by digit.
module _ (op g : ℕ → ℕ → ℕ) (base : op 0 0 ≡ 0)
    (step : (a b : ℕ) → op a b ≡ op (a / 2) (b / 2) * 2 + g (a % 2) (b % 2)) where
  split_step :
      (p a b c d : ℕ)
      → op (a * p + c / 2) (b * p + d / 2) ≡ op a b * p + op (c / 2) (d / 2)
      → op (a * (2 * p) + c) (b * (2 * p) + d) ≡ op a b * (2 * p) + op c d
  split_step p a b c d h =
      step (a * (2 * p) + c) (b * (2 * p) + d) ∙ rw (ea, ra, eb, rb, h) (omega (arith, step c d))
    where
      ea : (a * (2 * p) + c) / 2 ≡ a * p + c / 2
      ea = omega arith

      ra : (a * (2 * p) + c) % 2 ≡ c % 2
      ra = omega arith

      eb : (b * (2 * p) + d) / 2 ≡ b * p + d / 2
      eb = omega arith

      rb : (b * (2 * p) + d) % 2 ≡ d % 2
      rb = omega arith

  op_split :
      (k a b c d : ℕ)
      → c < 2 ^ k
      → d < 2 ^ k
      → op (a * 2 ^ k + c) (b * 2 ^ k + d) ≡ op a b * 2 ^ k + op c d
  op_split zero a b c d hc hd =
      let ec : c ≡ 0 = omega arith in
      let ed : d ≡ 0 = omega arith in
      let ea : a * 2 ^ 0 + 0 ≡ a = omega arith in
      let eb : b * 2 ^ 0 + 0 ≡ b = omega arith in rw (ec, ed, base) (ap₂ op ea eb ∙ omega arith)
  op_split (suc k) a b c d hc hd =
      let e = pow_suc k in
      rw e (split_step (2 ^ k) a b c d (op_split k a b (c / 2) (d / 2) (omega arith) (omega arith)))

  -- With no digits on the right, an operation is one on digits alone.
  op-zero :
      (h : ℕ → ℕ)
      → h 0 ≡ 0
      → ((x : ℕ) → h x ≡ h (x / 2) * 2 + g (x % 2) 0)
      → (n x : ℕ) → x ≤ n
      → op x 0 ≡ h x
  op-zero h none_left last n zero le = base ∙ sym none_left
  op-zero h none_left last zero (suc x) le = absurd (omega arith)
  op-zero h none_left last (suc n) (suc x) le =
      omega
        (arith, step (suc x) 0, last (suc x), op-zero h none_left last n (suc x / 2) (omega arith))

-- A word is worked on in two parts, above and below bit `k`.
pub bit_or_split :
    (k a b c d : ℕ)
    → c < 2 ^ k
    → d < 2 ^ k
    → bit_or (a * 2 ^ k + c) (b * 2 ^ k + d) ≡ bit_or a b * 2 ^ k + bit_or c d
bit_or_split = op_split bit_or max refl bit_or_step

pub bit_and_split :
    (k a b c d : ℕ)
    → c < 2 ^ k
    → d < 2 ^ k
    → bit_and (a * 2 ^ k + c) (b * 2 ^ k + d) ≡ bit_and a b * 2 ^ k + bit_and c d
bit_and_split = op_split bit_and min refl bit_and_step

pub bit_or-zero : (a : ℕ) → bit_or a 0 ≡ a
bit_or-zero a =
    op-zero bit_or max refl bit_or_step (λ x. x) refl (λ x. omega arith) a a (omega arith)

pub bit_and-zero : (a : ℕ) → bit_and a 0 ≡ 0
bit_and-zero a =
    op-zero bit_and min refl bit_and_step (λ x. 0) refl (λ x. omega arith) a a (omega arith)

-- A mask of `k` ones keeps what is below bit `k`.
pub bit_and_mask : (k a : ℕ) → a < 2 ^ k → bit_and a (2 ^ k - 1) ≡ a
bit_and_mask zero a h = let e : a ≡ 0 = omega arith in rw e refl
bit_and_mask (suc k) a h =
    bit_and_step a (2 ^ suc k - 1) ∙ rw half (omega (arith, bit_and_mask k (a / 2) (omega arith)))
  where
    half : (2 ^ suc k - 1) / 2 ≡ 2 ^ k - 1
    half = omega (arith, pow_suc k)
