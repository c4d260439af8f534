-- ===== src/Event/Words.antt =====
-- A word of 64 bits as three parts: a generation above bit 32, flags from bit `k` on, a slot below.
use g_proxy_pro.Base.{
  ℕ, ◌+◌, ◌-◌, ◌*◌, ◌%◌, ◌^◌, ◌≤◌, ◌<◌, ◌≡◌, refl, ap, ap₂, ◌∙◌, arith, bit_and, bit_or,
}
use g_proxy_pro.Base.Bits.{
  bit_or_split, bit_and_split, bit_and_mask, zero-bit_or, bit_or-zero, bit_and-zero,
}

pub shift_or :
    (g s : ℕ) → g < 2 ^ 32 → s < 2 ^ 32 → bit_or (g * 2 ^ 32 % 2 ^ 64) (s % 2 ^ 32) ≡ g * 2 ^ 32 + s
shift_or g s hg hs =
    ap₂ bit_or (let e : g * 2 ^ 32 % 2 ^ 64 ≡ g * 2 ^ 32 + 0 = omega arith in e)
      (let e : s % 2 ^ 32 ≡ 0 * 2 ^ 32 + s = omega arith in e)
    ∙ bit_or_split 32 g 0 0 s (omega arith) hs
    ∙ omega (arith, bit_or-zero g, zero-bit_or s)

pub or_flag :
    (k m g s : ℕ)
    → s < 2 ^ k
    → 2 ^ k ≤ 2 ^ 32
    → m * 2 ^ k < 2 ^ 32
    → bit_or (g * 2 ^ 32 + s) (m * 2 ^ k) ≡ g * 2 ^ 32 + (m * 2 ^ k + s)
or_flag k m g s hs hk hm =
    ap (bit_or (g * 2 ^ 32 + s)) (let e : m * 2 ^ k ≡ 0 * 2 ^ 32 + m * 2 ^ k = omega arith in e)
    ∙ bit_or_split 32 g 0 s (m * 2 ^ k) (omega arith) hm
    ∙ omega (arith, bit_or-zero g, low)
  where
    low : bit_or s (m * 2 ^ k) ≡ m * 2 ^ k + s
    low =
        ap₂ bit_or (let e : s ≡ 0 * 2 ^ k + s = omega arith in e)
          (let e : m * 2 ^ k ≡ m * 2 ^ k + 0 = omega arith in e)
        ∙ bit_or_split k 0 m s 0 hs (omega arith)
        ∙ ap₂ (λ x y. x * 2 ^ k + y) (zero-bit_or m) (bit_or-zero s)

module _ (k g r s : ℕ) (hs : s < 2 ^ k) (hr : r * 2 ^ k + s < 2 ^ 32) (hk : 2 ^ k ≤ 2 ^ 32) where
  pub and_flag :
      (m : ℕ)
      → m * 2 ^ k < 2 ^ 32
      → bit_and (g * 2 ^ 32 + (r * 2 ^ k + s)) (m * 2 ^ k) ≡ bit_and r m * 2 ^ k
  and_flag m hm =
      ap (bit_and (g * 2 ^ 32 + (r * 2 ^ k + s)))
        (let e : m * 2 ^ k ≡ 0 * 2 ^ 32 + m * 2 ^ k = omega arith in e)
      ∙ bit_and_split 32 g 0 (r * 2 ^ k + s) (m * 2 ^ k) hr hm
      ∙ omega (arith, bit_and-zero g, low)
    where
      low : bit_and (r * 2 ^ k + s) (m * 2 ^ k) ≡ bit_and r m * 2 ^ k
      low =
          ap (bit_and (r * 2 ^ k + s)) (let e : m * 2 ^ k ≡ m * 2 ^ k + 0 = omega arith in e)
          ∙ bit_and_split k r m s 0 hs (omega arith)
          ∙ omega (arith, bit_and-zero s)

  -- A mask that clears the flags.
  pub and_rest :
      g < 2 ^ 32
      → bit_and (g * 2 ^ 32 + (r * 2 ^ k + s)) ((2 ^ 32 - 1) * 2 ^ 32 + (0 * 2 ^ k + (2 ^ k - 1)))
        ≡ g * 2 ^ 32 + s
  and_rest hg =
      bit_and_split 32 g (2 ^ 32 - 1) (r * 2 ^ k + s) (0 * 2 ^ k + (2 ^ k - 1)) hr (omega arith)
      ∙ omega (arith, bit_and_mask 32 g hg, low)
    where
      low : bit_and (r * 2 ^ k + s) (0 * 2 ^ k + (2 ^ k - 1)) ≡ s
      low =
          bit_and_split k r 0 s (2 ^ k - 1) hs (omega arith)
          ∙ rw (bit_and-zero r, bit_and_mask k s hs) (omega arith)

-- The low half of a word.
pub and_low : (g s : ℕ) → s < 2 ^ 32 → bit_and (g * 2 ^ 32 + s) (2 ^ 32 - 1) ≡ s
and_low g s hs =
    ap (bit_and (g * 2 ^ 32 + s)) (let e : 2 ^ 32 - 1 ≡ 0 * 2 ^ 32 + (2 ^ 32 - 1) = refl in e)
    ∙ bit_and_split 32 g 0 s (2 ^ 32 - 1) hs (omega arith)
    ∙ omega (arith, bit_and-zero g, bit_and_mask 32 s hs)
