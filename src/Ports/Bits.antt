-- ===== src/Ports/Bits.antt =====
-- Masks with ones at the top: the bits that `bit_and` keeps, and the block of ports that a masked
-- match describes.
use Prim.Native.Nat.{min, bit_and, digits, bit_and-bitwise}
use native.Mathlib.Nat.{pow-suc, le_refl}
use everoute.Common.{
  ℕ, zero, suc, ◌+◌, ◌-◌, ◌*◌, ◌/◌, ◌%◌, ◌^◌, ◌≤◌, ◌<◌, ◌≡◌, refl, sym, ap, ◌∙◌, ◌↔◌, arith,
}

pub pow-pos : (k : ℕ) → 0 < 2 ^ k
pow-pos zero = omega arith
pow-pos (suc k) = omega (arith, pow-pos k, pow-suc 2 k)

-- `bit_and` as its digits, on fuel
abbrev common : ℕ → ℕ → ℕ → ℕ
common = digits (λ _. zero) min

common_again : (n a b : ℕ) → a ≤ n → common (suc n) a b ≡ common n a b
common_again zero zero b h = refl
common_again (suc n) zero b h = refl
common_again zero (suc a) b h = elim h [ ]
common_again (suc n) (suc a) b h = omega (arith, common_again n (suc a / 2) (b / 2) (omega arith))

common_enough : (d n a b : ℕ) → n ≡ a + d → common n a b ≡ common a a b
common_enough zero n a b e = let same : n ≡ a = omega arith in rw same
common_enough (suc d) zero a b e = absurd (omega arith)
common_enough (suc d) (suc n) a b e =
    common_again n a b (omega arith) ∙ common_enough d n a b (omega arith)

zero-bit_and : (b : ℕ) → bit_and 0 b ≡ 0
zero-bit_and = bit_and-bitwise 0

-- the lowest digit of `bit_and`
last_digit : (a b : ℕ) → bit_and a b ≡ bit_and (a / 2) (b / 2) * 2 + min (a % 2) (b % 2)
last_digit zero b = omega (arith, zero-bit_and b, zero-bit_and (b / 2))
last_digit (suc a) b =
    let rest = a - suc a / 2 in
    omega (
      arith,
      common_enough rest a (suc a / 2) (b / 2) (omega arith),
      bit_and-bitwise (suc a / 2) (b / 2),
      bit_and-bitwise (suc a) b,
    )

-- a number of n ones
abbrev pub ones : ℕ → ℕ
ones zero = 0
ones (suc n) = ones n * 2 + 1

odd_half : (o : ℕ) → (o * 2 + 1) / 2 ≡ o
odd_half o = omega arith

even_half : (o : ℕ) → (o * 2) / 2 ≡ o
even_half o = omega arith

bit_and-ones : (n x : ℕ) → x < 2 ^ n → bit_and x (ones n) ≡ x
bit_and-ones zero zero h = zero-bit_and 0
bit_and-ones zero (suc x) h = absurd (omega arith)
bit_and-ones (suc n) x h =
    let digit = last_digit x (ones n * 2 + 1) in
    let digit' = rw (odd_half (ones n)) at digit in
    omega (arith, digit', bit_and-ones n (x / 2) (omega (arith, pow-suc 2 n)))

-- x >> k and m << k, one place at a time
abbrev pub half : ℕ → ℕ → ℕ
half zero x = x
half (suc k) x = half k (x / 2)

abbrev pub double : ℕ → ℕ → ℕ
double zero m = m
double (suc k) m = double k m * 2

bit_and-double : (k x m : ℕ) → bit_and x (double k m) ≡ double k (bit_and (half k x) m)
bit_and-double zero x m = refl
bit_and-double (suc k) x m =
    let digit = last_digit x (double k m * 2) in
    let digit' = rw (even_half (double k m)) at digit in
    omega (arith, digit', bit_and-double k (x / 2) m)

pub double-eq-mul : (k m : ℕ) → double k m ≡ m * 2 ^ k
double-eq-mul zero m = omega arith
double-eq-mul (suc k) m = grind (arith, pow-suc 2 k, double-eq-mul k m)

half-lt : (k n x : ℕ) → x < double k (2 ^ n) → half k x < 2 ^ n
half-lt zero n x h = h
half-lt (suc k) n x h = half-lt k n (x / 2) (omega arith)

double-lt : (k a b : ℕ) → a < b → double k a < double k b
double-lt zero a b h = h
double-lt (suc k) a b h = omega (arith, double-lt k a b h)

-- the numbers that keep q when k places are dropped
half_iff : (k x q : ℕ) → (half k x ≡ q) ↔ ((double k q ≤ x) × (x < double k q + 2 ^ k))
half_iff zero x q = (λ e. omega arith, λ h. omega arith)
half_iff (suc k) x q = (
  λ e. omega (arith, (half_iff k (x / 2) q).0 e, pow-suc 2 k),
  λ h. (half_iff k (x / 2) q).1 (omega (arith, pow-suc 2 k)),
)

double_injective : (k a b : ℕ) → double k a ≡ double k b → a ≡ b
double_injective zero a b e = e
double_injective (suc k) a b e = double_injective k a b (omega arith)

-- Under the mask that drops k of n + k places, x looks like an aligned v exactly if x lies in the
-- block of 2 ^ k numbers that v begins.
pub block_iff :
    (k n x q : ℕ)
    → x < double k (2 ^ n)
    → q < 2 ^ n
    → (bit_and x (double k (ones n)) ≡ bit_and (double k q) (double k (ones n)))
      ↔ ((double k q ≤ x) × (x < double k q + 2 ^ k))
block_iff k n x q hx hq =
    let aligned : half k (double k q) ≡ q = (half_iff k (double k q) q).1 (le_refl _, pow_pos k) in
    let left : bit_and x (double k (ones n)) ≡ double k (half k x) =
      bit_and-double k x (ones n) ∙ ap (double k) (bit_and-ones n (half k x) (half-lt k n x hx)) in
    let right : bit_and (double k q) (double k (ones n)) ≡ double k q =
      bit_and-double k (double k q) (ones n) ∙ ap (double k) (rw aligned (bit_and-ones n q hq)) in
    (
      λ e. (half_iff k x q).0 (double_injective k _ _ (sym left ∙ e ∙ right)),
      λ h. left ∙ ap (double k) ((half_iff k x q).1 h) ∙ sym right,
    )
  where
    pow_pos : (k : ℕ) → double k q < double k q + 2 ^ k
    pow_pos k = omega (arith, pow-pos k)
