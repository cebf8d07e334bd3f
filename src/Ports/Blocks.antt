-- ===== src/Ports/Blocks.antt =====
-- One round of the loop of calPortRangeMask: the block that it finds is aligned and lies in the
-- range, and its RulePort matches the ports of the block.
use Prim.Native.Nat.{bit_and}
use native.Mathlib.Nat.{pow-suc}
use everoute.Common.{
  ℕ, zero, suc, ◌+◌, ◌-◌, ◌*◌, ◌/◌, ◌%◌, ◌^◌, ◌≤◌, ◌<◌, ◌≡◌, refl, ap, ◌∙◌, ◌↔◌, arith, String,
  Bool, true, ◌&&◌, not, Option, some, leb, ltb, leb→le, ◌==◌, nat_eq, Bool-cases, inl, inr,
  nat_beq_iff,
}
use everoute.Ports.{
  add16, sub16, shl16, pos_to_mask, find_pos, first_fit, next_block, block, dst_port_matches,
}
use everoute.Ports.Bits.{ones, double, block_iff, pow-pos}

-- A test on all numbers below a bound.
all_lt : ℕ → (ℕ → Bool) → Bool
all_lt zero test = true
all_lt (suc n) test = test n && all_lt n test

all_lt_sound : (n : ℕ) (test : ℕ → Bool) → all_lt n test ≡ true → (k : ℕ) → k < n → test k ≡ true
unfolding all_lt
all_lt_sound zero test h k lt = absurd (omega arith)
all_lt_sound (suc n) test h k lt = elim (Bool-cases (k == n)) [
  | inl here ↦ rw ((nat_beq_iff k n).0 here) (ground arith)
  | inr below ↦ all_lt_sound n test (ground arith) k (ground arith)
]

mask_table : all_lt 17 (λ k. pos_to_mask (16 - k) == double k (ones (16 - k))) ≡ true
unfolding all_lt pos_to_mask
mask_table = refl

width_table : all_lt 17 (λ k. double k (2 ^ (16 - k)) == 65536) ≡ true
unfolding all_lt
width_table = refl

pos_to_mask-ones : (k : ℕ) → k ≤ 16 → pos_to_mask (16 - k) ≡ double k (ones (16 - k))
pos_to_mask-ones k h = (nat_beq_iff _ _).0 (all_lt_sound 17 _ mask_table k (omega arith))

width_lem : (k : ℕ) → k ≤ 16 → double k (2 ^ (16 - k)) ≡ 65536
width_lem k h = (nat_beq_iff _ _).0 (all_lt_sound 17 _ width_table k (omega arith))

-- the lowest 1 of a number below 2 ^ f
find_pos_lem :
    (f temp pos : ℕ)
    → 0 < temp
    → temp < 2 ^ f
    → (k m : ℕ) × (find_pos f temp pos ≡ some (pos - k)) × (temp ≡ double k m) × (k < f)
unfolding find_pos
find_pos_lem zero temp pos h lt = absurd (omega arith)
find_pos_lem (suc f) temp pos h lt = elim (Bool-cases (temp % 2 == 1)) [
  | inl odd ↦ (0, temp, rw odd (ap some (omega arith)), refl, omega arith)
  | inr even ↦
      let (k, m, found, shape, below) =
        find_pos_lem f (temp / 2) (pos - 1) (ground arith) (omega (arith, pow-suc 2 f)) in
      (suc k, m, rw even (found ∙ ap some (omega arith)), ground arith, omega arith)
]

-- an aligned number below the modulus leaves room for its block
block_fits : (k m w : ℕ) → double k m < double k w → double k m + 2 ^ k ≤ double k w
block_fits zero m w h = omega arith
block_fits (suc k) m w h = omega (arith, block_fits k m w (omega arith), pow-suc 2 k)

-- begin + (1 << k) - 1 in uint16, where the block ends below 2 ^ 16
block_last : (k b : ℕ) → 0 < b → b + 2 ^ k ≤ 65536 → sub16 (add16 b (shl16 1 k)) 1 ≡ b + 2 ^ k - 1
unfolding sub16 add16 shl16
block_last k b h fits = omega (arith, pow-pos k)

-- an aligned block of a positive uint16 ends below 2 ^ 16
room : (k m b : ℕ) → k ≤ 16 → b ≡ double k m → b < 65536 → b + 2 ^ k ≤ 65536
room k m b h shape lt =
    let fits = block_fits k m (2 ^ (16 - k)) (omega (arith, width_lem k h)) in
    omega (arith, width_lem k h)

double_step : (k m : ℕ) → double k m * 2 ≡ double k (m * 2)
double_step zero m = refl
double_step (suc k) m = omega (arith, double_step k m)

-- the size that `first_fit` finds: some 2 ^ j to which b is aligned, and that stays in the range
abbrev Fit : ℕ → ℕ → ℕ → Option ℕ → Type 0
Fit k b e found =
    (j : ℕ) × (q : ℕ) × (found ≡ some (16 - j)) × (b ≡ double j q) × (b + 2 ^ j ≤ e + 1) × (j ≤ k)

first_fit_lem :
    (k m i b e : ℕ)
    → i + k ≡ 16
    → b ≡ double k m
    → 0 < b
    → b ≤ e
    → e < 65536
    → Fit k b e (first_fit (suc k) i b e)
unfolding first_fit
first_fit_lem zero m i b e sum shape pos le lt =
    let size : 16 - i ≡ 0 = omega arith in
    let fits = room 0 m b (omega arith) shape (omega arith) in
    let holds : leb (sub16 (add16 b (shl16 1 0)) 1) e ≡ true =
      ground (arith, block_last 0 b pos fits) in
    (0, m, rw (size, holds) (ap some (omega arith)), shape, omega arith, omega arith)
first_fit_lem (suc k) m i b e sum shape pos le lt =
    let size : 16 - i ≡ suc k = omega arith in
    let fits = room (suc k) m b (omega arith) shape (omega arith) in
    elim (Bool-cases (leb (sub16 (add16 b (shl16 1 (suc k))) 1) e)) [
      | inl holds ↦ (
        suc k,
        m,
        rw (size, holds) (ap some (omega arith)),
        shape,
        omega (arith, block_last (suc k) b pos fits, leb→le _ _ holds),
        omega arith,
      )
      | inr over ↦
          let (j, q, found, aligned, inside, small) =
            first_fit_lem k (m * 2) (i + 1) b e (omega arith) (shape ∙ double_step k m) pos le lt in
          let skip : first_fit (suc (suc k)) i b e ≡ first_fit (suc k) (i + 1) b e =
            rw (size, over) refl in
          (j, q, skip ∙ found, aligned, inside, omega arith)
    ]

next_block_of :
    (b e k : ℕ)
    → k ≤ 15
    → find_pos 16 b 16 ≡ some (16 - k)
    → next_block b e ≡ some (first_fit (suc k) (16 - k) b e)
unfolding next_block
next_block_of b e k small found =
    let rounds : 17 - (16 - k) ≡ suc k = omega arith in rw (found, next_block, rounds)

mask_pos_table : all_lt 16 (λ k. not (pos_to_mask (16 - k) == 0)) ≡ true
unfolding all_lt pos_to_mask
mask_pos_table = refl

-- A round on a range [b, e] with 0 < b ≤ e < 2 ^ 16 ends, and finds such a block.
pub next_block_lem :
    (b e : ℕ)
    → 0 < b
    → b ≤ e
    → e < 65536
    → (j q : ℕ) × (next_block b e ≡ some (some (16 - j)))
      × (b ≡ double j q)
      × (b + 2 ^ j ≤ e + 1)
      × (j ≤ 15)
next_block_lem b e pos le lt =
    let (k, m, found, shape, below) = find_pos_lem 16 b 16 pos (omega arith) in
    let (j, q, fit, aligned, inside, small) =
      first_fit_lem k m (16 - k) b e (omega arith) shape pos le lt in
    (j, q, next_block_of b e k (omega arith) found ∙ ap some fit, aligned, inside, omega arith)

masked_iff :
    (j q b x : ℕ)
    → j ≤ 15
    → b ≡ double j q
    → b + 2 ^ j ≤ 65536
    → x < 65536
    → (bit_and x (pos_to_mask (16 - j)) ≡ bit_and b (pos_to_mask (16 - j)))
      ↔ ((b ≤ x) × (x < b + 2 ^ j))
masked_iff j q b x small shape inside lt =
    rw (pos_to_mask-ones j (omega arith), shape)
      (block_iff j (16 - j) x q (omega (arith, width_lem j (omega arith)))
        (quotient_lt j q (16 - j) (omega (arith, width_lem j (omega arith), pow-pos j))))
  where
    quotient_lt : (j q n : ℕ) → double j q < double j (2 ^ n) → q < 2 ^ n
    quotient_lt zero q n h = h
    quotient_lt (suc j) q n h = quotient_lt j q n (omega arith)

-- The RulePort of a block matches exactly the ports of the block.
pub dst_port_matches-block :
    (protocol : String) (j q b x : ℕ)
    → j ≤ 15
    → 0 < b
    → b ≡ double j q
    → b + 2 ^ j ≤ 65536
    → x < 65536
    → dst_port_matches (block protocol b (16 - j)) x ≡ (leb b x && ltb x (b + 2 ^ j))
unfolding dst_port_matches
dst_port_matches-block protocol j q b x small pos shape inside lt = ground (
  arith,
  all_lt_sound 16 (λ k. not (pos_to_mask (16 - k) == 0)) mask_pos_table j (omega arith),
  masked_iff j q b x small shape inside lt,
)
