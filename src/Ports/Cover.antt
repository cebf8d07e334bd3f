-- ===== src/Ports/Cover.antt =====
-- calPortRangeMask splits a range into blocks that match each port of the range once and no other
-- port.
use everoute.Common.{
  ℕ, zero, suc, ◌+◌, ◌-◌, ◌%◌, ◌^◌, ◌≤◌, ◌<◌, ◌≡◌, refl, ◌∙◌, arith, String, Bool, true, false,
  ◌&&◌, not, some, List, [], ◌∷◌, All, leb, ◌==◌, nat_eq, if◌then◌else◌,
}
use everoute.Ports.{
  RulePort, add16, shl16, block, next_block, range_loop, cal_port_range_mask, dst_port_matches,
}
use native.Mathlib.Decide.{dec_lt}
use native.Mathlib.Nat.{mod-eq_of_lt}
use everoute.Ports.Bits.{double, pow-pos}
use everoute.Ports.Blocks.{next_block_lem, dst_port_matches-block}

-- how many of the ports match x
abbrev pub matches : List RulePort → ℕ → ℕ
matches [] x = 0
matches (p ∷ ps) x = (if dst_port_matches p x then 1 else 0) + matches ps x

abbrev pub in_range : ℕ → ℕ → ℕ → Bool
in_range b e x = leb b x && leb x e

-- The ports are the blocks of the range [b, e] for one protocol.
pub record Covers (b e : ℕ) (protocol : String) (ports : List RulePort) : Type 0 where
  pub once : (x : ℕ) → x < 65536 → matches ports x ≡ (if in_range b e x then 1 else 0)
  pub protocols : All (λ p. p.protocol ≡ protocol) ports

-- the address of the next block
next_begin : (j b : ℕ) → b + 2 ^ j ≤ 65536 → 0 < b → add16 b (shl16 1 j) ≡ (b + 2 ^ j) % 65536
unfolding add16 shl16
next_begin j b fits pos = omega (arith, pow-pos j)

range_loop_end :
    (f b e j : ℕ) (protocol : String)
    → b + 2 ^ j ≡ e + 1
    → e < 65536
    → 0 < b
    → range_loop (suc f) (add16 b (shl16 1 j)) e protocol ≡ some []
unfolding range_loop
range_loop_end f b e j protocol last lt pos =
    let stop : (leb (add16 b (shl16 1 j)) e && not (add16 b (shl16 1 j) == 0)) ≡ false =
      ground (arith, next_begin j b (omega arith) pos) in
    rw (stop, range_loop)

range_loop_step :
    (f b e i : ℕ) (protocol : String) {rest : List RulePort}
    → 0 < b
    → b ≤ e
    → next_block b e ≡ some (some i)
    → range_loop f (add16 b (shl16 1 (16 - i))) e protocol ≡ some rest
    → range_loop (suc f) b e protocol ≡ some (block protocol b i ∷ rest)
unfolding range_loop
range_loop_step f b e i protocol pos le found done =
    let go : (leb b e && not (b == 0)) ≡ true = ground arith in rw (go, range_loop, found, done)

Covers-cons :
    (b e j q : ℕ) (protocol : String) (rest : List RulePort)
    → j ≤ 15
    → 0 < b
    → b ≡ double j q
    → b + 2 ^ j ≤ e + 1
    → e < 65536
    → Covers (b + 2 ^ j) e protocol rest
    → Covers b e protocol (block protocol b (16 - j) ∷ rest)
Covers-cons b e j q protocol rest small pos shape inside lt c = record {
  once = λ x h. ground (
    arith,
    c.once x h,
    pow-pos j,
    dst_port_matches-block protocol j q b x small pos shape (omega arith) h,
  );
  protocols = (refl, c.protocols);
}

Covers-none : (b e : ℕ) (protocol : String) → e < b → Covers b e protocol []
Covers-none b e protocol h = record { once = λ x lt. ground arith; protocols = tt }

range_loop-Covers :
    (f b e : ℕ) (protocol : String)
    → 0 < b
    → b ≤ e
    → e < 65536
    → e + 1 - b < f
    → (ports : List RulePort) × (range_loop f b e protocol ≡ some ports) × Covers b e protocol ports
range_loop-Covers zero b e protocol pos le lt enough = absurd (omega arith)
range_loop-Covers (suc zero) b e protocol pos le lt enough = absurd (omega arith)
range_loop-Covers (suc (suc f)) b e protocol pos le lt enough =
    let (j, q, found, shape, inside, small) = next_block_lem b e pos le lt in
    let back : 16 - (16 - j) ≡ j = omega arith in
    elim (dec_lt (b + 2 ^ j) (e + 1)) [
      | yes more ↦
          let (rest, returned, covers) =
            range_loop-Covers (suc f) (b + 2 ^ j) e protocol (omega arith) (omega arith) lt
              (omega (arith, pow-pos j)) in
          let next : add16 b (shl16 1 j) ≡ b + 2 ^ j =
            next_begin j b (omega arith) pos ∙ mod-eq_of_lt (omega arith) in
          (
            block protocol b (16 - j) ∷ rest,
            range_loop_step (suc f) b e (16 - j) protocol pos le found (rw (back, next) returned),
            Covers-cons b e j q protocol rest small pos shape inside lt covers,
          )
      | no done ↦
          let last : b + 2 ^ j ≡ e + 1 = omega arith in
          (
            block protocol b (16 - j) ∷ [],
            range_loop_step (suc f) b e (16 - j) protocol pos le found
                (rw back (range_loop_end f b e j protocol last lt pos)),
            Covers-cons b e j q protocol [] small pos shape inside lt
                (Covers-none (b + 2 ^ j) e protocol (omega arith)),
          )
    ]

-- For every range [b, e] of uint16 ports with 0 < b ≤ e, calPortRangeMask returns, and its ports
-- have the given protocol; each port number of the range is matched by exactly one of them, and a
-- port number outside the range by none.
pub cal_port_range_mask-exact :
    (b e : ℕ) (protocol : String)
    → 0 < b
    → b ≤ e
    → e < 65536
    → (ports : List RulePort) × (cal_port_range_mask b e protocol ≡ some ports)
      × Covers b e protocol ports
unfolding cal_port_range_mask
cal_port_range_mask-exact b e protocol pos le lt =
    let (ports, returned, covers) =
      range_loop-Covers (e - b + 2) b e protocol pos le lt (omega arith) in
    let start : (b == 0 && e == 0) ≡ false = ground arith in (ports, rw start returned, covers)

-- A range that begins at port 0 and ends later gives no RulePort: the traffic of none of its ports
-- is matched.
pub cal_port_range_mask-from_zero :
    (e : ℕ) (protocol : String) → 0 < e → e < 65536 → cal_port_range_mask 0 e protocol ≡ some []
unfolding cal_port_range_mask range_loop
cal_port_range_mask-from_zero e protocol pos lt =
    let positive : (e == 0) ≡ false = ground arith in
    let inside : leb 0 e ≡ true = ground arith in
    let fuel : e - 0 + 2 ≡ suc (e + 1) = omega arith in rw (positive, fuel, inside, range_loop)
