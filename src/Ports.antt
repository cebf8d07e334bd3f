-- ===== src/Ports.antt =====
-- Port ranges of a policy as OpenFlow matches: pkg/agent/controller/policy/cache/rule.go (RulePort)
-- and posToMask, calPortRangeMask of pkg/agent/controller/policy/policy_controller_helper.go.
-- A uint16 is a native number with its wrap-around written out. A Go loop that need not end takes
-- fuel, and `none` says that the fuel ran out.
mod Bits
mod Blocks
pub mod Cover
pub mod Scan
pub mod Flatten
use Prim.Native.Nat.{bit_and}
use mathlib.Core.Option
use everoute.Common.{
  ℕ, zero, suc, ◌+◌, ◌-◌, ◌*◌, ◌/◌, ◌%◌, ◌^◌, String, Bool, true, false, ◌&&◌, not, Option, none,
  some, List, [], ◌∷◌, leb, ◌==◌, nat_eq, if◌then◌else◌,
}

abbrev pub u16_mod : ℕ
u16_mod = 65536

-- uint16 a + b, a - b and 1 << n
unfoldable pub add16 : ℕ → ℕ → ℕ
add16 a b = (a + b) % u16_mod

unfoldable pub sub16 : ℕ → ℕ → ℕ
sub16 a b = (a + u16_mod - b) % u16_mod

unfoldable pub shl16 : ℕ → ℕ → ℕ
shl16 a n = a * 2 ^ n % u16_mod

pub record RulePort : Type 0 where
  pub src_port : ℕ
  pub dst_port : ℕ
  pub src_port_mask : ℕ
  pub dst_port_mask : ℕ
  pub src_port_name : String
  pub dst_port_name : String
  pub protocol : String

-- RulePort{}
abbrev pub zero_port : RulePort
zero_port = record {
  src_port = 0;
  dst_port = 0;
  src_port_mask = 0;
  dst_port_mask = 0;
  src_port_name = "";
  dst_port_name = "";
  protocol = "";
}

-- for i := 16; i > pos; i-- { ret <<= 1 }, on the rounds that are left
unfoldable pub shift_rounds : ℕ → ℕ → ℕ
unfolding shl16
shift_rounds zero ret = ret
shift_rounds (suc n) ret = shift_rounds n (shl16 ret 1)

unfoldable pub pos_to_mask : ℕ → ℕ
unfolding shift_rounds
pos_to_mask pos = shift_rounds (16 - pos) 0xffff

-- the loop that finds the lowest 1 of `temp`
unfoldable pub find_pos : ℕ → ℕ → ℕ → Option ℕ
find_pos zero temp pos = none
find_pos (suc fuel) temp pos =
    let rest = find_pos fuel (temp / 2) (pos - 1) in if temp % 2 == 1 then some pos else rest

-- the loop from `pos` to 16: the first block size that does not pass the end of the range
unfoldable pub first_fit : ℕ → ℕ → ℕ → ℕ → Option ℕ
unfolding add16 sub16 shl16
first_fit zero i begin end = none
first_fit (suc rounds) i begin end =
    let rest = first_fit rounds (i + 1) begin end in
    if leb (sub16 (add16 begin (shl16 1 (16 - i))) 1) end then some i else rest

abbrev pub block : String → ℕ → ℕ → RulePort
block protocol begin i = record zero_port {
  protocol = protocol;
  dst_port = begin;
  dst_port_mask = pos_to_mask i;
}

-- one round's search for a block, both inner loops
unfoldable pub next_block : ℕ → ℕ → Option (Option ℕ)
unfolding find_pos first_fit
next_block begin end = elim (find_pos 16 begin 16) [
  | none ↦ none
  | some pos ↦ some (first_fit (17 - pos) pos begin end)
]

-- for begin <= end && begin != 0
unfoldable pub range_loop : ℕ → ℕ → ℕ → String → Option (List RulePort)
range_loop zero begin end protocol = none
range_loop (suc fuel) begin end protocol = elim (leb begin end && not (begin == 0)) [
  | false ↦ some []
  | true ↦ elim (next_block begin end) [
    | none ↦ none
    | some none ↦ range_loop fuel begin end protocol
    | some (some i) ↦
        Option.map (◌∷◌ (block protocol begin i))
          (range_loop fuel (add16 begin (shl16 1 (16 - i))) end protocol)
  ]
]

unfoldable pub cal_port_range_mask : ℕ → ℕ → String → Option (List RulePort)
unfolding range_loop
cal_port_range_mask begin end protocol =
    if begin == 0 && end == 0
    then some (record zero_port { protocol = protocol; dst_port = 0 } ∷ [])
    else range_loop (end - begin + 2) begin end protocol

-- What a RulePort says of a destination port by the comments of its fields: 0 matches all ports,
-- and the masks 0x0000 and 0xffff have no effect.
unfoldable pub dst_port_matches : RulePort → ℕ → Bool
dst_port_matches p x =
    if p.dst_port == 0
    then true
    else if p.dst_port_mask == 0
    then x == p.dst_port
    else bit_and x p.dst_port_mask == bit_and p.dst_port p.dst_port_mask
