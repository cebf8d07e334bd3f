-- ===== src/Ports/Scan.antt =====
-- processFlattenPorts of pkg/agent/controller/policy/policy_controller_helper.go: the runs of a
-- table of ports, each split by calPortRangeMask.
pub mod Exact
use everoute.Common.{
  ℕ, zero, suc, ◌+◌, ◌-◌, ◌%◌, String, Bool, true, false, ◌&&◌, not, Option, none, some, List, [],
  ◌++◌, ◌==◌, nat_eq, if◌then◌else◌,
}
use everoute.Ports.{RulePort, cal_port_range_mask, u16_mod}

-- var portMap [65536]bool
abbrev pub PortMap : Type 0
PortMap = ℕ → Bool

-- len(portMap)
abbrev pub map_len : ℕ
map_len = 65536

infixl 5 ◌>>=◌
abbrev pub ◌>>=◌ {ℓ κ} : {A : Type ℓ} {B : Type κ} → Option A → (A → Option B) → Option B
none >>= f = none
some a >>= f = f a

-- the first `if`: `none` stands for -1
unfoldable pub mark_begin : Bool → ℕ → Option ℕ → Option ℕ
mark_begin port index none = if port then some index else none
mark_begin port index (some b) = some b

-- the second and the third `if`; `end` is -1 when an iteration begins
unfoldable pub mark_end : Bool → ℕ → Option ℕ → Option ℕ
mark_end port index none = none
mark_end port index (some b) =
    if not port then some (index - 1) else if index == map_len - 1 then some index else none

-- the ports of a run that ends in this iteration
unfoldable pub close_run : Option ℕ → Option ℕ → Option (ℕ × ℕ)
close_run (some b) (some e) = some (b, e)
close_run b e = none

-- for index, port := range portMap, on the number of iterations that are left
unfoldable pub scan : ℕ → PortMap → String → ℕ → Option ℕ → Option (List RulePort)
unfolding mark_begin mark_end close_run
scan zero m protocol index begin = some []
scan (suc left) m protocol index begin =
    elim (close_run (mark_begin (m index) index begin)
      (mark_end (m index) index (mark_begin (m index) index begin))) [
        | none ↦ scan left m protocol (index + 1) (mark_begin (m index) index begin)
        | some (b, e) ↦ cal_port_range_mask (b % u16_mod) (e % u16_mod) protocol >>= λ ports.
            scan left m protocol (index + 1) none >>= λ rest. some (ports ++ rest)
      ]

unfoldable pub process_flatten_ports : PortMap → String → Option (List RulePort)
unfolding scan
process_flatten_ports m protocol = scan map_len m protocol 0 none
