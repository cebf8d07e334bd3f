-- ===== src/Tests/PortTests.antt =====
-- Port ranges at concrete inputs (pkg/agent/controller/policy/policy_controller_helper.go).
use everoute.Common.{
  ℕ, ◌≡◌, refl, String, some, List, [], ◌∷◌, ◌++◌, any, arith, ok, err, ◌⊎◌, ◌==◌, nat_eq, ◌||◌,
}
use everoute.Api.{SecurityPolicyPort, protocol_tcp, protocol_udp}
use everoute.Text.{split, is_number, parse_uint16}
use everoute.Ports.{RulePort, zero_port, next_block, pos_to_mask, shl16, cal_port_range_mask}
use everoute.Ports.Cover.{Covers, cal_port_range_mask-exact, cal_port_range_mask-from_zero}
use everoute.Ports.Scan.{PortMap, process_flatten_ports}
use everoute.Ports.Flatten.{
  flatten_ports, unmarshal_port_range, mark_tables, icmp_ports, RangeError, unavailable,
}
use everoute.Ports.Flatten.Marks.{is_icmp, named}
use everoute.Ports.Flatten.Exact.{Exactly, flatten_ports-exact}
use everoute.Ports.Flatten.Total.{flatten_ports-total}

cal_port_range_mask-exact_example :
    (ports : List RulePort) × (cal_port_range_mask 20 80 "TCP" ≡ some ports)
    × Covers 20 80 "TCP" ports
cal_port_range_mask-exact_example =
    cal_port_range_mask-exact 20 80 "TCP" (omega arith) (omega arith) (omega arith)

cal_port_range_mask-from_zero_example : cal_port_range_mask 0 80 "TCP" ≡ some []
cal_port_range_mask-from_zero_example =
    cal_port_range_mask-from_zero 80 "TCP" (omega arith) (omega arith)

abbrev web_ports : PortMap
web_ports x = x == 80 || x == 443

abbrev web : SecurityPolicyPort
web = record { protocol = "TCP"; port_range = "80,443"; type = "number" }

abbrev exact_match : ℕ → RulePort
exact_match x = record zero_port { protocol = "TCP"; dst_port = x; dst_port_mask = 0xffff }

web_rules : flatten_ports (web ∷ []) ≡ ok (exact_match 80 ∷ exact_match 443 ∷ [])
unfolding flatten_ports unmarshal_port_range mark_tables process_flatten_ports split is_number
    parse_uint16 cal_port_range_mask next_block pos_to_mask shl16
web_rules = refl

flatten_ports-exact_example :
    (tcp udp : List RulePort) × (exact_match 80 ∷ exact_match 443 ∷ []
      ≡ ((named (web ∷ []) ++ tcp) ++ udp) ++ icmp_ports (any is_icmp (web ∷ [])))
    × Exactly protocol_tcp (web ∷ []) tcp
    × Exactly protocol_udp (web ∷ []) udp
unfolding unmarshal_port_range split is_number parse_uint16
flatten_ports-exact_example =
    flatten_ports-exact web [] (exact_match 80 ∷ exact_match 443 ∷ []) web_rules refl refl

flatten_ports-total_example :
    ((rules : List RulePort) × (flatten_ports (web ∷ []) ≡ ok rules))
    ⊎ ((range : String) × (why : RangeError) × (flatten_ports (web ∷ [])
          ≡ err (unavailable range why))
        × (unmarshal_port_range range ≡ err why))
flatten_ports-total_example = flatten_ports-total (web ∷ [])
