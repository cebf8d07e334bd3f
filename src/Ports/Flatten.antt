-- ===== src/Ports/Flatten.antt =====
-- UnmarshalPortRange of pkg/agent/controller/policy/cache/helper.go and FlattenPorts of
-- pkg/agent/controller/policy/policy_controller_helper.go.
pub mod Marks
pub mod Exact
pub mod Total
use everoute.Common.{
  ℕ, zero, suc, ◌+◌, ◌-◌, String, Bool, true, false, ◌&&◌, ◌||◌, Option, none, some, List, [], ◌∷◌,
  ◌++◌, ltb, ◌==◌, nat_eq, string_eq, if◌then◌else◌, Result, ok, err,
}
use everoute.Common.Results.{◌>>=◌}
use everoute.Api.{SecurityPolicyPort, protocol_tcp, protocol_udp, protocol_icmp, port_type_name}
use everoute.Text.{split, is_number, parse_uint16}
use everoute.Ports.{RulePort, zero_port}
use everoute.Ports.Scan.{PortMap, process_flatten_ports}

pub data RangeError : Type 0 where
  begin_after_end malformed : String → RangeError

-- `out_of_fuel` stands for a loop that does not end.
pub data FlattenError : Type 0 where
  unavailable : String → RangeError → FlattenError
  out_of_fuel : FlattenError

-- ^(\d{1,5}-\d{1,5})$
unfoldable pub is_pair : List String → Bool
is_pair (b ∷ e ∷ []) = is_number b && is_number e
is_pair _ = false

-- port[0] and port[1]
abbrev pub first_text : List String → String
first_text [] = ""
first_text (p ∷ ps) = p

abbrev pub second_text : List String → String
second_text [] = ""
second_text (p ∷ ps) = first_text ps

unfoldable pub unmarshal_port_range : String → Result RangeError (ℕ × ℕ)
unfolding is_pair
unmarshal_port_range range =
    if range == ""
    then ok (0, 0)
    else if is_number range
    then ok (parse_uint16 range, parse_uint16 range)
    else if is_pair (split b'-' range)
    then (let begin = parse_uint16 (first_text (split b'-' range)) in
        let end = parse_uint16 (second_text (split b'-' range)) in
        if ltb end begin then err (begin_after_end range) else ok (begin, end))
    else err (malformed range)

-- for portNumber := int(begin); portNumber <= int(end); portNumber++, on the rounds left
unfoldable pub mark : ℕ → ℕ → PortMap → PortMap
mark zero port m = m
mark (suc left) port m = mark left (port + 1) (λ x. if x == port then true else m x)

-- the variables of FlattenPorts
pub record Tables : Type 0 where
  pub rule_port_list : List RulePort
  pub port_map_tcp : PortMap
  pub port_map_udp : PortMap
  pub has_icmp : Bool

abbrev pub empty_tables : Tables
empty_tables = record {
  rule_port_list = [];
  port_map_tcp = λ x. false;
  port_map_udp = λ x. false;
  has_icmp = false;
}

-- for _, portName := range portNameList
unfoldable pub name_ports : String → List String → List RulePort
name_ports protocol [] = []
name_ports protocol (port_name ∷ rest) =
    record zero_port { dst_port_name = port_name; protocol = protocol } ∷ name_ports protocol rest

-- the two loops that mark a parsed range
unfoldable pub mark_tables : String → ℕ → ℕ → Tables → Tables
unfolding mark
mark_tables protocol begin end t = record t {
  port_map_tcp =
      if protocol == protocol_tcp
      then mark (end + 1 - begin) begin t.port_map_tcp
      else t.port_map_tcp;
  port_map_udp =
      if protocol == protocol_udp
      then mark (end + 1 - begin) begin t.port_map_udp
      else t.port_map_udp;
}

-- for _, subPortRange := range portRange
unfoldable pub sub_ranges : String → List String → Tables → Result FlattenError Tables
sub_ranges protocol [] t = ok t
sub_ranges protocol (range ∷ rest) t = elim (unmarshal_port_range range) [
  | err e ↦ err (unavailable range e)
  | ok (begin, end) ↦ sub_ranges protocol rest (mark_tables protocol begin end t)
]

-- the body of the loop over `ports`
unfoldable pub flatten_port : SecurityPolicyPort → Tables → Result FlattenError Tables
unfolding sub_ranges name_ports
flatten_port port t =
    if port.protocol == protocol_icmp
    then ok (record t { has_icmp = true })
    else if port.type == port_type_name
    then ok (record t {
      rule_port_list = t.rule_port_list ++ name_ports port.protocol (split b',' port.port_range);
    })
    else sub_ranges port.protocol (split b',' port.port_range) t

unfoldable pub flatten_loop : List SecurityPolicyPort → Tables → Result FlattenError Tables
unfolding flatten_port
flatten_loop [] t = ok t
flatten_loop (port ∷ rest) t = flatten_port port t >>= flatten_loop rest

abbrev pub or_fuel {ℓ} : {A : Type ℓ} → Option A → Result FlattenError A
or_fuel none = err out_of_fuel
or_fuel (some a) = ok a

abbrev pub icmp_ports : Bool → List RulePort
icmp_ports has = if has then record zero_port { protocol = protocol_icmp } ∷ [] else []

-- the lists that are appended after the loop
unfoldable pub collect : Tables → Result FlattenError (List RulePort)
collect t = do
  tcp ← or_fuel (process_flatten_ports t.port_map_tcp protocol_tcp)
  udp ← or_fuel (process_flatten_ports t.port_map_udp protocol_udp)
  ok (((t.rule_port_list ++ tcp) ++ udp) ++ icmp_ports t.has_icmp)

unfoldable pub flatten_ports : List SecurityPolicyPort → Result FlattenError (List RulePort)
unfolding flatten_loop collect
flatten_ports [] = ok (zero_port ∷ [])
flatten_ports (port ∷ rest) = flatten_loop (port ∷ rest) empty_tables >>= collect
