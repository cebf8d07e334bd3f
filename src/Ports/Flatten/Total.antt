-- ===== src/Ports/Flatten/Total.antt =====
-- FlattenPorts has no loop that runs for ever: it returns the RulePorts, or reports a range that
-- UnmarshalPortRange refuses.
use everoute.Common.{
  ℕ, zero, suc, ◌+◌, ◌-◌, ◌%◌, ◌<◌, ◌≡◌, refl, arith, String, true, false, ◌&&◌, Option, none, some,
  List, [], ◌∷◌, ◌++◌, leb, ◌==◌, nat_eq, string_eq, ◌⊎◌, ok, err, Result-cases, Option-cases, inl,
  inr,
}
use native.Mathlib.Decide.{dec_lt}
use everoute.Api.{SecurityPolicyPort, protocol_tcp, protocol_udp}
use everoute.Text.{split}
use everoute.Ports.{RulePort, range_loop, cal_port_range_mask}
use everoute.Ports.Cover.{cal_port_range_mask-exact}
use everoute.Ports.Scan.{PortMap, scan, process_flatten_ports, close_run, mark_begin, mark_end}
use everoute.Ports.Flatten.{
  Tables, FlattenError, RangeError, unavailable, out_of_fuel, empty_tables, icmp_ports, collect,
  flatten_loop, flatten_ports, flatten_port, sub_ranges, unmarshal_port_range, mark_tables,
}

-- a range that is already passed
after : (b e : ℕ) (protocol : String) → e < b → cal_port_range_mask b e protocol ≡ some []
unfolding cal_port_range_mask range_loop
after b e protocol h =
    let fuel : e - b + 2 ≡ 2 = omega arith in
    let stop : leb b e ≡ false = ground arith in
    let start : (b == 0 && e == 0) ≡ false = ground arith in rw (start, fuel, stop, range_loop)

-- calPortRangeMask returns for all uint16 arguments.
cal_port_range_mask-total :
    (b e : ℕ) (protocol : String)
    → b < 65536
    → e < 65536
    → (ports : List RulePort) × (cal_port_range_mask b e protocol ≡ some ports)
unfolding cal_port_range_mask range_loop
cal_port_range_mask-total zero zero protocol hb he = (_, refl)
cal_port_range_mask-total zero (suc e) protocol hb he =
    let positive : (suc e == 0) ≡ false = ground arith in
    let inside : leb 0 (suc e) ≡ true = ground arith in
    let fuel : suc e - 0 + 2 ≡ suc (e + 2) = omega arith in
    ([], rw (positive, fuel, inside, range_loop) refl)
cal_port_range_mask-total (suc b) e protocol hb he = elim (dec_lt e (suc b)) [
  | yes empty ↦ ([], after (suc b) e protocol empty)
  | no h ↦
      let (ports, returned, _) =
        cal_port_range_mask-exact (suc b) e protocol (omega arith) (omega arith) he in
      (ports, returned)
]

scan-total :
    (left index : ℕ) (m : PortMap) (protocol : String) (begin : Option ℕ)
    → (ports : List RulePort) × (scan left m protocol index begin ≡ some ports)
unfolding scan
scan-total zero index m protocol begin = ([], refl)
scan-total (suc left) index m protocol begin =
    elim (Option-cases (
      close_run (mark_begin (m index) index begin)
        (mark_end (m index) index (mark_begin (m index) index begin)))) [
          | inl opened ↦
              let (ports, returned) =
                scan-total left (index + 1) m protocol (mark_begin (m index) index begin) in
              (ports, rw (opened, scan) returned)
          | inr ((b, e), closed) ↦
              let (ports, split) =
                cal_port_range_mask-total (b % 65536) (e % 65536) protocol (omega arith)
                  (omega arith) in
              let (rest, returned) = scan-total left (index + 1) m protocol none in
              (ports ++ rest, rw (closed, scan, split, returned) refl)
        ]

-- the range that an error names is one that UnmarshalPortRange refuses, for the same reason
abbrev Refused : FlattenError → Type 0
Refused (unavailable range e) = unmarshal_port_range range ≡ err e
Refused out_of_fuel = ⊥

sub_ranges-Refused :
    (protocol : String) (ranges : List String) (t : Tables) (e : FlattenError)
    → sub_ranges protocol ranges t ≡ err e
    → Refused e
unfolding sub_ranges
sub_ranges-Refused protocol [] t e h = absurd (ground arith)
sub_ranges-Refused protocol (range ∷ rest) t e h =
    elim (Result-cases (unmarshal_port_range range)) [
      | inl (why, failed) ↦ let same : e ≡ unavailable range why = ground arith in rw same failed
      | inr ((b, c), parsed) ↦
          sub_ranges-Refused protocol rest (mark_tables protocol b c t) e (ground arith)
    ]

flatten_port-Refused :
    (p : SecurityPolicyPort) (t : Tables) (e : FlattenError) → flatten_port p t ≡ err e → Refused e
unfolding flatten_port
flatten_port-Refused p t e h =
    sub_ranges-Refused p.protocol (split b',' p.port_range) t e (ground arith)

flatten_loop-Refused :
    (ports : List SecurityPolicyPort) (t : Tables) (e : FlattenError)
    → flatten_loop ports t ≡ err e
    → Refused e
unfolding flatten_loop
flatten_loop-Refused [] t e h = absurd (ground arith)
flatten_loop-Refused (p ∷ ps) t e h = elim (Result-cases (flatten_port p t)) [
  | inl (why, failed) ↦
      let same : e ≡ why = ground arith in rw same (flatten_port-Refused p t why failed)
  | inr (u, done) ↦ flatten_loop-Refused ps u e (rw done at h)
]

pub collect-total : (t : Tables) → (rules : List RulePort) × (collect t ≡ ok rules)
unfolding collect process_flatten_ports
collect-total t =
    let (tcp, a) = scan-total 65536 0 t.port_map_tcp protocol_tcp none in
    let (udp, b) = scan-total 65536 0 t.port_map_udp protocol_udp none in
    (((t.rule_port_list ++ tcp) ++ udp) ++ icmp_ports t.has_icmp, rw (a, b) refl)

-- FlattenPorts ends for every list of ports. It returns RulePorts, or the error "unavailable" for
-- a text that UnmarshalPortRange refuses with the error inside.
pub flatten_ports-total :
    (ports : List SecurityPolicyPort)
    → ((rules : List RulePort) × (flatten_ports ports ≡ ok rules))
      ⊎ ((range : String) × (why : RangeError) × (flatten_ports ports ≡ err (unavailable range why))
          × (unmarshal_port_range range ≡ err why))
unfolding flatten_ports
flatten_ports-total [] = inl (_, refl)
flatten_ports-total (p ∷ ps) = elim (Result-cases (flatten_loop (p ∷ ps) empty_tables)) [
  | inr (t, done) ↦ let (rules, returned) = collect-total t in inl (rules, rw done returned)
  | inl (e, failed) ↦ inr (reported e failed (flatten_loop-Refused (p ∷ ps) empty_tables e failed))
]
  where
    reported :
        (e : FlattenError)
        → flatten_loop (p ∷ ps) empty_tables ≡ err e
        → Refused e
        → (range : String) × (why : RangeError) × (flatten_ports (p ∷ ps)
            ≡ err (unavailable range why))
          × (unmarshal_port_range range ≡ err why)
    reported (unavailable range why) failed refused = (range, why, rw failed, refused)
    reported out_of_fuel failed refused = absurd refused
