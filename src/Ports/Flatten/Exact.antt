-- ===== src/Ports/Flatten/Exact.antt =====
-- FlattenPorts: the RulePorts of the TCP and UDP port numbers match the numbers that the policy
-- lists; the named ports and ICMP come beside them; and no loop runs for ever.
use everoute.Common.{
  ℕ, ◌<◌, ◌≡◌, ◌∙◌, ap, arith, String, false, some, List, ◌∷◌, ◌++◌, All, any, nat_eq, string_eq,
  if◌then◌else◌, ok, Result-cases, inl, inr,
}
use everoute.Api.{SecurityPolicyPort, protocol_tcp, protocol_udp}
use everoute.Ports.{RulePort}
use everoute.Ports.Cover.{matches}
use everoute.Ports.Scan.{PortMap, process_flatten_ports}
use everoute.Ports.Scan.Exact.{process_flatten_ports-exact}
use everoute.Ports.Flatten.{Tables, empty_tables, icmp_ports, collect, flatten_loop, flatten_ports}
use everoute.Ports.Flatten.Marks.{lists, is_icmp, named, Flattened, flatten_loop-Flattened}

-- The RulePorts of one protocol: each number that the policy lists is matched once, no other.
pub record Exactly (protocol : String) (ports : List SecurityPolicyPort) (rules : List RulePort)
    : Type 0 where
  pub once : (x : ℕ) → x < 65536 → matches rules x ≡ (if any (lists protocol x) ports then 1 else 0)
  pub protocols : All (λ r. r.protocol ≡ protocol) rules

-- the numbers of one table
table_lem :
    (protocol : String) (ports : List SecurityPolicyPort) (m : PortMap)
    → ((x : ℕ) → m x ≡ any (lists protocol x) ports)
    → any (lists protocol 0) ports ≡ false
    → (rules : List RulePort) × (process_flatten_ports m protocol ≡ some rules)
      × Exactly protocol ports rules
table_lem protocol ports m marks first =
    let (rules, returned, once, protocols) =
      process_flatten_ports-exact m protocol (marks 0 ∙ first) in
    (
      rules,
      returned,
      record {
        once = λ x h. once x h ∙ ap (λ b. if b then 1 else 0) (marks x);
        protocols = protocols;
      },
    )

collected :
    (ports : List SecurityPolicyPort) (t : Tables) (tcp udp rules : List RulePort)
    → Flattened ports empty_tables t
    → process_flatten_ports t.port_map_tcp protocol_tcp ≡ some tcp
    → process_flatten_ports t.port_map_udp protocol_udp ≡ some udp
    → collect t ≡ ok rules
    → rules ≡ ((named ports ++ tcp) ++ udp) ++ icmp_ports (any is_icmp ports)
unfolding collect
collected ports t tcp udp rules f some_tcp some_udp h =
    let done : ((t.rule_port_list ++ tcp) ++ udp) ++ icmp_ports t.has_icmp ≡ rules =
      ground (arith, rw (some_tcp, some_udp) at h) in
    ground (arith, f.list, f.icmp, done)

-- If FlattenPorts accepts a list of ports in which no TCP and no UDP range contains port 0, its
-- result is the RulePorts of the named ports in order, then those of the TCP numbers, those of
-- the UDP numbers, and one for ICMP if some port has that protocol. The RulePorts of the TCP (UDP)
-- numbers match each number that a TCP (UDP) port lists exactly once and no other number.
pub flatten_ports-exact :
    (p : SecurityPolicyPort) (ps : List SecurityPolicyPort) (rules : List RulePort)
    → flatten_ports (p ∷ ps) ≡ ok rules
    → any (lists protocol_tcp 0) (p ∷ ps) ≡ false
    → any (lists protocol_udp 0) (p ∷ ps) ≡ false
    → (tcp udp : List RulePort) × (rules
        ≡ ((named (p ∷ ps) ++ tcp) ++ udp) ++ icmp_ports (any is_icmp (p ∷ ps)))
      × Exactly protocol_tcp (p ∷ ps) tcp
      × Exactly protocol_udp (p ∷ ps) udp
unfolding flatten_ports
flatten_ports-exact p ps rules h no_tcp no_udp =
    elim (Result-cases (flatten_loop (p ∷ ps) empty_tables)) [
      | inl (e, failed) ↦ absurd (ground arith)
      | inr (t, done) ↦
          let f = flatten_loop-Flattened (p ∷ ps) empty_tables t done in
          let (tcp, some_tcp, exact_tcp) =
            table_lem protocol_tcp (p ∷ ps) t.port_map_tcp f.tcp no_tcp in
          let (udp, some_udp, exact_udp) =
            table_lem protocol_udp (p ∷ ps) t.port_map_udp f.udp no_udp in
          (
            tcp,
            udp,
            collected (p ∷ ps) t tcp udp rules f some_tcp some_udp (rw done at h),
            exact_tcp,
            exact_udp,
          )
    ]
