-- ===== src/Ports/Flatten/Marks.antt =====
-- What the loops of FlattenPorts leave in its variables.
use everoute.Common.{
  ℕ, zero, suc, ◌+◌, ◌-◌, ◌≡◌, refl, ◌∙◌, ap, arith, String, Bool, true, false, ◌&&◌, ◌||◌, not,
  List, [], ◌∷◌, ◌++◌, any, ltb, leb, ◌==◌, nat_eq, string_eq, if◌then◌else◌, ok, err, Result-cases,
  inl, inr, Bool-cases,
}
use mathlib.Core.List.{append_assoc, append-nil}
use everoute.Api.{SecurityPolicyPort, protocol_tcp, protocol_udp, protocol_icmp, port_type_name}
use everoute.Text.{split}
use everoute.Ports.{RulePort}
use everoute.Ports.Cover.{in_range}
use everoute.Ports.Scan.{PortMap}
use everoute.Ports.Flatten.{
  Tables, unmarshal_port_range, mark, mark_tables, sub_ranges, name_ports, flatten_port,
  flatten_loop,
}

-- whether a text is a port range that contains x
abbrev pub range_has : ℕ → String → Bool
range_has x range = elim (unmarshal_port_range range) [ err _ ↦ false | ok (b, e) ↦ in_range b e x ]

-- whether a port of the policy lists the number x for a protocol
abbrev pub lists : String → ℕ → SecurityPolicyPort → Bool
lists protocol x p =
    p.protocol == protocol
    && not (p.type == port_type_name)
    && any (range_has x) (split b',' p.port_range)

abbrev pub is_icmp : SecurityPolicyPort → Bool
is_icmp p = p.protocol == protocol_icmp

-- the RulePorts of the named ports, in the order of the policy
abbrev pub named : List SecurityPolicyPort → List RulePort
named [] = []
named (p ∷ ps) =
    (if not (is_icmp p) && p.type == port_type_name
      then name_ports p.protocol (split b',' p.port_range)
      else [])
    ++ named ps

mark_lem :
    (left port : ℕ) (m : PortMap) (x : ℕ)
    → mark left port m x ≡ (m x || leb port x && ltb x (port + left))
unfolding mark
mark_lem zero port m x = ground arith
mark_lem (suc left) port m x =
    ground (arith, mark_lem left (port + 1) (λ y. if y == port then true else m y) x)

-- `t'` is `t` with the ports of `f` marked for a protocol.
pub record Marked (protocol : String) (f : ℕ → Bool) (t t' : Tables) : Type 0 where
  pub tcp : (x : ℕ) → t'.port_map_tcp x ≡ (t.port_map_tcp x || protocol == protocol_tcp && f x)
  pub udp : (x : ℕ) → t'.port_map_udp x ≡ (t.port_map_udp x || protocol == protocol_udp && f x)
  pub kept_list : t'.rule_port_list ≡ t.rule_port_list
  pub kept_icmp : t'.has_icmp ≡ t.has_icmp

mark_tables-Marked :
    (protocol : String) (b e : ℕ) (t : Tables)
    → Marked protocol (in_range b e) t (mark_tables protocol b e t)
unfolding mark_tables
mark_tables-Marked protocol b e t = record {
  tcp = λ x. ground (arith, mark_lem (e + 1 - b) b t.port_map_tcp x);
  udp = λ x. ground (arith, mark_lem (e + 1 - b) b t.port_map_udp x);
  kept_list = refl;
  kept_icmp = refl;
}

sub_ranges-Marked :
    (protocol : String) (ranges : List String) (t t' : Tables)
    → sub_ranges protocol ranges t ≡ ok t'
    → Marked protocol (λ x. any (range_has x) ranges) t t'
unfolding sub_ranges
sub_ranges-Marked protocol [] t t' h = record {
  tcp = λ x. ground arith;
  udp = λ x. ground arith;
  kept_list = ground arith;
  kept_icmp = ground arith;
}
sub_ranges-Marked protocol (range ∷ rest) t t' h =
    elim (Result-cases (unmarshal_port_range range)) [
      | inl (e, failed) ↦ absurd (ground arith)
      | inr ((b, e), parsed) ↦
          let first = mark_tables-Marked protocol b e t in
          let more =
            sub_ranges-Marked protocol rest (mark_tables protocol b e t) t' (ground arith) in
          record {
            tcp = λ x. ground (arith, first.tcp x, more.tcp x);
            udp = λ x. ground (arith, first.udp x, more.udp x);
            kept_list = more.kept_list ∙ first.kept_list;
            kept_icmp = more.kept_icmp ∙ first.kept_icmp;
          }
    ]

-- `t'` is `t` after the ports of a policy.
pub record Flattened (ports : List SecurityPolicyPort) (t t' : Tables) : Type 0 where
  pub tcp : (x : ℕ) → t'.port_map_tcp x ≡ (t.port_map_tcp x || any (lists protocol_tcp x) ports)
  pub udp : (x : ℕ) → t'.port_map_udp x ≡ (t.port_map_udp x || any (lists protocol_udp x) ports)
  pub list : t'.rule_port_list ≡ t.rule_port_list ++ named ports
  pub icmp : t'.has_icmp ≡ (t.has_icmp || any is_icmp ports)

flatten_port-Flattened :
    (p : SecurityPolicyPort) (t t' : Tables) → flatten_port p t ≡ ok t' → Flattened (p ∷ []) t t'
unfolding flatten_port
flatten_port-Flattened p t t' h = elim (Bool-cases (is_icmp p)) [
  | inl icmp ↦
      let e = (string_eq.beq_iff p.protocol protocol_icmp).0 icmp in
      let no_tcp : (p.protocol == protocol_tcp) ≡ false = rw e refl in
      let no_udp : (p.protocol == protocol_udp) ≡ false = rw e refl in
      record {
        tcp = λ x. ground arith;
        udp = λ x. ground arith;
        list = rw icmp (ground (arith, append-nil t.rule_port_list));
        icmp = ground arith;
      }
  | inr other ↦ elim (Bool-cases (p.type == port_type_name)) [
    | inl name ↦ record {
      tcp = λ x. ground arith;
      udp = λ x. ground arith;
      list = rw (other, name, append-nil) (ground arith);
      icmp = ground arith;
    }
    | inr number ↦
        let marks =
          sub_ranges-Marked p.protocol (split b',' p.port_range) t t' (rw (other, number) at h) in
        record {
          tcp = λ x. ground (arith, marks.tcp x);
          udp = λ x. ground (arith, marks.udp x);
          list = rw (number, other, append-nil) marks.kept_list;
          icmp = ground (arith, marks.kept_icmp);
        }
  ]
]

joined :
    (p : SecurityPolicyPort) (ps : List SecurityPolicyPort) (t : Tables)
    → (t.rule_port_list ++ named (p ∷ [])) ++ named ps ≡ t.rule_port_list ++ named (p ∷ ps)
joined p ps t = simp (append_assoc, append-nil)

pub flatten_loop-Flattened :
    (ports : List SecurityPolicyPort) (t t' : Tables)
    → flatten_loop ports t ≡ ok t'
    → Flattened ports t t'
unfolding flatten_loop
flatten_loop-Flattened [] t t' h = record {
  tcp = λ x. ground arith;
  udp = λ x. ground arith;
  list = rw append-nil (ground arith);
  icmp = ground arith;
}
flatten_loop-Flattened (p ∷ ps) t t' h = elim (Result-cases (flatten_port p t)) [
  | inl (e, failed) ↦ absurd (ground arith)
  | inr (u, done) ↦
      let first = flatten_port-Flattened p t u done in
      let more = flatten_loop-Flattened ps u t' (rw done at h) in
      record {
        tcp = λ x. ground (arith, first.tcp x, more.tcp x);
        udp = λ x. ground (arith, first.udp x, more.udp x);
        list = more.list ∙ ap (λ l. l ++ named ps) first.list ∙ joined p ps t;
        icmp = ground (arith, first.icmp, more.icmp);
      }
]
