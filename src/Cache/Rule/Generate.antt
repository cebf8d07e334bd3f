-- ===== src/Cache/Rule/Generate.antt =====
-- The PolicyRules that a CompleteRule generates.
use Prim.Native.String.{◌++◌ as text_append}
use everoute.Common.{
  ◌≡◌, refl, String, Bool, true, false, ◌&&◌, ◌||◌, not, Option, List, ◌++◌, ◌==◌, string_eq,
  if◌then◌else◌, arith, Bool-cases, inl, inr, All, All-if, All-append, All-gather, gather-append,
}
use everoute.Ports.{RulePort}
use everoute.Cache.{IpBlockItem, Blocks}
use everoute.Cache.Rule.{
  CompleteRule, PolicyRule, Env, rule_direction_in, rule_direction_out, rule_type_default,
  rule_type_normal, append_if, has_local_rule, generate_rule, generate_flow_key, dst_ports,
  rules_of_port, rules_between, generate_rule_list,
}

-- What every PolicyRule of a CompleteRule has, by its own fields and those of the CompleteRule.
pub record Sound (env : Env) (rule : CompleteRule) (r : PolicyRule) : Type 0 where
  pub name : r.name ≡ text_append rule.rule_id (text_append "-" (generate_flow_key env r))
  pub action : r.action ≡ rule.action
  pub tier : r.tier ≡ rule.tier
  pub enforcement_mode : r.enforcement_mode ≡ rule.enforcement_mode
  pub rule_type :
      r.rule_type ≡ (if rule.default_policy_rule then rule_type_default else rule_type_normal)
  pub direction :
      (rule.symmetric_mode ≡ false → r.direction ≡ rule.direction)
      × ((r.direction == rule_direction_in || r.direction == rule_direction_out) ≡ true)
  pub not_to_self : (not (r.src_ip_addr == "") && r.src_ip_addr == r.dst_ip_addr) ≡ false

generate_rule-Sound :
    (env : Env) (rule : CompleteRule) (src dst direction : String) (port : RulePort)
    → (rule.symmetric_mode ≡ false → direction ≡ rule.direction)
    → (direction == rule_direction_in || direction == rule_direction_out) ≡ true
    → (not (src == "") && not (dst == "") && src == dst) ≡ false
    → Sound env rule (generate_rule env rule src dst direction port)
unfolding generate_rule generate_flow_key
generate_rule-Sound env rule src dst direction port d io ne = record {
  name = refl;
  action = refl;
  tier = refl;
  enforcement_mode = refl;
  rule_type = refl;
  direction = (d, io);
  not_to_self =
      ground (arith, string_eq.beq_iff src dst, string_eq.beq_iff src "", string_eq.beq_iff dst "");
}

clash : (d e : String) (b : Bool) → b ≡ true → b ≡ false → d ≡ e
clash d e b yes_b no_b = cc

append_if-All :
    (env : Env) (rule : CompleteRule) (b : Bool) (r : PolicyRule)
    → (b ≡ true → Sound env rule r)
    → All (Sound env rule) (append_if b r)
append_if-All env rule true r h = (h refl, tt)
append_if-All env rule false r h = tt

rules_of_port-Sound :
    (env : Env) (rule : CompleteRule) (src : String) (src_block : Option IpBlockItem) (dst : String)
    (dst_block : Option IpBlockItem) (port : RulePort)
    → (not (src == "") && not (dst == "") && src == dst) ≡ false
    → All (Sound env rule) (rules_of_port env rule src src_block dst dst_block port)
unfolding rules_of_port
rules_of_port-Sound env rule src src_block dst dst_block port ne =
    All-if (Sound env rule) rule.symmetric_mode _ _
      (λ symmetric.
        All-append (Sound env rule)
          (append_if (has_local_rule env.current_agent dst_block)
            (generate_rule env rule src dst rule_direction_in port))
          (append_if (has_local_rule env.current_agent src_block)
            (generate_rule env rule src dst rule_direction_out port))
          (append_if-All env rule _ _
            (λ h. generate_rule-Sound env rule src dst _ port (clash _ _ _ symmetric) refl ne))
          (append_if-All env rule _ _
            (λ h. generate_rule-Sound env rule src dst _ port (clash _ _ _ symmetric) refl ne)))
      (λ directed.
        append_if-All env rule _ _
          (λ h. generate_rule-Sound env rule src dst _ port (λ no. refl) (ground arith) ne))

rules_between-Sound :
    (env : Env) (rule : CompleteRule) (ports : List RulePort)
    (src dst : String × Option IpBlockItem)
    → All (Sound env rule) (rules_between env rule ports src dst)
unfolding rules_between
rules_between-Sound env rule ports (src, src_block) (dst, dst_block) =
    elim (Bool-cases (not (src == "") && not (dst == "") && src == dst)) [
      | inl same ↦ rw same tt
      | inr ne ↦ rw ne (
          All-gather (Sound env rule) _
            (λ port.
              All-gather (Sound env rule) _
                (λ p. rules_of_port-Sound env rule src src_block dst dst_block p ne)
                (dst_ports dst_block port))
            ports)
    ]

-- Every PolicyRule that generateRuleList makes has a name that ends in its flow key, after a dash,
-- and the action, the tier and the mode of its CompleteRule and the type that its default flag
-- gives; its direction is ingress or egress, that of the CompleteRule where the rule is not
-- symmetric; and its source is no address that is also its destination.
pub generate_rule_list-Sound :
    (env : Env) (rule : CompleteRule) (src dst : Blocks) (ports : List RulePort)
    → All (Sound env rule) (generate_rule_list env rule src dst ports)
unfolding generate_rule_list
generate_rule_list-Sound env rule src dst ports =
    All-gather (Sound env rule) _
      (λ s. All-gather (Sound env rule) _ (λ d. rules_between-Sound env rule ports s d) dst) src

-- what one source adds is what the list of that source alone gives
pub generate_rule_list-append :
    (env : Env) (rule : CompleteRule) (src src' dst : Blocks) (ports : List RulePort)
    → generate_rule_list env rule (src ++ src') dst ports
      ≡ generate_rule_list env rule src dst ports ++ generate_rule_list env rule src' dst ports
unfolding generate_rule_list
generate_rule_list-append env rule src src' dst ports = gather-append _ src src'
