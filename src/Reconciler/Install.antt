-- ===== src/Reconciler/Install.antt =====
-- What the reconciler asks of the datapath for a PolicyRule: processPolicyRuleAdd and
-- processPolicyRuleDelete of pkg/agent/controller/policy/policy_controller.go, and the translation in
-- policy_controller_helper.go. `none` is klog.Fatalf or a nil dereference.
pub mod Agreed
pub mod Held
pub mod Keys
use everoute.Common.{
  ℕ, String, Bool, true, false, Option, none, some, List, [], ◌∷◌, ◌==◌, string_eq, if◌then◌else◌,
}
use everoute.Text.{split}
use everoute.GlobalPolicy.{rule_type_global_default_rule}
use everoute.Cache.Rule.{
  PolicyRule, rule_type_default, rule_action_allow, rule_action_drop, rule_direction_in,
  rule_direction_out,
}
use everoute.Datapath.Rules.{
  EveroutePolicyRule, Place, DpManager, Switches, Outcome, add_everoute_policy_rule,
}
use everoute.Datapath.Rules.Removal.{remove_everoute_policy_rule}

unfoldable pub protocol_to_int : String → Option ℕ
protocol_to_int ip_protocol =
    if ip_protocol == "ICMP"
    then some 1
    else if ip_protocol == "TCP"
    then some 6
    else if ip_protocol == "UDP"
    then some 17
    else if ip_protocol == ""
    then some 0
    else none

unfoldable pub get_rule_action : String → Option String
get_rule_action action =
    if action == rule_action_allow
    then some "allow"
    else if action == rule_action_drop
    then some "deny"
    else none

unfoldable pub get_rule_direction : String → Option ℕ
get_rule_direction direction =
    if direction == rule_direction_out
    then some 0
    else if direction == rule_direction_in
    then some 1
    else none

-- POLICY_TIER1, POLICY_TIER2 and POLICY_TIER3 of the datapath
unfoldable pub get_rule_tier : String → Option ℕ
get_rule_tier tier =
    if tier == "tier0"
    then some 50
    else if tier == "tier1"
    then some 100
    else if tier == "tier2"
    then some 150
    else none

unfoldable pub get_rule_priority : String → ℕ
get_rule_priority rule_type =
    if rule_type == rule_type_default
    then 70
    else if rule_type == rule_type_global_default_rule
    then 40
    else 100

-- the rule with the number of its protocol and its action
unfoldable pub numbered_rule : String → PolicyRule → ℕ → String → EveroutePolicyRule
unfolding get_rule_priority
numbered_rule rule_id rule proto action = record {
  rule_id = rule_id;
  priority = get_rule_priority rule.rule_type;
  src_ip_addr = rule.src_ip_addr;
  dst_ip_addr = rule.dst_ip_addr;
  ip_protocol = proto;
  src_port = rule.src_port;
  src_port_mask = rule.src_port_mask;
  dst_port = rule.dst_port;
  dst_port_mask = rule.dst_port_mask;
  action = action;
}

infixl 5 ◌>>=◌
abbrev pub ◌>>=◌ {ℓ} : {A B : Type ℓ} → Option A → (A → Option B) → Option B
none >>= f = none
some a >>= f = f a

unfoldable pub to_everoute_policy_rule : String → PolicyRule → Option EveroutePolicyRule
unfolding protocol_to_int get_rule_action numbered_rule
to_everoute_policy_rule rule_id rule = do
  proto ← protocol_to_int rule.ip_protocol
  action ← get_rule_action rule.action
  some (numbered_rule rule_id rule proto action)

-- direction, tier and mode of the call
unfoldable pub place_of : PolicyRule → Option Place
unfolding get_rule_direction get_rule_tier
place_of rule = do
  direction ← get_rule_direction rule.direction
  tier ← get_rule_tier rule.tier
  some (record { direction = direction; tier = tier; mode = rule.enforcement_mode })

-- keys[len(keys)-1]
abbrev pub last_key : List String → String
last_key [] = ""
last_key (key ∷ []) = key
last_key (key ∷ next ∷ keys) = last_key (next ∷ keys)

unfoldable pub flow_key_from_rule_name : String → String
unfolding split
flow_key_from_rule_name rule_name = last_key (split b'-' rule_name)

module _ (switches : Switches) (bridges : List String) where
  open switches use {State}

  unfoldable pub add_policy_rule_to_datapath :
      String → PolicyRule → DpManager → State → Option (Outcome State)
  unfolding to_everoute_policy_rule place_of
  add_policy_rule_to_datapath rule_id rule m s = elim (to_everoute_policy_rule rule_id rule) [
    | none ↦ none
    | some translated ↦ elim (place_of rule) [
      | none ↦ none
      | some place ↦ some (add_everoute_policy_rule switches bridges translated rule.name place m s)
    ]
  ]

  unfoldable pub process_policy_rule_add : PolicyRule → DpManager → State → Option (Outcome State)
  unfolding flow_key_from_rule_name add_policy_rule_to_datapath
  process_policy_rule_add rule m s =
      add_policy_rule_to_datapath (flow_key_from_rule_name rule.name) rule m s

  unfoldable pub process_policy_rule_delete : String → DpManager → State → Option (Outcome State)
  unfolding flow_key_from_rule_name
  process_policy_rule_delete rule_name m s =
      remove_everoute_policy_rule switches bridges (flow_key_from_rule_name rule_name) rule_name m s
