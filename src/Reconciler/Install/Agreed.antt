-- ===== src/Reconciler/Install/Agreed.antt =====
-- The rules that the cache generates, as the datapath is asked for them: those with one flow key are
-- one rule.
use everoute.Common.{
  Bool, false, ℕ, ◌≡◌, refl, ap, ◌∙◌, String, true, ◌||◌, ◌&&◌, not, nat_eq, Option, some, ◌==◌,
  string_eq, if◌then◌else◌, arith, Bool-cases, inl, inr,
}
use everoute.Cache.Rule.{
  Env, CompleteRule, PolicyRule, rule_action_allow, rule_action_drop, rule_type_default,
  rule_direction_in, rule_direction_out,
}
use everoute.Cache.Rule.Generate.{Sound}
use everoute.Datapath.Rules.{EveroutePolicyRule, Place}
use everoute.Datapath.Bridge.{is_accepted, is_accepted-known, is_address, is_tier}
use everoute.Reconciler.Install.{
  protocol_to_int, get_rule_action, get_rule_direction, get_rule_tier, numbered_rule,
  to_everoute_policy_rule, place_of,
}

-- what generateFlowKey has the digest of
abbrev pub flow_of : PolicyRule → PolicyRule
flow_of r = record r { name = ""; action = "" }

abbrev pub action_of_type : String → String
action_of_type rule_type =
    if rule_type == rule_type_default then rule_action_drop else rule_action_allow

-- A rule that the cache generates from a rule of a policy, with a protocol, a tier and a mode of the
-- API, but not with the first tier in the mode that monitors, and with addresses that can be read.
pub record IsOfPolicy (env : Env) (parses : String → Bool) (r : PolicyRule) : Type 0 where
  pub made : CompleteRule
  pub sound : Sound env made r
  pub action :
      made.action ≡ (if made.default_policy_rule then rule_action_drop else rule_action_allow)
  pub protocol : (n : ℕ) × (protocol_to_int r.ip_protocol ≡ some n)
  pub tier : (n : ℕ) × (get_rule_tier r.tier ≡ some n)
  pub mode :
      (r.enforcement_mode == "work" || r.enforcement_mode == "monitor" && not (r.tier == "tier0"))
      ≡ true
  pub addresses : (is_address parses r.src_ip_addr && is_address parses r.dst_ip_addr) ≡ true

IsOfPolicy-action :
    (env : Env) (parses : String → Bool) (r : PolicyRule)
    → IsOfPolicy env parses r
    → r.action ≡ action_of_type r.rule_type
IsOfPolicy-action env parses r h = elim (Bool-cases h.made.default_policy_rule) [
  | inl is ↦ h.sound.action ∙ h.action ∙ rw (h.sound.rule_type, is) refl
  | inr other ↦ h.sound.action ∙ h.action ∙ rw (h.sound.rule_type, other) refl
]

get_rule_action-of_type :
    (rule_type : String)
    → get_rule_action (action_of_type rule_type)
      ≡ some (if rule_type == rule_type_default then "deny" else "allow")
unfolding get_rule_action
get_rule_action-of_type rule_type = elim (Bool-cases (rule_type == rule_type_default)) [
  | inl is ↦ rw is refl
  | inr other ↦ rw other refl
]

get_rule_direction-known :
    (d : String)
    → (d == rule_direction_in || d == rule_direction_out) ≡ true
    → (n : ℕ) × (get_rule_direction d ≡ some n) × ((n == 0 || n == 1) ≡ true)
unfolding get_rule_direction
get_rule_direction-known d h = elim (Bool-cases (d == rule_direction_out)) [
  | inl out ↦ (0, rw out refl, refl)
  | inr other ↦
      let back : (d == rule_direction_in) ≡ true = ground (arith, h, other) in
      (1, rw (other, back) refl, refl)
]

-- the action in the datapath of a rule, by whether it is a default rule
abbrev verb : Bool → String
verb is_default = if is_default then "deny" else "allow"

verb_known : (b : Bool) → (verb b == "allow" || verb b == "deny") ≡ true
verb_known true = refl
verb_known false = refl

get_rule_tier-known :
    (tier : String) (t : ℕ)
    → get_rule_tier tier ≡ some t
    → (is_tier t ≡ true) × ((t == 50) ≡ (tier == "tier0"))
unfolding get_rule_tier
get_rule_tier-known tier t h = (ground (arith, h), ground (arith, h))

-- A rule that the cache generates from a rule of a policy reaches the datapath: no klog.Fatalf ends
-- the agent, and the bridges accept the rule.
pub IsOfPolicy-requested :
    (env : Env) (parses : String → Bool) (id : String) (r : PolicyRule)
    → IsOfPolicy env parses r
    → (rule : EveroutePolicyRule) × (place : Place) × (to_everoute_policy_rule id r ≡ some rule)
      × (rule.rule_id ≡ id)
      × (place_of r ≡ some place)
      × (is_accepted parses rule place ≡ true)
unfolding to_everoute_policy_rule place_of numbered_rule
IsOfPolicy-requested env parses id r h =
    let (n, proto) = h.protocol in
    let (t, tier) = h.tier in
    let (d, direction, known) = get_rule_direction-known r.direction h.sound.direction.1 in
    let action =
      ap get_rule_action (IsOfPolicy-action env parses r h) ∙ get_rule_action-of_type r.rule_type in
    let (tier_known, first) = get_rule_tier-known r.tier t tier in
    let place : Place = record { direction = d; tier = t; mode = r.enforcement_mode } in
    (
      numbered_rule id r n (verb (r.rule_type == rule_type_default)),
      record { direction = d; tier = t; mode = r.enforcement_mode },
      rw (proto, action) refl,
      refl,
      rw (direction, tier) refl,
      is_accepted-known parses (numbered_rule id r n (verb (r.rule_type == rule_type_default)))
          place known tier_known (ground (arith, h.mode, first)) h.addresses
          (verb_known (r.rule_type == rule_type_default)),
    )

-- the rule that the datapath is asked for, by the ID and the flow
abbrev pub requested_flow : String → PolicyRule → Option EveroutePolicyRule
requested_flow id flow =
    to_everoute_policy_rule id (record flow { action = action_of_type flow.rule_type })

pub to_everoute_policy_rule-flow_of :
    (env : Env) (parses : String → Bool) (id : String) (r : PolicyRule)
    → IsOfPolicy env parses r
    → to_everoute_policy_rule id r ≡ requested_flow id (flow_of r)
unfolding to_everoute_policy_rule numbered_rule
to_everoute_policy_rule-flow_of env parses id r h = rw (IsOfPolicy-action env parses r h) refl
