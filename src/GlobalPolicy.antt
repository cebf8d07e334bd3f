-- ===== src/GlobalPolicy.antt =====
-- ReconcileGlobalPolicy of pkg/agent/controller/policy/global_policy_controller.go. The cache of
-- global rules is a client-go indexer: the rules that it lists are a parameter, those that it holds
-- afterwards a result. Its Add and Delete fail only if the key function does, which it does not.
pub mod Idle
use Prim.Native.String.{◌++◌ as text_append}
use everoute.Common.{String, Bool, true, false, List, [], ◌∷◌, Result, ok, err}
use everoute.Cache.Rule.{PolicyRule, Env, generate_flow_key, rule_direction_in, rule_direction_out}
use everoute.Reconciler.Sync.{Datapath, sync_policy_rules_until_success}
use everoute.Common.{ℕ}

-- GlobalPolicySpec
pub record GlobalPolicy : Type 0 where
  pub default_action : String
  pub global_policy_enforcement_mode : String

abbrev pub default_global_policy_name : String
default_global_policy_name = "everoute-global-policy"

abbrev pub rule_type_global_default_rule : String
rule_type_global_default_rule = "GlobalDefaultRule"

-- cache.GlobalPolicy
abbrev pub global_policy : String
global_policy = "global"

abbrev pub tier2 : String
tier2 = "tier2"

pub data GlobalError : Type 0 where
  list_failed : GlobalError
  multiple_found : GlobalError

-- the rule of a direction without its name
abbrev pub unnamed_global_rule : GlobalPolicy → String → PolicyRule
unnamed_global_rule policy direction = record {
  name = "";
  action = policy.default_action;
  direction = direction;
  rule_type = rule_type_global_default_rule;
  tier = tier2;
  enforcement_mode = policy.global_policy_enforcement_mode;
  src_ip_addr = "";
  dst_ip_addr = "";
  ip_protocol = "";
  src_port = 0;
  dst_port = 0;
  src_port_mask = 0;
  dst_port_mask = 0;
}

-- fmt.Sprintf("/%s/%s/global.ingress/-%s", ...), or with egress
abbrev pub global_rule_name : String → String → String
global_rule_name direction key = text_append "/" (
    text_append default_global_policy_name (
      text_append "/" (
        text_append global_policy
          (text_append "/global." (text_append direction (text_append "/-" key))))))

unfoldable pub new_global_policy_rule_pair : Env → GlobalPolicy → List PolicyRule
new_global_policy_rule_pair env policy =
    let ingress_rule = unnamed_global_rule policy rule_direction_in in
    let egress_rule = unnamed_global_rule policy rule_direction_out in
    record ingress_rule { name = global_rule_name "ingress" (generate_flow_key env ingress_rule) }
    ∷ record egress_rule { name = global_rule_name "egress" (generate_flow_key env egress_rule) }
    ∷ []

-- by the policies that the client lists
unfoldable pub calculate_expect_global_policy_rules :
    {E : Type 0} → Env → Result E (List GlobalPolicy) → Result GlobalError (List PolicyRule)
unfolding new_global_policy_rule_pair
calculate_expect_global_policy_rules env (err e) = err list_failed
calculate_expect_global_policy_rules env (ok []) = ok []
calculate_expect_global_policy_rules env (ok (policy ∷ [])) =
    ok (new_global_policy_rule_pair env policy)
calculate_expect_global_policy_rules env (ok (policy ∷ second ∷ rest)) = err multiple_found

module _ (env : Env) (d : Datapath) (attempts : ℕ) where
  open d use {State}

  abbrev pub replace_rules :
      List PolicyRule
      → Result GlobalError (List PolicyRule)
      → State
      → List PolicyRule × State × Bool
  replace_rules old (err e) s = (old, s, false)
  replace_rules old (ok new) s =
      (new, (sync_policy_rules_until_success d attempts old new s).0, true)

  -- the rules in the cache, the datapath, and whether there was no error
  unfoldable pub reconcile_global_policy :
      {E : Type 0}
      → List PolicyRule
      → Result E (List GlobalPolicy)
      → State
      → List PolicyRule × State × Bool
  unfolding calculate_expect_global_policy_rules
  reconcile_global_policy old listed s =
      replace_rules old (calculate_expect_global_policy_rules env listed) s
