-- ===== src/Tests/InstallTests.antt =====
-- The calls of the reconciler, on switches that are a list of flows and a digest of one byte.
use everoute.Common.{
  Bool, ℕ, ◌≡◌, refl, String, true, false, some, List, [], ◌∷◌, ◌==◌, string_eq, nat_eq,
  if◌then◌else◌,
}
use everoute.Text.{text_length}
use everoute.Ports.{RulePort, zero_port}
use everoute.Cache.Rule.{
  Env, CompleteRule, PolicyRule, generate_rule, generate_flow_key, unnamed_rule,
}
use everoute.Datapath.Bridge.{is_accepted}
use everoute.Datapath.Rules.{Outcome, new_dp_manager}
use everoute.Datapath.Rules.Counted.{Implements}
use everoute.Reconciler.Install.{protocol_to_int, get_rule_tier}
use everoute.Reconciler.Install.Agreed.{IsOfPolicy, flow_of}
use everoute.Reconciler.Install.Held.{
  Step, installs, uninstalls, AreSteps, after_steps, referring, requested_rule, process_steps,
  process_steps-Implements,
}
use everoute.Tests.DatapathTests.{
  Flows, on, list_switches, list_switches-IsReliable, two_bridges, two_bridges-AllDistinct,
}

-- the addresses that can be read
abbrev readable : String → Bool
readable address = address == "10.0.0.1/32"

-- the port tells the two flows apart
abbrev env : Env
env = record { digest = λ r. r.dst_port ∷ []; current_agent = "node1" }

abbrev allow : CompleteRule
allow = record {
  rule_id = "shop/front-end/normal/ingress.web";
  tier = "tier1";
  enforcement_mode = "work";
  action = "Allow";
  direction = "Ingress";
  symmetric_mode = false;
  default_policy_rule = false;
  src_groups = [];
  dst_groups = [];
  src_ip_blocks = [];
  dst_ip_blocks = [];
  ports = [];
}

abbrev port_of : ℕ → RulePort
port_of n = record zero_port { protocol = "TCP"; dst_port = n; dst_port_mask = 65535 }

-- the rule with an ID for a port of a server
abbrev rule_for : String → ℕ → PolicyRule
unfolding generate_rule
rule_for id port =
    generate_rule env (record allow { rule_id = id }) "" "10.0.0.1/32" "Ingress" (port_of port)

-- the flow with the key of a port
abbrev flow : String → PolicyRule
flow key = if key == "c" then flow_of (rule_for "" 2) else flow_of (rule_for "" 0)

-- two policies allow port 2, one allows port 0; the first is deleted
abbrev steps : List Step
steps =
    installs (rule_for "shop/front-end" 2)
    ∷ installs (rule_for "shop/back" 2)
    ∷ installs (rule_for "shop/back" 0)
    ∷ uninstalls (rule_for "shop/front-end" 2).name
    ∷ []

rule_for-IsOfPolicy : (id : String) (port : ℕ) → IsOfPolicy env readable (rule_for id port)
unfolding generate_rule generate_flow_key unnamed_rule protocol_to_int get_rule_tier rule_for
rule_for-IsOfPolicy id port = record {
  made = record allow { rule_id = id };
  sound = record {
    name = refl;
    action = refl;
    tier = refl;
    enforcement_mode = refl;
    rule_type = refl;
    direction = (λ _. refl, refl);
    not_to_self = refl;
  };
  action = refl;
  protocol = (6, refl);
  tier = (100, refl);
  mode = refl;
  addresses = refl;
}

steps-AreSteps : AreSteps env readable flow steps (λ name. false)
unfolding generate_rule generate_flow_key unnamed_rule text_length
steps-AreSteps = (
  (rule_for-IsOfPolicy "shop/front-end" 2, refl),
  (
    (rule_for-IsOfPolicy "shop/back" 2, refl),
    ((rule_for-IsOfPolicy "shop/back" 0, refl), (refl, tt)),
  ),
)

process_steps-Implements_example :
    (o : Outcome Flows) × (process_steps list_switches two_bridges steps new_dp_manager [] ≡ some o)
    × (o.done ≡ true)
    × Implements list_switches two_bridges on
        (requested_rule flow)
        o.manager
        o.state
        (referring (after_steps steps (λ name. false)))
process_steps-Implements_example =
    process_steps-Implements list_switches two_bridges on two_bridges-AllDistinct readable
      (list_switches-IsReliable (is_accepted readable)) env flow steps [] steps-AreSteps
      (λ v n. refl)
