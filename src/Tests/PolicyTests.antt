-- ===== src/Tests/PolicyTests.antt =====
-- Policies and their groups at concrete inputs.
use everoute.Common.{
  ◌≡◌, refl, string_eq, String, true, false, Option, none, some, List, [], ◌∷◌, ok, All,
}
use everoute.Common.Results.{Returns}
use everoute.Common.Dict.{is_some}
use everoute.Text.{text_length}
use everoute.Common.Set.{has, add}
use everoute.Api.{SecurityPolicy, Rule, EndpointGroup, port_type_name, protocol_tcp}
use everoute.Cache.Group.{new_group_cache}
use everoute.Generator.{
  applied_as_endpoint_group, Digest, endpoint_group_index, get_endpoint_group_from_security_policy,
}
use everoute.Generator.Index.{refers}
use everoute.Generator.Lookup.{get_endpoint_group-indexed}
use everoute.Generator.Reconcile.{
  Client, Write, Converges, any_policy, group_generate_reconcile,
  group_generate_reconcile-Converges,
}
use everoute.Reconciler.{NetLib}
use everoute.Reconciler.Complete.{complete_policy}
use everoute.Reconciler.Peers.{Waits}
use everoute.Reconciler.Policy.{IsPolicyRule}
use everoute.Reconciler.Answers.{complete_policy-Returns}

abbrev digest : Digest
digest spec = 7 ∷ 30 ∷ []

-- an egress rule with a named port and no peer
abbrev egress : Rule
egress = record {
  name = "out";
  ports = record { protocol = protocol_tcp; port_range = "http"; type = port_type_name } ∷ [];
  from = [];
  to = [];
}

abbrev policy : SecurityPolicy
policy = record {
  name = "p";
  namespace = "ns";
  spec = record {
    tier = "tier1";
    security_policy_enforcement_mode = "work";
    symmetric_mode = false;
    applied_to = record { endpoint = some "vm"; endpoint_selector = none } ∷ [];
    ingress_rules = [];
    egress_rules = egress ∷ [];
    default_rule = "drop";
    policy_types = [];
  };
}

abbrev named_group : String
named_group = "all-endpoints-with-named-port"

get_endpoint_group-indexed_example :
    (has named_group (endpoint_group_index digest policy) ≡ true
      → (g : EndpointGroup) × (get_endpoint_group_from_security_policy digest policy named_group
          ≡ some g)
        × (g.name ≡ named_group))
    × (has named_group (endpoint_group_index digest policy) ≡ false
        → get_endpoint_group_from_security_policy digest policy named_group ≡ none)
get_endpoint_group-indexed_example = get_endpoint_group-indexed digest policy named_group

abbrev client : Client String
client = record {
  list = λ name. ok (policy ∷ []);
  get = λ name. ok none;
  delete_failure = λ name. none;
  create_failure = λ group. none;
}

policy-indexed : has named_group (endpoint_group_index digest policy) ≡ true
unfolding endpoint_group_index has add applied_as_endpoint_group text_length
policy-indexed = refl

group_generate_reconcile-Converges_example :
    (writes : List Write) × (failure : Option String) × (group_generate_reconcile digest client
        named_group
      ≡ (writes, failure))
    × Converges named_group (any_policy (policy ∷ [])) (is_some {A = EndpointGroup} none) writes
group_generate_reconcile-Converges_example =
    group_generate_reconcile-Converges digest client named_group (policy ∷ []) none refl refl
      (policy-indexed, tt)

abbrev net_lib : NetLib
net_lib = record {
  Net = String;
  NetError = String;
  parse_cidr = λ cidr. ok cidr;
  diff_from_cidrs = λ net excepts. ok (net ∷ []);
  text = λ net. net;
}

complete_policy-Returns_example :
    Returns
      (Waits (refers digest policy))
      (All (IsPolicyRule (refers digest policy) policy))
      (complete_policy net_lib digest new_group_cache policy)
complete_policy-Returns_example = complete_policy-Returns net_lib digest new_group_cache policy
