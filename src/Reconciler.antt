-- ===== src/Reconciler.antt =====
-- The policy reconciler of the agent: pkg/agent/controller/policy/policy_controller.go, with IsEnable
-- of pkg/apis/security/v1alpha1/helper.go and ParseIPBlock of pkg/utils/ip.go. The parser of CIDRs and
-- the difference of networks, which come from other packages, are parameters.
pub mod Complete
pub mod Install
pub mod Answers
pub mod Peers
pub mod Policy
pub mod Rounds
pub mod Sync
use Prim.Native.String.{◌++◌ as text_append}
use everoute.Common.{
  ℕ, ◌+◌, String, Bool, true, false, ◌&&◌, ◌||◌, not, Option, none, some, List, [], ◌∷◌, ◌++◌, fold,
  ◌==◌, nat_eq, string_eq, if◌then◌else◌, Result, ok, err,
}
use everoute.Common.Results.{◌>>=◌}
use everoute.Common.Dict.{Dict, lookup, insert}
use everoute.Common.Set.{insert_all}
use everoute.Api.{
  IpBlock, SecurityPolicy, SecurityPolicyPeer, SecurityPolicyPort, ApplyToPeer, Rule,
  port_type_name, EndpointGroup,
}
use everoute.Ports.{RulePort, zero_port}
use everoute.Ports.Flatten.{FlattenError, flatten_ports}
use everoute.Cache.{
  IpBlockItem, Blocks, Items, new_ip_block_item, item_or_new, append_ip_block_ports,
}
use everoute.Cache.Group.{GroupCache, list_group_ip_blocks}
use everoute.Cache.Rule.{
  CompleteRule, rule_action_allow, rule_action_drop, rule_direction_in, rule_direction_out,
}
use everoute.Generator.{
  Digest, peer_as_endpoint_group, applied_as_security_peer, all_ep_with_named_port, is_none,
  is_empty,
}

-- net.ParseCIDR, netutil.DiffFromCIDRs and IPNet.String
pub record NetLib : Type 1 where
  pub Net : Type 0
  pub NetError : Type 0
  pub parse_cidr : String → Result NetError Net
  pub diff_from_cidrs : Net → List Net → Result NetError (List Net)
  pub text : Net → String

-- the errors of completePolicy
pub data PolicyError (E : Type 0) : Type 0 where
  bad_block : E → PolicyError E
  group_not_found : String → PolicyError E
  bad_ports : FlattenError → PolicyError E

-- the first loop and its result of IsEnable
unfoldable pub names_type : String → List String → Bool
names_type type [] = false
names_type type (t ∷ ts) = t == type || names_type type ts

unfoldable pub is_enable : SecurityPolicy → Bool × Bool
unfolding names_type
is_enable policy =
    let ingress = names_type "Ingress" policy.spec.policy_types in
    let egress = names_type "Egress" policy.spec.policy_types in
    if not ingress && not egress
    then (true, not (is_empty policy.spec.egress_rules))
    else (ingress, egress)

abbrev pub default_rule_drop : String
default_rule_drop = "drop"

module _ (lib : NetLib) where
  open lib use {Net, NetError, parse_cidr, diff_from_cidrs, text}

  unfoldable pub parse_excepts : List String → Result NetError (List Net)
  parse_excepts [] = ok []
  parse_excepts (cidr ∷ rest) = elim (parse_cidr cidr) [
    | err e ↦ err e
    | ok net ↦ parse_excepts rest >>= λ nets. ok (net ∷ nets)
  ]

  unfoldable pub parse_ip_block : IpBlock → Result NetError (List Net)
  unfolding parse_excepts
  parse_ip_block b =
      parse_cidr b.cidr >>= λ net. parse_excepts b.except >>= λ excepts. diff_from_cidrs net excepts

  -- a static address counts once more
  unfoldable pub count_static : Items → Net → Items
  count_static blocks net =
      let item = item_or_new (lookup (text net) blocks) in
      insert (text net) (record item { static_count = item.static_count + 1 }) blocks

-- an address of a group enters the blocks, with its agents and ports
unfoldable pub merge_block : Items → String × IpBlockItem → Items
merge_block blocks (ip, block) =
    let item = item_or_new (lookup ip blocks) in
    insert ip
      (record item {
        agent_ref = insert_all item.agent_ref block.agent_ref;
        ports = append_ip_block_ports item.ports block.ports;
      })
      blocks

-- the two maps that getPeersGroupsAndIPBlocks builds
abbrev pub Found : Type 0
Found = Dict String ℕ × Items

-- what ListGroupIPBlocks returns for a group enters both maps
unfoldable pub add_listed :
    {E : Type 0} → String → Option (ℕ × Items) → Found → Result (PolicyError E) Found
unfolding merge_block
add_listed group none found = err (group_not_found group)
add_listed group (some (revision, items)) (groups, blocks) =
    ok (insert group revision groups, fold merge_block blocks items)

unfoldable pub add_group : {E : Type 0} → GroupCache → String → Found → Result (PolicyError E) Found
unfolding add_listed
add_group cache group found = add_listed group (list_group_ip_blocks cache group) found

unfoldable pub get_all_ep_with_named_port_group_and_ip_blocks :
    {E : Type 0} → GroupCache → Result (PolicyError E) Found
unfolding add_group
get_all_ep_with_named_port_group_and_ip_blocks cache =
    add_group cache all_ep_with_named_port ([], [])

unfoldable pub classify_egress_ports :
    List SecurityPolicyPort → List SecurityPolicyPort × List SecurityPolicyPort
classify_egress_ports [] = ([], [])
classify_egress_ports (p ∷ ps) =
    let (numbers, names) = classify_egress_ports ps in
    if p.type == port_type_name then (numbers, p ∷ names) else (p ∷ numbers, names)
