-- ===== src/Reconciler/Complete.antt =====
-- completePolicy and getPeersGroupsAndIPBlocks of pkg/agent/controller/policy/policy_controller.go.
use Prim.Native.String.{◌++◌ as text_append}
use everoute.Common.{
  ℕ, String, Bool, true, false, ◌&&◌, ◌||◌, not, Option, none, some, List, [], ◌∷◌, ◌++◌, fold,
  ◌==◌, string_eq, if◌then◌else◌, Result, ok, err,
}
use everoute.Common.Results.{◌>>=◌}
use everoute.Common.Dict.{Dict}
use everoute.Api.{
  IpBlock, EndpointGroup, SecurityPolicy, SecurityPolicyPeer, SecurityPolicyPort, ApplyToPeer, Rule,
}
use everoute.Ports.{RulePort, zero_port}
use everoute.Ports.Flatten.{flatten_ports}
use everoute.Cache.{Blocks, Items}
use everoute.Cache.Group.{GroupCache}
use everoute.Cache.Rule.{
  CompleteRule, rule_action_allow, rule_action_drop, rule_direction_in, rule_direction_out,
}
use everoute.Generator.{Digest, peer_as_endpoint_group, applied_as_security_peer, is_empty}
use everoute.Reconciler.{
  NetLib, PolicyError, bad_block, bad_ports, Found, parse_ip_block, count_static, add_group,
  is_enable, default_rule_drop, get_all_ep_with_named_port_group_and_ip_blocks,
  classify_egress_ports,
}

-- map[string]*IPBlockItem of a map without nil items
abbrev pub to_blocks : Items → Blocks
to_blocks [] = []
to_blocks ((ip, item) ∷ m) = (ip, some item) ∷ to_blocks m

-- {"": nil}
abbrev pub all_ips : Blocks
all_ips = ("", none) ∷ []

-- the groups and the blocks of one side of a rule
abbrev pub Side : Type 0
Side = Dict String ℕ × Blocks

abbrev pub any_ip : Side
any_ip = ([], all_ips)

abbrev pub side_of : Found → Side
side_of (groups, items) = (groups, to_blocks items)

-- FlattenPorts with its error
abbrev pub rule_ports :
    {E : Type 0} → List SecurityPolicyPort → Result (PolicyError E) (List RulePort)
rule_ports ports = elim (flatten_ports ports) [ err e ↦ err (bad_ports e) | ok rules ↦ ok rules ]

-- policyNamespace/policyName/policyType/ruleName
abbrev pub rule_id : SecurityPolicy → String → String → String
rule_id policy kind name = text_append policy.namespace (
    text_append "/"
      (text_append policy.name (text_append "/normal/" (text_append kind (text_append "." name)))))

-- the rules that differ in the sides and the ports
unfoldable pub allow_rule :
    SecurityPolicy → String → String → Side → Side → List RulePort → CompleteRule
allow_rule policy id direction (src_groups, src_blocks) (dst_groups, dst_blocks) ports = record {
  rule_id = id;
  tier = policy.spec.tier;
  enforcement_mode = policy.spec.security_policy_enforcement_mode;
  action = rule_action_allow;
  direction = direction;
  symmetric_mode = policy.spec.symmetric_mode;
  default_policy_rule = false;
  src_groups = src_groups;
  dst_groups = dst_groups;
  src_ip_blocks = src_blocks;
  dst_ip_blocks = dst_blocks;
  ports = ports;
}

unfoldable pub drop_rule : SecurityPolicy → String → String → Side → Side → CompleteRule
drop_rule policy name direction (src_groups, src_blocks) (dst_groups, dst_blocks) = record {
  rule_id = rule_id policy "default" name;
  tier = policy.spec.tier;
  enforcement_mode = policy.spec.security_policy_enforcement_mode;
  action = rule_action_drop;
  direction = direction;
  symmetric_mode = false;
  default_policy_rule = true;
  src_groups = src_groups;
  dst_groups = dst_groups;
  src_ip_blocks = src_blocks;
  dst_ip_blocks = dst_blocks;
  ports = zero_port ∷ [];
}

abbrev pub applied_peers : String → List ApplyToPeer → List SecurityPolicyPeer
applied_peers namespace [] = []
applied_peers namespace (a ∷ rest) =
    applied_as_security_peer namespace a ∷ applied_peers namespace rest

-- the loop over the rules of one direction
abbrev pub each_rule :
    {E : Type 0} → (Rule → Result E (List CompleteRule)) → List Rule → Result E (List CompleteRule)
each_rule f [] = ok []
each_rule f (r ∷ rs) = f r >>= λ rules. each_rule f rs >>= λ rest. ok (rules ++ rest)

module _ (lib : NetLib) (digest : Digest) (cache : GroupCache) where
  open lib use {NetError}

  unfoldable pub add_static :
      Result NetError (List lib.Net) → Found → Result (PolicyError NetError) Found
  unfolding count_static
  add_static (err e) found = err (bad_block e)
  add_static (ok nets) (groups, blocks) = ok (groups, fold (count_static lib) blocks nets)

  -- the switch over a peer, by its block and its group
  unfoldable pub switch_peer :
      Option IpBlock → Option EndpointGroup → Found → Result (PolicyError NetError) Found
  unfolding add_static
  switch_peer (some b) group found = add_static (parse_ip_block lib b) found
  switch_peer none none found = ok found
  switch_peer none (some group) found = add_group cache group.name found

  -- the body of the loop over the peers
  unfoldable pub add_peer :
      String → SecurityPolicyPeer → Found → Result (PolicyError NetError) Found
  unfolding switch_peer
  add_peer namespace peer found =
      switch_peer peer.ip_block (peer_as_endpoint_group digest namespace peer) found

  unfoldable pub add_peers :
      String → List SecurityPolicyPeer → Found → Result (PolicyError NetError) Found
  unfolding add_peer
  add_peers namespace [] found = ok found
  add_peers namespace (p ∷ ps) found = add_peer namespace p found >>= add_peers namespace ps

  unfoldable pub get_peers_groups_and_ip_blocks :
      String → List SecurityPolicyPeer → Result (PolicyError NetError) Found
  unfolding add_peers
  get_peers_groups_and_ip_blocks namespace peers = add_peers namespace peers ([], [])

  -- the side that a list of peers stands for; no peer is every address
  unfoldable pub peers_side : String → List SecurityPolicyPeer → Result (PolicyError NetError) Side
  unfolding get_peers_groups_and_ip_blocks
  peers_side namespace [] = ok any_ip
  peers_side namespace (p ∷ ps) =
      get_peers_groups_and_ip_blocks namespace (p ∷ ps) >>= λ found. ok (side_of found)

  -- the rule of a direction with the ports that FlattenPorts returns, appended
  abbrev pub allow_rules :
      SecurityPolicy
      → String
      → String
      → Side
      → Side
      → List SecurityPolicyPort
      → Result (PolicyError NetError) (List CompleteRule)
  allow_rules policy id direction src dst ports =
      rule_ports ports >>= λ flat. ok (allow_rule policy id direction src dst flat ∷ [])

  unfoldable pub ingress_rule :
      SecurityPolicy → Side → Rule → Result (PolicyError NetError) (List CompleteRule)
  unfolding peers_side allow_rule
  ingress_rule policy applied r = peers_side policy.namespace r.from >>= λ src.
      allow_rules policy (rule_id policy "ingress" r.name) rule_direction_in src applied r.ports

  -- the rule for the ports by number of an egress rule without peers
  unfoldable pub number_rule :
      SecurityPolicy → Side → Rule → Result (PolicyError NetError) (List CompleteRule)
  unfolding allow_rule
  number_rule policy applied r =
      let numbers = (classify_egress_ports r.ports).0 in
      if not (is_empty numbers) || is_empty r.ports
      then allow_rules policy (rule_id policy "egress" r.name) rule_direction_out applied any_ip
          numbers
      else ok []

  -- the rule for its ports by name
  abbrev pub named_rule_found :
      SecurityPolicy → Side → Rule → Found → Result (PolicyError NetError) (List CompleteRule)
  named_rule_found policy applied r found =
      allow_rules policy (text_append (rule_id policy "egress" r.name) ".namedport")
        rule_direction_out applied (side_of found) (classify_egress_ports r.ports).1

  unfoldable pub named_rule :
      SecurityPolicy → Side → Rule → Result (PolicyError NetError) (List CompleteRule)
  unfolding allow_rule
  named_rule policy applied r =
      if is_empty (classify_egress_ports r.ports).1
      then ok []
      else get_all_ep_with_named_port_group_and_ip_blocks cache
        >>= named_rule_found policy applied r

  -- an egress rule without peers
  abbrev pub open_rules :
      SecurityPolicy → Side → Rule → Result (PolicyError NetError) (List CompleteRule)
  open_rules policy applied r = number_rule policy applied r >>= λ numbers.
      named_rule policy applied r >>= λ names. ok (numbers ++ names)

  -- and one with peers
  abbrev pub peer_rules :
      SecurityPolicy → Side → Rule → Result (PolicyError NetError) (List CompleteRule)
  peer_rules policy applied r = peers_side policy.namespace r.to >>= λ dst.
      allow_rules policy (rule_id policy "egress" r.name) rule_direction_out applied dst r.ports

  unfoldable pub egress_rule :
      SecurityPolicy → Side → Rule → Result (PolicyError NetError) (List CompleteRule)
  unfolding peers_side number_rule named_rule allow_rule
  egress_rule policy applied r =
      if is_empty r.to then open_rules policy applied r else peer_rules policy applied r

  abbrev pub default_if : Bool → SecurityPolicy → CompleteRule → List CompleteRule
  default_if enabled policy rule =
      if enabled && policy.spec.default_rule == default_rule_drop then rule ∷ [] else []

  abbrev pub rules_if :
      Bool
      → Result (PolicyError NetError) (List CompleteRule)
      → Result (PolicyError NetError) (List CompleteRule)
  rules_if enabled rules = if enabled then rules else ok []

  abbrev pub ingress_rules :
      SecurityPolicy → Side → Result (PolicyError NetError) (List CompleteRule)
  ingress_rules policy applied =
      rules_if (is_enable policy).0
        (each_rule (ingress_rule policy applied) policy.spec.ingress_rules)

  abbrev pub egress_rules :
      SecurityPolicy → Side → Result (PolicyError NetError) (List CompleteRule)
  egress_rules policy applied =
      rules_if (is_enable policy).1
        (each_rule (egress_rule policy applied) policy.spec.egress_rules)

  -- completeRules at the end, in the order in which they are appended
  abbrev pub all_rules :
      SecurityPolicy → Side → List CompleteRule → List CompleteRule → List CompleteRule
  all_rules policy applied ingress egress =
      let drop_in = drop_rule policy "ingress" rule_direction_in any_ip applied in
      let drop_out = drop_rule policy "egress" rule_direction_out applied any_ip in
      ingress
      ++ (default_if (is_enable policy).0 policy drop_in
          ++ (egress ++ default_if (is_enable policy).1 policy drop_out))

  unfoldable pub complete_policy :
      SecurityPolicy → Result (PolicyError NetError) (List CompleteRule)
  unfolding peers_side ingress_rule egress_rule drop_rule is_enable
  complete_policy policy = do
    applied ← peers_side policy.namespace (applied_peers policy.namespace policy.spec.applied_to)
    ingress ← ingress_rules policy applied
    egress ← egress_rules policy applied
    ok (all_rules policy applied ingress egress)
