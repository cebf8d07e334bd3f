-- ===== src/Webhook.antt =====
-- The validators of pkg/webhook/validates/crd_validate.go, with Selector.IsValid of
-- pkg/labels/selector.go. An error is kept by its kind, without its text. What other packages check
-- (DNS-1123 names, label selectors, CIDRs) is a parameter.
pub mod PortRanges
use everoute.Common.{
  ℕ, String, Bool, true, false, ◌&&◌, ◌||◌, not, Option, none, some, List, [], ◌∷◌, ◌++◌, ltb, leb,
  ◌==◌, nat_eq, string_eq, if◌then◌else◌,
}
use everoute.Common.Dict.{Dict, is_some}
use everoute.Common.Set.{has, add}
use everoute.Api.{
  Operator, op_in, op_not_in, op_exists, op_does_not_exist, other, Requirement, Selector,
  LabelSelector, SecurityPolicy, SecurityPolicyPeer, SecurityPolicyPort, ApplyToPeer, Rule, IpBlock,
  EndpointGroupSpec, EndpointReference, reference_eq, port_type_name,
}
use everoute.Text.{split, is_number, decimal}
use everoute.Ports.Flatten.{is_pair, first_text, second_text}
use everoute.Generator.{is_empty, is_none}

-- what the validators take from other packages
pub record Checks : Type 1 where
  pub is_dns1123 : String → Bool
  pub is_label_selector : LabelSelector → Bool
  pub Net : Type 0
  pub parse_cidr : String → Option Net
  pub contains : Net → Net → Bool
  pub mask_len : Net → ℕ

pub data Invalid : Type 0 where
  port_out_of_range begin_after_end unsupported_range : Invalid
  no_peer two_peers bad_endpoint bad_selector : Invalid
  bad_tier bad_cidr bad_except duplicate_rule bad_rule_name : Invalid
  both_namespaces changed_reference several_policies : Invalid

-- `none` is a nil error
abbrev pub Check : Type 0
Check = Option Invalid

-- the second check if the first finds nothing
abbrev pub then_check : Check → Check → Check
then_check none second = second
then_check (some e) second = some e

-- the first three cases of validatePortRange
unfoldable pub validate_sub_range : String → Check
validate_sub_range range =
    if range == ""
    then none
    else if is_number range
    then (if ltb 65535 (decimal 0 range) then some port_out_of_range else none)
    else if is_pair (split b'-' range)
    then (let begin = decimal 0 (first_text (split b'-' range)) in
        let end = decimal 0 (second_text (split b'-' range)) in
        if ltb 65535 begin || ltb 65535 end
        then some port_out_of_range
        else if ltb end begin
        then some begin_after_end
        else none)
    else some unsupported_range

-- ^(((\d{1,5}-\d{1,5})|(\d{1,5})),)*((\d{1,5}-\d{1,5})|(\d{1,5}))$ on the pieces
unfoldable pub is_multiple : List String → Bool
is_multiple [] = true
is_multiple (p ∷ ps) = (is_number p || is_pair (split b'-' p)) && is_multiple ps

unfoldable pub validate_sub_ranges : List String → Check
unfolding validate_sub_range
validate_sub_ranges [] = none
validate_sub_ranges (p ∷ ps) = then_check (validate_sub_range p) (validate_sub_ranges ps)

-- A piece of the fourth case is one of the first three cases.
unfoldable pub validate_port_range : String → Check
unfolding validate_sub_range validate_sub_ranges is_multiple
validate_port_range range =
    if range == "" || is_number range || is_pair (split b'-' range)
    then validate_sub_range range
    else if is_multiple (split b',' range)
    then validate_sub_ranges (split b',' range)
    else some unsupported_range

unfoldable pub validate_port : SecurityPolicyPort → Check
unfolding validate_port_range
validate_port port =
    if not (port.type == port_type_name) then validate_port_range port.port_range else none

unfoldable pub validate_ports : List SecurityPolicyPort → Check
unfolding validate_port
validate_ports [] = none
validate_ports (p ∷ ps) = then_check (validate_port p) (validate_ports ps)

-- the loop over ExtendMatchLabels of Selector.IsValid
unfoldable pub extend_valid : Dict String (List String) → Bool
extend_valid [] = true
extend_valid ((key, values) ∷ rest) = not (is_empty values) && extend_valid rest

unfoldable pub requirement_valid : Requirement → Bool
requirement_valid r = elim r.operator [
  | op_in ↦ not (is_empty r.values)
  | op_not_in ↦ not (is_empty r.values)
  | op_exists ↦ is_empty r.values
  | op_does_not_exist ↦ is_empty r.values
  | other o ↦ false
]

unfoldable pub requirements_valid : List Requirement → Bool
unfolding requirement_valid
requirements_valid [] = true
requirements_valid (r ∷ rs) = requirement_valid r && requirements_valid rs

-- Selector.IsValid; a nil selector is valid
unfoldable pub is_valid : Option Selector → Bool
unfolding extend_valid requirements_valid
is_valid none = true
is_valid (some s) = extend_valid s.extend_match_labels && requirements_valid s.match_expressions

module _ (c : Checks) where
  open c use {is_dns1123, is_label_selector, parse_cidr, contains, mask_len}

  unfoldable pub validate_applied_peer : ApplyToPeer → Check
  unfolding is_valid
  validate_applied_peer peer =
      if is_none peer.endpoint && is_none peer.endpoint_selector
      then some no_peer
      else if is_some peer.endpoint && is_some peer.endpoint_selector
      then some two_peers
      else elim peer.endpoint [
        | some name ↦ if is_dns1123 name then none else some bad_endpoint
        | none ↦ if is_valid peer.endpoint_selector then none else some bad_selector
      ]

  unfoldable pub validate_applied_to : List ApplyToPeer → Check
  unfolding validate_applied_peer
  validate_applied_to [] = none
  validate_applied_to (p ∷ ps) = then_check (validate_applied_peer p) (validate_applied_to ps)

  unfoldable pub validate_excepts : c.Net → List String → Check
  validate_excepts net [] = none
  validate_excepts net (cidr ∷ rest) = elim (parse_cidr cidr) [
    | none ↦ some bad_except
    | some except ↦
        if not (contains net except) || leb (mask_len except) (mask_len net)
        then some bad_except
        else validate_excepts net rest
  ]

  unfoldable pub validate_ip_block : IpBlock → Check
  unfolding validate_excepts
  validate_ip_block b = elim (parse_cidr b.cidr) [
    | none ↦ some bad_cidr
    | some net ↦ validate_excepts net b.except
  ]

  -- the case of a peer with selectors
  unfoldable pub validate_selectors : Option Selector → Option LabelSelector → Check
  unfolding is_valid
  validate_selectors none none = some no_peer
  validate_selectors s none = if is_valid s then none else some bad_selector
  validate_selectors s (some l) =
      if is_valid s && is_label_selector l then none else some bad_selector

  unfoldable pub validate_rule_peer : SecurityPolicyPeer → Check
  unfolding validate_ip_block validate_selectors
  validate_rule_peer peer = elim peer.ip_block [
    | some b ↦
        if is_some peer.endpoint
          || is_some peer.endpoint_selector
          || is_some peer.namespace_selector
        then some two_peers
        else validate_ip_block b
    | none ↦ elim peer.endpoint [
      | some e ↦
          if is_some peer.endpoint_selector || is_some peer.namespace_selector
          then some two_peers
          else if is_dns1123 e.name && is_dns1123 e.namespace
          then none
          else some bad_endpoint
      | none ↦ validate_selectors peer.endpoint_selector peer.namespace_selector
    ]
  ]

  unfoldable pub validate_peers : List SecurityPolicyPeer → Check
  unfolding validate_rule_peer
  validate_peers [] = none
  validate_peers (p ∷ ps) = then_check (validate_rule_peer p) (validate_peers ps)

  -- the first of the errors that are aggregated
  unfoldable pub validate_rule : Rule → Check
  unfolding validate_peers validate_ports
  validate_rule r =
      then_check (validate_peers r.from) (then_check (validate_peers r.to) (validate_ports r.ports))

  unfoldable pub validate_rule_list : List Rule → Check
  unfolding validate_rule
  validate_rule_list [] = none
  validate_rule_list (r ∷ rs) = then_check (validate_rule r) (validate_rule_list rs)

  unfoldable pub validate_rule_name : List String → List Rule → Check
  validate_rule_name unique [] = none
  validate_rule_name unique (r ∷ rs) =
      if has r.name unique
      then some duplicate_rule
      else if is_dns1123 r.name
      then validate_rule_name (add r.name unique) rs
      else some bad_rule_name

  unfoldable pub validate_rules : List Rule → List Rule → Check
  unfolding validate_rule_name validate_rule_list
  validate_rules ingress egress =
      then_check (validate_rule_name [] (ingress ++ egress))
        (validate_rule_list (ingress ++ egress))

  unfoldable pub validate_policy : SecurityPolicy → Check
  unfolding validate_applied_to validate_rules
  validate_policy policy =
      if policy.spec.tier == "tier0" || policy.spec.tier == "tier1" || policy.spec.tier == "tier2"
      then then_check (validate_applied_to policy.spec.applied_to)
          (validate_rules policy.spec.ingress_rules policy.spec.egress_rules)
      else some bad_tier

  unfoldable pub validate_group_spec : EndpointGroupSpec → Check
  unfolding is_valid
  validate_group_spec spec =
      if is_some spec.namespace_selector && is_some spec.namespace
      then some both_namespaces
      else if is_valid spec.endpoint_selector
      then elim spec.namespace_selector [
        | none ↦ none
        | some l ↦ if is_label_selector l then none else some bad_selector
      ]
      else some bad_selector

-- createValidate of the global policy: the names of the policies that are there
unfoldable pub validate_global_create : String → List String → Check
validate_global_create name [] = none
validate_global_create name (only ∷ []) = if only == name then none else some several_policies
validate_global_create name (x ∷ y ∷ rest) = some several_policies
