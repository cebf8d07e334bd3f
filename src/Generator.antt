-- ===== src/Generator.antt =====
-- The groups of a policy: pkg/controller/policy/group_generator.go. The digest of a group's spec,
-- sha256.Sum256 of its JSON text, is a parameter, and so are the answers of the Kubernetes client.
pub mod Index
pub mod Lookup
pub mod Reconcile
use Prim.Native.String.{◌++◌ as text_append}
use everoute.Common.{
  ℕ, String, Bool, true, false, ◌&&◌, ◌||◌, Option, none, some, List, [], ◌∷◌, any, length, ◌==◌,
  nat_eq, string_eq, if◌then◌else◌,
}
use everoute.Common.Set.{add, insert_all}
use everoute.Api.{
  NamespacedName, Selector, LabelSelector, SecurityPolicy, SecurityPolicyPeer, SecurityPolicyPort,
  ApplyToPeer, Rule, EndpointGroup, EndpointGroupSpec, port_type_name,
}
use everoute.Cache.Rule.{hash_name}

-- constants.AllEpWithNamedPort
abbrev pub all_ep_with_named_port : String
all_ep_with_named_port = "all-endpoints-with-named-port"

-- &labels.Selector{}
abbrev pub empty_selector : Selector
empty_selector = record {
  match_labels = [];
  match_expressions = [];
  extend_match_labels = [];
  match_nothing = false;
}

abbrev pub Digest : Type 0
Digest = EndpointGroupSpec → List ℕ

unfoldable pub generate_group_name : Digest → EndpointGroupSpec → String
unfolding hash_name
generate_group_name digest spec = text_append "sys-" (hash_name 32 (digest spec))

abbrev pub or_selector : Option Selector → Selector
or_selector none = empty_selector
or_selector (some s) = s

-- the selectors of the group of a peer, `group.Spec` of both branches
unfoldable pub peer_spec : String → SecurityPolicyPeer → EndpointGroupSpec
peer_spec namespace peer = elim peer.namespace_selector [
  | some s ↦ record {
    endpoint_selector = some (or_selector peer.endpoint_selector);
    namespace_selector = some s;
    namespace = none;
    endpoint = peer.endpoint;
  }
  | none ↦ record {
    endpoint_selector = peer.endpoint_selector;
    namespace_selector = none;
    namespace = some namespace;
    endpoint = peer.endpoint;
  }
]

abbrev pub is_none {ℓ} : {A : Type ℓ} → Option A → Bool
is_none none = true
is_none (some a) = false

unfoldable pub peer_as_endpoint_group : Digest → String → SecurityPolicyPeer → Option EndpointGroup
unfolding peer_spec generate_group_name
peer_as_endpoint_group digest namespace peer =
    if is_none peer.endpoint_selector && is_none peer.namespace_selector && is_none peer.endpoint
    then none
    else some (record {
      name = generate_group_name digest (peer_spec namespace peer);
      spec = peer_spec namespace peer;
    })

abbrev applied_endpoint : String → Option String → Option NamespacedName
applied_endpoint namespace none = none
applied_endpoint namespace (some name) = some (record { name = name; namespace = namespace })

unfoldable pub applied_as_security_peer : String → ApplyToPeer → SecurityPolicyPeer
applied_as_security_peer namespace applied = record {
  ip_block = none;
  endpoint = applied_endpoint namespace applied.endpoint;
  endpoint_selector = applied.endpoint_selector;
  namespace_selector = none;
}

unfoldable pub applied_as_endpoint_group : Digest → String → ApplyToPeer → Option EndpointGroup
unfolding applied_as_security_peer peer_as_endpoint_group
applied_as_endpoint_group digest namespace applied =
    peer_as_endpoint_group digest namespace (applied_as_security_peer namespace applied)

-- GetAllEpWithNamedPortGroup
abbrev pub all_ep_group : EndpointGroup
all_ep_group = record {
  name = all_ep_with_named_port;
  spec = record {
    endpoint_selector = some empty_selector;
    namespace_selector = none;
    namespace = none;
    endpoint = none;
  };
}

unfoldable pub is_named_port_exists : List SecurityPolicyPort → Bool
is_named_port_exists [] = false
is_named_port_exists (p ∷ ps) = if p.type == port_type_name then true else is_named_port_exists ps

abbrev pub is_empty {ℓ} : {A : Type ℓ} → List A → Bool
is_empty [] = true
is_empty (x ∷ xs) = false

-- if group != nil { groupSet.Insert(group.GetName()) }
abbrev pub insert_group : Option EndpointGroup → List String → List String
insert_group none set = set
insert_group (some g) set = add g.name set

unfoldable pub index_applied : Digest → String → List ApplyToPeer → List String → List String
index_applied digest namespace [] set = set
index_applied digest namespace (a ∷ rest) set =
    index_applied digest namespace rest
      (insert_group (applied_as_endpoint_group digest namespace a) set)

unfoldable pub index_peers : Digest → String → List SecurityPolicyPeer → List String → List String
index_peers digest namespace [] set = set
index_peers digest namespace (p ∷ rest) set =
    index_peers digest namespace rest (insert_group (peer_as_endpoint_group digest namespace p) set)

unfoldable pub index_ingress : Digest → String → List Rule → List String → List String
unfolding index_peers
index_ingress digest namespace [] set = set
index_ingress digest namespace (r ∷ rest) set =
    index_ingress digest namespace rest (index_peers digest namespace r.from set)

unfoldable pub index_egress : Digest → String → List Rule → List String → List String
unfolding index_peers is_named_port_exists
index_egress digest namespace [] set = set
index_egress digest namespace (r ∷ rest) set = index_egress digest namespace rest (
    if is_named_port_exists r.ports && is_empty r.to
    then add all_ep_with_named_port set
    else index_peers digest namespace r.to set)

-- EndpointGroupIndexSecurityPolicyFunc; the order of the names is left open
unfoldable pub endpoint_group_index : Digest → SecurityPolicy → List String
unfolding index_applied index_ingress index_egress
endpoint_group_index digest policy = index_egress digest policy.namespace policy.spec.egress_rules (
    index_ingress digest policy.namespace policy.spec.ingress_rules
      (index_applied digest policy.namespace policy.spec.applied_to []))

-- the group if it has the name, and else the result of the rest of the loops
unfoldable pub if_named :
    String → Option EndpointGroup → Option EndpointGroup → Option EndpointGroup
if_named name none rest = rest
if_named name (some g) rest = if g.name == name then some g else rest

unfoldable pub find_applied :
    Digest → String → String → List ApplyToPeer → Option EndpointGroup → Option EndpointGroup
unfolding if_named
find_applied digest namespace name [] rest = rest
find_applied digest namespace name (a ∷ others) rest =
    if_named name (applied_as_endpoint_group digest namespace a)
      (find_applied digest namespace name others rest)

unfoldable pub find_peers :
    Digest → String → String → List SecurityPolicyPeer → Option EndpointGroup → Option EndpointGroup
unfolding if_named
find_peers digest namespace name [] rest = rest
find_peers digest namespace name (p ∷ ps) rest =
    if_named name (peer_as_endpoint_group digest namespace p)
      (find_peers digest namespace name ps rest)

unfoldable pub find_ingress :
    Digest → String → String → List Rule → Option EndpointGroup → Option EndpointGroup
unfolding find_peers
find_ingress digest namespace name [] rest = rest
find_ingress digest namespace name (r ∷ rs) rest =
    find_peers digest namespace name r.from (find_ingress digest namespace name rs rest)

unfoldable pub find_egress : Digest → String → String → List Rule → Option EndpointGroup
unfolding find_peers is_named_port_exists
find_egress digest namespace name [] = none
find_egress digest namespace name (r ∷ rs) =
    if_named name
      (if is_named_port_exists r.ports && is_empty r.to then some all_ep_group else none)
      (find_peers digest namespace name r.to (find_egress digest namespace name rs))

unfoldable pub get_endpoint_group_from_security_policy :
    Digest → SecurityPolicy → String → Option EndpointGroup
unfolding find_applied find_ingress find_egress
get_endpoint_group_from_security_policy digest policy name =
    find_applied digest policy.namespace name policy.spec.applied_to (
      find_ingress digest policy.namespace name policy.spec.ingress_rules
        (find_egress digest policy.namespace name policy.spec.egress_rules))
