-- ===== src/Generator/Lookup.antt =====
-- getEndpointGroupFromSecurityPolicy of
-- pkg/controller/policy/group_generator.go: a group is generated for every name that is indexed.
use everoute.Common.{
  ◌≡◌, refl, String, Bool, true, false, ◌&&◌, ◌||◌, Option, none, some, List, [], ◌∷◌, any, ◌==◌,
  string_eq, if◌then◌else◌, arith, Bool-cases, Option-cases, inl, inr,
}
use everoute.Common.Set.{has}
use everoute.Common.Dict.{is_some}
use everoute.Api.{SecurityPolicy, SecurityPolicyPeer, ApplyToPeer, Rule, EndpointGroup}
use everoute.Generator.{
  Digest, all_ep_with_named_port, all_ep_group, peer_as_endpoint_group, applied_as_endpoint_group,
  is_named_port_exists, is_empty, endpoint_group_index, if_named, find_applied, find_peers,
  find_ingress, find_egress, get_endpoint_group_from_security_policy,
}
use everoute.Generator.Index.{
  named, in_applied, in_peers, in_egress_rule, refers, endpoint_group_index-refers,
}

-- a group that is found has the name
abbrev IsNamed : String → Option EndpointGroup → Type 0
IsNamed name found = is_some found ≡ named name found

named-if_named :
    (name : String) (group rest : Option EndpointGroup)
    → named name (if_named name group rest) ≡ (named name group || named name rest)
unfolding if_named
named-if_named name none rest = refl
named-if_named name (some g) rest = ground (arith, string_eq.beq_iff g.name name)

if_named-IsNamed :
    (name : String) (group rest : Option EndpointGroup)
    → IsNamed name rest
    → IsNamed name (if_named name group rest)
unfolding if_named
if_named-IsNamed name none rest h = h
if_named-IsNamed name (some g) rest h = elim (Bool-cases (g.name == name)) [
  | inl same ↦ rw (same, same) refl
  | inr other ↦ rw other h
]

named-find_applied :
    (digest : Digest) (namespace name : String) (others : List ApplyToPeer)
    (rest : Option EndpointGroup)
    → named name (find_applied digest namespace name others rest)
      ≡ (in_applied digest namespace name others || named name rest)
unfolding find_applied
named-find_applied digest namespace name [] rest = refl
named-find_applied digest namespace name (a ∷ others) rest =
    let group = applied_as_endpoint_group digest namespace a in
    let more = find_applied digest namespace name others rest in
    ground
      (arith, named-if_named name group more, named-find_applied digest namespace name others rest)

find_applied-IsNamed :
    (digest : Digest) (namespace name : String) (others : List ApplyToPeer)
    (rest : Option EndpointGroup)
    → IsNamed name rest
    → IsNamed name (find_applied digest namespace name others rest)
unfolding find_applied
find_applied-IsNamed digest namespace name [] rest h = h
find_applied-IsNamed digest namespace name (a ∷ others) rest h =
    if_named-IsNamed name (applied_as_endpoint_group digest namespace a) _
      (find_applied-IsNamed digest namespace name others rest h)

named-find_peers :
    (digest : Digest) (namespace name : String) (ps : List SecurityPolicyPeer)
    (rest : Option EndpointGroup)
    → named name (find_peers digest namespace name ps rest)
      ≡ (in_peers digest namespace name ps || named name rest)
unfolding find_peers
named-find_peers digest namespace name [] rest = refl
named-find_peers digest namespace name (p ∷ ps) rest =
    let group = peer_as_endpoint_group digest namespace p in
    let more = find_peers digest namespace name ps rest in
    ground (arith, named-if_named name group more, named-find_peers digest namespace name ps rest)

find_peers-IsNamed :
    (digest : Digest) (namespace name : String) (ps : List SecurityPolicyPeer)
    (rest : Option EndpointGroup)
    → IsNamed name rest
    → IsNamed name (find_peers digest namespace name ps rest)
unfolding find_peers
find_peers-IsNamed digest namespace name [] rest h = h
find_peers-IsNamed digest namespace name (p ∷ ps) rest h =
    if_named-IsNamed name (peer_as_endpoint_group digest namespace p) _
      (find_peers-IsNamed digest namespace name ps rest h)

named-find_ingress :
    (digest : Digest) (namespace name : String) (rs : List Rule) (rest : Option EndpointGroup)
    → named name (find_ingress digest namespace name rs rest)
      ≡ (any (λ r. in_peers digest namespace name r.from) rs || named name rest)
unfolding find_ingress
named-find_ingress digest namespace name [] rest = refl
named-find_ingress digest namespace name (r ∷ rs) rest =
    let more = find_ingress digest namespace name rs rest in
    ground (
      arith,
      named-find_peers digest namespace name r.from more,
      named-find_ingress digest namespace name rs rest,
    )

find_ingress-IsNamed :
    (digest : Digest) (namespace name : String) (rs : List Rule) (rest : Option EndpointGroup)
    → IsNamed name rest
    → IsNamed name (find_ingress digest namespace name rs rest)
unfolding find_ingress
find_ingress-IsNamed digest namespace name [] rest h = h
find_ingress-IsNamed digest namespace name (r ∷ rs) rest h =
    find_peers-IsNamed digest namespace name r.from _
      (find_ingress-IsNamed digest namespace name rs rest h)

named-all_ep :
    (name : String) (b : Bool)
    → named name (if b then some all_ep_group else none) ≡ (b && all_ep_with_named_port == name)
named-all_ep name true = refl
named-all_ep name false = refl

named-find_egress :
    (digest : Digest) (namespace name : String) (rs : List Rule)
    → named name (find_egress digest namespace name rs)
      ≡ any (in_egress_rule digest namespace name) rs
unfolding find_egress
named-find_egress digest namespace name [] = refl
named-find_egress digest namespace name (r ∷ rs) =
    let more = find_egress digest namespace name rs in
    let all_eps = is_named_port_exists r.ports && is_empty r.to in
    ground (
      arith,
      named-if_named name (if all_eps then some all_ep_group else none)
          (find_peers digest namespace name r.to more),
      named-all_ep name all_eps,
      named-find_peers digest namespace name r.to more,
      named-find_egress digest namespace name rs,
    )

find_egress-IsNamed :
    (digest : Digest) (namespace name : String) (rs : List Rule)
    → IsNamed name (find_egress digest namespace name rs)
unfolding find_egress
find_egress-IsNamed digest namespace name [] = refl
find_egress-IsNamed digest namespace name (r ∷ rs) =
    if_named-IsNamed name
      (if is_named_port_exists r.ports && is_empty r.to then some all_ep_group else none) _
      (find_peers-IsNamed digest namespace name r.to _
        (find_egress-IsNamed digest namespace name rs))

-- what is found is a group of the name, and is found if the policy refers to one
get-refers :
    (digest : Digest) (policy : SecurityPolicy) (name : String)
    → (named name (get_endpoint_group_from_security_policy digest policy name)
        ≡ refers digest policy name)
      × IsNamed name (get_endpoint_group_from_security_policy digest policy name)
unfolding get_endpoint_group_from_security_policy
get-refers digest policy name =
    let egress = find_egress digest policy.namespace name policy.spec.egress_rules in
    let ingress = find_ingress digest policy.namespace name policy.spec.ingress_rules egress in
    (
      ground (
        arith,
        named-find_applied digest policy.namespace name policy.spec.applied_to ingress,
        named-find_ingress digest policy.namespace name policy.spec.ingress_rules egress,
        named-find_egress digest policy.namespace name policy.spec.egress_rules,
      ),
      find_applied-IsNamed digest policy.namespace name policy.spec.applied_to ingress (
          find_ingress-IsNamed digest policy.namespace name policy.spec.ingress_rules egress
            (find_egress-IsNamed digest policy.namespace name policy.spec.egress_rules)),
    )

-- getEndpointGroupFromSecurityPolicy returns a group exactly for the names under which the index
-- lists the policy, and the group has the name that is asked for.
pub get_endpoint_group-indexed :
    (digest : Digest) (policy : SecurityPolicy) (name : String)
    → (has name (endpoint_group_index digest policy) ≡ true
        → (g : EndpointGroup) × (get_endpoint_group_from_security_policy digest policy name
            ≡ some g)
          × (g.name ≡ name))
      × (has name (endpoint_group_index digest policy) ≡ false
          → get_endpoint_group_from_security_policy digest policy name ≡ none)
get_endpoint_group-indexed digest policy name =
    let found = get_endpoint_group_from_security_policy digest policy name in
    let (answer, shape) = get-refers digest policy name in
    let indexed = endpoint_group_index-refers digest policy name in
    elim (Option-cases found) [
      | inl nothing ↦ (λ h. absurd (ground arith), λ h. nothing)
      | inr (g, found_it) ↦ (
        λ h. (g, found_it, ground (arith, string_eq.beq_iff g.name name)),
        λ h. absurd (ground (arith, string_eq.beq_iff g.name name)),
      )
    ]
