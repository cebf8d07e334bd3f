-- ===== src/Generator/Index.antt =====
-- The index of the policies by group, and the group that is generated from an indexed policy.
use everoute.Common.{
  ◌≡◌, refl, String, Bool, true, false, ◌&&◌, ◌||◌, Option, none, some, List, [], ◌∷◌, any, ◌==◌,
  string_eq, arith, Bool-cases, inl, inr,
}
use everoute.Common.Set.{has, add, has-add}
use everoute.Api.{SecurityPolicy, SecurityPolicyPeer, ApplyToPeer, Rule, EndpointGroup}
use everoute.Generator.{
  Digest, all_ep_with_named_port, peer_as_endpoint_group, applied_as_endpoint_group,
  is_named_port_exists, is_empty, insert_group, index_applied, index_peers, index_ingress,
  index_egress, endpoint_group_index,
}

-- whether a group is there and has the name
abbrev pub named : String → Option EndpointGroup → Bool
named name none = false
named name (some g) = g.name == name

-- whether a loop meets a group of the name
abbrev pub in_applied : Digest → String → String → List ApplyToPeer → Bool
in_applied digest namespace name =
    any (λ a. named name (applied_as_endpoint_group digest namespace a))

abbrev pub in_peers : Digest → String → String → List SecurityPolicyPeer → Bool
in_peers digest namespace name = any (λ p. named name (peer_as_endpoint_group digest namespace p))

abbrev pub in_egress_rule : Digest → String → String → Rule → Bool
in_egress_rule digest namespace name r =
    is_named_port_exists r.ports && is_empty r.to && all_ep_with_named_port == name
    || in_peers digest namespace name r.to

-- whether the policy refers to a group of the name
abbrev pub refers : Digest → SecurityPolicy → String → Bool
refers digest policy name =
    in_applied digest policy.namespace name policy.spec.applied_to
    || any (λ r. in_peers digest policy.namespace name r.from) policy.spec.ingress_rules
    || any (in_egress_rule digest policy.namespace name) policy.spec.egress_rules

has-insert_group :
    (name : String) (group : Option EndpointGroup) (set : List String)
    → has name (insert_group group set) ≡ (named name group || has name set)
has-insert_group name none set = refl
has-insert_group name (some g) set = has-add g.name name set

has-index_applied :
    (digest : Digest) (namespace name : String) (others : List ApplyToPeer) (set : List String)
    → has name (index_applied digest namespace others set)
      ≡ (in_applied digest namespace name others || has name set)
unfolding index_applied
has-index_applied digest namespace name [] set = refl
has-index_applied digest namespace name (a ∷ others) set =
    let group = applied_as_endpoint_group digest namespace a in
    ground (
      arith,
      has-index_applied digest namespace name others (insert_group group set),
      has-insert_group name group set,
    )

has-index_peers :
    (digest : Digest) (namespace name : String) (ps : List SecurityPolicyPeer) (set : List String)
    → has name (index_peers digest namespace ps set)
      ≡ (in_peers digest namespace name ps || has name set)
unfolding index_peers
has-index_peers digest namespace name [] set = refl
has-index_peers digest namespace name (p ∷ ps) set =
    let group = peer_as_endpoint_group digest namespace p in
    ground (
      arith,
      has-index_peers digest namespace name ps (insert_group group set),
      has-insert_group name group set,
    )

has-index_ingress :
    (digest : Digest) (namespace name : String) (rs : List Rule) (set : List String)
    → has name (index_ingress digest namespace rs set)
      ≡ (any (λ r. in_peers digest namespace name r.from) rs || has name set)
unfolding index_ingress
has-index_ingress digest namespace name [] set = refl
has-index_ingress digest namespace name (r ∷ rs) set =
    let inner = index_peers digest namespace r.from set in
    ground (
      arith,
      has-index_ingress digest namespace name rs inner,
      has-index_peers digest namespace name r.from set,
    )

has-index_egress :
    (digest : Digest) (namespace name : String) (rs : List Rule) (set : List String)
    → has name (index_egress digest namespace rs set)
      ≡ (any (in_egress_rule digest namespace name) rs || has name set)
unfolding index_egress
has-index_egress digest namespace name [] set = refl
has-index_egress digest namespace name (r ∷ rs) set =
    elim (Bool-cases (is_named_port_exists r.ports && is_empty r.to)) [
      | inl all_eps ↦
          let no_peers : in_peers digest namespace name r.to ≡ false =
            empty_in r.to (ground arith) in
          ground (
            arith,
            has-index_egress digest namespace name rs (add all_ep_with_named_port set),
            has-add all_ep_with_named_port name set,
          )
      | inr own ↦ ground (
        arith,
        has-index_egress digest namespace name rs (index_peers digest namespace r.to set),
        has-index_peers digest namespace name r.to set,
      )
    ]
  where
    empty_in :
        (ps : List SecurityPolicyPeer)
        → is_empty ps ≡ true
        → in_peers digest namespace name ps ≡ false
    empty_in [] h = refl
    empty_in (p ∷ ps) h = absurd (ground arith)

-- EndpointGroupIndexSecurityPolicyFunc lists exactly the names of the groups that the policy refers
-- to: in appliedTo, in a peer of a rule, or, for an egress rule with a named port and no peer, the
-- group of all endpoints with named ports.
pub endpoint_group_index-refers :
    (digest : Digest) (policy : SecurityPolicy) (name : String)
    → has name (endpoint_group_index digest policy) ≡ refers digest policy name
unfolding endpoint_group_index has
endpoint_group_index-refers digest policy name =
    let applied = index_applied digest policy.namespace policy.spec.applied_to [] in
    let ingress = index_ingress digest policy.namespace policy.spec.ingress_rules applied in
    ground (
      arith,
      has-index_egress digest policy.namespace name policy.spec.egress_rules ingress,
      has-index_ingress digest policy.namespace name policy.spec.ingress_rules applied,
      has-index_applied digest policy.namespace name policy.spec.applied_to [],
    )
