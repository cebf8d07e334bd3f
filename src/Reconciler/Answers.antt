-- ===== src/Reconciler/Answers.antt =====
-- What completePolicy returns for a policy: its rules, and the groups that it waits for.
use Prim.Native.String.{◌++◌ as text_append}
use everoute.Common.{
  ◌≡◌, refl, String, Bool, true, ◌&&◌, ◌||◌, not, List, [], ◌∷◌, ◌++◌, ◌==◌, string_eq, Result, ok,
  arith, inl, inr, beq_refl, All, All-append, All-if,
}
use everoute.Common.Results.{◌>>=◌, Returns, Returns->>=, Returns-if}
use everoute.Api.{SecurityPolicy, SecurityPolicyPort, Rule}
use everoute.Cache.Group.{GroupCache}
use everoute.Cache.Rule.{CompleteRule, rule_direction_in, rule_direction_out}
use everoute.Generator.{Digest, is_named_port_exists, is_empty, all_ep_with_named_port}
use everoute.Generator.Index.{in_peers, in_egress_rule, refers}
use everoute.Reconciler.{
  NetLib, PolicyError, default_rule_drop, Found, is_enable, classify_egress_ports,
  get_all_ep_with_named_port_group_and_ip_blocks,
}
use everoute.Reconciler.Complete.{
  Side, any_ip, side_of, rule_ports, rule_id, allow_rule, applied_peers, peers_side, ingress_rule,
  allow_rules, number_rule, named_rule_found, named_rule, open_rules, peer_rules, egress_rule,
  default_if, rules_if, ingress_rules, egress_rules, all_rules, complete_policy,
}
use everoute.Reconciler.Peers.{
  Waits, Needed, IsSide, to_blocks-NoNil, any_ip-IsSide, add_group-Returns, peers_side-Returns,
  in_peers-applied,
}
use everoute.Reconciler.Policy.{
  IsPolicyRule, Enabled, allow_rule-IsPolicyRule, drop_rule-IsPolicyRule, rule_ports-Returns,
  each_rule-Returns, named_ports-exist, each_needed,
}

module _ (lib : NetLib) (digest : Digest) (cache : GroupCache) (need : String → Bool)
    (policy : SecurityPolicy) where
  open lib use {NetError}

  abbrev Rules : List CompleteRule → Type 0
  Rules = All (IsPolicyRule need policy)

  allow_rules-Returns :
      (ports : List SecurityPolicyPort) (id direction : String) (src dst : Side)
      → Enabled policy direction
      → IsSide need src.0 src.1
      → IsSide need dst.0 dst.1
      → Returns (Waits need) Rules (allow_rules lib digest cache policy id direction src dst ports)
  allow_rules-Returns ports id direction src dst e s d =
      Returns->>= (Waits need) (λ _. Unit) Rules (rule_ports ports)
        (λ ps. ok (allow_rule policy id direction src dst ps ∷ []))
        (rule_ports-Returns need policy NetError ports)
        (λ ps _. (allow_rule-IsPolicyRule need policy id direction src dst ps e s d, tt))

  ingress_rule-Returns :
      (applied : Side) (r : Rule)
      → (is_enable policy).0 ≡ true
      → IsSide need applied.0 applied.1
      → ((g : String) → in_peers digest policy.namespace g r.from ≡ true → need g ≡ true)
      → Returns (Waits need) Rules (ingress_rule lib digest cache policy applied r)
  unfolding ingress_rule
  ingress_rule-Returns applied r on d wanted =
      let id = rule_id policy "ingress" r.name in
      Returns->>= (Waits need) (λ s. IsSide need s.0 s.1) Rules
        (peers_side lib digest cache policy.namespace r.from)
        (λ src. allow_rules lib digest cache policy id rule_direction_in src applied r.ports)
        (peers_side-Returns lib digest cache need policy.namespace r.from wanted)
        (λ src s. allow_rules-Returns r.ports id rule_direction_in src applied (inl (refl, on)) s d)

  number_rule-Returns :
      (applied : Side) (r : Rule)
      → (is_enable policy).1 ≡ true
      → IsSide need applied.0 applied.1
      → Returns (Waits need) Rules (number_rule lib digest cache policy applied r)
  unfolding number_rule
  number_rule-Returns applied r on s =
      let numbers = (classify_egress_ports r.ports).0 in
      let id = rule_id policy "egress" r.name in
      Returns-if (Waits need) Rules (not (is_empty numbers) || is_empty r.ports)
        (allow_rules lib digest cache policy id rule_direction_out applied any_ip numbers) (ok [])
        (λ _.
          allow_rules-Returns numbers id rule_direction_out applied any_ip (inr (refl, on)) s
            (any_ip-IsSide need))
        (λ _. tt)

  named_rule_found-Returns :
      (applied : Side) (r : Rule) (found : Found)
      → (is_enable policy).1 ≡ true
      → IsSide need applied.0 applied.1
      → Needed need found.0
      → Returns (Waits need) Rules (named_rule_found lib digest cache policy applied r found)
  named_rule_found-Returns applied r found on s k =
      allow_rules-Returns (classify_egress_ports r.ports).1
        (text_append (rule_id policy "egress" r.name) ".namedport") rule_direction_out applied
        (side_of found) (inr (refl, on)) s
        (record { groups_needed = k; nil_or_groups = inr (to_blocks-NoNil found.1) })

  named_rule-Returns :
      (applied : Side) (r : Rule)
      → (is_enable policy).1 ≡ true
      → IsSide need applied.0 applied.1
      → (is_named_port_exists r.ports ≡ true → need all_ep_with_named_port ≡ true)
      → Returns (Waits need) Rules (named_rule lib digest cache policy applied r)
  unfolding named_rule get_all_ep_with_named_port_group_and_ip_blocks
  named_rule-Returns applied r on s wanted =
      Returns-if (Waits need) Rules (is_empty (classify_egress_ports r.ports).1) (ok [])
        (get_all_ep_with_named_port_group_and_ip_blocks cache
          >>= named_rule_found lib digest cache policy applied r)
        (λ _. tt)
        (λ some_named.
          Returns->>= (Waits need) (λ f. Needed need f.0) Rules
            (get_all_ep_with_named_port_group_and_ip_blocks cache)
            (named_rule_found lib digest cache policy applied r)
            (add_group-Returns NetError need cache all_ep_with_named_port ([], [])
              (wanted (ground (arith, named_ports-exist r.ports, some_named)))
              (any_ip-IsSide need).groups_needed)
            (λ found. named_rule_found-Returns applied r found on s))

  egress_rule-Returns :
      (applied : Side) (r : Rule)
      → (is_enable policy).1 ≡ true
      → IsSide need applied.0 applied.1
      → ((g : String) → in_egress_rule digest policy.namespace g r ≡ true → need g ≡ true)
      → Returns (Waits need) Rules (egress_rule lib digest cache policy applied r)
  unfolding egress_rule
  egress_rule-Returns applied r on s wanted =
      let id = rule_id policy "egress" r.name in
      Returns-if (Waits need) Rules (is_empty r.to) (open_rules lib digest cache policy applied r)
        (peer_rules lib digest cache policy applied r)
        (λ no_peer.
          Returns->>= (Waits need) Rules Rules (number_rule lib digest cache policy applied r)
            (λ numbers.
              named_rule lib digest cache policy applied r >>= λ names. ok (numbers ++ names))
            (number_rule-Returns applied r on s)
            (λ numbers h.
              Returns->>= (Waits need) Rules Rules (named_rule lib digest cache policy applied r)
                (λ names. ok (numbers ++ names))
                (named_rule-Returns applied r on s (λ named.
                  wanted all_ep_with_named_port
                    (ground (arith, named, no_peer, beq_refl all_ep_with_named_port))))
                (λ names k. All-append (IsPolicyRule need policy) numbers names h k)))
        (λ _.
          Returns->>= (Waits need) (λ d. IsSide need d.0 d.1) Rules
            (peers_side lib digest cache policy.namespace r.to)
            (λ dst. allow_rules lib digest cache policy id rule_direction_out applied dst r.ports)
            (peers_side-Returns lib digest cache need policy.namespace r.to
              (λ g k. wanted g (ground (arith, k))))
            (λ dst d.
              allow_rules-Returns r.ports id rule_direction_out applied dst (inr (refl, on)) s d))

  default_if-All :
      (enabled : Bool) (rule : CompleteRule)
      → (enabled ≡ true → IsPolicyRule need policy rule)
      → Rules (default_if lib digest cache enabled policy rule)
  default_if-All enabled rule h =
      All-if (IsPolicyRule need policy) (enabled && policy.spec.default_rule == default_rule_drop)
        (rule ∷ []) [] (λ on. (h (ground (arith, on)), tt)) (λ off. tt)

  rules_if-Returns :
      (enabled : Bool) (rules : Result (PolicyError NetError) (List CompleteRule))
      → (enabled ≡ true → Returns (Waits need) Rules rules)
      → Returns (Waits need) Rules (rules_if lib digest cache enabled rules)
  rules_if-Returns enabled rules h = Returns-if (Waits need) Rules enabled rules (ok []) h (λ _. tt)

  all_rules-All :
      (applied : Side) (ingress egress : List CompleteRule)
      → IsSide need applied.0 applied.1
      → Rules ingress
      → Rules egress
      → Rules (all_rules lib digest cache policy applied ingress egress)
  all_rules-All applied ingress egress s i e = All-append (IsPolicyRule need policy) ingress _ i (
      All-append (IsPolicyRule need policy) _ _
        (default_if-All (is_enable policy).0 _ (λ on.
          drop_rule-IsPolicyRule need policy "ingress" rule_direction_in any_ip applied
            (inl (refl, on)) (any_ip-IsSide need) s))
        (All-append (IsPolicyRule need policy) egress _ e (
          default_if-All (is_enable policy).1 _ (λ on.
            drop_rule-IsPolicyRule need policy "egress" rule_direction_out applied any_ip
              (inr (refl, on)) s (any_ip-IsSide need)))))

-- completePolicy returns rules of the policy, or an error. Every rule has the tier, the mode and the
-- symmetric flag of the policy (a default rule drops and is never symmetric) and a direction that
-- the policy enables; its groups are groups to which the policy refers, and a side with a nil item
-- (every address) has no group. If the error is a group that is not found, the policy refers to
-- that group; the other errors are those of a CIDR and of FlattenPorts.
pub complete_policy-Returns :
    (lib : NetLib) (digest : Digest) (cache : GroupCache) (policy : SecurityPolicy)
    → Returns
        (Waits (refers digest policy))
        (All (IsPolicyRule (refers digest policy) policy))
        (complete_policy lib digest cache policy)
unfolding complete_policy
complete_policy-Returns lib digest cache policy =
    let need = refers digest policy in
    let Rules = All (IsPolicyRule need policy) in
    let peers = applied_peers policy.namespace policy.spec.applied_to in
    Returns->>= (Waits need) (λ s. IsSide need s.0 s.1) Rules
      (peers_side lib digest cache policy.namespace peers)
      (λ applied. ingress_rules lib digest cache policy applied >>= λ ingress.
        egress_rules lib digest cache policy applied >>= λ egress.
        ok (all_rules lib digest cache policy applied ingress egress))
      (peers_side-Returns lib digest cache need policy.namespace peers (λ g k.
        ground (arith, k, in_peers-applied digest policy.namespace g policy.spec.applied_to)))
      (λ applied s.
        Returns->>= (Waits need) Rules Rules (ingress_rules lib digest cache policy applied)
          (λ ingress. egress_rules lib digest cache policy applied >>= λ egress.
            ok (all_rules lib digest cache policy applied ingress egress))
          (rules_if-Returns lib digest cache need policy (is_enable policy).0 _ (λ on.
            each_rule-Returns need policy lib.NetError
              (ingress_rule lib digest cache policy applied)
              (λ r. (g : String) → in_peers digest policy.namespace g r.from ≡ true → need g ≡ true)
              (λ r. ingress_rule-Returns lib digest cache need policy applied r on s)
              policy.spec.ingress_rules
              (each_needed need (λ g r. in_peers digest policy.namespace g r.from)
                policy.spec.ingress_rules (λ g k. ground (arith, k)))))
          (λ ingress i.
            Returns->>= (Waits need) Rules Rules (egress_rules lib digest cache policy applied)
              (λ egress. ok (all_rules lib digest cache policy applied ingress egress))
              (rules_if-Returns lib digest cache need policy (is_enable policy).1 _ (λ on.
                each_rule-Returns need policy lib.NetError
                  (egress_rule lib digest cache policy applied)
                  (λ r.
                    (g : String)
                    → in_egress_rule digest policy.namespace g r ≡ true
                    → need g ≡ true)
                  (λ r. egress_rule-Returns lib digest cache need policy applied r on s)
                  policy.spec.egress_rules
                  (each_needed need (λ g r. in_egress_rule digest policy.namespace g r)
                    policy.spec.egress_rules (λ g k. ground (arith, k)))))
              (λ egress e.
                all_rules-All lib digest cache need policy applied ingress egress s i e)))
