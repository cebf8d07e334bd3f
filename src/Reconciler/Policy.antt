-- ===== src/Reconciler/Policy.antt =====
-- The rules of a policy: what each is made of.
use everoute.Common.{
  ◌≡◌, refl, String, Bool, true, false, not, List, [], ◌∷◌, ◌++◌, any, string_eq, if◌then◌else◌,
  Result, ok, err, arith, ◌⊎◌, All, All-append,
}
use everoute.Common.Results.{Returns, Returns->>=}
use everoute.Api.{SecurityPolicy, SecurityPolicyPort, Rule}
use everoute.Ports.{RulePort}
use everoute.Ports.Flatten.{flatten_ports, FlattenError}
use everoute.Cache.Rule.{
  CompleteRule, rule_action_allow, rule_action_drop, rule_direction_in, rule_direction_out,
}
use everoute.Generator.{is_named_port_exists, is_empty}
use everoute.Reconciler.{PolicyError, is_enable, classify_egress_ports}
use everoute.Reconciler.Complete.{Side, rule_ports, allow_rule, drop_rule, each_rule}
use everoute.Reconciler.Peers.{Waits, IsSide}

-- A rule of a policy.
pub record IsPolicyRule (need : String → Bool) (policy : SecurityPolicy) (r : CompleteRule)
    : Type 0 where
  pub tier : r.tier ≡ policy.spec.tier
  pub enforcement_mode : r.enforcement_mode ≡ policy.spec.security_policy_enforcement_mode
  pub action : r.action ≡ (if r.default_policy_rule then rule_action_drop else rule_action_allow)
  pub symmetric_mode :
      r.symmetric_mode ≡ (if r.default_policy_rule then false else policy.spec.symmetric_mode)
  pub direction :
      ((r.direction ≡ rule_direction_in) × ((is_enable policy).0 ≡ true))
      ⊎ ((r.direction ≡ rule_direction_out) × ((is_enable policy).1 ≡ true))
  pub src : IsSide need r.src_groups r.src_ip_blocks
  pub dst : IsSide need r.dst_groups r.dst_ip_blocks

-- the directions that the policy enables
abbrev pub Enabled : SecurityPolicy → String → Type 0
Enabled policy direction =
    ((direction ≡ rule_direction_in) × ((is_enable policy).0 ≡ true))
    ⊎ ((direction ≡ rule_direction_out) × ((is_enable policy).1 ≡ true))

module _ (need : String → Bool) (policy : SecurityPolicy) where
  pub allow_rule-IsPolicyRule :
      (id direction : String) (src dst : Side) (ports : List RulePort)
      → Enabled policy direction
      → IsSide need src.0 src.1
      → IsSide need dst.0 dst.1
      → IsPolicyRule need policy (allow_rule policy id direction src dst ports)
  unfolding allow_rule
  allow_rule-IsPolicyRule id direction src dst ports e s d = record {
    tier = refl;
    enforcement_mode = refl;
    action = refl;
    symmetric_mode = refl;
    direction = e;
    src = s;
    dst = d;
  }

  pub drop_rule-IsPolicyRule :
      (name direction : String) (src dst : Side)
      → Enabled policy direction
      → IsSide need src.0 src.1
      → IsSide need dst.0 dst.1
      → IsPolicyRule need policy (drop_rule policy name direction src dst)
  unfolding drop_rule
  drop_rule-IsPolicyRule name direction src dst e s d = record {
    tier = refl;
    enforcement_mode = refl;
    action = refl;
    symmetric_mode = refl;
    direction = e;
    src = s;
    dst = d;
  }

  pub rule_ports-Returns :
      (E : Type 0) (ports : List SecurityPolicyPort)
      → Returns (Waits {E = E} need) (λ _. Unit) (rule_ports ports)
  rule_ports-Returns E ports = go (flatten_ports ports)
    where
      go :
          (r : Result FlattenError (List RulePort))
          → Returns
              (Waits {E = E} need)
              (λ _. Unit)
              (elim r [ err e ↦ err (PolicyError.bad_ports e) | ok rules ↦ ok rules ])
      go (err e) = tt
      go (ok rules) = tt

  -- the rules that a loop appends
  pub each_rule-Returns :
      (E : Type 0) (f : Rule → Result (PolicyError E) (List CompleteRule)) (W : Rule → Type 0)
      → ((r : Rule) → W r → Returns (Waits need) (All (IsPolicyRule need policy)) (f r))
      → (rs : List Rule) → All W rs
      → Returns (Waits need) (All (IsPolicyRule need policy)) (each_rule f rs)
  each_rule-Returns E f W h [] k = tt
  each_rule-Returns E f W h (r ∷ rs) k =
      Returns->>= (Waits need) (All (IsPolicyRule need policy)) (All (IsPolicyRule need policy))
        (f r) _ (h r k.0)
        (λ rules first.
          Returns->>= (Waits need) (All (IsPolicyRule need policy)) (All (IsPolicyRule need policy))
            (each_rule f rs) (λ rest. ok (rules ++ rest)) (each_rule-Returns E f W h rs k.1)
            (λ rest more. All-append (IsPolicyRule need policy) rules rest first more))

pub named_ports-exist :
    (ports : List SecurityPolicyPort)
    → is_empty (classify_egress_ports ports).1 ≡ not (is_named_port_exists ports)
unfolding classify_egress_ports is_named_port_exists
named_ports-exist [] = refl
named_ports-exist (p ∷ ps) = ground (arith, named_ports-exist ps)

-- what a whole list of rules needs, each of them needs
pub each_needed :
    (need : String → Bool) (p : String → Rule → Bool) (rs : List Rule)
    → ((g : String) → any (p g) rs ≡ true → need g ≡ true)
    → All (λ r. (g : String) → p g r ≡ true → need g ≡ true) rs
each_needed need p [] h = tt
each_needed need p (r ∷ rs) h =
    (λ g k. h g (ground (arith, k)), each_needed need p rs (λ g k. h g (ground (arith, k))))
