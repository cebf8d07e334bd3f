-- ===== src/GlobalPolicy/Idle.antt =====
-- A reconcile after one that gave up calls nothing.
use everoute.Common.{
  ℕ, zero, suc, ◌≡◌, refl, ap, String, true, Option, none, some, List, [], ◌∷◌, string_eq, nat_eq,
  arith, ok,
}
use everoute.Common.Dict.{Dict, lookup, keys}
use everoute.Common.Set.{insert_all}
use everoute.Cache.Rule.{PolicyRule, Env}
use everoute.Reconciler.Sync.{
  Datapath, rule_is_same, to_rule_map, apply_change, apply_changes,
  compare_and_apply_policy_rules_changes, sync_policy_rules_until_success,
}
use everoute.Reconciler.Sync.Retries.{rule_of}
use everoute.GlobalPolicy.{GlobalPolicy, new_global_policy_rule_pair, reconcile_global_policy}

rule_is_same_refl : (r : PolicyRule) → rule_is_same r r ≡ true
unfolding rule_is_same
rule_is_same_refl r = ground (
  arith,
  string_eq.beq_iff r.name r.name,
  string_eq.beq_iff r.action r.action,
  string_eq.beq_iff r.direction r.direction,
  string_eq.beq_iff r.rule_type r.rule_type,
  string_eq.beq_iff r.tier r.tier,
  string_eq.beq_iff r.enforcement_mode r.enforcement_mode,
  string_eq.beq_iff r.src_ip_addr r.src_ip_addr,
  string_eq.beq_iff r.dst_ip_addr r.dst_ip_addr,
  string_eq.beq_iff r.ip_protocol r.ip_protocol,
  nat_eq.beq_iff r.src_port r.src_port,
  nat_eq.beq_iff r.dst_port r.dst_port,
  nat_eq.beq_iff r.src_port_mask r.src_port_mask,
  nat_eq.beq_iff r.dst_port_mask r.dst_port_mask,
)

-- Two lists have the same rules, in any order.
abbrev pub SameRules : List PolicyRule → List PolicyRule → Type 0
SameRules old new = (name : String) → rule_of old name ≡ rule_of new name

module _ (d : Datapath) where
  open d use {State}

  apply_change-same : (o : Option PolicyRule) (s : State) → apply_change d o o s ≡ (s, true)
  unfolding apply_change
  apply_change-same none s = refl
  apply_change-same (some r) s = ground (arith, rule_is_same_refl r)

  apply_changes-same :
      (old new : Dict String PolicyRule) (names : List String) (s : State)
      → ((name : String) → lookup name old ≡ lookup name new)
      → apply_changes d old new names s ≡ (s, true)
  unfolding apply_changes
  apply_changes-same old new [] s same = refl
  apply_changes-same old new (name ∷ rest) s same =
      let first : apply_change d (lookup name old) (lookup name new) s ≡ (s, true) =
        rw (same name) (apply_change-same (lookup name new) s) in
      ground (arith, first, apply_changes-same old new rest s same)

  compare-same :
      (old new : List PolicyRule) (s : State)
      → SameRules old new
      → compare_and_apply_policy_rules_changes d old new s ≡ (s, true)
  unfolding compare_and_apply_policy_rules_changes
  compare-same old new s same =
      let news = to_rule_map new in
      let olds = to_rule_map old in
      apply_changes-same olds news (insert_all (keys news) (keys olds)) s same

  sync-same :
      (attempts : ℕ) (old new : List PolicyRule) (s : State)
      → SameRules old new
      → sync_policy_rules_until_success d attempts old new s ≡ (s, true)
  unfolding sync_policy_rules_until_success
  sync-same zero old new s same = compare-same old new s same
  sync-same (suc attempts) old new s same = ground (arith, compare-same old new s same)

-- After a reconcile of the one global policy, whether or not the calls that install its rules
-- succeeded, the next reconcile of the policy, by the rules of the cache in any order, leaves the
-- datapath as the first one did and reports no error.
pub reconcile_global_policy-gives_up :
    (E : Type 0) (env : Env) (d : Datapath) (attempts : ℕ) (policy : GlobalPolicy)
    (old listed : List PolicyRule) (s : d.State)
    → SameRules listed (reconcile_global_policy env d attempts {E = E} old (ok (policy ∷ [])) s).0
    → reconcile_global_policy env d attempts {E = E} listed
        (ok (policy ∷ []))
        (reconcile_global_policy env d attempts {E = E} old (ok (policy ∷ [])) s).1
      ≡ (
        new_global_policy_rule_pair env policy,
        (reconcile_global_policy env d attempts {E = E} old (ok (policy ∷ [])) s).1,
        true,
      )
unfolding reconcile_global_policy
reconcile_global_policy-gives_up E env d attempts policy old listed s same =
    let new = new_global_policy_rule_pair env policy in
    let t = (sync_policy_rules_until_success d attempts old new s).0 in
    ap (λ r. (new, r.0, true)) (sync-same d attempts listed new t same)
