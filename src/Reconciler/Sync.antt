-- ===== src/Reconciler/Sync.antt =====
-- The comparison of two lists of rules and the retries: compareAndApplyPolicyRulesChanges and
-- syncPolicyRulesUntilSuccess of pkg/agent/controller/policy/policy_controller.go, with toRuleMap and
-- ruleIsSame of policy_controller_helper.go. The datapath is an interface: the calls that install and
-- remove a rule may fail, and each call sees a state of its own. A clock that passes the deadline is
-- a list of attempts that ends.
pub mod Exact
pub mod Retries
use everoute.Common.{
  ℕ, String, Bool, true, false, ◌&&◌, ◌||◌, ◌≡◌, ◌≢◌, ◌⊎◌, Option, none, some, List, [], ◌∷◌, fold,
  ◌==◌, nat_eq, string_eq, if◌then◌else◌,
}
use everoute.Common.Dict.{Dict, lookup, insert, keys}
use everoute.Common.Set.{insert_all}
use everoute.Cache.Rule.{PolicyRule}

-- The rules that the datapath holds, by name, and the two calls; `true` says that a call succeeded.
-- A call that fails may have had its effect; no call touches another rule.
pub record Datapath : Type 1 where
  pub State : Type 0
  pub holds : State → String → Option PolicyRule
  pub add_rule : PolicyRule → State → State × Bool
  pub remove_rule : String → State → State × Bool
  pub added :
      (r : PolicyRule) (s : State)
      → (add_rule r s).1 ≡ true
      → holds (add_rule r s).0 r.name ≡ some r
  pub add_failed :
      (r : PolicyRule) (s : State)
      → (holds (add_rule r s).0 r.name ≡ some r) ⊎ (holds (add_rule r s).0 r.name ≡ holds s r.name)
  pub add_other :
      (r : PolicyRule) (s : State) (n : String) → n ≢ r.name → holds (add_rule r s).0 n ≡ holds s n
  pub removed :
      (n : String) (s : State) → (remove_rule n s).1 ≡ true → holds (remove_rule n s).0 n ≡ none
  pub remove_failed :
      (n : String) (s : State)
      → (holds (remove_rule n s).0 n ≡ none) ⊎ (holds (remove_rule n s).0 n ≡ holds s n)
  pub remove_other :
      (n : String) (s : State) (m : String) → m ≢ n → holds (remove_rule n s).0 m ≡ holds s m

-- the fields of a rule are comparable, so reflect.DeepEqual compares them one by one
unfoldable pub rule_is_same : PolicyRule → PolicyRule → Bool
rule_is_same a b =
    a.name == b.name
    && a.action == b.action
    && a.direction == b.direction
    && a.rule_type == b.rule_type
    && a.tier == b.tier
    && a.enforcement_mode == b.enforcement_mode
    && a.src_ip_addr == b.src_ip_addr
    && a.dst_ip_addr == b.dst_ip_addr
    && a.ip_protocol == b.ip_protocol
    && a.src_port == b.src_port
    && a.dst_port == b.dst_port
    && a.src_port_mask == b.src_port_mask
    && a.dst_port_mask == b.dst_port_mask

abbrev pub put_rule : Dict String PolicyRule → PolicyRule → Dict String PolicyRule
put_rule m r = insert r.name r m

unfoldable pub to_rule_map : List PolicyRule → Dict String PolicyRule
to_rule_map rules = fold put_rule [] rules

module _ (d : Datapath) where
  open d use {State, add_rule, remove_rule}

  -- the body of the loop: the state, and whether the errors are still empty
  unfoldable pub apply_change : Option PolicyRule → Option PolicyRule → State → State × Bool
  unfolding rule_is_same
  apply_change none none s = (s, true)
  apply_change (some old) none s = remove_rule old.name s
  apply_change none (some new) s = add_rule new s
  apply_change (some old) (some new) s = if rule_is_same old new then (s, true) else add_rule new s

  unfoldable pub apply_changes :
      Dict String PolicyRule → Dict String PolicyRule → List String → State → State × Bool
  unfolding apply_change
  apply_changes old new [] s = (s, true)
  apply_changes old new (name ∷ rest) s =
      let first = apply_change (lookup name old) (lookup name new) s in
      let more = apply_changes old new rest first.0 in (more.0, first.1 && more.1)

  -- whether there was no error
  unfoldable pub compare_and_apply_policy_rules_changes :
      List PolicyRule → List PolicyRule → State → State × Bool
  unfolding apply_changes to_rule_map
  compare_and_apply_policy_rules_changes old_rules new_rules s =
      let old = to_rule_map old_rules in
      let new = to_rule_map new_rules in apply_changes old new (insert_all (keys new) (keys old)) s

  -- the loop while there is an error, on the attempts that the deadline leaves; `false`: given up
  unfoldable pub sync_policy_rules_until_success :
      ℕ → List PolicyRule → List PolicyRule → State → State × Bool
  unfolding compare_and_apply_policy_rules_changes
  sync_policy_rules_until_success ℕ.zero old new s =
      compare_and_apply_policy_rules_changes old new s
  sync_policy_rules_until_success (ℕ.suc attempts) old new s =
      let (t, done) = compare_and_apply_policy_rules_changes old new s in
      let rest = sync_policy_rules_until_success attempts old new t in
      if done then (t, true) else rest
