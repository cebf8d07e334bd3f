-- ===== src/Reconciler/Rounds.antt =====
-- ReconcilePatch, ReconcilePolicy, cleanPolicyDependents, processPolicyUpdate and
-- calculateExpectedPolicyRules of pkg/agent/controller/policy/policy_controller.go, and isGroupNotFound.
-- The rule cache is a client-go indexer of pointers: the rules that an index lists are a parameter,
-- and what a method writes through the pointers is part of the result. The attempts that a deadline
-- leaves are a number.
pub mod Drain
pub mod Cached
pub mod Policy
pub mod Shared
pub mod Watch
use everoute.GroupController.Select.{ReadError, not_found, failed}
use everoute.Common.{
  ℕ, zero, suc, String, Bool, true, false, ◌&&◌, ◌||◌, not, Option, none, some, List, [], ◌∷◌, ◌++◌,
  gather, fold, ◌==◌, nat_eq, string_eq, if◌then◌else◌, Result, ok, err,
}
use everoute.Common.Dict.{Dict, insert, values}
use everoute.Api.{SecurityPolicy}
use everoute.Cache.{IpBlockItem, Blocks, Items}
use everoute.Cache.Group.{GroupCache, GroupPatch, Fatal, next_patch, apply_patch, patch_len}
use everoute.Cache.Rule.{
  CompleteRule, PolicyRule, RulePatch, Env, get_patch_policy_rules, list_rules,
}
use everoute.Cache.Rule.{apply_patch as apply_to_rule}
use everoute.Reconciler.{NetLib, PolicyError}
use everoute.Reconciler.Sync.{Datapath, sync_policy_rules_until_success}

-- the maps of a patch as the methods of a rule read them; no item is nil
abbrev pub to_blocks : Items → Blocks
to_blocks [] = []
to_blocks ((ip, item) ∷ rest) = (ip, some item) ∷ to_blocks rest

abbrev pub rule_patch : GroupPatch → RulePatch
rule_patch patch = record {
  group_name = patch.group_name;
  revision = patch.revision;
  add = to_blocks patch.add;
  del = to_blocks patch.del;
}

-- how a round may end the process
pub data Crash : Type 0 where
  nil_write : Crash
  fatal : Fatal → Crash

-- a round that finds no patch, or the caches that a patch leaves and whether to come back at once
pub data Round (S : Type 0) : Type 0 where
  idle : Round S
  worked : List CompleteRule → GroupCache → S → Bool → Round S

-- ctrl.Result and error of a policy round: come back at once, fail, or be done
pub data Answer : Type 0 where
  retry : Answer
  fail : Answer
  finish : Answer

module _ (env : Env) (d : Datapath) (attempts : ℕ) where
  open d use {State}

  -- the rule and the datapath after the body of the loop over the rules
  abbrev pub patch_rule_with :
      RulePatch
      → CompleteRule
      → Option (List PolicyRule × List PolicyRule)
      → State
      → Option (CompleteRule × State)
  patch_rule_with patch rule none s = none
  patch_rule_with patch rule (some (new_rules, old_rules)) s = elim (apply_to_rule rule patch) [
    | none ↦ none
    | some rule' ↦
        some (rule', (sync_policy_rules_until_success d attempts old_rules new_rules s).0)
  ]

  unfoldable pub patch_rule : RulePatch → CompleteRule → State → Option (CompleteRule × State)
  patch_rule patch rule s = patch_rule_with patch rule (get_patch_policy_rules env rule patch) s

  -- one rule in front of the later ones
  abbrev pub with_rest :
      Option (CompleteRule × State)
      → (State → Option (List CompleteRule × State))
      → Option (List CompleteRule × State)
  with_rest none later = none
  with_rest (some (rule, s)) later = elim (later s) [
    | none ↦ none
    | some (rules, t) ↦ some (rule ∷ rules, t)
  ]

  unfoldable pub patch_rules :
      RulePatch → List CompleteRule → State → Option (List CompleteRule × State)
  unfolding patch_rule
  patch_rules patch [] s = some ([], s)
  patch_rules patch (rule ∷ rest) s = with_rest (patch_rule patch rule s) (patch_rules patch rest)

  -- ApplyPatch of the group cache and the test of PatchLen
  abbrev pub finish_round :
      String → List CompleteRule → State → Result Fatal GroupCache → Result Crash (Round State)
  finish_round group_name rules s (err e) = err (fatal e)
  finish_round group_name rules s (ok groups) =
      ok (worked rules groups s (not (patch_len groups group_name == 0)))

  abbrev pub apply_round :
      String
      → GroupCache
      → GroupPatch
      → Option (List CompleteRule × State)
      → Result Crash (Round State)
  apply_round group_name groups patch none = err nil_write
  apply_round group_name groups patch (some (rules, s)) =
      finish_round group_name rules s (apply_patch groups patch)

  -- the rules are those that GroupIndex lists for the group of the patch
  unfoldable pub reconcile_patch :
      String → List CompleteRule → GroupCache → State → Result Crash (Round State)
  unfolding patch_rules
  reconcile_patch group_name complete_rules groups s = elim (next_patch groups group_name) [
    | none ↦ ok idle
    | some patch ↦
        apply_round group_name groups patch (patch_rules (rule_patch patch) complete_rules s)
  ]

  -- the rules are those that PolicyIndex lists for the policy; all leave the cache
  unfoldable pub clean_policy_dependents : List CompleteRule → State → State × Bool
  clean_policy_dependents complete_rules s =
      sync_policy_rules_until_success d attempts (gather (list_rules env) complete_rules) [] s

  -- ruleCache.Add: ruleKeyFunc is the ID, so that a rule replaces the one with its ID
  unfoldable pub add_to_cache : Dict String CompleteRule → CompleteRule → Dict String CompleteRule
  add_to_cache cached rule = insert rule.rule_id rule cached

  -- The rules that stand in the cache for the policy afterwards, after the old ones are deleted, and
  -- what all of the new ones make
  unfoldable pub calculate_expected_policy_rules :
      {E : Type 0} → Result E (List CompleteRule) → Result E (List CompleteRule × List PolicyRule)
  unfolding add_to_cache
  calculate_expected_policy_rules (err e) = err e
  calculate_expected_policy_rules (ok complete_rules) =
      ok (values (fold add_to_cache [] complete_rules), gather (list_rules env) complete_rules)

  -- The assertion to the interface type that groupNotFound is succeeds for every error.
  unfoldable pub is_group_not_found : {E : Type 0} {A : Type 0} → Result E A → Bool
  is_group_not_found (ok a) = false
  is_group_not_found (err e) = true

  abbrev pub exchange_with :
      {E : Type 0}
      → List CompleteRule
      → Result E (List CompleteRule × List PolicyRule)
      → State
      → List CompleteRule × State × Answer
  exchange_with old (err e) s =
      (old, s, (if is_group_not_found {A = Unit {0}} (err e) then retry else fail))
  exchange_with old (ok (rules, new_rules)) s = (
    rules,
    (sync_policy_rules_until_success d attempts (gather (list_rules env) old) new_rules s).0,
    finish,
  )

  -- the rules of the policy in the cache before, and what completePolicy returns
  unfoldable pub process_policy_update :
      {E : Type 0}
      → List CompleteRule
      → Result E (List CompleteRule)
      → State
      → List CompleteRule × State × Answer
  unfolding calculate_expected_policy_rules is_group_not_found
  process_policy_update old completed s =
      exchange_with old (calculate_expected_policy_rules completed) s

  -- ReconcilePolicy, by the answer of the client; a policy that is gone is cleaned
  unfoldable pub reconcile_policy :
      {E : Type 0}
      → (SecurityPolicy → Result E (List CompleteRule))
      → Result ReadError SecurityPolicy
      → List CompleteRule
      → State
      → List CompleteRule × State × Answer
  unfolding process_policy_update clean_policy_dependents
  reconcile_policy complete (ok policy) old s = process_policy_update old (complete policy) s
  reconcile_policy complete (err not_found) old s = ([], (clean_policy_dependents old s).0, finish)
  reconcile_policy complete (err (failed e)) old s = (old, s, fail)

  -- The work queue comes back while a round asks for it, on fuel for the rounds; nothing else
  -- happens in between.
  unfoldable pub rounds :
      ℕ
      → String
      → List CompleteRule
      → GroupCache
      → State
      → Result Crash (List CompleteRule × GroupCache × State)
  unfolding reconcile_patch
  rounds zero name rules groups s = ok (rules, groups, s)
  rounds (suc fuel) name rules groups s = elim (reconcile_patch name rules groups s) [
    | err e ↦ err e
    | ok idle ↦ ok (rules, groups, s)
    | ok (worked rules' groups' s' again) ↦
        let more = rounds fuel name rules' groups' s' in
        if again then more else ok (rules', groups', s')
  ]
