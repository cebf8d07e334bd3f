-- ===== src/Reconciler/Rounds/Policy.antt =====
-- ReconcilePolicy keeps the rule cache and the datapath in agreement.
use everoute.Common.{
  ℕ, zero, suc, ◌≡◌, refl, ap, ◌∙◌, String, true, Option, none, some, List, [], ◌∷◌, gather, arith,
  Result, ok, err, string_eq,
}
use everoute.Common.Dict.{Dict, lookup}
use everoute.Api.{SecurityPolicy}
use everoute.Cache.Rule.{CompleteRule, PolicyRule, Env, list_rules}
use everoute.GroupController.Select.{ReadError, not_found, failed}
use everoute.Reconciler.Sync.{
  Datapath, apply_change, apply_changes, compare_and_apply_policy_rules_changes,
  sync_policy_rules_until_success,
}
use everoute.Reconciler.Sync.Exact.{target}
use everoute.Reconciler.Sync.Retries.{rule_of, sync_policy_rules_until_success-Synced}
use everoute.Reconciler.Rounds.{
  reconcile_policy, process_policy_update, calculate_expected_policy_rules, Answer, retry, fail,
  finish,
}
use everoute.Reconciler.Rounds.Cached.{IdsDiffer, values-add_to_cache, empty-Fresh}

-- the rules of the cache that are listed for the policy, afterwards, and the answer
abbrev pub completed :
    {E : Type 0} → Result E (List CompleteRule) → List CompleteRule → List CompleteRule × Answer
completed (ok rules) old = (rules, finish)
completed (err e) old = (old, retry)

abbrev pub expected :
    {E : Type 0}
    → (SecurityPolicy → Result E (List CompleteRule))
    → Result ReadError SecurityPolicy
    → List CompleteRule
    → List CompleteRule × Answer
expected complete (err not_found) old = ([], finish)
expected complete (err (failed e)) old = (old, fail)
expected complete (ok policy) old = completed (complete policy) old

module _ (d : Datapath) where
  open d use {State, add_rule, remove_rule, holds}

  -- The datapath holds the rules of a list.
  abbrev pub HoldsRules : State → List PolicyRule → Type 0
  HoldsRules s rules =
      (name : String) (r : PolicyRule) → rule_of rules name ≡ some r → holds s name ≡ some r

  -- and those that a list of complete rules generates
  abbrev pub InSync : Env → State → List CompleteRule → Type 0
  InSync env s rules = HoldsRules s (gather (list_rules env) rules)

  -- Every name holds its target.
  abbrev pub Replaces : State → State → List PolicyRule → List PolicyRule → Type 0
  Replaces s t old new =
      (name : String) → holds t name ≡ target (rule_of old name) (rule_of new name) (holds s name)

  Replaces-HoldsRules :
      (s t : State) (old new : List PolicyRule) → Replaces s t old new → HoldsRules t new
  Replaces-HoldsRules s t old new replaces name r is_new =
      replaces name ∙ ap (λ rule. target (rule_of old name) rule (holds s name)) is_new

  target-same :
      (rule held : Option PolicyRule)
      → ((r : PolicyRule) → rule ≡ some r → held ≡ some r)
      → held ≡ target rule rule held
  target-same none held h = refl
  target-same (some r) held h = h r refl

  -- what a round of ReconcilePolicy leaves
  abbrev pub Leaves :
      Env
      → State
      → List CompleteRule
      → List CompleteRule × Answer
      → List CompleteRule × State × Answer
      → Type 0
  Leaves env s old (rules, answer') (cached, t, answer) =
      (cached ≡ rules)
      × (answer ≡ answer')
      × InSync env t cached
      × Replaces s t (gather (list_rules env) old) (gather (list_rules env) rules)

  stays :
      (env : Env) (s : State) (rules : List CompleteRule) (answer : Answer)
      → InSync env s rules
      → Leaves env s rules (rules, answer) (rules, s, answer)
  stays env s rules answer held = (refl, refl, held, λ name. target-same _ _ (held name))

  -- calls that succeed
  pub record IsReliable : Type 0 where
    pub adds : (r : PolicyRule) (s : State) → (add_rule r s).1 ≡ true
    pub removes : (n : String) (s : State) → (remove_rule n s).1 ≡ true

  module _ (h : IsReliable) where
    apply_change-succeeds :
        (old new : Option PolicyRule) (s : State) → (apply_change d old new s).1 ≡ true
    unfolding apply_change
    apply_change-succeeds none none s = refl
    apply_change-succeeds (some r) none s = h.removes r.name s
    apply_change-succeeds none (some r) s = h.adds r s
    apply_change-succeeds (some a) (some b) s = ground (arith, h.adds b s)

    apply_changes-succeed :
        (old new : Dict String PolicyRule) (names : List String) (s : State)
        → (apply_changes d old new names s).1 ≡ true
    unfolding apply_changes
    apply_changes-succeed old new [] s = refl
    apply_changes-succeed old new (n ∷ names) s =
        let first = apply_change d (lookup n old) (lookup n new) s in
        ground (
          arith,
          apply_change-succeeds (lookup n old) (lookup n new) s,
          apply_changes-succeed old new names first.0,
        )

    compare-succeeds :
        (old new : List PolicyRule) (s : State)
        → (compare_and_apply_policy_rules_changes d old new s).1 ≡ true
    unfolding compare_and_apply_policy_rules_changes
    compare-succeeds old new s = apply_changes-succeed _ _ _ s

    sync-succeeds :
        (attempts : ℕ) (old new : List PolicyRule) (s : State)
        → (sync_policy_rules_until_success d attempts old new s).1 ≡ true
    unfolding sync_policy_rules_until_success
    sync-succeeds zero old new s = compare-succeeds old new s
    sync-succeeds (suc attempts) old new s = ground (arith, compare-succeeds old new s)

    sync-Replaces :
        (attempts : ℕ) (old new : List PolicyRule) (s : State)
        → HoldsRules s old
        → Replaces s (sync_policy_rules_until_success d attempts old new s).0 old new
    sync-Replaces attempts old new s held name =
        (sync_policy_rules_until_success-Synced d attempts old new s name
            (λ r is_old is_new. held name r is_old)).1
          (sync-succeeds attempts old new s)

    exchanged :
        (env : Env) (attempts : ℕ) (s : State) (old rules : List CompleteRule) (answer : Answer)
        → InSync env s old
        → Leaves env s old
            (rules, answer)
            (
              rules,
              (sync_policy_rules_until_success d attempts
                  (gather (list_rules env) old)
                  (gather (list_rules env) rules)
                  s).0,
              answer,
            )
    exchanged env attempts s old rules answer held =
        let olds = gather (list_rules env) old in
        let news = gather (list_rules env) rules in
        let replaces = sync-Replaces attempts olds news s held in
        (
          refl,
          refl,
          Replaces-HoldsRules s (sync_policy_rules_until_success d attempts olds news s).0 olds news
              replaces,
          replaces,
        )

    updated :
        (E : Type 0) (env : Env) (attempts : ℕ) (s : State) (old rules : List CompleteRule)
        → InSync env s old
        → IdsDiffer rules
        → Leaves env s old
            (rules, finish)
            (process_policy_update env d attempts {E = E} old (ok rules) s)
    unfolding process_policy_update calculate_expected_policy_rules
    updated E env attempts s old rules held differ =
        let cached = values-add_to_cache env d attempts rules [] differ (empty-Fresh rules) in
        rw cached (exchanged env attempts s old rules finish held)

    -- On a datapath whose calls succeed and that holds the rules of the policy in the cache, a round
    -- of ReconcilePolicy puts the rules that completePolicy returns in the cache, no rule for a
    -- policy that is gone, and leaves the cache as it is after any error. It fails after a failed
    -- read, asks to come back after an error of completePolicy, and else is done. Then the datapath
    -- holds the rules of the cache, nothing under the names of the old rules that are gone, and
    -- under the other names what it held before. No two of the rules that the cache is to have
    -- share an ID, which is its key.
    pub reconcile_policy-Leaves :
        {E : Type 0} (env : Env) (attempts : ℕ)
        (complete : SecurityPolicy → Result E (List CompleteRule))
        (read : Result ReadError SecurityPolicy) (old : List CompleteRule) (s : State)
        → InSync env s old
        → IdsDiffer (expected complete read old).0
        → Leaves env s old
            (expected complete read old)
            (reconcile_policy env d attempts complete read old s)
    unfolding reconcile_policy
    reconcile_policy-Leaves env attempts complete (err not_found) old s held differ =
        exchanged env attempts s old [] finish held
    reconcile_policy-Leaves env attempts complete (err (failed e)) old s held differ =
        stays env s old fail held
    reconcile_policy-Leaves {E} env attempts complete (ok policy) old s held differ =
        go (complete policy) differ
      where
        go :
            (r : Result E (List CompleteRule))
            → IdsDiffer (completed r old).0
            → Leaves env s old (completed r old) (process_policy_update env d attempts old r s)
        go (ok rules) differ = updated E env attempts s old rules held differ
        go (err e) differ = stays env s old retry held
