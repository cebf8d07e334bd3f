-- ===== src/Reconciler/Sync/Retries.antt =====
-- syncPolicyRulesUntilSuccess: what the datapath holds after the loop over the names, and after the
-- retries.
use everoute.Common.{
  ℕ, zero, suc, ◌≡◌, ◌≢◌, refl, ◌∙◌, String, Bool, true, false, ◌⊎◌, inl, inr, Option, none, some,
  List, [], ◌∷◌, ◌==◌, string_eq, arith, Bool-cases,
}
use everoute.Common.Dict.{Dict, lookup, keys, is_some}
use everoute.Common.Set.{has, insert_all, has-insert_all}
use everoute.Cache.Rule.{PolicyRule}
use everoute.Reconciler.Sync.{
  Datapath, to_rule_map, apply_change, apply_changes, compare_and_apply_policy_rules_changes,
  sync_policy_rules_until_success,
}
use everoute.Reconciler.Sync.Exact.{
  target, OnTheWay, Kept, Named, to_rule_map-Named, has-keys, change-Changed, change-other,
}

-- what holds of a name after a run: it is on the way, and at its target after a run without error
abbrev pub Synced :
    Option PolicyRule → Option PolicyRule → Option PolicyRule → Option PolicyRule × Bool → Type 0
Synced old new held (now, done) =
    OnTheWay old new held now × (done ≡ true → now ≡ target old new held)

module _ (d : Datapath) (old new : Dict String PolicyRule) (held : Option PolicyRule)
    (name : String) (o_named : (n : String) → Named n (lookup n old))
    (n_named : (n : String) → Named n (lookup n new))
    (kept : Kept (lookup name old) (lookup name new) held) where
  open d use {State, holds}

  abbrev Way : State → Type 0
  Way s = OnTheWay (lookup name old) (lookup name new) held (holds s name)

  abbrev AtTarget : State → Type 0
  AtTarget s = holds s name ≡ target (lookup name old) (lookup name new) held

  -- one round of the loop, for the name itself and for another
  step-Way :
      (n : String) (s : State)
      → Way s
      → Way (apply_change d (lookup n old) (lookup n new) s).0
        × ((apply_change d (lookup n old) (lookup n new) s).1 ≡ true
            → (n == name ≡ true) ⊎ AtTarget s
            → AtTarget (apply_change d (lookup n old) (lookup n new) s).0)
  step-Way n s way = elim (Bool-cases (n == name)) [
    | inl here ↦
        let same : name ≡ n = ground (arith, here, string_eq.beq_iff n name) in
        let (way', reached) =
          change-Changed d (lookup name old) (lookup name new) held s name (o_named name)
            (n_named name) kept way in
        rw (← same) (way', λ success _. reached success)
    | inr there ↦
        let apart : name ≢ n = λ e. absurd (ground (arith, there, e, string_eq.beq_iff n name)) in
        let still =
          change-other d (lookup n old) (lookup n new) s n name (o_named n) (n_named n) apart in
        (
          elim way [ inl h ↦ inl (still ∙ h) | inr h ↦ inr (still ∙ h) ],
          λ success which. elim which [
            | inl here ↦ absurd (ground (arith, here, there))
            | inr h ↦ still ∙ h
          ],
        )
  ]

  loop-Way :
      (names : List String) (s : State)
      → Way s
      → Way (apply_changes d old new names s).0
        × ((apply_changes d old new names s).1 ≡ true
            → (has name names ≡ true) ⊎ AtTarget s
            → AtTarget (apply_changes d old new names s).0)
  unfolding apply_changes has
  loop-Way [] s way =
      (way, λ success which. elim which [ inl in_nil ↦ absurd (ground arith) | inr h ↦ h ])
  loop-Way (n ∷ names) s way =
      let first = apply_change d (lookup n old) (lookup n new) s in
      let (way', reached) = step-Way n s way in
      let (way'', reached') = loop-Way names first.0 way' in
      (
        way'',
        λ success which.
            let first_done : first.1 ≡ true = ground (arith, success) in
            let rest_done : (apply_changes d old new names first.0).1 ≡ true =
              ground (arith, success) in
            elim which [
              | inr h ↦ reached' rest_done (inr (reached first_done (inr h)))
              | inl member ↦ elim (Bool-cases (n == name)) [
                | inl here ↦ reached' rest_done (inr (reached first_done (inl here)))
                | inr there ↦ reached' rest_done (inl (ground (arith, member, there)))
              ]
            ],
      )

-- the entries of a name in the two maps
abbrev pub rule_of : List PolicyRule → String → Option PolicyRule
rule_of rules name = lookup name (to_rule_map rules)

module _ (d : Datapath) (old new : List PolicyRule) (held : Option PolicyRule) (name : String)
    (kept : Kept (rule_of old name) (rule_of new name) held) where
  open d use {State, holds}

  abbrev Start : State → Type 0
  Start s = OnTheWay (rule_of old name) (rule_of new name) held (holds s name)

  compare-Synced :
      (s : State)
      → Start s
      → Synced (rule_of old name) (rule_of new name) held (
        holds (compare_and_apply_policy_rules_changes d old new s).0 name,
        (compare_and_apply_policy_rules_changes d old new s).1,
      )
  unfolding compare_and_apply_policy_rules_changes
  compare-Synced s way =
      let olds = to_rule_map old in
      let news = to_rule_map new in
      let names = insert_all (keys news) (keys olds) in
      let (way', reached) =
        loop-Way d olds news held name (to_rule_map-Named old) (to_rule_map-Named new) kept names s
          way in
      (
        way',
        λ success. elim (Bool-cases (has name names)) [
          | inl member ↦ reached success (inl member)
          | inr absent ↦
              unlisted (rule_of old name) (rule_of new name) _
                (ground
                  (arith, absent, has-insert_all name (keys news) (keys olds), has-keys olds name))
                (ground
                  (arith, absent, has-insert_all name (keys news) (keys olds), has-keys news name))
                way'
        ],
      )
    where
      unlisted :
          (o n now : Option PolicyRule)
          → is_some o ≡ false
          → is_some n ≡ false
          → OnTheWay o n held now
          → now ≡ target o n held
      unlisted none none now p q w = elim w [ inl h ↦ h | inr h ↦ h ]
      unlisted none (some r) now p q w = absurd (ground arith)
      unlisted (some r) n now p q w = absurd (ground arith)

  sync-Synced :
      (attempts : ℕ) (s : State)
      → Start s
      → Synced (rule_of old name) (rule_of new name) held (
        holds (sync_policy_rules_until_success d attempts old new s).0 name,
        (sync_policy_rules_until_success d attempts old new s).1,
      )
  unfolding sync_policy_rules_until_success
  sync-Synced zero s way = compare-Synced s way
  sync-Synced (suc attempts) s way =
      let run = compare_and_apply_policy_rules_changes d old new s in
      let (way', reached) = compare-Synced s way in
      elim (Bool-cases run.1) [
        | inl success ↦ rw success (way', λ _. reached success)
        | inr failed ↦ rw failed (sync-Synced attempts run.0 way')
      ]

-- For every datapath and every number of retries: when a rule that is old and new is held, a name
-- holds after syncPolicyRulesUntilSuccess what it held before or its target; and when the function
-- ends without error, every name holds its target: its rule in the new list, nothing if it is in
-- the old list only, and what it held before if it is in neither.
pub sync_policy_rules_until_success-Synced :
    (d : Datapath) (attempts : ℕ) (old new : List PolicyRule) (s : d.State) (name : String)
    → Kept (rule_of old name) (rule_of new name) (d.holds s name)
    → Synced (rule_of old name) (rule_of new name) (d.holds s name) (
      d.holds (sync_policy_rules_until_success d attempts old new s).0 name,
      (sync_policy_rules_until_success d attempts old new s).1,
    )
sync_policy_rules_until_success-Synced d attempts old new s name kept =
    sync-Synced d old new (d.holds s name) name kept attempts s (inl refl)
