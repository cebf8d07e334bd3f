-- ===== src/Datapath/Rules/Refines.antt =====
-- AddEveroutePolicyRule adds a reference, on switches that carry out the calls.
use mathlib.Core.Path.{subst}
use everoute.Common.{
  ℕ, ◌≡◌, refl, sym, ◌∙◌, String, Bool, true, false, Option, none, some, List, [], ◌∷◌, ◌==◌,
  nat_eq, string_eq, arith, inl, inr, Option-cases, beq_refl,
}
use everoute.Common.Dict.{lookup, insert, lookup-insert}
use everoute.Common.Set.{has, add, has-add}
use everoute.Datapath.Rules.{
  EveroutePolicyRule, EveroutePolicyRuleEntry, Place, DpManager, Switches, Outcome,
  add_everoute_policy_rule, is_empty, is_same_rule, policy_rule_is_same, refer, save_rule, install,
  installed_rule,
}
use everoute.Datapath.Rules.Loops.{IsReliable, AllDistinct, install-Installs}
use everoute.Datapath.Rules.Counted.{
  adds, References, after, call_once, Holds, Implements, put-Implements, Holds-installed,
}

policy_rule_is_same_refl : (r : EveroutePolicyRule) → policy_rule_is_same r r ≡ true
unfolding policy_rule_is_same
policy_rule_is_same_refl r =
    ground
      (arith, beq_refl r.rule_id, beq_refl r.src_ip_addr, beq_refl r.dst_ip_addr, beq_refl r.action)

add-nonempty : (a : String) (xs : List String) → is_empty xs ≡ false → is_empty (add a xs) ≡ false
unfolding add
add-nonempty a xs h = ground (arith, h)

module _ (switches : Switches) (bridges : List String)
    (installed : switches.State → String → ℕ → Bool) (body : String → EveroutePolicyRule)
    (distinct : AllDistinct bridges) {accepts : EveroutePolicyRule → Place → Bool}
    (h : IsReliable switches installed accepts) where
  open switches use {State}

  abbrev pub Ends : Option (Outcome State) → References → Type 0
  Ends end refers =
      (o : Outcome State) × (end ≡ some o)
      × (o.done ≡ true)
      × Implements switches bridges installed body o.manager o.state refers

  -- the entry under an ID, with other references
  pub refers-Implements :
      (m : DpManager) (s : State) (refers refers' : References) (id : String)
      (entry : EveroutePolicyRuleEntry) (references : List String)
      → lookup id m.rules ≡ some entry
      → ((n : String) → has n references ≡ refers' id n)
      → is_empty references ≡ false
      → ((j n : String) → id == j ≡ false → refers' j n ≡ refers j n)
      → Implements switches bridges installed body m s refers
      → Implements switches bridges installed body
          (record m {
            rules = insert id (record entry { policy_rule_reference = references }) m.rules;
          })
          s
          refers'
  refers-Implements m s refers refers' id entry references at names some_name others inv =
      let held = subst (Holds switches bridges installed body s id (refers id)) at (inv.holds id) in
      let entry' = record entry { policy_rule_reference = references } in
      put-Implements switches bridges installed body m
        (record m { rules = insert id entry' m.rules }) s s refers refers' id (some entry')
        (λ j. lookup-insert id j entry' m.rules) (held.0, names, some_name, held.3) others
        (λ v n b. ground (
          arith,
          at,
          Holds-installed switches bridges installed body s id (refers id) (some entry) v n held b,
        ))
        (λ v n b own. inl (ground (arith, own, at))) inv

  refer-Ends :
      (rule : EveroutePolicyRule) (place : Place) (name : String) (m : DpManager) (s : State)
      (refers : References) (entry : EveroutePolicyRuleEntry)
      → rule ≡ body rule.rule_id
      → lookup rule.rule_id m.rules ≡ some entry
      → Implements switches bridges installed body m s refers
      → Ends
          (call_once switches bridges (adds rule place name) m s)
          (after (adds rule place name) refers)
  unfolding add_everoute_policy_rule is_same_rule refer
  refer-Ends rule place name m s refers entry fair at inv =
      let id = rule.rule_id in
      let held = subst (Holds switches bridges installed body s id (refers id)) at (inv.holds id) in
      let same : policy_rule_is_same entry.everoute_policy_rule rule ≡ true =
        rw (held.0 ∙ sym fair) (policy_rule_is_same_refl rule) in
      let entry' = record entry { policy_rule_reference = add name entry.policy_rule_reference } in
      let m' = record m { rules = insert id entry' m.rules } in
      (
        record { manager = m'; state = s; done = true },
        rw (at, same) refl,
        refl,
        refers-Implements m s refers (after (adds rule place name) refers) id entry
            (add name entry.policy_rule_reference) at
            (λ n. ground (arith, has-add name n entry.policy_rule_reference, held.1 n, beq_refl id))
            (add-nonempty name entry.policy_rule_reference held.2)
            (λ j n other. ground (arith, other)) inv,
      )

  install-Ends :
      (rule : EveroutePolicyRule) (place : Place) (name : String) (m : DpManager) (s : State)
      (refers : References)
      → rule ≡ body rule.rule_id
      → accepts rule place ≡ true
      → lookup rule.rule_id m.rules ≡ none
      → Implements switches bridges installed body m s refers
      → Ends
          (call_once switches bridges (adds rule place name) m s)
          (after (adds rule place name) refers)
  unfolding add_everoute_policy_rule is_same_rule save_rule has
  install-Ends rule place name m s refers fair yes_rule at inv =
      let id = rule.rule_id in
      let absent =
        subst (Holds switches bridges installed body s id (refers id)) at (inv.holds id) in
      let (flows, done, exact, found, kept) =
        install-Installs switches installed h rule place bridges [] s distinct yes_rule in
      let s' = (install switches rule place bridges [] s).0 in
      let m' = save_rule rule name place none flows m in
      let entry : EveroutePolicyRuleEntry = record {
        everoute_policy_rule = rule;
        place = place;
        rule_flow_map = flows;
        policy_rule_reference = name ∷ [];
      } in
      (
        record { manager = m'; state = s'; done = true },
        rw (at, done, installed_rule) (rw at refl),
        refl,
        put-Implements switches bridges installed body m m' s s' refers
            (after (adds rule place name) refers) id (some entry)
            (λ j. lookup-insert id j entry m.rules)
            (
              fair,
              λ n. ground (arith, absent n, beq_refl id),
              refl,
              λ v b.
                  let (flow, is, fresh) = found v b in
                  (flow, is, ground (arith, exact v flow.flow_id, is, b, beq_refl flow.flow_id)),
            )
            (λ j n other. ground (arith, other)) (λ v n b. ground (arith, exact v n, b, at))
            (λ v n b own.
              let (flow, is, fresh) = found v b in
              inr (ground (arith, own, is, fresh, nat_eq.beq_iff flow.flow_id n)))
            inv,
      )

  -- one call, for the entry that is there
  pub add-Ends :
      (rule : EveroutePolicyRule) (place : Place) (name : String) (m : DpManager) (s : State)
      (refers : References)
      → rule ≡ body rule.rule_id
      → accepts rule place ≡ true
      → Implements switches bridges installed body m s refers
      → Ends
          (call_once switches bridges (adds rule place name) m s)
          (after (adds rule place name) refers)
  add-Ends rule place name m s refers fair yes_rule inv =
      elim (Option-cases (lookup rule.rule_id m.rules)) [
        | inl absent ↦ install-Ends rule place name m s refers fair yes_rule absent inv
        | inr (entry, at) ↦ refer-Ends rule place name m s refers entry fair at inv
      ]
