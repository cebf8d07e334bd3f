-- ===== src/Datapath/Rules/Foreign.antt =====
-- RemoveEveroutePolicyRule under a name that does not refer to the rule.
use mathlib.Core.Path.{subst}
use everoute.Common.{
  ℕ, ◌≡◌, refl, ap, ◌∙◌, String, Bool, true, false, some, List, [], ◌∷◌, ◌++◌, nat_eq, string_eq,
  arith, beq_refl,
}
use everoute.Common.Dict.{lookup, insert, lookup-insert}
use everoute.Common.Set.{has}
use everoute.Datapath.Rules.{
  Place, EveroutePolicyRule, is_empty, FlowEntry, EveroutePolicyRule, EveroutePolicyRuleEntry,
  DpManager, Switches, Outcome, is_empty,
}
use everoute.Datapath.Rules.Removal.{remove_everoute_policy_rule, remove_flows}
use everoute.Datapath.Rules.Loops.{IsReliable, remove_flows-Removes}
use everoute.Datapath.Rules.Counted.{References, Holds, Implements}

module _ (switches : Switches) (bridges : List String)
    (installed : switches.State → String → ℕ → Bool) {accepts : EveroutePolicyRule → Place → Bool}
    (h : IsReliable switches installed accepts) where
  open switches use {State}

  foreign-call :
      (id name : String) (m : DpManager) (s : State) (entry : EveroutePolicyRuleEntry)
      (o : Outcome State)
      → lookup id m.rules ≡ some entry
      → has name entry.policy_rule_reference ≡ false
      → is_empty entry.policy_rule_reference ≡ false
      → remove_flows switches bridges entry.rule_flow_map
          (record m { rules = insert id entry m.rules })
          s
        ≡ some o
      → o.done ≡ true
      → remove_everoute_policy_rule switches bridges id name m s
        ≡ some (record o {
          manager = record o.manager {
            cleaned = o.manager.cleaned ++ entry.everoute_policy_rule ∷ [];
          };
        })
  unfolding remove_everoute_policy_rule
  foreign-call id name m s entry o at foreign some_name ended done =
      rw (at, foreign, ended, done) (rw some_name refl)

module _ (switches : Switches) (bridges : List String)
    (installed : switches.State → String → ℕ → Bool) (body : String → EveroutePolicyRule)
    {accepts : EveroutePolicyRule → Place → Bool} (h : IsReliable switches installed accepts) where
  open switches use {State}

  -- In a database that the calls lead to, RemoveEveroutePolicyRule under a name that does not refer
  -- to the rule takes the flows of the rule away from every bridge and returns no error, and the
  -- entry stays as it is, with the names that refer to it.
  pub foreign_name_removes_flows :
      (id name : String) (m : DpManager) (s : State) (refers : References)
      (entry : EveroutePolicyRuleEntry) (v : String) (flow : FlowEntry)
      → Implements switches bridges installed body m s refers
      → lookup id m.rules ≡ some entry
      → refers id name ≡ false
      → has v bridges ≡ true
      → lookup v entry.rule_flow_map ≡ some flow
      → (o : Outcome State) × (remove_everoute_policy_rule switches bridges id name m s ≡ some o)
        × (o.done ≡ true)
        × (lookup id o.manager.rules ≡ some entry)
        × (installed o.state v flow.flow_id ≡ false)
  foreign_name_removes_flows id name m s refers entry v flow inv at foreign b is =
      let held = subst (Holds switches bridges installed body s id (refers id)) at (inv.holds id) in
      let m' = record m { rules = insert id entry m.rules } in
      let (o, ended, done, same, exact) =
        remove_flows-Removes switches installed h bridges entry.rule_flow_map m' s
          (λ v b. let (flow, is, there) = held.3 v b in (flow, is)) in
      (
        record o {
          manager = record o.manager {
            cleaned = o.manager.cleaned ++ entry.everoute_policy_rule ∷ [];
          };
        },
        foreign-call switches bridges installed h id name m s entry o at (held.1 name ∙ foreign)
            held.2 ended done,
        done,
        ground (arith, ap (lookup id) same, lookup-insert id id entry m.rules, beq_refl id),
        ground (arith, exact v flow.flow_id, b, is, beq_refl flow.flow_id),
      )
