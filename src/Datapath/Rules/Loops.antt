-- ===== src/Datapath/Rules/Loops.antt =====
-- The loops over the bridges, on switches that carry out the calls.
use everoute.Common.{
  ℕ, ◌≡◌, refl, sym, ap, ◌∙◌, String, Bool, true, false, not, ◌&&◌, ◌||◌, Option, none, some, List,
  [], ◌∷◌, ◌==◌, nat_eq, string_eq, arith, Bool-cases, inl, inr,
}
use everoute.Common.Dict.{Dict, lookup, insert, delete, lookup-insert}
use everoute.Common.Set.{has}
use everoute.Datapath.Rules.{
  EveroutePolicyRule, Place, FlowEntry, DpManager, Switches, Outcome, install,
}
use everoute.Datapath.Rules.Removal.{remove_flows}

-- A rule and a place that the bridges accept are added, and every deletion succeeds. A flow that is
-- added has an ID that no flow of the bridge has, and replaces none. ofctrl keeps one flow for each
-- priority and match of a table; the ID of a rule is the digest of the fields that give the table, the
-- priority and the match, and a rule is added only when the database has none under its ID. DeleteFlow
-- takes away the flow with the ID, and nothing else.
pub record IsReliable (switches : Switches) (installed : switches.State → String → ℕ → Bool)
    (accepts : EveroutePolicyRule → Place → Bool) : Type 0 where
  pub added :
      (vds : String) (rule : EveroutePolicyRule) (place : Place) (s : switches.State)
      → accepts rule place ≡ true
      → (flow : FlowEntry) × ((switches.add_micro_segment_rule vds rule place s).1 ≡ some flow)
        × (installed s vds flow.flow_id ≡ false)
        × ((v : String) (n : ℕ)
            → installed (switches.add_micro_segment_rule vds rule place s).0 v n
              ≡ (vds == v && flow.flow_id == n || installed s v n))
  pub deleted :
      (vds : String) (flow : FlowEntry) (s : switches.State)
      → (switches.delete_flow vds flow s).1 ≡ true
  pub deleted_only :
      (vds : String) (flow : FlowEntry) (s : switches.State) (v : String) (n : ℕ)
      → installed (switches.delete_flow vds flow s).0 v n
        ≡ (not (vds == v && flow.flow_id == n) && installed s v n)

-- whether the flow of a bridge has an ID
abbrev pub is_flow : ℕ → Option FlowEntry → Bool
is_flow n none = false
is_flow n (some flow) = flow.flow_id == n

-- no bridge stands twice
abbrev pub AllDistinct : List String → Type 0
AllDistinct [] = Unit
AllDistinct (x ∷ xs) = (has x xs ≡ false) × AllDistinct xs

module _ (switches : Switches) (installed : switches.State → String → ℕ → Bool)
    {accepts : EveroutePolicyRule → Place → Bool} (h : IsReliable switches installed accepts) where
  open switches use {State}

  -- what the loop of AddEveroutePolicyRule leaves: a new flow on each bridge
  abbrev pub Installs :
      List String → Dict String FlowEntry → State → State × Option (Dict String FlowEntry) → Type 0
  Installs bridges flows s end =
      (flows' : Dict String FlowEntry) × (end.1 ≡ some flows')
      × ((v : String) (n : ℕ)
          → installed end.0 v n ≡ (has v bridges && is_flow n (lookup v flows') || installed s v n))
      × ((v : String)
          → has v bridges ≡ true
          → (flow : FlowEntry) × (lookup v flows' ≡ some flow)
            × (installed s v flow.flow_id ≡ false))
      × ((v : String) → has v bridges ≡ false → lookup v flows' ≡ lookup v flows)

  pub install-Installs :
      (rule : EveroutePolicyRule) (place : Place) (bridges : List String)
      (flows : Dict String FlowEntry) (s : State)
      → AllDistinct bridges
      → accepts rule place ≡ true
      → Installs bridges flows s (install switches rule place bridges flows s)
  unfolding install has
  install-Installs rule place [] flows s d yes_rule =
      (flows, refl, λ v n. refl, λ v b. absurd (ground (arith, b)), λ v b. refl)
  install-Installs rule place (x ∷ bridges) flows s d yes_rule =
      let (flow, got, fresh, only) = h.added x rule place s yes_rule in
      let s' = (switches.add_micro_segment_rule x rule place s).0 in
      let (flows', done, exact, found, kept) =
        install-Installs rule place bridges (insert x flow flows) s' d.1 yes_rule in
      rw (got, install)
        (
          flows',
          done,
          λ v n. elim (Bool-cases (x == v)) [
            | inl same ↦
                let e : x ≡ v = (string_eq.beq_iff x v).0 same in
                let last = kept v (rw (← e) d.0) ∙ lookup-insert x v flow flows in
                ground (arith, exact v n, only v n, last, same, rw e at d.0)
            | inr other ↦ ground (arith, exact v n, only v n, other)
          ],
          λ v b. elim (Bool-cases (x == v)) [
            | inl same ↦
                let e : x ≡ v = (string_eq.beq_iff x v).0 same in
                let last = kept v (rw (← e) d.0) ∙ lookup-insert x v flow flows in
                (flow, ground (arith, last, same), rw (← e) fresh)
            | inr other ↦
                let (flow', at, fresh') = found v (ground (arith, b, other)) in
                (flow', at, ground (arith, fresh', only v flow'.flow_id, other))
          ],
          λ v b. ground (arith, b, kept v, lookup-insert x v flow flows),
        )

  -- what the loop of RemoveEveroutePolicyRule leaves: no flow of the rule
  abbrev pub Removes :
      List String → Dict String FlowEntry → DpManager → State → Option (Outcome State) → Type 0
  Removes bridges flows m s end =
      (o : Outcome State) × (end ≡ some o)
      × (o.done ≡ true)
      × (o.manager.rules ≡ m.rules)
      × ((v : String) (n : ℕ)
          → installed o.state v n
            ≡ (not (has v bridges && is_flow n (lookup v flows)) && installed s v n))

  pub remove_flows-Removes :
      (bridges : List String) (flows : Dict String FlowEntry) (m : DpManager) (s : State)
      → ((v : String) → has v bridges ≡ true → (flow : FlowEntry) × (lookup v flows ≡ some flow))
      → Removes bridges flows m s (remove_flows switches bridges flows m s)
  unfolding remove_flows has
  remove_flows-Removes [] flows m s found =
      (record { manager = m; state = s; done = true }, refl, refl, refl, λ v n. refl)
  remove_flows-Removes (x ∷ bridges) flows m s found =
      let (flow, at) = found x (ground (arith, string_eq.beq_iff x x)) in
      let m' = record m { flow_id_to_rules = delete flow.flow_id m.flow_id_to_rules } in
      let s' = (switches.delete_flow x flow s).0 in
      let (o, ended, done, same, exact) =
        remove_flows-Removes bridges flows m' s' (λ v b. found v (ground (arith, b))) in
      let only = h.deleted_only x flow s in
      rw (at, h.deleted x flow s, remove_flows)
        (
          o,
          ended,
          done,
          same,
          λ v n. elim (Bool-cases (x == v)) [
            | inl here ↦
                let e : x ≡ v = (string_eq.beq_iff x v).0 here in
                let there = ap (λ y. lookup y flows) (sym e) ∙ at in
                ground (arith, exact v n, only v n, here, there)
            | inr other ↦ ground (arith, exact v n, only v n, other)
          ],
        )
