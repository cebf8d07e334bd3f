-- ===== src/Datapath/Rules/Removal.antt =====
-- RemoveEveroutePolicyRule and ReplayVDSMicroSegmentFlow of
-- pkg/agent/datapath/multiBridgeDatapath.go. `none` is a nil dereference.
use everoute.Common.{
  ℕ, String, true, false, not, ◌&&◌, Option, none, some, List, [], ◌∷◌, ◌++◌, ◌==◌, nat_eq,
  string_eq, if◌then◌else◌,
}
use everoute.Common.Dict.{Dict, lookup, insert, delete}
use everoute.Common.Set.{has, remove}
use everoute.Datapath.Rules.{
  EveroutePolicyRuleEntry, FlowEntry, EntryPointer, current, detached, DpManager, Switches, Outcome,
  is_empty,
}

-- the pointers to an entry that leaves Rules
unfoldable pub detach : String → EveroutePolicyRuleEntry → Dict ℕ EntryPointer → Dict ℕ EntryPointer
detach id entry [] = []
detach id entry ((flow, detached e) ∷ rest) = (flow, detached e) ∷ detach id entry rest
detach id entry ((flow, current i) ∷ rest) =
    (flow, if i == id then detached entry else current i) ∷ detach id entry rest

module _ (switches : Switches) where
  open switches use {State}

  -- the loop over BridgeChainMap in RemoveEveroutePolicyRule
  unfoldable pub remove_flows :
      List String → Dict String FlowEntry → DpManager → State → Option (Outcome State)
  remove_flows [] flows m s = some (record { manager = m; state = s; done = true })
  remove_flows (vds ∷ bridges) flows m s = elim (lookup vds flows) [
    | none ↦ none
    | some flow ↦
        let (s', deleted) = switches.delete_flow vds flow s in
        elim deleted [
          | false ↦ some (record { manager = m; state = s'; done = false })
          | true ↦
              remove_flows bridges flows
                (record m { flow_id_to_rules = delete flow.flow_id m.flow_id_to_rules }) s'
        ]
  ]

  -- delete(datapathManager.Rules, ruleID), if there is no reference
  unfoldable pub forget : String → EveroutePolicyRuleEntry → DpManager → DpManager
  unfolding detach
  forget id entry m =
      if is_empty entry.policy_rule_reference
      then record m {
        rules = delete id m.rules;
        flow_id_to_rules = detach id entry m.flow_id_to_rules;
      }
      else m

  abbrev pub removed_flows :
      String → EveroutePolicyRuleEntry → Option (Outcome State) → Option (Outcome State)
  removed_flows id entry none = none
  removed_flows id entry (some o) =
      let m = record o.manager { cleaned = o.manager.cleaned ++ entry.everoute_policy_rule ∷ [] } in
      if o.done then some (record o { manager = forget id entry m }) else some o

  -- what follows once the entry is found
  unfoldable pub remove_entry :
      List String
      → String
      → String
      → Option EveroutePolicyRuleEntry
      → DpManager
      → State
      → Option (Outcome State)
  unfolding remove_flows forget
  remove_entry bridges id rule_name none m s = some (record { manager = m; state = s; done = true })
  remove_entry bridges id rule_name (some entry) m s =
      let refers = has rule_name entry.policy_rule_reference in
      let left = record entry {
        policy_rule_reference =
            if refers
            then remove rule_name entry.policy_rule_reference
            else entry.policy_rule_reference;
      } in
      let m' = record m { rules = insert id left m.rules } in
      if refers && not (is_empty left.policy_rule_reference)
      then some (record { manager = m'; state = s; done = true })
      else removed_flows id left (remove_flows bridges entry.rule_flow_map m' s)

  unfoldable pub remove_everoute_policy_rule :
      List String → String → String → DpManager → State → Option (Outcome State)
  unfolding remove_entry
  remove_everoute_policy_rule bridges id rule_name m s =
      remove_entry bridges id rule_name (lookup id m.rules) m s

  -- the body of the loop of ReplayVDSMicroSegmentFlow, after a flow was added
  unfoldable pub replace_flow :
      String → String → FlowEntry → EveroutePolicyRuleEntry → DpManager → DpManager
  replace_flow vds id flow entry m = record m {
    rules =
        insert id (record entry { rule_flow_map = insert vds flow entry.rule_flow_map }) m.rules;
    flow_id_to_rules = insert flow.flow_id (current id) m.flow_id_to_rules;
  }

  -- The flush of the connection table has no effect on the database.
  unfoldable pub replay_vds_micro_segment_flow :
      String → Dict String EveroutePolicyRuleEntry → DpManager → State → Outcome State
  unfolding replace_flow
  replay_vds_micro_segment_flow vds [] m s = record { manager = m; state = s; done = true }
  replay_vds_micro_segment_flow vds ((id, entry) ∷ rest) m s =
      let (s', answer) =
        switches.add_micro_segment_rule vds entry.everoute_policy_rule entry.place s in
      elim answer [
        | none ↦ record { manager = m; state = s'; done = false }
        | some flow ↦ replay_vds_micro_segment_flow vds rest (replace_flow vds id flow entry m) s'
      ]
