-- ===== src/Datapath/Rules.antt =====
-- AddEveroutePolicyRule of
-- pkg/agent/datapath/multiBridgeDatapath.go, with the database of rules. The lock makes each call
-- one step. The switches are an interface: AddMicroSegmentRule of a policy bridge, which may fail,
-- and ofctrl.DeleteFlow. `none` is a nil dereference.
pub mod Counted
pub mod Loops
pub mod Removal
pub mod Refines
pub mod Released
pub mod Calls
pub mod Foreign
use everoute.Common.{
  ℕ, String, Bool, true, false, not, ◌&&◌, ◌↔◌, ◌≡◌, Option, none, some, List, [], ◌∷◌, ◌++◌, ◌==◌,
  Eq, nat_eq, string_eq, if◌then◌else◌, arith,
}
use everoute.Common.Dict.{Dict, lookup, insert, delete}
use everoute.Common.Set.{has, add, remove}

pub record EveroutePolicyRule : Type 0 where
  pub rule_id : String
  pub priority : ℕ
  pub src_ip_addr : String
  pub dst_ip_addr : String
  pub ip_protocol : ℕ
  pub src_port : ℕ
  pub src_port_mask : ℕ
  pub dst_port : ℕ
  pub dst_port_mask : ℕ
  pub action : String

-- the arguments direction, tier and mode
pub record Place : Type 0 where
  pub direction : ℕ
  pub tier : ℕ
  pub mode : String

-- The table of a flow is that of the bridge.
pub record FlowEntry : Type 0 where
  pub priority : ℕ
  pub flow_id : ℕ

pub record EveroutePolicyRuleEntry : Type 0 where
  pub everoute_policy_rule : EveroutePolicyRule
  pub place : Place
  pub rule_flow_map : Dict String FlowEntry
  pub policy_rule_reference : List String

-- A pointer of FlowIDToRules: to the entry that Rules has under an ID, or to an entry that is no
-- longer there. Only entries of Rules are written.
pub data EntryPointer : Type 0 where
  current : String → EntryPointer
  detached : EveroutePolicyRuleEntry → EntryPointer

-- the fields of DpManager that these calls use, and what they sent to cleanConntrackChan
pub record DpManager : Type 0 where
  pub rules : Dict String EveroutePolicyRuleEntry
  pub flow_id_to_rules : Dict ℕ EntryPointer
  pub cleaned : List EveroutePolicyRule

abbrev pub new_dp_manager : DpManager
new_dp_manager = record { rules = []; flow_id_to_rules = []; cleaned = [] }

-- The policy bridges, by the ID of the VDS.
pub record Switches : Type 1 where
  pub State : Type 0
  pub add_micro_segment_rule :
      String → EveroutePolicyRule → Place → State → State × Option FlowEntry
  pub delete_flow : String → FlowEntry → State → State × Bool

-- reflect.DeepEqual compares the fields one by one
unfoldable pub policy_rule_is_same : EveroutePolicyRule → EveroutePolicyRule → Bool
policy_rule_is_same a b =
    a.rule_id == b.rule_id
    && a.priority == b.priority
    && a.src_ip_addr == b.src_ip_addr
    && a.dst_ip_addr == b.dst_ip_addr
    && a.ip_protocol == b.ip_protocol
    && a.src_port == b.src_port
    && a.src_port_mask == b.src_port_mask
    && a.dst_port == b.dst_port
    && a.dst_port_mask == b.dst_port_mask
    && a.action == b.action

-- datapathManager.FlowIDToRules[v.FlowID] = ruleEntry, for the flows of the entry
unfoldable pub save_flow_ids :
    String → Dict String FlowEntry → Dict ℕ EntryPointer → Dict ℕ EntryPointer
save_flow_ids id [] flows = flows
save_flow_ids id ((vds, flow) ∷ rest) flows =
    save_flow_ids id rest (insert flow.flow_id (current id) flows)

-- the references of the entry that is there, or of a new one
abbrev pub references : String → Option EveroutePolicyRuleEntry → List String
references rule_name none = rule_name ∷ []
references rule_name (some entry) = entry.policy_rule_reference

unfoldable pub save_rule :
    EveroutePolicyRule
    → String
    → Place
    → Option EveroutePolicyRuleEntry
    → Dict String FlowEntry
    → DpManager
    → DpManager
unfolding save_flow_ids
save_rule rule rule_name place old flows m = record m {
  rules =
      insert rule.rule_id
        (record {
          everoute_policy_rule = rule;
          place = place;
          rule_flow_map = flows;
          policy_rule_reference = references rule_name old;
        })
        m.rules;
  flow_id_to_rules = save_flow_ids rule.rule_id flows m.flow_id_to_rules;
  cleaned = m.cleaned ++ rule ∷ [];
}

unfoldable pub is_same_rule : EveroutePolicyRule → Option EveroutePolicyRuleEntry → Bool
unfolding policy_rule_is_same
is_same_rule rule none = false
is_same_rule rule (some entry) = policy_rule_is_same entry.everoute_policy_rule rule

abbrev pub is_empty : List String → Bool
is_empty [] = true
is_empty (x ∷ xs) = false

-- what a call leaves, and whether it returned no error
pub record Outcome (State : Type 0) : Type 0 where
  pub manager : DpManager
  pub state : State
  pub done : Bool

module _ (switches : Switches) where
  open switches use {State}

  -- the loop over BridgeChainMap in AddEveroutePolicyRule; no map is an error
  unfoldable pub install :
      EveroutePolicyRule
      → Place
      → List String
      → Dict String FlowEntry
      → State
      → State × Option (Dict String FlowEntry)
  install rule place [] flows s = (s, some flows)
  install rule place (vds ∷ bridges) flows s =
      let (s', answer) = switches.add_micro_segment_rule vds rule place s in
      elim answer [
        | none ↦ (s', none)
        | some flow ↦ install rule place bridges (insert vds flow flows) s'
      ]

  abbrev pub installed_rule :
      EveroutePolicyRule
      → String
      → Place
      → Option EveroutePolicyRuleEntry
      → DpManager
      → State × Option (Dict String FlowEntry)
      → Outcome State
  installed_rule rule rule_name place old m (s, none) = record {
    manager = m;
    state = s;
    done = false;
  }
  installed_rule rule rule_name place old m (s, some flows) = record {
    manager = save_rule rule rule_name place old flows m;
    state = s;
    done = true;
  }

  -- PolicyRuleReference.Insert of an entry that has the rule
  unfoldable pub refer : String → String → Option EveroutePolicyRuleEntry → DpManager → DpManager
  refer id rule_name none m = m
  refer id rule_name (some entry) m = record m {
    rules =
        insert id
          (record entry { policy_rule_reference = add rule_name entry.policy_rule_reference })
          m.rules;
  }

  unfoldable pub add_everoute_policy_rule :
      List String → EveroutePolicyRule → String → Place → DpManager → State → Outcome State
  unfolding install save_rule is_same_rule refer
  add_everoute_policy_rule bridges rule rule_name place m s =
      let old = lookup rule.rule_id m.rules in
      if is_same_rule rule old
      then record { manager = refer rule.rule_id rule_name old m; state = s; done = true }
      else installed_rule rule rule_name place old m (install rule place bridges [] s)
