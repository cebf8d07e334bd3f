-- ===== src/Tests/DatapathTests.antt =====
-- The theorems on the datapath, on switches that are a list of flows.
use mathlib.Core.Path.{subst}
use everoute.Common.{
  ℕ, ◌+◌, ◌≤◌, ◌<◌, ◌≡◌, ◌≢◌, refl, sym, ap, String, Bool, true, false, not, ◌&&◌, Option, none,
  some, List, [], ◌∷◌, any, ◌==◌, nat_eq, string_eq, arith, if◌then◌else◌, inl, inr, ok, Bool-cases,
}
use everoute.Common.Dict.{Dict, lookup, insert}
use everoute.Common.Set.{has, add, remove}
use everoute.Datapath.Rounds.{
  RoundInfo, get_round_info, get_round_info-restart, persistent_round_info, max_round_num,
  datapath_restart_round,
}
use everoute.Datapath.Rules.{
  EveroutePolicyRule, EveroutePolicyRuleEntry, Place, Switches, Outcome, new_dp_manager,
  add_everoute_policy_rule,
}
use everoute.Datapath.Rules.Removal.{remove_everoute_policy_rule}
use everoute.Datapath.Rules.Loops.{IsReliable, AllDistinct}
use everoute.Datapath.Rules.Counted.{
  Call, adds, removes, call_all, Implements, all_after, References,
}
use everoute.Datapath.Rules.Calls.{call_all-Implements}
use everoute.Datapath.Rules.Foreign.{foreign_name_removes_flows}

-- the flows of the bridges, each with its ID
abbrev pub Flows : Type 0
Flows = List (String × ℕ)

abbrev pub on : Flows → String → ℕ → Bool
on flows v n = any (λ flow. flow.0 == v && flow.1 == n) flows

-- an ID above all others
abbrev next_id : Flows → ℕ
next_id [] = 1
next_id (flow ∷ flows) = flow.1 + 1 + next_id flows

abbrev drop : String → ℕ → Flows → Flows
drop v n [] = []
drop v n (flow ∷ flows) =
    let rest = drop v n flows in if flow.0 == v && flow.1 == n then rest else flow ∷ rest

on-lt-next_id : (flows : Flows) (v : String) (n : ℕ) → on flows v n ≡ true → n < next_id flows
on-lt-next_id [] v n h = absurd (ground (arith, h))
on-lt-next_id (flow ∷ flows) v n h =
    ground (arith, h, on-lt-next_id flows v n, nat_eq.beq_iff flow.1 n)

on-next_id : (flows : Flows) (v : String) → on flows v (next_id flows) ≡ false
on-next_id flows v = elim (Bool-cases (on flows v (next_id flows))) [
  | inl there ↦
      let below : next_id flows < next_id flows = on-lt-next_id flows v (next_id flows) there in
      absurd (omega arith)
  | inr free ↦ free
]

on-drop :
    (v : String) (n : ℕ) (flows : Flows) (u : String) (k : ℕ)
    → on (drop v n flows) u k ≡ (not (v == u && n == k) && on flows u k)
on-drop v n [] u k = ground arith
on-drop v n (flow ∷ flows) u k = ground (
  arith,
  on-drop v n flows u k,
  string_eq.beq_iff flow.0 v,
  string_eq.beq_iff flow.0 u,
  string_eq.beq_iff v u,
  nat_eq.beq_iff flow.1 n,
  nat_eq.beq_iff flow.1 k,
  nat_eq.beq_iff n k,
)

abbrev pub list_switches : Switches
list_switches = record {
  State = Flows;
  add_micro_segment_rule = λ vds rule place s.
      ((vds, next_id s) ∷ s, some (record { priority = rule.priority; flow_id = next_id s }));
  delete_flow = λ vds flow s. (drop vds flow.flow_id s, true);
}

-- the bridges accept every rule
abbrev pub accepts_all : EveroutePolicyRule → Place → Bool
accepts_all rule place = true

pub list_switches-IsReliable :
    (accepts : EveroutePolicyRule → Place → Bool) → IsReliable list_switches on accepts
list_switches-IsReliable accepts = record {
  added = λ vds rule place s yes_rule. (
    record { priority = rule.priority; flow_id = next_id s },
    refl,
    on-next_id s vds,
    λ v n. refl,
  );
  deleted = λ vds flow s. refl;
  deleted_only = λ vds flow s v n. on-drop vds flow.flow_id s v n;
}

-- traffic to port 80 of a server
abbrev web_rule : EveroutePolicyRule
web_rule = record {
  rule_id = "a1";
  priority = 200;
  src_ip_addr = "";
  dst_ip_addr = "10.0.0.1/32";
  ip_protocol = 6;
  src_port = 0;
  src_port_mask = 0;
  dst_port = 80;
  dst_port_mask = 65535;
  action = "allow";
}

abbrev web_place : Place
web_place = record { direction = 1; tier = 50; mode = "work" }

abbrev pub two_bridges : List String
two_bridges = "vds1" ∷ "vds2" ∷ []

-- two policies have the rule, and one is deleted
abbrev web_calls : List Call
web_calls =
    adds web_rule web_place "default/web/normal"
    ∷ adds web_rule web_place "default/shop/normal"
    ∷ removes "a1" "default/web/normal"
    ∷ []

pub two_bridges-AllDistinct : AllDistinct two_bridges
unfolding has
two_bridges-AllDistinct = (refl, (refl, tt))

abbrev pub nothing : References
nothing id name = false

call_all-Implements_example :
    (o : Outcome Flows) × (call_all list_switches two_bridges web_calls new_dp_manager [] ≡ some o)
    × (o.done ≡ true)
    × Implements list_switches two_bridges on
        (λ id. web_rule)
        o.manager
        o.state
        (all_after web_calls nothing)
call_all-Implements_example =
    call_all-Implements list_switches two_bridges on (λ id. web_rule) two_bridges-AllDistinct
      (list_switches-IsReliable accepts_all) web_calls []
      ((refl, refl), ((refl, refl), (inl refl, tt))) (λ v n. refl)

abbrev pub outcome_or : Option (Outcome Flows) → Outcome Flows
outcome_or none = record { manager = new_dp_manager; state = []; done = false }
outcome_or (some o) = o

unfoldable after_web : Outcome Flows
unfolding add_everoute_policy_rule remove_everoute_policy_rule
after_web = outcome_or (call_all list_switches two_bridges web_calls new_dp_manager [])

after_web-Implements :
    Implements list_switches two_bridges on
      (λ id. web_rule)
      after_web.manager
      after_web.state
      (all_after web_calls nothing)
unfolding after_web
after_web-Implements =
    let (o, ended, done, inv) =
      call_all-Implements list_switches two_bridges on (λ id. web_rule) two_bridges-AllDistinct
        (list_switches-IsReliable accepts_all) web_calls []
        ((refl, refl), ((refl, refl), (inl refl, tt))) (λ v n. refl) in
    subst
      (λ p.
        Implements list_switches two_bridges on (λ id. web_rule) p.manager p.state
          (all_after web_calls nothing))
      (sym (ap outcome_or ended)) inv

-- what is left of the rule: the second policy, and a flow on each bridge
abbrev web_entry : EveroutePolicyRuleEntry
web_entry = record {
  everoute_policy_rule = web_rule;
  place = web_place;
  rule_flow_map =
      ("vds1", record { priority = 200; flow_id = 1 })
      ∷ ("vds2", record { priority = 200; flow_id = 3 })
      ∷ [];
  policy_rule_reference = "default/shop/normal" ∷ [];
}

has-vds1 : has "vds1" two_bridges ≡ true
unfolding has
has-vds1 = refl

after_web-entry : lookup "a1" after_web.manager.rules ≡ some web_entry
unfolding after_web lookup insert has add remove
after_web-entry = refl

web_entry-flow :
    lookup "vds1" web_entry.rule_flow_map ≡ some (record { priority = 200; flow_id = 1 })
unfolding lookup
web_entry-flow = refl

foreign_name_removes_flows_example :
    (o : Outcome Flows) × (remove_everoute_policy_rule list_switches two_bridges "a1"
        "default/web/normal" after_web.manager after_web.state
      ≡ some o)
    × (o.done ≡ true)
    × (lookup "a1" o.manager.rules ≡ some web_entry)
    × (on o.state "vds1" 1 ≡ false)
foreign_name_removes_flows_example =
    foreign_name_removes_flows list_switches two_bridges on (λ id. web_rule)
      (list_switches-IsReliable accepts_all) "a1" "default/web/normal" after_web.manager
      after_web.state (all_after web_calls nothing) web_entry "vds1"
      (record { priority = 200; flow_id = 1 }) after_web-Implements after_web-entry refl has-vds1
      web_entry-flow

-- a bridge that was started fifteen times
abbrev fifteenth : Dict String String
fifteenth = (datapath_restart_round, "15") ∷ []

fifteenth-next :
    get_round_info (some fifteenth) ≡ ok (record { previous_round_num = 15; cur_round_num = 1 })
unfolding get_round_info lookup
fifteenth-next = refl

abbrev first_again : RoundInfo
first_again = record { previous_round_num = 15; cur_round_num = 1 }

get_round_info-restart_example :
    (1 ≤ first_again.cur_round_num)
    × (first_again.cur_round_num ≤ max_round_num)
    × (first_again.cur_round_num ≢ first_again.previous_round_num)
    × ((next : RoundInfo) × (get_round_info
            (some (persistent_round_info first_again.cur_round_num fifteenth))
          ≡ ok next)
        × (next.previous_round_num ≡ first_again.cur_round_num))
get_round_info-restart_example = get_round_info-restart fifteenth first_again fifteenth-next
